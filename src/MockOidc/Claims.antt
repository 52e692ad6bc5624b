-- ===== src/MockOidc/Claims.antt =====
-- internal/mockoidc/mockoidc.go: the claims of a minted token.
use nats_jwt_callout.Base.{
  ◌≡◌, refl, sym, ap, ◌∙◌, none, some, Option, [], ◌∷◌, ◌++◌, Str, codes, ◌==◌, ==_iff, Bool-cases,
  inl, inr,
}
use nats_jwt_callout.Base.Dict.{Dict, lookup, insert, lookup-insert}
use nats_jwt_callout.Base.Int.{ℤ}
use nats_jwt_callout.Callout.{unix}
use nats_jwt_callout.MockOidc.{
  ClaimValue, NamespaceValue, TokenOptions, copy_into, namespace_claims, put_names, put_not_before,
  mint_claims, strconv_i,
}

-- The keys of a map are distinct.
abbrev pub IsMap : {V : Type 0} → Dict V → Type 0
IsMap [] = Unit
IsMap (entry ∷ m) = (lookup entry.0 m ≡ none) × IsMap m

abbrev pub first_of {ℓ} : {A : Type ℓ} → Option A → Option A → Option A
first_of none other = other
first_of (some a) other = some a

lookup-copy_into :
    {V : Type 0} (k : Str) (dst src : Dict V)
    → IsMap src
    → lookup k (copy_into dst src) ≡ first_of (lookup k src) (lookup k dst)
unfolding copy_into lookup
lookup-copy_into k dst [] h = refl
lookup-copy_into k dst ((j, v) ∷ src) (unused, h) =
    let induction = lookup-copy_into k (insert j v dst) src h in
    elim (Bool-cases (j == k)) [
      | inl same ↦
          rw
            (
              induction,
              lookup-insert j k v dst,
              same,
              sym (ap (λ i. lookup i src) ((==_iff j k).0 same)),
              unused,
            )
            refl
      | inr other ↦ rw (induction, lookup-insert j k v dst, other) refl
    ]

first_of-none : {A : Type 0} (a : Option A) → first_of a none ≡ a
first_of-none none = refl
first_of-none (some x) = refl

first_of_assoc :
    {A : Type 0} (a b c : Option A) → first_of (first_of a b) c ≡ first_of a (first_of b c)
first_of_assoc none b c = refl
first_of_assoc (some x) b c = refl

lookup-append :
    {V : Type 0} (k : Str) (xs ys : Dict V)
    → lookup k (xs ++ ys) ≡ first_of (lookup k xs) (lookup k ys)
unfolding lookup
lookup-append k [] ys = refl
lookup-append k ((j, v) ∷ xs) ys = elim (Bool-cases (j == k)) [
  | inl same ↦ rw same refl
  | inr other ↦ rw other (lookup-append k xs ys)
]

-- A map that is written over another one, its first entry last.
abbrev insert_all : {V : Type 0} → Dict V → Dict V → Dict V
insert_all [] under = under
insert_all ((j, v) ∷ top) under = insert j v (insert_all top under)

lookup-insert_all :
    {V : Type 0} (k : Str) (top under : Dict V)
    → lookup k (insert_all top under) ≡ first_of (lookup k top) (lookup k under)
unfolding lookup
lookup-insert_all k [] under = refl
lookup-insert_all k ((j, v) ∷ top) under =
    let induction = lookup-insert_all k top under in
    elim (Bool-cases (j == k)) [
      | inl same ↦ rw (lookup-insert j k v (insert_all top under), same) refl
      | inr other ↦ rw (lookup-insert j k v (insert_all top under), other) induction
    ]

lookup-insert_over :
    {V : Type 0} (k j : Str) (v : V) (d : Dict V)
    → lookup k (insert j v d) ≡ first_of (lookup k (insert j v [])) (lookup k d)
unfolding lookup insert
lookup-insert_over k j v d = elim (Bool-cases (j == k)) [
  | inl same ↦ rw (lookup-insert j k v d, same) refl
  | inr other ↦ rw (lookup-insert j k v d, other) refl
]

lookup-put_names :
    (k : Str) (ns : Dict NamespaceValue) (claims : Dict ClaimValue)
    → lookup k (put_names ns claims) ≡ first_of (lookup k (put_names ns [])) (lookup k claims)
unfolding lookup
lookup-put_names k [] claims = refl
lookup-put_names k (entry ∷ ns) claims = lookup-insert_over k _ _ claims

lookup-put_not_before :
    (k : Str) (t : Option ℤ) (claims : Dict ClaimValue)
    → lookup k (put_not_before t claims)
      ≡ first_of (lookup k (put_not_before t [])) (lookup k claims)
unfolding lookup
lookup-put_not_before k none claims = refl
lookup-put_not_before k (some t) claims = lookup-insert_over k _ _ claims

-- The claims that `Mint` writes itself.
abbrev always_written : Str → ℤ → ℤ → TokenOptions → Dict ClaimValue
always_written iss iat exp opts =
    (codes "jti", ClaimValue.text (opts.subject ++ codes "-" ++ strconv_i iat))
    ∷ (codes "exp", ClaimValue.int64 (unix exp))
    ∷ (codes "iat", ClaimValue.int64 (unix iat))
    ∷ (codes "aud", ClaimValue.texts opts.audience)
    ∷ (codes "sub", ClaimValue.text opts.subject)
    ∷ (codes "iss", ClaimValue.text iss)
    ∷ []

unfoldable pub standard_claims : Str → ℤ → ℤ → TokenOptions → Dict ClaimValue
standard_claims iss iat exp opts =
    put_names (namespace_claims opts) []
    ++ put_not_before opts.not_before []
    ++ always_written iss iat exp opts

lookup-put_all :
    (k : Str) (ns : Dict NamespaceValue) (t : Option ℤ) (top under : Dict ClaimValue)
    → lookup k (put_names ns (put_not_before t (insert_all top under)))
      ≡ first_of (lookup k (put_names ns [] ++ put_not_before t [] ++ top)) (lookup k under)
lookup-put_all k ns t top under =
    rw
      (
        lookup-put_names k ns (put_not_before t (insert_all top under)),
        lookup-put_not_before k t (insert_all top under),
        lookup-insert_all k top under,
        lookup-append k (put_names ns [] ++ put_not_before t []) top,
        lookup-append k (put_names ns []) (put_not_before t []),
        first_of_assoc (first_of (lookup k (put_names ns [])) (lookup k (put_not_before t [])))
            (lookup k top) (lookup k under),
        first_of_assoc (lookup k (put_names ns [])) (lookup k (put_not_before t []))
            (first_of (lookup k top) (lookup k under)),
      )
      refl

-- The claims of a minted token are the extra ones, overridden by those that `Mint` writes itself: the
-- issuer, the subject, the audience, the times of issue and expiry and the token's id in any case,
-- `nbf` where a time is given for it, and the object for AWS where it has a member. The keys of the
-- extra claims are distinct.
pub lookup-mint_claims :
    (k iss : Str) (iat exp : ℤ) (opts : TokenOptions)
    → IsMap opts.extra_claims
    → lookup k (mint_claims iss iat exp opts)
      ≡ first_of (lookup k (standard_claims iss iat exp opts)) (lookup k opts.extra_claims)
unfolding mint_claims standard_claims lookup
lookup-mint_claims k iss iat exp opts h =
    lookup-put_all k (namespace_claims opts) opts.not_before (always_written iss iat exp opts)
      (copy_into [] opts.extra_claims)
    ∙ ap (first_of (lookup k (standard_claims iss iat exp opts)))
        (lookup-copy_into k [] opts.extra_claims h ∙ first_of-none (lookup k opts.extra_claims))

names_iss-put_names : (ns : Dict NamespaceValue) → lookup (codes "iss") (put_names ns []) ≡ none
unfolding lookup insert ◌==◌
names_iss-put_names [] = refl
names_iss-put_names (entry ∷ ns) = refl

names_iss-put_not_before : (t : Option ℤ) → lookup (codes "iss") (put_not_before t []) ≡ none
unfolding lookup insert ◌==◌
names_iss-put_not_before none = refl
names_iss-put_not_before (some t) = refl

-- The issuer is what `Mint` has chosen, whatever the extra claims hold.
pub lookup_iss-mint_claims :
    (iss : Str) (iat exp : ℤ) (opts : TokenOptions)
    → lookup (codes "iss") (mint_claims iss iat exp opts) ≡ some (ClaimValue.text iss)
unfolding mint_claims lookup ◌==◌
lookup_iss-mint_claims iss iat exp opts =
    lookup-put_all (codes "iss") (namespace_claims opts) opts.not_before
      (always_written iss iat exp opts) (copy_into [] opts.extra_claims)
    ∙ rw
        (
          lookup-append (codes "iss")
              (put_names (namespace_claims opts) [] ++ put_not_before opts.not_before [])
              (always_written iss iat exp opts),
          lookup-append (codes "iss") (put_names (namespace_claims opts) [])
              (put_not_before opts.not_before []),
          names_iss-put_names (namespace_claims opts),
          names_iss-put_not_before opts.not_before,
        )
        refl
