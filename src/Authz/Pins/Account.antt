-- ===== src/Authz/Pins/Account.antt =====
-- When an account that a pattern pins is the account of every subject that the pattern accepts.
use nats_jwt_callout.Base.{
  ℕ, zero, suc, ◌≤◌, ◌≡◌, refl, sym, ap, ◌∙◌, inl, inr, Bool, true, false, Option, none, some, List,
  [], ◌∷◌, reverse, Str, codes, eqb, if◌then◌else◌, all, get_elem?, cut_prefix, trim_prefix,
  trim_suffix, contains_byte, split_n, cons_first, arith, Bool-cases,
}
use mathlib.Core.Option
use nats_jwt_callout.Authz.Sub.Glob.{GlobMatches, done, byte, leave, take}
use nats_jwt_callout.Authz.Sub.Matching.{IsGlob}
use nats_jwt_callout.Authz.Pins.{
  is_digit, is_aws_account_id, bare_pattern, account_field, account_pinned_in_arn,
}

-- The colon-separated field `k` of a text.
unfoldable pub field : ℕ → Str → Option Str
field zero [] = some []
field (suc k) [] = none
field zero (c ∷ s) =
    let rest = field zero s in if eqb c b':' then some [] else Option.map (λ f. c ∷ f) rest
field (suc k) (c ∷ s) =
    let next = field k s in let rest = field (suc k) s in if eqb c b':' then next else rest

get_elem?-cons_first :
    (c k : ℕ) (parts : List Str) → get_elem? (cons_first c parts) (suc k) ≡ get_elem? parts (suc k)
get_elem?-cons_first c k [] = refl
get_elem?-cons_first c k (part ∷ parts) = refl

get_elem?-cons_first_zero :
    (c : ℕ) (parts : List Str) {f : Str}
    → get_elem? parts 0 ≡ some f
    → get_elem? (cons_first c parts) 0 ≡ some (c ∷ f)
get_elem?-cons_first_zero c [] h = absurd (ground arith)
get_elem?-cons_first_zero c (part ∷ parts) h = ground arith

field-zero : (s : Str) → (f : Str) × (field zero s ≡ some f)
unfolding field
field-zero [] = ([], refl)
field-zero (c ∷ s) = elim (Bool-cases (eqb c b':')) [
  | inl cut ↦ ([], rw cut)
  | inr kept ↦ let (f, e) = field-zero s in (c ∷ f, rw (kept, e))
]

-- The fields before the last that SplitN makes.
pub get_elem?-split_n :
    (k n : ℕ) (s : Str) → k ≤ n → get_elem? (split_n s b':' (suc (suc n))) k ≡ field k s
unfolding split_n field
get_elem?-split_n zero n [] h = refl
get_elem?-split_n (suc k) n [] h = refl
get_elem?-split_n zero n (c ∷ s) h = elim (Bool-cases (eqb c b':')) [
  | inl cut ↦ rw cut
  | inr kept ↦
      let (f, e) = field-zero s in
      rw (kept, e)
        (get_elem?-cons_first_zero c (split_n s b':' (suc (suc n)))
          (get_elem?-split_n zero n s h ∙ e))
]
get_elem?-split_n (suc k) zero (c ∷ s) h = absurd (omega arith)
get_elem?-split_n (suc k) (suc n) (c ∷ s) h = elim (Bool-cases (eqb c b':')) [
  | inl cut ↦ rw cut (get_elem?-split_n k n s (omega arith))
  | inr kept ↦ rw kept (
      get_elem?-cons_first c k (split_n s b':' (suc (suc (suc n))))
      ∙ get_elem?-split_n (suc k) (suc n) s h)
]

-- No star stands in the fields 0 to `k`.
abbrev pub literal_through : ℕ → Str → Bool
literal_through k [] = true
literal_through zero (c ∷ s) =
    let rest = literal_through zero s in
    if eqb c b'*' then false else if eqb c b':' then true else rest
literal_through (suc k) (c ∷ s) =
    let next = literal_through k s in
    let rest = literal_through (suc k) s in
    if eqb c b'*' then false else if eqb c b':' then next else rest

literal_field :
    (p f : Str)
    → field zero p ≡ some f
    → contains_byte f b'*' ≡ false
    → literal_through zero p ≡ true
unfolding field contains_byte
literal_field [] f e free = refl
literal_field (c ∷ p) f e free = elim (Bool-cases (eqb c b':')) [
  | inl cut ↦ ground arith
  | inr kept ↦ let (g, e') = field-zero p in ground (arith, literal_field p g e')
]

literal_through-suc :
    (k : ℕ) (p : Str) {f : Str}
    → literal_through k p ≡ true
    → field (suc k) p ≡ some f
    → contains_byte f b'*' ≡ false
    → literal_through (suc k) p ≡ true
unfolding field contains_byte
literal_through-suc zero [] h e free = absurd (ground arith)
literal_through-suc (suc k) [] h e free = absurd (ground arith)
literal_through-suc zero (c ∷ p) {f} h e free =
    ground (arith, literal_through-suc zero p {f = f}, literal_field p f)
literal_through-suc (suc k) (c ∷ p) {f} h e free =
    ground (arith, literal_through-suc k p {f = f}, literal_through-suc (suc k) p {f = f})

-- A star-free stretch of fields is matched byte by byte.
field-GlobMatches :
    {p s : Str} → GlobMatches p s → (k : ℕ) → literal_through k p ≡ true → field k s ≡ field k p
unfolding field
field-GlobMatches done k h = refl
field-GlobMatches (byte {c} {d} {p} {s} plain same m) zero h =
    ground (arith, field-GlobMatches m zero)
field-GlobMatches (byte {c} {d} {p} {s} plain same m) (suc k) h =
    ground (arith, field-GlobMatches m k, field-GlobMatches m (suc k))
field-GlobMatches (leave {c} star m) zero h = absurd (ground arith)
field-GlobMatches (leave {c} star m) (suc k) h = absurd (ground arith)
field-GlobMatches (take {c} star other m) zero h = absurd (ground arith)
field-GlobMatches (take {c} star other m) (suc k) h = absurd (ground arith)

digits-plain : (s : Str) → all is_digit s ≡ true → contains_byte s b'*' ≡ false
unfolding contains_byte is_digit
digits-plain [] h = refl
digits-plain (c ∷ s) h = ground (arith, digits-plain s)

pub account_id-plain : (s : Str) → is_aws_account_id s ≡ true → contains_byte s b'*' ≡ false
unfolding is_aws_account_id
account_id-plain s h = digits-plain s (ground arith)

-- A glob that does not begin with "^" or end with "$", which the guardrail would trim.
pub record IsPlainGlob (pattern : Str) : Type 0 where
  pub glob : IsGlob pattern
  pub no_caret : cut_prefix pattern (codes "^") ≡ none
  pub no_dollar : cut_prefix (reverse pattern) (codes "$") ≡ none

bare_pattern-plain : {p : Str} → IsPlainGlob p → bare_pattern p ≡ p
unfolding bare_pattern trim_prefix trim_suffix
bare_pattern-plain {p} h = rw (h.glob.no_re, h.no_caret, h.no_dollar)

pinned_field :
    (o : Option Str)
    → account_field o ≡ true
    → (f : Str) × (o ≡ some f) × (is_aws_account_id f ≡ true)
pinned_field none h = absurd (cc)
pinned_field (some f) h = (f, refl, h)

pub account_pinned_inv :
    {p : Str}
    → IsPlainGlob p
    → account_pinned_in_arn p ≡ true
    → (f : Str) × (field 4 p ≡ some f) × (is_aws_account_id f ≡ true)
unfolding account_pinned_in_arn
account_pinned_inv {p} h e =
    let (f, at, id) = pinned_field (get_elem? (split_n (bare_pattern p) b':' 6) 4) (ground arith) in
    (
      f,
      sym (get_elem?-split_n 4 4 p (omega arith))
          ∙ ap (λ q. get_elem? (split_n q b':' 6) 4) (sym (bare_pattern-plain h))
          ∙ at,
      id,
    )

-- A glob whose first four colon-separated fields have no star, and whose account is pinned, accepts
-- only subjects whose fifth field is that account, twelve digits.
pub account_pinned-GlobMatches :
    (p s : Str)
    → IsPlainGlob p
    → account_pinned_in_arn p ≡ true
    → literal_through 3 p ≡ true
    → GlobMatches p s
    → (account : Str) × (is_aws_account_id account ≡ true)
      × (get_elem? (split_n p b':' 6) 4 ≡ some account)
      × (get_elem? (split_n s b':' 6) 4 ≡ some account)
account_pinned-GlobMatches p s plain pinned literal m =
    let (f, at, id) = account_pinned_inv plain pinned in
    let through = literal_through-suc 3 p literal at (account_id-plain f id) in
    (
      f,
      id,
      get_elem?-split_n 4 4 p (omega arith) ∙ at,
      get_elem?-split_n 4 4 s (omega arith) ∙ field-GlobMatches m 4 through ∙ at,
    )
