-- ===== src/MockOidc/Keys.antt =====
-- internal/mockoidc/mockoidc.go: the rotation of the signing keys.
use nats_jwt_callout.Base.{
  ℕ, zero, suc, ◌+◌, ◌≡◌, refl, sym, ap, none, some, List, [], ◌∷◌, Str, ◌==◌, is_empty, get_elem?,
  tally, arith, inl, inr, ok, err, Bool-cases, Option-cases, true, false,
}
use nats_jwt_callout.Base.Int.{ℤ}
use nats_jwt_callout.MockOidc.{
  Fatal, Packages, Key, Server, TokenOptions, index_of, put_at, swap_first, set_default_key,
  find_key, mint_claims, namespace_claims, default_key, signer, mint,
}

module _ (p : Packages) where
  tally-put_at :
      (w : Key p → ℕ) (i : ℕ) (k new : Key p) (keys : List (Key p))
      → get_elem? keys i ≡ some k
      → tally w (put_at p i new keys) + w k ≡ tally w keys + w new
  unfolding put_at
  tally-put_at w i k new [] h = absurd (ground arith)
  tally-put_at w zero k new (first ∷ keys) h =
      let same : first ≡ k = ground arith in omega (arith, ap w same)
  tally-put_at w (suc i) k new (first ∷ keys) h = omega (arith, tally-put_at w i k new keys h)

  tally-swap_first :
      (w : Key p → ℕ) (i : ℕ) (keys : List (Key p)) → tally w (swap_first p i keys) ≡ tally w keys
  unfolding swap_first
  tally-swap_first w i [] = refl
  tally-swap_first w zero (first ∷ keys) = refl
  tally-swap_first w (suc i) (first ∷ keys) = elim (Option-cases (get_elem? keys i)) [
    | inl beyond ↦ rw beyond refl
    | inr (k, found) ↦ rw found (omega (arith, tally-put_at w i k first keys found))
  ]

  -- The index is that of the key which `findKey` returns.
  find_key-index_of :
      (kid : Str) (keys : List (Key p)) {k : Key p}
      → find_key p kid keys ≡ ok k
      → (i : ℕ) × (index_of p kid keys ≡ some i) × (get_elem? keys i ≡ some k)
  unfolding find_key index_of
  find_key-index_of kid [] h = absurd (ground arith)
  find_key-index_of kid (first ∷ keys) h = elim (Bool-cases (first.kid == kid)) [
    | inl same ↦ (0, rw same refl, ground arith)
    | inr other ↦
        let (i, at, found) = find_key-index_of kid keys (rw other at h) in
        (suc i, rw (other, at) refl, found)
  ]

  find_key-missing :
      (kid : Str) (keys : List (Key p)) {e : Fatal}
      → find_key p kid keys ≡ err e
      → (e ≡ Fatal.no_key kid) × (index_of p kid keys ≡ none)
  unfolding find_key index_of
  find_key-missing kid [] h = (ground arith, refl)
  find_key-missing kid (first ∷ keys) h = elim (Bool-cases (first.kid == kid)) [
    | inl same ↦ absurd (ground arith)
    | inr other ↦
        let (e, missing) = find_key-missing kid keys (rw other at h) in
        (e, rw (other, missing) refl)
  ]

  default_key-swap_first :
      (i : ℕ) (keys : List (Key p)) {k : Key p}
      → get_elem? keys i ≡ some k
      → default_key p (swap_first p i keys) ≡ ok k
  unfolding default_key swap_first
  default_key-swap_first i [] h = absurd (ground arith)
  default_key-swap_first zero (first ∷ keys) h = ground arith
  default_key-swap_first (suc i) (first ∷ keys) h = rw h refl

  -- Some key is the default one where a key is found.
  find_key-default_key :
      (kid : Str) (keys : List (Key p)) {k : Key p}
      → find_key p kid keys ≡ ok k
      → (first : Key p) × (default_key p keys ≡ ok first)
  unfolding default_key find_key
  find_key-default_key kid [] h = absurd (ground arith)
  find_key-default_key kid (first ∷ keys) h = (first, refl)

  -- Rotating to a kid that no key has changes nothing, and any rotation keeps the keys.
  set_default_key-keeps :
      (kid : Str) (s : Server p) (w : Key p → ℕ)
      → tally w (set_default_key p kid s).keys ≡ tally w s.keys
  unfolding set_default_key
  set_default_key-keeps kid s w = elim (Option-cases (index_of p kid s.keys)) [
    | inl missing ↦ rw missing refl
    | inr (i, at) ↦ rw at (tally-swap_first w i s.keys)
  ]

  set_default_key-default_key :
      (kid : Str) (s : Server p) {k : Key p}
      → find_key p kid s.keys ≡ ok k
      → default_key p (set_default_key p kid s).keys ≡ ok k
  unfolding set_default_key
  set_default_key-default_key kid s h =
      let (i, at, found) = find_key-index_of kid s.keys h in
      rw at (default_key-swap_first i s.keys found)

  signer-set_default_key :
      (kid : Str) (opts : TokenOptions) (s : Server p) {k : Key p}
      → find_key p kid s.keys ≡ ok k
      → is_empty kid ≡ false
      → is_empty opts.sign_with_kid ≡ true
      → signer p opts (set_default_key p kid s).keys
        ≡ signer p (record opts { sign_with_kid = kid }) s.keys
  unfolding signer
  signer-set_default_key kid opts s h named unset =
      let (first, some_key) = find_key-default_key kid s.keys h in
      rw (set_default_key-default_key kid s h, some_key, unset, named) (sym h)

  -- After `SetDefaultKey`, a token that names no key is the one that `SignWithKid` gave before, where a
  -- key has the kid; and the server has the same keys as before, each as often.
  pub mint-set_default_key :
      (now : ℤ) (kid : Str) (opts : TokenOptions) (s : Server p) (k : Key p)
      → find_key p kid s.keys ≡ ok k
      → is_empty kid ≡ false
      → is_empty opts.sign_with_kid ≡ true
      → (mint p now opts (set_default_key p kid s)
          ≡ mint p now (record opts { sign_with_kid = kid }) s)
        × ((w : Key p → ℕ) → tally w (set_default_key p kid s).keys ≡ tally w s.keys)
  unfolding mint set_default_key mint_claims namespace_claims
  mint-set_default_key now kid opts s k h named unset =
      (rw (signer-set_default_key kid opts s h named unset) refl, set_default_key-keeps kid s)
