-- ===== src/AwsAuth/Source/Trimming.antt =====
-- strings.TrimSpace, as lib/awsauth and lib/k8sauth call it: one round for each byte is enough.
use nats_jwt_callout.Base.{
  ℕ, zero, suc, ◌<◌, ◌≤◌, ◌≡◌, refl, ap, inl, inr, ◌≢◌, none, some, List, [], ◌∷◌, Str, length,
  length-append, All, cut_prefix, cut_prefix-eq-some, arith, Option-cases,
}
use nats_jwt_callout.AwsAuth.Source.{cut_any, trim_rounds}

cut_prefix_shorter : (s p : Str) {r : Str} → p ≢ [] → cut_prefix s p ≡ some r → length r < length s
cut_prefix_shorter s [] set h = absurd (set refl)
cut_prefix_shorter s (c ∷ p) {r} set h =
    let whole = ap length (cut_prefix-eq-some s (c ∷ p) h) in
    omega (arith, whole, length-append p r)

cut_any_shorter :
    (ps : List Str) (s : Str) {r : Str}
    → All (λ p. p ≢ []) ps
    → cut_any ps s ≡ some r
    → length r < length s
unfolding cut_any
cut_any_shorter [] s set h = absurd (cc)
cut_any_shorter (p ∷ ps) s {r} set h = elim (Option-cases (cut_prefix s p)) [
  | inl missing ↦ cut_any_shorter ps s {r = r} set.1 (ground arith)
  | inr (rest, found) ↦ cut_prefix_shorter s p {r = r} set.0 (ground arith)
]

-- Of a text with at most as many bytes as there are rounds, nothing is left to trim at the front, if no
-- pattern is empty.
pub trim_rounds-done :
    (n : ℕ) (ps : List Str) (s : Str)
    → All (λ p. p ≢ []) ps
    → length s ≤ n
    → cut_any ps (trim_rounds n ps s) ≡ none
unfolding trim_rounds
trim_rounds-done zero ps [] set enough = elim (Option-cases (cut_any ps [])) [
  | inl nothing ↦ nothing
  | inr (rest, found) ↦
      absurd (let less = cut_any_shorter ps [] {r = rest} set found in omega arith)
]
trim_rounds-done zero ps (c ∷ s) set enough = absurd (omega arith)
trim_rounds-done (suc n) ps s set enough = elim (Option-cases (cut_any ps s)) [
  | inl nothing ↦ rw (trim_rounds, nothing) nothing
  | inr (rest, found) ↦
      let less = cut_any_shorter ps s {r = rest} set found in
      rw (trim_rounds, found) (trim_rounds-done n ps rest set (omega arith))
]
