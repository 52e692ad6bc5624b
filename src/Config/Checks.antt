-- ===== src/Config/Checks.antt =====
-- internal/config/config.go: what the checks and the defaults establish, one by one.
use nats_jwt_callout.Base.{
  ℕ, suc, ◌≡◌, refl, inl, inr, ◌≢◌, Bool, true, false, Option, none, some, List, [], ◌∷◌, Str,
  is_empty, no_items, is_empty_iff, if◌then◌else◌, All, arith, ok, Bool-cases,
}
use nats_jwt_callout.Base.Int.{ℤ, is_zero}
use nats_jwt_callout.Config.{
  MetricsConfig, IssuerConfig, ConfigError, metrics_defaults, or_default, default_metrics_address,
  default_metrics_path, default_http_timeout, missing_url, check, no_missing_url,
}

pub check_inv : (e : ConfigError) (b : Bool) {u : Unit {0}} → check e b ≡ ok u → b ≡ false
check_inv e true h = absurd (ground arith)
check_inv e false h = refl

pub missing_url-eq-none :
    (i : ℕ) (issuers : List IssuerConfig)
    → missing_url i issuers ≡ none
    → All (λ iss. iss.url ≢ []) issuers
unfolding missing_url
missing_url-eq-none i [] h = tt
missing_url-eq-none i (iss ∷ issuers) h = elim (Bool-cases (is_empty iss.url)) [
  | inl empty ↦ absurd (ground arith)
  | inr set ↦ (
    λ e. ground (arith, is_empty_iff iss.url),
    missing_url-eq-none (suc i) issuers (ground arith),
  )
]

pub no_missing_url_inv : (o : Option ℕ) {u : Unit {0}} → no_missing_url o ≡ ok u → o ≡ none
no_missing_url_inv none h = refl
no_missing_url_inv (some i) h = absurd (ground arith)

pub nonempty-no_items_inv : {A : Type 0} (xs : List A) → no_items xs ≡ false → xs ≢ []
nonempty-no_items_inv [] h e = absurd (cc)
nonempty-no_items_inv (x ∷ xs) h e = absurd (cc)

abbrev pub HasEndpoint : MetricsConfig → Type 0
HasEndpoint m = m.enabled ≡ true → (m.address ≢ []) × (m.path ≢ [])

pub or_default_nonempty : (s d : Str) → d ≢ [] → or_default s d ≢ []
or_default_nonempty [] d h = h
or_default_nonempty (c ∷ s) d h = λ e. absurd (cc)

pub metrics_defaults-HasEndpoint : (m : MetricsConfig) → HasEndpoint (metrics_defaults m)
unfolding metrics_defaults
metrics_defaults-HasEndpoint m on = elim (Bool-cases m.enabled) [
  | inl enabled ↦ rw enabled (
    or_default_nonempty m.address default_metrics_address (λ e. absurd (cc)),
    or_default_nonempty m.path default_metrics_path (λ e. absurd (cc)),
  )
  | inr disabled ↦ absurd (ground arith)
]

pub timeout_set : (t : ℤ) → is_zero (if is_zero t then default_http_timeout else t) ≡ false
timeout_set t = ground arith
