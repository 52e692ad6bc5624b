-- ===== src/Config/Settings.antt =====
-- internal/config/config.go: the settings of a loaded configuration, beside those of its file.
use nats_jwt_callout.Base.{
  ◌≡◌, refl, ◌≢◌, inl, inr, true, false, [], Str, codes, is_empty, is_empty_iff, is_empty-false_iff,
  Bool-cases,
}
use nats_jwt_callout.Base.Int.{ℤ, pos, is_zero}
use nats_jwt_callout.Config.{Config, MetricsConfig, with_defaults, metrics_defaults, or_default}

-- What is given, or the default where nothing is.
pub data IsGivenOr (default given set : Str) : Type 0 where
  given : given ≢ [] → set ≡ given → IsGivenOr default given set
  default : given ≡ [] → set ≡ default → IsGivenOr default given set

-- An endpoint that is not enabled is left as it is.
pub data IsMetricsOf (m m' : MetricsConfig) : Type 0 where
  disabled : m.enabled ≡ false → m' ≡ m → IsMetricsOf m m'
  enabled :
      m.enabled ≡ true
      → m'.enabled ≡ true
      → IsGivenOr (codes ":9090") m.address m'.address
      → IsGivenOr (codes "/metrics") m.path m'.path
      → IsMetricsOf m m'

-- A timeout of zero is ten seconds.
pub data IsTimeoutOf (t t' : ℤ) : Type 0 where
  given : is_zero t ≡ false → t' ≡ t → IsTimeoutOf t t'
  default : is_zero t ≡ true → t' ≡ pos 10_000_000_000 → IsTimeoutOf t t'

-- The settings of a file, with the defaults where it has none.
pub record IsSettingsOf {P Q : Type 0} (source : Config P) (cfg : Config Q) : Type 0 where
  pub nats : cfg.nats ≡ source.nats
  pub account_seed : cfg.issuer_account_seed ≡ source.issuer_account_seed
  pub xkey_seed : cfg.xkey_seed ≡ source.xkey_seed
  pub audiences : cfg.audiences ≡ source.audiences
  pub signing_algs : cfg.signing_algs ≡ source.signing_algs
  pub issuers : cfg.issuers ≡ source.issuers
  pub http_timeout : IsTimeoutOf source.http_timeout cfg.http_timeout
  pub oidc_ca_cert : cfg.oidc_ca_cert ≡ source.oidc_ca_cert
  pub metrics : IsMetricsOf source.metrics cfg.metrics

or_default-IsGivenOr : (s d : Str) → IsGivenOr d s (or_default s d)
or_default-IsGivenOr s d = elim (Bool-cases (is_empty s)) [
  | inl unset ↦ rw unset (IsGivenOr.default ((is_empty_iff s).0 unset) refl)
  | inr set ↦ rw set (IsGivenOr.given ((is_empty-false_iff s).0 set) refl)
]

pub metrics_defaults-IsMetricsOf : (m : MetricsConfig) → IsMetricsOf m (metrics_defaults m)
unfolding metrics_defaults
metrics_defaults-IsMetricsOf m = elim (Bool-cases m.enabled) [
  | inl on ↦ rw on (
      enabled refl refl (or_default-IsGivenOr m.address (codes ":9090"))
        (or_default-IsGivenOr m.path (codes "/metrics")))
  | inr off ↦ rw off (disabled refl refl)
]

pub timeout-IsTimeoutOf :
    {P : Type 0} (cfg : Config P) → IsTimeoutOf cfg.http_timeout (with_defaults cfg).http_timeout
unfolding with_defaults
timeout-IsTimeoutOf cfg = elim (Bool-cases (is_zero cfg.http_timeout)) [
  | inl unset ↦ rw unset (IsTimeoutOf.default unset refl)
  | inr set ↦ rw set (IsTimeoutOf.given set refl)
]
