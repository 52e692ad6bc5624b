-- ===== src/Metrics.antt =====
-- internal/metrics/metrics.go. The Prometheus client is not modelled: a `Metrics` value is the list of
-- the calls that were made on its collectors, newest last. A nil `*Metrics` is `none`.
pub mod Totals
use nats_jwt_callout.Base.{ℕ, Bool, Option, none, some, List, [], ◌∷◌, ◌++◌, Str, codes}
use nats_jwt_callout.Base.Int.{ℤ}

abbrev pub reason_no_token : Str
reason_no_token = codes "no_token"

abbrev pub reason_verification_failed : Str
reason_verification_failed = codes "verification_failed"

abbrev pub reason_policy_no_match : Str
reason_policy_no_match = codes "policy_no_match"

abbrev pub reason_signing_failed : Str
reason_signing_failed = codes "signing_failed"

abbrev pub allowed : Str
allowed = codes "allowed"

abbrev pub denied : Str
denied = codes "denied"

-- The collectors are `requests`, by result, `denials`, by reason, and `duration`, in nanoseconds.
pub data Call : Type 0 where
  init_requests inc_requests inc_denials : Str → Call
  observe : ℤ → Call

abbrev pub Metrics : Type 0
Metrics = List Call

unfoldable pub new : Metrics
new = init_requests allowed ∷ init_requests denied ∷ []

unfoldable pub record_allowed : ℤ → Option Metrics → Option Metrics
record_allowed d none = none
record_allowed d (some m) = some (m ++ (inc_requests allowed ∷ observe d ∷ []))

unfoldable pub record_denied : Str → ℤ → Option Metrics → Option Metrics
record_denied reason d none = none
record_denied reason d (some m) =
    some (m ++ (inc_requests denied ∷ inc_denials reason ∷ observe d ∷ []))
