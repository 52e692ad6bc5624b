-- ===== src/Callout/Counting.antt =====
-- internal/metrics/metrics.go, internal/callout/callout.go: when counters and log agree.
use nats_jwt_callout.Base.{
  ℕ, suc, ◌+◌, ◌≡◌, List, ◌++◌, arith, length, length-append, tally, tally-append,
}
use nats_jwt_callout.Metrics.{
  Metrics, reason_no_token, reason_verification_failed, reason_policy_no_match,
  reason_signing_failed, allowed, denied,
}
use nats_jwt_callout.Metrics.Totals.{
  requests_total, denials_total, duration_count, requests_total-append, denials_total-append,
  duration_count-append,
}
use nats_jwt_callout.Callout.{LogLine, signing_failed, authorized}

-- How many requests were refused because the JWT was not signed, and how many got one.
abbrev pub is_signing_failure : LogLine → ℕ
is_signing_failure (signing_failed _) = 1
is_signing_failure _ = 0

abbrev pub is_grant : LogLine → ℕ
is_grant (authorized _ _ _ _ _) = 1
is_grant _ = 0

-- The metrics agree with each other and with the log.
pub record IsAccounted (m : Metrics) (log : List LogLine) : Type 0 where
  pub by_result : requests_total allowed m + requests_total denied m ≡ duration_count m
  pub by_reason :
      denials_total reason_no_token m
        + denials_total reason_verification_failed m
        + denials_total reason_policy_no_match m
      ≡ requests_total denied m
  pub no_signing_reason : denials_total reason_signing_failed m ≡ 0
  pub grants : requests_total allowed m ≡ tally is_grant log
  pub uncounted : duration_count m + tally is_signing_failure log ≡ length log

pub IsAccounted-append :
    {m n : Metrics} {log more : List LogLine}
    → IsAccounted m log
    → IsAccounted n more
    → IsAccounted (m ++ n) (log ++ more)
IsAccounted-append {m} {n} {log} {more} a b =
    let allowed_sum = requests_total-append allowed m n in
    let denied_sum = requests_total-append denied m n in
    let no_token_sum = denials_total-append reason_no_token m n in
    let verification_sum = denials_total-append reason_verification_failed m n in
    let policy_sum = denials_total-append reason_policy_no_match m n in
    let signing_sum = denials_total-append reason_signing_failed m n in
    let duration_sum = duration_count-append m n in
    let grant_sum = tally-append is_grant log more in
    let failure_sum = tally-append is_signing_failure log more in
    let log_sum = length-append log more in
    record {
      by_result = omega (arith, a.by_result, b.by_result);
      by_reason = omega (arith, a.by_reason, b.by_reason);
      no_signing_reason = omega (arith, a.no_signing_reason, b.no_signing_reason);
      grants = omega (arith, a.grants, b.grants);
      uncounted = omega (arith, a.uncounted, b.uncounted);
    }

pub accounts :
    {m : Metrics} {log : List LogLine}
    → requests_total allowed m + requests_total denied m ≡ duration_count m
    → denials_total reason_no_token m
        + denials_total reason_verification_failed m
        + denials_total reason_policy_no_match m
      ≡ requests_total denied m
    → denials_total reason_signing_failed m ≡ 0
    → requests_total allowed m ≡ tally is_grant log
    → duration_count m + tally is_signing_failure log ≡ length log
    → IsAccounted m log
accounts a b c d e = record {
  by_result = a;
  by_reason = b;
  no_signing_reason = c;
  grants = d;
  uncounted = e;
}

pub zero_plus : (n : ℕ) → 0 + n ≡ n
zero_plus n = omega arith

pub suc_shift : (n k : ℕ) → suc n + k ≡ n + suc k
suc_shift n k = omega arith
