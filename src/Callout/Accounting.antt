-- ===== src/Callout/Accounting.antt =====
-- internal/callout/callout.go, internal/metrics/metrics.go: what the counters and the log of a running
-- service say, after any sequence of requests and reloads.
use nats_jwt_callout.Base.{
  ℕ, suc, ◌+◌, ◌≡◌, refl, sym, ap, ◌∙◌, Option, none, some, List, [], ◌∷◌, ◌++◌, Str, is_empty,
  ◌==◌, arith, length, length-append, append-nil, inl, inr, Result, ok, err, Bool-cases,
}
use native.Mathlib.Nat.{add-zero}
use mathlib.Core.Path.{subst}
use nats_jwt_callout.Identity.{Identity}
use nats_jwt_callout.Authz.Types.{Decision}
use nats_jwt_callout.Authz.Policy.{PolicyError, Policy}
use nats_jwt_callout.Verifier.{Verifier, VerifyError}
use nats_jwt_callout.Metrics
use nats_jwt_callout.Metrics.{
  Metrics, record_allowed, record_denied, reason_no_token, reason_verification_failed,
  reason_policy_no_match, reason_signing_failed, allowed, denied,
}
use nats_jwt_callout.Metrics.Totals.{requests_total, denials_total, duration_count}
use nats_jwt_callout.Callout.{
  Request, Packages, Times, LogLine, Ruleset, Authorizer, new, reload, sign, decide, identify,
  authorize,
}
use nats_jwt_callout.Callout.Counting.{
  IsAccounted, IsAccounted-append, accounts, zero_plus, suc_shift,
}

module _ (p : Packages) where
  -- One step keeps the state and the key, writes one line and accounts for it.
  record IsStep (a b : Authorizer p) : Type 0 where
    state : b.state ≡ a.state
    key : b.sign_key ≡ a.sign_key
    line : LogLine
    calls : Metrics
    log : b.log ≡ a.log ++ line ∷ []
    metrics : (m : Metrics) → a.metrics ≡ some m → b.metrics ≡ some (m ++ calls)
    accounted : IsAccounted calls (line ∷ [])

  step :
      (a b : Authorizer p) (line : LogLine) (calls : Metrics)
      → b ≡ record a { metrics = b.metrics; log = a.log ++ line ∷ [] }
      → ((m : Metrics) → a.metrics ≡ some m → b.metrics ≡ some (m ++ calls))
      → IsAccounted calls (line ∷ [])
      → IsStep a b
  step a b line calls same metrics accounted = record {
    state = ap (λ c. c.state) same;
    key = ap (λ c. c.sign_key) same;
    line = line;
    calls = calls;
    log = ap (λ c. c.log) same;
    metrics = metrics;
    accounted = accounted;
  }

  sign-IsStep :
      (times : Times) (req : Request) (id : Identity) (d : Decision) (o : Option Str)
      (a : Authorizer p)
      → IsStep a (sign p times req id d o a).1
  unfolding sign record_allowed requests_total denials_total duration_count ◌==◌
  sign-IsStep times req id d none a =
      step a _ _ [] refl (λ m e. e ∙ ap some (sym (append-nil m)))
        (accounts refl refl refl refl refl)
  sign-IsStep times req id d (some jwt) a =
      step a _ _ _ refl (λ m e. ap (record_allowed times.elapsed) e)
        (accounts refl refl refl refl refl)

  decide-IsStep :
      (times : Times) (req : Request) (id : Identity) (r : Result PolicyError Decision)
      (a : Authorizer p)
      → IsStep a (decide p times req id r a).1
  unfolding decide record_denied requests_total denials_total duration_count ◌==◌
  decide-IsStep times req id (err e) a =
      step a _ _ _ refl (λ m e. ap (record_denied reason_policy_no_match times.elapsed) e)
        (accounts refl refl refl refl refl)
  decide-IsStep times req id (ok d) a = sign-IsStep times req id d _ a

  identify-IsStep :
      (times : Times) (req : Request) (policy : Policy p.regexp p.cel)
      (r : Result VerifyError Identity) (a : Authorizer p)
      → IsStep a (identify p times req policy r a).1
  unfolding identify record_denied requests_total denials_total duration_count ◌==◌
  identify-IsStep times req policy (err e) a =
      step a _ _ _ refl (λ m e. ap (record_denied reason_verification_failed times.elapsed) e)
        (accounts refl refl refl refl refl)
  identify-IsStep times req policy (ok id) a = decide-IsStep times req id _ a

  authorize-IsStep :
      (times : Times) (req : Request) (a : Authorizer p) → IsStep a (authorize p times req a).1
  unfolding authorize record_denied requests_total denials_total duration_count ◌==◌
  authorize-IsStep times req a = elim (Bool-cases (is_empty req.token)) [
    | inl missing ↦ rw missing (
        step a _ _ _ refl (λ m e. ap (record_denied reason_no_token times.elapsed) e)
          (accounts refl refl refl refl refl))
    | inr present ↦ rw present (identify-IsStep times req a.state.policy _ a)
  ]

  pub authorize-keeps :
      (times : Times) (req : Request) (a : Authorizer p)
      → ((authorize p times req a).1.state ≡ a.state)
        × ((authorize p times req a).1.sign_key ≡ a.sign_key)
  authorize-keeps times req a = let s = authorize-IsStep times req a in (s.state, s.key)

  -- What happens to a running service: a request, or a reload of its configuration.
  pub data Event : Type 0 where
    requested : Times → Request → Event
    reloaded : Verifier p.oidc.TokenVerifier → Policy p.regexp p.cel → Event

  unfoldable pub handle : Event → Authorizer p → Authorizer p
  handle (requested times req) a = (authorize p times req a).1
  handle (reloaded v policy) a = reload p v policy a

  -- Oldest event first.
  unfoldable pub run : List Event → Authorizer p → Authorizer p
  run [] a = a
  run (e ∷ events) a = run events (handle e a)

  abbrev pub requests : List Event → ℕ
  requests [] = 0
  requests (requested _ _ ∷ events) = suc (requests events)
  requests (reloaded _ _ ∷ events) = requests events

  -- The ruleset that the last reload has left.
  unfoldable pub last_ruleset : List Event → Ruleset p → Ruleset p
  last_ruleset [] st = st
  last_ruleset (requested _ _ ∷ events) st = last_ruleset events st
  last_ruleset (reloaded v policy ∷ events) st =
      last_ruleset events (record { verifier = v; policy = policy })

  -- Any sequence of requests and reloads leaves the ruleset of the last reload, or the first ruleset
  -- where there was none, and the signing key as it was: no request changes either.
  pub run-last_ruleset :
      (events : List Event) (a : Authorizer p)
      → ((run events a).state ≡ last_ruleset events a.state)
        × ((run events a).sign_key ≡ a.sign_key)
  unfolding run handle reload last_ruleset
  run-last_ruleset [] a = (refl, refl)
  run-last_ruleset (requested times req ∷ events) a =
      let s = authorize-IsStep times req a in
      let (state, key) = run-last_ruleset events (authorize p times req a).1 in
      (rw s.state at state, key ∙ s.key)
  run-last_ruleset (reloaded v policy ∷ events) a = run-last_ruleset events (reload p v policy a)

  -- The metrics are there, and account for the log, which has `n` lines.
  pub record IsAudited (a : Authorizer p) (n : ℕ) : Type 0 where
    pub metrics : Metrics
    pub enabled : a.metrics ≡ some metrics
    pub accounted : IsAccounted metrics a.log
    pub lines : length a.log ≡ n

  authorize-IsAudited :
      (times : Times) (req : Request) (a : Authorizer p) {n : ℕ}
      → IsAudited a n
      → IsAudited (authorize p times req a).1 (suc n)
  authorize-IsAudited times req a i =
      let s = authorize-IsStep times req a in
      let one_more = length-append a.log (s.line ∷ []) in
      record {
        metrics = i.metrics ++ s.calls;
        enabled = s.metrics i.metrics i.enabled;
        accounted = rw s.log (IsAccounted-append i.accounted s.accounted);
        lines = rw s.log (omega (arith, i.lines, one_more));
      }

  run-IsAudited_from :
      (events : List Event) (a : Authorizer p) {n : ℕ}
      → IsAudited a n
      → IsAudited (run events a) (n + requests events)
  unfolding run handle reload
  run-IsAudited_from [] a {n} i = rw (add-zero n) i
  run-IsAudited_from (requested times req ∷ events) a {n} i =
      rw (← suc_shift n (requests events))
        (run-IsAudited_from events (authorize p times req a).1 (authorize-IsAudited times req a i))
  run-IsAudited_from (reloaded v policy ∷ events) a i =
      run-IsAudited_from events (reload p v policy a) (record {
        metrics = i.metrics;
        enabled = i.enabled;
        accounted = i.accounted;
        lines = i.lines;
      })

  -- A service that starts with metrics, and then handles any sequence of requests and reloads, has
  -- written one log line for each request. Its requests that were allowed and denied add up to the
  -- durations observed; the denials for a missing token, a failed verification and no matching policy
  -- add up to the requests denied; the requests allowed are those logged as authorized; no denial is
  -- ever counted under `signing_failed`; and the requests that lack a duration are those logged as
  -- failures to sign.
  pub run-IsAudited :
      (events : List Event) (v : Verifier p.oidc.TokenVerifier) (policy : Policy p.regexp p.cel)
      (sign_key : p.jwt.KeyPair)
      → IsAudited (run events (new p v policy sign_key (some Metrics.new))) (requests events)
  unfolding new Metrics.new requests_total denials_total duration_count ◌==◌
  run-IsAudited events v policy sign_key =
      subst (IsAudited (run events (new p v policy sign_key (some Metrics.new))))
        (zero_plus (requests events))
        (run-IsAudited_from events _ (record {
          metrics = Metrics.new;
          enabled = refl;
          accounted = accounts refl refl refl refl refl;
          lines = refl;
        }))
