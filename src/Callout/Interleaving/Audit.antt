-- ===== src/Callout/Interleaving/Audit.antt =====
-- internal/callout/callout.go, internal/metrics/metrics.go: what a scrape reads when no call is under
-- way, after any interleaving.
use nats_jwt_callout.Base.{
  ℕ, ◌≡◌, refl, sym, ap, ◌∙◌, some, List, [], ◌∷◌, Str, All, Empty, arith, tally,
}
use nats_jwt_callout.Authz.Policy.{Policy}
use nats_jwt_callout.Verifier.{Verifier}
use nats_jwt_callout.Metrics
use nats_jwt_callout.Metrics.{
  Metrics, Call, init_requests, inc_requests, inc_denials, observe, allowed, denied,
  reason_no_token, reason_verification_failed, reason_policy_no_match, reason_signing_failed,
}
use nats_jwt_callout.Callout.{Packages, LogLine, Authorizer, new}
use nats_jwt_callout.Callout.Counting.{IsAccounted, accounts, is_grant, is_signing_failure}
use nats_jwt_callout.Callout.Accounting.{Event, run, requests, IsAudited, run-IsAudited}
use nats_jwt_callout.Callout.Interleaving.{
  Effect, Pc, arrived, holding, judging, leaving, returned, Thread, System, Reach, settle,
}
use nats_jwt_callout.Callout.Interleaving.Settling.{settled, pending}
use nats_jwt_callout.Callout.Interleaving.Writing.{tally_calls, written, in_flight, left}
use nats_jwt_callout.Callout.Interleaving.Quiescence.{Reach-written, Reach-IsEnabled}
use nats_jwt_callout.Callout.Interleaving.Weights.{
  requests_in, denials_in, durations_in, none_of, each, weigh, requests_total-tally,
  denials_total-tally, duration_count-tally, tally-none_of, length-tally, tally_calls-none_of,
}

module _ (p : Packages) where
  -- No call is between its first read and its return.
  abbrev pub IsIdle : Pc p → Type 0
  IsIdle arrived = Unit
  IsIdle (returned reply) = Unit
  IsIdle pc = Empty

  abbrev pub IsQuiet : System p → Type 0
  IsQuiet s = All (λ t. IsIdle t.pc) s.threads

  left-idle :
      (key : p.jwt.KeyPair) (t : Thread p) (pc : Pc p)
      → IsIdle pc
      → left p key (record t { pc = pc }) ≡ []
  unfolding left pending settled settle
  left-idle key t arrived h = refl
  left-idle key t (returned reply) h = refl
  left-idle key t (holding st) h = elim h [ ]
  left-idle key t (judging st id) h = elim h [ ]
  left-idle key t (leaving es reply) h = elim h [ ]

  in_flight-quiet :
      (key : p.jwt.KeyPair) (threads : List (Thread p))
      → All (λ t. IsIdle t.pc) threads
      → in_flight p key threads ≡ []
  unfolding in_flight
  in_flight-quiet key [] h = refl
  in_flight-quiet key (t ∷ threads) h =
      rw (left-idle key t t.pc h.0) (in_flight-quiet key threads h.1)

  -- Log and metrics hold the same lines and the same calls as when the history is run in order.
  record IsSame (b r : Authorizer p) : Type 0 where
    lines : (f : LogLine → ℕ) → tally f b.log ≡ tally f r.log
    calls :
        (g : Call → ℕ) (m n : Metrics)
        → b.metrics ≡ some m
        → r.metrics ≡ some n
        → tally g m ≡ tally g n

  written-IsSame :
      (b r : Authorizer p) → ((w : Effect → ℕ) → written p w b ≡ written p w r) → IsSame b r
  unfolding written
  written-IsSame b r h = record {
    lines = λ f. omega (
      arith,
      h (weigh f none_of),
      tally_calls-none_of f b.metrics,
      tally_calls-none_of f r.metrics,
    );
    calls = λ g m n e e'. omega (
      arith,
      h (weigh none_of g),
      tally-none_of b.log,
      tally-none_of r.log,
      ap (tally_calls (weigh none_of g)) e,
      ap (tally_calls (weigh none_of g)) e',
    );
  }

  IsSame-IsAccounted :
      (b r : Authorizer p) (m n : Metrics)
      → IsSame b r
      → b.metrics ≡ some m
      → r.metrics ≡ some n
      → IsAccounted n r.log
      → IsAccounted m b.log
  IsSame-IsAccounted b r m n same on on' i =
      let requests = λ (label : Str).
        requests_total-tally label m
        ∙ same.calls (requests_in label) m n on on'
        ∙ sym (requests_total-tally label n) in
      let denials = λ (label : Str).
        denials_total-tally label m
        ∙ same.calls (denials_in label) m n on on'
        ∙ sym (denials_total-tally label n) in
      let durations =
        duration_count-tally m
        ∙ same.calls durations_in m n on on'
        ∙ sym (duration_count-tally n) in
      let lines = length-tally b.log ∙ same.lines each ∙ sym (length-tally r.log) in
      accounts (rw (requests allowed, requests denied, durations) i.by_result)
        (rw
          (
            denials reason_no_token,
            denials reason_verification_failed,
            denials reason_policy_no_match,
            requests denied,
          )
          i.by_reason)
        (denials reason_signing_failed ∙ i.no_signing_reason)
        (requests allowed ∙ i.grants ∙ sym (same.lines is_grant))
        (rw (durations, same.lines is_signing_failure, lines) i.uncounted)

  -- A service that starts with metrics, and handles any requests and reloads at the same time: where
  -- no call is under way, log and metrics agree as they do when the history is run one event after
  -- the other. There is one log line for each request of the history, and the counters add up.
  pub quiet-IsAudited :
      (v : Verifier p.oidc.TokenVerifier) (policy : Policy p.regexp p.cel)
      (sign_key : p.jwt.KeyPair) {history : List (Event p)} {s : System p}
      → Reach p (new p v policy sign_key (some Metrics.new)) history s
      → IsQuiet s
      → IsAudited p s.shared (requests p history)
  unfolding new
  quiet-IsAudited v policy sign_key {history} {s} r quiet =
      let a = new p v policy sign_key (some Metrics.new) in
      let audited = run-IsAudited p history v policy sign_key in
      let (m, on) = Reach-IsEnabled p r (Metrics.new, refl) in
      let same = written-IsSame s.shared (run p history a) (λ w.
        let total = Reach-written p w r (Metrics.new, refl) in
        omega (arith, total, ap (tally w) (in_flight-quiet a.sign_key s.threads quiet))) in
      record {
        metrics = m;
        enabled = on;
        accounted =
            IsSame-IsAccounted s.shared (run p history a) m audited.metrics same on audited.enabled
              audited.accounted;
        lines =
            length-tally s.shared.log
            ∙ same.lines each
            ∙ sym (length-tally (run p history a).log)
            ∙ audited.lines;
      }
