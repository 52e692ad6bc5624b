-- ===== src/Callout/Interleaving.antt =====
-- internal/callout/callout.go: calls of `Authorize` that run at the same time, with reloads between
-- their steps. A call reads `state` once and then only writes: a log line, and one collector of the
-- metrics after the other.
pub mod Settling
pub mod Advancing
pub mod Places
pub mod Linear
pub mod Writing
pub mod Quiescence
pub mod Weights
pub mod Audit
pub mod Grants
use nats_jwt_callout.Base.{
  ℕ, ◌≡◌, Option, none, some, List, [], ◌∷◌, ◌++◌, Str, is_empty, if◌then◌else◌, Result, ok, err,
}
use nats_jwt_callout.Base.Int.{ℤ}
use nats_jwt_callout.Identity.{Identity}
use nats_jwt_callout.Authz.Types.{Decision}
use nats_jwt_callout.Authz.Policy.{PolicyError, Policy, evaluate}
use nats_jwt_callout.Verifier.{Verifier, VerifyError, verify}
use nats_jwt_callout.Metrics.{
  Metrics, Call, inc_requests, inc_denials, observe, allowed, denied, reason_no_token,
  reason_verification_failed, reason_policy_no_match,
}
use nats_jwt_callout.Callout.{
  Request, Packages, Times, LogLine, no_token, verification_failed, no_policy_match, signing_failed,
  authorized, Denied, authorization_denied, Ruleset, Authorizer, reload, user_claims,
}
use nats_jwt_callout.Callout.Accounting.{Event, requested, reloaded}

-- One write to what the calls share.
pub data Effect : Type 0 where
  say : LogLine → Effect
  count : Call → Effect

abbrev pub Reply : Type 0
Reply = Result Denied Str

-- A call of one collector. A nil `*Metrics` has none.
abbrev pub inc : Call → Option Metrics → Option Metrics
inc c none = none
inc c (some m) = some (m ++ c ∷ [])

module _ (p : Packages) where
  -- Where a call stands: before `state.Load`, with the ruleset that it has loaded, with the identity
  -- that `Verify` has returned, with its answer fixed and these writes left, and after its return.
  pub data Pc : Type 0 where
    arrived : Pc
    holding : Ruleset p → Pc
    judging : Ruleset p → Identity → Pc
    leaving : List Effect → Reply → Pc
    returned : Reply → Pc

  pub record Thread : Type 0 where
    pub times : Times
    pub req : Request
    pub pc : Pc

  unfoldable pub perform : Effect → Authorizer p → Authorizer p
  perform (say line) a = record a { log = a.log ++ line ∷ [] }
  perform (count c) a = record a { metrics = inc c a.metrics }

  -- `a.logger.Warn`, `RecordDenied` and `return "", errDenied`.
  abbrev pub refusing : Str → Times → LogLine → Pc
  refusing reason times line =
      leaving
        (say line
          ∷ count (inc_requests denied)
          ∷ count (inc_denials reason)
          ∷ count (observe times.elapsed)
          ∷ [])
        (err authorization_denied)

  unfoldable pub after_encode : Times → Request → Identity → Decision → Option Str → Pc
  after_encode times req id d none =
      leaving (say (signing_failed req.user_nkey) ∷ []) (err authorization_denied)
  after_encode times req id d (some user_jwt) =
      leaving
        (say (authorized req.user_nkey id.issuer id.subject d.account d.rule_name)
          ∷ count (inc_requests allowed)
          ∷ count (observe times.elapsed)
          ∷ [])
        (ok user_jwt)

  unfoldable pub after_evaluate :
      p.jwt.KeyPair → Times → Request → Identity → Result PolicyError Decision → Pc
  after_evaluate key times req id (err e) =
      refusing reason_policy_no_match times (no_policy_match req.user_nkey id.issuer id.subject e)
  after_evaluate key times req id (ok d) =
      after_encode times req id d (p.jwt.encode (user_claims p times req id d) key)

  unfoldable pub after_verify : Times → Request → Ruleset p → Result VerifyError Identity → Pc
  after_verify times req st (err e) =
      refusing reason_verification_failed times (verification_failed req.user_nkey e)
  after_verify times req st (ok id) = judging st id

  -- A step that touches nothing shared.
  unfoldable pub settle : p.jwt.KeyPair → Times → Request → Pc → Pc
  settle key times req (holding st) =
      if is_empty req.token
      then refusing reason_no_token times (no_token req.user_nkey)
      else after_verify times req st (verify p.json p.oidc st.verifier times.verified_at req.token)
  settle key times req (judging st id) =
      after_evaluate key times req id (evaluate p.regexp p.cel times.rule_at st.policy id)
  settle key times req pc = pc

  -- The next step of a call. `Verify` has answered, or been cut off by `verifyTimeout`, when it ends.
  unfoldable pub advance : Times → Request → Pc → Authorizer p → Authorizer p × Pc
  advance times req arrived a = (a, holding a.state)
  advance times req (leaving (e ∷ effects) reply) a = (perform e a, leaving effects reply)
  advance times req (leaving [] reply) a = (a, returned reply)
  advance times req pc a = (a, settle a.sign_key times req pc)

  pub record System : Type 0 where
    pub shared : Authorizer p
    pub threads : List Thread

  -- What a step adds to the history: a request is entered when it loads the ruleset.
  abbrev pub entry : Times → Request → Pc → List (Event p)
  entry times req arrived = requested times req ∷ []
  entry times req pc = []

  pub data Turn (s : System) : List (Event p) → System → Type 0 where
    arrives :
        (times : Times) (req : Request)
        → Turn s []
            (record s { threads = record { times = times; req = req; pc = arrived } ∷ s.threads })
    advances :
        (before after : List Thread) (t : Thread)
        → s.threads ≡ before ++ t ∷ after
        → Turn s (entry t.times t.req t.pc) (record {
          shared = (advance t.times t.req t.pc s.shared).0;
          threads = before ++ record t { pc = (advance t.times t.req t.pc s.shared).1 } ∷ after;
        })
    reloads :
        (v : Verifier p.oidc.TokenVerifier) (policy : Policy p.regexp p.cel)
        → Turn s (reloaded v policy ∷ []) (record s { shared = reload p v policy s.shared })

  -- The systems that a fresh authorizer can come to, with the history of each.
  pub data Reach (a : Authorizer p) : List (Event p) → System → Type 0 where
    begin : Reach a [] (record { shared = a; threads = [] })
    later :
        {history new : List (Event p)} {s t : System}
        → Reach a history s
        → Turn s new t
        → Reach a (history ++ new) t
