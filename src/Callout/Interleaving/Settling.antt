-- ===== src/Callout/Interleaving/Settling.antt =====
-- internal/callout/callout.go: a call of `Authorize`, taken apart into its steps.
use nats_jwt_callout.Base.{
  ◌≡◌, refl, ap, Option, none, some, List, [], ◌∷◌, ◌++◌, append_assoc, Str, is_empty, inl, inr,
  Result, ok, err, Bool-cases, Option-cases,
}
use nats_jwt_callout.Base.Int.{ℤ}
use nats_jwt_callout.Identity.{Identity}
use nats_jwt_callout.Authz.Types.{Decision}
use nats_jwt_callout.Authz.Policy.{PolicyError}
use nats_jwt_callout.Verifier.{VerifyError}
use nats_jwt_callout.Metrics.{
  Metrics, inc_requests, inc_denials, observe, allowed, denied, record_allowed, record_denied,
}
use nats_jwt_callout.Callout.{
  Request, Packages, Times, LogLine, authorized, Denied, authorization_denied, Ruleset, Authorizer,
  user_claims, sign, decide, identify, authorize,
}
use nats_jwt_callout.Callout.Interleaving.{
  Effect, Reply, Pc, arrived, holding, judging, leaving, returned, inc, perform, refusing,
  after_encode, after_evaluate, after_verify, settle,
}

record_allowed-inc :
    (d : ℤ) (o : Option Metrics)
    → record_allowed d o ≡ inc (observe d) (inc (inc_requests allowed) o)
unfolding record_allowed
record_allowed-inc d none = refl
record_allowed-inc d (some m) = simp (append_assoc) refl

record_denied-inc :
    (reason : Str) (d : ℤ) (o : Option Metrics)
    → record_denied reason d o
      ≡ inc (observe d) (inc (inc_denials reason) (inc (inc_requests denied) o))
unfolding record_denied
record_denied-inc reason d none = refl
record_denied-inc reason d (some m) = simp (append_assoc) refl

module _ (p : Packages) where
  unfoldable pub perform_all : List Effect → Authorizer p → Authorizer p
  perform_all [] a = a
  perform_all (e ∷ effects) a = perform_all effects (perform p e a)

  -- The local steps that a call with a ruleset takes before its first write.
  unfoldable pub settled : p.jwt.KeyPair → Times → Request → Pc p → Pc p
  settled key times req pc = settle p key times req (settle p key times req pc)

  -- The call is about to make these writes and return this answer, and `answer` is the same at once.
  pub record Leaves (pc : Pc p) (a : Authorizer p) (answer : Result Denied Str × Authorizer p)
      : Type 0 where
    pub effects : List Effect
    pub reply : Reply
    pub at : pc ≡ leaving effects reply
    pub does : answer ≡ (reply, perform_all effects a)

  refusing_does :
      (reason : Str) (times : Times) (line : LogLine) (a : Authorizer p)
      → Leaves (refusing p reason times line) a (
        err authorization_denied,
        record a {
          metrics = record_denied reason times.elapsed a.metrics;
          log = a.log ++ line ∷ [];
        },
      )
  unfolding perform_all perform
  refusing_does reason times line a = record {
    effects = _;
    reply = _;
    at = refl;
    does =
        ap (λ m. (err authorization_denied, record a { metrics = m; log = a.log ++ line ∷ [] }))
          (record_denied-inc reason times.elapsed a.metrics);
  }

  sign_does :
      (times : Times) (req : Request) (id : Identity) (d : Decision) (o : Option Str)
      (a : Authorizer p)
      → Leaves (after_encode p times req id d o) a (sign p times req id d o a)
  unfolding after_encode sign perform_all perform
  sign_does times req id d none a = record { effects = _; reply = _; at = refl; does = refl }
  sign_does times req id d (some jwt) a = record {
    effects = _;
    reply = _;
    at = refl;
    does =
        ap
          (λ m. (
            ok jwt,
            record a {
              metrics = m;
              log =
                  a.log ++ authorized req.user_nkey id.issuer id.subject d.account d.rule_name ∷ [];
            },
          ))
          (record_allowed-inc times.elapsed a.metrics);
  }

  decide_does :
      (times : Times) (req : Request) (id : Identity) (r : Result PolicyError Decision)
      (a : Authorizer p)
      → Leaves (after_evaluate p a.sign_key times req id r) a (decide p times req id r a)
  unfolding after_evaluate decide
  decide_does times req id (err e) a = refusing_does _ times _ a
  decide_does times req id (ok d) a = sign_does times req id d _ a

  identify_does :
      (times : Times) (req : Request) (st : Ruleset p) (r : Result VerifyError Identity)
      (a : Authorizer p)
      → Leaves
          (settle p a.sign_key times req (after_verify p times req st r))
          a
          (identify p times req st.policy r a)
  unfolding after_verify identify settle
  identify_does times req st (err e) a = refusing_does _ times _ a
  identify_does times req st (ok id) a = decide_does times req id _ a

  pub authorize_does :
      (times : Times) (req : Request) (a : Authorizer p)
      → Leaves (settled a.sign_key times req (holding a.state)) a (authorize p times req a)
  unfolding settled settle authorize
  authorize_does times req a = elim (Bool-cases (is_empty req.token)) [
    | inl missing ↦ rw missing (refusing_does _ times _ a)
    | inr present ↦ rw present (identify_does times req a.state _ a)
  ]

  -- The writes that are left to a call whose answer is fixed, and the answer.
  unfoldable pub pending : Pc p → List Effect
  pending (leaving effects reply) = effects
  pending pc = []

  unfoldable pub reply_of : Pc p → Option Reply
  reply_of (leaving effects reply) = some reply
  reply_of (returned reply) = some reply
  reply_of pc = none

  settle-after_evaluate :
      (key : p.jwt.KeyPair) (times : Times) (req : Request) (id : Identity)
      (r : Result PolicyError Decision)
      → settle p key times req (after_evaluate p key times req id r)
        ≡ after_evaluate p key times req id r
  unfolding settle after_evaluate after_encode
  settle-after_evaluate key times req id (err e) = refl
  settle-after_evaluate key times req id (ok d) =
      elim (Option-cases (p.jwt.encode (user_claims p times req id d) key)) [
        | inl failed ↦ rw failed refl
        | inr (user_jwt, signed) ↦ rw signed refl
      ]

  settled-after_verify :
      (key : p.jwt.KeyPair) (times : Times) (req : Request) (st : Ruleset p)
      (r : Result VerifyError Identity)
      → settled key times req (after_verify p times req st r)
        ≡ settle p key times req (after_verify p times req st r)
  unfolding settled settle after_verify
  settled-after_verify key times req st (err e) = refl
  settled-after_verify key times req st (ok id) = settle-after_evaluate key times req id _

  -- A local step changes nothing about where a call settles.
  pub settled-settle :
      (key : p.jwt.KeyPair) (times : Times) (req : Request) (pc : Pc p)
      → settled key times req (settle p key times req pc) ≡ settled key times req pc
  unfolding settled settle
  settled-settle key times req arrived = refl
  settled-settle key times req (holding st) = elim (Bool-cases (is_empty req.token)) [
    | inl missing ↦ rw missing refl
    | inr present ↦ rw present (settled-after_verify key times req st _)
  ]
  settled-settle key times req (judging st id) =
      ap (settle p key times req) (settle-after_evaluate key times req id _)
  settled-settle key times req (leaving effects reply) = refl
  settled-settle key times req (returned reply) = refl
