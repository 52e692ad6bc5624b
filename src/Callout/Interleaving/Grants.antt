-- ===== src/Callout/Interleaving/Grants.antt =====
-- internal/callout/callout.go: what stands behind a JWT that is issued while other calls and reloads
-- run.
use nats_jwt_callout.Base.{◌≡◌, sym, ok, List, ◌∷◌, ◌++◌, Str}
use nats_jwt_callout.Callout.{Packages, Authorizer}
use nats_jwt_callout.Callout.Authorization.{IsIssued, authorize-IsIssued}
use nats_jwt_callout.Callout.Accounting.{Event, requested, run}
use nats_jwt_callout.Callout.Interleaving.{Thread, System, Reach, returned}
use nats_jwt_callout.Callout.Interleaving.Linear.{Reach-IsAnswered}

module _ (p : Packages) where
  -- The JWT is justified by the ruleset that was in force at one point of the history.
  pub record IsJustified (a : Authorizer p) (history : List (Event p)) (t : Thread p) (jwt : Str)
      : Type 0 where
    pub before : List (Event p)
    pub after : List (Event p)
    pub split : history ≡ before ++ requested t.times t.req ∷ after
    pub issued : IsIssued p t.times t.req (run p before a) jwt

  -- Whatever calls and reloads run at the same time, a JWT that a call has returned went through every
  -- check of one verifier and one policy, those in force where the history has the call: the identity,
  -- the first rule that it satisfies, the account, the permissions and the expiry are all of that
  -- ruleset. The package jwt is taken to put the user key that it is given into the subject.
  pub Reach-IsIssued :
      ((nkey : Str) → (p.jwt.new_user_claims nkey).subject ≡ nkey)
      → {a : Authorizer p} {history : List (Event p)} {s : System p}
        (before after : List (Thread p)) (t : Thread p) (jwt : Str)
      → Reach p a history s
      → s.threads ≡ before ++ t ∷ after
      → t.pc ≡ returned (ok jwt)
      → IsJustified a history t jwt
  Reach-IsIssued subject_kept {a} before after t jwt r split done =
      let answered = Reach-IsAnswered p before after t (ok jwt) r split done in
      record {
        before = answered.before;
        after = answered.after;
        split = answered.split;
        issued =
            authorize-IsIssued p subject_kept t.times t.req (run p answered.before a) jwt
              (sym answered.reply);
      }
