-- ===== src/Callout/Authorization.antt =====
-- internal/callout/callout.go: when `Authorize` issues a user JWT, and what the JWT says.
use nats_jwt_callout.Base.{
  ℕ, ◌≡◌, refl, ◌↔◌, inl, inr, ◌≢◌, false, some, [], Str, is_empty, is_empty-false_iff, arith,
  Result, ok, err, Bool-cases, Option-cases,
}
use mathlib.Core.Path.{subst}
use nats_jwt_callout.Base.Int.{ℤ, pos, ◌+ℤ◌, ◌≤ℤ◌}
use nats_jwt_callout.Identity.{Identity}
use nats_jwt_callout.Authz.Types.{Decision}
use nats_jwt_callout.Authz.Policy.{PolicyError, Policy, evaluate}
use nats_jwt_callout.Authz.Policy.Evaluation.{
  IsFirst, IsRepliesOf, Outcome, granted, denied, evaluate-Outcome,
}
use nats_jwt_callout.Verifier.{VerifyError, verify}
use nats_jwt_callout.Verifier.Verification.{IsVerified, verify-eq-ok_iff}
use nats_jwt_callout.Callout.{
  Request, UserClaims, Packages, Times, Authorizer, user_claims, sign, decide, identify, authorize,
  unix,
}
use nats_jwt_callout.Callout.Expiry.{capped_expiry-IsCapped, unix_mono}

module _ (p : Packages) where
  -- The identity, the decision and the signature behind an issued JWT.
  pub record IsAuthorized (times : Times) (req : Request) (a : Authorizer p) (jwt : Str)
      : Type 0 where
    pub id : Identity
    pub decision : Decision
    pub has_token : req.token ≢ []
    pub verified : verify p.json p.oidc a.state.verifier times.verified_at req.token ≡ ok id
    pub granted : evaluate p.regexp p.cel times.rule_at a.state.policy id ≡ ok decision
    pub signed : p.jwt.encode (user_claims p times req id decision) a.sign_key ≡ some jwt

  decide_inv :
      (times : Times) (req : Request) (id : Identity) (r : Result PolicyError Decision)
      (a : Authorizer p) {jwt : Str}
      → (decide p times req id r a).0 ≡ ok jwt
      → (d : Decision) × (r ≡ ok d)
        × (p.jwt.encode (user_claims p times req id d) a.sign_key ≡ some jwt)
  unfolding decide sign
  decide_inv times req id (err e) a h = absurd (ground arith)
  decide_inv times req id (ok d) a h =
      elim (Option-cases (p.jwt.encode (user_claims p times req id d) a.sign_key)) [
        | inl failed ↦ absurd (ground arith)
        | inr (user_jwt, signed) ↦ (d, refl, ground arith)
      ]

  identify_inv :
      (times : Times) (req : Request) (policy : Policy p.regexp p.cel)
      (r : Result VerifyError Identity) (a : Authorizer p) {jwt : Str}
      → (identify p times req policy r a).0 ≡ ok jwt
      → (id : Identity) × (r ≡ ok id)
        × ((decide p times req id (evaluate p.regexp p.cel times.rule_at policy id) a).0 ≡ ok jwt)
  unfolding identify
  identify_inv times req policy (err e) a h = absurd (ground arith)
  identify_inv times req policy (ok id) a h = (id, refl, h)

  authorize_inv-token :
      (times : Times) (req : Request) (a : Authorizer p) {jwt : Str}
      → is_empty req.token ≡ false
      → (identify p times req a.state.policy
          (verify p.json p.oidc a.state.verifier times.verified_at req.token)
          a).0
        ≡ ok jwt
      → IsAuthorized times req a jwt
  authorize_inv-token times req a {jwt} present h =
      let (id, verified, h') =
        identify_inv times req a.state.policy
          (verify p.json p.oidc a.state.verifier times.verified_at req.token) a h in
      let (d, decided, signed) =
        decide_inv times req id (evaluate p.regexp p.cel times.rule_at a.state.policy id) a h' in
      record {
        id = id;
        decision = d;
        has_token = (is_empty-false_iff req.token).0 present;
        verified = verified;
        granted = decided;
        signed = signed;
      }

  authorize_inv :
      (times : Times) (req : Request) (a : Authorizer p) {jwt : Str}
      → (authorize p times req a).0 ≡ ok jwt
      → IsAuthorized times req a jwt
  unfolding authorize
  authorize_inv times req a {jwt} h = elim (Bool-cases (is_empty req.token)) [
    | inl missing ↦ absurd (ground arith)
    | inr present ↦ authorize_inv-token times req a present (rw present at h)
  ]

  authorize_of :
      (times : Times) (req : Request) (a : Authorizer p) {jwt : Str}
      → IsAuthorized times req a jwt
      → (authorize p times req a).0 ≡ ok jwt
  unfolding authorize identify decide sign
  authorize_of times req a {jwt} i =
      rw ((is_empty-false_iff req.token).1 i.has_token, i.verified, i.granted, i.signed)

  -- `Authorize` returns a user JWT exactly where the request carries a token, the verifier loaded at
  -- the start returns an identity for it, the policy loaded with it returns a decision for the
  -- identity, and signing the claims made of the three gives that JWT.
  pub authorize-eq-ok_iff :
      (times : Times) (req : Request) (a : Authorizer p) (jwt : Str)
      → ((authorize p times req a).0 ≡ ok jwt) ↔ IsAuthorized times req a jwt
  authorize-eq-ok_iff times req a jwt = (authorize_inv times req a, authorize_of times req a)

  -- What stands behind an issued JWT, in terms of the configuration.
  pub record IsIssued (times : Times) (req : Request) (a : Authorizer p) (jwt : Str) : Type 0 where
    pub id : Identity
    pub decision : Decision
    pub claims : UserClaims p.jwt.Limits p.jwt.Other
    pub identity : IsVerified p.json p.oidc a.state.verifier times.verified_at req.token id
    pub first : IsFirst p.regexp p.cel times.rule_at id 0 a.state.policy.rules decision
    pub signed : p.jwt.encode claims a.sign_key ≡ some jwt
    pub subject : claims.subject ≡ req.user_nkey
    pub name : claims.name ≡ id.subject
    pub account : claims.audience ≡ first.rule.grant.account
    pub publish : claims.permissions.publish ≡ first.rule.grant.publish
    pub subscribe : claims.permissions.subscribe ≡ first.rule.grant.subscribe
    pub replies : IsRepliesOf first.rule.grant.response claims.permissions.resp
    pub limits : claims.limits ≡ p.jwt.no_limits
    pub within_token : claims.expires ≤ℤ unix id.expiry
    pub within_policy :
        pos 1 ≤ℤ first.rule.grant.max_expiry
        → claims.expires ≤ℤ unix (times.capped_at +ℤ first.rule.grant.max_expiry)

  IsFirst-Outcome :
      (clock : ℕ → ℤ) (policy : Policy p.regexp p.cel) (id : Identity) {d : Decision}
      {out : Result PolicyError Decision}
      → Outcome p.regexp p.cel clock id 0 policy.rules out
      → out ≡ ok d
      → IsFirst p.regexp p.cel clock id 0 policy.rules d
  IsFirst-Outcome clock policy id (granted d' e f) h =
      subst (IsFirst p.regexp p.cel clock id 0 policy.rules) (ground arith) f
  IsFirst-Outcome clock policy id (denied e none_satisfied) h = absurd (ground arith)

  IsFirst-evaluate :
      (clock : ℕ → ℤ) (policy : Policy p.regexp p.cel) (id : Identity) {d : Decision}
      → evaluate p.regexp p.cel clock policy id ≡ ok d
      → IsFirst p.regexp p.cel clock id 0 policy.rules d
  unfolding evaluate
  IsFirst-evaluate clock policy id {d} h = elim (Bool-cases policy.validated) [
    | inl checked ↦
        IsFirst-Outcome clock policy id (evaluate-Outcome p.regexp p.cel clock id policy checked) h
    | inr unchecked ↦ absurd (ground arith)
  ]

  -- An issued JWT is one for the requesting user key, signed with the authorizer's key, and named
  -- after the identity's subject. The account, and the permissions to publish, to subscribe and to
  -- reply, are those that are configured in the grant of the first rule whose conditions the verified
  -- identity satisfies, and no other limit is set. The identity went through every step of the
  -- verification, and the JWT expires no later than the identity's token and, where the cap in the
  -- grant is positive, no later than the cap allows. The package jwt is taken to put the user key that
  -- it is given into the subject.
  pub authorize-IsIssued :
      ((nkey : Str) → (p.jwt.new_user_claims nkey).subject ≡ nkey)
      → (times : Times) (req : Request) (a : Authorizer p) (jwt : Str)
      → (authorize p times req a).0 ≡ ok jwt
      → IsIssued times req a jwt
  unfolding user_claims
  authorize-IsIssued subject_kept times req a jwt h =
      let i = authorize_inv times req a h in
      let now = times.capped_at in
      let first = IsFirst-evaluate times.rule_at a.state.policy i.id i.granted in
      let claims = user_claims p times req i.id i.decision in
      let capped = capped_expiry-IsCapped now i.id.expiry i.decision.max_expiry in
      record {
        id = i.id;
        decision = i.decision;
        claims = claims;
        identity =
            (verify-eq-ok_iff p.json p.oidc a.state.verifier times.verified_at req.token i.id).0
              i.verified;
        first = first;
        signed = i.signed;
        subject = subject_kept req.user_nkey;
        name = refl;
        account = first.grant.account;
        publish = first.grant.publish;
        subscribe = first.grant.subscribe;
        replies = first.grant.replies;
        limits = refl;
        within_token = unix_mono _ _ capped.by_token;
        within_policy = λ positive.
            subst (λ cap. claims.expires ≤ℤ unix (now +ℤ cap)) first.grant.max_expiry
              (unix_mono _ _ (capped.by_policy (rw first.grant.max_expiry positive)));
      }
