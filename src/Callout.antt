-- ===== src/Callout.antt =====
-- internal/callout/callout.go: one authorization. The packages jwt and nkeys are a parameter.
pub mod Counting
pub mod Expiry
pub mod Authorization
pub mod Accounting
pub mod Interleaving
use nats_jwt_callout.Base.{
  ℕ, Bool, Option, none, some, List, [], ◌∷◌, ◌++◌, Str, is_empty, if◌then◌else◌, Result, ok, err,
}
use nats_jwt_callout.Base.Int.{ℤ, pos, ◌+ℤ◌, ltb_ℤ, floor_div}
use nats_jwt_callout.Identity.{Identity}
use nats_jwt_callout.Regexp.{RegexpPackage}
use nats_jwt_callout.Authz.Types.{UserPermissionLimits, Decision}
use nats_jwt_callout.Authz.Cel.{CelPackage}
use nats_jwt_callout.Authz.Policy.{PolicyError, Policy, evaluate}
use nats_jwt_callout.Verifier.{Verifier, VerifyError, verify}
use nats_jwt_callout.Verifier.Packages.{OidcPackage, JsonPackage}
use nats_jwt_callout.Metrics.{
  Metrics, record_allowed, record_denied, reason_no_token, reason_verification_failed,
  reason_policy_no_match,
}

-- The part of jwt.AuthorizationRequest that is read.
pub record Request : Type 0 where
  pub user_nkey : Str
  pub token : Str

-- The fields of jwt.UserClaims that are written; the others are in `other`.
-- `permissions` are the fields of jwt.UserPermissionLimits that a policy sets, `limits` are the rest of it.
pub record UserClaims (Limits Other : Type 0) : Type 0 where
  pub subject : Str
  pub name : Str
  pub audience : Str
  pub permissions : UserPermissionLimits
  pub limits : Limits
  pub expires : ℤ
  pub other : Other

pub record JwtPackage : Type 1 where
  pub KeyPair : Type 0
  pub Limits : Type 0
  pub no_limits : Limits
  pub Other : Type 0
  pub new_user_claims : Str → UserClaims Limits Other
  pub encode : UserClaims Limits Other → KeyPair → Option Str

-- The packages that an authorization goes through.
pub record Packages : Type 1 where
  pub regexp : RegexpPackage
  pub cel : CelPackage
  pub json : JsonPackage
  pub oidc : OidcPackage
  pub jwt : JwtPackage

pub data Denied : Type 0 where
  authorization_denied : Denied

-- What the structured logger is told.
pub data LogLine : Type 0 where
  no_token : (user_nkey : Str) → LogLine
  verification_failed : (user_nkey : Str) → VerifyError → LogLine
  no_policy_match : (user_nkey iss sub : Str) → PolicyError → LogLine
  signing_failed : (user_nkey : Str) → LogLine
  authorized : (user_nkey iss sub account rule : Str) → LogLine

-- What the clock shows during one call: to the verifier, to rule `i` of the policy, to
-- `cappedExpiry`, and the time that the call has taken.
pub record Times : Type 0 where
  pub verified_at : ℤ
  pub rule_at : ℕ → ℤ
  pub capped_at : ℤ
  pub elapsed : ℤ

unfoldable pub capped_expiry : ℤ → ℤ → ℤ → ℤ
capped_expiry now token_expiry max_expiry =
    if ltb_ℤ (pos 0) max_expiry
    then (if ltb_ℤ (now +ℤ max_expiry) token_expiry then now +ℤ max_expiry else token_expiry)
    else token_expiry

-- `Time.Unix`: whole seconds.
abbrev pub unix : ℤ → ℤ
unix t = floor_div t 1_000_000_000

module _ (p : Packages) where
  pub record Ruleset : Type 0 where
    pub verifier : Verifier p.oidc.TokenVerifier
    pub policy : Policy p.regexp p.cel

  pub record Authorizer : Type 0 where
    pub state : Ruleset
    pub sign_key : p.jwt.KeyPair
    pub metrics : Option Metrics
    pub log : List LogLine

  unfoldable pub new :
      Verifier p.oidc.TokenVerifier
      → Policy p.regexp p.cel
      → p.jwt.KeyPair
      → Option Metrics
      → Authorizer
  new v policy sign_key m = record {
    state = record { verifier = v; policy = policy };
    sign_key = sign_key;
    metrics = m;
    log = [];
  }

  unfoldable pub reload :
      Verifier p.oidc.TokenVerifier → Policy p.regexp p.cel → Authorizer → Authorizer
  reload v policy a = record a { state = record { verifier = v; policy = policy } }

  abbrev pub Answer : Type 0
  Answer = Result Denied Str × Authorizer

  abbrev logged : LogLine → Authorizer → Authorizer
  logged line a = record a { log = a.log ++ line ∷ [] }

  abbrev refuse : Str → Times → LogLine → Authorizer → Answer
  refuse reason times line a = (
    err authorization_denied,
    record a { metrics = record_denied reason times.elapsed a.metrics; log = a.log ++ line ∷ [] },
  )

  unfoldable pub user_claims :
      Times → Request → Identity → Decision → UserClaims p.jwt.Limits p.jwt.Other
  user_claims times req id d = record (p.jwt.new_user_claims req.user_nkey) {
    name = id.subject;
    audience = d.account;
    permissions = d.permissions;
    limits = p.jwt.no_limits;
    expires = unix (capped_expiry times.capped_at id.expiry d.max_expiry);
  }

  -- The last step: the JWT is signed. A failure here is logged and not counted.
  unfoldable pub sign : Times → Request → Identity → Decision → Option Str → Authorizer → Answer
  sign times req id d none a = (err authorization_denied, logged (signing_failed req.user_nkey) a)
  sign times req id d (some user_jwt) a = (
    ok user_jwt,
    record a {
      metrics = record_allowed times.elapsed a.metrics;
      log = a.log ++ authorized req.user_nkey id.issuer id.subject d.account d.rule_name ∷ [];
    },
  )

  unfoldable pub decide :
      Times → Request → Identity → Result PolicyError Decision → Authorizer → Answer
  decide times req id (err e) a =
      refuse reason_policy_no_match times (no_policy_match req.user_nkey id.issuer id.subject e) a
  decide times req id (ok d) a =
      sign times req id d (p.jwt.encode (user_claims times req id d) a.sign_key) a

  unfoldable pub identify :
      Times → Request → Policy p.regexp p.cel → Result VerifyError Identity → Authorizer → Answer
  identify times req policy (err e) a =
      refuse reason_verification_failed times (verification_failed req.user_nkey e) a
  identify times req policy (ok id) a =
      decide times req id (evaluate p.regexp p.cel times.rule_at policy id) a

  -- `Authorize`. The state is loaded once, at the start.
  unfoldable pub authorize : Times → Request → Authorizer → Answer
  authorize times req a =
      let st = a.state in
      if is_empty req.token
      then refuse reason_no_token times (no_token req.user_nkey) a
      else identify times req st.policy
          (verify p.json p.oidc st.verifier times.verified_at req.token) a
