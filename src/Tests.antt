-- ===== src/Tests.antt =====
-- A small service on concrete packages: its configuration, a token, and requests. The tests and the
-- instances of the theorems stand in the modules below.
mod Identities
mod Subjects
mod Service
mod Rules
mod Running
mod Clients
mod Minting
mod Programs
use nats_jwt_callout.Base.{
  ℕ, Bool, true, false, Option, none, some, List, [], ◌∷◌, ◌++◌, Str, codes, ◌==◌, if◌then◌else◌,
  ◌≡◌, refl, ok, err, cut_prefix, has_prefix, trim_prefix, trim_suffix, contains_byte, split,
  split_n, decimal,
}
use nats_jwt_callout.Base.Int.{ℤ, pos}
use nats_jwt_callout.Identity
use nats_jwt_callout.Identity.{
  Identity, Members, end, member, object, string, namespace, claim, flatten_claims, add_claim,
  flatten, flatten_members, prefix_of, is_reserved,
}
use nats_jwt_callout.Regexp.Fragment.{fragment, parse}
use nats_jwt_callout.Authz.Types.{Match, Permission, Grant}
use nats_jwt_callout.Authz.Cel.{
  CelPackage, a_bool, activation, eval_cel, new_cel_env, compile_cel_program,
}
use nats_jwt_callout.Authz.Policy
use nats_jwt_callout.Authz.Policy.{PolicyRule, Policy, validate, evaluate}
use nats_jwt_callout.Verifier
use nats_jwt_callout.Verifier.{
  IssuerOption, Options, Verifier, verify, unverified_issuer, accept, audience_allowed, mismatch,
  add_issuers, add_issuer, http_client, add_audiences,
}
use nats_jwt_callout.Verifier.Packages.{IdToken, OidcPackage, JsonPackage}
use nats_jwt_callout.Callout
use nats_jwt_callout.Callout.{
  Request, JwtPackage, Packages, Times, authorization_denied, Authorizer, capped_expiry, authorize,
  reload,
}
use nats_jwt_callout.Base.Dict.{lookup, insert}
use nats_jwt_callout.Base64
use nats_jwt_callout.Base64.{decode_raw_url}
use nats_jwt_callout.Authz.Policy.Validation.{IsValidated, validate-IsValidated}
use nats_jwt_callout.Authz.Policy.Evaluation.{Outcome, evaluate-Outcome}
use nats_jwt_callout.Regexp
use nats_jwt_callout.Regexp.{find, run_regex, special, quote_meta, quote_byte}
use nats_jwt_callout.Authz.Sub.{sub_matches, compile_sub, compile_glob, glob_regex, write_parts}
use nats_jwt_callout.Authz.Pins.{
  has_strong_pin, sub_is_exact, account_pinned_in_arn, bare_pattern, is_aws_account_id, is_digit,
}
use nats_jwt_callout.Verifier.Verification.{IsVerified, verify-eq-ok_iff, verify-selected}
use nats_jwt_callout.Verifier.Construction.{IsBuilt, new-IsBuilt}
use nats_jwt_callout.Metrics
use nats_jwt_callout.Callout.Expiry.{IsCapped, capped_expiry-IsCapped}
use nats_jwt_callout.Callout.Authorization.{
  IsAuthorized, IsIssued, authorize-eq-ok_iff, authorize-IsIssued,
}
use nats_jwt_callout.Callout.Accounting.{
  Event, requested, reloaded, run, last_ruleset, IsAudited, run-IsAudited, run-last_ruleset,
}

policy_code : Unit {0}
unfolding validate Policy.validate_rules Policy.check_rule compile_sub compile_glob glob_regex
    write_parts Policy.check_expr Policy.check_broad has_strong_pin sub_is_exact
    account_pinned_in_arn bare_pattern is_aws_account_id is_digit lookup cut_prefix has_prefix
    trim_prefix trim_suffix contains_byte split split_n ◌==◌ new_cel_env compile_cel_program parse
    special quote_meta quote_byte Policy.identity decimal
policy_code = tt

service_code : Unit {0}
unfolding verify unverified_issuer accept audience_allowed mismatch lookup insert claim has_prefix
    cut_prefix split ◌==◌ decode_raw_url Base64.decode_groups Base64.sextet Base64.without_newlines
    Identity.parse flatten_claims add_claim flatten flatten_members prefix_of is_reserved
    Verifier.new add_issuers add_issuer http_client add_audiences
service_code = tt

answer_code : Unit {0}
unfolding service_code policy_code Callout.new authorize Callout.identify Callout.decide
    Callout.sign Callout.user_claims evaluate Policy.evaluate_rules Policy.matches Policy.decision
    Policy.permission_limits sub_matches eval_cel activation find run_regex Regexp.run
answer_code = tt

abbrev account : Str
account = codes "123456789012"

abbrev issuer_url : Str
issuer_url = codes "https://i"

abbrev role_arn : Str
role_arn = codes "arn:aws:iam::123456789012:role/app"

-- An expression is the subject that it holds for.
abbrev cel : CelPackage
cel = record {
  Env = Unit;
  Ast = Str;
  Program = Str;
  new_env = λ _. some tt;
  compile = λ _ s. some s;
  is_bool_type = λ _. true;
  program = λ _ ast _. some ast;
  eval = λ prg act. some (a_bool (act.sub == prg));
}

abbrev id_token : IdToken
id_token = record {
  issuer = issuer_url;
  subject = role_arn;
  audience = codes "other" ∷ codes "nats" ∷ [];
  expiry = pos 900_000_000_000;
  payload = codes "payload";
}

-- A token verifier is the issuer's URL, and accepts a token for as long as it has not expired.
abbrev oidc : OidcPackage
oidc = record {
  CertPool = Unit;
  Provider = Str;
  TokenVerifier = Str;
  new_provider = λ _ url. some url;
  verifier = λ url _. url;
  verify = λ url _ now. if url == issuer_url then some id_token else none;
  claims = λ t. some t.payload;
}

abbrev token_members : Members
token_members =
    member (codes "iss") (string issuer_url)
      (member namespace (object (member (codes "aws_account") (string account) end)) end)

-- The middle segment of `raw_token` is the issuer's URL.
abbrev json : JsonPackage
json = record { unmarshal_iss = λ s. some s; decode_object = λ _. some token_members }

abbrev raw_token : Str
raw_token = codes "a.aHR0cHM6Ly9p.c"

abbrev jwt : JwtPackage
jwt = record {
  KeyPair = Str;
  Limits = Bool;
  no_limits = false;
  Other = Unit;
  new_user_claims = λ nkey. record {
    subject = nkey;
    name = [];
    audience = [];
    permissions = record {
      publish = record { allow = []; deny = [] };
      subscribe = record { allow = []; deny = [] };
      resp = none;
    };
    limits = true;
    expires = pos 0;
    other = tt;
  };
  encode = λ claims key. some (claims.subject ++ key);
}

abbrev packages : Packages
packages = record { regexp = fragment; cel = cel; json = json; oidc = oidc; jwt = jwt }

abbrev options : Options oidc.CertPool
options = record {
  issuers =
      record { url = issuer_url; require_claims = (codes "aws.aws_account", account) ∷ [] } ∷ [];
  audiences = codes "nats" ∷ [];
  signing_algs = codes "RS256" ∷ [];
  http_timeout = pos 0;
  root_cas = none;
}

abbrev grant : Grant
grant = record {
  account = codes "APP";
  publish = record { allow = codes "app.>" ∷ []; deny = [] };
  subscribe = record { allow = codes "_INBOX.>" ∷ []; deny = [] };
  response = none;
  max_expiry = pos 300_000_000_000;
}

abbrev other_rule : PolicyRule fragment cel
other_rule = record {
  name = codes "other";
  match = record {
    issuer = codes "https://j";
    sub = [];
    claims = [];
    expr = [];
    allow_broad = true;
  };
  grant = grant;
  matcher = none;
  cel_program = none;
}

abbrev app_rule : PolicyRule fragment cel
app_rule = record {
  name = [];
  match = record {
    issuer = issuer_url;
    sub = codes "arn:aws:iam::123456789012:role/*";
    claims = (codes "aws.aws_account", account) ∷ [];
    expr = role_arn;
    allow_broad = true;
  };
  grant = grant;
  matcher = none;
  cel_program = none;
}

-- As it is decoded, and as `Validate` leaves it.
abbrev decoded_policy : Policy fragment cel
decoded_policy = record { rules = other_rule ∷ app_rule ∷ []; validated = false }

abbrev policy : Policy fragment cel
policy = (validate fragment cel decoded_policy).0

abbrev request : Request
request = record { user_nkey = codes "UABC"; token = raw_token }

abbrev times : Times
times = record {
  verified_at = pos 100_000_000_000;
  rule_at = λ i. pos 100_000_000_000;
  capped_at = pos 100_000_000_000;
  elapsed = pos 5_000_000;
}
