-- ===== src/Tests/Running/Entitled.antt =====
-- cmd/nats-oidc-callout/main.go: a request that the sample service grants.
use nats_jwt_callout.Base.{
  ◌≡◌, false, refl, none, some, [], ◌∷◌, codes, ℕ, zero, suc, ◌<◌, ap, Option, get_elem?, arith,
  or_err,
}
use mathlib.Core.List.{Memᴰ}
use nats_jwt_callout.Base.Int.{pos}
use nats_jwt_callout.Identity.{Identity}
use nats_jwt_callout.Authz.Policy.{PolicyRule, matches, decision}
use nats_jwt_callout.Authz.Policy.Conditions.{Satisfies, matches_iff}
use nats_jwt_callout.Authz.Policy.Evaluation.{IsFirst, unlimited, numbered}
use nats_jwt_callout.Callout.{authorize, user_claims, authorization_denied}
use nats_jwt_callout.Service.Entitlement.{IsEntitled, authorize-grants}
use nats_jwt_callout.Regexp.Fragment.{fragment}
use nats_jwt_callout.Callout
use nats_jwt_callout.Config.Loading.{load-IsLoaded}
use nats_jwt_callout.Service.Reloading.{IsServing}
use nats_jwt_callout.Tests.{
  id_token, account, role_arn, answer_code, issuer_url, cel, packages, app_rule, request, times,
}
use nats_jwt_callout.Tests.Running.{start_code, files, world, loaded, started}

abbrev identity : Identity
identity = record {
  issuer = issuer_url;
  subject = role_arn;
  audience = codes "other" ∷ codes "nats" ∷ [];
  expiry = pos 900_000_000_000;
  claims = (codes "aws.aws_account", account) ∷ [];
}

abbrev rule_of : Option (PolicyRule fragment cel) → PolicyRule fragment cel
rule_of none = app_rule
rule_of (some r) = r

abbrev second_rule : PolicyRule fragment cel
second_rule = rule_of (get_elem? loaded.policy.rules 1)

-- The first rule is for another issuer.
missed_before :
    (j : ℕ) (r : PolicyRule fragment cel)
    → j < 1
    → get_elem? loaded.policy.rules j ≡ some r
    → ¬ Satisfies fragment cel r identity (times.rule_at j)
unfolding start_code answer_code
missed_before zero r lt e s =
    let missed : matches fragment cel (rule_of (get_elem? loaded.policy.rules 0)) identity
          (times.rule_at 0)
        ≡ false =
      refl in
    let hit = (matches_iff fragment cel r identity (times.rule_at 0)).1 s in
    let same = ap rule_of e in absurd (cc)
missed_before (suc j) r lt e s = omega arith

second-IsFirst :
    IsFirst fragment cel times.rule_at identity 0 loaded.policy.rules
      (decision fragment cel second_rule 1)
unfolding start_code answer_code
second-IsFirst = record {
  index = 1;
  rule = second_rule;
  at = refl;
  satisfied = (matches_iff fragment cel second_rule identity (times.rule_at 1)).0 refl;
  earlier = missed_before;
  grant = record {
    account = refl;
    publish = refl;
    subscribe = refl;
    replies = unlimited;
    max_expiry = refl;
    name = numbered refl refl;
  };
}

unfoldable serving : IsServing packages (codes "c") started
unfolding start_code Callout.new
serving = record {
  world = world;
  verifier = started.authorizer.state.verifier;
  loaded = load-IsLoaded fragment cel files (codes "c") {cfg = loaded} refl;
  built = refl;
  served = refl;
}

request-IsEntitled :
    IsEntitled packages world started.current times request identity
      (decision fragment cel second_rule 1)
unfolding start_code answer_code
request-IsEntitled = record {
  issuer = record { url = issuer_url; require_claims = [] };
  token = id_token;
  audience = codes "nats";
  payload = codes "payload";
  parsed = record identity { issuer = []; subject = []; audience = []; expiry = pos 0 };
  configured = Memᴰ.head refl;
  named = refl;
  accepted = λ pool provider read discovered. ground arith;
  for_audience = Memᴰ.tail (Memᴰ.head refl);
  allowed_audience = Memᴰ.head refl;
  readable = refl;
  flattened = refl;
  fields = refl;
  required = tt;
  first = second-IsFirst;
}

authorize-grants_example :
    (authorize packages times request started.authorizer).0
    ≡ or_err authorization_denied (
        packages.jwt.encode
          (user_claims packages times request identity (decision fragment cel second_rule 1))
          started.authorizer.sign_key)
unfolding serving
authorize-grants_example =
    authorize-grants packages (codes "c") started serving times request identity
      (decision fragment cel second_rule 1) request-IsEntitled
