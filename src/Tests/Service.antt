-- ===== src/Tests/Service.antt =====
-- The sample service: its policy, its verifier, and what it answers.
mod Interleaved
use nats_jwt_callout.Base.{◌≡◌, refl, some, List, [], ◌∷◌, Str, codes, ok, err}
use nats_jwt_callout.Base.Int.{pos}
use nats_jwt_callout.Identity.{Identity}
use nats_jwt_callout.Authz.Policy
use nats_jwt_callout.Authz.Policy.{PolicyRule, validate, evaluate, Policy}
use nats_jwt_callout.Authz.Policy.Validation.{IsValidated, validate-IsValidated}
use nats_jwt_callout.Authz.Policy.Evaluation.{Outcome, evaluate-Outcome}
use nats_jwt_callout.Regexp
use nats_jwt_callout.Regexp.{find, run_regex, special, quote_meta, quote_byte}
use nats_jwt_callout.Regexp.Fragment.{fragment}
use nats_jwt_callout.Authz.Sub.{sub_matches}
use nats_jwt_callout.Authz.Cel.{activation, eval_cel}
use nats_jwt_callout.Verifier.{Verifier, verify}
use nats_jwt_callout.Verifier.Verification.{IsVerified, verify-eq-ok_iff, verify-selected}
use nats_jwt_callout.Verifier.Construction.{IsBuilt, new-IsBuilt}
use nats_jwt_callout.Metrics
use nats_jwt_callout.Callout
use nats_jwt_callout.Callout.{authorization_denied, Authorizer, capped_expiry, authorize, reload}
use nats_jwt_callout.Callout.Expiry.{IsCapped, capped_expiry-IsCapped}
use nats_jwt_callout.Callout.Authorization.{
  IsAuthorized, IsIssued, authorize-eq-ok_iff, authorize-IsIssued,
}
use nats_jwt_callout.Callout.Accounting.{
  Event, requested, reloaded, run, last_ruleset, IsAudited, run-IsAudited, run-last_ruleset,
}
use nats_jwt_callout.Tests.{
  answer_code, policy_code, service_code, account, issuer_url, role_arn, cel, oidc, json, raw_token,
  packages, options, decoded_policy, policy, request, times,
}

abbrev verifier : Verifier Str
verifier = record {
  issuers =
      (
        issuer_url,
        record { verifier = issuer_url; require_claims = (codes "aws.aws_account", account) ∷ [] },
      )
      ∷ [];
  audiences = (codes "nats", tt) ∷ [];
}

abbrev identity : Identity
identity = record {
  issuer = issuer_url;
  subject = role_arn;
  audience = codes "other" ∷ codes "nats" ∷ [];
  expiry = pos 900_000_000_000;
  claims = (codes "aws.aws_account", account) ∷ [];
}

validate-IsValidated_example : IsValidated fragment cel decoded_policy policy
unfolding policy_code
validate-IsValidated_example =
    validate-IsValidated fragment cel decoded_policy ((λ _. refl), ((λ _. refl), tt)) refl

evaluate-Outcome_example :
    Outcome fragment cel times.rule_at identity 0 policy.rules
      (evaluate fragment cel times.rule_at policy identity)
unfolding policy_code
evaluate-Outcome_example = evaluate-Outcome fragment cel times.rule_at identity policy refl

verify-eq-ok_iff_example : IsVerified json oidc verifier (pos 5) raw_token identity
unfolding service_code
verify-eq-ok_iff_example = (verify-eq-ok_iff json oidc verifier (pos 5) raw_token identity).0 refl

-- The same, with one more issuer configured.
abbrev wider_verifier : Verifier Str
wider_verifier = record {
  issuers =
      (codes "https://j", record { verifier = codes "https://j"; require_claims = [] })
      ∷ verifier.issuers;
  audiences = verifier.audiences;
}

verify-selected_example :
    verify json oidc verifier (pos 5) raw_token ≡ verify json oidc wider_verifier (pos 5) raw_token
unfolding service_code
verify-selected_example =
    verify-selected json oidc verifier wider_verifier (pos 5) raw_token issuer_url refl refl refl

new-IsBuilt_example : IsBuilt oidc options verifier
unfolding service_code
new-IsBuilt_example = new-IsBuilt oidc options verifier refl

abbrev authorizer : Authorizer packages
authorizer = Callout.new packages verifier policy (codes "SK") (some Metrics.new)

authorize_tests :
    ((authorize packages times request authorizer).0 ≡ ok (codes "UABCSK"))
    × ((authorize packages times (record { user_nkey = codes "U"; token = [] }) authorizer).0
        ≡ err authorization_denied)
    × ((authorize packages times
          (record { user_nkey = codes "U"; token = codes "a.b" })
          authorizer).0
        ≡ err authorization_denied)
unfolding answer_code
authorize_tests = (refl, refl, refl)

authorize-IsIssued_example : IsIssued packages times request authorizer (codes "UABCSK")
unfolding answer_code
authorize-IsIssued_example =
    authorize-IsIssued packages (λ nkey. refl) times request authorizer (codes "UABCSK") refl

abbrev events : List (Event packages)
events =
    requested times request
    ∷ reloaded wider_verifier decoded_policy
    ∷ requested times (record { user_nkey = codes "U"; token = [] })
    ∷ []
