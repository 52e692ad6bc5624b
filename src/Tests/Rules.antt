-- ===== src/Tests/Rules.antt =====
-- internal/authz/authz.go: the rule of the sample policy, alone.
use nats_jwt_callout.Base.{◌≡◌, refl, inr, false, true, none, List, [], ◌∷◌, codes}
use nats_jwt_callout.Base.Int.{pos}
use nats_jwt_callout.Identity.{Identity}
use nats_jwt_callout.Regexp
use nats_jwt_callout.Regexp.Fragment.{fragment}
use nats_jwt_callout.Authz.Policy
use nats_jwt_callout.Authz.Policy.{PolicyRule, validate, Policy}
use nats_jwt_callout.Authz.Policy.Acceptance.{IsAcceptable, validate-accepts}
use nats_jwt_callout.Tests.{policy_code, account, issuer_url, role_arn, cel, app_rule}

abbrev first_rule : List (PolicyRule fragment cel) → PolicyRule fragment cel
first_rule [] = app_rule
first_rule (r ∷ rs) = r

-- The rule as `Validate` leaves it.
abbrev app_checked : PolicyRule fragment cel
app_checked =
    first_rule (validate fragment cel (record { rules = app_rule ∷ []; validated = false })).0.rules

app_rule-IsAcceptable : IsAcceptable fragment cel app_rule
unfolding policy_code
app_rule-IsAcceptable = record {
  account = λ e. absurd (cc);
  subject = (app_checked.matcher, refl);
  expr = inr ((λ e. absurd (cc)), refl, (tt, role_arn, refl, refl));
  narrow = inr refl;
}

validate-accepts_example :
    (p' : Policy fragment cel) × (validate fragment cel
        (record { rules = app_rule ∷ []; validated = false })
      ≡ (p', none))
    × (p'.validated ≡ true)
validate-accepts_example =
    validate-accepts fragment cel (record { rules = app_rule ∷ []; validated = false })
      (λ e. absurd (cc)) (app_rule-IsAcceptable, tt)

abbrev identity : Identity
identity = record {
  issuer = issuer_url;
  subject = role_arn;
  audience = codes "nats" ∷ [];
  expiry = pos 900_000_000_000;
  claims = (codes "aws.aws_account", account) ∷ [];
}
