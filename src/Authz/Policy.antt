-- ===== src/Authz/Policy.antt =====
-- internal/authz/authz.go: validating and evaluating a policy.
pub mod Checks
pub mod Conditions
pub mod Validation
pub mod First
pub mod Evaluation
pub mod Subjects
pub mod Acceptance
use nats_jwt_callout.Base.{
  ℕ, zero, suc, Bool, true, false, not, ◌&&◌, ◌||◌, Option, none, some, List, [], ◌∷◌, ◌++◌, Str,
  codes, ◌==◌, if◌then◌else◌, is_empty, decimal, all, no_items, Result, ok, err,
}
use mathlib.Core.Option
use nats_jwt_callout.Base.Int.{ℤ}
use nats_jwt_callout.Identity.{Identity, claim}
use nats_jwt_callout.Regexp.{RegexpPackage}
use nats_jwt_callout.Authz.Types.{Match, Grant, Rule, UserPermissionLimits, Decision}
use nats_jwt_callout.Authz.Sub.{SubError, compile_sub, sub_matches}
use nats_jwt_callout.Authz.Pins.{has_strong_pin}
use nats_jwt_callout.Authz.Cel.{CelPackage, CelError, new_cel_env, compile_cel_program, eval_cel}

pub data RuleError : Type 0 where
  account_required : RuleError
  sub_error : SubError → RuleError
  expr_not_acknowledged : RuleError
  cel_error : CelError → RuleError
  too_broad : RuleError

-- The text in `in_rule` is the name by which the rule is reported.
pub data PolicyError : Type 0 where
  no_rules : PolicyError
  in_rule : Str → RuleError → PolicyError
  cel_environment : PolicyError
  not_validated : PolicyError
  no_rule_matched : PolicyError

-- `want` is compared with the claim that the identity has, if it has one.
abbrev pub has_claim : Option Str → Str → Bool
has_claim none want = false
has_claim (some got) want = got == want

unfoldable pub permission_limits : Grant → UserPermissionLimits
permission_limits g = record {
  publish = g.publish;
  subscribe = g.subscribe;
  resp = Option.map (λ r. record { max_msgs = r.max; expires = r.ttl }) g.response;
}

module _ (re : RegexpPackage) (cel : CelPackage) where
  abbrev pub PolicyRule : Type 0
  PolicyRule = Rule re.Regexp cel.Program

  pub record Policy : Type 0 where
    pub rules : List PolicyRule
    pub validated : Bool

  unfoldable pub identity : PolicyRule → ℕ → Str
  identity r i = if not (is_empty r.name) then r.name else codes "#" ++ decimal i

  abbrev Checked : Type 0
  Checked = PolicyRule × Result PolicyError (Option cel.Env)

  -- The guardrail, the last step for a rule.
  unfoldable pub check_broad : Option cel.Env → ℕ → PolicyRule → Checked
  check_broad env i r =
      if not (has_strong_pin r.match) && not r.match.allow_broad
      then (r, err (in_rule (identity r i) too_broad))
      else (r, ok env)

  abbrev with_program : cel.Env → ℕ → PolicyRule → Result CelError cel.Program → Checked
  with_program env i r (err e) = (r, err (in_rule (identity r i) (cel_error e)))
  with_program env i r (ok prg) = check_broad (some env) i (record r { cel_program = some prg })

  abbrev with_env : ℕ → PolicyRule → Option cel.Env → Checked
  with_env i r none = (r, err cel_environment)
  with_env i r (some env) = with_program env i r (compile_cel_program cel env r.match.expr)

  -- The environment is made for the first rule that needs it.
  abbrev pub ensure_env : Option cel.Env → Option cel.Env
  ensure_env none = new_cel_env cel
  ensure_env (some env) = some env

  unfoldable pub check_expr : Option cel.Env → ℕ → PolicyRule → Checked
  check_expr env i r =
      if is_empty r.match.expr
      then check_broad env i r
      else if not r.match.allow_broad
      then (r, err (in_rule (identity r i) expr_not_acknowledged))
      else with_env i r (ensure_env env)

  abbrev with_matcher :
      Option cel.Env → ℕ → PolicyRule → Result SubError (Option re.Regexp) → Checked
  with_matcher env i r (err e) = (r, err (in_rule (identity r i) (sub_error e)))
  with_matcher env i r (ok matcher) = check_expr env i (record r { matcher = matcher })

  -- One round of the loop of `Validate`: the rule as it is left, and the error that ends the loop or
  -- the environment for the rules that follow.
  unfoldable pub check_rule : Option cel.Env → ℕ → PolicyRule → Checked
  check_rule env i r =
      if is_empty r.grant.account
      then (r, err (in_rule (identity r i) account_required))
      else with_matcher env i r (compile_sub re r.match.sub)

  abbrev pub Loop : Type 0
  Loop = List PolicyRule × Option PolicyError

  abbrev pub go_on : Checked → List PolicyRule → (Option cel.Env → Loop) → Loop
  go_on (r, err e) rs next = (r ∷ rs, some e)
  go_on (r, ok env) rs next = let (rs', e) = next env in (r ∷ rs', e)

  unfoldable pub validate_rules : Option cel.Env → ℕ → List PolicyRule → Loop
  validate_rules env i [] = ([], none)
  validate_rules env i (r ∷ rs) =
      go_on (check_rule env i r) rs (λ env'. validate_rules env' (suc i) rs)

  abbrev finish : Policy → Loop → Policy × Option PolicyError
  finish p (rs, some e) = (record p { rules = rs }, some e)
  finish p (rs, none) = (record { rules = rs; validated = true }, none)

  -- `Validate` writes to the policy, also where it fails: the policy as it is left, and the error.
  unfoldable pub validate : Policy → Policy × Option PolicyError
  validate p =
      if no_items p.rules then (p, some no_rules) else finish p (validate_rules none 0 p.rules)

  abbrev cel_holds : Option cel.Program → Identity → ℤ → Bool
  cel_holds none id now = true
  cel_holds (some prg) id now = eval_cel cel prg id now

  unfoldable pub matches : PolicyRule → Identity → ℤ → Bool
  matches r id now =
      if not (is_empty r.match.issuer) && not (r.match.issuer == id.issuer)
      then false
      else if not (sub_matches re r.matcher id.subject)
      then false
      else if not (all (λ e. has_claim (claim id e.0) e.1) r.match.claims)
      then false
      else cel_holds r.cel_program id now

  unfoldable pub decision : PolicyRule → ℕ → Decision
  decision r i = record {
    rule_name = identity r i;
    account = r.grant.account;
    permissions = permission_limits r.grant;
    max_expiry = r.grant.max_expiry;
  }

  -- `clock i` is what `time.Now` returns when rule `i` is tried.
  unfoldable pub evaluate_rules :
      (ℕ → ℤ) → ℕ → List PolicyRule → Identity → Result PolicyError Decision
  evaluate_rules clock i [] id = err no_rule_matched
  evaluate_rules clock i (r ∷ rs) id =
      let rest = evaluate_rules clock (suc i) rs id in
      if matches r id (clock i) then ok (decision r i) else rest

  unfoldable pub evaluate : (ℕ → ℤ) → Policy → Identity → Result PolicyError Decision
  evaluate clock p id =
      if not p.validated then err not_validated else evaluate_rules clock 0 p.rules id
