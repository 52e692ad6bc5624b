-- ===== src/Authz/Policy/Acceptance.antt =====
-- internal/authz/authz.go: which policies `Validate` accepts.
use nats_jwt_callout.Base.{
  no_items, suc, ℕ, ◌≡◌, refl, sym, ap, not, ◌⊎◌, inl, inr, ◌≢◌, true, false, Option, none, some,
  List, [], ◌∷◌, Str, is_empty, is_empty_iff, All, Result, ok, arith,
}
use nats_jwt_callout.Regexp.{RegexpPackage}
use nats_jwt_callout.Authz.Sub.{compile_sub}
use nats_jwt_callout.Authz.Pins.{has_strong_pin}
use nats_jwt_callout.Authz.Cel.{CelPackage, new_cel_env, compile_cel_program}
use nats_jwt_callout.Authz.Policy.{
  PolicyError, PolicyRule, Policy, check_broad, check_expr, check_rule, ensure_env, validate_rules,
  validate, go_on, Loop,
}
use nats_jwt_callout.Authz.Policy.Checks.{IsGenuine}

module _ (re : RegexpPackage) (cel : CelPackage) where
  -- An expression is allowed only with allow_broad, and it compiles.
  abbrev pub HasGoodExpr : PolicyRule re cel → Type 0
  HasGoodExpr r =
      (r.match.expr ≡ [])
      ⊎ ((r.match.expr ≢ [])
          × (r.match.allow_broad ≡ true)
          × ((env : cel.Env) × (prg : cel.Program) × (new_cel_env cel ≡ some env)
              × (compile_cel_program cel env r.match.expr ≡ ok prg)))

  -- What the rule's text has to be for `Validate` to accept it.
  pub record IsAcceptable (r : PolicyRule re cel) : Type 0 where
    pub account : r.grant.account ≢ []
    pub subject : (m : Option re.Regexp) × (compile_sub re r.match.sub ≡ ok m)
    pub expr : HasGoodExpr r
    pub narrow : (has_strong_pin r.match ≡ true) ⊎ (r.match.allow_broad ≡ true)

  -- The check of a rule succeeds.
  abbrev Passes : PolicyRule re cel × Result PolicyError (Option cel.Env) → Type 0
  Passes c =
      (r' : PolicyRule re cel) × (env' : Option cel.Env) × (c ≡ (r', ok env'))
      × IsGenuine re cel env'

  check_broad-Passes :
      (env : Option cel.Env) (i : ℕ) (r : PolicyRule re cel)
      → IsGenuine re cel env
      → (has_strong_pin r.match ≡ true) ⊎ (r.match.allow_broad ≡ true)
      → Passes (check_broad re cel env i r)
  unfolding check_broad
  check_broad-Passes env i r g (inl pinned) = (r, env, rw pinned refl, g)
  check_broad-Passes env i r g (inr broad) = (r, env, ground arith, g)

  ensure_env_same :
      (o : Option cel.Env) {env : cel.Env}
      → IsGenuine re cel o
      → new_cel_env cel ≡ some env
      → ensure_env re cel o ≡ some env
  ensure_env_same none g h = h
  ensure_env_same (some e) g h = ground arith

  nonempty_text : (s : Str) → s ≢ [] → is_empty s ≡ false
  nonempty_text [] h = absurd (h refl)
  nonempty_text (c ∷ s) h = refl

  nonempty-is_empty : {A : Type 0} (xs : List A) → xs ≢ [] → no_items xs ≡ false
  nonempty-is_empty [] h = absurd (h refl)
  nonempty-is_empty (x ∷ xs) h = refl

  check_expr-Passes :
      (env : Option cel.Env) (i : ℕ) (r : PolicyRule re cel)
      → IsGenuine re cel env
      → HasGoodExpr r
      → (has_strong_pin r.match ≡ true) ⊎ (r.match.allow_broad ≡ true)
      → Passes (check_expr re cel env i r)
  unfolding check_expr
  check_expr-Passes env i r g (inl unset) narrow =
      rw ((is_empty_iff r.match.expr).1 unset) (check_broad-Passes env i r g narrow)
  check_expr-Passes env i r g (inr (set, broad, (e, prg, made, compiles))) narrow =
      rw (nonempty_text r.match.expr set, ap not broad, ensure_env_same env g made, compiles)
        (check_broad-Passes (some e) i (record r { cel_program = some prg }) (inr (sym made))
          narrow)

  check_rule-Passes :
      (env : Option cel.Env) (i : ℕ) (r : PolicyRule re cel)
      → IsGenuine re cel env
      → IsAcceptable r
      → Passes (check_rule re cel env i r)
  unfolding check_rule
  check_rule-Passes env i r g a =
      let (m, compiles) = a.subject in
      rw (nonempty_text r.grant.account a.account, compiles)
        (check_expr-Passes env i (record r { matcher = m }) g a.expr a.narrow)

  -- The loop ends without an error.
  abbrev Ends : Loop re cel → Type 0
  Ends l = (rs' : List (PolicyRule re cel)) × (l ≡ (rs', none))

  go_on_of :
      (c : PolicyRule re cel × Result PolicyError (Option cel.Env)) (rs : List (PolicyRule re cel))
      (next : Option cel.Env → Loop re cel) {r' : PolicyRule re cel} {env' : Option cel.Env}
      → c ≡ (r', ok env')
      → Ends (next env')
      → Ends (go_on re cel c rs next)
  go_on_of c rs next {r'} e (rs', ends) = (r' ∷ rs', rw (e, ends) refl)

  validate_rules-Ends :
      (env : Option cel.Env) (i : ℕ) (rs : List (PolicyRule re cel))
      → IsGenuine re cel env
      → All IsAcceptable rs
      → Ends (validate_rules re cel env i rs)
  unfolding validate_rules
  validate_rules-Ends env i [] g a = ([], refl)
  validate_rules-Ends env i (r ∷ rs) g (a, later) =
      let (r', env', passes, g') = check_rule-Passes env i r g a in
      go_on_of (check_rule re cel env i r) rs _ passes
        (validate_rules-Ends env' (suc i) rs g' later)

  -- `Validate` accepts every policy that has a rule, and whose rules are all acceptable: each with an
  -- account and a pattern that compiles; with no expression, or with one that compiles and allow_broad;
  -- and with a strong pin or allow_broad. The policy is then marked as validated.
  pub validate-accepts :
      (p : Policy re cel)
      → p.rules ≢ []
      → All IsAcceptable p.rules
      → (p' : Policy re cel) × (validate re cel p ≡ (p', none)) × (p'.validated ≡ true)
  unfolding validate
  validate-accepts p some_rule acceptable =
      let (rs, ends) = validate_rules-Ends none 0 p.rules (inl refl) acceptable in
      (
        record { rules = rs; validated = true },
        rw (nonempty-is_empty p.rules some_rule, ends) refl,
        refl,
      )
