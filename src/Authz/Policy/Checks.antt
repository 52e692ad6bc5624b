-- ===== src/Authz/Policy/Checks.antt =====
-- internal/authz/authz.go: what the check of one rule establishes.
use nats_jwt_callout.Base.{
  ℕ, ◌≡◌, refl, sym, ◌⊎◌, inl, inr, ◌≢◌, true, Option, none, some, [], is_empty, is_empty_iff,
  Result, ok, err, arith, Bool-cases,
}
use nats_jwt_callout.Regexp.{RegexpPackage}
use nats_jwt_callout.Authz.Sub.{SubError, compile_sub}
use nats_jwt_callout.Authz.Pins.{has_strong_pin}
use nats_jwt_callout.Authz.Cel.{CelPackage, CelError, new_cel_env, compile_cel_program}
use nats_jwt_callout.Authz.Policy.{
  PolicyRule, check_broad, check_expr, check_rule, ensure_env, with_program, with_env, with_matcher,
}

module _ (re : RegexpPackage) (cel : CelPackage) where
  -- The compiled expression of a rule: none without an expression.
  abbrev pub HasProgram : PolicyRule re cel → Type 0
  HasProgram r =
      ((r.match.expr ≡ []) × (r.cel_program ≡ none))
      ⊎ ((env : cel.Env) × (prg : cel.Program) × (new_cel_env cel ≡ some env)
          × (compile_cel_program cel env r.match.expr ≡ ok prg)
          × (r.cel_program ≡ some prg)
          × (r.match.allow_broad ≡ true)
          × (r.match.expr ≢ []))

  -- What is known of each rule of a validated policy.
  pub record IsChecked (r : PolicyRule re cel) : Type 0 where
    pub account : r.grant.account ≢ []
    pub matcher : compile_sub re r.match.sub ≡ ok r.matcher
    pub program : HasProgram r
    pub narrow : (has_strong_pin r.match ≡ true) ⊎ (r.match.allow_broad ≡ true)

  -- A rule of which no expression was compiled that it does not have, such as one that was decoded.
  abbrev pub IsFresh : PolicyRule re cel → Type 0
  IsFresh r = r.match.expr ≡ [] → r.cel_program ≡ none

  -- What the policy file says of a rule.
  abbrev pub SameSource : PolicyRule re cel → PolicyRule re cel → Type 0
  SameSource r r' = (r.name ≡ r'.name) × (r.match ≡ r'.match) × (r.grant ≡ r'.grant)

  -- The environment, if there is one, is the one that `newCELEnv` makes.
  abbrev pub IsGenuine : Option cel.Env → Type 0
  IsGenuine env = (env ≡ none) ⊎ (env ≡ new_cel_env cel)

  pub check_broad_inv :
      (env : Option cel.Env) (i : ℕ) (r : PolicyRule re cel) {r' : PolicyRule re cel}
      {env' : Option cel.Env}
      → check_broad re cel env i r ≡ (r', ok env')
      → (r ≡ r') × (env ≡ env') × ((has_strong_pin r.match ≡ true) ⊎ (r.match.allow_broad ≡ true))
  unfolding check_broad
  check_broad_inv env i r h = ground arith

  pub with_program_inv :
      (env : cel.Env) (i : ℕ) (r : PolicyRule re cel) (res : Result CelError cel.Program)
      {r' : PolicyRule re cel} {env' : Option cel.Env}
      → with_program re cel env i r res ≡ (r', ok env')
      → (prg : cel.Program) × (res ≡ ok prg)
        × (check_broad re cel (some env) i (record r { cel_program = some prg }) ≡ (r', ok env'))
  with_program_inv env i r (err e) h = absurd (ground arith)
  with_program_inv env i r (ok prg) h = (prg, refl, h)

  pub with_env_inv :
      (i : ℕ) (r : PolicyRule re cel) (o : Option cel.Env) {r' : PolicyRule re cel}
      {env' : Option cel.Env}
      → with_env re cel i r o ≡ (r', ok env')
      → (env : cel.Env) × (o ≡ some env)
        × (with_program re cel env i r (compile_cel_program cel env r.match.expr) ≡ (r', ok env'))
  with_env_inv i r none h = absurd (ground arith)
  with_env_inv i r (some env) h = (env, refl, h)

  -- What a successful check of the expression and of the guardrail has established.
  pub record IsExprChecked (r r' : PolicyRule re cel) (env' : Option cel.Env) : Type 0 where
    source : SameSource r r'
    matcher : r'.matcher ≡ r.matcher
    program : HasProgram r'
    narrow : (has_strong_pin r'.match ≡ true) ⊎ (r'.match.allow_broad ≡ true)
    genuine : IsGenuine env'

  pub ensure_env-genuine :
      (o : Option cel.Env) {env : cel.Env}
      → IsGenuine o
      → ensure_env re cel o ≡ some env
      → new_cel_env cel ≡ some env
  ensure_env-genuine none g h = h
  ensure_env-genuine (some env) g h = ground arith

  pub check_expr_without :
      (env : Option cel.Env) (i : ℕ) (r : PolicyRule re cel) {r' : PolicyRule re cel}
      {env' : Option cel.Env}
      → IsGenuine env
      → IsFresh r
      → r.match.expr ≡ []
      → check_broad re cel env i r ≡ (r', ok env')
      → IsExprChecked r r' env'
  check_expr_without env i r g fresh none_set h =
      let (same, same_env, narrow) = check_broad_inv env i r h in
      rw (← same) (record {
        source = (refl, refl, refl);
        matcher = refl;
        program = inl (none_set, fresh none_set);
        narrow = narrow;
        genuine = rw (← same_env) g;
      })

  pub check_expr_with :
      (env : Option cel.Env) (i : ℕ) (r : PolicyRule re cel) {r' : PolicyRule re cel}
      {env' : Option cel.Env}
      → IsGenuine env
      → r.match.expr ≢ []
      → r.match.allow_broad ≡ true
      → with_env re cel i r (ensure_env re cel env) ≡ (r', ok env')
      → IsExprChecked r r' env'
  check_expr_with env i r g set broad h =
      let (e, made, h') = with_env_inv i r (ensure_env re cel env) h in
      let (prg, built, h'') = with_program_inv e i r _ h' in
      let (same, same_env, narrow) =
        check_broad_inv (some e) i (record r { cel_program = some prg }) h'' in
      let genuine = ensure_env-genuine env g made in
      rw (← same) (record {
        source = (refl, refl, refl);
        matcher = refl;
        program = inr (e, prg, genuine, built, refl, broad, set);
        narrow = narrow;
        genuine = rw (← same_env) (inr (sym genuine));
      })

  pub check_expr_inv :
      (env : Option cel.Env) (i : ℕ) (r : PolicyRule re cel) {r' : PolicyRule re cel}
      {env' : Option cel.Env}
      → IsGenuine env
      → IsFresh r
      → check_expr re cel env i r ≡ (r', ok env')
      → IsExprChecked r r' env'
  unfolding check_expr
  check_expr_inv env i r g fresh h = elim (Bool-cases (is_empty r.match.expr)) [
    | inl unset ↦
        check_expr_without env i r g fresh ((is_empty_iff _).0 unset) (rw (unset, check_expr) at h)
    | inr set ↦ elim (Bool-cases r.match.allow_broad) [
      | inl broad ↦
          check_expr_with env i r g (λ e. ground (arith, is_empty_iff r.match.expr)) broad
            (ground arith)
      | inr narrow ↦ absurd (ground arith)
    ]
  ]

  pub with_matcher_inv :
      (env : Option cel.Env) (i : ℕ) (r : PolicyRule re cel)
      (res : Result SubError (Option re.Regexp)) {r' : PolicyRule re cel} {env' : Option cel.Env}
      → with_matcher re cel env i r res ≡ (r', ok env')
      → (m : Option re.Regexp) × (res ≡ ok m)
        × (check_expr re cel env i (record r { matcher = m }) ≡ (r', ok env'))
  with_matcher_inv env i r (err e) h = absurd (ground arith)
  with_matcher_inv env i r (ok m) h = (m, refl, h)

  pub record IsRuleChecked (r r' : PolicyRule re cel) (env' : Option cel.Env) : Type 0 where
    pub source : SameSource r r'
    pub checked : IsChecked r'
    pub genuine : IsGenuine env'

  pub check_rule_inv :
      (env : Option cel.Env) (i : ℕ) (r : PolicyRule re cel) {r' : PolicyRule re cel}
      {env' : Option cel.Env}
      → IsGenuine env
      → IsFresh r
      → check_rule re cel env i r ≡ (r', ok env')
      → IsRuleChecked r r' env'
  unfolding check_rule
  check_rule_inv env i r g fresh h = elim (Bool-cases (is_empty r.grant.account)) [
    | inl missing ↦ absurd (ground arith)
    | inr named ↦
        let (m, compiled, h') =
          with_matcher_inv env i r (compile_sub re r.match.sub) (rw (named, check_rule) at h) in
        let c = check_expr_inv env i (record r { matcher = m }) g fresh h' in
        record {
          source = c.source;
          checked = record {
            account = rw (← c.source.2) (λ e. ground arith);
            matcher = rw (← c.source.1, c.matcher) compiled;
            program = c.program;
            narrow = c.narrow;
          };
          genuine = c.genuine;
        }
  ]
