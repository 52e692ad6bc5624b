-- ===== src/Authz/Policy/Validation.antt =====
-- What `Validate` accepts, and what a validated policy is known to be.
use nats_jwt_callout.Base.{
  no_items, ℕ, suc, ◌≡◌, refl, inl, inr, ◌≢◌, true, false, Option, none, some, List, [], ◌∷◌, All,
  All₂, Result, ok, err, arith, Bool-cases,
}
use nats_jwt_callout.Regexp.{RegexpPackage}
use nats_jwt_callout.Authz.Cel.{CelPackage}
use nats_jwt_callout.Authz.Policy.{
  PolicyError, PolicyRule, Policy, check_rule, validate_rules, validate, go_on, Loop, finish,
}
use nats_jwt_callout.Authz.Policy.Checks.{IsChecked, IsFresh, SameSource, IsGenuine, check_rule_inv}

module _ (re : RegexpPackage) (cel : CelPackage) where
  go_on_inv :
      (c : PolicyRule re cel × Result PolicyError (Option cel.Env)) (rs : List (PolicyRule re cel))
      (next : Option cel.Env → Loop re cel) {out : List (PolicyRule re cel)}
      → go_on re cel c rs next ≡ (out, none)
      → (r' : PolicyRule re cel) × (env' : Option cel.Env) × (rs' : List (PolicyRule re cel)) × (c
          ≡ (r', ok env'))
        × (next env' ≡ (rs', none))
        × (r' ∷ rs' ≡ out)
  go_on_inv (r, err e) rs next h = absurd (ground arith)
  go_on_inv (r, ok env) rs next h = (r, env, (next env).0, refl, ground arith, ground arith)

  validate_rules_inv :
      (env : Option cel.Env) (i : ℕ) (rs : List (PolicyRule re cel))
      {out : List (PolicyRule re cel)}
      → IsGenuine re cel env
      → All (IsFresh re cel) rs
      → validate_rules re cel env i rs ≡ (out, none)
      → All (IsChecked re cel) out × All₂ (SameSource re cel) rs out
  unfolding validate_rules
  validate_rules_inv env i [] {out} g fresh h = let e : [] ≡ out = ground arith in rw (← e) (tt, tt)
  validate_rules_inv env i (r ∷ rs) g fresh h =
      let (r', env', rs', checked, later, e) = go_on_inv (check_rule re cel env i r) rs _ h in
      let c = check_rule_inv re cel env i r g fresh.0 checked in
      let (all_checked, sources) = validate_rules_inv env' (suc i) rs c.genuine fresh.1 later in
      rw (← e) ((c.checked, all_checked), (c.source, sources))

  finish_inv :
      (p : Policy re cel) (l : Loop re cel) {p' : Policy re cel}
      → finish re cel p l ≡ (p', none)
      → (rs : List (PolicyRule re cel)) × (l ≡ (rs, none))
        × (p' ≡ record { rules = rs; validated = true })
  finish_inv p (rs, some e) h = absurd (ground arith)
  finish_inv p (rs, none) h = (rs, refl, ground arith)

  All₂-nonempty :
      (xs ys : List (PolicyRule re cel))
      → All₂ (SameSource re cel) xs ys
      → no_items xs ≡ false
      → ys ≢ []
  All₂-nonempty [] ys h e = absurd (cc)
  All₂-nonempty (x ∷ xs) [] h e = elim h [ ]
  All₂-nonempty (x ∷ xs) (y ∷ ys) h e = λ q. cc

  -- What holds of a policy after `Validate` has accepted `before`.
  pub record IsValidated (before p : Policy re cel) : Type 0 where
    pub validated : p.validated ≡ true
    pub not_empty : p.rules ≢ []
    pub checked : All (IsChecked re cel) p.rules
    pub source : All₂ (SameSource re cel) before.rules p.rules

  -- A policy that `Validate` accepts keeps its rules as the file has them; each has an account, its
  -- compiled subject, its compiled expression (which it may have only with allow_broad), and either a
  -- strong identity pin or allow_broad.
  pub validate-IsValidated :
      (p : Policy re cel) {p' : Policy re cel}
      → All (IsFresh re cel) p.rules
      → validate re cel p ≡ (p', none)
      → IsValidated p p'
  unfolding validate
  validate-IsValidated p {p'} fresh h = elim (Bool-cases (no_items p.rules)) [
    | inl empty ↦ absurd (ground arith)
    | inr some_rules ↦
        let (rs, l, e) =
          finish_inv p (validate_rules re cel none 0 p.rules) {p' = p'} (ground arith) in
        let (checked, source) = validate_rules_inv none 0 p.rules (inl refl) fresh l in
        rw e (record {
          validated = refl;
          not_empty = All₂-nonempty p.rules rs source some_rules;
          checked = checked;
          source = source;
        })
  ]
