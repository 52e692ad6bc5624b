-- ===== src/Authz/Policy/First.antt =====
-- internal/authz/authz.go: a rule that is the first one satisfied decides.
use nats_jwt_callout.Base.{
  ℕ, zero, suc, ◌+◌, ◌<◌, ◌≡◌, refl, sym, ap, ◌∙◌, inl, inr, true, false, some, List, [], ◌∷◌,
  get_elem?, ok, arith, Bool-cases, Option, none, Str, is_empty_iff, is_empty-false_iff,
}
use mathlib.Core.Path.{subst}
use mathlib.Core.Option.{some-injective}
use native.Mathlib.Nat.{add-zero}
use nats_jwt_callout.Base.Int.{ℤ}
use nats_jwt_callout.Identity.{Identity}
use nats_jwt_callout.Regexp.{RegexpPackage}
use mathlib.Core.Option
use nats_jwt_callout.Authz.Types.{Grant, Response, ResponsePermission, Decision}
use nats_jwt_callout.Authz.Policy
use nats_jwt_callout.Authz.Cel.{CelPackage}
use nats_jwt_callout.Authz.Policy.{
  PolicyRule, Policy, matches, permission_limits, decision, evaluate_rules, evaluate,
}
use nats_jwt_callout.Authz.Policy.Conditions.{Satisfies, matches_iff}
use nats_jwt_callout.Authz.Policy.Evaluation.{
  IsFirst, IsGrantOf, IsNameOf, named, numbered, IsRepliesOf, unlimited, limited,
}

module _ (re : RegexpPackage) (cel : CelPackage) (clock : ℕ → ℤ) (id : Identity) where
  matches-false :
      (r : PolicyRule re cel) (now : ℤ)
      → ¬ Satisfies re cel r id now
      → matches re cel r id now ≡ false
  matches-false r now missed = elim (Bool-cases (matches re cel r id now)) [
    | inl hit ↦ absurd (missed ((matches_iff re cel r id now).0 hit))
    | inr miss ↦ miss
  ]

  shift : (i j : ℕ) → suc i + j ≡ i + suc j
  shift i j = omega arith

  evaluate_rules-first :
      (i : ℕ) (rules : List (PolicyRule re cel)) (n : ℕ) (rule : PolicyRule re cel)
      → get_elem? rules n ≡ some rule
      → Satisfies re cel rule id (clock (i + n))
      → ((j : ℕ) (r : PolicyRule re cel)
          → j < n
          → get_elem? rules j ≡ some r
          → ¬ Satisfies re cel r id (clock (i + j)))
      → evaluate_rules re cel clock i rules id ≡ ok (decision re cel rule (i + n))
  unfolding evaluate_rules
  evaluate_rules-first i [] n rule at hit earlier = absurd (cc)
  evaluate_rules-first i (r ∷ rs) zero rule at hit earlier =
      let same : r ≡ rule = some-injective r rule at in
      let first : matches re cel r id (clock i) ≡ true =
        (matches_iff re cel r id (clock i)).1
          (subst (λ t. Satisfies re cel t id (clock i)) (sym same) (rw (add-zero i) at hit)) in
      rw (first, add-zero i) (ap (λ t. ok (decision re cel t i)) same)
  evaluate_rules-first i (r ∷ rs) (suc n) rule at hit earlier =
      let missed : ¬ Satisfies re cel r id (clock i) =
        rw (add-zero i) at (earlier zero r (omega arith) refl) in
      rw (matches-false r (clock i) missed, ← shift i n)
        (evaluate_rules-first (suc i) rs n rule at (rw (← shift i n) at hit)
          (λ j q lt e. rw (← shift i j) at (earlier (suc j) q (omega arith) e)))

  IsNameOf-identity :
      (r : PolicyRule re cel) (i : ℕ) {reported : Str}
      → IsNameOf r.name i reported
      → reported ≡ Policy.identity re cel r i
  unfolding Policy.identity
  IsNameOf-identity r i {reported} (named set same) =
      let has = (is_empty-false_iff r.name).1 set in rw has same
  IsNameOf-identity r i {reported} (numbered unset same) =
      let lacks = (is_empty_iff r.name).1 unset in rw lacks same

  IsRepliesOf-permission_limits :
      (g : Grant) {resp : Option ResponsePermission}
      → IsRepliesOf g.response resp
      → resp ≡ (permission_limits g).resp
  unfolding permission_limits
  IsRepliesOf-permission_limits g h = replies_of g.response h
    where
      replies_of :
          (given : Option Response) {resp : Option ResponsePermission}
          → IsRepliesOf given resp
          → resp ≡ Option.map (λ r. record { max_msgs = r.max; expires = r.ttl }) given
      replies_of none unlimited = refl
      replies_of (some given) (limited {limit} max ttl) = ground arith

  -- A decision is no more than the grant.
  IsGrantOf-decision :
      (r : PolicyRule re cel) (i : ℕ) {d : Decision}
      → IsGrantOf re cel clock id r i d
      → d ≡ decision re cel r i
  unfolding decision permission_limits
  IsGrantOf-decision r i {d} g =
      let name = IsNameOf-identity r i g.name in
      let replies = IsRepliesOf-permission_limits r.grant g.replies in
      let account = g.account in
      let publish = g.publish in let subscribe = g.subscribe in let max_expiry = g.max_expiry in cc

  -- The converse of what an answer says: the first satisfied rule is the one that a policy answers
  -- with.
  pub evaluate-first :
      (p : Policy re cel) {d : Decision}
      → p.validated ≡ true
      → IsFirst re cel clock id 0 p.rules d
      → evaluate re cel clock p id ≡ ok d
  unfolding evaluate
  evaluate-first p {d} checked f = rw checked (
      evaluate_rules-first 0 p.rules f.index f.rule f.at f.satisfied f.earlier
      ∙ ap ok (sym (IsGrantOf-decision f.rule (0 + f.index) f.grant)))
