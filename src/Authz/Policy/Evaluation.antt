-- ===== src/Authz/Policy/Evaluation.antt =====
-- Which rule decides: the first whose conditions all hold.
use nats_jwt_callout.Base.{
  ℕ, zero, suc, ◌+◌, ◌<◌, ◌≡◌, refl, sym, ◌∙◌, inl, inr, true, some, List, [], ◌∷◌, get_elem?,
  Result, ok, err, arith, Bool-cases, Option, none, Option-cases, Str, codes, ◌++◌, decimal, ◌≢◌,
  is_empty, is_empty_iff, is_empty-false_iff,
}
use mathlib.Core.Path.{subst}
use mathlib.Core.Option.{some-injective}
use native.Mathlib.Nat.{add-zero}
use nats_jwt_callout.Base.Int.{ℤ}
use nats_jwt_callout.Identity.{Identity}
use nats_jwt_callout.Regexp.{RegexpPackage}
use nats_jwt_callout.Authz.Types.{Grant, Response, ResponsePermission, Decision}
use nats_jwt_callout.Authz.Policy
use nats_jwt_callout.Authz.Cel.{CelPackage}
use nats_jwt_callout.Authz.Policy.{
  PolicyError, no_rule_matched, PolicyRule, Policy, matches, permission_limits, decision,
  evaluate_rules, evaluate,
}
use nats_jwt_callout.Authz.Policy.Conditions.{Satisfies, matches_iff}

pub data IsRepliesOf : Option Response → Option ResponsePermission → Type 0 where
  unlimited : IsRepliesOf none none
  limited :
      {given : Response} {limit : ResponsePermission}
      → limit.max_msgs ≡ given.max
      → limit.expires ≡ given.ttl
      → IsRepliesOf (some given) (some limit)

pub data IsNameOf (name : Str) (i : ℕ) (reported : Str) : Type 0 where
  named : name ≢ [] → reported ≡ name → IsNameOf name i reported
  numbered : name ≡ [] → reported ≡ codes "#" ++ decimal i → IsNameOf name i reported

module _ (re : RegexpPackage) (cel : CelPackage) where
  module _ (clock : ℕ → ℤ) (id : Identity) where
    -- The grant of a rule, as it is configured: the account, the subjects to publish and to subscribe
    -- to, the limits on replies, and the cap on the expiry. A rule without a name is reported by its
    -- number.
    pub record IsGrantOf (r : PolicyRule re cel) (i : ℕ) (d : Decision) : Type 0 where
      pub account : d.account ≡ r.grant.account
      pub publish : d.permissions.publish ≡ r.grant.publish
      pub subscribe : d.permissions.subscribe ≡ r.grant.subscribe
      pub replies : IsRepliesOf r.grant.response d.permissions.resp
      pub max_expiry : d.max_expiry ≡ r.grant.max_expiry
      pub name : IsNameOf r.name i d.rule_name

    -- `rule` stands at `index`, is satisfied there, and no rule before it is. The rules are numbered
    -- from `i`.
    pub record IsFirst (i : ℕ) (rules : List (PolicyRule re cel)) (d : Decision) : Type 0 where
      pub index : ℕ
      pub rule : PolicyRule re cel
      pub at : get_elem? rules index ≡ some rule
      pub satisfied : Satisfies re cel rule id (clock (i + index))
      pub earlier :
          (j : ℕ) (r : PolicyRule re cel)
          → j < index
          → get_elem? rules j ≡ some r
          → ¬ Satisfies re cel r id (clock (i + j))
      pub grant : IsGrantOf rule (i + index) d

    abbrev pub NoneSatisfied : ℕ → List (PolicyRule re cel) → Type 0
    NoneSatisfied i rules =
        (j : ℕ) (r : PolicyRule re cel)
        → get_elem? rules j ≡ some r
        → ¬ Satisfies re cel r id (clock (i + j))

    identity-IsNameOf :
        (r : PolicyRule re cel) (i : ℕ) → IsNameOf r.name i (Policy.identity re cel r i)
    unfolding Policy.identity
    identity-IsNameOf r i = elim (Bool-cases (is_empty r.name)) [
      | inl unset ↦ rw unset (numbered ((is_empty_iff r.name).0 unset) refl)
      | inr set ↦ rw set (named ((is_empty-false_iff r.name).0 set) refl)
    ]

    permission_limits-IsRepliesOf : (g : Grant) → IsRepliesOf g.response (permission_limits g).resp
    unfolding permission_limits
    permission_limits-IsRepliesOf g = elim (Option-cases g.response) [
      | inl unset ↦ rw unset unlimited
      | inr (given, set) ↦ rw set (limited refl refl)
    ]

    decision-IsGrantOf : (r : PolicyRule re cel) (i : ℕ) → IsGrantOf r i (decision re cel r i)
    unfolding decision permission_limits
    decision-IsGrantOf r i = record {
      account = refl;
      publish = refl;
      subscribe = refl;
      replies = permission_limits-IsRepliesOf r.grant;
      max_expiry = refl;
      name = identity-IsNameOf r i;
    }

    shift : (i j : ℕ) → suc i + j ≡ i + suc j
    shift i j = omega arith

    IsFirst-here :
        (i : ℕ) (r : PolicyRule re cel) (rs : List (PolicyRule re cel))
        → Satisfies re cel r id (clock i)
        → IsFirst i (r ∷ rs) (decision re cel r i)
    IsFirst-here i r rs h = record {
      index = 0;
      rule = r;
      at = refl;
      satisfied = rw (add-zero i) h;
      earlier = λ j q lt _ _. omega arith;
      grant = rw (add-zero i) (decision-IsGrantOf r i);
    }

    head_missed :
        (i : ℕ) (r q : PolicyRule re cel)
        → ¬ Satisfies re cel r id (clock i)
        → some r ≡ some q
        → ¬ Satisfies re cel q id (clock (i + 0))
    head_missed i r q missed e s = missed (
        subst (λ t. Satisfies re cel t id (clock i)) (some-injective q r (sym e))
          (rw (add-zero i) at s))

    tail_missed :
        (i j : ℕ) (q : PolicyRule re cel)
        → ¬ Satisfies re cel q id (clock (suc i + j))
        → ¬ Satisfies re cel q id (clock (i + suc j))
    tail_missed i j q missed = rw (← shift i j) missed

    earlier-cons :
        (i n : ℕ) (r : PolicyRule re cel) (rs : List (PolicyRule re cel))
        → ¬ Satisfies re cel r id (clock i)
        → ((j : ℕ) (q : PolicyRule re cel)
            → j < n
            → get_elem? rs j ≡ some q
            → ¬ Satisfies re cel q id (clock (suc i + j)))
        → (j : ℕ) (q : PolicyRule re cel) → j < suc n
        → get_elem? (r ∷ rs) j ≡ some q
        → ¬ Satisfies re cel q id (clock (i + j))
    earlier-cons i n r rs missed later zero q lt e = head_missed i r q missed e
    earlier-cons i n r rs missed later (suc j) q lt e =
        tail_missed i j q (later j q (omega arith) e)

    IsFirst-later :
        (i : ℕ) (r : PolicyRule re cel) (rs : List (PolicyRule re cel)) {d : Decision}
        → ¬ Satisfies re cel r id (clock i)
        → IsFirst (suc i) rs d
        → IsFirst i (r ∷ rs) d
    IsFirst-later i r rs missed f = record {
      index = suc f.index;
      rule = f.rule;
      at = f.at;
      satisfied = rw (← shift i f.index) f.satisfied;
      earlier = earlier-cons i f.index r rs missed f.earlier;
      grant = rw (← shift i f.index) f.grant;
    }

    NoneSatisfied-cons :
        (i : ℕ) (r : PolicyRule re cel) (rs : List (PolicyRule re cel))
        → ¬ Satisfies re cel r id (clock i)
        → NoneSatisfied (suc i) rs
        → NoneSatisfied i (r ∷ rs)
    NoneSatisfied-cons i r rs missed later zero q e = head_missed i r q missed e
    NoneSatisfied-cons i r rs missed later (suc j) q e = tail_missed i j q (later j q e)

    -- Either the first satisfied rule decides, or none is satisfied and the answer is the error.
    pub data Outcome (i : ℕ) (rules : List (PolicyRule re cel)) (out : Result PolicyError Decision)
        : Type 0 where
      granted : (d : Decision) → out ≡ ok d → IsFirst i rules d → Outcome i rules out
      denied : out ≡ err no_rule_matched → NoneSatisfied i rules → Outcome i rules out

    Outcome-cons :
        (i : ℕ) (r : PolicyRule re cel) (rs : List (PolicyRule re cel))
        {out rest : Result PolicyError Decision}
        → ¬ Satisfies re cel r id (clock i)
        → out ≡ rest
        → Outcome (suc i) rs rest
        → Outcome i (r ∷ rs) out
    Outcome-cons i r rs missed same (granted d e f) =
        granted d (same ∙ e) (IsFirst-later i r rs missed f)
    Outcome-cons i r rs missed same (denied e none_later) =
        denied (same ∙ e) (NoneSatisfied-cons i r rs missed none_later)

    evaluate_rules-Outcome :
        (i : ℕ) (rules : List (PolicyRule re cel))
        → Outcome i rules (evaluate_rules re cel clock i rules id)
    unfolding evaluate_rules
    evaluate_rules-Outcome i [] = denied refl (λ j r e. cc)
    evaluate_rules-Outcome i (r ∷ rs) = elim (Bool-cases (matches re cel r id (clock i))) [
      | inl hit ↦
          granted (decision re cel r i) (rw hit)
            (IsFirst-here i r rs ((matches_iff re cel r id (clock i)).0 hit))
      | inr miss ↦
          Outcome-cons i r rs (λ s. cc ((matches_iff re cel r id (clock i)).1 s)) (rw miss)
            (evaluate_rules-Outcome (suc i) rs)
    ]

    -- A validated policy answers for every identity. The account, the permissions and the cap of the
    -- answer are those that the first rule whose conditions hold is configured with; where no rule's
    -- conditions hold, the answer is `no_rule_matched`.
    pub evaluate-Outcome :
        (p : Policy re cel) → p.validated ≡ true → Outcome 0 p.rules (evaluate re cel clock p id)
    unfolding evaluate
    evaluate-Outcome p h = rw h (evaluate_rules-Outcome 0 p.rules)
