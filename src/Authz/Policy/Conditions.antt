-- ===== src/Authz/Policy/Conditions.antt =====
-- internal/authz/authz.go: when the conditions of a rule hold.
use nats_jwt_callout.Base.{
  ℕ, ◌≡◌, ◌⊎◌, ◌↔◌, Bool, true, false, not, ◌&&◌, Option, none, some, [], ◌∷◌, Str, ◌==◌, ==_iff,
  if◌then◌else◌, is_empty, is_empty_iff, all, All, length, arith,
}
use nats_jwt_callout.Base.Dict.{Dict}
use nats_jwt_callout.Base.Int.{ℤ}
use nats_jwt_callout.Identity.{Identity, claim}
use nats_jwt_callout.Regexp.{RegexpPackage}
use nats_jwt_callout.Authz.Sub.{sub_matches, spans}
use nats_jwt_callout.Authz.Cel.{CelPackage, Value, a_bool, other, activation, eval_cel, as_bool}
use nats_jwt_callout.Authz.Policy.{has_claim, PolicyRule, matches, cel_holds}

pub has_claim_iff : (o : Option Str) (want : Str) → (has_claim o want ≡ true) ↔ (o ≡ some want)
has_claim_iff none want = ground arith
has_claim_iff (some got) want = ground (arith, ==_iff got want)

module _ (id : Identity) where
  abbrev pub HasClaims : Dict Str → Type 0
  HasClaims = All (λ e. claim id e.0 ≡ some e.1)

  pub all-has_claim_iff :
      (m : Dict Str) → (all (λ e. has_claim (claim id e.0) e.1) m ≡ true) ↔ HasClaims m
  all-has_claim_iff [] = ground arith
  all-has_claim_iff ((k, want) ∷ m) =
      ground (arith, all-has_claim_iff m, has_claim_iff (claim id k) want)

pub spans_iff : (sub : Str) (o : Option (ℕ × ℕ)) → (spans sub o ≡ true) ↔ (o ≡ some (0, length sub))
spans_iff sub none = ground arith
spans_iff sub (some (i, j)) = ground arith

pub as_bool_iff : (o : Option Value) → (as_bool o ≡ true) ↔ (o ≡ some (a_bool true))
as_bool_iff none = ground arith
as_bool_iff (some other) = ground arith
as_bool_iff (some (a_bool b)) = ground arith

-- The four tests of a rule, in their order.
pub gates_iff :
    (foreign sub claims expr : Bool)
    → ((if foreign then false else if not sub then false else if not claims then false else expr)
        ≡ true)
      ↔ ((foreign ≡ false) × (sub ≡ true) × (claims ≡ true) × (expr ≡ true))
gates_iff foreign sub claims expr = ground arith

pub issuer_iff :
    (want got : Str)
    → ((not (is_empty want) && not (want == got)) ≡ false) ↔ ((want ≡ []) ⊎ (want ≡ got))
issuer_iff want got = ground (arith, is_empty_iff want, ==_iff want got)

module _ (re : RegexpPackage) (cel : CelPackage) where
  abbrev pub SpansSubject : Option re.Regexp → Str → Type 0
  SpansSubject none sub = Unit
  SpansSubject (some m) sub = re.find_string_index m sub ≡ some (0, length sub)

  abbrev pub Evaluates : Option cel.Program → Identity → ℤ → Type 0
  Evaluates none id now = Unit
  Evaluates (some prg) id now = cel.eval prg (activation id now) ≡ some (a_bool true)

  -- The conditions of a rule, each as the policy's documentation has it.
  pub record Satisfies (r : PolicyRule re cel) (id : Identity) (now : ℤ) : Type 0 where
    pub issuer : (r.match.issuer ≡ []) ⊎ (r.match.issuer ≡ id.issuer)
    pub subject : SpansSubject r.matcher id.subject
    pub claims : HasClaims id r.match.claims
    pub expr : Evaluates r.cel_program id now

  pub sub_matches_iff :
      (m : Option re.Regexp) (sub : Str) → (sub_matches re m sub ≡ true) ↔ SpansSubject m sub
  unfolding sub_matches
  sub_matches_iff none sub = ground arith
  sub_matches_iff (some m) sub = spans_iff sub (re.find_string_index m sub)

  pub cel_holds_iff :
      (p : Option cel.Program) (id : Identity) (now : ℤ)
      → (cel_holds re cel p id now ≡ true) ↔ Evaluates p id now
  unfolding eval_cel
  cel_holds_iff none id now = ground arith
  cel_holds_iff (some prg) id now = as_bool_iff (cel.eval prg (activation id now))

  pub matches_iff :
      (r : PolicyRule re cel) (id : Identity) (now : ℤ)
      → (matches re cel r id now ≡ true) ↔ Satisfies r id now
  unfolding matches
  matches_iff r id now =
      let gate = gates_iff _ _ _ _ in
      let issuer = issuer_iff r.match.issuer id.issuer in
      let sub = sub_matches_iff r.matcher id.subject in
      let claims = all-has_claim_iff id r.match.claims in
      let expr = cel_holds_iff r.cel_program id now in
      (
        λ h.
            let (a, b, c, d) = gate.0 h in
            record { issuer = issuer.0 a; subject = sub.0 b; claims = claims.0 c; expr = expr.0 d },
        λ s. gate.1 (issuer.1 s.issuer, sub.1 s.subject, claims.1 s.claims, expr.1 s.expr),
      )
