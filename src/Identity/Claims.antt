-- ===== src/Identity/Claims.antt =====
-- What `parse` makes of a token: its leaves, whatever the order of the members.
use nats_jwt_callout.Base.{
  ◌≡◌, refl, sym, ap, ◌∙◌, ◌↔◌, inl, inr, true, Option, none, some, [], Str, is_some, arith, ok,
}
use nats_jwt_callout.Base.Dict.{lookup}
use nats_jwt_callout.Identity.{Json, Members, Identity, claim, parse, flatten_claims}
use nats_jwt_callout.Identity.Leaves.{flatten_claims_inv, flatten_claims-ClaimLeaf}
use nats_jwt_callout.Identity.Paths.{ClaimLeaf, Member}

claims-parse :
    (raw : Members) {id : Identity} → parse (some raw) ≡ ok id → id.claims ≡ flatten_claims raw []
unfolding parse
claims-parse raw h = ground arith

pub claim-parse_sound :
    (raw : Members) (key : Str) {id : Identity} {val : Str}
    → parse (some raw) ≡ ok id
    → claim id key ≡ some val
    → ClaimLeaf key val raw
unfolding claim lookup
claim-parse_sound raw key {id} {val} parsed h =
    elim (flatten_claims_inv raw [] {key = key} {val = val} (rw (claims-parse raw parsed) at h)) [
      | inl leaf ↦ leaf
      | inr never ↦ absurd (cc)
    ]

pub claim-parse_complete :
    (raw : Members) (key val : Str) {id : Identity}
    → parse (some raw) ≡ ok id
    → ClaimLeaf key val raw
    → is_some (claim id key) ≡ true
unfolding claim
claim-parse_complete raw key val {id} parsed l =
    rw (claims-parse raw parsed) (flatten_claims-ClaimLeaf key val l.listed l.matchable l.leaf [])

-- No two leaves of the token share a key and differ in their value.
abbrev pub IsUnambiguous : Members → Type 0
IsUnambiguous raw = (key v w : Str) → ClaimLeaf key v raw → ClaimLeaf key w raw → v ≡ w

some_lem : (o : Option Str) → is_some o ≡ true → (v : Str) × (o ≡ some v)
some_lem none h = absurd (cc)
some_lem (some v) h = (v, refl)

-- Of a token whose leaves are unambiguous, the identity has exactly the claims that are leaves.
pub claim-parse_iff :
    (raw : Members) {id : Identity}
    → parse (some raw) ≡ ok id
    → IsUnambiguous raw
    → (key val : Str) → (claim id key ≡ some val) ↔ ClaimLeaf key val raw
claim-parse_iff raw {id} parsed clear key val = (
  claim-parse_sound raw key parsed,
  λ leaf.
      let (v, found) = some_lem (claim id key) (claim-parse_complete raw key val parsed leaf) in
      found ∙ ap some (clear key v val (claim-parse_sound raw key parsed found) leaf),
)

-- The same members, in any order and any multiplicity.
abbrev pub SameMembers : Members → Members → Type 0
SameMembers raw raw' = (k : Str) (v : Json) → Member k v raw ↔ Member k v raw'

ClaimLeaf-SameMembers :
    {raw raw' : Members} (key val : Str)
    → SameMembers raw raw'
    → ClaimLeaf key val raw
    → ClaimLeaf key val raw'
ClaimLeaf-SameMembers key val same l = record {
  name = l.name;
  value = l.value;
  listed = (same l.name l.value).0 l.listed;
  matchable = l.matchable;
  leaf = l.leaf;
}

option_ext :
    (o p : Option Str)
    → ((v : Str) → o ≡ some v → p ≡ some v)
    → ((v : Str) → p ≡ some v → o ≡ some v)
    → o ≡ p
option_ext none none to from = refl
option_ext none (some v) to from = from v refl
option_ext (some v) p to from = sym (to v refl)

-- The order in which the decoded map is visited does not matter, if the leaves are unambiguous.
pub claim-parse-SameMembers :
    (raw raw' : Members) {id id' : Identity}
    → parse (some raw) ≡ ok id
    → parse (some raw') ≡ ok id'
    → SameMembers raw raw'
    → IsUnambiguous raw
    → (key : Str) → claim id key ≡ claim id' key
claim-parse-SameMembers raw raw' {id} {id'} parsed parsed' same clear key =
    let back : SameMembers raw' raw = λ k v. ((same k v).1, (same k v).0) in
    let clear' : IsUnambiguous raw' = λ k v w l m.
      clear k v w (ClaimLeaf-SameMembers k v back l) (ClaimLeaf-SameMembers k w back m) in
    option_ext (claim id key) (claim id' key)
      (λ v h.
        (claim-parse_iff raw' parsed' clear' key v).1
          (ClaimLeaf-SameMembers key v same (claim-parse_sound raw key parsed h)))
      (λ v h.
        (claim-parse_iff raw parsed clear key v).1
          (ClaimLeaf-SameMembers key v back (claim-parse_sound raw' key parsed' h)))
