-- ===== src/Identity/Paths.antt =====
-- internal/identity/identity.go: the leaves of a decoded token, each under its dotted path.
use nats_jwt_callout.Base.{◌≡◌, Bool, false, Str}
use nats_jwt_callout.Identity.{
  Json, boolean, number, string, object, Members, member, format_bool, dotted, is_reserved,
  prefix_of,
}

pub data Member (k : Str) (v : Json) : Members → Type 0 where
  first : {j : Str} {w : Json} {ms : Members} → j ≡ k → w ≡ v → Member k v (member j w ms)
  later : {j : Str} {w : Json} {ms : Members} → Member k v ms → Member k v (member j w ms)

-- `Leaf prefix j key val`: below `prefix`, `j` has the scalar `val` at the path `key`.
pub data Leaf (key val : Str) : Str → Json → Type 0 where
  a_string : {prefix s : Str} → prefix ≡ key → s ≡ val → Leaf key val prefix (string s)
  a_number : {prefix s : Str} → prefix ≡ key → s ≡ val → Leaf key val prefix (number s)
  a_boolean :
      {prefix : Str} {b : Bool}
      → prefix ≡ key
      → format_bool b ≡ val
      → Leaf key val prefix (boolean b)
  inside :
      {prefix k : Str} {child : Json} {ms : Members}
      → Member k child ms
      → Leaf key val (dotted prefix k) child
      → Leaf key val prefix (object ms)

-- A leaf of the whole token: reserved members are left out, and the AWS namespace is renamed.
pub record ClaimLeaf (key val : Str) (raw : Members) : Type 0 where
  pub name : Str
  pub value : Json
  pub listed : Member name value raw
  pub matchable : is_reserved name ≡ false
  pub leaf : Leaf key val (prefix_of name) value

-- Below `prefix`, one of the members has the leaf.
pub record MemberLeaf (key val prefix : Str) (ms : Members) : Type 0 where
  pub name : Str
  pub value : Json
  pub listed : Member name value ms
  pub leaf : Leaf key val (dotted prefix name) value
