-- ===== src/Identity/Namespaces.antt =====
-- Which names a claim key can come from: the registered claims, and the AWS namespace.
use nats_jwt_callout.Base.{
  ℕ, ◌≡◌, refl, sym, ◌∙◌, ◌≢◌, ◌⊎◌, inl, inr, true, false, none, some, [], ◌∷◌, ◌++◌, Str, codes,
  ◌==◌, ==_iff, arith, Option-cases, Bool-cases, ok, contains_byte, has_prefix, append_assoc,
}
use nats_jwt_callout.Base.Dict.{lookup, insert, keys_induction}
use nats_jwt_callout.Identity.{
  Json, string, object, Members, end, member, Identity, claim, parse, is_reserved, reserved,
  aws_prefix, flatten_claims, namespace, prefix_of, dotted, add_claim, flatten,
}
use nats_jwt_callout.Identity.Paths.{a_string, a_number, a_boolean, inside, Leaf, ClaimLeaf}
use nats_jwt_callout.Identity.Claims.{claim-parse_sound}

contains_byte-append :
    (s t : Str) (c : ℕ) → contains_byte t c ≡ true → contains_byte (s ++ t) c ≡ true
unfolding contains_byte
contains_byte-append [] t c h = h
contains_byte-append (d ∷ s) t c h = ground (arith, contains_byte-append s t c h)

-- A leaf's key is the prefix itself, or the prefix, a dot and more.
data Extends (prefix key : Str) : Type 0 where
  same : prefix ≡ key → Extends prefix key
  below : (r : Str) → key ≡ prefix ++ codes "." ++ r → Extends prefix key

Extends-dotted : (prefix k key : Str) → Extends (dotted prefix k) key → Extends prefix key
Extends-dotted prefix k key (same e) = below k (sym e)
Extends-dotted prefix k key (below r e) = below (k ++ codes "." ++ r) (e ∙ simp append_assoc)

Leaf-Extends : {key val prefix : Str} {j : Json} → Leaf key val prefix j → Extends prefix key
Leaf-Extends (a_string e _) = same e
Leaf-Extends (a_number e _) = same e
Leaf-Extends (a_boolean e _) = same e
Leaf-Extends {key} (inside {prefix} {k} m leaf) = Extends-dotted prefix k key (Leaf-Extends leaf)

-- A reserved name has no dot, and is no prefix that `prefix_of` makes of a name that is not reserved.
abbrev IsSeparate : Str → Type 0
IsSeparate k = (contains_byte k b'.' ≡ false) × (k ≢ aws_prefix)

reserved-IsSeparate : (k : Str) → is_reserved k ≡ true → IsSeparate k
unfolding is_reserved contains_byte
reserved-IsSeparate = keys_induction IsSeparate reserved (ground arith)

prefix_of-not_reserved :
    (name key : Str) → is_reserved name ≡ false → is_reserved key ≡ true → prefix_of name ≢ key
unfolding prefix_of
prefix_of-not_reserved name key free kept e =
    ground (arith, reserved-IsSeparate key kept, ==_iff name namespace)

not-ClaimLeaf-reserved :
    {key val : Str} {raw : Members} → is_reserved key ≡ true → ¬ ClaimLeaf key val raw
unfolding contains_byte
not-ClaimLeaf-reserved {key} kept l = elim (Leaf-Extends l.leaf) [
  | same e ↦ prefix_of-not_reserved l.name key l.matchable kept e
  | below r e ↦ cc (
    (reserved-IsSeparate key kept).0,
    append_assoc (prefix_of l.name) (codes ".") r,
    contains_byte-append (prefix_of l.name) (codes "." ++ r) b'.' refl,
  )
]

-- No registered claim (iss, sub, aud, exp, nbf, iat) can be read through the claim map, whatever the
-- token holds.
pub claim-parse_reserved :
    (raw : Members) (key : Str) {id : Identity}
    → parse (some raw) ≡ ok id
    → is_reserved key ≡ true
    → claim id key ≡ none
claim-parse_reserved raw key {id} parsed kept = elim (Option-cases (claim id key)) [
  | inl missing ↦ missing
  | inr (v, found) ↦ absurd (not-ClaimLeaf-reserved kept (claim-parse_sound raw key parsed found))
]

-- A name under which the token can write keys of the AWS namespace: the namespace itself, or a name
-- that begins with "aws".
abbrev pub IsAwsName : Str → Type 0
IsAwsName name = (name ≡ namespace) ⊎ (has_prefix name aws_prefix ≡ true)

-- `name` is what is left of a key in the namespace when its tail is cut at a dot, or not at all.
has_prefix-aws :
    (name rest r : Str)
    → (name ≡ aws_prefix ++ codes "." ++ rest)
      ⊎ (aws_prefix ++ codes "." ++ rest ≡ name ++ codes "." ++ r)
    → has_prefix name aws_prefix ≡ true
unfolding has_prefix
has_prefix-aws [] rest r h = ground arith
has_prefix-aws (a ∷ []) rest r h = ground arith
has_prefix-aws (a ∷ b ∷ []) rest r h = ground arith
has_prefix-aws (a ∷ b ∷ c ∷ name) rest r h = ground arith

prefix_of_other : (name : Str) → (name == namespace) ≡ false → prefix_of name ≡ name
unfolding prefix_of
prefix_of_other name h = rw h

Extends-aws :
    (name rest : Str)
    → Extends name (aws_prefix ++ codes "." ++ rest)
    → has_prefix name aws_prefix ≡ true
Extends-aws name rest (same e) = has_prefix-aws name rest [] (inl e)
Extends-aws name rest (below r e) = has_prefix-aws name rest r (inr e)

ClaimLeaf-IsAwsName :
    {val : Str} {raw : Members} (rest : Str)
    → (l : ClaimLeaf (aws_prefix ++ codes "." ++ rest) val raw) → IsAwsName l.name
ClaimLeaf-IsAwsName rest l = elim (Bool-cases (l.name == namespace)) [
  | inl h ↦ inl ((==_iff _ _).0 h)
  | inr h ↦ inr (Extends-aws l.name rest (rw (prefix_of_other l.name h) at (Leaf-Extends l.leaf)))
]

-- A claim whose key begins with "aws." was written by the member of the token that is named by the
-- AWS namespace, or by one whose own name begins with "aws".
pub claim-parse_aws :
    (raw : Members) (rest : Str) {id : Identity} {val : Str}
    → parse (some raw) ≡ ok id
    → claim id (aws_prefix ++ codes "." ++ rest) ≡ some val
    → (l : ClaimLeaf (aws_prefix ++ codes "." ++ rest) val raw) × IsAwsName l.name
claim-parse_aws raw rest parsed found =
    let l = claim-parse_sound raw (aws_prefix ++ codes "." ++ rest) parsed found in
    (l, ClaimLeaf-IsAwsName rest l)

abbrev pub account_key : Str
account_key = codes "aws.aws_account"

-- The member that AWS writes, with the account `a`, and a top-level member of the flattened name.
abbrev pub real_account : Str → Members → Members
real_account a = member namespace (object (member (codes "aws_account") (string a) end))

abbrev pub spoofed_account : Str → Members → Members
spoofed_account b = member account_key (string b)

-- A top-level member named "aws.aws_account" takes the place of the AWS account: which of the two
-- values the claim has depends only on the order in which the decoded map is visited.
pub claim-parse_spoofed :
    (a b : Str) {id id' : Identity}
    → parse (some (real_account a (spoofed_account b end))) ≡ ok id
    → parse (some (spoofed_account b (real_account a end))) ≡ ok id'
    → (claim id account_key ≡ some b) × (claim id' account_key ≡ some a)
unfolding claim parse flatten_claims add_claim flatten prefix_of is_reserved lookup insert
claim-parse_spoofed a b parsed parsed' = ground arith
