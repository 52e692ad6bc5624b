-- ===== src/Identity/Leaves.antt =====
-- internal/identity/identity.go: the flattened claims of a token are the scalar leaves of its JSON
-- tree, without the order in which they are written.
use nats_jwt_callout.Base.{
  ◌≡◌, refl, ◌⊎◌, inl, inr, true, false, some, Str, ==_iff, is_some, arith, Bool-cases,
}
use nats_jwt_callout.Base.Dict.{Dict, lookup, insert, lookup-insert}
use nats_jwt_callout.Identity.{
  Json, null, boolean, number, string, array, object, Members, end, member, format_bool, dotted,
  flatten, flatten_members, is_reserved, prefix_of, add_claim, flatten_claims,
}
use nats_jwt_callout.Identity.Paths.{
  first, later, a_string, a_number, a_boolean, inside, Member, Leaf, ClaimLeaf, MemberLeaf,
}

lookup-insert_inv :
    (k key v : Str) (out : Dict Str) {val : Str}
    → lookup key (insert k v out) ≡ some val
    → ((k ≡ key) × (v ≡ val)) ⊎ (lookup key out ≡ some val)
lookup-insert_inv k key v out h = ground (arith, lookup-insert k key v out, ==_iff k key)

MemberLeaf-later :
    {key val prefix k : Str} {w : Json} {ms : Members}
    → MemberLeaf key val prefix ms
    → MemberLeaf key val prefix (member k w ms)
MemberLeaf-later m = record {
  name = m.name;
  value = m.value;
  listed = later m.listed;
  leaf = m.leaf;
}

mutual
  unfolding flatten

  flatten_inv :
      (prefix : Str) (j : Json) (out : Dict Str) {key val : Str}
      → lookup key (flatten prefix j out) ≡ some val
      → Leaf key val prefix j ⊎ (lookup key out ≡ some val)
  flatten_inv prefix (object ms) out h = elim (flatten_members_inv prefix ms out h) [
    | inl m ↦ inl (inside m.listed m.leaf)
    | inr old ↦ inr old
  ]
  flatten_inv prefix (string s) out h = elim (lookup-insert_inv prefix _ s out h) [
    | inl e ↦ inl (a_string e.0 e.1)
    | inr old ↦ inr old
  ]
  flatten_inv prefix (number s) out h = elim (lookup-insert_inv prefix _ s out h) [
    | inl e ↦ inl (a_number e.0 e.1)
    | inr old ↦ inr old
  ]
  flatten_inv prefix (boolean b) out h = elim (lookup-insert_inv prefix _ (format_bool b) out h) [
    | inl e ↦ inl (a_boolean e.0 e.1)
    | inr old ↦ inr old
  ]
  flatten_inv prefix null out h = inr h
  flatten_inv prefix (array xs) out h = inr h

  flatten_members_inv :
      (prefix : Str) (ms : Members) (out : Dict Str) {key val : Str}
      → lookup key (flatten_members prefix ms out) ≡ some val
      → MemberLeaf key val prefix ms ⊎ (lookup key out ≡ some val)
  flatten_members_inv prefix end out h = inr h
  flatten_members_inv prefix (member k child ms) out h =
      elim (flatten_members_inv prefix ms (flatten (dotted prefix k) child out) h) [
        | inl m ↦ inl (MemberLeaf-later m)
        | inr old ↦ elim (flatten_inv (dotted prefix k) child out old) [
          | inl leaf ↦
              inl (record { name = k; value = child; listed = first refl refl; leaf = leaf })
          | inr older ↦ inr older
        ]
      ]

-- Writing more claims never removes a key.
insert_keeps :
    (k key v : Str) (out : Dict Str)
    → is_some (lookup key out) ≡ true
    → is_some (lookup key (insert k v out)) ≡ true
insert_keeps k key v out h = rw (lookup-insert k key v out) (ground arith)

insert_adds :
    (k key v : Str) (out : Dict Str) → k ≡ key → is_some (lookup key (insert k v out)) ≡ true
insert_adds k key v out e = ground (arith, lookup-insert k key v out, ==_iff k key)

mutual
  unfolding flatten

  flatten_keeps :
      (prefix : Str) (j : Json) (out : Dict Str) (key : Str)
      → is_some (lookup key out) ≡ true
      → is_some (lookup key (flatten prefix j out)) ≡ true
  flatten_keeps prefix (object ms) out key h = flatten_members_keeps prefix ms out key h
  flatten_keeps prefix (string s) out key h = insert_keeps prefix key s out h
  flatten_keeps prefix (number s) out key h = insert_keeps prefix key s out h
  flatten_keeps prefix (boolean b) out key h = insert_keeps prefix key (format_bool b) out h
  flatten_keeps prefix null out key h = h
  flatten_keeps prefix (array xs) out key h = h

  flatten_members_keeps :
      (prefix : Str) (ms : Members) (out : Dict Str) (key : Str)
      → is_some (lookup key out) ≡ true
      → is_some (lookup key (flatten_members prefix ms out)) ≡ true
  flatten_members_keeps prefix end out key h = h
  flatten_members_keeps prefix (member k child ms) out key h =
      flatten_members_keeps prefix ms (flatten (dotted prefix k) child out) key
        (flatten_keeps (dotted prefix k) child out key h)

Member-adds :
    (prefix key : Str) {k : Str} {child : Json} {ms : Members}
    → Member k child ms
    → ((out : Dict Str) → is_some (lookup key (flatten (dotted prefix k) child out)) ≡ true)
    → (out : Dict Str) → is_some (lookup key (flatten_members prefix ms out)) ≡ true
unfolding flatten
Member-adds prefix key (first {j} {w} {ms} same_name same_value) ih out =
    flatten_members_keeps prefix ms (flatten (dotted prefix j) w out) key
      (rw (same_name, same_value) (ih out))
Member-adds prefix key (later {j} {w} m) ih out =
    Member-adds prefix key m ih (flatten (dotted prefix j) w out)

pub flatten-Leaf :
    {key val prefix : Str} {j : Json}
    → Leaf key val prefix j
    → (out : Dict Str) → is_some (lookup key (flatten prefix j out)) ≡ true
unfolding flatten
flatten-Leaf {key} (a_string {prefix} {s} e _) out = insert_adds prefix key s out e
flatten-Leaf {key} (a_number {prefix} {s} e _) out = insert_adds prefix key s out e
flatten-Leaf {key} (a_boolean {prefix} {b} e _) out = insert_adds prefix key (format_bool b) out e
flatten-Leaf {key} (inside {prefix} m leaf) out =
    Member-adds prefix key m (λ o. flatten-Leaf leaf o) out

ClaimLeaf-later :
    {key val k : Str} {w : Json} {raw : Members}
    → ClaimLeaf key val raw
    → ClaimLeaf key val (member k w raw)
ClaimLeaf-later m = record {
  name = m.name;
  value = m.value;
  listed = later m.listed;
  matchable = m.matchable;
  leaf = m.leaf;
}

add_claim_inv :
    (k : Str) (v : Json) (claims : Dict Str) {key val : Str}
    → lookup key (add_claim k v claims) ≡ some val
    → ((is_reserved k ≡ false) × Leaf key val (prefix_of k) v) ⊎ (lookup key claims ≡ some val)
unfolding add_claim
add_claim_inv k v claims h = elim (Bool-cases (is_reserved k)) [
  | inl kept ↦ inr (rw (kept, add_claim) at h)
  | inr free ↦ elim (flatten_inv (prefix_of k) v claims (rw (free, add_claim) at h)) [
    | inl leaf ↦ inl (free, leaf)
    | inr old ↦ inr old
  ]
]

pub flatten_claims_inv :
    (raw : Members) (claims : Dict Str) {key val : Str}
    → lookup key (flatten_claims raw claims) ≡ some val
    → ClaimLeaf key val raw ⊎ (lookup key claims ≡ some val)
unfolding flatten_claims
flatten_claims_inv end claims h = inr h
flatten_claims_inv (member k v raw) claims h =
    elim (flatten_claims_inv raw (add_claim k v claims) h) [
      | inl m ↦ inl (ClaimLeaf-later m)
      | inr old ↦ elim (add_claim_inv k v claims old) [
        | inl (free, leaf) ↦ inl (record {
          name = k;
          value = v;
          listed = first refl refl;
          matchable = free;
          leaf = leaf;
        })
        | inr older ↦ inr older
      ]
    ]

add_claim_keeps :
    (k : Str) (v : Json) (claims : Dict Str) (key : Str)
    → is_some (lookup key claims) ≡ true
    → is_some (lookup key (add_claim k v claims)) ≡ true
unfolding add_claim
add_claim_keeps k v claims key h = elim (Bool-cases (is_reserved k)) [
  | inl kept ↦ rw kept h
  | inr free ↦ rw free (flatten_keeps (prefix_of k) v claims key h)
]

flatten_claims_keeps :
    (raw : Members) (claims : Dict Str) (key : Str)
    → is_some (lookup key claims) ≡ true
    → is_some (lookup key (flatten_claims raw claims)) ≡ true
unfolding flatten_claims
flatten_claims_keeps end claims key h = h
flatten_claims_keeps (member k v raw) claims key h =
    flatten_claims_keeps raw (add_claim k v claims) key (add_claim_keeps k v claims key h)

add_claim-Leaf :
    {j k : Str} {v w : Json} (key val : Str)
    → j ≡ k
    → w ≡ v
    → is_reserved k ≡ false
    → Leaf key val (prefix_of k) v
    → (claims : Dict Str) → is_some (lookup key (add_claim j w claims)) ≡ true
unfolding add_claim
add_claim-Leaf key val same_name same_value free leaf claims =
    rw (same_name, same_value, free) (flatten-Leaf leaf claims)

pub flatten_claims-ClaimLeaf :
    {k : Str} {v : Json} {raw : Members} (key val : Str)
    → Member k v raw
    → is_reserved k ≡ false
    → Leaf key val (prefix_of k) v
    → (claims : Dict Str) → is_some (lookup key (flatten_claims raw claims)) ≡ true
unfolding flatten_claims
flatten_claims-ClaimLeaf key val (first {j} {w} {ms} same_name same_value) free leaf claims =
    flatten_claims_keeps ms (add_claim j w claims) key
      (add_claim-Leaf key val same_name same_value free leaf claims)
flatten_claims-ClaimLeaf key val (later {j} {w} m) free leaf claims =
    flatten_claims-ClaimLeaf key val m free leaf (add_claim j w claims)
