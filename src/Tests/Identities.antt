-- ===== src/Tests/Identities.antt =====
-- internal/identity/identity.go: the sample token, and one that writes into the AWS namespace.
use nats_jwt_callout.Base.{◌≡◌, refl, sym, ◌∙◌, ◌↔◌, false, some, [], Str, codes, ◌==◌}
use mathlib.Core.Path.{subst}
use nats_jwt_callout.Base.Dict.{lookup, insert}
use nats_jwt_callout.Base.Int.{pos}
use nats_jwt_callout.Identity.{
  Json, Members, Identity, end, member, object, string, namespace, claim, parse, flatten,
  flatten_members, flatten_claims, add_claim, prefix_of, dotted, is_reserved,
}
use nats_jwt_callout.Identity.Paths.{first, later, a_string, inside, Member, Leaf, ClaimLeaf}
use nats_jwt_callout.Identity.Claims.{IsUnambiguous, claim-parse_iff, claim-parse-SameMembers}
use nats_jwt_callout.Identity.Namespaces.{
  IsAwsName, account_key, real_account, spoofed_account, claim-parse_aws, claim-parse_spoofed,
}
use nats_jwt_callout.Tests.{account, issuer_url, token_members}

code : Unit {0}
unfolding claim parse flatten_claims add_claim flatten flatten_members prefix_of is_reserved lookup
    insert ◌==◌
code = tt

abbrev swapped_members : Members
swapped_members =
    member namespace (object (member (codes "aws_account") (string account) end))
      (member (codes "iss") (string issuer_url) end)

abbrev with_claims : Members → Identity
with_claims raw = record {
  issuer = [];
  subject = [];
  audience = [];
  expiry = pos 0;
  claims = flatten_claims raw [];
}

abbrev foreign : Str
foreign = codes "999999999999"

abbrev aws_first : Members
aws_first = real_account account (spoofed_account foreign end)

abbrev aws_last : Members
aws_last = spoofed_account foreign (real_account account end)

string-Leaf : {key v prefix s : Str} → Leaf key v prefix (string s) → s ≡ v
string-Leaf (a_string e e') = e'

aws-Leaf :
    {key v prefix : Str}
    → Leaf key v prefix (object (member (codes "aws_account") (string account) end))
    → account ≡ v
aws-Leaf {key} {v} (inside {prefix} {k} (first e e') l) =
    string-Leaf (subst (Leaf key v (dotted prefix k)) (sym e') l)
aws-Leaf (inside (later m) l) = elim m [ ]

token-Leaf :
    {key v name : Str} {value : Json}
    → Member name value token_members
    → is_reserved name ≡ false
    → Leaf key v (prefix_of name) value
    → account ≡ v
unfolding code
token-Leaf (first e e') free l = absurd (cc)
token-Leaf {key} {v} {name} (later (first e e')) free l =
    aws-Leaf (subst (Leaf key v (prefix_of name)) (sym e') l)
token-Leaf (later (later m)) free l = elim m [ ]

token_members-IsUnambiguous : IsUnambiguous token_members
token_members-IsUnambiguous key v w l m =
    sym (token-Leaf l.listed l.matchable l.leaf) ∙ token-Leaf m.listed m.matchable m.leaf

swap : {k : Str} {v : Json} → Member k v token_members ↔ Member k v swapped_members
swap = (
  λ m. elim m [
    | first e e' ↦ later (first e e')
    | later (first e e') ↦ first e e'
    | later (later m) ↦ elim m [ ]
  ],
  λ m. elim m [
    | first e e' ↦ later (first e e')
    | later (first e e') ↦ first e e'
    | later (later m) ↦ elim m [ ]
  ],
)

claim-parse_iff_example :
    (claim (with_claims token_members) account_key ≡ some account)
    ↔ ClaimLeaf account_key account token_members
unfolding code
claim-parse_iff_example =
    claim-parse_iff token_members {id = (with_claims token_members)} refl
      token_members-IsUnambiguous account_key account

claim-parse-SameMembers_example :
    claim (with_claims token_members) account_key ≡ claim (with_claims swapped_members) account_key
unfolding code
claim-parse-SameMembers_example =
    claim-parse-SameMembers token_members swapped_members {id = (with_claims token_members)}
      {id' = (with_claims swapped_members)} refl refl (λ k v. swap) token_members-IsUnambiguous
      account_key

claim-parse_aws_example : (l : ClaimLeaf account_key account token_members) × IsAwsName l.name
unfolding code
claim-parse_aws_example =
    claim-parse_aws token_members (codes "aws_account") {id = (with_claims token_members)} refl refl

claim-parse_spoofed_example :
    (claim (with_claims aws_first) account_key ≡ some foreign)
    × (claim (with_claims aws_last) account_key ≡ some account)
unfolding code
claim-parse_spoofed_example =
    claim-parse_spoofed account foreign {id = with_claims aws_first} {id' = with_claims aws_last}
      refl refl
