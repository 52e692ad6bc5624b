-- ===== src/Identity.antt =====
-- internal/identity/identity.go: a verified identity, and the flattening of a token's claims.
-- A JSON object is its members, in the order in which Go's `range` visits the decoded map.
pub mod Paths
pub mod Leaves
pub mod Claims
pub mod Namespaces
use nats_jwt_callout.Base.{
  Bool, true, false, Option, none, some, List, [], ◌∷◌, ◌++◌, Str, codes, ◌==◌, if◌then◌else◌,
  is_some, Result, ok, err,
}
use nats_jwt_callout.Base.Dict.{Dict, lookup, insert}
use nats_jwt_callout.Base.Int.{ℤ, pos}

-- What encoding/json decodes into an `any`, with UseNumber: `number` holds the literal's text.
mutual
  pub data Json : Type 0 where
    null : Json
    boolean : Bool → Json
    number string : Str → Json
    array : Items → Json
    object : Members → Json

  pub data Items : Type 0 where
    nil : Items
    item : Json → Items → Items

  pub data Members : Type 0 where
    end : Members
    member : Str → Json → Members → Members

abbrev pub namespace : Str
namespace = codes "https://sts.amazonaws.com/"

abbrev pub aws_prefix : Str
aws_prefix = codes "aws"

abbrev pub reserved : Dict (Unit {0})
reserved =
    (codes "iss", tt)
    ∷ (codes "sub", tt)
    ∷ (codes "aud", tt)
    ∷ (codes "exp", tt)
    ∷ (codes "nbf", tt)
    ∷ (codes "iat", tt)
    ∷ []

pub record Identity : Type 0 where
  pub issuer : Str
  pub subject : Str
  pub audience : List Str
  pub expiry : ℤ
  pub claims : Dict Str

-- A nil map reads as an empty one.
pub new : Str → Option (Dict Str) → Identity
new subject none = record {
  issuer = [];
  subject = subject;
  audience = [];
  expiry = pos 0;
  claims = [];
}
new subject (some claims) = record {
  issuer = [];
  subject = subject;
  audience = [];
  expiry = pos 0;
  claims = claims;
}

unfoldable pub claim : Identity → Str → Option Str
claim i name = lookup name i.claims

-- strconv.FormatBool
abbrev pub format_bool : Bool → Str
format_bool true = codes "true"
format_bool false = codes "false"

abbrev pub dotted : Str → Str → Str
dotted prefix k = prefix ++ codes "." ++ k

unfoldable mutual
  pub flatten : Str → Json → Dict Str → Dict Str
  flatten prefix (object ms) out = flatten_members prefix ms out
  flatten prefix (string val) out = insert prefix val out
  flatten prefix (number val) out = insert prefix val out
  flatten prefix (boolean val) out = insert prefix (format_bool val) out
  flatten prefix null out = out
  flatten prefix (array _) out = out

  pub flatten_members : Str → Members → Dict Str → Dict Str
  flatten_members prefix end out = out
  flatten_members prefix (member k child ms) out =
      flatten_members prefix ms (flatten (dotted prefix k) child out)

unfoldable pub prefix_of : Str → Str
unfolding ◌==◌
prefix_of k = if k == namespace then aws_prefix else k

unfoldable pub is_reserved : Str → Bool
unfolding lookup
is_reserved k = is_some (lookup k reserved)

-- One round of the loop of `Parse`.
unfoldable pub add_claim : Str → Json → Dict Str → Dict Str
add_claim k v claims = if is_reserved k then claims else flatten (prefix_of k) v claims

unfoldable pub flatten_claims : Members → Dict Str → Dict Str
flatten_claims end claims = claims
flatten_claims (member k v raw) claims = flatten_claims raw (add_claim k v claims)

pub data ParseError : Type 0 where
  decode_claims : ParseError

-- `Parse`, after the decoder's answer.
unfoldable pub parse : Option Members → Result ParseError Identity
parse none = err decode_claims
parse (some raw) = ok (record {
  issuer = [];
  subject = [];
  audience = [];
  expiry = pos 0;
  claims = flatten_claims raw [];
})
