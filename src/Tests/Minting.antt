-- ===== src/Tests/Minting.antt =====
-- internal/mockoidc/mockoidc.go: tokens of a mock issuer with two keys.
use nats_jwt_callout.Base.{
  Bool, true, ◌||◌, ℕ, ◌%◌, ◌≡◌, ◌∙◌, refl, some, none, Option, [], ◌∷◌, ◌++◌, map, Str, codes,
  ◌==◌, tally, arith, Result, ok, err, sym, ap, decimal,
}
use mathlib.Core.Path.{subst}
use nats_jwt_callout.Base.Int.{pos}
use nats_jwt_callout.Base.Dict.{Dict, lookup, insert}
use nats_jwt_callout.Base64.{encode_raw_url, character}
use nats_jwt_callout.Base64.RoundTrip.{IsBytes}
use nats_jwt_callout.Verifier.{unverified_issuer}
use nats_jwt_callout.MockOidc
use nats_jwt_callout.MockOidc.{
  Fatal, ClaimValue, TokenOptions, Packages, Key, Server, add_key, set_default_key, find_key,
  signer, mint, mint_claims, strconv_i,
}
use nats_jwt_callout.MockOidc.Exponent.{
  encode_exponent, drop_zeros, IsExponent, encode_exponent-IsExponent,
}
use nats_jwt_callout.MockOidc.Keys.{mint-set_default_key}
use nats_jwt_callout.MockOidc.Claims.{IsMap, standard_claims, lookup-mint_claims}
use nats_jwt_callout.MockOidc.Tokens.{IsByteful, only_iss, unverified_issuer-mint}
use nats_jwt_callout.Tests.{json, issuer_url}

abbrev as_bytes : Str → Str
as_bytes s = map (λ c. c % 256) s

as_bytes-IsBytes : (s : Str) → IsBytes (as_bytes s)
as_bytes-IsBytes [] = tt
as_bytes-IsBytes (c ∷ s) = (omega arith, as_bytes-IsBytes s)

-- Claims are written as their issuer, and a key is a text that stands before what it signs.
abbrev claims_text : Option ClaimValue → Option Str
claims_text (some (ClaimValue.text iss)) = some (as_bytes iss)
claims_text other = none

abbrev packages : Packages
packages = record {
  PrivateKey = Str;
  public_n = λ k. k;
  public_e = λ _. pos 65_537;
  sum256 = λ s. s;
  sign_pkcs1v15 = λ k digest. some (as_bytes (k ++ digest));
  marshal_header = λ h. some (codes "h");
  marshal_claims = λ c. claims_text (lookup (codes "iss") c);
  encode_document = λ _. some (codes "d");
  encode_keys = λ _. some (codes "k");
}

some-IsBytes : (s t : Str) → some s ≡ some t → IsBytes s → IsBytes t
some-IsBytes s t h b = let same : s ≡ t = cc in subst IsBytes same b

claims_text-IsBytes :
    (o : Option ClaimValue) (text : Str) → claims_text o ≡ some text → IsBytes text
claims_text-IsBytes (some (ClaimValue.text iss)) text h =
    some-IsBytes (as_bytes iss) text h (as_bytes-IsBytes iss)
claims_text-IsBytes none text h = absurd (cc)
claims_text-IsBytes (some (ClaimValue.texts a)) text h = absurd (cc)
claims_text-IsBytes (some (ClaimValue.int64 a)) text h = absurd (cc)
claims_text-IsBytes (some (ClaimValue.names a)) text h = absurd (cc)
claims_text-IsBytes (some (ClaimValue.extra a)) text h = absurd (cc)

packages-IsByteful : IsByteful packages
packages-IsByteful = record {
  header_bytes = λ h text e. some-IsBytes (codes "h") text e (omega arith);
  claims_bytes = λ c text e. claims_text-IsBytes (lookup (codes "iss") c) text e;
  signature_bytes = λ k digest sig e.
      some-IsBytes (as_bytes (k ++ digest)) sig e (as_bytes-IsBytes (k ++ digest));
}

encode_exponent_tests :
    (encode_exponent (pos 65_537) ≡ 1 ∷ 0 ∷ 1 ∷ []) × (encode_exponent (pos 0) ≡ 0 ∷ [])
unfolding encode_exponent drop_zeros
encode_exponent_tests = (refl, refl)

encode_exponent-IsExponent_example : IsExponent (pos 65_537) (encode_exponent (pos 65_537))
encode_exponent-IsExponent_example = encode_exponent-IsExponent (pos 65_537)

abbrev server : Server packages
server = record {
  url = issuer_url;
  keys =
      record { kid = codes "key-1"; priv = codes "1" }
      ∷ record { kid = codes "key-2"; priv = codes "2" }
      ∷ [];
}

abbrev options : TokenOptions
options = record {
  subject = codes "s";
  audience = codes "nats" ∷ [];
  aws_account = codes "123456789012";
  org_id = [];
  principal_tags = [];
  issued_at = none;
  not_before = none;
  expiry = none;
  extra_claims =
      (codes "iss", ClaimValue.text (codes "https://other"))
      ∷ (codes "nbf", ClaimValue.int64 (pos 7))
      ∷ (codes "repository", ClaimValue.text (codes "r"))
      ∷ [];
  issuer_override = [];
  kid_override = [];
  sign_with_kid = [];
}

extra_claims-IsMap : IsMap options.extra_claims
unfolding lookup ◌==◌
extra_claims-IsMap = (refl, (refl, (refl, tt)))

-- An extra `nbf` stays where no time is given for it, while an extra issuer does not.
lookup-mint_claims_example :
    lookup (codes "nbf") (mint_claims issuer_url (pos 0) (pos 1) options)
    ≡ some (ClaimValue.int64 (pos 7))
unfolding lookup ◌==◌ standard_claims MockOidc.namespace_claims insert
lookup-mint_claims_example =
    lookup-mint_claims (codes "nbf") issuer_url (pos 0) (pos 1) options extra_claims-IsMap

mint_code : Unit {0}
unfolding mint signer find_key mint_claims MockOidc.copy_into MockOidc.namespace_claims insert
    lookup ◌==◌ strconv_i decimal encode_raw_url character MockOidc.encode_segment
    MockOidc.sign_segments MockOidc.default_key
mint_code = tt

abbrev token_of : Result Fatal Str → Str
token_of (ok t) = t
token_of (err e) = []

abbrev token : Str
token = token_of (mint packages (pos 5_000_000_000) options server)

mint-set_default_key_example :
    (mint packages (pos 5) options (set_default_key packages (codes "key-2") server)
      ≡ mint packages (pos 5) (record options { sign_with_kid = codes "key-2" }) server)
    × ((w : Key packages → ℕ)
        → tally w (set_default_key packages (codes "key-2") server).keys ≡ tally w server.keys)
unfolding find_key ◌==◌
mint-set_default_key_example =
    mint-set_default_key packages (pos 5) (codes "key-2") options server
      (record { kid = codes "key-2"; priv = codes "2" }) refl refl refl

-- Two of the keys that differ in case.
abbrev takes : Str → Bool
takes k = k == codes "iss" || k == codes "ISS"

reads_back :
    (c : Dict ClaimValue) (text : Str)
    → packages.marshal_claims c ≡ some text
    → lookup (codes "iss") c ≡ some (ClaimValue.text issuer_url)
    → only_iss takes c ≡ true
    → json.unmarshal_iss text ≡ some issuer_url
reads_back c text written iss only = let same = ap claims_text iss in sym written ∙ same

unverified_issuer-mint_example : unverified_issuer json token ≡ ok issuer_url
unfolding mint_code
unverified_issuer-mint_example =
    unverified_issuer-mint packages json takes (pos 5_000_000_000) options server token
      packages-IsByteful reads_back refl refl refl
