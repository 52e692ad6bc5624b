-- ===== src/MockOidc.antt =====
-- internal/mockoidc/mockoidc.go: the identity provider that the tests run against. RSA, SHA-256, the
-- encoding of JSON and the HTTP server are parameters; a failed test (`t.Fatalf`) is an error.
pub mod Exponent
pub mod Keys
pub mod Claims
pub mod Tokens
use nats_jwt_callout.Base.{
  ℕ, zero, suc, ◌+◌, ◌-◌, ◌/◌, ◌%◌, ◌^◌, Option, none, some, List, [], ◌∷◌, ◌++◌, map, Str, codes,
  is_empty, or_else, if◌then◌else◌, eqb, decimal, get_elem?, no_items, Result, ok, err, or_err,
  ◌>>=◌, ◌==◌,
}
use nats_jwt_callout.Base.Dict.{Dict, insert}
use nats_jwt_callout.Base.Int.{ℤ, pos, negsuc, ◌+ℤ◌}
use nats_jwt_callout.Base64.{encode_raw_url}
use nats_jwt_callout.Callout.{unix}
use nats_jwt_callout.MockOidc.Exponent.{encode_exponent}
use nats_jwt_callout.Identity
use nats_jwt_callout.Identity.{Json}

-- What stops a test: `t.Fatalf`, and the panic of an index that is out of range.
pub data Fatal : Type 0 where
  generate_rsa_key marshal_segment sign_token index_out_of_range : Fatal
  no_key : (kid : Str) → Fatal

-- The values of the claims that `Mint` writes, and any others.
pub data NamespaceValue : Type 0 where
  text : Str → NamespaceValue
  tags : Dict Str → NamespaceValue

pub data ClaimValue : Type 0 where
  text : Str → ClaimValue
  texts : List Str → ClaimValue
  int64 : ℤ → ClaimValue
  names : Dict NamespaceValue → ClaimValue
  extra : Json → ClaimValue

pub data DocumentValue : Type 0 where
  text : Str → DocumentValue
  texts : List Str → DocumentValue

-- `public_n` is the modulus as bytes, `public_e` the exponent; `encode_keys` encodes an object with the
-- member `keys`.
pub record Packages : Type 1 where
  pub PrivateKey : Type 0
  pub public_n : PrivateKey → Str
  pub public_e : PrivateKey → ℤ
  pub sum256 : Str → Str
  pub sign_pkcs1v15 : PrivateKey → Str → Option Str
  pub marshal_header : Dict Str → Option Str
  pub marshal_claims : Dict ClaimValue → Option Str
  pub encode_document : Dict DocumentValue → Option Str
  pub encode_keys : List (Dict Str) → Option Str

-- The zero time is `none`.
pub record TokenOptions : Type 0 where
  pub subject : Str
  pub audience : List Str
  pub aws_account : Str
  pub org_id : Str
  pub principal_tags : Dict Str
  pub issued_at : Option ℤ
  pub not_before : Option ℤ
  pub expiry : Option ℤ
  pub extra_claims : Dict ClaimValue
  pub issuer_override : Str
  pub kid_override : Str
  pub sign_with_kid : Str

pub record HttpResponse : Type 0 where
  pub content_type : Str
  pub body : Str

unfoldable pub strconv_i : ℤ → Str
strconv_i (pos n) = decimal n
strconv_i (negsuc n) = codes "-" ++ decimal (suc n)

-- maps.Copy
unfoldable pub copy_into {ℓ} : {V : Type ℓ} → Dict V → Dict V → Dict V
copy_into dst [] = dst
copy_into dst (entry ∷ src) = copy_into (insert entry.0 entry.1 dst) src

abbrev put_text : Str → Str → Dict NamespaceValue → Dict NamespaceValue
put_text key value ns = if is_empty value then ns else insert key (NamespaceValue.text value) ns

abbrev put_tags : Str → Dict Str → Dict NamespaceValue → Dict NamespaceValue
put_tags key value ns = if no_items value then ns else insert key (NamespaceValue.tags value) ns

-- The object under `identity.Namespace`.
unfoldable pub namespace_claims : TokenOptions → Dict NamespaceValue
namespace_claims opts =
    put_tags (codes "principal_tags") opts.principal_tags
      (put_text (codes "org_id") opts.org_id (put_text (codes "aws_account") opts.aws_account []))

abbrev put_names : Dict NamespaceValue → Dict ClaimValue → Dict ClaimValue
put_names ns claims =
    if no_items ns then claims else insert Identity.namespace (ClaimValue.names ns) claims

abbrev put_not_before : Option ℤ → Dict ClaimValue → Dict ClaimValue
put_not_before none claims = claims
put_not_before (some t) claims = insert (codes "nbf") (ClaimValue.int64 (unix t)) claims

unfoldable pub mint_claims : Str → ℤ → ℤ → TokenOptions → Dict ClaimValue
mint_claims iss iat exp opts =
    let claims = copy_into [] opts.extra_claims in
    let claims = insert (codes "iss") (ClaimValue.text iss) claims in
    let claims = insert (codes "sub") (ClaimValue.text opts.subject) claims in
    let claims = insert (codes "aud") (ClaimValue.texts opts.audience) claims in
    let claims = insert (codes "iat") (ClaimValue.int64 (unix iat)) claims in
    let claims = insert (codes "exp") (ClaimValue.int64 (unix exp)) claims in
    let jti = opts.subject ++ codes "-" ++ strconv_i iat in
    let claims = insert (codes "jti") (ClaimValue.text jti) claims in
    put_names (namespace_claims opts) (put_not_before opts.not_before claims)

-- `defaulted` is the value of a field that has the zero value.
abbrev pub or_given : Str → Str → Str
or_given given defaulted = if is_empty given then defaulted else given

abbrev pub five_minutes : ℤ
five_minutes = pos 300_000_000_000

unfoldable pub encode_segment : Option Str → Result Fatal Str
encode_segment none = err Fatal.marshal_segment
encode_segment (some json) = ok (encode_raw_url json)

module _ (p : Packages) where
  pub record Key : Type 0 where
    pub kid : Str
    pub priv : p.PrivateKey

  -- `url` is that of the HTTP server; `keys` starts with the default signer.
  pub record Server : Type 0 where
    pub url : Str
    pub keys : List Key

  -- `Issuer`
  abbrev pub issuer : Server → Str
  issuer s = s.url

  -- `generated` is what rsa.GenerateKey returns.
  unfoldable pub add_key_locked : Option p.PrivateKey → Str → Server → Result Fatal Server
  add_key_locked none kid s = err Fatal.generate_rsa_key
  add_key_locked (some priv) kid s =
      ok (record s { keys = s.keys ++ record { kid = kid; priv = priv } ∷ [] })

  unfoldable pub new : Option p.PrivateKey → Str → Result Fatal Server
  new generated url = add_key_locked generated (codes "key-1") (record { url = url; keys = [] })

  unfoldable pub add_key : Option p.PrivateKey → Str → Server → Result Fatal (Str × Server)
  add_key generated kid s = do s ← add_key_locked generated kid s; ok (kid, s)

  abbrev next_index : Option ℕ → Option ℕ
  next_index none = none
  next_index (some i) = some (suc i)

  -- The index of the first key with this kid.
  unfoldable pub index_of : Str → List Key → Option ℕ
  index_of kid [] = none
  index_of kid (k ∷ keys) =
      let later = index_of kid keys in if k.kid == kid then some 0 else next_index later

  -- `keys[i] = k`
  unfoldable pub put_at : ℕ → Key → List Key → List Key
  put_at i k [] = []
  put_at zero k (_ ∷ keys) = k ∷ keys
  put_at (suc i) k (first ∷ keys) = first ∷ put_at i k keys

  abbrev swapped : Key → ℕ → Option Key → List Key → List Key
  swapped first i none keys = first ∷ keys
  swapped first i (some k) keys = k ∷ put_at i first keys

  -- `keys[0], keys[i] = keys[i], keys[0]`
  unfoldable pub swap_first : ℕ → List Key → List Key
  swap_first i [] = []
  swap_first zero (first ∷ keys) = first ∷ keys
  swap_first (suc i) (first ∷ keys) = swapped first i (get_elem? keys i) keys

  abbrev swap_at : Option ℕ → List Key → List Key
  swap_at none keys = keys
  swap_at (some i) keys = swap_first i keys

  unfoldable pub set_default_key : Str → Server → Server
  set_default_key kid s = record s { keys = swap_at (index_of kid s.keys) s.keys }

  -- `findKey`
  unfoldable pub find_key : Str → List Key → Result Fatal Key
  find_key kid [] = err (Fatal.no_key kid)
  find_key kid (k ∷ keys) = let later = find_key kid keys in if k.kid == kid then ok k else later

  unfoldable pub default_key : List Key → Result Fatal Key
  default_key [] = err Fatal.index_out_of_range
  default_key (k ∷ keys) = ok k

  -- The key that signs: `keys[0]` is read in any case.
  unfoldable pub signer : TokenOptions → List Key → Result Fatal Key
  signer opts keys = do
    k ← default_key keys
    if is_empty opts.sign_with_kid then ok k else find_key opts.sign_with_kid keys

  abbrev pub header : Str → Dict Str
  header kid = (codes "alg", codes "RS256") ∷ (codes "typ", codes "JWT") ∷ (codes "kid", kid) ∷ []

  -- The two segments with their signature.
  unfoldable pub sign_segments : Key → Str → Str → Result Fatal Str
  sign_segments k head body = do
    let signing_input = head ++ codes "." ++ body
    sig ← or_err Fatal.sign_token (p.sign_pkcs1v15 k.priv (p.sum256 signing_input))
    ok (signing_input ++ codes "." ++ encode_raw_url sig)

  unfoldable pub mint : ℤ → TokenOptions → Server → Result Fatal Str
  mint now opts s = do
    k ← signer opts s.keys
    let iat = or_else opts.issued_at now
    let exp = or_else opts.expiry (now +ℤ five_minutes)
    let iss = or_given opts.issuer_override s.url
    head ← encode_segment (p.marshal_header (header (or_given opts.kid_override k.kid)))
    body ← encode_segment (p.marshal_claims (mint_claims iss iat exp opts))
    sign_segments k head body

  -- `writeJSON`: an error of the encoder is ignored.
  unfoldable pub write_json : Option Str → HttpResponse
  write_json encoded = record { content_type = codes "application/json"; body = or_else encoded [] }

  unfoldable pub discovery : Server → Dict DocumentValue
  discovery s =
      (codes "issuer", DocumentValue.text s.url)
      ∷ (codes "jwks_uri", DocumentValue.text (s.url ++ codes "/.well-known/jwks.json"))
      ∷ (codes "authorization_endpoint", DocumentValue.text (s.url ++ codes "/authorize"))
      ∷ (codes "token_endpoint", DocumentValue.text (s.url ++ codes "/token"))
      ∷ (codes "response_types_supported", DocumentValue.texts (codes "id_token" ∷ []))
      ∷ (codes "subject_types_supported", DocumentValue.texts (codes "public" ∷ []))
      ∷ (
        codes "id_token_signing_alg_values_supported",
        DocumentValue.texts (codes "RS256" ∷ codes "ES384" ∷ []),
      )
      ∷ []

  unfoldable pub handle_discovery : Server → HttpResponse
  handle_discovery s = write_json (p.encode_document (discovery s))

  unfoldable pub jwk : Key → Dict Str
  jwk k =
      (codes "kty", codes "RSA")
      ∷ (codes "use", codes "sig")
      ∷ (codes "alg", codes "RS256")
      ∷ (codes "kid", k.kid)
      ∷ (codes "n", encode_raw_url (p.public_n k.priv))
      ∷ (codes "e", encode_raw_url (encode_exponent (p.public_e k.priv)))
      ∷ []

  unfoldable pub handle_jwks : Server → HttpResponse
  handle_jwks s = write_json (p.encode_keys (map jwk s.keys))
