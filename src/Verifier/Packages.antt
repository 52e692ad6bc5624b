-- ===== src/Verifier/Packages.antt =====
-- What internal/verifier takes from elsewhere: go-oidc, and the decoding of JSON.
use nats_jwt_callout.Base.{Bool, Option, List, Str}
use nats_jwt_callout.Base.Int.{ℤ}
use nats_jwt_callout.Identity.{Members}

pub record HttpClient (CertPool : Type 0) : Type 0 where
  pub timeout : ℤ
  pub root_cas : Option CertPool

pub record VerifierConfig : Type 0 where
  pub skip_client_id_check : Bool
  pub supported_signing_algs : List Str

-- oidc.IDToken: the fields that the program reads, and the payload.
pub record IdToken : Type 0 where
  pub issuer : Str
  pub subject : Str
  pub audience : List Str
  pub expiry : ℤ
  pub payload : Str

-- `new_provider` is discovery, over the given client. `verify` is given the time.
pub record OidcPackage : Type 1 where
  pub CertPool : Type 0
  pub Provider : Type 0
  pub TokenVerifier : Type 0
  pub new_provider : HttpClient CertPool → Str → Option Provider
  pub verifier : Provider → VerifierConfig → TokenVerifier
  pub verify : TokenVerifier → Str → ℤ → Option IdToken
  pub claims : IdToken → Option Str

-- `unmarshal_iss` is json.Unmarshal into a struct that has only the field "iss", which is empty where
-- the payload has none. `decode_object` is the decoder, with UseNumber, into a map.
pub record JsonPackage : Type 0 where
  pub unmarshal_iss : Str → Option Str
  pub decode_object : Str → Option Members
