-- ===== src/Verifier.antt =====
-- internal/verifier/verifier.go. The package go-oidc is a parameter, and so is the decoding of JSON;
-- what is done with their answers is the program's.
pub mod Packages
pub mod Construction
pub mod Verification
use nats_jwt_callout.Base.{
  ℕ, Bool, true, false, not, ◌||◌, Option, none, some, List, [], ◌∷◌, Str, codes, ◌==◌, eqb,
  if◌then◌else◌, is_empty, is_some, no_items, split, length, get_elem?, any, Result, ok, err, ◌>>=◌,
  wrap_err, or_err,
}
use nats_jwt_callout.Base.Dict.{Dict, lookup, insert}
use nats_jwt_callout.Base.Int.{ℤ, pos, is_zero}
use nats_jwt_callout.Base64.{decode_raw_url}
use nats_jwt_callout.Identity.{Identity, Members, claim, ParseError, parse}
use nats_jwt_callout.Authz.Policy.{has_claim}
use nats_jwt_callout.Verifier.Packages.{
  HttpClient, IdToken, VerifierConfig, OidcPackage, JsonPackage,
}

pub record IssuerOption : Type 0 where
  pub url : Str
  pub require_claims : Dict Str

-- A timeout is its nanoseconds.
pub record Options (CertPool : Type 0) : Type 0 where
  pub issuers : List IssuerOption
  pub audiences : List Str
  pub signing_algs : List Str
  pub http_timeout : ℤ
  pub root_cas : Option CertPool

pub record IssuerEntry (TokenVerifier : Type 0) : Type 0 where
  pub verifier : TokenVerifier
  pub require_claims : Dict Str

pub record Verifier (TokenVerifier : Type 0) : Type 0 where
  pub issuers : Dict (IssuerEntry TokenVerifier)
  pub audiences : Dict (Unit {0})

pub data NewError : Type 0 where
  no_issuer no_audience no_signing_alg : NewError
  duplicate_issuer discovery_failed : Str → NewError

pub data VerifyError : Type 0 where
  empty_token three_segments payload_encoding payload_json missing_issuer : VerifyError
  untrusted_issuer verification_failed audience_not_allowed claims_unreadable : VerifyError
  claims_parse : ParseError → VerifyError
  claim_mismatch : Str → VerifyError

abbrev pub ten_seconds : ℤ
ten_seconds = pos 10_000_000_000

unfoldable pub add_audiences : List Str → Dict (Unit {0}) → Dict (Unit {0})
add_audiences [] audiences = audiences
add_audiences (aud ∷ auds) audiences = add_audiences auds (insert aud tt audiences)

-- `audienceAllowed`
unfoldable pub audience_allowed : Dict (Unit {0}) → List Str → Bool
audience_allowed audiences = any (λ aud. is_some (lookup aud audiences))

-- The first required claim that the identity does not have, in the order in which the map is visited.
unfoldable pub mismatch : Identity → Dict Str → Option Str
mismatch id [] = none
mismatch id ((k, want) ∷ required) =
    let rest = mismatch id required in if has_claim (claim id k) want then rest else some k

module _ (oidc : OidcPackage) where
  abbrev pub Entry : Type 0
  Entry = IssuerEntry oidc.TokenVerifier

  unfoldable pub http_client : Options oidc.CertPool → HttpClient oidc.CertPool
  http_client opts = record {
    timeout = if is_zero opts.http_timeout then ten_seconds else opts.http_timeout;
    root_cas = opts.root_cas;
  }

  -- `SkipClientIDCheck`, and the allowlist of algorithms.
  abbrev pub verifier_config : Options oidc.CertPool → VerifierConfig
  verifier_config opts = record {
    skip_client_id_check = true;
    supported_signing_algs = opts.signing_algs;
  }

  abbrev entry_of : Options oidc.CertPool → IssuerOption → oidc.Provider → Entry
  entry_of opts iss provider = record {
    verifier = oidc.verifier provider (verifier_config opts);
    require_claims = iss.require_claims;
  }

  -- One round of the loop over the configured issuers.
  unfoldable pub add_issuer :
      Options oidc.CertPool → IssuerOption → Dict Entry → Result NewError (Dict Entry)
  add_issuer opts iss issuers =
      if is_some (lookup iss.url issuers)
      then err (duplicate_issuer iss.url)
      else elim (oidc.new_provider (http_client opts) iss.url) [
        | none ↦ err (discovery_failed iss.url)
        | some provider ↦ ok (insert iss.url (entry_of opts iss provider) issuers)
      ]

  unfoldable pub add_issuers :
      Options oidc.CertPool → List IssuerOption → Dict Entry → Result NewError (Dict Entry)
  add_issuers opts [] issuers = ok issuers
  add_issuers opts (iss ∷ rest) issuers = do
    issuers ← add_issuer opts iss issuers
    add_issuers opts rest issuers

  unfoldable pub new : Options oidc.CertPool → Result NewError (Verifier oidc.TokenVerifier)
  new opts =
      if no_items opts.issuers
      then err no_issuer
      else if no_items opts.audiences
      then err no_audience
      else if no_items opts.signing_algs
      then err no_signing_alg
      else do
        issuers ← add_issuers opts opts.issuers []
        ok (record { issuers = issuers; audiences = add_audiences opts.audiences [] })

abbrev issuer_of : Str → Result VerifyError Str
issuer_of iss = if is_empty iss then err missing_issuer else ok iss

-- The first-class fields come from the verified token.
abbrev pub with_token : IdToken → Identity → Identity
with_token t id = record {
  issuer = t.issuer;
  subject = t.subject;
  audience = t.audience;
  expiry = t.expiry;
  claims = id.claims;
}

abbrev bound : Identity → Option Str → Result VerifyError Identity
bound id none = ok id
bound id (some k) = err (claim_mismatch k)

module _ (json : JsonPackage) where
  unfoldable pub unverified_issuer : Str → Result VerifyError Str
  unverified_issuer raw_token =
      let parts = split raw_token b'.' in
      if not (eqb (length parts) 3) then err three_segments else do
        segment ← or_err three_segments (get_elem? parts 1)
        payload ← or_err payload_encoding (decode_raw_url segment)
        iss ← or_err payload_json (json.unmarshal_iss payload)
        issuer_of iss

  module _ (oidc : OidcPackage) where
    -- What `Verify` does with a token that the issuer's verifier has accepted.
    unfoldable pub accept : Dict (Unit {0}) → Dict Str → IdToken → Result VerifyError Identity
    accept audiences required t =
        if not (audience_allowed audiences t.audience) then err audience_not_allowed else do
          raw ← or_err claims_unreadable (oidc.claims t)
          parsed ← wrap_err claims_parse (parse (json.decode_object raw))
          let id = with_token t parsed
          bound id (mismatch id required)

    -- `now` is the time at which the issuer's verifier looks at the token.
    unfoldable pub verify : Verifier oidc.TokenVerifier → ℤ → Str → Result VerifyError Identity
    verify v now raw_token = if is_empty raw_token then err empty_token else do
      iss ← unverified_issuer raw_token
      entry ← or_err untrusted_issuer (lookup iss v.issuers)
      t ← or_err verification_failed (oidc.verify entry.verifier raw_token now)
      accept v.audiences entry.require_claims t
