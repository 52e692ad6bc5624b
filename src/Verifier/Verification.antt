-- ===== src/Verifier/Verification.antt =====
-- What a verified identity is known to be, and which issuers' keys a token can reach.
use nats_jwt_callout.Base.{
  ◌≡◌, refl, sym, ap, ◌∙◌, ◌↔◌, inl, inr, true, false, Option, none, some, List, [], ◌∷◌, Str,
  is_empty, is_some, any, arith, ok, wrap_err, or_err, >>=-eq-ok, or_err-eq-ok, wrap_err-eq-ok,
  Bool-cases, Option-cases,
}
use mathlib.Core.List.{Memᴰ}
use nats_jwt_callout.Base.Dict.{Dict, lookup}
use nats_jwt_callout.Base.Int.{ℤ}
use nats_jwt_callout.Identity.{Identity, claim, parse}
use nats_jwt_callout.Authz.Policy.Conditions.{HasClaims, has_claim_iff}
use nats_jwt_callout.Verifier.Packages.{IdToken, OidcPackage, JsonPackage}
use nats_jwt_callout.Verifier.{
  IssuerEntry, Verifier, claims_unreadable, untrusted_issuer, verification_failed, claims_parse,
  unverified_issuer, accept, verify, audience_allowed, mismatch, with_token, bound,
}

mismatch-eq-none_iff : (id : Identity) (m : Dict Str) → (mismatch id m ≡ none) ↔ HasClaims id m
unfolding mismatch
mismatch-eq-none_iff id [] = ground arith
mismatch-eq-none_iff id ((k, want) ∷ m) =
    ground (arith, mismatch-eq-none_iff id m, has_claim_iff (claim id k) want)

-- One of the token's audiences is in the allowlist.
abbrev pub SharesAudience : Dict (Unit {0}) → List Str → Type 0
SharesAudience audiences auds = (aud : Str) × Memᴰ aud auds × (lookup aud audiences ≡ some tt)

bound_inv :
    (id : Identity) (o : Option Str) {id' : Identity}
    → bound id o ≡ ok id'
    → (o ≡ none) × (id' ≡ id)
bound_inv id none h = ground arith
bound_inv id (some k) h = absurd (ground arith)

any_inv :
    (audiences : Dict (Unit {0})) (auds : List Str)
    → any (λ aud. is_some (lookup aud audiences)) auds ≡ true
    → SharesAudience audiences auds
any_inv audiences [] h = absurd (cc)
any_inv audiences (aud ∷ auds) h = elim (Option-cases (lookup aud audiences)) [
  | inl missing ↦
      let (a, listed, found) = any_inv audiences auds (ground arith) in (a, Memᴰ.tail listed, found)
  | inr (tt, found) ↦ (aud, Memᴰ.head refl, found)
]

pub audience_allowed-shares :
    (audiences : Dict (Unit {0})) (auds : List Str)
    → audience_allowed audiences auds ≡ true
    → SharesAudience audiences auds
unfolding audience_allowed
audience_allowed-shares audiences auds h = any_inv audiences auds h

module _ (json : JsonPackage) (oidc : OidcPackage) where
  -- How an identity comes about: every step of `Verify` and what it found.
  pub record IsVerified (v : Verifier oidc.TokenVerifier) (now : ℤ) (raw : Str) (id : Identity)
      : Type 0 where
    pub iss : Str
    pub entry : IssuerEntry oidc.TokenVerifier
    pub token : IdToken
    pub payload : Str
    pub parsed : Identity
    pub not_empty : is_empty raw ≡ false
    pub selected : unverified_issuer json raw ≡ ok iss
    pub trusted : lookup iss v.issuers ≡ some entry
    pub verified : oidc.verify entry.verifier raw now ≡ some token
    pub audience : audience_allowed v.audiences token.audience ≡ true
    pub readable : oidc.claims token ≡ some payload
    pub flattened : parse (json.decode_object payload) ≡ ok parsed
    pub fields : id ≡ with_token token parsed
    pub required : HasClaims id entry.require_claims

  record IsAccepted (audiences : Dict (Unit {0})) (required_claims : Dict Str) (token : IdToken)
      (id : Identity) : Type 0 where
    payload : Str
    parsed : Identity
    audience : audience_allowed audiences token.audience ≡ true
    readable : oidc.claims token ≡ some payload
    flattened : parse (json.decode_object payload) ≡ ok parsed
    fields : id ≡ with_token token parsed
    required : HasClaims id required_claims

  accept_inv :
      (audiences : Dict (Unit {0})) (required : Dict Str) (t : IdToken) {id : Identity}
      → accept json oidc audiences required t ≡ ok id
      → IsAccepted audiences required t id
  unfolding accept
  accept_inv audiences required t {id} h =
      elim (Bool-cases (audience_allowed audiences t.audience)) [
        | inr refused ↦ absurd (ground arith)
        | inl allowed ↦
            let (raw, readable, h1) =
              >>=-eq-ok (or_err claims_unreadable (oidc.claims t)) _ (rw (allowed, accept) at h) in
            let (parsed, flat, h2) =
              >>=-eq-ok (wrap_err claims_parse (parse (json.decode_object raw))) _ h1 in
            let (clear, same) = bound_inv (with_token t parsed) _ {id' = id} h2 in
            record {
              payload = raw;
              parsed = parsed;
              audience = allowed;
              readable = or_err-eq-ok _ _ readable;
              flattened = wrap_err-eq-ok _ _ flat;
              fields = same;
              required = rw same ((mismatch-eq-none_iff (with_token t parsed) required).0 clear);
            }
      ]

  verify_inv :
      (v : Verifier oidc.TokenVerifier) (now : ℤ) (raw : Str) {id : Identity}
      → verify json oidc v now raw ≡ ok id
      → IsVerified v now raw id
  unfolding verify
  verify_inv v now raw {id} h = elim (Bool-cases (is_empty raw)) [
    | inl missing ↦ absurd (ground arith)
    | inr set ↦
        let (iss, selected, h1) =
          >>=-eq-ok (unverified_issuer json raw) _ (rw (set, verify) at h) in
        let (entry, trusted, h2) =
          >>=-eq-ok (or_err untrusted_issuer (lookup iss v.issuers)) _ h1 in
        let (t, verified, h3) =
          >>=-eq-ok (or_err verification_failed (oidc.verify entry.verifier raw now)) _ h2 in
        let a = accept_inv v.audiences entry.require_claims t h3 in
        record {
          iss = iss;
          entry = entry;
          token = t;
          payload = a.payload;
          parsed = a.parsed;
          not_empty = set;
          selected = selected;
          trusted = or_err-eq-ok _ _ trusted;
          verified = or_err-eq-ok _ _ verified;
          audience = a.audience;
          readable = a.readable;
          flattened = a.flattened;
          fields = a.fields;
          required = a.required;
        }
  ]

  accept_of :
      (audiences : Dict (Unit {0})) (required : Dict Str) (t : IdToken) (raw : Str)
      (parsed : Identity)
      → audience_allowed audiences t.audience ≡ true
      → oidc.claims t ≡ some raw
      → parse (json.decode_object raw) ≡ ok parsed
      → HasClaims (with_token t parsed) required
      → accept json oidc audiences required t ≡ ok (with_token t parsed)
  unfolding accept
  accept_of audiences required t raw parsed allowed readable flat has =
      rw (allowed, readable, flat, (mismatch-eq-none_iff (with_token t parsed) required).1 has) refl

  verify_of :
      (v : Verifier oidc.TokenVerifier) (now : ℤ) (raw : Str) {id : Identity}
      → IsVerified v now raw id
      → verify json oidc v now raw ≡ ok id
  unfolding verify
  verify_of v now raw {id} i =
      rw (i.not_empty, i.selected, i.trusted, i.verified)
        (accept_of v.audiences i.entry.require_claims i.token i.payload i.parsed i.audience
            i.readable i.flattened (rw i.fields at i.required)
          ∙ ap ok (sym i.fields))

  -- `Verify` returns an identity exactly where the unverified issuer selects a configured entry, that
  -- entry's verifier accepts the token, one of the token's audiences is allowed, the payload is
  -- readable and flattens, and the identity made of the verified fields and the flattened claims has
  -- every claim that the issuer requires.
  pub verify-eq-ok_iff :
      (v : Verifier oidc.TokenVerifier) (now : ℤ) (raw : Str) (id : Identity)
      → (verify json oidc v now raw ≡ ok id) ↔ IsVerified v now raw id
  verify-eq-ok_iff v now raw id = (verify_inv v now raw, verify_of v now raw)

  -- The answer depends on no entry but the one that the token's unverified issuer selects: of two
  -- verifiers with the same allowlist of audiences, which agree on that entry, or both have none, the
  -- answers are the same.
  pub verify-selected :
      (v v' : Verifier oidc.TokenVerifier) (now : ℤ) (raw iss : Str)
      → unverified_issuer json raw ≡ ok iss
      → v.audiences ≡ v'.audiences
      → lookup iss v.issuers ≡ lookup iss v'.issuers
      → verify json oidc v now raw ≡ verify json oidc v' now raw
  unfolding verify
  verify-selected v v' now raw iss selected auds same = rw (selected, auds, same) refl
