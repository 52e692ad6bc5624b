-- ===== src/Service/Entitlement.antt =====
-- cmd/nats-oidc-callout/main.go with the packages below internal: which requests a running service
-- grants, and with what.
use nats_jwt_callout.Base.{
  ◌≡◌, refl, true, false, Option, some, none, List, [], ◌∷◌, Str, any, is_some, is_empty, split, ok,
  or_err, arith,
}
use mathlib.Core.List.{Memᴰ}
use mathlib.Core.Path.{subst}
use nats_jwt_callout.Base.Dict.{Dict, lookup}
use nats_jwt_callout.Identity.{Identity, parse}
use nats_jwt_callout.Authz.Types.{Decision}
use nats_jwt_callout.Authz.Policy.{evaluate}
use nats_jwt_callout.Authz.Policy.Conditions.{HasClaims}
use nats_jwt_callout.Authz.Policy.Evaluation.{IsFirst}
use nats_jwt_callout.Authz.Policy.First.{evaluate-first}
use nats_jwt_callout.Verifier.{
  Verifier, audience_allowed, unverified_issuer, verify, http_client, with_token,
}
use nats_jwt_callout.Verifier.Packages.{IdToken, JsonPackage}
use nats_jwt_callout.Verifier.Verification.{IsVerified, verify-eq-ok_iff}
use nats_jwt_callout.Verifier.Construction.{IsBuilt}
use nats_jwt_callout.Config.{IssuerConfig}
use nats_jwt_callout.Callout.{
  Packages, Times, Request, Authorizer, authorization_denied, user_claims, authorize, identify,
  decide, sign,
}
use nats_jwt_callout.Service.{World, Watch, Cfg, root_cas, at_world}
use nats_jwt_callout.Service.Reloading.{IsServing}
use nats_jwt_callout.Service.Trust.{options_of, build_verifier-IsBuilt, IsBuilt-HasEntry}

any-listed :
    (audiences : Dict (Unit {0})) (auds : List Str) (aud : Str)
    → Memᴰ aud auds
    → is_some (lookup aud audiences) ≡ true
    → any (λ a. is_some (lookup a audiences)) auds ≡ true
any-listed audiences [] aud m h = elim m [ ]
any-listed audiences (a ∷ auds) aud (Memᴰ.head e) h =
    let here : is_some (lookup a audiences) ≡ true =
      subst (λ t. is_some (lookup t audiences) ≡ true) e h in
    rw here refl
any-listed audiences (a ∷ auds) aud (Memᴰ.tail m) h =
    let later = any-listed audiences auds aud m h in ground arith

audience_allowed-listed :
    (audiences : Dict (Unit {0})) (auds : List Str) (aud : Str)
    → Memᴰ aud auds
    → is_some (lookup aud audiences) ≡ true
    → audience_allowed audiences auds ≡ true
unfolding audience_allowed
audience_allowed-listed audiences auds aud m h = any-listed audiences auds aud m h

unverified_issuer-not_empty :
    (json : JsonPackage) (raw : Str) {url : Str}
    → unverified_issuer json raw ≡ ok url
    → is_empty raw ≡ false
unfolding unverified_issuer split
unverified_issuer-not_empty json [] h = absurd (ground arith)
unverified_issuer-not_empty json (c ∷ raw) h = refl

module _ (p : Packages) where
  -- A token that a configured issuer's keys verify, with an audience, the claims and a rule that the
  -- configuration asks for.
  pub record IsEntitled (w : World p.oidc) (cfg : Cfg p) (times : Times) (req : Request)
      (id : Identity) (d : Decision) : Type 0 where
    pub issuer : IssuerConfig
    pub token : IdToken
    pub audience : Str
    pub payload : Str
    pub parsed : Identity
    pub configured : Memᴰ issuer cfg.issuers
    pub named : unverified_issuer p.json req.token ≡ ok issuer.url
    pub accepted :
        (pool : Option p.oidc.CertPool) (provider : p.oidc.Provider)
        → root_cas p.oidc w cfg.oidc_ca_cert ≡ ok pool
        → w.discover (http_client (at_world p.oidc w) (options_of p.oidc cfg pool)) issuer.url
          ≡ some provider
        → p.oidc.verify
            (p.oidc.verifier provider
              (record { skip_client_id_check = true; supported_signing_algs = cfg.signing_algs }))
            req.token
            times.verified_at
          ≡ some token
    pub for_audience : Memᴰ audience token.audience
    pub allowed_audience : Memᴰ audience cfg.audiences
    pub readable : p.oidc.claims token ≡ some payload
    pub flattened : parse (p.json.decode_object payload) ≡ ok parsed
    pub fields : id ≡ with_token token parsed
    pub required : HasClaims id issuer.require_claims
    pub first : IsFirst p.regexp p.cel times.rule_at id 0 cfg.policy.rules d

  IsEntitled-IsVerified :
      (w : World p.oidc) (cfg : Cfg p) (times : Times) (req : Request) (id : Identity)
      (d : Decision) (pool : Option p.oidc.CertPool) (v : Verifier p.oidc.TokenVerifier)
      → root_cas p.oidc w cfg.oidc_ca_cert ≡ ok pool
      → IsBuilt (at_world p.oidc w) (options_of p.oidc cfg pool) v
      → IsEntitled w cfg times req id d
      → IsVerified p.json p.oidc v times.verified_at req.token id
  IsEntitled-IsVerified w cfg times req id d pool v read b t =
      let e = IsBuilt-HasEntry p.oidc w cfg pool v t.issuer b t.configured in
      record {
        iss = t.issuer.url;
        entry = record {
          verifier =
              p.oidc.verifier e.provider
                (record { skip_client_id_check = true; supported_signing_algs = cfg.signing_algs });
          require_claims = t.issuer.require_claims;
        };
        token = t.token;
        payload = t.payload;
        parsed = t.parsed;
        not_empty = unverified_issuer-not_empty p.json req.token t.named;
        selected = t.named;
        trusted = e.entry;
        verified = t.accepted pool e.provider read e.discovered;
        audience =
            audience_allowed-listed v.audiences t.token.audience t.audience t.for_audience
              ((b.audiences t.audience).1 t.allowed_audience);
        readable = t.readable;
        flattened = t.flattened;
        fields = t.fields;
        required = t.required;
      }

  authorize-eq-or_err :
      (times : Times) (req : Request) (a : Authorizer p) (id : Identity) (d : Decision)
      → is_empty req.token ≡ false
      → verify p.json p.oidc a.state.verifier times.verified_at req.token ≡ ok id
      → evaluate p.regexp p.cel times.rule_at a.state.policy id ≡ ok d
      → (authorize p times req a).0
        ≡ or_err authorization_denied (p.jwt.encode (user_claims p times req id d) a.sign_key)
  unfolding authorize identify decide sign
  authorize-eq-or_err times req a id d present verified granted =
      rw (present, verified, granted)
        (signed times req id d (p.jwt.encode (user_claims p times req id d) a.sign_key) a)
    where
      signed :
          (times : Times) (req : Request) (id : Identity) (d : Decision) (o : Option Str)
          (a : Authorizer p)
          → (sign p times req id d o a).0 ≡ or_err authorization_denied o
      signed times req id d none a = refl
      signed times req id d (some user_jwt) a = refl

  -- A service that serves a configuration denies no request that the configuration entitles to a JWT:
  -- one whose token names a configured issuer, is verified with the keys discovered for that issuer,
  -- shares an audience with the configuration, has a payload that is read and flattened, has the
  -- claims that the issuer requires, and satisfies a rule. The answer is the JWT for the token's
  -- identity and the first rule satisfied, signed with the service's key, and a denial only where the
  -- package jwt fails to sign it.
  pub authorize-grants :
      (path : Str) (s : Watch p) (i : IsServing p path s) (times : Times) (req : Request)
      (id : Identity) (d : Decision)
      → IsEntitled i.world s.current times req id d
      → (authorize p times req s.authorizer).0
        ≡ or_err authorization_denied
            (p.jwt.encode (user_claims p times req id d) s.authorizer.sign_key)
  authorize-grants path s i times req id d t =
      let (pool, read, b) = build_verifier-IsBuilt p.oidc i.world s.current i.built in
      let verified =
        IsEntitled-IsVerified i.world s.current times req id d pool i.verifier read b t in
      let found =
        (verify-eq-ok_iff p.json p.oidc i.verifier times.verified_at req.token id).1 verified in
      let decided =
        evaluate-first p.regexp p.cel times.rule_at id s.current.policy i.loaded.validated_policy
          t.first in
      authorize-eq-or_err times req s.authorizer id d verified.not_empty (rw i.served found)
        (rw i.served decided)
