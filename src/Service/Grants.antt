-- ===== src/Service/Grants.antt =====
-- cmd/nats-oidc-callout/main.go with the packages below internal: what stands behind a JWT that the
-- running service issues.
use nats_jwt_callout.Base.{◌≡◌, refl, ap, ◌∙◌, Option, some, is_some, List, [], ◌∷◌, Str, ok}
use mathlib.Core.List.{Memᴰ}
use mathlib.Core.Path.{subst}
use nats_jwt_callout.Base.Dict.{lookup}
use nats_jwt_callout.Base.Int.{pos, ◌+ℤ◌, ◌≤ℤ◌}
use nats_jwt_callout.Identity.{Identity, parse}
use nats_jwt_callout.Authz.Policy.Conditions.{HasClaims}
use nats_jwt_callout.Authz.Policy.Evaluation.{IsFirst, IsRepliesOf}
use nats_jwt_callout.Verifier.{IssuerEntry, Verifier, unverified_issuer, with_token}
use nats_jwt_callout.Verifier.Packages.{IdToken}
use nats_jwt_callout.Verifier.Verification.{SharesAudience, audience_allowed-shares}
use nats_jwt_callout.Verifier.Construction.{IsBuilt}
use nats_jwt_callout.Config.{load}
use nats_jwt_callout.Config.Loading.{IsLoaded, load-IsLoaded}
use nats_jwt_callout.Service.Latest.{IsLatest, ServesLatest, run-ServesLatest}
use nats_jwt_callout.Callout.{Packages, Times, Request, UserClaims, authorize, reload, unix}
use nats_jwt_callout.Callout.Accounting.{authorize-keeps}
use nats_jwt_callout.Authz.Types.{Decision}
use nats_jwt_callout.Callout.Authorization.{IsIssued, authorize-IsIssued}
use nats_jwt_callout.Service.{
  World, Watch, Cfg, Startup, at_world, start, Event, requested, hangup, handle, on_hangup, run,
}
use nats_jwt_callout.Service.Trust.{
  IsTrusted, IsBuilt-IsTrusted, build_verifier-IsBuilt, options_of,
}
use nats_jwt_callout.Service.Reloading.{Round, kept, swapped, on_hangup-Round}

module _ (p : Packages) (path : Str) where
  -- What stands behind a JWT of a service that started in the world `w`, went through the events,
  -- serves the configuration `cfg` and signs with `key`.
  pub record IsBacked (w : World p.oidc) (events : List (Event p)) (cfg : Cfg p)
      (key : p.jwt.KeyPair) (times : Times) (req : Request) (jwt : Str) : Type 0 where
    pub world : World p.oidc
    pub latest : IsLatest p path w events world
    pub result_of_load : load p.regexp p.cel world.files path ≡ ok cfg
    pub loaded : IsLoaded p.regexp p.cel world.files path cfg
    pub url : Str
    pub entry : IssuerEntry p.oidc.TokenVerifier
    pub trusted : IsTrusted p.oidc world cfg url entry
    pub token : IdToken
    pub payload : Str
    pub parsed : Identity
    pub id : Identity
    pub decision : Decision
    pub claims : UserClaims p.jwt.Limits p.jwt.Other
    pub selected : unverified_issuer p.json req.token ≡ ok url
    pub verified : p.oidc.verify entry.verifier req.token times.verified_at ≡ some token
    pub audience : (aud : Str) × Memᴰ aud token.audience × Memᴰ aud cfg.audiences
    pub readable : p.oidc.claims token ≡ some payload
    pub flattened : parse (p.json.decode_object payload) ≡ ok parsed
    pub fields : id ≡ with_token token parsed
    pub required : HasClaims id entry.require_claims
    pub first : IsFirst p.regexp p.cel times.rule_at id 0 cfg.policy.rules decision
    pub signed : p.jwt.encode claims key ≡ some jwt
    pub subject : claims.subject ≡ req.user_nkey
    pub account : claims.audience ≡ first.rule.grant.account
    pub publish : claims.permissions.publish ≡ first.rule.grant.publish
    pub subscribe : claims.permissions.subscribe ≡ first.rule.grant.subscribe
    pub replies : IsRepliesOf first.rule.grant.response claims.permissions.resp
    pub limits : claims.limits ≡ p.jwt.no_limits
    pub within_token : claims.expires ≤ℤ unix token.expiry
    pub within_policy :
        pos 1 ≤ℤ first.rule.grant.max_expiry
        → claims.expires ≤ℤ unix (times.capped_at +ℤ first.rule.grant.max_expiry)

  run-sign_key :
      (events : List (Event p)) (s : Watch p)
      → (run p path events s).authorizer.sign_key ≡ s.authorizer.sign_key
  unfolding run handle reload
  run-sign_key [] s = refl
  run-sign_key (requested times req ∷ events) s =
      run-sign_key events (handle p path (requested times req) s)
      ∙ (authorize-keeps p times req s.authorizer).1
  run-sign_key (hangup w ∷ events) s =
      run-sign_key events (on_hangup p path w s) ∙ Round-sign_key (on_hangup-Round p path w s)
    where
      Round-sign_key :
          {w : World p.oidc} {s s' : Watch p}
          → Round p path w s s'
          → s'.authorizer.sign_key ≡ s.authorizer.sign_key
      Round-sign_key (kept lines reason e) = ap (λ t. t.authorizer.sign_key) e
      Round-sign_key (swapped cfg v loaded built e e' log) = ap (λ a. a.sign_key) e'

  shared_audience :
      (w : World p.oidc) (cfg : Cfg p) (pool : Option p.oidc.CertPool)
      (v : Verifier p.oidc.TokenVerifier) (auds : List Str)
      → IsBuilt (at_world p.oidc w) (options_of p.oidc cfg pool) v
      → SharesAudience v.audiences auds
      → (aud : Str) × Memᴰ aud auds × Memᴰ aud cfg.audiences
  shared_audience w cfg pool v auds b (aud, named, allowed) =
      (aud, named, (b.audiences aud).0 (ap is_some allowed))

  ServesLatest-IsBacked :
      (w : World p.oidc) (events : List (Event p)) (s : Watch p) (times : Times) (req : Request)
      (jwt : Str)
      → ServesLatest p path w events s
      → IsIssued p times req s.authorizer jwt
      → IsBacked w events s.current s.authorizer.sign_key times req jwt
  ServesLatest-IsBacked w events s times req jwt l issued =
      let i = l.serves in
      let (pool, read, b) = build_verifier-IsBuilt p.oidc l.world s.current i.built in
      let known = issued.identity in
      let same_state = i.served in
      let found : lookup known.iss i.verifier.issuers ≡ some known.entry =
        rw same_state at known.trusted in
      let shares : SharesAudience i.verifier.audiences known.token.audience =
        audience_allowed-shares i.verifier.audiences known.token.audience
          (rw same_state at known.audience) in
      let first = issued.first in
      record {
        world = l.world;
        latest = l.latest;
        result_of_load = i.loaded;
        loaded = load-IsLoaded p.regexp p.cel l.world.files path i.loaded;
        url = known.iss;
        entry = known.entry;
        trusted = IsBuilt-IsTrusted p.oidc l.world s.current pool known.iss read b found;
        token = known.token;
        payload = known.payload;
        parsed = known.parsed;
        id = issued.id;
        decision = issued.decision;
        claims = issued.claims;
        selected = known.selected;
        verified = known.verified;
        audience = shared_audience l.world s.current pool i.verifier known.token.audience b shares;
        readable = known.readable;
        flattened = known.flattened;
        fields = known.fields;
        required = known.required;
        first = record {
          index = first.index;
          rule = first.rule;
          at = rw same_state at first.at;
          satisfied = first.satisfied;
          earlier = rw same_state at first.earlier;
          grant = first.grant;
        };
        signed = issued.signed;
        subject = issued.subject;
        account = issued.account;
        publish = issued.publish;
        subscribe = issued.subscribe;
        replies = issued.replies;
        limits = issued.limits;
        within_token =
            subst (λ e. issued.claims.expires ≤ℤ unix e) (ap (λ x. x.expiry) known.fields)
              issued.within_token;
        within_policy = issued.within_policy;
      }

  -- Whatever requests and SIGHUPs a service has gone through since it started, a JWT that it issues
  -- goes back to one result of `Load`: that on the files which the last SIGHUP found that was not
  -- refused, or the start if there was none. The discovery of that moment gave the keys for the URL of
  -- one of the file's issuers, and a verifier over them, with the file's algorithms, accepted the
  -- request's token. That issuer is the one that the token itself names, and has its required claims in
  -- the identity, which is the verified token's fields with the flattened claims of its payload. One of
  -- the token's audiences is one of the file's. The account and the permissions are those in the grant
  -- of the first rule that the identity satisfies, the JWT is for the requesting user key and is signed
  -- with the key that the service started with, and it expires no later than the token and than a
  -- positive cap of the grant. The package jwt is taken to put the user key that it is given into the
  -- subject.
  pub run-IsBacked :
      ((nkey : Str) → (p.jwt.new_user_claims nkey).subject ≡ nkey)
      → (env : Startup p) (w : World p.oidc) {s : Watch p} → start p env w path ≡ ok s
      → (events : List (Event p)) (times : Times) (req : Request) (jwt : Str)
      → (authorize p times req (run p path events s).authorizer).0 ≡ ok jwt
      → IsBacked w events (run p path events s).current s.authorizer.sign_key times req jwt
  run-IsBacked subject_kept env w {s} started events times req jwt h =
      let now = run p path events s in
      let issued = authorize-IsIssued p subject_kept times req now.authorizer jwt h in
      subst (λ key. IsBacked w events now.current key times req jwt) (run-sign_key events s)
        (ServesLatest-IsBacked w events now times req jwt
          (run-ServesLatest p path env w started events) issued)
