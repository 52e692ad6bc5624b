-- ===== src/Service/Trust.antt =====
-- cmd/nats-oidc-callout/main.go with internal/verifier/verifier.go: which verifiers the service
-- builds from its configuration.
use nats_jwt_callout.Base.{
  ◌≡◌, sym, ap, ◌∙◌, Option, some, true, List, [], ◌∷◌, map, Str, All, ok, >>=-eq-ok,
  wrap_err-eq-ok,
}
use mathlib.Core.List.Memᴰ
use mathlib.Core.List.{Memᴰ}
use mathlib.Core.Path.{subst}
use mathlib.Core.Option.{some-injective}
use nats_jwt_callout.Base.Dict.{lookup}
use nats_jwt_callout.Verifier.{IssuerEntry, Verifier, Options, http_client}
use nats_jwt_callout.Verifier.Packages.{OidcPackage}
use nats_jwt_callout.Verifier.Construction.{IsBuilt, HasEntry, new-IsBuilt}
use nats_jwt_callout.Config.{Config, IssuerConfig}
use nats_jwt_callout.Service.{World, root_cas, at_world, issuer_option, build_verifier}

All-Memᴰ : {A : Type 0} (P : A → Type 0) (xs : List A) (x : A) → All P xs → Memᴰ x xs → P x
All-Memᴰ P [] x h m = elim m [ ]
All-Memᴰ P (y ∷ xs) x h (Memᴰ.head e) = subst P (sym e) h.0
All-Memᴰ P (y ∷ xs) x h (Memᴰ.tail m) = All-Memᴰ P xs x h.1 m

module _ (oidc : OidcPackage) where
  -- The options of a verifier that `buildVerifier` builds, with the pool of certificates it has read.
  abbrev pub options_of : {P : Type 0} → Config P → Option oidc.CertPool → Options oidc.CertPool
  options_of cfg pool = record {
    issuers = map (issuer_option oidc) cfg.issuers;
    audiences = cfg.audiences;
    signing_algs = cfg.signing_algs;
    http_timeout = cfg.http_timeout;
    root_cas = pool;
  }

  pub build_verifier-IsBuilt :
      {P : Type 0} (w : World oidc) (cfg : Config P) {v : Verifier oidc.TokenVerifier}
      → build_verifier oidc w cfg ≡ ok v
      → (pool : Option oidc.CertPool) × (root_cas oidc w cfg.oidc_ca_cert ≡ ok pool)
        × IsBuilt (at_world oidc w) (options_of cfg pool) v
  unfolding build_verifier
  build_verifier-IsBuilt w cfg {v} h =
      let (pool, read, built) = >>=-eq-ok (root_cas oidc w cfg.oidc_ca_cert) _ h in
      (pool, read, new-IsBuilt (at_world oidc w) (options_of cfg pool) v (wrap_err-eq-ok _ _ built))

  -- Every issuer of the configuration has its entry.
  pub IsBuilt-HasEntry :
      {P : Type 0} (w : World oidc) (cfg : Config P) (pool : Option oidc.CertPool)
      (v : Verifier oidc.TokenVerifier) (issuer : IssuerConfig)
      → IsBuilt (at_world oidc w) (options_of cfg pool) v
      → Memᴰ issuer cfg.issuers
      → HasEntry (at_world oidc w) (options_of cfg pool) v.issuers (issuer_option oidc issuer)
  IsBuilt-HasEntry w cfg pool v issuer b configured =
      All-Memᴰ (HasEntry (at_world oidc w) (options_of cfg pool) v.issuers) _
        (issuer_option oidc issuer) b.entries (Memᴰ.map (issuer_option oidc) configured)

  -- An issuer of the configuration, and the verifier over the keys that were discovered at its URL.
  pub record IsTrusted {P : Type 0} (w : World oidc) (cfg : Config P) (url : Str)
      (entry : IssuerEntry oidc.TokenVerifier) : Type 0 where
    pub issuer : IssuerConfig
    pub configured : Memᴰ issuer cfg.issuers
    pub same_url : issuer.url ≡ url
    pub same_claims : entry.require_claims ≡ issuer.require_claims
    pub pool : Option oidc.CertPool
    pub pool_read : root_cas oidc w cfg.oidc_ca_cert ≡ ok pool
    pub provider : oidc.Provider
    pub discovered :
        w.discover (http_client (at_world oidc w) (options_of cfg pool)) url ≡ some provider
    pub verifier :
        entry.verifier
        ≡ oidc.verifier provider
            (record { skip_client_id_check = true; supported_signing_algs = cfg.signing_algs })

  pub IsBuilt-IsTrusted :
      {P : Type 0} (w : World oidc) (cfg : Config P) (pool : Option oidc.CertPool)
      {v : Verifier oidc.TokenVerifier} (url : Str) {entry : IssuerEntry oidc.TokenVerifier}
      → root_cas oidc w cfg.oidc_ca_cert ≡ ok pool
      → IsBuilt (at_world oidc w) (options_of cfg pool) v
      → lookup url v.issuers ≡ some entry
      → IsTrusted w cfg url entry
  IsBuilt-IsTrusted w cfg pool {v} url {entry} pool_read b found =
      let (option, listed, same) = b.listed url entry found in
      let (issuer, configured, is_option) = Memᴰ.of_map (issuer_option oidc) cfg.issuers listed in
      let added =
        All-Memᴰ (HasEntry (at_world oidc w) (options_of cfg pool) v.issuers) _ option b.entries
          listed in
      let named : option.url ≡ url = same in
      let e = some-injective _ _ (sym added.entry ∙ ap (λ u. lookup u v.issuers) named ∙ found) in
      record {
        issuer = issuer;
        configured = configured;
        same_url = ap (λ o. o.url) is_option ∙ same;
        same_claims =
            sym (ap (λ x. x.require_claims) e) ∙ sym (ap (λ o. o.require_claims) is_option);
        pool = pool;
        pool_read = pool_read;
        provider = added.provider;
        discovered =
            subst
              (λ u.
                w.discover (http_client (at_world oidc w) (options_of cfg pool)) u
                ≡ some added.provider)
              named added.discovered;
        verifier = sym (ap (λ x. x.verifier) e);
      }
