-- ===== src/Service.antt =====
-- cmd/nats-oidc-callout/main.go: starting the service, and reloading its configuration on SIGHUP.
pub mod Reloading
pub mod Latest
pub mod Tls
pub mod Starting
pub mod Process
pub mod Trust
pub mod Grants
pub mod Entitlement
use nats_jwt_callout.Base.{
  Bool, true, false, not, ◌&&◌, ◌||◌, Option, none, some, List, [], ◌∷◌, ◌++◌, map, Str, codes,
  ◌==◌, if◌then◌else◌, is_empty, is_some, Result, ok, err, ◌>>=◌, ◌>>◌, wrap_err, or_err,
}
use nats_jwt_callout.Metrics
use nats_jwt_callout.Metrics.{Metrics}
use nats_jwt_callout.Verifier
use nats_jwt_callout.Verifier.{Verifier, IssuerOption, NewError}
use nats_jwt_callout.Verifier.Packages.{HttpClient, OidcPackage}
use nats_jwt_callout.Config.{
  NatsConfig, MetricsConfig, IssuerConfig, Config, Files, ConfigError, Loaded, load,
}
use nats_jwt_callout.Service.Tls.{TlsPackage, ConnectOption, TlsError, connect_options}
use nats_jwt_callout.Callout
use nats_jwt_callout.Callout.{Packages, Times, Request, Authorizer, authorize, reload}

pub data BuildError : Type 0 where
  read_ca_cert no_certificates : Str → BuildError
  new_verifier : NewError → BuildError

-- The settings that need a restart.
pub data Warning : Type 0 where
  nats_changed seeds_changed metrics_changed : Warning

abbrev same_bool : Bool → Bool → Bool
same_bool true b = b
same_bool false b = not b

unfoldable pub same_nats : NatsConfig → NatsConfig → Bool
same_nats a b =
    a.url == b.url
    && a.credentials == b.credentials
    && a.username == b.username
    && a.password == b.password
    && a.ca_cert == b.ca_cert
    && a.client_cert == b.client_cert
    && a.client_key == b.client_key

unfoldable pub same_metrics : MetricsConfig → MetricsConfig → Bool
same_metrics a b = same_bool a.enabled b.enabled && a.address == b.address && a.path == b.path

abbrev warn_if : Bool → Warning → List Warning
warn_if changed w = if changed then w ∷ [] else []

unfoldable pub warn_unreloadable : {P : Type 0} → Config P → Config P → List Warning
warn_unreloadable old new =
    warn_if (not (same_nats old.nats new.nats)) nats_changed
    ++ warn_if
        (not (old.issuer_account_seed == new.issuer_account_seed)
          || not (old.xkey_seed == new.xkey_seed))
        seeds_changed
    ++ warn_if (not (same_metrics old.metrics new.metrics)) metrics_changed

-- What is logged about reloads, in its order.
pub data ReloadLine : Type 0 where
  hangup_received config_reloaded : ReloadLine
  warned : Warning → ReloadLine
  load_failed : ConfigError → ReloadLine
  build_failed : BuildError → ReloadLine

pub data StartError : Type 0 where
  load_error : ConfigError → StartError
  account_seed xkey_seed metrics_listen nats_connect : StartError
  build_error : BuildError → StartError

-- What a start or a reload finds outside: the files, the certificates in a text, and discovery.
pub record World (oidc : OidcPackage) : Type 0 where
  pub files : Files
  pub certificates : Str → Option oidc.CertPool
  pub discover : HttpClient oidc.CertPool → Str → Option oidc.Provider

module _ (oidc : OidcPackage) where
  abbrev pub root_cas : World oidc → Str → Result BuildError (Option oidc.CertPool)
  root_cas w path = if is_empty path then ok none else do
    pem ← or_err (read_ca_cert path) (w.files.read_file path)
    pool ← or_err (no_certificates path) (w.certificates pem)
    ok (some pool)

  -- The package, with the discovery of that moment.
  abbrev pub at_world : World oidc → OidcPackage
  at_world w = record oidc { new_provider = w.discover }

  abbrev pub issuer_option : IssuerConfig → IssuerOption
  issuer_option iss = record { url = iss.url; require_claims = iss.require_claims }

  -- `buildVerifier`
  unfoldable pub build_verifier :
      {P : Type 0} → World oidc → Config P → Result BuildError (Verifier oidc.TokenVerifier)
  build_verifier w cfg = do
    pool ← root_cas w cfg.oidc_ca_cert
    wrap_err new_verifier (
        Verifier.new (at_world w) (record {
          issuers = map issuer_option cfg.issuers;
          audiences = cfg.audiences;
          signing_algs = cfg.signing_algs;
          http_timeout = cfg.http_timeout;
          root_cas = pool;
        }))

module _ (p : Packages) where
  abbrev pub Cfg : Type 0
  Cfg = Loaded p.regexp p.cel

  -- The goroutine of `watchReloads`: the configuration that it compares with, the authorizer that it
  -- shares with the requests, and its part of the log.
  pub record Watch : Type 0 where
    pub current : Cfg
    pub authorizer : Authorizer p
    pub log : List ReloadLine

  abbrev keep : Watch → List ReloadLine → Watch
  keep s lines = record s { log = s.log ++ lines }

  abbrev swap_in :
      Watch → Cfg → List ReloadLine → Result BuildError (Verifier p.oidc.TokenVerifier) → Watch
  swap_in s cfg warnings (err e) = keep s ((hangup_received ∷ warnings) ++ build_failed e ∷ [])
  swap_in s cfg warnings (ok v) = record {
    current = cfg;
    authorizer = reload p v cfg.policy s.authorizer;
    log = s.log ++ ((hangup_received ∷ warnings) ++ config_reloaded ∷ []);
  }

  abbrev reload_with : World p.oidc → Watch → Result ConfigError Cfg → Watch
  reload_with w s (err e) = keep s (hangup_received ∷ load_failed e ∷ [])
  reload_with w s (ok cfg) =
      swap_in s cfg (map warned (warn_unreloadable s.current cfg)) (build_verifier p.oidc w cfg)

  -- One round of the loop of `watchReloads`, on SIGHUP.
  unfoldable pub on_hangup : Str → World p.oidc → Watch → Watch
  on_hangup path w s = reload_with w s (load p.regexp p.cel w.files path)

  -- What `run` calls on its way to a running service.
  pub record Startup : Type 1 where
    pub from_seed : Str → Option p.jwt.KeyPair
    pub listen : Str → Bool
    pub tls : TlsPackage
    pub connect : Str → List (ConnectOption tls) → Bool

  abbrev connected : (env : Startup) → Str → Result TlsError (List (ConnectOption env.tls)) → Bool
  connected env url (err e) = false
  connected env url (ok options) = env.connect url options

  abbrev pub metrics_of : MetricsConfig → Option Metrics
  metrics_of m = if m.enabled then some Metrics.new else none

  abbrev require : StartError → Bool → Result StartError (Unit {0})
  require e b = if b then ok tt else err e

  -- `run`, up to the point where requests and signals are waited for.
  unfoldable pub start : Startup → World p.oidc → Str → Result StartError Watch
  start env w path = do
    cfg ← wrap_err load_error (load p.regexp p.cel w.files path)
    sign_key ← or_err account_seed (env.from_seed cfg.issuer_account_seed)
    require xkey_seed (is_empty cfg.xkey_seed || is_some (env.from_seed cfg.xkey_seed))
    v ← wrap_err build_error (build_verifier p.oidc w cfg)
    require metrics_listen (not cfg.metrics.enabled || env.listen cfg.metrics.address)
    require nats_connect (connected env cfg.nats.url (connect_options env.tls cfg.nats))
    ok (record {
      current = cfg;
      authorizer = Callout.new p v cfg.policy sign_key (metrics_of cfg.metrics);
      log = [];
    })

  pub data Event : Type 0 where
    requested : Times → Request → Event
    hangup : World p.oidc → Event

  unfoldable pub handle : Str → Event → Watch → Watch
  handle path (requested times req) s = record s {
    authorizer = (authorize p times req s.authorizer).1;
  }
  handle path (hangup w) s = on_hangup path w s

  -- Oldest event first.
  unfoldable pub run : Str → List Event → Watch → Watch
  run path [] s = s
  run path (e ∷ events) s = run path events (handle path e s)
