-- ===== src/Tests/Running.antt =====
-- cmd/nats-oidc-callout/main.go: the sample service as it starts from a file, and reloads.
mod Entitled
use nats_jwt_callout.Base.{
  ◌≡◌, ◌≢◌, ◌⊎◌, false, refl, true, none, some, List, [], ◌∷◌, ◌++◌, Str, codes, ◌==◌,
  if◌then◌else◌, Result, ok, err,
}
use nats_jwt_callout.Base.Int.{pos}
use nats_jwt_callout.Regexp.Fragment.{fragment}
use nats_jwt_callout.Callout
use nats_jwt_callout.Config
use nats_jwt_callout.Config.{ConfigError, Config, RuleSource, Files, Loaded, load}
use nats_jwt_callout.Config.Loading.{IsLoaded, load-IsLoaded}
use nats_jwt_callout.Service
use nats_jwt_callout.Service.{
  StartError, World, Watch, Startup, Warning, warn_unreloadable, start, on_hangup, run, Event,
  requested, hangup,
}
use nats_jwt_callout.Service.Latest.{ServesLatest, run-ServesLatest}
use nats_jwt_callout.Service.Grants.{IsBacked, run-IsBacked}
use nats_jwt_callout.Service.Process.{main, run_service, Runs, main-Runs}
use nats_jwt_callout.Service.Tls.{
  TlsPackage, tls12, connect_options, client_certificate, ca_pool, tls_config, TlsOf,
  tls_config-TlsOf,
}
use nats_jwt_callout.Tests.{
  answer_code, policy_code, service_code, issuer_url, cel, oidc, packages, app_rule, other_rule,
  request, times,
}

abbrev pub rules : List RuleSource
rules =
    record { name = other_rule.name; match = other_rule.match; grant = other_rule.grant }
    ∷ record { name = app_rule.name; match = app_rule.match; grant = app_rule.grant }
    ∷ []

abbrev pub source : Config (List RuleSource)
source = record {
  nats = record {
    url = codes "nats://n";
    credentials = [];
    username = codes "u";
    password = codes "p";
    ca_cert = codes "ca";
    client_cert = [];
    client_key = [];
  };
  issuer_account_seed = codes "SA";
  xkey_seed = [];
  audiences = codes "nats" ∷ [];
  signing_algs = codes "RS256" ∷ [];
  issuers = record { url = issuer_url; require_claims = [] } ∷ [];
  http_timeout = pos 0;
  oidc_ca_cert = [];
  metrics = record { enabled = true; address = []; path = [] };
  policy = [];
  policy_file = codes "p";
}

abbrev pub files : Files
files = record {
  read_file = λ path. some path;
  unmarshal_policy = λ text. some rules;
  unmarshal_config = λ text. if text == codes "c" then some source else none;
}

abbrev pub world : World oidc
world = record { files = files; certificates = λ _. none; discover = λ _ url. some url }

abbrev broken_world : World oidc
broken_world = record { files = files; certificates = λ _. none; discover = λ _ _. none }

abbrev tls : TlsPackage
tls = record {
  Certificate = Str;
  CertPool = Str;
  read_file = λ path. some path;
  load_x509_key_pair = λ cert key. some (cert ++ key);
  append_certs_from_pem = λ pem. some pem;
}

abbrev startup : Startup packages
startup = record { from_seed = λ s. some s; listen = λ _. true; tls = tls; connect = λ _ _. true }

pub start_code : Unit {0}
unfolding policy_code service_code Config.load Config.load_policy Config.choose_policy
    Config.validate Config.missing_url Config.with_defaults Config.metrics_defaults Service.start
    Service.build_verifier connect_options tls_config client_certificate ca_pool
start_code = tt

abbrev loaded_of : Result ConfigError (Loaded fragment cel) → Loaded fragment cel
loaded_of (ok cfg) = cfg
loaded_of (err e) = Config.with_policy fragment cel source (Config.decoded fragment cel [])

abbrev bare : Watch packages
bare = record {
  current = loaded_of (err (ConfigError.read_config []));
  authorizer =
      Callout.new packages (record { issuers = []; audiences = [] })
        (Config.decoded fragment cel []) [] none;
  log = [];
}

abbrev started_of : Result StartError (Watch packages) → Watch packages
started_of (ok s) = s
started_of (err e) = bare

-- The configuration as it is loaded, and the service as it starts.
abbrev pub loaded : Loaded fragment cel
loaded = loaded_of (load fragment cel files (codes "c"))

abbrev pub started : Watch packages
started = started_of (start packages startup world (codes "c"))

load-IsLoaded_example : IsLoaded fragment cel files (codes "c") loaded
unfolding start_code
load-IsLoaded_example = load-IsLoaded fragment cel files (codes "c") {cfg = loaded} refl

abbrev events : List (Event packages)
events = requested times request ∷ hangup broken_world ∷ hangup world ∷ requested times request ∷ []

run-ServesLatest_example :
    ServesLatest packages (codes "c") world events (run packages (codes "c") events started)
unfolding start_code
run-ServesLatest_example =
    run-ServesLatest packages (codes "c") startup world {s = started} refl events

run-IsBacked_example :
    IsBacked packages
      (codes "c")
      world
      events
      (run packages (codes "c") events started).current
      (codes "SA")
      times
      request
      (codes "UABCSA")
unfolding start_code answer_code Service.run Service.handle on_hangup Callout.reload
    Callout.capped_expiry warn_unreloadable Service.same_nats Service.same_metrics
run-IsBacked_example =
    run-IsBacked packages (codes "c") (λ nkey. refl) startup world {s = started} refl events times
      request (codes "UABCSA") refl

tls_config-TlsOf_example :
    TlsOf tls source.nats
      (some (record { min_version = tls12; certificate = none; root_cas = some (codes "ca") }))
unfolding tls_config client_certificate ca_pool
tls_config-TlsOf_example =
    tls_config-TlsOf tls source.nats
      (some (record { min_version = tls12; certificate = none; root_cas = some (codes "ca") })) refl

-- The sample service runs: what is left of the two ways to exit with 0 is the second one.
main-Runs_example :
    (false ≡ true) ⊎ ((codes "c" ≢ []) × Runs packages startup world (λ options. true) (codes "c"))
unfolding start_code main run_service
main-Runs_example = (main-Runs packages startup world (λ options. true) false (codes "c")).0 refl
