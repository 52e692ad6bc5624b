-- ===== src/Config.antt =====
-- internal/config/config.go, and `LoadPolicy` of internal/authz/authz.go. Reading files and decoding
-- YAML are parameters.
pub mod Checks
pub mod Settings
pub mod Loading
use nats_jwt_callout.Base.{
  ℕ, zero, suc, Bool, true, false, not, Option, none, some, List, [], ◌∷◌, Str, codes,
  if◌then◌else◌, is_empty, no_items, map, Result, ok, err, ◌>>=◌, ◌>>◌, wrap_err, or_err,
}
use nats_jwt_callout.Base.Dict.{Dict}
use nats_jwt_callout.Base.Int.{ℤ, pos, is_zero}
use nats_jwt_callout.Regexp.{RegexpPackage}
use nats_jwt_callout.Authz.Cel.{CelPackage}
use nats_jwt_callout.Authz.Types.{Match, Grant, Rule}
use nats_jwt_callout.Authz.Policy
use nats_jwt_callout.Authz.Policy.{PolicyError, PolicyRule}

pub record NatsConfig : Type 0 where
  pub url : Str
  pub credentials : Str
  pub username : Str
  pub password : Str
  pub ca_cert : Str
  pub client_cert : Str
  pub client_key : Str

pub record MetricsConfig : Type 0 where
  pub enabled : Bool
  pub address : Str
  pub path : Str

pub record IssuerConfig : Type 0 where
  pub url : Str
  pub require_claims : Dict Str

-- The type of the policy differs before and after its rules are made ready to be compiled.
pub record Config (P : Type 0) : Type 0 where
  pub nats : NatsConfig
  pub issuer_account_seed : Str
  pub xkey_seed : Str
  pub audiences : List Str
  pub signing_algs : List Str
  pub issuers : List IssuerConfig
  pub http_timeout : ℤ
  pub oidc_ca_cert : Str
  pub metrics : MetricsConfig
  pub policy : P
  pub policy_file : Str

-- The exported fields of a rule, which are what the decoder sets.
pub record RuleSource : Type 0 where
  pub name : Str
  pub match : Match
  pub grant : Grant

-- A file's content, and what it decodes to.
pub record Files : Type 0 where
  pub read_file : Str → Option Str
  pub unmarshal_policy : Str → Option (List RuleSource)
  pub unmarshal_config : Str → Option (Config (List RuleSource))

pub data ConfigError : Type 0 where
  read_config parse_config read_policy parse_policy : Str → ConfigError
  policy_file_invalid : PolicyError → ConfigError
  nats_url_required seed_required audience_required signing_alg_required : ConfigError
  issuer_required : ConfigError
  issuer_url_required : ℕ → ConfigError
  policy_invalid : PolicyError → ConfigError

abbrev pub default_http_timeout : ℤ
default_http_timeout = pos 10_000_000_000

abbrev pub default_metrics_address : Str
default_metrics_address = codes ":9090"

abbrev pub default_metrics_path : Str
default_metrics_path = codes "/metrics"

abbrev pub or_default : Str → Str → Str
or_default s d = if is_empty s then d else s

unfoldable pub metrics_defaults : MetricsConfig → MetricsConfig
metrics_defaults m =
    if m.enabled
    then record m {
      address = or_default m.address default_metrics_address;
      path = or_default m.path default_metrics_path;
    }
    else m

unfoldable pub with_defaults : {P : Type 0} → Config P → Config P
with_defaults cfg = record cfg {
  http_timeout = if is_zero cfg.http_timeout then default_http_timeout else cfg.http_timeout;
  metrics = metrics_defaults cfg.metrics;
}

-- The first issuer that has no URL.
unfoldable pub missing_url : ℕ → List IssuerConfig → Option ℕ
missing_url i [] = none
missing_url i (iss ∷ issuers) =
    let rest = missing_url (suc i) issuers in if is_empty iss.url then some i else rest

abbrev pub check : ConfigError → Bool → Result ConfigError (Unit {0})
check e missing = if missing then err e else ok tt

abbrev no_missing_url : Option ℕ → Result ConfigError (Unit {0})
no_missing_url none = ok tt
no_missing_url (some i) = err (issuer_url_required i)

module _ (re : RegexpPackage) (cel : CelPackage) where
  abbrev pub Loaded : Type 0
  Loaded = Config (Policy.Policy re cel)

  abbrev pub from_source : RuleSource → PolicyRule re cel
  from_source r = record {
    name = r.name;
    match = r.match;
    grant = r.grant;
    matcher = none;
    cel_program = none;
  }

  abbrev pub decoded : List RuleSource → Policy.Policy re cel
  decoded rules = record { rules = map from_source rules; validated = false }

  abbrev pub validated :
      Policy.Policy re cel × Option PolicyError → Result PolicyError (Policy.Policy re cel)
  validated (p, none) = ok p
  validated (p, some e) = err e

  -- `LoadPolicy`
  unfoldable pub load_policy : Files → Str → Result ConfigError (Policy.Policy re cel)
  load_policy files path = do
    data_read ← or_err (read_policy path) (files.read_file path)
    rules ← or_err (parse_policy path) (files.unmarshal_policy data_read)
    wrap_err policy_file_invalid (validated (Policy.validate re cel (decoded rules)))

  -- `Validate`, with the configuration as it is left where there is no error.
  unfoldable pub validate : Loaded → Result ConfigError Loaded
  validate cfg = do
    check nats_url_required (is_empty cfg.nats.url)
    check seed_required (is_empty cfg.issuer_account_seed)
    check audience_required (no_items cfg.audiences)
    check signing_alg_required (no_items cfg.signing_algs)
    check issuer_required (no_items cfg.issuers)
    no_missing_url (missing_url 0 cfg.issuers)
    p ← wrap_err policy_invalid (validated (Policy.validate re cel cfg.policy))
    ok (record cfg { policy = p })

  -- The policy of the policy file, if one is named, and the inline policy if not.
  unfoldable pub choose_policy :
      Files → Config (List RuleSource) → Result ConfigError (Policy.Policy re cel)
  choose_policy files cfg =
      if is_empty cfg.policy_file
      then ok (decoded cfg.policy)
      else load_policy files cfg.policy_file

  abbrev pub with_policy : Config (List RuleSource) → Policy.Policy re cel → Loaded
  with_policy cfg p = record {
    nats = cfg.nats;
    issuer_account_seed = cfg.issuer_account_seed;
    xkey_seed = cfg.xkey_seed;
    audiences = cfg.audiences;
    signing_algs = cfg.signing_algs;
    issuers = cfg.issuers;
    http_timeout = cfg.http_timeout;
    oidc_ca_cert = cfg.oidc_ca_cert;
    metrics = cfg.metrics;
    policy = p;
    policy_file = cfg.policy_file;
  }

  unfoldable pub load : Files → Str → Result ConfigError Loaded
  load files path = do
    data_read ← or_err (read_config path) (files.read_file path)
    cfg ← or_err (parse_config path) (files.unmarshal_config data_read)
    p ← choose_policy files cfg
    validate (with_defaults (with_policy cfg p))
