-- ===== src/AwsAuth/Construction.antt =====
-- lib/awsauth/awsauth.go: `New` and `NewFromAWSConfig`. Loading the AWS configuration is a parameter.
use nats_jwt_callout.Base.{
  ◌≡◌, ◌≢◌, ◌↔◌, refl, sym, ap, Option, none, some, [], Str, if◌then◌else◌, is_empty,
  is_empty-false_iff, arith, Result, ok, err, ◌>>=◌, ◌>>◌, or_err, wrap_err, >>=-eq-ok,
  or_err-eq-ok, wrap_err-eq-ok, inl, inr, Bool-cases, Result-cases,
}
use nats_jwt_callout.AwsAuth.{Config, ConfigError, Settings, validate, settings_of, new_with_client}
use nats_jwt_callout.AwsAuth.Bounds.{IsValid, validate-eq-ok_iff}

-- The field of aws.Config that is read.
pub record AwsConfig : Type 0 where
  pub region : Str

pub data SourceError : Type 0 where
  invalid_config : ConfigError → SourceError
  load_aws_config region_required : SourceError

unfoldable pub new_from_aws_config : AwsConfig → Config → Result SourceError Settings
new_from_aws_config aws cfg = do
  wrap_err invalid_config (validate cfg)
  if is_empty aws.region then err region_required else wrap_err invalid_config (new_with_client cfg)

-- `loaded` is what awsconfig.LoadDefaultConfig returns.
unfoldable pub new : Option AwsConfig → Config → Result SourceError Settings
new loaded cfg = do
  wrap_err invalid_config (validate cfg)
  aws ← or_err load_aws_config loaded
  new_from_aws_config aws cfg

-- A token source that `New` builds, from a configuration that is valid and a region that is set.
pub record IsNew (loaded : Option AwsConfig) (cfg : Config) (ts : Settings) : Type 0 where
  pub valid : IsValid cfg
  pub aws : AwsConfig
  pub aws_loaded : loaded ≡ some aws
  pub region : aws.region ≢ []
  pub settings : ts ≡ settings_of cfg

new_with_client-valid :
    (cfg : Config) → validate cfg ≡ ok tt → new_with_client cfg ≡ ok (settings_of cfg)
unfolding new_with_client
new_with_client-valid cfg h = rw h refl

new_inv-region :
    (aws : AwsConfig) (cfg : Config) {ts : Settings}
    → validate cfg ≡ ok tt
    → new_from_aws_config aws cfg ≡ ok ts
    → (aws.region ≢ []) × (ts ≡ settings_of cfg)
unfolding new_from_aws_config
new_inv-region aws cfg {ts} valid h = elim (Bool-cases (is_empty aws.region)) [
  | inl missing ↦ let refused = rw (valid, missing) at h in absurd (cc)
  | inr set ↦
      let built = rw (valid, set, new_with_client-valid cfg valid) at h in
      ((is_empty-false_iff aws.region).0 set, ground (arith, built))
]

new_inv :
    (loaded : Option AwsConfig) (cfg : Config) {ts : Settings}
    → new loaded cfg ≡ ok ts
    → IsNew loaded cfg ts
unfolding new
new_inv loaded cfg {ts} h =
    let (_, wrapped, h1) = >>=-eq-ok (wrap_err invalid_config (validate cfg)) _ h in
    let valid = wrap_err-eq-ok invalid_config (validate cfg) wrapped in
    let (aws, found, h2) = >>=-eq-ok (or_err load_aws_config loaded) _ h1 in
    let (region, settings) = new_inv-region aws cfg valid h2 in
    record {
      valid = (validate-eq-ok_iff cfg).0 valid;
      aws = aws;
      aws_loaded = or_err-eq-ok load_aws_config loaded found;
      region = region;
      settings = settings;
    }

new_of :
    (loaded : Option AwsConfig) (cfg : Config) {ts : Settings}
    → IsNew loaded cfg ts
    → new loaded cfg ≡ ok ts
unfolding new new_from_aws_config
new_of loaded cfg {ts} n =
    let valid = (validate-eq-ok_iff cfg).1 n.valid in
    rw
      (
        valid,
        n.aws_loaded,
        (is_empty-false_iff n.aws.region).1 n.region,
        new_with_client-valid cfg valid,
      )
      (ap ok (sym n.settings))

-- With a valid configuration, only the AWS configuration can be at fault.
new_valid :
    (loaded : Option AwsConfig) (cfg : Config) (e : ConfigError)
    → validate cfg ≡ ok tt
    → new loaded cfg ≢ err (invalid_config e)
unfolding new new_from_aws_config
new_valid none cfg e valid h = let missing = rw valid at h in absurd (cc)
new_valid (some aws) cfg e valid h = elim (Bool-cases (is_empty aws.region)) [
  | inl missing ↦ let refused = rw (valid, missing) at h in absurd (cc)
  | inr set ↦ let built = rw (valid, set, new_with_client-valid cfg valid) at h in absurd (cc)
]

invalid_first :
    (loaded : Option AwsConfig) (cfg : Config) (e : ConfigError)
    → validate cfg ≡ err e
    → new loaded cfg ≡ err (invalid_config e)
unfolding new
invalid_first loaded cfg e h = rw h refl

new_invalid :
    (loaded : Option AwsConfig) (cfg : Config) (e : ConfigError)
    → new loaded cfg ≡ err (invalid_config e)
    → validate cfg ≡ err e
new_invalid loaded cfg e h = elim (Result-cases (validate cfg)) [
  | inl (f, bad) ↦ let same = invalid_first loaded cfg f bad in cc
  | inr (u, valid) ↦ absurd (new_valid loaded cfg e valid h)
]

-- `New` builds a token source exactly from a configuration that is valid, AWS configuration that loads
-- and a region that is not empty, and fills in the defaults; an invalid configuration is refused with
-- its own error, whatever the AWS configuration is.
pub new-eq-ok_iff :
    (loaded : Option AwsConfig) (cfg : Config)
    → ((ts : Settings) → (new loaded cfg ≡ ok ts) ↔ IsNew loaded cfg ts)
      × ((e : ConfigError) → (new loaded cfg ≡ err (invalid_config e)) ↔ (validate cfg ≡ err e))
new-eq-ok_iff loaded cfg = (
  (λ ts. (new_inv loaded cfg, new_of loaded cfg)),
  λ e. (new_invalid loaded cfg e, invalid_first loaded cfg e),
)
