-- ===== src/AwsAuth.antt =====
-- lib/awsauth/awsauth.go: the client's source of AWS web identity tokens. STS, JSON and the file
-- system are parameters; what is done with their answers is the program's.
pub mod Bounds
pub mod Construction
pub mod CachePath
pub mod Source
use nats_jwt_callout.Base.{
  ℕ, zero, suc, ◌+◌, ◌-◌, ◌*◌, ◌%◌, ◌/◌, Bool, true, false, not, ◌&&◌, ◌||◌, Option, none, some,
  List, [], ◌∷◌, ◌++◌, Str, codes, ◌==◌, if◌then◌else◌, is_empty, is_some, length, get_elem?, split,
  cut_prefix, reverse, any, map, eqb, ltb, Result, ok, err, ◌>>=◌, ◌>>◌, or_err,
}
use nats_jwt_callout.Base.Dict.{Dict, lookup}
use nats_jwt_callout.Base.Int.{ℤ, pos, negsuc, pos_part, is_zero, ltb_ℤ, ◌+ℤ◌}
use nats_jwt_callout.Base64.{decode_raw_url}

abbrev pub second : ℕ
second = 1_000_000_000

abbrev pub default_signing_algorithm : Str
default_signing_algorithm = codes "RS256"

abbrev pub default_duration : ℤ
default_duration = pos 300_000_000_000

abbrev pub default_refresh_before : ℤ
default_refresh_before = pos 10_000_000_000

abbrev pub min_duration : ℤ
min_duration = pos 60_000_000_000

abbrev pub max_duration : ℤ
max_duration = pos 3_600_000_000_000

abbrev pub max_audience_len : ℕ
max_audience_len = 1000

abbrev pub supported_signing_algorithms : Dict (Unit {0})
supported_signing_algorithms = (codes "RS256", tt) ∷ (codes "ES384", tt) ∷ []

pub record Config : Type 0 where
  pub audience : Str
  pub signing_algorithm : Str
  pub duration : ℤ
  pub cache_path : Str
  pub cache_refresh_before : ℤ

pub data ConfigError : Type 0 where
  audience_required unsupported_algorithm duration_range : ConfigError
  duration_seconds refresh_negative : ConfigError
  audience_length : ℕ → ConfigError

-- `d % time.Second != 0`
abbrev is_fractional : ℤ → Bool
is_fractional (pos n) = not (eqb (n % second) 0)
is_fractional (negsuc n) = not (eqb (suc n % second) 0)

abbrev check : ConfigError → Bool → Result ConfigError (Unit {0})
check e wrong = if wrong then err e else ok tt

unfoldable pub validate : Config → Result ConfigError (Unit {0})
validate cfg = do
  check audience_required (is_empty cfg.audience)
  check (audience_length (length cfg.audience)) (ltb max_audience_len (length cfg.audience))
  check unsupported_algorithm (
      not (is_empty cfg.signing_algorithm)
      && not (is_some (lookup cfg.signing_algorithm supported_signing_algorithms)))
  check duration_range (
      not (is_zero cfg.duration)
      && (ltb_ℤ cfg.duration min_duration || ltb_ℤ max_duration cfg.duration))
  check duration_seconds (not (is_zero cfg.duration) && is_fractional cfg.duration)
  check refresh_negative (ltb_ℤ cfg.cache_refresh_before (pos 0))

-- The settings of a TokenSource, which no method changes.
pub record Settings : Type 0 where
  pub audience : Str
  pub signing_algorithm : Str
  pub duration : ℤ
  pub cache_path : Str
  pub cache_refresh_before : ℤ

-- The settings, with the defaults.
abbrev pub settings_of : Config → Settings
settings_of cfg = record {
  audience = cfg.audience;
  signing_algorithm =
      if is_empty cfg.signing_algorithm then default_signing_algorithm else cfg.signing_algorithm;
  duration = if is_zero cfg.duration then default_duration else cfg.duration;
  cache_path = cfg.cache_path;
  cache_refresh_before =
      if is_zero cfg.cache_refresh_before then default_refresh_before else cfg.cache_refresh_before;
}

-- `newWithClient`
unfoldable pub new_with_client : Config → Result ConfigError Settings
new_with_client cfg = do validate cfg; ok (settings_of cfg)

abbrev two_32 : ℕ
two_32 = 4_294_967_296

-- The number that 32 bits stand for in two's complement.
unfoldable pub signed_32 : ℕ → ℤ
signed_32 bits = if ltb bits 2_147_483_648 then pos bits else negsuc (two_32 - bits - 1)

-- `int32(d / time.Second)`: the quotient is rounded to zero, and its low 32 bits are kept.
unfoldable pub int32_seconds : ℤ → ℤ
int32_seconds (pos n) = signed_32 ((n / second) % two_32)
int32_seconds (negsuc n) = signed_32 ((two_32 - (suc n / second) % two_32) % two_32)

-- sts.GetWebIdentityTokenInput
pub record TokenInput : Type 0 where
  pub audience : List Str
  pub signing_algorithm : Str
  pub duration_seconds : ℤ

pub data FetchError : Type 0 where
  sts_failed empty_token : FetchError

-- What STS answers to one call: an error, no token, or a token.
abbrev pub Client : Type 0
Client = TokenInput → Option (Option Str)

unfoldable pub token_input : Settings → TokenInput
token_input ts = record {
  audience = ts.audience ∷ [];
  signing_algorithm = ts.signing_algorithm;
  duration_seconds = int32_seconds ts.duration;
}

abbrev minted : Option (Option Str) → Result FetchError Str
minted none = err sts_failed
minted (some none) = err empty_token
minted (some (some tok)) = if is_empty tok then err empty_token else ok tok

unfoldable pub mint : Settings → Client → Result FetchError Str
mint ts client = minted (client (token_input ts))

-- `unmarshal_claims` decodes the fields "exp", which is 0 where there is none, and "aud", which is
-- kept as it is written, and empty where there is none.
pub record JsonPackage : Type 0 where
  pub unmarshal_claims : Str → Option (ℤ × Str)
  pub unmarshal_string : Str → Option Str
  pub unmarshal_strings : Str → Option (List Str)

abbrev or_many : Option (List Str) → List Str
or_many none = []
or_many (some many) = many

abbrev one_or : Option Str → List Str → List Str
one_or none many = many
one_or (some one) many = one ∷ []

abbrev times_second : ℤ → ℤ
times_second (pos n) = pos (n * second)
times_second (negsuc n) = negsuc (suc n * second - 1)

module _ (json : JsonPackage) where
  unfoldable pub parse_audience : Str → List Str
  parse_audience raw =
      if is_empty raw
      then []
      else one_or (json.unmarshal_string raw) (or_many (json.unmarshal_strings raw))

  abbrev expiry_of : ℤ × Str → Option (ℤ × List Str)
  expiry_of (exp, aud) = if is_zero exp then none else some (times_second exp, parse_audience aud)

  abbrev claims_of : Option (ℤ × Str) → Option (ℤ × List Str)
  claims_of none = none
  claims_of (some claims) = expiry_of claims

  abbrev decoded : Option Str → Option (ℤ × List Str)
  decoded none = none
  decoded (some payload) = claims_of (json.unmarshal_claims payload)

  abbrev segment : Option Str → Option (ℤ × List Str)
  segment none = none
  segment (some text) = decoded (decode_raw_url text)

  -- `unverifiedExpiryAudience`
  unfoldable pub unverified_expiry_audience : Str → Option (ℤ × List Str)
  unverified_expiry_audience token =
      let parts = split token b'.' in
      if not (eqb (length parts) 3) then none else segment (get_elem? parts 1)
