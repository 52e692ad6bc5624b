-- ===== src/AwsAuth/Bounds.antt =====
-- lib/awsauth/awsauth.go: which configurations are accepted, and what is then asked of STS.
use nats_jwt_callout.Base.{
  ℕ, ◌*◌, ◌/◌, ◌%◌, ◌≤◌, ◌≡◌, refl, ap, ◌∙◌, ◌⊎◌, ◌↔◌, inl, inr, ◌≢◌, Bool, true, false, not, ◌&&◌,
  ◌||◌, [], ◌∷◌, Str, codes, ==_iff, if◌then◌else◌, is_empty, is_empty_iff, is_empty-false_iff,
  is_some, length, eqb, ltb, arith, ok, >>=-eq-ok, Bool-cases,
}
use nats_jwt_callout.Base.Dict.{lookup}
use nats_jwt_callout.Base.Int.{ℤ, pos, negsuc, is_zero, ltb_ℤ, ◌≤ℤ◌}
use nats_jwt_callout.AwsAuth.{
  second, default_signing_algorithm, default_duration, default_refresh_before, min_duration,
  max_duration, max_audience_len, supported_signing_algorithms, Config, ConfigError, is_fractional,
  check, validate, audience_required, audience_length, unsupported_algorithm, duration_range,
  duration_seconds, Settings, settings_of, new_with_client, signed_32, int32_seconds, token_input,
}

-- A whole number of seconds that STS accepts.
pub record IsLifetime (d : ℤ) : Type 0 where
  pub seconds : ℕ
  pub whole : d ≡ pos (seconds * second)
  pub at_least : 60 ≤ seconds
  pub at_most : seconds ≤ 3600

abbrev pub IsAlgorithm : Str → Type 0
IsAlgorithm alg = (alg ≡ codes "RS256") ⊎ (alg ≡ codes "ES384")

-- A zero field is given its default later.
pub record IsValid (cfg : Config) : Type 0 where
  pub audience : cfg.audience ≢ []
  pub audience_short : length cfg.audience ≤ 1000
  pub algorithm : (cfg.signing_algorithm ≡ []) ⊎ IsAlgorithm cfg.signing_algorithm
  pub duration : (cfg.duration ≡ pos 0) ⊎ IsLifetime cfg.duration
  pub refresh : pos 0 ≤ℤ cfg.cache_refresh_before

supported_iff :
    (alg : Str) → (is_some (lookup alg supported_signing_algorithms) ≡ true) ↔ IsAlgorithm alg
unfolding lookup
supported_iff alg = ground (arith, ==_iff (codes "RS256") alg, ==_iff (codes "ES384") alg)

check_iff : (e : ConfigError) (b : Bool) → (check e b ≡ ok tt) ↔ (b ≡ false)
check_iff e true = ground arith
check_iff e false = ground arith

positive_lifetime :
    (n : ℕ)
    → eqb n 0 ≡ false
    → (not (eqb n 0) && (ltb_ℤ (pos n) min_duration || ltb_ℤ max_duration (pos n))) ≡ false
    → (not (eqb n 0) && is_fractional (pos n)) ≡ false
    → (60_000_000_000 ≤ n) × (n ≤ 3_600_000_000_000) × (n % second ≡ 0)
positive_lifetime n set h k = ground arith

whole_seconds : (n : ℕ) → n % second ≡ 0 → n ≡ n / second * second
whole_seconds n h = omega arith

IsLifetime-of :
    (d : ℤ)
    → (not (is_zero d) && (ltb_ℤ d min_duration || ltb_ℤ max_duration d)) ≡ false
    → (not (is_zero d) && is_fractional d) ≡ false
    → (d ≡ pos 0) ⊎ IsLifetime d
IsLifetime-of (negsuc n) h k = absurd (ground arith)
IsLifetime-of (pos n) h k = elim (Bool-cases (eqb n 0)) [
  | inl zero_set ↦ inl (ground arith)
  | inr set ↦
      let (low, high, whole) = positive_lifetime n set h k in
      inr (record {
        seconds = n / second;
        whole = ap pos (whole_seconds n whole);
        at_least = omega arith;
        at_most = omega arith;
      })
]

lifetime_passes :
    (d : ℤ)
    → (d ≡ pos 0) ⊎ IsLifetime d
    → ((not (is_zero d) && (ltb_ℤ d min_duration || ltb_ℤ max_duration d)) ≡ false)
      × ((not (is_zero d) && is_fractional d) ≡ false)
lifetime_passes d (inl e) = ground arith
lifetime_passes d (inr l) =
    let low = l.at_least in let high = l.at_most in rw l.whole (ground arith)

IsAlgorithm-iff :
    (alg : Str)
    → ((not (is_empty alg) && not (is_some (lookup alg supported_signing_algorithms))) ≡ false)
      ↔ ((alg ≡ []) ⊎ IsAlgorithm alg)
IsAlgorithm-iff alg = ground (arith, is_empty_iff alg, supported_iff alg)

short_iff : (n : ℕ) → (ltb max_audience_len n ≡ false) ↔ (n ≤ 1000)
short_iff n = ground arith

refresh_iff : (d : ℤ) → (ltb_ℤ d (pos 0) ≡ false) ↔ (pos 0 ≤ℤ d)
refresh_iff d = ground arith

validate_inv : (cfg : Config) {u : Unit {0}} → validate cfg ≡ ok u → IsValid cfg
unfolding validate
validate_inv cfg h =
    let (_, named, h1) = >>=-eq-ok (check audience_required (is_empty cfg.audience)) _ h in
    let (_, short, h2) =
      >>=-eq-ok
        (check (audience_length (length cfg.audience)) (ltb max_audience_len (length cfg.audience)))
        _ h1 in
    let (_, alg, h3) =
      >>=-eq-ok
        (check unsupported_algorithm (
          not (is_empty cfg.signing_algorithm)
          && not (is_some (lookup cfg.signing_algorithm supported_signing_algorithms))))
        _ h2 in
    let (_, range, h4) =
      >>=-eq-ok
        (check duration_range (
          not (is_zero cfg.duration)
          && (ltb_ℤ cfg.duration min_duration || ltb_ℤ max_duration cfg.duration)))
        _ h3 in
    let (_, whole, last) =
      >>=-eq-ok (check duration_seconds (not (is_zero cfg.duration) && is_fractional cfg.duration))
        _ h4 in
    record {
      audience = λ e. ground (arith, is_empty_iff cfg.audience, (check_iff _ _).0 named);
      audience_short = (short_iff (length cfg.audience)).0 ((check_iff _ _).0 short);
      algorithm = (IsAlgorithm-iff cfg.signing_algorithm).0 ((check_iff _ _).0 alg);
      duration = IsLifetime-of cfg.duration ((check_iff _ _).0 range) ((check_iff _ _).0 whole);
      refresh = (refresh_iff cfg.cache_refresh_before).0 ((check_iff _ _).0 last);
    }

validate_of : (cfg : Config) → IsValid cfg → validate cfg ≡ ok tt
unfolding validate
validate_of cfg v =
    let (range, whole) = lifetime_passes cfg.duration v.duration in
    rw
      (
        (is_empty-false_iff cfg.audience).1 v.audience,
        (short_iff (length cfg.audience)).1 v.audience_short,
        (IsAlgorithm-iff cfg.signing_algorithm).1 v.algorithm,
        range,
        whole,
        (refresh_iff cfg.cache_refresh_before).1 v.refresh,
      )
      refl

-- `validate` accepts exactly the configurations that have an audience of at most 1000 bytes, no
-- algorithm or one that STS supports, a duration that is zero or a whole number of seconds between one
-- minute and one hour, and no negative time before expiry to refresh at.
pub validate-eq-ok_iff : (cfg : Config) → (validate cfg ≡ ok tt) ↔ IsValid cfg
validate-eq-ok_iff cfg = (validate_inv cfg, validate_of cfg)

-- What a token source asks of STS.
pub record IsReady (ts : Settings) : Type 0 where
  pub lifetime : IsLifetime ts.duration
  pub requested : (token_input ts).duration_seconds ≡ pos lifetime.seconds
  pub algorithm : IsAlgorithm (token_input ts).signing_algorithm
  pub audience : (token_input ts).audience ≡ ts.audience ∷ []
  pub refresh : pos 1 ≤ℤ ts.cache_refresh_before

int32_seconds-lifetime : (n : ℕ) → n ≤ 3600 → int32_seconds (pos (n * second)) ≡ pos n
unfolding int32_seconds signed_32
int32_seconds-lifetime n h = ground arith

-- A zero duration becomes five minutes.
filled_duration :
    (d : ℤ) → (d ≡ pos 0) ⊎ IsLifetime d → IsLifetime (if is_zero d then default_duration else d)
filled_duration d (inl e) =
    rw e (record { seconds = 300; whole = refl; at_least = omega arith; at_most = omega arith })
filled_duration d (inr l) =
    let low = l.at_least in let set : is_zero d ≡ false = rw l.whole (ground arith) in rw set l

filled-IsAlgorithm :
    (alg : Str)
    → (alg ≡ []) ⊎ IsAlgorithm alg
    → IsAlgorithm (if is_empty alg then default_signing_algorithm else alg)
filled-IsAlgorithm [] h = inl refl
filled-IsAlgorithm (c ∷ alg) (inl e) = absurd (cc)
filled-IsAlgorithm (c ∷ alg) (inr h) = h

filled_refresh : (d : ℤ) → pos 0 ≤ℤ d → pos 1 ≤ℤ (if is_zero d then default_refresh_before else d)
filled_refresh d h = ground arith

-- A token source that is built asks STS for one audience, by an algorithm that STS supports, and for a
-- whole number of seconds between one minute and one hour: the division and the conversion to 32 bits
-- lose nothing.
pub new_with_client-IsReady :
    (cfg : Config) {ts : Settings} → new_with_client cfg ≡ ok ts → IsReady ts
unfolding new_with_client token_input
new_with_client-IsReady cfg {ts} h =
    let (_, valid, h1) = >>=-eq-ok (validate cfg) _ h in
    let v = validate_inv cfg valid in
    let l = filled_duration cfg.duration v.duration in
    let same : settings_of cfg ≡ ts = ground arith in
    rw (← same) (record {
      lifetime = l;
      requested = ap int32_seconds l.whole ∙ int32_seconds-lifetime l.seconds l.at_most;
      algorithm = filled-IsAlgorithm cfg.signing_algorithm v.algorithm;
      audience = refl;
      refresh = filled_refresh cfg.cache_refresh_before v.refresh;
    })
