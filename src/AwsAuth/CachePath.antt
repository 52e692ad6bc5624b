-- ===== src/AwsAuth/CachePath.antt =====
-- lib/awsauth/awsauth.go: `DefaultCachePath`. SHA-256, the user's cache directory and path/filepath are
-- parameters.
use nats_jwt_callout.Base.{
  ℕ, zero, suc, ◌+◌, ◌/◌, ◌%◌, ◌<◌, ◌≡◌, ◌≢◌, ◌↔◌, refl, sym, ap, ◌∙◌, false, Option, some, [], ◌∷◌,
  ◌++◌, Str, codes, if◌then◌else◌, ltb, arith, take, All, contains_byte, contains_byte-append_false,
  trim_suffix, trim_suffix-append, Result, ok, ◌>>=◌, or_err,
}
use nats_jwt_callout.Base64.RoundTrip.{IsBytes}

pub data PathError : Type 0 where
  locate_cache_dir : PathError

-- encoding/hex
abbrev hex_digit : ℕ → ℕ
hex_digit n = if ltb n 10 then n + 48 else n + 87

unfoldable pub hex_encode : Str → Str
hex_encode [] = []
hex_encode (b ∷ s) = hex_digit (b / 16) ∷ hex_digit (b % 16) ∷ hex_encode s

-- `sum[:8]`
abbrev pub first_eight : Str → Str
first_eight s = take 8 s

module _ (sum256 : Str → Str) where
  abbrev pub cache_name : Str → Str
  cache_name audience =
      codes "awsauth-" ++ hex_encode (first_eight (sum256 audience)) ++ codes ".jwt"

module _ (sum256 : Str → Str) (join : Str → Str → Str → Str) where
  -- `cache_dir` is what os.UserCacheDir returns.
  unfoldable pub default_cache_path : Option Str → Str → Result PathError Str
  default_cache_path cache_dir audience = do
    dir ← or_err locate_cache_dir cache_dir
    ok (join dir (codes "nats-oidc-callout") (cache_name sum256 audience))

hex_digit_injective : (m n : ℕ) → m < 16 → n < 16 → hex_digit m ≡ hex_digit n → m ≡ n
hex_digit_injective m n hm hn e = ground arith

hex_byte :
    (b c : ℕ)
    → b < 256
    → c < 256
    → hex_digit (b / 16) ≡ hex_digit (c / 16)
    → hex_digit (b % 16) ≡ hex_digit (c % 16)
    → b ≡ c
hex_byte b c hb hc high low =
    let same_high = hex_digit_injective (b / 16) (c / 16) (omega arith) (omega arith) high in
    let same_low = hex_digit_injective (b % 16) (c % 16) (omega arith) (omega arith) low in
    omega (arith, same_high, same_low)

-- Hexadecimal text determines the bytes.
hex_encode_injective :
    (s t : Str) → All (λ b. b < 256) s → All (λ b. b < 256) t → hex_encode s ≡ hex_encode t → s ≡ t
unfolding hex_encode
hex_encode_injective [] [] hs ht e = refl
hex_encode_injective [] (c ∷ t) hs ht e = absurd (cc)
hex_encode_injective (b ∷ s) [] hs ht e = absurd (cc)
hex_encode_injective (b ∷ s) (c ∷ t) (hb, hs) (hc, ht) e =
    let high : hex_digit (b / 16) ≡ hex_digit (c / 16) = cc in
    let low : hex_digit (b % 16) ≡ hex_digit (c % 16) = cc in
    let rest : hex_encode s ≡ hex_encode t = cc in
    let here = hex_byte b c hb hc high low in
    let induction = hex_encode_injective s t hs ht rest in cc

abbrev answer : Str → Result PathError Str
answer path = ok path

answer_injective : {s t : Str} → answer s ≡ answer t → s ≡ t
answer_injective e = cc

take-IsBytes : (n : ℕ) (s : Str) → IsBytes s → IsBytes (take n s)
take-IsBytes zero s h = tt
take-IsBytes (suc n) [] h = tt
take-IsBytes (suc n) (c ∷ s) h = (h.0, take-IsBytes n s h.1)

hex_encode-plain : (s : Str) → contains_byte (hex_encode s) b'/' ≡ false
unfolding hex_encode contains_byte
hex_encode-plain [] = refl
hex_encode-plain (b ∷ s) = ground (arith, hex_encode-plain s)

-- The name of a file in a directory.
pub record IsFileName (s : Str) : Type 0 where
  pub plain : contains_byte s b'/' ≡ false
  pub named : s ≢ []
  pub not_dot : s ≢ codes "."
  pub not_dots : s ≢ codes ".."

module _ (sum256 : Str → Str) where
  cache_name-IsFileName : (audience : Str) → IsFileName (cache_name sum256 audience)
  unfolding contains_byte
  cache_name-IsFileName audience =
      let sum = hex_encode (first_eight (sum256 audience)) in
      record {
        plain =
            contains_byte-append_false sum (codes ".jwt") b'/'
              (hex_encode-plain (first_eight (sum256 audience))) refl;
        named = λ e. absurd (cc);
        not_dot = λ e. absurd (cc);
        not_dots = λ e. absurd (cc);
      }

  cache_name_injective :
      (a b : Str)
      → IsBytes (sum256 a)
      → IsBytes (sum256 b)
      → cache_name sum256 a ≡ cache_name sum256 b
      → first_eight (sum256 a) ≡ first_eight (sum256 b)
  cache_name_injective a b ha hb e =
      let s = hex_encode (first_eight (sum256 a)) in
      let t = hex_encode (first_eight (sum256 b)) in
      let trimmed : codes "awsauth-" ++ s ≡ codes "awsauth-" ++ t =
        sym (trim_suffix-append (codes "awsauth-" ++ s) (codes ".jwt"))
        ∙ ap (λ n. trim_suffix n (codes ".jwt")) e
        ∙ trim_suffix-append (codes "awsauth-" ++ t) (codes ".jwt") in
      let same : s ≡ t = cc in
      hex_encode_injective (first_eight (sum256 a)) (first_eight (sum256 b))
        (take-IsBytes 8 (sum256 a) ha) (take-IsBytes 8 (sum256 b) hb) same

module _ (sum256 : Str → Str) (join : Str → Str → Str → Str) where
  -- Where the cache directory is found, two audiences are given the same path exactly if the first
  -- eight bytes of their digests are the same. Digests are bytes, and joining two file names onto one
  -- directory gives the same path for the same name only.
  pub default_cache_path-eq_iff :
      (dir a b : Str)
      → ((audience : Str) → IsBytes (sum256 audience))
      → ((sub s t : Str) → IsFileName s → IsFileName t → join dir sub s ≡ join dir sub t → s ≡ t)
      → (default_cache_path sum256 join (some dir) a ≡ default_cache_path sum256 join (some dir) b)
        ↔ (first_eight (sum256 a) ≡ first_eight (sum256 b))
  unfolding default_cache_path
  default_cache_path-eq_iff dir a b bytes injective = (
    (λ e.
        let paths = answer_injective e in
        cache_name_injective sum256 a b (bytes a) (bytes b) (
          injective _ (cache_name sum256 a) (cache_name sum256 b) (cache_name-IsFileName sum256 a)
            (cache_name-IsFileName sum256 b) paths)),
    (λ e.
        ap
          (λ s. ok (
            join dir (codes "nats-oidc-callout")
              (codes "awsauth-" ++ hex_encode s ++ codes ".jwt")))
          e),
  )
