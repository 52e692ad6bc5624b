-- ===== src/Base64/RoundTrip.antt =====
-- encoding/base64: what is encoded can be decoded.
use nats_jwt_callout.Base.{
  ℕ, ◌+◌, ◌*◌, ◌/◌, ◌%◌, ◌<◌, ◌≡◌, refl, false, some, [], ◌∷◌, Str, arith, All, eqb, contains_byte,
}
use nats_jwt_callout.Base64.{
  sextet, without_newlines, decode_groups, decode_raw_url, character, encode_raw_url,
}

-- A Go string or byte slice.
abbrev pub IsBytes : Str → Type 0
IsBytes = All (λ c. c < 256)

sextet-character : (n : ℕ) → n < 64 → sextet (character n) ≡ some n
unfolding sextet character
sextet-character n h = ground arith

-- No character of the alphabet is a newline or a dot.
character-IsPlain :
    (n : ℕ)
    → (eqb (character n) 10 ≡ false)
      × (eqb (character n) 13 ≡ false)
      × (eqb (character n) b'.' ≡ false)
unfolding character
character-IsPlain n = ground arith

decode_groups-encode_raw_url : (s : Str) → IsBytes s → decode_groups (encode_raw_url s) ≡ some s
unfolding decode_groups encode_raw_url
decode_groups-encode_raw_url [] h = refl
decode_groups-encode_raw_url (a ∷ []) (ha, _) =
    rw (sextet-character (a / 4) (omega arith), sextet-character (a % 4 * 16) (omega arith))
      (ground arith)
decode_groups-encode_raw_url (a ∷ b ∷ []) (ha, (hb, _)) =
    rw
      (
        sextet-character (a / 4) (omega arith),
        sextet-character (a % 4 * 16 + b / 16) (omega arith),
        sextet-character (b % 16 * 4) (omega arith),
      )
      (ground arith)
decode_groups-encode_raw_url (a ∷ b ∷ c ∷ s) (ha, (hb, (hc, hs))) =
    rw
      (
        sextet-character (a / 4) (omega arith),
        sextet-character (a % 4 * 16 + b / 16) (omega arith),
        sextet-character (b % 16 * 4 + c / 64) (omega arith),
        sextet-character (c % 64) (omega arith),
        decode_groups-encode_raw_url s hs,
      )
      (ground arith)

without_newlines-character :
    (n : ℕ) (s : Str) → without_newlines (character n ∷ s) ≡ character n ∷ without_newlines s
unfolding without_newlines
without_newlines-character n s = ground (arith, character-IsPlain n)

without_newlines-nil : without_newlines [] ≡ []
unfolding without_newlines
without_newlines-nil = refl

without_newlines-encode_raw_url : (s : Str) → without_newlines (encode_raw_url s) ≡ encode_raw_url s
unfolding encode_raw_url
without_newlines-encode_raw_url [] = without_newlines-nil
without_newlines-encode_raw_url (a ∷ []) =
    rw (without_newlines-character, without_newlines-character, without_newlines-nil) refl
without_newlines-encode_raw_url (a ∷ b ∷ []) =
    rw
      (
        without_newlines-character, without_newlines-character, without_newlines-character,
        without_newlines-nil,
      )
      refl
without_newlines-encode_raw_url (a ∷ b ∷ c ∷ s) =
    rw
      (
        without_newlines-character,
        without_newlines-character,
        without_newlines-character,
        without_newlines-character,
        without_newlines-encode_raw_url s,
      )
      refl

-- Decoding gives back the bytes that were encoded.
pub decode_raw_url-encode_raw_url :
    (s : Str) → IsBytes s → decode_raw_url (encode_raw_url s) ≡ some s
unfolding decode_raw_url
decode_raw_url-encode_raw_url s h =
    rw (without_newlines-encode_raw_url s, decode_groups-encode_raw_url s h) refl

contains_byte-character :
    (n : ℕ) (s : Str) → contains_byte (character n ∷ s) b'.' ≡ contains_byte s b'.'
unfolding contains_byte
contains_byte-character n s = ground (arith, character-IsPlain n)

contains_byte-nil : contains_byte [] b'.' ≡ false
unfolding contains_byte
contains_byte-nil = refl

-- What is encoded has no dot in it.
pub contains_byte-encode_raw_url : (s : Str) → contains_byte (encode_raw_url s) b'.' ≡ false
unfolding encode_raw_url
contains_byte-encode_raw_url [] = contains_byte-nil
contains_byte-encode_raw_url (a ∷ []) =
    rw (contains_byte-character, contains_byte-character) contains_byte-nil
contains_byte-encode_raw_url (a ∷ b ∷ []) =
    rw (contains_byte-character, contains_byte-character, contains_byte-character) contains_byte-nil
contains_byte-encode_raw_url (a ∷ b ∷ c ∷ s) =
    rw
      (
        contains_byte-character, contains_byte-character, contains_byte-character,
        contains_byte-character,
      )
      (contains_byte-encode_raw_url s)
