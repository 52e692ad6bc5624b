-- ===== src/Base64.antt =====
-- Package encoding/base64 of Go's library, as the program calls it: `RawURLEncoding.DecodeString` of
-- internal/verifier/verifier.go and lib/awsauth/awsauth.go, and `EncodeToString` of
-- internal/mockoidc/mockoidc.go. Newlines are skipped, the alphabet is
-- the one for URLs, there is no padding, and the bits that are left over are not looked at.
pub mod RoundTrip
use nats_jwt_callout.Base.{
  ℕ, ◌+◌, ◌-◌, ◌*◌, ◌/◌, ◌%◌, ◌&&◌, ◌||◌, Option, none, some, [], ◌∷◌, Str, eqb, leb, ltb,
  if◌then◌else◌,
}

unfoldable pub sextet : ℕ → Option ℕ
sextet c =
    if leb b'A' c && leb c b'Z'
    then some (c - 65)
    else if leb b'a' c && leb c b'z'
    then some (c - 71)
    else if leb b'0' c && leb c b'9'
    then some (c + 4)
    else if eqb c b'-'
    then some 62
    else if eqb c b'_'
    then some 63
    else none

unfoldable pub without_newlines : Str → Str
without_newlines [] = []
without_newlines (c ∷ s) =
    let rest = without_newlines s in if eqb c 10 || eqb c 13 then rest else c ∷ rest

infixl 5 ◌>>=◌
abbrev ◌>>=◌ : {A B : Type 0} → Option A → (A → Option B) → Option B
none >>= k = none
some a >>= k = k a

abbrev first_byte : ℕ → ℕ → ℕ
first_byte a b = a * 4 + b / 16

abbrev second_byte : ℕ → ℕ → ℕ
second_byte b c = b % 16 * 16 + c / 4

abbrev third_byte : ℕ → ℕ → ℕ
third_byte c d = c % 4 * 64 + d

unfoldable pub decode_groups : Str → Option Str
unfolding sextet
decode_groups [] = some []
decode_groups (a ∷ []) = none
decode_groups (a ∷ b ∷ []) = do a ← sextet a; b ← sextet b; some (first_byte a b ∷ [])
decode_groups (a ∷ b ∷ c ∷ []) = do
  a ← sextet a
  b ← sextet b
  c ← sextet c
  some (first_byte a b ∷ second_byte b c ∷ [])
decode_groups (a ∷ b ∷ c ∷ d ∷ s) =
    let rest = decode_groups s in
    do
      a ← sextet a
      b ← sextet b
      c ← sextet c
      d ← sextet d
      bytes ← rest
      some (first_byte a b ∷ second_byte b c ∷ third_byte c d ∷ bytes)

unfoldable pub decode_raw_url : Str → Option Str
unfolding decode_groups without_newlines
decode_raw_url s = decode_groups (without_newlines s)

-- The character of a sextet.
unfoldable pub character : ℕ → ℕ
character n =
    if ltb n 26
    then n + 65
    else if ltb n 52
    then n + 71
    else if ltb n 62
    then n - 4
    else if eqb n 62
    then b'-'
    else b'_'

unfoldable pub encode_raw_url : Str → Str
unfolding character
encode_raw_url [] = []
encode_raw_url (a ∷ []) = character (a / 4) ∷ character (a % 4 * 16) ∷ []
encode_raw_url (a ∷ b ∷ []) =
    character (a / 4) ∷ character (a % 4 * 16 + b / 16) ∷ character (b % 16 * 4) ∷ []
encode_raw_url (a ∷ b ∷ c ∷ s) =
    character (a / 4)
    ∷ character (a % 4 * 16 + b / 16)
    ∷ character (b % 16 * 4 + c / 64)
    ∷ character (c % 64)
    ∷ encode_raw_url s
