-- ===== src/MockOidc/Exponent.antt =====
-- internal/mockoidc/mockoidc.go: the exponent of a public key, as a JWK has it.
use nats_jwt_callout.Base.{
  ℕ, ◌+◌, ◌-◌, ◌*◌, ◌/◌, ◌%◌, ◌^◌, ◌≤◌, ◌<◌, ◌≡◌, ◌≢◌, inl, inr, refl, ◌∙◌, [], ◌∷◌, Str,
  if◌then◌else◌, eqb, eqb_iff, arith, length, Bool-cases, Empty,
}
use nats_jwt_callout.Base.Int.{ℤ, pos, negsuc}
use nats_jwt_callout.Base64.RoundTrip.{IsBytes}

-- `uint64(e)`
abbrev pub uint64 : ℤ → ℕ
uint64 (pos n) = n % 2 ^ 64
uint64 (negsuc n) = 2 ^ 64 - 1 - n % 2 ^ 64

-- binary.BigEndian.PutUint64
abbrev pub put_uint64 : ℕ → Str
put_uint64 v =
    v / 2 ^ 56 % 256
    ∷ v / 2 ^ 48 % 256
    ∷ v / 2 ^ 40 % 256
    ∷ v / 2 ^ 32 % 256
    ∷ v / 2 ^ 24 % 256
    ∷ v / 2 ^ 16 % 256
    ∷ v / 2 ^ 8 % 256
    ∷ v % 256
    ∷ []

-- `for len(b) > 1 && b[0] == 0`
unfoldable pub drop_zeros : Str → Str
drop_zeros [] = []
drop_zeros (b ∷ []) = b ∷ []
drop_zeros (b ∷ c ∷ s) = let rest = drop_zeros (c ∷ s) in if eqb b 0 then rest else b ∷ c ∷ s

unfoldable pub encode_exponent : ℤ → Str
unfolding drop_zeros
encode_exponent e = drop_zeros (put_uint64 (uint64 e))

-- The number that the bytes write, most significant first; `acc` is what comes before them.
abbrev from_big_endian : ℕ → Str → ℕ
from_big_endian acc [] = acc
from_big_endian acc (b ∷ s) = from_big_endian (acc * 256 + b) s

put_uint64_value : (v : ℕ) → v < 2 ^ 64 → from_big_endian 0 (put_uint64 v) ≡ v
put_uint64_value v h = omega arith

drop_zeros_value : (s : Str) → from_big_endian 0 (drop_zeros s) ≡ from_big_endian 0 s
unfolding drop_zeros
drop_zeros_value [] = refl
drop_zeros_value (b ∷ []) = refl
drop_zeros_value (b ∷ c ∷ s) = elim (Bool-cases (eqb b 0)) [
  | inl zero_byte ↦ rw (zero_byte, (eqb_iff b 0).0 zero_byte) (drop_zeros_value (c ∷ s))
  | inr digit ↦ rw digit refl
]

drop_zeros-IsBytes : (s : Str) → IsBytes s → IsBytes (drop_zeros s)
unfolding drop_zeros
drop_zeros-IsBytes [] h = tt
drop_zeros-IsBytes (b ∷ []) h = h
drop_zeros-IsBytes (b ∷ c ∷ s) h = elim (Bool-cases (eqb b 0)) [
  | inl zero_byte ↦ rw zero_byte (drop_zeros-IsBytes (c ∷ s) h.1)
  | inr digit ↦ rw digit h
]

drop_zeros-length : (s : Str) → length (drop_zeros s) ≤ length s
unfolding drop_zeros
drop_zeros-length [] = omega arith
drop_zeros-length (b ∷ []) = omega arith
drop_zeros-length (b ∷ c ∷ s) = elim (Bool-cases (eqb b 0)) [
  | inl zero_byte ↦ rw zero_byte (omega (arith, drop_zeros-length (c ∷ s)))
  | inr digit ↦ rw digit (omega arith)
]

-- No byte can be left out: there is one, and it is not zero unless it is the only one.
abbrev IsMinimal : Str → Type 0
IsMinimal [] = Empty
IsMinimal (b ∷ []) = Unit
IsMinimal (b ∷ c ∷ s) = b ≢ 0

drop_zeros-IsMinimal : (s : Str) → 1 ≤ length s → IsMinimal (drop_zeros s)
unfolding drop_zeros
drop_zeros-IsMinimal [] h = absurd (omega arith)
drop_zeros-IsMinimal (b ∷ []) h = tt
drop_zeros-IsMinimal (b ∷ c ∷ s) h = elim (Bool-cases (eqb b 0)) [
  | inl zero_byte ↦ rw zero_byte (drop_zeros-IsMinimal (c ∷ s) (omega arith))
  | inr digit ↦ rw digit (λ e. ground arith)
]

uint64_bound : (e : ℤ) → uint64 e < 2 ^ 64
uint64_bound (pos n) = omega arith
uint64_bound (negsuc n) = omega arith

pub record IsExponent (e : ℤ) (s : Str) : Type 0 where
  pub value : from_big_endian 0 s ≡ uint64 e
  pub bytes : IsBytes s
  pub minimal : IsMinimal s
  pub short : length s ≤ 8

-- The bytes of an exponent write it in base 256, most significant first, as an unsigned number of 64
-- bits; there are at least one and at most eight of them, and the first one is zero only where it is
-- the only one.
pub encode_exponent-IsExponent : (e : ℤ) → IsExponent e (encode_exponent e)
unfolding encode_exponent
encode_exponent-IsExponent e = record {
  value = drop_zeros_value (put_uint64 (uint64 e)) ∙ put_uint64_value (uint64 e) (uint64_bound e);
  bytes = drop_zeros-IsBytes (put_uint64 (uint64 e)) (omega arith);
  minimal = drop_zeros-IsMinimal (put_uint64 (uint64 e)) (omega arith);
  short = drop_zeros-length (put_uint64 (uint64 e));
}
