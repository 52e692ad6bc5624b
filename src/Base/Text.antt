-- ===== src/Base/Text.antt =====
-- A Go string is its bytes. The functions are those of package strings that the program calls.
use Prim.Native.Nat.{ℕ, zero, suc, ◌+◌, ◌/◌, ◌%◌}
use Prim.Native.Char.{code}
use Prim.Native.String.{String}
use mathlib.Core.Path.{◌≡◌, refl}
use mathlib.Core.Logic.{◌↔◌, ◌≢◌, inl, inr}
use mathlib.Core.Bool.{Bool, true, false, ◌&&◌}
use mathlib.Core.Option.{Option, none, some}
use mathlib.Core.List.{List, [], ◌∷◌, ◌++◌, reverse, reverse-append, reverse-reverse}
use native.Mathlib.Omega.{arith}
use nats_jwt_callout.Base.Tests.{eqb, eqb_iff, if◌then◌else◌, Bool-cases}

abbrev pub Str : Type 0
Str = List ℕ

-- The bytes of a text, if it is ASCII.
abbrev pub codes : String → Str
codes String.[] = []
codes (String.◌∷◌ c s) = code c ∷ codes s

infix 50 ◌==◌
unfoldable pub ◌==◌ : Str → Str → Bool
[] == [] = true
[] == (d ∷ t) = false
(c ∷ s) == [] = false
(c ∷ s) == (d ∷ t) = eqb c d && (s == t)

pub ==_iff : (s t : Str) → ((s == t) ≡ true) ↔ (s ≡ t)
unfolding ◌==◌
==_iff [] [] = ground arith
==_iff [] (d ∷ t) = ground arith
==_iff (c ∷ s) [] = ground arith
==_iff (c ∷ s) (d ∷ t) = ground (arith, ==_iff s t)

pub ==_refl : (s : Str) → (s == s) ≡ true
==_refl s = (==_iff s s).1 refl

-- `s == ""`
abbrev pub is_empty : Str → Bool
is_empty [] = true
is_empty (c ∷ s) = false

pub is_empty_iff : (s : Str) → (is_empty s ≡ true) ↔ (s ≡ [])
is_empty_iff [] = ground arith
is_empty_iff (c ∷ s) = ground arith

pub is_empty-false_iff : (s : Str) → (is_empty s ≡ false) ↔ (s ≢ [])
is_empty-false_iff [] = ground arith
is_empty-false_iff (c ∷ s) = ground arith

-- strings.CutPrefix; `none` is its `false`.
unfoldable pub cut_prefix : Str → Str → Option Str
cut_prefix s [] = some s
cut_prefix [] (d ∷ p) = none
cut_prefix (c ∷ s) (d ∷ p) = let rest = cut_prefix s p in if eqb c d then rest else none

abbrev pub is_some {ℓ} : {A : Type ℓ} → Option A → Bool
is_some none = false
is_some (some a) = true

abbrev pub or_else {ℓ} : {A : Type ℓ} → Option A → A → A
or_else none d = d
or_else (some a) d = a

unfoldable pub has_prefix : Str → Str → Bool
unfolding cut_prefix
has_prefix s p = is_some (cut_prefix s p)

unfoldable pub trim_prefix : Str → Str → Str
unfolding cut_prefix
trim_prefix s p = or_else (cut_prefix s p) s

unfoldable pub has_suffix : Str → Str → Bool
unfolding has_prefix
has_suffix s p = has_prefix (reverse s) (reverse p)

abbrev reversed_or : Str → Option Str → Str
reversed_or s none = s
reversed_or s (some rest) = reverse rest

unfoldable pub trim_suffix : Str → Str → Str
unfolding cut_prefix
trim_suffix s p = reversed_or s (cut_prefix (reverse s) (reverse p))

pub cut_prefix-append : (p s : Str) → cut_prefix (p ++ s) p ≡ some s
unfolding cut_prefix
cut_prefix-append [] s = refl
cut_prefix-append (c ∷ p) s = ground (arith, cut_prefix-append p s)

pub cut_prefix-eq-some : (s p : Str) {r : Str} → cut_prefix s p ≡ some r → s ≡ p ++ r
unfolding cut_prefix
cut_prefix-eq-some s [] h = ground arith
cut_prefix-eq-some [] (d ∷ p) h = ground arith
cut_prefix-eq-some (c ∷ s) (d ∷ p) {r} h = ground (arith, cut_prefix-eq-some s p {r = r})

pub trim_suffix-append : (s p : Str) → trim_suffix (s ++ p) p ≡ s
unfolding trim_suffix
trim_suffix-append s p =
    rw (trim_suffix, reverse-append s p, cut_prefix-append (reverse p) (reverse s))
      (reverse-reverse s)

pub has_suffix-append : (s p : Str) → has_suffix (s ++ p) p ≡ true
unfolding has_suffix has_prefix
has_suffix-append s p = rw (reverse-append s p, cut_prefix-append (reverse p) (reverse s)) refl

-- A suffix that another text ends in is not there to trim.
pub trim_suffix-append_other :
    (s t p : Str)
    → cut_prefix (reverse t ++ reverse s) (reverse p) ≡ none
    → trim_suffix (s ++ t) p ≡ s ++ t
unfolding trim_suffix
trim_suffix-append_other s t p h = rw (reverse-append s t, h)

-- strings.Contains with a separator of one byte
unfoldable pub contains_byte : Str → ℕ → Bool
contains_byte [] d = false
contains_byte (c ∷ s) d = let rest = contains_byte s d in if eqb c d then true else rest

pub contains_byte-append_false :
    (s t : Str) (c : ℕ)
    → contains_byte s c ≡ false
    → contains_byte t c ≡ false
    → contains_byte (s ++ t) c ≡ false
unfolding contains_byte
contains_byte-append_false [] t c h k = k
contains_byte-append_false (d ∷ s) t c h k = ground (arith, contains_byte-append_false s t c)

abbrev pub cons_first : ℕ → List Str → List Str
cons_first c [] = (c ∷ []) ∷ []
cons_first c (part ∷ parts) = (c ∷ part) ∷ parts

-- strings.Split with a separator of one byte
unfoldable pub split : Str → ℕ → List Str
split [] sep = [] ∷ []
split (c ∷ s) sep = let rest = split s sep in if eqb c sep then [] ∷ rest else cons_first c rest

pub split_nonempty :
    (s : Str) (sep : ℕ) → (part : Str) × (parts : List Str) × (split s sep ≡ part ∷ parts)
unfolding split
split_nonempty [] sep = ([], [], refl)
split_nonempty (c ∷ s) sep = elim (Bool-cases (eqb c sep)) [
  | inl cut ↦ ([], split s sep, rw cut)
  | inr kept ↦ let (part, parts, e) = split_nonempty s sep in (c ∷ part, parts, rw (kept, e))
]

pub split_whole : (s : Str) (sep : ℕ) → contains_byte s sep ≡ false → split s sep ≡ s ∷ []
unfolding split contains_byte
split_whole [] sep h = refl
split_whole (c ∷ s) sep h = elim (Bool-cases (eqb c sep)) [
  | inl cut ↦ absurd (ground arith)
  | inr kept ↦ rw (kept, split_whole s sep (rw kept at h)) refl
]

pub split-append :
    (s t : Str) (sep : ℕ) → contains_byte s sep ≡ false → split (s ++ sep ∷ t) sep ≡ s ∷ split t sep
unfolding split contains_byte
split-append [] t sep h = rw ((eqb_iff sep sep).1 refl) refl
split-append (c ∷ s) t sep h = elim (Bool-cases (eqb c sep)) [
  | inl cut ↦ absurd (ground arith)
  | inr kept ↦ rw (kept, split-append s t sep (rw kept at h)) refl
]

-- strings.SplitN with a separator of one byte: `suc n` is the most parts that it makes.
unfoldable pub split_n : Str → ℕ → ℕ → List Str
split_n s sep zero = []
split_n s sep (suc zero) = s ∷ []
split_n [] sep (suc (suc n)) = [] ∷ []
split_n (c ∷ s) sep (suc (suc n)) =
    let cut = split_n s sep (suc n) in
    let rest = split_n s sep (suc (suc n)) in if eqb c sep then [] ∷ cut else cons_first c rest

-- `%d` of a number that is not negative
decimal_from : ℕ → ℕ → Str → Str
decimal_from zero n out = out
decimal_from (suc f) n out =
    let digit = b'0' + n % 10 in
    let rest = decimal_from f (n / 10) (digit ∷ out) in if eqb (n / 10) 0 then digit ∷ out else rest

unfoldable pub decimal : ℕ → Str
unfolding decimal_from
decimal n = decimal_from (suc n) n []
