-- ===== src/Regexp.antt =====
-- Package regexp of Go's library, as internal/authz/authz.go calls it: Compile, FindStringIndex and
-- QuoteMeta. Compile and FindStringIndex are an interface. Its law speaks of the expressions that
-- are made of ASCII literals, `.*`, `^` and `$`, in alternatives joined by `|`.
pub mod Fragment
use nats_jwt_callout.Base.{
  ℕ, zero, suc, ◌+◌, ◌<◌, ◌≡◌, Bool, true, false, ◌||◌, Option, none, some, List, [], ◌∷◌, ◌++◌,
  Str, is_some, eqb, if◌then◌else◌, All,
}

-- Go's QuoteMeta escapes these: \.+*?()|[]{}^$
unfoldable pub special : ℕ → Bool
special c =
    eqb c 92
    || eqb c b'.'
    || eqb c b'+'
    || eqb c b'*'
    || eqb c b'?'
    || eqb c b'('
    || eqb c b')'
    || eqb c b'|'
    || eqb c b'['
    || eqb c b']'
    || eqb c b'{'
    || eqb c b'}'
    || eqb c b'^'
    || eqb c b'$'

unfoldable pub quote_byte : ℕ → Str
unfolding special
quote_byte c = if special c then 92 ∷ c ∷ [] else c ∷ []

unfoldable pub quote_meta : Str → Str
unfolding quote_byte
quote_meta [] = []
quote_meta (c ∷ s) = quote_byte c ++ quote_meta s

-- `lit c` stands for one byte, `any_star` for `.*`.
pub data Piece : Type 0 where
  lit : ℕ → Piece
  any_star begin_text end_text : Piece

pub data Regex : Type 0 where
  one : List Piece → Regex
  or : List Piece → Regex → Regex

unfoldable pub render_piece : Piece → Str
unfolding quote_byte
render_piece (lit c) = quote_byte c
render_piece any_star = b'.' ∷ b'*' ∷ []
render_piece begin_text = b'^' ∷ []
render_piece end_text = b'$' ∷ []

unfoldable pub render_pieces : List Piece → Str
unfolding render_piece
render_pieces [] = []
render_pieces (e ∷ es) = render_piece e ++ render_pieces es

unfoldable pub render : Regex → Str
unfolding render_pieces
render (one es) = render_pieces es
render (or es r) = render_pieces es ++ b'|' ∷ render r

abbrev pub newline : ℕ
newline = 10

abbrev pub first_some : Option ℕ → Option ℕ → Option ℕ
first_some none other = other
first_some (some j) other = some j

-- Matching from offset `i`, where `s` is left: the end of the match that the search prefers. `.*`
-- takes as much as it can first, and `.` is any byte but a newline.
unfoldable pub run : List Piece → ℕ → Str → Option ℕ
run [] i s = some i
run (lit c ∷ es) i [] = none
run (lit c ∷ es) i (x ∷ s) = let rest = run es (suc i) s in if eqb c x then rest else none
run (begin_text ∷ es) zero s = run es zero s
run (begin_text ∷ es) (suc i) s = none
run (end_text ∷ es) i [] = run es i []
run (end_text ∷ es) i (x ∷ s) = none
run (any_star ∷ es) i [] = run es i []
run (any_star ∷ es) i (x ∷ s) =
    let here = run es i (x ∷ s) in
    let more = run (any_star ∷ es) (suc i) s in if eqb x newline then here else first_some more here

unfoldable pub run_regex : Regex → ℕ → Str → Option ℕ
unfolding run
run_regex (one es) i s = run es i s
run_regex (or es r) i s = first_some (run es i s) (run_regex r i s)

abbrev pub found_at : ℕ → Option ℕ → Option (ℕ × ℕ) → Option (ℕ × ℕ)
found_at i none later = later
found_at i (some j) later = some (i, j)

-- The leftmost start at which there is a match.
unfoldable pub find : Regex → ℕ → Str → Option (ℕ × ℕ)
unfolding run_regex
find r i [] = found_at i (run_regex r i []) none
find r i (x ∷ s) = let later = find r (suc i) s in found_at i (run_regex r i (x ∷ s)) later

abbrev pub IsAscii : Piece → Type 0
IsAscii (lit c) = c < 128
IsAscii _ = Unit

abbrev pub AllAscii : Regex → Type 0
AllAscii (one es) = All IsAscii es
AllAscii (or es r) = All IsAscii es × AllAscii r

pub record RegexpPackage : Type 1 where
  pub Regexp : Type 0
  pub compile : Str → Option Regexp
  pub find_string_index : Regexp → Str → Option (ℕ × ℕ)

-- What the documentation of regexp/syntax says of the fragment.
pub record IsRegexp (p : RegexpPackage) : Type 0 where
  pub compiles : (r : Regex) → AllAscii r → is_some (p.compile (render r)) ≡ true
  pub finds :
      (r : Regex) {re : p.Regexp}
      → AllAscii r
      → p.compile (render r) ≡ some re
      → (s : Str) → p.find_string_index re s ≡ find r 0 s
