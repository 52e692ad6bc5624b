-- ===== src/Regexp/Fragment.antt =====
-- A concrete regexp package: it compiles the fragment, and refuses every other expression.
use nats_jwt_callout.Base.{
  ℕ, ◌≡◌, refl, false, Option, none, some, List, [], ◌∷◌, ◌++◌, Str, eqb, if◌then◌else◌, arith,
  append_assoc, append-nil, ap, ◌∙◌,
}
use nats_jwt_callout.Regexp.{
  special, quote_byte, Piece, lit, any_star, begin_text, end_text, Regex, one, or, render_piece,
  render_pieces, render, find, RegexpPackage, IsRegexp,
}

abbrev with_piece : Piece → Option Regex → Option Regex
with_piece e none = none
with_piece e (some (one es)) = some (one (e ∷ es))
with_piece e (some (or es r)) = some (or (e ∷ es) r)

abbrev with_branch : Option Regex → Option Regex
with_branch none = none
with_branch (some r) = some (or [] r)

unfoldable pub parse : Str → Option Regex
parse [] = some (one [])
parse (c ∷ []) =
    if eqb c b'^'
    then some (one (begin_text ∷ []))
    else if eqb c b'$'
    then some (one (end_text ∷ []))
    else if eqb c b'|'
    then some (or [] (one []))
    else if special c
    then none
    else some (one (lit c ∷ []))
parse (c ∷ d ∷ s) =
    let after_two = parse s in
    let after_one = parse (d ∷ s) in
    if eqb c 92
    then (if special d then with_piece (lit d) after_two else none)
    else if eqb c b'.'
    then (if eqb d b'*' then with_piece any_star after_two else none)
    else if eqb c b'^'
    then with_piece begin_text after_one
    else if eqb c b'$'
    then with_piece end_text after_one
    else if eqb c b'|'
    then with_branch after_one
    else if special c
    then none
    else with_piece (lit c) after_one

abbrev prepend : List Piece → Regex → Regex
prepend es (one fs) = one (es ++ fs)
prepend es (or fs r) = or (es ++ fs) r

plain_byte :
    (c : ℕ)
    → special c ≡ false
    → (eqb c 92 ≡ false)
      × (eqb c b'.' ≡ false)
      × (eqb c b'^' ≡ false)
      × (eqb c b'$' ≡ false)
      × (eqb c b'|' ≡ false)
unfolding special
plain_byte c h = ground arith

parse_piece : (e : Piece) (s : Str) → parse (render_piece e ++ s) ≡ with_piece e (parse s)
unfolding parse render_piece quote_byte
parse_piece (lit c) [] = ground (arith, plain_byte c)
parse_piece (lit c) (d ∷ s) = ground (arith, plain_byte c)
parse_piece any_star [] = refl
parse_piece any_star (d ∷ s) = refl
parse_piece begin_text [] = refl
parse_piece begin_text (d ∷ s) = refl
parse_piece end_text [] = refl
parse_piece end_text (d ∷ s) = refl

parse_bar : (s : Str) → parse (b'|' ∷ s) ≡ with_branch (parse s)
unfolding parse
parse_bar [] = refl
parse_bar (d ∷ s) = refl

parse_pieces :
    (es : List Piece) (s : Str) (r : Regex)
    → parse s ≡ some r
    → parse (render_pieces es ++ s) ≡ some (prepend es r)
unfolding render_pieces
parse_pieces [] s (one fs) h = h
parse_pieces [] s (or fs r) h = h
parse_pieces (e ∷ es) s (one fs) h =
    rw (append_assoc (render_piece e) (render_pieces es) s, parse_piece e (render_pieces es ++ s))
      (rw (parse_pieces es s (one fs) h))
parse_pieces (e ∷ es) s (or fs r) h =
    rw (append_assoc (render_piece e) (render_pieces es) s, parse_piece e (render_pieces es ++ s))
      (rw (parse_pieces es s (or fs r) h))

parse-render : (r : Regex) → parse (render r) ≡ some r
unfolding render parse
parse-render (one es) = simp append-nil at (parse_pieces es [] (one []) refl)
parse-render (or es r) = simp append-nil at (
    parse_pieces es (b'|' ∷ render r) (or [] r)
      (parse_bar (render r) ∙ ap with_branch (parse-render r)))

abbrev pub fragment : RegexpPackage
fragment = record { Regexp = Regex; compile = parse; find_string_index = λ r s. find r 0 s }

finds_same : (r re : Regex) (s : Str) → parse (render r) ≡ some re → find re 0 s ≡ find r 0 s
finds_same r re s e = cc (parse-render r)

pub fragment-IsRegexp : IsRegexp fragment
fragment-IsRegexp = record {
  compiles = λ r _. rw (parse-render r);
  finds = λ r {re} _ e s. finds_same r re s e;
}
