-- ===== src/Authz/Sub/Glob.antt =====
-- The expression that `compileSub` writes for a glob: anchored, its literals quoted, `.*` for each
-- star.
pub mod Search
use nats_jwt_callout.Base.{
  ℕ, zero, suc, ◌+◌, ◌<◌, ◌≡◌, refl, sym, ap, ◌∙◌, ◌≢◌, ◌↔◌, ◌⊎◌, inl, inr, Bool, true, false,
  Option, none, some, List, [], ◌∷◌, ◌++◌, Str, codes, eqb, eqb_iff, if◌then◌else◌, length, All,
  arith, append_assoc, append-nil, split, split_nonempty, cons_first, trim_suffix-append,
  Bool-cases, Option-cases,
}
use nats_jwt_callout.Regexp.{
  Piece, lit, any_star, begin_text, end_text, Regex, one, quote_byte, quote_meta, render_piece,
  render_pieces, render, run, find, run_regex, first_some, found_at, newline, IsAscii,
}
use nats_jwt_callout.Authz.Sub.{write_parts, glob_regex}

-- "*" matches any bytes but newlines, every other byte itself, and the whole subject is matched.
pub data GlobMatches : Str → Str → Type 0 where
  done : GlobMatches [] []
  byte : {c d : ℕ} {p s : Str} → c ≢ b'*' → c ≡ d → GlobMatches p s → GlobMatches (c ∷ p) (d ∷ s)
  leave : {c : ℕ} {p s : Str} → c ≡ b'*' → GlobMatches p s → GlobMatches (c ∷ p) s
  take :
      {c d : ℕ} {p s : Str}
      → c ≡ b'*'
      → d ≢ newline
      → GlobMatches (c ∷ p) s
      → GlobMatches (c ∷ p) (d ∷ s)

unfoldable pub piece : ℕ → Piece
piece c = if eqb c b'*' then any_star else lit c

unfoldable pub pieces : Str → List Piece
pieces [] = []
pieces (c ∷ p) = piece c ∷ pieces p

abbrev pub glob_pieces : Str → List Piece
glob_pieces p = begin_text ∷ pieces p ++ end_text ∷ []

-- What the loop writes behind `b`.
written : List Str → Str
written [] = []
written (part ∷ parts) = quote_meta part ++ codes ".*" ++ written parts

write_parts-written : (b : Str) (parts : List Str) → write_parts b parts ≡ b ++ written parts
unfolding write_parts written
write_parts-written b [] = sym (append-nil b)
write_parts-written b (part ∷ parts) =
    write_parts-written ((b ++ quote_meta part) ++ codes ".*") parts ∙ simp append_assoc

written-cons_first :
    (c : ℕ) (part : Str) (parts : List Str)
    → written (cons_first c (part ∷ parts)) ≡ quote_byte c ++ written (part ∷ parts)
unfolding written quote_meta
written-cons_first c part parts = simp append_assoc

written-split_kept :
    (c : ℕ) (p : Str)
    → written (cons_first c (split p b'*')) ≡ quote_byte c ++ written (split p b'*')
written-split_kept c p =
    let (part, parts, e) = split_nonempty p b'*' in rw e (written-cons_first c part parts)

written-split : (p : Str) → written (split p b'*') ≡ render_pieces (pieces p) ++ codes ".*"
unfolding written split render_pieces pieces piece quote_meta render_piece
written-split [] = refl
written-split (c ∷ p) = elim (Bool-cases (eqb c b'*')) [
  | inl star ↦ rw star (rw (written-split p))
  | inr plain ↦ rw plain (
      written-split_kept c p
      ∙ rw (written-split p)
          (sym (append_assoc (quote_byte c) (render_pieces (pieces p)) (codes ".*"))))
]

pub render_pieces-append :
    (es fs : List Piece) → render_pieces (es ++ fs) ≡ render_pieces es ++ render_pieces fs
unfolding render_pieces
render_pieces-append [] fs = refl
render_pieces-append (e ∷ es) fs = simp (append_assoc, render_pieces-append es fs)

-- `compileSub` hands the regexp package exactly the anchored expression of the glob.
pub glob_regex-render : (p : Str) → glob_regex p ≡ render (one (glob_pieces p))
unfolding glob_regex render render_pieces render_piece
glob_regex-render p =
    rw
      (
        write_parts-written (codes "^") (split p b'*'),
        written-split p,
        sym (append_assoc (codes "^") (render_pieces (pieces p)) (codes ".*")),
        trim_suffix-append (codes "^" ++ render_pieces (pieces p)) (codes ".*"),
      )
      (ap (λ t. b'^' ∷ t) (sym (render_pieces-append (pieces p) (end_text ∷ []))))
