-- ===== src/Authz/Sub/Glob/Search.antt =====
-- What the leftmost-first search finds for the expression of a glob.
use nats_jwt_callout.Base.{
  ℕ, suc, ◌+◌, ◌≡◌, refl, sym, ap, ◌∙◌, ◌≢◌, ◌⊎◌, inl, inr, true, false, Option, none, some, List,
  [], ◌∷◌, ◌++◌, Str, eqb, eqb_iff, length, arith, Bool-cases, Option-cases,
}
use nats_jwt_callout.Regexp.{
  Piece, lit, any_star, begin_text, end_text, one, run, find, first_some, found_at, newline,
}
use nats_jwt_callout.Authz.Sub.Glob.{
  GlobMatches, done, byte, leave, take, piece, pieces, glob_pieces,
}

abbrev pub glob_tail : Str → List Piece
glob_tail p = pieces p ++ end_text ∷ []

piece_star : (c : ℕ) → eqb c b'*' ≡ true → piece c ≡ any_star
unfolding piece
piece_star c h = rw h

piece_plain : (c : ℕ) → eqb c b'*' ≡ false → piece c ≡ lit c
unfolding piece
piece_plain c h = rw h

-- The three moves of the search at a star.
run-star_end : (es : List Piece) (i : ℕ) → run (any_star ∷ es) i [] ≡ run es i []
unfolding run
run-star_end es i = refl

run-star_newline :
    (es : List Piece) (i x : ℕ) (s : Str)
    → eqb x newline ≡ true
    → run (any_star ∷ es) i (x ∷ s) ≡ run es i (x ∷ s)
unfolding run
run-star_newline es i x s h = rw h

run-star_other :
    (es : List Piece) (i x : ℕ) (s : Str)
    → eqb x newline ≡ false
    → run (any_star ∷ es) i (x ∷ s) ≡ first_some (run (any_star ∷ es) (suc i) s) (run es i (x ∷ s))
unfolding run
run-star_other es i x s h = rw h

first_some_inv : (o p : Option ℕ) {j : ℕ} → first_some o p ≡ some j → (o ≡ some j) ⊎ (p ≡ some j)
first_some_inv none p h = inr h
first_some_inv (some k) p h = inl h

run-lit_inv :
    (es : List Piece) (c i x : ℕ) (s : Str) {j : ℕ}
    → run (lit c ∷ es) i (x ∷ s) ≡ some j
    → (c ≡ x) × (run es (suc i) s ≡ some j)
unfolding run
run-lit_inv es c i x s h = ground arith

-- A star that meets a byte leaves it, or takes it if it is no newline.
run-star_inv :
    (es : List Piece) (i x : ℕ) (s : Str) {j : ℕ}
    → run (any_star ∷ es) i (x ∷ s) ≡ some j
    → ((x ≢ newline) × (run (any_star ∷ es) (suc i) s ≡ some j)) ⊎ (run es i (x ∷ s) ≡ some j)
run-star_inv es i x s {j} h = elim (Bool-cases (eqb x newline)) [
  | inl stop ↦ inr (sym (run-star_newline es i x s stop) ∙ h)
  | inr other ↦ elim (first_some_inv _ _ {j = j} (sym (run-star_other es i x s other) ∙ h)) [
    | inl taken ↦ inl (ground arith, taken)
    | inr left ↦ inr left
  ]
]

run-tail_star :
    (p : Str) (c i : ℕ) (s : Str)
    → eqb c b'*' ≡ true
    → run (glob_tail (c ∷ p)) i s ≡ run (any_star ∷ glob_tail p) i s
unfolding pieces
run-tail_star p c i s star = rw (piece_star c star)

run-tail_plain :
    (p : Str) (c i : ℕ) (s : Str)
    → eqb c b'*' ≡ false
    → run (glob_tail (c ∷ p)) i s ≡ run (lit c ∷ glob_tail p) i s
unfolding pieces
run-tail_plain p c i s plain = rw (piece_plain c plain)

abbrev pub SpansTo : Str → ℕ → Str → ℕ → Type 0
SpansTo p i s j = GlobMatches p s × (j ≡ i + length s)

pub run_sound :
    (p : Str) (i : ℕ) (s : Str) {j : ℕ} → run (glob_tail p) i s ≡ some j → SpansTo p i s j
unfolding run pieces
run_sound [] i [] h = (done, ground arith)
run_sound [] i (x ∷ s) h = ground arith
run_sound (c ∷ p) i [] h = elim (Bool-cases (eqb c b'*')) [
  | inl star ↦
      let (d, e) = run_sound p i [] (sym (run-tail_star p c i [] star) ∙ h) in
      (leave ((eqb_iff c b'*').0 star) d, e)
  | inr plain ↦ absurd (ground (arith, run-tail_plain p c i [] plain))
]
run_sound (c ∷ p) i (x ∷ s) {j} h = elim (Bool-cases (eqb c b'*')) [
  | inl star ↦
      elim (run-star_inv (glob_tail p) i x s (sym (run-tail_star p c i (x ∷ s) star) ∙ h)) [
        | inl (other, taken) ↦
            let (d, e) = run_sound (c ∷ p) (suc i) s (run-tail_star p c (suc i) s star ∙ taken) in
            (take ((eqb_iff c b'*').0 star) other d, omega arith)
        | inr left ↦
            let (d, e) = run_sound p i (x ∷ s) left in (leave ((eqb_iff c b'*').0 star) d, e)
      ]
  | inr plain ↦
      let (same, rest) =
        run-lit_inv (glob_tail p) c i x s (sym (run-tail_plain p c i (x ∷ s) plain) ∙ h) in
      let (d, e) = run_sound p (suc i) s rest in (byte (ground arith) same d, omega arith)
]

-- Whichever branch of a star the search prefers, the whole text is spanned.
star_either :
    (o p : Option ℕ) (k : ℕ)
    → ((j : ℕ) → o ≡ some j → j ≡ k)
    → (o ≡ some k) ⊎ (p ≡ some k)
    → first_some o p ≡ some k
star_either none p k agree (inl h) = absurd (cc)
star_either none p k agree (inr h) = h
star_either (some j) p k agree h = ap some (agree j refl)

run-star_left :
    (p : Str) (c i x : ℕ) (s : Str)
    → eqb c b'*' ≡ true
    → run (glob_tail p) i (x ∷ s) ≡ some (i + length (x ∷ s))
    → run (any_star ∷ glob_tail p) i (x ∷ s) ≡ some (i + length (x ∷ s))
run-star_left p c i x s star h = elim (Bool-cases (eqb x newline)) [
  | inl stop ↦ run-star_newline (glob_tail p) i x s stop ∙ h
  | inr other ↦
      run-star_other (glob_tail p) i x s other
      ∙ star_either _ _ _
          (λ j e.
            let (d, at_end) = run_sound (c ∷ p) (suc i) s (run-tail_star p c (suc i) s star ∙ e) in
            omega arith)
          (inr h)
]

run_leave :
    (p : Str) (c i : ℕ) (s : Str)
    → eqb c b'*' ≡ true
    → run (glob_tail p) i s ≡ some (i + length s)
    → run (glob_tail (c ∷ p)) i s ≡ some (i + length s)
run_leave p c i [] star h = run-tail_star p c i [] star ∙ run-star_end (glob_tail p) i ∙ h
run_leave p c i (x ∷ s) star h = run-tail_star p c i (x ∷ s) star ∙ run-star_left p c i x s star h

run_take :
    (p : Str) (c i x : ℕ) (s : Str)
    → eqb c b'*' ≡ true
    → x ≢ newline
    → run (glob_tail (c ∷ p)) (suc i) s ≡ some (suc i + length s)
    → run (glob_tail (c ∷ p)) i (x ∷ s) ≡ some (i + length (x ∷ s))
run_take p c i x s star other h =
    run-tail_star p c i (x ∷ s) star
    ∙ run-star_other (glob_tail p) i x s (ground arith)
    ∙ ground (arith, run-tail_star p c (suc i) s star)

run_byte :
    (p : Str) (c i x : ℕ) (s : Str)
    → c ≢ b'*'
    → c ≡ x
    → run (glob_tail p) (suc i) s ≡ some (suc i + length s)
    → run (glob_tail (c ∷ p)) i (x ∷ s) ≡ some (i + length (x ∷ s))
unfolding run
run_byte p c i x s plain same h = run-tail_plain p c i (x ∷ s) (ground arith) ∙ ground arith

pub run_complete :
    {p s : Str} → GlobMatches p s → (i : ℕ) → run (glob_tail p) i s ≡ some (i + length s)
unfolding run pieces
run_complete done i = ground arith
run_complete (byte {c} {d} {p} {s} plain same m) i =
    run_byte p c i d s plain same (run_complete m (suc i))
run_complete (leave {c} {p} {s} star m) i =
    run_leave p c i s ((eqb_iff c b'*').1 star) (run_complete m i)
run_complete (take {c} {d} {p} {s} star other m) i =
    run_take p c i d s ((eqb_iff c b'*').1 star) other (run_complete m (suc i))

find-anchored_later :
    (es : List Piece) (i : ℕ) (s : Str) → find (one (begin_text ∷ es)) (suc i) s ≡ none
unfolding find run
find-anchored_later es i [] = refl
find-anchored_later es i (x ∷ s) = find-anchored_later es (suc i) s

find-anchored :
    (es : List Piece) (s : Str) → find (one (begin_text ∷ es)) 0 s ≡ found_at 0 (run es 0 s) none
unfolding find run
find-anchored es [] = refl
find-anchored es (x ∷ s) = rw (find-anchored_later es 0 s)

-- The anchored expression is found at the whole text, or nowhere.
pub find-glob :
    (p s : Str)
    → (GlobMatches p s × (find (one (glob_pieces p)) 0 s ≡ some (0, length s)))
      ⊎ ((¬ GlobMatches p s) × (find (one (glob_pieces p)) 0 s ≡ none))
find-glob p s = elim (Option-cases (run (glob_tail p) 0 s)) [
  | inl missed ↦
      inr (λ m. ground (arith, run_complete m 0), find-anchored (glob_tail p) s ∙ rw missed)
  | inr (j, found) ↦
      let (d, e) = run_sound p 0 s found in
      inl (d, find-anchored (glob_tail p) s ∙ rw found (ground arith))
]
