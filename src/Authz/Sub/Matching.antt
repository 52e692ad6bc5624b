-- ===== src/Authz/Sub/Matching.antt =====
-- What a compiled subject pattern matches.
use nats_jwt_callout.Base.{
  ℕ, ◌<◌, ◌≡◌, refl, ◌≢◌, ◌↔◌, inl, inr, true, false, none, some, [], ◌∷◌, Str, codes, eqb, All,
  All-append, arith, Bool-cases, Option-cases, ok, is_empty, cut_prefix, contains_byte,
}
use nats_jwt_callout.Regexp.{
  end_text, Regex, one, IsAscii, AllAscii, RegexpPackage, IsRegexp, find, render,
}
use nats_jwt_callout.Authz.Sub.{compile_glob, compile_sub, sub_matches}
use nats_jwt_callout.Authz.Sub.Glob.{
  GlobMatches, done, byte, leave, take, piece, pieces, glob_pieces, glob_regex-render,
}
use nats_jwt_callout.Authz.Sub.Glob.Search.{find-glob}

abbrev pub IsAsciiText : Str → Type 0
IsAsciiText s = All (λ c. c < 128) s

-- A pattern that is neither empty nor a regular expression.
pub record IsGlob (pattern : Str) : Type 0 where
  pub not_empty : pattern ≢ []
  pub no_re : cut_prefix pattern (codes "re:") ≡ none

piece-IsAscii : (c : ℕ) → c < 128 → IsAscii (piece c)
unfolding piece
piece-IsAscii c h = elim (Bool-cases (eqb c b'*')) [
  | inl star ↦ rw star tt
  | inr plain ↦ rw plain h
]

pieces-IsAscii : (p : Str) → IsAsciiText p → All IsAscii (pieces p)
unfolding pieces
pieces-IsAscii [] h = tt
pieces-IsAscii (c ∷ p) h = (piece-IsAscii c h.0, pieces-IsAscii p h.1)

pub glob_pieces-IsAscii : (p : Str) → IsAsciiText p → AllAscii (one (glob_pieces p))
glob_pieces-IsAscii p h =
    (tt, All-append IsAscii (pieces p) (end_text ∷ []) (pieces-IsAscii p h) (tt, tt))

is_empty_of_ne : (s : Str) → s ≢ [] → is_empty s ≡ false
is_empty_of_ne [] h = absurd (h refl)
is_empty_of_ne (c ∷ s) h = refl

GlobMatches-exact : {p s : Str} → GlobMatches p s → contains_byte p b'*' ≡ false → s ≡ p
unfolding contains_byte
GlobMatches-exact done h = refl
GlobMatches-exact (byte {c} {d} {p} {s} plain same m) h = cc (GlobMatches-exact m (ground arith))
GlobMatches-exact (leave star m) h = absurd (ground arith)
GlobMatches-exact (take star other m) h = absurd (ground arith)

GlobMatches-refl : (p : Str) → contains_byte p b'*' ≡ false → GlobMatches p p
unfolding contains_byte
GlobMatches-refl [] h = done
GlobMatches-refl (c ∷ p) h = byte (ground arith) refl (GlobMatches-refl p (ground arith))

-- A glob with no star accepts only its own text.
pub GlobMatches-exact_iff : (p s : Str) → contains_byte p b'*' ≡ false → GlobMatches p s ↔ (s ≡ p)
GlobMatches-exact_iff p s h = (λ m. GlobMatches-exact m h, λ e. rw e (GlobMatches-refl p h))

module _ (re : RegexpPackage) (h : IsRegexp re) where
  pub compile-render : (r : Regex) → AllAscii r → (m : re.Regexp) × (re.compile (render r) ≡ some m)
  compile-render r ascii = elim (Option-cases (re.compile (render r))) [
    | inl refused ↦ let compiles = h.compiles r ascii in absurd (ground arith)
    | inr found ↦ found
  ]

  spans_iff :
      (p s : Str) (m : re.Regexp)
      → re.find_string_index m s ≡ find (one (glob_pieces p)) 0 s
      → (sub_matches re (some m) s ≡ true) ↔ GlobMatches p s
  unfolding sub_matches
  spans_iff p s m e = elim (find-glob p s) [
    | inl (d, at_all) ↦ (λ _. d, λ _. rw (e, at_all) (ground arith))
    | inr (never, missed) ↦ (λ spanned. absurd (ground arith), λ d. absurd (never d))
  ]

  -- A glob pattern always compiles, and its matcher accepts a subject exactly if the glob matches all
  -- of it. The pattern is ASCII; the subject is any bytes.
  pub compile_sub-glob :
      (p : Str)
      → IsGlob p
      → IsAsciiText p
      → (m : re.Regexp) × (compile_sub re p ≡ ok (some m))
        × ((s : Str) → (sub_matches re (some m) s ≡ true) ↔ GlobMatches p s)
  unfolding compile_sub compile_glob
  compile_sub-glob p glob ascii =
      let (m, e) = compile-render (one (glob_pieces p)) (glob_pieces-IsAscii p ascii) in
      (
        m,
        rw (is_empty_of_ne p glob.not_empty, glob.no_re, glob_regex-render p, e),
        λ s. spans_iff p s m (h.finds (one (glob_pieces p)) (glob_pieces-IsAscii p ascii) e s),
      )
