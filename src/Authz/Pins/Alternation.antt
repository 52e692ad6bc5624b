-- ===== src/Authz/Pins/Alternation.antt =====
-- A regular expression that the guardrail counts as pinning an account, and that accepts everything.
use nats_jwt_callout.Base.{
  ℕ, ◌<◌, ◌≡◌, refl, sym, ap, ◌∙◌, inl, inr, true, false, some, [], ◌∷◌, ◌++◌, Str, codes, eqb, all,
  All, All-append, length, cut_prefix, has_prefix, has_suffix, has_suffix-append, trim_prefix,
  trim_suffix-append, contains_byte, append_assoc, append-nil, arith, Option-cases, ok,
}
use nats_jwt_callout.Regexp.{
  special, quote_byte, end_text, Regex, one, or, render_piece, render_pieces, render, run,
  run_regex, find, newline, AllAscii, RegexpPackage, IsRegexp,
}
use nats_jwt_callout.Authz.Sub.{compile_regex, compile_sub, sub_matches}
use nats_jwt_callout.Authz.Sub.Glob.{
  GlobMatches, done, piece, pieces, glob_pieces, render_pieces-append,
}
use nats_jwt_callout.Authz.Sub.Glob.Search.{glob_tail, run_sound, run_complete}
use nats_jwt_callout.Authz.Sub.Matching.{IsAsciiText, glob_pieces-IsAscii, compile-render}
use nats_jwt_callout.Authz.Pins.{is_digit, is_aws_account_id, bare_pattern, account_pinned_in_arn}
use nats_jwt_callout.Authz.Pins.Account.{field, get_elem?-split_n}
use nats_jwt_callout.Authz.Pins.Guardrail.{field-account, digits_of_id, GlobMatches-stretch}

abbrev role_text : Str → Str
role_text pinned = codes "arn:aws:iam::" ++ (pinned ++ codes ":role/x")

-- `^arn:aws:iam::<pinned>:role/x$|.*$`
abbrev pub either_regex : Str → Str
either_regex pinned = codes "^arn:aws:iam::" ++ (pinned ++ codes ":role/x$|.*$")

abbrev either : Str → Regex
either t = or (glob_pieces t) (one (glob_tail (codes "*")))

-- Bytes that QuoteMeta leaves alone.
abbrev IsUnquoted : Str → Type 0
IsUnquoted = All (λ c. special c ≡ false)

unquoted-not_star : (c : ℕ) → special c ≡ false → eqb c b'*' ≡ false
unfolding special
unquoted-not_star c h = ground arith

render-pieces : (s : Str) → IsUnquoted s → render_pieces (pieces s) ≡ s
unfolding render_pieces render_piece pieces piece quote_byte
render-pieces [] h = refl
render-pieces (c ∷ s) h = rw (unquoted-not_star c h.0, h.0) (ap (λ t. c ∷ t) (render-pieces s h.1))

digits-IsUnquoted : (s : Str) → all is_digit s ≡ true → IsUnquoted s
unfolding is_digit special
digits-IsUnquoted [] h = tt
digits-IsUnquoted (c ∷ s) h = (ground arith, digits-IsUnquoted s (ground arith))

role_text-IsUnquoted : (pinned : Str) → all is_digit pinned ≡ true → IsUnquoted (role_text pinned)
unfolding special
role_text-IsUnquoted pinned h =
    All-append (λ c. special c ≡ false) (codes "arn:aws:iam::") (pinned ++ codes ":role/x")
      (ground arith)
      (All-append (λ c. special c ≡ false) pinned (codes ":role/x") (digits-IsUnquoted pinned h)
        (ground arith))

render-either : (t : Str) → IsUnquoted t → render (either t) ≡ codes "^" ++ (t ++ codes "$|.*$")
unfolding render render_pieces render_piece pieces piece
render-either t h =
    rw (render_pieces-append (pieces t) (end_text ∷ []), render-pieces t h)
      (ap (λ u. b'^' ∷ u) (append_assoc t (codes "$") (codes "|.*$")))

find_at_start : (r : Regex) (s : Str) {k : ℕ} → run_regex r 0 s ≡ some k → find r 0 s ≡ some (0, k)
unfolding find
find_at_start r [] h = rw h
find_at_start r (x ∷ s) h = rw h

star_takes_all : (s : Str) → contains_byte s newline ≡ false → GlobMatches (codes "*") s
star_takes_all s h = rw append-nil at (GlobMatches-stretch s h done)

-- The search spans every text without a newline.
find-either :
    (t s : Str) → contains_byte s newline ≡ false → find (either t) 0 s ≡ some (0, length s)
unfolding run_regex run
find-either t s h = find_at_start (either t) s (elim (Option-cases (run (glob_tail t) 0 s)) [
  | inl missed ↦ rw missed (run_complete (star_takes_all s h) 0 ∙ ground arith)
  | inr (j, found) ↦ let (_, e) = run_sound t 0 s found in rw found (ground arith)
])

-- `re:^arn:aws:iam::<pinned>:role/x$|.*$`
abbrev pub either_sub : Str → Str
either_sub pinned = codes "re:" ++ either_regex pinned

-- The pattern without "re:", "^" and the last "$".
either_core : Str → Str
either_core pinned = codes "arn:aws:iam::" ++ (pinned ++ codes ":role/x$|.*")

either_regex-core :
    (pinned : Str) → either_regex pinned ≡ (codes "^" ++ either_core pinned) ++ codes "$"
unfolding either_core
either_regex-core pinned =
    ap (λ t. codes "^arn:aws:iam::" ++ t)
      (sym (append_assoc pinned (codes ":role/x$|.*") (codes "$")))

bare-either_sub : (pinned : Str) → bare_pattern (either_sub pinned) ≡ either_core pinned
unfolding bare_pattern trim_prefix either_core
bare-either_sub pinned =
    rw (← append_assoc pinned (codes ":role/x$|.*") (codes "$"))
      (trim_suffix-append (codes "arn:aws:iam::" ++ (pinned ++ codes ":role/x$|.*")) (codes "$"))

either_sub-pinned :
    (pinned : Str)
    → is_aws_account_id pinned ≡ true
    → account_pinned_in_arn (either_sub pinned) ≡ true
unfolding account_pinned_in_arn field either_core
either_sub-pinned pinned h =
    rw
      (
        bare-either_sub pinned,
        get_elem?-split_n 4 4 (either_core pinned) (omega arith),
        field-account pinned (codes "role/x$|.*") (digits_of_id pinned h),
      )
      h

digits-IsAsciiText : (s : Str) → all is_digit s ≡ true → IsAsciiText s
unfolding is_digit
digits-IsAsciiText [] h = tt
digits-IsAsciiText (c ∷ s) h = (ground arith, digits-IsAsciiText s (ground arith))

either-AllAscii : (t : Str) → IsAsciiText t → AllAscii (either t)
unfolding pieces piece
either-AllAscii t h = (glob_pieces-IsAscii t h, (tt, (tt, tt)))

role_text-IsAsciiText : (pinned : Str) → all is_digit pinned ≡ true → IsAsciiText (role_text pinned)
role_text-IsAsciiText pinned h =
    All-append (λ c. c < 128) (codes "arn:aws:iam::") (pinned ++ codes ":role/x") (omega arith)
      (All-append (λ c. c < 128) pinned (codes ":role/x") (digits-IsAsciiText pinned h)
        (omega arith))

render-role :
    (pinned : Str)
    → all is_digit pinned ≡ true
    → render (either (role_text pinned)) ≡ either_regex pinned
render-role pinned h =
    render-either (role_text pinned) (role_text-IsUnquoted pinned h)
    ∙ ap (λ t. codes "^arn:aws:iam::" ++ t) (append_assoc pinned (codes ":role/x") (codes "$|.*$"))

either_regex-dollar : (pinned : Str) → has_suffix (either_regex pinned) (codes "$") ≡ true
either_regex-dollar pinned =
    rw (either_regex-core pinned) (has_suffix-append (codes "^" ++ either_core pinned) (codes "$"))

compile_regex-either :
    (re : RegexpPackage) (pinned : Str) {m : re.Regexp}
    → re.compile (either_regex pinned) ≡ some m
    → compile_sub re (either_sub pinned) ≡ ok (some m)
unfolding compile_sub compile_regex has_prefix cut_prefix
compile_regex-either re pinned h = rw (either_regex-dollar pinned, h) refl

-- The guardrail takes `re:^arn:aws:iam::<pinned>:role/x$|.*$` for a rule about the account `pinned`.
-- The pattern compiles, and its matcher accepts every subject that holds no newline.
pub either_sub-accepts :
    (re : RegexpPackage)
    → IsRegexp re
    → (pinned : Str) → is_aws_account_id pinned ≡ true
    → (account_pinned_in_arn (either_sub pinned) ≡ true)
      × ((m : re.Regexp) × (compile_sub re (either_sub pinned) ≡ ok (some m))
          × ((s : Str) → contains_byte s newline ≡ false → sub_matches re (some m) s ≡ true))
unfolding sub_matches
either_sub-accepts re law pinned h =
    let digits = digits_of_id pinned h in
    let ascii = either-AllAscii (role_text pinned) (role_text-IsAsciiText pinned digits) in
    let (m, e) = compile-render re law (either (role_text pinned)) ascii in
    (
      either_sub-pinned pinned h,
      (
        m,
        compile_regex-either re pinned (rw (render-role pinned digits) at e),
        λ s plain.
            rw
              (
                law.finds (either (role_text pinned)) ascii e s,
                find-either (role_text pinned) s plain,
              )
              (ground arith),
      ),
    )
