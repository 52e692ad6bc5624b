-- ===== src/Authz/Sub.antt =====
-- internal/authz/authz.go: subject patterns, a glob or a regular expression behind "re:".
pub mod Glob
pub mod Matching
use nats_jwt_callout.Base.{
  ℕ, zero, Bool, true, false, not, ◌&&◌, ◌||◌, Option, none, some, List, [], ◌∷◌, ◌++◌, Str, codes,
  eqb, if◌then◌else◌, is_empty, cut_prefix, has_prefix, has_suffix, split, trim_suffix, length,
  Result, ok, err,
}
use nats_jwt_callout.Regexp.{RegexpPackage, quote_meta}

pub data SubError : Type 0 where
  not_anchored invalid_regex invalid_glob : SubError

-- The loop over `strings.SplitSeq(pattern, "*")`, which writes to the builder `b`.
unfoldable pub write_parts : Str → List Str → Str
write_parts b [] = b
write_parts b (part ∷ parts) = write_parts ((b ++ quote_meta part) ++ codes ".*") parts

-- The regular expression of a glob pattern.
unfoldable pub glob_regex : Str → Str
glob_regex pattern =
    trim_suffix (write_parts (codes "^") (split pattern b'*')) (codes ".*") ++ codes "$"

-- `loc != nil && loc[0] == 0 && loc[1] == len(sub)`
abbrev pub spans : Str → Option (ℕ × ℕ) → Bool
spans sub none = false
spans sub (some (i, j)) = eqb i 0 && eqb j (length sub)

module _ (re : RegexpPackage) where
  abbrev compiled : SubError → Option re.Regexp → Result SubError (Option re.Regexp)
  compiled e none = err e
  compiled e (some matcher) = ok (some matcher)

  unfoldable pub compile_regex : Str → Result SubError (Option re.Regexp)
  compile_regex rest =
      if not (has_prefix rest (codes "^")) || not (has_suffix rest (codes "$"))
      then err not_anchored
      else compiled invalid_regex (re.compile rest)

  unfoldable pub compile_glob : Str → Result SubError (Option re.Regexp)
  compile_glob pattern = compiled invalid_glob (re.compile (glob_regex pattern))

  abbrev compile_cut : Str → Option Str → Result SubError (Option re.Regexp)
  compile_cut pattern (some rest) = compile_regex rest
  compile_cut pattern none = compile_glob pattern

  -- `none` is the nil matcher of an empty pattern.
  unfoldable pub compile_sub : Str → Result SubError (Option re.Regexp)
  compile_sub pattern =
      if is_empty pattern then ok none else compile_cut pattern (cut_prefix pattern (codes "re:"))

  unfoldable pub sub_matches : Option re.Regexp → Str → Bool
  sub_matches none sub = true
  sub_matches (some matcher) sub = spans sub (re.find_string_index matcher sub)
