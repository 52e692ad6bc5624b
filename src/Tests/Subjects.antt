-- ===== src/Tests/Subjects.antt =====
-- internal/authz/authz.go: the patterns of the sample policy, and two that the guardrail lets pass.
use nats_jwt_callout.Base.{
  ◌≡◌, refl, ◌↔◌, true, false, some, Str, codes, get_elem?, split_n, trim_prefix, trim_suffix,
  has_prefix, cut_prefix, contains_byte, arith, ok,
}
use nats_jwt_callout.Regexp.{Regex, newline}
use nats_jwt_callout.Regexp.Fragment.{fragment, fragment-IsRegexp}
use nats_jwt_callout.Authz.Sub.{compile_sub, sub_matches}
use nats_jwt_callout.Authz.Sub.Glob.{GlobMatches, done}
use nats_jwt_callout.Authz.Sub.Matching.{IsGlob, compile_sub-glob}
use nats_jwt_callout.Authz.Pins.{
  is_digit, is_aws_account_id, sub_is_exact, account_pinned_in_arn, bare_pattern,
}
use nats_jwt_callout.Authz.Pins.Account.{field}
use nats_jwt_callout.Authz.Pins.Exact.{sub_is_exact-sub_matches}
use nats_jwt_callout.Authz.Pins.Guardrail.{
  wildcard_arn, foreign_arn, wildcard_arn-foreign, GlobMatches-literal, GlobMatches-stretch,
}
use nats_jwt_callout.Authz.Pins.Alternation.{either_sub, either_sub-accepts}
use nats_jwt_callout.Tests.{account, role_arn}

code : Unit {0}
unfolding is_digit is_aws_account_id sub_is_exact account_pinned_in_arn bare_pattern field
    contains_byte cut_prefix has_prefix split_n trim_prefix trim_suffix
code = tt

abbrev roles : Str
roles = codes "arn:aws:iam::123456789012:role/*"

abbrev foreign : Str
foreign = codes "999999999999"

roles-IsGlob : IsGlob roles
unfolding code
roles-IsGlob = record { not_empty = λ e. cc; no_re = refl }

compile_sub-glob_example :
    (m : Regex) × (compile_sub fragment roles ≡ ok (some m))
    × ((s : Str) → (sub_matches fragment (some m) s ≡ true) ↔ GlobMatches roles s)
compile_sub-glob_example =
    compile_sub-glob fragment fragment-IsRegexp roles roles-IsGlob (omega arith)

sub_is_exact-sub_matches_example :
    (m : Regex) × (compile_sub fragment role_arn ≡ ok (some m))
    × ((s : Str) → (sub_matches fragment (some m) s ≡ true) ↔ (s ≡ role_arn))
unfolding code
sub_is_exact-sub_matches_example =
    sub_is_exact-sub_matches fragment fragment-IsRegexp role_arn refl (omega arith)

roles-GlobMatches : GlobMatches roles role_arn
unfolding code
roles-GlobMatches =
    GlobMatches-literal (codes "arn:aws:iam::123456789012:role/") refl
      (GlobMatches-stretch (codes "app") refl done)

wildcard_arn-foreign_example :
    (account_pinned_in_arn (wildcard_arn account) ≡ true)
    × GlobMatches (wildcard_arn account) (foreign_arn foreign account)
    × (get_elem? (split_n (foreign_arn foreign account) b':' 6) 4 ≡ some foreign)
unfolding code
wildcard_arn-foreign_example = wildcard_arn-foreign account foreign refl refl

either_sub-accepts_example :
    (account_pinned_in_arn (either_sub account) ≡ true)
    × ((m : Regex) × (compile_sub fragment (either_sub account) ≡ ok (some m))
        × ((s : Str) → contains_byte s newline ≡ false → sub_matches fragment (some m) s ≡ true))
unfolding code
either_sub-accepts_example = either_sub-accepts fragment fragment-IsRegexp account refl
