-- ===== src/Authz/Pins.antt =====
-- internal/authz/authz.go: what counts as a strong identity pin.
pub mod Account
pub mod Guardrail
pub mod Exact
pub mod Alternation
use nats_jwt_callout.Base.{
  ℕ, Bool, true, false, not, ◌&&◌, ◌||◌, Option, none, some, List, [], ◌∷◌, Str, codes, eqb, leb,
  if◌then◌else◌, is_empty, is_some, has_prefix, trim_prefix, trim_suffix, split_n, contains_byte,
  length, get_elem?, any, all,
}
use nats_jwt_callout.Base.Dict.{Dict, lookup}
use nats_jwt_callout.Authz.Types.{Match}

abbrev pub github_strong_pin_keys : Dict (Unit {0})
github_strong_pin_keys =
    (codes "repository", tt) ∷ (codes "repository_id", tt) ∷ (codes "job_workflow_ref", tt) ∷ []

unfoldable pub is_digit : ℕ → Bool
is_digit c = leb b'0' c && leb c b'9'

-- `^[0-9]{12}$`
unfoldable pub is_aws_account_id : Str → Bool
unfolding is_digit
is_aws_account_id s = eqb (length s) 12 && all is_digit s

unfoldable pub sub_is_exact : Str → Bool
sub_is_exact pattern =
    if is_empty pattern || has_prefix pattern (codes "re:")
    then false
    else not (contains_byte pattern b'*')

-- The pattern without "re:" and its anchors.
unfoldable pub bare_pattern : Str → Str
bare_pattern pattern =
    trim_suffix (trim_prefix (trim_prefix pattern (codes "re:")) (codes "^")) (codes "$")

abbrev account_field : Option Str → Bool
account_field none = false
account_field (some field) = is_aws_account_id field

unfoldable pub account_pinned_in_arn : Str → Bool
account_pinned_in_arn pattern =
    if is_empty pattern
    then false
    else account_field (get_elem? (split_n (bare_pattern pattern) b':' 6) 4)

abbrev aws_account_claim : Option Str → Bool
aws_account_claim none = false
aws_account_claim (some v) = is_aws_account_id v

unfoldable pub has_strong_pin : Match → Bool
has_strong_pin m =
    sub_is_exact m.sub
    || account_pinned_in_arn m.sub
    || aws_account_claim (lookup (codes "aws.aws_account") m.claims)
    || any (λ e. is_some (lookup e.0 github_strong_pin_keys)) m.claims
