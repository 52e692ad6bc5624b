-- ===== src/Authz/Pins/Guardrail.antt =====
-- Where the guardrail takes a rule for narrow: what a strong pin gives, and two patterns that pass
-- and pin nothing.
use nats_jwt_callout.Base.{
  ◌≡◌, refl, ◌∙◌, true, false, some, [], ◌∷◌, ◌++◌, Str, codes, all, trim_prefix,
  trim_suffix-append_other, get_elem?, contains_byte, contains_byte-append_false, split_n,
  append_assoc, arith,
}
use nats_jwt_callout.Regexp.{newline}
use nats_jwt_callout.Authz.Sub.Glob.{GlobMatches, done, byte, leave, take}
use nats_jwt_callout.Authz.Pins.{is_digit, is_aws_account_id, bare_pattern, account_pinned_in_arn}
use nats_jwt_callout.Authz.Pins.Account.{field, get_elem?-split_n, account_id-plain}

-- The same bytes before a pattern and before a text that it accepts.
pub GlobMatches-literal :
    (t : Str) {p s : Str}
    → contains_byte t b'*' ≡ false
    → GlobMatches p s
    → GlobMatches (t ++ p) (t ++ s)
unfolding contains_byte
GlobMatches-literal [] h m = m
GlobMatches-literal (c ∷ t) h m = byte (ground arith) refl (GlobMatches-literal t (ground arith) m)

-- A star takes a whole stretch of bytes, if no newline is among them.
pub GlobMatches-stretch :
    (t : Str) {p s : Str}
    → contains_byte t newline ≡ false
    → GlobMatches p s
    → GlobMatches (b'*' ∷ p) (t ++ s)
unfolding contains_byte
GlobMatches-stretch [] h m = leave refl m
GlobMatches-stretch (c ∷ t) h m = take refl (ground arith) (GlobMatches-stretch t (ground arith) m)

-- An ARN pattern with a star before the account field, and a subject of another account that has the
-- pinned one further on.
abbrev pub wildcard_arn : Str → Str
wildcard_arn pinned = codes "arn:aws:*::" ++ (pinned ++ codes ":role/*")

abbrev pub foreign_arn : Str → Str → Str
foreign_arn foreign pinned =
    codes "arn:aws:iam::" ++ (foreign ++ (codes ":role/x::" ++ (pinned ++ codes ":role/y")))

pub field-account : (a rest : Str) → all is_digit a ≡ true → field 0 (a ++ b':' ∷ rest) ≡ some a
unfolding field is_digit
field-account [] rest h = refl
field-account (c ∷ a) rest h = ground (arith, field-account a rest)

pub digits-no_newline : (s : Str) → all is_digit s ≡ true → contains_byte s newline ≡ false
unfolding contains_byte is_digit
digits-no_newline [] h = refl
digits-no_newline (c ∷ s) h = ground (arith, digits-no_newline s)

pub digits_of_id : (a : Str) → is_aws_account_id a ≡ true → all is_digit a ≡ true
unfolding is_aws_account_id
digits_of_id a h = ground arith

bare-wildcard_arn : (pinned : Str) → bare_pattern (wildcard_arn pinned) ≡ wildcard_arn pinned
unfolding bare_pattern trim_prefix
bare-wildcard_arn pinned =
    trim_suffix-append_other (codes "arn:aws:*::" ++ pinned) (codes ":role/*") (codes "$") refl

wildcard_arn-pinned :
    (pinned : Str)
    → is_aws_account_id pinned ≡ true
    → account_pinned_in_arn (wildcard_arn pinned) ≡ true
unfolding account_pinned_in_arn field
wildcard_arn-pinned pinned h =
    rw
      (
        bare-wildcard_arn pinned,
        get_elem?-split_n 4 4 (wildcard_arn pinned) (omega arith),
        field-account pinned (codes "role/*") (digits_of_id pinned h),
      )
      h

foreign_tail-GlobMatches :
    (pinned foreign : Str)
    → is_aws_account_id pinned ≡ true
    → is_aws_account_id foreign ≡ true
    → GlobMatches
        (b'*' ∷ codes "::" ++ (pinned ++ codes ":role/*"))
        ((foreign ++ codes ":role/x") ++ (codes "::" ++ (pinned ++ codes ":role/y")))
unfolding contains_byte
foreign_tail-GlobMatches pinned foreign h g =
    GlobMatches-stretch (foreign ++ codes ":role/x")
      (contains_byte-append_false foreign (codes ":role/x") newline
        (digits-no_newline foreign (digits_of_id foreign g)) refl)
      (GlobMatches-literal (codes "::") refl (
        GlobMatches-literal pinned (account_id-plain pinned h)
          (GlobMatches-literal (codes ":role/") refl (GlobMatches-stretch (codes "y") refl done))))

foreign_arn-GlobMatches :
    (pinned foreign : Str)
    → is_aws_account_id pinned ≡ true
    → is_aws_account_id foreign ≡ true
    → GlobMatches (wildcard_arn pinned) (foreign_arn foreign pinned)
unfolding contains_byte
foreign_arn-GlobMatches pinned foreign h g = GlobMatches-literal (codes "arn:aws:") refl (
    take refl (omega arith) (
      take refl (omega arith) (
        take refl (omega arith) (
          take refl (omega arith) (
            take refl (omega arith) (
              rw
                (← append_assoc foreign (codes ":role/x")
                  (codes "::" ++ (pinned ++ codes ":role/y")))
                (foreign_tail-GlobMatches pinned foreign h g)))))))

-- The guardrail takes `arn:aws:*::<pinned>:role/*` for a rule about the account `pinned`, since the
-- pattern's fifth field is that account. The star also takes colons: for every other account
-- `foreign` the pattern accepts a subject whose fifth field is `foreign`.
pub wildcard_arn-foreign :
    (pinned foreign : Str)
    → is_aws_account_id pinned ≡ true
    → is_aws_account_id foreign ≡ true
    → (account_pinned_in_arn (wildcard_arn pinned) ≡ true)
      × GlobMatches (wildcard_arn pinned) (foreign_arn foreign pinned)
      × (get_elem? (split_n (foreign_arn foreign pinned) b':' 6) 4 ≡ some foreign)
unfolding field contains_byte
wildcard_arn-foreign pinned foreign h g = (
  wildcard_arn-pinned pinned h,
  foreign_arn-GlobMatches pinned foreign h g,
  get_elem?-split_n 4 4 (foreign_arn foreign pinned) (omega arith)
      ∙ field-account foreign (codes "role/x::" ++ (pinned ++ codes ":role/y"))
          (digits_of_id foreign g),
)
