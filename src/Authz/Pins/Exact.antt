-- ===== src/Authz/Pins/Exact.antt =====
-- A subject pattern that the guardrail counts as exact.
use nats_jwt_callout.Base.{
  ◌≡◌, refl, ◌↔◌, true, false, Option, none, some, Str, codes, is_empty, is_empty_iff, cut_prefix,
  has_prefix, contains_byte, arith, is_some, ok,
}
use nats_jwt_callout.Regexp.{RegexpPackage, IsRegexp}
use nats_jwt_callout.Authz.Sub.{compile_sub, sub_matches}
use nats_jwt_callout.Authz.Sub.Matching.{
  IsGlob, IsAsciiText, compile_sub-glob, GlobMatches-exact_iff,
}
use nats_jwt_callout.Authz.Pins.{sub_is_exact}

none_of_is_some {ℓ} : {A : Type ℓ} (o : Option A) → is_some o ≡ false → o ≡ none
none_of_is_some none h = refl
none_of_is_some (some a) h = absurd (cc)

sub_is_exact_inv :
    (p : Str)
    → sub_is_exact p ≡ true
    → (is_empty p ≡ false)
      × (is_some (cut_prefix p (codes "re:")) ≡ false)
      × (contains_byte p b'*' ≡ false)
unfolding sub_is_exact has_prefix
sub_is_exact_inv p h = ground arith

sub_is_exact-IsGlob : (p : Str) → sub_is_exact p ≡ true → IsGlob p
sub_is_exact-IsGlob p h =
    let (set, plain, _) = sub_is_exact_inv p h in
    record { not_empty = λ e. ground (arith, is_empty_iff p); no_re = none_of_is_some _ plain }

-- A pattern that the guardrail counts as exact compiles to a matcher that accepts its own text and no
-- other subject. The pattern is ASCII.
pub sub_is_exact-sub_matches :
    (re : RegexpPackage)
    → IsRegexp re
    → (p : Str) → sub_is_exact p ≡ true
    → IsAsciiText p
    → (m : re.Regexp) × (compile_sub re p ≡ ok (some m))
      × ((s : Str) → (sub_matches re (some m) s ≡ true) ↔ (s ≡ p))
sub_is_exact-sub_matches re law p h ascii =
    let (m, e, accepts) = compile_sub-glob re law p (sub_is_exact-IsGlob p h) ascii in
    let (_, _, plain) = sub_is_exact_inv p h in
    let exact = λ (s : Str). GlobMatches-exact_iff p s plain in
    (m, e, λ s. (λ q. (exact s).0 ((accepts s).0 q), λ q. (accepts s).1 ((exact s).1 q)))
