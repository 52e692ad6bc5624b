-- ===== src/TestClient/Outcomes.antt =====
-- test/k8s/client/main.go: when the end-to-end test passes.
use nats_jwt_callout.Base.{
  ◌≡◌, ◌≢◌, ◌⊎◌, ◌↔◌, refl, sym, ap, ◌∙◌, true, false, none, [], Str, codes, ◌==◌, ==_iff, is_empty,
  is_empty_iff, is_empty-false_iff, arith, Result, ok, err, Bool-cases, Option-cases, Result-cases,
  inl, inr,
}
use nats_jwt_callout.AwsAuth.Source.{trim_space}
use nats_jwt_callout.K8sAuth
use nats_jwt_callout.K8sAuth.{TokenError, TokenSource, Files, token, token_handler, or_empty}
use nats_jwt_callout.K8sAuth.Rotation.{content, or_empty-token}
use nats_jwt_callout.TestClient.{
  ConnectError, authorization, transport, World, publish_all, after_connect, run, main, exit_code,
}

-- What NATS answers to the token that is in the file when the client connects.
abbrev pub answer : World → Str → Str → Result ConnectError (Unit {0})
answer w url token_path = w.connect url (content (w.files_at_connect token_path))

-- There was a token in the file at the start, and the expected thing happened.
pub record Passes (w : World) (url token_path subject expect : Str) : Type 0 where
  pub path : token_path ≢ []
  pub has_token : content (w.files_at_start token_path) ≢ []
  pub outcome :
      ((expect ≡ codes "deny") × (answer w url token_path ≡ err authorization))
      ⊎ ((expect ≡ codes "allow")
          × (answer w url token_path ≡ ok tt)
          × (w.publish subject ≡ true)
          × (w.flush ≡ true))

abbrev Outcome : World → Str → Str → Result ConnectError (Unit {0}) → Type 0
Outcome w subject expect r =
    ((expect ≡ codes "deny") × (r ≡ err authorization))
    ⊎ ((expect ≡ codes "allow") × (r ≡ ok tt) × (w.publish subject ≡ true) × (w.flush ≡ true))

publish_all-passes :
    (w : World) (subject : Str)
    → (exit_code (publish_all w subject) ≡ 0) ↔ ((w.publish subject ≡ true) × (w.flush ≡ true))
unfolding publish_all
publish_all-passes w subject = ground arith

abbrev IsExpected : Str → Type 0
IsExpected expect = (expect ≡ codes "allow") ⊎ (expect ≡ codes "deny")

after_connect-passes :
    (w : World) (subject expect : Str) (r : Result ConnectError (Unit {0}))
    → IsExpected expect
    → (exit_code (after_connect w subject expect r) ≡ 0) ↔ Outcome w subject expect r
unfolding after_connect ◌==◌
after_connect-passes w subject expect (err authorization) (inl e) = rw e (ground arith)
after_connect-passes w subject expect (err authorization) (inr e) = rw e (ground arith)
after_connect-passes w subject expect (err transport) (inl e) = rw e (ground arith)
after_connect-passes w subject expect (err transport) (inr e) = rw e (ground arith)
after_connect-passes w subject expect (ok _) (inl e) =
    rw e (ground (arith, publish_all-passes w subject))
after_connect-passes w subject expect (ok _) (inr e) = rw e (ground arith)

abbrev source_at : Str → TokenSource
source_at path = record { path = path; last_err = none }

-- With a token at the start, what counts is what NATS answers.
run-after_connect :
    (w : World) (url token_path subject expect tok : Str)
    → is_empty token_path ≡ false
    → token false w.files_at_start (source_at token_path) ≡ ok tok
    → run w url token_path subject expect ≡ after_connect w subject expect (answer w url token_path)
unfolding run K8sAuth.new token_handler
run-after_connect w url token_path subject expect tok path found =
    rw (path, found)
      (ap (λ t. after_connect w subject expect (w.connect url t))
        (or_empty-token w.files_at_connect (source_at token_path)))

run_pathless :
    (w : World) (url token_path subject expect : Str)
    → is_empty token_path ≡ true
    → exit_code (run w url token_path subject expect) ≡ 1
unfolding run K8sAuth.new
run_pathless w url token_path subject expect path = rw path refl

run_tokenless :
    (w : World) (url token_path subject expect : Str) (e : TokenError)
    → is_empty token_path ≡ false
    → token false w.files_at_start (source_at token_path) ≡ err e
    → exit_code (run w url token_path subject expect) ≡ 1
unfolding run K8sAuth.new
run_tokenless w url token_path subject expect e path failed = rw (path, failed) refl

-- A token that is read is not empty.
token-content :
    (files : Files) (path tok : Str)
    → token false files (source_at path) ≡ ok tok
    → content (files path) ≢ []
unfolding token
token-content files path tok h = elim (Option-cases (files path)) [
  | inl missing ↦ let failed = rw missing at h in absurd (cc)
  | inr (text, found) ↦ elim (Bool-cases (is_empty (trim_space text))) [
    | inl blank ↦ let failed = rw (found, blank) at h in absurd (cc)
    | inr filled ↦ λ e.
        let trimmed : trim_space text ≡ [] = rw found at e in
        let blank = (is_empty_iff (trim_space text)).1 trimmed in absurd (ground arith)
  ]
]

tokenless-content :
    (files : Files) (path : Str) (e : TokenError)
    → token false files (source_at path) ≡ err e
    → content (files path) ≡ []
tokenless-content files path e h = sym (or_empty-token files (source_at path)) ∙ ap or_empty h

main-run :
    (w : World) (url token_path subject expect : Str)
    → IsExpected expect
    → main w url token_path subject expect ≡ exit_code (run w url token_path subject expect)
unfolding main ◌==◌
main-run w url token_path subject expect (inl e) = rw e refl
main-run w url token_path subject expect (inr e) = rw e refl

main-unexpected :
    (w : World) (url token_path subject expect : Str)
    → main w url token_path subject expect ≡ 0
    → IsExpected expect
unfolding main
main-unexpected w url token_path subject expect h = elim (Bool-cases (expect == codes "allow")) [
  | inl allow ↦ inl ((==_iff expect (codes "allow")).0 allow)
  | inr other ↦ elim (Bool-cases (expect == codes "deny")) [
    | inl deny ↦ inr ((==_iff expect (codes "deny")).0 deny)
    | inr neither ↦ let refused = rw (other, neither) at h in absurd (ground arith)
  ]
]

run-Passes :
    (w : World) (url token_path subject expect : Str)
    → IsExpected expect
    → exit_code (run w url token_path subject expect) ≡ 0
    → Passes w url token_path subject expect
run-Passes w url token_path subject expect expected h = elim (Bool-cases (is_empty token_path)) [
  | inl missing ↦
      let failed = run_pathless w url token_path subject expect missing in
      absurd (omega (arith, h, failed))
  | inr path ↦ elim (Result-cases (token false w.files_at_start (source_at token_path))) [
    | inl (e, unread) ↦
        let failed = run_tokenless w url token_path subject expect e path unread in
        absurd (omega (arith, h, failed))
    | inr (tok, found) ↦
        let same = run-after_connect w url token_path subject expect tok path found in
        record {
          path = (is_empty-false_iff token_path).0 path;
          has_token = token-content w.files_at_start token_path tok found;
          outcome =
              (after_connect-passes w subject expect (answer w url token_path) expected).0
                (ap exit_code (sym same) ∙ h);
        }
  ]
]

Passes-run :
    (w : World) (url token_path subject expect : Str)
    → IsExpected expect
    → Passes w url token_path subject expect
    → exit_code (run w url token_path subject expect) ≡ 0
Passes-run w url token_path subject expect expected passes =
    elim (Result-cases (token false w.files_at_start (source_at token_path))) [
      | inl (e, unread) ↦
          absurd (passes.has_token (tokenless-content w.files_at_start token_path e unread))
      | inr (tok, found) ↦
          ap exit_code (
            run-after_connect w url token_path subject expect tok
              ((is_empty-false_iff token_path).1 passes.path) found)
          ∙ (after_connect-passes w subject expect (answer w url token_path) expected).1
              passes.outcome
    ]

outcome-IsExpected :
    (w : World) (subject expect : Str) (r : Result ConnectError (Unit {0}))
    → Outcome w subject expect r
    → IsExpected expect
outcome-IsExpected w subject expect r (inl (e, _)) = inr e
outcome-IsExpected w subject expect r (inr (e, _, _, _)) = inl e

-- The test passes exactly if the file has a token at the start, and either a denial is expected and
-- NATS answers with an authorization violation, or access is expected and connecting, publishing and
-- flushing succeed. No other failure counts as a denial.
pub main-Passes :
    (w : World) (url token_path subject expect : Str)
    → (main w url token_path subject expect ≡ 0) ↔ Passes w url token_path subject expect
main-Passes w url token_path subject expect = (
  (λ h.
      let expected = main-unexpected w url token_path subject expect h in
      run-Passes w url token_path subject expect expected
        (sym (main-run w url token_path subject expect expected) ∙ h)),
  (λ passes.
      let expected = outcome-IsExpected w subject expect (answer w url token_path) passes.outcome in
      main-run w url token_path subject expect expected
      ∙ Passes-run w url token_path subject expect expected passes),
)
