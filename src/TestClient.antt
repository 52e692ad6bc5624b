-- ===== src/TestClient.antt =====
-- test/k8s/client/main.go: the client of the end-to-end test, which passes or fails. The NATS client is
-- a parameter.
pub mod Outcomes
use nats_jwt_callout.Base.{
  ℕ, Bool, not, ◌&&◌, Option, List, [], ◌∷◌, Str, codes, ◌==◌, if◌then◌else◌, Result, ok, err,
  ◌>>=◌, ◌>>◌, wrap_err,
}
use nats_jwt_callout.K8sAuth
use nats_jwt_callout.K8sAuth.{TokenError, TokenSource, Files, token, token_handler}

-- nats.ErrAuthorization, and any other error.
pub data ConnectError : Type 0 where
  authorization transport : ConnectError

-- What the client finds: the token file when it reads it first and when it connects, and what NATS
-- does, given a URL and a token.
pub record World : Type 0 where
  pub files_at_start : Files
  pub files_at_connect : Files
  pub connect : Str → Str → Result ConnectError (Unit {0})
  pub publish : Str → Bool
  pub flush : Bool

pub data ClientError : Type 0 where
  token_source : TokenError → ClientError
  connect_failed : ConnectError → ClientError
  denial_expected publish_failed flush_failed : ClientError

abbrev pub denied_as_expected : Str
denied_as_expected = codes "DENIED_AS_EXPECTED"

abbrev pub publish_ok : Str
publish_ok = codes "PUBLISH_OK"

-- `errors.Is(err, nats.ErrAuthorization)`
abbrev is_authorization : ConnectError → Bool
is_authorization authorization = Bool.true
is_authorization transport = Bool.false

unfoldable pub publish_all : World → Str → Result ClientError Str
publish_all w subject =
    if not (w.publish subject)
    then err publish_failed
    else if not w.flush
    then err flush_failed
    else ok publish_ok

unfoldable pub after_connect :
    World → Str → Str → Result ConnectError (Unit {0}) → Result ClientError Str
after_connect w subject expect (err e) =
    if (expect == codes "deny") && is_authorization e
    then ok denied_as_expected
    else err (connect_failed e)
after_connect w subject expect (ok _) =
    if expect == codes "deny" then err denial_expected else publish_all w subject

-- The line that is printed, or the error.
unfoldable pub run : World → Str → Str → Str → Str → Result ClientError Str
run w url token_path subject expect = do
  ts ← wrap_err token_source (K8sAuth.new token_path)
  wrap_err token_source (token Bool.false w.files_at_start ts)
  after_connect w subject expect (w.connect url (token_handler w.files_at_connect ts).0)

abbrev exit_code : Result ClientError Str → ℕ
exit_code (ok line) = 0
exit_code (err e) = 1

-- The exit code of the process, after the flags are parsed. log.Fatalf exits with 1.
unfoldable pub main : World → Str → Str → Str → Str → ℕ
main w url token_path subject expect =
    if not (expect == codes "allow") && not (expect == codes "deny")
    then 1
    else exit_code (run w url token_path subject expect)
