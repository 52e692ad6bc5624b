-- ===== src/K8sAuth.antt =====
-- lib/k8sauth/k8sauth.go: the client's source of projected service-account tokens.
pub mod Rotation
use nats_jwt_callout.Base.{
  Bool, true, false, Option, none, some, List, [], ◌∷◌, Str, if◌then◌else◌, is_empty, Result, ok,
  err, ◌>>=◌, or_err,
}
use nats_jwt_callout.AwsAuth.Source.{trim_space}

pub data TokenError : Type 0 where
  path_required : TokenError
  cancelled : TokenError
  read_failed empty_file : Str → TokenError

pub record TokenSource : Type 0 where
  pub path : Str
  pub last_err : Option TokenError

-- The config is its TokenPath.
unfoldable pub new : Str → Result TokenError TokenSource
new path = if is_empty path then err path_required else ok (record { path = path; last_err = none })

-- The files are what a read finds at a path, at the moment of the call.
abbrev pub Files : Type 0
Files = Str → Option Str

abbrev nonempty : Str → Str → Result TokenError Str
nonempty path tok = if is_empty tok then err (empty_file path) else ok tok

-- `Token`, of a context that is done or not.
unfoldable pub token : Bool → Files → TokenSource → Result TokenError Str
token done files ts =
    if done
    then err cancelled
    else do text ← or_err (read_failed ts.path) (files ts.path); nonempty ts.path (trim_space text)

abbrev pub error_of : Result TokenError Str → Option TokenError
error_of (ok tok) = none
error_of (err e) = some e

abbrev pub or_empty : Result TokenError Str → Str
or_empty (ok tok) = tok
or_empty (err e) = []

-- The handler of `NATSOption`, on each connect and reconnect. Its context is never done.
unfoldable pub token_handler : Files → TokenSource → Str × TokenSource
token_handler files ts =
    let r = token false files ts in (or_empty r, record ts { last_err = error_of r })

-- One connect after the other, with what is at the path each time: the tokens that NATS is given.
unfoldable pub connects : List Files → TokenSource → List Str × TokenSource
connects [] ts = ([], ts)
connects (files ∷ later) ts =
    let (tok, ts') = token_handler files ts in
    let (toks, ts'') = connects later ts' in (tok ∷ toks, ts'')
