-- ===== src/Authz/Types.antt =====
-- The data of internal/authz/authz.go. A rule also holds its compiled subject pattern, and its
-- compiled CEL expression, in the types that the packages give them.
use nats_jwt_callout.Base.{Bool, Option, List, Str}
use nats_jwt_callout.Base.Dict.{Dict}
use nats_jwt_callout.Base.Int.{ℤ}

pub record Match : Type 0 where
  pub issuer : Str
  pub sub : Str
  pub claims : Dict Str
  pub expr : Str
  pub allow_broad : Bool

pub record Permission : Type 0 where
  pub allow : List Str
  pub deny : List Str

-- A duration is its nanoseconds.
pub record Response : Type 0 where
  pub max : ℤ
  pub ttl : ℤ

pub record Grant : Type 0 where
  pub account : Str
  pub publish : Permission
  pub subscribe : Permission
  pub response : Option Response
  pub max_expiry : ℤ

-- jwt.ResponsePermission and the part of jwt.UserPermissionLimits that the program sets.
pub record ResponsePermission : Type 0 where
  pub max_msgs : ℤ
  pub expires : ℤ

pub record UserPermissionLimits : Type 0 where
  pub publish : Permission
  pub subscribe : Permission
  pub resp : Option ResponsePermission

pub record Rule (Regexp Program : Type 0) : Type 0 where
  pub name : Str
  pub match : Match
  pub grant : Grant
  pub matcher : Option Regexp
  pub cel_program : Option Program

pub record Decision : Type 0 where
  pub rule_name : Str
  pub account : Str
  pub permissions : UserPermissionLimits
  pub max_expiry : ℤ
