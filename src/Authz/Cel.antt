-- ===== src/Authz/Cel.antt =====
-- internal/authz/cel.go: conditions in the Common Expression Language. The package cel is a
-- parameter: its environment, its compiler with the type that an expression has, and its evaluator.
use nats_jwt_callout.Base.{
  ℕ, Bool, false, not, Option, none, some, List, [], ◌∷◌, Str, codes, if◌then◌else◌, Result, ok,
  err,
}
use nats_jwt_callout.Base.Dict.{Dict}
use nats_jwt_callout.Base.Int.{ℤ}
use nats_jwt_callout.Identity.{Identity}

abbrev pub cel_cost_limit : ℕ
cel_cost_limit = 1_000_000

-- The variables that an expression reads.
pub record Activation : Type 0 where
  pub sub : Str
  pub iss : Str
  pub aud : List Str
  pub claims : Dict Str
  pub exp : ℤ
  pub now : ℤ

pub data Value : Type 0 where
  a_bool : Bool → Value
  other : Value

pub data VariableType : Type 0 where
  string_type timestamp_type list_of_strings map_of_strings : VariableType

pub record CelPackage : Type 1 where
  pub Env : Type 0
  pub Ast : Type 0
  pub Program : Type 0
  pub new_env : List (Str × VariableType) → Option Env
  pub compile : Env → Str → Option Ast
  pub is_bool_type : Ast → Bool
  pub program : Env → Ast → ℕ → Option Program
  pub eval : Program → Activation → Option Value

pub data CelError : Type 0 where
  invalid_expr not_bool no_program : CelError

abbrev variables : List (Str × VariableType)
variables =
    (codes "sub", string_type)
    ∷ (codes "iss", string_type)
    ∷ (codes "aud", list_of_strings)
    ∷ (codes "claims", map_of_strings)
    ∷ (codes "exp", timestamp_type)
    ∷ (codes "now", timestamp_type)
    ∷ []

-- `b, ok := out.Value().(bool)`, after an evaluation that may have failed.
abbrev pub as_bool : Option Value → Bool
as_bool none = false
as_bool (some other) = false
as_bool (some (a_bool b)) = b

unfoldable pub activation : Identity → ℤ → Activation
activation id now = record {
  sub = id.subject;
  iss = id.issuer;
  aud = id.audience;
  claims = id.claims;
  exp = id.expiry;
  now = now;
}

module _ (cel : CelPackage) where
  unfoldable pub new_cel_env : Option cel.Env
  new_cel_env = cel.new_env variables

  abbrev built : Option cel.Program → Result CelError cel.Program
  built none = err no_program
  built (some prg) = ok prg

  abbrev checked : cel.Env → Option cel.Ast → Result CelError cel.Program
  checked env none = err invalid_expr
  checked env (some ast) =
      if not (cel.is_bool_type ast)
      then err not_bool
      else built (cel.program env ast cel_cost_limit)

  unfoldable pub compile_cel_program : cel.Env → Str → Result CelError cel.Program
  compile_cel_program env expr = checked env (cel.compile env expr)

  -- Any error counts as no match. `now` is what `time.Now` returns.
  unfoldable pub eval_cel : cel.Program → Identity → ℤ → Bool
  eval_cel prg id now = as_bool (cel.eval prg (activation id now))
