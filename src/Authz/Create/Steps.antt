-- ===== src/Authz/Create/Steps.antt =====
-- A check of `create_policy` passes, or it returns a denial with its rule and its message.
use fire_crow.Prelude.{String, none, List}
use fire_crow.Text.{Str}
use fire_crow.Json.{Value}
use fire_crow.Authz.Request.{Decision, allow, deny}

pub data Verdict : Type 0 where
  pass : Verdict
  refuse : String → Str → Verdict

-- The next check is made if this one passes.
infixl 5 ◌>>◌
abbrev pub ◌>>◌ : Verdict → Verdict → Verdict
pass >> next = next
refuse rule msg >> next = refuse rule msg

abbrev pub settle : Verdict → Decision
settle pass = allow "create-allowed" none
settle (refuse rule msg) = deny rule msg none

-- The entries of a JSON object.
abbrev pub Object : Type 0
Object = List (Str × Value)
