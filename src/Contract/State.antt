-- ===== src/Contract/State.antt =====
-- `PipelineState` of backend/src/schemas/scan_contract.rs.
pub mod Lifecycle
use fire_crow.Prelude.{Bool, true, false, if◌then◌else◌}
use fire_crow.Text.{Str, str}

pub data PipelineState : Type 0 where
  queued fetching scanning normalizing reporting delivering : PipelineState
  completed partial failed cancelled : PipelineState

-- `PipelineState::as_str`
unfoldable pub state_name : PipelineState → Str
state_name queued = str "queued"
state_name fetching = str "fetching"
state_name scanning = str "scanning"
state_name normalizing = str "normalizing"
state_name reporting = str "reporting"
state_name delivering = str "delivering"
state_name completed = str "completed"
state_name partial = str "partial"
state_name failed = str "failed"
state_name cancelled = str "cancelled"

unfoldable pub is_terminal : PipelineState → Bool
is_terminal completed = true
is_terminal partial = true
is_terminal failed = true
is_terminal cancelled = true
is_terminal _ = false

-- The pattern of `matches!`.
abbrev is_step : PipelineState → PipelineState → Bool
is_step _ failed = true
is_step _ cancelled = true
is_step queued fetching = true
is_step fetching scanning = true
is_step scanning normalizing = true
is_step normalizing reporting = true
is_step reporting delivering = true
is_step delivering completed = true
is_step scanning partial = true
is_step normalizing partial = true
is_step reporting partial = true
is_step delivering partial = true
is_step _ _ = false

unfoldable pub can_transition : PipelineState → PipelineState → Bool
can_transition s next = if is_terminal s then false else is_step s next
