-- ===== src/Position/Service/Steps.antt =====
-- The steps that the calls of octora-api/src/modules/positions/position.service.ts share.
use octora.Base.{String, some}
use octora.Base.Effect.{◌>>=◌, ◌>>◌, pure, guard, or_throw}
use octora.Domain.{
  ExecutionState, active, failed, FailureStage, is_state, can_transition, recovery_catalog,
}
use octora.Store.{
  Task, PositionRow, ExecutionSessionRow, position_not_found, position_must_be_active,
  session_must_be_active, invalid_transition, get_position_by_id, update_position_state,
  update_execution_session, get_latest_execution_session,
}
use octora.Platform.{Platform}
use octora.Services.{record_activity, list}
use octora.Position.Reply.{PositionResponse, build_response}

unfoldable pub assert_transition : ExecutionState → ExecutionState → Task (Unit {0})
assert_transition from to = guard (can_transition from to) (invalid_transition from to)

unfoldable pub get_active_position : String → Task PositionRow
get_active_position position_id = do
  found ← get_position_by_id position_id
  position ← or_throw found (position_not_found position_id)
  guard (is_state position.state active) (position_must_be_active position_id)
  pure position

unfoldable pub get_latest_active_session : String → Task ExecutionSessionRow
get_latest_active_session position_id = do
  found ← get_latest_execution_session position_id
  session ← or_throw found (position_not_found position_id)
  guard (is_state session.state active) (session_must_be_active position_id)
  pure session

module _ {F : Type 0} (platform : Platform F) where
  -- Every failure stage has guidance, so the fallbacks of `guidance?.headline ?? …` are never read.
  unfoldable pub record_failure : PositionRow → FailureStage → Task PositionResponse
  record_failure position failure_stage = do
    let guidance = recovery_catalog failure_stage
    failed_position ← update_position_state position.id failed
    failed_session ← update_execution_session position.id failed (some failure_stage)
    record_activity platform failed_position failed guidance.headline guidance.message
        guidance.safe_next_step
    activities ← list position.id
    pure (build_response platform failed_position failed_session activities)
