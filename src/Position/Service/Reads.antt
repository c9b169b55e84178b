-- ===== src/Position/Service/Reads.antt =====
-- `getPosition` of octora-api/src/modules/positions/position.service.ts.
use octora.Base.{String, not, ◌&&◌, none, List, ◌===◌, if◌then◌else◌, get_last?}
use octora.Base.Effect.{◌>>=◌, ◌>>◌, pure, or_throw}
use octora.Domain.{indexing, active, wait, is_state}
use octora.Store.{
  Task, PositionRow, ExecutionSessionRow, ActivityRow, position_not_found, get_position_by_id,
  update_position_state, update_execution_session, get_latest_execution_session,
}
use octora.Platform.{Platform}
use octora.Recovery.{or_else, get_indexing_recovery}
use octora.Services.{record_activity, list, reconcile}
use octora.Position.Reply.{PositionResponse, build_response, headline_of}

module _ {F : Type 0} (platform : Platform F) where
  -- The branch of `getPosition` for a position whose snapshot has landed.
  unfoldable pub activate : String → Task PositionResponse
  activate position_id = do
    active_position ← update_position_state position_id active
    active_session ← update_execution_session position_id active none
    record_activity platform active_position active "Position active"
        "The final snapshot is available and the position is now live." wait
    activities ← list position_id
    pure (build_response platform active_position active_session activities)

  unfoldable pub note_delay :
      String → PositionRow → ExecutionSessionRow → List ActivityRow → Task PositionResponse
  note_delay position_id position session activities =
      if or_else (headline_of (get_last? activities)) "" === "Execution delayed"
      then pure (build_response platform position session activities)
      else do
        record_activity platform position indexing "Execution delayed" get_indexing_recovery.message
            get_indexing_recovery.safe_next_step
        later ← list position_id
        pure (build_response platform position session later)

  unfoldable pub get_position : String → Task PositionResponse
  unfolding activate note_delay
  get_position position_id = do
    found ← get_position_by_id position_id
    position ← or_throw found (position_not_found position_id)
    found_session ← get_latest_execution_session position_id
    session ← or_throw found_session (position_not_found position_id)
    activities ← list position_id
    if not (is_state session.state indexing)
        then pure (build_response platform position session activities)
        else do
          reconciliation ← reconcile position_id
          if is_state reconciliation.state active && not (is_state position.state active)
              then activate position_id
              else note_delay position_id position session activities
