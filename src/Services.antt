-- ===== src/Services.antt =====
-- The activity log, octora-api/src/modules/positions/activity.service.ts, and the indexer,
-- octora-api/src/modules/indexer/indexer.service.ts.
use octora.Base.{suc, String, true, false, Option, none, some, List, ◌===◌}
use octora.Base.Effect.{ok, ◌>>=◌, ◌>>◌, pure}
use octora.Domain.{ExecutionState, indexing, active, SafeNextStep, wait, refresh}
use octora.Store.{
  Task, PositionRow, ActivityRow, PositionReconciliationRecord, create_activity, list_activities,
  load_reconciliation, save_reconciliation, clear_reconciliation,
}
use octora.Platform.{Platform}

module _ {F : Type 0} (platform : Platform F) where
  unfoldable pub uuid : Task String
  uuid w = (ok (platform.random_uuid w.draws), record w { draws = suc w.draws })

  unfoldable pub record_activity :
      PositionRow → ExecutionState → String → String → SafeNextStep → Task ActivityRow
  unfolding uuid create_activity
  record_activity position state headline detail safe_next_step = do
    id ← uuid
    create_activity (record {
      id = id;
      position_id = position.id;
      action = position.action;
      state = state;
      headline = headline;
      detail = detail;
      safe_next_step = safe_next_step;
    })

unfoldable pub list : String → Task (List ActivityRow)
unfolding list_activities
list position_id = list_activities position_id

pub record ReconcileResult : Type 0 where
  pub state : ExecutionState
  pub status_label : String
  pub next_step : SafeNextStep

unfoldable pub begin_reconciliation : String → Task ReconcileResult
unfolding save_reconciliation
begin_reconciliation position_id = do
  save_reconciliation (record { position_id = position_id; signature = none })
  pure (record {
    state = indexing;
    status_label = "Verifying final position state";
    next_step = wait;
  })

unfoldable pub register_snapshot : String → String → Task (Unit {0})
unfolding save_reconciliation
register_snapshot position_id signature = do
  save_reconciliation (record { position_id = position_id; signature = some signature })
  pure tt

-- `entry?.signature`, with the empty text as absent.
abbrev pub stamped : Option PositionReconciliationRecord → Option String
stamped none = none
stamped (some entry) = elim entry.signature [
  | none ↦ none
  | some s ↦ elim (s === "") [ true ↦ none | false ↦ some s ]
]

abbrev pub still_indexing : ReconcileResult
still_indexing = record {
  state = indexing;
  status_label = "Execution delayed";
  next_step = refresh;
}

abbrev pub now_active : ReconcileResult
now_active = record { state = active; status_label = "Position active"; next_step = wait }

abbrev settled : String → Option String → Task ReconcileResult
settled position_id none = pure still_indexing
settled position_id (some s) = do clear_reconciliation position_id; pure now_active

unfoldable pub reconcile : String → Task ReconcileResult
unfolding load_reconciliation clear_reconciliation
reconcile position_id = do
  entry ← load_reconciliation position_id
  settled position_id (stamped entry)
