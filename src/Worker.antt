-- ===== src/Worker.antt =====
-- The recovery worker, octora-api/src/modules/positions/recovery-worker.ts: one tick over the store.
-- Logging and the timer that calls `tick` are left out; `captureException` is the list of alerts.
pub mod Keeps
pub mod Bounds
pub mod Alerts
mod Tests
use octora.Base.{
  ℕ, suc, ◌+◌, ◌-◌, ◌*◌, String, Bool, true, false, ◌||◌, Option, none, some, List, [], ◌∷◌, ◌++◌,
  map, length, ltb, if◌then◌else◌, ◌&◌, ◌===◌,
}
use octora.Base.Effect.{Result, ok, err, ◌>>=◌, ◌>>◌, pure, lift}
use octora.Domain.{
  ExecutionState, executing_on_meteora, indexing, active, failed, FailureStage, venue_confirmation,
  wait, contact_support, is_state, state_text, action_text, stage_text,
}
use octora.Store.{
  World, Task, PositionRow, Error, update_position_state, update_execution_session,
  load_reconciliation,
}
use octora.Store.Queries.{find_stuck_positions, find_recently_failed}
use octora.Platform.{Platform}
use octora.Services.{record_activity, reconcile, stamped}

abbrev pub executing_stuck_after_ms : ℕ
executing_stuck_after_ms = 5 * 60 * 1000

abbrev pub indexing_stuck_after_ms : ℕ
indexing_stuck_after_ms = 2 * 60 * 1000

abbrev pub scan_batch_limit : ℕ
scan_batch_limit = 50

pub data ConfirmationStatus : Type 0 where
  processed confirmed finalized : ConfirmationStatus

-- What the node answers for a signature: `value.err` present or not, and `confirmationStatus`.
pub record SignatureStatus : Type 0 where
  pub has_err : Bool
  pub confirmation_status : Option ConfirmationStatus

-- `connection.getSignatureStatus(signature).value`, or an error of the call.
abbrev pub Rpc : Type 0
Rpc = String → Result Error (Option SignatureStatus)

pub data VenueDecision : Type 0 where
  landed dropped pending : VenueDecision

unfoldable pub decide_status : ℕ → PositionRow → Option SignatureStatus → VenueDecision
decide_status now position none =
    if ltb (executing_stuck_after_ms * 2) (now - position.updated_at) then dropped else pending
decide_status now position (some value) =
    if value.has_err then dropped else elim value.confirmation_status [
      | some confirmed ↦ landed
      | some finalized ↦ landed
      | some processed ↦ pending
      | none ↦ pending
    ]

abbrev decide_signature : Rpc → ℕ → PositionRow → Option String → Task VenueDecision
decide_signature rpc now position none =
    pure (if ltb executing_stuck_after_ms (now - position.updated_at) then dropped else pending)
decide_signature rpc now position (some signature) = do
  value ← lift (rpc signature)
  pure (decide_status now position value)

unfoldable pub check_venue_signature : Rpc → ℕ → PositionRow → Task VenueDecision
unfolding decide_status
check_venue_signature rpc now position = do
  reconciliation ← load_reconciliation position.id
  decide_signature rpc now position (stamped reconciliation)

pub record RecoveryTickResult : Type 0 where
  pub executing_checked : ℕ
  pub executing_advanced : ℕ
  pub executing_failed : ℕ
  pub indexing_checked : ℕ
  pub indexing_advanced : ℕ
  pub failures_alerted : ℕ

module _ {F : Type 0} (platform : Platform F) where
  unfoldable pub advance_to : PositionRow → ExecutionState → Task (Unit {0})
  advance_to position to = do
    updated ← update_position_state position.id to
    update_execution_session position.id to none
    record_activity platform updated to ("Recovered position into " & state_text to)
        ("Recovery worker advanced "
          & position.id
          & " from "
          & state_text position.state
          & " to "
          & state_text to
          & ".")
        wait
    pure tt

  unfoldable pub fail_position : PositionRow → FailureStage → Task (Unit {0})
  fail_position position stage = do
    updated ← update_position_state position.id failed
    update_execution_session position.id failed (some stage)
    record_activity platform updated failed "Recovery flagged position as failed"
        ("Recovery worker exhausted retries on "
          & action_text position.action
          & " (stage: "
          & stage_text stage
          & ").")
        contact_support
    pure tt

  abbrev pub act_on : PositionRow → VenueDecision → Task (Unit {0})
  act_on position landed = advance_to position indexing
  act_on position dropped = fail_position position venue_confirmation
  act_on position pending = pure tt

  -- One round of the first loop; what it throws is caught by the round.
  unfoldable pub examine_executing : Rpc → ℕ → PositionRow → Task VenueDecision
  unfolding advance_to fail_position check_venue_signature
  examine_executing rpc now position = do
    decision ← check_venue_signature rpc now position
    act_on position decision
    pure decision

  abbrev pub count_executing : Result Error VenueDecision → RecoveryTickResult → RecoveryTickResult
  count_executing (ok landed) r = record r { executing_advanced = suc r.executing_advanced }
  count_executing (ok dropped) r = record r { executing_failed = suc r.executing_failed }
  count_executing (ok pending) r = r
  count_executing (err e) r = r

  unfoldable pub executing_loop :
      Rpc → ℕ → List PositionRow → World → RecoveryTickResult → World × RecoveryTickResult
  unfolding examine_executing
  executing_loop rpc now [] w r = (w, r)
  executing_loop rpc now (position ∷ rest) w r =
      executing_loop rpc now rest (examine_executing rpc now position w).1
        (count_executing (examine_executing rpc now position w).0 r)

  unfoldable pub examine_indexing : PositionRow → Task Bool
  unfolding advance_to
  examine_indexing position = do
    reconciled ← reconcile position.id
    if is_state reconciled.state active
        then (advance_to position active >> pure true)
        else pure false

  abbrev pub count_indexing : Result Error Bool → RecoveryTickResult → RecoveryTickResult
  count_indexing (ok true) r = record r { indexing_advanced = suc r.indexing_advanced }
  count_indexing (ok false) r = r
  count_indexing (err e) r = r

  unfoldable pub indexing_loop :
      List PositionRow → World → RecoveryTickResult → World × RecoveryTickResult
  unfolding examine_indexing
  indexing_loop [] w r = (w, r)
  indexing_loop (position ∷ rest) w r =
      indexing_loop rest (examine_indexing position w).1
        (count_indexing (examine_indexing position w).0 r)

-- What a scan of the store returns; the scans of the in-memory store do not throw.
abbrev pub scanned : Result Error (List PositionRow) → List PositionRow
scanned (ok rows) = rows
scanned (err e) = []

abbrev pub no_result : RecoveryTickResult
no_result = record {
  executing_checked = 0;
  executing_advanced = 0;
  executing_failed = 0;
  indexing_checked = 0;
  indexing_advanced = 0;
  failures_alerted = 0;
}

-- `last_failure_scan` lives in the worker, outside the store; `alerts` are the captured failures.
pub record Ticked : Type 0 where
  pub world : World
  pub result : RecoveryTickResult
  pub last_failure_scan : ℕ
  pub alerts : List PositionRow

-- The rows that have been in `state` since before `now - age`.
abbrev pub stuck_rows : ExecutionState → ℕ → ℕ → World → List PositionRow
stuck_rows state age now w = scanned (find_stuck_positions state (now - age) scan_batch_limit w).0

module _ {F : Type 0} (platform : Platform F) where
  unfoldable pub recover_executing : Rpc → ℕ → World → World × RecoveryTickResult
  unfolding executing_loop
  recover_executing rpc now w =
      let rows = stuck_rows executing_on_meteora executing_stuck_after_ms now w in
      executing_loop platform rpc now rows w (record no_result { executing_checked = length rows })

  unfoldable pub recover_indexing : ℕ → World → RecoveryTickResult → World × RecoveryTickResult
  unfolding indexing_loop
  recover_indexing now w r =
      let rows = stuck_rows indexing indexing_stuck_after_ms now w in
      indexing_loop platform rows w (record r { indexing_checked = length rows })

  unfoldable pub tick : Rpc → ℕ → ℕ → World → Ticked
  unfolding recover_executing recover_indexing
  tick rpc last_failure_scan now w =
      let (w₁, r₁) = recover_executing rpc now w in
      let (w₂, r₂) = recover_indexing now w₁ r₁ in
      let new_failures = scanned (find_recently_failed last_failure_scan scan_batch_limit w₂).0 in
      record {
        world = w₂;
        result = record r₂ { failures_alerted = length new_failures };
        last_failure_scan = now;
        alerts = new_failures;
      }
