-- ===== src/Store.antt =====
-- The repositories of octora-api/src/modules/positions and modules/indexer, as their in-memory
-- implementation in octora-api/src/test-kit/memory-db.ts keeps them.
pub mod Queries
use octora.Base.{
  ℕ, suc, String, Bool, true, false, Option, none, some, List, [], ◌∷◌, ◌++◌, get_last?, set_last,
}
use octora.Base.Table.{lookup, insert, erase}
use octora.Base.Effect.{Result, ok, err, Effect}
use octora.Domain.{ExecutionMode, PositionAction, ExecutionState, FailureStage, SafeNextStep}

pub record PositionRow : Type 0 where
  pub id : String
  pub intent_id : String
  pub wallet_address : String
  pub action : PositionAction
  pub mode : ExecutionMode
  pub state : ExecutionState
  pub pool_slug : String
  pub amount : String
  pub created_at : ℕ
  pub updated_at : ℕ

pub record ExecutionSessionRow : Type 0 where
  pub id : String
  pub position_id : String
  pub state : ExecutionState
  pub failure_stage : Option FailureStage
  pub created_at : ℕ
  pub updated_at : ℕ

pub record ActivityRow : Type 0 where
  pub id : String
  pub position_id : String
  pub action : PositionAction
  pub state : ExecutionState
  pub headline : String
  pub detail : String
  pub safe_next_step : SafeNextStep
  pub created_at : ℕ

pub record PositionReconciliationRecord : Type 0 where
  pub position_id : String
  pub signature : Option String

-- What the services share. `stamp` is the date that a write puts into a row, `FIXED_DATE` in
-- memory-db.ts; `draws` counts the calls of `randomUUID`.
pub record World : Type 0 where
  pub positions : List (String × PositionRow)
  pub sessions : List (String × List ExecutionSessionRow)
  pub activities : List (String × List ActivityRow)
  pub entries : List (String × PositionReconciliationRecord)
  pub stamp : ℕ
  pub draws : ℕ

-- What a service throws. `external` is an error of an adapter, an executor or the RPC node.
pub data Error : Type 0 where
  wallet_required signed_message_required silent_downgrade : Error
  amount_not_positive position_cap wallet_cap tvl_cap : Error
  position_not_found session_not_found : String → Error
  position_must_be_active session_must_be_active : String → Error
  unsupported_action : PositionAction → Error
  invalid_transition : ExecutionState → ExecutionState → Error
  external : String → Error

abbrev pub Task : Type 0 → Type 0
Task = Effect World Error

pub record CreatePositionInput : Type 0 where
  pub id : String
  pub intent_id : String
  pub wallet_address : String
  pub action : PositionAction
  pub mode : ExecutionMode
  pub state : ExecutionState
  pub pool_slug : String
  pub amount : String

pub record CreateSessionInput : Type 0 where
  pub id : String
  pub position_id : String
  pub state : ExecutionState
  pub failure_stage : Option FailureStage

pub record CreateActivityInput : Type 0 where
  pub id : String
  pub position_id : String
  pub action : PositionAction
  pub state : ExecutionState
  pub headline : String
  pub detail : String
  pub safe_next_step : SafeNextStep

-- `list ?? []`
abbrev pub or_empty {ℓ} : {A : Type ℓ} → Option (List A) → List A
or_empty none = []
or_empty (some xs) = xs

unfoldable pub create_position : CreatePositionInput → Task PositionRow
create_position input w =
    let row : PositionRow = record {
      id = input.id;
      intent_id = input.intent_id;
      wallet_address = input.wallet_address;
      action = input.action;
      mode = input.mode;
      state = input.state;
      pool_slug = input.pool_slug;
      amount = input.amount;
      created_at = w.stamp;
      updated_at = w.stamp;
    } in
    (ok row, record w { positions = insert input.id row w.positions })

unfoldable pub get_position_by_id : String → Task (Option PositionRow)
get_position_by_id position_id w = (ok (lookup position_id w.positions), w)

unfoldable pub update_position_state : String → ExecutionState → Task PositionRow
update_position_state position_id state w = elim (lookup position_id w.positions) [
  | none ↦ (err (position_not_found position_id), w)
  | some current ↦
      let row = record current { state = state; updated_at = w.stamp } in
      (ok row, record w { positions = insert position_id row w.positions })
]

unfoldable pub create_execution_session : CreateSessionInput → Task ExecutionSessionRow
create_execution_session input w =
    let row : ExecutionSessionRow = record {
      id = input.id;
      position_id = input.position_id;
      state = input.state;
      failure_stage = input.failure_stage;
      created_at = w.stamp;
      updated_at = w.stamp;
    } in
    let items = or_empty (lookup input.position_id w.sessions) in
    (ok row, record w { sessions = insert input.position_id (items ++ row ∷ []) w.sessions })

abbrev pub latest : String → World → Option ExecutionSessionRow
latest position_id w = get_last? (or_empty (lookup position_id w.sessions))

unfoldable pub update_execution_session :
    String → ExecutionState → Option FailureStage → Task ExecutionSessionRow
update_execution_session position_id state failure_stage w = elim (latest position_id w) [
  | none ↦ (err (session_not_found position_id), w)
  | some current ↦
      let row = record current {
        state = state;
        failure_stage = failure_stage;
        updated_at = w.stamp;
      } in
      let items = or_empty (lookup position_id w.sessions) in
      (ok row, record w { sessions = insert position_id (set_last row items) w.sessions })
]

unfoldable pub get_latest_execution_session : String → Task (Option ExecutionSessionRow)
get_latest_execution_session position_id w = (ok (latest position_id w), w)

unfoldable pub create_activity : CreateActivityInput → Task ActivityRow
create_activity input w =
    let row : ActivityRow = record {
      id = input.id;
      position_id = input.position_id;
      action = input.action;
      state = input.state;
      headline = input.headline;
      detail = input.detail;
      safe_next_step = input.safe_next_step;
      created_at = w.stamp;
    } in
    let items = or_empty (lookup input.position_id w.activities) in
    (ok row, record w { activities = insert input.position_id (items ++ row ∷ []) w.activities })

unfoldable pub list_activities : String → Task (List ActivityRow)
list_activities position_id w = (ok (or_empty (lookup position_id w.activities)), w)

unfoldable pub load_reconciliation : String → Task (Option PositionReconciliationRecord)
load_reconciliation position_id w = (ok (lookup position_id w.entries), w)

unfoldable pub save_reconciliation :
    PositionReconciliationRecord → Task PositionReconciliationRecord
save_reconciliation r w = (ok r, record w { entries = insert r.position_id r w.entries })

unfoldable pub clear_reconciliation : String → Task (Unit {0})
clear_reconciliation position_id w = (ok tt, record w { entries = erase position_id w.entries })
