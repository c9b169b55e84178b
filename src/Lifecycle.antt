-- ===== src/Lifecycle.antt =====
-- A position's life under any sequence of calls, reads, ticks and clock moves: the position service
-- and the recovery worker of octora-api/src/modules/positions over one store.
pub mod Spec
pub mod Walks
pub mod Reached
pub mod Final
pub mod Fixtures
mod Tests
use octora.Base.{ℕ, String, List, [], Option, none, some}
use octora.Base.Effect.{Effect}
use octora.Store.{World, Task, Error, PositionRow, PositionReconciliationRecord}
use octora.Platform.{Platform, PrivacyAdapter, MeteoraExecutor}
use octora.Position.Reply.{PositionResponse}
use octora.Position.Caps.{BetaCapsConfig, CreateDraftPositionIntentInput}
use octora.Position.Service.{
  create_draft_position_intent, execute_signed_intent, claim_position, withdraw_close_position,
  get_position,
}
use octora.Position.Outcome.{Verdict, execute_verdict, claim_verdict, withdraw_verdict}
use octora.Position.Refusals.{exit_refusal, deposit_refusal}
use octora.Worker.{Rpc, Ticked, tick}

-- The three calls that move an existing position.
pub data Order : Type 0 where
  deposits : String → Order
  claims withdraws : Order

-- The methods of `createPositionService` behind the three calls.
unfoldable pub perform :
    {F : Type 0}
    → Platform F
    → PrivacyAdapter
    → MeteoraExecutor
    → String
    → Order
    → Task PositionResponse
perform platform adapter executor id (deposits message) =
    execute_signed_intent platform adapter executor
      (record { position_id = id; signed_message = message })
perform platform adapter executor id claims = claim_position platform adapter executor id
perform platform adapter executor id withdraws =
    withdraw_close_position platform adapter executor id

-- The specification: when an order is refused, and how it ends otherwise.
abbrev pub refusal : Order → String → World → Option Error
refusal (deposits message) id w = deposit_refusal id message w
refusal claims id w = exit_refusal id w
refusal withdraws id w = exit_refusal id w

abbrev pub verdict :
    PrivacyAdapter
    → MeteoraExecutor
    → Order
    → PositionRow
    → Option PositionReconciliationRecord
    → Verdict
verdict adapter executor (deposits message) = execute_verdict adapter executor
verdict adapter executor claims = claim_verdict adapter executor
verdict adapter executor withdraws = withdraw_verdict adapter executor

-- One thing that may happen to the store; each call may meet another adapter and executor, with
-- other answers, and `passes` moves the clock.
pub data Step {F : Type 0} (platform : Platform F) (caps : BetaCapsConfig F) (w : World)
    : World → Type 0 where
  creates :
      (input : CreateDraftPositionIntentInput)
      → Step platform caps w (create_draft_position_intent platform caps input w).1
  orders :
      (adapter : PrivacyAdapter) (executor : MeteoraExecutor) (id : String) (order : Order)
      → Step platform caps w (perform platform adapter executor id order w).1
  reads : (id : String) → Step platform caps w (get_position platform id w).1
  ticks : (rpc : Rpc) (last now : ℕ) → Step platform caps w (tick platform rpc last now w).world
  passes : (stamp : ℕ) → Step platform caps w (record w { stamp = stamp })

pub data Reach {F : Type 0} (platform : Platform F) (caps : BetaCapsConfig F) (w : World)
    : World → Type 0 where
  here : Reach platform caps w w
  next : {u v : World} → Reach platform caps w u → Step platform caps u v → Reach platform caps w v

-- The store before the first intent.
abbrev pub empty : ℕ → World
empty stamp = record {
  positions = [];
  sessions = [];
  activities = [];
  entries = [];
  stamp = stamp;
  draws = 0;
}
