-- ===== src/Position/Calls/Endings.antt =====
-- How the calls end, after their last answer from outside or at a failure.
use mathlib.Core.List.{append_assoc}
use octora.Base.{String, ◌≡◌, refl, true, Option, none, some, List, [], ◌∷◌, ◌++◌}
use octora.Base.Effect.{Result, ◌>>=◌}
use octora.Domain.{
  ExecutionState, executing_on_meteora, indexing, claiming, withdrawing, closing, completed, failed,
  FailureStage, wait, can_transition,
}
use octora.Store.{
  World, Task, PositionRow, ExecutionSessionRow, PositionReconciliationRecord, Error,
  update_position_state, update_execution_session,
}
use octora.Platform.{Platform, MeteoraExecutionReceipt}
use octora.Services.{record_activity}
use octora.Position.Reply.{PositionResponse}
use octora.Position.Service.{
  assert_transition, record_failure, finish_claim, finish_deposit, finish_withdraw,
}
use octora.Position.Rules.{
  At, moved, moved_session, update_position_state-At, update_execution_session-At,
  begin_reconciliation-At, register_snapshot-At, guard_rule, step_rule, activity_rule, reply_rule,
}
use octora.Position.Outcome.{Ends, failing}

module _ {F : Type 0} (platform : Platform F) {w₀ w : World} {id : String} {p : PositionRow}
    {s : ExecutionSessionRow} {e : Option PositionReconciliationRecord} {t : List ExecutionState}
    (at : At w₀ id w p s e t) where
  pub record_failure-Ends :
      (q : PositionRow) (stage : FailureStage)
      → q.id ≡ id
      → Ends platform w₀ id p s t (failing stage e) (record_failure platform q stage w)
  unfolding record_failure
  record_failure-Ends q stage k =
      let Q = Ends platform w₀ id p s t (failing stage e) in
      step_rule Q _ _ (update_position_state-At at q.id failed k) λ w₁ at₁.
        step_rule Q _ _ (update_execution_session-At at₁ q.id failed (some stage) k) λ w₂ at₂.
          activity_rule Q platform at₂ (moved w₀ p failed) failed _ _ _ _ at.own
            λ a w₃ at₃. reply_rule Q platform q.id _ _ w₃ (record { at = at₃; reply = rw k })

  -- The end of an exit that the venue has confirmed: one state after another, each with its entry.
  pub finish_step :
      (Q : Result Error PositionResponse × World → Type 0) (from to : ExecutionState) (j : String)
      (text : String) (detail : String)
      (f : PositionRow → ExecutionSessionRow → Task PositionResponse)
      → s.state ≡ from
      → can_transition from to ≡ true
      → j ≡ id
      → ((w' : World)
          → At w₀ id w' (moved w₀ p to) (moved_session w₀ s to none) e (t ++ to ∷ [])
          → Q (f (moved w₀ p to) (moved_session w₀ s to none) w'))
      → Q (
          (assert_transition s.state to >>= λ _. update_position_state j to >>= λ q.
          update_execution_session id to none >>= λ s'.
          record_activity platform q to text detail wait >>= λ _. f q s')
            w)
  unfolding assert_transition
  finish_step Q from to j text detail f h c k q = guard_rule Q _ _ w (rw h c) (
      step_rule Q _ _ (update_position_state-At at j to k) λ w₁ at₁.
        step_rule Q _ _ (update_execution_session-At at₁ id to none refl)
          λ w₂ at₂. activity_rule Q platform at₂ (moved w₀ p to) to _ _ _ _ at.own λ a. q)

module _ {F : Type 0} (platform : Platform F) {w₀ w : World} {id : String} {p : PositionRow}
    {s : ExecutionSessionRow} {e : Option PositionReconciliationRecord} {t : List ExecutionState}
    (at : At w₀ id w p s e t) where
  pub finish_claim-Ends :
      (q : PositionRow) (venue : MeteoraExecutionReceipt)
      → q.id ≡ id
      → s.state ≡ claiming
      → Ends platform w₀ id p s t
          (record { state = completed; stage = none; steps = indexing ∷ completed ∷ []; entry = e })
          (finish_claim platform id q s venue w)
  unfolding finish_claim can_transition
  finish_claim-Ends q venue k h =
      let Q = Ends platform w₀ id p s t (record {
        state = completed;
        stage = none;
        steps = indexing ∷ completed ∷ [];
        entry = e;
      }) in
      finish_step platform at Q claiming indexing q.id _ _ _ h refl k λ w₁ at₁.
        finish_step platform at₁ Q indexing completed q.id _ _ _ refl refl k λ w₂ at₂.
          reply_rule Q platform id _ _ w₂ (record { at = rw append_assoc at at₂; reply = refl })

  pub finish_withdraw-Ends :
      (q : PositionRow) (venue : MeteoraExecutionReceipt)
      → q.id ≡ id
      → s.state ≡ withdrawing
      → Ends platform w₀ id p s t
          (record {
            state = completed;
            stage = none;
            steps = closing ∷ indexing ∷ completed ∷ [];
            entry = e;
          })
          (finish_withdraw platform id q s venue w)
  unfolding finish_withdraw can_transition
  finish_withdraw-Ends q venue k h =
      let Q = Ends platform w₀ id p s t (record {
        state = completed;
        stage = none;
        steps = closing ∷ indexing ∷ completed ∷ [];
        entry = e;
      }) in
      finish_step platform at Q withdrawing closing q.id _ _ _ h refl k λ w₁ at₁.
        finish_step platform at₁ Q closing indexing q.id _ _ _ refl refl k λ w₂ at₂.
          finish_step platform at₂ Q indexing completed q.id _ _ _ refl refl k λ w₃ at₃.
            reply_rule Q platform id _ _ w₃ (record { at = simp append_assoc at at₃; reply = refl })

  pub finish_deposit-Ends :
      (q : PositionRow) (venue : MeteoraExecutionReceipt)
      → q.id ≡ id
      → s.state ≡ executing_on_meteora
      → Ends platform w₀ id p s t
          (record {
            state = indexing;
            stage = none;
            steps = indexing ∷ [];
            entry = some (record { position_id = q.id; signature = some venue.signature });
          })
          (finish_deposit platform id q s venue w)
  unfolding finish_deposit can_transition assert_transition
  finish_deposit-Ends q venue k h =
      let Q = Ends platform w₀ id p s t (record {
        state = indexing;
        stage = none;
        steps = indexing ∷ [];
        entry = some (record { position_id = q.id; signature = some venue.signature });
      }) in
      let (a, r) = begin_reconciliation-At at q.id k in
      guard_rule Q _ _ w (rw h refl) (
        step_rule Q _ _ r λ w₁ at₁.
          step_rule Q _ _ (update_position_state-At at₁ id indexing refl) λ w₂ at₂.
            step_rule Q _ _ (update_execution_session-At at₂ id indexing none refl) λ w₃ at₃.
              activity_rule Q platform at₃ (moved w₀ p indexing) indexing _ _ _ _ at.own λ b w₄ at₄.
                step_rule Q _ _ (register_snapshot-At at₄ q.id venue.signature k)
                  λ w₅ at₅. reply_rule Q platform id _ _ w₅ (record { at = at₅; reply = refl }))
