-- ===== src/Position/Calls/Whole.antt =====
-- The whole calls, for every answer of the adapter and the executor.
use octora.Base.{String, ◌≡◌, refl, false, Option, none, List, ◌===◌}
use octora.Base.Effect.{or_throw}
use octora.Domain.{
  ExecutionState, awaiting_signature, funding_in_progress, executing_on_meteora, active, claiming,
  withdrawing, pre_funding, funding_partial, venue_submission, venue_confirmation, can_transition,
  add_liquidity,
}
use octora.Store.{World, PositionRow, ExecutionSessionRow, PositionReconciliationRecord}
use octora.Platform.{Platform, PrivacyAdapter, PrivacyReceipt, MeteoraExecutor}
use octora.Position.Service.{
  assert_transition, claim_position, submit_deposit, withdraw_close_position, execute_signed_intent,
}
use octora.Position.Rules.{
  At, get_position_by_id_at, get_latest_execution_session_at, get_active_position_at,
  get_latest_active_session_at, update_execution_session-At, guard_rule, call_rule, step_rule,
  resolve_rule, attempt_rule, activity_rule,
}
use octora.Position.Outcome.{
  deposited, liquidity_input, Ends, Ends-after, Ends-after_session, claim_verdict, withdraw_verdict,
  execute_verdict,
}
use octora.Position.Calls.Endings.{
  finish_step, record_failure-Ends, finish_claim-Ends, finish_withdraw-Ends, finish_deposit-Ends,
}

module _ {F : Type 0} (platform : Platform F) (executor : MeteoraExecutor) {w₀ w : World}
    {id : String} {p : PositionRow} {s : ExecutionSessionRow}
    {e : Option PositionReconciliationRecord} {t : List ExecutionState}
    (at : At w₀ id w p s e t) where
  submit_deposit-Ends :
      (receipt : PrivacyReceipt)
      → s.state ≡ funding_in_progress
      → Ends platform w₀ id p s t
          (deposited p e (executor.add_liquidity (liquidity_input p receipt)))
          (submit_deposit platform executor id p s receipt w)
  unfolding submit_deposit can_transition assert_transition
  submit_deposit-Ends receipt hs =
      let Q =
        Ends platform w₀ id p s t
          (deposited p e (executor.add_liquidity (liquidity_input p receipt))) in
      guard_rule Q _ _ w (rw hs refl) (
        step_rule Q _ _ (update_execution_session-At at id executing_on_meteora none refl) λ w₁ at₁.
          activity_rule Q platform at₁ p executing_on_meteora _ _ _ _ at.own λ a w₂ at₂.
            attempt_rule Q _ _ _ w₂
              (λ x h. rw h (
                Ends-after_session executing_on_meteora
                  (record_failure-Ends platform at₂ p funding_partial at.own)))
              λ venue h. rw h (
                Ends-after_session executing_on_meteora
                  (finish_deposit-Ends platform at₂ p venue at.own refl)))

module _ {F : Type 0} (platform : Platform F) (adapter : PrivacyAdapter)
    (executor : MeteoraExecutor) {w₀ w : World} {id : String} {p : PositionRow}
    {s : ExecutionSessionRow} {e : Option PositionReconciliationRecord} {t : List ExecutionState}
    (at : At w₀ id w p s e t) where
  -- A claim on an active position ends as its specification says, whatever the adapter and the
  -- executor answer.
  pub claim_position-Ends :
      p.state ≡ active
      → s.state ≡ active
      → Ends platform w₀ id p s t
          (claim_verdict adapter executor p e)
          (claim_position platform adapter executor id w)
  unfolding claim_position can_transition
  claim_position-Ends hp hs =
      let Q = Ends platform w₀ id p s t (claim_verdict adapter executor p e) in
      call_rule Q _ _ (get_active_position_at at hp) (
        call_rule Q _ _ (get_latest_active_session_at at hs) (
          resolve_rule Q p.mode _ w (
            finish_step platform at Q active claiming p.id _ _ _ hs refl at.own λ w₁ at₁.
              attempt_rule Q _ _ _ w₁
                (λ x h. rw h (
                  Ends-after claiming (record_failure-Ends platform at₁ p venue_submission at.own)))
                λ receipt h.
                  attempt_rule Q _ _ _ w₁
                    (λ x g.
                      rw (h, g)
                        (Ends-after claiming
                          (record_failure-Ends platform at₁ p venue_confirmation at.own)))
                    λ venue g.
                      rw (h, g)
                        (Ends-after claiming
                          (finish_claim-Ends platform at₁ p venue at.own refl)))))

  -- So does a withdrawal.
  pub withdraw_close_position-Ends :
      p.state ≡ active
      → s.state ≡ active
      → Ends platform w₀ id p s t
          (withdraw_verdict adapter executor p e)
          (withdraw_close_position platform adapter executor id w)
  unfolding withdraw_close_position can_transition
  withdraw_close_position-Ends hp hs =
      let Q = Ends platform w₀ id p s t (withdraw_verdict adapter executor p e) in
      call_rule Q _ _ (get_active_position_at at hp) (
        call_rule Q _ _ (get_latest_active_session_at at hs) (
          resolve_rule Q p.mode _ w (
            finish_step platform at Q active withdrawing p.id _ _ _ hs refl at.own λ w₁ at₁.
              attempt_rule Q _ _ _ w₁
                (λ x h. rw h (
                  Ends-after withdrawing
                    (record_failure-Ends platform at₁ p venue_submission at.own)))
                λ receipt h.
                  attempt_rule Q _ _ _ w₁
                    (λ x g.
                      rw (h, g)
                        (Ends-after withdrawing
                          (record_failure-Ends platform at₁ p venue_confirmation at.own)))
                    λ venue g.
                      rw (h, g)
                        (Ends-after withdrawing
                          (finish_withdraw-Ends platform at₁ p venue at.own refl)))))

  -- A deposit on an intent that awaits its signature ends as its specification says.
  pub execute_signed_intent-Ends :
      (message : String)
      → (message === "") ≡ false
      → p.action ≡ add_liquidity
      → s.state ≡ awaiting_signature
      → Ends platform w₀ id p s t (execute_verdict adapter executor p e) (
          execute_signed_intent platform adapter executor
            (record { position_id = id; signed_message = message })
            w)
  unfolding execute_signed_intent can_transition assert_transition or_throw
  execute_signed_intent-Ends message hm ha hs =
      let Q = Ends platform w₀ id p s t (execute_verdict adapter executor p e) in
      guard_rule Q _ _ w (rw hm refl) (
        call_rule Q _ _ (get_position_by_id_at at) (
          call_rule Q _ _ refl (
            call_rule Q _ _ (get_latest_execution_session_at at) (
              call_rule Q _ _ refl (
                guard_rule Q _ _ w (rw ha refl) (
                  resolve_rule Q p.mode _ w (
                    guard_rule Q _ _ w (rw hs refl) (
                      step_rule Q _ _
                        (update_execution_session-At at id funding_in_progress none refl)
                        λ w₁ at₁.
                          activity_rule Q platform at₁ p funding_in_progress _ _ _ _ at.own
                            λ a w₂ at₂.
                              attempt_rule Q _ _ _ w₂
                                (λ x h. rw h (
                                  Ends-after_session funding_in_progress
                                    (record_failure-Ends platform at₂ p pre_funding at.own)))
                                λ receipt h. rw h (
                                  Ends-after_session funding_in_progress (
                                    submit_deposit-Ends platform executor at₂ receipt refl))))))))))
