-- ===== src/Position/Service/Exits.antt =====
-- `claimPosition` and `withdrawClosePosition` of
-- octora-api/src/modules/positions/position.service.ts.
use octora.Base.{String, false, none, ◌&◌}
use octora.Base.Effect.{◌>>=◌, ◌>>◌, pure, lift, attempt}
use octora.Domain.{
  indexing, claiming, withdrawing, closing, completed, venue_submission, venue_confirmation, wait,
}
use octora.Store.{
  Task, PositionRow, ExecutionSessionRow, update_position_state, update_execution_session,
}
use octora.Platform.{Platform, PrivacyAdapter, MeteoraExecutor, MeteoraExecutionReceipt}
use octora.Recovery.{or_else, resolve_execution_mode}
use octora.Services.{record_activity, list}
use octora.Position.Reply.{PositionResponse, build_response}
use octora.Position.Service.Steps.{
  assert_transition, get_active_position, get_latest_active_session, record_failure,
}

module _ {F : Type 0} (platform : Platform F) where
  -- `claimPosition` after the exit receipt and the venue receipt.
  unfoldable pub finish_claim :
      String → PositionRow → ExecutionSessionRow → MeteoraExecutionReceipt → Task PositionResponse
  finish_claim position_id position claiming_session venue_receipt = do
    assert_transition claiming_session.state indexing
    indexing_position ← update_position_state position.id indexing
    indexing_session ← update_execution_session position_id indexing none
    record_activity platform indexing_position indexing "Reconciling claim"
        ("Meteora returned " & venue_receipt.signature
          & "; Octora is reconciling the claim before finishing the flow.")
        wait
    assert_transition indexing_session.state completed
    completed_position ← update_position_state position.id completed
    completed_session ← update_execution_session position_id completed none
    record_activity platform completed_position completed "Claim completed"
        "Fees have been claimed and the position is settled." wait
    activities ← list position_id
    pure (build_response platform completed_position completed_session activities)

  unfoldable pub claim_position : PrivacyAdapter → MeteoraExecutor → String → Task PositionResponse
  unfolding finish_claim
  claim_position adapter executor position_id = do
    position ← get_active_position position_id
    session ← get_latest_active_session position_id
    resolved ← lift (
        resolve_execution_mode (record {
          selected_mode = position.mode;
          fallback_mode = none;
          surfaced_fallback = false;
        }))
    assert_transition session.state claiming
    claiming_position ← update_position_state position.id claiming
    claiming_session ← update_execution_session position_id claiming none
    record_activity platform claiming_position claiming "Claiming fees"
        "Octora is claiming the available fees and keeping the position flow private." wait
    attempt
        (adapter.prepare_exit (record {
          position_id = position.id;
          intent_id = position.intent_id;
          mode = resolved.mode;
        }))
        (λ error. record_failure platform position venue_submission)
        λ exit_receipt.
          attempt
            (executor.claim (record {
              pod_id = or_else exit_receipt.pod_id position.id;
              position_id = position.id;
            }))
            (λ error. record_failure platform position venue_confirmation)
            λ venue_receipt. finish_claim position_id position claiming_session venue_receipt

  -- `withdrawClosePosition` after the exit receipt and the venue receipt.
  unfoldable pub finish_withdraw :
      String → PositionRow → ExecutionSessionRow → MeteoraExecutionReceipt → Task PositionResponse
  finish_withdraw position_id position withdrawing_session venue_receipt = do
    assert_transition withdrawing_session.state closing
    closing_position ← update_position_state position.id closing
    closing_session ← update_execution_session position_id closing none
    record_activity platform closing_position closing "Closing position"
        ("Meteora returned " & venue_receipt.signature
          & "; Octora is finalizing the close and reconciling balances.")
        wait
    assert_transition closing_session.state indexing
    indexing_position ← update_position_state position.id indexing
    indexing_session ← update_execution_session position_id indexing none
    record_activity platform indexing_position indexing "Reconciling exit"
        "Octora is checking the final position state before marking the exit complete." wait
    assert_transition indexing_session.state completed
    completed_position ← update_position_state position.id completed
    completed_session ← update_execution_session position_id completed none
    record_activity platform completed_position completed "Withdraw-close completed"
        "Your position has been withdrawn and closed." wait
    activities ← list position_id
    pure (build_response platform completed_position completed_session activities)

  unfoldable pub withdraw_close_position :
      PrivacyAdapter → MeteoraExecutor → String → Task PositionResponse
  unfolding finish_withdraw
  withdraw_close_position adapter executor position_id = do
    position ← get_active_position position_id
    session ← get_latest_active_session position_id
    resolved ← lift (
        resolve_execution_mode (record {
          selected_mode = position.mode;
          fallback_mode = none;
          surfaced_fallback = false;
        }))
    assert_transition session.state withdrawing
    withdrawing_position ← update_position_state position.id withdrawing
    withdrawing_session ← update_execution_session position_id withdrawing none
    record_activity platform withdrawing_position withdrawing "Withdrawing liquidity"
        "Octora is removing the position through the private execution boundary." wait
    attempt
        (adapter.prepare_exit (record {
          position_id = position.id;
          intent_id = position.intent_id;
          mode = resolved.mode;
        }))
        (λ error. record_failure platform position venue_submission)
        λ exit_receipt.
          attempt
            (executor.withdraw_close (record {
              pod_id = or_else exit_receipt.pod_id position.id;
              position_id = position.id;
            }))
            (λ error. record_failure platform position venue_confirmation)
            λ venue_receipt. finish_withdraw position_id position withdrawing_session venue_receipt
