-- ===== src/Position/Service/Deposits.antt =====
-- `executeSignedIntent` of
-- octora-api/src/modules/positions/position.service.ts.
use octora.Base.{String, false, not, none, ◌===◌, ◌&◌}
use octora.Base.Effect.{◌>>=◌, ◌>>◌, pure, lift, guard, or_throw, attempt}
use octora.Domain.{
  funding_in_progress, executing_on_meteora, indexing, pre_funding, funding_partial, wait,
  is_add_liquidity,
}
use octora.Store.{
  Task, PositionRow, ExecutionSessionRow, signed_message_required, position_not_found,
  unsupported_action, get_position_by_id, update_position_state, update_execution_session,
  get_latest_execution_session,
}
use octora.Platform.{
  Platform, PrivacyAdapter, PrivacyReceipt, MeteoraExecutor, MeteoraExecutionReceipt,
}
use octora.Recovery.{or_else, resolve_execution_mode}
use octora.Services.{record_activity, list, begin_reconciliation, register_snapshot}
use octora.Position.Reply.{PositionResponse, build_response, format_amount}
use octora.Position.Service.Steps.{assert_transition, record_failure}

pub record ExecuteSignedIntentInput : Type 0 where
  pub position_id : String
  pub signed_message : String

module _ {F : Type 0} (platform : Platform F) where
  -- `executeSignedIntent` after the venue receipt.
  unfoldable pub finish_deposit :
      String → PositionRow → ExecutionSessionRow → MeteoraExecutionReceipt → Task PositionResponse
  finish_deposit position_id position executing_session venue_receipt = do
    assert_transition executing_session.state indexing
    begin_reconciliation position.id
    indexing_position ← update_position_state position_id indexing
    indexing_session ← update_execution_session position_id indexing none
    record_activity platform indexing_position indexing "Verifying final position state"
        ("Meteora returned " & venue_receipt.signature
          & "; Octora is checking the final position state before activating it.")
        wait
    register_snapshot position.id venue_receipt.signature
    activities ← list position_id
    pure (build_response platform indexing_position indexing_session activities)

  -- `executeSignedIntent` after the funding receipt.
  unfoldable pub submit_deposit :
      MeteoraExecutor
      → String
      → PositionRow
      → ExecutionSessionRow
      → PrivacyReceipt
      → Task PositionResponse
  unfolding finish_deposit
  submit_deposit executor position_id position funding_session funding_receipt = do
    assert_transition funding_session.state executing_on_meteora
    executing_session ← update_execution_session position_id executing_on_meteora none
    record_activity platform position executing_on_meteora "Submitting to Meteora"
        ("Prepared the execution pod "
          & or_else funding_receipt.pod_id "unknown"
          & " for onchain submission.")
        wait
    attempt
        (executor.add_liquidity (record {
          pod_id = or_else funding_receipt.pod_id position.id;
          amount_sol = position.amount;
        }))
        (λ error. record_failure platform position funding_partial)
        λ venue_receipt. finish_deposit position_id position executing_session venue_receipt

  unfoldable pub execute_signed_intent :
      PrivacyAdapter → MeteoraExecutor → ExecuteSignedIntentInput → Task PositionResponse
  unfolding submit_deposit
  execute_signed_intent adapter executor input = do
    guard (not (input.signed_message === "")) signed_message_required
    found ← get_position_by_id input.position_id
    position ← or_throw found (position_not_found input.position_id)
    found_session ← get_latest_execution_session input.position_id
    session ← or_throw found_session (position_not_found input.position_id)
    guard (is_add_liquidity position.action) (unsupported_action position.action)
    resolved ← lift (
        resolve_execution_mode (record {
          selected_mode = position.mode;
          fallback_mode = none;
          surfaced_fallback = false;
        }))
    assert_transition session.state funding_in_progress
    funding_session ← update_execution_session input.position_id funding_in_progress none
    record_activity platform position funding_in_progress "Funding started"
        ("Routing " & format_amount platform position.amount & " into the execution boundary.") wait
    attempt
        (adapter.prepare_funding (record {
          position_id = position.id;
          intent_id = position.intent_id;
          pool_slug = position.pool_slug;
          amount = position.amount;
          mode = resolved.mode;
          stealth_pubkey = none;
        }))
        (λ error. record_failure platform position pre_funding)
        λ funding_receipt.
          submit_deposit executor input.position_id position funding_session funding_receipt
