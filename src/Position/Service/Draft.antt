-- ===== src/Position/Service/Draft.antt =====
-- `createDraftPositionIntent` of
-- octora-api/src/modules/positions/position.service.ts.
use octora.Base.{not, none, [], ◌∷◌, ◌===◌, ◌&◌}
use octora.Base.Effect.{◌>>=◌, ◌>>◌, pure, guard}
use octora.Domain.{draft, awaiting_signature, wait}
use octora.Store.{Task, wallet_required, create_position, create_execution_session}
use octora.Platform.{Platform}
use octora.Services.{uuid, record_activity}
use octora.Position.Reply.{PositionResponse, build_response, format_pool_label}
use octora.Position.Caps.{BetaCapsConfig, CreateDraftPositionIntentInput, assert_beta_caps}

module _ {F : Type 0} (platform : Platform F) where
  unfoldable pub create_draft_position_intent :
      BetaCapsConfig F → CreateDraftPositionIntentInput → Task PositionResponse
  create_draft_position_intent beta_caps input = do
    guard (not (input.wallet_address === "")) wallet_required
    assert_beta_caps platform beta_caps input
    position_id ← uuid platform
    intent_id ← uuid platform
    session_id ← uuid platform
    position ← create_position (record {
      id = position_id;
      intent_id = intent_id;
      wallet_address = input.wallet_address;
      action = input.action;
      mode = input.mode;
      state = draft;
      pool_slug = input.pool;
      amount = input.amount;
    })
    session ← create_execution_session (record {
      id = session_id;
      position_id = position_id;
      state = awaiting_signature;
      failure_stage = none;
    })
    activity ←
        record_activity platform position awaiting_signature "Intent received"
          ("Queued a draft "
            & format_pool_label platform input.pool
            & " position for signature review.")
          wait
    pure (build_response platform position session (activity ∷ []))
