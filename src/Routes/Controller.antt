-- ===== src/Routes/Controller.antt =====
-- The handlers of octora-api/src/modules/positions/position.controller.ts.
use octora.Base.{ℕ, String, Option, none, some, ◌===◌, if◌then◌else◌}
use octora.Base.Table.{lookup}
use octora.Base.Effect.{Result, ok, err}
use octora.Domain.{PositionAction, ExecutionMode}
use octora.Store.{
  World, Task, PositionRow, Error, position_not_found, amount_not_positive, position_cap,
  wallet_cap, tvl_cap,
}
use octora.Platform.{Platform, PrivacyAdapter, MeteoraExecutor}
use octora.Position.Reply.{PositionResponse}
use octora.Position.Caps.{BetaCapsConfig}
use octora.Position.Service.{
  create_draft_position_intent, execute_signed_intent, claim_position, withdraw_close_position,
  get_position,
}
use octora.Auth.{AuthenticatedWallet, given}

pub record CreateIntentBody : Type 0 where
  pub action : PositionAction
  pub amount : String
  pub pool : String
  pub mode : ExecutionMode

-- What a handler sends, or the error that it leaves to the framework.
pub data HandlerReply : Type 0 where
  created replied : PositionResponse → HandlerReply
  wallet_required no_such_position foreign_position cap_exceeded : HandlerReply
  throws : Error → HandlerReply

-- `reply.code(...)`
abbrev pub reply_code : HandlerReply → ℕ
reply_code (created response) = 201
reply_code (replied response) = 200
reply_code wallet_required = 401
reply_code no_such_position = 404
reply_code foreign_position = 403
reply_code cap_exceeded = 429
reply_code (throws error) = 500

abbrev pub address_of : Option AuthenticatedWallet → Option String
address_of none = none
address_of (some wallet) = some wallet.address

unfoldable pub require_wallet : Option AuthenticatedWallet → Result HandlerReply String
require_wallet wallet = elim (given (address_of wallet)) [
  | none ↦ err wallet_required
  | some address ↦ ok address
]

abbrev pub owner_of : String → Option PositionRow → Result HandlerReply String
owner_of wallet none = err no_such_position
owner_of wallet (some position) =
    if position.wallet_address === wallet then ok wallet else err foreign_position

-- The row is only read.
unfoldable pub require_position_owner :
    Option AuthenticatedWallet → String → World → Result HandlerReply String
require_position_owner wallet position_id w = elim (require_wallet wallet) [
  | err reply ↦ err reply
  | ok address ↦ owner_of address (lookup position_id w.positions)
]

abbrev pub answered : Result Error PositionResponse → HandlerReply
answered (ok response) = replied response
answered (err (position_not_found id)) = no_such_position
answered (err error) = throws error

abbrev pub intent_answered : Result Error PositionResponse → HandlerReply
intent_answered (ok response) = created response
intent_answered (err amount_not_positive) = cap_exceeded
intent_answered (err position_cap) = cap_exceeded
intent_answered (err wallet_cap) = cap_exceeded
intent_answered (err tvl_cap) = cap_exceeded
intent_answered (err error) = throws error

-- A service call of the owner of the position, after `requirePositionOwner`.
unfoldable pub as_owner :
    Option AuthenticatedWallet → String → Task PositionResponse → World → HandlerReply × World
as_owner wallet position_id call w = elim (require_position_owner wallet position_id w) [
  | err reply ↦ (reply, w)
  | ok address ↦ (answered (call w).0, (call w).1)
]

module _ {F : Type 0} (platform : Platform F) where
  unfoldable pub create_intent :
      BetaCapsConfig F
      → Option AuthenticatedWallet
      → CreateIntentBody
      → World
      → HandlerReply × World
  create_intent caps wallet body w = elim (require_wallet wallet) [
    | err reply ↦ (reply, w)
    | ok address ↦
        let call =
          create_draft_position_intent platform caps
            (record {
              action = body.action;
              amount = body.amount;
              pool = body.pool;
              mode = body.mode;
              wallet_address = address;
            })
            w in
        (intent_answered call.0, call.1)
  ]

  -- `getPosition` asks for no wallet.
  unfoldable pub read_position : String → World → HandlerReply × World
  read_position position_id w =
      let call = get_position platform position_id w in (answered call.0, call.1)

  module _ (adapter : PrivacyAdapter) (executor : MeteoraExecutor) where
    unfoldable pub execute_intent :
        Option AuthenticatedWallet → String → String → World → HandlerReply × World
    execute_intent wallet id message = as_owner wallet id (
        execute_signed_intent platform adapter executor
          (record { position_id = id; signed_message = message }))

    unfoldable pub claim_handler :
        Option AuthenticatedWallet → String → World → HandlerReply × World
    claim_handler wallet id = as_owner wallet id (claim_position platform adapter executor id)

    unfoldable pub withdraw_close_handler :
        Option AuthenticatedWallet → String → World → HandlerReply × World
    withdraw_close_handler wallet id =
        as_owner wallet id (withdraw_close_position platform adapter executor id)
