-- ===== src/Platform.antt =====
-- What the position service takes from outside the repository's own code: JavaScript's numbers
-- and text functions, `randomUUID`, and the two ports of octora-api/src/modules/execution.
use octora.Base.{ℕ, String, Bool, Option}
use octora.Base.Effect.{Result}
use octora.Domain.{ExecutionMode}
use octora.Store.{Error}

-- `Number(text)` and the operations on its values that the code calls; `F` is the type of floats.
pub record Platform (F : Type 0) : Type 0 where
  pub number : String → F
  pub is_finite : F → Bool
  pub zero_number : F
  pub of_nat : ℕ → F
  pub gt : F → F → Bool
  pub ge : F → F → Bool
  pub plus : F → F → F
  pub to_fixed_2 : F → String
  pub to_upper_case : String → String
  pub to_iso_string : ℕ → String
  pub random_uuid : ℕ → String

pub data AdapterName : Type 0 where
  mock magicblock relayer : AdapterName

pub data ReceiptAction : Type 0 where
  prepare_funding_action prepare_exit_action : ReceiptAction

pub data ReceiptStatus : Type 0 where
  prepared not_live : ReceiptStatus

pub record PrepareFundingInput : Type 0 where
  pub position_id : String
  pub intent_id : String
  pub pool_slug : String
  pub amount : String
  pub mode : ExecutionMode
  pub stealth_pubkey : Option String

pub record PrepareExitInput : Type 0 where
  pub position_id : String
  pub intent_id : String
  pub mode : ExecutionMode

pub record PrivacyReceipt : Type 0 where
  pub receipt_id : String
  pub adapter : AdapterName
  pub action : ReceiptAction
  pub position_id : String
  pub pod_id : Option String
  pub status : ReceiptStatus
  pub summary : String
  pub created_at_iso : String

-- One call of a port either gives a receipt or throws.
pub record PrivacyAdapter : Type 0 where
  pub prepare_funding : PrepareFundingInput → Result Error PrivacyReceipt
  pub prepare_exit : PrepareExitInput → Result Error PrivacyReceipt

pub record AddLiquidityInput : Type 0 where
  pub pod_id : String
  pub amount_sol : String

pub record ExitInput : Type 0 where
  pub pod_id : String
  pub position_id : String

pub record MeteoraExecutionReceipt : Type 0 where
  pub signature : String

pub record MeteoraExecutor : Type 0 where
  pub add_liquidity : AddLiquidityInput → Result Error MeteoraExecutionReceipt
  pub claim : ExitInput → Result Error MeteoraExecutionReceipt
  pub withdraw_close : ExitInput → Result Error MeteoraExecutionReceipt
