-- ===== src/Lifecycle/Fixtures.antt =====
-- A wallet's deposit of 3 SOL, with an adapter that answers and a venue that takes deposits only.
use Prim.Native.Nat.{◌+◌}
use octora.Base.{leb, ℕ, zero, suc, String, true, ltb, none, ◌&◌}
use octora.Base.Effect.{ok, err}
use octora.Domain.{standard, add_liquidity}
use octora.Store.{World, external}
use octora.Platform.{
  Platform, PrivacyAdapter, PrivacyReceipt, MeteoraExecutor, relayer, prepare_funding_action,
  prepared,
}
use octora.Worker.{Rpc}
use octora.Position.Caps.{BetaCapsConfig, CreateDraftPositionIntentInput}
use octora.Position.Service.{create_draft_position_intent}
use octora.Lifecycle.{deposits, perform, empty}

abbrev pub uuid_text : ℕ → String
uuid_text zero = "u"
uuid_text (suc n) = "u" & uuid_text n

-- Whole numbers for floats: a text that is not empty counts as 3.
abbrev pub test_platform : Platform ℕ
test_platform = record {
  number = λ s. 3;
  is_finite = λ n. true;
  zero_number = 0;
  gt = λ m n. ltb n m;
  plus = λ m n. m + n;
  of_nat = λ n. n;
  ge = λ m n. leb n m;
  to_fixed_2 = λ n. "3.00";
  to_upper_case = λ s. s;
  to_iso_string = λ n. "2026-04-29T09:00:00.000Z";
  random_uuid = uuid_text;
}

abbrev pub test_caps : BetaCapsConfig ℕ
test_caps = record { max_position_sol = 5; max_global_tvl_sol = 100; max_positions_per_wallet = 2 }

abbrev pub test_input : CreateDraftPositionIntentInput
test_input = record {
  action = add_liquidity;
  amount = "3";
  pool = "sol-usdc";
  mode = standard;
  wallet_address = "wallet";
}

abbrev pub test_receipt : PrivacyReceipt
test_receipt = record {
  receipt_id = "r";
  adapter = relayer;
  action = prepare_funding_action;
  position_id = "u";
  pod_id = none;
  status = prepared;
  summary = "prepared";
  created_at_iso = "2026-04-29T09:00:00.000Z";
}

abbrev pub test_adapter : PrivacyAdapter
test_adapter = record {
  prepare_funding = λ i. ok test_receipt;
  prepare_exit = λ i. ok test_receipt;
}

abbrev pub test_executor : MeteoraExecutor
test_executor = record {
  add_liquidity = λ i. ok (record { signature = "sig" });
  claim = λ i. ok (record { signature = "sig" });
  withdraw_close = λ i. err (external "venue is down");
}

abbrev pub test_rpc : Rpc
test_rpc = λ s. err (external "node is down")

abbrev pub store_0 : World
store_0 = empty 7

abbrev pub store_1 : World
store_1 = (create_draft_position_intent test_platform test_caps test_input store_0).1

abbrev pub store_2 : World
store_2 = (perform test_platform test_adapter test_executor "u" (deposits "signed") store_1).1
