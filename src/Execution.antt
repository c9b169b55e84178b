-- ===== src/Execution.antt =====
-- What stands behind the two ports of octora-api/src/modules/execution: the mock's pods
-- (infra/runtime/pod-runtime.ts), the three privacy adapters, and the two Meteora executors.
pub mod Stateless
mod Tests
use octora.Base.{
  ℕ, String, Bool, true, false, Option, none, some, List, [], ◌∷◌, ◌&◌, take, if◌then◌else◌,
}
use octora.Base.Table.{lookup, insert}
use octora.Base.Effect.{Result, ok, err, Effect, pure, throw, or_throw, ◌>>=◌, ◌>>◌}
use octora.Domain.{ExecutionMode}
use octora.Store.{Error, external}
use octora.Recovery.{or_else}
use octora.Platform.{
  AdapterName, mock, magicblock, relayer, prepare_funding_action, prepare_exit_action, prepared,
  PrepareFundingInput, PrepareExitInput, PrivacyReceipt, PrivacyAdapter, AddLiquidityInput,
  ExitInput, MeteoraExecutionReceipt, MeteoraExecutor,
}

pub data PodStatus : Type 0 where
  open_pod closed_pod : PodStatus

pub record PodRecord : Type 0 where
  pub id : String
  pub position_id : String
  pub mode : ExecutionMode
  pub status : PodStatus
  pub created_at_iso : String
  pub closed_at_iso : Option String

pub record CreatePodInput : Type 0 where
  pub position_id : String
  pub mode : ExecutionMode

abbrev pub Pods : Type 0
Pods = List (String × PodRecord)

abbrev pub mock_pod_timestamp_iso : String
mock_pod_timestamp_iso = "2026-04-29T09:00:00.000Z"

abbrev pub mock_receipt_timestamp_iso : String
mock_receipt_timestamp_iso = "2026-04-29T09:00:00.000Z"

abbrev pub format_pod_id : String → String
format_pod_id position_id = "pod-" & position_id

abbrev pub fresh_pod : CreatePodInput → PodRecord
fresh_pod input = record {
  id = format_pod_id input.position_id;
  position_id = input.position_id;
  mode = input.mode;
  status = open_pod;
  created_at_iso = mock_pod_timestamp_iso;
  closed_at_iso = none;
}

-- A pod that is there is given as it is, closed or not.
unfoldable pub create_pod : CreatePodInput → Effect Pods Error PodRecord
create_pod input pods = elim (lookup (format_pod_id input.position_id) pods) [
  | some existing ↦ (ok existing, pods)
  | none ↦ (ok (fresh_pod input), insert (format_pod_id input.position_id) (fresh_pod input) pods)
]

unfoldable pub get_pod : String → Effect Pods Error (Option PodRecord)
get_pod pod_id pods = (ok (lookup pod_id pods), pods)

abbrev pub close_one : String → PodStatus → PodRecord → Pods → Result Error PodRecord × Pods
close_one pod_id closed_pod pod pods = (ok pod, pods)
close_one pod_id open_pod pod pods =
    let closed = record pod { status = closed_pod; closed_at_iso = some mock_pod_timestamp_iso } in
    (ok closed, insert pod_id closed pods)

unfoldable pub close_pod : String → Effect Pods Error PodRecord
close_pod pod_id pods = elim (lookup pod_id pods) [
  | none ↦ (err (external ("Pod " & pod_id & " not found")), pods)
  | some pod ↦ close_one pod_id pod.status pod pods
]

-- `capabilities()`
pub record PrivacyCapabilities : Type 0 where
  pub adapter : AdapterName
  pub live : Bool
  pub mvp_ready : Bool
  pub deterministic_receipts : Bool

abbrev pub capabilities : AdapterName → PrivacyCapabilities
capabilities mock = record {
  adapter = mock;
  live = true;
  mvp_ready = true;
  deterministic_receipts = true;
}
capabilities magicblock = record {
  adapter = magicblock;
  live = false;
  mvp_ready = false;
  deterministic_receipts = false;
}
capabilities relayer = record {
  adapter = relayer;
  live = true;
  mvp_ready = true;
  deterministic_receipts = false;
}

unfoldable pub assert_live_mvp_adapter : PrivacyCapabilities → Result Error (Unit {0})
assert_live_mvp_adapter c =
    if c.live then ok tt else err (external "This privacy adapter is not live.")

abbrev pub build_mock_funding_receipt : String → PrepareFundingInput → PrivacyReceipt
build_mock_funding_receipt pod_id input = record {
  receipt_id = "mock-funding-" & input.position_id;
  adapter = mock;
  action = prepare_funding_action;
  position_id = input.position_id;
  pod_id = some pod_id;
  status = prepared;
  summary = "Prepared mock funding path for position " & input.position_id & ".";
  created_at_iso = mock_receipt_timestamp_iso;
}

abbrev pub build_mock_exit_receipt : String → PrepareExitInput → PrivacyReceipt
build_mock_exit_receipt pod_id input = record {
  receipt_id = "mock-exit-" & input.position_id;
  adapter = mock;
  action = prepare_exit_action;
  position_id = input.position_id;
  pod_id = some pod_id;
  status = prepared;
  summary = "Prepared mock exit path for position " & input.position_id & ".";
  created_at_iso = mock_receipt_timestamp_iso;
}

unfoldable pub mock_prepare_funding : PrepareFundingInput → Effect Pods Error PrivacyReceipt
unfolding ◌>>=◌
mock_prepare_funding input = do
  pod ← create_pod (record { position_id = input.position_id; mode = input.mode })
  pure (build_mock_funding_receipt pod.id input)

unfoldable pub mock_prepare_exit : PrepareExitInput → Effect Pods Error PrivacyReceipt
unfolding ◌>>=◌
mock_prepare_exit input = do
  pod ← create_pod (record { position_id = input.position_id; mode = input.mode })
  closed ← close_pod pod.id
  pure (build_mock_exit_receipt closed.id input)

-- `reason` is the option of the constructor.
abbrev pub magic_block_adapter : Option String → PrivacyAdapter
magic_block_adapter reason =
    let text = or_else reason "MagicBlock integration is not live in the MVP." in
    record {
      prepare_funding =
          λ input. err (external (text & " Use MockPrivacyAdapter for the product path."));
      prepare_exit =
          λ input. err (external (text & " Use MockPrivacyAdapter for the product path."));
    }

-- `generated` is the key of a fresh stealth wallet, `now` and `now_iso` the clock in its two prints, and
-- `first_8` is `slice(0, 8)`.
abbrev pub relayer_adapter :
    (first_8 : String → String) (generated now now_iso : String) → PrivacyAdapter
relayer_adapter first_8 generated now now_iso = record {
  prepare_funding = λ input.
      let stealth = or_else input.stealth_pubkey generated in
      ok (record {
        receipt_id = "relayer-funding-" & input.position_id & "-" & now;
        adapter = relayer;
        action = prepare_funding_action;
        position_id = input.position_id;
        pod_id = some stealth;
        status = prepared;
        summary =
            "Stealth wallet "
            & first_8 stealth
            & "... prepared for position "
            & input.position_id
            & ".";
        created_at_iso = now_iso;
      });
  prepare_exit = λ input. ok (record {
    receipt_id = "relayer-exit-" & input.position_id & "-" & now;
    adapter = relayer;
    action = prepare_exit_action;
    position_id = input.position_id;
    pod_id = none;
    status = prepared;
    summary =
        "Exit path prepared for position " & input.position_id
        & ". Funds will route through mixer back to user.";
    created_at_iso = now_iso;
  });
}

abbrev pub build_signature : String → String → String → String
build_signature action first second = "mock-meteora-" & action & "-" & first & "-" & second

abbrev pub mock_meteora_executor : MeteoraExecutor
mock_meteora_executor = record {
  add_liquidity = λ input.
      ok (record { signature = build_signature "add-liquidity" input.pod_id input.amount_sol });
  claim =
      λ input. ok (record { signature = build_signature "claim" input.pod_id input.position_id });
  withdraw_close = λ input.
      ok (record { signature = build_signature "withdraw-close" input.pod_id input.position_id });
}

-- An operation of the on-chain executor: `send` builds and sends its instruction.
abbrev pub onchain_call :
    {Context : Type 0}
    → (op : String) → (send : Context → Result Error String) → Option Context
    → Result Error MeteoraExecutionReceipt
onchain_call op send none = err (
    external (
      op & " requires OnchainPositionContext (stealthKeypair, lbPair, ...). "
      & "position.service does not yet thread it through — run with the mock "
      & "executor (OCTORA_USE_ONCHAIN_EXECUTOR != \"true\") or wire the ctx in."))
onchain_call op send (some context) = elim (send context) [
  | ok signature ↦ ok (record { signature = signature })
  | err error ↦ err error
]

-- The position service gives no context to the port.
abbrev pub onchain_meteora_executor :
    {Context : Type 0} → (String → Context → Result Error String) → MeteoraExecutor
onchain_meteora_executor send = record {
  add_liquidity = λ input. onchain_call "addLiquidity" (send "addLiquidity") none;
  claim = λ input. onchain_call "claim" (send "claim") none;
  withdraw_close = λ input. onchain_call "withdrawClose" (send "withdrawClose") none;
}

-- The flag of the configuration picks the executor.
abbrev pub create_meteora_executor_from_config :
    {Context : Type 0} → Bool → (String → Context → Result Error String) → MeteoraExecutor
create_meteora_executor_from_config use_onchain send =
    if use_onchain then onchain_meteora_executor send else mock_meteora_executor
