-- ===== src/Worker/Tests.antt =====
-- A tick over a store with one deposit that is stuck.
use octora.Base.{◌↔◌, take, List, ℕ, ◌+◌, ◌≤◌, ◌≡◌, true, none, [], ◌∷◌, length}
use octora.Base.Table.{values}
use octora.Base.Effect.{err}
use octora.Domain.{failed, standard, add_liquidity, executing_on_meteora}
use octora.Store.{World, PositionRow, ExecutionSessionRow, external}
use octora.Platform.{Platform}
use octora.Worker.{Rpc, tick}
use octora.Worker.Bounds.{tick-counts}
use octora.Worker.Alerts.{Has, Descends, tick-alerts}

abbrev test_platform : Platform ℕ
test_platform = record {
  number = λ s. 3;
  is_finite = λ n. true;
  zero_number = 0;
  gt = λ m n. true;
  plus = λ m n. m + n;
  of_nat = λ n. n;
  ge = λ m n. true;
  to_fixed_2 = λ n. "3.00";
  to_upper_case = λ s. s;
  to_iso_string = λ n. "2026-04-29T09:00:00.000Z";
  random_uuid = λ n. "uuid";
}

abbrev stuck_row : PositionRow
stuck_row = record {
  id = "p";
  intent_id = "i";
  wallet_address = "wallet";
  action = add_liquidity;
  mode = standard;
  state = executing_on_meteora;
  pool_slug = "sol-usdc";
  amount = "3";
  created_at = 1000;
  updated_at = 1000;
}

abbrev stuck_session : ExecutionSessionRow
stuck_session = record {
  id = "s";
  position_id = "p";
  state = executing_on_meteora;
  failure_stage = none;
  created_at = 1000;
  updated_at = 1000;
}

abbrev stuck_store : World
stuck_store = record {
  positions = ("p", stuck_row) ∷ [];
  sessions = ("p", stuck_session ∷ []) ∷ [];
  activities = [];
  entries = [];
  stamp = 400000;
  draws = 0;
}

abbrev test_rpc : Rpc
test_rpc = λ s. err (external "node is down")

tick-counts_example :
    let t = tick test_platform test_rpc 350000 400000 stuck_store in
    (t.result.executing_checked ≤ 50)
    × (t.result.executing_advanced + t.result.executing_failed ≤ t.result.executing_checked)
    × (t.result.indexing_checked ≤ 50)
    × (t.result.indexing_advanced ≤ t.result.indexing_checked)
    × (t.result.failures_alerted ≡ length t.alerts)
    × (length t.alerts ≤ 50)
tick-counts_example = tick-counts test_platform test_rpc 350000 400000 stuck_store

tick-alerts_example :
    let t = tick test_platform test_rpc 350000 400000 stuck_store in
    (all : List PositionRow) × (t.alerts ≡ take 50 all)
    × Descends all
    × ((row : PositionRow)
        → Has row all
          ↔ (Has row (values t.world.positions) × (row.state ≡ failed) × (350000 ≤ row.updated_at)))
tick-alerts_example = tick-alerts test_platform test_rpc 350000 400000 stuck_store
