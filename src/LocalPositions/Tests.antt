-- ===== src/LocalPositions/Tests.antt =====
-- A browser that stores lists as they are.
use octora.Base.{ℕ, ◌≡◌, refl, true, false, Option, none, some, List, [], map}
use octora.Base.Integers.{pos}
use octora.Base.Table.{lookup, insert}
use octora.SingleSided.{spot}
use octora.LocalPositions.{
  StoredPosition, devnet, v2, Json, array, Browser, CloseMetadata, add_local_position,
  list_local_positions, mark_local_position_closed,
}
use octora.LocalPositions.Changes.{closes, changed, IsJson}
use octora.LocalPositions.View.{apply_change, entry, entry-apply_change}

abbrev test_position : StoredPosition ℕ
test_position = record {
  position_id = "p";
  pool_address = "pool";
  position_pubkey = "pubkey";
  stealth_pubkey = "stealth";
  funded_lamports = "100";
  deposited_usd = 5;
  lower_bin_id = pos 1;
  upper_bin_id = pos 9;
  shape = spot;
  ts = 1000;
  network = devnet;
  closed = false;
  closed_at = none;
  withdraw_signature = none;
  withdraw_recipient = none;
  signatures = none;
  derivation_version = some v2;
}

abbrev Raw : Type 0
Raw = Option (List (StoredPosition ℕ))

abbrev test_json : Json ℕ Raw
test_json = record {
  stringify = some;
  parse = λ raw. elim raw [ none ↦ none | some ps ↦ some (array (map some ps)) ];
  is_empty = λ raw. elim raw [ none ↦ true | some ps ↦ false ];
}

test_json-IsJson : IsJson test_json
test_json-IsJson = record { nonempty = λ ps. refl; reads_back = λ ps. refl }

abbrev test_browser : Browser Raw
test_browser =
    add_local_position test_json "wallet" test_position
      (record { local_storage = []; notified = 0 })

abbrev test_meta : CloseMetadata
test_meta = record { signature = some "sig"; recipient = none; ts = none }

-- A second close of the same position changes nothing and notifies nobody.
closed_once :
    mark_local_position_closed test_json "wallet" "p" test_meta 3000
      (mark_local_position_closed test_json "wallet" "p" test_meta 2000 test_browser)
    ≡ mark_local_position_closed test_json "wallet" "p" test_meta 2000 test_browser
unfolding mark_local_position_closed add_local_position list_local_positions lookup insert
closed_once = refl

entry-apply_change_example :
    entry test_json "wallet" "p"
      (apply_change test_json (closes "wallet" "p" test_meta 2000) test_browser)
    ≡ changed
        (closes "wallet" "p" test_meta 2000)
        "wallet"
        "p"
        (entry test_json "wallet" "p" test_browser)
entry-apply_change_example =
    entry-apply_change test_json test_json-IsJson (closes "wallet" "p" test_meta 2000) "wallet" "p"
      test_browser refl
