-- ===== src/SolanaTx/Tests.antt =====
-- A submission whose first attempt loses its connection.
use octora.Base.{
  false, ℕ, zero, suc, ◌+◌, ◌*◌, ◌/◌, ◌^◌, ◌-◌, ◌≤◌, ◌<◌, min, max, String, ◌≡◌, refl, Bool, none,
  some, List, [], ◌∷◌, arith, ◌===◌, length,
}
use octora.Base.Effect.{Result, ok, err, ◌>>=◌}
use octora.SolanaTx.{
  SubmitConfirmedOptions, Attempt, sends, waits, submit_confirmed, submit_loop, attempt_once,
}
use octora.SolanaTx.Fees.{
  Simulation, pick_priority_fee, pick_priority_fee-bounds, p75, micro_lamports_floor, sort_numbers,
  insert_sorted,
}
use octora.SolanaTx.Quarter.{count_within, count_from, p75-quartile}
use octora.SolanaTx.Loop.{SettlesAs, count_sends, total_wait}
use octora.SolanaTx.Settles.{answer_of, submit_confirmed-settles, submit_confirmed-bounds}

abbrev test_matches : String → String → Bool
test_matches pattern message = pattern === message

abbrev test_options : SubmitConfirmedOptions
test_options = record {
  compute_unit_limit = none;
  skip_simulation = false;
  max_priority_fee_micro_lamports = none;
  max_attempts = none;
  signers = "relayer" ∷ "relayer" ∷ [];
}

abbrev test_scale : ℕ → ℕ
test_scale used = (used * 6 + 4) / 5

abbrev test_simulation : Result String Simulation
test_simulation = ok (record { units_consumed = some 100000 })

abbrev test_samples : Result String (List ℕ)
test_samples = ok (9000 ∷ 100 ∷ 5000 ∷ 7000 ∷ [])

abbrev lost_attempt : Attempt
lost_attempt = record {
  get_latest_blockhash = ok "hash";
  sign = λ message. ok "tx";
  send_transaction = err "econnreset";
  confirm_transaction = ok none;
}

abbrev good_attempt : Attempt
good_attempt = record lost_attempt { send_transaction = ok "sig" }

abbrev test_rpc : ℕ → Attempt
test_rpc (suc zero) = lost_attempt
test_rpc _ = good_attempt

second_attempt :
    submit_confirmed test_matches test_scale test_options test_simulation test_samples test_rpc []
    ≡ (ok "sig", sends "tx" ∷ waits 250 ∷ sends "tx" ∷ [])
unfolding submit_confirmed submit_loop attempt_once ◌>>=◌
second_attempt = refl

taken_fee : pick_priority_fee 6000 test_samples ≡ 6000
unfolding pick_priority_fee p75 sort_numbers insert_sorted
taken_fee = refl

-- A ceiling below the floor is not kept.
fee_above_cap : pick_priority_fee 500 (ok (400 ∷ [])) ≡ 1000
unfolding pick_priority_fee p75 sort_numbers insert_sorted
fee_above_cap = refl

submit_confirmed-settles_example :
    SettlesAs test_matches 3
      (answer_of test_scale test_options test_simulation test_samples test_rpc)
      1
      (submit_confirmed test_matches test_scale test_options test_simulation test_samples test_rpc
        []).0
submit_confirmed-settles_example =
    submit_confirmed-settles test_matches test_scale test_options test_simulation test_samples
      test_rpc [] (omega arith)

submit_confirmed-bounds_example :
    (count_sends
        (submit_confirmed test_matches test_scale test_options test_simulation test_samples test_rpc
          []).1
      ≤ 3)
    × (2
            * total_wait
                (submit_confirmed test_matches test_scale test_options test_simulation test_samples
                  test_rpc []).1
          + 250
        ≤ 250 * 3 ^ (3 - 1))
submit_confirmed-bounds_example =
    submit_confirmed-bounds test_matches test_scale test_options test_simulation test_samples
      test_rpc (omega arith)

pick_priority_fee-bounds_example :
    (min 500 micro_lamports_floor ≤ pick_priority_fee 500 test_samples)
    × (pick_priority_fee 500 test_samples ≤ max 500 micro_lamports_floor)
pick_priority_fee-bounds_example = pick_priority_fee-bounds 500 test_samples

abbrev test_fees : List ℕ
test_fees = 9000 ∷ 100 ∷ 5000 ∷ []

p75-quartile_example :
    (3 * length test_fees ≤ 4 * count_within (p75 test_fees) test_fees)
    × (length test_fees < 4 * count_from (p75 test_fees) test_fees)
p75-quartile_example = p75-quartile 9000 (100 ∷ 5000 ∷ [])
