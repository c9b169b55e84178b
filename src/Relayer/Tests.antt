-- ===== src/Relayer/Tests.antt =====
-- One withdrawal through the relayer.
use octora.Base.{
  ◌++◌, length, ℕ, ◌+◌, ◌≤◌, ◌<◌, ◌≡◌, refl, true, false, none, some, [], ◌∷◌, arith, ◌↔◌, ◌⊎◌,
}
use octora.Base.Integers.{ℤ, pos, less}
use octora.Base.Table.{lookup, insert}
use octora.Base.Effect.{ok}
use octora.Relayer.{
  WithdrawRequest, RelayerConfig, Crypto, Network, RelayerState, submitting, asking_chain,
  comparing, delaying, verifying,
}
use octora.Relayer.Checks.{
  privacy_delay_slots, has_key, guard_request, check_public_signals_parity, check_privacy_delay,
}
use octora.Relayer.Pipeline.{advance, begin, validate_proof, turn, goes}
use octora.Relayer.Once.{times}
use octora.Relayer.Reached.{requests, answers, Reach, here, next, fresh, submitted_after_throws}
use octora.Relayer.Cleared.{paid_cleared, validate_proof-turns}
use octora.Relayer.Gate.{check_privacy_delay-seen, check_privacy_delay-keeps}
use octora.Relayer.Health.{RelayerHealth, health, Pays, health_iff}
use octora.Relayer.Binding.{binds, check_public_signals_parity-binds, guard_request_iff}

-- Every text stands for 7.
abbrev test_crypto : Crypto ℕ
test_crypto = record {
  big_int = λ s. some (pos 7);
  to_text = λ n. "7";
  field_hash = λ s. some (pos 7);
  verify = λ proof signals. ok true;
}

abbrev test_config : RelayerConfig
test_config = record {
  client = some "relayer";
  min_fee_lamports = pos 5;
  pool_denomination = pos 100;
  privacy_delay_ms = some 800;
  has_root_seen_repo = true;
}

abbrev test_request : WithdrawRequest ℕ
test_request = record {
  proof = 0;
  public_signals = "7" ∷ "7" ∷ "7" ∷ "7" ∷ "7" ∷ [];
  root = "root";
  nullifier_hash = "7";
  recipient = "recipient";
  relayer = "relayer";
  fee = "7";
}

abbrev test_network : Network ℕ
test_network = record {
  is_spent_on_chain = λ s. ok false;
  slot = ok (some 12);
  submit = λ r. ok "signature";
}

abbrev state_0 : RelayerState ℕ
state_0 = fresh (("root", 10) ∷ [])

abbrev state_1 : RelayerState ℕ
state_1 = (begin test_crypto test_config test_request state_0).1

abbrev on : RelayerState ℕ → RelayerState ℕ
on s = (advance test_crypto test_config test_network "7" s).0

abbrev reach_5 :
    Reach test_crypto test_config (fresh (("root", 10) ∷ [])) (on (on (on (on state_1))))
reach_5 =
    next
      (next
        (next (next (next here (requests test_request)) (answers test_network "7"))
          (answers test_network "7"))
        (answers test_network "7"))
      (answers test_network "7")

paid : (on (on (on (on (on state_1))))).submissions ≡ [] ++ ("7", true) ∷ []
unfolding begin advance turn lookup insert guard_request check_public_signals_parity
    check_privacy_delay privacy_delay_slots
paid = refl

submitted_after_throws_example :
    (times "7" [] ≡ 0) × (times "7" (on (on (on (on (on state_1))))).submissions ≤ 1)
submitted_after_throws_example =
    submitted_after_throws test_crypto test_config (next reach_5 (answers test_network "7")) "7" []
      [] true paid

-- The request after its checks, with the signature of the transaction still to come.
paying :
    lookup "7" (on (on (on (on state_1)))).in_flight
    ≡ some (record { request = test_request; stage = submitting })
unfolding begin advance turn lookup insert guard_request check_public_signals_parity
    check_privacy_delay privacy_delay_slots
paying = refl

paid_cleared_example :
    (guard_request test_crypto test_config test_request ≡ none)
    × (check_public_signals_parity test_crypto test_request ≡ none)
    × (test_crypto.verify 0 test_request.public_signals ≡ ok true)
paid_cleared_example =
    paid_cleared test_crypto test_config reach_5 "7"
      (record { request = test_request; stage = submitting }) paying refl

dry_run : (validate_proof test_crypto test_config test_network test_request state_0).0 ≡ ok none
unfolding validate_proof guard_request lookup check_public_signals_parity
dry_run = refl

validate_proof-turns_example :
    (guard_request test_crypto test_config test_request ≡ none)
    × (has_key "7" state_0.cache ≡ false)
    × (turn test_crypto test_config test_network test_request asking_chain state_0
        ≡ goes comparing state_0)
    × (turn test_crypto test_config test_network test_request comparing state_0
        ≡ goes delaying state_0)
    × (turn test_crypto test_config test_network test_request verifying state_0
        ≡ goes submitting (record state_0 { pending_withdrawals = 1 }))
validate_proof-turns_example =
    validate_proof-turns test_crypto test_config test_network test_request state_0 dry_run

delays : 0 < privacy_delay_slots test_config
unfolding privacy_delay_slots
delays = omega arith

unseen : lookup "other" state_0.roots ≡ none
unfolding lookup
unseen = refl

seen : lookup "root" state_0.roots ≡ some 10
unfolding lookup
seen = refl

check_privacy_delay-seen_example :
    (((check_privacy_delay test_config (ok (some 12)) "root" state_0.roots).0 ≡ ok none)
      ↔ (10 + privacy_delay_slots test_config ≤ 12))
    × ((check_privacy_delay test_config (ok (some 12)) "root" state_0.roots).1 ≡ state_0.roots)
check_privacy_delay-seen_example =
    check_privacy_delay-seen test_config refl delays 12 10 "root" state_0.roots seen

check_privacy_delay-keeps_example :
    lookup "root" (check_privacy_delay test_config (ok (some 12)) "other" state_0.roots).1 ≡ some 10
check_privacy_delay-keeps_example =
    check_privacy_delay-keeps test_config (ok (some 12)) "other" "root" state_0.roots 10 seen

check_public_signals_parity-binds_example :
    (check_public_signals_parity test_crypto test_request ≡ none)
    ↔ (binds test_crypto test_request test_request.public_signals ≡ true)
check_public_signals_parity-binds_example =
    check_public_signals_parity-binds test_crypto test_request

guard_request_iff_example : (guard_request test_crypto test_config test_request ≡ none) ↔ (
    (fee : ℤ) × (test_crypto.big_int "7" ≡ some fee)
    × (less fee (pos 5) ≡ false)
    × ((test_config.client ≡ none) ⊎ (test_config.client ≡ some "relayer")))
guard_request_iff_example = guard_request_iff test_crypto test_config test_request

health_iff_example :
    (h : RelayerHealth) × (health test_config state_0 (ok 250) ≡ ok h)
    × ((h.healthy ≡ true) ↔ (Pays (pos 5) 50 250 × (length state_0.in_flight < 25)))
health_iff_example = health_iff test_config state_0 "relayer" 250 refl
