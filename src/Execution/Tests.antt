-- ===== src/Execution/Tests.antt =====
-- A deposit and an exit through the mock adapter, and the on-chain executor behind the position service.
use octora.Base.{◌≡◌, refl, none, List, [], ◌∷◌, map}
use octora.Base.Effect.{ok}
use octora.Domain.{standard}
use octora.Execution.{mock_meteora_executor}
use octora.Execution.Stateless.{
  PortCall, funds, exits, answer, stateless_adapter, run_mock, run_mock-answers,
}

abbrev test_calls : List PortCall
test_calls =
    funds (record {
      position_id = "u";
      intent_id = "i";
      pool_slug = "sol-usdc";
      amount = "3";
      mode = standard;
      stealth_pubkey = none;
    })
    ∷ exits (record { position_id = "u"; intent_id = "i"; mode = standard })
    ∷ exits (record { position_id = "w"; intent_id = "j"; mode = standard })
    ∷ []

mock_signature :
    mock_meteora_executor.claim (record { pod_id = "pod-u"; position_id = "u" })
    ≡ ok (record { signature = "mock-meteora-claim-pod-u-u" })
mock_signature = refl

run_mock-answers_example : run_mock test_calls [] ≡ map (answer stateless_adapter) test_calls
run_mock-answers_example = run_mock-answers test_calls
