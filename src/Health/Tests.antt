-- ===== src/Health/Tests.antt =====
-- A process whose database, node, keypair and pool are there.
use octora.Base.{◌≡◌, ◌↔◌, some, [], ◌∷◌}
use octora.Base.Integers.{pos}
use octora.Base.Effect.{ok}
use octora.Health.{Outside, ProbeConfig, json_array, status_ok, run_health_check}
use octora.Health.Ready.{IsReady, run_health_check_iff}

abbrev test_outside : Outside
test_outside = record {
  database = ok tt;
  slot = λ url. ok 7;
  file = λ path. some (ok (json_array 64));
  public_key = λ text. ok text;
  pool_pda = λ program bytes. ok "pool";
  account = λ url pool. ok (some (0 ∷ 0 ∷ []));
  elapsed = 3;
}

abbrev test_config : ProbeConfig
test_config = record {
  executor_rpc_url = "rpc";
  executor_relayer_keypair_path = "keypair.json";
  mixer_program_id = "mixer";
  mixer_denomination = pos 1000000000;
}

run_health_check_iff_example :
    ((run_health_check test_outside test_config).status ≡ status_ok)
    ↔ IsReady test_outside test_config
run_health_check_iff_example = run_health_check_iff test_outside test_config
