-- ===== src/Routes/Tests.antt =====
-- The owner of a draft position has it executed.
use octora.Base.{false, ◌≡◌, ◌⊎◌, none, [], ◌∷◌}
use octora.Auth.Fixtures.{test_keys, test_request}
use octora.Lifecycle.{perform}
use octora.Lifecycle.Fixtures.{test_platform, test_adapter, test_executor, store_1}
use octora.Routes.{Server, executes, owner_route}
use octora.Routes.Owned.{IsCleared, order_of, owner_route-IsCleared}

abbrev test_server : Server
test_server = record {
  intent_buckets = [];
  mutate_buckets = [];
  nonces = ("n", record { wallet_address = "wallet"; expires_at = 301000; used = false }) ∷ [];
  approved = "wallet" ∷ [];
  world = store_1;
}

owner_route-IsCleared_example :
    ((owner_route test_keys test_platform test_adapter test_executor
        (executes "signed")
        "u"
        2000
        none
        test_request
        test_server).1.world
      ≡ test_server.world)
    ⊎ (IsCleared test_keys "u" test_request test_server
        × ((owner_route test_keys test_platform test_adapter test_executor
              (executes "signed")
              "u"
              2000
              none
              test_request
              test_server).1.world
            ≡ (perform test_platform test_adapter test_executor "u"
                (order_of (executes "signed"))
                test_server.world).1))
owner_route-IsCleared_example =
    owner_route-IsCleared test_platform test_adapter test_executor test_keys (executes "signed") "u"
      2000 none test_request test_server
