-- ===== src/Auth/Tests.antt =====
-- One nonce, shown twice.
use octora.Base.{ℕ, ◌+◌, ◌≤◌, ◌<◌, ◌≡◌, refl, true, List, [], ◌∷◌}
use octora.Base.Effect.{ok, err}
use octora.Base.Table.{lookup}
use octora.Auth.{given, pick_header, AuthNonces, not_claimed, verify_ed25519_detached}
use octora.Auth.Nonces.{
  require_wallet_signature, claim_rows, issue_auth_nonce, create_nonce, delete_expired,
}
use octora.Auth.Cases.{is_ok, Readable}
use octora.Auth.Once.{
  AuthCall, issue, present, run, count_through, count_unused, count_issues, count_through-bound,
}
use octora.Auth.Bound.{WasIssued, start, more, require_wallet_signature-issued}
use octora.Auth.Fixtures.{zeros, test_keys, test_request}

abbrev test_calls : List AuthCall
test_calls =
    issue true 1000 "n" "wallet" ∷ present 2000 test_request ∷ present 2001 test_request ∷ []

abbrev test_rows : AuthNonces
test_rows = run test_keys (issue true 1000 "n" "wallet" ∷ []) []

first_passes :
    (require_wallet_signature test_keys 2000 test_request test_rows).0
    ≡ ok (record { address = "wallet"; pubkey = zeros 32 })
unfolding require_wallet_signature given pick_header lookup claim_rows issue_auth_nonce create_nonce
    delete_expired verify_ed25519_detached
first_passes = refl

second_refused :
    (require_wallet_signature test_keys 2001 test_request
      (require_wallet_signature test_keys 2000 test_request test_rows).1).0
    ≡ err not_claimed
unfolding require_wallet_signature given pick_header lookup claim_rows issue_auth_nonce create_nonce
    delete_expired verify_ed25519_detached
second_refused = refl

first_is_ok : is_ok (require_wallet_signature test_keys 2000 test_request test_rows).0 ≡ true
first_is_ok = rw first_passes refl

count_through-bound_example :
    count_through test_keys "n" test_calls [] ≤ count_unused "n" [] + count_issues "n" test_calls
count_through-bound_example = count_through-bound test_keys "n" test_calls []

require_wallet_signature-issued_example :
    (r : Readable test_keys test_request) × (expires : ℕ) × WasIssued
      (issue true 1000 "n" "wallet" ∷ [])
      r.shown
      r.wallet
      expires
    × (2000 < expires)
    × (verify_ed25519_detached test_keys (test_keys.from_utf8 r.shown) r.bytes r.pubkey ≡ true)
require_wallet_signature-issued_example =
    require_wallet_signature-issued test_keys (issue true 1000 "n" "wallet" ∷ []) test_rows 2000
      test_request (more (issue true 1000 "n" "wallet") start) first_is_ok
