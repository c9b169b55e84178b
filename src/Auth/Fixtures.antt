-- ===== src/Auth/Fixtures.antt =====
-- A wallet whose requests carry one signed nonce.
use octora.Base.{ℕ, zero, suc, true, none, some, List, [], ◌∷◌}
use octora.Auth.{one, Request, Keys}

abbrev pub zeros : ℕ → List ℕ
zeros zero = []
zeros (suc n) = 0 ∷ zeros n

abbrev pub test_keys : Keys
test_keys = record {
  trim = λ text. text;
  decode_key = λ text. some (zeros 32);
  encode_key = λ bytes. "wallet";
  from_base64 = λ text. some (zeros 64);
  from_utf8 = λ text. 110 ∷ [];
  verify = λ message der signature. some true;
  without_bearer = λ text. none;
}

abbrev pub test_request : Request
test_request = record {
  headers =
      ("x-wallet-address", one "wallet")
      ∷ ("x-signed-nonce", one "n")
      ∷ ("x-signature", one "c2ln")
      ∷ [];
  wallet = none;
}
