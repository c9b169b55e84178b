-- ===== src/Relayer/Bytes/Tests.antt =====
-- Five small signals, a proof, and numbers that the two packers treat in their own ways.
use octora.Base.{ℕ, ◌≡◌, ◌/◌, refl, String, Option, some, List, [], ◌∷◌, arith, length}
use octora.Base.Integers.{ℤ, pos, negsuc}
use octora.Base.Effect.{ok, err}
use octora.Relayer.Bytes.{
  negative, does_not_fit, bigint_to_be_bytes, web_bigint_to_be_bytes, two_pow_256, numbers_of,
  convert_public_inputs_to_bytes, Groth16Proof, convert_proof_to_bytes, hex_digits, parse_pairs,
}
use octora.Relayer.Bytes.Hex.{read_be, bigint_to_be_bytes-reads}
use octora.Relayer.Bytes.Fills.{Holds}
use octora.Relayer.Bytes.Slots.{
  coordinates, convert_public_inputs_to_bytes-Holds, convert_proof_to_bytes-Holds,
}

-- Every text stands for 7.
abbrev test_big_int : String → Option ℤ
test_big_int text = some (pos 7)

abbrev test_signals : List String
test_signals = "7" ∷ "7" ∷ "7" ∷ "7" ∷ "7" ∷ []

abbrev test_proof : Groth16Proof
test_proof = record {
  pi_a_x = "7";
  pi_a_y = "7";
  pi_b_x0 = "7";
  pi_b_x1 = "7";
  pi_b_y0 = "7";
  pi_b_y1 = "7";
  pi_c_x = "7";
  pi_c_y = "7";
}

too_large : bigint_to_be_bytes (pos two_pow_256) ≡ err does_not_fit
unfolding bigint_to_be_bytes
too_large = refl

below_zero : bigint_to_be_bytes (negsuc 0) ≡ err negative
unfolding bigint_to_be_bytes
below_zero = refl

-- The browser packs both all the same: 2 to the 256 as a 16 and zeros, and -1 as 255.
web_too_large : read_be 0 (web_bigint_to_be_bytes (pos two_pow_256)) ≡ two_pow_256 / 16
unfolding web_bigint_to_be_bytes hex_digits parse_pairs
web_too_large = refl

web_below_zero : read_be 0 (web_bigint_to_be_bytes (negsuc 0)) ≡ 255
unfolding web_bigint_to_be_bytes hex_digits parse_pairs
web_below_zero = refl

bigint_to_be_bytes-reads_example :
    (bytes : List ℕ) × (bigint_to_be_bytes (pos 258) ≡ ok bytes)
    × (length bytes ≡ 32)
    × (read_be 0 bytes ≡ 258)
    × (web_bigint_to_be_bytes (pos 258) ≡ bytes)
bigint_to_be_bytes-reads_example = bigint_to_be_bytes-reads 258 (omega arith)

convert_public_inputs_to_bytes-Holds_example :
    (bytes : List ℕ) × (convert_public_inputs_to_bytes test_big_int test_signals ≡ ok bytes)
    × (length bytes ≡ 160)
    × Holds (numbers_of test_big_int test_signals) bytes
convert_public_inputs_to_bytes-Holds_example =
    convert_public_inputs_to_bytes-Holds test_big_int test_signals refl
      (omega arith, (omega arith, (omega arith, (omega arith, (omega arith, tt)))))

convert_proof_to_bytes-Holds_example :
    (bytes : List ℕ) × (convert_proof_to_bytes test_big_int test_proof ≡ ok bytes)
    × (length bytes ≡ 256)
    × Holds (coordinates test_big_int test_proof) bytes
convert_proof_to_bytes-Holds_example = convert_proof_to_bytes-Holds test_big_int test_proof (
  omega arith,
  (
    omega arith,
    (omega arith, (omega arith, (omega arith, (omega arith, (omega arith, (omega arith, tt)))))),
  ),
)
