-- ===== src/Relayer/Bytes.antt =====
-- The packing of proofs and public signals into the bytes that the program on chain reads:
-- octora-api/src/modules/relayer/proof-converter.ts and its twin, octora-web/src/lib/mixer/bytes.ts.
pub mod Hex
pub mod Fills
pub mod Slots
mod Tests
use octora.Base.{
  ℕ, zero, suc, ◌+◌, ◌-◌, ◌*◌, ◌/◌, ◌%◌, String, Bool, true, false, Option, none, some, List, [],
  ◌∷◌, ◌++◌, length, ltb, not, ◌==◌, if◌then◌else◌,
}
use octora.Base.Integers.{ℤ, pos, negsuc, ◌-ℤ◌}
use octora.Base.Effect.{Result, ok, err, Effect, pure, throw, lift, guard, or_throw, ◌>>=◌, ◌>>◌}

pub data ByteError : Type 0 where
  negative does_not_fit not_a_number : ByteError
  wrong_signal_count : ℕ → ByteError

-- A character of `value.toString(16)`.
pub data HexChar : Type 0 where
  digit : ℕ → HexChar
  minus : HexChar

-- The digits of a number; each round of the fuel takes one, so the number itself is enough of it.
unfoldable pub hex_digits : ℕ → ℕ → List HexChar
hex_digits zero value = digit value ∷ []
hex_digits (suc fuel) value = elim (ltb value 16) [
  | true ↦ digit value ∷ []
  | false ↦ hex_digits fuel (value / 16) ++ digit (value % 16) ∷ []
]

-- `value.toString(16)`
abbrev pub to_hex : ℤ → List HexChar
to_hex (pos n) = hex_digits n n
to_hex (negsuc n) = minus ∷ hex_digits (suc n) (suc n)

abbrev pub zero_digits : ℕ → List HexChar
zero_digits zero = []
zero_digits (suc n) = digit 0 ∷ zero_digits n

-- `text.padStart(width, "0")`
abbrev pub pad_start : ℕ → List HexChar → List HexChar
pad_start width text = zero_digits (width - length text) ++ text

-- `Buffer.from(text, "hex")` stops where two digits do not follow.
unfoldable pub from_hex : List HexChar → List ℕ
from_hex (digit a ∷ digit b ∷ rest) = (a * 16 + b) ∷ from_hex rest
from_hex _ = []

abbrev pub two_pow_256 : ℕ
two_pow_256 = 115792089237316195423570985008687907853269984665640564039457584007913129639936

-- `BN254_P`
abbrev pub bn254_p : ℕ
bn254_p = 21888242871839275222246405745257275088696311157297823662689037894645226208583

unfoldable pub bigint_to_be_bytes : ℤ → Result ByteError (List ℕ)
bigint_to_be_bytes (negsuc n) = err negative
bigint_to_be_bytes (pos n) =
    if ltb n two_pow_256 then ok (from_hex (pad_start 64 (to_hex (pos n)))) else err does_not_fit

-- `parseInt(slice, 16)` stored in a byte; `NaN` is stored as 0.
abbrev pub parse_pair : List HexChar → ℕ
parse_pair (digit a ∷ digit b ∷ rest) = a * 16 + b
parse_pair (digit a ∷ rest) = a
parse_pair (minus ∷ digit a ∷ rest) = (256 - a) % 256
parse_pair _ = 0

abbrev pub drop {ℓ} : {A : Type ℓ} → ℕ → List A → List A
drop zero xs = xs
drop (suc n) [] = []
drop (suc n) (x ∷ xs) = drop n xs

unfoldable pub parse_pairs : ℕ → List HexChar → List ℕ
parse_pairs zero text = []
parse_pairs (suc n) text = parse_pair text ∷ parse_pairs n (drop 2 text)

-- The browser's `bigintToBeBytes`, which tests nothing.
unfoldable pub web_bigint_to_be_bytes : ℤ → List ℕ
web_bigint_to_be_bytes value = parse_pairs 32 (pad_start 64 (to_hex value))

-- `bytes.copy(buf, offset)`: what does not fit is left out.
abbrev pub overwrite : List ℕ → List ℕ → List ℕ
overwrite [] buf = buf
overwrite (b ∷ bytes) [] = []
overwrite (b ∷ bytes) (x ∷ buf) = b ∷ overwrite bytes buf

unfoldable pub copy_at : ℕ → List ℕ → List ℕ → List ℕ
copy_at zero bytes buf = overwrite bytes buf
copy_at (suc offset) bytes [] = []
copy_at (suc offset) bytes (x ∷ buf) = x ∷ copy_at offset bytes buf

-- `Buffer.alloc(n)`
abbrev pub alloc : ℕ → List ℕ
alloc zero = []
alloc (suc n) = 0 ∷ alloc n

-- The buffer is the state.
abbrev pub Writer : Type 0
Writer = Effect (List ℕ) ByteError (Unit {0})

abbrev copy_bytes : ℕ → List ℕ → Writer
copy_bytes offset bytes buf = (ok tt, copy_at offset bytes buf)

-- One number converted and copied; a text that is no number has thrown.
unfoldable pub write_at : ℕ → Option ℤ → Writer
unfolding ◌>>=◌
write_at offset value = do
  number ← or_throw value not_a_number
  bytes ← lift (bigint_to_be_bytes number)
  copy_bytes offset bytes

-- The loop over the signals.
unfoldable pub write_signals : ℕ → List (Option ℤ) → Writer
unfolding ◌>>=◌
write_signals i [] = pure tt
write_signals i (signal ∷ signals) = do write_at (i * 32) signal; write_signals (suc i) signals

abbrev pub finished : Result ByteError (Unit {0}) × List ℕ → Result ByteError (List ℕ)
finished (ok done, buf) = ok buf
finished (err error, buf) = err error

-- The coordinates of a proof as texts.
pub record Groth16Proof : Type 0 where
  pub pi_a_x : String
  pub pi_a_y : String
  pub pi_b_x0 : String
  pub pi_b_x1 : String
  pub pi_b_y0 : String
  pub pi_b_y1 : String
  pub pi_c_x : String
  pub pi_c_y : String

-- `BN254_P - y`
abbrev pub negated : Option ℤ → Option ℤ
negated none = none
negated (some y) = some (pos bn254_p -ℤ y)

abbrev pub numbers_of : (String → Option ℤ) → List String → List (Option ℤ)
numbers_of big_int [] = []
numbers_of big_int (s ∷ signals) = big_int s ∷ numbers_of big_int signals

-- `big_int` is `BigInt`, with `none` for its throw.
module _ (big_int : String → Option ℤ) where
  unfoldable pub write_proof : Groth16Proof → Writer
  unfolding ◌>>=◌
  write_proof proof = do
    write_at 0 (big_int proof.pi_a_x)
    write_at 32 (negated (big_int proof.pi_a_y))
    write_at 64 (big_int proof.pi_b_x1)
    write_at 96 (big_int proof.pi_b_x0)
    write_at 128 (big_int proof.pi_b_y1)
    write_at 160 (big_int proof.pi_b_y0)
    write_at 192 (big_int proof.pi_c_x)
    write_at 224 (big_int proof.pi_c_y)

  unfoldable pub convert_proof_to_bytes : Groth16Proof → Result ByteError (List ℕ)
  convert_proof_to_bytes proof = finished (write_proof proof (alloc 256))

  unfoldable pub convert_public_inputs_to_bytes : List String → Result ByteError (List ℕ)
  convert_public_inputs_to_bytes signals =
      if length signals == 5
      then finished (write_signals 0 (numbers_of big_int signals) (alloc 160))
      else err (wrong_signal_count (length signals))
