-- ===== src/SingleSided.antt =====
-- The one-sided deposit of SOL, octora-api/src/modules/executor/single-sided.ts.

pub mod Plan
pub mod Layout
mod Tests
use octora.Base.{
  ℕ, zero, suc, ◌+◌, ◌-◌, ◌*◌, ◌/◌, ◌%◌, ◌^◌, Bool, true, false, not, Option, none, some, List, [],
  ◌∷◌, ◌++◌, ltb, leb, length, if◌then◌else◌,
}
use octora.Base.Integers.{ℤ, pos, negsuc, less}
use octora.Base.Effect.{Result, ok, err}
use octora.Relayer.Bytes.{copy_at, alloc}

pub data DistributionShape : Type 0 where
  spot curve bid_ask : DistributionShape

abbrev pub strategy_by_shape : DistributionShape → ℕ
strategy_by_shape spot = 6
strategy_by_shape curve = 7
strategy_by_shape bid_ask = 8

pub record SingleSidedSolInput : Type 0 where
  pub total_lamports : ℤ
  pub active_bin_id : ℤ
  pub lower_bin_id : ℤ
  pub upper_bin_id : ℤ
  pub shape : DistributionShape
  pub sol_is_token_x : Bool

pub record SingleSidedSolPlan : Type 0 where
  pub amount_x : ℤ
  pub amount_y : ℤ
  pub strategy_type : ℕ
  pub min_bin_id : ℤ
  pub max_bin_id : ℤ

pub data RangeError : Type 0 where
  amount_not_positive range_not_ordered range_below_active range_above_active : RangeError

-- The range has to reach the side of the active bin on which SOL lies.
abbrev pub side_error : SingleSidedSolInput → Option RangeError
side_error input =
    if input.sol_is_token_x
    then (if less input.upper_bin_id input.active_bin_id then some range_below_active else none)
    else (if less input.active_bin_id input.lower_bin_id then some range_above_active else none)

abbrev pub planned : SingleSidedSolInput → SingleSidedSolPlan
planned input = record {
  amount_x = if input.sol_is_token_x then input.total_lamports else pos 0;
  amount_y = if input.sol_is_token_x then pos 0 else input.total_lamports;
  strategy_type = strategy_by_shape input.shape;
  min_bin_id = input.lower_bin_id;
  max_bin_id = input.upper_bin_id;
}

unfoldable pub plan_single_sided_sol : SingleSidedSolInput → Result RangeError SingleSidedSolPlan
plan_single_sided_sol input =
    if not (less (pos 0) input.total_lamports)
    then err amount_not_positive
    else (if less input.upper_bin_id input.lower_bin_id
        then err range_not_ordered
        else (elim (side_error input) [ some e ↦ err e | none ↦ ok (planned input) ]))

-- `n` bytes of a number, the least significant one first.
unfoldable pub le_bytes : ℕ → ℕ → List ℕ
le_bytes zero x = []
le_bytes (suc n) x = x % 256 ∷ le_bytes n (x / 256)

-- Node's `writeBigUInt64LE`, `writeInt32LE` and `writeUInt8` throw outside their ranges.
unfoldable pub write_u64 : ℤ → Option (List ℕ)
unfolding le_bytes
write_u64 (pos n) = if ltb n (2 ^ 64) then some (le_bytes 8 n) else none
write_u64 (negsuc n) = none

unfoldable pub write_i32 : ℤ → Option (List ℕ)
unfolding le_bytes
write_i32 (pos n) = if ltb n (2 ^ 31) then some (le_bytes 4 n) else none
write_i32 (negsuc n) = if ltb n (2 ^ 31) then some (le_bytes 4 (2 ^ 32 - suc n)) else none

unfoldable pub write_u8 : ℕ → Option (List ℕ)
write_u8 n = if ltb n 256 then some (n ∷ []) else none

pub record LiquidityParams : Type 0 where
  pub amount_x : ℤ
  pub amount_y : ℤ
  pub active_id : ℤ
  pub max_active_bin_slippage : ℤ
  pub min_bin_id : ℤ
  pub max_bin_id : ℤ
  pub strategy_type : ℕ

-- The buffer and the offset `o`.
abbrev pub Cursor : Type 0
Cursor = List ℕ × ℕ

-- `buf.write…(value, o); o += step`; a write that throws, for its value or for want of room, ends it.
infixl 5 ◌put◌by◌
abbrev pub ◌put◌by◌ : Option Cursor → Option (List ℕ) → ℕ → Option Cursor
none put written by step = none
some cursor put none by step = none
some (buf, o) put some bytes by step =
    if leb (o + length bytes) (length buf) then some (copy_at o bytes buf, o + step) else none

abbrev pub finished : Option Cursor → Option (List ℕ)
finished none = none
finished (some (buf, o)) = some buf

unfoldable pub encode_liquidity_params_by_strategy : LiquidityParams → Option (List ℕ)
encode_liquidity_params_by_strategy p = finished (
    some (alloc 97, 0)
    put write_u64 p.amount_x by 8
    put write_u64 p.amount_y by 8
    put write_i32 p.active_id by 4
    put write_i32 p.max_active_bin_slippage by 4
    put write_i32 p.min_bin_id by 4
    put write_i32 p.max_bin_id by 4
    put write_u8 p.strategy_type by 0)
