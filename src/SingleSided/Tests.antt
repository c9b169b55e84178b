-- ===== src/SingleSided/Tests.antt =====
-- A deposit of one SOL into three bins.
use octora.Base.{arith, ℕ, ◌≡◌, refl, true, some, List, [], ◌∷◌, length, ◌↔◌}
use octora.Base.Integers.{ℤ, pos, negsuc, less}
use octora.Base.Effect.{ok}
use octora.SingleSided.{
  SingleSidedSolInput, SingleSidedSolPlan, spot, plan_single_sided_sol, write_i32, write_u64,
  le_bytes, LiquidityParams, encode_liquidity_params_by_strategy,
}
use octora.SingleSided.Plan.{Fills, plan_single_sided_sol_iff}
use octora.SingleSided.Layout.{
  of_le, read_i32, write_i32-reads, write_u64-reads, IsLayout, encode_liquidity_params-IsLayout,
}

abbrev test_input : SingleSidedSolInput
test_input = record {
  total_lamports = pos 1000000000;
  active_bin_id = negsuc 3;
  lower_bin_id = negsuc 4;
  upper_bin_id = negsuc 2;
  shape = spot;
  sol_is_token_x = true;
}

plan_single_sided_sol_iff_example :
    ((plan : SingleSidedSolPlan) × (plan_single_sided_sol test_input ≡ ok plan))
    ↔ ((less (pos 0) (pos 1000000000) ≡ true) × ((bin : ℤ) × Fills test_input bin))
plan_single_sided_sol_iff_example = plan_single_sided_sol_iff test_input

written_i32 : write_i32 (negsuc 4) ≡ some (251 ∷ 255 ∷ 255 ∷ 255 ∷ [])
unfolding write_i32 le_bytes
written_i32 = refl

write_i32-reads_example :
    (length {A = ℕ} (251 ∷ 255 ∷ 255 ∷ 255 ∷ []) ≡ 4)
    × (read_i32 (251 ∷ 255 ∷ 255 ∷ 255 ∷ []) ≡ negsuc 4)
write_i32-reads_example = write_i32-reads (negsuc 4) (251 ∷ 255 ∷ 255 ∷ 255 ∷ []) written_i32

written_u64 : write_u64 (pos 258) ≡ some (2 ∷ 1 ∷ 0 ∷ 0 ∷ 0 ∷ 0 ∷ 0 ∷ 0 ∷ [])
unfolding write_u64 le_bytes
written_u64 = refl

write_u64-reads_example :
    (length {A = ℕ} (2 ∷ 1 ∷ 0 ∷ 0 ∷ 0 ∷ 0 ∷ 0 ∷ 0 ∷ []) ≡ 8)
    × (pos (of_le (2 ∷ 1 ∷ 0 ∷ 0 ∷ 0 ∷ 0 ∷ 0 ∷ 0 ∷ [])) ≡ pos 258)
write_u64-reads_example = write_u64-reads (pos 258) (2 ∷ 1 ∷ 0 ∷ 0 ∷ 0 ∷ 0 ∷ 0 ∷ 0 ∷ []) written_u64

abbrev test_params : LiquidityParams
test_params = record {
  amount_x = pos 258;
  amount_y = pos 0;
  active_id = negsuc 3;
  max_active_bin_slippage = pos 3;
  min_bin_id = negsuc 4;
  max_bin_id = negsuc 2;
  strategy_type = 6;
}

encode_liquidity_params-IsLayout_example :
    (bytes : List ℕ) × (encode_liquidity_params_by_strategy test_params ≡ some bytes)
    × IsLayout test_params bytes
encode_liquidity_params-IsLayout_example =
    encode_liquidity_params-IsLayout test_params (omega arith) (omega arith) (omega arith)
      (omega arith) (omega arith) (omega arith) (omega arith)
