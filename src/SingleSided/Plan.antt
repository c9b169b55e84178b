-- ===== src/SingleSided/Plan.antt =====
-- What a plan of octora-api/src/modules/executor/single-sided.ts deposits, and when there is none.
use octora.Base.{◌≡◌, refl, true, false, none, arith, inl, inr, ◌↔◌, if◌then◌else◌, Bool-cases}
use octora.Base.Integers.{ℤ, pos, less}
use octora.Base.Effect.{ok}
use octora.SingleSided.{
  SingleSidedSolInput, SingleSidedSolPlan, plan_single_sided_sol, planned, side_error,
}

less_irrefl : (a : ℤ) → less a a ≡ false
less_irrefl a = ground arith

at_most_trans : (a b c : ℤ) → less b a ≡ false → less c b ≡ false → less c a ≡ false
at_most_trans a b c h k = ground (arith, h, k)

-- A bin that the deposit can fill: in the range, and on the side of the active bin where SOL lies.
abbrev pub Fills : SingleSidedSolInput → ℤ → Type 0
Fills input bin =
    (less bin input.lower_bin_id ≡ false)
    × (less input.upper_bin_id bin ≡ false)
    × ((if input.sol_is_token_x then less bin input.active_bin_id else less input.active_bin_id bin)
        ≡ false)

-- What a plan has been tested for.
Tested : SingleSidedSolInput → Type 0
Tested input =
    (less (pos 0) input.total_lamports ≡ true)
    × (less input.upper_bin_id input.lower_bin_id ≡ false)
    × ((if input.sol_is_token_x
          then less input.upper_bin_id input.active_bin_id
          else less input.active_bin_id input.lower_bin_id)
        ≡ false)

tested :
    (input : SingleSidedSolInput) (plan : SingleSidedSolPlan)
    → plan_single_sided_sol input ≡ ok plan
    → Tested input
unfolding plan_single_sided_sol Tested
tested input plan h = ground (arith, h)

plans :
    (input : SingleSidedSolInput)
    → Tested input
    → (plan : SingleSidedSolPlan) × (plan_single_sided_sol input ≡ ok plan)
unfolding plan_single_sided_sol Tested
plans input (a, b, c) =
    let on_side : side_error input ≡ none = ground (arith, c) in
    (planned input, rw (a, b, on_side) refl)

-- There is a plan just for a positive amount and a range with a bin that the deposit can fill.
pub plan_single_sided_sol_iff :
    (input : SingleSidedSolInput)
    → ((plan : SingleSidedSolPlan) × (plan_single_sided_sol input ≡ ok plan))
      ↔ ((less (pos 0) input.total_lamports ≡ true) × ((bin : ℤ) × Fills input bin))
unfolding Tested
plan_single_sided_sol_iff input = (
  λ (plan, h).
      let (a, b, c) = tested input plan h in
      (
        a,
        elim (Bool-cases input.sol_is_token_x) [
          | inl x ↦ (input.upper_bin_id, (b, less_irrefl input.upper_bin_id, ground (arith, c, x)))
          | inr y ↦ (input.lower_bin_id, (less_irrefl input.lower_bin_id, b, ground (arith, c, y)))
        ],
      ),
  λ (a, found).
      let (bin, fills) = found in
      let (low, high, side) = fills in
      plans input (
        a,
        at_most_trans input.lower_bin_id bin input.upper_bin_id low high,
        elim (Bool-cases input.sol_is_token_x) [
          | inl x ↦
              let s : less bin input.active_bin_id ≡ false = ground (arith, side, x) in
              ground (arith, x, at_most_trans input.active_bin_id bin input.upper_bin_id s high)
          | inr y ↦
              let s : less input.active_bin_id bin ≡ false = ground (arith, side, y) in
              ground (arith, y, at_most_trans input.lower_bin_id bin input.active_bin_id low s)
        ],
      ),
)
