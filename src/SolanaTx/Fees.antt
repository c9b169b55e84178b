-- ===== src/SolanaTx/Fees.antt =====
-- `estimateComputeUnits` and `pickPriorityFeeMicroLamports` of octora-api/src/common/solana-tx.ts.
use octora.Base.{
  ℕ, zero, suc, ◌+◌, ◌-◌, ◌*◌, ◌/◌, ◌≤◌, min, max, String, Option, List, [], ◌∷◌, arith, ltb, leb,
  length, if◌then◌else◌,
}
use octora.Base.Effect.{Result, ok, err}
use octora.Recovery.{or_else}

abbrev pub solana_max_cu : ℕ
solana_max_cu = 1400000

-- `DEFAULT_MAX_PRIORITY_FEE_MICROLAMPORTS`
abbrev pub micro_lamports_cap : ℕ
micro_lamports_cap = 10000000

-- `DEFAULT_MIN_PRIORITY_FEE_MICROLAMPORTS`
abbrev pub micro_lamports_floor : ℕ
micro_lamports_floor = 1000

pub record Simulation : Type 0 where
  pub units_consumed : Option ℕ

-- `scale used` is `Math.ceil(used * 1.2)` on floats; the simulation's throw is caught.
unfoldable pub estimate_compute_units : (ℕ → ℕ) → Result String Simulation → ℕ
estimate_compute_units scale (err message) = 400000
estimate_compute_units scale (ok sim) =
    let used = or_else sim.units_consumed 0 in
    if leb used 0 then 400000 else min solana_max_cu (scale used)

unfoldable pub insert_sorted : ℕ → List ℕ → List ℕ
insert_sorted x [] = x ∷ []
insert_sorted x (y ∷ ys) =
    let later = insert_sorted x ys in if leb x y then x ∷ y ∷ ys else y ∷ later

-- `xs.sort((a, b) => a - b)`
unfoldable pub sort_numbers : List ℕ → List ℕ
sort_numbers [] = []
sort_numbers (x ∷ xs) = insert_sorted x (sort_numbers xs)

-- `xs[i] ?? 0`
abbrev pub at_or_zero : List ℕ → ℕ → ℕ
at_or_zero [] i = 0
at_or_zero (x ∷ xs) zero = x
at_or_zero (x ∷ xs) (suc i) = at_or_zero xs i

-- `Math.min(n - 1, Math.ceil(n * 0.75) - 1)`, for a list that is not empty
abbrev pub quartile_index : ℕ → ℕ
quartile_index n = min (n - 1) ((3 * n + 3) / 4 - 1)

unfoldable pub p75 : List ℕ → ℕ
p75 samples =
    let sorted = sort_numbers samples in at_or_zero sorted (quartile_index (length sorted))

abbrev pub capped : ℕ → ℕ → ℕ
capped cap fee =
    if ltb cap fee
    then cap
    else (if ltb fee micro_lamports_floor then micro_lamports_floor else fee)

unfoldable pub pick_priority_fee : ℕ → Result String (List ℕ) → ℕ
pick_priority_fee cap (err message) = micro_lamports_floor
pick_priority_fee cap (ok []) = micro_lamports_floor
pick_priority_fee cap (ok (x ∷ samples)) = capped cap (p75 (x ∷ samples))

-- The fee lies between the smaller and the larger of the ceiling and the floor: under a ceiling below the
-- floor it may be above the ceiling.
pub pick_priority_fee-bounds :
    (cap : ℕ) (samples : Result String (List ℕ))
    → (min cap micro_lamports_floor ≤ pick_priority_fee cap samples)
      × (pick_priority_fee cap samples ≤ max cap micro_lamports_floor)
unfolding pick_priority_fee
pick_priority_fee-bounds cap (err message) = (omega arith, omega arith)
pick_priority_fee-bounds cap (ok []) = (omega arith, omega arith)
pick_priority_fee-bounds cap (ok (x ∷ samples)) = (ground arith, ground arith)
