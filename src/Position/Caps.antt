-- ===== src/Position/Caps.antt =====
-- The beta caps: `assertBetaCaps` in octora-api/src/modules/positions/position.service.ts and the two
-- sums that it asks the repository for.
use octora.Base.{ℕ, suc, String, Bool, true, false, not, ◌&&◌, List, [], ◌∷◌, ◌===◌, if◌then◌else◌}
use octora.Base.Table.{values}
use octora.Base.Effect.{ok, ◌>>=◌, ◌>>◌, guard, pure}
use octora.Domain.{PositionAction, ExecutionMode, ExecutionState, completed, failed}
use octora.Store.{Task, PositionRow, amount_not_positive, position_cap, wallet_cap, tvl_cap}
use octora.Platform.{Platform}

-- `TERMINAL_POSITION_STATES`
abbrev pub is_terminal : ExecutionState → Bool
is_terminal completed = true
is_terminal failed = true
is_terminal _ = false

pub record BetaCapsConfig (F : Type 0) : Type 0 where
  pub max_position_sol : F
  pub max_global_tvl_sol : F
  pub max_positions_per_wallet : F

pub record CreateDraftPositionIntentInput : Type 0 where
  pub action : PositionAction
  pub amount : String
  pub pool : String
  pub mode : ExecutionMode
  pub wallet_address : String

unfoldable pub count_rows : String → List PositionRow → ℕ
count_rows wallet [] = 0
count_rows wallet (row ∷ rows) =
    if row.wallet_address === wallet && not (is_terminal row.state)
    then suc (count_rows wallet rows)
    else count_rows wallet rows

unfoldable pub count_active_by_wallet : String → Task ℕ
unfolding count_rows
count_active_by_wallet wallet w = (ok (count_rows wallet (values w.positions)), w)

module _ {F : Type 0} (platform : Platform F) where
  unfoldable pub sum_rows : F → List PositionRow → F
  sum_rows total [] = total
  sum_rows total (row ∷ rows) =
      sum_rows
        (if is_terminal row.state
          then total
          else if platform.is_finite (platform.number row.amount)
          then platform.plus total (platform.number row.amount)
          else total)
        rows

  unfoldable pub sum_active_amount_sol : Task F
  unfolding sum_rows
  sum_active_amount_sol w = (ok (sum_rows platform.zero_number (values w.positions)), w)

  unfoldable pub assert_beta_caps :
      BetaCapsConfig F → CreateDraftPositionIntentInput → Task (Unit {0})
  unfolding count_active_by_wallet sum_active_amount_sol
  assert_beta_caps caps input = do
    let amount_sol = platform.number input.amount
    guard (platform.is_finite amount_sol && platform.gt amount_sol platform.zero_number)
        amount_not_positive
    guard (not (platform.gt amount_sol caps.max_position_sol)) position_cap
    wallet_count ← count_active_by_wallet input.wallet_address
    global_tvl ← sum_active_amount_sol
    guard (not (platform.ge (platform.of_nat wallet_count) caps.max_positions_per_wallet))
        wallet_cap
    guard (not (platform.gt (platform.plus global_tvl amount_sol) caps.max_global_tvl_sol)) tvl_cap
    pure tt
