-- ===== src/Store/Queries.antt =====
-- The two scans that the recovery worker makes, as octora-api/src/test-kit/memory-db.ts answers them.
use octora.Base.{ℕ, Bool, ◌&&◌, List, [], ◌∷◌, leb, ltb, if◌then◌else◌, take, keep}
use octora.Base.Table.{values}
use octora.Base.Effect.{ok}
use octora.Domain.{ExecutionState, failed, is_state}
use octora.Store.{Task, PositionRow}

-- `Array.prototype.sort` is stable: a row goes behind the rows that it does not have to precede.
module _ (before : PositionRow → PositionRow → Bool) where
  unfoldable pub insert_row : PositionRow → List PositionRow → List PositionRow
  insert_row row [] = row ∷ []
  insert_row row (x ∷ xs) = if before x row then x ∷ insert_row row xs else row ∷ x ∷ xs

  unfoldable pub sort_onto : List PositionRow → List PositionRow → List PositionRow
  unfolding insert_row
  sort_onto sorted [] = sorted
  sort_onto sorted (row ∷ rows) = sort_onto (insert_row row sorted) rows

abbrev pub is_stuck : ExecutionState → ℕ → PositionRow → Bool
is_stuck state cutoff row = is_state row.state state && ltb row.updated_at cutoff

abbrev pub oldest_first : PositionRow → PositionRow → Bool
oldest_first a b = leb a.updated_at b.updated_at

unfoldable pub find_stuck_positions : ExecutionState → ℕ → ℕ → Task (List PositionRow)
unfolding sort_onto
find_stuck_positions state cutoff limit w = (
  ok (take limit (sort_onto oldest_first [] (keep (is_stuck state cutoff) (values w.positions)))),
  w,
)

abbrev pub is_recent_failure : ℕ → PositionRow → Bool
is_recent_failure since row = is_state row.state failed && leb since row.updated_at

abbrev pub newest_first : PositionRow → PositionRow → Bool
newest_first a b = leb b.updated_at a.updated_at

unfoldable pub find_recently_failed : ℕ → ℕ → Task (List PositionRow)
unfolding sort_onto
find_recently_failed since limit w = (
  ok (take limit (sort_onto newest_first [] (keep (is_recent_failure since) (values w.positions)))),
  w,
)
