-- ===== src/Worker/Bounds.antt =====
-- What one tick of octora-api/src/modules/positions/recovery-worker.ts may look at, count and report.
use octora.Base.{
  ℕ, suc, ◌+◌, ◌≤◌, ◌≡◌, refl, Bool, true, false, List, [], ◌∷◌, arith, length, length-take,
}
use octora.Base.Effect.{Result, ok, err}
use octora.Domain.{ExecutionState, executing_on_meteora, indexing}
use octora.Store.{World, Error, PositionRow}
use octora.Store.Queries.{find_stuck_positions, find_recently_failed}
use octora.Platform.{Platform}
use octora.Worker.{
  Rpc, RecoveryTickResult, executing_loop, indexing_loop, recover_executing, recover_indexing, tick,
  stuck_rows, executing_stuck_after_ms, indexing_stuck_after_ms, no_result, examine_executing,
  examine_indexing, count_executing, count_indexing, VenueDecision, landed, dropped, pending,
}

stuck_rows-length :
    (state : ExecutionState) (age now : ℕ) (w : World) → length (stuck_rows state age now w) ≤ 50
unfolding find_stuck_positions
stuck_rows-length state age now w = length-take 50 _

module _ {F : Type 0} (platform : Platform F) where
  counted_executing :
      (r : RecoveryTickResult) (d : Result Error VenueDecision) (n : ℕ) (r' : RecoveryTickResult)
      → let q = count_executing platform d r in
        (r'.executing_checked ≡ q.executing_checked)
          × (r'.indexing_advanced ≡ q.indexing_advanced)
          × (r'.executing_advanced + r'.executing_failed
              ≤ q.executing_advanced + q.executing_failed + n)
        → (r'.executing_checked ≡ r.executing_checked)
          × (r'.indexing_advanced ≡ r.indexing_advanced)
          × (r'.executing_advanced + r'.executing_failed
              ≤ r.executing_advanced + r.executing_failed + suc n)
  counted_executing r (ok landed) n r' h = ground (arith, h)
  counted_executing r (ok dropped) n r' h = ground (arith, h)
  counted_executing r (ok pending) n r' h = ground (arith, h)
  counted_executing r (err e) n r' h = ground (arith, h)

  executing_loop-counts :
      (rpc : Rpc) (now : ℕ) (rows : List PositionRow) (w : World) (r : RecoveryTickResult)
      → let r' = (executing_loop platform rpc now rows w r).1 in
        (r'.executing_checked ≡ r.executing_checked)
        × (r'.indexing_advanced ≡ r.indexing_advanced)
        × (r'.executing_advanced + r'.executing_failed
            ≤ r.executing_advanced + r.executing_failed + length rows)
  unfolding executing_loop
  executing_loop-counts rpc now [] w r = (refl, refl, omega arith)
  executing_loop-counts rpc now (row ∷ rows) w r =
      let (d, w') = examine_executing platform rpc now row w in
      counted_executing r d (length rows)
        (executing_loop platform rpc now rows w' (count_executing platform d r)).1
        (executing_loop-counts rpc now rows w' (count_executing platform d r))

  counted_indexing :
      (r : RecoveryTickResult) (d : Result Error Bool) (n : ℕ) (r' : RecoveryTickResult)
      → let q = count_indexing platform d r in
        (r'.executing_checked ≡ q.executing_checked)
          × (r'.executing_advanced ≡ q.executing_advanced)
          × (r'.executing_failed ≡ q.executing_failed)
          × (r'.indexing_checked ≡ q.indexing_checked)
          × (r'.indexing_advanced ≤ q.indexing_advanced + n)
        → (r'.executing_checked ≡ r.executing_checked)
          × (r'.executing_advanced ≡ r.executing_advanced)
          × (r'.executing_failed ≡ r.executing_failed)
          × (r'.indexing_checked ≡ r.indexing_checked)
          × (r'.indexing_advanced ≤ r.indexing_advanced + suc n)
  counted_indexing r (ok true) n r' h = ground (arith, h)
  counted_indexing r (ok false) n r' h = ground (arith, h)
  counted_indexing r (err e) n r' h = ground (arith, h)

  indexing_loop-counts :
      (rows : List PositionRow) (w : World) (r : RecoveryTickResult)
      → let r' = (indexing_loop platform rows w r).1 in
        (r'.executing_checked ≡ r.executing_checked)
        × (r'.executing_advanced ≡ r.executing_advanced)
        × (r'.executing_failed ≡ r.executing_failed)
        × (r'.indexing_checked ≡ r.indexing_checked)
        × (r'.indexing_advanced ≤ r.indexing_advanced + length rows)
  unfolding indexing_loop
  indexing_loop-counts [] w r = (refl, refl, refl, refl, omega arith)
  indexing_loop-counts (row ∷ rows) w r =
      let (d, w') = examine_indexing platform row w in
      counted_indexing r d (length rows)
        (indexing_loop platform rows w' (count_indexing platform d r)).1
        (indexing_loop-counts rows w' (count_indexing platform d r))

  -- In every tick each phase checks at most 50 positions, moves at most those that it checks, and
  -- counts one alert for each of at most 50 failures that it reports.
  pub tick-counts :
      (rpc : Rpc) (last now : ℕ) (w : World)
      → let t = tick platform rpc last now w in
        (t.result.executing_checked ≤ 50)
        × (t.result.executing_advanced + t.result.executing_failed ≤ t.result.executing_checked)
        × (t.result.indexing_checked ≤ 50)
        × (t.result.indexing_advanced ≤ t.result.indexing_checked)
        × (t.result.failures_alerted ≡ length t.alerts)
        × (length t.alerts ≤ 50)
  unfolding tick recover_executing recover_indexing find_recently_failed
  tick-counts rpc last now w =
      let rows₁ = stuck_rows executing_on_meteora executing_stuck_after_ms now w in
      let r₀ = record no_result { executing_checked = length rows₁ } in
      let (w₁, r₁) = executing_loop platform rpc now rows₁ w r₀ in
      let rows₂ = stuck_rows indexing indexing_stuck_after_ms now w₁ in
      let r = record r₁ { indexing_checked = length rows₂ } in
      let (a, b, c) = executing_loop-counts rpc now rows₁ w r₀ in
      let (d, e, f, g, h) = indexing_loop-counts rows₂ w₁ r in
      let k₁ = stuck_rows-length executing_on_meteora executing_stuck_after_ms now w in
      let k₂ = stuck_rows-length indexing indexing_stuck_after_ms now w₁ in
      (
        omega (arith, a, d, k₁),
        omega (arith, a, c, d, e, f),
        omega (arith, g, k₂),
        omega (arith, b, g, h),
        refl,
        length-take 50 _,
      )
