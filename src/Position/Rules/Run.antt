-- ===== src/Position/Rules/Run.antt =====
-- Rules that follow the code of a call, one for each way in which it goes on.
use octora.Base.{String, ◌≡◌, refl, Bool, true, false, Option, none, List, [], ◌∷◌, ◌++◌}
use octora.Base.Table.{lookup}
use octora.Base.Effect.{Result, ok, err, ◌>>=◌, pure, lift, guard, attempt}
use octora.Domain.{ExecutionMode, ExecutionState, SafeNextStep}
use octora.Store.{
  World, Task, PositionRow, ExecutionSessionRow, ActivityRow, PositionReconciliationRecord, Error,
  or_empty,
}
use octora.Platform.{Platform}
use octora.Recovery.{ResolvedMode, resolve_execution_mode}
use octora.Services.{record_activity, list}
use octora.Position.Reply.{PositionResponse, build_response}
use octora.Position.Rules.Known.{At, resolve_execution_mode_same, Returns}
use octora.Position.Rules.Writes.{record_activity-At}

-- The rest of a call is `f`; `Q` is what is claimed of its result and final world.
module _ {B : Type 0} (Q : Result Error B × World → Type 0) where
  pub pure_rule : (a : B) (w : World) → Q (ok a, w) → Q (pure a w)
  unfolding pure
  pure_rule a w q = q

  pub guard_rule :
      {b : Bool} (x : Error) (f : Unit {0} → Task B) (w : World)
      → b ≡ true
      → Q (f tt w)
      → Q ((guard b x >>= f) w)
  unfolding ◌>>=◌
  guard_rule {b} x f w h q = rw h q

  -- A call that throws ends the whole.
  pub error_rule :
      {A : Type 0} (m : Task A) {x : Error} {w w' : World} (f : A → Task B)
      → m w ≡ (err x, w')
      → Q (err x, w')
      → Q ((m >>= f) w)
  unfolding ◌>>=◌
  error_rule m f h q = rw h q

  -- A call with a known result.
  pub call_rule :
      {A : Type 0} (m : Task A) {a : A} {w w' : World} (f : A → Task B)
      → m w ≡ (ok a, w')
      → Q (f a w')
      → Q ((m >>= f) w)
  unfolding ◌>>=◌
  call_rule m f h q = rw h q

  pub step_rule :
      {A : Type 0} (m : Task A) {a : A} {w : World} {R : World → Type 0} (f : A → Task B)
      → Returns m w a R
      → ((w' : World) → R w' → Q (f a w'))
      → Q ((m >>= f) w)
  unfolding ◌>>=◌
  step_rule m f (w', h, r) q = rw h (q w' r)

  pub resolve_rule :
      (m : ExecutionMode) (f : ResolvedMode → Task B) (w : World)
      → Q (f (record { mode = m; downgraded_from = none; surfaced_fallback = false }) w)
      → Q (
          (lift (
                resolve_execution_mode
                  (record { selected_mode = m; fallback_mode = none; surfaced_fallback = false }))
              >>= f)
            w)
  unfolding ◌>>=◌
  resolve_rule m f w q = rw (resolve_execution_mode_same m) q

  pub attempt_rule :
      {A : Type 0} (r : Result Error A) (h : Error → Task B) (f : A → Task B) (w : World)
      → ((x : Error) → r ≡ err x → Q (h x w))
      → ((a : A) → r ≡ ok a → Q (f a w))
      → Q (attempt r h f w)
  unfolding attempt
  attempt_rule (ok a) h f w qh qf = qf a refl
  attempt_rule (err x) h f w qh qf = qh x refl

  pub activity_rule :
      {F : Type 0} (platform : Platform F) {w₀ w : World} {id : String} {p : PositionRow}
      {s : ExecutionSessionRow} {e : Option PositionReconciliationRecord} {t : List ExecutionState}
      (at : At w₀ id w p s e t) (q : PositionRow) (x : ExecutionState) (headline detail : String)
      (step : SafeNextStep) (f : ActivityRow → Task B)
      → q.id ≡ id
      → ((a : ActivityRow) (w' : World) → At w₀ id w' p s e (t ++ x ∷ []) → Q (f a w'))
      → Q ((record_activity platform q x headline detail step >>= f) w)
  activity_rule platform at q x headline detail step f k h =
      let (a, r) = record_activity-At at platform q x headline detail step k in
      step_rule _ f r (h a)

module _ (Q : Result Error PositionResponse × World → Type 0) where
  -- The end of a call: the log is read, and the reply built from it.
  pub reply_rule :
      {F : Type 0} (platform : Platform F) (j : String) (p : PositionRow) (s : ExecutionSessionRow)
      (w : World)
      → Q (ok (build_response platform p s (or_empty (lookup j w.activities))), w)
      → Q ((list j >>= λ activities. pure (build_response platform p s activities)) w)
  unfolding ◌>>=◌ list pure
  reply_rule platform j p s w q = q
