-- ===== src/Position/Rules/Known.antt =====
-- What is known of one position while a call of the position service runs.
use octora.Base.{String, ◌≡◌, refl, ◌≢◌, false, Option, none, some, List, map}
use octora.Base.Table.{lookup, Unique}
use octora.Base.Effect.{ok}
use octora.Domain.{ExecutionMode, standard, fast_private, ExecutionState, FailureStage}
use octora.Store.{
  World, Task, PositionRow, ExecutionSessionRow, PositionReconciliationRecord, or_empty, latest,
}
use octora.Recovery.{resolve_execution_mode}

-- The states of a position's activity log, oldest first.
abbrev pub trail : String → World → List ExecutionState
trail id w = map (λ a. a.state) (or_empty (lookup id w.activities))

-- What is known of one position in `w`, and that all others are as they were in `w₀`.
pub record At (w₀ : World) (id : String) (w : World) (p : PositionRow) (s : ExecutionSessionRow)
    (e : Option PositionReconciliationRecord) (t : List ExecutionState) : Type 0 where
  pub own : p.id ≡ id
  pub unique : Unique w₀.positions → Unique w.positions
  pub position : lookup id w.positions ≡ some p
  pub session : latest id w ≡ some s
  pub entry : lookup id w.entries ≡ e
  pub log : trail id w ≡ t
  pub stamp : w.stamp ≡ w₀.stamp
  pub positions_apart : (j : String) → id ≢ j → lookup j w.positions ≡ lookup j w₀.positions
  pub sessions_apart : (j : String) → id ≢ j → lookup j w.sessions ≡ lookup j w₀.sessions

abbrev pub moved : World → PositionRow → ExecutionState → PositionRow
moved w₀ p state = record p { state = state; updated_at = w₀.stamp }

abbrev pub moved_session :
    World → ExecutionSessionRow → ExecutionState → Option FailureStage → ExecutionSessionRow
moved_session w₀ s state stage = record s {
  state = state;
  failure_stage = stage;
  updated_at = w₀.stamp;
}

pub resolve_execution_mode_same :
    (m : ExecutionMode)
    → resolve_execution_mode
        (record { selected_mode = m; fallback_mode = none; surfaced_fallback = false })
      ≡ ok (record { mode = m; downgraded_from = none; surfaced_fallback = false })
unfolding resolve_execution_mode
resolve_execution_mode_same standard = refl
resolve_execution_mode_same fast_private = refl

-- The call `m` returns `a` from `w`, and `R` holds of the world that it leaves.
abbrev pub Returns : {A : Type 0} → Task A → World → A → (World → Type 0) → Type 0
Returns m w a R = (w' : World) × (m w ≡ (ok a, w')) × R w'
