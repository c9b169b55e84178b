-- ===== src/Position/Rules/Writes.antt =====
-- What each read and write of the repositories makes known of the position.
use octora.Base.{
  suc, String, ◌≡◌, refl, ◌∙◌, Option, none, some, List, [], ◌∷◌, ◌++◌, arith, ap, ◌⊎◌, inl, inr,
  Option-cases, set_last, get_last?-set_last,
}
use mathlib.Core.List.{map-append}
use octora.Base.Table.{
  lookup, insert, erase, lookup-insert_self, lookup-insert_ne, lookup-erase_self, insert-Unique,
}
use octora.Base.Effect.{ok, ◌>>=◌, pure}
use octora.Domain.{ExecutionState, active, FailureStage, SafeNextStep, wait, indexing}
use octora.Store.{
  World, PositionRow, ExecutionSessionRow, ActivityRow, PositionReconciliationRecord, or_empty,
  get_position_by_id, update_position_state, update_execution_session, get_latest_execution_session,
}
use octora.Platform.{Platform}
use octora.Services.{
  record_activity, begin_reconciliation, register_snapshot, reconcile, stamped, still_indexing,
  now_active, ReconcileResult,
}
use octora.Position.Service.{get_active_position, get_latest_active_session}
use octora.Position.Rules.Known.{At, moved, moved_session, Returns}

module _ {w₀ w : World} {id : String} {p : PositionRow} {s : ExecutionSessionRow}
    {e : Option PositionReconciliationRecord} {t : List ExecutionState}
    (at : At w₀ id w p s e t) where
  pub get_position_by_id_at : get_position_by_id id w ≡ (ok (some p), w)
  unfolding get_position_by_id
  get_position_by_id_at = rw at.position

  pub get_latest_execution_session_at : get_latest_execution_session id w ≡ (ok (some s), w)
  unfolding get_latest_execution_session
  get_latest_execution_session_at = rw at.session

  pub get_active_position_at : p.state ≡ active → get_active_position id w ≡ (ok p, w)
  unfolding ◌>>=◌ get_active_position get_position_by_id
  get_active_position_at h = ground (arith, at.position)

  pub get_latest_active_session_at : s.state ≡ active → get_latest_active_session id w ≡ (ok s, w)
  unfolding ◌>>=◌ get_latest_active_session get_latest_execution_session
  get_latest_active_session_at h = ground (arith, at.session)

  pub update_position_state-At :
      (j : String) (x : ExecutionState)
      → j ≡ id
      → Returns
          (update_position_state j x)
          w
          (moved w₀ p x)
          (λ w'. At w₀ id w' (moved w₀ p x) s e t)
  unfolding update_position_state
  update_position_state-At j x k = (
    record w { positions = insert id (moved w₀ p x) w.positions },
    rw k (ground (arith, at.position, at.stamp)),
    record {
      own = at.own;
      unique = λ u. insert-Unique id (moved w₀ p x) w.positions (at.unique u);
      position = lookup-insert_self _ _ _;
      session = at.session;
      entry = at.entry;
      log = at.log;
      stamp = at.stamp;
      positions_apart = λ j' h. lookup-insert_ne _ _ _ _ h ∙ at.positions_apart j' h;
      sessions_apart = at.sessions_apart;
    },
  )

  pub update_execution_session-At :
      (j : String) (x : ExecutionState) (g : Option FailureStage)
      → j ≡ id
      → Returns
          (update_execution_session j x g)
          w
          (moved_session w₀ s x g)
          (λ w'. At w₀ id w' p (moved_session w₀ s x g) e t)
  unfolding update_execution_session
  update_execution_session-At j x g k = (
    record w {
      sessions =
          insert id (set_last (moved_session w₀ s x g) (or_empty (lookup id w.sessions)))
            w.sessions;
    },
    rw k (ground (arith, at.session, at.stamp)),
    record {
      own = at.own;
      unique = at.unique;
      position = at.position;
      session = rw lookup-insert_self (get_last?-set_last _ (or_empty (lookup id w.sessions)));
      entry = at.entry;
      log = at.log;
      stamp = at.stamp;
      positions_apart = at.positions_apart;
      sessions_apart = λ j' h. lookup-insert_ne _ _ _ _ h ∙ at.sessions_apart j' h;
    },
  )

  after_entry :
      {e' : Option PositionReconciliationRecord} (m : List (String × PositionReconciliationRecord))
      → lookup id m ≡ e'
      → At w₀ id (record w { entries = m }) p s e' t
  after_entry m h = record {
    own = at.own;
    unique = at.unique;
    position = at.position;
    session = at.session;
    entry = h;
    log = at.log;
    stamp = at.stamp;
    positions_apart = at.positions_apart;
    sessions_apart = at.sessions_apart;
  }

  pub begin_reconciliation-At :
      (j : String)
      → j ≡ id
      → (r : ReconcileResult) × Returns
          (begin_reconciliation j)
          w
          r
          (λ w'. At w₀ id w' p s (some (record { position_id = j; signature = none })) t)
  unfolding begin_reconciliation ◌>>=◌ pure
  begin_reconciliation-At j k = (
    record { state = indexing; status_label = "Verifying final position state"; next_step = wait },
    (
      record w { entries = insert j (record { position_id = j; signature = none }) w.entries },
      refl,
      after_entry _ (rw k (lookup-insert_self _ _ _)),
    ),
  )

  pub register_snapshot-At :
      (j signature : String)
      → j ≡ id
      → Returns
          (register_snapshot j signature)
          w
          tt
          (λ w'. At w₀ id w' p s (some (record { position_id = j; signature = some signature })) t)
  unfolding register_snapshot ◌>>=◌ pure
  register_snapshot-At j signature k = (
    record w {
      entries = insert j (record { position_id = j; signature = some signature }) w.entries;
    },
    refl,
    after_entry _ (rw k (lookup-insert_self _ _ _)),
  )

  -- Without a stamped signature the position stays as it is; with one the entry is cleared.
  pub reconcile-At :
      (r : ReconcileResult) × Returns (reconcile id) w r (λ w'.
        ((stamped e ≡ none) × (r.state ≡ indexing) × At w₀ id w' p s e t)
        ⊎ ((x : String) × (stamped e ≡ some x) × (r.state ≡ active) × At w₀ id w' p s none t))
  unfolding reconcile ◌>>=◌ pure
  reconcile-At = elim (Option-cases (stamped e)) [
    | inl h ↦ (still_indexing, (w, rw (at.entry, h) refl, inl (h, refl, at)))
    | inr (x, h) ↦ (
      now_active,
      (
        record w { entries = erase id w.entries },
        rw (at.entry, h) refl,
        inr (x, h, refl, after_entry _ (lookup-erase_self _ _)),
      ),
    )
  ]

  pub record_activity-At :
      {F : Type 0} (platform : Platform F) (q : PositionRow) (x : ExecutionState)
      (headline detail : String) (step : SafeNextStep)
      → q.id ≡ id
      → (a : ActivityRow) × Returns
          (record_activity platform q x headline detail step)
          w
          a
          (λ w'. At w₀ id w' p s e (t ++ x ∷ []))
  unfolding record_activity ◌>>=◌ pure
  record_activity-At platform q x headline detail step k =
      let row : ActivityRow = record {
        id = platform.random_uuid w.draws;
        position_id = q.id;
        action = q.action;
        state = x;
        headline = headline;
        detail = detail;
        safe_next_step = step;
        created_at = w.stamp;
      } in
      (
        row,
        (
          record w {
            draws = suc w.draws;
            activities = insert id (or_empty (lookup id w.activities) ++ row ∷ []) w.activities;
          },
          rw k refl,
          record {
            own = at.own;
            unique = at.unique;
            position = at.position;
            session = at.session;
            entry = at.entry;
            log = rw lookup-insert_self (rw map-append (ap (λ u. u ++ x ∷ []) at.log));
            stamp = at.stamp;
            positions_apart = at.positions_apart;
            sessions_apart = at.sessions_apart;
          },
        ),
      )
