-- ===== src/Position/Reads.antt =====
-- `getPosition`: what a read of a position that is being indexed leaves behind.
use octora.Base.{
  some, String, ◌≡◌, refl, true, false, not, ◌&&◌, if◌then◌else◌, Option, none, List, [], ◌∷◌, ◌++◌,
  ◌⊎◌, inl, inr, Bool-cases, ◌===◌, get_last?,
}
use octora.Base.Effect.{Result, ok, ◌>>=◌, pure, or_throw}
use octora.Domain.{ExecutionState, indexing, active, is_state}
use octora.Store.{
  World, PositionRow, ExecutionSessionRow, ActivityRow, PositionReconciliationRecord, Error,
}
use octora.Platform.{Platform}
use octora.Recovery.{or_else}
use octora.Services.{stamped, list, reconcile}
use octora.Position.Reply.{PositionResponse, build_response, headline_of}
use octora.Position.Service.{activate, note_delay, get_position}
use octora.Position.Rules.{
  At, moved, get_position_by_id_at, get_latest_execution_session_at, update_position_state-At,
  update_execution_session-At, reconcile-At, call_rule, step_rule, activity_rule, reply_rule,
  pure_rule,
}
use octora.Position.Outcome.{Ends}

-- The reply came, and the position, its session and its entry are as they were; the log has grown
-- by one `Execution delayed` at most.
pub record Waits (w₀ : World) (id : String) (p : PositionRow) (s : ExecutionSessionRow)
    (e : Option PositionReconciliationRecord) (t : List ExecutionState)
    (r : Result Error PositionResponse × World) : Type 0 where
  pub steps : List ExecutionState
  pub grown : (steps ≡ t) ⊎ (steps ≡ t ++ indexing ∷ [])
  pub at : At w₀ id r.1 p s e steps
  pub replied : (a : PositionResponse) × (r.0 ≡ ok a)

module _ {F : Type 0} (platform : Platform F) {w₀ w : World} {id : String} {p : PositionRow}
    {s : ExecutionSessionRow} {e : Option PositionReconciliationRecord} {t : List ExecutionState}
    (at : At w₀ id w p s e t) where
  activate-Ends :
      Ends platform w₀ id p s t
        (record { state = active; stage = none; steps = active ∷ []; entry = e })
        (activate platform id w)
  unfolding activate
  activate-Ends =
      let Q =
        Ends platform w₀ id p s t
          (record { state = active; stage = none; steps = active ∷ []; entry = e }) in
      step_rule Q _ _ (update_position_state-At at id active refl) λ w₁ at₁.
        step_rule Q _ _ (update_execution_session-At at₁ id active none refl) λ w₂ at₂.
          activity_rule Q platform at₂ (moved w₀ p active) active _ _ _ _ at.own
            λ a w₃ at₃. reply_rule Q platform id _ _ w₃ (record { at = at₃; reply = refl })

  note_delay-Waits : (xs : List ActivityRow) → Waits w₀ id p s e t (note_delay platform id p s xs w)
  unfolding note_delay
  note_delay-Waits xs =
      elim (Bool-cases (or_else (headline_of (get_last? xs)) "" === "Execution delayed")) [
        | inl h ↦
            rw h (
              pure_rule Q _ w
                (record { steps = t; grown = inl refl; at = at; replied = (_, refl) }))
        | inr h ↦ rw h (
            activity_rule Q platform at p indexing _ _ _ _ at.own λ a w₁ at₁.
              reply_rule Q platform id _ _ w₁ (record {
                steps = t ++ indexing ∷ [];
                grown = inr refl;
                at = at₁;
                replied = (_, refl);
              }))
      ]
    where
      Q : Result Error PositionResponse × World → Type 0
      Q = Waits w₀ id p s e t

module _ {F : Type 0} (platform : Platform F) {w₀ w : World} {id : String} {p : PositionRow}
    {s : ExecutionSessionRow} {e : Option PositionReconciliationRecord} {t : List ExecutionState}
    (at : At w₀ id w p s e t) where
  read_rule :
      (Q : Result Error PositionResponse × World → Type 0)
      → ((xs : List ActivityRow)
          → Q (
              (if not (is_state s.state indexing)
                  then pure (build_response platform p s xs)
                  else (reconcile id >>= λ r.
                      if is_state r.state active && not (is_state p.state active)
                      then activate platform id
                      else note_delay platform id p s xs))
                w))
      → Q (get_position platform id w)
  unfolding get_position or_throw list
  read_rule Q q = call_rule Q _ _ (get_position_by_id_at at) (
      call_rule Q _ _ refl (
        call_rule Q _ _ (get_latest_execution_session_at at)
          (call_rule Q _ _ refl (call_rule Q (list id) _ refl (q _)))))

  -- Outside `indexing` a read only reads.
  pub get_position_elsewhere :
      is_state s.state indexing ≡ false
      → ((get_position platform id w).1 ≡ w)
        × ((xs : List ActivityRow) × ((get_position platform id w).0
              ≡ ok (build_response platform p s xs)))
  unfolding pure
  get_position_elsewhere h =
      read_rule
        (λ r. (r.1 ≡ w) × ((xs : List ActivityRow) × (r.0 ≡ ok (build_response platform p s xs))))
        λ xs. rw h (refl, (xs, refl))

  -- A read of a position that is being indexed either finds an entry with a signature, makes the
  -- position active and takes the entry away, or finds none and leaves the position, its session and
  -- its entry as they are.
  pub get_position_indexing :
      p.state ≡ indexing
      → s.state ≡ indexing
      → (((stamped e ≡ none) × Waits w₀ id p s e t (get_position platform id w))
          ⊎ ((signature : String) × (stamped e ≡ some signature)
              × Ends platform w₀ id p s t
                  (record { state = active; stage = none; steps = active ∷ []; entry = none })
                  (get_position platform id w)))
  unfolding ◌>>=◌
  get_position_indexing hp hs =
      read_rule
        (λ r.
          ((stamped e ≡ none) × Waits w₀ id p s e t r)
          ⊎ ((signature : String) × (stamped e ≡ some signature)
              × Ends platform w₀ id p s t
                  (record { state = active; stage = none; steps = active ∷ []; entry = none }) r))
        λ xs.
          let (r, rest) = reconcile-At at in
          let (w₁, h, found) = rest in
          elim found [
            | inl (n, k, at₁) ↦
                rw (state_test hs, h) (rw k (inl (n, note_delay-Waits platform at₁ xs)))
            | inr (x, n, k, at₁) ↦
                rw (state_test hs, h)
                  (rw (k, other_state hp) (inr (x, n, activate-Ends platform at₁)))
          ]
    where
      state_test : s.state ≡ indexing → is_state s.state indexing ≡ true
      state_test k = rw k

      other_state : p.state ≡ indexing → is_state p.state active ≡ false
      other_state k = rw k
