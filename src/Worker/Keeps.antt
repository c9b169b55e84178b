-- ===== src/Worker/Keeps.antt =====
-- A tick of the recovery worker keeps the store sound, whatever the RPC node answers.
use octora.Base.{
  ℕ, String, ◌≡◌, refl, true, Option, none, some, List, [], ◌∷◌, arith, inl, inr, length,
  Option-cases, Bool-cases,
}
use octora.Base.Table.{lookup, erase}
use octora.Base.Effect.{Result, ok, err, ◌>>=◌, pure, resume}
use octora.Domain.{
  ExecutionState, executing_on_meteora, indexing, active, failed, FailureStage, venue_confirmation,
  is_state,
}
use octora.Store.{
  World, Task, PositionRow, Error, position_not_found, update_position_state, load_reconciliation,
}
use octora.Platform.{Platform}
use octora.Services.{reconcile, stamped}
use octora.Position.Rules.{
  moved, update_position_state-At, update_execution_session-At, error_rule, step_rule,
  activity_rule,
}
use octora.Position.Sound.{IsSound, Rests, at_rest, At-start, At-IsSound}
use octora.Worker.{
  Rpc, SignatureStatus, decide_status, act_on, VenueDecision, landed, dropped, pending,
  RecoveryTickResult, check_venue_signature, advance_to, fail_position, examine_executing,
  executing_loop, examine_indexing, indexing_loop, recover_executing, recover_indexing, tick,
  stuck_rows, executing_stuck_after_ms, indexing_stuck_after_ms, no_result,
}

update_position_state_missing :
    (id : String) (x : ExecutionState) (w : World)
    → lookup id w.positions ≡ none
    → update_position_state id x w ≡ (err (position_not_found id), w)
unfolding update_position_state
update_position_state_missing id x w e = ground (arith, e)

module _ {F : Type 0} (platform : Platform F) (position : PositionRow) {w : World}
    (sound : IsSound w) where
  advance_to-IsSound :
      (x : ExecutionState) → at_rest x x none ≡ true → IsSound (advance_to platform position x w).1
  unfolding advance_to pure
  advance_to-IsSound x h =
      let Q = λ (r : Result Error (Unit {0}) × World). IsSound r.1 in
      elim (Option-cases (lookup position.id w.positions)) [
        | inl e ↦ error_rule Q _ _ (update_position_state_missing position.id x w e) sound
        | inr (p, e) ↦
            let at = At-start sound e in
            step_rule Q _ _ (update_position_state-At at position.id x refl) λ w₁ at₁.
              step_rule Q _ _ (update_execution_session-At at₁ position.id x none refl) λ w₂ at₂.
                activity_rule Q platform at₂ (moved w p x) x _ _ _ _ at.own
                  λ a w₃ at₃. At-IsSound at₃ h sound
      ]

  fail_position-IsSound :
      (stage : FailureStage) → IsSound (fail_position platform position stage w).1
  unfolding fail_position pure
  fail_position-IsSound stage =
      let Q = λ (r : Result Error (Unit {0}) × World). IsSound r.1 in
      elim (Option-cases (lookup position.id w.positions)) [
        | inl e ↦ error_rule Q _ _ (update_position_state_missing position.id failed w e) sound
        | inr (p, e) ↦
            let at = At-start sound e in
            step_rule Q _ _ (update_position_state-At at position.id failed refl) λ w₁ at₁.
              step_rule Q _ _ (update_execution_session-At at₁ position.id failed (some stage) refl)
                λ w₂ at₂.
                  activity_rule Q platform at₂ (moved w p failed) failed _ _ _ _ at.own
                    λ a w₃ at₃. At-IsSound at₃ refl sound
      ]

bind-IsSound :
    {A B : Type 0} (m : Task A) (f : A → Task B) (w : World)
    → IsSound (m w).1
    → ((a : A) (w' : World) → IsSound w' → IsSound (f a w').1)
    → IsSound ((m >>= f) w).1
unfolding ◌>>=◌
bind-IsSound {A} {B} m f w h k = go (m w).0 (m w).1 h
  where
    go : (r : Result Error A) (w' : World) → IsSound w' → IsSound (resume r f w').1
    go (ok a) w' s = k a w' s
    go (err x) w' s = s

reconcile-IsSound : (id : String) (w : World) → IsSound w → IsSound (reconcile id w).1
unfolding reconcile ◌>>=◌ pure
reconcile-IsSound id w sound = elim (Option-cases (stamped (lookup id w.entries))) [
  | inl h ↦ rw h sound
  | inr (x, h) ↦
      rw h (record { unique = sound.unique; rests = λ j p e. rest j p (sound.rests j p e) })
]
  where
    rest :
        (j : String) (p : PositionRow)
        → Rests w j p
        → Rests (record w { entries = erase id w.entries }) j p
    rest j p r = record { own = r.own; row = r.row; session = r.session; rest = r.rest }

check_venue_signature-IsSound :
    (rpc : Rpc) (now : ℕ) (position : PositionRow) (w : World)
    → IsSound w
    → IsSound (check_venue_signature rpc now position w).1
unfolding check_venue_signature load_reconciliation ◌>>=◌ pure
check_venue_signature-IsSound rpc now position w sound =
    elim (Option-cases (stamped (lookup position.id w.entries))) [
      | inl h ↦ rw h sound
      | inr (x, h) ↦ rw h (go (rpc x))
    ]
  where
    go :
        (r : Result Error (Option SignatureStatus))
        → IsSound (resume r (λ value. pure (decide_status now position value)) w).1
    go (ok value) = sound
    go (err x) = sound

module _ {F : Type 0} (platform : Platform F) where
  examine_executing-IsSound :
      (rpc : Rpc) (now : ℕ) (position : PositionRow) (w : World)
      → IsSound w
      → IsSound (examine_executing platform rpc now position w).1
  unfolding examine_executing pure
  examine_executing-IsSound rpc now position w sound =
      bind-IsSound _ _ w (check_venue_signature-IsSound rpc now position w sound)
        λ d w₁ s₁. bind-IsSound _ _ w₁ (act d w₁ s₁) λ u w₂ s₂. s₂
    where
      act :
          (d : VenueDecision) (w' : World) → IsSound w' → IsSound (act_on platform position d w').1
      act landed w' s = advance_to-IsSound platform position s indexing refl
      act dropped w' s = fail_position-IsSound platform position s venue_confirmation
      act pending w' s = s

  executing_loop-IsSound :
      (rpc : Rpc) (now : ℕ) (rows : List PositionRow) (w : World) (r : RecoveryTickResult)
      → IsSound w
      → IsSound (executing_loop platform rpc now rows w r).0
  unfolding executing_loop
  executing_loop-IsSound rpc now [] w r sound = sound
  executing_loop-IsSound rpc now (position ∷ rows) w r sound =
      executing_loop-IsSound rpc now rows _ _ (examine_executing-IsSound rpc now position w sound)

  examine_indexing-IsSound :
      (position : PositionRow) (w : World)
      → IsSound w
      → IsSound (examine_indexing platform position w).1
  unfolding examine_indexing pure
  examine_indexing-IsSound position w sound =
      bind-IsSound _ _ w (reconcile-IsSound position.id w sound) λ r w₁ s₁.
        elim (Bool-cases (is_state r.state active)) [
          | inl h ↦ rw h (
              bind-IsSound _ _ w₁ (advance_to-IsSound platform position s₁ active refl)
                λ u w₂ s₂. s₂)
          | inr h ↦ rw h s₁
        ]

  indexing_loop-IsSound :
      (rows : List PositionRow) (w : World) (r : RecoveryTickResult)
      → IsSound w
      → IsSound (indexing_loop platform rows w r).0
  unfolding indexing_loop
  indexing_loop-IsSound [] w r sound = sound
  indexing_loop-IsSound (position ∷ rows) w r sound =
      indexing_loop-IsSound rows _ _ (examine_indexing-IsSound position w sound)

  recover_executing-IsSound :
      (rpc : Rpc) (now : ℕ) (w : World)
      → IsSound w
      → IsSound (recover_executing platform rpc now w).0
  unfolding recover_executing
  recover_executing-IsSound rpc now w sound =
      let rows = stuck_rows executing_on_meteora executing_stuck_after_ms now w in
      executing_loop-IsSound rpc now rows w (record no_result { executing_checked = length rows })
        sound

  recover_indexing-IsSound :
      (now : ℕ) (w : World) (r : RecoveryTickResult)
      → IsSound w
      → IsSound (recover_indexing platform now w r).0
  unfolding recover_indexing
  recover_indexing-IsSound now w r sound =
      let rows = stuck_rows indexing indexing_stuck_after_ms now w in
      indexing_loop-IsSound rows w (record r { indexing_checked = length rows }) sound

  pub tick-IsSound :
      (rpc : Rpc) (last now : ℕ) (w : World)
      → IsSound w
      → IsSound (tick platform rpc last now w).world
  unfolding tick
  tick-IsSound rpc last now w sound =
      recover_indexing-IsSound now _ (recover_executing platform rpc now w).1
        (recover_executing-IsSound rpc now w sound)
