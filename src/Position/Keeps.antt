-- ===== src/Position/Keeps.antt =====
-- Every call of the position service keeps the store sound, also when it refuses or fails.
use octora.Base.{
  String, ◌≡◌, refl, true, false, Option, none, some, arith, inl, inr, Bool-cases, Option-cases,
  ◌===◌,
}
use octora.Base.Table.{lookup}
use octora.Base.Effect.{err, ◌>>=◌}
use octora.Domain.{
  ExecutionState, awaiting_signature, funding_in_progress, indexing, active, FailureStage,
  add_liquidity, is_state, can_transition,
}
use octora.Domain.Graph.{is_state_iff}
use octora.Store.{
  World, PositionRow, ExecutionSessionRow, PositionReconciliationRecord, position_not_found, latest,
  get_position_by_id,
}
use octora.Platform.{Platform, PrivacyAdapter, MeteoraExecutor}
use octora.Position.Service.{
  claim_position, withdraw_close_position, execute_signed_intent, get_position,
  create_draft_position_intent,
}
use octora.Position.Outcome.{Verdict, claim_verdict, withdraw_verdict, execute_verdict}
use octora.Position.Calls.{
  claim_position-Ends, withdraw_close_position-Ends, execute_signed_intent-Ends,
}
use octora.Position.Refusals.{
  exit_refusal, deposit_refusal, claim_position_refused, withdraw_close_position_refused,
  execute_signed_intent_refused,
}
use octora.Position.Caps.{BetaCapsConfig, CreateDraftPositionIntentInput}
use octora.Position.Creates.{
  cap_refusal, create_draft_no_wallet, create_draft_refused, create_draft_opens,
}
use octora.Position.Reads.{get_position_elsewhere, get_position_indexing}
use octora.Position.Sound.{IsSound, at_rest, At-start, At-IsSound, Ends-IsSound}

abbrev pub SettledBy : Verdict → Type 0
SettledBy v = at_rest v.state v.state v.stage ≡ true

claim_verdict-rests :
    (adapter : PrivacyAdapter) (executor : MeteoraExecutor) (p : PositionRow)
    (e : Option PositionReconciliationRecord)
    → SettledBy (claim_verdict adapter executor p e)
claim_verdict-rests adapter executor p e = ground arith

withdraw_verdict-rests :
    (adapter : PrivacyAdapter) (executor : MeteoraExecutor) (p : PositionRow)
    (e : Option PositionReconciliationRecord)
    → SettledBy (withdraw_verdict adapter executor p e)
withdraw_verdict-rests adapter executor p e = ground arith

execute_verdict-rests :
    (adapter : PrivacyAdapter) (executor : MeteoraExecutor) (p : PositionRow)
    (e : Option PositionReconciliationRecord)
    → SettledBy (execute_verdict adapter executor p e)
execute_verdict-rests adapter executor p e = ground arith

-- A position that may be left by a claim or a withdrawal is active, and so is its session.
pub exit_allowed :
    (id : String) (w : World) (p : PositionRow) (s : ExecutionSessionRow)
    → lookup id w.positions ≡ some p
    → latest id w ≡ some s
    → exit_refusal id w ≡ none
    → (p.state ≡ active) × (s.state ≡ active)
exit_allowed id w p s e g h =
    (is_state_iff _ _ (ground (arith, e, g, h)), is_state_iff _ _ (ground (arith, e, g, h)))

module _ {F : Type 0} (platform : Platform F) (adapter : PrivacyAdapter)
    (executor : MeteoraExecutor) (id : String) {w : World} (sound : IsSound w) where
  pub claim_position-IsSound : IsSound (claim_position platform adapter executor id w).1
  claim_position-IsSound = elim (Option-cases (exit_refusal id w)) [
    | inr (x, h) ↦ rw (claim_position_refused platform adapter executor id w x h) sound
    | inl h ↦ elim (Option-cases (lookup id w.positions)) [
      | inl e ↦ absurd (ground (arith, e, h))
      | inr (p, e) ↦
          let r = sound.rests id p e in
          let (hp, hs) = exit_allowed id w p r.row e r.session h in
          Ends-IsSound (claim_verdict-rests adapter executor p _) sound
            (claim_position-Ends platform adapter executor (At-start sound e) hp hs)
    ]
  ]

  pub withdraw_close_position-IsSound :
      IsSound (withdraw_close_position platform adapter executor id w).1
  withdraw_close_position-IsSound = elim (Option-cases (exit_refusal id w)) [
    | inr (x, h) ↦ rw (withdraw_close_position_refused platform adapter executor id w x h) sound
    | inl h ↦ elim (Option-cases (lookup id w.positions)) [
      | inl e ↦ absurd (ground (arith, e, h))
      | inr (p, e) ↦
          let r = sound.rests id p e in
          let (hp, hs) = exit_allowed id w p r.row e r.session h in
          Ends-IsSound (withdraw_verdict-rests adapter executor p _) sound
            (withdraw_close_position-Ends platform adapter executor (At-start sound e) hp hs)
    ]
  ]

-- A session at rest that may move to funding awaits a signature.
funding_allowed :
    (s : ExecutionState) → can_transition s funding_in_progress ≡ true → s ≡ awaiting_signature
unfolding can_transition
funding_allowed s h = ground arith

pub deposit_allowed :
    (id message : String) (w : World) (p : PositionRow) (s : ExecutionSessionRow)
    → lookup id w.positions ≡ some p
    → latest id w ≡ some s
    → deposit_refusal id message w ≡ none
    → ((message === "") ≡ false) × (p.action ≡ add_liquidity) × (s.state ≡ awaiting_signature)
deposit_allowed id message w p s e g h = (
  ground (arith, e, g, h),
  ground (arith, e, g, h),
  funding_allowed s.state (ground (arith, e, g, h)),
)

-- At rest, a session that is being indexed belongs to a position that is.
indexing_together :
    (p s : ExecutionState) (g : Option FailureStage)
    → s ≡ indexing
    → at_rest p s g ≡ true
    → p ≡ indexing
indexing_together p s g h r = ground arith

get_position_missing :
    {F : Type 0} (platform : Platform F) (id : String) (w : World)
    → lookup id w.positions ≡ none
    → get_position platform id w ≡ (err (position_not_found id), w)
unfolding get_position get_position_by_id ◌>>=◌
get_position_missing platform id w e = rw e refl

module _ {F : Type 0} (platform : Platform F) (id : String) {w : World} (sound : IsSound w) where
  pub execute_signed_intent-IsSound :
      (adapter : PrivacyAdapter) (executor : MeteoraExecutor) (message : String)
      → IsSound
          (execute_signed_intent platform adapter executor
            (record { position_id = id; signed_message = message })
            w).1
  execute_signed_intent-IsSound adapter executor message =
      elim (Option-cases (deposit_refusal id message w)) [
        | inr (x, h) ↦
            rw (execute_signed_intent_refused platform adapter executor id w x message h) sound
        | inl h ↦ elim (Option-cases (lookup id w.positions)) [
          | inl e ↦ absurd (ground (arith, e, h))
          | inr (p, e) ↦
              let r = sound.rests id p e in
              let (hm, ha, hs) = deposit_allowed id message w p r.row e r.session h in
              Ends-IsSound (execute_verdict-rests adapter executor p _) sound (
                execute_signed_intent-Ends platform adapter executor (At-start sound e) message hm
                  ha hs)
        ]
      ]

  pub get_position-IsSound : IsSound (get_position platform id w).1
  get_position-IsSound = elim (Option-cases (lookup id w.positions)) [
    | inl e ↦ rw (get_position_missing platform id w e) sound
    | inr (p, e) ↦
        let r = sound.rests id p e in
        let at = At-start sound e in
        elim (Bool-cases (is_state r.row.state indexing)) [
          | inr h ↦ rw (get_position_elsewhere platform at h).0 sound
          | inl h ↦
              let hs = is_state_iff _ _ h in
              elim (get_position_indexing platform at (indexing_together p.state _ _ hs r.rest)
                hs) [
                  | inl (n, waits) ↦ At-IsSound waits.at r.rest sound
                  | inr (x, n, ends) ↦ Ends-IsSound refl sound ends
                ]
        ]
  ]

module _ {F : Type 0} (platform : Platform F) {w : World} (sound : IsSound w) where
  pub create_draft-IsSound :
      (caps : BetaCapsConfig F) (input : CreateDraftPositionIntentInput)
      → IsSound (create_draft_position_intent platform caps input w).1
  create_draft-IsSound caps input = elim (Bool-cases (input.wallet_address === "")) [
    | inl h ↦ rw (create_draft_no_wallet platform caps input w h) sound
    | inr h ↦ elim (Option-cases (cap_refusal platform caps input w)) [
      | inr (x, k) ↦ rw (create_draft_refused platform caps input w x h k) sound
      | inl k ↦
          let (w', a, e, at) = create_draft_opens platform caps input w h k in
          rw e (At-IsSound at refl sound)
    ]
  ]
