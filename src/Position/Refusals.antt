-- ===== src/Position/Refusals.antt =====
-- When a call of the position service refuses, and that it then changes nothing.
use octora.Base.{
  String, ◌≡◌, true, false, Option, none, some, arith, ◌===◌, ◌⊎◌, inl, inr, Option-cases,
  Bool-cases,
}
use octora.Base.Table.{lookup}
use octora.Base.Effect.{Result, ok, err, ◌>>=◌}
use octora.Domain.{active, funding_in_progress, is_state, is_add_liquidity, can_transition}
use octora.Store.{
  World, Task, PositionRow, ExecutionSessionRow, Error, position_not_found, position_must_be_active,
  session_must_be_active, signed_message_required, unsupported_action, invalid_transition, latest,
  get_position_by_id, get_latest_execution_session,
}
use octora.Platform.{Platform, PrivacyAdapter, MeteoraExecutor}
use octora.Position.Rules.{resolve_execution_mode_same}
use octora.Position.Service.{
  get_active_position, get_latest_active_session, assert_transition, claim_position,
  withdraw_close_position, execute_signed_intent,
}

abbrev pub position_refusal : String → Option PositionRow → Option Error
position_refusal id none = some (position_not_found id)
position_refusal id (some p) = elim (is_state p.state active) [
  | true ↦ none
  | false ↦ some (position_must_be_active id)
]

abbrev pub session_refusal : String → Option ExecutionSessionRow → Option Error
session_refusal id none = some (position_not_found id)
session_refusal id (some s) = elim (is_state s.state active) [
  | true ↦ none
  | false ↦ some (session_must_be_active id)
]

-- A claim or a withdrawal wants a position and a session that are both active.
abbrev pub exit_refusal : String → World → Option Error
exit_refusal id w = elim (position_refusal id (lookup id w.positions)) [
  | some x ↦ some x
  | none ↦ session_refusal id (latest id w)
]

-- A deposit wants a signed message, an `add-liquidity` intent, and a session whose state may move
-- to funding.
abbrev pub deposit_refusal : String → String → World → Option Error
deposit_refusal id message w = elim (message === "") [
  | true ↦ some signed_message_required
  | false ↦ elim (lookup id w.positions) [
    | none ↦ some (position_not_found id)
    | some p ↦ elim (latest id w) [
      | none ↦ some (position_not_found id)
      | some s ↦ elim (is_add_liquidity p.action) [
        | false ↦ some (unsupported_action p.action)
        | true ↦ elim (can_transition s.state funding_in_progress) [
          | true ↦ none
          | false ↦ some (invalid_transition s.state funding_in_progress)
        ]
      ]
    ]
  ]
]

throw_rule :
    {A B : Type 0} (m : Task A) (f : A → Task B) {x : Error} {w w' : World}
    → m w ≡ (err x, w')
    → (m >>= f) w ≡ (err x, w')
unfolding ◌>>=◌
throw_rule m f h = rw h

then_rule :
    {A B : Type 0} (m : Task A) (f : A → Task B) {a : A} {r : Result Error B × World} {w : World}
    → m w ≡ (ok a, w)
    → f a w ≡ r
    → (m >>= f) w ≡ r
unfolding ◌>>=◌
then_rule m f h k = rw h k

module _ (id : String) (w : World) where
  get_active_position_cases :
      ((x : Error) × (position_refusal id (lookup id w.positions) ≡ some x)
        × (get_active_position id w ≡ (err x, w)))
      ⊎ ((p : PositionRow) × (position_refusal id (lookup id w.positions) ≡ none)
          × (get_active_position id w ≡ (ok p, w)))
  unfolding get_active_position get_position_by_id ◌>>=◌
  get_active_position_cases = elim (Option-cases (lookup id w.positions)) [
    | inl e ↦ inl (position_not_found id, rw e, ground (arith, e))
    | inr (p, e) ↦ elim (Bool-cases (is_state p.state active)) [
      | inl h ↦ inr (p, ground (arith, e, h), ground (arith, e, h))
      | inr h ↦ inl (position_must_be_active id, ground (arith, e, h), ground (arith, e, h))
    ]
  ]

  get_latest_active_session_cases :
      ((x : Error) × (session_refusal id (latest id w) ≡ some x)
        × (get_latest_active_session id w ≡ (err x, w)))
      ⊎ (session_refusal id (latest id w) ≡ none)
  unfolding get_latest_active_session get_latest_execution_session ◌>>=◌
  get_latest_active_session_cases = elim (Option-cases (latest id w)) [
    | inl e ↦ inl (position_not_found id, rw e, ground (arith, e))
    | inr (s, e) ↦ elim (Bool-cases (is_state s.state active)) [
      | inl h ↦ inr (ground (arith, e, h))
      | inr h ↦ inl (session_must_be_active id, ground (arith, e, h), ground (arith, e, h))
    ]
  ]

  exit_refused :
      {B : Type 0} (f : PositionRow → ExecutionSessionRow → Task B) (x : Error)
      → exit_refusal id w ≡ some x
      → (get_active_position id >>= λ p. get_latest_active_session id >>= f p) w ≡ (err x, w)
  exit_refused f x h = elim get_active_position_cases [
    | inl (y, r, e) ↦ rw (throw_rule _ _ e) (ground (arith, r, h))
    | inr (p, r, e) ↦ then_rule _ _ e (elim get_latest_active_session_cases [
      | inl (y, q, g) ↦ rw (throw_rule _ (f p) g) (ground (arith, r, q, h))
      | inr q ↦ absurd (ground (arith, r, q, h))
    ])
  ]

module _ {F : Type 0} (platform : Platform F) (adapter : PrivacyAdapter)
    (executor : MeteoraExecutor) (id : String) (w : World) (x : Error) where
  pub claim_position_refused :
      exit_refusal id w ≡ some x → claim_position platform adapter executor id w ≡ (err x, w)
  unfolding claim_position
  claim_position_refused h = exit_refused id w _ x h

  pub withdraw_close_position_refused :
      exit_refusal id w ≡ some x
      → withdraw_close_position platform adapter executor id w ≡ (err x, w)
  unfolding withdraw_close_position
  withdraw_close_position_refused h = exit_refused id w _ x h

  pub execute_signed_intent_refused :
      (message : String)
      → deposit_refusal id message w ≡ some x
      → execute_signed_intent platform adapter executor
          (record { position_id = id; signed_message = message })
          w
        ≡ (err x, w)
  unfolding execute_signed_intent get_position_by_id get_latest_execution_session assert_transition
      ◌>>=◌
  execute_signed_intent_refused message h = elim (Bool-cases (message === "")) [
    | inl k ↦ ground (arith, k, h)
    | inr k ↦ elim (Option-cases (lookup id w.positions)) [
      | inl a ↦ ground (arith, k, a, h)
      | inr (p, a) ↦ elim (Option-cases (latest id w)) [
        | inl b ↦ ground (arith, k, a, b, h)
        | inr (s, b) ↦ elim (Bool-cases (is_add_liquidity p.action)) [
          | inl c ↦ elim (Bool-cases (can_transition s.state funding_in_progress)) [
            | inl d ↦ absurd (ground (arith, k, a, b, c, d, h))
            | inr d ↦ ground (arith, k, a, b, c, d, h, resolve_execution_mode_same p.mode)
          ]
          | inr c ↦ ground (arith, k, a, b, c, h)
        ]
      ]
    ]
  ]
