-- ===== src/Lifecycle/Final.antt =====
-- Completed and failed positions, and how many positions a wallet may open.
use octora.Base.{
  subst, leb→le, ℕ, suc, ◌≤◌, String, ◌≡◌, refl, ap, ◌∙◌, true, false, Option, none, some, List, [],
  ◌∷◌, arith, ◌===◌, eq_refl, inl, inr, Option-cases, Bool-cases, leb,
}
use octora.Base.Table.{lookup, insert, values}
use octora.Base.Effect.{Result, ok, err}
use octora.Domain.{ExecutionState, indexing, active, awaiting_signature, FailureStage, is_state}
use octora.Store.{World, PositionRow, ExecutionSessionRow, Error, latest}
use octora.Platform.{Platform, PrivacyAdapter, MeteoraExecutor}
use octora.Position.Reply.{PositionResponse}
use octora.Position.Caps.{BetaCapsConfig, CreateDraftPositionIntentInput, is_terminal, count_rows}
use octora.Position.Creates.{
  cap_refusal, opened_position, create_draft_no_wallet, create_draft_refused,
  create_draft_positions, cap_refusal-wallet,
}
use octora.Position.Service.{get_position, create_draft_position_intent}
use octora.Position.Reads.{get_position_elsewhere}
use octora.Position.Sound.{IsSound, at_rest, At-start}
use octora.Position.Keeps.{exit_allowed, deposit_allowed}
use octora.Lifecycle.{Order, deposits, claims, withdraws, perform, refusal}
use octora.Lifecycle.Spec.{perform_refused}

-- A session of a finished position is in none of the states that a call starts from.
finished_session :
    (p s : ExecutionState) (g : Option FailureStage)
    → at_rest p s g ≡ true
    → is_terminal p ≡ true
    → (is_state s active ≡ false)
      × (is_state s indexing ≡ false)
      × (is_state s awaiting_signature ≡ false)
finished_session p s g h k = ground arith

finished_refused :
    (id : String) (w : World) (order : Order) (p : PositionRow) (s : ExecutionSessionRow)
    → lookup id w.positions ≡ some p
    → latest id w ≡ some s
    → at_rest p.state s.state s.failure_stage ≡ true
    → is_terminal p.state ≡ true
    → refusal order id w ≡ none
    → ⊥
finished_refused id w (deposits message) p s e g h k r =
    let (_, _, a) = deposit_allowed id message w p s e g r in
    ground (arith, a, (finished_session p.state s.state s.failure_stage h k).2)
finished_refused id w claims p s e g h k r =
    ground
      (arith, exit_allowed id w p s e g r, finished_session p.state s.state s.failure_stage h k)
finished_refused id w withdraws p s e g h k r =
    ground
      (arith, exit_allowed id w p s e g r, finished_session p.state s.state s.failure_stage h k)

module _ {F : Type 0} (platform : Platform F) (id : String) (w : World) (sound : IsSound w)
    (p : PositionRow) (found : lookup id w.positions ≡ some p)
    (finished : is_terminal p.state ≡ true) where
  -- In a sound store a completed or failed position refuses every order, and the store stays as
  -- it was.
  pub perform_finished :
      (adapter : PrivacyAdapter) (executor : MeteoraExecutor) (order : Order)
      → (x : Error) × (perform platform adapter executor id order w ≡ (err x, w))
  perform_finished adapter executor order = elim (Option-cases (refusal order id w)) [
    | inl h ↦
        let r = sound.rests id p found in
        absurd (finished_refused id w order p r.row found r.session r.rest finished h)
    | inr (x, h) ↦ (x, perform_refused platform adapter executor id w order x h)
  ]

  -- A read of it leaves the store as it was too.
  get_position_finished : (get_position platform id w).1 ≡ w
  get_position_finished =
      let r = sound.rests id p found in
      (get_position_elsewhere platform (At-start sound found)
        (finished_session p.state r.row.state r.row.failure_stage r.rest finished).1).0

count_rows-insert :
    (wallet id : String) (row : PositionRow) (m : List (String × PositionRow))
    → lookup id m ≡ none
    → (row.wallet_address === wallet) ≡ true
    → is_terminal row.state ≡ false
    → count_rows wallet (values (insert id row m)) ≡ suc (count_rows wallet (values m))
unfolding count_rows insert lookup
count_rows-insert wallet id row [] f h k = rw (h, k) refl
count_rows-insert wallet id row ((j, x) ∷ m) f h k = elim (Bool-cases (j === id)) [
  | inl e ↦ absurd (ground (arith, e, f))
  | inr e ↦
      let ih = count_rows-insert wallet id row m (ground (arith, e, f)) h k in
      rw e (ground (arith, ih))
]

ok_not_err :
    {r : Result Error PositionResponse × World} {x : Error} {w : World} {y : PositionResponse}
    → r ≡ (err x, w)
    → r.0 ≡ ok y
    → ⊥
ok_not_err h k = cc (ap (λ q. q.0) h, k)

same : (s : String) → (s === s) ≡ true
same s = eq_refl s

module _ {F : Type 0} (platform : Platform F) where
  -- What floats keep of the order of natural numbers, whatever they round.
  abbrev pub IsMonotone : Type 0
  IsMonotone = (m n : ℕ) → n ≤ m → platform.ge (platform.of_nat m) (platform.of_nat n) ≡ true

  below_cap :
      IsMonotone
      → (max count : ℕ) → platform.ge (platform.of_nat count) (platform.of_nat max) ≡ false
      → suc count ≤ max
  below_cap laws max count h = elim (Bool-cases (leb max count)) [
    | inl e ↦ absurd (ground (arith, h, laws count max (leb→le max count e)))
    | inr e ↦ ground (arith, e)
  ]

-- Where the wallet's cap is a natural number and floats keep the order of natural numbers, an intent
-- that is opened under a fresh id gives its wallet one more open position, and the wallet is then still
-- within its cap.
pub create_draft_within_cap :
    {F : Type 0} (platform : Platform F) (caps : BetaCapsConfig F)
    (input : CreateDraftPositionIntentInput) (w : World) (reply : PositionResponse) (max : ℕ)
    → IsMonotone platform
    → caps.max_positions_per_wallet ≡ platform.of_nat max
    → lookup (platform.random_uuid w.draws) w.positions ≡ none
    → (create_draft_position_intent platform caps input w).0 ≡ ok reply
    → let w' = (create_draft_position_intent platform caps input w).1 in
      let before = count_rows input.wallet_address (values w.positions) in
      let later = count_rows input.wallet_address (values w'.positions) in
      (later ≡ suc before) × (later ≤ max)
create_draft_within_cap platform caps input w reply max laws whole fresh done =
    elim (Bool-cases (input.wallet_address === "")) [
      | inl h ↦ absurd (ok_not_err (create_draft_no_wallet platform caps input w h) done)
      | inr h ↦ elim (Option-cases (cap_refusal platform caps input w)) [
        | inr (x, k) ↦ absurd (ok_not_err (create_draft_refused platform caps input w x h k) done)
        | inl k ↦
            let counted =
              ap (λ m. count_rows input.wallet_address (values m))
                (create_draft_positions platform caps input w h k)
              ∙ count_rows-insert input.wallet_address _ (opened_position platform input w)
                  w.positions fresh (same input.wallet_address) refl in
            let below = below_cap platform laws max _ (
              subst
                (λ c.
                  platform.ge
                    (platform.of_nat (count_rows input.wallet_address (values w.positions))) c
                  ≡ false)
                whole (cap_refusal-wallet platform caps input w k)) in
            (counted, rw counted below)
      ]
    ]
