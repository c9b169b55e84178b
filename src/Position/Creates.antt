-- ===== src/Position/Creates.antt =====
-- `createDraftPositionIntent`: what it refuses, and the rows that it opens.
use mathlib.Core.List.{map-append}
use octora.Base.{
  suc, ◌≡◌, refl, true, false, Option, none, some, [], ◌∷◌, ◌++◌, arith, ◌===◌, ◌&&◌,
  get_last?-append, ◌&◌,
}
use octora.Base.Table.{lookup, insert, values, lookup-insert_self, lookup-insert_ne, insert-Unique}
use octora.Base.Effect.{ok, err, ◌>>=◌, pure}
use octora.Domain.{draft, awaiting_signature, wait}
use octora.Store.{
  World, PositionRow, ExecutionSessionRow, ActivityRow, Error, wallet_required, amount_not_positive,
  position_cap, wallet_cap, tvl_cap, or_empty, create_position, create_execution_session,
}
use octora.Platform.{Platform}
use octora.Services.{uuid, record_activity}
use octora.Position.Reply.{build_response, format_pool_label}
use octora.Position.Caps.{
  BetaCapsConfig, CreateDraftPositionIntentInput, count_rows, sum_rows, assert_beta_caps,
}
use octora.Position.Service.{create_draft_position_intent}
use octora.Position.Rules.{At, trail}

-- The first cap that the intent breaks, in the order in which they are tested.
module _ {F : Type 0} (platform : Platform F) where
  open platform use {number, is_finite, of_nat, ge, gt, plus, zero_number}

  unfoldable pub cap_refusal :
      BetaCapsConfig F → CreateDraftPositionIntentInput → World → Option Error
  cap_refusal caps input w =
      let amount = number input.amount in
      elim (is_finite amount && gt amount zero_number) [
        | false ↦ some amount_not_positive
        | true ↦ elim (gt amount caps.max_position_sol) [
          | true ↦ some position_cap
          | false ↦
              elim (ge (of_nat (count_rows input.wallet_address (values w.positions)))
                caps.max_positions_per_wallet) [
                  | true ↦ some wallet_cap
                  | false ↦
                      elim (gt (plus (sum_rows platform zero_number (values w.positions)) amount)
                        caps.max_global_tvl_sol) [ true ↦ some tvl_cap | false ↦ none ]
                ]
        ]
      ]

  -- The caps refuse with the first cap that is broken, and pass otherwise; they change nothing.
  pub assert_beta_caps_lem :
      (caps : BetaCapsConfig F) (input : CreateDraftPositionIntentInput) (w : World)
      → assert_beta_caps platform caps input w
        ≡ (elim (cap_refusal caps input w) [ some x ↦ err x | none ↦ ok tt ], w)
  unfolding assert_beta_caps cap_refusal ◌>>=◌
  assert_beta_caps_lem caps input w = ground arith

  abbrev pub opened_position : CreateDraftPositionIntentInput → World → PositionRow
  opened_position input w = record {
    id = platform.random_uuid w.draws;
    intent_id = platform.random_uuid (suc w.draws);
    wallet_address = input.wallet_address;
    action = input.action;
    mode = input.mode;
    state = draft;
    pool_slug = input.pool;
    amount = input.amount;
    created_at = w.stamp;
    updated_at = w.stamp;
  }

  abbrev pub opened_session : World → ExecutionSessionRow
  opened_session w = record {
    id = platform.random_uuid (suc (suc w.draws));
    position_id = platform.random_uuid w.draws;
    state = awaiting_signature;
    failure_stage = none;
    created_at = w.stamp;
    updated_at = w.stamp;
  }

  abbrev opened_activity : CreateDraftPositionIntentInput → World → ActivityRow
  opened_activity input w = record {
    id = platform.random_uuid (suc (suc (suc w.draws)));
    position_id = platform.random_uuid w.draws;
    action = input.action;
    state = awaiting_signature;
    headline = "Intent received";
    detail =
        "Queued a draft "
        & format_pool_label platform input.pool
        & " position for signature review.";
    safe_next_step = wait;
    created_at = w.stamp;
  }

  abbrev opened : CreateDraftPositionIntentInput → World → World
  opened input w =
      let id = platform.random_uuid w.draws in
      record w {
        positions = insert id (opened_position input w) w.positions;
        sessions = insert id (or_empty (lookup id w.sessions) ++ opened_session w ∷ []) w.sessions;
        activities =
            insert id (or_empty (lookup id w.activities) ++ opened_activity input w ∷ [])
              w.activities;
        draws = suc (suc (suc (suc w.draws)));
      }

  pub create_draft_refused :
      (caps : BetaCapsConfig F) (input : CreateDraftPositionIntentInput) (w : World) (x : Error)
      → (input.wallet_address === "") ≡ false
      → cap_refusal caps input w ≡ some x
      → create_draft_position_intent platform caps input w ≡ (err x, w)
  unfolding create_draft_position_intent ◌>>=◌
  create_draft_refused caps input w x h k = rw (h, assert_beta_caps_lem, k) refl

  pub create_draft_no_wallet :
      (caps : BetaCapsConfig F) (input : CreateDraftPositionIntentInput) (w : World)
      → (input.wallet_address === "") ≡ true
      → create_draft_position_intent platform caps input w ≡ (err wallet_required, w)
  unfolding create_draft_position_intent ◌>>=◌
  create_draft_no_wallet caps input w h = rw h refl

  pub create_draft_opens :
      (caps : BetaCapsConfig F) (input : CreateDraftPositionIntentInput) (w : World)
      → (input.wallet_address === "") ≡ false
      → cap_refusal caps input w ≡ none
      → (w' : World) × (a : ActivityRow) × (create_draft_position_intent platform caps input w ≡ (
        ok (build_response platform (opened_position input w) (opened_session w) (a ∷ [])),
        w',
      ))
        × At w
            (opened_position input w).id
            w'
            (opened_position input w)
            (opened_session w)
            (lookup (opened_position input w).id w.entries)
            (trail (opened_position input w).id w ++ awaiting_signature ∷ [])
  unfolding create_draft_position_intent ◌>>=◌ create_position create_execution_session
      record_activity uuid pure
  create_draft_opens caps input w h k = (
    opened input w,
    opened_activity input w,
    rw (h, assert_beta_caps_lem, k) refl,
    record {
      own = refl;
      unique = insert-Unique _ _ w.positions;
      position = lookup-insert_self _ _ _;
      session = rw lookup-insert_self (
          get_last?-append (or_empty (lookup (opened_position input w).id w.sessions))
            (opened_session w));
      entry = refl;
      log = rw lookup-insert_self (map-append _ _ _);
      stamp = refl;
      positions_apart = λ j n. lookup-insert_ne _ _ _ _ n;
      sessions_apart = λ j n. lookup-insert_ne _ _ _ _ n;
    },
  )

  pub create_draft_positions :
      (caps : BetaCapsConfig F) (input : CreateDraftPositionIntentInput) (w : World)
      → (input.wallet_address === "") ≡ false
      → cap_refusal caps input w ≡ none
      → (create_draft_position_intent platform caps input w).1.positions
        ≡ insert (opened_position input w).id (opened_position input w) w.positions
  unfolding create_draft_position_intent ◌>>=◌ create_position create_execution_session
      record_activity uuid pure
  create_draft_positions caps input w h k = rw (h, assert_beta_caps_lem, k) refl

  pub cap_refusal-wallet :
      (caps : BetaCapsConfig F) (input : CreateDraftPositionIntentInput) (w : World)
      → cap_refusal caps input w ≡ none
      → ge
          (of_nat (count_rows input.wallet_address (values w.positions)))
          caps.max_positions_per_wallet
        ≡ false
  unfolding cap_refusal
  cap_refusal-wallet caps input w k = ground (arith, k)
