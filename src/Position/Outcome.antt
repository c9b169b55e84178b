-- ===== src/Position/Outcome.antt =====
-- What a call of the position service leaves behind, for each answer of the adapter and the
-- executor: the specification of the calls, apart from how they are carried out.
use mathlib.Core.List.{append_assoc}
use octora.Base.{String, ◌≡◌, Option, none, some, List, [], ◌∷◌, ◌++◌}
use octora.Base.Table.{lookup}
use octora.Base.Effect.{Result, ok, err}
use octora.Domain.{
  ExecutionState, funding_in_progress, executing_on_meteora, indexing, claiming, withdrawing,
  closing, completed, failed, FailureStage, pre_funding, funding_partial, venue_submission,
  venue_confirmation,
}
use octora.Store.{
  World, PositionRow, ExecutionSessionRow, PositionReconciliationRecord, Error, or_empty,
}
use octora.Platform.{
  Platform, PrivacyAdapter, PrivacyReceipt, PrepareFundingInput, PrepareExitInput, MeteoraExecutor,
  MeteoraExecutionReceipt, AddLiquidityInput, ExitInput,
}
use octora.Recovery.{or_else}
use octora.Position.Reply.{PositionResponse, build_response}
use octora.Position.Rules.{At, moved, moved_session}

pub record Verdict : Type 0 where
  pub state : ExecutionState
  pub stage : Option FailureStage
  pub steps : List ExecutionState
  pub entry : Option PositionReconciliationRecord

-- The position and its session are in the verdict's state, its log has grown by the verdict's
-- steps, the reply shows just that, and no other position or session has changed.
pub record Ends {F : Type 0} (platform : Platform F) (w₀ : World) (id : String) (p : PositionRow)
    (s : ExecutionSessionRow) (t : List ExecutionState) (v : Verdict)
    (r : Result Error PositionResponse × World) : Type 0 where
  pub at :
      At w₀ id r.1 (moved w₀ p v.state) (moved_session w₀ s v.state v.stage) v.entry (t ++ v.steps)
  pub reply :
      r.0
      ≡ ok (
          build_response platform
            (moved w₀ p v.state)
            (moved_session w₀ s v.state v.stage)
            (or_empty (lookup id r.1.activities)))

abbrev pub after : List ExecutionState → Verdict → Verdict
after xs v = record v { steps = xs ++ v.steps }

-- A call whose first move was to `x` goes on as one from the moved rows.
pub Ends-after :
    {F : Type 0} {platform : Platform F} {w₀ : World} {id : String} {p : PositionRow}
    {s : ExecutionSessionRow} {t : List ExecutionState} {v : Verdict}
    {r : Result Error PositionResponse × World} (x : ExecutionState)
    → Ends platform w₀ id (moved w₀ p x) (moved_session w₀ s x none) (t ++ x ∷ []) v r
    → Ends platform w₀ id p s t (after (x ∷ []) v) r
Ends-after {t = t} {v = v} x h = record {
  at = rw (← append_assoc t (x ∷ []) v.steps) h.at;
  reply = h.reply;
}

-- The same where the position itself has not moved yet.
pub Ends-after_session :
    {F : Type 0} {platform : Platform F} {w₀ : World} {id : String} {p : PositionRow}
    {s : ExecutionSessionRow} {t : List ExecutionState} {v : Verdict}
    {r : Result Error PositionResponse × World} (x : ExecutionState)
    → Ends platform w₀ id p (moved_session w₀ s x none) (t ++ x ∷ []) v r
    → Ends platform w₀ id p s t (after (x ∷ []) v) r
Ends-after_session {t = t} {v = v} x h = record {
  at = rw (← append_assoc t (x ∷ []) v.steps) h.at;
  reply = h.reply;
}

abbrev pub failing : FailureStage → Option PositionReconciliationRecord → Verdict
failing stage entry = record {
  state = failed;
  stage = some stage;
  steps = failed ∷ [];
  entry = entry;
}

abbrev pub funding_input : PositionRow → PrepareFundingInput
funding_input p = record {
  position_id = p.id;
  intent_id = p.intent_id;
  pool_slug = p.pool_slug;
  amount = p.amount;
  mode = p.mode;
  stealth_pubkey = none;
}

abbrev pub liquidity_input : PositionRow → PrivacyReceipt → AddLiquidityInput
liquidity_input p receipt = record { pod_id = or_else receipt.pod_id p.id; amount_sol = p.amount }

abbrev pub exit_input : PositionRow → PrepareExitInput
exit_input p = record { position_id = p.id; intent_id = p.intent_id; mode = p.mode }

abbrev pub venue_input : PositionRow → PrivacyReceipt → ExitInput
venue_input p receipt = record { pod_id = or_else receipt.pod_id p.id; position_id = p.id }

-- Funding that fails stops before Meteora is asked; a failed deposit stops after it.
abbrev pub deposited :
    PositionRow
    → Option PositionReconciliationRecord
    → Result Error MeteoraExecutionReceipt
    → Verdict
deposited p e (err x) = after (executing_on_meteora ∷ []) (failing funding_partial e)
deposited p e (ok venue) = record {
  state = indexing;
  stage = none;
  steps = executing_on_meteora ∷ indexing ∷ [];
  entry = some (record { position_id = p.id; signature = some venue.signature });
}

abbrev funded :
    MeteoraExecutor
    → PositionRow
    → Option PositionReconciliationRecord
    → Result Error PrivacyReceipt
    → Verdict
funded executor p e (err x) = failing pre_funding e
funded executor p e (ok receipt) =
    deposited p e (executor.add_liquidity (liquidity_input p receipt))

abbrev pub execute_verdict :
    PrivacyAdapter → MeteoraExecutor → PositionRow → Option PositionReconciliationRecord → Verdict
execute_verdict adapter executor p e =
    after (funding_in_progress ∷ [])
      (funded executor p e (adapter.prepare_funding (funding_input p)))

-- An exit, by claim or by withdrawal, that passes the privacy boundary and the venue has `done`.
abbrev settled :
    Verdict → Option PositionReconciliationRecord → Result Error MeteoraExecutionReceipt → Verdict
settled done e (err x) = failing venue_confirmation e
settled done e (ok venue) = done

abbrev exited :
    (ExitInput → Result Error MeteoraExecutionReceipt)
    → Verdict
    → PositionRow
    → Option PositionReconciliationRecord
    → Result Error PrivacyReceipt
    → Verdict
exited venue done p e (err x) = failing venue_submission e
exited venue done p e (ok receipt) = settled done e (venue (venue_input p receipt))

abbrev pub claim_verdict :
    PrivacyAdapter → MeteoraExecutor → PositionRow → Option PositionReconciliationRecord → Verdict
claim_verdict adapter executor p e = after (claiming ∷ []) (
    exited executor.claim
      (record { state = completed; stage = none; steps = indexing ∷ completed ∷ []; entry = e }) p e
      (adapter.prepare_exit (exit_input p)))

abbrev pub withdraw_verdict :
    PrivacyAdapter → MeteoraExecutor → PositionRow → Option PositionReconciliationRecord → Verdict
withdraw_verdict adapter executor p e = after (withdrawing ∷ []) (
    exited executor.withdraw_close
      (record {
        state = completed;
        stage = none;
        steps = closing ∷ indexing ∷ completed ∷ [];
        entry = e;
      })
      p e (adapter.prepare_exit (exit_input p)))
