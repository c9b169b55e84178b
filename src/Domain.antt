-- ===== src/Domain.antt =====
-- The domain layer, octora-api/src/domain: modes, actions, execution states and failure stages, the
-- transition table of the execution state machine, the mode policy and the recovery catalogue.
pub mod Graph
use octora.Base.{ℕ, String, Bool, true, false, Option, none, some, List, [], ◌∷◌, ◌==◌, ◌||◌}

pub data ExecutionMode : Type 0 where
  standard fast_private : ExecutionMode

pub data PositionAction : Type 0 where
  add_liquidity claim withdraw_close : PositionAction

pub data ExecutionState : Type 0 where
  draft awaiting_signature funding_in_progress executing_on_meteora indexing active : ExecutionState
  claiming withdrawing closing completed failed : ExecutionState

pub data FailureStage : Type 0 where
  signature pre_funding funding_partial venue_submission venue_confirmation : FailureStage
  indexing_lag recovery_required : FailureStage

-- The states are string literals in the source; two are equal when their places in the union are.
abbrev pub place : ExecutionState → ℕ
place draft = 0
place awaiting_signature = 1
place funding_in_progress = 2
place executing_on_meteora = 3
place indexing = 4
place active = 5
place claiming = 6
place withdrawing = 7
place closing = 8
place completed = 9
place failed = 10

-- The literals themselves, as template literals show them.
abbrev pub state_text : ExecutionState → String
state_text draft = "draft"
state_text awaiting_signature = "awaiting_signature"
state_text funding_in_progress = "funding_in_progress"
state_text executing_on_meteora = "executing_on_meteora"
state_text indexing = "indexing"
state_text active = "active"
state_text claiming = "claiming"
state_text withdrawing = "withdrawing"
state_text closing = "closing"
state_text completed = "completed"
state_text failed = "failed"

abbrev pub action_text : PositionAction → String
action_text add_liquidity = "add-liquidity"
action_text claim = "claim"
action_text withdraw_close = "withdraw-close"

abbrev pub stage_text : FailureStage → String
stage_text signature = "signature"
stage_text pre_funding = "pre-funding"
stage_text funding_partial = "funding-partial"
stage_text venue_submission = "venue-submission"
stage_text venue_confirmation = "venue-confirmation"
stage_text indexing_lag = "indexing-lag"
stage_text recovery_required = "recovery-required"

-- `a === b` on states.
abbrev pub is_state : ExecutionState → ExecutionState → Bool
is_state a b = place a == place b

abbrev pub is_mode : ExecutionMode → ExecutionMode → Bool
is_mode standard standard = true
is_mode fast_private fast_private = true
is_mode _ _ = false

abbrev pub is_add_liquidity : PositionAction → Bool
is_add_liquidity add_liquidity = true
is_add_liquidity _ = false

abbrev pub includes : List ExecutionState → ExecutionState → Bool
includes [] s = false
includes (t ∷ ts) s = is_state t s || includes ts s

unfoldable pub transitions : ExecutionState → List ExecutionState
transitions draft = awaiting_signature ∷ []
transitions awaiting_signature = funding_in_progress ∷ failed ∷ []
transitions funding_in_progress = executing_on_meteora ∷ failed ∷ []
transitions executing_on_meteora = indexing ∷ failed ∷ []
transitions indexing = active ∷ completed ∷ failed ∷ []
transitions active = claiming ∷ withdrawing ∷ closing ∷ []
transitions claiming = indexing ∷ completed ∷ failed ∷ []
transitions withdrawing = closing ∷ failed ∷ []
transitions closing = indexing ∷ completed ∷ failed ∷ []
transitions completed = []
transitions failed = []

unfoldable pub can_transition : ExecutionState → ExecutionState → Bool
unfolding transitions
can_transition from to = includes (transitions from) to

pub record ModePolicy : Type 0 where
  pub label : String
  pub funding_ttl_minutes : ℕ
  pub allow_fallback_to_standard : Bool
  pub pod_reuse_within_position : Bool

abbrev pub mode_policy : ExecutionMode → ModePolicy
mode_policy standard = record {
  label = "Standard";
  funding_ttl_minutes = 10;
  allow_fallback_to_standard = false;
  pod_reuse_within_position = true;
}
mode_policy fast_private = record {
  label = "Fast Private";
  funding_ttl_minutes = 15;
  allow_fallback_to_standard = true;
  pod_reuse_within_position = true;
}

pub data SafeNextStep : Type 0 where
  wait retry refresh contact_support : SafeNextStep

pub record RecoveryGuidance : Type 0 where
  pub headline : String
  pub message : String
  pub safe_next_step : SafeNextStep
  pub terminal : Bool
  pub fallback_mode : Option ExecutionMode
  pub downgrade_requires_disclosure : Option Bool

unfoldable pub recovery_catalog : FailureStage → RecoveryGuidance
recovery_catalog signature = record {
  headline = "Signature is still needed";
  message = "Octora is waiting for a valid signature. Sign again to continue.";
  safe_next_step = retry;
  terminal = false;
  fallback_mode = none;
  downgrade_requires_disclosure = none;
}
recovery_catalog pre_funding = record {
  headline = "Funding could not start";
  message =
      "Octora stopped before any funds moved. Check the balance, then retry from the beginning.";
  safe_next_step = retry;
  terminal = true;
  fallback_mode = some standard;
  downgrade_requires_disclosure = some true;
}
recovery_catalog funding_partial = record {
  headline = "Funding started, but did not finish cleanly";
  message =
      "Octora moved into funding, but the flow did not complete. Check the wallet activity, then retry once the balance is ready.";
  safe_next_step = contact_support;
  terminal = true;
  fallback_mode = some standard;
  downgrade_requires_disclosure = some true;
}
recovery_catalog venue_submission = record {
  headline = "Meteora rejected the submission";
  message = "The pool did not accept the request. Review the setup, then retry.";
  safe_next_step = retry;
  terminal = true;
  fallback_mode = none;
  downgrade_requires_disclosure = none;
}
recovery_catalog venue_confirmation = record {
  headline = "Confirmation is still pending";
  message = "The onchain submission has not finished confirming yet. Octora is waiting safely.";
  safe_next_step = wait;
  terminal = false;
  fallback_mode = none;
  downgrade_requires_disclosure = none;
}
recovery_catalog indexing_lag = record {
  headline = "Still waiting on the final snapshot";
  message =
      "The venue finished, but the final snapshot has not landed yet. Refresh this view in a moment.";
  safe_next_step = refresh;
  terminal = false;
  fallback_mode = none;
  downgrade_requires_disclosure = none;
}
recovery_catalog recovery_required = record {
  headline = "Needs attention";
  message = "Octora stopped the flow safely. Review the position and try again.";
  safe_next_step = contact_support;
  terminal = true;
  fallback_mode = none;
  downgrade_requires_disclosure = none;
}

unfoldable pub get_recovery_guidance : Option FailureStage → Option RecoveryGuidance
get_recovery_guidance none = none
get_recovery_guidance (some stage) = some (recovery_catalog stage)
