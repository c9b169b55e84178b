-- ===== src/Position/Reply.antt =====
-- `buildResponse` and its helpers in octora-api/src/modules/positions/position.service.ts.
use octora.Base.{
  String, Bool, true, false, ◌&&◌, Option, none, some, List, map, ◌===◌, ◌&◌, get_last?,
  if◌then◌else◌,
}
use octora.Domain.{
  ExecutionMode, PositionAction, ExecutionState, draft, awaiting_signature, funding_in_progress,
  executing_on_meteora, indexing, active, claiming, withdrawing, closing, completed, failed,
  FailureStage, recovery_required, SafeNextStep, RecoveryGuidance, is_state, mode_policy,
  get_recovery_guidance,
}
use octora.Store.{PositionRow, ExecutionSessionRow, ActivityRow}
use octora.Platform.{Platform}
use octora.Recovery.{or_else, get_indexing_recovery}

pub record PositionIntent : Type 0 where
  pub id : String
  pub position_id : String
  pub action : PositionAction
  pub mode : ExecutionMode
  pub state : ExecutionState
  pub created_at_iso : String

pub record PositionSnapshot : Type 0 where
  pub id : String
  pub intent_id : String
  pub action : PositionAction
  pub mode : ExecutionMode
  pub mode_label : String
  pub state : ExecutionState
  pub status_label : String
  pub pool_slug : String
  pub pool_label : String
  pub amount : String
  pub amount_label : String
  pub created_at_iso : String
  pub updated_at_iso : String

pub record PositionSessionState : Type 0 where
  pub id : String
  pub position_id : String
  pub state : ExecutionState
  pub failure_stage : Option FailureStage
  pub created_at_iso : String
  pub updated_at_iso : String

pub record ActivityRecord : Type 0 where
  pub id : String
  pub position_id : String
  pub action : PositionAction
  pub state : ExecutionState
  pub headline : String
  pub detail : String
  pub safe_next_step : SafeNextStep
  pub recovery : Option RecoveryGuidance
  pub created_at_iso : String

pub record PositionResponse : Type 0 where
  pub intent : PositionIntent
  pub position : PositionSnapshot
  pub session : PositionSessionState
  pub activity : List ActivityRecord
  pub recovery : Option RecoveryGuidance

-- The condition of `activity?.state === "indexing" && activity.headline === "Execution delayed"`.
abbrev pub is_delayed : ActivityRow → Bool
is_delayed a = is_state a.state indexing && a.headline === "Execution delayed"

unfoldable pub activity_guidance : Option ActivityRow → Option RecoveryGuidance
activity_guidance none = none
activity_guidance (some a) =
    if is_delayed a
    then some get_indexing_recovery
    else if is_state a.state failed
    then get_recovery_guidance (some recovery_required)
    else none

unfoldable pub resolve_activity_recovery :
    Option ActivityRow → Option FailureStage → Bool → Option RecoveryGuidance
unfolding activity_guidance
resolve_activity_recovery activity (some stage) true = get_recovery_guidance (some stage)
resolve_activity_recovery activity (some stage) false = activity_guidance activity
resolve_activity_recovery activity none is_latest = activity_guidance activity

unfoldable pub resolve_recovery : Option FailureStage → Option ActivityRow → Option RecoveryGuidance
unfolding resolve_activity_recovery
resolve_recovery (some stage) latest_activity = get_recovery_guidance (some stage)
resolve_recovery none latest_activity = resolve_activity_recovery latest_activity none true

abbrev pub headline_of : Option ActivityRow → Option String
headline_of none = none
headline_of (some a) = some a.headline

unfoldable pub format_status_label : ExecutionState → Option String → String
format_status_label draft latest_headline = "Awaiting signature"
format_status_label awaiting_signature latest_headline = "Waiting for signature"
format_status_label funding_in_progress latest_headline = "Funding in progress"
format_status_label executing_on_meteora latest_headline = "Executing on Meteora"
format_status_label indexing latest_headline =
    if or_else latest_headline "" === "Execution delayed"
    then "Execution delayed"
    else "Verifying final position state"
format_status_label active latest_headline = "Position active"
format_status_label claiming latest_headline = "Claiming"
format_status_label withdrawing latest_headline = "Withdrawing"
format_status_label closing latest_headline = "Closing"
format_status_label completed latest_headline = "Completed"
format_status_label failed latest_headline = or_else latest_headline "Needs attention"

abbrev same_id : Option ActivityRow → ActivityRow → Bool
same_id none item = false
same_id (some a) item = a.id === item.id

module _ {F : Type 0} (platform : Platform F) where
  unfoldable pub format_pool_label : String → String
  format_pool_label pool_slug =
      if pool_slug === "sol-usdc" then "SOL / USDC" else platform.to_upper_case pool_slug

  -- The source's `.replace(/\.00$/, ".00")` puts back what it takes.
  unfoldable pub format_amount : String → String
  format_amount amount =
      let parsed = platform.number amount in
      if platform.is_finite parsed then platform.to_fixed_2 parsed & " SOL" else amount

  unfoldable pub activity_record :
      Option FailureStage → Option ActivityRow → ActivityRow → ActivityRecord
  unfolding resolve_activity_recovery
  activity_record failure_stage latest_activity item = record {
    id = item.id;
    position_id = item.position_id;
    action = item.action;
    state = item.state;
    headline = item.headline;
    detail = item.detail;
    safe_next_step = item.safe_next_step;
    recovery = resolve_activity_recovery (some item) failure_stage (same_id latest_activity item);
    created_at_iso = platform.to_iso_string item.created_at;
  }

  unfoldable pub build_response :
      PositionRow → ExecutionSessionRow → List ActivityRow → PositionResponse
  unfolding format_pool_label format_amount activity_record
  build_response position session activities =
      let latest_activity = get_last? activities in
      record {
        intent = record {
          id = position.intent_id;
          position_id = position.id;
          action = position.action;
          mode = position.mode;
          state = position.state;
          created_at_iso = platform.to_iso_string position.created_at;
        };
        position = record {
          id = position.id;
          intent_id = position.intent_id;
          action = position.action;
          mode = position.mode;
          mode_label = (mode_policy position.mode).label;
          state = position.state;
          status_label = format_status_label position.state (headline_of latest_activity);
          pool_slug = position.pool_slug;
          pool_label = format_pool_label position.pool_slug;
          amount = position.amount;
          amount_label = format_amount position.amount;
          created_at_iso = platform.to_iso_string position.created_at;
          updated_at_iso = platform.to_iso_string position.updated_at;
        };
        session = record {
          id = session.id;
          position_id = session.position_id;
          state = session.state;
          failure_stage = session.failure_stage;
          created_at_iso = platform.to_iso_string session.created_at;
          updated_at_iso = platform.to_iso_string session.updated_at;
        };
        activity = map (activity_record session.failure_stage latest_activity) activities;
        recovery = resolve_recovery session.failure_stage latest_activity;
      }
