-- ===== src/Lifecycle/Tests.antt =====
-- A run of the position service on one position, and the theorems of this component on its stores.
use octora.Base.{
  String, le→leb, suc, ap, ◌≡◌, refl, Option, none, some, List, [], ◌∷◌, ◌++◌, ◌⊎◌, ◌≤◌,
}
use octora.Base.Table.{lookup, insert, values}
use octora.Base.Effect.{ok, err, ◌>>=◌}
use octora.Domain.{ExecutionState, awaiting_signature, indexing, active}
use octora.Store.{create_position, create_execution_session}
use octora.Position.Caps.{assert_beta_caps, sum_rows}
use octora.Domain.{can_transition, funding_in_progress, executing_on_meteora}
use octora.Position.Creates.{cap_refusal}
use octora.Position.Rules.{moved, moved_session}
use octora.Store.{
  World, PositionReconciliationRecord, PositionRow, ExecutionSessionRow, ActivityRow, Error,
  external, latest, signed_message_required,
}
use octora.Platform.{PrivacyAdapter}
use octora.Services.{stamped, uuid, record_activity}
use octora.Position.Reply.{build_response}
use octora.Position.Caps.{count_rows}
use octora.Position.Service.{create_draft_position_intent, get_position}
use octora.Position.Creates.{opened_position, opened_session, create_draft_opens}
use octora.Position.Rules.{At, trail}
use octora.Position.Outcome.{Ends}
use octora.Position.Reads.{Waits, get_position_indexing}
use octora.Position.Sound.{IsSound}
use octora.Lifecycle.{
  deposits, claims, perform, refusal, verdict, creates, orders, Reach, here, next, empty,
}
use octora.Lifecycle.Spec.{perform-Ends, perform_refused}
use octora.Lifecycle.Walks.{IsWalk, perform-IsWalk}
use octora.Lifecycle.Reached.{Reach-IsSound}
use octora.Lifecycle.Final.{perform_finished, IsMonotone, create_draft_within_cap}
use octora.Lifecycle.Fixtures.{
  test_platform, test_caps, test_input, test_adapter, test_executor, store_0, store_1, store_2,
}

abbrev reach_1 : Reach test_platform test_caps (empty 7) store_1
reach_1 = next here (creates test_input)

abbrev reach_2 : Reach test_platform test_caps (empty 7) store_2
reach_2 = next reach_1 (orders test_adapter test_executor "u" (deposits "signed"))

abbrev row_1 : PositionRow
row_1 = opened_position test_platform test_input store_0

found_1 : lookup "u" store_1.positions ≡ some row_1
unfolding create_draft_position_intent ◌>>=◌ assert_beta_caps create_position
    create_execution_session insert lookup uuid record_activity
found_1 = refl

session_1 : latest "u" store_1 ≡ some (opened_session test_platform store_0)
unfolding create_draft_position_intent ◌>>=◌ assert_beta_caps create_position
    create_execution_session insert lookup uuid record_activity
session_1 = refl

allowed_1 : refusal (deposits "signed") "u" store_1 ≡ none
unfolding create_draft_position_intent ◌>>=◌ assert_beta_caps create_position
    create_execution_session insert lookup can_transition uuid record_activity
allowed_1 = refl

abbrev sound_1 : IsSound store_1
sound_1 = Reach-IsSound test_platform test_caps reach_1

-- The same deposit where the adapter throws.
abbrev broken_adapter : PrivacyAdapter
broken_adapter = record {
  prepare_funding = λ i. err (external "relayer is down");
  prepare_exit = λ i. err (external "relayer is down");
}

abbrev store_f : World
store_f = (perform test_platform broken_adapter test_executor "u" (deposits "signed") store_1).1

abbrev reach_f : Reach test_platform test_caps (empty 7) store_f
reach_f = next reach_1 (orders broken_adapter test_executor "u" (deposits "signed"))

abbrev sound_f : IsSound store_f
sound_f = Reach-IsSound test_platform test_caps reach_f

deposited-Ends :
    Ends test_platform store_1 "u" row_1
      (sound_1.rests "u" row_1 found_1).row
      (trail "u" store_1)
      (verdict test_adapter test_executor (deposits "signed") row_1 (lookup "u" store_1.entries))
      (perform test_platform test_adapter test_executor "u" (deposits "signed") store_1)
deposited-Ends =
    perform-Ends test_platform test_adapter test_executor "u" store_1 (deposits "signed") sound_1
      row_1 found_1 allowed_1

perform-Ends_example :
    Ends test_platform store_1 "u" row_1
      (sound_1.rests "u" row_1 found_1).row
      (trail "u" store_1)
      (verdict test_adapter test_executor (deposits "signed") row_1 (lookup "u" store_1.entries))
      (perform test_platform test_adapter test_executor "u" (deposits "signed") store_1)
perform-Ends_example =
    perform-Ends test_platform test_adapter test_executor "u" store_1 (deposits "signed") sound_1
      row_1 found_1 allowed_1

failed-Ends :
    Ends test_platform store_1 "u" row_1
      (sound_1.rests "u" row_1 found_1).row
      (trail "u" store_1)
      (verdict broken_adapter test_executor (deposits "signed") row_1 (lookup "u" store_1.entries))
      (perform test_platform broken_adapter test_executor "u" (deposits "signed") store_1)
failed-Ends =
    perform-Ends test_platform broken_adapter test_executor "u" store_1 (deposits "signed") sound_1
      row_1 found_1 allowed_1

perform_refused_example :
    perform test_platform test_adapter test_executor "u" (deposits "") store_1
    ≡ (err signed_message_required, store_1)
perform_refused_example =
    perform_refused test_platform test_adapter test_executor "u" store_1 (deposits "")
      signed_message_required refl

perform-IsWalk_example :
    (steps : List ExecutionState) × (s' : ExecutionSessionRow) × (latest "u" store_2 ≡ some s')
    × (trail "u" store_2 ≡ trail "u" store_1 ++ steps)
    × IsWalk awaiting_signature steps s'.state
perform-IsWalk_example =
    perform-IsWalk test_platform test_adapter test_executor "u" store_1 (deposits "signed") row_1
      (opened_session test_platform store_0) sound_1 found_1 session_1 allowed_1

Reach-IsSound_example : IsSound store_2
Reach-IsSound_example = Reach-IsSound test_platform test_caps reach_2

perform_finished_example :
    (x : Error) × (perform test_platform test_adapter test_executor "u" claims store_f
      ≡ (err x, store_f))
perform_finished_example =
    perform_finished test_platform "u" store_f sound_f _ failed-Ends.at.position refl test_adapter
      test_executor claims

abbrev test_entry : Option PositionReconciliationRecord
test_entry = some (record { position_id = "u"; signature = some "sig" })

get_position_indexing_example :
    let p = moved store_1 row_1 indexing in
    let s = moved_session store_1 (sound_1.rests "u" row_1 found_1).row indexing none in
    (((stamped test_entry ≡ none)
        × Waits store_1 "u" p s test_entry
            (trail "u" store_1 ++ funding_in_progress ∷ executing_on_meteora ∷ indexing ∷ [])
            (get_position test_platform "u" store_2))
      ⊎ ((signature : String) × (stamped test_entry ≡ some signature)
          × Ends test_platform store_1 "u" p s
              (trail "u" store_1 ++ funding_in_progress ∷ executing_on_meteora ∷ indexing ∷ [])
              (record { state = active; stage = none; steps = active ∷ []; entry = none })
              (get_position test_platform "u" store_2)))
get_position_indexing_example = get_position_indexing test_platform deposited-Ends.at refl refl

passes_caps : cap_refusal test_platform test_caps test_input store_0 ≡ none
unfolding cap_refusal count_rows sum_rows
passes_caps = refl

create_draft_opens_example :
    (w' : World) × (a : ActivityRow) × (create_draft_position_intent test_platform test_caps
        test_input store_0
      ≡ (
        ok (build_response test_platform row_1 (opened_session test_platform store_0) (a ∷ [])),
        w',
      ))
    × At store_0 "u" w' row_1
        (opened_session test_platform store_0)
        (lookup "u" store_0.entries)
        (trail "u" store_0 ++ awaiting_signature ∷ [])
create_draft_opens_example =
    create_draft_opens test_platform test_caps test_input store_0 refl passes_caps

fresh_0 : lookup "u" store_0.positions ≡ none
unfolding lookup
fresh_0 = refl

keeps_order : IsMonotone test_platform
keeps_order = λ m n h. le→leb n m h

create_draft_within_cap_example :
    let before = count_rows "wallet" (values store_0.positions) in
    let later = count_rows "wallet" (values store_1.positions) in (later ≡ suc before) × (later ≤ 2)
create_draft_within_cap_example =
    create_draft_within_cap test_platform test_caps test_input store_0 _ 2 keeps_order refl fresh_0
      (ap (λ q. q.0)
        (create_draft_opens test_platform test_caps test_input store_0 refl passes_caps).2)
