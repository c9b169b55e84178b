-- ===== src/Lifecycle/Spec.antt =====
-- The calls of the position service against their specification.
use octora.Base.{String, ◌≡◌, none, some}
use octora.Base.Table.{lookup}
use octora.Base.Effect.{err}
use octora.Store.{World, PositionRow, Error}
use octora.Platform.{Platform, PrivacyAdapter, MeteoraExecutor}
use octora.Position.Rules.{trail}
use octora.Position.Outcome.{Ends}
use octora.Position.Calls.{
  claim_position-Ends, withdraw_close_position-Ends, execute_signed_intent-Ends,
}
use octora.Position.Refusals.{
  claim_position_refused, withdraw_close_position_refused, execute_signed_intent_refused,
}
use octora.Position.Sound.{IsSound, At-start}
use octora.Position.Keeps.{exit_allowed, deposit_allowed}
use octora.Lifecycle.{Order, deposits, claims, withdraws, perform, refusal, verdict}

module _ {F : Type 0} (platform : Platform F) (adapter : PrivacyAdapter)
    (executor : MeteoraExecutor) (id : String) (w : World) where
  -- An order that the specification refuses throws just that error, and changes nothing.
  pub perform_refused :
      (order : Order) (x : Error)
      → refusal order id w ≡ some x
      → perform platform adapter executor id order w ≡ (err x, w)
  unfolding perform
  perform_refused (deposits message) x h =
      execute_signed_intent_refused platform adapter executor id w x message h
  perform_refused claims x h = claim_position_refused platform adapter executor id w x h
  perform_refused withdraws x h = withdraw_close_position_refused platform adapter executor id w x h

  -- In a sound store, an order that is not refused ends by its verdict.
  pub perform-Ends :
      (order : Order) (sound : IsSound w) (p : PositionRow) (found : lookup id w.positions ≡ some p)
      → refusal order id w ≡ none
      → Ends platform w id p
          (sound.rests id p found).row
          (trail id w)
          (verdict adapter executor order p (lookup id w.entries))
          (perform platform adapter executor id order w)
  unfolding perform
  perform-Ends (deposits message) sound p found h =
      let r = sound.rests id p found in
      let (hm, ha, hs) = deposit_allowed id message w p r.row found r.session h in
      execute_signed_intent-Ends platform adapter executor (At-start sound found) message hm ha hs
  perform-Ends claims sound p found h =
      let r = sound.rests id p found in
      let (hp, hs) = exit_allowed id w p r.row found r.session h in
      claim_position-Ends platform adapter executor (At-start sound found) hp hs
  perform-Ends withdraws sound p found h =
      let r = sound.rests id p found in
      let (hp, hs) = exit_allowed id w p r.row found r.session h in
      withdraw_close_position-Ends platform adapter executor (At-start sound found) hp hs
