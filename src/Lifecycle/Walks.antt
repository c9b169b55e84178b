-- ===== src/Lifecycle/Walks.antt =====
-- What an order writes to the log is a walk through the transition table of
-- octora-api/src/domain/execution-state-machine.ts.
use octora.Base.{String, ◌≡◌, sym, subst, true, Option, none, some, List, [], ◌∷◌, ◌++◌, arith}
use octora.Base.Table.{lookup}
use octora.Domain.{ExecutionState, active, awaiting_signature, can_transition}
use octora.Store.{World, PositionRow, PositionReconciliationRecord, latest, ExecutionSessionRow}
use octora.Platform.{Platform, PrivacyAdapter, MeteoraExecutor}
use octora.Position.Rules.{trail}
use octora.Position.Sound.{IsSound}
use octora.Position.Keeps.{exit_allowed, deposit_allowed}
use octora.Lifecycle.{Order, deposits, claims, withdraws, perform, refusal, verdict}
use octora.Lifecycle.Spec.{perform-Ends}

-- From `s`, each state is one that the state before it may move to, and the last is `u`.
abbrev pub IsWalk : ExecutionState → List ExecutionState → ExecutionState → Type 0
IsWalk s [] u = s ≡ u
IsWalk s (x ∷ xs) u = (can_transition s x ≡ true) × IsWalk x xs u

abbrev begins : Order → ExecutionState
begins (deposits message) = awaiting_signature
begins claims = active
begins withdraws = active

verdict-IsWalk :
    (adapter : PrivacyAdapter) (executor : MeteoraExecutor) (order : Order) (p : PositionRow)
    (e : Option PositionReconciliationRecord)
    → let v = verdict adapter executor order p e in IsWalk (begins order) v.steps v.state
unfolding can_transition
verdict-IsWalk adapter executor (deposits message) p e = ground arith
verdict-IsWalk adapter executor claims p e = ground arith
verdict-IsWalk adapter executor withdraws p e = ground arith

session_begins :
    (id : String) (w : World) (order : Order) (p : PositionRow) (s : ExecutionSessionRow)
    → lookup id w.positions ≡ some p
    → latest id w ≡ some s
    → refusal order id w ≡ none
    → s.state ≡ begins order
session_begins id w (deposits message) p s e g h = (deposit_allowed id message w p s e g h).2
session_begins id w claims p s e g h = (exit_allowed id w p s e g h).1
session_begins id w withdraws p s e g h = (exit_allowed id w p s e g h).1

-- In a sound store, an order that is not refused appends to the position's log the states of a
-- walk in the transition table, from the state that the session had to the one it is left in.
pub perform-IsWalk :
    {F : Type 0} (platform : Platform F) (adapter : PrivacyAdapter) (executor : MeteoraExecutor)
    (id : String) (w : World) (order : Order) (p : PositionRow) (s : ExecutionSessionRow)
    → IsSound w
    → lookup id w.positions ≡ some p
    → latest id w ≡ some s
    → refusal order id w ≡ none
    → let w' = (perform platform adapter executor id order w).1 in
      (steps : List ExecutionState) × (s' : ExecutionSessionRow) × (latest id w' ≡ some s')
      × (trail id w' ≡ trail id w ++ steps)
      × IsWalk s.state steps s'.state
perform-IsWalk platform adapter executor id w order p s sound found session h =
    let ends = perform-Ends platform adapter executor id w order sound p found h in
    let v = verdict adapter executor order p (lookup id w.entries) in
    (
      v.steps,
      _,
      ends.at.session,
      ends.at.log,
      subst (λ x. IsWalk x v.steps v.state) (sym (session_begins id w order p s found session h))
          (verdict-IsWalk adapter executor order p (lookup id w.entries)),
    )
