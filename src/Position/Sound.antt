-- ===== src/Position/Sound.antt =====
-- What holds of every position between two calls, and that every call keeps it.
use octora.Base.{
  String, ◌≡◌, refl, sym, ◌∙◌, subst, ◌≢◌, Bool, true, false, Option, none, some, List, arith, inl,
  inr, Bool-cases, ◌===◌, eq_iff,
}
use octora.Base.Table.{lookup, Unique}
use octora.Base.Effect.{Result}
use octora.Domain.{
  ExecutionState, draft, awaiting_signature, indexing, active, completed, failed, FailureStage,
}
use octora.Store.{
  World, PositionRow, ExecutionSessionRow, PositionReconciliationRecord, Error, latest,
}
use octora.Platform.{Platform}
use octora.Position.Rules.{At, trail}
use octora.Position.Reply.{PositionResponse}
use octora.Position.Outcome.{Verdict, Ends}

-- A draft awaits its signature; otherwise position and session agree, on one of four states, and
-- a failure stage is set exactly on a failure.
abbrev pub at_rest : ExecutionState → ExecutionState → Option FailureStage → Bool
at_rest draft awaiting_signature none = true
at_rest indexing indexing none = true
at_rest active active none = true
at_rest completed completed none = true
at_rest failed failed (some stage) = true
at_rest _ _ _ = false

pub record Rests (w : World) (id : String) (p : PositionRow) : Type 0 where
  pub own : p.id ≡ id
  pub row : ExecutionSessionRow
  pub session : latest id w ≡ some row
  pub rest : at_rest p.state row.state row.failure_stage ≡ true

pub record IsSound (w : World) : Type 0 where
  pub unique : Unique w.positions
  pub rests : (id : String) (p : PositionRow) → lookup id w.positions ≡ some p → Rests w id p

pub At-start :
    {w : World} {id : String} {p : PositionRow} (sound : IsSound w)
    (found : lookup id w.positions ≡ some p)
    → At w id w p (sound.rests id p found).row (lookup id w.entries) (trail id w)
At-start {w} {id} {p} sound found = record {
  own = (sound.rests id p found).own;
  unique = λ u. u;
  position = found;
  session = (sound.rests id p found).session;
  entry = refl;
  log = refl;
  stamp = refl;
  positions_apart = λ j h. refl;
  sessions_apart = λ j h. refl;
}

pub At-IsSound :
    {w₀ w : World} {id : String} {p : PositionRow} {s : ExecutionSessionRow}
    {e : Option PositionReconciliationRecord} {t : List ExecutionState}
    → At w₀ id w p s e t
    → at_rest p.state s.state s.failure_stage ≡ true
    → IsSound w₀
    → IsSound w
At-IsSound {w₀} {w} {id} {p} {s} at h sound = record { unique = at.unique sound.unique; rests = go }
  where
    here : (q : PositionRow) → lookup id w.positions ≡ some q → Rests w id q
    here q f = record {
      own = ground (arith, f, at.position, at.own);
      row = s;
      session = at.session;
      rest = ground (arith, f, at.position, h);
    }

    apart : (j : String) (q : PositionRow) → id ≢ j → lookup j w.positions ≡ some q → Rests w j q
    apart j q n f =
        let old = sound.rests j q (sym (at.positions_apart j n) ∙ f) in
        record {
          own = old.own;
          row = old.row;
          session = rw (at.sessions_apart j n) old.session;
          rest = old.rest;
        }

    go : (j : String) (q : PositionRow) → lookup j w.positions ≡ some q → Rests w j q
    go j q f = elim (Bool-cases (id === j)) [
      | inl same ↦
          subst (λ k. lookup k w.positions ≡ some q → Rests w k q) ((eq_iff id j).0 same) (here q) f
      | inr other ↦ apart j q (λ k. ground (arith, eq_iff id j, other, k)) f
    ]

pub Ends-IsSound :
    {F : Type 0} {platform : Platform F} {w : World} {id : String} {p : PositionRow}
    {s : ExecutionSessionRow} {t : List ExecutionState} {v : Verdict}
    {r : Result Error PositionResponse × World}
    → at_rest v.state v.state v.stage ≡ true
    → IsSound w
    → Ends platform w id p s t v r
    → IsSound r.1
Ends-IsSound h sound ends = At-IsSound ends.at h sound
