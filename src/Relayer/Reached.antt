-- ===== src/Relayer/Reached.antt =====
-- What holds of the relayer after any sequence of requests, answers and dry runs.
use octora.Base.{
  ℕ, String, ◌≡◌, refl, Bool, true, Option, List, [], arith, ◌≤◌, ◌++◌, ◌∷◌, subst, eq_refl,
}
use octora.Base.Table.{lookup}
use octora.Relayer.{WithdrawRequest, RelayerConfig, Crypto, Network, RelayerState, Stage}
use octora.Relayer.Checks.{has_key}
use octora.Relayer.Pipeline.{advance, begin, validate_proof}
use octora.Relayer.Once.{times, fits, stage_of, IsSafe, IsOrdered, only_after_throws}
use octora.Relayer.Safe.{
  advance-IsOrdered, begin_submissions, validated_submissions, advance-IsSafe, begin-IsSafe,
  validate_proof-IsSafe,
}

module _ {Proof : Type 0} (crypto : Crypto Proof) (config : RelayerConfig) where
  -- A request comes in, a pipeline gets its next answer, or a dry run is made.
  pub data Step (s : RelayerState Proof) : RelayerState Proof → Type 0 where
    requests : (request : WithdrawRequest Proof) → Step s (begin crypto config request s).1
    answers :
        (network : Network Proof) (key : String) → Step s (advance crypto config network key s).0
    dry_runs :
        (network : Network Proof) (request : WithdrawRequest Proof)
        → Step s (validate_proof crypto config network request s).1

  pub data Reach (s : RelayerState Proof) : RelayerState Proof → Type 0 where
    here : Reach s s
    next : {u v : RelayerState Proof} → Reach s u → Step u v → Reach s v

-- A relayer that has just started; the table of roots is the database's.
abbrev pub fresh : {Proof : Type 0} → List (String × ℕ) → RelayerState Proof
fresh roots = record {
  in_flight = [];
  cache = [];
  roots = roots;
  pending_withdrawals = 0;
  total_processed = 0;
  submissions = [];
}

fits_once : (t : ℕ) (c : Bool) (x : Option Stage) → fits t c x ≡ true → t ≤ 1
fits_once t c x h = ground arith

earlier_thrown :
    (n : String) (later earlier : List (String × Bool)) (signed : Bool)
    → only_after_throws n (later ++ (n, signed) ∷ earlier) ≡ true
    → times n earlier ≡ 0
earlier_thrown n [] earlier signed h = ground (arith, h, eq_refl n)
earlier_thrown n (x ∷ later) earlier signed h =
    earlier_thrown n later earlier signed (ground (arith, h))

module _ {Proof : Type 0} (crypto : Crypto Proof) (config : RelayerConfig) where
  Step-IsSafe : {s v : RelayerState Proof} → Step crypto config s v → IsSafe s → IsSafe v
  Step-IsSafe {s = s} (requests request) safe = begin-IsSafe crypto config request s safe
  Step-IsSafe {s = s} (answers network key) safe = advance-IsSafe crypto config network key s safe
  Step-IsSafe {s = s} (dry_runs network request) safe =
      validate_proof-IsSafe crypto config network request s safe

  fresh-IsSafe : (roots : List (String × ℕ)) → IsSafe (fresh {Proof = Proof} roots)
  unfolding lookup
  fresh-IsSafe roots = record { owned = λ n job e. absurd (cc); once = λ n. refl }

  -- In every state that a fresh relayer can reach, each pipeline in the map runs under its own
  -- nullifier, and a nullifier whose submission returned a signature is cached as spent or about to be cached.
  pub Reach-IsSafe :
      {roots : List (String × ℕ)} {s : RelayerState Proof}
      → Reach crypto config (fresh roots) s
      → IsSafe s
  Reach-IsSafe {roots} here = fresh-IsSafe roots
  Reach-IsSafe (next r step) = Step-IsSafe step (Reach-IsSafe r)

  Step-IsOrdered :
      {s v : RelayerState Proof} → Step crypto config s v → IsSafe s → IsOrdered s → IsOrdered v
  Step-IsOrdered {s = s} (requests request) safe o =
      λ n. rw (begin_submissions crypto config request s) (o n)
  Step-IsOrdered {s = s} (answers network key) safe o =
      advance-IsOrdered crypto config network key s safe o
  Step-IsOrdered {s = s} (dry_runs network request) safe o =
      λ n. rw (validated_submissions crypto config network request s) (o n)

  Reach-IsOrdered :
      {roots : List (String × ℕ)} {s : RelayerState Proof}
      → Reach crypto config (fresh roots) s
      → IsOrdered s
  Reach-IsOrdered here = λ n. refl
  Reach-IsOrdered (next r step) = Step-IsOrdered step (Reach-IsSafe r) (Reach-IsOrdered r)

  -- However requests for a nullifier hash (compared as a text) interleave with each other and with dry
  -- runs, and whatever the chain answers, a nullifier is submitted only while every earlier submission of
  -- it has thrown; so at most one of its submissions returns a signature, and none is made after that.
  pub submitted_after_throws :
      {roots : List (String × ℕ)} {s : RelayerState Proof}
      → Reach crypto config (fresh roots) s
      → (nullifier : String) (later earlier : List (String × Bool)) (signed : Bool)
      → s.submissions ≡ later ++ (nullifier, signed) ∷ earlier
      → (times nullifier earlier ≡ 0) × (times nullifier s.submissions ≤ 1)
  submitted_after_throws {s = s} r nullifier later earlier signed e = (
    earlier_thrown nullifier later earlier signed
        (subst (λ xs. only_after_throws nullifier xs ≡ true) e (Reach-IsOrdered r nullifier)),
    fits_once _ (has_key nullifier s.cache) (stage_of (lookup nullifier s.in_flight))
        ((Reach-IsSafe r).once nullifier),
  )
