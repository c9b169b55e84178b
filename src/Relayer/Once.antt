-- ===== src/Relayer/Once.antt =====
-- A nullifier is paid out once: `processWithdrawal` of
-- octora-api/src/modules/relayer/relayer.service.ts under any interleaving of its pipelines.
use octora.Base.{
  ℕ, suc, String, ◌≡◌, refl, Bool, true, false, not, ◌&&◌, ◌||◌, Option, none, some, List, [], ◌∷◌,
  arith, leb, ◌==◌, if◌then◌else◌, ◌===◌, eq_refl, eq_iff, Bool-cases, inl, inr, subst,
}
use octora.Base.Table.{lookup, insert, lookup-insert, lookup-insert_self}
use octora.Relayer.{
  WithdrawRequest, RelayerConfig, Crypto, Network, Stage, found_spent, asking_chain, comparing,
  delaying, verifying, submitting, marking, Job, RelayerState,
}
use octora.Relayer.Checks.{has_key}
use octora.Relayer.Pipeline.{Turn, goes, ends, turn}

-- How many submissions of a nullifier returned a signature.
abbrev pub times : String → List (String × Bool) → ℕ
times n [] = 0
times n ((m, signed) ∷ ms) = if (m === n) && signed then suc (times n ms) else times n ms

-- Each submission of a nullifier was made when all earlier ones of it had thrown.
abbrev pub only_after_throws : String → List (String × Bool) → Bool
only_after_throws n [] = true
only_after_throws n ((m, signed) ∷ ms) =
    (not (m === n) || (times n ms == 0)) && only_after_throws n ms

-- The signed submissions of a nullifier, whether it is cached as spent, and where its pipeline stands.
abbrev pub fits : ℕ → Bool → Option Stage → Bool
fits t cached none = leb t 1 && (cached || (t == 0))
fits t cached (some found_spent) = cached && leb t 1
fits t cached (some (marking signature)) = t == 1
fits t cached (some stage) = t == 0

abbrev pub stage_of : {Proof : Type 0} → Option (Job Proof) → Option Stage
stage_of none = none
stage_of (some job) = some job.stage

pub has_key-insert :
    {V : Type 0} (k n : String) (v : V) (m : List (String × V))
    → has_key n (insert k v m) ≡ (if k === n then true else has_key n m)
has_key-insert k n v m = ground (arith, lookup-insert k n v m)

pub has_key-insert_self :
    {V : Type 0} (n : String) (v : V) (m : List (String × V)) → has_key n (insert n v m) ≡ true
has_key-insert_self n v m = rw (has_key, lookup-insert_self n v m) refl

times_self : (n : String) (ms : List (String × Bool)) → times n ((n, true) ∷ ms) ≡ suc (times n ms)
times_self n ms = rw (eq_refl n) refl

times_thrown : (n m : String) (ms : List (String × Bool)) → times n ((m, false) ∷ ms) ≡ times n ms
times_thrown n m ms = ground arith

pub transfer :
    (t t' : ℕ) (c c' : Bool) (x x' : Option Stage)
    → t ≡ t'
    → c ≡ c'
    → x ≡ x'
    → fits t' c' x' ≡ true
    → fits t c x ≡ true
transfer t t' c c' x x' e f g h = rw (e, f, g) h

pub at_stage :
    (t : ℕ) (c : Bool) (x x' : Option Stage) → x ≡ x' → fits t c x' ≡ true → fits t c x ≡ true
at_stage t c x x' e h = rw e h

module _ {Proof : Type 0} where
  -- A pipeline runs under its own nullifier, and no nullifier is submitted again after a signature: one
  -- whose submission returned a signature is cached, or its pipeline is about to cache it.
  pub record IsSafe (s : RelayerState Proof) : Type 0 where
    pub owned :
        (n : String) (job : Job Proof)
        → lookup n s.in_flight ≡ some job
        → job.request.nullifier_hash ≡ n
    pub once :
        (n : String)
        → fits (times n s.submissions) (has_key n s.cache) (stage_of (lookup n s.in_flight)) ≡ true

  -- And a submission is made only while all earlier ones of its nullifier have thrown.
  abbrev pub IsOrdered : RelayerState Proof → Type 0
  IsOrdered s = (n : String) → only_after_throws n s.submissions ≡ true

  abbrev pub state_of : Turn Proof → RelayerState Proof
  state_of (goes stage s) = s
  state_of (ends r s) = s

  abbrev pub next_stage : Turn Proof → Option Stage
  next_stage (goes stage s) = some stage
  next_stage (ends r s) = none

  abbrev pub Once : String → RelayerState Proof → Type 0
  Once n s =
      fits (times n s.submissions) (has_key n s.cache) (stage_of (lookup n s.in_flight)) ≡ true

  module _ (crypto : Crypto Proof) (config : RelayerConfig) where
    pub turn-own :
        (network : Network Proof) (request : WithdrawRequest Proof) (stage : Stage)
        (s : RelayerState Proof)
        → let n = request.nullifier_hash in
          fits (times n s.submissions) (has_key n s.cache) (some stage) ≡ true
          → let t = turn crypto config network request stage s in
            fits (times n (state_of t).submissions) (has_key n (state_of t).cache) (next_stage t)
            ≡ true
    unfolding turn
    turn-own network request found_spent s h = ground (arith, h)
    turn-own network request asking_chain s h =
        let n = request.nullifier_hash in
        ground (arith, h, has_key-insert_self n "on-chain" s.cache)
    turn-own network request comparing s h = ground (arith, h)
    turn-own network request delaying s h = ground (arith, h)
    turn-own network request verifying s h = ground (arith, h)
    turn-own network request submitting s h = ground (
      arith,
      h,
      times_self request.nullifier_hash s.submissions,
      times_thrown request.nullifier_hash request.nullifier_hash s.submissions,
    )
    turn-own network request (marking signature) s h =
        ground (arith, h, has_key-insert_self request.nullifier_hash signature s.cache)

    pub turn-apart :
        (network : Network Proof) (request : WithdrawRequest Proof) (stage : Stage)
        (s : RelayerState Proof) (n : String)
        → (request.nullifier_hash === n) ≡ false
        → let s' = state_of (turn crypto config network request stage s) in
          (times n s'.submissions ≡ times n s.submissions)
          × (has_key n s'.cache ≡ has_key n s.cache)
    unfolding turn
    turn-apart network request found_spent s n e = (refl, refl)
    turn-apart network request asking_chain s n e =
        ground (arith, e, has_key-insert request.nullifier_hash n "on-chain" s.cache)
    turn-apart network request comparing s n e = ground (arith, e)
    turn-apart network request delaying s n e = ground (arith, e)
    turn-apart network request verifying s n e = ground (arith, e)
    turn-apart network request submitting s n e = ground (arith, e)
    turn-apart network request (marking signature) s n e =
        (refl, rw (has_key-insert request.nullifier_hash n signature s.cache, e) refl)

    pub turn-in_flight :
        (network : Network Proof) (request : WithdrawRequest Proof) (stage : Stage)
        (s : RelayerState Proof)
        → (state_of (turn crypto config network request stage s)).in_flight ≡ s.in_flight
    unfolding turn
    turn-in_flight network request stage s = ground arith

    -- The submissions stay in order, since a pipeline submits only a nullifier without a signature.
    pub turn-IsOrdered :
        (network : Network Proof) (request : WithdrawRequest Proof) (stage : Stage)
        (s : RelayerState Proof)
        → fits
            (times request.nullifier_hash s.submissions)
            (has_key request.nullifier_hash s.cache)
            (some stage)
          ≡ true
        → IsOrdered s
        → IsOrdered (state_of (turn crypto config network request stage s))
    unfolding turn
    turn-IsOrdered network request found_spent s h o n = o n
    turn-IsOrdered network request asking_chain s h o n = ground (arith, o n)
    turn-IsOrdered network request comparing s h o n = ground (arith, o n)
    turn-IsOrdered network request delaying s h o n = ground (arith, o n)
    turn-IsOrdered network request verifying s h o n = ground (arith, o n)
    turn-IsOrdered network request submitting s h o n =
        let key = request.nullifier_hash in
        elim (Bool-cases (key === n)) [
          | inr e ↦ ground (arith, e, o n)
          | inl e ↦
              let none_signed : times n s.submissions ≡ 0 =
                subst (λ x. times x s.submissions ≡ 0) ((eq_iff key n).0 e) (ground (arith, h)) in
              ground (arith, e, none_signed, o n)
        ]
    turn-IsOrdered network request (marking signature) s h o n = o n
