-- ===== src/Relayer/Safe.antt =====
-- Each step of the relayer of octora-api/src/modules/relayer/relayer.service.ts keeps it safe.
use octora.Base.{
  ℕ, String, ◌≡◌, refl, sym, ap, subst, ◌∙◌, Bool, true, false, Option, none, some, arith, ◌===◌,
  eq_iff, ◌⊎◌, inl, inr, Bool-cases, Option-cases,
}
use octora.Base.Table.{
  lookup, insert, lookup-insert, lookup-insert_self, lookup-erase, lookup-erase_self,
}
use octora.Relayer.{
  Failure, WithdrawRequest, RelayerConfig, Crypto, Network, Stage, Job, RelayerState,
}
use octora.Relayer.Checks.{has_key, failure, guard_request}
use octora.Relayer.Pipeline.{
  Turn, goes, ends, refused, joined, started, turn, settle, first_stage, advance, begin,
  validate_proof,
}
use octora.Relayer.Once.{
  times, fits, stage_of, transfer, at_stage, IsSafe, state_of, next_stage, Once, turn-own,
  turn-apart, turn-in_flight, turn-IsOrdered, IsOrdered,
}

module _ {Proof : Type 0} where
  module _ (crypto : Crypto Proof) (config : RelayerConfig) where
    settle-IsSafe :
        (s : RelayerState Proof) (key : String) (job : Job Proof) (t : Turn Proof)
        → IsSafe s
        → job.request.nullifier_hash ≡ key
        → (state_of t).in_flight ≡ s.in_flight
        → fits (times key (state_of t).submissions) (has_key key (state_of t).cache) (next_stage t)
          ≡ true
        → ((n : String)
            → (key === n) ≡ false
            → (times n (state_of t).submissions ≡ times n s.submissions)
              × (has_key n (state_of t).cache ≡ has_key n s.cache))
        → IsSafe (settle crypto config key job t).0
    settle-IsSafe s key job (goes stage s') safe own kept here apart = record {
      owned = λ n j h. elim (Bool-cases (key === n)) [
        | inl e ↦ ground (
          arith,
          own,
          (eq_iff key n).0 e,
          e,
          h,
          lookup-insert key n (record job { stage = stage }) s'.in_flight,
        )
        | inr e ↦ safe.owned n j (
            ground
              (arith, e, h, kept, lookup-insert key n (record job { stage = stage }) s'.in_flight))
      ];
      once = λ n. elim (Bool-cases (key === n)) [
        | inl e ↦
            subst (λ x. Once x (settle crypto config key job (goes stage s')).0)
              ((eq_iff key n).0 e)
              (at_stage (times key s'.submissions) (has_key key s'.cache) _ _
                (ap stage_of (lookup-insert_self key _ s'.in_flight)) here)
        | inr e ↦
            transfer _ _ _ _ _ _ (apart n e).0 (apart n e).1
              (ap stage_of (lookup-insert key n _ s'.in_flight ∙ (rw (e, kept) refl))) (safe.once n)
      ];
    }
    settle-IsSafe s key job (ends r s') safe own kept here apart = record {
      owned = λ n j h. safe.owned n j (ground (arith, h, kept, lookup-erase key n s'.in_flight));
      once = λ n. elim (Bool-cases (key === n)) [
        | inl e ↦
            subst (λ x. Once x (settle crypto config key job (ends r s')).0) ((eq_iff key n).0 e)
              (at_stage (times key s'.submissions) (has_key key s'.cache) _ _
                (ap stage_of (lookup-erase_self key s'.in_flight)) here)
        | inr e ↦
            transfer _ _ _ _ _ _ (apart n e).0 (apart n e).1
              (ap stage_of (lookup-erase key n s'.in_flight ∙ (rw (e, kept) refl))) (safe.once n)
      ];
    }

    pub advance_running :
        (network : Network Proof) (key : String) (s : RelayerState Proof) (job : Job Proof)
        → lookup key s.in_flight ≡ some job
        → advance crypto config network key s
          ≡ settle crypto config key job (turn crypto config network job.request job.stage s)
    unfolding advance
    advance_running network key s job h = rw (advance, h) refl

    pub advance_idle :
        (network : Network Proof) (key : String) (s : RelayerState Proof)
        → lookup key s.in_flight ≡ none
        → advance crypto config network key s ≡ (s, none)
    unfolding advance
    advance_idle network key s h = rw (advance, h) refl

    own_fits :
        (s : RelayerState Proof) (job : Job Proof) (key : String)
        → IsSafe s
        → job.request.nullifier_hash ≡ key
        → lookup key s.in_flight ≡ some job
        → fits
            (times job.request.nullifier_hash s.submissions)
            (has_key job.request.nullifier_hash s.cache)
            (some job.stage)
          ≡ true
    own_fits s job key safe own h =
        at_stage (times job.request.nullifier_hash s.submissions)
          (has_key job.request.nullifier_hash s.cache) (some job.stage) _
          (ap stage_of (sym (subst (λ x. lookup x s.in_flight ≡ some job) (sym own) h)))
          (safe.once job.request.nullifier_hash)

    advance_own :
        (network : Network Proof) (s : RelayerState Proof) (job : Job Proof) (key : String)
        → IsSafe s
        → job.request.nullifier_hash ≡ key
        → lookup key s.in_flight ≡ some job
        → let t = turn crypto config network job.request job.stage s in
          fits (times key (state_of t).submissions) (has_key key (state_of t).cache) (next_stage t)
          ≡ true
    advance_own network s job key safe own h =
        let t = turn crypto config network job.request job.stage s in
        subst
          (λ x.
            fits (times x (state_of t).submissions) (has_key x (state_of t).cache) (next_stage t)
            ≡ true)
          own
          (turn-own crypto config network job.request job.stage s (own_fits s job key safe own h))

    -- A pipeline that goes on keeps the relayer safe, whatever it is answered.
    pub advance-IsSafe :
        (network : Network Proof) (key : String) (s : RelayerState Proof)
        → IsSafe s
        → IsSafe (advance crypto config network key s).0
    advance-IsSafe network key s safe = elim (Option-cases (lookup key s.in_flight)) [
      | inl h ↦ rw (advance_idle network key s h) safe
      | inr (job, h) ↦
          let own = safe.owned key job h in
          rw (advance_running network key s job h) (
            settle-IsSafe s key job (turn crypto config network job.request job.stage s) safe own
              (turn-in_flight crypto config network job.request job.stage s)
              (advance_own network s job key safe own h)
              (λ n e.
                turn-apart crypto config network job.request job.stage s n
                  (subst (λ x. (x === n) ≡ false) (sym own) e)))
    ]

    settle-IsOrdered :
        (key : String) (job : Job Proof) (t : Turn Proof)
        → IsOrdered (state_of t)
        → IsOrdered (settle crypto config key job t).0
    settle-IsOrdered key job (goes stage s) o = o
    settle-IsOrdered key job (ends r s) o = o

    pub advance-IsOrdered :
        (network : Network Proof) (key : String) (s : RelayerState Proof)
        → IsSafe s
        → IsOrdered s
        → IsOrdered (advance crypto config network key s).0
    advance-IsOrdered network key s safe o = elim (Option-cases (lookup key s.in_flight)) [
      | inl h ↦ rw (advance_idle network key s h) o
      | inr (job, h) ↦ rw (advance_running network key s job h) (
          settle-IsOrdered key job (turn crypto config network job.request job.stage s) (
            turn-IsOrdered crypto config network job.request job.stage s
              (own_fits s job key safe (safe.owned key job h) h) o))
    ]

    pub begin_submissions :
        (request : WithdrawRequest Proof) (s : RelayerState Proof)
        → (begin crypto config request s).1.submissions ≡ s.submissions
    unfolding begin
    begin_submissions request s = ground arith

    start_fits :
        (t : ℕ) (c : Bool)
        → fits t c none ≡ true
        → fits t c (some (first_stage crypto config c)) ≡ true
    start_fits t true h = ground arith
    start_fits t false h = ground arith

    pub begin_refused :
        (request : WithdrawRequest Proof) (s : RelayerState Proof) (error : Failure)
        → guard_request crypto config request ≡ some error
        → begin crypto config request s ≡ (refused (failure crypto request error), s)
    unfolding begin
    begin_refused request s error g = rw (begin, g) refl

    pub begin_joined :
        (request : WithdrawRequest Proof) (s : RelayerState Proof) (job : Job Proof)
        → guard_request crypto config request ≡ none
        → lookup request.nullifier_hash s.in_flight ≡ some job
        → begin crypto config request s ≡ (joined, s)
    unfolding begin
    begin_joined request s job g h = rw (begin, g, h) refl

    abbrev pub entry : WithdrawRequest Proof → RelayerState Proof → Job Proof
    entry request s = record {
      request = request;
      stage = first_stage crypto config (has_key request.nullifier_hash s.cache);
    }

    abbrev pub entered : WithdrawRequest Proof → RelayerState Proof → RelayerState Proof
    entered request s = record s {
      in_flight = insert request.nullifier_hash (entry request s) s.in_flight;
    }

    pub begin_started :
        (request : WithdrawRequest Proof) (s : RelayerState Proof)
        → guard_request crypto config request ≡ none
        → lookup request.nullifier_hash s.in_flight ≡ none
        → begin crypto config request s ≡ (started, entered request s)
    unfolding begin
    begin_started request s g h = rw (begin, g, h) refl

    entered-IsSafe :
        (request : WithdrawRequest Proof) (s : RelayerState Proof)
        → lookup request.nullifier_hash s.in_flight ≡ none
        → IsSafe s
        → IsSafe (entered request s)
    entered-IsSafe request s h safe =
        let key = request.nullifier_hash in
        record {
          owned = λ n j k. elim (Bool-cases (key === n)) [
            | inl e ↦
                ground (
                  arith,
                  (eq_iff key n).0 e,
                  e,
                  k,
                  lookup-insert key n (entry request s) s.in_flight,
                )
            | inr e ↦
                safe.owned n j
                  (ground (arith, e, k, lookup-insert key n (entry request s) s.in_flight))
          ];
          once = λ n. elim (Bool-cases (key === n)) [
            | inl e ↦
                subst (λ x. Once x (entered request s)) ((eq_iff key n).0 e)
                  (at_stage (times key s.submissions) (has_key key s.cache) _ _
                    (ap stage_of (lookup-insert_self key _ s.in_flight))
                    (start_fits (times key s.submissions) (has_key key s.cache) (
                      at_stage (times key s.submissions) (has_key key s.cache) _ _
                        (ap stage_of (sym h)) (safe.once key))))
            | inr e ↦
                at_stage (times n s.submissions) (has_key n s.cache) _ _
                  (ap stage_of (lookup-insert key n _ s.in_flight ∙ (rw e refl))) (safe.once n)
          ];
        }

    -- So does a request that comes in.
    pub begin-IsSafe :
        (request : WithdrawRequest Proof) (s : RelayerState Proof)
        → IsSafe s
        → IsSafe (begin crypto config request s).1
    begin-IsSafe request s safe = elim (Option-cases (guard_request crypto config request)) [
      | inr (error, g) ↦ rw (begin_refused request s error g) safe
      | inl g ↦ elim (Option-cases (lookup request.nullifier_hash s.in_flight)) [
        | inr (job, h) ↦ rw (begin_joined request s job g h) safe
        | inl h ↦ rw (begin_started request s g h) (entered-IsSafe request s h safe)
      ]
    ]

    validated :
        (network : Network Proof) (request : WithdrawRequest Proof) (s : RelayerState Proof)
        → let s' = (validate_proof crypto config network request s).1 in
          (s' ≡ s) ⊎ (s' ≡ record s { cache = insert request.nullifier_hash "on-chain" s.cache })
    unfolding validate_proof
    validated network request s = ground arith

    pub validated_submissions :
        (network : Network Proof) (request : WithdrawRequest Proof) (s : RelayerState Proof)
        → (validate_proof crypto config network request s).1.submissions ≡ s.submissions
    validated_submissions network request s = elim (validated network request s) [
      | inl e ↦ ap (λ x. x.submissions) e
      | inr e ↦ ap (λ x. x.submissions) e
    ]

    pub validated_in_flight :
        (network : Network Proof) (request : WithdrawRequest Proof) (s : RelayerState Proof)
        → (validate_proof crypto config network request s).1.in_flight ≡ s.in_flight
    validated_in_flight network request s = elim (validated network request s) [
      | inl e ↦ ap (λ x. x.in_flight) e
      | inr e ↦ ap (λ x. x.in_flight) e
    ]

    fits_cached : (t : ℕ) (c : Bool) (x : Option Stage) → fits t c x ≡ true → fits t true x ≡ true
    fits_cached t c x h = ground arith

    cached-IsSafe :
        (key signature : String) (s : RelayerState Proof)
        → IsSafe s
        → IsSafe (record s { cache = insert key signature s.cache })
    cached-IsSafe key signature s safe = record {
      owned = safe.owned;
      once = λ n. elim (Bool-cases (key === n)) [
        | inl e ↦
            rw (has_key, lookup-insert, e)
              (fits_cached (times n s.submissions) (has_key n s.cache)
                (stage_of (lookup n s.in_flight)) (safe.once n))
        | inr e ↦ rw (has_key, lookup-insert, e) (safe.once n)
      ];
    }

    -- And a dry run.
    pub validate_proof-IsSafe :
        (network : Network Proof) (request : WithdrawRequest Proof) (s : RelayerState Proof)
        → IsSafe s
        → IsSafe (validate_proof crypto config network request s).1
    validate_proof-IsSafe network request s safe = elim (validated network request s) [
      | inl e ↦ subst IsSafe (sym e) safe
      | inr e ↦ subst IsSafe (sym e) (cached-IsSafe request.nullifier_hash "on-chain" s safe)
    ]
