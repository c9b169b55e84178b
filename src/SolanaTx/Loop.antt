-- ===== src/SolanaTx/Loop.antt =====
-- The rounds of the retry loop of octora-api/src/common/solana-tx.ts.
use octora.Base.{
  subst, ℕ, zero, suc, ◌+◌, ◌-◌, ◌*◌, ◌^◌, ◌≤◌, ◌<◌, String, ◌≡◌, refl, ap, ◌⊎◌, inl, inr, Bool,
  true, false, Option, some, List, [], ◌∷◌, arith, ◌==◌, Bool-cases,
}
use native.Mathlib.Nat.{pow-suc, pow-le-pow_right}
use octora.Base.Effect.{Result-cases, Result, ok, err, ◌>>=◌}
use octora.SolanaTx.{
  Attempt, Event, sends, waits, Submission, attempt_once, delay_ms, is_retryable, submit_loop,
}

abbrev pub count_sends : List Event → ℕ
count_sends [] = 0
count_sends (sends t ∷ events) = suc (count_sends events)
count_sends (waits ms ∷ events) = count_sends events

abbrev pub total_wait : List Event → ℕ
total_wait [] = 0
total_wait (sends t ∷ events) = total_wait events
total_wait (waits ms ∷ events) = ms + total_wait events

module _ (cu micro : ℕ) (signers : List String) (answers : Attempt) where
  pub attempt_once-sends :
      (events : List Event)
      → (count_sends (attempt_once cu micro signers answers events).1 ≤ suc (count_sends events))
        × (total_wait (attempt_once cu micro signers answers events).1 ≡ total_wait events)
        × ((attempt_once cu micro signers answers events).0
            ≡ (attempt_once cu micro signers answers []).0)
  unfolding attempt_once ◌>>=◌
  attempt_once-sends events = ground arith

delay_after : (a : ℕ) → delay_ms (suc a) ≡ 250 * 3 ^ a
delay_after a = ap (λ k. 250 * 3 ^ k) {x = suc a - 1} {y = a} (omega arith)

module _ (matches : String → String → Bool) (max_attempts : ℕ)
    (answer : ℕ → Result String String) where
  -- The attempt failed with an error that is worth another attempt.
  abbrev pub IsRetried : ℕ → Type 0
  IsRetried n = (error : String) × (answer n ≡ err error) × (is_retryable matches error ≡ true)

  -- The attempt succeeded, failed with another error, or was the last one allowed.
  abbrev pub IsFinal : ℕ → Type 0
  IsFinal n =
      ((signature : String) × (answer n ≡ ok signature))
      ⊎ ((error : String) × (answer n ≡ err error)
          × ((is_retryable matches error ≡ false) ⊎ (n ≡ max_attempts)))

  -- What is the result of a run of attempts from this one on.
  abbrev pub SettlesAs : ℕ → Result String String → Type 0
  SettlesAs first result =
      (n : ℕ) × (first ≤ n)
      × (n ≤ max_attempts)
      × ((earlier : ℕ) → first ≤ earlier → earlier < n → IsRetried earlier)
      × (result ≡ answer n)
      × IsFinal n

  settles_after :
      (attempt : ℕ) (error : String) (result : Result String String)
      → answer attempt ≡ err error
      → is_retryable matches error ≡ true
      → SettlesAs (suc attempt) result
      → SettlesAs attempt result
  settles_after attempt error result a r (n, low, high, before, e, last) = (
    n,
    omega (arith, low),
    high,
    λ j h k. elim (Bool-cases (attempt == j)) [
      | inl p ↦ subst (λ x. IsRetried x) {x = attempt} (ground (arith, p)) (error, a, r)
      | inr p ↦ before j (ground (arith, h, p)) k
    ],
    e,
    last,
  )

  module _ (once : ℕ → Submission String)
      (same : (n : ℕ) (events : List Event) → (once n events).0 ≡ answer n) where
    -- One round: the loop has its result, or another round gives it.
    submit_loop-round :
        (n attempt : ℕ) (last : Option String) (events : List Event)
        → attempt + n ≡ max_attempts
        → (SettlesAs attempt (submit_loop matches once max_attempts (suc n) attempt last events).0
            × ((submit_loop matches once max_attempts (suc n) attempt last events).1
                ≡ (once attempt events).1))
          ⊎ ((error : String) × (answer attempt ≡ err error)
              × (is_retryable matches error ≡ true)
              × ((attempt == max_attempts) ≡ false)
              × (submit_loop matches once max_attempts (suc n) attempt last events
                  ≡ submit_loop matches once max_attempts n
                      (suc attempt)
                      (some error)
                      (waits (delay_ms attempt) ∷ (once attempt events).1)))
    unfolding submit_loop
    submit_loop-round n attempt last events h = elim (Result-cases (answer attempt)) [
      | inl (signature, a) ↦ inl (
        (
          attempt,
          omega arith,
          omega (arith, h),
          (λ j l k. absurd (omega (arith, l, k))),
          rw (submit_loop, same attempt events, a) refl,
          inl (signature, a),
        ),
        rw (submit_loop, same attempt events, a) refl,
      )
      | inr (error, a) ↦ elim (Bool-cases (is_retryable matches error)) [
        | inr r ↦ inl (
          (
            attempt,
            omega arith,
            omega (arith, h),
            (λ j l k. absurd (omega (arith, l, k))),
            rw (submit_loop, same attempt events, a, r) refl,
            inr (error, a, inl r),
          ),
          rw (submit_loop, same attempt events, a, r) refl,
        )
        | inl r ↦ elim (Bool-cases (attempt == max_attempts)) [
          | inl e ↦ inl (
            (
              attempt,
              omega arith,
              omega (arith, h),
              (λ j l k. absurd (omega (arith, l, k))),
              rw (submit_loop, same attempt events, a, r, e) refl,
              inr (error, a, inr (ground (arith, e))),
            ),
            rw (submit_loop, same attempt events, a, r, e) refl,
          )
          | inr e ↦ inr (error, a, r, e, rw (submit_loop, same attempt events, a, r, e) refl)
        ]
      ]
    ]

    pub submit_loop-settles :
        (n attempt : ℕ) (last : Option String) (events : List Event)
        → attempt + n ≡ max_attempts
        → SettlesAs attempt (submit_loop matches once max_attempts (suc n) attempt last events).0
    submit_loop-settles zero attempt last events h =
        elim (submit_loop-round zero attempt last events h) [
          | inl (settled, e) ↦ settled
          | inr (error, a, r, e, step) ↦ absurd (ground (arith, h, e))
        ]
    submit_loop-settles (suc n) attempt last events h =
        elim (submit_loop-round (suc n) attempt last events h) [
          | inl (settled, e) ↦ settled
          | inr (error, a, r, e, step) ↦
              settles_after attempt error _ a r
                (rw step (submit_loop-settles n (suc attempt) (some error) _ (omega (arith, h))))
        ]

    ends_within :
        ((n : ℕ) (events : List Event)
          → (count_sends (once n events).1 ≤ suc (count_sends events))
            × (total_wait (once n events).1 ≡ total_wait events))
        → (n a : ℕ) (events : List Event) → 2 * total_wait events + 250 ≤ 250 * 3 ^ a
        → (count_sends (once (suc a) events).1 ≤ count_sends events + suc n)
          × (2 * total_wait (once (suc a) events).1 + 250 ≤ 250 * 3 ^ (a + n))
    ends_within keeps n a events w = (
      omega (arith, keeps (suc a) events),
      omega (
        arith,
        keeps (suc a) events,
        w,
        pow-le-pow_right {n = 3} (omega arith) {i = a} {j = a + n} (omega arith),
      ),
    )

    pub submit_loop-bounds :
        ((n : ℕ) (events : List Event)
          → (count_sends (once n events).1 ≤ suc (count_sends events))
            × (total_wait (once n events).1 ≡ total_wait events))
        → (n a : ℕ) (last : Option String) (events : List Event) → suc a + n ≡ max_attempts
        → 2 * total_wait events + 250 ≤ 250 * 3 ^ a
        → (count_sends (submit_loop matches once max_attempts (suc n) (suc a) last events).1
            ≤ count_sends events + suc n)
          × (2 * total_wait (submit_loop matches once max_attempts (suc n) (suc a) last events).1
                + 250
              ≤ 250 * 3 ^ (a + n))
    submit_loop-bounds keeps zero a last events h w =
        elim (submit_loop-round zero (suc a) last events h) [
          | inl (settled, e) ↦ rw e (ends_within keeps zero a events w)
          | inr (error, x, r, e, step) ↦ absurd (ground (arith, h, e))
        ]
    submit_loop-bounds keeps (suc n) a last events h w =
        elim (submit_loop-round (suc n) (suc a) last events h) [
          | inl (settled, e) ↦ rw e (ends_within keeps (suc n) a events w)
          | inr (error, x, r, e, step) ↦
              let waited = waits (delay_ms (suc a)) ∷ (once (suc a) events).1 in
              let later =
                submit_loop-bounds keeps n (suc a) (some error) waited (omega (arith, h))
                  (omega (arith, keeps (suc a) events, w, pow-suc 3 a, delay_after a)) in
              rw step (
                omega (arith, later.0, keeps (suc a) events),
                subst
                    (λ k.
                      2
                          * total_wait
                              (submit_loop matches once max_attempts (suc n) (suc (suc a))
                                (some error) waited).1
                        + 250
                      ≤ 250 * 3 ^ k)
                    {x = suc a + n} (omega arith) later.1,
              )
        ]
