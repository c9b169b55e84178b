-- ===== src/RateLimit/Window.antt =====
-- How many requests the limiter of octora-api/src/modules/mixer/rate-limit.ts lets through in a
-- window, and that its garbage collection cannot be observed.
use octora.Base.{
  ℕ, suc, ◌+◌, ◌-◌, min, ◌≤◌, ◌<◌, String, ◌≡◌, refl, ap, sym, ◌∙◌, subst, true, false, Option,
  none, some, List, [], ◌∷◌, arith, if◌then◌else◌, ◌===◌, eq_iff, inl, inr, ◌⊎◌, Bool-cases,
  eq_refl, le→leb, All,
}
use octora.Base.Table.{lookup, insert, lookup-insert, lookup-insert_self}
use octora.RateLimit.{
  RateLimiterOpts, Bucket, Verdict, passes, refuses, Buckets, prune, bucket_key, pre_handler,
  count_request, opened, retry_after,
}

pub data Event : Type 0 where
  request : (now : ℕ) (ip : Option String) → Event
  collect : (now : ℕ) → Event

abbrev pub time_of : Event → ℕ
time_of (request now ip) = now
time_of (collect now) = now

abbrev one_pass : Verdict → ℕ
one_pass passes = 1
one_pass (refuses ms sec) = 0

-- The requests under one key that pass in a run of requests from anywhere and collections.
abbrev pub count_passes : RateLimiterOpts → String → List Event → Buckets → ℕ
count_passes opts key [] buckets = 0
count_passes opts key (request now ip ∷ events) buckets =
    let r = pre_handler opts now ip buckets in
    let later = count_passes opts key events r.1 in
    if bucket_key ip === key then one_pass r.0 + later else later
count_passes opts key (collect now ∷ events) buckets =
    count_passes opts key events (prune now buckets)

prune_keeps :
    (now : ℕ) (key : String) (b : Bucket) (buckets : Buckets)
    → lookup key buckets ≡ some b
    → now < b.reset_at
    → lookup key (prune now buckets) ≡ some b
unfolding prune lookup
prune_keeps now key b [] h l = h
prune_keeps now key b ((j, c) ∷ buckets) h l = elim (Bool-cases (j === key)) [
  | inl e ↦ ground (arith, h, l, e)
  | inr e ↦ ground (arith, h, l, e, prune_keeps now key b buckets (ground (arith, e, h)) l)
]

count_other :
    (opts : RateLimiterOpts) (now : ℕ) (ip key : String) (found : Option Bucket) (buckets : Buckets)
    → (ip === key) ≡ false
    → lookup key (count_request opts now ip found buckets).1 ≡ lookup key buckets
count_other opts now ip key none buckets e = rw (lookup-insert, e) refl
count_other opts now ip key (some b) buckets e = ground (
  arith,
  e,
  lookup-insert ip key (opened opts now) buckets,
  lookup-insert ip key (record b { count = suc b.count }) buckets,
)

-- A request of another key leaves this key's bucket.
other_request :
    (opts : RateLimiterOpts) (now : ℕ) (ip : Option String) (key : String) (buckets : Buckets)
    → (bucket_key ip === key) ≡ false
    → lookup key (pre_handler opts now ip buckets).1 ≡ lookup key buckets
unfolding pre_handler
other_request opts now ip key buckets e =
    count_other opts now (bucket_key ip) key (lookup (bucket_key ip) buckets) buckets e

count_own :
    (opts : RateLimiterOpts) (now : ℕ) (ip : String) (b : Bucket) (buckets : Buckets)
    → now < b.reset_at
    → ((opts.max ≤ b.count)
        × (count_request opts now ip (some b) buckets ≡ (retry_after (b.reset_at - now), buckets)))
      ⊎ ((b.count < opts.max)
          × (count_request opts now ip (some b) buckets
              ≡ (passes, insert ip (record b { count = suc b.count }) buckets)))
count_own opts now ip b buckets l = ground arith

-- A request in the window is counted, or refused at the ceiling.
own_request :
    (opts : RateLimiterOpts) (now : ℕ) (ip : Option String) (b : Bucket) (buckets : Buckets)
    → lookup (bucket_key ip) buckets ≡ some b
    → now < b.reset_at
    → ((opts.max ≤ b.count)
        × (pre_handler opts now ip buckets ≡ (retry_after (b.reset_at - now), buckets)))
      ⊎ ((b.count < opts.max)
          × (pre_handler opts now ip buckets
              ≡ (passes, insert (bucket_key ip) (record b { count = suc b.count }) buckets)))
unfolding pre_handler insert
own_request opts now ip b buckets h l =
    rw (pre_handler, h) (count_own opts now (bucket_key ip) b buckets l)

count_own_passes :
    (opts : RateLimiterOpts) (key : String) (now : ℕ) (ip : Option String) (events : List Event)
    (buckets : Buckets)
    → (bucket_key ip === key) ≡ true
    → count_passes opts key (request now ip ∷ events) buckets
      ≡ one_pass (pre_handler opts now ip buckets).0
        + count_passes opts key events (pre_handler opts now ip buckets).1
count_own_passes opts key now ip events buckets e = rw e refl

-- The requests under one key in a run.
abbrev pub count_requests : String → List Event → ℕ
count_requests key [] = 0
count_requests key (request now ip ∷ events) =
    let later = count_requests key events in if bucket_key ip === key then suc later else later
count_requests key (collect now ∷ events) = count_requests key events

-- While a bucket is open, as many requests of its key pass as come, up to what the ceiling leaves,
-- whatever other requests and collections come between.
count_passes-open :
    (opts : RateLimiterOpts) (key : String) (events : List Event) (buckets : Buckets) (b : Bucket)
    → lookup key buckets ≡ some b
    → All (λ event. time_of event < b.reset_at) events
    → count_passes opts key events buckets ≡ min (count_requests key events) (opts.max - b.count)
count_passes-open opts key [] buckets b h t = omega arith
count_passes-open opts key (collect now ∷ events) buckets b h t =
    count_passes-open opts key events (prune now buckets) b (prune_keeps now key b buckets h t.0)
      t.1
count_passes-open opts key (request now ip ∷ events) buckets b h t =
    elim (Bool-cases (bucket_key ip === key)) [
      | inr e ↦ rw e (
          count_passes-open opts key events (pre_handler opts now ip buckets).1 b
            (other_request opts now ip key buckets e ∙ h) t.1)
      | inl e ↦
          let same_key = (eq_iff (bucket_key ip) key).0 e in
          elim (own_request opts now ip b buckets
            (subst (λ k. lookup k buckets ≡ some b) (sym same_key) h) t.0) [
              | inl (full, r) ↦
                  let later = count_passes-open opts key events buckets b h t.1 in
                  rw (count_own_passes opts key now ip events buckets e, r, e)
                    (omega (arith, later, full))
              | inr (free, r) ↦
                  let counted = record b { count = suc b.count } in
                  let later =
                    count_passes-open opts key events (insert (bucket_key ip) counted buckets)
                      counted (ground (arith, lookup-insert (bucket_key ip) key counted buckets, e))
                      t.1 in
                  rw (count_own_passes opts key now ip events buckets e, r, e)
                    (omega (arith, later, free))
            ]
    ]

opens_request :
    (opts : RateLimiterOpts) (now : ℕ) (ip : Option String) (buckets : Buckets)
    → ((lookup (bucket_key ip) buckets ≡ none)
        ⊎ ((b : Bucket) × (lookup (bucket_key ip) buckets ≡ some b) × (b.reset_at ≤ now)))
    → pre_handler opts now ip buckets ≡ (passes, insert (bucket_key ip) (opened opts now) buckets)
unfolding pre_handler
opens_request opts now ip buckets (inl h) = rw (pre_handler, h) refl
opens_request opts now ip buckets (inr (b, h, l)) =
    rw (pre_handler, h, le→leb b.reset_at now l) refl

-- For a key without an open bucket and a ceiling of at least one, the request passes and opens a bucket
-- for the window, and of the requests of this key that come until it resets, this one among them, as many
-- pass as come, up to the ceiling, whatever other requests and collections come between.
pub window_bound :
    (opts : RateLimiterOpts) (now : ℕ) (ip : Option String) (events : List Event)
    (buckets : Buckets)
    → 1 ≤ opts.max
    → ((lookup (bucket_key ip) buckets ≡ none)
        ⊎ ((b : Bucket) × (lookup (bucket_key ip) buckets ≡ some b) × (b.reset_at ≤ now)))
    → All (λ event. time_of event < now + opts.window_ms) events
    → ((pre_handler opts now ip buckets).0 ≡ passes)
      × ((b : Bucket) × (lookup (bucket_key ip) (pre_handler opts now ip buckets).1 ≡ some b)
          × (b.reset_at ≡ now + opts.window_ms))
      × (count_passes opts (bucket_key ip) (request now ip ∷ events) buckets
          ≡ min opts.max (count_requests (bucket_key ip) (request now ip ∷ events)))
window_bound opts now ip events buckets m closed t =
    let key = bucket_key ip in
    let fresh = opened opts now in
    let kept = lookup-insert_self key fresh buckets in
    let later = count_passes-open opts key events (insert key fresh buckets) fresh kept t in
    let opens = opens_request opts now ip buckets closed in
    (
      ap (λ r. r.0) opens,
      (fresh, rw opens kept, refl),
      rw (count_own_passes opts key now ip events buckets (eq_refl key), opens, eq_refl key)
          (omega (arith, later, m)),
    )
