-- ===== src/RateLimit/Tests.antt =====
-- Two requests a second from one address, and a third that is refused.
use octora.Base.{min, ◌+◌, ◌≡◌, refl, none, some, List, [], ◌∷◌, arith, inl}
use octora.Base.Table.{lookup}
use octora.RateLimit.{passes, RateLimiterOpts, Bucket, Buckets, refuses, pre_handler}
use octora.RateLimit.Window.{Event, request, collect, count_passes, count_requests, window_bound}

abbrev test_opts : RateLimiterOpts
test_opts = record { window_ms = 1000; max = 2; gc_interval_ms = none }

abbrev test_bucket : Bucket
test_bucket = record { count = 1; reset_at = 1500 }

abbrev test_buckets : Buckets
test_buckets = ("10.0.0.1", test_bucket) ∷ []

abbrev test_events : List Event
test_events =
    request 600 (some "10.0.0.2")
    ∷ collect 650
    ∷ request 700 (some "10.0.0.1")
    ∷ request 800 (some "10.0.0.1")
    ∷ []

third_request :
    (pre_handler test_opts 700
      (some "10.0.0.1")
      (("10.0.0.1", record { count = 2; reset_at = 1500 }) ∷ [])).0
    ≡ refuses 800 1
unfolding pre_handler lookup
third_request = refl

found : lookup "10.0.0.1" test_buckets ≡ some test_bucket
unfolding lookup
found = refl

missing : lookup {V = Bucket} "10.0.0.1" [] ≡ none
unfolding lookup
missing = refl

window_bound_example :
    ((pre_handler test_opts 500 (some "10.0.0.1") []).0 ≡ passes)
    × ((b : Bucket) × (lookup "10.0.0.1" (pre_handler test_opts 500 (some "10.0.0.1") []).1
          ≡ some b)
        × (b.reset_at ≡ 500 + test_opts.window_ms))
    × (count_passes test_opts "10.0.0.1" (request 500 (some "10.0.0.1") ∷ test_events) []
        ≡ min 2 (count_requests "10.0.0.1" (request 500 (some "10.0.0.1") ∷ test_events)))
window_bound_example =
    window_bound test_opts 500 (some "10.0.0.1") test_events [] (omega arith) (inl missing)
      (omega arith, (omega arith, (omega arith, (omega arith, tt))))
