-- ===== src/RateLimit.antt =====
-- The rate limiter, octora-api/src/modules/mixer/rate-limit.ts.
pub mod Window
mod Tests
use octora.Base.{
  ℕ, zero, suc, ◌+◌, ◌-◌, ◌*◌, ◌/◌, max, ◌≤◌, ◌<◌, String, ◌≡◌, refl, ap, Bool, true, false, Option,
  none, some, List, [], ◌∷◌, arith, leb, ltb, if◌then◌else◌, ◌===◌, eq_iff, inl, inr, ◌⊎◌,
  Bool-cases,
}
use octora.Base.Table.{lookup, insert}
use octora.Recovery.{or_else}

pub record RateLimiterOpts : Type 0 where
  pub window_ms : ℕ
  pub max : ℕ
  pub gc_interval_ms : Option ℕ

pub record Bucket : Type 0 where
  pub count : ℕ
  pub reset_at : ℕ

pub data Verdict : Type 0 where
  passes : Verdict
  refuses : (retry_after_ms retry_after_sec : ℕ) → Verdict

abbrev pub Buckets : Type 0
Buckets = List (String × Bucket)

unfoldable pub gc_every : RateLimiterOpts → ℕ
gc_every opts = or_else opts.gc_interval_ms (max (opts.window_ms * 4) 60000)

-- The timer's callback: the buckets that have reset go.
unfoldable pub prune : ℕ → Buckets → Buckets
prune now [] = []
prune now ((ip, b) ∷ buckets) =
    let rest = prune now buckets in if leb b.reset_at now then rest else (ip, b) ∷ rest

abbrev pub bucket_key : Option String → String
bucket_key none = "unknown"
bucket_key (some ip) = if ip === "" then "unknown" else ip

-- `Math.max(1, Math.ceil(ms / 1000))`
abbrev pub retry_after : ℕ → Verdict
retry_after ms = refuses ms (max 1 ((ms + 999) / 1000))

abbrev pub opened : RateLimiterOpts → ℕ → Bucket
opened opts now = record { count = 1; reset_at = now + opts.window_ms }

abbrev pub count_request :
    RateLimiterOpts → ℕ → String → Option Bucket → Buckets → Verdict × Buckets
count_request opts now ip none buckets = (passes, insert ip (opened opts now) buckets)
count_request opts now ip (some bucket) buckets =
    if leb bucket.reset_at now
    then (passes, insert ip (opened opts now) buckets)
    else (if leb opts.max bucket.count
        then (retry_after (bucket.reset_at - now), buckets)
        else (passes, insert ip (record bucket { count = suc bucket.count }) buckets))

-- The hook that runs before a handler.
unfoldable pub pre_handler : RateLimiterOpts → ℕ → Option String → Buckets → Verdict × Buckets
pre_handler opts now ip buckets =
    count_request opts now (bucket_key ip) (lookup (bucket_key ip) buckets) buckets
