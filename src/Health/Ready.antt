-- ===== src/Health/Ready.antt =====
-- When octora-api/src/common/health.ts reports that the process is well.
use octora.Base.{
  ℕ, ◌<◌, String, ◌≡◌, ◌↔◌, ◌&&◌, if◌then◌else◌, refl, ◌∙◌, Bool, true, Option, none, some, List,
  arith, Bool-cases, inl, inr, ap, ◌===◌, ltb, eq_iff,
}
use octora.Base.Effect.{Result, ok, err}
use octora.SingleSided.{write_u64}
use octora.Health.{
  HealthDetail, JsonValue, json_array, json_other, status_ok, degraded, pool_not_found, Outside,
  ProbeConfig, is_paused_offset, byte_at, ◌then_probe◌, answered, or_detail, check_of,
  keypair_verdict, file_verdict, account_verdict, seed_verdict, program_verdict, out_of_range,
  pool_verdict, check_database, check_rpc, check_relayer_keypair, check_mixer, run_health_check,
}

-- The pool's account is there, and its byte `is_paused` is not 1.
abbrev pub IsOpen : Outside → ProbeConfig → Type 0
IsOpen outside config =
    (program : String) × (outside.public_key config.mixer_program_id ≡ ok program)
    × (bytes : List ℕ) × (write_u64 config.mixer_denomination ≡ some bytes)
    × (pool : String) × (outside.pool_pda program bytes ≡ ok pool)
    × (content : List ℕ) × (outside.account config.executor_rpc_url pool ≡ ok (some content))
    × ¬ byte_at is_paused_offset content ≡ some 1

-- The keypair's file is there and holds an array of 64 entries.
abbrev pub IsKeypair : Outside → String → Type 0
IsKeypair outside path = (¬ path ≡ "") × (outside.file path ≡ some (ok (json_array 64)))

abbrev pub IsReady : Outside → ProbeConfig → Type 0
IsReady outside config =
    (outside.database ≡ ok tt)
    × ((slot : ℕ) × (outside.slot config.executor_rpc_url ≡ ok slot) × (0 < slot))
    × IsKeypair outside config.executor_relayer_keypair_path
    × IsOpen outside config

asked_iff :
    {A B : Type 0} (r : Result String A) (f : A → Result HealthDetail B) (b : B)
    → ((answered r then_probe f) ≡ ok b) ↔ ((a : A) × (r ≡ ok a) × (f a ≡ ok b))
asked_iff (ok x) f b = ((λ h. (x, refl, h)), (λ (a, e, h). ap (λ r. answered r then_probe f) e ∙ h))
asked_iff (err x) f b = ((λ h. ground (arith, h)), (λ (a, e, h). ground (arith, e)))

found_iff :
    {A B : Type 0} (o : Option A) (d : HealthDetail) (f : A → Result HealthDetail B) (b : B)
    → ((or_detail o d then_probe f) ≡ ok b) ↔ ((a : A) × (o ≡ some a) × (f a ≡ ok b))
found_iff none d f b = ((λ h. ground (arith, h)), (λ (a, e, h). ground (arith, e)))
found_iff (some x) d f b =
    ((λ h. (x, refl, h)), (λ (a, e, h). ap (λ o. or_detail o d then_probe f) e ∙ h))

check_of_iff :
    (latency : Option ℕ) (r : Result HealthDetail Bool)
    → ((check_of latency r).is_ok ≡ true) ↔ (r ≡ ok true)
check_of_iff latency (ok b) = ((λ h. ap ok h), (λ h. ground (arith, h)))
check_of_iff latency (err d) = ((λ h. ground (arith, h)), (λ h. ground (arith, h)))

keypair_verdict_iff : (json : JsonValue) → (keypair_verdict json ≡ ok true) ↔ (json ≡ json_array 64)
keypair_verdict_iff (json_array n) = ((λ h. ground (arith, h)), (λ h. ground (arith, h)))
keypair_verdict_iff (json_other kind) = ((λ h. ground (arith, h)), (λ h. ground (arith, h)))

pool_verdict_iff :
    (content : List ℕ)
    → (pool_verdict content ≡ ok true) ↔ (¬ byte_at is_paused_offset content ≡ some 1)
pool_verdict_iff content = ground arith

file_verdict_iff :
    (path : String) (file : Option (Result String JsonValue))
    → (file_verdict path file ≡ ok true) ↔ (file ≡ some (ok (json_array 64)))
file_verdict_iff path none = ((λ h. ground (arith, h)), (λ h. ground (arith, h)))
file_verdict_iff path (some (err message)) = ((λ h. ground (arith, h)), (λ h. ground (arith, h)))
file_verdict_iff path (some (ok json)) = (
  (λ h. ap (λ j. some (ok j)) ((keypair_verdict_iff json).0 h)),
  (λ h. (keypair_verdict_iff json).1 (ground (arith, h))),
)

account_case :
    (pool : String) (r : Result String (Option (List ℕ)))
    → ((answered r
          then_probe (λ found. or_detail found (pool_not_found pool))
          then_probe pool_verdict)
        ≡ ok true)
      ↔ ((content : List ℕ) × (r ≡ ok (some content)) × ¬ byte_at is_paused_offset content ≡ some 1)
account_case pool (err message) = ((λ h. ground (arith, h)), (λ (content, e, n). ground (arith, e)))
account_case pool (ok none) = ((λ h. ground (arith, h)), (λ (content, e, n). ground (arith, e)))
account_case pool (ok (some bytes)) = (
  (λ h. (bytes, refl, (pool_verdict_iff bytes).0 h)),
  (λ (content, e, n).
      ap
        (λ r.
          answered r
          then_probe (λ found. or_detail found (pool_not_found pool))
          then_probe pool_verdict)
        e
      ∙ (pool_verdict_iff content).1 n),
)

four_iff :
    (a b c d : Bool)
    → ((if a && b && c && d then status_ok else degraded) ≡ status_ok)
      ↔ ((a ≡ true) × (b ≡ true) × (c ≡ true) × (d ≡ true))
four_iff a b c d = ground arith

module _ (outside : Outside) where
  database_iff : ((check_database outside).is_ok ≡ true) ↔ (outside.database ≡ ok tt)
  unfolding check_database
  database_iff =
      let asked = asked_iff outside.database (λ row. ok true) true in
      let checked =
        check_of_iff (some outside.elapsed)
          (answered outside.database then_probe (λ row. ok true)) in
      ((λ h. (asked.0 (checked.0 h)).1), (λ h. checked.1 (asked.1 (tt, h, refl))))

  rpc_iff :
      (url : String)
      → ((check_rpc outside url).is_ok ≡ true)
        ↔ ((slot : ℕ) × (outside.slot url ≡ ok slot) × (0 < slot))
  unfolding check_rpc
  rpc_iff url =
      let verdict : ℕ → Result HealthDetail Bool = λ slot. ok (ltb 0 slot) in
      let asked = asked_iff (outside.slot url) verdict true in
      let checked =
        check_of_iff (some outside.elapsed) (answered (outside.slot url) then_probe verdict) in
      (
        (λ h. let (slot, e, f) = asked.0 (checked.0 h) in (slot, e, ground (arith, f))),
        (λ (slot, e, p). checked.1 (asked.1 (slot, e, ground (arith, p)))),
      )

  relayer_iff :
      (path : String) → ((check_relayer_keypair outside path).is_ok ≡ true) ↔ IsKeypair outside path
  unfolding check_relayer_keypair
  relayer_iff path =
      let checked = check_of_iff none (file_verdict path (outside.file path)) in
      let verdict = file_verdict_iff path (outside.file path) in
      elim (Bool-cases (path === "")) [
        | inl e ↦ rw e ((λ h. ground (arith, h)), (λ (p, f). absurd (p ((eq_iff path "").0 e))))
        | inr e ↦ rw e (
          (λ h. ((λ p. absurd (ground (arith, e, (eq_iff path "").1 p))), verdict.0 (checked.0 h))),
          (λ (p, f). checked.1 (verdict.1 f)),
        )
      ]

  module _ (config : ProbeConfig) where
    account_iff :
        (pool : String)
        → (account_verdict outside config pool ≡ ok true) ↔ (
            (content : List ℕ) × (outside.account config.executor_rpc_url pool ≡ ok (some content))
            × ¬ byte_at is_paused_offset content ≡ some 1)
    account_iff pool = account_case pool (outside.account config.executor_rpc_url pool)

    seed_iff :
        (program : String) (bytes : List ℕ)
        → (seed_verdict outside config program bytes ≡ ok true) ↔ (
            (pool : String) × (outside.pool_pda program bytes ≡ ok pool)
            × (account_verdict outside config pool ≡ ok true))
    seed_iff program bytes =
        asked_iff (outside.pool_pda program bytes) (account_verdict outside config) true

    program_iff :
        (program : String)
        → (program_verdict outside config program ≡ ok true) ↔ (
            (bytes : List ℕ) × (write_u64 config.mixer_denomination ≡ some bytes)
            × (seed_verdict outside config program bytes ≡ ok true))
    program_iff program =
        found_iff (write_u64 config.mixer_denomination) out_of_range
          (seed_verdict outside config program) true

    mixer_iff : ((check_mixer outside config).is_ok ≡ true) ↔ IsOpen outside config
    unfolding check_mixer
    mixer_iff =
        let key = answered (outside.public_key config.mixer_program_id) in
        let checked =
          check_of_iff (some outside.elapsed) (key then_probe program_verdict outside config) in
        let asked =
          asked_iff (outside.public_key config.mixer_program_id) (program_verdict outside config)
            true in
        (
          (λ h.
              let (program, e, h1) = asked.0 (checked.0 h) in
              let (bytes, w, h2) = (program_iff program).0 h1 in
              let (pool, p, h3) = (seed_iff program bytes).0 h2 in
              let (content, a, n) = (account_iff pool).0 h3 in
              (program, e, bytes, w, pool, p, content, a, n)),
          (λ (program, e, bytes, w, pool, p, content, a, n).
              let h3 = (account_iff pool).1 (content, a, n) in
              let h2 = (seed_iff program bytes).1 (pool, p, h3) in
              checked.1 (asked.1 (program, e, (program_iff program).1 (bytes, w, h2)))),
        )

    -- The process is reported as well just where the database answers, the node's slot is positive, the
    -- keypair's path is not empty and its file holds an array of 64 entries, and the pool of the denomination,
    -- which fits 8 bytes, has an account whose byte `is_paused` is not 1.
    pub run_health_check_iff :
        ((run_health_check outside config).status ≡ status_ok) ↔ IsReady outside config
    unfolding run_health_check
    run_health_check_iff =
        let all =
          four_iff (check_database outside).is_ok (check_rpc outside config.executor_rpc_url).is_ok
            (check_relayer_keypair outside config.executor_relayer_keypair_path).is_ok
            (check_mixer outside config).is_ok in
        let rpc = rpc_iff config.executor_rpc_url in
        let relayer = relayer_iff config.executor_relayer_keypair_path in
        (
          (λ h.
              let (d, s, k, m) = all.0 h in
              (database_iff.0 d, rpc.0 s, relayer.0 k, mixer_iff.0 m)),
          (λ (d, s, k, m). all.1 (database_iff.1 d, rpc.1 s, relayer.1 k, mixer_iff.1 m)),
        )
