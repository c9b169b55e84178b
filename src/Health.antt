-- ===== src/Health.antt =====
-- The probes of the process, octora-api/src/common/health.ts, with the layout of a pool's account in
-- octora-api/src/modules/mixer/layout.ts.
pub mod Ready
mod Tests
use octora.Base.{
  ℕ, zero, suc, ◌+◌, ◌*◌, String, Bool, true, false, not, ◌&&◌, Option, none, some, List, [], ◌∷◌,
  ltb, ◌==◌, if◌then◌else◌, ◌===◌,
}
use octora.Base.Integers.{ℤ}
use octora.Base.Effect.{Result, ok, err}
use octora.SingleSided.{write_u64}

-- What `JSON.parse` gave: an array of some length, or a value with its `typeof`.
pub data JsonValue : Type 0 where
  json_array : ℕ → JsonValue
  json_other : String → JsonValue

-- `thrown` has the message of an error, `out_of_range` is the error of `writeBigUInt64LE`.
pub data HealthDetail : Type 0 where
  thrown : String → HealthDetail
  keypair_not_found : String → HealthDetail
  not_64_bytes : JsonValue → HealthDetail
  pool_not_found : String → HealthDetail
  path_empty out_of_range pool_paused : HealthDetail

pub record HealthCheck : Type 0 where
  pub is_ok : Bool
  pub detail : Option HealthDetail
  pub latency_ms : Option ℕ

pub data HealthStatus : Type 0 where
  status_ok degraded : HealthStatus

pub record HealthReport : Type 0 where
  pub status : HealthStatus
  pub db : HealthCheck
  pub rpc : HealthCheck
  pub relayer : HealthCheck
  pub mixer : HealthCheck

-- The four fields of the configuration that the probes read.
pub record ProbeConfig : Type 0 where
  pub executor_rpc_url : String
  pub executor_relayer_keypair_path : String
  pub mixer_program_id : String
  pub mixer_denomination : ℤ

-- The answers of the database, the node, the disk and the Solana library, an error being its message;
-- the node's are errors where the timeout comes first. A file is read where it exists.
pub record Outside : Type 0 where
  pub database : Result String (Unit {0})
  pub slot : String → Result String ℕ
  pub file : String → Option (Result String JsonValue)
  pub public_key : String → Result String String
  pub pool_pda : String → List ℕ → Result String String
  pub account : String → String → Result String (Option (List ℕ))
  pub elapsed : ℕ

-- The discriminator, the authority, the denomination, the next leaf, the current root, 256 roots and 20
-- filled subtrees stand in front of `is_paused`.
abbrev pub is_paused_offset : ℕ
is_paused_offset = 8 + 32 + 8 + 4 + 1 + 32 * 256 + 32 * 20

abbrev pub byte_at : ℕ → List ℕ → Option ℕ
byte_at i [] = none
byte_at zero (b ∷ bytes) = some b
byte_at (suc i) (b ∷ bytes) = byte_at i bytes

abbrev pub is_one : Option ℕ → Bool
is_one none = false
is_one (some b) = b == 1

infixl 5 ◌then_probe◌
abbrev pub ◌then_probe◌ :
    {A B : Type 0} → Result HealthDetail A → (A → Result HealthDetail B) → Result HealthDetail B
ok a then_probe f = f a
err e then_probe f = err e

abbrev pub answered : {A : Type 0} → Result String A → Result HealthDetail A
answered (ok a) = ok a
answered (err message) = err (thrown message)

abbrev pub or_detail : {A : Type 0} → Option A → HealthDetail → Result HealthDetail A
or_detail none detail = err detail
or_detail (some a) detail = ok a

abbrev pub check_of : Option ℕ → Result HealthDetail Bool → HealthCheck
check_of latency (ok b) = record { is_ok = b; detail = none; latency_ms = latency }
check_of latency (err d) = record { is_ok = false; detail = some d; latency_ms = latency }

unfoldable pub check_database : Outside → HealthCheck
check_database outside =
    check_of (some outside.elapsed) (answered outside.database then_probe (λ row. ok true))

unfoldable pub check_rpc : Outside → String → HealthCheck
check_rpc outside rpc_url =
    check_of (some outside.elapsed)
      (answered (outside.slot rpc_url) then_probe (λ slot. ok (ltb 0 slot)))

abbrev pub keypair_verdict : JsonValue → Result HealthDetail Bool
keypair_verdict (json_array n) = if n == 64 then ok true else err (not_64_bytes (json_array n))
keypair_verdict (json_other kind) = err (not_64_bytes (json_other kind))

abbrev pub file_verdict : String → Option (Result String JsonValue) → Result HealthDetail Bool
file_verdict path file =
    or_detail file (keypair_not_found path) then_probe answered then_probe keypair_verdict

unfoldable pub check_relayer_keypair : Outside → String → HealthCheck
check_relayer_keypair outside path =
    check_of none (if path === "" then err path_empty else file_verdict path (outside.file path))

abbrev pub pool_verdict : List ℕ → Result HealthDetail Bool
pool_verdict content =
    if is_one (byte_at is_paused_offset content) then err pool_paused else ok true

abbrev pub account_verdict : Outside → ProbeConfig → String → Result HealthDetail Bool
account_verdict outside config pool =
    answered (outside.account config.executor_rpc_url pool)
    then_probe (λ found. or_detail found (pool_not_found pool))
    then_probe pool_verdict

abbrev pub seed_verdict : Outside → ProbeConfig → String → List ℕ → Result HealthDetail Bool
seed_verdict outside config program bytes =
    answered (outside.pool_pda program bytes) then_probe account_verdict outside config

abbrev pub program_verdict : Outside → ProbeConfig → String → Result HealthDetail Bool
program_verdict outside config program =
    or_detail (write_u64 config.mixer_denomination) out_of_range
    then_probe seed_verdict outside config program

unfoldable pub check_mixer : Outside → ProbeConfig → HealthCheck
check_mixer outside config = check_of (some outside.elapsed) (
    answered (outside.public_key config.mixer_program_id) then_probe program_verdict outside config)

unfoldable pub run_health_check : Outside → ProbeConfig → HealthReport
run_health_check outside config =
    let db = check_database outside in
    let rpc = check_rpc outside config.executor_rpc_url in
    let relayer = check_relayer_keypair outside config.executor_relayer_keypair_path in
    let mixer = check_mixer outside config in
    record {
      status =
          if db.is_ok && rpc.is_ok && relayer.is_ok && mixer.is_ok then status_ok else degraded;
      db = db;
      rpc = rpc;
      relayer = relayer;
      mixer = mixer;
    }
