-- ===== src/Config.antt =====
-- The settings of the server, octora-api/src/common/config.ts.
pub mod Denominations
mod Tests
use octora.Base.{
  ℕ, String, Bool, true, false, not, ◌||◌, ◌&&◌, Option, none, some, List, [], ◌∷◌, ◌===◌, ◌&◌,
  if◌then◌else◌, keep, map,
}
use octora.Base.Integers.{ℤ, pos, less, same}
use octora.Base.Effect.{Result, ok, err}
use octora.Recovery.{or_else}
use octora.Position.Caps.{BetaCapsConfig}

pub data ConfigError : Type 0 where
  missing_variable relayer_variable_unset : String → ConfigError
  wildcard_in_production empty_denominations : ConfigError
  non_integer_entry non_positive_entry : String → ConfigError
  syntax_error : String → ConfigError

-- What JavaScript computes on texts: `BigInt` with `none` for its throw, `Number`, `trim` and
-- `split(",")`.
pub record Texts (F : Type 0) : Type 0 where
  pub trim : String → String
  pub split : String → List String
  pub big_int : String → Option ℤ
  pub number : String → F

-- `process.env`
abbrev pub Env : Type 0
Env = String → Option String

pub data FrontendUrl : Type 0 where
  one_origin : String → FrontendUrl
  origins : List String → FrontendUrl

pub record MixerRelayerConfig (F : Type 0) : Type 0 where
  pub rpc_url : String
  pub mixer_program_id : String
  pub pool_denomination : ℤ
  pub denominations : Option (List ℤ)
  pub hot_wallet_secret : String
  pub min_fee_lamports : ℤ
  pub privacy_delay_ms : F

pub record AppConfig (F : Type 0) : Type 0 where
  pub port : F
  pub database_url : String
  pub frontend_url : FrontendUrl
  pub use_onchain_executor : Bool
  pub executor_rpc_url : String
  pub executor_program_id : String
  pub mixer_program_id : String
  pub executor_relayer_keypair_path : String
  pub mixer_denomination : ℤ
  pub mixer_denominations : List ℤ
  pub mixer_relayer : Option (MixerRelayerConfig F)
  pub max_position_sol : F
  pub max_global_tvl_sol : F
  pub max_positions_per_wallet : F
  pub admin_api_token : Option String
  pub sentry_dsn : Option String

infixl 5 ◌then_with◌
abbrev pub ◌then_with◌ :
    {A B : Type 0} → Result ConfigError A → (A → Result ConfigError B) → Result ConfigError B
ok a then_with f = f a
err e then_with f = err e

abbrev pub is_text : Option String → String → Bool
is_text none expected = false
is_text (some text) expected = text === expected

-- `BigInt(text)` where nothing catches its throw.
abbrev pub parsed : String → Option ℤ → Result ConfigError ℤ
parsed text none = err (syntax_error text)
parsed text (some v) = ok v

-- A value that is not empty, or the error.
abbrev pub filled : Option String → ConfigError → Result ConfigError String
filled none error = err error
filled (some text) error = if text === "" then err error else ok text

-- `BigInt(s)`, tested, for one entry of `MIXER_DENOMINATIONS`.
abbrev pub entry_value : String → Option ℤ → Result ConfigError ℤ
entry_value text none = err (non_integer_entry text)
entry_value text (some v) = if less (pos 0) v then ok v else err (non_positive_entry text)

abbrev pub is_seen : ℤ → List ℤ → Bool
is_seen v [] = false
is_seen v (x ∷ xs) = same x v || is_seen v xs

-- The filter that drops what has been seen; texts of bigints are equal just where the numbers are.
unfoldable pub unique_onto : List ℤ → List ℤ → List ℤ
unique_onto seen [] = []
unique_onto seen (x ∷ xs) =
    let again = unique_onto seen xs in
    let first = x ∷ unique_onto (x ∷ seen) xs in if is_seen x seen then again else first

unfoldable pub insert_ascending : ℤ → List ℤ → List ℤ
insert_ascending x [] = x ∷ []
insert_ascending x (y ∷ ys) =
    let later = insert_ascending x ys in if less y x then y ∷ later else x ∷ y ∷ ys

-- `unique.sort((a, b) => (a < b ? -1 : a > b ? 1 : 0))`
unfoldable pub sort_ascending : List ℤ → List ℤ
sort_ascending [] = []
sort_ascending (x ∷ xs) = insert_ascending x (sort_ascending xs)

abbrev pub settled : List ℤ → Result ConfigError (List ℤ)
settled [] = err empty_denominations
settled (x ∷ xs) = ok (sort_ascending (unique_onto [] (x ∷ xs)))

module _ {F : Type 0} (texts : Texts F) where
  open texts use {trim, split, big_int, number}

  unfoldable pub entry_values : List String → Result ConfigError (List ℤ)
  entry_values [] = ok []
  entry_values (s ∷ rest) =
      entry_value s (big_int s) then_with λ v. entry_values rest then_with λ vs. ok (v ∷ vs)

  abbrev pub trimmed : Option String → String
  trimmed none = ""
  trimmed (some text) = trim text

  -- `.split(",").map(trim).filter(nonempty)`
  abbrev pub parts_of : String → List String
  parts_of raw = keep (λ s. not (s === "")) (map trim (split raw))

  unfoldable pub load_mixer_denominations : Env → Result ConfigError (List ℤ)
  load_mixer_denominations env =
      let raw = trimmed (env "MIXER_DENOMINATIONS") in
      if raw === ""
      then ok (pos 100000000 ∷ pos 1000000000 ∷ pos 10000000000 ∷ [])
      else (entry_values (parts_of raw) then_with settled)

  -- A single origin stands alone.
  abbrev pub as_origins : List String → FrontendUrl
  as_origins (origin ∷ []) = one_origin origin
  as_origins list = origins list

  unfoldable pub load_frontend_url : Env → Result ConfigError FrontendUrl
  load_frontend_url env =
      let raw = trimmed (env "FRONTEND_URL") in
      if is_text (env "NODE_ENV") "production" && ((raw === "") || (raw === "*"))
      then err wildcard_in_production
      else (if (raw === "") || (raw === "*")
          then ok (one_origin "*")
          else ok (as_origins (parts_of raw)))

  abbrev pub require_env : Env → String → Result ConfigError String
  require_env env name = elim (env name) [
    | none ↦ err (missing_variable name)
    | some value ↦
        if (value === "") || (trim value === "") then err (missing_variable name) else ok value
  ]

  abbrev pub required : Env → String → Result ConfigError String
  required env key = filled (env key) (relayer_variable_unset key)

  -- An entry of `OCTORA_MIXER_RELAYER_DENOMINATIONS`: here a throw of `BigInt` is not caught.
  unfoldable pub relayer_values : List String → Result ConfigError (List ℤ)
  relayer_values [] = ok []
  relayer_values (s ∷ rest) = parsed s (big_int s) then_with λ v.
      (if less (pos 0) v then ok v else err (non_positive_entry s)) then_with λ w.
      relayer_values rest then_with λ vs. ok (w ∷ vs)

  abbrev pub if_any : List ℤ → Option (List ℤ)
  if_any [] = none
  if_any (v ∷ vs) = some (v ∷ vs)

  unfoldable pub load_mixer_relayer_config :
      Env → Result ConfigError (Option (MixerRelayerConfig F))
  load_mixer_relayer_config env =
      if not (is_text (env "OCTORA_MIXER_RELAYER_ENABLED") "true")
      then ok none
      else (relayer_values (
            let raw = trimmed (env "OCTORA_MIXER_RELAYER_DENOMINATIONS") in
            if raw === "" then [] else parts_of raw)
          then_with λ list. required env "OCTORA_MIXER_POOL_DENOMINATION" then_with λ pool.
              parsed pool (big_int pool) then_with λ pool_denomination.
              required env "OCTORA_MIXER_RELAYER_RPC_URL" then_with λ rpc_url.
              required env "OCTORA_MIXER_PROGRAM_ID" then_with λ program_id.
              required env "OCTORA_MIXER_RELAYER_HOT_WALLET" then_with λ secret.
              required env "OCTORA_MIXER_RELAYER_MIN_FEE" then_with λ fee.
              parsed fee (big_int fee) then_with λ min_fee. ok (
                some (record {
                  rpc_url = rpc_url;
                  mixer_program_id = program_id;
                  pool_denomination = pool_denomination;
                  denominations = if_any list;
                  hot_wallet_secret = secret;
                  min_fee_lamports = min_fee;
                  privacy_delay_ms = number (or_else (env "OCTORA_MIXER_PRIVACY_DELAY_MS") "13000");
                })))

  -- `text?.trim() || null`
  abbrev pub trimmed_or_null : Option String → Option String
  trimmed_or_null text = if trimmed text === "" then none else some (trimmed text)

  unfoldable pub load_config : Env → Result ConfigError (AppConfig F)
  load_config env = load_frontend_url env then_with λ frontend_url.
      require_env env "OCTORA_EXECUTOR_PROGRAM_ID" then_with λ executor_program_id.
      require_env env "OCTORA_MIXER_PROGRAM_ID" then_with λ mixer_program_id.
      parsed (or_else (env "MIXER_DENOMINATION") "1000000000")
        (big_int (or_else (env "MIXER_DENOMINATION") "1000000000"))
      then_with λ mixer_denomination. load_mixer_denominations env then_with λ mixer_denominations.
          load_mixer_relayer_config env then_with λ mixer_relayer. ok (record {
            port = number (or_else (env "PORT") "8787");
            database_url = or_else (env "DATABASE_URL") "";
            frontend_url = frontend_url;
            use_onchain_executor = is_text (env "OCTORA_USE_ONCHAIN_EXECUTOR") "true";
            executor_rpc_url =
                or_else (env "OCTORA_EXECUTOR_RPC_URL") "https://api.devnet.solana.com";
            executor_program_id = executor_program_id;
            mixer_program_id = mixer_program_id;
            executor_relayer_keypair_path =
                or_else (env "OCTORA_EXECUTOR_RELAYER_KEYPAIR")
                  (or_else (env "HOME") "" & "/.config/solana/id.json");
            mixer_denomination = mixer_denomination;
            mixer_denominations = mixer_denominations;
            mixer_relayer = mixer_relayer;
            max_position_sol = number (or_else (env "BETA_MAX_POSITION_SOL") "2.5");
            max_global_tvl_sol = number (or_else (env "BETA_MAX_GLOBAL_TVL_SOL") "125");
            max_positions_per_wallet = number (or_else (env "BETA_MAX_POSITIONS_PER_WALLET") "5");
            admin_api_token = trimmed_or_null (env "OCTORA_ADMIN_API_TOKEN");
            sentry_dsn = trimmed_or_null (env "SENTRY_DSN");
          })
