-- ===== src/Auth.antt =====
-- Signed nonces and the guards of the routes, octora-api/src/common/auth.ts.
pub mod Nonces
pub mod Cases
pub mod Once
pub mod Bound
pub mod Fixtures
mod Tests
use octora.Base.{
  ℕ, ◌+◌, ◌-◌, ◌*◌, String, Bool, true, false, not, ◌&&◌, ◌||◌, Option, none, some, List, [], ◌∷◌,
  ◌++◌, length, ltb, if◌then◌else◌, ◌===◌, ◌==◌,
}
use octora.Base.Table.{lookup}
use octora.Base.Effect.{Result, ok, err, Effect, pure, throw, or_throw, guard, ◌>>=◌, ◌>>◌}

-- A row of the table `AuthNonce`, under its nonce.
pub record AuthNonce : Type 0 where
  pub wallet_address : String
  pub expires_at : ℕ
  pub used : Bool

abbrev pub AuthNonces : Type 0
AuthNonces = List (String × AuthNonce)

pub data Header : Type 0 where
  one : String → Header
  many : List String → Header

pub record AuthenticatedWallet : Type 0 where
  pub address : String
  pub pubkey : List ℕ

-- A request as the guards read it.
pub record Request : Type 0 where
  pub headers : List (String × Header)
  pub wallet : Option AuthenticatedWallet

-- What Node and the Solana library compute. A public key is its bytes; `none` is a throw.
pub record Keys : Type 0 where
  pub trim : String → String
  pub decode_key : String → Option (List ℕ)
  pub encode_key : List ℕ → String
  pub from_base64 : String → Option (List ℕ)
  pub from_utf8 : String → List ℕ
  pub verify : (message der signature : List ℕ) → Option Bool
  pub without_bearer : String → Option String

pub data AuthFailure : Type 0 where
  missing_headers invalid_wallet invalid_base64 : AuthFailure
  wrong_length : ℕ → AuthFailure
  not_claimed failed_verification : AuthFailure
  out_of_order not_approved body_mismatch admin_disabled bad_admin_token : AuthFailure
  junk_wallet duplicate_nonce : AuthFailure

-- `reply.code(...)`; what the database throws is the server's own 500.
abbrev pub status_code : AuthFailure → ℕ
status_code missing_headers = 401
status_code invalid_wallet = 401
status_code invalid_base64 = 401
status_code (wrong_length n) = 401
status_code not_claimed = 401
status_code failed_verification = 401
status_code out_of_order = 500
status_code not_approved = 403
status_code body_mismatch = 403
status_code admin_disabled = 503
status_code bad_admin_token = 401
status_code junk_wallet = 400
status_code duplicate_nonce = 500

abbrev pub nonce_ttl_ms : ℕ
nonce_ttl_ms = 300000

-- What tells that a public key is an Ed25519 key, in DER.
abbrev pub ed25519_spki_prefix : List ℕ
ed25519_spki_prefix = 48 ∷ 42 ∷ 48 ∷ 5 ∷ 6 ∷ 3 ∷ 43 ∷ 101 ∷ 112 ∷ 3 ∷ 33 ∷ 0 ∷ []

-- `buffer.equals`
abbrev pub same_bytes : List ℕ → List ℕ → Bool
same_bytes [] [] = true
same_bytes (x ∷ xs) (y ∷ ys) = (x == y) && same_bytes xs ys
same_bytes _ _ = false

-- `!text` is true of the empty text too.
unfoldable pub given : Option String → Option String
given none = none
given (some text) = if text === "" then none else some text

-- `prisma.betaAccess.findUnique`: the approved wallets are texts.
abbrev pub is_listed : String → List String → Bool
is_listed wallet [] = false
is_listed wallet (w ∷ ws) = (w === wallet) || is_listed wallet ws

unfoldable pub require_beta_access :
    Option AuthenticatedWallet → List String → Result AuthFailure (Unit {0})
require_beta_access none approved = err out_of_order
require_beta_access (some wallet) approved =
    if is_listed wallet.address approved then ok tt else err not_approved

unfoldable pub assert_body_wallet_matches_auth :
    Option AuthenticatedWallet → Option String → Result AuthFailure (Unit {0})
assert_body_wallet_matches_auth none body = err out_of_order
assert_body_wallet_matches_auth (some wallet) none = err body_mismatch
assert_body_wallet_matches_auth (some wallet) (some body) =
    if (body === "") || not (body === wallet.address) then err body_mismatch else ok tt

abbrev pub presented_text : Option String → String
presented_text none = ""
presented_text (some text) = text

module _ (keys : Keys) where
  open keys use {trim, decode_key, encode_key, from_base64, from_utf8, verify, without_bearer}

  abbrev pub header_text : Option Header → Option String
  header_text none = none
  header_text (some (one v)) = some (trim v)
  header_text (some (many [])) = none
  header_text (some (many (v ∷ vs))) = some (trim v)

  unfoldable pub pick_header : Request → String → Option String
  pick_header req key = header_text (lookup key req.headers)

  abbrev pub verified : Option Bool → Bool
  verified none = false
  verified (some answer) = answer

  unfoldable pub verify_ed25519_detached : (message signature raw_pubkey : List ℕ) → Bool
  verify_ed25519_detached message signature raw_pubkey =
      if not (length raw_pubkey == 32)
      then false
      else (if not (length signature == 64)
          then false
          else verified (verify message (ed25519_spki_prefix ++ raw_pubkey) signature))

  -- `presented.startsWith("Bearer ") ? presented.slice("Bearer ".length) : presented`
  abbrev pub stripped : String → String
  stripped presented = elim (without_bearer presented) [ some token ↦ token | none ↦ presented ]

  abbrev pub check_admin_token : String → String → Result AuthFailure (Unit {0})
  check_admin_token presented token =
      let a = from_utf8 (stripped presented) in
      let b = from_utf8 token in
      if not (length a == length b) || not (same_bytes a b) then err bad_admin_token else ok tt

  unfoldable pub require_admin_token : Option String → Request → Result AuthFailure (Unit {0})
  require_admin_token admin_token req = elim (given admin_token) [
    | none ↦ err admin_disabled
    | some token ↦ check_admin_token (presented_text (pick_header req "authorization")) token
  ]
