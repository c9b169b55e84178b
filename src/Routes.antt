-- ===== src/Routes.antt =====
-- The routes of positions, octora-api/src/modules/positions/position.routes.ts: the rate limit, the
-- signature of the wallet, the beta list and the handler, in the order in which the server runs them.
pub mod Controller
pub mod Owned
mod Tests
use octora.Base.{ℕ, String, Option, none, some, List}
use octora.Base.Effect.{Result, ok, err}
use octora.Store.{World}
use octora.Platform.{Platform, PrivacyAdapter, MeteoraExecutor}
use octora.Position.Caps.{BetaCapsConfig}
use octora.RateLimit.{RateLimiterOpts, Verdict, passes, refuses, Buckets, pre_handler}
use octora.Auth.{AuthNonces, AuthFailure, AuthenticatedWallet, Keys, Request, require_beta_access}
use octora.Auth.Nonces.{require_wallet_signature}
use Controller.{
  CreateIntentBody, HandlerReply, create_intent, execute_intent, claim_handler,
  withdraw_close_handler,
}

-- What the routes share: the buckets of the two limiters, the two tables of `auth.ts`, and the
-- store of the position service.
pub record Server : Type 0 where
  pub intent_buckets : Buckets
  pub mutate_buckets : Buckets
  pub nonces : AuthNonces
  pub approved : List String
  pub world : World

pub data RouteReply : Type 0 where
  limited : (retry_after_ms retry_after_sec : ℕ) → RouteReply
  unauthorised : AuthFailure → RouteReply
  handled : HandlerReply → RouteReply

abbrev pub intent_limit : RateLimiterOpts
intent_limit = record { window_ms = 60000; max = 10; gc_interval_ms = none }

abbrev pub mutate_limit : RateLimiterOpts
mutate_limit = record { window_ms = 60000; max = 5; gc_interval_ms = none }

abbrev pub Handler : Type 0
Handler = Option AuthenticatedWallet → World → HandlerReply × World

-- The three routes that end in a service call of the owner.
pub data OwnerRoute : Type 0 where
  executes : (signed_message : String) → OwnerRoute
  claims withdraws : OwnerRoute

abbrev pub run_handler : Handler → Option AuthenticatedWallet → Server → RouteReply × Server
run_handler handler wallet server =
    let answer = handler wallet server.world in
    (handled answer.0, record server { world = answer.1 })

abbrev pub after_beta :
    Handler → AuthenticatedWallet → Result AuthFailure (Unit {0}) → Server → RouteReply × Server
after_beta handler wallet (err failure) server = (unauthorised failure, server)
after_beta handler wallet (ok _) server = run_handler handler (some wallet) server

abbrev pub after_signature :
    Handler → Result AuthFailure AuthenticatedWallet × AuthNonces → Server → RouteReply × Server
after_signature handler (err failure, nonces) server =
    (unauthorised failure, record server { nonces = nonces })
after_signature handler (ok wallet, nonces) server =
    after_beta handler wallet (require_beta_access (some wallet) server.approved)
      (record server { nonces = nonces })

module _ {F : Type 0} (platform : Platform F) (adapter : PrivacyAdapter)
    (executor : MeteoraExecutor) where
  abbrev pub owner_handler : OwnerRoute → String → Handler
  owner_handler (executes message) id wallet =
      execute_intent platform adapter executor wallet id message
  owner_handler claims id wallet = claim_handler platform adapter executor wallet id
  owner_handler withdraws id wallet = withdraw_close_handler platform adapter executor wallet id

module _ (keys : Keys) where
  -- The two preHandlers, then the handler.
  unfoldable pub pre_handlers : Handler → ℕ → Request → Server → RouteReply × Server
  pre_handlers handler now req server =
      after_signature handler (require_wallet_signature keys now req server.nonces) server

  abbrev pub after_limit : Handler → ℕ → Request → Verdict → Server → RouteReply × Server
  after_limit handler now req (refuses ms sec) server = (limited ms sec, server)
  after_limit handler now req passes server = pre_handlers handler now req server

  module _ {F : Type 0} (platform : Platform F) where
    unfoldable pub intent_route :
        BetaCapsConfig F
        → ℕ
        → Option String
        → Request
        → CreateIntentBody
        → Server
        → RouteReply × Server
    intent_route caps now ip req body server =
        let (verdict, buckets) = pre_handler intent_limit now ip server.intent_buckets in
        after_limit (λ wallet. create_intent platform caps wallet body) now req verdict
          (record server { intent_buckets = buckets })

    module _ (adapter : PrivacyAdapter) (executor : MeteoraExecutor) where
      unfoldable pub owner_route :
          OwnerRoute → String → ℕ → Option String → Request → Server → RouteReply × Server
      owner_route route id now ip req server =
          let (verdict, buckets) = pre_handler mutate_limit now ip server.mutate_buckets in
          after_limit (owner_handler platform adapter executor route id) now req verdict
            (record server { mutate_buckets = buckets })
