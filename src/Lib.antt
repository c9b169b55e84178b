-- ===== src/Lib.antt =====
-- Octora: the private execution layer for Meteora liquidity positions. The parts of the API, under
-- octora-api/src, that decide what happens to a request, a position and a withdrawal, and two files
-- of the web client, under octora-web/src/lib. Paths without a root are under octora-api/src.
--
-- The program's parts, and the files that model them:
--   * Base: shared names, Boolean tests, lists, texts, integers, maps with text keys, and the effect
--     of code that changes a state and may throw (`Base.Effect`: what was written stays written).
--   * Domain: domain/, the states of a position, their transition table, and the recovery guidance.
--   * Store: the repositories of modules/positions and modules/indexer, as test-kit/memory-db.ts
--     implements them. `World` is all that the services share.
--   * Platform: what comes from outside: JavaScript's numbers, texts and random ids, and the ports to the
--     privacy adapter and the Meteora executor (modules/execution).
--   * Recovery, Services: recovery.service.ts, activity.service.ts, indexer.service.ts.
--   * Position: position.service.ts. Position/Service has the five calls in its children, Position/Reply
--     the replies, Position/Caps the beta caps; Position/Rules has a rule for each step that a call
--     makes, Position/Outcome the specification of the calls, Position/Calls and
--     Position/Refusals relate the two, Position/Sound and Position/Keeps have the invariant.
--   * Worker: recovery-worker.ts, one tick.
--   * Lifecycle: the service and the worker over one store, as a step relation.
--   * Relayer: modules/relayer/relayer.service.ts, its registry and its table of roots.
--     `processWithdrawal` is cut at its awaits into `begin` and `advance`, so that pipelines
--     interleave in any order.
--     Relayer/Health has its reports, Relayer/Deposits is deposit.service.ts, and Relayer/Bytes is
--     proof-converter.ts with the packing of a number in the web client's mixer/bytes.ts.
--   * Vault: modules/vault/merkle/merkle-tree.ts, around the tree of fixed-merkle-tree.
--   * RateLimit: modules/mixer/rate-limit.ts.
--   * SingleSided: modules/executor/single-sided.ts, the plan of a deposit and its bytes.
--   * Auth: common/auth.ts, the nonces in Auth/Nonces.
--   * Routes: position.routes.ts, what runs before a handler, and position.controller.ts in
--     Routes/Controller. They use RateLimit, Auth and the calls of Position.
--   * Execution: the adapters and clients of modules/execution that answer the ports without a
--     chain, and infra/runtime/pod-runtime.ts.
--   * SolanaTx: common/solana-tx.ts, the submission of a transaction; its fees in SolanaTx/Fees.
--   * Config: common/config.ts.
--   * Health: common/health.ts, the probes, with the layout of a pool's account in
--     modules/mixer/layout.ts.
--   * LocalPositions: localPositions.ts of the web client, the index in the browser's storage.
--
-- Correspondence: a function has its name in the source, in snake case; a method of a service is
-- a function of the same name on the state. Texts of errors are constructors of an error type.
--
-- Choices. Dates and counters are natural numbers, with `-` written so that it stops at 0 where
-- the source takes a difference of dates or slots and tests it against a threshold. Floats, texts
-- in upper case, dates in print and random ids are parameters. `World.stamp` is the date that a
-- write puts into a row. A call of the position service runs to completion before the next one (a
-- process that stops in the middle of a call is not modelled), and the two calls of the indexer
-- that the service does not await are taken in the order in which they stand. Adapters, executors
-- and the node answer each call with a value or a thrown error. The relayer's state keeps the
-- submissions that have ended, signed or thrown, which the code does not: one that has thrown may
-- have landed all the same. The loops go over lists; the retry loop of a submission goes down the
-- attempts that are left, and the hex digits of a number n are taken with n as fuel, which is
-- enough since each step divides it by 16.
--
-- Not modelled: the Prisma queries, the timer of the worker, the executor client and the rest of the
-- executor and mixer modules, the dlmm module, the prover of the vault, the metrics,
-- the routes of the other modules, most of the web client, and the on-chain programs. They are
-- queries of a database, calls of the Solana, Meteora and snarkjs libraries, or user interface.
pub mod Auth
pub mod Base
pub mod Config
pub mod Domain
pub mod Store
pub mod Execution
pub mod LocalPositions
pub mod Platform
pub mod Recovery
pub mod Services
pub mod Position
pub mod Worker
pub mod Relayer
pub mod RateLimit
pub mod Routes
pub mod SingleSided
pub mod SolanaTx
pub mod Vault
pub mod Lifecycle
pub mod Health
