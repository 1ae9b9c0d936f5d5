-- ===== src/Lib.antt =====
-- OrbitStream accepts payments on the Stellar network for merchants. A merchant creates a
-- checkout session with a memo; a detector polls Horizon for payment operations and matches
-- them to sessions by memo and amount; a recovery job repairs what crashes and races leave
-- behind; a queue delivers signed webhooks to the merchant; one middleware limits the rate of
-- requests, another decides which origins may call; guards decide who may act on which
-- resource.
--
-- - Common: shared names, Boolean tests, lists, results, signed integers, and texts as lists of
--   UTF-16 code units.
-- - Amount: src/payments/amount-utils.ts, amounts as exact numbers of stroops (Amount.Parse,
--   with the shapes of decimal texts in Amount.Decimal).
-- - Store: the tables checkout_sessions and payments of src/db/schema.ts as lists of rows,
--   their conditional updates, the unique index on payments, and the invariant of the store
--   (Store.Keys, Store.Invariant).
-- - Detector: processPayment and claimSession of src/payments/payment-detector.service.ts.
--   claim_session is phase 1 (the row lock and the guards), finalize is phase 2, and a failure
--   of the database in phase 2 is an argument.
-- - Recovery: src/payments/payment-recovery.service.ts, the four queries of
--   recoverStaleSessions in its order. What Horizon answers is an argument.
-- - Checkout: src/checkout/checkout.service.ts on the same tables.
-- - Lifecycle: one step per transaction of the three services that writes, in any order.
-- - Cursor: src/payments/payment-cursor.service.ts for one account. Poller: the body of the
--   detector's polling loop, which holds the leader lock, processes a page, moves the cursor
--   (any command of Redis may fail there) and backs off; poll_once is one turn of it.
-- - Auth: src/auth/auth.service.ts. Auth itself is verifyChallenge, which exchanges a signed
--   challenge for a token, with its limit on failed attempts and the circuit breaker before
--   Horizon; Auth.Concurrent cuts it at the request to Horizon, where other calls may run.
--   Auth.Challenge is requestChallenge and refresh, and Auth.Issued takes a challenge from the
--   one to the other.
-- - Merchants: src/merchants/merchants.service.ts and src/audit/audit.service.ts on the tables
--   merchants, api_keys and audit_logs; Merchants.ApiKeys has the operations on API keys.
-- - Config: src/config/jwt-secret.config.ts and validate of src/config/config.schema.ts, whose
--   schema is a parameter.
-- - Guards: the guards of src/auth and the JWT strategy. Guards.JwtStrategy is the strategy,
--   and revoke_route of Guards.RevokeRoute is DELETE /merchants/me/api-keys/:id with the guards
--   before its handler. Guards.MerchantRoutes has the other routes of
--   src/merchants/merchants.controller.ts. Guards.Access is about the guards, Guards.Isolated
--   about what a request leaves of the other merchants (with Guards.Kept), Guards.Rotation
--   about the secrets of JWTs.
-- - PaymentLinks: src/payment-links, the links of a merchant behind the guard for API keys
--   (show_route is GET /v1/payment-links/:id). InternalUrl:
--   src/merchants/is-not-internal-url.validator.ts.
-- - Origins: src/middleware/cors-origins-cache.service.ts and setCorsOrigins of the merchants
--   service, with the failures of Redis and of the database as data. Cors:
--   src/middleware/dynamic-cors.middleware.ts on that cache; use_middleware is its method use.
-- - RateLimit: src/api/middleware. Rules and identities, the window in memory
--   (RateLimit.Window), the Lua script over a sorted set (RateLimit.Script), and the
--   middleware, which picks one of the two.
-- - Webhook: src/webhook. Constants, Signature and Delivery are one attempt to deliver. Queue
--   holds the state in Redis and the two tables with enqueue and process; Requeue the manual
--   requeue and the recovery sweep; Worker the scheduling: tick is cut at its awaits into
--   begin_tick and tick_step, and the finally block of process is settle_job, so that jobs may
--   settle between the due ids of a tick, and each due id takes the queue as each of its two
--   commands finds it; Service the dispatch, the dead letters and the endpoints of a merchant
--   with the handlers of the controller.
--
-- Each service hands its state through as a record and returns the new one; a throw is a value
-- of a result type or an argument that says where the database fails. Times are numbers of
-- milliseconds, ids are numbers, money is an integer of stroops, and a JavaScript number that
-- the source keeps small is a natural number. Every loop runs over a list that was read before
-- it, so no fuel is needed.
--
-- Parameters are the code that is not in this repository: HMAC, SHA-256, jsonwebtoken
-- (Guards.JwtStrategy.Jwt), the schema of zod, the Stellar SDK (Auth.Sdk to read and verify,
-- Auth.Challenge.Signing to build and sign, with what it documents in Auth.Issued.IsSdk), the
-- HTTP client, the URL parser, the printing of ids, times and JSON, random numbers, the answers
-- of Horizon, and the sorted sets of Redis, which are interfaces with the documented laws of
-- their commands (RateLimit.Script.SortedSets for one key of the limiter, Webhook.Zsets.Zsets
-- for the queue). The tests give instances of both. Plain keys of Redis are optional values,
-- lists, or functions from ids.
--
-- Not modelled: the Stellar client, monitoring and the module wiring; the validation of request
-- bodies and of the environment by a schema, and the handlers that only call one method; of the
-- parts above, log lines, metrics, the expiry of Redis keys other than the leader lock and the
-- cached origins, failures of Redis at the leader lock, and failures of Redis or the database
-- inside an operation of the webhook queue.
pub mod Common
pub mod Amount
pub mod Store
pub mod Detector
pub mod Recovery
pub mod Checkout
pub mod Lifecycle
pub mod Cursor
pub mod Poller
pub mod Merchants
pub mod Config
pub mod Guards
pub mod PaymentLinks
pub mod Origins
pub mod Cors
pub mod InternalUrl
pub mod RateLimit
pub mod Webhook
pub mod Auth
