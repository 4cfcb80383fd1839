-- ===== src/Lib.antt =====
-- OrderHub: a model of its services and what holds of them.
--
-- The repository holds Go services that talk by gRPC. Three of them are modelled. The inventory service
-- keeps products, their stock and the reservations that orders hold against it. The order service
-- prices an order through the inventory service, stores it, and cancels it. A client reserves the
-- stock of an order by the inventory service, and then confirms or releases it. The auth service registers
-- users, logs them in and out, and issues the tokens that the interceptors of all three services ask for:
-- the interceptor of the auth service validates the bearer token of a call by the token provider, those of
-- the inventory and the order service by a call of `Introspect`, and put the user into the context.
--
--   Base            shared names, integers (Base/Int), tables (Base/Rows), strings (Base/Text)
--   Base/Store      a request against PostgreSQL: the pool, the transaction, the faults
--   Base/Post       postconditions of requests; Base/Quiet: requests without a fault
--   Inventory       orderhub-inventory-service/internal: Models (models, migrate), Errors (service/errors.go,
--                   context.go), Repo (repository), Service (service/inventory_service.go), Handler
--                   (transport/grpc/handler.go), Guards (who may call), Ledger (what the stock and
--                   its reservations promise), Tests
--   Orders          orderhub-order-service/internal: Models, Repo, Pricing (service/pricing.go), Service
--                   (service/order_service.go), Handler (transport/grpc/handler.go), and what the
--                   operations promise: Access (GetOrder), Lists and Paging (ListOrders), Cancelling,
--                   CancelTwice and CancelReturns (CancelOrder), Storing, Placing, Totals and Duplicates (CreateOrder);
--                   Tests
--   Auth            orderhub-auth-service/internal: Models (models, migrate, service/errors.go), Repo (repository),
--                   Service (service/auth_service.go, ports.go; Accounts: Register, Login; Tokens: Refresh,
--                   Logout, LogoutAll, GetJwks, Introspect; Resets and Verifying: the codes by mail),
--                   Cleanup (cleanup/cleanup.go), Token (token/jwt_rsa.go) with Token/Bytes; Book is the state
--                   that the theorems speak of, the tables of users, tokens, sessions and codes; Provider
--                   what the service relies on in a token provider, Token/Keeps that RSAProvider
--                   does so, Token/PublicKeys where its keys come from,
--                   Token/Accepts which tokens it accepts; and what the operations promise: Registering, LoggingIn, Rotation and Once
--                   (Refresh), LoggingOut and LoggingOutAll, Resetting and ResetReturns (ConfirmPasswordReset), Keys
--                   (SetActive), Kept with Kept/Filters (the cleanup); Tests
--   Interceptor     internal/transport/grpc/interceptor.go of the three services: Bearer (the header), Auth (the
--                   auth service), Clients (the other two), Admits; Tests
--   AuthHandler     orderhub-auth-service/internal/transport/grpc/handler.go: Caller (what is read from the
--                   metadata), Calls (the handlers), Unknown
--                   (Logout), Missing (RequestPasswordReset); Tests
--   Gateway         orderhub-api-gateway/internal/middleware/auth.go: Bearer (ExtractBearerToken), Clean; Tests
--
-- A table is a list of rows. A method of a repository is one statement, or a few, on the pool or on the
-- open transaction: Inventory.Repo.Stock.try_reserve is `TryReserve` of inventory_repo.go, and the CHECKs,
-- unique indexes and foreign keys that migrate.go creates decide whether a statement is refused. A method
-- of a service is an Action: from a World (the committed tables, the copy that the transaction sees, the
-- clock, and for each statement to come whether it fails) to a result or an error, and the World after.
-- So a theorem about a call speaks of every pattern of failing statements, with the clock standing still
-- during the call, and of one request at a time:
-- statements of other requests do not come between those of a call. The auth service's calls of Redis,
-- Kafka, bcrypt and the random source are statements of that kind: each can fail, and Redis, the mails
-- sent and the provider's cache of keys stand beside the tables.
--
-- Numbers: quantities of stock and prices are integers (Base.Int.ℤ) held within the columns' ranges by the
-- constraints; `int32(q)` of a `uint32` is Base.Int.to_int32 and the `int64` arithmetic of an order's total
-- is Base.Int.wrap64, with their wrap-around. Identifiers and instants are natural numbers; the auth service's
-- instants are nanoseconds. `gen_random_uuid` is the counter next_id, and what the random source has drawn
-- the counter drawn; theorems that need a fresh identifier or text say so. The loops run over lists, but for
-- that of the exponent's bytes in Auth.Token.Bytes, whose fuel is 8: a byte is taken in each turn, so that it
-- is enough for the 64 bits of an int, as the round trip shows.
--
-- Not in the repository, and so parameters: PostgreSQL's `lower` and LIKE, its collation, the inventory
-- client's answers, `uuid.Parse`, `UUID.String`, the generated `ValidateAll` and `Validate`, the
-- generated enum of roles, and the libraries for hashes, bcrypt, JWT, RSA, PEM and X.509. The event bus is a
-- list of events beside a result, for its errors are ignored. Not modelled: the rest of the gateway (HTTP
-- around the calls of the auth service), the notification service, the timers around the cleanup, configuration and
-- main functions.
pub mod Base
pub mod Inventory
pub mod Orders
pub mod Auth
pub mod Interceptor
pub mod AuthHandler
pub mod Gateway
