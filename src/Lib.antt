-- ===== src/Lib.antt =====
-- A model of an order service in Go, and the theorems that make it correct.
--
-- The program is an HTTP API and a worker. The API registers users, customers, products and orders; an
-- order is stored with its items and announced on a queue once it is stored. The worker takes the
-- announcements and drives each order through its payment: CREATED, PROCESSING, then PAID or FAILED; a
-- message whose processing fails for a technical reason goes back to the queue, and to a dead-letter
-- queue when its retries are used up.
--
-- The parts, and where they are modelled:
-- - Order: internal/order. Status is status.go, with the lifecycle as a graph in Status/Graph. Model is
--   model.go and dto.go. Ports are the interfaces of ports.go, repository.go, queue.go and processor.go: a
--   record of actions on a world `S`, each returning a result and the world after it. Contract says what
--   the service relies on of them, through the view of the world as a map of stored orders. Repository
--   is the in-memory repository, and Memory puts it and the fakes together as ports.
--   Process, Create and Service are service.go, each function cut at its calls of the ports.
--   Race puts a worker between the two calls of a cancellation. Transient is the failure-injecting
--   repository and the payment of cmd/worker. History puts all calls of the service together, and
--   Handler is handler.go. Postgres is postgres_repository.go, statement by statement; what it shares
--   with the other lists over PostgreSQL is the module Postgres, of placeholders and bound values.
-- - Worker: internal/worker/order_worker.go, over the two queues; Worker/Memory is the fake queues of
--   internal/order/queue.go. Worker/Contract is what the worker relies on of the queues.
-- - Redis: internal/queue, over a Redis client; Redis/Laws is what is relied on of the client, and fills
--   the worker's contract. Redis/Journey puts the API and the worker together.
-- - Money: internal/money/money.go. Cents are integers that every operation wraps to 64 bits; Money/Json
--   is the decoding of JSON.
-- - Pagination: the bounds of the three services' `List` and the windows of the in-memory repositories.
-- - Catalog, Customer, Product: internal/customer and internal/product; Catalog is what they share, and
--   each postgres_repository.go is the Postgres of its part.
-- - Auth: internal/auth (roles, the service over any user repository, the in-memory one); Auth/Token is jwt.go, Auth/Postgres is
--   postgres_repository.go and Auth/Seed is seed.go.
-- - Http: what the handlers of internal/order, internal/customer, internal/product and internal/auth share:
--   parameters of the query, dates, the path, the body and the reply. Each handler.go is the
--   Handler of its own part.
-- - Server: internal/server, the routes with the middleware and the handler of each; Server/Lookups is
--   cmd/api/adapters.go and the wiring in cmd/api/main.go, and Server/Growth is what any requests
--   and deliveries do to the orders. The users of its state are kept by the in-memory repository.
-- - Middleware: internal/middleware/auth.go and authz.go.
-- - Errors: internal/errors. Config: internal/config.
-- - Prelude: integers, association lists, texts, lower case, decimals, sorting. Tests: runs at concrete inputs.
--
-- Conventions. A UUID is a number, the nil UUID is 0; a time is a number of nanoseconds. A Go map is an
-- association list. A text is a list of code points. An error is a value of the result; a panic of a
-- slice is `none`. Go's `int` and `int64` are integers with the wrap to 64 bits written out. Loops over
-- slices are structural recursion; the worker's loop runs for a given number of messages, of which one for each
-- message and one for each retry that it has left are enough.
--
-- Parameters of the model: bcrypt, HMAC, base64 and JSON (Auth, Auth/Token, Money/Json, the handlers),
-- the parser of UUIDs, the router's choice of a route, the Redis client, pgx with the database server,
-- the ports of the order service and of the worker. What is relied on of them is stated as a record of laws or as
-- a named hypothesis, and Tests instantiates each.
--
-- Not modelled: start-up and shutdown, the logging, recovery and request-identifier middleware, logging
-- and metrics back ends, the Swagger pages, and the interleaving of several workers or requests within one
-- operation, but for the one of Order/Race. A statement that writes to PostgreSQL is related to the
-- tables in Order/Postgres/Atomic and Auth/Seed/Once only.
pub mod Prelude
pub mod Errors
pub mod Money
pub mod Pagination
pub mod Catalog
pub mod Customer
pub mod Product
pub mod Order
pub mod Worker
pub mod Redis
pub mod Http
pub mod Postgres
pub mod Auth
pub mod Middleware
pub mod Server
pub mod Config
mod Tests
