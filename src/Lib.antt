-- ===== src/Lib.antt =====
-- A flash-sale ticket booking API: clients book seats of an event, pay for the order or cancel it,
-- and a worker expires what is not paid in time. Redis holds seats for a short time in front of
-- Postgres, whose unique index on order_items(seat_id) is the last guard against selling a seat twice.
--
-- Parts, their files here and their code:
--   Db           the tables of db/001_init.sql and the statements of api/handlers.go and api/main.go,
--                one function each; Db.Consistent is the invariant of the tables
--   Redis        the store of keys with times to live, and `holdScript` of api/handlers.go
--   World        what handlers share: the tables, Redis, the demand-log queue (`logAttempt` of
--                api/analytics.go), the app's settings, and the fates of a request's calls
--   Holds        `holdKey`, `clearHoldsForOrder` of api/handlers.go
--   Booking      `createBooking`, Payment `payOrder`, Cancel `cancelOrder` of api/handlers.go and
--                `expireOverdueOrders` of api/main.go, whole handlers, statement by statement
--   Spec         what the service promises: who holds each seat, and the moves that may change it
--   Server       the HTTP service of api/main.go: `cors`, `logRequests`, the limiter, the routes and
--                their guards in front of every handler, `decodeJSON`, the start from the environment;
--                Server.Live is the deployed service, requests, ticks of the worker and attempts to make
--                the administrator in any order, Redis changing at will
--   Worker       `expiryWorker` and the loop that makes the administrator, of api/main.go
--   Interleaved  the service with requests that interleave: the same handlers cut into phases, each
--                one call of Redis, one read or one transaction, between which others run
--   Admin        `createAdminEvent` and `patchAdminEvent` of api/admin.go
--   RateLimit    `tokenBucketScript`, `allow`, `clientIP`, the middleware, `envFloat` and
--                `newRateLimiter` of api/ratelimit.go
--   Pow          `leadingZeroBits`, `powSolved`, `issuePoWChallenge`, `checkPoW` of api/pow.go
--   Accounts     `register` and `login` of api/auth.go, `auth` of api/handlers.go, `adminAuth` and
--                `ensureAdmin` of api/admin.go
--   Sessions     `issueTokens`, `refresh` and `logout` of api/auth.go
--   DemandLog    `attemptWriter` and `insertAttempts` of api/analytics.go
--   Listings     `listSeats`, `listEvents` and `listOrders` of api/handlers.go, `listAdminEvents` of
--                api/admin.go
--   Config       `Load` and `ValidateJWTSecret` of api/internal/config/config.go
--   Base         tests, lists with keys, and handlers: a handler goes on with a value or leaves with
--                an answer, as Go's `writeErr` and `return`
--   Fixture      a small concrete state, for the modules named Tests
--
-- A call of Postgres or Redis goes through, is refused with no effect, or has its effect and loses
-- the reply, as the environment of the request says for each of its calls. A transaction that is left
-- before its COMMIT is rolled back; a COMMIT may be applied although the handler sees an error.
--
-- Conventions: an id is the number that a uuid spells, read and printed by Postgres, which is a
-- parameter (`Uuids`); a fresh order id is drawn by Postgres; money is in cents and a time in
-- milliseconds; a price of a body is a float64, read as whether it is positive and the cents that
-- Postgres rounds it to; the limiter's doubles are exact scaled integers, without their rounding. Redis's
-- commands and the statements of SQL are modelled by their documented behaviour, as the languages
-- that the program's scripts and statements are written in. SHA-256, bcrypt, the
-- signing and parsing of a JWT, the reading of an RFC 3339 time and of a float, the decoding of a
-- JSON body, the printing of an id and Unicode's lower case are parameters, and so are the collation
-- by which texts are ordered and the order of orders by their time. Routes are matched as
-- http.ServeMux documents it, on the path's segments. A loop is a recursion on a list, or on the rounds
-- left: the loop of the administrator has 30, and the printing of a number in decimal as many as the
-- number, whose digits spell it.
--
-- Not modelled: the listening socket, its timeouts and the shutdown, the text of log lines but for what
-- they say, and JSON's encoding of an answer. `created_at` of an order, which only the page of a
-- customer's orders reads, and the table `booking_attempts`, which nothing reads, have no columns here.
-- The time to live of a limiter's key runs on the clock that the caller sends, not on Redis's own, and
-- of several rows of a production a new event joins the first in the list, where Postgres may take any.
pub mod Base
pub mod Redis
pub mod Db
pub mod World
pub mod Holds
pub mod Booking
pub mod Payment
pub mod Cancel
pub mod Spec
pub mod Interleaved
pub mod RateLimit
pub mod Admin
pub mod Pow
pub mod Config
pub mod Sessions
pub mod Listings
pub mod Accounts
pub mod DemandLog
pub mod Fixture
pub mod Worker
pub mod Server
