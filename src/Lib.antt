-- ===== src/Lib.antt =====
-- Verification library of platform-ts.
--
-- platform-ts is a set of packages that a service is put together from. Each package offers an
-- interface and providers of it; this library models the providers that hold their state in memory
-- and the logic above them, one module for each package:
--
--   OrderedMap            JavaScript's Map with text keys, which most providers keep their state in
--   CircuitBreaking       packages/circuitbreaking: the breaker's three states, its probes while it
--                         is half open, and the partitioned breakers of CircuitBreaking/Partitions
--   RateLimiting          packages/ratelimiting: the check of a cost, and in RateLimiting/Memory the
--                         fixed-window limiter of src/providers/memory.ts with its eviction
--   Cache                 packages/cache: TTLs (src/support.ts), and in Cache/Memory the in-memory
--                         cache of src/providers/memory.ts
--   DistributedLock       packages/distributedlock/src/providers/memory.ts: leases and their tokens
--   Idempotency           packages/idempotency: keys, records, the wait for a lock (WithLock), the
--                         manager (Manager), many callers of it at a time (Interleaving), the client's
--                         fetch (Client) and fingerprints (Fingerprint)
--   EventCapture          packages/eventcapture: the ring buffer, the recorder over it and the
--                         aggregator
--   Retry                 packages/retry/src/retry.ts: the backoff and the loop of attempts
--   Authorization         packages/authorization/src: permission.ts, grants.ts, policy.ts and
--                         providers/static.ts
--   HealthCheck           packages/healthcheck/src/index.ts: checkers, deadlines and reports
--   HttpClient            packages/httpclient/src: requests, their retries and their responses
--   MessageQueue          packages/messagequeue/src/providers/memory.ts: the broker and the delivery to
--                         its consumers
--   EventStream           packages/eventstream/src/providers: emitter.ts, websocket.ts and sse.ts
--   FeatureFlags          packages/featureflags/src/providers: static.ts and base.ts
--   Filtering             packages/filtering/src/query-filter.ts: filters, their parameters, pages
--   Secrets               packages/secrets/src/providers/caching.ts: the memoizing source
--   Uploads               packages/uploads/src: the uploader, the buckets in memory and under a
--                         prefix, and the streams
--   Decimal               whole numbers as texts
--   Prelude               names and lemmas that the modules share
--
-- The theorems of a module stand in its children, named for what they prove, and its witnesses in
-- its Tests.
--
-- How the parts interact. The manager of Idempotency is given a record store, a locker, a clock, a
-- delay, claim ids and the work: they are the fields of the record Idempotency.Services.Services,
-- over a world that they share, and each may fail. Idempotency.Memory fills that record with the
-- cache of Cache.Memory and the locker of DistributedLock. The recorder of EventCapture writes to a
-- sink and calls hooks, which are the fields of EventCapture.Recorder.Hooks; its buffer is
-- EventCapture.RingBuffer. The retry policy runs an operation of Retry.Policy.Runtime.
-- HttpClient.Fetch fills that record with its attempts of a request.
-- Uploads.Uploader runs on any Uploads.Bucket, and its breaker is that of CircuitBreaking; its
-- operations overlap in Uploads.Uploader.run_events, and track is one that no other overlaps.
-- The transports of EventStream share the lifecycle of EventStream.Emitter, and what a stream's
-- handlers do to it is a function that they take; the delays of a WebSocket are those of Retry.Backoff.
--
-- State and operations. A class is a record of its private fields, and a method is a function from
-- the state to the state and the result, under the method's name in snake case (`#evictIfNeeded` is
-- evict_if_needed). A reading of the clock is an argument, one for each call of `now()` that the
-- method makes, so that time may pass within a method. A method that throws gives an Option, a
-- sum with its error, or an error of the monad Idempotency.Services.Run. An asynchronous method is one step wherever nothing
-- else can see the state between its awaits; where others can, the state machine is written out:
-- Idempotency.Interleaving.Step has a step for what a caller does between two awaits, and
-- EventCapture.Recorder.turn takes the recorder's chain of promises one event or one task further.
--
-- Numbers. Times, counts and lengths are natural numbers; a difference is moved to the other side of
-- its comparison where the source could go below zero. A cost of the rate limiter may be any number
-- of JavaScript's, since the limiter checks it. The jitter and the random numbers of Retry are
-- fractions, and the arithmetic on them is exact, where the source rounds doubles.
--
-- Fuel. The wait for a lock (Idempotency.WithLock.lock_loop) takes a unit for each attempt. More
-- than the wait's length and one is enough, as each delay moves the clock on by at least one unit.
-- The attempts of Retry.Policy.attempts take a unit each, and the configured number of attempts is
-- enough. The two searches of Authorization.Policy take a unit for each role on the way down, and
-- more than there are roles is enough. Decimal.write_number takes a unit for each digit, and has more
-- than the number itself. Everything else is structural recursion.
--
-- Not modelled: the providers on Redis, Postgres and other vendors, which are calls of their
-- clients; logs, spans and metrics other than the counters that a state keeps; the zod schemas of
-- configurations; and the packages that wrap a third-party library or a codec (analytics,
-- authentication, compression, cookies, cryptography, email, encoding, llm, notifications, qrcodes
-- and others).
pub mod Prelude
pub mod OrderedMap
pub mod CircuitBreaking
pub mod RateLimiting
pub mod Cache
pub mod DistributedLock
pub mod Idempotency
pub mod EventCapture
pub mod Retry
pub mod Authorization
pub mod HealthCheck
pub mod HttpClient
pub mod MessageQueue
pub mod EventStream
pub mod Decimal
pub mod Filtering
pub mod FeatureFlags
pub mod Secrets
pub mod Uploads
