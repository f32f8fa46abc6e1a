-- ===== src/Lib.antt =====
-- The core of MCP Conductor, which sits between a model and its MCP servers: what happens to a call
-- of a tool on its way to a backend and back, which tools there are, how many calls a server gets,
-- and what the daemon keeps for its clients.
--
-- Reliability (src/reliability). The gateway wraps each call of a tool: it resolves the effective
-- profile, asks the circuit breaker of the server, runs the attempts under a deadline each, and
-- records the outcome.
--   Reliability.Profile   profile.ts: profiles, their merge, the test for a mutation by name
--   Reliability.Errors    errors.ts: the error classes, extractErrorCode, isRetryable
--   Reliability.Timeout   timeout.ts: withTimeout, withTimeoutSimple
--   Reliability.Retry     retry.ts: withRetry
--   Reliability.Breaker   breaker.ts: class CircuitBreaker
--   Reliability.Gateway   gateway.ts: class ReliabilityGateway
-- A method that changes its object returns the new one; the clock is an argument. What a backend
-- does on each attempt is an argument too: it settles after some time, or hangs. The text of an
-- error is what its class builds. A call is split where it waits (start_call, count_attempt,
-- end_call), so that Reliability.Gateway.Interleaving can let calls of all servers overlap in any
-- order. The failure threshold is a ratio, and its comparison is multiplied out; retries count down
-- from the number of retries, so that the loop needs no other fuel. The delay of a timer is the one
-- that Node keeps.
--
-- Rate limiter (src/utils/rate-limiter.ts).
--   RateLimiter           class RateLimiter, a function per method and per timer callback
--   RateLimiter.Steps     its events in any order, with the time of each
-- Rates and bursts are natural numbers. The whole part of the product of floats in refillTokens is a
-- parameter. The bound on the rate assumes that it does not exceed the exact quotient, which rounding
-- cannot break below 2^42 tokens: the exact product is a multiple of 1/1000.
--
-- Daemon (src/daemon).
--   Daemon.SharedKv       shared-kv.ts: class SharedKV over values of any type
--   Daemon.SharedLock     shared-lock.ts: class SharedLock
--   Daemon.SharedLock.Steps  calls, wake-ups, time-outs and releases in any order
-- JSON and the file are parameters: stringify, parse, and whether a write succeeds. The law on JSON
-- (Daemon.SharedKv.Persistence.JsonLaw) is that parse reads back what stringify wrote, with the
-- entries in any order; it is meant for values that JSON can express and leaves aside the key
-- `__proto__`. A mutex of the locks is an object with an address, as pending calls share it with
-- the map; the promises of its chain are numbered. Time-outs are steps that may come whenever a
-- promise is not resolved, so that no duration is assumed.
--
-- Cache (src/cache).
--   Cache.Key             key.ts: CacheKey, its text, parseCacheKey
--   Cache.Policy          policy.ts: resolveTtl, defaultTtlForName, isCacheable
--   Cache.Delta           delta.ts: arrayDelta, deepEqual, shouldReturnFull
--   Cache.Lru             lru.ts: class MemoryLru over an interface of the package lru-cache
--   Cache.Disk            disk.ts: class DiskCache over a map of files
--   Cache.Layer           cache.ts: class CacheLayer, without delta
--   Cache.Layer.Served    calls of get and set in any order
-- The package lru-cache is a record of its methods and of what its documentation says of each
-- (Cache.Lru.LruCache); it may drop entries when it is written to. The registry's getTool and the
-- sizes of values are a record too (Cache.Layer.Backing). A call of get or set is one step. At an
-- event of the registry the memory is invalidated at once, while the invalidation of the disk is only
-- started: it ends in a step of its own, with the files that it could remove. The hash of the arguments
-- is a parameter, and so are the texts and sizes that JSON gives. Texts are lists of code units, and
-- lower case is that of the letters A to Z. A time to live is a natural number of milliseconds.
--
-- Worker pool (src/runtime/pool).
--   WorkerPool.Recycle    recycle.ts: evaluateRecycle, isEligible
--
-- Bridge (src/bridge).
--   Bridge.Rpc            pool.ts: _rpcCall, _handleLine, and the calls in _handleClose
--   Bridge.Rpc.Settling   calls, output of the backend and the end of a connection in any order
--   Bridge.Pool           pool.ts: the pool of one server, a function per method and per timer
--   Bridge.Pool.Limits    its steps in any order
--   Bridge.Sessions       session-registry.ts: class SessionRegistry
-- JSON.parse on a line is a parameter. On the value null the loop over the buffer ends with an
-- exception, and what the transport does with it is left out. The loop has the buffer's length as fuel:
-- each round takes a line end off it.
--
-- Registry (src/registry).
--   Registry              registry.ts: the catalog, refreshServer, refresh, getTool
--   Registry.Metadata     registry.ts: annotate
--   Registry.Snapshot     snapshot.ts; registry.ts: saveSnapshot, loadSnapshot
--   Registry.History      refreshes, annotations and snapshots in any order
-- JSON values are of any type, and their text, the tools that a backend reports and the file of a
-- snapshot are parameters. Cache.Layer.Updates joins the registry's events to the cache.
--
-- Streaming (src/streaming/execution-stream.ts).
--   Streaming             class ExecutionStream, with what is written to the connections
--   Streaming.Replay      its calls and connections in any order
--   Streaming.Cleanup     class StreamManager: createStream, removeStream, cleanupStaleStreams
-- Whether a response can be written is a parameter.
--
-- Permissions (src/utils/permissions.ts).
--   Permissions           the names of permissions, parsePermissionString, comparePermissions
-- The regular expression is read by hand.
--
-- Base holds what the parts share: conditionals, lists over the native numbers, texts as lists of
-- code units, and maps as association lists. Tests runs the models at fixed inputs.
--
-- Not modelled: log lines, and emitted events but for those of the registry; the worker pool but
-- for its recycling policy, the HTTP bridge, the checks and types of the registry, the daemon's
-- server, the hub, the command line.
pub mod Base
pub mod Bridge
pub mod Cache
pub mod Daemon
pub mod Permissions
pub mod RateLimiter
pub mod Registry
pub mod Reliability
pub mod Streaming
pub mod Tests
pub mod WorkerPool
