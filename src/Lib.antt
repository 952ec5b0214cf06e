-- ===== src/Lib.antt =====
-- A model of the idempotency package for NestJS (lib/), with the theorems that make it correct.
--
-- The package makes retries of a handler safe. Its interceptor plans each call that carries an
-- idempotency key: it asks a store for a lock on the key, and then runs the handler under that
-- lock, replays the stored result of an earlier call, or refuses the call. The result is stored,
-- or the key released, when the handler is done; until then the lock is renewed. The app registers
-- the store; stored results may be sealed with AES-256-GCM.
--
-- Which file models which part:
--   Store      lib/interfaces/idempotency-store.interface.ts: the contract of a store, as what each
--              operation does to one key's record, and as an interface with laws. Store/History has
--              sequences of calls, Store/Exclusion what holds under any interleaving.
--   Memory     lib/stores/in-memory-idempotency.store.ts: every method; Memory/Calls serves the
--              calls of a history, Memory/Refinement is its implementation of the interface.
--   Testing    lib/testing/index.ts: `idempotencyStoreContract`, the published test cases for
--              implementations of the contract. Testing/Cases and Testing/Keys have those that make
--              their calls one by one, Testing/Races and Testing/Contests those with concurrent
--              callers; the other files show that a store that keeps the contract passes them.
--   Value, Key lib/interceptors/idempotency.interceptor.ts: `normalizeKey`, `normalizeScope` and
--              `storeKey`, over the JavaScript values that the package inspects.
--   Fingerprint lib/utils/fingerprint.util.ts: `canonicalJson` and `sha256`.
--   Interceptor lib/interceptors/idempotency.interceptor.ts: `intercept`, `run` and
--              `onApplicationBootstrap` (Interception), `plan` (Planning), `execute` (Execution),
--              `record` (Recording), `renew` (Renewal), `warnOnce` (Warnings); Worlds has what they
--              share. The warnings in Worlds are those that `warnOnce` is called for.
--   Json, Result  lib/utils/result.util.ts: `encodeResult`, `unreplayableReason`; Result/Decoding
--              is `decodeResult`.
--   Contexts   lib/contexts/context.adapter.ts; Contexts/Http, Contexts/Graphql and Contexts/Rpc are
--              lib/contexts/http.context.ts (Http/Responses its half on responses),
--              lib/contexts/graphql.context.ts and lib/contexts/rpc.context.ts; Contexts/Adapters
--              chooses by context, Contexts/Requests is what `plan` is given of a call, and
--              Contexts/Sites what `intercept` is.
--   Encryption lib/utils/encryption.util.ts: `deriveKey`, `ResponseCipher`, `plaintextCodec`.
--   Storage    lib/storage/idempotency.storage.ts and `onModuleInit` of lib/idempotency.module.ts.
--   Options    lib/interfaces/idempotent-options.interface.ts,
--              lib/interfaces/idempotency-module-options.interface.ts,
--              lib/idempotency.constants.ts, and the interceptor's `resolve`, `scopeFor`,
--              `sourceFor` and `readKey`; Options/Milliseconds is lib/utils/duration.util.ts and
--              `withDurationsInMs` of lib/decorators/idempotent.decorator.ts, Options/Startup the
--              interceptor's constructor and its checks.
--   Events     lib/events/idempotency-events.service.ts and lib/events/idempotency.channels.ts, as
--              the calls that they make of Node's diagnostics channels and of the RxJS subject.
--   Base, Tests  shared names and lemmas; concrete runs.
--
-- Choices. Text is a list of UTF-16 code units. Time is a number of milliseconds that each store
-- call is given, and a call happens at one instant. Values are immutable, so `structuredClone` is
-- the identity. A map is an association list with distinct keys. A store call is answered, or its
-- reply is lost after it took effect, or it never takes effect (`Reply`); the two latter are errors
-- or timeouts to the caller. The functions of the app and of the context adapters enter `plan` by
-- their results, an exception among them. The hash functions, the primitives of `node:crypto`, and
-- JSON on a stored response are parameters, as are `toLowerCase`, of which the theorems on header
-- names assume that it leaves no ASCII capital, and the product of a duration's numeral with its
-- unit, rounded, in double precision. What Nest and the platform do for an adapter
-- is the record `Host`: base64, `new Date` and `BigInt`, JSON, the responses of Nest's exceptions,
-- and what a value inherits. An error that a handler throws is known by what the adapters look at
-- (`Thrown`). A `Buffer` and any other `Uint8Array` are two constructors of `Value`: both are
-- stored, and come back as a `Buffer`. `settles` in Interceptor/Execution is the end of the store's
-- call that `record(…)` made, whether it succeeded or failed. A status or a `statusCode` is a whole number. A class instance enters the encoding of
-- results with its prototypes' getters and what they return. Message texts and log lines are left
-- out. Definitions recurse on their data; but `decimal` has fuel, one more than the number, which
-- is enough since each step divides by ten, and the rounding to a double in `printable` has ten
-- rounds, enough for the numbers below 2^62 that occur there. A test case of the contract runs at the
-- times that it advances the clock to, and each call adds a delay, `lag`, which may grow from call to
-- call; calls that are made at once are taken by the store in an order that is an argument. What a
-- case changes in place (`mutate`) has no counterpart, as values are immutable.
--
-- Not modelled: Node's diagnostics channels and RxJS, which the event service calls; the classes of
-- errors (lib/errors), but for which operation ends in which; and the wiring of the NestJS module.
pub mod Base
pub mod Value
pub mod Key
pub mod Fingerprint
pub mod Store
pub mod Memory
pub mod Interceptor
pub mod Encryption
pub mod Storage
pub mod Options
pub mod Json
pub mod Result
pub mod Contexts
pub mod Testing
pub mod Events
pub mod Tests
