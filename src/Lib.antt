-- ===== src/Lib.antt =====
-- bit-relay: a relay server for bit repositories in TypeScript. A client publishes envelopes into
-- rooms, polls them, acknowledges them and signs what it sends; relays exchange envelopes with
-- their peers, mirror GitHub webhooks and proxy git sessions. This library models the program's
-- own logic and proves what makes it correct.
--
-- How the parts interact. The handler (src/memory_handler.ts) keeps the rooms, the keys and nonces of
-- senders and the records for other relays. A publish or a review is first checked by Identity (nonce,
-- signature over a text of Signing, key by trust on first use), then changes a room (Room, Review)
-- and, where it is new, is recorded for peers (CacheExchange). Another relay's worker (CacheSync)
-- pulls these records page by page. A GitHub webhook goes through the engine of IssueSync, which
-- publishes it and remembers its id, and keeps what failed for a retry. A Git client's request waits in a session
-- (GitServe) until the agent that polls for it responds (GitRespond); GitSession puts these handlers
-- and the timers together as one state machine over events.
--
-- The relay as a whole (Relay.antt) is one record that holds the parts' states. A handler is an action on
-- it (Relay/Action.antt): it raises a reply early or goes on, and what it did to the state stays.
-- Relay/Fetch.antt composes them as `fetch` routes them, and runs sequences of requests and socket
-- events. What the runtime offers (Http.Platform: JSON.parse, Date.parse, hashes, the sending on a
-- socket, the upgrade) is a record that the handlers take, and so are the reads of the issue
-- cache (IssueReads). What is published goes on to the issue cache (IssueProjection, IssueCache), whose
-- store is an interface that may throw at any call. The parsers of events (src/contracts.ts) are in Contracts.antt.
--
-- Values. A string is a native text; lengths are in UTF-16 units where the source measures, and
-- characters are code points elsewhere. JSON is a data type (Json.antt); a request body is given by
-- what `JSON.parse` makes of it, `none` where it throws. JavaScript numbers that the code keeps as
-- counts, cursors and times are natural numbers, without the rounding above 2^53. The object that a
-- snapshot makes of a map lists its properties as JavaScript does: array indices first, then the other
-- names in the order of their writing, and `__proto__` not at all (Map/Listed.antt). A JavaScript `Map`
-- or `Set` is a list in insertion order (Map.antt). The clock, random ids and the environment's
-- choices are arguments of each operation. Handlers run to their end before the next starts, except
-- in GitSession, where the reading of a body and the timers are events of their own.
--
-- Fuel. The retry loop of CacheQueue gets one unit more than its retries, since each round but the last
-- uses one up. The printing of numbers gets the number itself, as each digit divides by the base. The
-- clients of Room/Poll and CacheExchange/Pull ask as often as they are told to.
--
-- Files:
-- - Prelude.antt: shared names, Boolean tests and list lemmas.
-- - Map.antt: JavaScript maps; Map/Listed has an object as it lists its properties, and
--   Map/Order the order of the list.
-- - Text.antt: trimming, lengths, parseInt and the regular expressions for names.
-- - Json.antt: JSON values and their reads (src/contracts.ts).
-- - Room.antt: RoomState, publishIntoRoom, pollFromRoom, inboxPendingFromRoom, ackIntoRoom
--   (src/memory_handler.ts); Room/Log, Room/Publish, Room/Poll and Room/Inbox prove.
-- - RateLimit.antt: fallbackRateLimit (src/memory_handler.ts); RateLimit/Bounds proves.
-- - TimingSafe.antt: timingSafeEqual (src/memory_handler.ts).
-- - Signing.antt: canonicalizeJson and the signed texts (src/signing.ts); Signing/Separation
--   proves.
-- - Identity.antt: nonces, keys by trust on first use and signed requests
--   (src/memory_handler.ts); Identity/Rotate has handleKeyRotate and handleKeyInfo;
--   Identity/Nonces, Identity/Replay, Identity/Keys and Identity/Rotation prove.
-- - CacheExchange.antt: pages of exchanged records, parsing and collisions
--   (src/cache_exchange.ts), and the records kept (src/memory_handler.ts);
--   CacheExchange/Select, /Pull, /Allowed, /Classify and /Kept prove.
-- - CacheSync.antt: src/cache_sync_worker.ts; CacheSync/Cycle proves.
-- - CacheQueue.antt: the retries of src/cache_persistence_queue.ts; CacheQueue/Retry proves.
-- - IssueSync.antt: src/issue_sync_engine.ts; IssueSync/Invariant, /Memory, /Apply, /Runs,
--   /Once and /Retry prove; /Snapshot has snapshot and restore, and /RoundTrip proves.
-- - GitRefs.antt: the texts of src/git_serve_session.ts: refs, pkt-lines, paths;
--   GitRefs/Extract proves.
-- - GitServe.antt: the session of src/git_serve_session.ts and its handlers, less
--   handleRespond.
-- - GitRespond.antt: handleRespond of src/git_serve_session.ts; GitRespond/Compat proves.
-- - GitSession.antt: the session over sequences of events; GitSession/Count, /Responses,
--   /Answers and /Lost prove.
-- - Review.antt: reviews, presence and broadcasts of src/memory_handler.ts; Review/Votes and
--   /Presence prove.
-- - CacheStore.antt: createMemoryCacheStore of src/cache_store.ts, with put, get and remove;
--   CacheStore/Evict proves.
-- - Trigger.antt: src/trigger_dispatcher.ts; Trigger/Dedupe, /Prefixes and /Dispatch prove.
-- - Contracts.antt: parseAuthContext and parseRelayEvent of src/contracts.ts; Contracts/Errors
--   and /WellFormed prove.
-- - Http.antt: the readers of headers, query parameters and tokens of src/memory_handler.ts,
--   and the platform.
-- - GitHub.antt: the readers and builders for GitHub webhooks of src/memory_handler.ts;
--   GitHub/Mapped proves.
-- - Relay.antt: the state of createMemoryRelayService (src/memory_handler.ts) and its publish;
--   Relay/Action has the replies of handlers, Relay/Publish, /Peers, /Webhook, /Rooms,
--   /Sockets, /Keys and /Caches the handlers, Relay/Fetch the routing; Relay/Invariant,
--   /Keeps, /Preserve, /Guarded, /Authentic and /Accounts prove.
-- - Relay/Snapshot.antt: snapshot and identitySnapshot of the service; Relay/Restore.antt has
--   restore and restoreIdentity, and its children prove.
-- - IssueProjection.antt: src/issue_projection.ts; IssueProjection/Records has the records of
--   the cache, IssueProjection/Stored proves.
-- - RepositoryAffinity.antt: src/repository_affinity.ts; RepositoryAffinity/Agreement proves.
-- - IssueCache.antt: src/relay_cache_adapter.ts over any store; IssueCache/Writes persists,
--   IssueCache/Reads pulls, /Cursors, /Policy and /Pull prove.
-- - Tests.antt: runs on small inputs and an instance of each theorem.
--
-- Not modelled: the pages that the cache adapter reads for a synchronisation, the adapter without a
-- store, the cache layer for git objects, WebSocket framing, the Cloudflare and Deno entry points, environment parsing, logging, and the command-line tools; they
-- are input and output around the logic above. SHA-256, Ed25519, base64, Unicode case mapping, the
-- parsing of URLs and the printing of JSON numbers belong to the platform and are parameters.
pub mod CacheExchange
pub mod CacheQueue
pub mod CacheStore
pub mod CacheSync
pub mod Contracts
pub mod GitHub
pub mod GitRefs
pub mod GitRespond
pub mod GitServe
pub mod GitSession
pub mod Http
pub mod Identity
pub mod IssueCache
pub mod IssueProjection
pub mod IssueSync
pub mod Json
pub mod Map
pub mod Prelude
pub mod RateLimit
pub mod Relay
pub mod RepositoryAffinity
pub mod Review
pub mod Room
pub mod Signing
pub mod Tests
pub mod Text
pub mod TimingSafe
pub mod Trigger
