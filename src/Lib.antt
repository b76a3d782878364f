-- ===== src/Lib.antt =====
-- The desktop client's core, modelled and proved: how the lifecycle coordinator starts, stops and
-- recovers the browser session of a profile, how the progress of its archive transfers is kept, how
-- the remote MCP server's tools are discovered, how processes lock each other out, how a proxy is
-- routed and its SOCKS5 relay logs in, how inputs pass to the browser, what a profile's archive may
-- hold, and how the user's attention is asked for.
--
-- The program. A profile's session runs at the service (the REST API) and on this machine (a runner
-- process with a browser). `LifecycleCoordinator` (src/core/coordinator/coordinator.ts) starts a
-- session, restores the profile's archive, launches the runner, and at the end stops the runner,
-- packs and uploads the archive, and commits it with the stop. It persists its intent in a recovery
-- file per profile before each call that cannot be taken back, so that after a crash `recover`,
-- `start` or `stop` goes on from the file. src/core/app/session-transfer-progress.ts keeps the
-- progress that the app polls while archives move. src/core/mcp-proxy/cache.ts discovers the tools
-- of the remote MCP server for all callers at once, and retries after a failure.
-- src/core/locks/locks.ts has the locks that the coordinator and the binary manager take, between
-- processes by a file and in one process by a queue. src/core/proxy/routing.ts decides whether the
-- browser gets a profile's proxy itself or by way of the relay of src/core/proxy/socks-relay.ts,
-- which logs in at a SOCKS5 proxy for it. src/core/cdp/relay.ts relays a client of the browser's
-- protocol to the browser, and takes the client's inputs to a worker instead.
-- src/core/archive/archive.ts checks what is in a profile's archive before it is unpacked.
-- src/core/attention/service.ts plays sounds and shows notifications.
--
-- The files.
--   Prelude, Prelude/*   library names passed on, Boolean tests on numbers and texts, list lemmas.
--   Json                 the JSON values in a state's `stop_payload`.
--   Recovery             the recovery state of src/core/coordinator/state.ts; Recovery/Text has its
--                        regular expressions, Recovery/Validate `validateRecoveryState`,
--                        Recovery/Legacy src/core/coordinator/legacy-state.ts; Recovery/Coherence
--                        says what is valid, Recovery/Tests has the examples.
--   Coordinator/World    what a method works on: the options, the coordinator's maps, the recovery
--                        files, and the trace of the calls that leave the coordinator. `Env` has the
--                        answers of everything outside.
--   Coordinator/Exec     methods as functions of the world that return or throw, with try and finally.
--   Coordinator/Spec     pre- and postconditions of methods, for both endings.
--   Coordinator/Store    `createRecoveryStore` of src/core/coordinator/state.ts and the transition;
--                        Store/Files, Store/RoundTrip, Store/Reload and
--                        Store/Quiet say what loads and saves do.
--   Coordinator/Guard    rules: what a call may find in the recovery files, and an invariant of the
--                        world; Guard/Steps has the proof rules, Guard/Rules the rules in use.
--   Coordinator/Fields   what methods set in a state and read from the answers.
--   Coordinator/Cleanup  `stopRunner`, `cleanupLocked`, `adoptCommittedUploadLocked`.
--   Coordinator/Stop     `stopLocked`.
--   Coordinator/Reconcile  `cleanupRemoteStoppedLocked`, `reconcileLocked`, `forceStopLocked`.
--   Coordinator/Restore  src/core/coordinator/archive-cache.ts.
--   Coordinator/Start    `startLocked`.
--   Coordinator/Operations  `start`, `stop`, `forceStop`, `rollbackStart`.
--   Coordinator/Recover  `recover`, `resolveUploadAmbiguous`, `browserProcessClosed` and the runner's
--                        callbacks. The child modules of these (Safety, Verified, Ambiguous, ...)
--                        have, per method, what it keeps and what it leaves.
--   Coordinator/WriteAhead  which states the recovery file must hold at which call;
--                        WriteAhead/Histories has sequences of methods.
--   Coordinator/Outcomes what a method that returns has done, and what no method does;
--                        Outcomes/Resolve has the resolution of an ambiguous upload.
--   Coordinator/Tests    a sample world, and the theorems at it.
--   Discovery            src/core/mcp-proxy/cache.ts as events; Discovery/Invariant,
--                        Discovery/Attempts and Discovery/Tests are its theorems and examples.
--   Transfer             src/core/app/session-transfer-progress.ts; Transfer/Invariant,
--                        Transfer/Monotone and Transfer/Tests are its theorems and examples.
--   Locks/LockFile       `acquireFileLock` of src/core/locks/locks.ts, `reclaimStale` and the release, for
--                        any number of processes, one file operation to a move; Locks/Ownership has the
--                        steps and the invariant, Locks/Places and Locks/Exclusion that every step keeps it.
--   Locks/Acquire        the loop of one acquisition.
--   Locks/Mutex          `enqueue` as the chain of promises that its calls make; Mutex/Turns has its
--                        invariant.
--   Routing              src/core/proxy/routing.ts; Routing/Safety says where credentials go.
--   Socks/Stream         `readExact` of src/core/proxy/socks-relay.ts over a socket's chunks.
--   Socks/Conn           one client's connection, and methods that work on it.
--   Socks/Login          `credential`, the constructor and the login message; Socks/Login/Parse reads
--                        the message back.
--   Socks/Relay          `readAddress`, `handleClient`; Relay/Alike and Relay/Chunks compare inputs that
--                        are cut differently, Relay/Allowed and Relay/Safety say what may be sent when,
--                        Relay/Reads and Relay/Relays follow a connection that succeeds.
--   Socks/Tunnel         `tunnel` as events. Socks/Server  `start`, `close` and the workers.
--   Cdp/Message          `validate` of src/core/cdp/relay.ts. Cdp/State has the state of one client.
--   Cdp/Client           Its mappings and tombstones, and `closeClient`; Client/Mapped says what
--                        `updateMappings` leaves alone.
--   Cdp/Relay            `handleClientMessage`, `runInput` and `handleUpstreamMessage` as events;
--                        Relay/Answers and Relay/Order follow the inputs to their answers, and
--                        Relay/Closed a client that is closed.
--   Archive/Names        `normalizeName` of src/core/archive/archive.ts; Names/Paths has the parts of a path,
--                        Names/Safety where an accepted name leads, Names/Again the check done twice.
--   Archive/Limits       `validateArchiveLimits` and the tests on a name and on an entry's attributes.
--   Archive/Bytes        The bytes of an archive, its end, and one record of its directory.
--   Archive/Directory    `readCentralDirectory`; Directory/Ends, Directory/Entries and Directory/Sound follow
--                        its loop to the end.
--   Attention/Channels   src/core/attention/service.ts: the request, the channels and the result.
--                        Attention/Service has `createAttentionService` as
--                        events, Service/Spacing and Service/Closed what holds of every run.
--   */Tests              small runs, and the theorems at them.
--
-- The correspondence. A method of the coordinator is a function by clauses or a do block with the
-- method's words (`stopLocked` is `stop_locked`), cut where the method branches, so that each part
-- is a few lines of the source. A recovery state is a record with the file's fields; `materialized`
-- is its `archive_materialized`. Each await of code outside the coordinator is an `Effect` on the
-- trace, with the recovery files as they stood: what a crash at that moment leaves. Its answer is a
-- function of the whole trace, so it may differ from call to call, fail, or lie. An atomic write
-- may fail before or after the file is replaced, and the crash injector is a call that may fail.
-- Several removals under one `Promise.all` are all made, and the first error is thrown. Only the
-- loop of `readCentralDirectory` has fuel, one unit to a byte of the directory, which is enough
-- since a record takes 46 bytes or more. The one loop of the coordinator, in `recover`, leaves its
-- body on every path, and is written so. The loops of `readExact` and `acquireFileLock` are
-- recursions on what they are given, the chunks that a socket delivers and what each round meets. A
-- class whose code waits for others (the discovery cache, the attention service, the tunnel, the
-- relays, the queue of a lock) is a function of events, one for each piece of code between two
-- awaits, and a run is a list of events. In the relay an action on a socket is an `Action`; the
-- client's and the upstream's bytes are inputs; what the client sends between the read of its request
-- and the tunnel is lost, so what it sends later is an input of its own.
--
-- Bounds. Counts, sizes, times and process numbers are naturals, without the limit at 2^53 that
-- zod's integers have; the progress store tests that limit, and its model does. A text's length
-- counts UTF-16 units.
--
-- Not modelled. Two methods at once: the transition locks of src/core/locks admit one method at a
-- time (Locks says when), so a history is a sequence of whole methods; taking a lock is a call that
-- may fail. The constructor's defaults, timing marks, and progress callbacks. What is behind the
-- calls: the API client, the archive and its cache, the runner, the process table, the license
-- relay, Node's paths and hashes; they are fields of `Env`, and no theorem assumes more of them
-- than it says. What Node does behind a socket, an address test or a URL is an input too. Of the
-- CDP relay the HTTP server with its token and upgrade, the reading of timeouts and the stop of the
-- whole server are left out, and its outgoing buffers are a send that may fail. Of the archive,
-- packing and unpacking are left out: they walk directories and stream through a ZIP library. The
-- tables by which the runtime changes the case of letters, and its UTF-8 decoder, are arguments.
-- The other parts of the client (the binary manager, the API client, the MCP server, the user
-- interface) are outside this library.
pub mod Prelude
pub mod Json
pub mod Recovery
pub mod Coordinator
pub mod Transfer
pub mod Discovery
pub mod Routing
pub mod Socks
pub mod Locks
pub mod Attention
pub mod Cdp
pub mod Archive
