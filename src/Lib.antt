-- ===== src/Lib.antt =====
-- A verification of segmented-memory-storage, a server that keeps append-only logs, lists and keys
-- in memory, and of the client that speaks its protocol.
--
-- A log (server/src/db/seg_log.rs) keeps its entries one after the other in 64 KB segments of raw
-- memory and finds them by a sorted index from ids to places. A list store
-- (server/src/db/seg_list.rs) keeps one item per segment, a vector of segments per key, and a pool
-- of free segments that all keys share. A group (server/src/db/groups.rs) is a log behind a cache
-- (server/src/db/lru.rs). A store of keys (server/src/db/kv.rs) keeps entries with a deadline in
-- named databases and evicts the least used. The database (server/src/db/db.rs) calls the three
-- stores, sends each change to the append-only file (server/src/db/aof.rs) and to the replication
-- (server/src/ha.rs), and replays the file at its start. Pipelines (server/src/db/pipeline.rs) run
-- several changes as one job, under locks. A connection carries frames behind a length, which
-- the codec (server/src/server/codec.rs) cuts off; a frame is parsed into a command and its answer
-- is built (server/src/server/proto.rs); in between the server calls the database
-- (server/src/server/server.rs). The client (client/src/client/client.rs) and other servers
-- (server/src/ha.rs) build the frames. In front of the client stand HTTP handlers
-- (client/src/api/handlers.rs), each of which takes a connection from a pool
-- (client/src/client/pool.rs).
--
-- Files:
--   Common            lists, Booleans, bytes, maps, texts, and how a call ends: `Outcome` (a result, an
--                     error, a panic) and `Action` (a method on `&mut self`, whose state comes back
--                     after an error too)
--   Segment           raw segments: copies in and out, with the bounds checked
--   SegLog.Entry      the bytes of an entry: the copies inside `append` and `read`
--   SegLog.State      `SegLog`, `EntryLoc`, `LogEntry`, `LogError`
--   SegLog.Ops        `new`, `allocate_seg`, `append` (as `roll_over` and `store`), `read`,
--                     `read_range`, `trim` (as `remove_ids`, `zero_dead`), `get_raw_entry_slice`
--   SegLog.Stored     what it is for a log to hold a list of entries
--   SegLog.Layout, Placed, Append, Read, Trim, Failure, History, Examples   the proofs, by operation
--   SegList.State     `SegList`, with the heap its pointers lead into
--   SegList.Ops       `new`, `push`, `pop`, `push_range`, `pop_count`, `pop_range`, `list_len`, `flush`,
--                     `grow_segs`
--   SegList.Owned, Payload, View, Carried   every segment has one owner; what it is for the store to
--                     hold a queue per key
--   SegList.Pops, Counts, Grows, Pushes, Batches, Examples   the proofs, by operation
--   Kv.State          `DBEntry`, `DB`, `KvStore`
--   Kv.Database       the methods of `DB`, among them `expire_least_used`
--   Kv.Ops            the methods of `KvStore`
--   Kv.Views, Evicts, LeastUsed, Examples   the proofs
--   Lru.State, Ops    `LRU`: its slots, links and methods
--   Lru.Links, Recent, Represented   the nodes that the links spell, the list in the order of use, and
--                     what it is for a cache to hold it
--   Lru.Detached, Attached, Used, Freed, Allocated, Added   the proofs about the links and the slots
--   Lru.Methods, Refines, Inserts, Runs   the methods, and calls of them, against the list
--   Groups.State, Ops   `GroupManager`: a log and a cache per group
--   Groups.Backed, Dropped, Coherent, Cached, Written, Window, Ranged, Runs   what is cached against what
--                     is in the log, and calls of the methods against a list of entries
--   Lru.Examples, Groups.Examples   runs of both
--   Proto.Command     tags, `Command`, `ParseError`
--   Proto.Cursor      `Cursor` and its readers
--   Proto.Parse       `parse_command`, its `match` in four groups of arms
--   Proto.Responses   `ResponseBuilder`
--   Proto.Codec       `LengthPrefixCodec`
--   Proto.Reads, SafeReads, Safe, Examples   rules for the readers, and the proofs
--   Client.Frames     the frame of each method of `Client`, and those of the replication
--   Client.Replies    what the methods of `Client` read of a response
--   Client.Sent, Misrouted, Answered, Examples   the proofs
--   Aof.Entry         `AofEntry` and its categories
--   Aof.Base64        `to_base64`, `from_base64`
--   Aof.Load          `aof_worker`, `load_aof`, `load_aof_separated`, over the lines of the file
--   Aof.Decoded, Loaded, Examples   the proofs
--   Db.State          `DB`, `DBError`, and what a call asks of its surroundings
--   Db.Calls, Ops     the methods of `DB`: a call of a store, the entry to the file and to the
--                     replication
--   Db.Apply          the function `apply_aof` and the method `DB::apply_aof`
--   Db.Replay         the three tasks of `load_and_apply`, turn by turn
--   Db.Client         whatever clients call of `DB`, one call after another
--   Db.Logged, Turns, Scheduled, Sequence, Recovered, Restart, Synced, Examples   the proofs: what
--                     is logged; the tasks against each store on its own; that they end; against the
--                     entries in order; a restart with the same answers of the clock; a follower
--   Db.Kept, Finished, Lists   the lists after any calls, and after a restart at any other time
--   Pipeline.Command, Lock, Execute, Manager   the builder, `LockState` and the queue, `execute_job`,
--                     `PipelineManager`
--   Pipeline.System   the tasks of `PipelineManager::new` as a step relation
--   Pipeline.Free, Safety, Exclusion, Serial, Order, Blocked, LostWakeup, Examples   the proofs: what
--                     the locks count, the invariant of the steps, the database as jobs in
--                     sequence, the order of the queue, and two ways in which a job is left waiting
--   Ha.State, Ops, Heartbeats, Examples   `HaManager`, and proofs on its heartbeats
--   Server.Messages, Handle   the texts of errors, `handle_command`, and a frame of a connection
--   Conf              the configuration and its defaults (server/src/conf.rs)
--   Startup.Main, Events, Unsent, Examples   `main` of the server, and the events of its changes with
--                     the one call of `start`, registrations and heartbeats: what becomes of them
--   Api.Json          `serde_json::Value`, as the handlers look into it
--   Api.Http, Payload, GroupHandlers, KvHandlers, ListHandlers   the handlers of the front end
--                     (client/src/api/handlers.rs) over an interface to the pool and the connection
--   Api.Request, Router   the requests, each with its handler, and the table of routes
--                     (client/src/api/router.rs)
--   Api.Wire          the interface with the server behind it
--   Api.Sends, Statuses, Served, Stored, Unpopped, Examples   the proofs: what each request sends,
--                     the responses to failures, requests that the server answers, and a key set and
--                     got by a client over a connection
--   Pool.State, Ops, System   `ClientPool`, and its callers and tasks as a step relation
--                     (client/src/client/pool.rs)
--   Pool.Acquired, Owned, Outage, Examples   the proofs: a call of `acquire`, the one owner of a
--                     client, and an outage without recovery
--   Server.Stored, Replicated, Queued, Examples   proofs from the client's frame to its reply, from a
--                     master's frame to the follower's stores, and from a push to a pop
--
-- Conventions. A segment is a function from offsets to bytes, and an access outside its 64 KB,
-- which is undefined behaviour in the source, ends a call like a panic. Integers of 64 bits wrap
-- as in a release build, which the makefile makes. Whether `alloc_zeroed` gives memory is a
-- parameter of the calls that allocate; the readings of the clock and the order in which a map is
-- gone through are parameters of the calls that need them, as is the hash of a name and an id.
-- Pointers of a list are numbers in the order of allocation. A `HashMap` is an association list, a
-- `BTreeMap` one in ascending order, a text its UTF-8 bytes. Loops are recursion on the list they
-- go through or on their count, so no fuel is used. `std::str::from_utf8` is written out;
-- `String::from_utf8_lossy` is a parameter that leaves UTF-8 as it is. The buffer of a connection
-- is the list of its bytes.
--
-- A lock around a store is held for one call, so a call is one step; where several tasks run, their
-- turns are explicit: the three tasks of a replay take an entry at a time, and the steps of the
-- pipelines are those between which the runtime can switch. A task of the replay ends when it has
-- had as many turns as entries. `serde_json`, `str::trim` and the network are parameters of the
-- calls that use them.
--
-- A caller of the HTTP front end is a value of `Api.Request.Request`, as axum gives it to a handler.
-- Between the pool's steps a task may be switched at every wait; a wait for the channel keeps the
-- lock of the receiver, as in the source.
--
-- Where the model is coarser than the code: a call reads the clock of the cache once, also where
-- `read_range` of a group reads it for each id, and Db.Replay.turns has one reading for all turns
-- (Db.Lists.turns_at has one for each). A job of a pipeline is one step, with one reading, and other
-- writers of the database are no steps there. A call of the pool goes over the clients that are at hand
-- in one step, and a caller that waits is not cancelled. The match on `acquire` that each handler
-- repeats is one definition. `get_aof_copy` is a field of the network that replication calls. The sum
-- of an `Instant` and a lifetime, and the capacity that a count asks for in `with_capacity`, do not
-- overflow, but for the one that `read_range` of a group computes.
--
-- Not modelled: deallocation, floats and printing; sockets and the opening and reading of files; axum,
-- which finds the handler of a path and reads its body; the start of the client's process, which
-- reads the environment and hands the router over.
pub mod Common
pub mod Conf
pub mod Segment
pub mod SegLog
pub mod SegList
pub mod Pool
pub mod Proto
pub mod Client
pub mod Kv
pub mod Lru
pub mod Groups
pub mod Aof
pub mod Api
pub mod Db
pub mod Pipeline
pub mod Ha
pub mod Server
pub mod Startup
