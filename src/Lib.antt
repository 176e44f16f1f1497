-- ===== src/Lib.antt =====
-- UwUSSH-Server: a server that devices of one account sync sealed records through.
--
-- The program. A device signs a challenge and gets a token (src/auth.rs, src/api/session.rs); with it it
-- pushes records and pulls what is new (src/db/records.rs, src/api/records.rs), each record under the
-- next number of its account. New accounts and new devices come with codes (src/db/invites.rs,
-- src/api/accounts.rs, src/api/devices.rs), two devices pair over a relay (src/pairing.rs,
-- src/api/pairing.rs), and what anybody may try, start or hold open is counted (src/limits.rs,
-- src/connections.rs, src/state.rs). The handlers of src/api put these together, on the state that
-- src/state.rs holds; src/config.rs says what an instance allows, src/updates.rs whether there is a newer
-- release, and src/main.rs lets the server forget as it goes on.
--
-- The files, with the code that each models:
--   Prelude         Boolean tests on numbers, lists, hash maps as association lists, integers, texts as
--                   lists of characters, and numerals, as the standard library of Rust has them
--   Error           src/error.rs: ApiError, Result, ApiError::code
--   Secrets         src/lib.rs and src/db/mod.rs: CODE_ALPHABET, constant_time_eq
--   Address         src/state.rs and src/limits.rs: client_key, network, with the child Network for its
--                   theorems
--   Db.Tables       src/db/mod.rs: the tables of schema 3 (Updates: what an UPDATE leaves)
--   Db.Records      src/db/records.rs: push_within, pull, get, purge_tombstones, drop_manifests_of,
--                   usage. Its children prove: Counts (the counters of an account), Room (quotas),
--                   Numbers (sequence numbers), Answers (what a push answers), Mailbox (an abstract
--                   mailbox), Order and Pages (what a page holds), Pull (a device that pulls)
--   Db.Restore      src/db/mod.rs: carry_numbers_forward
--   Db.Accounts     src/db/accounts.rs
--   Db.Devices      src/db/devices.rs
--   Db.Invites      src/db/invites.rs: invites and enrolment tokens
--   Limits          src/limits.rs: RateLimiter. Its children: Ledger (one who tries against the ledger
--                   of all tries), Members, Window and History (a history of tries), Tables (memory),
--                   Concurrent (RateLimiter::start and Drop for Going)
--   Pairing         src/pairing.rs: Pairings. Its children: Bounds and Requests (how large it gets),
--                   Messages (what is read), Claims (who may speak)
--   Auth            src/auth.rs: Challenges and Sessions, each with a child for its theorems
--                   (Held: the loops over a device's tokens), and authenticate in the child Access
--   Gate            src/connections.rs: Gate and Admitted (Room: what they count), and in Idle Activity,
--                   Answering and Guarded (Cuts: which connections are ended)
--   Events          src/state.rs: Events and StreamGuard
--   Service         src/state.rs and src/api/mod.rs: AppState and the steps that handlers share. The
--                   handlers: Vault (src/api/accounts.rs), Joins (src/api/devices.rs), SignIn
--                   (src/api/session.rs), Mail (src/api/records.rs), Pair (src/api/pairing.rs), and all of
--                   them as one step, Serve. The theorems: Sound and its children (what every request
--                   keeps), Revoked, SignedIn, Joined, Pushed, Taken; Proofs has the rules for composed steps
--   Config          src/config.rs: the settings one by one; Settings has Config::from_env, Names,
--                   Reads, Decided and Agrees its theorems
--   Updates         src/updates.rs: parse_version, newest_release (Versions, Best and Newest: its theorems)
--   Upkeep          src/main.rs: purge
--   Examples        the theorems at concrete inputs
--
-- State and operations. A table of SQLite is a list of rows and a statement a function on it; a map
-- behind a lock is an association list, and each call under the lock a function from the map to the
-- answer and the map. A call reads the clock once, as the number `now`. Ids are numbers; random bytes
-- and the ids and tokens made of them are arguments. Numbers are unbounded, where the source has 64
-- bits; the casts of the counters from i64 to u64 and of a cursor from u64 to i64 are written out. The
-- life of a token, a configured number of seconds times 1000, is taken to fit.
--
-- A handler is an action: from the state of the server to its answer, an error included, and the state
-- after it. It reads a clock several times, and each reading has its own time (`Clock`). It runs from
-- its first step to its last with no other handler in between, except where it waits: a read that waits
-- for a message looks twice, with an argument for what happened meanwhile. A page that is still read
-- and a stream that is open are ended by requests of their own. `Service.Serve.serve` is one request or
-- one turn of the maintenance.
--
-- Not from the repository, hence parameters: the crate uwussh_proto (record kinds and the limits of
-- the wire, the record `Proto`), base64, SHA-256, signatures, the text of a UUID and the reading of an
-- IP address (the record `Crates`), and for the configuration how the address of a socket is read and
-- shown and how paths are put together and looked up, and for a connection when a sleep is over.
--
-- Loops and fuel. Loops are recursion on the list they go through. `Pairings::open` draws codes until
-- one is free: its model takes the codes it will draw, and answers with nothing when they run out. A
-- device that pulls until there is no more (`drain`) has as fuel the number of its pulls; more pulls
-- than there are rows are enough.
--
-- Not modelled: what the framework does around a handler (routes, deadlines, size of a body, reading a
-- body), the task behind a stream of events, the requests to GitHub, the command line and backups,
-- TLS, the health check, the files of a restore, how hyper drives a connection, what is written into
-- the log, failures of SQLite other than a missing account row, and the SQL engine itself. The limiter
-- takes the clock before its lock: the theorems on a history are for clocks that do not run backwards
-- in the order of the lock.
pub mod Prelude
pub mod Error
pub mod Secrets
pub mod Db
pub mod Address
pub mod Config
pub mod Limits
pub mod Pairing
pub mod Auth
pub mod Gate
pub mod Events
pub mod Service
pub mod Updates
pub mod Upkeep
pub mod Examples
