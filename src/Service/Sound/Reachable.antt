-- ===== src/Service/Sound/Reachable.antt =====
-- src/api and src/state.rs: a server that was started on a sound database is sound after any requests.
use uw_ussh_server.Prelude.{ℕ, ◌≤◌, [], length, arith, retain, false}
use uw_ussh_server.Config.{Config}
use uw_ussh_server.Db.Tables.{Db}
use uw_ussh_server.Db.Records.{Proto}
use uw_ussh_server.Db.Records.Counts.{IsCounted}
use uw_ussh_server.Auth.Sessions.{empty-IsLinked, sweep-IsLinked}
use uw_ussh_server.Auth as Auth
use uw_ussh_server.Upkeep.{purge, purge-IsCounted, length-purge}
use uw_ussh_server.Pairing.Bounds.{IsBounded}
use uw_ussh_server.Service.{Server, Crates, new_server}
use uw_ussh_server.Service.Mail.{close_stream}
use uw_ussh_server.Service.Proofs.{Keeps}
use uw_ussh_server.Service.Sound.{IsSound}
use uw_ussh_server.Service.Sound.Handlers.{
  IsNew, create-Sound, vault-Keeps, vault_params-Keeps, change_password-Keeps,
}
use uw_ussh_server.Service.Sound.Routes.{
  challenge-Keeps, login-Keeps, list-Keeps, invite-Keeps, enrol-Keeps, revoke-Keeps,
}
use uw_ussh_server.Service.Sound.Requests.{
  pull-Keeps, push-Keeps, finish-Keeps, events-Keeps, open_pairing-Keeps, post-Keeps, close-Keeps,
  look-Keeps, read-Keeps,
}
use uw_ussh_server.Service.Serve.{
  Request, creates, asks_vault, asks_params, changes_password, asks_challenge, logs_in, pulls,
  pushes, lists, invites, enrols, revokes, opens_pairing, posts, closes, listens, reads,
  looks_again, ends_pull, ends_stream, sweeps, tidies, serve,
}

close_stream-Keeps : (config : Config) (device : ℕ) → Keeps (IsSound config) (close_stream device)
unfolding close_stream IsSound
close_stream-Keeps config device s h = h

sweeps-IsSound :
    (config : Config) (now : ℕ) (s : Server)
    → IsSound config s
    → IsSound config (record s { tokens = (Auth.sweep now s.tokens).1 })
unfolding IsSound
sweeps-IsSound config now s h = (h.0, h.1, sweep-IsLinked now s.tokens h.2, h.3, h.4, h.5)

tidies-IsSound :
    (config : Config) (clock : ℕ → ℕ) (s : Server)
    → IsSound config s
    → IsSound config (record s { db = purge clock s.db })
unfolding IsSound
tidies-IsSound config clock s h =
    (purge-IsCounted clock s.db h.0, rw (length-purge clock s.db) h.1, h.2, h.3, h.4, h.5)

module _ {Kind : Type 0} (proto : Proto Kind) (crates : Crates) (config : Config) where
  -- An id that is drawn for an account is one that no record has.
  abbrev pub IsFresh : Request Kind → Server → Type 0
  IsFresh (creates clock account device token caller body) s = IsNew crates config account s
  IsFresh _ s = Unit

  pub data Reaches (start : Server) : Server → Type 0 where
    here : Reaches start start
    answers :
        {s : Server} (request : Request Kind)
        → Reaches start s
        → IsFresh request s
        → Reaches start (serve proto crates config request s)

  pub serve-IsSound :
      (request : Request Kind) (s : Server)
      → IsFresh request s
      → IsSound config s
      → IsSound config (serve proto crates config request s)
  unfolding serve
  serve-IsSound (creates clock account device token caller body) s new h =
      create-Sound crates config clock account device token caller body s (h, new)
  serve-IsSound (asks_vault clock caller) s _ h = vault-Keeps crates config clock caller s h
  serve-IsSound (asks_params clock caller body) s _ h =
      vault_params-Keeps crates config clock caller body s h
  serve-IsSound (changes_password clock caller body) s _ h =
      change_password-Keeps crates config clock caller body s h
  serve-IsSound (asks_challenge clock drawn caller body) s _ h =
      challenge-Keeps crates config clock drawn caller body s h
  serve-IsSound (logs_in clock token caller body) s _ h =
      login-Keeps crates config clock token caller body s h
  serve-IsSound (pulls clock caller query) s _ h =
      pull-Keeps crates config proto clock caller query s h
  serve-IsSound (pushes clock caller body) s _ h =
      push-Keeps crates config proto clock caller body s h
  serve-IsSound (lists clock caller) s _ h = list-Keeps crates config clock caller s h
  serve-IsSound (invites clock drawn caller) s _ h =
      invite-Keeps crates config clock drawn caller s h
  serve-IsSound (enrols clock device token caller body) s _ h =
      enrol-Keeps crates config clock device token caller body s h
  serve-IsSound (revokes clock caller id body) s _ h =
      revoke-Keeps crates config proto clock caller id body s h
  serve-IsSound (opens_pairing clock draws caller) s _ h =
      open_pairing-Keeps crates config clock draws caller s h
  serve-IsSound (posts clock caller id body) s _ h =
      post-Keeps crates config clock caller id body s h
  serve-IsSound (closes clock caller id) s _ h = close-Keeps crates config clock caller id s h
  serve-IsSound (listens clock caller) s _ h = events-Keeps crates config clock caller s h
  serve-IsSound (reads clock caller id query) s _ h =
      read-Keeps crates config clock (λ r. r) caller id (record query { wait = false }) (λ t k. k) s
        h
  serve-IsSound (looks_again now id side after) s _ h =
      look-Keeps crates config now id side after s h
  serve-IsSound (ends_pull place) s _ h = finish-Keeps crates config proto place s h
  serve-IsSound (ends_stream device) s _ h = close_stream-Keeps config device s h
  serve-IsSound (sweeps now) s _ h = sweeps-IsSound config now s h
  serve-IsSound (tidies clock) s _ h = tidies-IsSound config clock s h

  empty-IsBounded : IsBounded []
  unfolding retain
  empty-IsBounded = record {
    keyed = tt;
    few = omega arith;
    fair = λ account. omega arith;
    short = tt;
  }

  new_server-IsSound :
      (now : ℕ) (db : Db)
      → IsCounted db
      → length db.accounts ≤ config.max_accounts
      → IsSound config (new_server now db)
  unfolding IsSound
  new_server-IsSound now db counted few =
      (counted, few, empty-IsLinked, (tt, tt), tt, empty-IsBounded)

  Reaches-IsSound : (start s : Server) → IsSound config start → Reaches start s → IsSound config s
  Reaches-IsSound start s h here = h
  Reaches-IsSound start s h (answers {s = t} request before fresh) =
      serve-IsSound request t fresh (Reaches-IsSound start t h before)

  -- From a server that is started on a database where the counters of the accounts agree with
  -- their records, with no more accounts than it takes: after any requests, in any order and at
  -- any times, in which a new account has an id that no record has, the counters agree, there are
  -- no more accounts than the server takes, the tables of tokens are in step, no device has more
  -- challenges than it may, and the tables of the limiter and the relay are within their bounds.
  pub started-IsSound :
      (now : ℕ) (db : Db) (s : Server)
      → IsCounted db
      → length db.accounts ≤ config.max_accounts
      → Reaches (new_server now db) s
      → IsSound config s
  started-IsSound now db s counted few =
      Reaches-IsSound (new_server now db) s (new_server-IsSound now db counted few)
