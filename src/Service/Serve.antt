-- ===== src/Service/Serve.antt =====
-- src/api/mod.rs and src/main.rs: the requests that the routes lead to and the maintenance, one after
-- the other.
use uw_ussh_server.Prelude.{ℕ, List, Option, false, String}
use uw_ussh_server.Prelude.Text.{Text}
use uw_ussh_server.Error.{Result}
use uw_ussh_server.Config.{Config}
use uw_ussh_server.Db.Records.{Proto}
use uw_ussh_server.Service.{Server, Crates, Caller, Clock, finish}
use uw_ussh_server.Auth as Auth
use uw_ussh_server.Upkeep.{purge}
use uw_ussh_server.Service.Vault.{
  CreateAccount, ChangePassword, create, vault, vault_params, change_password,
}
use uw_ussh_server.Service.Joins.{EnrolRequest, list, invite, enrol, revoke}
use uw_ussh_server.Service.SignIn.{LoginRequest, challenge, login}
use uw_ussh_server.Service.Mail.{PullQuery, PushRequest, pull, push, events, close_stream}
use uw_ussh_server.Service.Pair.{ReadQuery, open_pairing, post, close, read, relay}
use uw_ussh_server.Pairing.{Side}
use uw_ussh_server.Pairing as Pairing

-- With what is drawn for it, what it comes with, and its body.
pub data Request (Kind : Type 0) : Type 0 where
  creates : Clock → ℕ → ℕ → String → Caller → Result CreateAccount → Request Kind
  asks_vault : Clock → Caller → Request Kind
  asks_params : Clock → Caller → Result Text → Request Kind
  changes_password : Clock → Caller → Result ChangePassword → Request Kind
  asks_challenge : Clock → List ℕ → Caller → Result ℕ → Request Kind
  logs_in : Clock → String → Caller → Result LoginRequest → Request Kind
  pulls : Clock → Caller → PullQuery → Request Kind
  pushes : Clock → Caller → Result (PushRequest Kind) → Request Kind
  lists : Clock → Caller → Request Kind
  invites : Clock → Text → Caller → Request Kind
  enrols : Clock → ℕ → String → Caller → Result EnrolRequest → Request Kind
  revokes : Clock → Caller → ℕ → Result (Option Text) → Request Kind
  opens_pairing : Clock → List (List ℕ) → Caller → Request Kind
  posts : Clock → Caller → Text → Result (String × Text) → Request Kind
  closes : Clock → Caller → Text → Request Kind
  listens : Clock → Caller → Request Kind
  -- A read that waits is the first look, and the second at the end of the wait.
  reads : Clock → Caller → Text → ReadQuery → Request Kind
  looks_again : ℕ → Text → Side → ℕ → Request Kind
  -- A page was read to its end, or a stream of events ended.
  ends_pull : ℕ × String → Request Kind
  ends_stream : ℕ → Request Kind
  -- Every five minutes, and once a day.
  sweeps : ℕ → Request Kind
  tidies : (ℕ → ℕ) → Request Kind

module _ {Kind : Type 0} (proto : Proto Kind) (crates : Crates) (config : Config) where
  unfoldable pub serve : Request Kind → Server → Server
  serve (creates clock account device token caller body) s =
      (create crates config clock account device token caller body s).1
  serve (asks_vault clock caller) s = (vault crates config clock caller s).1
  serve (asks_params clock caller body) s = (vault_params crates config clock caller body s).1
  serve (changes_password clock caller body) s =
      (change_password crates config clock caller body s).1
  serve (asks_challenge clock drawn caller body) s =
      (challenge crates config clock drawn caller body s).1
  serve (logs_in clock token caller body) s = (login crates config clock token caller body s).1
  serve (pulls clock caller query) s = (pull proto crates clock caller query s).1
  serve (pushes clock caller body) s = (push proto crates config clock caller body s).1
  serve (lists clock caller) s = (list clock caller s).1
  serve (invites clock drawn caller) s = (invite crates clock drawn caller s).1
  serve (enrols clock device token caller body) s =
      (enrol crates config clock device token caller body s).1
  serve (revokes clock caller id body) s = (revoke crates proto clock caller id body s).1
  serve (opens_pairing clock draws caller) s = (open_pairing crates clock draws caller s).1
  serve (posts clock caller id body) s = (post crates config clock caller id body s).1
  serve (closes clock caller id) s = (close clock caller id s).1
  serve (listens clock caller) s = (events clock caller s).1
  serve (reads clock caller id query) s =
      (read crates config clock (λ r. r) caller id (record query { wait = false }) s).1
  serve (looks_again now id side after) s = (relay (Pairing.read now id side after) s).1
  serve (ends_pull place) s = (finish place s).1
  serve (ends_stream device) s = (close_stream device s).1
  serve (sweeps now) s = record s { tokens = (Auth.sweep now s.tokens).1 }
  serve (tidies clock) s = record s { db = purge clock s.db }
