-- ===== src/Service/Pair.antt =====
-- src/api/pairing.rs: carrying messages between two devices that are pairing. A read that waits is its
-- two looks at the session, with what happened in between as an argument.
use uw_ussh_server.Prelude.{
  ℕ, ◌+◌, Bool, not, ◌&&◌, List, map, Option, none, some, String, ◌==◌, nat_eq, if◌then◌else◌,
  length, is_empty,
}
use uw_ussh_server.Prelude.Text.{Text}
use uw_ussh_server.Error.{Result, ok, err, invalid, not_found}
use uw_ussh_server.Config.{Config}
use uw_ussh_server.Limits as Limits
use uw_ussh_server.Pairing.{Pairings, Side, a, b}
use uw_ussh_server.Pairing as Pairing
use uw_ussh_server.Service.{
  Server, Crates, Caller, Clock, Action, give, ◌>>=◌, ◌>>◌, modify, of_result, or_raise, raise_if,
  check, check_account, authenticated, who,
}

-- `PairOpened` and `PairMessages`; `PairMessage` is a side and a message.
pub record Opened : Type 0 where
  pub id : Text
  pub expires_ms : ℕ

pub record Messages : Type 0 where
  pub messages : List Text
  pub next : ℕ

pub record ReadQuery : Type 0 where
  pub side : String
  pub after : ℕ
  pub wait : Bool

-- A call on the relay.
unfoldable pub relay {ℓ} : {A : Type ℓ} → (Pairings → Result A × Pairings) → Action A
relay f s = let (r, pairings) = f s.pairings in (r, record s { pairings = pairings })

-- Of `Pairings::open` with the draws it makes; with no draw left there is no answer yet.
unfoldable pub open_session : ℕ → List (List ℕ) → ℕ → ℕ → Action (Option Text)
open_session now draws account device s =
    let (r, pairings) = Pairing.open_session now draws account device s.pairings in
    (
      elim r [ none ↦ ok none | some (ok id) ↦ ok (some id) | some (err e) ↦ err e ],
      record s { pairings = pairings },
    )

abbrev pub opened : ℕ → Option Text → Option Opened
opened now none = none
opened now (some id) = some (record { id = id; expires_ms = now + Pairing.ttl_ms })

unfoldable pub close : Clock → Caller → Text → Action (Unit {0})
close clock caller id = do
  auth ← authenticated (clock.ms 0) caller.bearer
  account ← relay (Pairing.account_of (clock.ms 1) id)
  raise_if (not (account == auth.account.id)) not_found
  modify (λ s. record s { pairings = (Pairing.close id s.pairings).1 })

module _ (crates : Crates) where
  unfoldable pub open_pairing : Clock → List (List ℕ) → Caller → Action (Option Opened)
  unfolding open_session
  open_pairing clock draws caller = do
    auth ← authenticated (clock.ms 0) caller.bearer
    check_account crates (clock.instant 0) auth.account.id Limits.joins
    id ← open_session (clock.ms 1) draws auth.account.id auth.device.id
    give (opened (clock.ms 2) id)

  -- Whether a request may speak for a side.
  unfoldable pub admit : Clock → Caller → Text → Side → Action (Unit {0})
  admit clock caller id a = do
    auth ← authenticated (clock.ms 0) caller.bearer
    relay (Pairing.admit crates.sha256 (clock.ms 1) id a (some auth.device.id) none)
  admit clock caller id b = relay (Pairing.admit crates.sha256 (clock.ms 1) id b none caller.claim)

  unfoldable pub post : Config → Clock → Caller → Text → Result (String × Text) → Action (Unit {0})
  unfolding admit relay
  post config clock caller id body = do
    check (clock.instant 0) (who crates config caller) Limits.pair
    request ← of_result body
    side ← or_raise (Pairing.parse request.0) (invalid "a side")
    admit clock caller id side
    message ← or_raise (crates.decode request.1) (invalid "a message")
    relay (Pairing.post (clock.ms 2) id side message)

  -- The second look, after what others did while the request waited.
  unfoldable pub look_again :
      (Server → Server) → ℕ → Text → Side → ReadQuery → List (List ℕ) → Action (List (List ℕ))
  unfolding relay
  look_again meanwhile now id side query messages =
      if is_empty messages && query.wait
      then (do modify meanwhile; relay (Pairing.read now id side query.after))
      else give messages

  unfoldable pub read :
      Config → Clock → (Server → Server) → Caller → Text → ReadQuery → Action Messages
  unfolding admit relay look_again
  read config clock meanwhile caller id query = do
    check (clock.instant 0) (who crates config caller) Limits.pair
    side ← or_raise (Pairing.parse query.side) (invalid "a side")
    admit clock caller id side
    relay (Pairing.waiter (clock.ms 2) id)
    first ← relay (Pairing.read (clock.ms 3) id side query.after)
    messages ← look_again meanwhile (clock.ms 4) id side query first
    give (record { next = query.after + length messages; messages = map crates.encode messages })
