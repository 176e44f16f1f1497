-- ===== src/Service/Mail.antt =====
-- src/api/records.rs: take records, hand records back, and say when there is news. Of a stream of events
-- the model has the place it takes and the listener it adds; carrying the news is the runtime's.
use uw_ussh_server.Prelude.{
  ℕ, Bool, true, false, not, ◌&&◌, List, Option, none, some, String, ◌==◌, nat_eq, if◌then◌else◌,
  min, is_empty,
}
use uw_ussh_server.Error.{Result, ok, schema, rate_limited}
use uw_ussh_server.Config.{Config}
use uw_ussh_server.Db.Records.{Proto, Account, Envelope, PushResponse, PullResponse, Quota}
use uw_ussh_server.Db.Records as Records
use uw_ussh_server.Db.Devices as Devices
use uw_ussh_server.Limits as Limits
use uw_ussh_server.Auth as Auth
use uw_ussh_server.Events as Events
use uw_ussh_server.Service.{
  Server, Crates, Caller, Clock, Action, give, ◌>>=◌, ◌>>◌, gets, modify, of_result, or_raise,
  raise_if, check_account, authenticated, start, finish,
}
use uw_ussh_server.Service.SignIn.{seen, is_known}
use uw_ussh_server.Service.SignIn as SignIn

pub record PullQuery : Type 0 where
  pub since : ℕ
  pub limit : Option ℕ
  pub manifests : ℕ

pub record PushRequest (Kind : Type 0) : Type 0 where
  pub schema : ℕ
  pub envelopes : List (Envelope Kind)

abbrev pub limit_or : ℕ → Option ℕ → ℕ
limit_or most none = most
limit_or most (some limit) = limit

unfoldable pub announce : ℕ → ℕ → Action (Unit {0})
announce account seq = modify (λ s. record s { channels = Events.announce account seq s.channels })

unfoldable pub open_stream : ℕ → Action (Option ℕ)
open_stream device s =
    let (place, streams) = Events.open_stream device s.streams in
    (ok place, record s { streams = streams })

unfoldable pub close_stream : ℕ → Action (Unit {0})
close_stream device = modify (λ s. record s { streams = Events.close_stream device s.streams })

unfoldable pub subscribe : ℕ → Action (Unit {0})
subscribe account = modify (λ s. record s { channels = Events.subscribe account s.channels })

-- `drop` of the guard of a push, however the rest ended.
unfoldable pub finally {ℓ} : {A : Type ℓ} → Action (Unit {0}) → Action A → Action A
finally end m s = let (r, s') = m s in (r, (end s').1)

abbrev pub is_session : Option Auth.Session → Bool
is_session none = false
is_session (some _) = true

-- Whether a stream's token is still good and its device still in.
unfoldable pub still_in : ℕ → String → ℕ → Server → Bool
still_in now token device s =
    is_session (Auth.get_session now token s.tokens)
    && is_known (SignIn.still_in (Devices.get device s.db.devices))

-- `events`: the device whose place the stream holds.
unfoldable pub events : Clock → Caller → Action ℕ
unfolding open_stream subscribe
events clock caller = do
  auth ← authenticated (clock.ms 0) caller.bearer
  place ← open_stream auth.device.id
  device ← or_raise place rate_limited
  subscribe auth.account.id
  give device

module _ {Kind : Type 0} (proto : Proto Kind) (crates : Crates) where
  -- One page, and how far its device has read.
  unfoldable pub read_page : ℕ → ℕ → Account → ℕ → PullQuery → Action (PullResponse Kind)
  read_page now device account limit query = do
    page ←
        gets (λ s. Records.pull proto account query.since limit (not (query.manifests == 0)) s.db)
    seen now device (min page.cursor account.seq)
    give page

  -- The page, and the place among the pulls that it holds until the client has read it.
  unfoldable pub pull : Clock → Caller → PullQuery → Action (PullResponse Kind × (ℕ × String))
  unfolding read_page
  pull clock caller query = do
    auth ← authenticated (clock.ms 0) caller.bearer
    check_account crates (clock.instant 0) auth.account.id Limits.pull
    place ← start auth.account.id Limits.pulls
    page ←
        read_page (clock.ms 1) auth.device.id auth.account
          (min (limit_or proto.max_batch query.limit) proto.max_batch) query
    give (page, place)

  unfoldable pub push_within :
      ℕ → Account → ℕ → List (Envelope Kind) → Quota → Action (PushResponse Kind)
  push_within now account device envelopes quota s =
      let (r, db) = Records.push_within proto account device now envelopes quota s.db in
      (r, record s { db = db })

  -- News for who listens, unless nothing was taken.
  unfoldable pub tell : ℕ → PushResponse Kind → Action (Unit {0})
  unfolding announce
  tell account response =
      if is_empty response.accepted then give tt else announce account response.cursor

  unfoldable pub take_in :
      Config → ℕ → Account → ℕ → Result (PushRequest Kind) → Action (PushResponse Kind)
  unfolding push_within tell
  take_in config now account device body = do
    request ← of_result body
    raise_if (not (request.schema == proto.schema_version))
        (schema request.schema proto.schema_version)
    response ← push_within now account device request.envelopes config.quota
    tell account.id response
    give response

  unfoldable pub push :
      Config → Clock → Caller → Result (PushRequest Kind) → Action (PushResponse Kind)
  unfolding take_in
  push config clock caller body = do
    auth ← authenticated (clock.ms 0) caller.bearer
    check_account crates (clock.instant 0) auth.account.id Limits.push
    place ← start auth.account.id Limits.pushes
    finally (finish place) (take_in config (clock.ms 1) auth.account auth.device.id body)
