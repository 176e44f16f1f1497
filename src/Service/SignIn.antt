-- ===== src/Service/SignIn.antt =====
-- src/api/session.rs: signing in as a device: a challenge, its signature, a token. What is drawn is
-- an argument.
use uw_ussh_server.Prelude.{
  ℕ, ◌*◌, Bool, true, false, not, List, ◌++◌, Option, none, some, String, if◌then◌else◌, find,
}
use uw_ussh_server.Prelude.Text.{Text, text}
use uw_ussh_server.Error.{Result, ok, unauthorized}
use uw_ussh_server.Config.{Config}
use uw_ussh_server.Db.Devices.{Device}
use uw_ussh_server.Db.Devices as Devices
use uw_ussh_server.Limits as Limits
use uw_ussh_server.Auth as Auth
use uw_ussh_server.Service.{
  Crates, Caller, Clock, Action, give, ◌>>=◌, ◌>>◌, gets, modify, of_result, or_raise, raise_if,
  check, forgive, issue_token, who, verify_signature,
}

-- `LoginRequest` and `LoginResponse`
pub record LoginRequest : Type 0 where
  pub device_id : ℕ
  pub signature : Text

pub record LoginResponse : Type 0 where
  pub account_id : ℕ
  pub token : String
  pub expires_ms : ℕ

-- A device that was not shut out.
abbrev pub still_in : Option Device → Option Device
still_in none = none
still_in (some d) = if d.revoked then none else some d

abbrev pub is_known : Option Device → Bool
is_known none = false
is_known (some d) = true

unfoldable pub issue_challenge : ℕ → List ℕ → ℕ → Action (List ℕ)
issue_challenge now drawn device s =
    let (challenge, challenges) = Auth.issue_challenge now drawn device s.challenges in
    (ok challenge, record s { challenges = challenges })

-- Somebody answers: the challenge that the signature is of is spent, if there is one.
unfoldable pub spend_answered : ℕ → Option (List ℕ) → Action Bool
spend_answered device none s = (ok false, s)
spend_answered device (some challenge) s =
    let (spent, challenges) = Auth.spend device challenge s.challenges in
    (ok spent, record s { challenges = challenges })

unfoldable pub spend_found : ℕ → Option (List ℕ) → Action (Unit {0})
unfolding spend_answered
spend_found device found = do spent ← spend_answered device found; raise_if (not spent) unauthorized

unfoldable pub seen : ℕ → ℕ → ℕ → Action (Unit {0})
seen now device cursor =
    modify
      (λ s. record s { db = record s.db { devices = Devices.seen now device cursor s.db.devices } })

module _ (crates : Crates) (config : Config) where
  abbrev pub device_at : ℕ → Text → Text
  device_at device who = text "device:" ++ (crates.show_uuid device ++ (text "@" ++ who))

  -- A challenge: one that leads nowhere for a device that is not there.
  unfoldable pub challenge : Clock → List ℕ → Caller → Result ℕ → Action Text
  unfolding issue_challenge
  challenge clock drawn caller body = do
    check (clock.instant 0) (who crates config caller) Limits.sign_in
    device_id ← of_result body
    check (clock.instant 1) (device_at device_id (who crates config caller)) Limits.session
    known ← gets (λ s. is_known (still_in (Devices.get device_id s.db.devices)))
    drawn ← (if known then issue_challenge (clock.ms 0) drawn device_id else give drawn)
    give (crates.encode drawn)

  abbrev pub is_answer : Device → List ℕ → List ℕ → Bool
  is_answer device signature challenge =
      verify_signature crates device.public_key
        (crates.session_material device.account_id device.id challenge) signature

  -- The challenge that was answered is spent.
  unfoldable pub answer : ℕ → Device → List ℕ → Action (Unit {0})
  unfolding spend_found
  answer now device signature = do
    given ← gets (λ s. Auth.outstanding now device.id s.challenges)
    spend_found device.id (find (is_answer device signature) given)

  unfoldable pub login_as : Clock → String → Caller → Device → Action LoginResponse
  unfolding seen
  login_as clock token caller device = do
    forgive (device_at device.id (who crates config caller)) Limits.session
    forgive (who crates config caller) Limits.sign_in
    issued ← issue_token (clock.ms 1) token device.account_id device.id (config.session_secs * 1000)
    seen (clock.ms 2) device.id device.cursor
    give (record { account_id = device.account_id; token = issued.0; expires_ms = issued.1 })

  unfoldable pub login : Clock → String → Caller → Result LoginRequest → Action LoginResponse
  unfolding answer login_as
  login clock token caller body = do
    check (clock.instant 0) (who crates config caller) Limits.sign_in
    request ← of_result body
    check (clock.instant 1) (device_at request.device_id (who crates config caller)) Limits.session
    signature ← or_raise (crates.decode request.signature) unauthorized
    found ← gets (λ s. Devices.get request.device_id s.db.devices)
    device ← or_raise (still_in found) unauthorized
    answer (clock.ms 0) device signature
    login_as clock token caller device
