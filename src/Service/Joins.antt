-- ===== src/Service/Joins.antt =====
-- src/api/devices.rs: list the devices, let one in, shut one out.
use uw_ussh_server.Prelude.{
  ℕ, ◌+◌, Bool, true, false, not, List, Option, String, ◌==◌, nat_eq, if◌then◌else◌, leb,
}
use uw_ussh_server.Prelude.Text.{Text}
use uw_ussh_server.Error.{Result, ok, invalid, unauthorized, wrong_password, not_found}
use uw_ussh_server.Config.{Config}
use uw_ussh_server.Db.Records.{Proto}
use uw_ussh_server.Db.Accounts as Accounts
use uw_ussh_server.Db.Devices.{DeviceSummary}
use uw_ussh_server.Db.Devices as Devices
use uw_ussh_server.Db.Invites as Invites
use uw_ussh_server.Limits as Limits
use uw_ussh_server.Auth as Auth
use uw_ussh_server.Auth.Access.{Authenticated}
use uw_ussh_server.Pairing as Pairing
use uw_ussh_server.Service.{
  Crates, Caller, Clock, NewDevice, Admitted, Action, give, raise, ◌>>=◌, ◌>>◌, gets, modify,
  of_result, or_raise, raise_if, check, check_account, forgive, authenticated, who, device_key,
  auth_key, prove_password,
}
use uw_ussh_server.Service.Vault.{new_device, admit_as}

-- `EnrolmentToken`
pub record Enrolment : Type 0 where
  pub token : Text
  pub expires_ms : ℕ

-- `EnrolDevice`
pub record EnrolRequest : Type 0 where
  pub enrolment : Text
  pub auth_key : Text
  pub device : NewDevice

unfoldable pub list : Clock → Caller → Action (List DeviceSummary)
list clock caller = do
  auth ← authenticated (clock.ms 0) caller.bearer
  gets (λ s. Devices.list auth.account.id s.db.devices)

module _ (crates : Crates) where
  unfoldable pub create_enrolment : ℕ → Text → ℕ → ℕ → Action Text
  create_enrolment now token account device s =
      let (t, rows) =
        Invites.create_enrolment crates.sha256 now token account device s.db.enrolments in
      (ok t, record s { db = record s.db { enrolments = rows } })

  -- `invite`, of the token drawn.
  unfoldable pub invite : Clock → Text → Caller → Action Enrolment
  unfolding create_enrolment
  invite clock drawn caller = do
    auth ← authenticated (clock.ms 0) caller.bearer
    check_account crates (clock.instant 0) auth.account.id Limits.joins
    token ← create_enrolment (clock.ms 1) drawn auth.account.id auth.device.id
    give (record { token = token; expires_ms = clock.ms 2 + Invites.enrolment_ttl_ms })

  unfoldable pub enrolment_failed : ℕ → Text → Action Bool
  enrolment_failed now token s =
      let (spent, rows) = Invites.enrolment_failed crates.sha256 now token s.db.enrolments in
      (ok spent, record s { db = record s.db { enrolments = rows } })

  unfoldable pub redeem_enrolment : ℕ → Text → Action (Option ℕ)
  redeem_enrolment now token s =
      let (account, rows) = Invites.redeem_enrolment crates.sha256 now token s.db.enrolments in
      (ok account, record s { db = record s.db { enrolments = rows } })

  -- A wrong master password is counted on the token.
  unfoldable pub join_verified : Clock → Text → Bool → Action (Unit {0})
  unfolding enrolment_failed
  join_verified clock token true = give tt
  join_verified clock token false = do enrolment_failed (clock.ms 1) token; raise unauthorized

  -- Look first, spend later.
  unfoldable pub join_account : Clock → Text → List ℕ → Action ℕ
  unfolding join_verified redeem_enrolment
  join_account clock token key = do
    found ← gets (λ s. Invites.peek_enrolment crates.sha256 (clock.ms 0) token s.db.enrolments)
    account ← or_raise found unauthorized
    right ← gets (λ s. Accounts.verify crates.sha256 account key s.db.accounts)
    join_verified clock token right
    redeemed ← redeem_enrolment (clock.ms 2) token
    or_raise redeemed unauthorized
    give account

  unfoldable pub enrol :
      Config → Clock → ℕ → String → Caller → Result EnrolRequest → Action Admitted
  unfolding join_account
  enrol config clock device_id token caller body = do
    check (clock.instant 0) (who crates config caller) Limits.enrol
    request ← of_result body
    key ← of_result (auth_key crates request.auth_key)
    device_key ← of_result (device_key crates request.device)
    account ← join_account clock request.enrolment key
    device ← new_device crates config (clock.ms 3) device_id account request.device.name device_key
    forgive (who crates config caller) Limits.enrol
    admit_as crates config (clock.ms 4) token account device.id

  unfoldable pub prove_key : ℕ → Authenticated → Option Text → Action (Unit {0})
  prove_key now auth current_auth_key = do
    encoded ← or_raise current_auth_key wrong_password
    key ← of_result (auth_key crates encoded)
    prove_password crates now auth key

  -- The master password, for a device other than one's own.
  unfoldable pub prove_other : ℕ → Authenticated → ℕ → Option Text → Action (Unit {0})
  unfolding prove_key
  prove_other now auth id current_auth_key =
      if id == auth.device.id then give tt else prove_key now auth current_auth_key

  unfoldable pub revoke_row : {Kind : Type 0} → Proto Kind → ℕ → ℕ → ℕ → Action Bool
  revoke_row proto now account id s =
      let (changed, db) = Devices.revoke proto now account id s.db in
      (ok changed, record s { db = db })

  -- What a device that is shut out leaves behind: enrolment tokens, tokens, pairings.
  unfoldable pub drop_enrolments : ℕ → Action ℕ
  drop_enrolments device s =
      let (n, rows) = Invites.drop_enrolments_of device s.db.enrolments in
      (ok n, record s { db = record s.db { enrolments = rows } })

  unfoldable pub drop_device : ℕ → Action (Unit {0})
  drop_device device = modify (λ s. record s { tokens = Auth.drop_device device s.tokens })

  unfoldable pub close_opened_by : ℕ → Action ℕ
  close_opened_by device s =
      let (n, pairings) = Pairing.close_opened_by device s.pairings in
      (ok n, record s { pairings = pairings })

  unfoldable pub shut_out : {Kind : Type 0} → Proto Kind → ℕ → ℕ → ℕ → Action (Unit {0})
  unfolding revoke_row drop_enrolments drop_device close_opened_by
  shut_out proto now account id = do
    live ← gets (λ s. Devices.live_count account s.db.devices)
    raise_if (leb live 1) (invalid "this is the only device left; add another one first")
    changed ← revoke_row proto now account id
    raise_if (not changed) not_found
    drop_enrolments id
    drop_device id
    close_opened_by id
    give tt

  unfoldable pub revoke :
      {Kind : Type 0} → Proto Kind → Clock → Caller → ℕ → Result (Option Text) → Action (Unit {0})
  unfolding prove_other shut_out
  revoke proto clock caller id body = do
    auth ← authenticated (clock.ms 0) caller.bearer
    current_auth_key ← of_result body
    prove_other (clock.instant 0) auth id current_auth_key
    shut_out proto (clock.ms 1) auth.account.id id
