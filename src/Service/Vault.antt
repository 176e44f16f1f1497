-- ===== src/Service/Vault.antt =====
-- src/api/accounts.rs: creating an account, and the vault header that belongs to it. New ids and the
-- token are arguments. Of the sentences of a refusal the numbers are left out.
use uw_ussh_server.Prelude.{ℕ, ◌*◌, Bool, true, false, not, List, String, ◌==◌, nat_eq, leb}
use uw_ussh_server.Prelude.Text.{Text}
use uw_ussh_server.Error.{
  Result, ok, invalid, unauthorized, registration_closed, server_full, not_found,
}
use uw_ussh_server.Config.{Config, Registration, anyone, invite, closed}
use uw_ussh_server.Db.Records.{Account}
use uw_ussh_server.Db.Accounts.{VaultHeader, plausible}
use uw_ussh_server.Db.Accounts as Accounts
use uw_ussh_server.Db.Devices.{Device}
use uw_ussh_server.Db.Devices as Devices
use uw_ussh_server.Db.Invites as Invites
use uw_ussh_server.Limits as Limits
use uw_ussh_server.Service.{
  Crates, Caller, Clock, NewDevice, Admitted, Action, give, raise, ◌>>=◌, ◌>>◌, gets, modify,
  of_result, or_raise, raise_if, check, authenticated, issue_token, who, device_key, auth_key,
  prove_password,
}

-- `CreateAccount`
pub record CreateAccount : Type 0 where
  pub vault : VaultHeader
  pub auth_key : Text
  pub device : NewDevice
  pub invite : Text

-- `ChangePassword`
pub record ChangePassword : Type 0 where
  pub current_auth_key : Text
  pub auth_key : Text
  pub vault : VaultHeader

-- `VaultHeader::params`: the header without the wrapped key.
pub record VaultParams : Type 0 where
  pub vault_id : ℕ
  pub kdf_memory_kib : ℕ
  pub kdf_time_cost : ℕ
  pub kdf_parallelism : ℕ
  pub salt : String
  pub needs_account_key : Bool

abbrev pub params : VaultHeader → VaultParams
params h = record {
  vault_id = h.vault_id;
  kdf_memory_kib = h.kdf_memory_kib;
  kdf_time_cost = h.kdf_time_cost;
  kdf_parallelism = h.kdf_parallelism;
  salt = h.salt;
  needs_account_key = h.needs_account_key;
}

-- Whether the server takes new accounts at all.
abbrev pub is_closed : Registration → Bool
is_closed closed = true
is_closed _ = false

-- A header that a device could open, and that costs enough to guess against.
unfoldable pub check_vault : Config → VaultHeader → Action (Unit {0})
check_vault config h = do
  raise_if (not (plausible h)) (invalid "a vault header no device could open")
  raise_if (not (Accounts.check config.kdf_floor h))
      (invalid "the vault's key derivation is too cheap to guess against")

module _ (crates : Crates) (config : Config) where
  unfoldable pub spend_invite : ℕ → Text → Action Bool
  spend_invite now code s =
      let (spent, rows) = Invites.redeem_invite crates.sha256 now code s.db.invites in
      (ok spent, record s { db = record s.db { invites = rows } })

  -- What each registration asks for.
  unfoldable pub let_in : Registration → ℕ → Text → Action (Unit {0})
  unfolding spend_invite
  let_in closed now code = raise registration_closed
  let_in invite now code = do raise_if (not (← spend_invite now code)) unauthorized
  let_in anyone now code = give tt

  unfoldable pub new_account : ℕ → ℕ → VaultHeader → List ℕ → Action Account
  new_account now id h key s =
      let (account, rows) = Accounts.create crates.sha256 now id h key s.db.accounts in
      (ok account, record s { db = record s.db { accounts = rows } })

  unfoldable pub new_device : ℕ → ℕ → ℕ → Text → List ℕ → Action Device
  new_device now id account name key s =
      let (device, rows) = Devices.add now id account name key s.db.devices in
      (ok device, record s { db = record s.db { devices = rows } })

  -- The end of a sign-in: the token, and whom it is for.
  unfoldable pub admit_as : ℕ → String → ℕ → ℕ → Action Admitted
  admit_as now token account device = do
    issued ← issue_token now token account device (config.session_secs * 1000)
    give (record {
      account_id = account;
      device_id = device;
      token = issued.0;
      expires_ms = issued.1;
    })

  -- Both rows, under the lock that counted the accounts.
  unfoldable pub insert_account :
      Clock → ℕ → ℕ → CreateAccount → List ℕ → List ℕ → Action (Account × Device)
  unfolding new_account new_device
  insert_account clock account_id device_id request key device_key = do
    account ← new_account (clock.ms 1) account_id request.vault key
    device ← new_device (clock.ms 2) device_id account.id request.device.name device_key
    give (account, device)

  -- What is done under the lock of the database: count, spend the invite, insert.
  unfoldable pub make_account :
      Clock → ℕ → ℕ → CreateAccount → List ℕ → List ℕ → Action (Account × Device)
  unfolding let_in insert_account
  make_account clock account_id device_id request key device_key = do
    accounts ← gets (λ s. Accounts.count s.db.accounts)
    raise_if (leb config.max_accounts accounts) server_full
    let_in config.registration (clock.ms 0) request.invite
    insert_account clock account_id device_id request key device_key

  unfoldable pub create : Clock → ℕ → ℕ → String → Caller → Result CreateAccount → Action Admitted
  unfolding check_vault make_account admit_as
  create clock account_id device_id token caller body = do
    raise_if (is_closed config.registration) registration_closed
    check (clock.instant 0) (who crates config caller) Limits.accounts
    request ← of_result body
    check_vault config request.vault
    key ← of_result (auth_key crates request.auth_key)
    device_key ← of_result (device_key crates request.device)
    made ← make_account clock account_id device_id request key device_key
    admit_as (clock.ms 3) token made.0.id made.1.id

  unfoldable pub vault : Clock → Caller → Action VaultHeader
  vault clock caller = do
    auth ← authenticated (clock.ms 0) caller.bearer
    header ← gets (λ s. Accounts.header auth.account.id s.db.accounts)
    or_raise header not_found

  -- The parameters alone, for a device that is joining.
  unfoldable pub vault_params : Clock → Caller → Result Text → Action VaultParams
  vault_params clock caller body = do
    check (clock.instant 0) (who crates config caller) Limits.enrol
    enrolment ← of_result body
    found ← gets (λ s. Invites.peek_enrolment crates.sha256 (clock.ms 0) enrolment s.db.enrolments)
    account ← or_raise found unauthorized
    header ← gets (λ s. Accounts.header account s.db.accounts)
    h ← or_raise header unauthorized
    give (params h)

  unfoldable pub set_header : ℕ → VaultHeader → List ℕ → Action (Unit {0})
  set_header account h key = modify (λ s. record s {
    db = record s.db { accounts = Accounts.set_header crates.sha256 account h key s.db.accounts };
  })

  -- The body has been read before the handler starts.
  unfoldable pub change_password : Clock → Caller → Result ChangePassword → Action (Unit {0})
  unfolding check_vault set_header
  change_password clock caller body = do
    auth ← authenticated (clock.ms 0) caller.bearer
    request ← of_result body
    current ← of_result (auth_key crates request.current_auth_key)
    next ← of_result (auth_key crates request.auth_key)
    check_vault config request.vault
    raise_if (not (request.vault.vault_id == auth.account.vault_id))
        (invalid "that header belongs to another vault")
    prove_password crates (clock.instant 0) auth current
    set_header auth.account.id request.vault next
