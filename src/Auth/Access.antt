-- ===== src/Auth/Access.antt =====
-- src/auth.rs: the device behind a bearer token. What the headers of a request hold is read by the
-- framework: here a request comes with a token, or with none.
use uw_ussh_server.Prelude.{
  ℕ, ◌≡◌, ◌≢◌, inl, inr, refl, subst, Bool, true, false, not, ◌||◌, Option, none, some, String,
  arith, ◌==◌, nat_eq, nat_beq_iff, if◌then◌else◌, Bool-cases, Option-cases,
}
use uw_ussh_server.Error.{Result, ok, err, unauthorized}
use uw_ussh_server.Db.Tables.{Db}
use uw_ussh_server.Db.Records.{Account}
use uw_ussh_server.Db.Devices.{Device}
use uw_ussh_server.Db.Devices as Devices
use uw_ussh_server.Db.Accounts as Accounts
use uw_ussh_server.Auth.{Session, Tokens, get_session, drop_device}
use uw_ussh_server.Auth.Sessions.{IsLinked, drop_device-get_session}

pub record Authenticated : Type 0 where
  pub account : Account
  pub device : Device
  pub token : String

-- A device that was shut out, or that is of another account than the session.
abbrev pub is_out : Session → Device → Bool
is_out s d = d.revoked || not (d.account_id == s.account_id)

abbrev pub with_account : String → Device → Option Account → Result Authenticated
with_account token d none = err unauthorized
with_account token d (some account) = ok (record { account = account; device = d; token = token })

unfoldable pub check_device :
    String → Session → Option Device → Tokens → Db → Result Authenticated × Tokens
check_device token s none t db = (err unauthorized, t)
check_device token s (some d) t db =
    if is_out s d
    then (err unauthorized, drop_device s.device_id t)
    else (with_account token d (Accounts.get s.account_id db.accounts), t)

unfoldable pub check_session : String → Option Session → Tokens → Db → Result Authenticated × Tokens
unfolding check_device
check_session token none t db = (err unauthorized, t)
check_session token (some s) t db = check_device token s (Devices.get s.device_id db.devices) t db

unfoldable pub authenticate : ℕ → Option String → Tokens → Db → Result Authenticated × Tokens
unfolding check_session
authenticate now none t db = (err unauthorized, t)
authenticate now (some token) t db = check_session token (get_session now token t) t db

-- What a request that is let in has shown; every other is not allowed.
abbrev pub Admits : ℕ → Option String → Tokens → Db → Result Authenticated × Tokens → Type 0
Admits now bearer t db (err e, t') = e ≡ unauthorized
Admits now bearer t db (ok a, t') =
    (t' ≡ t)
    × (bearer ≡ some a.token)
    × (a.device.revoked ≡ false)
    × ((s : Session) × (get_session now a.token t ≡ some s)
        × (Devices.get s.device_id db.devices ≡ some a.device)
        × (Accounts.get s.account_id db.accounts ≡ some a.account)
        × (a.device.account_id ≡ s.account_id))

check_device-Admits :
    (now : ℕ) (token : String) (s : Session) (d : Device) (t : Tokens) (db : Db)
    → get_session now token t ≡ some s
    → Devices.get s.device_id db.devices ≡ some d
    → Admits now (some token) t db (check_device token s (some d) t db)
unfolding check_device
check_device-Admits now token s d t db good there = elim (Bool-cases (is_out s d)) [
  | inl out ↦ rw (out, check_device) refl
  | inr in_ ↦
      rw (in_, check_device)
        (elim (Option-cases (Accounts.get s.account_id db.accounts)) [
          | inl missing ↦ rw (missing, with_account) refl
          | inr (account, held) ↦
              rw (held, with_account)
                (
                  refl,
                  refl,
                  ground (arith, in_),
                  (
                    s,
                    good,
                    there,
                    held,
                    ground (arith, in_, nat_beq_iff d.account_id s.account_id),
                  ),
                )
        ])
]

-- A request that is let in changes no token, came with a token that opens a session, and is given
-- the device and the account of that session, a device of that account that was not shut out;
-- every other request is not allowed.
pub authenticate-Admits :
    (now : ℕ) (bearer : Option String) (t : Tokens) (db : Db)
    → Admits now bearer t db (authenticate now bearer t db)
unfolding authenticate check_session
authenticate-Admits now none t db = refl
authenticate-Admits now (some token) t db = elim (Option-cases (get_session now token t)) [
  | inl closed ↦ rw (closed, check_session) refl
  | inr (s, good) ↦
      rw (good, check_session)
        (elim (Option-cases (Devices.get s.device_id db.devices)) [
          | inl missing ↦ rw (missing, check_device) refl
          | inr (d, there) ↦ rw there (check_device-Admits now token s d t db good there)
        ])
]

shut_out :
    (now : ℕ) (token : String) (s : Session) (d : Device) (t : Tokens) (db : Db)
    → get_session now token t ≡ some s
    → Devices.get s.device_id db.devices ≡ some d
    → is_out s d ≡ true
    → authenticate now (some token) t db ≡ (err unauthorized, drop_device s.device_id t)
unfolding authenticate check_session check_device
shut_out now token s d t db good there out =
    rw (good, check_session) (rw there (rw (out, check_device) refl))

-- Where the two tables of tokens are in step: the first request with a token of a device that was
-- shut out, or is of another account than the session, is not allowed, and a token that opens a
-- session afterwards is of another device.
pub authenticate-get_session :
    (now later : ℕ) (token other : String) (s s' : Session) (d : Device) (t : Tokens) (db : Db)
    → IsLinked t
    → get_session now token t ≡ some s
    → Devices.get s.device_id db.devices ≡ some d
    → is_out s d ≡ true
    → get_session later other (authenticate now (some token) t db).1 ≡ some s'
    → ((authenticate now (some token) t db).0 ≡ err unauthorized) × (s'.device_id ≢ s.device_id)
authenticate-get_session now later token other s s' d t db linked good there out left =
    let gone = shut_out now token s d t db good there out in
    (
      rw gone refl,
      drop_device-get_session s.device_id later other t s' linked (
          subst (λ (x : Result Authenticated × Tokens). get_session later other x.1 ≡ some s') gone
            left),
    )
