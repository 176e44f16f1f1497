-- ===== src/Db/Devices.antt =====
-- src/db/devices.rs: a name, a public key, and how far a device has read. A new id is an argument.
pub mod Cursors
use uw_ussh_server.Prelude.{
  ℕ, zero, suc, ◌+◌, min, max, Bool, true, false, not, ◌&&◌, List, [], ◌∷◌, ◌++◌, map, Option, none,
  some, ◌==◌, nat_eq, if◌then◌else◌, retain, find, length, leb, ltb, is_empty,
}
use uw_ussh_server.Prelude.Int.{pos_part, as_i64}
use uw_ussh_server.Prelude.Text.{trim, is_control}
use uw_ussh_server.Db.Tables.{DeviceRow, Db, update_where}
use uw_ussh_server.Db.Records.{Proto, drop_manifests_of}

pub record Device : Type 0 where
  pub id : ℕ
  pub account_id : ℕ
  pub name : List ℕ
  pub public_key : List ℕ
  pub cursor : ℕ
  pub revoked : Bool

-- What the device list shows.
pub record DeviceSummary : Type 0 where
  pub id : ℕ
  pub name : List ℕ
  pub created_ms : ℕ
  pub last_seen_ms : Option ℕ
  pub revoked_ms : Option ℕ

abbrev pub take {ℓ} : {A : Type ℓ} → ℕ → List A → List A
take zero xs = []
take (suc n) [] = []
take (suc n) (x ∷ xs) = x ∷ take n xs

-- "a device"
abbrev pub a_device : List ℕ
a_device = 97 ∷ 32 ∷ 100 ∷ 101 ∷ 118 ∷ 105 ∷ 99 ∷ 101 ∷ []

unfoldable pub clean_name : List ℕ → List ℕ
clean_name name =
    let clean = take 60 (retain (λ c. not (is_control c)) (trim name)) in
    if is_empty clean then a_device else clean

unfoldable pub add : ℕ → ℕ → ℕ → List ℕ → List ℕ → List DeviceRow → Device × List DeviceRow
unfolding clean_name
add now id account_id name public_key devices = (
  record {
    id = id;
    account_id = account_id;
    name = clean_name name;
    public_key = public_key;
    cursor = 0;
    revoked = false;
  },
  devices
      ++ record {
        id = id;
        account_id = account_id;
        name = clean_name name;
        public_key = public_key;
        created_ms = now;
        last_seen_ms = none;
        cursor = 0;
        revoked_ms = none;
      }
        ∷ [],
)

abbrev pub is_some {ℓ} : {A : Type ℓ} → Option A → Bool
is_some none = false
is_some (some _) = true

abbrev pub row_to_device : DeviceRow → Device
row_to_device r = record {
  id = r.id;
  account_id = r.account_id;
  name = r.name;
  public_key = r.public_key;
  cursor = r.cursor;
  revoked = is_some r.revoked_ms;
}

abbrev pub to_device : Option DeviceRow → Option Device
to_device none = none
to_device (some r) = some (row_to_device r)

-- A key that is not 32 bytes long is no device.
unfoldable pub get : ℕ → List DeviceRow → Option Device
get id devices = elim (find (λ r. r.id == id) devices) [
  | none ↦ none
  | some r ↦ if length r.public_key == 32 then some (row_to_device r) else none
]

abbrev pub insert_by_created : DeviceRow → List DeviceRow → List DeviceRow
insert_by_created r [] = r ∷ []
insert_by_created r (s ∷ rows) =
    let rest = insert_by_created r rows in
    if leb r.created_ms s.created_ms then r ∷ s ∷ rows else s ∷ rest

unfoldable pub order_by_created : List DeviceRow → List DeviceRow
order_by_created [] = []
order_by_created (r ∷ rows) = insert_by_created r (order_by_created rows)

abbrev pub summary : DeviceRow → DeviceSummary
summary r = record {
  id = r.id;
  name = r.name;
  created_ms = r.created_ms;
  last_seen_ms = r.last_seen_ms;
  revoked_ms = r.revoked_ms;
}

unfoldable pub list : ℕ → List DeviceRow → List DeviceSummary
unfolding order_by_created
list account_id devices =
    map summary (order_by_created (retain (λ r. r.account_id == account_id) devices))

-- `max(cursor, ?3)`, of a number that is cast to 64 bits with a sign. The cursor of a row is not negative.
unfoldable pub seen : ℕ → ℕ → ℕ → List DeviceRow → List DeviceRow
unfolding update_where
seen now id cursor =
    update_where (λ r. r.id == id)
      (λ r. record r { last_seen_ms = some now; cursor = max r.cursor (pos_part (as_i64 cursor)) })

-- A device of the account that was not shut out.
abbrev pub is_live : ℕ → DeviceRow → Bool
is_live account_id r = (r.account_id == account_id) && not (is_some r.revoked_ms)

abbrev pub may_revoke : ℕ → ℕ → DeviceRow → Bool
may_revoke account_id id r = (r.id == id) && is_live account_id r

module _ {Kind : Type 0} (proto : Proto Kind) where
  -- The number of rows that an `UPDATE` changes is that of the rows it finds.
  unfoldable pub revoke : ℕ → ℕ → ℕ → Db → Bool × Db
  unfolding update_where
  revoke now account_id id db =
      let changed = length (retain (may_revoke account_id id) db.devices) in
      let db' : Db = record db {
        devices =
            update_where (may_revoke account_id id) (λ r. record r { revoked_ms = some now })
              db.devices;
      } in
      (ltb 0 changed, if ltb 0 changed then (drop_manifests_of proto account_id id db').1 else db')

unfoldable pub live_count : ℕ → List DeviceRow → ℕ
live_count account_id devices = length (retain (is_live account_id) devices)

-- `min(cursor)`, NULL of no rows.
abbrev pub min_cursor : List DeviceRow → Option ℕ
min_cursor [] = none
min_cursor (r ∷ rows) = elim (min_cursor rows) [
  | none ↦ some r.cursor
  | some n ↦ some (min r.cursor n)
]

unfoldable pub lowest_cursor : ℕ → List DeviceRow → ℕ
lowest_cursor account_id devices = elim (min_cursor (retain (is_live account_id) devices)) [
  | none ↦ 0
  | some n ↦ n
]
