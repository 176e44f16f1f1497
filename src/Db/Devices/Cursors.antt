-- ===== src/Db/Devices/Cursors.antt =====
-- src/db/devices.rs: cursors, and shutting a device out.
use uw_ussh_server.Prelude.{
  ℕ, ◌≤◌, ◌≡◌, max, inl, inr, true, false, List, [], ◌∷◌, Option, none, some, arith, ◌==◌, nat_eq,
  nat_beq_iff, if◌then◌else◌, retain, length, All, Option-cases, ltb, refl, find,
}
use uw_ussh_server.Prelude.Int.{pos_part, as_i64}
use uw_ussh_server.Db.Tables.{DeviceRow, Db, update_where}
use uw_ussh_server.Db.Records.{Proto, drop_manifests_of, delete_rows}
use uw_ussh_server.Db.Devices.{
  seen, is_live, is_some, may_revoke, revoke, lowest_cursor, min_cursor, get, Device,
}

min_cursor-some : (r : DeviceRow) (rows : List DeviceRow) → is_some (min_cursor (r ∷ rows)) ≡ true
min_cursor-some r rows = ground arith

abbrev OrTop : ℕ → Option ℕ → Type 0
OrTop n none = Unit
OrTop n (some m) = n ≤ m

-- No row stands below the least.
min_cursor-least :
    (n : ℕ) (rows : List DeviceRow)
    → OrTop n (min_cursor rows)
    → All (λ (r : DeviceRow). n ≤ r.cursor) rows
min_cursor-least n [] h = tt
min_cursor-least n (r ∷ rows) h = elim (Option-cases (min_cursor rows)) [
  | inl missing ↦ (ground (arith, h, missing), min_cursor-least n rows (rw missing tt))
  | inr (m, found) ↦
      (ground (arith, h, found), min_cursor-least n rows (rw found (ground (arith, h, found))))
]

or_zero : Option ℕ → ℕ
or_zero none = 0
or_zero (some n) = n

lowest_least :
    (rows : List DeviceRow) (m : Option ℕ)
    → min_cursor rows ≡ m
    → All (λ (r : DeviceRow). or_zero m ≤ r.cursor) rows
unfolding or_zero
lowest_least rows none e = min_cursor-least 0 rows (rw e tt)
lowest_least rows (some n) e = min_cursor-least n rows (rw e (omega arith))

lowest_cursor_eq :
    (account_id : ℕ) (devices : List DeviceRow)
    → lowest_cursor account_id devices ≡ or_zero (min_cursor (retain (is_live account_id) devices))
unfolding lowest_cursor or_zero
lowest_cursor_eq account_id devices = ground arith

-- Every device of the account that was not shut out has read as far as `lowest_cursor` says.
pub lowest_cursor-least :
    (account_id : ℕ) (devices : List DeviceRow)
    → All
        (λ (r : DeviceRow). lowest_cursor account_id devices ≤ r.cursor)
        (retain (is_live account_id) devices)
lowest_cursor-least account_id devices =
    rw (lowest_cursor_eq account_id devices)
      (lowest_least (retain (is_live account_id) devices) _ refl)

-- What a device is once it was seen at a cursor.
abbrev pub read_to : ℕ → ℕ → ℕ → Option Device → Option Device
read_to id cursor j none = none
read_to id cursor j (some d) =
    if id == j then some (record d { cursor = max d.cursor (pos_part (as_i64 cursor)) }) else some d

-- Having been seen at a cursor moves the cursor of that device alone, and only forward. A cursor from
-- 2 ^ 63 on is a negative number, below every other.
get-seen :
    (now id cursor j : ℕ) (devices : List DeviceRow)
    → get j (seen now id cursor devices) ≡ read_to id cursor j (get j devices)
unfolding get seen update_where find
get-seen now id cursor j [] = refl
get-seen now id cursor j (r ∷ devices) = ground (
  arith,
  get-seen now id cursor j devices,
  nat_beq_iff r.id id,
  nat_beq_iff r.id j,
  nat_beq_iff id j,
)

module _ {Kind : Type 0} (proto : Proto Kind) where
  revoked_none :
      (now account_id id : ℕ) (devices : List DeviceRow)
      → length (
          retain (may_revoke account_id id) (
            update_where
              (may_revoke account_id id)
              (λ r. record r { revoked_ms = some now })
              devices))
        ≡ 0
  unfolding retain update_where
  revoked_none now account_id id [] = refl
  revoked_none now account_id id (r ∷ devices) =
      ground (arith, revoked_none now account_id id devices)

  revoke-devices :
      (now account_id id : ℕ) (db : Db)
      → (revoke proto now account_id id db).1.devices
        ≡ update_where
            (may_revoke account_id id)
            (λ r. record r { revoked_ms = some now })
            db.devices
  unfolding revoke drop_manifests_of delete_rows
  revoke-devices now account_id id db = ground arith

  revoke_changed :
      (now account_id id : ℕ) (db : Db)
      → (revoke proto now account_id id db).0
        ≡ ltb 0 (length (retain (may_revoke account_id id) db.devices))
  unfolding revoke
  revoke_changed now account_id id db = refl

  -- A device is shut out once: asked again, at any time, the answer is that nothing changed.
  revoke-once :
      (now later account_id id : ℕ) (db : Db)
      → (revoke proto later account_id id (revoke proto now account_id id db).1).0 ≡ false
  revoke-once now later account_id id db =
      rw
        (
          revoke_changed later account_id id (revoke proto now account_id id db).1,
          revoke-devices now account_id id db,
          revoked_none now account_id id db.devices,
        )
        refl
