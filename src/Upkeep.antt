-- ===== src/Upkeep.antt =====
-- src/main.rs: what the server forgets as it goes on. When it does so is the runtime's, as is what is
-- logged; every turn of the loop reads the clock.
use uw_ussh_server.Prelude.{
  length, ℕ, suc, ◌-◌, ◌≤◌, ◌≡◌, refl, sym, subst, ap, ◌∙◌, Bool, true, false, not, ◌&&◌, List, [],
  ◌∷◌, map, Option, none, some, arith, retain, All, All-imp, Bool-cases, inl, inr, nat_eq,
  nat_beq_iff,
}
use uw_ussh_server.Db.Tables.{AccountRow, DeviceRow, RecordRow, Db}
use uw_ussh_server.Db.Tables.Updates.{length-update_where}
use uw_ussh_server.Db.Accounts as Accounts
use uw_ussh_server.Db.Devices.{is_live, lowest_cursor}
use uw_ussh_server.Db.Devices.Cursors.{lowest_cursor-least}
use uw_ussh_server.Db.Invites as Invites
use uw_ussh_server.Db.Records as Records
use uw_ussh_server.Db.Records.{Account, purge_tombstones, is_old_tombstone}
use uw_ussh_server.Db.Records.Counts.{IsCounted, purge_tombstones-IsCounted}

abbrev pub ninety_days_ms : ℕ
ninety_days_ms = 7776000000

abbrev pub purge_found : ℕ → Option Account → Db → Db
purge_found now none db = db
purge_found now (some account) db =
    (purge_tombstones account.id (now - ninety_days_ms) (lowest_cursor account.id db.devices) db).1

-- One account at a time.
unfoldable pub purge_each : (ℕ → ℕ) → ℕ → List ℕ → Db → Db
unfolding purge_tombstones
purge_each clock turn [] db = db
purge_each clock turn (id ∷ ids) db =
    purge_each clock (suc turn) ids (purge_found (clock turn) (Accounts.get id db.accounts) db)

unfoldable pub purge : (ℕ → ℕ) → Db → Db
unfolding purge_each Invites.purge
purge clock db =
    let db' = Invites.purge (clock 0) db in
    purge_each clock 1 (map (λ (r : AccountRow). r.id) db'.accounts) db'

-- A record that says no more than that it was deleted, and that every device of its account has read.
abbrev pub IsRead : List DeviceRow → RecordRow → Type 0
IsRead devices r =
    (r.deleted ≡ true)
    × All (λ (d : DeviceRow). r.seq ≤ d.cursor) (retain (is_live r.account_id) devices)

-- What is left are rows that were there, and those that are not left may be forgotten.
abbrev pub Forgets : List DeviceRow → List RecordRow → List RecordRow → Type 0
Forgets devices rows left =
    (kept : (RecordRow → Bool)) × (left ≡ retain kept rows)
    × All (IsRead devices) (retain (λ r. not (kept r)) rows)

retain-imp :
    (P : RecordRow → Type 0) (p : RecordRow → Bool)
    → ((r : RecordRow) → p r ≡ true → P r)
    → (rows : List RecordRow) → All P (retain p rows)
unfolding retain
retain-imp P p imp [] = tt
retain-imp P p imp (r ∷ rows) = elim (Bool-cases (p r)) [
  | inl holds ↦ rw holds (imp r holds, retain-imp P p imp rows)
  | inr fails ↦ rw fails (retain-imp P p imp rows)
]

retain_both :
    (p q : RecordRow → Bool) (rows : List RecordRow)
    → retain q (retain p rows) ≡ retain (λ r. p r && q r) rows
unfolding retain
retain_both p q [] = refl
retain_both p q (r ∷ rows) = ground (arith, retain_both p q rows)

retain_either :
    (P : RecordRow → Type 0) (p q : RecordRow → Bool) (rows : List RecordRow)
    → All P (retain (λ r. not (p r)) rows)
    → All P (retain (λ r. not (q r)) (retain p rows))
    → All P (retain (λ r. not (p r && q r)) rows)
unfolding retain
retain_either P p q [] h k = tt
retain_either P p q (r ∷ rows) h k = ground (arith, h, k, retain_either P p q rows)

retain-All :
    (P : RecordRow → Type 0) (rows : List RecordRow)
    → (rows ≡ retain (λ r. true) rows) × All P (retain (λ r. false) rows)
unfolding retain
retain-All P [] = (refl, tt)
retain-All P (r ∷ rows) =
    (ap (λ (rs : List RecordRow). r ∷ rs) (retain-All P rows).0, (retain-All P rows).1)

keeps_all : (devices : List DeviceRow) (rows : List RecordRow) → Forgets devices rows rows
keeps_all devices rows =
    ((λ r. true), (retain-All (IsRead devices) rows).0, (retain-All (IsRead devices) rows).1)

Forgets-trans :
    (devices : List DeviceRow) (a b c : List RecordRow)
    → Forgets devices a b
    → Forgets devices b c
    → Forgets devices a c
Forgets-trans devices a b c (p, first, h) (q, second, k) = (
  (λ r. p r && q r),
  second ∙ ap (retain q) first ∙ retain_both p q a,
  retain_either (IsRead devices) p q a h (
      subst (λ (rows : List RecordRow). All (IsRead devices) (retain (λ r. not (q r)) rows)) first
        k),
)

old-IsRead :
    (account before : ℕ) (devices : List DeviceRow) (r : RecordRow)
    → is_old_tombstone account before (lowest_cursor account devices) r ≡ true
    → IsRead devices r
unfolding is_old_tombstone
old-IsRead account before devices r h =
    let same : r.account_id ≡ account = ground (arith, h, nat_beq_iff r.account_id account) in
    let low : r.seq ≤ lowest_cursor account devices = ground (arith, h) in
    (
      ground (arith, h),
      subst (λ (a : ℕ). All (λ (d : DeviceRow). r.seq ≤ d.cursor) (retain (is_live a) devices))
          (sym same)
          (All-imp (λ (d : DeviceRow). lowest_cursor account devices ≤ d.cursor)
            (λ (d : DeviceRow). r.seq ≤ d.cursor) (λ d k. omega (arith, k, low))
            (retain (is_live account) devices) (lowest_cursor-least account devices)),
    )

retain-not-not :
    (devices : List DeviceRow) (p : RecordRow → Bool) (rows : List RecordRow)
    → All (IsRead devices) (retain p rows)
    → All (IsRead devices) (retain (λ r. not (not (p r))) rows)
unfolding retain
retain-not-not devices p [] h = tt
retain-not-not devices p (r ∷ rows) h = ground (arith, h, retain-not-not devices p rows)

found-Forgets :
    (now : ℕ) (account : Option Account) (db : Db)
    → Forgets db.devices db.records (purge_found now account db).records
unfolding purge_tombstones Records.delete_rows
found-Forgets now none db = keeps_all db.devices db.records
found-Forgets now (some account) db =
    let old =
      is_old_tombstone account.id (now - ninety_days_ms) (lowest_cursor account.id db.devices) in
    (
      (λ r. not (old r)),
      refl,
      retain-not-not db.devices old db.records (
          retain-imp (IsRead db.devices) old
            (old-IsRead account.id (now - ninety_days_ms) db.devices) db.records),
    )

found-devices :
    (now : ℕ) (account : Option Account) (db : Db)
    → (purge_found now account db).devices ≡ db.devices
unfolding purge_tombstones Records.delete_rows
found-devices now none db = refl
found-devices now (some account) db = refl

each-Forgets :
    (clock : ℕ → ℕ) (turn : ℕ) (ids : List ℕ) (db : Db)
    → Forgets db.devices db.records (purge_each clock turn ids db).records
unfolding purge_each
each-Forgets clock turn [] db = keeps_all db.devices db.records
each-Forgets clock turn (id ∷ ids) db =
    let account = Accounts.get id db.accounts in
    let db' = purge_found (clock turn) account db in
    Forgets-trans db.devices db.records db'.records (purge_each clock (suc turn) ids db').records
      (found-Forgets (clock turn) account db)
      (subst
        (λ (devices : List DeviceRow).
          Forgets devices db'.records (purge_each clock (suc turn) ids db').records)
        (found-devices (clock turn) account db) (each-Forgets clock (suc turn) ids db'))

-- What the server forgets of its records are rows of deleted records, each of which every device
-- of its account that was not shut out has read; all other records stay, in their order.
pub purge-Forgets :
    (clock : ℕ → ℕ) (db : Db) → Forgets db.devices db.records (purge clock db).records
unfolding purge Invites.purge
purge-Forgets clock db =
    let db' = Invites.purge (clock 0) db in
    each-Forgets clock 1 (map (λ (r : AccountRow). r.id) db'.accounts) db'

each-IsCounted :
    (clock : ℕ → ℕ) (turn : ℕ) (ids : List ℕ) (db : Db)
    → IsCounted db
    → IsCounted (purge_each clock turn ids db)
unfolding purge_each
each-IsCounted clock turn [] db h = h
each-IsCounted clock turn (id ∷ ids) db h =
    each-IsCounted clock (suc turn) ids (purge_found (clock turn) (Accounts.get id db.accounts) db)
      (found (Accounts.get id db.accounts))
  where
    found : (account : Option Account) → IsCounted (purge_found (clock turn) account db)
    found none = h
    found (some a) =
        purge_tombstones-IsCounted a.id (clock turn - ninety_days_ms)
          (lowest_cursor a.id db.devices) db h

-- Where the counters of every account agree with its records, they do after the server has forgotten what it may.
pub purge-IsCounted : (clock : ℕ → ℕ) (db : Db) → IsCounted db → IsCounted (purge clock db)
unfolding purge Invites.purge
purge-IsCounted clock db h =
    each-IsCounted clock 1 (map (λ (r : AccountRow). r.id) db.accounts) (Invites.purge (clock 0) db)
      h

-- No account comes or goes.
found-accounts :
    (now : ℕ) (account : Option Account) (db : Db)
    → length (purge_found now account db).accounts ≡ length db.accounts
unfolding purge_tombstones Records.delete_rows
found-accounts now none db = refl
found-accounts now (some account) db = length-update_where _ _ db.accounts

each-accounts :
    (clock : ℕ → ℕ) (turn : ℕ) (ids : List ℕ) (db : Db)
    → length (purge_each clock turn ids db).accounts ≡ length db.accounts
unfolding purge_each
each-accounts clock turn [] db = refl
each-accounts clock turn (id ∷ ids) db =
    let account = Accounts.get id db.accounts in
    each-accounts clock (suc turn) ids (purge_found (clock turn) account db)
    ∙ found-accounts (clock turn) account db

pub length-purge : (clock : ℕ → ℕ) (db : Db) → length (purge clock db).accounts ≡ length db.accounts
unfolding purge Invites.purge
length-purge clock db =
    each-accounts clock 1 (map (λ (r : AccountRow). r.id) db.accounts) (Invites.purge (clock 0) db)
