-- ===== src/Db/Records.antt =====
-- src/db/records.rs: the mailbox. The statements are functions on the rows; the clock of one call
-- is one number `now`, read once. What `uwussh_proto` declares comes as a `Proto`.
pub mod Cases
pub mod Counts
pub mod Numbers
pub mod Answers
pub mod Mailbox
pub mod Room
pub mod Order
pub mod Pages
pub mod Pull
use uw_ussh_server.Prelude.{
  ℕ, ◌+◌, ◌-◌, ◌/◌, ◌≡◌, Bool, true, false, ◌&&◌, ◌||◌, not, List, [], ◌∷◌, ◌++◌, map, Option, none,
  some, String, ◌==◌, nat_eq, string_eq, Eq, if◌then◌else◌, retain, find, sum_by, length, is_empty,
  ltb, leb, max, min,
}
use uw_ussh_server.Prelude.Int.{ℤ, pos, ◌+ℤ◌, ◌-ℤ◌, ltb_ℤ, as_u64, as_i64, max_zero, pos_part}
use uw_ussh_server.Error.{
  ApiError, invalid, too_large, database, Result, ok, err, ◌>>=◌, ◌>>◌, ok_or,
}
use uw_ussh_server.Db.Tables.{AccountRow, RecordRow, Db, update_where, account_row}

-- The crate `uwussh_proto`: record kinds, their JSON names and the limits of the wire format.
pub record Proto (Kind : Type 0) : Type 0 where
  pub kind_eq : Eq Kind
  pub manifest : Kind
  pub host : Kind
  -- `serde_json::to_value(kind)` as a string, and `serde_json::from_value` of one.
  pub to_json : Kind → Option String
  pub from_json : String → Option Kind
  pub max_batch : ℕ
  pub max_batch_bytes : ℕ
  pub max_blob_bytes : ℕ
  pub schema_version : ℕ

-- `uwussh_proto::Hlc`
pub record Hlc : Type 0 where
  pub wall_ms : ℕ
  pub counter : ℕ
  pub device : ℕ

-- `uwussh_proto::Envelope`
pub record Envelope (Kind : Type 0) : Type 0 where
  pub id : ℕ
  pub vault_id : ℕ
  pub kind : Kind
  pub updated_at : Hlc
  pub base_seq : ℕ
  pub deleted : Bool
  pub nonce : List ℕ
  pub blob : List ℕ
  pub seq : Option ℕ

-- `uwussh_proto::Accepted`
pub record Accepted : Type 0 where
  pub id : ℕ
  pub seq : ℕ

pub record PushResponse (Kind : Type 0) : Type 0 where
  pub accepted : List Accepted
  pub conflicts : List (Envelope Kind)
  pub cursor : ℕ

pub record PullResponse (Kind : Type 0) : Type 0 where
  pub envelopes : List (Envelope Kind)
  pub cursor : ℕ
  pub has_more : Bool

-- `db::accounts::Account`
pub record Account : Type 0 where
  pub id : ℕ
  pub vault_id : ℕ
  pub seq : ℕ

pub record Quota : Type 0 where
  pub records : ℕ
  pub bytes : ℕ
  pub server_bytes : ℕ

abbrev pub default_quota : Quota
default_quota = record { records = 100000; bytes = 268435456; server_bytes = 2147483648 }

abbrev pub nonce_bytes : ℕ
nonce_bytes = 24

-- The rows of one account, and the row of one record in it.
abbrev pub is_of : ℕ → RecordRow → Bool
is_of a r = r.account_id == a

abbrev pub is_record : ℕ → ℕ → RecordRow → Bool
is_record a i r = r.account_id == a && r.id == i

-- `INSERT … ON CONFLICT (account_id, id) DO UPDATE`
unfoldable pub upsert : RecordRow → List RecordRow → List RecordRow
upsert n [] = n ∷ []
upsert n (r ∷ rs) = if is_record n.account_id n.id r then n ∷ rs else r ∷ upsert n rs

-- The sealed bytes of some rows, and of some envelopes.
abbrev pub row_bytes : List RecordRow → ℕ
row_bytes = sum_by (λ r. length r.blob)

-- The account row's counters, as a push and a purge write them.
abbrev pub set_counts : ℕ → ℤ → ℤ → AccountRow → AccountRow
set_counts s n b r = record r { seq = s; record_count = n; record_bytes = b }

-- `ORDER BY seq`
unfoldable pub insert_by_seq : RecordRow → List RecordRow → List RecordRow
insert_by_seq n [] = n ∷ []
insert_by_seq n (r ∷ rs) = if leb n.seq r.seq then n ∷ r ∷ rs else r ∷ insert_by_seq n rs

unfoldable pub order_by_seq : List RecordRow → List RecordRow
order_by_seq [] = []
order_by_seq (r ∷ rs) = insert_by_seq r (order_by_seq rs)

-- The rows that `pull` reads: `WHERE account_id = ?1 AND seq > ?2 ORDER BY seq`, with a bound that
-- is cast to 64 bits with a sign.
unfoldable pub rows_after : Db → ℕ → ℕ → List RecordRow
rows_after db a since =
    order_by_seq (retain (λ r. is_of a r && ltb_ℤ (as_i64 since) (pos r.seq)) db.records)

-- Count the rows that a condition names, delete them, and take them off the account's counters: what
-- `purge_tombstones` and `drop_manifests_of` do.
unfoldable pub delete_rows : ℕ → (RecordRow → Bool) → Db → ℕ × Db
delete_rows a which db =
    let gone = retain which db.records in
    (
      length gone,
      record db {
        records = retain (λ r. not (which r)) db.records;
        accounts =
            update_where (λ r. r.id == a)
              (λ r. record r {
                record_count = max_zero (r.record_count -ℤ pos (length gone));
                record_bytes = max_zero (r.record_bytes -ℤ pos (row_bytes gone));
              })
              db.accounts;
      },
    )

-- `usage`: what an account holds, by its counters.
unfoldable pub usage : ℕ → Db → Option (ℕ × ℕ)
usage a db = elim (account_row a db.accounts) [
  | none ↦ none
  | some r ↦ some (as_u64 r.record_count, as_u64 r.record_bytes)
]

-- What a push has done so far: the numbers read at its start as they move on, the rows and the
-- answer.
pub record Pushing (Kind : Type 0) : Type 0 where
  pub seq : ℕ
  pub count : ℤ
  pub bytes : ℤ
  pub rows : List RecordRow
  pub accepted : List Accepted
  pub conflicts : List (Envelope Kind)

-- `SELECT coalesce(sum(record_bytes), 0) FROM accounts`
unfoldable pub everyone : List AccountRow → ℤ
everyone [] = pos 0
everyone (r ∷ rs) = r.record_bytes +ℤ everyone rs

module _ {Kind : Type 0} where
  -- The tests on what the account, and the server, would hold. `held` are the counters at the start.
  unfoldable pub over_account : Quota → ℤ → ℤ → Pushing Kind → Bool
  over_account quota held_records held_bytes s =
      (ltb_ℤ held_records s.count && ltb quota.records (as_u64 s.count))
      || (ltb_ℤ held_bytes s.bytes && ltb quota.bytes (as_u64 s.bytes))

  unfoldable pub over_server : Quota → ℤ → ℤ → Pushing Kind → Bool
  over_server quota total held_bytes s =
      ltb_ℤ held_bytes s.bytes
      && ltb quota.server_bytes (as_u64 (max_zero ((total -ℤ held_bytes) +ℤ s.bytes)))

  unfoldable pub start_push : AccountRow → Db → Pushing Kind
  start_push r db = record {
    seq = r.seq;
    count = r.record_count;
    bytes = r.record_bytes;
    rows = db.records;
    accepted = [];
    conflicts = [];
  }

  -- What a transaction that is committed leaves.
  unfoldable pub commit_push : Account → Pushing Kind → Db → Db
  commit_push account s db = record db {
    records = s.rows;
    accounts =
        update_where (λ r. r.id == account.id) (set_counts s.seq s.count s.bytes) db.accounts;
  }

  unfoldable pub answer : Pushing Kind → PushResponse Kind
  answer s = record { accepted = s.accepted; conflicts = s.conflicts; cursor = s.seq }

module _ {Kind : Type 0} (proto : Proto Kind) where
  open proto use {manifest, host, to_json, from_json, max_batch, max_batch_bytes, max_blob_bytes}

  unfoldable pub kind_name : Kind → String
  kind_name k = elim (to_json k) [ none ↦ "unknown" | some s ↦ s ]

  unfoldable pub kind_from : String → Option Kind
  kind_from s = from_json s

  -- What the server can check of an envelope without a key.
  unfoldable pub check : Account → Envelope Kind → Result (Unit {0})
  check account e =
      if not (e.vault_id == account.vault_id)
      then err (invalid "a record from another vault than this account's")
      else if not (length e.nonce == nonce_bytes)
      then err (invalid "a record without a proper nonce")
      else if is_empty e.blob
      then err (invalid "a record with nothing sealed in it")
      else if ltb max_blob_bytes (length e.blob)
      then err (too_large "a record")
      else ok tt

  unfoldable pub check_all : Account → List (Envelope Kind) → Result (Unit {0})
  check_all account [] = ok tt
  check_all account (e ∷ es) = do check account e; check_all account es

  unfoldable pub row_to_envelope : Account → RecordRow → Envelope Kind
  unfolding kind_from
  row_to_envelope account r = record {
    id = r.id;
    vault_id = account.vault_id;
    kind = elim (kind_from r.kind) [ none ↦ host | some k ↦ k ];
    updated_at = record { wall_ms = r.hlc_wall_ms; counter = r.hlc_counter; device = r.hlc_device };
    base_seq = r.seq;
    deleted = r.deleted;
    nonce = r.nonce;
    blob = r.blob;
    seq = some r.seq;
  }

  -- One record as the server holds it.
  unfoldable pub get : List RecordRow → Account → ℕ → Option (Envelope Kind)
  get rows account i = elim (find (is_record account.id i) rows) [
    | none ↦ none
    | some r ↦ some (row_to_envelope account r)
  ]

  -- The row that an accepted envelope is stored as.
  unfoldable pub new_row : Account → ℕ → ℕ → ℕ → Envelope Kind → RecordRow
  new_row account device now s e = record {
    account_id = account.id;
    id = e.id;
    kind = kind_name e.kind;
    seq = s;
    hlc_wall_ms = e.updated_at.wall_ms;
    hlc_counter = e.updated_at.counter;
    hlc_device = e.updated_at.device;
    deleted = e.deleted;
    nonce = e.nonce;
    blob = e.blob;
    device_id = device;
    updated_ms = now;
  }

  -- The part of the loop body that numbers an envelope and writes it.
  unfoldable pub take_in : Account → ℕ → ℕ → Envelope Kind → Pushing Kind → ℤ → ℤ → Pushing Kind
  take_in account device now e s count bytes = record s {
    seq = s.seq + 1;
    count = count;
    bytes = bytes;
    rows = upsert (new_row account device now (s.seq + 1) e) s.rows;
    accepted = s.accepted ++ record { id = e.id; seq = s.seq + 1 } ∷ [];
  }

  -- The part that reports a conflict with the version held.
  unfoldable pub refuse : Account → Envelope Kind → Pushing Kind → Pushing Kind
  refuse account e s = elim (get s.rows account e.id) [
    | none ↦ s
    | some held ↦ record s { conflicts = s.conflicts ++ held ∷ [] }
  ]

  -- The body of the loop over the envelopes of a push.
  unfoldable pub push_one : Account → ℕ → ℕ → Envelope Kind → Pushing Kind → Pushing Kind
  unfolding take_in refuse
  push_one account device now e s = elim (find (is_record account.id e.id) s.rows) [
    | none ↦ take_in account device now e s (s.count +ℤ pos 1) (s.bytes +ℤ pos (length e.blob))
    | some r ↦
        if not (r.seq == e.base_seq)
        then refuse account e s
        else take_in account device now e s s.count
            (s.bytes +ℤ (pos (length e.blob) -ℤ pos (length r.blob)))
  ]

  unfoldable pub push_each : Account → ℕ → ℕ → List (Envelope Kind) → Pushing Kind → Pushing Kind
  push_each account device now [] s = s
  push_each account device now (e ∷ es) s =
      push_each account device now es (push_one account device now e s)

  -- The tests before the transaction.
  unfoldable pub check_batch : Account → List (Envelope Kind) → Result (Unit {0})
  check_batch account es =
      if ltb max_batch (length es)
      then err (too_large "records in one request")
      else if ltb 1 (length es) && ltb max_batch_bytes (sum_by (λ e. length e.blob) es)
      then err (too_large "sealed bytes in one request")
      else check_all account es

  -- The transaction, from the row of the account on.
  unfoldable pub push_tx :
      Account
      → ℕ
      → ℕ
      → List (Envelope Kind)
      → Quota
      → Db
      → AccountRow
      → Result (PushResponse Kind) × Db
  unfolding over_account over_server start_push commit_push answer push_each
  push_tx account device now es quota db r =
      let s = push_each account device now es (start_push r db) in
      if over_account quota r.record_count r.record_bytes s
      then (err (too_large "this account holds as much as this server allows"), db)
      else if over_server quota (everyone db.accounts) r.record_bytes s
      then (err (too_large "this server holds as much as it allows"), db)
      else (ok (answer s), commit_push account s db)

  -- A push that fails leaves the database as it was.
  unfoldable pub push_within :
      Account → ℕ → ℕ → List (Envelope Kind) → Quota → Db → Result (PushResponse Kind) × Db
  unfolding push_tx
  push_within account device now es quota db = elim (check_batch account es) [
    | err e ↦ (err e, db)
    | ok _ ↦ elim (account_row account.id db.accounts) [
      | none ↦ (err database, db)
      | some r ↦ push_tx account device now es quota db r
    ]
  ]

  -- What `pull` has read so far.
  pub record Page : Type 0 where
    pub envelopes : List (Envelope Kind)
    pub bytes : ℕ
    pub has_more : Bool
    pub cursor : ℕ

  abbrev pub cursor_past : Envelope Kind → ℕ → ℕ
  cursor_past e cursor = max (elim e.seq [ none ↦ cursor | some s ↦ s ]) cursor

  -- Passed over for a device that does not read manifests.
  unfoldable pub is_hidden : Bool → Envelope Kind → Bool
  is_hidden manifests e = not manifests && proto.kind_eq.same e.kind manifest

  unfoldable pub is_full : ℕ → Page → Envelope Kind → Bool
  is_full limit s e =
      length s.envelopes == limit
      || (not (is_empty s.envelopes) && ltb max_batch_bytes (s.bytes + length e.blob))

  -- The loop over the rows.
  unfoldable pub read_page : Bool → ℕ → List (Envelope Kind) → Page → Page
  read_page manifests limit [] s = s
  read_page manifests limit (e ∷ es) s = elim (is_hidden manifests e) [
    | true ↦ read_page manifests limit es (record s { cursor = cursor_past e s.cursor })
    | false ↦ elim (is_full limit s e) [
      | true ↦ record s { has_more = true }
      | false ↦ read_page manifests limit es (record s {
        envelopes = s.envelopes ++ e ∷ [];
        bytes = s.bytes + length e.blob;
        cursor = cursor_past e s.cursor;
      })
    ]
  ]

  abbrev pub first_page : ℕ → Page
  first_page since = record { envelopes = []; bytes = 0; has_more = false; cursor = since }

  -- `limit.clamp(1, MAX_BATCH)`
  abbrev pub clamp_limit : ℕ → ℕ
  clamp_limit limit = min (max limit 1) max_batch

  unfoldable pub pull : Account → ℕ → ℕ → Bool → Db → PullResponse Kind
  unfolding read_page row_to_envelope rows_after is_hidden is_full
  pull account since limit manifests db =
      let rows = map (row_to_envelope account) (rows_after db account.id since) in
      let s = read_page manifests (clamp_limit limit) rows (first_page since) in
      record { envelopes = s.envelopes; cursor = s.cursor; has_more = s.has_more }

  -- The rows that a device which is revoked published as manifests.
  unfoldable pub is_manifest_of : ℕ → ℕ → RecordRow → Bool
  unfolding kind_name
  is_manifest_of a device r =
      r.account_id == a && (r.device_id == device && r.kind == kind_name manifest)

  -- Forget the manifests a device published.
  unfoldable pub drop_manifests_of : ℕ → ℕ → Db → ℕ × Db
  unfolding is_manifest_of
  drop_manifests_of a device db = delete_rows a (is_manifest_of a device) db

-- An old tombstone that every device has read.
unfoldable pub is_old_tombstone : ℕ → ℕ → ℕ → RecordRow → Bool
is_old_tombstone a before_ms below_seq r =
    r.account_id == a && (r.deleted && (ltb r.updated_ms before_ms && leb r.seq below_seq))

-- `purge_tombstones`
unfoldable pub purge_tombstones : ℕ → ℕ → ℕ → Db → ℕ × Db
unfolding is_old_tombstone
purge_tombstones a before_ms below_seq db =
    delete_rows a (is_old_tombstone a before_ms below_seq) db
