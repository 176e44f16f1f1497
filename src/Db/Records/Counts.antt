-- ===== src/Db/Records/Counts.antt =====
-- src/db/records.rs: what an account holds is counted as it changes. The counters of the account
-- row agree with the rows of the account through every operation on the records.
use uw_ussh_server.Prelude.{
  ℕ, ◌+◌, ◌≤◌, ◌≡◌, refl, ap, ◌∙◌, inl, inr, Bool, true, not, List, [], ◌∷◌, Option, none, some,
  arith, ◌==◌, nat_eq, nat_beq_iff, retain, find, sum_by, length, All, find-All, Bool-cases, ◌≢◌,
}
use uw_ussh_server.Prelude.Int.{pos, ◌+ℤ◌, ◌-ℤ◌, max_zero-pos_sub, pos_add, pos_change}
use uw_ussh_server.Db.Tables.{AccountRow, RecordRow, Db, update_where, account_row}
use uw_ussh_server.Db.Records.Cases.{push_one_cases, push_within_cases}
use uw_ussh_server.Db.Records.{
  purge_tombstones, drop_manifests_of, is_old_tombstone, is_manifest_of, Proto, Envelope, Account,
  Quota, Pushing, is_of, is_record, upsert, row_bytes, delete_rows, new_row, take_in, refuse,
  push_one, push_each, start_push, commit_push, push_within,
}

-- The rows and the sealed bytes of an account.
abbrev pub held_records : ℕ → List RecordRow → ℕ
held_records a rows = length (retain (is_of a) rows)

abbrev pub held_bytes : ℕ → List RecordRow → ℕ
held_bytes a rows = row_bytes (retain (is_of a) rows)

-- The bytes of a row that may not be there.
abbrev pub bytes_before : Option RecordRow → ℕ
bytes_before none = 0
bytes_before (some r) = length r.blob

abbrev pub one_if_new : Option RecordRow → ℕ
one_if_new none = 1
one_if_new (some r) = 0

pub upsert-held_records :
    (n : RecordRow) (rows : List RecordRow)
    → held_records n.account_id (upsert n rows)
      ≡ held_records n.account_id rows + one_if_new (find (is_record n.account_id n.id) rows)
unfolding upsert retain find
upsert-held_records n [] = ground arith
upsert-held_records n (r ∷ rows) = ground (arith, upsert-held_records n rows)

pub upsert-held_bytes :
    (n : RecordRow) (rows : List RecordRow)
    → held_bytes n.account_id (upsert n rows)
        + bytes_before (find (is_record n.account_id n.id) rows)
      ≡ held_bytes n.account_id rows + length n.blob
unfolding upsert retain find sum_by
upsert-held_bytes n [] = ground arith
upsert-held_bytes n (r ∷ rows) = ground (arith, upsert-held_bytes n rows)

-- The rows of another account stay as they are.
pub upsert_other :
    (b : ℕ) (n : RecordRow) (rows : List RecordRow)
    → n.account_id ≢ b
    → retain (is_of b) (upsert n rows) ≡ retain (is_of b) rows
unfolding upsert retain
upsert_other b n [] h = ground arith
upsert_other b n (r ∷ rows) h = ground (arith, upsert_other b n rows h)

bytes_before_le :
    (a i : ℕ) (rows : List RecordRow) → bytes_before (find (is_record a i) rows) ≤ held_bytes a rows
unfolding retain find sum_by
bytes_before_le a i [] = omega arith
bytes_before_le a i (r ∷ rows) = ground (arith, bytes_before_le a i rows)

-- The counters of a push in progress, against its rows.
pub record IsTallied {Kind : Type 0} (a : ℕ) (s : Pushing Kind) : Type 0 where
  pub count_eq : s.count ≡ pos (held_records a s.rows)
  pub bytes_eq : s.bytes ≡ pos (held_bytes a s.rows)

module _ {Kind : Type 0} (proto : Proto Kind) (account : Account) (device now : ℕ) where
  take_new-IsTallied :
      (e : Envelope Kind) (s : Pushing Kind)
      → IsTallied account.id s
      → find (is_record account.id e.id) s.rows ≡ none
      → IsTallied account.id
          (take_in proto account device now e s (s.count +ℤ pos 1) (s.bytes +ℤ pos (length e.blob)))
  unfolding take_in new_row
  take_new-IsTallied e s h new =
      let n = new_row proto account device now (s.seq + 1) e in
      record {
        count_eq =
            ground
              (arith, upsert-held_records n s.rows, pos_add (held_records account.id s.rows) 1);
        bytes_eq = ground (
          arith,
          upsert-held_bytes n s.rows,
          pos_add (held_bytes account.id s.rows) (length e.blob),
        );
      }

  take_over-IsTallied :
      (e : Envelope Kind) (s : Pushing Kind) (r : RecordRow)
      → IsTallied account.id s
      → find (is_record account.id e.id) s.rows ≡ some r
      → IsTallied account.id (
          take_in proto account device now e s s.count
            (s.bytes +ℤ (pos (length e.blob) -ℤ pos (length r.blob))))
  unfolding take_in new_row
  take_over-IsTallied e s r h old =
      let n = new_row proto account device now (s.seq + 1) e in
      record {
        count_eq = ground (arith, upsert-held_records n s.rows);
        bytes_eq = ground (
          arith,
          upsert-held_bytes n s.rows,
          bytes_before_le account.id e.id s.rows,
          pos_change (held_bytes account.id s.rows) (length e.blob) (length r.blob),
        );
      }

  refuse-IsTallied :
      (e : Envelope Kind) (s : Pushing Kind)
      → IsTallied account.id s
      → IsTallied account.id (refuse proto account e s)
  unfolding refuse
  refuse-IsTallied e s h = ground arith

  push_one-IsTallied :
      (e : Envelope Kind) (s : Pushing Kind)
      → IsTallied account.id s
      → IsTallied account.id (push_one proto account device now e s)
  push_one-IsTallied e s h =
      push_one_cases proto account device now e s (IsTallied account.id)
        (λ new. take_new-IsTallied e s h new) (λ r old _. take_over-IsTallied e s r h old)
        (λ _ _ _. refuse-IsTallied e s h)

  pub push_each-IsTallied :
      (es : List (Envelope Kind)) (s : Pushing Kind)
      → IsTallied account.id s
      → IsTallied account.id (push_each proto account device now es s)
  unfolding push_each
  push_each-IsTallied [] s h = h
  push_each-IsTallied (e ∷ es) s h =
      push_each-IsTallied es (push_one proto account device now e s) (push_one-IsTallied e s h)

  -- A push writes no row of another account.
  push_one_other :
      (b : ℕ) (e : Envelope Kind) (s : Pushing Kind)
      → account.id ≢ b
      → retain (is_of b) (push_one proto account device now e s).rows ≡ retain (is_of b) s.rows
  unfolding push_one take_in refuse new_row
  push_one_other b e s h =
      ground (arith, upsert_other b (new_row proto account device now (s.seq + 1) e) s.rows h)

  pub push_each_other :
      (b : ℕ) (es : List (Envelope Kind)) (s : Pushing Kind)
      → account.id ≢ b
      → retain (is_of b) (push_each proto account device now es s).rows ≡ retain (is_of b) s.rows
  unfolding push_each
  push_each_other b [] s h = refl
  push_each_other b (e ∷ es) s h =
      push_each_other b es (push_one proto account device now e s) h ∙ push_one_other b e s h

-- The counters of an account row agree with the rows of its account.
abbrev pub Agrees : List RecordRow → AccountRow → Type 0
Agrees rows r =
    (r.record_count ≡ pos (held_records r.id rows)) × (r.record_bytes ≡ pos (held_bytes r.id rows))

abbrev pub IsCounted : Db → Type 0
IsCounted db = All (Agrees db.records) db.accounts

pub account_row-Agrees :
    (a : ℕ) (db : Db) (r : AccountRow)
    → IsCounted db
    → account_row a db.accounts ≡ some r
    → Agrees db.records r
unfolding account_row
account_row-Agrees a db r h e = find-All (Agrees db.records) (λ x. x.id == a) db.accounts h e

pub account_row-id :
    (a : ℕ) (rows : List AccountRow) (r : AccountRow) → account_row a rows ≡ some r → r.id ≡ a
unfolding account_row find
account_row-id a [] r e = cc
account_row-id a (x ∷ rows) r e = ground (arith, account_row-id a rows r)

-- New counters for one account, over rows that changed for that account alone.
update-Agrees :
    (a : ℕ) (f : AccountRow → AccountRow) (rows rows' : List RecordRow) (accounts : List AccountRow)
    → ((r : AccountRow) → r.id ≡ a → Agrees rows r → Agrees rows' (f r))
    → ((b : ℕ) → a ≢ b → retain (is_of b) rows' ≡ retain (is_of b) rows)
    → All (Agrees rows) accounts
    → All (Agrees rows') (update_where (λ r. r.id == a) f accounts)
unfolding update_where
update-Agrees a f rows rows' [] own others h = tt
update-Agrees a f rows rows' (r ∷ rs) own others h =
    let rest = update-Agrees a f rows rows' rs own others h.1 in
    elim (Bool-cases (r.id == a)) [
      | inl same ↦ rw same (own r ((nat_beq_iff r.id a).0 same) h.0, rest)
      | inr other ↦ rw other ((rw (others r.id (λ e. ground arith)) h.0), rest)
    ]

pub start_push-IsTallied :
    {Kind : Type 0} (a : ℕ) (db : Db) (r : AccountRow)
    → IsCounted db
    → account_row a db.accounts ≡ some r
    → IsTallied {Kind = Kind} a (start_push r db)
unfolding start_push
start_push-IsTallied a db r h found =
    let own = account_row-Agrees a db r h found in
    let same = account_row-id a db.accounts r found in
    record {
      count_eq = own.0 ∙ ap (λ i. pos (held_records i db.records)) same;
      bytes_eq = own.1 ∙ ap (λ i. pos (held_bytes i db.records)) same;
    }

commit_push-IsCounted :
    {Kind : Type 0} (proto : Proto Kind) (account : Account) (device now : ℕ)
    (es : List (Envelope Kind)) (r : AccountRow) (db : Db)
    → IsCounted db
    → account_row account.id db.accounts ≡ some r
    → IsCounted (commit_push account (push_each proto account device now es (start_push r db)) db)
unfolding commit_push start_push
commit_push-IsCounted proto account device now es r db h found =
    let s = push_each proto account device now es (start_push r db) in
    let t =
      push_each-IsTallied proto account device now es (start_push r db)
        (start_push-IsTallied account.id db r h found) in
    update-Agrees account.id _ db.records s.rows db.accounts
      (λ x same _. (rw same t.count_eq, rw same t.bytes_eq))
      (λ b other. push_each_other proto account device now b es (start_push r db) other) h

-- Where the counters of every account row agree with the rows of its records, they do after any
-- push, taken or refused.
pub push_within-IsCounted :
    {Kind : Type 0} (proto : Proto Kind) (account : Account) (device now : ℕ)
    (es : List (Envelope Kind)) (quota : Quota) (db : Db)
    → IsCounted db
    → IsCounted (push_within proto account device now es quota db).1
push_within-IsCounted proto account device now es quota db h =
    push_within_cases proto account device now es quota db (λ r. IsCounted r.1) (λ e. h)
      (λ r a. commit_push-IsCounted proto account device now es r db h a.found)

-- Deleting rows of one account.
module _ (a : ℕ) (which : RecordRow → Bool)
    (own : (r : RecordRow) → which r ≡ true → r.account_id ≡ a) where
  gone-held_records :
      (rows : List RecordRow)
      → held_records a (retain (λ r. not (which r)) rows) + length (retain which rows)
        ≡ held_records a rows
  unfolding retain
  gone-held_records [] = omega arith
  gone-held_records (r ∷ rows) = ground (arith, gone-held_records rows, own r)

  gone-held_bytes :
      (rows : List RecordRow)
      → held_bytes a (retain (λ r. not (which r)) rows) + row_bytes (retain which rows)
        ≡ held_bytes a rows
  unfolding retain sum_by
  gone-held_bytes [] = omega arith
  gone-held_bytes (r ∷ rows) = ground (arith, gone-held_bytes rows, own r)

  gone_other :
      (b : ℕ) (rows : List RecordRow)
      → a ≢ b
      → retain (is_of b) (retain (λ r. not (which r)) rows) ≡ retain (is_of b) rows
  unfolding retain
  gone_other b [] h = refl
  gone_other b (r ∷ rows) h = ground (arith, gone_other b rows h, own r)

  delete_rows-IsCounted : (db : Db) → IsCounted db → IsCounted (delete_rows a which db).1
  unfolding delete_rows
  delete_rows-IsCounted db h =
      update-Agrees a _ db.records _ db.accounts
        (λ r same agrees. (
          rw (agrees.0, same) (max_zero-pos_sub _ _ _ (gone-held_records db.records)),
          rw (agrees.1, same) (max_zero-pos_sub _ _ _ (gone-held_bytes db.records)),
        ))
        (λ b other. gone_other b db.records other) h

old_tombstone_of :
    (a before_ms below_seq : ℕ) (r : RecordRow)
    → is_old_tombstone a before_ms below_seq r ≡ true
    → r.account_id ≡ a
unfolding is_old_tombstone
old_tombstone_of a before_ms below_seq r h = ground arith

manifest_of :
    {Kind : Type 0} (proto : Proto Kind) (a device : ℕ) (r : RecordRow)
    → is_manifest_of proto a device r ≡ true
    → r.account_id ≡ a
unfolding is_manifest_of
manifest_of proto a device r h = ground arith

-- Where the counters of every account row agree with the rows of its records, they do after old
-- tombstones are forgotten.
pub purge_tombstones-IsCounted :
    (a before_ms below_seq : ℕ) (db : Db)
    → IsCounted db
    → IsCounted (purge_tombstones a before_ms below_seq db).1
unfolding purge_tombstones
purge_tombstones-IsCounted a before_ms below_seq db =
    delete_rows-IsCounted a _ (old_tombstone_of a before_ms below_seq) db

pub drop_manifests_of-IsCounted :
    {Kind : Type 0} (proto : Proto Kind) (a device : ℕ) (db : Db)
    → IsCounted db
    → IsCounted (drop_manifests_of proto a device db).1
unfolding drop_manifests_of
drop_manifests_of-IsCounted proto a device db =
    delete_rows-IsCounted a _ (manifest_of proto a device) db
