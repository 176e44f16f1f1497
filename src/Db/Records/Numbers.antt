-- ===== src/Db/Records/Numbers.antt =====
-- src/db/records.rs: the sequence numbers that a push hands out, per account.
use uw_ussh_server.Prelude.{
  ℕ, ◌+◌, ◌≤◌, ◌<◌, ◌≡◌, ◌≢◌, sym, subst, inl, inr, List, [], ◌∷◌, some, arith, ◌==◌, nat_eq,
  nat_beq_iff, All, find-All, All-imp, Bool-cases,
}
use uw_ussh_server.Prelude.Int.{ℤ}
use uw_ussh_server.Db.Tables.{AccountRow, RecordRow, Db, update_where, account_row}
use uw_ussh_server.Db.Records.{
  set_counts, Proto, Envelope, Account, Quota, Pushing, is_record, upsert, new_row, take_in, refuse,
  push_one, push_each, start_push, commit_push, push_within,
}
use uw_ussh_server.Db.Records.Cases.{push_one_cases, push_within_cases}
use uw_ussh_server.Db.Records.Counts.{account_row-id}

-- Every number of the account `a` among the rows is at most `n`.
abbrev pub Below : ℕ → ℕ → RecordRow → Type 0
Below a n r = r.account_id ≡ a → r.seq ≤ n

abbrev pub Differs : RecordRow → RecordRow → Type 0
Differs r q = q.account_id ≡ r.account_id → q.seq ≢ r.seq

-- No number is given twice in one account.
abbrev pub AreDistinct : List RecordRow → Type 0
AreDistinct [] = Unit
AreDistinct (r ∷ rows) = All (Differs r) rows × AreDistinct rows

pub record IsNumbered (db : Db) : Type 0 where
  pub distinct : AreDistinct db.records
  pub below : All (λ (x : AccountRow). All (Below x.id x.seq) db.records) db.accounts

upsert-All {ℓ} :
    (P : RecordRow → Type ℓ) (n : RecordRow) (rows : List RecordRow)
    → P n
    → All P rows
    → All P (upsert n rows)
unfolding upsert
upsert-All P n [] p h = (p, tt)
upsert-All P n (r ∷ rows) p h = ground (arith, upsert-All P n rows p h.1)

fresh-Differs :
    (n : RecordRow) (k : ℕ) (rows : List RecordRow)
    → k < n.seq
    → All (Below n.account_id k) rows
    → All (Differs n) rows
fresh-Differs n k [] lt h = tt
fresh-Differs n k (r ∷ rows) lt h =
    (λ same e. absurd (omega (arith, h.0 same)), fresh-Differs n k rows lt h.1)

-- A row with a number above all of its account keeps the numbers distinct.
upsert-AreDistinct :
    (n : RecordRow) (k : ℕ) (rows : List RecordRow)
    → k < n.seq
    → All (Below n.account_id k) rows
    → AreDistinct rows
    → AreDistinct (upsert n rows)
unfolding upsert
upsert-AreDistinct n k [] lt below h = (tt, tt)
upsert-AreDistinct n k (r ∷ rows) lt below h = elim (Bool-cases (is_record n.account_id n.id r)) [
  | inl hit ↦ rw hit (fresh-Differs n k rows lt below.1, h.1)
  | inr miss ↦ rw miss (
    upsert-All (Differs r) n rows (λ same e. omega (arith, below.0 (sym same))) h.0,
    upsert-AreDistinct n k rows lt below.1 h.1,
  )
]

-- A push in progress: its numbers are distinct, and none of the account is above the last one given.
pub record AreNumbered {Kind : Type 0} (a : ℕ) (s : Pushing Kind) : Type 0 where
  pub distinct : AreDistinct s.rows
  pub below : All (Below a s.seq) s.rows

module _ {Kind : Type 0} (proto : Proto Kind) (account : Account) (device now : ℕ) where
  take_in-AreNumbered :
      (e : Envelope Kind) (s : Pushing Kind) (n b : ℤ)
      → AreNumbered account.id s
      → AreNumbered account.id (take_in proto account device now e s n b)
  unfolding take_in new_row
  take_in-AreNumbered e s _ _ h =
      let n = new_row proto account device now (s.seq + 1) e in
      record {
        distinct = upsert-AreDistinct n s.seq s.rows (omega arith) h.below h.distinct;
        below =
            upsert-All (Below account.id (s.seq + 1)) n s.rows (λ _. omega arith)
              (All-imp (Below account.id s.seq) (Below account.id (s.seq + 1))
                (λ r le same. omega (arith, le same)) s.rows h.below);
      }

  refuse-AreNumbered :
      (e : Envelope Kind) (s : Pushing Kind)
      → AreNumbered account.id s
      → AreNumbered account.id (refuse proto account e s)
  unfolding refuse
  refuse-AreNumbered e s h = ground arith

  push_one-AreNumbered :
      (e : Envelope Kind) (s : Pushing Kind)
      → AreNumbered account.id s
      → AreNumbered account.id (push_one proto account device now e s)
  push_one-AreNumbered e s h =
      push_one_cases proto account device now e s (AreNumbered account.id)
        (λ _. take_in-AreNumbered e s _ _ h) (λ _ _ _. take_in-AreNumbered e s _ _ h)
        (λ _ _ _. refuse-AreNumbered e s h)

  push_each-AreNumbered :
      (es : List (Envelope Kind)) (s : Pushing Kind)
      → AreNumbered account.id s
      → AreNumbered account.id (push_each proto account device now es s)
  unfolding push_each
  push_each-AreNumbered [] s h = h
  push_each-AreNumbered (e ∷ es) s h =
      push_each-AreNumbered es (push_one proto account device now e s) (push_one-AreNumbered e s h)

  push_one-Below_other :
      (b k : ℕ) (e : Envelope Kind) (s : Pushing Kind)
      → account.id ≢ b
      → All (Below b k) s.rows
      → All (Below b k) (push_one proto account device now e s).rows
  unfolding push_one take_in refuse new_row
  push_one-Below_other b k e s other h = ground (
    arith,
    upsert-All (Below b k) (new_row proto account device now (s.seq + 1) e) s.rows
        (λ same. absurd (other same)) h,
  )

  push_each-Below_other :
      (b k : ℕ) (es : List (Envelope Kind)) (s : Pushing Kind)
      → account.id ≢ b
      → All (Below b k) s.rows
      → All (Below b k) (push_each proto account device now es s).rows
  unfolding push_each
  push_each-Below_other b k [] s other h = h
  push_each-Below_other b k (e ∷ es) s other h =
      push_each-Below_other b k es (push_one proto account device now e s) other
        (push_one-Below_other b k e s other h)

  start_push-AreNumbered :
      (db : Db) (r : AccountRow)
      → IsNumbered db
      → account_row account.id db.accounts ≡ some r
      → AreNumbered {Kind = Kind} account.id (start_push r db)
  unfolding start_push account_row
  start_push-AreNumbered db r h found = record {
    distinct = h.distinct;
    below =
        subst (λ i. All (Below i r.seq) db.records) (account_row-id account.id db.accounts r found)
          (find-All (λ (x : AccountRow). All (Below x.id x.seq) db.records)
            (λ x. x.id == account.id) db.accounts h.below found);
  }

  update-Below :
      (s : Pushing Kind) (rows : List RecordRow) (accounts : List AccountRow)
      → All (Below account.id s.seq) s.rows
      → ((b k : ℕ) → account.id ≢ b → All (Below b k) rows → All (Below b k) s.rows)
      → All (λ (x : AccountRow). All (Below x.id x.seq) rows) accounts
      → All
          (λ (x : AccountRow). All (Below x.id x.seq) s.rows)
          (update_where (λ r. r.id == account.id) (set_counts s.seq s.count s.bytes) accounts)
  unfolding update_where
  update-Below s rows [] own others h = tt
  update-Below s rows (x ∷ xs) own others h =
      let rest = update-Below s rows xs own others h.1 in
      elim (Bool-cases (x.id == account.id)) [
        | inl same ↦ rw same (
          subst (λ i. All (Below i s.seq) s.rows) (sym ((nat_beq_iff x.id account.id).0 same)) own,
          rest,
        )
        | inr other ↦ rw other (others x.id x.seq (λ e. ground arith) h.0, rest)
      ]

  commit_push-IsNumbered :
      (es : List (Envelope Kind)) (r : AccountRow) (db : Db)
      → IsNumbered db
      → account_row account.id db.accounts ≡ some r
      → IsNumbered
          (commit_push account (push_each proto account device now es (start_push r db)) db)
  unfolding commit_push
  commit_push-IsNumbered es r db h found =
      let s = push_each proto account device now es (start_push r db) in
      let n = push_each-AreNumbered es (start_push r db) (start_push-AreNumbered db r h found) in
      record {
        distinct = n.distinct;
        below =
            update-Below s db.records db.accounts n.below
              (λ b k other.
                unfold start_push in push_each-Below_other b k es (start_push r db) other)
              h.below;
      }

  -- Where no number stands twice in an account and none is above the last one of the account, this
  -- holds after any push.
  pub push_within-IsNumbered :
      (es : List (Envelope Kind)) (quota : Quota) (db : Db)
      → IsNumbered db
      → IsNumbered (push_within proto account device now es quota db).1
  push_within-IsNumbered es quota db h =
      push_within_cases proto account device now es quota db (λ r. IsNumbered r.1) (λ _. h)
        (λ r a. commit_push-IsNumbered es r db h a.found)
