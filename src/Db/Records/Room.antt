-- ===== src/Db/Records/Room.antt =====
-- src/db/records.rs: what the quotas promise, stated over the rows themselves.
use uw_ussh_server.Prelude.{
  ℕ, ◌+◌, ◌-◌, ◌≤◌, ◌≡◌, ◌≢◌, ◌⊎◌, ap, refl, sym, subst, inl, inr, false, List, [], ◌∷◌, some,
  arith, ◌==◌, nat_eq, nat_beq_iff, sum_by, All, Bool-cases, retain, find,
}
use uw_ussh_server.Prelude.Int.{ℤ, pos, ◌+ℤ◌, ◌-ℤ◌, pos_add}
use uw_ussh_server.Error.{ok}
use uw_ussh_server.Db.Tables.{AccountRow, RecordRow, Db, update_where, account_row}
use uw_ussh_server.Db.Records.{
  Proto, Envelope, Account, Quota, PushResponse, Pushing, row_bytes, is_of, over_account,
  over_server, everyone, start_push, commit_push, set_counts, push_within,
}
use uw_ussh_server.Db.Records.Cases.{pushed, Accepts, push_within_cases}
use uw_ussh_server.Db.Records.Counts.{
  held_records, held_bytes, IsCounted, Agrees, start_push-IsTallied, push_each-IsTallied,
  push_each_other,
}

-- The sealed bytes of every account together.
abbrev pub total_bytes : List RecordRow → List AccountRow → ℕ
total_bytes rows = sum_by (λ x. held_bytes x.id rows)

-- The primary key: no two account rows have one id.
abbrev pub HaveOwnIds : List AccountRow → Type 0
HaveOwnIds [] = Unit
HaveOwnIds (x ∷ xs) = All (λ (y : AccountRow). y.id ≢ x.id) xs × HaveOwnIds xs

everyone_total :
    (rows : List RecordRow) (accounts : List AccountRow)
    → All (Agrees rows) accounts
    → everyone accounts ≡ pos (total_bytes rows accounts)
unfolding everyone sum_by
everyone_total rows [] h = refl
everyone_total rows (x ∷ xs) h =
    rw (h.0.1, everyone_total rows xs h.1) (pos_add (held_bytes x.id rows) (total_bytes rows xs))

-- What changes for one account alone changes the total by as much.
total_same :
    (a : ℕ) (rows rows' : List RecordRow) (accounts : List AccountRow)
    → ((b : ℕ) → a ≢ b → retain (is_of b) rows' ≡ retain (is_of b) rows)
    → All (λ (y : AccountRow). y.id ≢ a) accounts
    → total_bytes rows' accounts ≡ total_bytes rows accounts
unfolding sum_by
total_same a rows rows' [] others h = refl
total_same a rows rows' (x ∷ xs) others h =
    rw (total_same a rows rows' xs others h.1, others x.id (λ e. h.0 (sym e)))

total_change :
    (a : ℕ) (rows rows' : List RecordRow) (accounts : List AccountRow) (r : AccountRow)
    → ((b : ℕ) → a ≢ b → retain (is_of b) rows' ≡ retain (is_of b) rows)
    → HaveOwnIds accounts
    → account_row a accounts ≡ some r
    → total_bytes rows' accounts + held_bytes a rows
      ≡ total_bytes rows accounts + held_bytes a rows'
unfolding sum_by account_row find
total_change a rows rows' [] r others own found = cc
total_change a rows rows' (x ∷ xs) r others own found = elim (Bool-cases (x.id == a)) [
  | inl same ↦
      let p = (nat_beq_iff x.id a).0 same in
      omega (
        arith,
        total_same a rows rows' xs others
            (subst (λ i. All (λ (y : AccountRow). y.id ≢ i) xs) p own.0),
        ap (λ i. held_bytes i rows) p,
        ap (λ i. held_bytes i rows') p,
      )
  | inr other ↦ omega (
    arith,
    total_change a rows rows' xs r others own.1 (rw other at found),
    ap row_bytes (others x.id (λ e. ground arith)),
  )
]

-- The tests on the quotas at counters that are the counts of some rows.
account_room :
    {Kind : Type 0} (quota : Quota) (c d : ℤ) (n b : ℕ) (s : Pushing Kind) (n' b' : ℕ)
    → c ≡ pos n
    → d ≡ pos b
    → s.count ≡ pos n'
    → s.bytes ≡ pos b'
    → over_account quota c d s ≡ false
    → ((n' ≤ n) ⊎ (n' ≤ quota.records)) × ((b' ≤ b) ⊎ (b' ≤ quota.bytes))
unfolding over_account
account_room quota c d n b s n' b' from_count from_bytes count bytes h = ground arith

server_room :
    {Kind : Type 0} (quota : Quota) (u d : ℤ) (t b : ℕ) (s : Pushing Kind) (b' : ℕ)
    → u ≡ pos t
    → d ≡ pos b
    → s.bytes ≡ pos b'
    → b ≤ t
    → over_server quota u d s ≡ false
    → (b' ≤ b) ⊎ (t - b + b' ≤ quota.server_bytes)
unfolding over_server ◌+ℤ◌ ◌-ℤ◌
server_room quota u d t b s b' total from bytes le h = ground arith

held_bytes-le-total :
    (a : ℕ) (rows : List RecordRow) (accounts : List AccountRow) (r : AccountRow)
    → account_row a accounts ≡ some r
    → held_bytes a rows ≤ total_bytes rows accounts
unfolding sum_by account_row find
held_bytes-le-total a rows [] r found = cc
held_bytes-le-total a rows (x ∷ xs) r found = elim (Bool-cases (x.id == a)) [
  | inl same ↦ omega (arith, ap (λ i. held_bytes i rows) ((nat_beq_iff x.id a).0 same))
  | inr other ↦ omega (arith, held_bytes-le-total a rows xs r (rw other at found))
]

total-update :
    (a n : ℕ) (c b : ℤ) (rows : List RecordRow) (accounts : List AccountRow)
    → total_bytes rows (update_where (λ r. r.id == a) (set_counts n c b) accounts)
      ≡ total_bytes rows accounts
unfolding sum_by update_where
total-update a n c b rows [] = refl
total-update a n c b rows (x ∷ xs) = ground (arith, total-update a n c b rows xs)

-- Within the quotas, or no more than before.
abbrev pub HasRoom : ℕ → Quota → Db → Db → Type 0
HasRoom a quota db db' =
    ((held_records a db'.records ≤ held_records a db.records)
      ⊎ (held_records a db'.records ≤ quota.records))
    × ((held_bytes a db'.records ≤ held_bytes a db.records)
        ⊎ (held_bytes a db'.records ≤ quota.bytes))
    × ((held_bytes a db'.records ≤ held_bytes a db.records)
        ⊎ (total_bytes db'.records db'.accounts ≤ quota.server_bytes))

module _ {Kind : Type 0} (proto : Proto Kind) (account : Account) (device now : ℕ)
    (es : List (Envelope Kind)) (quota : Quota) (db : Db) where
  commit_push-HasRoom :
      (r : AccountRow)
      → IsCounted db
      → HaveOwnIds db.accounts
      → Accepts proto account device now es quota db r
      → HasRoom account.id quota db
          (commit_push account (pushed proto account device now es quota db r) db)
  unfolding commit_push start_push
  commit_push-HasRoom r h own a =
      let s = pushed proto account device now es quota db r in
      let begun = start_push-IsTallied {Kind = Kind} account.id db r h a.found in
      let t = push_each-IsTallied proto account device now es (start_push r db) begun in
      let room =
        account_room quota r.record_count r.record_bytes (held_records account.id db.records)
          (held_bytes account.id db.records) s (held_records account.id s.rows)
          (held_bytes account.id s.rows) begun.count_eq begun.bytes_eq t.count_eq t.bytes_eq
          a.account_room in
      let space =
        server_room quota (everyone db.accounts) r.record_bytes (total_bytes db.records db.accounts)
          (held_bytes account.id db.records) s (held_bytes account.id s.rows)
          (everyone_total db.records db.accounts h) begun.bytes_eq t.bytes_eq
          (held_bytes-le-total account.id db.records db.accounts r a.found) a.server_room in
      let change =
        total_change account.id db.records s.rows db.accounts r
          (λ b other. push_each_other proto account device now b es (start_push r db) other) own
          a.found in
      (
        room.0,
        room.1,
        ground (
          arith,
          space,
          change,
          held_bytes-le-total account.id db.records db.accounts r a.found,
          total-update account.id s.seq s.count s.bytes s.rows db.accounts,
        ),
      )

  -- Where the counters agree with the records and no two account rows have one id: after a push
  -- that is taken the records of the account are within its quota or no more than before, so are
  -- its bytes, and the bytes of all accounts are within the quota of the server or those of the
  -- account are no more than before.
  pub push_within-HasRoom :
      (db' : Db) (response : PushResponse Kind)
      → IsCounted db
      → HaveOwnIds db.accounts
      → push_within proto account device now es quota db ≡ (ok response, db')
      → HasRoom account.id quota db db'
  push_within-HasRoom db' response h own =
      push_within_cases proto account device now es quota db
        (λ x. x ≡ (ok response, db') → HasRoom account.id quota db db') (λ _ e. cc)
        (λ r a e.
          let same : commit_push account (pushed proto account device now es quota db r) db ≡ db' =
            cc in
          subst (HasRoom account.id quota db) same (commit_push-HasRoom r h own a))
