-- ===== src/Db/Records/Cases.antt =====
-- src/db/records.rs, `push_within`: the two ways a push ends, as a rule for proofs about it.
use uw_ussh_server.Prelude.{
  ℕ, ◌≡◌, refl, inl, inr, false, List, none, some, Bool-cases, Option-cases, ◌⊎◌, ◌≢◌, ◌==◌, nat_eq,
  nat_beq_iff, find, length, arith,
}
use uw_ussh_server.Prelude.Int.{pos, ◌+ℤ◌, ◌-ℤ◌}
use uw_ussh_server.Error.{ApiError, Result, ok, err}
use uw_ussh_server.Db.Tables.{AccountRow, RecordRow, Db, account_row}
use uw_ussh_server.Db.Records.{
  Proto, Envelope, Account, Quota, PushResponse, Pushing, check_batch, over_account, over_server,
  everyone, start_push, commit_push, answer, push_each, push_tx, push_within, push_one, take_in,
  refuse, is_record,
}

Result-cases {ℓ} :
    {A : Type ℓ} (r : Result A) → ((e : ApiError) × (r ≡ err e)) ⊎ ((a : A) × (r ≡ ok a))
Result-cases (ok a) = inr (a, refl)
Result-cases (err e) = inl (e, refl)

-- One envelope is new, replaces the version it was based on, or is a conflict.
module _ {Kind : Type 0} (proto : Proto Kind) (account : Account) (device now : ℕ)
    (e : Envelope Kind) (s : Pushing Kind) where
  pub push_one_cases {ℓ} :
      (P : Pushing Kind → Type ℓ)
      → (find (is_record account.id e.id) s.rows ≡ none
          → P (
              take_in proto account device now e s
                (s.count +ℤ pos 1)
                (s.bytes +ℤ pos (length e.blob))))
      → ((r : RecordRow)
          → find (is_record account.id e.id) s.rows ≡ some r
          → r.seq ≡ e.base_seq
          → P (
              take_in proto account device now e s s.count
                (s.bytes +ℤ (pos (length e.blob) -ℤ pos (length r.blob)))))
      → ((r : RecordRow)
          → find (is_record account.id e.id) s.rows ≡ some r
          → r.seq ≢ e.base_seq
          → P (refuse proto account e s))
      → P (push_one proto account device now e s)
  unfolding push_one
  push_one_cases P new newer conflict =
      elim (Option-cases (find (is_record account.id e.id) s.rows)) [
        | inl missing ↦ rw (missing, push_one) (new missing)
        | inr (r, held) ↦
            rw (held, push_one)
              (elim (Bool-cases (r.seq == e.base_seq)) [
                | inl same ↦ rw same (newer r held ((nat_beq_iff r.seq e.base_seq).0 same))
                | inr other ↦ rw other (conflict r held (λ q. ground arith))
              ])
      ]

-- A whole push.
module _ {Kind : Type 0} (proto : Proto Kind) (account : Account) (device now : ℕ)
    (es : List (Envelope Kind)) (quota : Quota) (db : Db) where
  -- Where a push ends when the row of its account is `r`.
  abbrev pub pushed : AccountRow → Pushing Kind
  pushed r = push_each proto account device now es (start_push r db)

  pub record Accepts (r : AccountRow) : Type 0 where
    pub shaped : check_batch proto account es ≡ ok tt
    pub found : account_row account.id db.accounts ≡ some r
    pub account_room : over_account quota r.record_count r.record_bytes (pushed r) ≡ false
    pub server_room : over_server quota (everyone db.accounts) r.record_bytes (pushed r) ≡ false

  push_tx_cases {ℓ} :
      (P : Result (PushResponse Kind) × Db → Type ℓ) (r : AccountRow)
      → check_batch proto account es ≡ ok tt
      → account_row account.id db.accounts ≡ some r
      → ((e : ApiError) → P (err e, db))
      → ((r : AccountRow)
          → Accepts r
          → P (ok (answer (pushed r)), commit_push account (pushed r) db))
      → P (push_tx proto account device now es quota db r)
  unfolding push_tx
  push_tx_cases P r shaped found refused committed =
      elim (Bool-cases (over_account quota r.record_count r.record_bytes (pushed r))) [
        | inl over ↦ rw (over, push_tx) (refused _)
        | inr room ↦
            rw (room, push_tx)
              (elim (Bool-cases
                (over_server quota (everyone db.accounts) r.record_bytes (pushed r))) [
                  | inl full ↦ rw (full, push_tx) (refused _)
                  | inr space ↦
                      rw (space, push_tx)
                        (committed r (record {
                          shaped = shaped;
                          found = found;
                          account_room = room;
                          server_room = space;
                        }))
                ])
      ]

  -- A push is refused and changes nothing, or all its tests pass and it is committed.
  pub push_within_cases {ℓ} :
      (P : Result (PushResponse Kind) × Db → Type ℓ)
      → ((e : ApiError) → P (err e, db))
      → ((r : AccountRow)
          → Accepts r
          → P (ok (answer (pushed r)), commit_push account (pushed r) db))
      → P (push_within proto account device now es quota db)
  unfolding push_within
  push_within_cases P refused committed = elim (Result-cases (check_batch proto account es)) [
    | inl (e, bad) ↦ rw (bad, push_within) (refused e)
    | inr (tt, good) ↦
        rw (good, push_within)
          (elim (Option-cases (account_row account.id db.accounts)) [
            | inl missing ↦ rw (missing, push_within) (refused _)
            | inr (r, found) ↦
                rw (found, push_within) (push_tx_cases P r good found refused committed)
          ])
  ]
