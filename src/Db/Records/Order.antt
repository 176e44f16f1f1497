-- ===== src/Db/Records/Order.antt =====
-- src/db/records.rs, `pull`: the rows after a cursor, in the order of their numbers.
use uw_ussh_server.Prelude.{
  ℕ, ◌≤◌, ◌^◌, ◌<◌, ◌≡◌, ◌≢◌, ◌∙◌, ap, refl, sym, inl, inr, Bool, ◌&&◌, List, [], ◌∷◌, arith,
  nat_eq, ltb, leb, retain, All, All-imp, All-retain, Bool-cases, if◌then◌else◌,
}
use uw_ussh_server.Prelude.Int.{pos, ltb_ℤ, as_i64}
use uw_ussh_server.Db.Tables.{RecordRow, Db}
use uw_ussh_server.Db.Records.{is_of, insert_by_seq, order_by_seq, rows_after}
use uw_ussh_server.Db.Records.Numbers.{AreDistinct, Differs}

-- Numbers that never fall along the list, and numbers that rise above `n`.
abbrev Sorted : List RecordRow → Type 0
Sorted [] = Unit
Sorted (r ∷ rs) = All (λ (q : RecordRow). r.seq ≤ q.seq) rs × Sorted rs

abbrev pub Ascending : ℕ → List RecordRow → Type 0
Ascending n [] = Unit
Ascending n (r ∷ rs) = (n < r.seq) × Ascending r.seq rs

insert_by_seq-All {ℓ} :
    (P : RecordRow → Type ℓ) (n : RecordRow) (rs : List RecordRow)
    → P n
    → All P rs
    → All P (insert_by_seq n rs)
unfolding insert_by_seq
insert_by_seq-All P n [] p h = (p, tt)
insert_by_seq-All P n (r ∷ rs) p h = ground (arith, insert_by_seq-All P n rs p h.1)

order_by_seq-All {ℓ} :
    (P : RecordRow → Type ℓ) (rs : List RecordRow) → All P rs → All P (order_by_seq rs)
unfolding order_by_seq
order_by_seq-All P [] h = tt
order_by_seq-All P (r ∷ rs) h =
    insert_by_seq-All P r (order_by_seq rs) h.0 (order_by_seq-All P rs h.1)

insert_by_seq-Sorted :
    (n : RecordRow) (rs : List RecordRow) → Sorted rs → Sorted (insert_by_seq n rs)
unfolding insert_by_seq
insert_by_seq-Sorted n [] h = (tt, tt)
insert_by_seq-Sorted n (r ∷ rs) h = elim (Bool-cases (leb n.seq r.seq)) [
  | inl le ↦ rw le (
    (
      ground arith,
      All-imp (λ (q : RecordRow). r.seq ≤ q.seq) (λ (q : RecordRow). n.seq ≤ q.seq)
          (λ q rq. ground arith) rs h.0,
    ),
    h,
  )
  | inr gt ↦ rw gt (
    insert_by_seq-All (λ (q : RecordRow). r.seq ≤ q.seq) n rs (ground arith) h.0,
    insert_by_seq-Sorted n rs h.1,
  )
]

order_by_seq-Sorted : (rs : List RecordRow) → Sorted (order_by_seq rs)
unfolding order_by_seq
order_by_seq-Sorted [] = tt
order_by_seq-Sorted (r ∷ rs) = insert_by_seq-Sorted r (order_by_seq rs) (order_by_seq-Sorted rs)

-- Filtering and ordering commute.
insert_front :
    (n : RecordRow) (rs : List RecordRow)
    → All (λ (q : RecordRow). n.seq ≤ q.seq) rs
    → insert_by_seq n rs ≡ n ∷ rs
unfolding insert_by_seq
insert_front n [] h = refl
insert_front n (r ∷ rs) h = ground arith

retain-insert_by_seq :
    (p : RecordRow → Bool) (n : RecordRow) (rs : List RecordRow)
    → Sorted rs
    → retain p (insert_by_seq n rs) ≡ (if p n then insert_by_seq n (retain p rs) else retain p rs)
unfolding insert_by_seq retain
retain-insert_by_seq p n [] h = ground arith
retain-insert_by_seq p n (r ∷ rs) h = elim (Bool-cases (leb n.seq r.seq)) [
  | inl le ↦ rw le (
      ground (
        arith,
        insert_front n (retain p rs) (
            All-retain (λ (q : RecordRow). n.seq ≤ q.seq) p rs
              (All-imp (λ (q : RecordRow). r.seq ≤ q.seq) (λ (q : RecordRow). n.seq ≤ q.seq)
                (λ q rq. ground arith) rs h.0)),
      ))
  | inr gt ↦ rw gt (ground (arith, retain-insert_by_seq p n rs h.1))
]

pub retain-order_by_seq :
    (p : RecordRow → Bool) (rs : List RecordRow)
    → retain p (order_by_seq rs) ≡ order_by_seq (retain p rs)
unfolding order_by_seq retain
retain-order_by_seq p [] = refl
retain-order_by_seq p (r ∷ rs) = ground (
  arith,
  retain-insert_by_seq p r (order_by_seq rs) (order_by_seq-Sorted rs),
  retain-order_by_seq p rs,
)

-- The rows of an account whose numbers are above a cursor, in the order of their numbers.
unfoldable pub rows_above : Db → ℕ → ℕ → List RecordRow
rows_above db a since = order_by_seq (retain (λ r. is_of a r && ltb since r.seq) db.records)

above_cast :
    (a since : ℕ) (rows : List RecordRow)
    → since < 2 ^ 63
    → retain (λ r. is_of a r && ltb_ℤ (as_i64 since) (pos r.seq)) rows
      ≡ retain (λ r. is_of a r && ltb since r.seq) rows
unfolding retain
above_cast a since [] h = refl
above_cast a since (r ∷ rows) h = ground (arith, h, above_cast a since rows h)

-- Where the cursor fits 63 bits, `pull` reads the rows above it.
pub rows_after-rows_above :
    (db : Db) (a since : ℕ) → since < 2 ^ 63 → rows_after db a since ≡ rows_above db a since
unfolding rows_after rows_above
rows_after-rows_above db a since h = ap order_by_seq (above_cast a since db.records h)

pub rows_above-All {ℓ} :
    (P : RecordRow → Type ℓ) (db : Db) (a since : ℕ)
    → All P db.records
    → All P (rows_above db a since)
unfolding rows_above
rows_above-All P db a since h =
    order_by_seq-All P _ (All-retain P (λ r. is_of a r && ltb since r.seq) db.records h)

retain_twice :
    (a since c : ℕ) (rows : List RecordRow)
    → since ≤ c
    → retain (λ r. ltb c r.seq) (retain (λ r. is_of a r && ltb since r.seq) rows)
      ≡ retain (λ r. is_of a r && ltb c r.seq) rows
unfolding retain
retain_twice a since c [] h = refl
retain_twice a since c (r ∷ rows) h = ground (arith, retain_twice a since c rows h)

-- A later cursor sees the rows above it and no others.
pub rows_above_later :
    (db : Db) (a since c : ℕ)
    → since ≤ c
    → rows_above db a c ≡ retain (λ r. ltb c r.seq) (rows_above db a since)
unfolding rows_above
rows_above_later db a since c h =
    ap order_by_seq (sym (retain_twice a since c db.records h))
    ∙ sym (retain-order_by_seq (λ r. ltb c r.seq) _)

-- The rows of one account with distinct numbers, once ordered, rise.
insert_by_seq-Ascending :
    (k : ℕ) (n : RecordRow) (rs : List RecordRow)
    → k < n.seq
    → All (λ (q : RecordRow). q.seq ≢ n.seq) rs
    → Ascending k rs
    → Ascending k (insert_by_seq n rs)
unfolding insert_by_seq
insert_by_seq-Ascending k n [] lt ne h = (lt, tt)
insert_by_seq-Ascending k n (r ∷ rs) lt ne h = elim (Bool-cases (leb n.seq r.seq)) [
  | inl le ↦ rw le (lt, (ground (arith, ne.0), h.1))
  | inr gt ↦ rw gt (h.0, insert_by_seq-Ascending r.seq n rs (ground arith) ne.1 h.1)
]

kept_Differs :
    (a since : ℕ) (r : RecordRow) (rows : List RecordRow)
    → r.account_id ≡ a
    → All (Differs r) rows
    → All (λ (q : RecordRow). q.seq ≢ r.seq) (retain (λ q. is_of a q && ltb since q.seq) rows)
unfolding retain
kept_Differs a since r [] e h = tt
kept_Differs a since r (q ∷ rows) e h = ground (arith, kept_Differs a since r rows e h.1, h.0)

order_by_seq-Ascending :
    (a since : ℕ) (rows : List RecordRow)
    → AreDistinct rows
    → Ascending since (order_by_seq (retain (λ r. is_of a r && ltb since r.seq) rows))
unfolding retain order_by_seq
order_by_seq-Ascending a since [] h = tt
order_by_seq-Ascending a since (r ∷ rows) h = elim (Bool-cases (is_of a r && ltb since r.seq)) [
  | inl mine ↦ rw mine (
      insert_by_seq-Ascending since r _ (ground arith)
        (order_by_seq-All (λ (q : RecordRow). q.seq ≢ r.seq) _
          (kept_Differs a since r rows (ground arith) h.0))
        (order_by_seq-Ascending a since rows h.1))
  | inr other ↦ rw other (order_by_seq-Ascending a since rows h.1)
]

pub rows_above-Ascending :
    (db : Db) (a since : ℕ) → AreDistinct db.records → Ascending since (rows_above db a since)
unfolding rows_above
rows_above-Ascending db a since h = order_by_seq-Ascending a since db.records h
