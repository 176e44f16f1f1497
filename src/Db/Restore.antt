-- ===== src/Db/Restore.antt =====
-- src/db/mod.rs: the sequence numbers after a restore. `old` are the rows that could be read of the
-- database that is replaced: none where there is no database, or none that opens.
use uw_ussh_server.Prelude.{
  ℕ, ◌+◌, ◌≤◌, ◌≡◌, max, inl, inr, refl, subst, ◌∙◌, false, List, [], ◌∷◌, map, Option, none, some,
  arith, ◌==◌, nat_eq, nat_beq_iff, if◌then◌else◌, find, Bool-cases, Option-cases, ◌⊎◌, leb, true,
}
use uw_ussh_server.Prelude.HashMap.{HashMap, lookup, insert, IsKeyed, lookup-insert}
use uw_ussh_server.Db.Tables.{AccountRow, update_where, account_row}

abbrev pub restore_gap : ℕ
restore_gap = 1000000

-- `SELECT id, seq FROM accounts`
abbrev pub numbers : List AccountRow → List (ℕ × ℕ)
numbers = map (λ r. (r.id, r.seq))

-- `reached.extend`
unfoldable pub extend : List (ℕ × ℕ) → HashMap ℕ ℕ → HashMap ℕ ℕ
extend [] reached = reached
extend ((id, seq) ∷ rows) reached = extend rows (insert id seq reached)

-- Where an account goes on, from what the replaced database says and the backup's own number.
abbrev pub next : Option ℕ → ℕ → ℕ
next none seq = seq + restore_gap
next (some before) seq = max seq before

unfoldable pub carry_each : HashMap ℕ ℕ → List (ℕ × ℕ) → List AccountRow → List AccountRow
carry_each reached [] rows = rows
carry_each reached ((id, seq) ∷ accounts) rows =
    carry_each reached accounts
      (update_where (λ r. r.id == id) (λ r. record r { seq = next (lookup id reached) seq }) rows)

unfoldable pub carry_numbers_forward : List AccountRow → List AccountRow → List AccountRow
unfolding extend carry_each
carry_numbers_forward old backup = carry_each (extend (numbers old) []) (numbers backup) backup

lookup-numbers :
    (id : ℕ) (rows : List AccountRow) (r : AccountRow)
    → account_row id rows ≡ some r
    → lookup id (numbers rows) ≡ some r.seq
unfolding account_row find lookup
lookup-numbers id [] r h = cc
lookup-numbers id (x ∷ rows) r h = ground (arith, lookup-numbers id rows r, h)

row-update :
    (id j n : ℕ) (rows : List AccountRow) (r : AccountRow)
    → account_row j rows ≡ some r
    → account_row j (update_where (λ x. x.id == id) (λ x. record x { seq = n }) rows)
      ≡ (if id == j then some (record r { seq = n }) else some r)
unfolding account_row find update_where
row-update id j n [] r h = cc
row-update id j n (x ∷ rows) r h =
    ground (
      arith,
      row-update id j n rows r,
      h,
      nat_beq_iff x.id id,
      nat_beq_iff x.id j,
      nat_beq_iff id j,
    )

carry_each-absent :
    (reached : HashMap ℕ ℕ) (j : ℕ) (accounts : List (ℕ × ℕ)) (rows : List AccountRow)
    (r : AccountRow)
    → lookup j accounts ≡ none
    → account_row j rows ≡ some r
    → account_row j (carry_each reached accounts rows) ≡ some r
unfolding carry_each lookup
carry_each-absent reached j [] rows r absent h = h
carry_each-absent reached j ((id, seq) ∷ accounts) rows r absent h =
    let other : (id == j) ≡ false = ground (arith, absent, nat_beq_iff id j) in
    let rows' =
      update_where (λ x. x.id == id) (λ x. record x { seq = next (lookup id reached) seq }) rows in
    carry_each-absent reached j accounts rows' r (ground (arith, absent, other))
      (rw (row-update id j (next (lookup id reached) seq) rows r h, other) refl)

carry_each-present :
    (reached : HashMap ℕ ℕ) (j n : ℕ) (accounts : List (ℕ × ℕ)) (rows : List AccountRow)
    (r : AccountRow)
    → IsKeyed accounts
    → lookup j accounts ≡ some n
    → account_row j rows ≡ some r
    → account_row j (carry_each reached accounts rows)
      ≡ some (record r { seq = next (lookup j reached) n })
unfolding carry_each lookup
carry_each-present reached j n [] rows r keyed there h = cc
carry_each-present reached j n ((id, seq) ∷ accounts) rows r keyed there h =
    let f : ℕ → List AccountRow =
      λ k. update_where (λ x. x.id == id) (λ x. record x { seq = k }) rows in
    elim (Bool-cases (id == j)) [
      | inl same ↦
          let at_j : id ≡ j = (nat_beq_iff id j).0 same in
          let mine : seq ≡ n = ground (arith, there, same) in
          let gone = subst (λ i. lookup i accounts ≡ none) at_j keyed.0 in
          subst
            (λ i.
              account_row j (carry_each reached accounts (f (next (lookup id reached) seq)))
              ≡ some (record r { seq = next (lookup i reached) n }))
            at_j
            (subst
              (λ k.
                account_row j (carry_each reached accounts (f (next (lookup id reached) seq)))
                ≡ some (record r { seq = next (lookup id reached) k }))
              mine
              (carry_each-absent reached j accounts (f (next (lookup id reached) seq))
                (record r { seq = next (lookup id reached) seq }) gone
                (rw (row-update id j (next (lookup id reached) seq) rows r h, same) refl)))
      | inr other ↦
          carry_each-present reached j n accounts (f (next (lookup id reached) seq)) r keyed.1
            (ground (arith, there, other))
            (rw (row-update id j (next (lookup id reached) seq) rows r h, other) refl)
    ]

-- The number that the replaced database has for an account.
abbrev pub or_else : Option ℕ → Option ℕ → Option ℕ
or_else none b = b
or_else (some n) b = some n

lookup-extend :
    (j : ℕ) (rows : List (ℕ × ℕ)) (m : HashMap ℕ ℕ)
    → IsKeyed rows
    → lookup j (extend rows m) ≡ or_else (lookup j rows) (lookup j m)
unfolding extend lookup
lookup-extend j [] m h = refl
lookup-extend j ((id, seq) ∷ rows) m h = ground (
  arith,
  lookup-extend j rows (insert id seq m) h.1,
  lookup-insert id j seq m,
  nat_beq_iff id j,
  h.0,
)

or_else-none : (a : Option ℕ) → or_else a none ≡ a
or_else-none none = refl
or_else-none (some n) = refl

-- Where the number of an account goes on, from its row in the replaced database and the number in the
-- backup: at the larger of the two, or a million past the only one.
abbrev pub GoesOn : Option AccountRow → ℕ → ℕ → Type 0
GoesOn none seq n = n ≡ seq + 1000000
GoesOn (some before) seq n = (seq ≤ n) × (before.seq ≤ n) × ((n ≡ seq) ⊎ (n ≡ before.seq))

lookup-numbers-none :
    (id : ℕ) (rows : List AccountRow) → account_row id rows ≡ none → lookup id (numbers rows) ≡ none
unfolding account_row find lookup
lookup-numbers-none id [] h = refl
lookup-numbers-none id (x ∷ rows) h = ground (arith, lookup-numbers-none id rows, h)

next-GoesOn :
    (id seq : ℕ) (old : List AccountRow)
    → GoesOn (account_row id old) seq (next (lookup id (numbers old)) seq)
next-GoesOn id seq old = elim (Option-cases (account_row id old)) [
  | inl missing ↦ rw (missing, lookup-numbers-none id old missing) refl
  | inr (before, held) ↦
      rw (held, lookup-numbers id old before held)
        (omega arith, omega arith, larger before (Bool-cases (leb seq before.seq)))
]
  where
    larger :
        (before : AccountRow)
        → (leb seq before.seq ≡ true) ⊎ (leb seq before.seq ≡ false)
        → (max seq before.seq ≡ seq) ⊎ (max seq before.seq ≡ before.seq)
    larger before (inl le) = inr (ground (arith, le))
    larger before (inr gt) = inl (ground (arith, gt))

carry_numbers_forward-row :
    (id : ℕ) (old backup : List AccountRow) (r : AccountRow)
    → IsKeyed (numbers old)
    → IsKeyed (numbers backup)
    → account_row id backup ≡ some r
    → account_row id (carry_numbers_forward old backup)
      ≡ some (record r { seq = next (lookup id (numbers old)) r.seq })
unfolding carry_numbers_forward lookup
carry_numbers_forward-row id old backup r own_old own_backup there =
    let reached : lookup id (extend (numbers old) []) ≡ lookup id (numbers old) =
      lookup-extend id (numbers old) [] own_old ∙ or_else-none (lookup id (numbers old)) in
    subst
      (λ m.
        account_row id (carry_each (extend (numbers old) []) (numbers backup) backup)
        ≡ some (record r { seq = next m r.seq }))
      reached
      (carry_each-present (extend (numbers old) []) id r.seq (numbers backup) backup r own_backup
        (lookup-numbers id backup r there) there)

-- Where the ids are distinct in both databases: an account of the backup keeps all of its row but
-- the number, which goes on from the larger of the two where the replaced database has the
-- account, and from a million past its own where it has not.
pub carry_numbers_forward-GoesOn :
    (id : ℕ) (old backup : List AccountRow) (r : AccountRow)
    → IsKeyed (numbers old)
    → IsKeyed (numbers backup)
    → account_row id backup ≡ some r
    → (n : ℕ) × (account_row id (carry_numbers_forward old backup) ≡ some (record r { seq = n }))
      × GoesOn (account_row id old) r.seq n
carry_numbers_forward-GoesOn id old backup r own_old own_backup there = (
  next (lookup id (numbers old)) r.seq,
  carry_numbers_forward-row id old backup r own_old own_backup there,
  next-GoesOn id r.seq old,
)
