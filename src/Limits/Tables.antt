-- ===== src/Limits/Tables.antt =====
-- src/limits.rs: the limiter's memory stays bounded, however many addresses are made up.
use uw_ussh_server.Prelude.Text.{Text, text_eq}
use uw_ussh_server.Prelude.{
  ℕ, ◌+◌, ◌-◌, ◌≤◌, ◌<◌, ◌≡◌, ◌⊎◌, refl, subst, inl, inr, Bool, true, false, not, List, [], ◌∷◌,
  none, String, arith, ◌==◌, string_eq, pair_eq, pair_beq_iff, leb, retain, length,
  length-retain_le, All, Bool-cases, Option-cases, if◌then◌else◌,
}
use uw_ussh_server.Prelude.HashMap.{
  HashMap, IsKeyed, contains_key, lookup, lookup-All, insert, insert-IsKeyed, retain-IsKeyed,
  insert-All,
}
use uw_ussh_server.Limits.{
  Bucket, Key, Tries, Table, Hits, Place, uncounted, counted_as, max_addresses, max_networks,
  everybody_else, is_recent, sweep, sweep_full, try_once, sweep_every, place_full, is_due,
  sweep_when_full, coarser, place, place_full, count_in, count_at, sweep_hits, count_address,
  count_member, count, tries_of, table_of, empty_table, sweep_tables, take_back, forgive, pop_back,
}

leb→gt : (a b : ℕ) → leb a b ≡ false → b < a
leb→gt a b h = ground arith

-- The entries but the one that everybody new shares.
abbrev pub named : String → HashMap Key Tries → HashMap Key Tries
named bucket = retain (λ e. not (◌==◌ {A = Key} e.0 (everybody_else, bucket)))

pub record IsSmall (bucket : String) (t : Table) : Type 0 where
  pub keyed : IsKeyed t.tries
  pub few : length (named bucket t.tries) ≤ max_addresses + max_networks

retain-retain_le {ℓ} :
    {A : Type ℓ} (p q : A → Bool) (xs : List A)
    → length (retain p (retain q xs)) ≤ length (retain p xs)
unfolding retain
retain-retain_le p q [] = omega arith
retain-retain_le p q (x ∷ xs) = ground (arith, retain-retain_le p q xs)

-- Writing an entry adds at most one, and none where it was there or is everybody's.
named-insert :
    (bucket : String) (k : Key) (s : Tries) (m : HashMap Key Tries)
    → length (named bucket (insert k s m))
      ≤ (if contains_key k m then length (named bucket m) else length (named bucket m) + 1)
unfolding retain insert lookup
named-insert bucket k s [] = ground arith
named-insert bucket k s ((j, w) ∷ m) = ground (arith, named-insert bucket k s m, pair_beq_iff j k)

named-insert_everybody :
    (bucket : String) (s : Tries) (m : HashMap Key Tries)
    → length (named bucket (insert (everybody_else, bucket) s m)) ≤ length (named bucket m)
unfolding retain insert
named-insert_everybody bucket s [] =
    ground (arith, pair_beq_iff (everybody_else, bucket) (everybody_else, bucket))
named-insert_everybody bucket s ((j, w) ∷ m) = ground (
  arith,
  named-insert_everybody bucket s m,
  pair_beq_iff j (everybody_else, bucket),
  pair_beq_iff (everybody_else, bucket) (everybody_else, bucket),
)

-- With distinct keys everybody's entry is one.
absent_named :
    (bucket : String) (m : HashMap Key Tries)
    → lookup (everybody_else, bucket) m ≡ none
    → length (named bucket m) ≡ length m
unfolding retain lookup
absent_named bucket [] h = refl
absent_named bucket ((j, w) ∷ m) h = ground (arith, absent_named bucket m)

length_le_named :
    (bucket : String) (m : HashMap Key Tries) → IsKeyed m → length m ≤ length (named bucket m) + 1
unfolding retain lookup
length_le_named bucket [] h = omega arith
length_le_named bucket ((j, w) ∷ m) h =
    elim (Bool-cases (◌==◌ {A = Key} j (everybody_else, bucket))) [
      | inl same ↦ rw same (
          omega (
            arith,
            absent_named bucket m (
                subst (λ k. lookup k m ≡ none) ((pair_beq_iff j (everybody_else, bucket)).0 same)
                  h.0),
          ))
      | inr other ↦ rw other (omega (arith, length_le_named bucket m h.1))
    ]

sweep-IsSmall :
    (now : ℕ) (bucket : String) (t : Table) → IsSmall bucket t → IsSmall bucket (sweep now t)
unfolding sweep
sweep-IsSmall now bucket t h = record {
  keyed = retain-IsKeyed (is_recent now) t.tries h.keyed;
  few = omega (
    arith,
    h.few,
    retain-retain_le (λ e. not (◌==◌ {A = Key} e.0 (everybody_else, bucket))) (is_recent now)
        t.tries,
  );
}

sweep_full-IsSmall :
    (now : ℕ) (bucket : String) (t : Table) → IsSmall bucket t → IsSmall bucket (sweep_full now t)
unfolding sweep_full
sweep_full-IsSmall now bucket t h = elim (Bool-cases (is_due now sweep_when_full t.swept_full)) [
  | inl due ↦
      let swept = sweep-IsSmall now bucket t h in
      rw due (record { keyed = swept.keyed; few = swept.few })
  | inr early ↦ rw early h
]

-- Where an entry may be written: it is there, there is room, or it is everybody's.
abbrev Fits : String → Key → Table → Type 0
Fits bucket k t =
    (contains_key k t.tries ≡ true)
    ⊎ (length (named bucket t.tries) < max_addresses + max_networks)
    ⊎ (k ≡ (everybody_else, bucket))

abbrev IsPlaced : String → Place × Table → Type 0
IsPlaced bucket (uncounted, t) = IsSmall bucket t
IsPlaced bucket (counted_as k, t) = IsSmall bucket t × Fits bucket k t

count_in-IsSmall :
    (now : ℕ) (b : Bucket) (k : Key) (t : Table)
    → IsSmall b.name t
    → Fits b.name k t
    → IsSmall b.name (count_in now b k t).1
unfolding count_in
count_in-IsSmall now b k t h (inl there) = record {
  keyed = insert-IsKeyed k _ t.tries h.keyed;
  few = ground (arith, h.few, named-insert b.name k (try_once now b (tries_of b k t)).1 t.tries);
}
count_in-IsSmall now b k t h (inr (inl room)) = record {
  keyed = insert-IsKeyed k _ t.tries h.keyed;
  few = ground (arith, h.few, named-insert b.name k (try_once now b (tries_of b k t)).1 t.tries);
}
count_in-IsSmall now b k t h (inr (inr shared)) = record {
  keyed = insert-IsKeyed k _ t.tries h.keyed;
  few = rw shared (
      omega (
        arith,
        h.few,
        named-insert_everybody b.name (try_once now b (tries_of b (everybody_else, b.name) t)).1
            t.tries,
      ));
}

count_at-IsSmall :
    (now : ℕ) (b : Bucket) (p : Place × Table)
    → IsPlaced b.name p
    → IsSmall b.name (count_at now b p).1
unfolding count_at
count_at-IsSmall now b (uncounted, t) h = h
count_at-IsSmall now b (counted_as k, t) h = count_in-IsSmall now b k t h.0 h.1

module _ (network : Text → Text) where
  coarser-IsPlaced :
      (who : Text) (b : Bucket) (t : Table)
      → IsSmall b.name t
      → IsPlaced b.name (coarser network who b t, t)
  unfolding coarser
  coarser-IsPlaced who b t h = ground (
    arith,
    h,
    length-retain_le (λ (e : Key × Tries). not (◌==◌ {A = Key} e.0 (everybody_else, b.name)))
        t.tries,
  )

  named_le : (b : Bucket) (t : Table) → length (named b.name t.tries) ≤ length t.tries
  named_le b t =
      length-retain_le (λ (e : Key × Tries). not (◌==◌ {A = Key} e.0 (everybody_else, b.name)))
        t.tries

  place_full-IsPlaced :
      (now : ℕ) (who : Text) (b : Bucket) (t : Table)
      → IsSmall b.name t
      → IsPlaced b.name (place_full network now who b t)
  unfolding place_full
  place_full-IsPlaced now who b t h = elim (Bool-cases (leb max_addresses (length t.tries))) [
    | inl full ↦ rw full (coarser-IsPlaced who b t h)
    | inr room ↦ rw room (h, inr (inl (omega (arith, named_le b t, leb→gt _ _ room))))
  ]

  place-IsPlaced :
      (now : ℕ) (who : Text) (b : Bucket) (t : Table)
      → IsSmall b.name t
      → IsPlaced b.name (place network now who b t)
  unfolding place
  place-IsPlaced now who b t h = elim (Bool-cases (contains_key (who, b.name) t.tries)) [
    | inl there ↦ rw there (h, inl there)
    | inr absent ↦ rw absent (elim (Bool-cases (leb max_addresses (length t.tries))) [
      | inl full ↦
          rw full
            (place_full-IsPlaced now who b (sweep_full now t) (sweep_full-IsSmall now b.name t h))
      | inr room ↦ rw room (h, inr (inl (omega (arith, named_le b t, leb→gt _ _ room))))
    ])
  ]

-- Every table is small, each for the bucket that it stands under.
abbrev pub AreSmall : HashMap String Table → Type 0
AreSmall = All (λ (e : String × Table). IsSmall e.0 e.1)

sweep_tables-AreSmall :
    (now : ℕ) (m : HashMap String Table) → AreSmall m → AreSmall (sweep_tables now m)
sweep_tables-AreSmall now [] h = tt
sweep_tables-AreSmall now ((k, t) ∷ m) h =
    (sweep-IsSmall now k t h.0, sweep_tables-AreSmall now m h.1)

sweep_hits-AreSmall :
    (now : ℕ) (h : Hits) → AreSmall h.addresses → AreSmall (sweep_hits now h).addresses
unfolding sweep_hits
sweep_hits-AreSmall now h s = elim (Bool-cases (leb sweep_every (now - h.swept))) [
  | inl due ↦ rw due (sweep_tables-AreSmall now h.addresses s)
  | inr early ↦ rw early s
]

empty-IsSmall : (bucket : String) → IsSmall bucket empty_table
unfolding retain
empty-IsSmall bucket = record { keyed = tt; few = omega arith }

table_of-IsSmall : (b : Bucket) (h : Hits) → AreSmall h.addresses → IsSmall b.name (table_of b h)
table_of-IsSmall b h s = elim (Option-cases (lookup b.name h.addresses)) [
  | inl missing ↦ rw (missing, table_of) (empty-IsSmall b.name)
  | inr (t, held) ↦
      rw (held, table_of)
        (lookup-All (λ (e : String × Table). IsSmall e.0 e.1) b.name h.addresses s held)
]

take_back-IsSmall :
    (who : Text) (b : Bucket) (t : Table) → IsSmall b.name t → IsSmall b.name (take_back who b t)
unfolding take_back
take_back-IsSmall who b t h = elim (Option-cases (lookup (who, b.name) t.tries)) [
  | inl missing ↦ rw (missing, take_back) h
  | inr (s, held) ↦
      let back : Tries = record s { at_times = pop_back s.at_times } in
      let there : contains_key (who, b.name) t.tries ≡ true = rw (held, contains_key) refl in
      rw (held, take_back)
        (record {
          keyed = insert-IsKeyed (who, b.name) back t.tries h.keyed;
          few = ground (arith, h.few, there, named-insert b.name (who, b.name) back t.tries);
        })
]

-- Forgiving a try keeps the tables so.
pub forgive-AreSmall :
    (who : Text) (b : Bucket) (h : Hits)
    → AreSmall h.addresses
    → AreSmall (forgive who b h).addresses
unfolding forgive
forgive-AreSmall who b h s = elim (Option-cases (lookup b.name h.addresses)) [
  | inl missing ↦ rw (missing, forgive) s
  | inr (t, held) ↦
      rw (held, forgive)
        (insert-All (λ (e : String × Table). IsSmall e.0 e.1) b.name (take_back who b t) h.addresses
          (take_back-IsSmall who b t
            (lookup-All (λ (e : String × Table). IsSmall e.0 e.1) b.name h.addresses s held))
          s)
]

module _ (network : Text → Text) where
  -- Where every table of addresses has distinct keys and, but for the entry of everybody else, at
  -- most the addresses and networks that the limiter remembers, this holds after anybody is
  -- counted.
  pub count-AreSmall :
      (now : ℕ) (who : Text) (b : Bucket) (address : Bool) (h : Hits)
      → AreSmall h.addresses
      → AreSmall (count network now who b address h).1.addresses
  unfolding count count_address count_member
  count-AreSmall now who b true h s =
      let s' = sweep_hits-AreSmall now h s in
      let t = table_of b (sweep_hits now h) in
      insert-All (λ (e : String × Table). IsSmall e.0 e.1) b.name _ (sweep_hits now h).addresses
        (count_at-IsSmall now b (place network now who b t)
          (place-IsPlaced network now who b t (table_of-IsSmall b (sweep_hits now h) s')))
        s'
  count-AreSmall now who b false h s = sweep_hits-AreSmall now h s

-- A table of addresses that is so holds at most one entry more than the addresses and networks
-- together.
table-length :
    (b : Bucket) (h : Hits)
    → AreSmall h.addresses
    → length (table_of b h).tries ≤ max_addresses + max_networks + 1
table-length b h s =
    let t = table_of-IsSmall b h s in
    omega (arith, t.few, length_le_named b.name (table_of b h).tries t.keyed)
