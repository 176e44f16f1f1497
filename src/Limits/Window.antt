-- ===== src/Limits/Window.antt =====
-- src/limits.rs: the limiter over a history of tries and of tries forgiven, for accounts and devices.
use uw_ussh_server.Prelude.Text.{Text, text_eq}
use uw_ussh_server.Prelude.{
  ℕ, ◌+◌, ◌-◌, ◌≤◌, ◌≡◌, refl, inl, inr, Bool, false, ◌&&◌, List, [], ◌∷◌, ◌++◌, arith, ◌==◌,
  string_eq, pair_eq, ltb, leb, retain, length, Bool-cases, Option-cases, if◌then◌else◌,
}
use uw_ussh_server.Prelude.HashMap.{lookup, lookup-insert_self, insert-IsKeyed}
use uw_ussh_server.Error.{Result, ok, err}
use uw_ussh_server.Limits.{
  Bucket, Key, Hits, sweep_hits, count, take_back, forgive_member, pop_back, sweep_every,
}
use uw_ussh_server.Limits.Ledger.{fresh, UpTo, Agrees, ledger_try}
use uw_ussh_server.Limits.Members.{
  Tracks, sweep-Tracks, count_in_self, insert_other, Agrees-pop_back,
}

-- A try by, or one forgiven to, somebody.
pub data Event : Type 0 where
  tries forgives : (now : ℕ) (who : Text) (bucket : Bucket) → Event

abbrev pub time : Event → ℕ
time (tries now who b) = now
time (forgives now who b) = now

abbrev pub key_of : Event → Key
key_of (tries now who b) = (who, b.name)
key_of (forgives now who b) = (who, b.name)

abbrev pub bucket_of : Event → Bucket
bucket_of (tries now who b) = b
bucket_of (forgives now who b) = b

abbrev pub same_key : Bucket → Text → Event → Bool
same_key b who e = ◌==◌ {A = Key} (key_of e) (who, b.name)

sweep_hits-Tracks :
    (now : ℕ) (b : Bucket) (who : Text) (h : Hits) (ts : List ℕ)
    → Tracks now b who h.members ts
    → Tracks now b who (sweep_hits now h).members ts
unfolding sweep_hits
sweep_hits-Tracks now b who h ts t = elim (Bool-cases (leb sweep_every (now - h.swept))) [
  | inl due ↦ rw due (sweep-Tracks now b who h.members ts t)
  | inr early ↦ rw early t
]

module _ (network : Text → Text) where
  -- What an event does to the limiter, and whether it was let through.
  unfoldable pub step : Event → Hits → Result (Unit {0}) × Hits
  step (tries now who b) h = count network now who b false h
  step (forgives now who b) h = (ok tt, forgive_member who b h)

  abbrev pub book : Event → Result (Unit {0}) → List ℕ → List ℕ
  book (tries now who b) (ok _) ts = ts ++ now ∷ []
  book (tries now who b) (err _) ts = ts
  book (forgives now who b) r ts = pop_back ts

  -- The tries of one who in one bucket that the limiter let through and did not forgive.
  unfoldable pub let_through : Bucket → Text → List Event → Hits → List ℕ → List ℕ
  let_through b who [] h ts = ts
  let_through b who (e ∷ es) h ts =
      let_through b who es (step e h).1 (if same_key b who e then book e (step e h).0 ts else ts)

  -- The clock does not run backwards, and a bucket's name is one bucket's.
  abbrev pub Rising : ℕ → Bucket → List Event → Type 0
  Rising now b [] = Unit
  Rising now b (e ∷ es) =
      (now ≤ time e) × ((bucket_of e).name ≡ b.name → bucket_of e ≡ b) × Rising (time e) b es

  pub count_member-Tracks_self :
      (now : ℕ) (b : Bucket) (who : Text) (h : Hits) (ts : List ℕ)
      → Tracks now b who h.members ts
      → let r = count network now who b false h in
        (r.0 ≡ (ledger_try now b ts).0) × Tracks now b who r.1.members (ledger_try now b ts).1
  unfolding count
  count_member-Tracks_self now b who h ts t =
      count_in_self now b who (sweep_hits now h).members ts (sweep_hits-Tracks now b who h ts t)

  pub count_member-Tracks_other :
      (now : ℕ) (b c : Bucket) (who other : Text) (h : Hits) (ts : List ℕ)
      → ◌==◌ {A = Key} (other, c.name) (who, b.name) ≡ false
      → Tracks now b who h.members ts
      → Tracks now b who (count network now other c false h).1.members ts
  unfolding count
  count_member-Tracks_other now b c who other h ts differs t =
      insert_other now b who (other, c.name) _ (sweep_hits now h).members ts differs
        (sweep_hits-Tracks now b who h ts t)

  pub forgive_member-Tracks_self :
      (now : ℕ) (b : Bucket) (who : Text) (h : Hits) (ts : List ℕ)
      → Tracks now b who h.members ts
      → Tracks now b who (forgive_member who b h).members (pop_back ts)
  unfolding forgive_member
  forgive_member-Tracks_self now b who h ts t =
      elim (Option-cases (lookup (who, b.name) h.members.tries)) [
        | inl missing ↦
            let left : Agrees now b.window [] ts = rw missing at t.remembers in
            rw (missing, take_back)
              (record {
                keyed = t.keyed;
                remembers = rw missing (Agrees-pop_back now b.window [] ts left);
              })
        | inr (s, held) ↦
            let left : (s.window ≡ b.window) × Agrees now b.window s.at_times ts =
              rw held at t.remembers in
            rw (held, take_back)
              (record {
                keyed = insert-IsKeyed (who, b.name) _ h.members.tries t.keyed;
                remembers =
                    rw
                      (lookup-insert_self (who, b.name)
                        (record s { at_times = pop_back s.at_times }) h.members.tries)
                      (left.0, Agrees-pop_back now b.window s.at_times ts left.1);
              })
      ]

  pub forgive_member-Tracks_other :
      (now : ℕ) (b c : Bucket) (who other : Text) (h : Hits) (ts : List ℕ)
      → ◌==◌ {A = Key} (other, c.name) (who, b.name) ≡ false
      → Tracks now b who h.members ts
      → Tracks now b who (forgive_member other c h).members ts
  unfolding forgive_member
  forgive_member-Tracks_other now b c who other h ts differs t =
      elim (Option-cases (lookup (other, c.name) h.members.tries)) [
        | inl missing ↦ rw (missing, take_back) t
        | inr (s, held) ↦
            rw (held, take_back) (insert_other now b who (other, c.name) _ h.members ts differs t)
      ]

-- The tries of a ledger in the window that ends at `until`.
abbrev pub in_window : ℕ → ℕ → List ℕ → List ℕ
in_window until window = retain (λ t. leb t until && ltb (until - t) window)

-- No window holds more than the bucket allows.
abbrev pub IsBounded : Bucket → List ℕ → Type 0
IsBounded b ts = (until : ℕ) → length (in_window until b.window ts) ≤ b.max

in_window-append :
    (until window now : ℕ) (ts : List ℕ)
    → length (in_window until window (ts ++ now ∷ []))
      ≡ length (in_window until window ts) + length (in_window until window (now ∷ []))
unfolding retain
in_window-append until window now [] = omega arith
in_window-append until window now (t ∷ ts) = ground (arith, in_window-append until window now ts)

in_window_le_fresh :
    (until window now : ℕ) (ts : List ℕ)
    → now ≤ until
    → length (in_window until window ts) ≤ length (fresh now window ts)
unfolding retain
in_window_le_fresh until window now [] le = omega arith
in_window_le_fresh until window now (t ∷ ts) le =
    ground (arith, in_window_le_fresh until window now ts le)

in_window_late :
    (until window now : ℕ) (ts : List ℕ)
    → now ≤ until
    → window ≤ until - now
    → UpTo now ts
    → length (in_window until window ts) ≡ 0
unfolding retain
in_window_late until window now [] le far h = refl
in_window_late until window now (t ∷ ts) le far h =
    ground (arith, in_window_late until window now ts le far h.2, h.0)

pub ledger_try-IsBounded :
    (now : ℕ) (b : Bucket) (ts : List ℕ)
    → UpTo now ts
    → IsBounded b ts
    → IsBounded b (ledger_try now b ts).1
unfolding ledger_try retain
ledger_try-IsBounded now b ts up h until = ground (
  arith,
  h until,
  in_window-append until b.window now ts,
  in_window_le_fresh until b.window now ts,
  in_window_late until b.window now ts,
)

pub in_window-pop_back_le :
    (until window : ℕ) (ts : List ℕ)
    → length (in_window until window (pop_back ts)) ≤ length (in_window until window ts)
unfolding retain
in_window-pop_back_le until window [] = omega arith
in_window-pop_back_le until window (t ∷ []) = ground arith
in_window-pop_back_le until window (t ∷ u ∷ ts) =
    ground (arith, in_window-pop_back_le until window (u ∷ ts))
