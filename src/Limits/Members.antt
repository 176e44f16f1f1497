-- ===== src/Limits/Members.antt =====
-- src/limits.rs: accounts and devices, whose counts share one table. However their tries interleave,
-- and whenever the limiter sweeps, nobody is let through more often than the bucket allows.
use uw_ussh_server.Prelude.Text.{Text, text_eq}
use uw_ussh_server.Prelude.{
  ℕ, ◌≤◌, ◌≡◌, ◌∙◌, ap, refl, sym, inl, inr, false, List, [], ◌∷◌, Option, none, some, arith, ◌==◌,
  string_eq, pair_eq, retain, All, Bool-cases, Option-cases,
}
use uw_ussh_server.Prelude.HashMap.{
  IsKeyed, kept, lookup, lookup-insert, lookup-insert_self, lookup-retain, insert, insert-IsKeyed,
  retain-IsKeyed,
}
use uw_ussh_server.Limits.{
  Bucket, Key, Tries, Table, last, try_once, tries_of, count_in, is_recent, sweep, pop_back,
}
use uw_ussh_server.Limits.Ledger.{
  is_fresh, fresh, UpTo, Agrees, Agrees-later, ledger_try, try_once_refines, fresh_eq,
}

fresh-pop_back :
    (now window : ℕ) (ts : List ℕ)
    → UpTo now ts
    → fresh now window (pop_back ts) ≡ pop_back (fresh now window ts)
unfolding retain
fresh-pop_back now window [] h = refl
fresh-pop_back now window (t ∷ []) h = ground arith
fresh-pop_back now window (t ∷ u ∷ ts) h = elim (Bool-cases (is_fresh now window t)) [
  | inl in_window ↦
      let whole : fresh now window (u ∷ ts) ≡ u ∷ ts =
        fresh_eq now window t (u ∷ ts) in_window h.1 in
      rw in_window (
        ap (◌∷◌ t) (fresh-pop_back now window (u ∷ ts) h.2 ∙ ap pop_back whole)
        ∙ ap (λ rest. pop_back (t ∷ rest)) (sym whole))
  | inr out ↦ rw out (fresh-pop_back now window (u ∷ ts) h.2)
]

pub pop_back-All :
    (t : ℕ) (ts : List ℕ) → All (λ (u : ℕ). t ≤ u) ts → All (λ (u : ℕ). t ≤ u) (pop_back ts)
pop_back-All t [] h = tt
pop_back-All t (u ∷ []) h = tt
pop_back-All t (u ∷ v ∷ ts) h = (h.0, pop_back-All t (v ∷ ts) h.1)

pub UpTo-pop_back : (now : ℕ) (ts : List ℕ) → UpTo now ts → UpTo now (pop_back ts)
UpTo-pop_back now [] h = tt
UpTo-pop_back now (t ∷ []) h = tt
UpTo-pop_back now (t ∷ u ∷ ts) h =
    (h.0, pop_back-All t (u ∷ ts) h.1, UpTo-pop_back now (u ∷ ts) h.2)

pub Agrees-pop_back :
    (now window : ℕ) (ts us : List ℕ)
    → Agrees now window ts us
    → Agrees now window (pop_back ts) (pop_back us)
Agrees-pop_back now window ts us h = record {
  same =
      fresh-pop_back now window ts h.remembered_up
      ∙ ap pop_back h.same
      ∙ sym (fresh-pop_back now window us h.ledger_up);
  remembered_up = UpTo-pop_back now ts h.remembered_up;
  ledger_up = UpTo-pop_back now us h.ledger_up;
}

-- Where the last try is out of the window, all are.
stale_all :
    (now window : ℕ) (ts : List ℕ) (l : ℕ)
    → UpTo now ts
    → last ts ≡ some l
    → is_fresh now window l ≡ false
    → fresh now window ts ≡ []
unfolding retain
stale_all now window [] l h e old = refl
stale_all now window (t ∷ []) l h e old = ground arith
stale_all now window (t ∷ u ∷ ts) l h e old =
    let rest = stale_all now window (u ∷ ts) l h.2 e old in ground (arith, rest, h.1.0)

nothing-Agrees :
    (now window : ℕ) (ts us : List ℕ)
    → fresh now window ts ≡ []
    → Agrees now window ts us
    → Agrees now window [] us
unfolding retain
nothing-Agrees now window ts us none_left h = record {
  same = sym none_left ∙ h.same;
  remembered_up = tt;
  ledger_up = h.ledger_up;
}

-- What a table remembers under a key, against the ledger of that key.
abbrev pub Remembers : ℕ → ℕ → Option Tries → List ℕ → Type 0
Remembers now window none ledger = Agrees now window [] ledger
Remembers now window (some t) ledger = (t.window ≡ window) × Agrees now window t.at_times ledger

pub record Tracks (now : ℕ) (b : Bucket) (who : Text) (t : Table) (ledger : List ℕ) : Type 0 where
  pub keyed : IsKeyed t.tries
  pub remembers : Remembers now b.window (lookup (who, b.name) t.tries) ledger

Remembers-later :
    (now later window : ℕ) (o : Option Tries) (ledger : List ℕ)
    → now ≤ later
    → Remembers now window o ledger
    → Remembers later window o ledger
Remembers-later now later window none ledger le h = Agrees-later now later window [] ledger le h
Remembers-later now later window (some t) ledger le h =
    (h.0, Agrees-later now later window t.at_times ledger le h.1)

last-eq_nil : (ts : List ℕ) → last ts ≡ none → ts ≡ []
last-eq_nil [] h = refl
last-eq_nil (t ∷ []) h = cc
last-eq_nil (t ∷ u ∷ ts) h = absurd (cc (last-eq_nil (u ∷ ts) h))

not_recent :
    (now window : ℕ) (k : Key) (t : Tries)
    → t.window ≡ window
    → UpTo now t.at_times
    → is_recent now (k, t) ≡ false
    → fresh now window t.at_times ≡ []
not_recent now window k t same up stale = elim (Option-cases (last t.at_times)) [
  | inl nothing ↦ unfold retain in rw (last-eq_nil t.at_times nothing)
  | inr (l, e) ↦
      stale_all now window t.at_times l up e
        (rw (← same) (unfold is_recent in (rw (e, is_recent) at stale)))
]

kept-Remembers :
    (now window : ℕ) (k : Key) (o : Option Tries) (ledger : List ℕ)
    → Remembers now window o ledger
    → Remembers now window (kept (is_recent now) k o) ledger
kept-Remembers now window k none ledger h = h
kept-Remembers now window k (some t) ledger h = elim (Bool-cases (is_recent now (k, t))) [
  | inl recent ↦ rw recent h
  | inr stale ↦ rw stale (
      nothing-Agrees now window t.at_times ledger
        (not_recent now window k t h.0 h.1.remembered_up stale) h.1)
]

-- The tables of the limiter, a table swept and a table written to.
pub sweep-Tracks :
    (now : ℕ) (b : Bucket) (who : Text) (t : Table) (ledger : List ℕ)
    → Tracks now b who t ledger
    → Tracks now b who (sweep now t) ledger
unfolding sweep
sweep-Tracks now b who t ledger h = record {
  keyed = retain-IsKeyed (is_recent now) t.tries h.keyed;
  remembers =
      rw (lookup-retain (who, b.name) (is_recent now) t.tries h.keyed) (
        kept-Remembers now b.window (who, b.name) (lookup (who, b.name) t.tries) ledger
          h.remembers);
}

pub later-Tracks :
    (now later : ℕ) (b : Bucket) (who : Text) (t : Table) (ledger : List ℕ)
    → now ≤ later
    → Tracks now b who t ledger
    → Tracks later b who t ledger
later-Tracks now later b who t ledger le h = record {
  keyed = h.keyed;
  remembers =
      Remembers-later now later b.window (lookup (who, b.name) t.tries) ledger le h.remembers;
}

tries_of-Agrees :
    (now : ℕ) (b : Bucket) (o : Option Tries) (ledger : List ℕ)
    → Remembers now b.window o ledger
    → let t : Tries = elim o [
      | none ↦ record { at_times = []; window = b.window; said = false }
      | some s ↦ s
    ] in
      (t.window ≡ b.window) × Agrees now b.window t.at_times ledger
tries_of-Agrees now b none ledger h = (refl, h)
tries_of-Agrees now b (some t) ledger h = h

window-try_once : (now : ℕ) (b : Bucket) (t : Tries) → (try_once now b t).1.window ≡ t.window
unfolding try_once
window-try_once now b t = ground arith

-- A try of the one who is tracked is answered by its ledger.
pub count_in_self :
    (now : ℕ) (b : Bucket) (who : Text) (t : Table) (ledger : List ℕ)
    → Tracks now b who t ledger
    → ((count_in now b (who, b.name) t).0 ≡ (ledger_try now b ledger).0)
      × Tracks now b who (count_in now b (who, b.name) t).1 (ledger_try now b ledger).1
unfolding count_in
count_in_self now b who t ledger h =
    let s = tries_of b (who, b.name) t in
    let a = tries_of-Agrees now b (lookup (who, b.name) t.tries) ledger h.remembers in
    let r = try_once_refines now b s ledger a.1 in
    (
      r.0,
      record {
        keyed = insert-IsKeyed (who, b.name) _ t.tries h.keyed;
        remembers =
            rw (lookup-insert_self (who, b.name) (try_once now b s).1 t.tries)
              (window-try_once now b s ∙ a.0, r.1);
      },
    )

-- A try of somebody else, or in another bucket, leaves what is tracked alone.
pub insert_other :
    (now : ℕ) (b : Bucket) (who : Text) (k : Key) (s : Tries) (t : Table) (ledger : List ℕ)
    → (k == (who, b.name)) ≡ false
    → Tracks now b who t ledger
    → Tracks now b who (record t { tries = insert k s t.tries }) ledger
insert_other now b who k s t ledger other h = record {
  keyed = insert-IsKeyed k s t.tries h.keyed;
  remembers = rw (lookup-insert k (who, b.name) s t.tries, other) h.remembers;
}
