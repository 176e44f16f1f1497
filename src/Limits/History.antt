-- ===== src/Limits/History.antt =====
-- src/limits.rs: the bound that a bucket states, over every history of the members' table.
use uw_ussh_server.Prelude.Text.{Text, text_eq}
use uw_ussh_server.Prelude.{
  ℕ, ◌≤◌, ◌≡◌, ap, refl, sym, ◌∙◌, subst, inl, inr, false, List, [], ◌∷◌, arith, string_eq, pair_eq,
  pair_beq_iff, retain, length, Bool-cases,
}
use uw_ussh_server.Prelude.HashMap.{lookup}
use uw_ussh_server.Limits.{Bucket, Key, Hits, count, forgive_member, pop_back, empty_table}
use uw_ussh_server.Limits.Ledger.{UpTo, UpTo-append, UpTo-later, ledger_try}
use uw_ussh_server.Limits.Members.{Tracks, later-Tracks, UpTo-pop_back}
use uw_ussh_server.Limits.Window.{
  Event, tries, forgives, time, key_of, bucket_of, same_key, step, book, let_through, Rising,
  in_window, IsBounded, ledger_try-IsBounded, in_window-pop_back_le, count_member-Tracks_self,
  count_member-Tracks_other, forgive_member-Tracks_self, forgive_member-Tracks_other,
}

record IsSound (now : ℕ) (b : Bucket) (who : Text) (h : Hits) (ts : List ℕ) : Type 0 where
  tracks : Tracks now b who h.members ts
  bounded : IsBounded b ts
  up : UpTo now ts

later-IsSound :
    (now later : ℕ) (b : Bucket) (who : Text) (h : Hits) (ts : List ℕ)
    → now ≤ later
    → IsSound now b who h ts
    → IsSound later b who h ts
later-IsSound now later b who h ts le s = record {
  tracks = later-Tracks now later b who h.members ts le s.tracks;
  bounded = s.bounded;
  up = UpTo-later now later ts le s.up;
}

ledger_try-UpTo :
    (now : ℕ) (b : Bucket) (ts : List ℕ) → UpTo now ts → UpTo now (ledger_try now b ts).1
unfolding ledger_try
ledger_try-UpTo now b ts h = ground (arith, UpTo-append now ts h)

name-key_of : (e : Event) → (bucket_of e).name ≡ (key_of e).1
name-key_of (tries now who b) = refl
name-key_of (forgives now who b) = refl

empty-Tracks : (now : ℕ) (b : Bucket) (who : Text) → Tracks now b who empty_table []
unfolding lookup
empty-Tracks now b who = record {
  keyed = tt;
  remembers = record { same = refl; remembered_up = tt; ledger_up = tt };
}

module _ (network : Text → Text) where
  book_ledger :
      (now : ℕ) (who : Text) (b : Bucket) (ts : List ℕ)
      → book network (tries now who b) (ledger_try now b ts).0 ts ≡ (ledger_try now b ts).1
  unfolding ledger_try
  book_ledger now who b ts = ground arith

  step_try :
      (now : ℕ) (b : Bucket) (who : Text) (h : Hits) (ts : List ℕ)
      → IsSound now b who h ts
      → let r = count network now who b false h in
        IsSound now b who r.1 (book network (tries now who b) r.0 ts)
  step_try now b who h ts s =
      let c = count_member-Tracks_self network now b who h ts s.tracks in
      rw (c.0, book_ledger now who b ts)
        (record {
          tracks = c.1;
          bounded = ledger_try-IsBounded now b ts s.up s.bounded;
          up = ledger_try-UpTo now b ts s.up;
        })

  step_forgive :
      (now : ℕ) (b : Bucket) (who : Text) (h : Hits) (ts : List ℕ)
      → IsSound now b who h ts
      → IsSound now b who (forgive_member who b h) (pop_back ts)
  step_forgive now b who h ts s = record {
    tracks = forgive_member-Tracks_self network now b who h ts s.tracks;
    bounded = λ until. ground (arith, s.bounded until, in_window-pop_back_le until b.window ts);
    up = UpTo-pop_back now ts s.up;
  }

  step_self :
      (e : Event) (b : Bucket) (who : Text) (h : Hits) (ts : List ℕ)
      → key_of e ≡ (who, b.name)
      → bucket_of e ≡ b
      → IsSound (time e) b who h ts
      → IsSound (time e) b who (step network e h).1 (book network e (step network e h).0 ts)
  unfolding step
  step_self (tries now w c) b who h ts k same s =
      let same_who : w ≡ who = ap (λ (p : Key). p.0) k in
      rw (same, same_who) (step_try now b who h ts s)
  step_self (forgives now w c) b who h ts k same s =
      let same_who : w ≡ who = ap (λ (p : Key). p.0) k in
      rw (same, same_who) (step_forgive now b who h ts s)

  step_other :
      (e : Event) (b : Bucket) (who : Text) (h : Hits) (ts : List ℕ)
      → same_key b who e ≡ false
      → IsSound (time e) b who h ts
      → IsSound (time e) b who (step network e h).1 ts
  unfolding step
  step_other (tries now w c) b who h ts other s = record {
    tracks = count_member-Tracks_other network now b c who w h ts other s.tracks;
    bounded = s.bounded;
    up = s.up;
  }
  step_other (forgives now w c) b who h ts other s = record {
    tracks = forgive_member-Tracks_other network now b c who w h ts other s.tracks;
    bounded = s.bounded;
    up = s.up;
  }

  let_through-IsBounded :
      (es : List Event) (now : ℕ) (b : Bucket) (who : Text) (h : Hits) (ts : List ℕ)
      → Rising network now b es
      → IsSound now b who h ts
      → IsBounded b (let_through network b who es h ts)
  unfolding let_through
  let_through-IsBounded [] now b who h ts rising s = s.bounded
  let_through-IsBounded (e ∷ es) now b who h ts rising s =
      let s' = later-IsSound now (time e) b who h ts rising.0 s in
      elim (Bool-cases (same_key b who e)) [
        | inl same ↦
            let k : key_of e ≡ (who, b.name) = (pair_beq_iff (key_of e) (who, b.name)).0 same in
            rw same (
              let_through-IsBounded es (time e) b who _ _ rising.2
                (step_self e b who h ts k (rising.1 (name-key_of e ∙ ap (λ (p : Key). p.1) k)) s'))
        | inr other ↦ rw other (
            let_through-IsBounded es (time e) b who _ _ rising.2 (step_other e b who h ts other s'))
      ]

  -- From a limiter that remembers no member, with a clock that does not run backwards and one
  -- bucket under its name: however accounts and devices try and are forgiven, and whenever the
  -- limiter sweeps, the tries of one of them in that bucket that were let through and not forgiven
  -- are never more than the bucket allows within any window.
  pub let_through_bounded :
      (es : List Event) (b : Bucket) (who : Text) (started until : ℕ) (h : Hits)
      → h.members ≡ empty_table
      → Rising network started b es
      → length (in_window until b.window (let_through network b who es h [])) ≤ b.max
  let_through_bounded es b who started until h fresh_start rising =
      let_through-IsBounded es started b who h [] rising
        (record {
          tracks =
              subst (λ t. Tracks started b who t []) (sym fresh_start) (empty-Tracks started b who);
          bounded = λ u. unfold retain in omega arith;
          up = tt;
        })
        until
