-- ===== src/Gate/Cuts.antt =====
-- src/connections.rs: which connections are ended.
use uw_ussh_server.Prelude.{
  ℕ, ◌+◌, ◌-◌, ◌≤◌, ◌<◌, ◌≡◌, Bool, true, false, List, [], ◌∷◌, Option, none, some, leb, ltb, ◌==◌,
  nat_eq, if◌then◌else◌, length, All, All-imp, arith, refl, Bool-cases, inl, inr, suc,
}
use uw_ussh_server.Gate.Idle.{
  Doing, Guarded, Polled, pending, ready, failed, new_guarded, begin, stop, done, count_first,
  is_late, idle_too_long, poll_read, first_bytes,
}

-- When the connection was opened, what time it is, how many requests began to be answered, when those
-- that are over were, and how many bytes arrived.
pub record History : Type 0 where
  pub opened : ℕ
  pub now : ℕ
  pub begun : ℕ
  pub ended : List ℕ
  pub arrived : ℕ

abbrev pub bytes : Polled → ℕ
bytes (ready n) = n
bytes _ = 0

module _ (is_ready : ℕ → ℕ → Bool) (timeout : ℕ) where
  -- A connection after what happened to it, by a clock that does not run backwards. What is answered
  -- ends once.
  pub data Lives : History → Guarded → Type 0 where
    opens :
        (now : ℕ)
        → Lives
            (record { opened = now; now = now; begun = 0; ended = []; arrived = 0 })
            (new_guarded now timeout)
    begins :
        {h : History} {g : Guarded} → Lives h g → Lives (record h { begun = suc h.begun }) (begin g)
    stops :
        {h : History} {g : Guarded} (t : ℕ)
        → h.now ≤ t
        → length h.ended < h.begun
        → Lives h g
        → Lives (record h { now = t; ended = t ∷ h.ended }) (done t g)
    polls :
        {h : History} {g : Guarded} (t : ℕ) (polled : Polled)
        → h.now ≤ t
        → Lives h g
        → Lives
            (record h { now = t; arrived = h.arrived + bytes polled })
            (poll_read is_ready t polled g).1

  -- What is counted of the first bytes.
  abbrev IsFirst : History → Option (ℕ × ℕ) → Type 0
  IsFirst h none = 24 ≤ h.arrived
  IsFirst h (some (seen, deadline)) =
      (seen ≡ h.arrived) × (deadline ≡ h.opened + timeout) × (h.arrived < 24)

  -- What is known of a connection of which nothing is answered.
  abbrev IsIdle : History → Doing → Type 0
  IsIdle h d =
      d.answering ≡ 0 → (h.opened ≤ d.idle_since) × All (λ (e : ℕ). e ≤ d.idle_since) h.ended

  abbrev IsTold : History → Guarded → Type 0
  IsTold h g =
      (g.idle_timeout ≡ timeout)
      × (g.doing.answering + length h.ended ≡ h.begun)
      × All (λ (e : ℕ). e ≤ h.now) h.ended
      × (h.opened ≤ h.now)
      × IsIdle h g.doing
      × IsFirst h g.first

  count_first-IsFirst :
      (h : History) (t n : ℕ) (first : Option (ℕ × ℕ))
      → IsFirst h first
      → IsFirst (record h { now = t; arrived = h.arrived + n }) (count_first n first)
  count_first-IsFirst h t n none k = omega (arith, k)
  count_first-IsFirst h t n (some (seen, deadline)) (same, until, few) =
      elim (Bool-cases (leb first_bytes (seen + n))) [
        | inl enough ↦ rw enough (ground (arith, enough, same))
        | inr not_yet ↦ rw not_yet (ground (arith, same), until, ground (arith, not_yet, same))
      ]

  stop-IsTold :
      (h : History) (g : Guarded) (t : ℕ)
      → h.now ≤ t
      → length h.ended < h.begun
      → IsTold h g
      → IsTold (record h { now = t; ended = t ∷ h.ended }) (done t g)
  unfolding done stop
  stop-IsTold h g t later some_left (same, count, past, since, idle, first) =
      go (g.doing.answering - 1 == 0) refl
    where
      until : All (λ (e : ℕ). e ≤ t) (t ∷ h.ended)
      until = (
        omega arith,
        All-imp (λ (e : ℕ). e ≤ h.now) (λ (e : ℕ). e ≤ t) (λ e k. omega (arith, k, later)) h.ended
            past,
      )

      before : h.opened ≤ t
      before = omega (arith, since, later)

      go :
          (last : Bool)
          → (g.doing.answering - 1 == 0) ≡ last
          → IsTold
              (record h { now = t; ended = t ∷ h.ended })
              (record g {
                doing =
                    (if◌then◌else◌ {A = Bool × Doing} last
                      (g.doing.reader, record { answering = 0; idle_since = t; reader = false })
                      (false, record g.doing { answering = g.doing.answering - 1 })).1;
              })
      go true e =
          (same, ground (arith, e, count, some_left), until, before, (λ k. (before, until)), first)
      go false e = (
        same,
        ground (arith, e, count, some_left),
        until,
        before,
        (λ k. ground (arith, e, k)),
        first,
      )

  poll_read-IsTold :
      (h : History) (g : Guarded) (t : ℕ) (polled : Polled)
      → h.now ≤ t
      → IsTold h g
      → IsTold
          (record h { now = t; arrived = h.arrived + bytes polled })
          (poll_read is_ready t polled g).1
  unfolding poll_read idle_too_long
  poll_read-IsTold h g t polled later (same, count, past, since, idle, first) = go polled
    where
      until : All (λ (e : ℕ). e ≤ t) h.ended
      until =
          All-imp (λ (e : ℕ). e ≤ h.now) (λ (e : ℕ). e ≤ t) (λ e k. omega (arith, k, later)) h.ended
            past

      before : h.opened ≤ t
      before = omega (arith, since, later)

      still :
          (o : Option (ℕ × ℕ))
          → IsFirst h o
          → IsFirst (record h { now = t; arrived = h.arrived + 0 }) o
      still none k = omega (arith, k)
      still (some (seen, deadline)) (k, l, m) = (omega (arith, k), l, omega (arith, m))

      go :
          (p : Polled)
          → IsTold
              (record h { now = t; arrived = h.arrived + bytes p })
              (poll_read is_ready t p g).1
      go (ready n) = (same, count, until, before, idle, count_first-IsFirst h t n g.first first)
      go (failed e) = (same, count, until, before, idle, still g.first first)
      go pending = elim (Bool-cases (is_late is_ready t g.first)) [
        | inl late ↦ rw late (same, count, until, before, idle, still g.first first)
        | inr in_time ↦ elim (Bool-cases (ltb 0 g.doing.answering)) [
          | inl busy ↦ rw (in_time, busy) (same, count, until, before, idle, still g.first first)
          | inr quiet ↦ elim (Bool-cases (is_ready (g.doing.idle_since + g.idle_timeout) t)) [
            | inl over ↦
                rw (in_time, quiet, over) (same, count, until, before, idle, still g.first first)
            | inr not_over ↦
                rw (in_time, quiet, not_over)
                  (same, count, until, before, idle, still g.first first)
          ]
        ]
      ]

  Lives-IsTold : {h : History} {g : Guarded} → Lives h g → IsTold h g
  unfolding begin
  Lives-IsTold (opens now) =
      (refl, refl, tt, omega arith, (λ k. (omega arith, tt)), (refl, refl, omega arith))
  Lives-IsTold (begins {h} {g} l) =
      let (same, count, past, since, idle, first) = Lives-IsTold l in
      (same, omega (arith, count), past, since, (λ k. ground (arith, k)), first)
  Lives-IsTold (stops {h} {g} t later some_left l) =
      stop-IsTold h g t later some_left (Lives-IsTold l)
  Lives-IsTold (polls {h} {g} t polled later l) =
      poll_read-IsTold h g t polled later (Lives-IsTold l)

  -- Why a poll without anything to read is answered with more than that: time was up.
  abbrev pub IsOver : History → ℕ → Polled → Type 0
  IsOver h t pending = Unit {0}
  IsOver h t (ready n) =
      (n ≡ 0)
      × (h.begun ≡ length h.ended)
      × (h.opened + timeout ≤ t)
      × All (λ (e : ℕ). e + timeout ≤ t) h.ended
  IsOver h t (failed e) = (h.arrived < 24) × (h.opened + timeout ≤ t)

  late-IsOver :
      (h : History) (t : ℕ) (first : Option (ℕ × ℕ))
      → ((deadline now : ℕ) → is_ready deadline now ≡ true → deadline ≤ now)
      → IsFirst h first
      → is_late is_ready t first ≡ true
      → (h.arrived < 24) × (h.opened + timeout ≤ t)
  late-IsOver h t none never_early k late = ground (arith, late)
  late-IsOver h t (some (seen, deadline)) never_early (same, until, few) late =
      (few, omega (arith, until, never_early deadline t late))

  idle-IsOver :
      (h : History) (g : Guarded) (t : ℕ)
      → IsTold h g
      → g.doing.answering ≡ 0
      → g.doing.idle_since + g.idle_timeout ≤ t
      → IsOver h t (ready 0)
  idle-IsOver h g t (same, count, past, since, idle, first) none_left until =
      let (opened, before) = idle none_left in
      (
        refl,
        omega (arith, count, none_left),
        omega (arith, opened, until, same),
        All-imp (λ (e : ℕ). e ≤ g.doing.idle_since) (λ (e : ℕ). e + timeout ≤ t)
            (λ e k. omega (arith, k, until, same)) h.ended before,
      )

  -- Where no sleep is over early and the clock does not run backwards: a connection with nothing
  -- to read is closed only when every request that began to be answered is over, and it was
  -- opened, and each answer ended, at least `timeout` ago; it is refused only when fewer than 24
  -- bytes ever arrived, and it was opened at least `timeout` ago.
  pub poll_read-IsOver :
      {h : History} {g : Guarded} (t : ℕ)
      → ((deadline now : ℕ) → is_ready deadline now ≡ true → deadline ≤ now)
      → Lives h g
      → IsOver h t (poll_read is_ready t pending g).0
  unfolding poll_read idle_too_long
  poll_read-IsOver {h} {g} t never_early lives =
      let told = Lives-IsTold lives in
      elim (Bool-cases (is_late is_ready t g.first)) [
        | inl late ↦ rw late (late-IsOver h t g.first never_early told.5 late)
        | inr in_time ↦ elim (Bool-cases (ltb 0 g.doing.answering)) [
          | inl busy ↦ rw (in_time, busy) tt
          | inr quiet ↦ elim (Bool-cases (is_ready (g.doing.idle_since + g.idle_timeout) t)) [
            | inl over ↦
                rw (in_time, quiet, over)
                  (idle-IsOver h g t told (ground (arith, quiet))
                    (never_early (g.doing.idle_since + g.idle_timeout) t over))
            | inr not_over ↦ rw (in_time, quiet, not_over) tt
          ]
        ]
      ]
