-- ===== src/Updates/Newest.antt =====
-- src/updates.rs: the release that is offered.
use uw_ussh_server.Prelude.{
  ◌≡◌, ◌≢◌, ◌⊎◌, inl, inr, ap, subst, Bool-cases, not, ◌||◌, refl, Bool, true, false, ◌&&◌, List,
  [], ◌∷◌, Option, none, some, arith, if◌then◌else◌, retain, All, All-retain, All-imp,
}
use uw_ussh_server.Prelude.Text.{Text}
use uw_ussh_server.Updates.{
  Channel, stable, beta, is_beta, Order, less, equal, greater, compare_versions, Release,
  is_greater, is_on, is_newer, max_from, max_by, newest_release,
}
use uw_ussh_server.Updates.Best.{
  not_newer, is_transitive, IsIn, IsBest, max_from-All, max_from-IsBest, All-IsIn,
}

-- A release that is offered to whoever runs `current`: published, of the channel, and newer.
abbrev pub IsWanted : Channel → Text → Release → Type 0
IsWanted channel current r =
    (r.draft ≡ false)
    × ((channel ≡ beta) ⊎ (r.prerelease ≡ false))
    × (compare_versions r.tag_name current ≡ greater)

-- Among the releases: one that is wanted, and none that is wanted is newer than it; or none is wanted.
abbrev pub IsNewest : Channel → Text → List Release → Option Release → Type 0
IsNewest channel current list none = All (λ (s : Release). ¬ (IsWanted channel current s)) list
IsNewest channel current list (some r) =
    IsIn r list
    × IsWanted channel current r
    × All
        (λ (s : Release).
          (¬ (IsWanted channel current s)) ⊎ (compare_versions s.tag_name r.tag_name ≢ greater))
        list

-- What holds of what is kept, or is not kept.
All-retain-or :
    (P : Release → Type 0) (p : Release → Bool) (rs : List Release)
    → All P (retain p rs)
    → All (λ (s : Release). (p s ≡ false) ⊎ P s) rs
unfolding retain
All-retain-or P p [] h = tt
All-retain-or P p (r ∷ rs) h = elim (Bool-cases (p r)) [
  | inl holds ↦
      let k : All P (r ∷ retain p rs) =
        subst (λ c. All P (if c then r ∷ retain p rs else retain p rs)) holds h in
      (inr k.0, All-retain-or P p rs k.1)
  | inr fails ↦
      let k : All P (retain p rs) =
        subst (λ c. All P (if c then r ∷ retain p rs else retain p rs)) fails h in
      (inl fails, All-retain-or P p rs k)
]

retain-holds :
    (p : Release → Bool) (rs : List Release) → All (λ (r : Release). p r ≡ true) (retain p rs)
unfolding retain
retain-holds p [] = tt
retain-holds p (r ∷ rs) = ground (arith, retain-holds p rs)

of_channel :
    (channel : Channel) (draft pre : Bool)
    → (not draft && (is_beta channel || not pre)) ≡ true
    → (draft ≡ false) × ((channel ≡ beta) ⊎ (pre ≡ false))
of_channel beta false pre h = (refl, inl refl)
of_channel beta true pre h = cc
of_channel stable false false h = (refl, inr refl)
of_channel stable false true h = cc
of_channel stable true pre h = cc

on_channel :
    (channel : Channel) (draft pre : Bool)
    → draft ≡ false
    → (channel ≡ beta) ⊎ (pre ≡ false)
    → (not draft && (is_beta channel || not pre)) ≡ true
on_channel channel draft pre out (inl at_beta) = rw (out, at_beta) refl
on_channel beta draft pre out (inr full) = rw out refl
on_channel stable draft pre out (inr full) = rw (out, full) refl

of_greater : (o : Order) → is_greater o ≡ true → o ≡ greater
of_greater greater h = refl
of_greater less h = cc
of_greater equal h = cc

not_greater : (o : Order) → not (is_greater o) ≡ true → o ≢ greater
not_greater o h e = cc (ap is_greater e)

module _ (channel : Channel) (current : Text) where
  is_on-IsWanted :
      (r : Release)
      → is_on channel r ≡ true
      → is_newer current r ≡ true
      → IsWanted channel current r
  unfolding is_on is_newer
  is_on-IsWanted r on newer =
      let (out, of) = of_channel channel r.draft r.prerelease on in
      (out, of, of_greater (compare_versions r.tag_name current) newer)

  off-IsWanted : (r : Release) → is_on channel r ≡ false → ¬ (IsWanted channel current r)
  unfolding is_on
  off-IsWanted r off (out, of, _) = cc (on_channel channel r.draft r.prerelease out of)

  old-IsWanted : (r : Release) → is_newer current r ≡ false → ¬ (IsWanted channel current r)
  unfolding is_newer
  old-IsWanted r old (_, _, newer) = cc (ap is_greater newer)

  IsIn-retain :
      (p : Release → Bool) (x : Release) (rs : List Release) → IsIn x (retain p rs) → IsIn x rs
  unfolding retain
  IsIn-retain p x [] k = k
  IsIn-retain p x (r ∷ rs) k = go (p r) (IsIn-retain p x rs) k
    where
      go :
          (c : Bool)
          → (IsIn x (retain p rs) → IsIn x rs)
          → IsIn x (if c then r ∷ retain p rs else retain p rs)
          → IsIn x (r ∷ rs)
      go true rest (inl same) = inl same
      go true rest (inr later) = inr (rest later)
      go false rest later = inr (rest later)

  unwanted :
      (s : Release)
      → (is_on channel s ≡ false) ⊎ ((is_newer current s ≡ false) ⊎ ⊥)
      → ¬ (IsWanted channel current s)
  unwanted s (inl off) = off-IsWanted s off
  unwanted s (inr (inl old)) = old-IsWanted s old
  unwanted s (inr (inr never)) = absurd never

  sorts_out :
      (r s : Release)
      → (is_on channel s ≡ false) ⊎ ((is_newer current s ≡ false) ⊎ (not_newer s r ≡ true))
      → (¬ (IsWanted channel current s)) ⊎ (compare_versions s.tag_name r.tag_name ≢ greater)
  sorts_out r s (inl off) = inl (off-IsWanted s off)
  sorts_out r s (inr (inl old)) = inl (old-IsWanted s old)
  sorts_out r s (inr (inr below)) = inr (not_greater (compare_versions s.tag_name r.tag_name) below)

  -- Where the order of versions is transitive on the releases: what is offered is one of them,
  -- published, of the channel and newer than what is running, and none that is so is newer than
  -- it; nothing is offered only where none is so.
  pub newest_release-IsNewest :
      (list : List Release)
      → is_transitive list ≡ true
      → IsNewest channel current list (newest_release list current channel)
  unfolding newest_release IsBest
  newest_release-IsNewest list transitive =
      by_list (retain (is_newer current) (retain (is_on channel) list))
        (All-retain (λ (r : Release). is_on channel r ≡ true) (is_newer current)
          (retain (is_on channel) list) (retain-holds (is_on channel) list))
        (retain-holds (is_newer current) (retain (is_on channel) list))
        (All-IsIn list transitive (retain (is_newer current) (retain (is_on channel) list))
          (λ x k. IsIn-retain (is_on channel) x list (IsIn-retain (is_newer current) x _ k)))
        (λ P k.
          All-retain-or (λ (s : Release). (is_newer current s ≡ false) ⊎ P s) (is_on channel) list
            (All-retain-or P (is_newer current) (retain (is_on channel) list) k))
    where
      by_list :
          (rs : List Release)
          → All (λ (r : Release). is_on channel r ≡ true) rs
          → All (λ (r : Release). is_newer current r ≡ true) rs
          → All (λ (r : Release). IsIn r list) rs
          → ((P : Release → Type 0)
              → All P rs
              → All
                  (λ (s : Release).
                    (is_on channel s ≡ false) ⊎ ((is_newer current s ≡ false) ⊎ P s))
                  list)
          → IsNewest channel current list (max_by rs)
      by_list [] on newer in_list spread =
          All-imp (λ (s : Release). (is_on channel s ≡ false) ⊎ ((is_newer current s ≡ false) ⊎ ⊥))
            (λ (s : Release). ¬ (IsWanted channel current s)) unwanted list (spread (λ s. ⊥) tt)
      by_list (r ∷ rs) on newer in_list spread =
          let best = max_from-IsBest list transitive r rs in_list.0 in_list.1 in
          let m = max_from r rs in
          (
            best.0,
            is_on-IsWanted m (max_from-All (λ (x : Release). is_on channel x ≡ true) r rs on.0 on.1)
                (max_from-All (λ (x : Release). is_newer current x ≡ true) r rs newer.0 newer.1),
            All-imp
                (λ (s : Release).
                  (is_on channel s ≡ false)
                  ⊎ ((is_newer current s ≡ false) ⊎ (not_newer s m ≡ true)))
                (λ (s : Release).
                  (¬ (IsWanted channel current s))
                  ⊎ (compare_versions s.tag_name m.tag_name ≢ greater))
                (sorts_out m) list
                (spread (λ (s : Release). not_newer s m ≡ true) (best.1, best.2)),
          )
