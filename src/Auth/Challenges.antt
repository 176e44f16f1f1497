-- ===== src/Auth/Challenges.antt =====
-- src/auth.rs: a challenge is answered once, and a device has few of them.
use uw_ussh_server.Prelude.{
  ℕ, ◌+◌, ◌-◌, ◌≤◌, ◌<◌, ◌≡◌, inl, inr, Bool, true, false, List, [], ◌∷◌, ◌++◌, none, arith, nat_eq,
  leb, length, length-append, length-retain_le, retain, All, Bool-cases, Option-cases,
  if◌then◌else◌, refl, is_empty, drop,
}
use uw_ussh_server.Prelude.HashMap.{
  lookup, lookup-All, insert-All, insert-IsKeyed, remove-All, remove-IsKeyed, IsKeyed,
  lookup-insert_self, lookup-remove_self,
}
use uw_ussh_server.Prelude.Text.{text_eq, text_beq_iff}
use uw_ussh_server.Auth.{
  challenges_per_device, Outstanding, is_good, retain_good, or_none, add_challenge, issue_challenge,
  is_other, spend, challenge_ttl_ms,
}

retain-twice {ℓ} : {A : Type ℓ} (p : A → Bool) (xs : List A) → retain p (retain p xs) ≡ retain p xs
unfolding retain
retain-twice p [] = refl
retain-twice p (x ∷ xs) = ground (arith, retain-twice p xs)

-- Of two requests that carry the same challenge of a device, the second is told that it is spent.
pub spend-once :
    (device : ℕ) (challenge : List ℕ) (inner : Outstanding)
    → (spend device challenge (spend device challenge inner).1).0 ≡ false
unfolding spend
spend-once device challenge inner = elim (Option-cases (lookup device inner)) [
  | inl missing ↦ rw (missing, spend) (rw missing refl)
  | inr (issued, held) ↦
      rw (held, spend)
        (elim (Bool-cases (is_empty (retain (is_other challenge) issued))) [
          | inl nothing ↦ rw nothing (rw (lookup-remove_self device inner) refl)
          | inr something ↦ rw something (
              rw
                (
                  lookup-insert_self device (retain (is_other challenge) issued) inner,
                  retain-twice (is_other challenge) issued,
                )
                (ground arith))
        ])
]

last_spent :
    (challenge : List ℕ) (expires : ℕ) (issued : List (List ℕ × ℕ))
    → length (retain (is_other challenge) (issued ++ (challenge, expires) ∷ []))
      < length (issued ++ (challenge, expires) ∷ [])
unfolding retain
last_spent challenge expires [] = ground (arith, text_beq_iff challenge challenge)
last_spent challenge expires (e ∷ issued) = ground (arith, last_spent challenge expires issued)

-- A challenge that was just given to a device can be spent by it.
issue-spend :
    (now : ℕ) (challenge : List ℕ) (device : ℕ) (inner : Outstanding)
    → (spend device challenge (issue_challenge now challenge device inner).1).0 ≡ true
unfolding issue_challenge spend
issue-spend now challenge device inner =
    let old = or_none (lookup device (retain_good now inner)) in
    let short = if leb challenges_per_device (length old) then drop 1 old else old in
    rw
      (
        lookup-insert_self device (add_challenge challenge (now + challenge_ttl_ms) old)
            (retain_good now inner),
        spend,
      )
      (ground (arith, last_spent challenge (now + challenge_ttl_ms) short))

-- A device that is listed has something to answer, and not too much.
abbrev pub IsFew : ℕ × List (List ℕ × ℕ) → Type 0
IsFew e = (0 < length e.1) × (length e.1 ≤ challenges_per_device)

abbrev pub AreFew : Outstanding → Type 0
AreFew inner = IsKeyed inner × All IsFew inner

retain_good-none :
    (now device : ℕ) (inner : Outstanding)
    → lookup device inner ≡ none
    → lookup device (retain_good now inner) ≡ none
unfolding retain_good lookup
retain_good-none now device [] h = refl
retain_good-none now device ((d, issued) ∷ inner) h =
    ground (arith, retain_good-none now device inner)

length-is_empty {ℓ} : {A : Type ℓ} (xs : List A) → is_empty xs ≡ false → 0 < length xs
length-is_empty [] h = absurd (ground (arith, h))
length-is_empty (x ∷ xs) h = omega arith

retain_good-AreFew : (now : ℕ) (inner : Outstanding) → AreFew inner → AreFew (retain_good now inner)
unfolding retain_good
retain_good-AreFew now [] h = h
retain_good-AreFew now ((d, issued) ∷ inner) h =
    let rest = retain_good-AreFew now inner (h.0.1, h.1.1) in
    elim (Bool-cases (is_empty (retain (is_good now) issued))) [
      | inl nothing ↦ rw nothing rest
      | inr something ↦ rw something (
        (retain_good-none now d inner h.0.0, rest.0),
        (
          (
            length-is_empty (retain (is_good now) issued) something,
            omega (arith, h.1.0, length-retain_le (is_good now) issued),
          ),
          rest.1,
        ),
      )
    ]

length-drop_one {ℓ} : {A : Type ℓ} (xs : List A) → length (drop 1 xs) ≡ length xs - 1
length-drop_one [] = refl
length-drop_one (x ∷ xs) = omega arith

or_none-few :
    (device : ℕ) (inner : Outstanding)
    → AreFew inner
    → length (or_none (lookup device inner)) ≤ challenges_per_device
or_none-few device inner h = elim (Option-cases (lookup device inner)) [
  | inl missing ↦ rw missing (omega arith)
  | inr (issued, held) ↦ rw held (lookup-All IsFew device inner h.1 held).1
]

add_challenge-IsFew :
    (device : ℕ) (challenge : List ℕ) (expires : ℕ) (old : List (List ℕ × ℕ))
    → length old ≤ challenges_per_device
    → IsFew (device, add_challenge challenge expires old)
add_challenge-IsFew device challenge expires old h = ground (
  arith,
  length-append old ((challenge, expires) ∷ []),
  length-append (drop 1 old) ((challenge, expires) ∷ []),
  length-drop_one old,
)

-- Where devices are listed once, each with at least one and at most `challenges_per_device`
-- challenges, this holds after one more is given out.
pub issue_challenge-AreFew :
    (now : ℕ) (challenge : List ℕ) (device : ℕ) (inner : Outstanding)
    → AreFew inner
    → AreFew (issue_challenge now challenge device inner).1
unfolding issue_challenge
issue_challenge-AreFew now challenge device inner h =
    let h' = retain_good-AreFew now inner h in
    let new =
      add_challenge challenge (now + challenge_ttl_ms)
        (or_none (lookup device (retain_good now inner))) in
    (
      insert-IsKeyed device new (retain_good now inner) h'.0,
      insert-All IsFew device new (retain_good now inner)
          (add_challenge-IsFew device challenge _ (or_none (lookup device (retain_good now inner)))
            (or_none-few device (retain_good now inner) h'))
          h'.1,
    )

-- So does spending one.
pub spend-AreFew :
    (device : ℕ) (challenge : List ℕ) (inner : Outstanding)
    → AreFew inner
    → AreFew (spend device challenge inner).1
unfolding spend
spend-AreFew device challenge inner h = elim (Option-cases (lookup device inner)) [
  | inl missing ↦ rw (missing, spend) h
  | inr (issued, held) ↦
      let left = retain (is_other challenge) issued in
      let few = lookup-All IsFew device inner h.1 held in
      rw (held, spend)
        (elim (Bool-cases (is_empty left)) [
          | inl nothing ↦
              rw nothing (remove-IsKeyed device inner h.0, remove-All IsFew device inner h.1)
          | inr something ↦ rw something (
            insert-IsKeyed device left inner h.0,
            insert-All IsFew device left inner
                (
                  length-is_empty left something,
                  omega (arith, few, length-retain_le (is_other challenge) issued),
                )
                h.1,
          )
        ])
]
