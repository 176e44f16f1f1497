-- ===== src/Limits/Concurrent.antt =====
-- src/limits.rs: how many requests of one kind an account has going at once.
use uw_ussh_server.Prelude.{
  ℕ, ◌+◌, ◌-◌, ◌≤◌, ◌<◌, ◌≡◌, inl, inr, String, arith, ◌==◌, nat_eq, pair_eq, string_eq,
  pair_beq_iff, leb, Bool-cases, if◌then◌else◌,
}
use uw_ussh_server.Prelude.HashMap.{lookup, lookup-insert, lookup-remove, insert, remove}
use uw_ussh_server.Error.{Result, ok, err, rate_limited}
use uw_ussh_server.Limits.{AtOnce, Going, count_or_zero, start, finish}

-- How many of one kind an account has going.
abbrev pub going : ℕ × String → Going → ℕ
going key g = count_or_zero (lookup key g)

going-insert :
    (k j : ℕ × String) (n : ℕ) (g : Going)
    → going j (insert k n g) ≡ (if k == j then n else going j g)
going-insert k j n g = ground (arith, lookup-insert k j n g)

going-remove :
    (k j : ℕ × String) (g : Going) → going j (remove k g) ≡ (if k == j then 0 else going j g)
going-remove k j g = ground (arith, lookup-remove k j g)

-- What a request that asked to start did: turned away, or one more of its kind and account.
abbrev pub Started : ℕ × String → AtOnce → Going → ℕ × String → Result (ℕ × String) × Going → Type 0
Started here kind g key (err e, g') =
    (e ≡ rate_limited) × (kind.max ≤ going here g) × (going key g' ≡ going key g)
Started here kind g key (ok place, g') =
    (place ≡ here)
    × (going here g < kind.max)
    × (going key g' ≡ (if here == key then going key g + 1 else going key g))

-- A request starts exactly when its account has fewer of its kind going than the kind allows; it
-- then counts for one more of that kind and account and for none of another, and a request that is
-- turned away changes no count.
pub start-Started :
    (account : ℕ) (kind : AtOnce) (g : Going) (key : ℕ × String)
    → Started (account, kind.name) kind g key (start account kind g)
unfolding start
start-Started account kind g key =
    let here : ℕ × String = (account, kind.name) in
    elim (Bool-cases (leb kind.max (going here g))) [
      | inl full ↦
          rw full (ground (arith, going-insert here key (going here g) g, pair_beq_iff here key))
      | inr room ↦
          rw room
            (ground (arith, going-insert here key (going here g + 1) g, pair_beq_iff here key))
    ]

-- A request that ends takes one off the count of its kind and account, which stops at zero, and
-- off no other.
pub finish-going :
    (place key : ℕ × String) (g : Going)
    → going key (finish place g) ≡ (if place == key then going key g - 1 else going key g)
unfolding finish
finish-going place key g = ground (
  arith,
  pair_beq_iff place key,
  going-insert place key (count_or_zero (lookup place g) - 1) g,
  going-remove place key g,
)
