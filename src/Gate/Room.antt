-- ===== src/Gate/Room.antt =====
-- src/connections.rs: the gate's counts are those of the connections that are open.
use uw_ussh_server.Prelude.Text.{Text, text_eq}
use uw_ussh_server.Prelude.{
  ℕ, ◌+◌, ◌-◌, ◌≤◌, ◌<◌, ◌≡◌, inl, inr, List, [], ◌∷◌, Option, none, some, arith, ◌==◌, nat_eq,
  if◌then◌else◌, ltb, Bool-cases, length,
}
use uw_ussh_server.Prelude.HashMap.{lookup, lookup-insert, lookup-remove}
use uw_ussh_server.Gate.{Limits, Open, count_or_zero, turns_away, admit, give_back}

-- What happens at the gate: a connection asks for room, or one that has room closes.
pub data Move : Type 0 where
  asks : ℕ → Text → Move
  closes : Text → Move

-- How many of the open connections are from an address.
abbrev pub held : Text → List Text → ℕ
held address [] = 0
held address (x ∷ xs) = let rest = held address xs in if x == address then rest + 1 else rest

abbrev pub without : Text → List Text → List Text
without address [] = []
without address (x ∷ xs) = let rest = without address xs in if x == address then xs else x ∷ rest

-- The gate, with the addresses of the connections that hold room. A connection closes once.
abbrev pub after_ask : List Text → Option Text × Open → Open × List Text
after_ask live (none, o) = (o, live)
after_ask live (some address, o) = (o, address ∷ live)

unfoldable pub move : Limits → Move → Open × List Text → Open × List Text
move limits (asks now address) (o, live) = after_ask live (admit limits now address o)
move limits (closes address) (o, live) =
    if ltb 0 (held address live) then (give_back address o, without address live) else (o, live)

unfoldable pub moves : Limits → List Move → Open × List Text → Open × List Text
unfolding move
moves limits [] s = s
moves limits (m ∷ ms) s = moves limits ms (move limits m s)

pub record IsCounted (limits : Limits) (s : Open × List Text) : Type 0 where
  pub all : s.0.all ≡ length s.1
  pub each : (address : Text) → count_or_zero (lookup address s.0.by_address) ≡ held address s.1
  pub few : length s.1 ≤ limits.max
  pub fair : (address : Text) → 0 < limits.per_address → held address s.1 ≤ limits.per_address

held-without :
    (address x : Text) (xs : List Text)
    → held address (without x xs) ≡ (if x == address then held address xs - 1 else held address xs)
held-without address x [] = ground arith
held-without address x (y ∷ xs) = ground (
  arith,
  held-without address x xs,
  text_eq.same_iff y x,
  text_eq.same_iff y address,
  text_eq.same_iff x address,
)

length-without : (x : Text) (xs : List Text) → 0 < held x xs → length (without x xs) + 1 ≡ length xs
length-without x [] h = absurd (omega (arith, h))
length-without x (y ∷ xs) h = ground (arith, length-without x xs)

admit-IsCounted :
    (limits : Limits) (now : ℕ) (address : Text) (o : Open) (live : List Text)
    → IsCounted limits (o, live)
    → IsCounted limits (after_ask live (admit limits now address o))
unfolding admit
admit-IsCounted limits now address o live h = elim (Bool-cases (turns_away limits address o)) [
  | inl full ↦ rw full (record { all = h.all; each = h.each; few = h.few; fair = h.fair })
  | inr room ↦ rw room (record {
    all = omega (arith, h.all);
    each = λ a. ground (
      arith,
      h.each a,
      h.each address,
      text_eq.same_iff address a,
      lookup-insert address a (count_or_zero (lookup address o.by_address) + 1) o.by_address,
    );
    few = ground (arith, h.all, room);
    fair = λ a some_limit.
        ground (arith, h.fair a some_limit, h.each address, room, text_eq.same_iff address a);
  })
]

give_back-all : (address : Text) (o : Open) → (give_back address o).all ≡ o.all - 1
unfolding give_back
give_back-all address o = ground arith

give_back-each :
    (address a : Text) (o : Open)
    → count_or_zero (lookup a (give_back address o).by_address) ≡ (
        if address == a
        then count_or_zero (lookup a o.by_address) - 1
        else count_or_zero (lookup a o.by_address))
unfolding give_back
give_back-each address a o = ground (
  arith,
  text_eq.same_iff address a,
  lookup-remove address a o.by_address,
  lookup-insert address a (count_or_zero (lookup address o.by_address) - 1) o.by_address,
)

give_back-IsCounted :
    (limits : Limits) (address : Text) (o : Open) (live : List Text)
    → IsCounted limits (o, live)
    → 0 < held address live
    → IsCounted limits (give_back address o, without address live)
give_back-IsCounted limits address o live h some_held = record {
  all = omega (arith, h.all, give_back-all address o, length-without address live some_held);
  each = λ a. ground (arith, h.each a, give_back-each address a o, held-without a address live);
  few = omega (arith, h.few, length-without address live some_held);
  fair = λ a some_limit. ground (arith, h.fair a some_limit, held-without a address live);
}

move-IsCounted :
    (limits : Limits) (m : Move) (s : Open × List Text)
    → IsCounted limits s
    → IsCounted limits (move limits m s)
unfolding move
move-IsCounted limits (asks now address) (o, live) h = admit-IsCounted limits now address o live h
move-IsCounted limits (closes address) (o, live) h = elim (Bool-cases (ltb 0 (held address live))) [
  | inl there ↦ rw there (give_back-IsCounted limits address o live h (ground arith))
  | inr gone ↦ rw gone h
]

-- From a gate that is so, whatever asks for room and closes, in any order: the gate counts the
-- connections that hold room, in all and of each address, and they are never more than the limits
-- say, in all and, where there is a limit for an address, of each.
pub moves-IsCounted :
    (limits : Limits) (ms : List Move) (s : Open × List Text)
    → IsCounted limits s
    → IsCounted limits (moves limits ms s)
unfolding moves
moves-IsCounted limits [] s h = h
moves-IsCounted limits (m ∷ ms) s h =
    moves-IsCounted limits ms (move limits m s) (move-IsCounted limits m s h)
