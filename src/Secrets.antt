-- ===== src/Secrets.antt =====
-- src/lib.rs and src/db/mod.rs: codes from random bytes, and the comparison of secrets. The
-- difference that the comparison gathers is kept as whether it is still zero.
use uw_ussh_server.Prelude.{
  ℕ, ◌%◌, ◌≡◌, ◌↔◌, Bool, true, ◌&&◌, List, [], ◌∷◌, ◌==◌, nat_eq, nat_beq_iff, length, arith, drop,
}

-- `CODE_ALPHABET`
abbrev pub code_alphabet : List ℕ
code_alphabet =
    65 ∷ 66 ∷ 67 ∷ 68 ∷ 69 ∷ 70 ∷ 71 ∷ 72 ∷ 74 ∷ 75 ∷ 77 ∷ 78 ∷ 80 ∷ 81 ∷ 82 ∷ 83 ∷ 84 ∷ 86 ∷ 87
    ∷ 88 ∷ 89 ∷ 90 ∷ 50 ∷ 51 ∷ 52 ∷ 53 ∷ 54 ∷ 55 ∷ 56 ∷ 57 ∷ []

abbrev pub first_or_zero : List ℕ → ℕ
first_or_zero [] = 0
first_or_zero (c ∷ cs) = c

-- The character that a random byte stands for.
abbrev pub code_char : ℕ → ℕ
code_char byte = first_or_zero (drop (byte % length code_alphabet) code_alphabet)

unfoldable pub no_difference : List ℕ → List ℕ → Bool
no_difference (x ∷ xs) (y ∷ ys) = let rest = no_difference xs ys in (x == y) && rest
no_difference _ _ = true

unfoldable pub constant_time_eq : List ℕ → List ℕ → Bool
unfolding no_difference
constant_time_eq a b = (length a == length b) && no_difference a b

-- The comparison says yes exactly to equal secrets.
pub constant_time_eq_iff : (a b : List ℕ) → (constant_time_eq a b ≡ true) ↔ (a ≡ b)
unfolding constant_time_eq no_difference
constant_time_eq_iff [] [] = ground arith
constant_time_eq_iff [] (y ∷ ys) = ground arith
constant_time_eq_iff (x ∷ xs) [] = ground arith
constant_time_eq_iff (x ∷ xs) (y ∷ ys) = ground (arith, constant_time_eq_iff xs ys, nat_beq_iff x y)
