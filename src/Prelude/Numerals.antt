-- ===== src/Prelude/Numerals.antt =====
-- Numbers as texts, and texts cut at a character, as the standard library of Rust has them.
use Prim.Native.Nat.{ℕ, zero, suc, ◌+◌, ◌-◌, ◌*◌, ◌/◌, ◌%◌, ◌≤◌, ◌<◌}
use mathlib.Core.Path.{◌≡◌, refl, ap}
use mathlib.Core.Logic.{◌≢◌, inl, inr}
use mathlib.Core.Bool.{Bool, true, false, ◌&&◌, ◌||◌}
use mathlib.Core.Option.{Option, none, some}
use mathlib.Core.List.{List, [], ◌∷◌, ◌++◌}
use native.Mathlib.Omega.{arith}
use uw_ussh_server.Prelude.Tests.{ltb, leb, nat_beq, if◌then◌else◌, Bool-cases}
use uw_ussh_server.Prelude.Lists.{length, is_empty, All, length-append}
use uw_ussh_server.Prelude.Text.{Text, is_in, text_beq, text_beq_iff}

abbrev pub digit : ℕ → ℕ
digit d = if ltb d 10 then 48 + d else 87 + d

-- The digits of a number, at most as many as the fuel.
unfoldable pub digits_on : ℕ → ℕ → ℕ → Text
digits_on zero base n = []
digits_on (suc fuel) base n = elim (ltb n base) [
  | true ↦ digit n ∷ []
  | false ↦ digits_on fuel base (n / base) ++ digit (n % base) ∷ []
]

-- `{}` and `{:x}` of a number of 64 bits, which has at most 20 digits.
abbrev pub display : ℕ → Text
display = digits_on 20 10

abbrev pub hex : ℕ → Text
hex = digits_on 20 16

abbrev pub is_digit : ℕ → Bool
is_digit = is_in 48 57

unfoldable pub parse_digits : ℕ → Text → Option ℕ
parse_digits acc [] = some acc
parse_digits acc (c ∷ cs) = elim (is_digit c) [
  | true ↦ parse_digits (acc * 10 + (c - 48)) cs
  | false ↦ none
]

abbrev pub at_most : ℕ → Option ℕ → Option ℕ
at_most top none = none
at_most top (some n) = if leb n top then some n else none

abbrev pub max_u64 : ℕ
max_u64 = 18446744073709551615

-- `str::parse` of a `u64`: a plus sign may stand before the digits.
unfoldable pub parse_u64 : Text → Option ℕ
unfolding parse_digits
parse_u64 [] = none
parse_u64 (c ∷ []) = at_most max_u64 (parse_digits 0 (c ∷ []))
parse_u64 (c ∷ d ∷ cs) =
    at_most max_u64 (parse_digits 0 (if nat_beq c 43 then d ∷ cs else c ∷ d ∷ cs))

pub at_most-le : (top : ℕ) (o : Option ℕ) (n : ℕ) → at_most top o ≡ some n → n ≤ top
at_most-le top none n h = ground (arith, h)
at_most-le top (some m) n h = ground (arith, h)

-- What is read is a number of 64 bits.
pub parse_u64-le : (value : Text) (n : ℕ) → parse_u64 value ≡ some n → n ≤ max_u64
unfolding parse_u64
parse_u64-le [] n h = ground (arith, h)
parse_u64-le (c ∷ []) n h = at_most-le max_u64 (parse_digits 0 (c ∷ [])) n h
parse_u64-le (c ∷ d ∷ cs) n h =
    at_most-le max_u64 (parse_digits 0 (if nat_beq c 43 then d ∷ cs else c ∷ d ∷ cs)) n h

abbrev pub prepend : ℕ → List Text → List Text
prepend c [] = (c ∷ []) ∷ []
prepend c (p ∷ ps) = (c ∷ p) ∷ ps

-- `str::split` at a character.
unfoldable pub split : ℕ → Text → List Text
split sep [] = [] ∷ []
split sep (c ∷ cs) = let rest = split sep cs in if nat_beq c sep then [] ∷ rest else prepend c rest

unfoldable pub strip_suffix : Text → Text → Option Text
strip_suffix suffix [] = if text_beq [] suffix then some [] else none
strip_suffix suffix (c ∷ cs) =
    let rest = strip_suffix suffix cs in
    if text_beq (c ∷ cs) suffix
    then some []
    else elim rest [ none ↦ none | some front ↦ some (c ∷ front) ]

unfoldable pub strip_prefix : Text → Text → Option Text
strip_prefix [] cs = some cs
strip_prefix (p ∷ ps) [] = none
strip_prefix (p ∷ ps) (c ∷ cs) = let rest = strip_prefix ps cs in if nat_beq p c then rest else none

abbrev pub Lacks : ℕ → Text → Type 0
Lacks sep = All (λ (c : ℕ). c ≢ sep)

pub Lacks-append : (sep : ℕ) (xs ys : Text) → Lacks sep xs → Lacks sep ys → Lacks sep (xs ++ ys)
Lacks-append sep [] ys h k = k
Lacks-append sep (x ∷ xs) ys h k = (h.0, Lacks-append sep xs ys h.1 k)

pub split-Lacks : (sep : ℕ) (p : Text) → Lacks sep p → split sep p ≡ p ∷ []
unfolding split
split-Lacks sep [] h = refl
split-Lacks sep (c ∷ p) h = ground (arith, split-Lacks sep p h.1, h.0)

pub split-append :
    (sep : ℕ) (p rest : Text) → Lacks sep p → split sep (p ++ sep ∷ rest) ≡ p ∷ split sep rest
unfolding split
split-append sep [] rest h = ground arith
split-append sep (c ∷ p) rest h = ground (arith, split-append sep p rest h.1, h.0)

abbrev pub first_of : Text → Text
first_of [] = []
first_of (c ∷ cs) = c ∷ []

-- What is no digit stands in no number.
pub digits_on-Lacks :
    (sep : ℕ) → ((d : ℕ) → digit d ≢ sep) → (fuel base n : ℕ) → Lacks sep (digits_on fuel base n)
unfolding digits_on
digits_on-Lacks sep other zero base n = tt
digits_on-Lacks sep other (suc fuel) base n = elim (Bool-cases (ltb n base)) [
  | inl last ↦ rw (last, digits_on) (other n, tt)
  | inr more ↦
      rw (more, digits_on)
        (Lacks-append sep (digits_on fuel base (n / base)) (digit (n % base) ∷ [])
          (digits_on-Lacks sep other fuel base (n / base)) (other (n % base), tt))
]

pub digit-ne-dot : (d : ℕ) → digit d ≢ 46
digit-ne-dot d = ground arith

pub digit-ne-colon : (d : ℕ) → digit d ≢ 58
digit-ne-colon d = ground arith

text_beq_refl : (xs : Text) → text_beq xs xs ≡ true
text_beq_refl xs = (text_beq_iff xs xs).1 refl

shorter : (xs ys : Text) → length xs ≢ length ys → text_beq xs ys ≡ false
shorter xs ys h = elim (Bool-cases (text_beq xs ys)) [
  | inl same ↦ absurd (h (ap length ((text_beq_iff xs ys).0 same)))
  | inr different ↦ different
]

-- What stands before a suffix.
pub strip_suffix-append : (front suffix : Text) → strip_suffix suffix (front ++ suffix) ≡ some front
unfolding strip_suffix
strip_suffix-append [] [] = refl
strip_suffix-append [] (s ∷ ss) = ground (arith, text_beq_refl (s ∷ ss))
strip_suffix-append (c ∷ front) suffix =
    rw
      (
        shorter (c ∷ front ++ suffix) suffix (omega (arith, length-append (c ∷ front) suffix)),
        strip_suffix-append front suffix,
      )
      refl

-- `Ipv4Addr` reads a part of at most three digits, without a zero in front.
unfoldable pub octet : Text → Option ℕ
unfolding parse_digits
octet p =
    if is_empty p || (ltb 3 (length p) || (ltb 1 (length p) && text_beq (first_of p) (48 ∷ [])))
    then none
    else at_most 255 (parse_digits 0 p)

one_digit : (n : ℕ) → n < 10 → octet (digits_on 20 10 n) ≡ some n
unfolding octet digits_on parse_digits
one_digit n h = ground arith

two_digits : (n : ℕ) → 10 ≤ n → n < 100 → octet (digits_on 20 10 n) ≡ some n
unfolding octet digits_on parse_digits
two_digits n low h = ground arith

three_digits : (n : ℕ) → 100 ≤ n → n < 256 → octet (digits_on 20 10 n) ≡ some n
unfolding octet digits_on parse_digits
three_digits n low h = ground arith

pub octet-display : (n : ℕ) → n < 256 → octet (display n) ≡ some n
octet-display n h = elim (Bool-cases (ltb n 10)) [
  | inl one ↦ one_digit n (ground (arith, one))
  | inr more ↦ elim (Bool-cases (ltb n 100)) [
    | inl two ↦ two_digits n (ground (arith, more)) (ground (arith, two))
    | inr three ↦ three_digits n (ground (arith, three)) h
  ]
]
