-- ===== src/Updates/Versions.antt =====
-- src/updates.rs: comparing versions.
use uw_ussh_server.Prelude.{ℕ, ◌≡◌, refl, List, [], ◌∷◌, Option, none, some, arith}
use uw_ussh_server.Prelude.Text.{Text}
use uw_ussh_server.Prelude.Numerals.{parse_u64}
use uw_ussh_server.Updates.{
  Key, Order, less, equal, greater, then_order, order_numbers, order_lists, order_read, order_parts,
  order_pre, order_releases, order_keys, version_key, compare_versions,
}

abbrev pub flip : Order → Order
flip less = greater
flip equal = equal
flip greater = less

then_order-flip :
    (a b c d : Order) → a ≡ flip c → b ≡ flip d → then_order a b ≡ flip (then_order c d)
then_order-flip a b less d h k = rw (h, then_order) refl
then_order-flip a b equal d h k = rw (h, then_order) k
then_order-flip a b greater d h k = rw (h, then_order) refl

order_numbers-flip : (a b : ℕ) → order_numbers a b ≡ flip (order_numbers b a)
order_numbers-flip a b = ground arith

order_lists-flip : (xs ys : List ℕ) → order_lists xs ys ≡ flip (order_lists ys xs)
unfolding order_lists
order_lists-flip [] [] = refl
order_lists-flip [] (y ∷ ys) = refl
order_lists-flip (x ∷ xs) [] = refl
order_lists-flip (x ∷ xs) (y ∷ ys) =
    then_order-flip (order_numbers x y) (order_lists xs ys) (order_numbers y x) (order_lists ys xs)
      (order_numbers-flip x y) (order_lists-flip xs ys)

order_parts-flip : (x y : Text) → order_parts x y ≡ flip (order_parts y x)
unfolding order_parts
order_parts-flip x y = read_flip (parse_u64 x) (parse_u64 y)
  where
    read_flip :
        (m n : Option ℕ)
        → order_read m n (order_lists x y) ≡ flip (order_read n m (order_lists y x))
    read_flip none none = order_lists-flip x y
    read_flip none (some n) = order_lists-flip x y
    read_flip (some m) none = order_lists-flip x y
    read_flip (some m) (some n) = order_numbers-flip m n

order_pre-flip : (xs ys : List Text) → order_pre xs ys ≡ flip (order_pre ys xs)
unfolding order_pre
order_pre-flip [] [] = refl
order_pre-flip [] (y ∷ ys) = refl
order_pre-flip (x ∷ xs) [] = refl
order_pre-flip (x ∷ xs) (y ∷ ys) =
    then_order-flip (order_parts x y) (order_pre xs ys) (order_parts y x) (order_pre ys xs)
      (order_parts-flip x y) (order_pre-flip xs ys)

order_releases-flip : (a b : Option (List Text)) → order_releases a b ≡ flip (order_releases b a)
order_releases-flip none none = refl
order_releases-flip none (some b) = refl
order_releases-flip (some a) none = refl
order_releases-flip (some a) (some b) = order_pre-flip a b

-- Comparing two versions the other way round gives the opposite.
pub compare_versions-flip : (a b : Text) → compare_versions a b ≡ flip (compare_versions b a)
unfolding compare_versions
compare_versions-flip a b = by_keys (version_key a) (version_key b)
  where
    by_keys : (k l : Option Key) → order_keys k l ≡ flip (order_keys l k)
    by_keys none none = refl
    by_keys none (some l) = refl
    by_keys (some k) none = refl
    by_keys (some k) (some l) =
        then_order-flip (order_lists k.0 l.0) (order_releases k.1 l.1) (order_lists l.0 k.0)
          (order_releases l.1 k.1) (order_lists-flip k.0 l.0) (order_releases-flip k.1 l.1)
