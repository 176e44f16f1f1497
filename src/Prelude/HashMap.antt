-- ===== src/Prelude/HashMap.antt =====
-- A hash map as an association list. The program never relies on the order of its entries.
use uw_ussh_server.Prelude.Tests.{if◌then◌else◌, Bool-cases}
use uw_ussh_server.Prelude.Equality.{Eq, ◌==◌}
use uw_ussh_server.Prelude.Lists.{length, retain, All}
use Prim.Native.Nat.{◌+◌, ◌≤◌}
use mathlib.Core.Path.{◌≡◌, refl, subst}
use mathlib.Core.Logic.{inl, inr}
use mathlib.Core.Bool.{Bool, true, false}
use mathlib.Core.List.{List, [], ◌∷◌}
use mathlib.Core.Option.{Option, none, some}
use native.Mathlib.Omega.{arith}

abbrev pub HashMap {ℓ κ} : Type ℓ → Type κ → Type (ℓ ⊔ κ)
HashMap K V = List (K × V)

module _ {ℓ κ} {K : Type ℓ} {V : Type κ} ⦃e : Eq K⦄ where
  unfoldable pub lookup : K → HashMap K V → Option V
  lookup k [] = none
  lookup k ((j, v) ∷ m) = if j == k then some v else lookup k m

  abbrev pub contains_key : K → HashMap K V → Bool
  contains_key k m = elim (lookup k m) [ none ↦ false | some _ ↦ true ]

  unfoldable pub insert : K → V → HashMap K V → HashMap K V
  insert k v [] = (k, v) ∷ []
  insert k v ((j, w) ∷ m) = if j == k then (k, v) ∷ m else (j, w) ∷ insert k v m

  unfoldable pub remove : K → HashMap K V → HashMap K V
  remove k [] = []
  remove k ((j, w) ∷ m) = let rest = remove k m in if j == k then rest else (j, w) ∷ rest

  -- No key stands twice.
  abbrev pub IsKeyed : HashMap K V → Type κ
  IsKeyed [] = Unit
  IsKeyed ((k, v) ∷ m) = (lookup k m ≡ none) × IsKeyed m

  -- What a map reads after a key was written.
  pub lookup-insert :
      (written asked : K) (v : V) (m : HashMap K V)
      → lookup asked (insert written v m) ≡ (if written == asked then some v else lookup asked m)
  unfolding insert lookup
  lookup-insert written asked v [] = refl
  lookup-insert written asked v ((i, w) ∷ m) = ground (
    arith,
    lookup-insert written asked v m,
    e.same_iff i asked,
    e.same_iff i written,
    e.same_iff written asked,
  )

  pub lookup-remove :
      (k j : K) (m : HashMap K V) → lookup j (remove k m) ≡ (if k == j then none else lookup j m)
  unfolding lookup remove
  lookup-remove k j [] = ground arith
  lookup-remove k j ((i, w) ∷ m) =
      ground (arith, e.same_iff k j, e.same_iff i k, e.same_iff i j, lookup-remove k j m)

  pub lookup-insert_self : (k : K) (v : V) (m : HashMap K V) → lookup k (insert k v m) ≡ some v
  lookup-insert_self k v m = ground (arith, lookup-insert k k v m, e.same_iff k k)

  pub lookup-remove_self : (k : K) (m : HashMap K V) → lookup k (remove k m) ≡ none
  lookup-remove_self k m = ground (arith, lookup-remove k k m, e.same_iff k k)

  pub insert-IsKeyed : (k : K) (v : V) (m : HashMap K V) → IsKeyed m → IsKeyed (insert k v m)
  unfolding insert lookup
  insert-IsKeyed k v [] h = (refl, tt)
  insert-IsKeyed k v ((j, w) ∷ m) h =
      ground
        (arith, e.same_iff j k, e.same_iff k j, insert-IsKeyed k v m h.1, lookup-insert k j v m)

  pub remove-IsKeyed : (k : K) (m : HashMap K V) → IsKeyed m → IsKeyed (remove k m)
  unfolding remove
  remove-IsKeyed k [] h = tt
  remove-IsKeyed k ((j, w) ∷ m) h =
      ground (arith, remove-IsKeyed k m h.1, lookup-remove k j m, e.same_iff k j, e.same_iff j k)

  pub lookup-retain-none :
      (k : K) (p : K × V → Bool) (m : HashMap K V)
      → lookup k m ≡ none
      → lookup k (retain p m) ≡ none
  unfolding lookup retain
  lookup-retain-none k p [] h = refl
  lookup-retain-none k p ((j, w) ∷ m) h = ground (arith, lookup-retain-none k p m)

  pub retain-IsKeyed : (p : K × V → Bool) (m : HashMap K V) → IsKeyed m → IsKeyed (retain p m)
  unfolding retain
  retain-IsKeyed p [] h = tt
  retain-IsKeyed p ((j, w) ∷ m) h = ground (arith, retain-IsKeyed p m h.1, lookup-retain-none j p m)

  -- What a map with distinct keys reads after `retain`.
  abbrev pub kept : (K × V → Bool) → K → Option V → Option V
  kept p k none = none
  kept p k (some v) = if p (k, v) then some v else none

  pub lookup-retain :
      (k : K) (p : K × V → Bool) (m : HashMap K V)
      → IsKeyed m
      → lookup k (retain p m) ≡ kept p k (lookup k m)
  unfolding lookup retain
  lookup-retain k p [] h = refl
  lookup-retain k p ((j, w) ∷ m) h =
      ground (arith, e.same_iff j k, lookup-retain k p m h.1, lookup-retain-none k p m)

  pub length-insert_le : (k : K) (v : V) (m : HashMap K V) → length (insert k v m) ≤ length m + 1
  unfolding insert
  length-insert_le k v [] = omega arith
  length-insert_le k v ((j, w) ∷ m) = ground (arith, length-insert_le k v m)

  pub length-insert :
      (k : K) (v : V) (m : HashMap K V)
      → length (insert k v m) ≡ (if contains_key k m then length m else length m + 1)
  unfolding insert lookup
  length-insert k v [] = omega arith
  length-insert k v ((j, w) ∷ m) = ground (arith, length-insert k v m)

  pub lookup-All {μ} :
      (P : K × V → Type μ) (k : K) (m : HashMap K V) {v : V}
      → All P m
      → lookup k m ≡ some v
      → P (k, v)
  unfolding lookup
  lookup-All P k [] h q = cc
  lookup-All P k ((j, w) ∷ m) {v} h q = elim (Bool-cases (j == k)) [
    | inl same ↦ subst P (ground (arith, e.same_iff j k)) h.0
    | inr other ↦ lookup-All P k m {v = v} h.1 (ground arith)
  ]

  pub insert-All {μ} :
      (P : K × V → Type μ) (k : K) (v : V) (m : HashMap K V)
      → P (k, v)
      → All P m
      → All P (insert k v m)
  unfolding insert
  insert-All P k v [] p h = (p, tt)
  insert-All P k v ((j, w) ∷ m) p h = ground (arith, insert-All P k v m p h.1)

  pub remove-All {μ} : (P : K × V → Type μ) (k : K) (m : HashMap K V) → All P m → All P (remove k m)
  unfolding remove
  remove-All P k [] h = tt
  remove-All P k ((j, w) ∷ m) h = ground (arith, remove-All P k m h.1)
