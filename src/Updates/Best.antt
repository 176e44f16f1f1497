-- ===== src/Updates/Best.antt =====
-- src/updates.rs: what `max_by` finds among releases.
use uw_ussh_server.Prelude.{
  ◌≡◌, ◌⊎◌, inl, inr, sym, ap, subst, not, ◌||◌, refl, Bool, true, false, ◌&&◌, List, [], ◌∷◌, some,
  arith, if◌then◌else◌, All,
}
use uw_ussh_server.Updates.{
  Order, less, equal, greater, compare_versions, Release, is_greater, larger, max_from,
}
use uw_ussh_server.Updates.Versions.{flip, compare_versions-flip}

-- `a` is not newer than `b`.
abbrev pub not_newer : Release → Release → Bool
not_newer a b = not (is_greater (compare_versions a.tag_name b.tag_name))

abbrev pub every : (Release → Bool) → List Release → Bool
every p [] = true
every p (r ∷ rs) = p r && every p rs

-- Whether the order of versions is transitive on some releases.
abbrev pub is_transitive : List Release → Bool
is_transitive list =
    every
      (λ a.
        every (λ b. every (λ c. not (not_newer a b && not_newer b c) || not_newer a c) list) list)
      list

abbrev pub IsIn : Release → List Release → Type 0
IsIn x [] = ⊥
IsIn x (r ∷ rs) = (x ≡ r) ⊎ IsIn x rs

every-IsIn :
    (p : Release → Bool) (x : Release) (rs : List Release)
    → every p rs ≡ true
    → IsIn x rs
    → p x ≡ true
every-IsIn p x [] h k = absurd k
every-IsIn p x (r ∷ rs) h (inl same) = subst (λ y. p y ≡ true) (sym same) (ground (arith, h))
every-IsIn p x (r ∷ rs) h (inr later) = every-IsIn p x rs (ground (arith, h)) later

not_newer_trans :
    (list : List Release)
    → is_transitive list ≡ true
    → (a b c : Release) → IsIn a list
    → IsIn b list
    → IsIn c list
    → not_newer a b ≡ true
    → not_newer b c ≡ true
    → not_newer a c ≡ true
not_newer_trans list h a b c in_a in_b in_c first next =
    let at_a = every-IsIn _ a list h in_a in
    let at_b = every-IsIn _ b list at_a in_b in
    let at_c : (not (not_newer a b && not_newer b c) || not_newer a c) ≡ true =
      every-IsIn _ c list at_b in_c in
    ground (arith, at_c, first, next)

not_newer_self : (r : Release) → not_newer r r ≡ true
not_newer_self r =
    by_order (compare_versions r.tag_name r.tag_name) (compare_versions-flip r.tag_name r.tag_name)
  where
    by_order : (o : Order) → o ≡ flip o → not (is_greater o) ≡ true
    by_order less h = refl
    by_order equal h = refl
    by_order greater h = sym (ap is_greater h)

older-not_newer :
    (a b : Release)
    → is_greater (compare_versions a.tag_name b.tag_name) ≡ true
    → not_newer b a ≡ true
older-not_newer a b h =
    by_order (compare_versions a.tag_name b.tag_name) (compare_versions b.tag_name a.tag_name)
      (compare_versions-flip b.tag_name a.tag_name) h
  where
    by_order : (o q : Order) → q ≡ flip o → is_greater o ≡ true → not (is_greater q) ≡ true
    by_order greater q e k = rw e refl
    by_order less q e k = cc
    by_order equal q e k = cc

pub max_from-All :
    (P : Release → Type 0) (best : Release) (rs : List Release)
    → P best
    → All P rs
    → P (max_from best rs)
unfolding max_from
max_from-All P best [] h k = h
max_from-All P best (r ∷ rs) h k =
    max_from-All P (larger best (some r)) rs
      (either (is_greater (compare_versions best.tag_name r.tag_name))) k.1
  where
    either : (c : Bool) → P (if c then best else r)
    either true = h
    either false = k.0

module _ (list : List Release) (transitive : is_transitive list ≡ true) where
  -- What is left of going through releases with the best so far.
  unfoldable pub IsBest : Release → List Release → Release → Type 0
  IsBest best rs m =
      IsIn m list × (not_newer best m ≡ true) × All (λ (s : Release). not_newer s m ≡ true) rs

  pub max_from-IsBest :
      (best : Release) (rs : List Release)
      → IsIn best list
      → All (λ (s : Release). IsIn s list) rs
      → IsBest best rs (max_from best rs)
  unfolding max_from IsBest
  max_from-IsBest best [] in_best in_rs = (in_best, not_newer_self best, tt)
  max_from-IsBest best (r ∷ rs) in_best (in_r, in_rs) =
      go (is_greater (compare_versions best.tag_name r.tag_name))
        (max_from-IsBest best rs in_best in_rs) (max_from-IsBest r rs in_r in_rs) refl
    where
      go :
          (c : Bool)
          → IsBest best rs (max_from best rs)
          → IsBest r rs (max_from r rs)
          → is_greater (compare_versions best.tag_name r.tag_name) ≡ c
          → IsBest best (r ∷ rs) (max_from (if c then best else r) rs)
      go true (in_m, first, rest) _ older = (
        in_m,
        first,
        (
          not_newer_trans list transitive r best _ in_r in_best in_m (older-not_newer best r older)
              first,
          rest,
        ),
      )
      go false _ (in_m, first, rest) newer = (
        in_m,
        not_newer_trans list transitive best r _ in_best in_r in_m (ap not newer) first,
        (first, rest),
      )

  pub All-IsIn :
      (rs : List Release)
      → ((x : Release) → IsIn x rs → IsIn x list)
      → All (λ (s : Release). IsIn s list) rs
  All-IsIn [] h = tt
  All-IsIn (r ∷ rs) h = (h r (inl refl), All-IsIn rs (λ x k. h x (inr k)))
