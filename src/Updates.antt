-- ===== src/Updates.antt =====
-- src/updates.rs: which release is newer. What asks GitHub and writes into the log is left out.
pub mod Versions
pub mod Best
pub mod Newest
use uw_ussh_server.Prelude.{
  ℕ, Bool, true, false, not, ◌&&◌, ◌||◌, List, [], ◌∷◌, map, Option, none, some, if◌then◌else◌,
  nat_beq, ltb, leb, retain, ◌==◌,
}
use uw_ussh_server.Prelude.Text.{Text, text, text_eq, trim, to_ascii_lowercase}
use uw_ussh_server.Prelude.Numerals.{parse_u64, split}

pub data Channel : Type 0 where
  stable beta : Channel

abbrev pub has_dash : Text → Bool
has_dash [] = false
has_dash (c ∷ cs) = nat_beq c 45 || has_dash cs

abbrev pub follows_beta : Option Text → Bool
follows_beta none = false
follows_beta (some tag) = map to_ascii_lowercase (trim tag) == text "beta"

unfoldable pub channel_of : Option Text → Text → Channel
unfolding trim
channel_of followed running = if follows_beta followed || has_dash running then beta else stable

abbrev pub trim_v : Text → Text
trim_v [] = []
trim_v (c ∷ cs) = let rest = trim_v cs in if nat_beq c 118 then rest else c ∷ cs

abbrev pub after_char : ℕ → Text × Option Text → Text × Option Text
after_char c (front, rest) = (c ∷ front, rest)

-- `split_once('-')`, with what comes before and after.
abbrev pub split_dash : Text → Text × Option Text
split_dash [] = ([], none)
split_dash (c ∷ cs) =
    let rest = split_dash cs in if nat_beq c 45 then ([], some cs) else after_char c rest

abbrev pub cons_number : Option ℕ → Option (List ℕ) → Option (List ℕ)
cons_number (some n) (some ns) = some (n ∷ ns)
cons_number _ _ = none

abbrev pub all_numbers : List Text → Option (List ℕ)
all_numbers [] = some []
all_numbers (part ∷ parts) = cons_number (parse_u64 part) (all_numbers parts)

abbrev pub pre_parts : Option Text → Option (List Text)
pre_parts none = none
pre_parts (some pre) = some (split 46 pre)

abbrev pub Key : Type 0
Key = List ℕ × Option (List Text)

abbrev pub with_pre : Option (List ℕ) → Option (List Text) → Option Key
with_pre none pre = none
with_pre (some numbers) pre = some (numbers, pre)

unfoldable pub version_key : Text → Option Key
unfolding trim split parse_u64
version_key version =
    let (core, pre) = split_dash (trim_v (trim version)) in
    with_pre (all_numbers (split 46 core)) (pre_parts pre)

pub data Order : Type 0 where
  less equal greater : Order

abbrev pub then_order : Order → Order → Order
then_order less rest = less
then_order equal rest = rest
then_order greater rest = greater

abbrev pub order_numbers : ℕ → ℕ → Order
order_numbers a b = if ltb a b then less else if ltb b a then greater else equal

-- `cmp` of lists and of texts: by their first difference, and then by length.
unfoldable pub order_lists : List ℕ → List ℕ → Order
order_lists [] [] = equal
order_lists [] (y ∷ ys) = less
order_lists (x ∷ xs) [] = greater
order_lists (x ∷ xs) (y ∷ ys) = then_order (order_numbers x y) (order_lists xs ys)

-- Two parts of a pre-release: as numbers where both are, and as texts otherwise.
abbrev pub order_read : Option ℕ → Option ℕ → Order → Order
order_read (some x) (some y) texts = order_numbers x y
order_read _ _ texts = texts

unfoldable pub order_parts : Text → Text → Order
unfolding order_lists parse_u64
order_parts x y = order_read (parse_u64 x) (parse_u64 y) (order_lists x y)

unfoldable pub order_pre : List Text → List Text → Order
unfolding order_parts
order_pre [] [] = equal
order_pre [] (y ∷ ys) = less
order_pre (x ∷ xs) [] = greater
order_pre (x ∷ xs) (y ∷ ys) = then_order (order_parts x y) (order_pre xs ys)

-- A pre-release comes before its release.
abbrev pub order_releases : Option (List Text) → Option (List Text) → Order
order_releases none none = equal
order_releases none (some b) = greater
order_releases (some a) none = less
order_releases (some a) (some b) = order_pre a b

abbrev pub order_keys : Option Key → Option Key → Order
order_keys (some a) (some b) = then_order (order_lists a.0 b.0) (order_releases a.1 b.1)
order_keys _ _ = equal

unfoldable pub compare_versions : Text → Text → Order
unfolding version_key order_lists order_pre
compare_versions a b = order_keys (version_key a) (version_key b)

-- `GitHubRelease`
pub record Release : Type 0 where
  pub tag_name : Text
  pub draft : Bool
  pub prerelease : Bool
  pub html_url : Text

abbrev pub is_beta : Channel → Bool
is_beta beta = true
is_beta stable = false

abbrev pub is_greater : Order → Bool
is_greater greater = true
is_greater _ = false

unfoldable pub is_on : Channel → Release → Bool
is_on channel r = not r.draft && (is_beta channel || not r.prerelease)

unfoldable pub is_newer : Text → Release → Bool
unfolding compare_versions
is_newer current r = is_greater (compare_versions r.tag_name current)

abbrev pub larger : Release → Option Release → Release
larger best none = best
larger best (some other) =
    if is_greater (compare_versions best.tag_name other.tag_name) then best else other

-- `max_by`: from the left, and of equal ones the last.
unfoldable pub max_from : Release → List Release → Release
unfolding compare_versions
max_from best [] = best
max_from best (r ∷ rs) = max_from (larger best (some r)) rs

abbrev pub max_by : List Release → Option Release
max_by [] = none
max_by (r ∷ rs) = some (max_from r rs)

unfoldable pub newest_release : List Release → Text → Channel → Option Release
unfolding is_on is_newer max_from
newest_release list current channel =
    max_by (retain (is_newer current) (retain (is_on channel) list))
