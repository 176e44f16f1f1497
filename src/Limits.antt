-- ===== src/Limits.antt =====
-- src/limits.rs: how often somebody may try. Instants and durations are milliseconds of a clock
-- that does not run backwards; `duration_since` is 0 for an instant in the future. What is
-- written into the log is left out, what is remembered of it is not.
pub mod Ledger
pub mod Members
pub mod Window
pub mod History
pub mod Tables
pub mod Concurrent
use uw_ussh_server.Prelude.Text.{Text, text_eq, text}
use uw_ussh_server.Prelude.{
  ℕ, ◌+◌, ◌-◌, ◌*◌, ◌≡◌, Bool, true, false, ◌&&◌, not, List, [], ◌∷◌, ◌++◌, Option, none, some,
  String, ◌==◌, nat_eq, string_eq, pair_eq, if◌then◌else◌, retain, length, ltb, leb, map,
}
use uw_ussh_server.Prelude.HashMap.{HashMap, lookup, contains_key, insert, remove}
use uw_ussh_server.Error.{Result, ok, err, rate_limited}

pub data WhenFull : Type 0 where
  admit coarsen : WhenFull

pub record Bucket : Type 0 where
  pub name : String
  pub max : ℕ
  pub window : ℕ
  pub when_full : WhenFull

abbrev pub accounts : Bucket
accounts = record { name = "accounts"; max = 5; window = 3600000; when_full = coarsen }

abbrev pub session : Bucket
session = record { name = "session"; max = 30; window = 60000; when_full = admit }

abbrev pub sign_in : Bucket
sign_in = record { name = "sign-in"; max = 300; window = 60000; when_full = admit }

abbrev pub enrol : Bucket
enrol = record { name = "enrol"; max = 10; window = 600000; when_full = coarsen }

abbrev pub pair : Bucket
pair = record { name = "pair"; max = 60; window = 600000; when_full = coarsen }

abbrev pub push : Bucket
push = record { name = "push"; max = 120; window = 60000; when_full = admit }

abbrev pub pull : Bucket
pull = record { name = "pull"; max = 600; window = 60000; when_full = admit }

abbrev pub joins : Bucket
joins = record { name = "joins"; max = 10; window = 600000; when_full = admit }

abbrev pub proof : Bucket
proof = record { name = "proof"; max = 10; window = 3600000; when_full = admit }

-- Requests of one kind one account may have going at the same time.
pub record AtOnce : Type 0 where
  pub name : String
  pub max : ℕ

abbrev pub pulls : AtOnce
pulls = record { name = "pulls"; max = 4 }

abbrev pub pushes : AtOnce
pushes = record { name = "pushes"; max = 4 }

abbrev pub max_addresses : ℕ
max_addresses = 20000

abbrev pub max_networks : ℕ
max_networks = 5000

abbrev pub everybody_else : Text
everybody_else = text "everybody else"

abbrev pub sweep_every : ℕ
sweep_every = 60000

abbrev pub sweep_when_full : ℕ
sweep_when_full = 1000

-- Who tries, in which bucket.
abbrev pub Key : Type 0
Key = Text × String

pub record Tries : Type 0 where
  -- Oldest first.
  pub at_times : List ℕ
  pub window : ℕ
  pub said : Bool

pub record Table : Type 0 where
  pub tries : HashMap Key Tries
  pub swept_full : Option ℕ

abbrev pub empty_table : Table
empty_table = record { tries = []; swept_full = none }

pub record Hits : Type 0 where
  pub addresses : HashMap String Table
  pub members : Table
  pub swept : ℕ
  pub said_full : Option ℕ

abbrev pub last : List ℕ → Option ℕ
last [] = none
last (t ∷ []) = some t
last (t ∷ u ∷ ts) = last (u ∷ ts)

-- Whether the last try is still in the window.
unfoldable pub is_recent : ℕ → Key × Tries → Bool
is_recent now (k, t) = elim (last t.at_times) [ none ↦ false | some l ↦ ltb (now - l) t.window ]

-- `Table::sweep`
unfoldable pub sweep : ℕ → Table → Table
unfolding is_recent
sweep now t = record t { tries = retain (is_recent now) t.tries }

abbrev pub sweep_tables : ℕ → HashMap String Table → HashMap String Table
sweep_tables now = map (λ e. (e.0, sweep now e.1))

-- Long enough ago, or never.
abbrev pub is_due : ℕ → ℕ → Option ℕ → Bool
is_due now after none = true
is_due now after (some t) = leb after (now - t)

-- The tries that have left the window go, from the front.
unfoldable pub drop_old : ℕ → ℕ → List ℕ → List ℕ
drop_old now window [] = []
drop_old now window (t ∷ ts) =
    let rest = drop_old now window ts in if leb window (now - t) then rest else t ∷ ts

-- One more try of somebody whose tries are known.
unfoldable pub try_once : ℕ → Bucket → Tries → Result (Unit {0}) × Tries
unfolding drop_old
try_once now b t =
    let kept = drop_old now b.window t.at_times in
    if leb b.max (length kept)
    then (err rate_limited, record t { at_times = kept; said = true })
    else (ok tt, record t { at_times = kept ++ now ∷ []; said = false })

-- `or_insert_with`
abbrev pub tries_of : Bucket → Key → Table → Tries
tries_of b k t = elim (lookup k t.tries) [
  | none ↦ record { at_times = []; window = b.window; said = false }
  | some s ↦ s
]

-- The end of `count`, in the table and under the key that were found.
unfoldable pub count_in : ℕ → Bucket → Key → Table → Result (Unit {0}) × Table
unfolding try_once
count_in now b k t =
    let (r, s) = try_once now b (tries_of b k t) in (r, record t { tries = insert k s t.tries })

-- Who a newcomer is counted as once there is no room to remember it: as nobody, or under a key.
pub data Place : Type 0 where
  uncounted : Place
  counted_as : Key → Place

unfoldable pub sweep_full : ℕ → Table → Table
unfolding sweep
sweep_full now t =
    if is_due now sweep_when_full t.swept_full
    then record (sweep now t) { swept_full = some now }
    else t

abbrev pub table_of : Bucket → Hits → Table
table_of b h = elim (lookup b.name h.addresses) [ none ↦ empty_table | some t ↦ t ]

-- The sweep once a minute.
unfoldable pub sweep_hits : ℕ → Hits → Hits
unfolding sweep
sweep_hits now h =
    if leb sweep_every (now - h.swept)
    then record h {
      addresses = sweep_tables now h.addresses;
      members = sweep now h.members;
      swept = now;
    }
    else h

unfoldable pub count_member : ℕ → Text → Bucket → Hits → Result (Unit {0}) × Hits
unfolding count_in
count_member now who b h =
    let (r, t) = count_in now b (who, b.name) h.members in (r, record h { members = t })

unfoldable pub count_at : ℕ → Bucket → Place × Table → Result (Unit {0}) × Table
count_at now b (uncounted, t) = (ok tt, t)
count_at now b (counted_as k, t) = count_in now b k t

-- The limiter asks `network` for the network of an address: a parameter, which `Address.network` is.
module _ (network : Text → Text) where
  unfoldable pub coarser : Text → Bucket → Table → Place
  coarser who b t = elim b.when_full [
    | admit ↦ uncounted
    | coarsen ↦
        if not (contains_key (network who, b.name) t.tries)
          && leb (max_addresses + max_networks) (length t.tries)
        then counted_as (everybody_else, b.name)
        else counted_as (network who, b.name)
  ]

  unfoldable pub place_full : ℕ → Text → Bucket → Table → Place × Table
  unfolding coarser
  place_full now who b t =
      if leb max_addresses (length t.tries)
      then (coarser who b t, t)
      else (counted_as (who, b.name), t)

  -- The table after a newcomer found it full, and where the newcomer is counted.
  unfoldable pub place : ℕ → Text → Bucket → Table → Place × Table
  unfolding place_full sweep_full
  place now who b t =
      if not (contains_key (who, b.name) t.tries) && leb max_addresses (length t.tries)
      then place_full now who b (sweep_full now t)
      else (counted_as (who, b.name), t)

  -- Whether the log hears that a table is full.
  unfoldable pub says_full : ℕ → Text → Bucket → Table → Bool
  says_full now who b t =
      not (contains_key (who, b.name) t.tries)
      && (leb max_addresses (length t.tries) && leb max_addresses (length (sweep_full now t).tries))

  unfoldable pub count_address : ℕ → Text → Bucket → Hits → Result (Unit {0}) × Hits
  unfolding place count_at says_full
  count_address now who b h =
      let t = table_of b h in
      let (r, t') = count_at now b (place now who b t) in
      (
        r,
        record h {
          addresses = insert b.name t' h.addresses;
          said_full =
              if says_full now who b t && is_due now sweep_every h.said_full
              then some now
              else h.said_full;
        },
      )

  -- `RateLimiter::count`
  unfoldable pub count : ℕ → Text → Bucket → Bool → Hits → Result (Unit {0}) × Hits
  unfolding sweep_hits count_address count_member
  count now who b address h =
      if address
      then count_address now who b (sweep_hits now h)
      else count_member now who b (sweep_hits now h)

abbrev pub pop_back : List ℕ → List ℕ
pop_back [] = []
pop_back (t ∷ []) = []
pop_back (t ∷ u ∷ ts) = t ∷ pop_back (u ∷ ts)

-- `RateLimiter::take_back`
unfoldable pub take_back : Text → Bucket → Table → Table
take_back who b t = elim (lookup (who, b.name) t.tries) [
  | none ↦ t
  | some s ↦ record t {
    tries = insert (who, b.name) (record s { at_times = pop_back s.at_times }) t.tries;
  }
]

-- `RateLimiter::forgive` and `forgive_device`
unfoldable pub forgive : Text → Bucket → Hits → Hits
unfolding take_back
forgive who b h = elim (lookup b.name h.addresses) [
  | none ↦ h
  | some t ↦ record h { addresses = insert b.name (take_back who b t) h.addresses }
]

unfoldable pub forgive_member : Text → Bucket → Hits → Hits
unfolding take_back
forgive_member who b h = record h { members = take_back who b h.members }

-- What each account has going, by kind, and the request that gives its place back.
abbrev pub Going : Type 0
Going = HashMap (ℕ × String) ℕ

abbrev pub count_or_zero : Option ℕ → ℕ
count_or_zero none = 0
count_or_zero (some n) = n

-- `RateLimiter::start`. The entry stays, at its count, when there is no room.
unfoldable pub start : ℕ → AtOnce → Going → Result (ℕ × String) × Going
start account kind g =
    let key : ℕ × String = (account, kind.name) in
    let n = count_or_zero (lookup key g) in
    if leb kind.max n then (err rate_limited, insert key n g) else (ok key, insert key (n + 1) g)

-- `Drop for Going`
unfoldable pub finish : ℕ × String → Going → Going
finish key g = elim (lookup key g) [
  | none ↦ g
  | some n ↦ if n - 1 == 0 then remove key g else insert key (n - 1) g
]
