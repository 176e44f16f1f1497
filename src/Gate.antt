-- ===== src/Gate.antt =====
-- src/connections.rs: room for connections. The address is the text that the limiter counts it as;
-- the log is left out, what is remembered of it is not. Instants are milliseconds.
pub mod Room
pub mod Idle
pub mod Cuts
use uw_ussh_server.Config.{Config}
use uw_ussh_server.Prelude.Text.{Text, text_eq}
use uw_ussh_server.Prelude.{
  ℕ, ◌+◌, ◌-◌, ◌≤◌, ◌<◌, ◌≡◌, inl, inr, Bool, true, false, not, ◌&&◌, ◌||◌, List, [], ◌∷◌, Option,
  none, some, arith, Eq, ◌==◌, nat_eq, if◌then◌else◌, leb, ltb, refl, Bool-cases, Option-cases, All,
}
use uw_ussh_server.Prelude.HashMap.{
  HashMap, lookup, insert, remove, IsKeyed, insert-IsKeyed, remove-IsKeyed, lookup-insert,
  lookup-remove, insert-All, remove-All, lookup-All,
}

-- `Limits` of the configuration; 0 per address is no limit.
pub record Limits : Type 0 where
  pub max : ℕ
  pub per_address : ℕ
  pub header_timeout : ℕ

-- `HEADER_TIMEOUT`
abbrev pub header_timeout_ms : ℕ
header_timeout_ms = 15000

-- `Limits::from_config`: behind a proxy every connection comes from the proxy.
unfoldable pub from_config : Config → Limits
from_config config = record {
  max = config.max_connections;
  per_address = if config.trust_forwarded then 0 else config.max_connections_per_address;
  header_timeout = header_timeout_ms;
}

pub record Open : Type 0 where
  pub all : ℕ
  pub by_address : HashMap Text ℕ
  pub said : Option ℕ

abbrev pub count_or_zero : Option ℕ → ℕ
count_or_zero none = 0
count_or_zero (some n) = n

abbrev pub no_open : Open
no_open = record { all = 0; by_address = []; said = none }

-- `Gate::admit`: whether a connection from an address gets room.
abbrev pub may_say : ℕ → Option ℕ → Bool
may_say now none = true
may_say now (some said) = leb 60000 (now - said)

abbrev pub turns_away : Limits → Text → Open → Bool
turns_away limits address o =
    leb limits.max o.all
    || (ltb 0 limits.per_address
        && leb limits.per_address (count_or_zero (lookup address o.by_address)))

unfoldable pub admit : Limits → ℕ → Text → Open → Option Text × Open
admit limits now address o =
    if turns_away limits address o
    then (none, record o { said = if may_say now o.said then some now else o.said })
    else (
      some address,
      record o {
        all = o.all + 1;
        by_address = insert address (count_or_zero (lookup address o.by_address) + 1) o.by_address;
      },
    )

-- `Drop for Admitted`. The count of an address that is there is never 0, so that `-= 1` does not
-- fall below it.
unfoldable pub give_back : Text → Open → Open
give_back address o = elim (lookup address o.by_address) [
  | none ↦ record o { all = o.all - 1 }
  | some n ↦ record o {
    all = o.all - 1;
    by_address =
        if n - 1 == 0 then remove address o.by_address else insert address (n - 1) o.by_address;
  }
]
