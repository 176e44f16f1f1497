-- ===== src/Events.antt =====
-- src/state.rs: who hears that there is something new. A channel is what its listeners have been
-- sent and not read, the newest last; the channel itself is not the program's, and how it drops what
-- a slow listener does not read is left out.
use uw_ussh_server.Prelude.{
  ℕ, ◌+◌, ◌-◌, ◌≡◌, Bool, true, false, not, List, [], ◌∷◌, ◌++◌, map, Option, none, some, arith,
  ◌==◌, nat_eq, nat_beq_iff, if◌then◌else◌, leb, length, is_empty,
}
use uw_ussh_server.Prelude.HashMap.{
  HashMap, lookup, insert, remove, lookup-insert, lookup-remove, lookup-insert_self,
}

-- A listener, by what it has yet to read.
abbrev pub Channel : Type 0
Channel = List (List ℕ)

abbrev pub Channels : Type 0
Channels = HashMap ℕ Channel

abbrev pub channel_or_new : Option Channel → Channel
channel_or_new none = []
channel_or_new (some c) = c

-- The new listener is the last.
unfoldable pub subscribe : ℕ → Channels → Channels
subscribe account channels =
    insert account (channel_or_new (lookup account channels) ++ [] ∷ []) channels

abbrev pub send : ℕ → Channel → Channel
send seq = map (λ unread. unread ++ seq ∷ [])

unfoldable pub announce : ℕ → ℕ → Channels → Channels
announce account seq channels = elim (lookup account channels) [
  | none ↦ channels
  | some c ↦ if is_empty c then remove account channels else insert account (send seq c) channels
]

unfoldable pub listeners : ℕ → Channels → ℕ
listeners account channels = elim (lookup account channels) [ none ↦ 0 | some c ↦ length c ]

abbrev pub max_streams_per_device : ℕ
max_streams_per_device = 4

abbrev pub Streams : Type 0
Streams = HashMap ℕ ℕ

abbrev pub count_or_zero : Option ℕ → ℕ
count_or_zero none = 0
count_or_zero (some n) = n

-- The device that the guard gives its place back for. An entry is made even where there is no room.
unfoldable pub open_stream : ℕ → Streams → Option ℕ × Streams
open_stream device streams =
    let n = count_or_zero (lookup device streams) in
    if leb max_streams_per_device n
    then (none, insert device n streams)
    else (some device, insert device (n + 1) streams)

-- `Drop for StreamGuard`
unfoldable pub close_stream : ℕ → Streams → Streams
close_stream device streams = elim (lookup device streams) [
  | none ↦ streams
  | some n ↦ if n - 1 == 0 then remove device streams else insert device (n - 1) streams
]

abbrev pub streams_of : ℕ → Streams → ℕ
streams_of device streams = count_or_zero (lookup device streams)

abbrev pub is_some : Option ℕ → Bool
is_some none = false
is_some (some _) = true

-- A stream is opened exactly when its device has fewer than `max_streams_per_device` open; it then
-- counts for one more of that device alone, and closing it puts every count back.
pub open_stream-close_stream :
    (device other : ℕ) (streams : Streams)
    → (is_some (open_stream device streams).0
        ≡ not (leb max_streams_per_device (streams_of device streams)))
      × (streams_of other (open_stream device streams).1 ≡ (
          if is_some (open_stream device streams).0
          then (if device == other then streams_of other streams + 1 else streams_of other streams)
          else streams_of other streams))
      × ((if is_some (open_stream device streams).0
            then streams_of other (close_stream device (open_stream device streams).1)
            else streams_of other streams)
          ≡ streams_of other streams)
unfolding open_stream close_stream
open_stream-close_stream device other streams =
    let n = streams_of device streams in
    ground (
      arith,
      nat_beq_iff device other,
      lookup-insert device other n streams,
      lookup-insert device other (n + 1) streams,
      lookup-insert_self device (n + 1) streams,
      lookup-insert_self device n streams,
      lookup-remove device other (insert device (n + 1) streams),
      lookup-insert device other n (insert device (n + 1) streams),
    )
