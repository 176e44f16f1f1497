-- ===== src/Examples/Tries.antt =====
-- src/limits.rs, src/connections.rs and src/state.rs at small inputs.
use uw_ussh_server.Prelude.Text.{Text, text_eq, text}
use uw_ussh_server.Prelude.{
  ℕ, ◌+◌, ◌≤◌, ◌≡◌, refl, true, false, not, List, [], ◌∷◌, none, arith, ◌==◌, nat_eq, string_eq,
  pair_eq, if◌then◌else◌, length, leb,
}
use uw_ussh_server.Prelude.HashMap.{lookup}
use uw_ussh_server.Limits.{
  Bucket, Tries, Hits, WhenFull, Going, empty_table, pulls, try_once, count, start,
}
use uw_ussh_server.Limits.Ledger.{Agrees, ledger_try, try_once_refines}
use uw_ussh_server.Limits.Window.{Event, tries, forgives, let_through, in_window}
use uw_ussh_server.Limits.History.{let_through_bounded}
use uw_ussh_server.Limits.Tables.{AreSmall, count-AreSmall}
use uw_ussh_server.Limits.Concurrent.{Started, start-Started}
use uw_ussh_server.Gate.{no_open}
use uw_ussh_server.Gate.Idle.{Guarded, new_guarded, begin, stop, done, pending, ready, poll_read}
use uw_ussh_server.Gate.Cuts.{History, Lives, opens, begins, stops, polls, IsOver, poll_read-IsOver}
use uw_ussh_server.Gate.Room.{Move, asks, closes, moves, IsCounted, moves-IsCounted}
use uw_ussh_server.Events.{
  open_stream, close_stream, streams_of, is_some, max_streams_per_device, open_stream-close_stream,
}

abbrev two_a_second : Bucket
two_a_second = record { name = "two"; max = 2; window = 1000; when_full = WhenFull.coarsen }

abbrev tried : Tries
tried = record { at_times = 100 ∷ 1200 ∷ []; window = 1000; said = false }

tried-Agrees : Agrees 1500 1000 tried.at_times (100 ∷ 1200 ∷ [])
tried-Agrees = record {
  same = refl;
  remembered_up = (omega arith, (omega arith, tt), (omega arith, tt, tt));
  ledger_up = (omega arith, (omega arith, tt), (omega arith, tt, tt));
}

try_once_refines_example :
    ((try_once 1500 two_a_second tried).0 ≡ (ledger_try 1500 two_a_second (100 ∷ 1200 ∷ [])).0)
    × Agrees 1500 1000
        (try_once 1500 two_a_second tried).1.at_times
        (ledger_try 1500 two_a_second (100 ∷ 1200 ∷ [])).1
try_once_refines_example = try_once_refines 1500 two_a_second tried (100 ∷ 1200 ∷ []) tried-Agrees

abbrev fresh_hits : Hits
fresh_hits = record { addresses = []; members = empty_table; swept = 0; said_full = none }

abbrev same_network : Text → Text
same_network who = who

abbrev history : List Event
history =
    tries 10 (text "laptop") two_a_second
    ∷ tries 20 (text "laptop") two_a_second
    ∷ tries 30 (text "laptop") two_a_second
    ∷ forgives 40 (text "laptop") two_a_second
    ∷ tries 50 (text "laptop") two_a_second
    ∷ []

let_through_bounded_example :
    length (
      in_window 60 1000
        (let_through same_network two_a_second (text "laptop") history fresh_hits []))
    ≤ 2
let_through_bounded_example =
    let_through_bounded same_network history two_a_second (text "laptop") 0 60 fresh_hits refl (
      omega arith,
      (λ _. refl),
      (
        omega arith,
        (λ _. refl),
        (omega arith, (λ _. refl), (omega arith, (λ _. refl), (omega arith, (λ _. refl), tt))),
      ),
    )

count-AreSmall_example :
    AreSmall (count same_network 5 (text "192.0.2.1") two_a_second true fresh_hits).1.addresses
count-AreSmall_example =
    count-AreSmall same_network 5 (text "192.0.2.1") two_a_second true fresh_hits tt

abbrev three_pulls : Going
three_pulls = ((1, "pulls"), 3) ∷ []

start-Started_example :
    Started (1, "pulls") pulls three_pulls (1, "pulls") (start 1 pulls three_pulls)
start-Started_example = start-Started 1 pulls three_pulls (1, "pulls")

abbrev moved : List Move
moved =
    asks 1 (text "192.0.2.1")
    ∷ asks 2 (text "192.0.2.1")
    ∷ asks 3 (text "192.0.2.2")
    ∷ closes (text "192.0.2.1")
    ∷ []

moves-IsCounted_example :
    IsCounted
      (record { max = 2; per_address = 1; header_timeout = 15000 })
      (moves (record { max = 2; per_address = 1; header_timeout = 15000 }) moved (no_open, []))
unfolding lookup
moves-IsCounted_example =
    moves-IsCounted (record { max = 2; per_address = 1; header_timeout = 15000 }) moved
      (no_open, [])
      (record { all = refl; each = λ a. refl; few = omega arith; fair = λ a l. omega arith })

open_stream-close_stream_example :
    (is_some (open_stream 3 ((3, 4) ∷ [])).0
      ≡ not (leb max_streams_per_device (streams_of 3 ((3, 4) ∷ []))))
    × (streams_of 3 (open_stream 3 ((3, 4) ∷ [])).1 ≡ (
        if is_some (open_stream 3 ((3, 4) ∷ [])).0
        then (if ◌==◌ {A = ℕ} 3 3
            then streams_of 3 ((3, 4) ∷ []) + 1
            else streams_of 3 ((3, 4) ∷ []))
        else streams_of 3 ((3, 4) ∷ [])))
    × ((if is_some (open_stream 3 ((3, 4) ∷ [])).0
          then streams_of 3 (close_stream 3 (open_stream 3 ((3, 4) ∷ [])).1)
          else streams_of 3 ((3, 4) ∷ []))
        ≡ streams_of 3 ((3, 4) ∷ []))
open_stream-close_stream_example = open_stream-close_stream 3 3 ((3, 4) ∷ [])

-- A connection that asked something, had its answer, and has been quiet since.
abbrev lived : History
lived = record { opened = 0; now = 20; begun = 1; ended = 20 ∷ []; arrived = 100 }

abbrev quiet : Guarded
quiet =
    done 20
      (begin (poll_read (λ deadline now. leb deadline now) 10 (ready 100) (new_guarded 0 15000)).1)

quiet-Lives : Lives (λ deadline now. leb deadline now) 15000 lived quiet
quiet-Lives =
    stops 20 (omega arith) (omega arith) (begins (polls 10 (ready 100) (omega arith) (opens 0)))

poll_read-IsOver_example :
    IsOver
      (λ deadline now. leb deadline now)
      15000
      lived
      15020
      (poll_read (λ deadline now. leb deadline now) 15020 pending quiet).0
poll_read-IsOver_example =
    poll_read-IsOver (λ deadline now. leb deadline now) 15000 15020
      (λ deadline now is_so. ground (arith, is_so)) quiet-Lives

quiet_closed : (poll_read (λ deadline now. leb deadline now) 15020 pending quiet).0 ≡ ready 0
unfolding poll_read done begin stop
quiet_closed = refl
