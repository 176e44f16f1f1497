-- ===== src/Gate/Idle.antt =====
-- src/connections.rs: how long a connection may say nothing. Instants are milliseconds. When a sleep of
-- the runtime is over is a parameter; what is read below, and the writing, are the stream's own.
use uw_ussh_server.Prelude.{
  ℕ, ◌+◌, ◌-◌, Bool, true, false, Option, none, some, String, leb, ltb, ◌==◌, nat_eq, if◌then◌else◌,
}

-- `Doing`: what one connection is doing. Of the reader is kept whether there is one to wake.
pub record Doing : Type 0 where
  pub answering : ℕ
  pub idle_since : ℕ
  pub reader : Bool

-- `Guarded`, without the stream: how much has arrived and until when the rest may take.
pub record Guarded : Type 0 where
  pub first : Option (ℕ × ℕ)
  pub doing : Doing
  pub idle_timeout : ℕ
  pub idle : ℕ

-- Nothing yet, so many bytes more (none is the end), or an error.
pub data Polled : Type 0 where
  pending : Polled
  ready : ℕ → Polled
  failed : String → Polled

abbrev pub first_bytes : ℕ
first_bytes = 24

-- `Activity::new` and `Guarded::new`.
abbrev pub new_guarded : ℕ → ℕ → Guarded
new_guarded now deadline = record {
  first = some (0, now + deadline);
  doing = record { answering = 0; idle_since = now; reader = false };
  idle_timeout = deadline;
  idle = now + deadline;
}

-- `Activity::begin`
unfoldable pub begin : Guarded → Guarded
begin g = record g { doing = record g.doing { answering = g.doing.answering + 1 } }

-- `Drop for Answering`: whether the reader is woken. It counts at least the answer that is dropped,
-- so that `-= 1` does not fall below 0.
unfoldable pub stop : ℕ → Doing → Bool × Doing
stop now d =
    if d.answering - 1 == 0
    then (d.reader, record { answering = 0; idle_since = now; reader = false })
    else (false, record d { answering = d.answering - 1 })

unfoldable pub done : ℕ → Guarded → Guarded
done now g = record g { doing = (stop now g.doing).1 }

-- What has arrived, until it is enough.
abbrev pub count_first : ℕ → Option (ℕ × ℕ) → Option (ℕ × ℕ)
count_first n none = none
count_first n (some (seen, deadline)) =
    if leb first_bytes (seen + n) then none else some (seen + n, deadline)

abbrev pub hear : Guarded → Guarded
hear g = record g { doing = record g.doing { reader = true } }

abbrev pub close_or_wait : Bool × Guarded → Polled × Guarded
close_or_wait (true, g) = (ready 0, g)
close_or_wait (false, g) = (pending, g)

-- The end of an instant, as the sleep until then sees it.
module _ (is_ready : ℕ → ℕ → Bool) where
  abbrev pub is_late : ℕ → Option (ℕ × ℕ) → Bool
  is_late now none = false
  is_late now (some (seen, deadline)) = is_ready deadline now

  unfoldable pub idle_too_long : ℕ → Guarded → Bool × Guarded
  idle_too_long now g = if ltb 0 g.doing.answering then (false, hear g) else (
    is_ready (g.doing.idle_since + g.idle_timeout) now,
    record (hear g) { idle = g.doing.idle_since + g.idle_timeout },
  )

  -- `poll_read` of `Guarded`, with what the stream below says.
  unfoldable pub poll_read : ℕ → Polled → Guarded → Polled × Guarded
  unfolding idle_too_long
  poll_read now (ready n) g = (ready n, record g { first = count_first n g.first })
  poll_read now (failed e) g = (failed e, g)
  poll_read now pending g =
      if is_late now g.first
      then (failed "a connection that did not say what it wants in time", g)
      else close_or_wait (idle_too_long now g)
