-- ===== src/Jobs/Feed.antt =====
-- The events of the job runner and those who watch them (internal/jobs/jobs.go): the fields
-- `events`, `seq` and `watchers` of `Runner`. A channel is the list of what it holds. The time
-- that the clock would give is an argument.
mod Replay
mod Backlog
mod Returns
mod Samples
use better_amp_backup.Prelude.{
  ℕ, zero, suc, ◌+◌, ◌-◌, Bool, true, false, ◌==◌, ltb, if◌then◌else◌, List, [], ◌∷◌, ◌++◌, length,
  drop, ℤ, pos, negsuc,
}
use better_amp_backup.Prelude.{Option, none, some}
use better_amp_backup.Clock.{Instant, is_zero_time}
use better_amp_backup.Jobs.{Job, LogLine, Event, EventType, reset}

-- A watcher has its own number in place of its address.
pub record Watcher : Type 0 where
  pub number : ℕ
  pub channel : List Event
  pub closed : Bool

-- `gone` has the watchers that were dropped, whose channels may still hold events.
pub record Feed : Type 0 where
  pub events : List Event
  pub seq : ℕ
  pub watchers : List Watcher
  pub gone : List Watcher

-- The capacity of a watcher's channel.
abbrev pub channel_size : ℕ
channel_size = 64

-- `appendCapped`
unfoldable pub append_capped {ℓ} : {A : Type ℓ} → List A → ℕ → A → List A
append_capped buf most v =
    let longer = buf ++ v ∷ [] in
    if ltb most (length longer) then drop (length longer - most) longer else longer

abbrev pub has_room : List Event → Bool
has_room channel = ltb (length channel) channel_size

abbrev pub send : Event → Watcher → Watcher
send ev w = record w { channel = w.channel ++ ev ∷ [] }

abbrev pub closing : Watcher → Watcher
closing w = record w { closed = true }

-- the loop of `publishLocked`: those who go on, and those who are dropped
pub fan_out : Event → List Watcher → List Watcher × List Watcher
fan_out ev [] = ([], [])
fan_out ev (w ∷ ws) =
    let (live, dropped) = fan_out ev ws in
    if has_room w.channel then (send ev w ∷ live, dropped) else (live, closing w ∷ dropped)

abbrev pub stamp : Instant → ℕ → Event → Event
stamp now seq ev = record ev { seq = seq; at = if is_zero_time ev.at then now else ev.at }

-- `publishLocked`
unfoldable pub publish : ℕ → Instant → Event → Feed → Feed
unfolding append_capped fan_out
publish most now ev f =
    let stamped = stamp now (f.seq + 1) ev in
    let (live, dropped) = fan_out stamped f.watchers in
    record {
      events = append_capped f.events most stamped;
      seq = f.seq + 1;
      watchers = live;
      gone = dropped ++ f.gone;
    }

-- the loop of `eventsAfterLocked`
pub first_after : ℕ → List Event → List Event
first_after since [] = []
first_after since (ev ∷ evs) = if ltb since ev.seq then ev ∷ evs else first_after since evs

-- `eventsAfterLocked`
pub events_after : ℤ → List Event → List Event
unfolding first_after
events_after (pos zero) evs = evs
events_after (negsuc n) evs = evs
events_after (pos (suc n)) evs = first_after (suc n) evs

abbrev pub reset_event : ℕ → Instant → Event
reset_event seq now = record { seq = seq; at = now; type = reset; job = none; log = none }

-- the loop of `Subscribe` over the backlog, into the channel
unfoldable pub fill : Event → List Event → List Event → List Event
fill again [] channel = channel
fill again (ev ∷ evs) channel =
    if has_room channel then fill again evs (channel ++ ev ∷ []) else fill again evs (again ∷ [])

-- `Subscribe`, of a watcher with a number of its own
unfoldable pub subscribe : ℤ → ℕ → Instant → Feed → Feed
unfolding events_after fill
subscribe since number now f =
    let channel = fill (reset_event f.seq now) (events_after since f.events) [] in
    record f {
      watchers = f.watchers ++ record { number = number; channel = channel; closed = false } ∷ [];
    }

-- those whose number is another, and the one with the number
pub take_out : ℕ → List Watcher → List Watcher × List Watcher
take_out number [] = ([], [])
take_out number (w ∷ ws) =
    let (rest, out) = take_out number ws in
    if w.number == number then (rest, closing w ∷ out) else (w ∷ rest, out)

-- the function that `Subscribe` returns
unfoldable pub unsubscribe : ℕ → Feed → Feed
unfolding take_out
unsubscribe number f =
    let (rest, out) = take_out number f.watchers in
    record f { watchers = rest; gone = out ++ f.gone }

pub close_each : List Watcher → List Watcher
close_each [] = []
close_each (w ∷ ws) = closing w ∷ close_each ws

-- the end of `Shutdown`
unfoldable pub close_all : Feed → Feed
unfolding close_each
close_all f = record f { watchers = []; gone = close_each f.watchers ++ f.gone }

abbrev pub no_events : Feed
no_events = record { events = []; seq = 0; watchers = []; gone = [] }
