-- ===== src/Schedule.antt =====
-- When the daemon runs backups and housekeeping (internal/schedule/schedule.go): the scheduler's
-- times and the functions of its loop, with the clock's reading, the settings and what the state
-- file and the repository say about the last run as arguments.
pub mod Due
mod Samples
use better_amp_backup.Prelude.{
  ℕ, zero, suc, ◌+◌, ◌-◌, ◌*◌, ◌%◌, Bool, true, false, ◌&&◌, not, ltb, if◌then◌else◌, Option, none,
  some, ℤ, pos, negsuc,
}
use better_amp_backup.Clock.{Instant, Duration, zero_time, is_zero_time, after, before, minute}

-- What `time.Location` gives: the number of the day that an instant falls on there, its hour and
-- minute, and the instant that `time.Date` makes of a day, an hour and a minute.
pub record Zone : Type 0 where
  pub day_of : Instant → ℕ
  pub clock_of : Instant → ℕ × ℕ
  pub at_time : ℕ → ℕ → ℕ → Instant

-- `Location` and `TimeOfDay` of the settings; `none` is an error.
pub record Housekeeping : Type 0 where
  pub enabled : Bool
  pub location : Option Zone
  pub time_of_day : Option (ℕ × ℕ)

-- `Interval` and `Grace` of the settings; `none` is an error.
pub record Settings : Type 0 where
  pub enabled : Bool
  pub interval : Option Duration
  pub grace : Option Duration
  pub housekeeping : Housekeeping

-- The fields `started`, `fired.backup`, `next.backup` and `next.housekeeping`.
pub record Scheduler : Type 0 where
  pub started : Instant
  pub fired_backup : Instant
  pub next_backup : Instant
  pub next_housekeeping : Instant

-- t.Add(d), at the zero time where it would be earlier
abbrev pub add : Instant → Duration → Instant
add t (pos d) = t + d
add t (negsuc d) = t - (d + 1)

-- `if at.After(base) { base = at }`
abbrev pub later : Instant → Instant → Instant
later base at = if after at base then at else base

-- `if due.Before(floor) { due = floor }`
abbrev pub not_before : Instant → Instant → Instant
not_before floor due = if before due floor then floor else due

-- `LastBackup` of the state file, where there is one
abbrev pub or_zero : Option Instant → Instant
or_zero none = zero_time
or_zero (some at) = at

abbrev pub later_of : Option Instant → Instant → Instant
later_of none base = base
later_of (some at) base = later base at

-- the base that the interval counts from
pub base_of : Option Instant → Option Instant → Scheduler → Instant
base_of last_backup last_snapshot s =
    let base = later (later_of last_snapshot (or_zero last_backup)) s.fired_backup in
    if is_zero_time base then s.started else base

abbrev pub with_grace : Option Duration → Scheduler → Instant → Instant
with_grace none s due = due
with_grace (some grace) s due = not_before (add s.started grace) due

-- the first half of `recompute`
unfoldable pub next_backup_of :
    Settings → Option Instant → Option Instant → Instant → Scheduler → Instant
unfolding base_of
next_backup_of cfg last_backup last_snapshot now s =
    if cfg.enabled
    then elim cfg.interval [
      | none ↦ zero_time
      | some every ↦
          not_before now (with_grace cfg.grace s (add (base_of last_backup last_snapshot s) every))
    ]
    else zero_time

-- due.AddDate(0, 0, 1)
abbrev pub day_after : Zone → Instant → Instant
day_after z due = z.at_time (z.day_of due + 1) (z.clock_of due).0 (z.clock_of due).1

-- `nextHousekeeping`, of a zone and a time of day
unfoldable pub next_at : Zone → ℕ → ℕ → Instant → Instant
next_at z hour minute now =
    let due = z.at_time (z.day_of now) hour minute in if after due now then due else day_after z due

-- `nextHousekeeping`
unfoldable pub next_housekeeping_of : Housekeeping → Instant → Option Instant
unfolding next_at
next_housekeeping_of h now = elim h.location [
  | none ↦ none
  | some z ↦ elim h.time_of_day [
    | none ↦ none
    | some (hour, minute) ↦ some (next_at z hour minute now)
  ]
]

-- `recompute`
unfoldable pub recompute :
    Settings → Option Instant → Option Instant → Instant → Scheduler → Scheduler
unfolding next_backup_of next_housekeeping_of
recompute cfg last_backup last_snapshot now s = record s {
  next_backup = next_backup_of cfg last_backup last_snapshot now s;
  next_housekeeping =
      if cfg.housekeeping.enabled
      then or_zero (next_housekeeping_of cfg.housekeeping now)
      else zero_time;
}

abbrev pub max_sleep : ℕ
max_sleep = 5 * minute

-- one turn of the loop of `untilNext`
abbrev pub sooner : Instant → Instant → Instant
sooner soonest at =
    if is_zero_time at
    then soonest
    else if is_zero_time soonest
    then at
    else if before at soonest
    then at
    else soonest

-- `untilNext`
unfoldable pub until_next : Instant → Scheduler → ℕ
until_next now s =
    let soonest = sooner (sooner zero_time s.next_backup) s.next_housekeeping in
    if is_zero_time soonest
    then max_sleep
    else if ltb max_sleep (soonest - now)
    then max_sleep
    else soonest - now

abbrev pub is_due : Instant → Instant → Bool
is_due now next = not (is_zero_time next) && not (after next now)

-- The section of `fireDue` under the lock: whether a backup and whether housekeeping is due.
unfoldable pub fire_due : Instant → Scheduler → Bool × Bool × Scheduler
fire_due now s =
    let due_backup = is_due now s.next_backup in
    (
      due_backup,
      is_due now s.next_housekeeping,
      if due_backup then record s { fired_backup = now } else s,
    )

-- What `JitterWindow` leaves to wait in; `none` is an error.
abbrev pub window_of : Option Duration → ℕ
window_of none = 0
window_of (some (pos w)) = w
window_of (some (negsuc w)) = 0

-- `randomWithin`, of the number drawn
abbrev pub random_within : ℕ → ℕ → ℕ
random_within zero drawn = 0
random_within (suc w) drawn = drawn % suc w

-- `fire`, up to the instant at which it submits the job: a backup first waits for a random part of
-- the jitter window, where there is one, and is not submitted where the daemon ends meanwhile.
unfoldable pub fire : Bool → Option Duration → ℕ → Bool → Instant → Option Instant
fire is_backup jitter drawn is_done now =
    let window = window_of jitter in
    if is_backup && ltb 0 window
    then (if is_done then none else some (now + random_within window drawn))
    else some now
