-- ===== src/Schedule/Samples.antt =====
-- Tests of internal/schedule/schedule.go, and its theorems at a concrete scheduler.
use better_amp_backup.Prelude.{
  ℕ, ◌+◌, ◌*◌, ◌/◌, ◌%◌, ◌≤◌, ◌<◌, true, false, Option, none, some, pos, ◌≡◌, ◌⊎◌, refl, ap₂, ◌-◌,
  arith,
}
use better_amp_backup.Clock.{Instant, Duration, hour, minute}
use better_amp_backup.Schedule.{
  Zone, Settings, Scheduler, recompute, next_at, fire_due, fire, or_zero, until_next, max_sleep,
}
use better_amp_backup.Schedule.Due.{fire_spaced, IsCivil, next_at-earliest}

abbrev utc : Zone
utc = record {
  day_of = λ t. t / (24 * hour);
  clock_of = λ t. ((t % (24 * hour)) / hour, (t % hour) / minute);
  at_time = λ day h m. day * (24 * hour) + h * hour + m * minute;
}

utc-IsCivil : IsCivil utc 4 30
utc-IsCivil = record {
  monotone = λ t u le. omega (arith, le);
  on_day = λ day. omega arith;
  on_clock = λ day. ap₂ (λ a b. (a, b)) (omega arith) (omega arith);
}

abbrev settings : Settings
settings = record {
  enabled = true;
  interval = some (pos (1 * hour));
  grace = some (pos (5 * minute));
  housekeeping = record { enabled = true; location = some utc; time_of_day = some (4, 30) };
}

-- Started at noon of the hundredth day, with a backup at 11:50.
abbrev noon : Instant
noon = 100 * (24 * hour) + 12 * hour

abbrev scheduler : Scheduler
scheduler = record { started = noon; fired_backup = 0; next_backup = 0; next_housekeeping = 0 }

abbrev computed : Scheduler
computed = recompute settings (some (noon - 10 * minute)) none noon scheduler

due_in_fifty_minutes : computed.next_backup ≡ noon + 50 * minute
unfolding recompute
due_in_fifty_minutes = refl

housekeeping_tomorrow : computed.next_housekeeping ≡ 101 * (24 * hour) + 4 * hour + 30 * minute
unfolding recompute
housekeeping_tomorrow = refl

sleeps_five_minutes : until_next noon computed ≡ max_sleep
unfolding recompute until_next
sleeps_five_minutes = refl

abbrev one : Instant
one = noon + 50 * minute

fires_at_one : (fire_due one computed).0 ≡ true
unfolding recompute fire_due
fires_at_one = refl

abbrev two : Instant
two = noon + 110 * minute

fires_at_two :
    (fire_due two
      (recompute settings (some (noon - 10 * minute)) none one (fire_due one computed).2)).0
    ≡ true
unfolding recompute fire_due
fires_at_two = refl

-- The first waits for two minutes of a window of three, the second not at all.
abbrev window : Option Duration
window = some (pos (3 * minute))

abbrev first_start : Instant
first_start = one + 2 * minute

first_starts : fire true window (2 * minute) false one ≡ some first_start
unfolding fire
first_starts = refl

second_starts : fire true window 0 false two ≡ some two
unfolding fire
second_starts = refl

not_submitted : fire true window 0 true two ≡ none
unfolding fire
not_submitted = refl

fire_spaced_example :
    (one + 1 * hour ≤ two)
    × (first_start + 1 * hour ≤ two + 3 * minute)
    × (or_zero (some (noon - 10 * minute)) + 1 * hour ≤ two)
fire_spaced_example =
    fire_spaced settings (some (noon - 10 * minute)) none one one two computed (1 * hour) window
      window (2 * minute) 0 false false first_start two refl refl fires_at_one first_starts
      fires_at_two second_starts

next_at-earliest_example :
    (noon < next_at utc 4 30 noon)
    × ((utc.at_time (utc.day_of noon) 4 30 ≡ next_at utc 4 30 noon)
        ⊎ (utc.at_time (utc.day_of noon + 1) 4 30 ≡ next_at utc 4 30 noon))
    × ((day : ℕ) → noon < utc.at_time day 4 30 → next_at utc 4 30 noon ≤ utc.at_time day 4 30)
next_at-earliest_example = next_at-earliest utc 4 30 utc-IsCivil noon
