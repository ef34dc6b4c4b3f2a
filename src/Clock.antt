-- ===== src/Clock.antt =====
-- What the source uses of Go's `time` package. An instant counts nanoseconds from Go's zero
-- time, 0001-01-01T00:00:00 UTC, so `IsZero` is a test for 0; earlier instants are not modelled.
pub mod Calendar
use better_amp_backup.Prelude.{ℕ, ◌*◌, ltb, Bool, ◌==◌, ℤ}

abbrev pub Instant : Type 0
Instant = ℕ

-- `time.Duration`: a signed number of nanoseconds
abbrev pub Duration : Type 0
Duration = ℤ

abbrev pub zero_time : Instant
zero_time = 0

abbrev pub is_zero_time : Instant → Bool
is_zero_time t = t == 0

-- t.After(u)
abbrev pub after : Instant → Instant → Bool
after t u = ltb u t

-- t.Before(u)
abbrev pub before : Instant → Instant → Bool
before t u = ltb t u

abbrev pub millisecond : ℕ
millisecond = 1000000

abbrev pub second : ℕ
second = 1000 * millisecond

abbrev pub minute : ℕ
minute = 60 * second

abbrev pub hour : ℕ
hour = 60 * minute
