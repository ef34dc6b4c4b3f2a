-- ===== src/Clock/Calendar.antt =====
-- The civil calendar of Go's `time` package, in UTC: the fields that the layouts print.
use better_amp_backup.Prelude.{
  ℕ, ◌+◌, ◌-◌, ◌*◌, ◌/◌, ◌%◌, min, Bool, ◌&&◌, ◌||◌, not, ◌==◌, ltb, if◌then◌else◌, List, [], ◌∷◌,
  ◌≡◌, refl,
}

-- `t.Date()` with the number of the day in its year, from 0
pub record Date : Type 0 where
  pub year : ℕ
  pub year_day : ℕ

is_leap : ℕ → Bool
is_leap y = (y % 4 == 0) && (not (y % 100 == 0) || (y % 400 == 0))

-- Days from 0001-01-01, by cycles of 400, 100, 4 and 1 years.
unfoldable pub date_of : ℕ → Date
date_of days =
    let d400 = days % 146097 in
    let n100 = min 3 (d400 / 36524) in
    let d100 = d400 - n100 * 36524 in
    let d4 = d100 % 1461 in
    let n1 = min 3 (d4 / 365) in
    record {
      year = 400 * (days / 146097) + 100 * n100 + 4 * (d100 / 1461) + n1 + 1;
      year_day = d4 - n1 * 365;
    }

abbrev month_lengths : Bool → List ℕ
month_lengths leap =
    31 ∷ (if leap then 29 else 28) ∷ 31 ∷ 30 ∷ 31 ∷ 30 ∷ 31 ∷ 31 ∷ 30 ∷ 31 ∷ 30 ∷ 31 ∷ []

-- Month and day of the month, both from 1.
month_day : List ℕ → ℕ → ℕ → List ℕ
month_day [] m d = m ∷ (d + 1) ∷ []
month_day (n ∷ ns) m d =
    let later = month_day ns (m + 1) (d - n) in if ltb d n then m ∷ (d + 1) ∷ [] else later

month_and_day : Date → List ℕ
unfolding month_day is_leap
month_and_day d = month_day (month_lengths (is_leap d.year)) 1 d.year_day

abbrev nanos_per_hour : ℕ
nanos_per_hour = 3600000000000

abbrev nanos_per_day : ℕ
nanos_per_day = 86400000000000

-- "2006"
unfoldable pub year_key : ℕ → List ℕ
unfolding date_of
year_key t = (date_of (t / nanos_per_day)).year ∷ []

abbrev first : List ℕ → List ℕ
first [] = []
first (x ∷ xs) = x ∷ []

abbrev join : List ℕ → List ℕ → List ℕ
join [] ys = ys
join (x ∷ xs) ys = x ∷ join xs ys

-- "2006-01"
unfoldable pub month_key : ℕ → List ℕ
unfolding date_of month_and_day
month_key t = let d = date_of (t / nanos_per_day) in d.year ∷ first (month_and_day d)

-- "2006-01-02"
unfoldable pub day_key : ℕ → List ℕ
unfolding date_of month_and_day
day_key t = let d = date_of (t / nanos_per_day) in d.year ∷ month_and_day d

-- "2006-01-02T15"
unfoldable pub hour_key : ℕ → List ℕ
unfolding day_key
hour_key t = join (day_key t) (((t / nanos_per_hour) % 24) ∷ [])

-- `t.ISOWeek()`: 0001-01-01 is a Monday, and a week belongs to the year of its Thursday.
unfoldable pub week_key : ℕ → List ℕ
unfolding date_of
week_key t =
    let thursday = date_of (t / nanos_per_day / 7 * 7 + 3) in
    thursday.year ∷ (thursday.year_day / 7 + 1) ∷ []

-- 2026-09-07T17:00:00Z, a Monday
sample_hour : hour_key 63924397200000000000 ≡ 2026 ∷ 9 ∷ 7 ∷ 17 ∷ []
unfolding hour_key
sample_hour = refl

sample_week : week_key 63924397200000000000 ≡ 2026 ∷ 37 ∷ []
unfolding week_key
sample_week = refl

-- 2024-12-30 belongs to the first week of 2025, and 2024-02-29 exists.
sample_new_year : week_key (739249 * nanos_per_day) ≡ 2025 ∷ 1 ∷ []
unfolding week_key
sample_new_year = refl

sample_leap_day : day_key (738944 * nanos_per_day) ≡ 2024 ∷ 2 ∷ 29 ∷ []
unfolding day_key
sample_leap_day = refl
