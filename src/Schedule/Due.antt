-- ===== src/Schedule/Due.antt =====
-- When a run is due (internal/schedule/schedule.go).
use better_amp_backup.Prelude.{
  ℕ, zero, suc, Bool, ◌+◌, ◌≤◌, ◌<◌, max, true, false, ◌==◌, ltb, ltb→lt, if◌then◌else◌, if_cases,
  Option, none, some, pos, ◌≡◌, refl, sym, ap, ◌∙◌, subst, arith, Bool-cases, inl, inr, ◌⊎◌, ◌≢◌,
}
use native.Mathlib.Nat.{mod-lt}
use better_amp_backup.Clock.{Instant, Duration, is_zero_time, after}
use better_amp_backup.Schedule.{
  Zone, Settings, Scheduler, day_after, later, or_zero, not_before, base_of, next_backup_of,
  next_at, recompute, max_sleep, until_next, is_due, fire_due, fire, window_of, random_within,
}

-- What is known of the last run: the latest of the three sources, or the start of the daemon.
pub last_run : Option Instant → Option Instant → Scheduler → Instant
last_run last_backup last_snapshot s =
    let known = max (max (or_zero last_backup) (or_zero last_snapshot)) s.fired_backup in
    if known == 0 then s.started else known

later-max : (a b : Instant) → later a b ≡ max a b
later-max a b = ground arith

not_before-max : (a b : Instant) → not_before a b ≡ max a b
not_before-max a b = ground arith

base_of-last_run :
    (last_backup last_snapshot : Option Instant) (s : Scheduler)
    → base_of last_backup last_snapshot s ≡ last_run last_backup last_snapshot s
unfolding base_of last_run
base_of-last_run last_backup none s = ground arith
base_of-last_run last_backup (some at) s = ground arith

-- While the schedule is on, with an interval and a grace period, the next backup is due an
-- interval after the last run, but neither before the grace period after the daemon's start is
-- over nor before now.
recompute-max :
    (cfg : Settings) (last_backup last_snapshot : Option Instant) (now : Instant) (s : Scheduler)
    (every grace : ℕ)
    → cfg.enabled ≡ true
    → cfg.interval ≡ some (pos every)
    → cfg.grace ≡ some (pos grace)
    → (recompute cfg last_backup last_snapshot now s).next_backup
      ≡ max now (max (s.started + grace) (last_run last_backup last_snapshot s + every))
unfolding recompute next_backup_of
recompute-max cfg last_backup last_snapshot now s every grace on interval wait =
    rw (on, interval, wait, base_of-last_run last_backup last_snapshot s) (ground arith)

fired-last_run :
    (last_backup last_snapshot : Option Instant) (s : Scheduler)
    → s.fired_backup ≤ base_of last_backup last_snapshot s
unfolding base_of
fired-last_run last_backup last_snapshot s = ground arith

-- Whatever the grace period is.
next_backup_after_last :
    (cfg : Settings) (last_backup last_snapshot : Option Instant) (now : Instant) (s : Scheduler)
    (every : ℕ)
    → cfg.enabled ≡ true
    → cfg.interval ≡ some (pos every)
    → base_of last_backup last_snapshot s + every
      ≤ next_backup_of cfg last_backup last_snapshot now s
unfolding next_backup_of
next_backup_after_last cfg last_backup last_snapshot now s every on interval =
    rw (on, interval) (ground arith)

known-last_run :
    (last_backup last_snapshot : Option Instant) (s : Scheduler)
    → or_zero last_backup ≤ base_of last_backup last_snapshot s
unfolding base_of
known-last_run last_backup none s = ground arith
known-last_run last_backup (some at) s = ground arith

-- Once `fireDue` has found a backup due at `t`, a recomputation makes the next one due an interval
-- later, and no sooner than an interval after the run that the state file tells of.
fire_due_spaced :
    (cfg : Settings) (last_backup last_snapshot : Option Instant) (t now u : Instant)
    (s : Scheduler) (every : ℕ)
    → cfg.enabled ≡ true
    → cfg.interval ≡ some (pos every)
    → (fire_due t s).0 ≡ true
    → (fire_due u (recompute cfg last_backup last_snapshot now (fire_due t s).2)).0 ≡ true
    → (t + every ≤ u) × (or_zero last_backup + every ≤ u)
unfolding fire_due recompute
fire_due_spaced cfg last_backup last_snapshot t now u s every on interval fired again =
    let after_fire = record s { fired_backup = t } in
    let same : (fire_due t s).2 ≡ after_fire = ap (λ b. if b then after_fire else s) fired in
    let again' =
      subst (λ x. is_due u (next_backup_of cfg last_backup last_snapshot now x) ≡ true) same
        again in
    let base = fired-last_run last_backup last_snapshot after_fire in
    let next =
      next_backup_after_last cfg last_backup last_snapshot now after_fire every on interval in
    let known = known-last_run last_backup last_snapshot after_fire in
    let due = due_le u _ again' in (omega (arith, base, next, due), omega (arith, known, next, due))
  where
    due_le : (v n : Instant) → is_due v n ≡ true → n ≤ v
    due_le v n h = ground arith

random_within-lt : (window drawn : ℕ) → 0 < window → random_within window drawn < window
random_within-lt zero drawn h = absurd (ground arith)
random_within-lt (suc w) drawn h = mod-lt drawn h

-- A backup is submitted at once, or within the jitter window.
fire-bounds :
    (jitter : Option Duration) (drawn : ℕ) (is_done : Bool) (now a : Instant)
    → fire true jitter drawn is_done now ≡ some a
    → (now ≤ a) × (a ≤ now + window_of jitter)
unfolding fire
fire-bounds jitter drawn is_done now a q = elim (Bool-cases (ltb 0 (window_of jitter))) [
  | inl e ↦
      let within = random_within-lt (window_of jitter) drawn (ltb→lt _ _ e) in
      let same : now + random_within (window_of jitter) drawn ≡ a = ground arith in
      (omega (arith, same), omega (arith, same, within))
  | inr e ↦ let same : now ≡ a = ground arith in (omega (arith, same), omega (arith, same))
]

-- Two backups that the scheduler starts one after the other while the schedule is on: `fireDue`
-- finds the first due at `t` and the second, after a recomputation, at `u`, and `fire` submits them
-- at `a` and at `b`, after a random wait each. Then `u` is at least an interval later than `t`, also
-- where the state file and the repository do not know of the first run yet, the starts are an
-- interval apart up to the jitter window of the first, and the second does not start within an
-- interval of the start that the state file tells of.
pub fire_spaced :
    (cfg : Settings) (last_backup last_snapshot : Option Instant) (t now u : Instant)
    (s : Scheduler) (every : ℕ) (jitter jitter' : Option Duration) (drawn drawn' : ℕ)
    (is_done is_done' : Bool) (a b : Instant)
    → cfg.enabled ≡ true
    → cfg.interval ≡ some (pos every)
    → (fire_due t s).0 ≡ true
    → fire true jitter drawn is_done t ≡ some a
    → (fire_due u (recompute cfg last_backup last_snapshot now (fire_due t s).2)).0 ≡ true
    → fire true jitter' drawn' is_done' u ≡ some b
    → (t + every ≤ u) × (a + every ≤ b + window_of jitter) × (or_zero last_backup + every ≤ b)
fire_spaced cfg last_backup last_snapshot t now u s every jitter jitter' drawn drawn' is_done
      is_done' a b on interval fired started again started' =
    let (spaced, known) =
      fire_due_spaced cfg last_backup last_snapshot t now u s every on interval fired again in
    let (_, most) = fire-bounds jitter drawn is_done t a started in
    let (least, _) = fire-bounds jitter' drawn' is_done' u b started' in
    (spaced, omega (arith, spaced, most, least), omega (arith, known, least))

-- Sleeping for `untilNext` oversleeps neither run that is scheduled, and never lasts longer than five
-- minutes.
until_next-bound :
    (now next : Instant) (s : Scheduler)
    → is_zero_time next ≡ false
    → (next ≡ s.next_backup) ⊎ (next ≡ s.next_housekeeping)
    → (now + until_next now s ≤ max now next) × (until_next now s ≤ max_sleep)
unfolding until_next
until_next-bound now next s set (inl e) = (ground arith, ground arith)
until_next-bound now next s set (inr e) = (ground arith, ground arith)

-- What `time` documents of a location: a later instant is on no earlier day, and `time.Date` gives
-- an instant of the day, and with the hour and minute, that it was asked for, where no clock change
-- skips that time of day.
pub record IsCivil (z : Zone) (hour minute : ℕ) : Type 0 where
  pub monotone : (t u : Instant) → t ≤ u → z.day_of t ≤ z.day_of u
  pub on_day : (day : ℕ) → z.day_of (z.at_time day hour minute) ≡ day
  pub on_clock : (day : ℕ) → z.clock_of (z.at_time day hour minute) ≡ (hour, minute)

module _ (z : Zone) (hour minute : ℕ) (civil : IsCivil z hour minute) where
  at_time-ltb : (d e : ℕ) → d < e → z.at_time d hour minute < z.at_time e hour minute
  at_time-ltb d e lt = elim (Bool-cases (ltb (z.at_time d hour minute) (z.at_time e hour minute))) [
    | inl q ↦ ltb→lt _ _ q
    | inr q ↦
        let back : z.at_time e hour minute ≤ z.at_time d hour minute = ground arith in
        let days = civil.monotone _ _ back in
        absurd (omega (arith, days, civil.on_day d, civil.on_day e, lt))
  ]

  at_time_later : (now : Instant) (d : ℕ) → z.day_of now < d → now < z.at_time d hour minute
  at_time_later now d lt = elim (Bool-cases (ltb now (z.at_time d hour minute))) [
    | inl q ↦ ltb→lt _ _ q
    | inr q ↦
        let back : z.at_time d hour minute ≤ now = ground arith in
        let days = civil.monotone _ _ back in absurd (omega (arith, days, civil.on_day d, lt))
  ]

  at_time_leb : (d e : ℕ) → d ≤ e → z.at_time d hour minute ≤ z.at_time e hour minute
  at_time_leb d e le = elim (Bool-cases (d == e)) [
    | inl q ↦
        let same : d ≡ e = ground arith in omega (arith, ap (λ x. z.at_time x hour minute) same)
    | inr q ↦
        let apart : d < e = ground arith in let lt = at_time-ltb d e apart in omega (arith, lt)
  ]

  day_after-today :
      (day : ℕ) → day_after z (z.at_time day hour minute) ≡ z.at_time (day + 1) hour minute
  day_after-today day =
      ap
        (λ d.
          z.at_time (d + 1) (z.clock_of (z.at_time day hour minute)).0
            (z.clock_of (z.at_time day hour minute)).1)
        (civil.on_day day)
      ∙ ap (λ (c : ℕ × ℕ). z.at_time (day + 1) c.0 c.1) (civil.on_clock day)

  -- In a time zone where days follow one another and no clock change skips the time of day that
  -- was set, the next housekeeping pass is strictly after now, at that time of day, and no earlier
  -- day has that time after now.
  pub next_at-earliest :
      (now : Instant)
      → (now < next_at z hour minute now)
        × ((z.at_time (z.day_of now) hour minute ≡ next_at z hour minute now)
            ⊎ (z.at_time (z.day_of now + 1) hour minute ≡ next_at z hour minute now))
        × ((day : ℕ)
            → now < z.at_time day hour minute
            → next_at z hour minute now ≤ z.at_time day hour minute)
  unfolding next_at
  next_at-earliest now =
      let today = z.at_time (z.day_of now) hour minute in
      let tomorrow = z.at_time (z.day_of now + 1) hour minute in
      let IsNext : Instant → Type 0 = λ next.
        (now < next)
        × ((today ≡ next) ⊎ (tomorrow ≡ next))
        × ((day : ℕ) → now < z.at_time day hour minute → next ≤ z.at_time day hour minute) in
      if_cases IsNext (after today now)
        (λ q.
          (ltb→lt _ _ q, inl refl, λ day lt. at_time_leb (z.day_of now) day (not_earlier day lt)))
        (λ q. subst IsNext (sym (day_after-today (z.day_of now))) (
          at_time_later now (z.day_of now + 1) (omega arith),
          inr refl,
          λ day lt. at_time_leb (z.day_of now + 1) day (past_today q day lt),
        ))
    where
      not_earlier : (day : ℕ) → now < z.at_time day hour minute → z.day_of now ≤ day
      not_earlier day lt =
          let days = civil.monotone now (z.at_time day hour minute) (omega (arith, lt)) in
          omega (arith, days, civil.on_day day)

      past_today :
          after (z.at_time (z.day_of now) hour minute) now ≡ false
          → (day : ℕ) → now < z.at_time day hour minute
          → z.day_of now + 1 ≤ day
      past_today q day lt =
          let days = civil.monotone now (z.at_time day hour minute) (omega (arith, lt)) in
          elim (Bool-cases (day == z.day_of now)) [
            | inl e ↦
                let same : day ≡ z.day_of now = ground arith in
                let late : now < z.at_time (z.day_of now) hour minute =
                  subst (λ x. now < z.at_time x hour minute) same lt in
                absurd (ground arith)
            | inr e ↦
                let apart : day ≢ z.day_of now = ground arith in
                omega (arith, days, civil.on_day day, apart)
          ]
