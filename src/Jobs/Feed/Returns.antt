-- ===== src/Jobs/Feed/Returns.antt =====
-- What a watcher that comes back gets (`Subscribe` of internal/jobs/jobs.go).
use better_amp_backup.Prelude.{
  ℕ, ◌+◌, ◌≤◌, ◌<◌, List, [], ◌∷◌, ◌++◌, length, pos, ◌≡◌, ◌⊎◌, inl, inr, sym, ap, ◌∙◌, subst,
  arith,
}
use better_amp_backup.Clock.{Instant}
use better_amp_backup.Jobs.{Event}
use better_amp_backup.Jobs.Feed.{Feed, Watcher, channel_size, reset_event, events_after, subscribe}
use better_amp_backup.Jobs.Feed.Replay.{Consecutive, Reaches, events_after-Consecutive}
use better_amp_backup.Jobs.Feed.Backlog.{IsReset, IsFilled, subscribe-IsFilled}

-- The channel holds the events from `since` to the newest, or these are more than it can hold and
-- it begins with the reset.
abbrev pub IsResumed : ℕ → ℕ → Event → List Event → Type 0
IsResumed since newest again channel =
    ((newest ≤ since + channel_size)
      × Consecutive since channel
      × (since + length channel ≡ newest))
    ⊎ ((since + channel_size < newest) × IsReset again channel)

IsFilled-IsResumed :
    (since newest : ℕ) (again : Event) (backlog channel : List Event)
    → Consecutive since backlog
    → since + length backlog ≡ newest
    → IsFilled again backlog channel
    → IsResumed since newest again channel
IsFilled-IsResumed since newest again backlog channel run whole (inl (fits, same)) = inl (
  omega (arith, fits, whole),
  subst (Consecutive since) (sym same) run,
  ap (λ evs. since + length evs) same ∙ whole,
)
IsFilled-IsResumed since newest again backlog channel run whole (inr (over, reset)) =
    inr (omega (arith, over, whole), reset)

-- Whatever has happened to the runner: a watcher that comes back with the last number it saw, no
-- further back than the ring is long, is added behind the others. Where it missed no more events
-- than a channel can hold, its channel holds every event since then, in order and none twice, up to
-- the newest. Where it missed more, its channel begins with a reset event that carries the newest
-- number.
pub subscribe-IsResumed :
    (most : ℕ) (f : Feed) (since number : ℕ) (now : Instant)
    → Reaches most f
    → since ≤ f.seq
    → f.seq ≤ since + most
    → (w : Watcher) × ((subscribe (pos since) number now f).watchers ≡ f.watchers ++ w ∷ [])
      × IsResumed since f.seq (reset_event f.seq now) w.channel
subscribe-IsResumed most f since number now r le ge =
    let (run, whole) = events_after-Consecutive most f since r le ge in
    let (w, added, filled) = subscribe-IsFilled (pos since) number now f in
    (
      w,
      added,
      IsFilled-IsResumed since f.seq (reset_event f.seq now) (events_after (pos since) f.events)
          w.channel run whole filled,
    )
