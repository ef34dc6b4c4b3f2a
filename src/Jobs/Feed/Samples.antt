-- ===== src/Jobs/Feed/Samples.antt =====
-- Tests of the events of internal/jobs/jobs.go, and their theorems at a concrete feed.
use better_amp_backup.Prelude.{ℕ, zero, suc, [], ◌∷◌, ◌++◌, map, pos, none, ◌≡◌, refl, arith}
use better_amp_backup.Jobs.{Event, EventType}
use better_amp_backup.Jobs.Feed.{
  Feed, Watcher, no_events, publish, subscribe, events_after, reset_event,
}
use better_amp_backup.Jobs.Feed.Replay.{Reaches, new_runner, published}
use better_amp_backup.Jobs.Feed.Returns.{IsResumed, subscribe-IsResumed}
use better_amp_backup.Jobs.Feed.Backlog.{IsFilled, subscribe-IsFilled}

abbrev progress : Event
progress = record { seq = 0; at = 0; type = EventType.progress; job = none; log = none }

-- A ring of three after four events.
abbrev after : ℕ → Feed
after zero = no_events
after (suc n) = publish 3 7 progress (after n)

keeps_last_three : map (λ e. e.seq) (after 4).events ≡ 2 ∷ 3 ∷ 4 ∷ []
unfolding publish
keeps_last_three = refl

replays_last : map (λ e. e.seq) (events_after (pos 3) (after 4).events) ≡ 4 ∷ []
unfolding publish events_after
replays_last = refl

after-Reaches : (n : ℕ) → Reaches 3 (after n)
after-Reaches zero = new_runner
after-Reaches (suc n) = published (after-Reaches n) 7 progress

seq-after : (after 4).seq ≡ 4
unfolding publish
seq-after = refl

subscribe-IsResumed_example :
    (w : Watcher) × ((subscribe (pos 2) 1 7 (after 4)).watchers ≡ (after 4).watchers ++ w ∷ [])
    × IsResumed 2 (after 4).seq (reset_event (after 4).seq 7) w.channel
subscribe-IsResumed_example =
    subscribe-IsResumed 3 (after 4) 2 1 7 (after-Reaches 4) (omega (arith, seq-after))
      (omega (arith, seq-after))

subscribe-IsFilled_example :
    (w : Watcher) × ((subscribe (pos 0) 1 7 (after 4)).watchers ≡ (after 4).watchers ++ w ∷ [])
    × IsFilled (reset_event (after 4).seq 7) (events_after (pos 0) (after 4).events) w.channel
subscribe-IsFilled_example = subscribe-IsFilled (pos 0) 1 7 (after 4)
