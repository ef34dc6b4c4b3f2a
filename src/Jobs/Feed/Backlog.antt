-- ===== src/Jobs/Feed/Backlog.antt =====
-- What a new watcher finds in its channel (`Subscribe` of internal/jobs/jobs.go).
use better_amp_backup.Prelude.{
  ℕ, ◌+◌, ◌≤◌, ◌<◌, true, false, ltb, lt→ltb, ltb→lt, if_cases, List, [], ◌∷◌, ◌++◌, length,
  length-append, append-nil, append_assoc, ℤ, ◌≡◌, refl, sym, ◌∙◌, arith, ◌⊎◌, inl, inr, Bool-cases,
}
use better_amp_backup.Clock.{Instant}
use better_amp_backup.Jobs.{Event}
use better_amp_backup.Jobs.Feed.{
  Feed, Watcher, channel_size, has_room, fill, reset_event, events_after, subscribe,
}

fill_fits :
    (again : Event) (evs channel : List Event)
    → length channel + length evs ≤ channel_size
    → fill again evs channel ≡ channel ++ evs
unfolding fill
fill_fits again [] channel h = sym (append-nil channel)
fill_fits again (ev ∷ evs) channel h =
    let room : has_room channel ≡ true = lt→ltb _ _ (omega (arith, h)) in
    rw room (
      fill_fits again evs (channel ++ ev ∷ []) (omega (arith, h, length-append channel (ev ∷ [])))
      ∙ append_assoc channel (ev ∷ []) evs)

-- The channel begins with the reset, and holds no more than it can.
abbrev pub IsReset : Event → List Event → Type 0
IsReset again channel =
    (rest : List Event) × (channel ≡ again ∷ rest) × (length channel ≤ channel_size)

fill_after-IsReset :
    (again : Event) (evs rest : List Event)
    → length (again ∷ rest) ≤ channel_size
    → IsReset again (fill again evs (again ∷ rest))
unfolding fill
fill_after-IsReset again [] rest h = (rest, refl, h)
fill_after-IsReset again (ev ∷ evs) rest h =
    if_cases (IsReset again) (has_room (again ∷ rest))
      (λ e.
        fill_after-IsReset again evs (rest ++ ev ∷ [])
          (omega (arith, ltb→lt _ _ e, length-append (again ∷ rest) (ev ∷ []))))
      (λ e. fill_after-IsReset again evs [] (omega arith))

fill_overflows :
    (again : Event) (evs channel : List Event)
    → length channel ≤ channel_size
    → channel_size < length channel + length evs
    → IsReset again (fill again evs channel)
unfolding fill
fill_overflows again [] channel h over = absurd (omega (arith, h, over))
fill_overflows again (ev ∷ evs) channel h over =
    if_cases (IsReset again) (has_room channel)
      (λ e.
        fill_overflows again evs (channel ++ ev ∷ [])
          (omega (arith, ltb→lt _ _ e, length-append channel (ev ∷ [])))
          (omega (arith, over, length-append channel (ev ∷ []))))
      (λ e. fill_after-IsReset again evs [] (omega arith))

-- Either the channel holds the backlog, or the backlog is longer than a channel and the first thing
-- in it says so.
abbrev pub IsFilled : Event → List Event → List Event → Type 0
IsFilled again backlog channel =
    ((length backlog ≤ channel_size) × (channel ≡ backlog))
    ⊎ ((channel_size < length backlog) × IsReset again channel)

fill-IsFilled :
    (again : Event) (backlog : List Event) → IsFilled again backlog (fill again backlog [])
fill-IsFilled again backlog = elim (Bool-cases (ltb channel_size (length backlog))) [
  | inl e ↦
      let over : channel_size < length backlog = ltb→lt _ _ e in
      inr (over, fill_overflows again backlog [] (omega arith) (omega (arith, over)))
  | inr e ↦
      let fits : length backlog ≤ channel_size = ground arith in
      inl (fits, fill_fits again backlog [] (omega (arith, fits)))
]

-- `Subscribe` adds one watcher behind the others. Its channel holds every buffered event after
-- `since`, in order, or, where these are more than the channel can hold, begins with a reset event
-- that carries the newest number.
pub subscribe-IsFilled :
    (since : ℤ) (number : ℕ) (now : Instant) (f : Feed)
    → (w : Watcher) × ((subscribe since number now f).watchers ≡ f.watchers ++ w ∷ [])
      × IsFilled (reset_event f.seq now) (events_after since f.events) w.channel
unfolding subscribe
subscribe-IsFilled since number now f = (
  record {
    number = number;
    channel = fill (reset_event f.seq now) (events_after since f.events) [];
    closed = false;
  },
  refl,
  fill-IsFilled (reset_event f.seq now) (events_after since f.events),
)
