-- ===== src/Jobs/Feed/Replay.antt =====
-- The event ring of internal/jobs/jobs.go and its sequence numbers, and what `eventsAfterLocked` takes
-- out of it.
use better_amp_backup.Prelude.{
  ℕ, zero, suc, min, ◌+◌, ◌-◌, ◌≤◌, ◌<◌, ltb, ltb→lt, if_cases, List, [], ◌∷◌, ◌++◌, length,
  length-append, length-drop, drop, ℤ, pos, ◌≡◌, refl, sym, ap, ◌∙◌, subst, arith,
}
use better_amp_backup.Clock.{Instant}
use better_amp_backup.Jobs.{Event}
use better_amp_backup.Jobs.Feed.{
  Feed, append_capped, publish, stamp, first_after, events_after, subscribe, unsubscribe, close_all,
  no_events,
}

-- The sequence numbers of the events are those after `n`, one by one.
abbrev pub Consecutive : ℕ → List Event → Type 0
Consecutive n [] = Unit
Consecutive n (ev ∷ evs) = (ev.seq ≡ n + 1) × Consecutive (n + 1) evs

-- The ring holds the last events, at most `most` of them.
pub record IsRing (most : ℕ) (f : Feed) : Type 0 where
  pub lost : ℕ
  pub run : Consecutive lost f.events
  pub newest : lost + length f.events ≡ f.seq
  pub bounded : length f.events ≡ min most f.seq

Consecutive-append :
    (n : ℕ) (evs : List Event) (ev : Event)
    → Consecutive n evs
    → ev.seq ≡ n + length evs + 1
    → Consecutive n (evs ++ ev ∷ [])
Consecutive-append n [] ev h e = (omega (arith, e), tt)
Consecutive-append n (x ∷ evs) ev (s, h) e =
    (s, Consecutive-append (n + 1) evs ev h (omega (arith, e)))

Consecutive-drop :
    (n k : ℕ) (evs : List Event)
    → k ≤ length evs
    → Consecutive n evs
    → Consecutive (n + k) (drop k evs)
Consecutive-drop n zero evs le h = subst (λ m. Consecutive m evs) (omega arith) h
Consecutive-drop n (suc k) [] le h = tt
Consecutive-drop n (suc k) (x ∷ evs) le (s, h) =
    subst (λ m. Consecutive m (drop k evs)) (omega arith)
      (Consecutive-drop (n + 1) k evs (omega (arith, le)) h)

-- The longer list, without what is too many at its front.
append_capped-cases :
    (P : List Event → Type 0) (evs : List Event) (most : ℕ) (ev : Event)
    → (length (evs ++ ev ∷ []) ≤ most → P (evs ++ ev ∷ []))
    → (most < length (evs ++ ev ∷ []) → P (drop (length (evs ++ ev ∷ []) - most) (evs ++ ev ∷ [])))
    → P (append_capped evs most ev)
unfolding append_capped
append_capped-cases P evs most ev fits over =
    if_cases P (ltb most (length (evs ++ ev ∷ []))) (λ e. over (ltb→lt _ _ e))
      (λ e. fits (ground arith))

append_capped-IsRing :
    (most : ℕ) (f g : Feed) (ev : Event)
    → IsRing most f
    → ev.seq ≡ f.seq + 1
    → g.events ≡ append_capped f.events most ev
    → g.seq ≡ f.seq + 1
    → IsRing most g
append_capped-IsRing most f g ev r e events seq =
    let longer = Consecutive-append r.lost f.events ev r.run (omega (arith, e, r.newest)) in
    let more : length (f.events ++ ev ∷ []) ≡ length f.events + 1 =
      omega (arith, length-append f.events (ev ∷ [])) in
    append_capped-cases (λ evs. g.events ≡ evs → IsRing most g) f.events most ev
      (λ fits q. record {
        lost = r.lost;
        run = subst (Consecutive r.lost) (sym q) longer;
        newest = omega (arith, ap length q, seq, more, r.newest);
        bounded = omega (arith, ap length q, fits, more, r.bounded, seq);
      })
      (λ over q.
        let k = length (f.events ++ ev ∷ []) - most in
        let left = ap length q ∙ length-drop k (f.events ++ ev ∷ []) in
        record {
          lost = r.lost + k;
          run =
              subst (Consecutive (r.lost + k)) (sym q)
                (Consecutive-drop r.lost k (f.events ++ ev ∷ []) (omega arith) longer);
          newest = omega (arith, left, seq, more, r.newest, over);
          bounded = omega (arith, left, over, more, r.bounded, seq);
        })
      events

pub no_events-IsRing : (most : ℕ) → IsRing most no_events
no_events-IsRing most = record { lost = 0; run = tt; newest = refl; bounded = omega arith }

pub publish-IsRing :
    (most : ℕ) (now : Instant) (ev : Event) (f : Feed)
    → IsRing most f
    → IsRing most (publish most now ev f)
unfolding publish
publish-IsRing most now ev f r =
    append_capped-IsRing most f (publish most now ev f) (stamp now (f.seq + 1) ev) r refl refl refl

-- Other watchers, the same events.
pub IsRing-watchers :
    (most : ℕ) (f g : Feed) → g.events ≡ f.events → g.seq ≡ f.seq → IsRing most f → IsRing most g
IsRing-watchers most f g events seq r = record {
  lost = r.lost;
  run = subst (Consecutive r.lost) (sym events) r.run;
  newest = ap (λ evs. r.lost + length evs) events ∙ r.newest ∙ sym seq;
  bounded = ap length events ∙ r.bounded ∙ ap (min most) (sym seq);
}

-- What can happen to the feed of a runner.
pub data Reaches (most : ℕ) : Feed → Type 0 where
  new_runner : Reaches most no_events
  published :
      {f : Feed}
      → Reaches most f
      → (now : Instant) (ev : Event) → Reaches most (publish most now ev f)
  subscribed :
      {f : Feed}
      → Reaches most f
      → (since : ℤ) (number : ℕ) (now : Instant) → Reaches most (subscribe since number now f)
  unsubscribed : {f : Feed} → Reaches most f → (number : ℕ) → Reaches most (unsubscribe number f)
  shut_down : {f : Feed} → Reaches most f → Reaches most (close_all f)

Reaches-IsRing : (most : ℕ) (f : Feed) → Reaches most f → IsRing most f
unfolding subscribe unsubscribe close_all
Reaches-IsRing most f new_runner = no_events-IsRing most
Reaches-IsRing most f (published {f = g} r now ev) =
    publish-IsRing most now ev g (Reaches-IsRing most g r)
Reaches-IsRing most f (subscribed {f = g} r since number now) =
    IsRing-watchers most g f refl refl (Reaches-IsRing most g r)
Reaches-IsRing most f (unsubscribed {f = g} r number) =
    IsRing-watchers most g f refl refl (Reaches-IsRing most g r)
Reaches-IsRing most f (shut_down {f = g} r) =
    IsRing-watchers most g f refl refl (Reaches-IsRing most g r)

first_after-Consecutive :
    (lost since : ℕ) (evs : List Event)
    → lost ≤ since
    → since ≤ lost + length evs
    → Consecutive lost evs
    → Consecutive since (first_after since evs)
      × (since + length (first_after since evs) ≡ lost + length evs)
unfolding first_after
first_after-Consecutive lost since [] le ge h = (tt, omega (arith, le, ge))
first_after-Consecutive lost since (ev ∷ evs) le ge (s, h) =
    if_cases (λ left. Consecutive since left × (since + length left ≡ lost + length (ev ∷ evs)))
      (ltb since ev.seq)
      (λ e.
        let same : lost ≡ since = omega (arith, ltb→lt _ _ e, s, le) in
        (subst (λ n. Consecutive n (ev ∷ evs)) same (s, h), omega (arith, same)))
      (λ e.
        let passed : lost + 1 ≤ since = ground (arith, s) in
        let (run, whole) =
          first_after-Consecutive (lost + 1) since evs passed (omega (arith, ge)) h in
        (run, omega (arith, whole)))

events_after-first_after :
    (lost since : ℕ) (evs : List Event)
    → lost ≤ since
    → Consecutive lost evs
    → events_after (pos since) evs ≡ first_after since evs
unfolding events_after first_after
events_after-first_after lost (suc n) evs le h = refl
events_after-first_after lost zero [] le h = refl
events_after-first_after lost zero (ev ∷ evs) le (s, h) = ground arith

-- Whatever has happened to the runner, the buffered events after a number no further back than the
-- ring is long are every event since then, in order and none twice.
pub events_after-Consecutive :
    (most : ℕ) (f : Feed) (since : ℕ)
    → Reaches most f
    → since ≤ f.seq
    → f.seq ≤ since + most
    → Consecutive since (events_after (pos since) f.events)
      × (since + length (events_after (pos since) f.events) ≡ f.seq)
events_after-Consecutive most f since r le ge =
    let ring = Reaches-IsRing most f r in
    let from : ring.lost ≤ since = omega (arith, ring.newest, ring.bounded, le, ge) in
    let (run, whole) =
      first_after-Consecutive ring.lost since f.events from (omega (arith, ring.newest, le))
        ring.run in
    let same = events_after-first_after ring.lost since f.events from ring.run in
    (
      subst (Consecutive since) (sym same) run,
      ap (λ evs. since + length evs) same ∙ whole ∙ ring.newest,
    )
