-- ===== src/Quiesce/Saved.antt =====
-- In every order of the steps of a backup and of the watchdog (internal/quiesce/console.go), a
-- server saves again when `Release` is done, and the watchdog alone is enough to make it save.
use better_amp_backup.Prelude.{
  ◌⊎◌, inl, inr, Bool, true, false, ◌&&◌, Option, ◌≡◌, ◌≢◌, refl, arith,
}
use better_amp_backup.Quiesce.Steps.{
  IsAccounted, at, accounted, guarded, is_off, quiesced-IsAccounted, checked-IsAccounted,
  drained-IsAccounted, switched_off-IsAccounted, held-IsAccounted, armed-IsAccounted,
  flushed-IsAccounted, polled-IsAccounted, released-IsAccounted, quiet-guarded, stopped-IsAccounted,
  switched_on-IsAccounted, fired-IsAccounted, rescued-IsAccounted,
}
use better_amp_backup.Quiesce.{
  Reply, delivered, refused, unacknowledged, Watchdog, off, waiting, sending, finished, Phase,
  quiet, checking, draining, switching_off, holding, arming, flushing, polling, returned, stopping,
  switching_on, World, begin_quiesce, check_status, drain, send_off, hold, start_watchdog,
  send_flush, Poll, poll, begin_release, stop_watchdog, send_on, fire, send_rescue, new_console,
}

-- The backup's goroutine and the watchdog's take turns. AMP is taken to be truthful where the code
-- can do nothing about it: it takes every save-on, and a save-off that fails has not arrived.
pub data Reaches : World → Type 0 where
  begun : Reaches new_console
  quiesced :
      {w : World} → Reaches w → w.phase ≡ quiet → (skip : Bool) → Reaches (begin_quiesce skip w)
  checked :
      {w : World}
      → Reaches w
      → w.phase ≡ checking
      → (status : Option Bool) → Reaches (check_status status w)
  drained : {w : World} → Reaches w → w.phase ≡ draining → (ok : Bool) → Reaches (drain ok w)
  switched_off :
      {w : World}
      → Reaches w
      → w.phase ≡ switching_off
      → (reply : Reply) → reply ≢ unacknowledged
      → Reaches (send_off reply w)
  was_held : {w : World} → Reaches w → w.phase ≡ holding → Reaches (hold w)
  armed : {w : World} → Reaches w → w.phase ≡ arming → Reaches (start_watchdog w)
  flushed :
      {w : World} → Reaches w → w.phase ≡ flushing → (reply : Reply) → Reaches (send_flush reply w)
  polled : {w : World} → Reaches w → w.phase ≡ polling → (p : Poll) → Reaches (poll p w)
  released : {w : World} → Reaches w → w.phase ≡ returned → Reaches (begin_release w)
  released_again : {w : World} → Reaches w → w.phase ≡ quiet → Reaches (begin_release w)
  stopped :
      {w : World}
      → Reaches w
      → (held : Bool) → w.phase ≡ stopping held
      → w.watchdog ≢ sending
      → Reaches (stop_watchdog held w)
  switched_on :
      {w : World}
      → Reaches w
      → w.phase ≡ switching_on
      → (reply : Reply) → reply ≢ refused
      → Reaches (send_on reply w)
  fired : {w : World} → Reaches w → w.watchdog ≡ waiting → Reaches (fire w)
  rescued :
      {w : World}
      → Reaches w
      → w.watchdog ≡ sending
      → (reply : Reply) → reply ≢ refused
      → Reaches (send_rescue reply w)

-- Someone is there to turn saving on, at every moment.
pub Reaches-IsAccounted : (w : World) → Reaches w → IsAccounted w
unfolding accounted is_off
Reaches-IsAccounted w begun = refl
Reaches-IsAccounted w (quiesced {w = v} r e skip) =
    quiesced-IsAccounted v skip (at v quiet e (Reaches-IsAccounted v r))
Reaches-IsAccounted w (checked {w = v} r e status) =
    checked-IsAccounted v status (at v checking e (Reaches-IsAccounted v r))
Reaches-IsAccounted w (drained {w = v} r e ok) =
    drained-IsAccounted v ok (at v draining e (Reaches-IsAccounted v r))
Reaches-IsAccounted w (switched_off {w = v} r e reply ne) =
    switched_off-IsAccounted v reply ne (at v switching_off e (Reaches-IsAccounted v r))
Reaches-IsAccounted w (was_held {w = v} r e) =
    held-IsAccounted v (at v holding e (Reaches-IsAccounted v r))
Reaches-IsAccounted w (armed {w = v} r e) =
    armed-IsAccounted v (at v arming e (Reaches-IsAccounted v r))
Reaches-IsAccounted w (flushed {w = v} r e reply) =
    flushed-IsAccounted v reply (at v flushing e (Reaches-IsAccounted v r))
Reaches-IsAccounted w (polled {w = v} r e p) =
    polled-IsAccounted v p e (at v polling e (Reaches-IsAccounted v r))
Reaches-IsAccounted w (released {w = v} r e) =
    released-IsAccounted v (at v returned e (Reaches-IsAccounted v r))
Reaches-IsAccounted w (released_again {w = v} r e) =
    released-IsAccounted v
      (quiet-guarded v.held v.watchdog v.saving (at v quiet e (Reaches-IsAccounted v r)))
Reaches-IsAccounted w (stopped {w = v} r found e ne) =
    stopped-IsAccounted v found ne (at v (stopping found) e (Reaches-IsAccounted v r))
Reaches-IsAccounted w (switched_on {w = v} r e reply ne) =
    switched_on-IsAccounted v reply ne (at v switching_on e (Reaches-IsAccounted v r))
Reaches-IsAccounted w (fired {w = v} r e) = fired-IsAccounted v e (Reaches-IsAccounted v r)
Reaches-IsAccounted w (rescued {w = v} r e reply ne) =
    rescued-IsAccounted v reply ne e (Reaches-IsAccounted v r)

-- As long as AMP takes every save-on and a save-off that fails has not arrived: whenever a backup
-- is outside of `Quiesce` and `Release` again, the server saves. It does not matter where `Quiesce`
-- stopped, or when the watchdog fired.
pub release_saves : (w : World) → Reaches w → w.phase ≡ quiet → w.saving ≡ true
unfolding accounted is_off
release_saves w r e = saved w.held w.watchdog w.saving (at w quiet e (Reaches-IsAccounted w r))
  where
    saved : (h : Bool) (dog : Watchdog) (s : Bool) → accounted quiet h dog s ≡ true → s ≡ true
    saved h dog true k = refl
    saved h dog false k = ground arith

-- The watchdog alone, with a save-on that arrives.
abbrev pub rescue : Watchdog → World → World
rescue off w = w
rescue waiting w = send_rescue delivered (fire w)
rescue sending w = send_rescue delivered w
rescue finished w = w

abbrev pub IsBetween : Phase → Type 0
IsBetween phase = (phase ≡ flushing) ⊎ (phase ≡ polling) ⊎ (phase ≡ returned)

left_of : (a b : Bool) → (a && b) ≡ true → a ≡ true
left_of true b h = refl
left_of false b h = h

between-guarded :
    (w : World) → Reaches w → IsBetween w.phase → guarded w.held w.watchdog w.saving ≡ true
unfolding accounted
between-guarded w r (inl e) = left_of _ _ (at w flushing e (Reaches-IsAccounted w r))
between-guarded w r (inr (inl e)) = left_of _ _ (at w polling e (Reaches-IsAccounted w r))
between-guarded w r (inr (inr e)) = at w returned e (Reaches-IsAccounted w r)

-- As long as AMP takes every save-on and a save-off that fails has not arrived: should the
-- backup's goroutine never move again while saving may be off, from the flush to the call of
-- `Release`, then what the watchdog does on its own makes the server save.
pub watchdog_saves :
    (w : World) → Reaches w → IsBetween w.phase → (rescue w.watchdog w).saving ≡ true
unfolding guarded send_rescue fire
watchdog_saves w r e = go w.watchdog (between-guarded w r e)
  where
    go : (dog : Watchdog) → guarded w.held dog w.saving ≡ true → (rescue dog w).saving ≡ true
    go off h = ground arith
    go waiting h = refl
    go sending h = refl
    go finished h = ground arith
