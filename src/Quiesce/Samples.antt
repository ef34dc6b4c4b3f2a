-- ===== src/Quiesce/Samples.antt =====
-- The theorems on internal/quiesce/console.go at concrete runs.
use better_amp_backup.Prelude.{true, false, ◌≡◌, ◌≢◌, refl, inr, arith}
use better_amp_backup.Quiesce.{
  delivered, refused, unacknowledged, waiting, sending, off, finished, Phase, switching_on, quiet,
  World, new_console, begin_quiesce, drain, send_off, hold, start_watchdog, send_flush, poll,
  given_up, fire, send_rescue, begin_release, stop_watchdog, send_on,
}
use better_amp_backup.Quiesce.Saved.{
  Reaches, begun, quiesced, drained, switched_off, was_held, armed, flushed, polled, fired, rescued,
  released, stopped, rescue, release_saves, watchdog_saves,
}
use better_amp_backup.Quiesce.Stranded.{Follows, here, release_strands}
use better_amp_backup.Quiesce.Stranded

-- A flush that is not confirmed in time.
abbrev unconfirmed : World
unconfirmed = poll given_up (
    send_flush delivered
      (start_watchdog (hold (send_off delivered (drain true (begin_quiesce false new_console))))))

-- The watchdog is faster than `Release`.
abbrev saved : World
saved = stop_watchdog false (begin_release (send_rescue delivered (fire unconfirmed)))

is_acknowledged : delivered ≢ unacknowledged
is_acknowledged e = ground arith

is_taken : delivered ≢ refused
is_taken e = ground arith

is_over : finished ≢ sending
is_over e = ground arith

unconfirmed-Reaches : Reaches unconfirmed
unfolding begin_quiesce drain send_off hold start_watchdog send_flush
unconfirmed-Reaches =
    polled
      (flushed
        (armed
          (was_held
            (switched_off (drained (quiesced begun refl false) refl true) refl delivered
              is_acknowledged)
            refl)
          refl)
        refl delivered)
      refl given_up

saved-Reaches : Reaches saved
unfolding begin_quiesce drain send_off hold start_watchdog send_flush poll fire send_rescue
    begin_release
saved-Reaches =
    stopped (released (rescued (fired unconfirmed-Reaches refl) refl delivered is_taken) refl) false
      refl is_over

saved_quiet : saved.phase ≡ quiet
unfolding stop_watchdog
saved_quiet = refl

release_saves_example : saved.saving ≡ true
release_saves_example = release_saves saved saved-Reaches saved_quiet

unconfirmed_returned : unconfirmed.phase ≡ Phase.returned
unfolding poll
unconfirmed_returned = refl

watchdog_saves_example : (rescue unconfirmed.watchdog unconfirmed).saving ≡ true
watchdog_saves_example =
    watchdog_saves unconfirmed unconfirmed-Reaches (inr (inr unconfirmed_returned))

-- `Release` after a flush that was not confirmed, as far as its save-on.
abbrev ending : World
ending = stop_watchdog true (begin_release unconfirmed)

is_waiting : waiting ≢ sending
is_waiting e = ground arith

ending-Reaches : Reaches ending
unfolding begin_quiesce drain send_off hold start_watchdog send_flush poll begin_release
ending-Reaches = stopped (released unconfirmed-Reaches refl) true refl is_waiting

ending_phase : ending.phase ≡ switching_on
unfolding stop_watchdog
ending_phase = refl

ending_not_saving : ending.saving ≡ false
unfolding begin_quiesce drain send_off hold start_watchdog send_flush poll begin_release
    stop_watchdog
ending_not_saving = refl

-- `Release` is called again, and comes to its end.
abbrev again : World
again = stop_watchdog false (begin_release (send_on refused ending))

is_none : off ≢ sending
is_none e = ground arith

again-Follows : Follows (send_on refused ending) again
unfolding send_on begin_release stop_watchdog begin_quiesce drain send_off hold start_watchdog
    send_flush poll
again-Follows = Stranded.stopped (Stranded.released here refl) false refl is_none

release_strands_example :
    (again.saving ≡ false) × (again.watchdog ≡ off) × (again.phase ≢ switching_on)
release_strands_example =
    release_strands ending again refused ending-Reaches ending_phase ending_not_saving refl
      again-Follows
