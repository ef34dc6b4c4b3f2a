-- ===== src/Quiesce/Steps.antt =====
-- Who is there to turn saving on again (internal/quiesce/console.go), and that every step keeps
-- someone there.
use better_amp_backup.Prelude.{
  Bool, true, false, ◌&&◌, not, if◌then◌else◌, Option, none, some, ◌≡◌, ◌≢◌, refl, sym, subst,
  arith,
}
use better_amp_backup.Quiesce.{
  Reply, delivered, refused, unacknowledged, Watchdog, off, waiting, sending, finished, Phase,
  quiet, checking, draining, switching_off, holding, arming, flushing, polling, returned, stopping,
  switching_on, World, begin_quiesce, check_status, drain, send_off, hold, start_watchdog,
  send_flush, Poll, confirmed, not_yet, given_up, poll, begin_release, stop_watchdog, send_on, fire,
  send_rescue,
}

-- While saving is off, who is there to turn it on: with `held`, the watchdog and whether it saves.
unfoldable pub guarded : Bool → Watchdog → Bool → Bool
guarded held off saving = not held && saving
guarded held waiting saving = held
guarded held sending saving = not held
guarded held finished saving = not held && saving

-- The same within `Release`, by what it has found `held` to be.
unfoldable pub ending : Bool → Watchdog → Bool → Bool
ending true off saving = false
ending true waiting saving = true
ending true sending saving = false
ending true finished saving = true
ending false off saving = saving
ending false waiting saving = false
ending false sending saving = true
ending false finished saving = saving

unfoldable pub is_off : Watchdog → Bool
is_off off = true
is_off waiting = false
is_off sending = false
is_off finished = false

unfoldable pub accounted : Phase → Bool → Watchdog → Bool → Bool
accounted quiet held dog saving = not held && is_off dog && saving
accounted checking held dog saving = not held && is_off dog && saving
accounted draining held dog saving = not held && is_off dog && saving
accounted switching_off held dog saving = not held && is_off dog && saving
accounted holding held dog saving = not held && is_off dog
accounted arming held dog saving = held && is_off dog
accounted flushing held dog saving = guarded held dog saving && not (is_off dog)
accounted polling held dog saving = guarded held dog saving && not (is_off dog)
accounted returned held dog saving = guarded held dog saving
accounted (stopping found) held dog saving = not held && ending found dog saving
accounted switching_on held dog saving = not held && is_off dog

abbrev pub IsAccounted : World → Type 0
IsAccounted w = accounted w.phase w.held w.watchdog w.saving ≡ true

-- The invariant with the phase that a step begins in.
abbrev pub At : Phase → World → Type 0
At phase w = accounted phase w.held w.watchdog w.saving ≡ true

pub at : (w : World) (phase : Phase) → w.phase ≡ phase → IsAccounted w → At phase w
at w phase e h = subst (λ p. accounted p w.held w.watchdog w.saving ≡ true) e h

module _ (w : World) where
  pub quiesced-IsAccounted : (skip : Bool) → At quiet w → IsAccounted (begin_quiesce skip w)
  unfolding begin_quiesce accounted guarded is_off
  quiesced-IsAccounted skip h = ground arith

  pub checked-IsAccounted :
      (status : Option Bool) → At checking w → IsAccounted (check_status status w)
  unfolding check_status accounted guarded is_off
  checked-IsAccounted none h = ground arith
  checked-IsAccounted (some true) h = ground arith
  checked-IsAccounted (some false) h = ground arith

  pub drained-IsAccounted : (ok : Bool) → At draining w → IsAccounted (drain ok w)
  unfolding drain accounted guarded is_off
  drained-IsAccounted true h = ground arith
  drained-IsAccounted false h = ground arith

  pub switched_off-IsAccounted :
      (reply : Reply) → reply ≢ unacknowledged → At switching_off w → IsAccounted (send_off reply w)
  unfolding send_off accounted guarded is_off
  switched_off-IsAccounted delivered ne h = ground arith
  switched_off-IsAccounted refused ne h = ground arith
  switched_off-IsAccounted unacknowledged ne h = absurd (ne refl)

  pub held-IsAccounted : At holding w → IsAccounted (hold w)
  unfolding hold accounted is_off
  held-IsAccounted h = ground arith

  pub armed-IsAccounted : At arming w → IsAccounted (start_watchdog w)
  unfolding start_watchdog accounted guarded is_off
  armed-IsAccounted h = ground arith

  pub flushed-IsAccounted : (reply : Reply) → At flushing w → IsAccounted (send_flush reply w)
  unfolding send_flush accounted guarded is_off
  flushed-IsAccounted delivered h = ground arith
  flushed-IsAccounted refused h = ground arith
  flushed-IsAccounted unacknowledged h = ground arith

  pub polled-IsAccounted : (p : Poll) → w.phase ≡ polling → At polling w → IsAccounted (poll p w)
  unfolding poll accounted guarded is_off
  polled-IsAccounted confirmed e h = ground arith
  polled-IsAccounted not_yet e h =
      subst (λ p. accounted p w.held w.watchdog w.saving ≡ true) (sym e) h
  polled-IsAccounted given_up e h = ground arith

guarded-ending :
    (held : Bool) (dog : Watchdog) (saving : Bool)
    → guarded held dog saving ≡ true
    → ending held dog saving ≡ true
unfolding guarded ending
guarded-ending true off saving h = ground arith
guarded-ending true waiting saving h = refl
guarded-ending true sending saving h = ground arith
guarded-ending true finished saving h = ground arith
guarded-ending false off saving h = ground arith
guarded-ending false waiting saving h = ground arith
guarded-ending false sending saving h = refl
guarded-ending false finished saving h = ground arith

pub quiet-guarded :
    (held : Bool) (dog : Watchdog) (saving : Bool)
    → accounted quiet held dog saving ≡ true
    → guarded held dog saving ≡ true
unfolding accounted guarded is_off
quiet-guarded held off saving h = ground arith
quiet-guarded held waiting saving h = ground arith
quiet-guarded held sending saving h = ground arith
quiet-guarded held finished saving h = ground arith

pub released-IsAccounted :
    (w : World) → guarded w.held w.watchdog w.saving ≡ true → IsAccounted (begin_release w)
unfolding begin_release accounted
released-IsAccounted w h = guarded-ending w.held w.watchdog w.saving h

stopped_part :
    (found held : Bool) (dog : Watchdog) (saving : Bool)
    → dog ≢ sending
    → accounted (stopping found) held dog saving ≡ true
    → accounted (if found then switching_on else quiet) held off saving ≡ true
unfolding accounted ending is_off
stopped_part true held dog saving ne h = ground arith
stopped_part false held off saving ne h = ground arith
stopped_part false held waiting saving ne h = ground arith
stopped_part false held sending saving ne h = absurd (ne refl)
stopped_part false held finished saving ne h = ground arith

pub stopped-IsAccounted :
    (w : World) (found : Bool)
    → w.watchdog ≢ sending
    → At (stopping found) w
    → IsAccounted (stop_watchdog found w)
unfolding stop_watchdog
stopped-IsAccounted w found ne h = stopped_part found w.held w.watchdog w.saving ne h

pub switched_on-IsAccounted :
    (w : World) (reply : Reply)
    → reply ≢ refused
    → At switching_on w
    → IsAccounted (send_on reply w)
unfolding send_on accounted is_off
switched_on-IsAccounted w delivered ne h = ground arith
switched_on-IsAccounted w refused ne h = absurd (ne refl)
switched_on-IsAccounted w unacknowledged ne h = ground arith

fired_part :
    (phase : Phase) (held saving : Bool)
    → accounted phase held waiting saving ≡ true
    → accounted phase false (if held then sending else finished) saving ≡ true
unfolding accounted guarded ending is_off
fired_part quiet held saving h = ground arith
fired_part checking held saving h = ground arith
fired_part draining held saving h = ground arith
fired_part switching_off held saving h = ground arith
fired_part holding held saving h = ground arith
fired_part arming held saving h = ground arith
fired_part flushing held saving h = ground arith
fired_part polling held saving h = ground arith
fired_part returned held saving h = ground arith
fired_part (stopping true) held saving h = ground arith
fired_part (stopping false) held saving h = ground arith
fired_part switching_on held saving h = ground arith

pub fired-IsAccounted : (w : World) → w.watchdog ≡ waiting → IsAccounted w → IsAccounted (fire w)
unfolding fire
fired-IsAccounted w e h =
    fired_part w.phase w.held w.saving
      (subst (λ dog. accounted w.phase w.held dog w.saving ≡ true) e h)

rescued_part :
    (phase : Phase) (held saving : Bool)
    → accounted phase held sending saving ≡ true
    → accounted phase held finished true ≡ true
unfolding accounted guarded ending is_off
rescued_part quiet held saving h = ground arith
rescued_part checking held saving h = ground arith
rescued_part draining held saving h = ground arith
rescued_part switching_off held saving h = ground arith
rescued_part holding held saving h = ground arith
rescued_part arming held saving h = ground arith
rescued_part flushing held saving h = ground arith
rescued_part polling held saving h = ground arith
rescued_part returned held saving h = ground arith
rescued_part (stopping true) held saving h = ground arith
rescued_part (stopping false) held saving h = ground arith
rescued_part switching_on held saving h = ground arith

pub rescued-IsAccounted :
    (w : World) (reply : Reply)
    → reply ≢ refused
    → w.watchdog ≡ sending
    → IsAccounted w
    → IsAccounted (send_rescue reply w)
unfolding send_rescue
rescued-IsAccounted w refused ne e h = absurd (ne refl)
rescued-IsAccounted w delivered ne e h =
    rescued_part w.phase w.held w.saving
      (subst (λ dog. accounted w.phase w.held dog w.saving ≡ true) e h)
rescued-IsAccounted w unacknowledged ne e h =
    rescued_part w.phase w.held w.saving
      (subst (λ dog. accounted w.phase w.held dog w.saving ≡ true) e h)
