-- ===== src/Quiesce.antt =====
-- The console quiescer (internal/quiesce/console.go): the steps of `Quiesce` and `Release`, which
-- a backup calls one after the other, and those of the watchdog's goroutine, which may come between
-- any two of them. A step ends where the lock is given back or a call of AMP returns. `saving` is
-- the state of the game server, which only messages change.
pub mod Steps
pub mod Saved
pub mod Stranded
mod Samples
use better_amp_backup.Prelude.{Bool, true, false, ◌||◌, if◌then◌else◌, Option, none, some}

-- How `SendConsoleMessage` ends: with nil, or with an error, before or after AMP has got it.
pub data Reply : Type 0 where
  delivered refused unacknowledged : Reply

abbrev pub arrives : Reply → Bool
arrives delivered = true
arrives refused = false
arrives unacknowledged = true

-- The goroutine of `startWatchdog`: there is none, it waits for its timer, it is about to send
-- save-on, or it has closed `done`.
pub data Watchdog : Type 0 where
  off waiting sending finished : Watchdog

-- Where the backup's goroutine is. `quiet` is outside of the two calls; `returned` is between them;
-- `stopping` keeps what `Release` has found `held` to be.
pub data Phase : Type 0 where
  quiet checking draining switching_off holding arming flushing polling returned : Phase
  stopping : Bool → Phase
  switching_on : Phase

pub record World : Type 0 where
  pub saving : Bool
  pub held : Bool
  pub skipped : Bool
  pub watchdog : Watchdog
  pub phase : Phase

-- the start of `Quiesce`, with `SkipIfStopped`
unfoldable pub begin_quiesce : Bool → World → World
begin_quiesce skip_if_stopped w =
    if w.held || w.skipped
    then record w { phase = returned }
    else record w { phase = if skip_if_stopped then checking else draining }

-- `GetStatus`: an error, or whether the application runs
unfoldable pub check_status : Option Bool → World → World
check_status none w = record w { phase = returned }
check_status (some true) w = record w { phase = draining }
check_status (some false) w = record w { skipped = true; phase = returned }

-- `GetUpdates`, whose entries are dropped; `false` is an error.
unfoldable pub drain : Bool → World → World
drain true w = record w { phase = switching_off }
drain false w = record w { phase = returned }

abbrev off_phase : Reply → Phase
off_phase delivered = holding
off_phase refused = returned
off_phase unacknowledged = returned

-- save-off is sent
unfoldable pub send_off : Reply → World → World
send_off reply w = record w {
  saving = if arrives reply then false else w.saving;
  phase = off_phase reply;
}

unfoldable pub hold : World → World
hold w = record w { held = true; phase = arming }

-- `startWatchdog`
unfoldable pub start_watchdog : World → World
start_watchdog w = record w { watchdog = waiting; phase = flushing }

abbrev flush_phase : Reply → Phase
flush_phase delivered = polling
flush_phase refused = returned
flush_phase unacknowledged = returned

-- the flush is sent
unfoldable pub send_flush : Reply → World → World
send_flush reply w = record w { phase = flush_phase reply }

-- What one turn of the loop of `waitForFlush` ends with: the line, no line yet, or an error, a
-- timeout or a context that is done.
pub data Poll : Type 0 where
  confirmed not_yet given_up : Poll

unfoldable pub poll : Poll → World → World
poll confirmed w = record w { phase = returned }
poll not_yet w = w
poll given_up w = record w { phase = returned }

-- `Release`, under the lock
unfoldable pub begin_release : World → World
begin_release w = record w { held = false; skipped = false; phase = stopping w.held }

-- `Release` has stopped the watchdog and received from `done`
unfoldable pub stop_watchdog : Bool → World → World
stop_watchdog held w = record w { watchdog = off; phase = if held then switching_on else quiet }

-- save-on is sent at the end of `Release`
unfoldable pub send_on : Reply → World → World
send_on reply w = record w { saving = if arrives reply then true else w.saving; phase = quiet }

-- The watchdog's timer has run out: what it does under the lock.
unfoldable pub fire : World → World
fire w = record w { held = false; watchdog = if w.held then sending else finished }

-- save-on is sent by the watchdog
unfoldable pub send_rescue : Reply → World → World
send_rescue reply w = record w {
  saving = if arrives reply then true else w.saving;
  watchdog = finished;
}

-- `EnsureSaveOn`
unfoldable pub ensure_save_on : Reply → World → World
ensure_save_on reply w = record w { saving = if arrives reply then true else w.saving }

-- `NewConsole`, of a server that saves
abbrev pub new_console : World
new_console = record { saving = true; held = false; skipped = false; watchdog = off; phase = quiet }
