-- ===== src/Jobs/Samples.antt =====
-- Tests of internal/jobs/jobs.go and internal/jobs/handle.go, and the theorem at a concrete runner.
use better_amp_backup.Prelude.{ℕ, [], ◌∷◌, map, pos, none, some, ◌≡◌, refl}
use better_amp_backup.Paths.{Text}
use better_amp_backup.Clock.{Instant}
use better_amp_backup.Jobs.{Kind, backup, restore, cancelled, succeeded, Job}
use better_amp_backup.Jobs.Runner.{Options, Runner, nothing, encoded, submit, finish, new_runner}
use better_amp_backup.Jobs.Handle.{cancel, already_finished, get, list}
use better_amp_backup.Jobs.Reaches.{
  Reaches, begun, submitted, finished, cancelling, Reaches-IsSingle,
}
use better_amp_backup.Jobs.Steady.{IsSingle}

abbrev number_id : Kind → Instant → ℕ → Text
number_id kind at n = n ∷ []

abbrev options : Options
options = record {
  history = pos 1;
  log_lines = pos 2;
  event_buffer = pos 4;
  throttle = pos 250;
  new_id = number_id;
}

abbrev one : Runner
one = (submit backup "admin" 10 (new_runner options)).1

abbrev asked_to_stop : Runner
asked_to_stop = (cancel (1 ∷ []) 20 one).1

abbrev over : Runner
over = finish 0 (record { error = some "context canceled"; result = nothing }) 30 asked_to_stop

abbrev two : Runner
two =
    finish 1 (record { error = none; result = encoded "{}" }) 50 (submit restore "admin" 40 over).1

slot_taken : one.current ≡ some 0
unfolding submit new_runner
slot_taken = refl

second_is_busy : map (λ (j : Job). j.id) (list (submit restore "admin" 15 one).1) ≡ (1 ∷ []) ∷ []
unfolding submit new_runner list
second_is_busy = refl

ends_cancelled : map (λ (j : Job). j.state) (list over) ≡ cancelled ∷ []
unfolding submit new_runner cancel finish list
ends_cancelled = refl

forgets_the_first : map (λ (j : Job). j.state) (list two) ≡ succeeded ∷ []
unfolding submit new_runner cancel finish list
forgets_the_first = refl

first_not_found : get (1 ∷ []) two ≡ none
unfolding submit new_runner cancel finish get
first_not_found = refl

cancel_too_late : (cancel (1 ∷ []) 35 over).0 ≡ already_finished
unfolding submit new_runner cancel finish
cancel_too_late = refl

slot_kept : asked_to_stop.current ≡ some 0
unfolding submit new_runner cancel
slot_kept = refl

over-Reaches : Reaches options over
over-Reaches =
    finished (cancelling (submitted begun backup "admin" 10) (1 ∷ []) 20) 0
      (record { error = some "context canceled"; result = nothing }) 30 slot_kept

Reaches-IsSingle_example : IsSingle over
Reaches-IsSingle_example = Reaches-IsSingle options over over-Reaches
