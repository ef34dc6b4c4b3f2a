-- ===== src/Jobs/Runner.antt =====
-- The runner of internal/jobs/jobs.go with its one job slot, and the handle of
-- internal/jobs/handle.go. Each function is one critical section under the runner's mutex. The
-- records that `current`, `history`, `byID` and the handles point to are in a store, by address; the
-- clock's reading is an argument.
use better_amp_backup.Prelude.{
  ℕ, zero, suc, ◌+◌, Bool, true, false, ◌==◌, ltb, if◌then◌else◌, List, [], ◌∷◌, ◌++◌, length,
  Option, none, some, String, list_eq, ℤ, pos, negsuc,
}
use better_amp_backup.Clock.{Instant, Duration}
use better_amp_backup.Paths.{Text}
use better_amp_backup.Jobs.{
  Kind, State, running, succeeded, failed, cancelled, Job, LogLine, Event, EventType,
}
use better_amp_backup.Jobs.Feed.{Feed, append_capped, publish, no_events}

-- `NewID` is code that the caller may give.
pub record Options : Type 0 where
  pub history : ℤ
  pub log_lines : ℤ
  pub event_buffer : ℤ
  pub throttle : Duration
  pub new_id : Kind → Instant → ℕ → Text

abbrev pub or_default : ℤ → ℕ → ℤ
or_default (pos zero) n = pos n
or_default (pos (suc k)) n = pos (suc k)
or_default (negsuc k) n = pos n

-- `applyDefaults`
unfoldable pub apply_defaults : Options → Options
apply_defaults o = record o {
  history = or_default o.history 20;
  log_lines = or_default o.log_lines 2000;
  event_buffer = or_default o.event_buffer 1024;
  throttle = or_default o.throttle 250000000;
}

-- A job's record. `cancelled` says that its context is done.
pub record Record : Type 0 where
  pub job : Job
  pub logs : List LogLine
  pub cancelled : Bool
  pub last_emit : Instant

abbrev pub Address : Type 0
Address = ℕ

-- The record of the n-th job has the address n; `counter` is the next free address.
pub record Runner : Type 0 where
  pub opts : Options
  pub counter : ℕ
  pub current : Option Address
  pub history : List Address
  pub by_id : List (Text × Address)
  pub records : Address → Record
  pub feed : Feed
  pub closed : Bool

unfoldable pub update : Address → (Record → Record) → (Address → Record) → Address → Record
update a f records b = if b == a then f (records b) else records b

abbrev pub nat_of : ℤ → ℕ
nat_of (pos n) = n
nat_of (negsuc n) = 0

abbrev pub event_of : EventType → Job → Event
event_of type job = record { seq = 0; at = 0; type = type; job = some job; log = none }

-- `publishLocked`
unfoldable pub announce : Instant → Event → Runner → Runner
unfolding publish
announce now ev r = record r { feed = publish (nat_of r.opts.event_buffer) now ev r.feed }

abbrev pub delete_id : Text → List (Text × Address) → List (Text × Address)
delete_id id [] = []
delete_id id ((k, a) ∷ m) =
    let rest = delete_id id m in if list_eq k id then rest else (k, a) ∷ rest

abbrev pub find_id : Text → List (Text × Address) → Option Address
find_id id [] = none
find_id id ((k, a) ∷ m) = if list_eq k id then some a else find_id id m

pub data Submitted : Type 0 where
  started : Job → Submitted
  busy : Job → Submitted
  shutting_down : Submitted

abbrev pub new_job : Text → Kind → String → Instant → Job
new_job id kind by now = record {
  id = id;
  kind = kind;
  state = running;
  started_by = by;
  started_at = now;
  ended_at = 0;
  stage = [];
  done = pos 0;
  total = pos 0;
  error = "";
  result = none;
  cancelling = false;
}

-- the part of `Submit` that starts the job
unfoldable pub start_job : Kind → String → Instant → Runner → Submitted × Runner
unfolding announce update
start_job kind by now r =
    let job = new_job (r.opts.new_id kind now (r.counter + 1)) kind by now in
    let rec : Record = record { job = job; logs = []; cancelled = false; last_emit = 0 } in
    (
      started job,
      announce now (event_of EventType.job job) (record r {
        counter = r.counter + 1;
        current = some r.counter;
        by_id = (job.id, r.counter) ∷ delete_id job.id r.by_id;
        records = update r.counter (λ _. rec) r.records;
      }),
    )

-- what `Submit` does, by what `current` is
unfoldable pub submit_into : Option Address → Kind → String → Instant → Runner → Submitted × Runner
unfolding start_job
submit_into none kind by now r = start_job kind by now r
submit_into (some a) kind by now r = (busy (r.records a).job, r)

-- `Submit`
unfoldable pub submit : Kind → String → Instant → Runner → Submitted × Runner
unfolding submit_into
submit kind by now r = if r.closed then (shutting_down, r) else submit_into r.current kind by now r

-- What a job's function returns; a panic is an error. A result may refuse to be encoded: the text
-- is that of the warning.
pub data Returned : Type 0 where
  nothing : Returned
  encoded : String → Returned
  unencodable : String → Returned

pub record Outcome : Type 0 where
  pub error : Option String
  pub result : Returned

-- the `switch` of `run`: the state, and the text of the error
unfoldable pub final_state : Option String → Bool → State × String
final_state (some e) true = (cancelled, e)
final_state (some e) false = (failed, e)
final_state none true = (cancelled, "")
final_state none false = (succeeded, "")

-- what `run` does with the result
unfoldable pub with_result : ℕ → Instant → Returned → Record → Record
unfolding append_capped
with_result most now nothing rec = rec
with_result most now (encoded raw) rec = record rec { job = record rec.job { result = some raw } }
with_result most now (unencodable why) rec = record rec {
  logs = append_capped rec.logs most (record { at = now; level = "warn"; text = why });
}

unfoldable pub ended : ℕ → Instant → Outcome → Record → Record
unfolding final_state with_result
ended most now out rec =
    let (state, error) = final_state out.error rec.cancelled in
    record (with_result most now out.result (record rec {
      job = record rec.job { ended_at = now; state = state; error = error; cancelling = false };
    })) { cancelled = true }

-- `forgetOldLocked`
unfoldable pub forget_old :
    ℕ
    → (Address → Record)
    → List Address
    → List (Text × Address)
    → List Address × List (Text × Address)
forget_old most records [] by_id = ([], by_id)
forget_old most records (a ∷ rest) by_id =
    if ltb most (length (a ∷ rest))
    then forget_old most records rest (delete_id (records a).job.id by_id)
    else (a ∷ rest, by_id)

-- the end of `run`, for the record that it was started with
unfoldable pub finish : Address → Outcome → Instant → Runner → Runner
unfolding announce update ended forget_old
finish a out now r =
    let records = update a (ended (nat_of r.opts.log_lines) now out) r.records in
    let (history, by_id) =
      forget_old (nat_of r.opts.history) records (r.history ++ a ∷ []) r.by_id in
    announce now (event_of EventType.job (records a).job)
      (record r { current = none; history = history; by_id = by_id; records = records })

abbrev no_job : Job
no_job = new_job [] Kind.backup "" 0

-- `NewRunner`
unfoldable pub new_runner : Options → Runner
unfolding apply_defaults
new_runner o = record {
  opts = apply_defaults o;
  counter = 0;
  current = none;
  history = [];
  by_id = [];
  records = λ _. record { job = no_job; logs = []; cancelled = false; last_emit = 0 };
  feed = no_events;
  closed = false;
}
