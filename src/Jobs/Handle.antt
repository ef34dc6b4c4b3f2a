-- ===== src/Jobs/Handle.antt =====
-- The other calls on a runner: `Current`, `Get`, `List`, `Cancel`, `LastSeq` and the two ends of
-- `Shutdown` (internal/jobs/jobs.go), and what a running job does through its handle
-- (internal/jobs/handle.go).
use better_amp_backup.Prelude.{
  ℕ, ◌+◌, Bool, true, false, ◌&&◌, not, ltb, if◌then◌else◌, List, [], ◌∷◌, ◌++◌, map, Option, none,
  some, list_eq, ℤ, pos, negsuc, leb_ℤ, ltb_ℤ, reverse,
}
use better_amp_backup.Clock.{Instant, Duration}
use better_amp_backup.Paths.{Text}
use better_amp_backup.Jobs.{Job, LogLine, Event, EventType}
use better_amp_backup.Jobs.Feed.{append_capped, close_all}
use better_amp_backup.Jobs.Runner.{
  Address, Record, Runner, announce, event_of, find_id, nat_of, update,
}

-- `Current`
pub current_job : Runner → Option Job
current_job r = elim r.current [ none ↦ none | some a ↦ some (r.records a).job ]

-- `Get`; `none` is `ErrNotFound`.
unfoldable pub get : Text → Runner → Option (Job × List LogLine)
get id r = elim (find_id id r.by_id) [
  | none ↦ none
  | some a ↦ some ((r.records a).job, (r.records a).logs)
]

abbrev pub running_first : Option Address → List Address
running_first none = []
running_first (some a) = a ∷ []

-- `List`
unfoldable pub list : Runner → List Job
list r = map (λ a. (r.records a).job) (running_first r.current ++ reverse r.history)

pub data CancelResult : Type 0 where
  asked already_finished not_found : CancelResult

abbrev pub is_current : Text → (Address → Record) → Option Address → Bool
is_current id records none = false
is_current id records (some a) = list_eq (records a).job.id id

abbrev pub ask : Record → Record
ask rec = record rec { job = record rec.job { cancelling = true }; cancelled = true }

abbrev pub ask_current : Option Address → (Address → Record) → Address → Record
ask_current none records = records
ask_current (some a) records = update a ask records

abbrev pub announce_current : Instant → Option Address → Runner → Runner
announce_current now none r = r
announce_current now (some a) r = announce now (event_of EventType.job (r.records a).job) r

abbrev pub refusal : Option Address → CancelResult
refusal none = not_found
refusal (some a) = already_finished

-- `Cancel`
unfoldable pub cancel : Text → Instant → Runner → CancelResult × Runner
unfolding announce
cancel id now r =
    if is_current id r.records r.current
    then (
      asked,
      announce_current now r.current (record r { records = ask_current r.current r.records }),
    )
    else (refusal (find_id id r.by_id), r)

-- `LastSeq`
pub last_seq : Runner → ℕ
last_seq r = r.feed.seq

-- `Shutdown`, before it waits
unfoldable pub begin_shutdown : Runner → Runner
begin_shutdown r = record r { closed = true; records = ask_current r.current r.records }

-- `Shutdown`, when the job has unwound
unfoldable pub end_shutdown : Runner → Runner
unfolding close_all
end_shutdown r = record r { feed = close_all r.feed }

abbrev pub with_progress : Text → ℤ → ℤ → Record → Record
with_progress stage done total rec = record rec {
  job = record rec.job { stage = stage; done = done; total = total };
}

abbrev pub with_emit : Instant → Record → Record
with_emit now rec = record rec { last_emit = now }

abbrev pub with_line : ℕ → LogLine → Record → Record
unfolding append_capped
with_line most line rec = record rec { logs = append_capped rec.logs most line }

-- `now.Sub(last) < throttle`
abbrev pub too_soon : Instant → Instant → Duration → Bool
too_soon now last (pos d) = ltb now (last + d)
too_soon now last (negsuc d) = ltb (now + (d + 1)) last

-- The event may be left out: neither a new stage, nor a finished one, nor enough time.
pub is_throttled : Text → ℤ → ℤ → Instant → Duration → Record → Bool
is_throttled stage done total now throttle rec =
    let changed = not (list_eq rec.job.stage stage) in
    let finished = ltb_ℤ (pos 0) total && leb_ℤ total done in
    not changed && not finished && too_soon now rec.last_emit throttle

abbrev pub progress_event : Instant → Job → Event
progress_event now job = record (event_of EventType.progress job) { at = now }

abbrev pub log_event : LogLine → Event
log_event line = record { seq = 0; at = line.at; type = EventType.log; job = none; log = some line }

-- `Handle.Stage`
unfoldable pub stage : Address → Text → ℤ → ℤ → Instant → Runner → Runner
unfolding announce update is_throttled
stage a name done total now r =
    let recorded = record r { records = update a (with_progress name done total) r.records } in
    let emitted = record recorded { records = update a (with_emit now) recorded.records } in
    if is_throttled name done total now r.opts.throttle (r.records a)
    then recorded
    else announce now (progress_event now (emitted.records a).job) emitted

-- `Handle.Logf`, with the line that it makes
unfoldable pub logf : Address → LogLine → Instant → Runner → Runner
unfolding announce update append_capped
logf a line now r =
    announce now (log_event line)
      (record r { records = update a (with_line (nat_of r.opts.log_lines) line) r.records })
