-- ===== src/Jobs/Steady.antt =====
-- Most calls on a runner (internal/jobs/jobs.go, internal/jobs/handle.go) change neither its slot
-- nor the state of a job.
use better_amp_backup.Prelude.{
  ◌≤◌, ◌<◌, ◌==◌, if_cases, length, Option, none, some, ℤ, ◌≡◌, refl, sym, ◌∙◌, subst,
}
use better_amp_backup.Clock.{Instant}
use better_amp_backup.Paths.{Text}
use better_amp_backup.Jobs.{running, LogLine, Event, EventType}
use better_amp_backup.Jobs.Runner.{Address, Record, Runner, nat_of, update, announce, event_of}
use better_amp_backup.Jobs.Handle.{
  CancelResult, with_emit, with_line, progress_event, log_event, ask, ask_current, is_current,
  announce_current, cancel, with_progress, is_throttled, stage, logf,
}

-- The current job is the one that runs, and the history is within its bound.
pub record IsSingle (r : Runner) : Type 0 where
  pub below : (a : Address) → r.current ≡ some a → a < r.counter
  pub only : (a : Address) → a < r.counter → (r.records a).job.state ≡ running → r.current ≡ some a
  pub runs : (a : Address) → r.current ≡ some a → (r.records a).job.state ≡ running
  pub short : length r.history ≤ nat_of r.opts.history

-- Neither the slot nor the state of a job differs.
pub record SameJobs (r s : Runner) : Type 0 where
  pub opts : s.opts ≡ r.opts
  pub counter : s.counter ≡ r.counter
  pub current : s.current ≡ r.current
  pub history : s.history ≡ r.history
  pub states : (a : Address) → (s.records a).job.state ≡ (r.records a).job.state

pub SameJobs-self : (r : Runner) → SameJobs r r
SameJobs-self r = record {
  opts = refl;
  counter = refl;
  current = refl;
  history = refl;
  states = λ a. refl;
}

pub IsSingle-SameJobs : (r s : Runner) → SameJobs r s → IsSingle r → IsSingle s
IsSingle-SameJobs r s same h = record {
  below = λ a e. subst (λ n. a < n) (sym same.counter) (h.below a (sym same.current ∙ e));
  only = λ a lt e.
      same.current ∙ h.only a (subst (λ n. a < n) same.counter lt) (sym (same.states a) ∙ e);
  runs = λ a e. same.states a ∙ h.runs a (sym same.current ∙ e);
  short =
      subst (λ o. length s.history ≤ nat_of o.history) (sym same.opts)
        (subst (λ hs. length hs ≤ nat_of r.opts.history) (sym same.history) h.short);
}

update_state :
    (a b : Address) (f : Record → Record) (records : Address → Record)
    → ((rec : Record) → (f rec).job.state ≡ rec.job.state)
    → (update a f records b).job.state ≡ (records b).job.state
unfolding update
update_state a b f records h =
    if_cases (λ (rec : Record). rec.job.state ≡ (records b).job.state) (b == a) (λ _. h (records b))
      (λ _. refl)

ask_current_state :
    (c : Option Address) (records : Address → Record) (b : Address)
    → (ask_current c records b).job.state ≡ (records b).job.state
ask_current_state none records b = refl
ask_current_state (some a) records b = update_state a b ask records (λ rec. refl)

SameJobs-trans : (r s t : Runner) → SameJobs r s → SameJobs s t → SameJobs r t
SameJobs-trans r s t h k = record {
  opts = k.opts ∙ h.opts;
  counter = k.counter ∙ h.counter;
  current = k.current ∙ h.current;
  history = k.history ∙ h.history;
  states = λ a. k.states a ∙ h.states a;
}

pub announce-SameJobs : (now : Instant) (ev : Event) (r : Runner) → SameJobs r (announce now ev r)
unfolding announce
announce-SameJobs now ev r = record {
  opts = refl;
  counter = refl;
  current = refl;
  history = refl;
  states = λ a. refl;
}

announce_current-SameJobs :
    (now : Instant) (c : Option Address) (r : Runner) → SameJobs r (announce_current now c r)
announce_current-SameJobs now none r = SameJobs-self r
announce_current-SameJobs now (some a) r =
    announce-SameJobs now (event_of EventType.job (r.records a).job) r

pub asked-SameJobs :
    (r : Runner) → SameJobs r (record r { records = ask_current r.current r.records })
asked-SameJobs r = record {
  opts = refl;
  counter = refl;
  current = refl;
  history = refl;
  states = λ a. ask_current_state r.current r.records a;
}

pub cancel-SameJobs : (id : Text) (now : Instant) (r : Runner) → SameJobs r (cancel id now r).1
unfolding cancel
cancel-SameJobs id now r =
    let after = record r { records = ask_current r.current r.records } in
    if_cases (λ (x : CancelResult × Runner). SameJobs r x.1) (is_current id r.records r.current)
      (λ _.
        SameJobs-trans r after (announce_current now r.current after) (asked-SameJobs r)
          (announce_current-SameJobs now r.current after))
      (λ _. SameJobs-self r)

updated-SameJobs :
    (a : Address) (f : Record → Record) (r : Runner)
    → ((rec : Record) → (f rec).job.state ≡ rec.job.state)
    → SameJobs r (record r { records = update a f r.records })
updated-SameJobs a f r h = record {
  opts = refl;
  counter = refl;
  current = refl;
  history = refl;
  states = λ b. update_state a b f r.records h;
}

pub stage-SameJobs :
    (a : Address) (name : Text) (done total : ℤ) (now : Instant) (r : Runner)
    → SameJobs r (stage a name done total now r)
unfolding stage
stage-SameJobs a name done total now r =
    let recorded = record r { records = update a (with_progress name done total) r.records } in
    let emitted = record recorded { records = update a (with_emit now) recorded.records } in
    let same = updated-SameJobs a (with_progress name done total) r (λ rec. refl) in
    let same' = updated-SameJobs a (with_emit now) recorded (λ rec. refl) in
    if_cases (λ s. SameJobs r s) (is_throttled name done total now r.opts.throttle (r.records a))
      (λ _. same)
      (λ _. SameJobs-trans r recorded _ same (
        SameJobs-trans recorded emitted _ same'
          (announce-SameJobs now (progress_event now (emitted.records a).job) emitted)))

pub logf-SameJobs :
    (a : Address) (line : LogLine) (now : Instant) (r : Runner) → SameJobs r (logf a line now r)
unfolding logf
logf-SameJobs a line now r =
    let most = nat_of r.opts.log_lines in
    let written = record r { records = update a (with_line most line) r.records } in
    SameJobs-trans r written (logf a line now r)
      (updated-SameJobs a (with_line most line) r (λ rec. refl))
      (announce-SameJobs now (log_event line) written)
