-- ===== src/Jobs/Reaches.antt =====
-- How a runner (internal/jobs/jobs.go) can come about, and that it has one job at a time.
use better_amp_backup.Prelude.{
  ℕ, ◌+◌, ◌≤◌, Bool, true, false, ◌==◌, ltb, if_cases, Bool-cases, List, [], ◌∷◌, ◌++◌, length,
  Option, none, some, String, ℤ, ◌≡◌, refl, sym, ap, ◌∙◌, arith, inl, inr,
}
use better_amp_backup.Clock.{Instant}
use better_amp_backup.Paths.{Text}
use better_amp_backup.Jobs.{Kind, running, LogLine}
use better_amp_backup.Jobs.Feed.{Feed, subscribe, unsubscribe}
use better_amp_backup.Jobs.Runner.{
  Address, Options, Record, Runner, Outcome, Returned, Submitted, nothing, encoded, unencodable,
  nat_of, update, announce, start_job, submit_into, submit, final_state, with_result, ended,
  forget_old, finish, new_runner, new_job,
}
use better_amp_backup.Jobs.Handle.{ask_current, cancel, begin_shutdown, end_shutdown, stage, logf}
use better_amp_backup.Jobs.Steady.{
  IsSingle, IsSingle-SameJobs, cancel-SameJobs, asked-SameJobs, stage-SameJobs, logf-SameJobs,
}

-- What can happen to a runner. A job ends once, as the current one; its handle may be used at any
-- time.
pub data Reaches (o : Options) : Runner → Type 0 where
  begun : Reaches o (new_runner o)
  submitted :
      {r : Runner}
      → Reaches o r
      → (kind : Kind) (by : String) (now : Instant) → Reaches o (submit kind by now r).1
  finished :
      {r : Runner}
      → Reaches o r
      → (a : Address) (out : Outcome) (now : Instant) → r.current ≡ some a
      → Reaches o (finish a out now r)
  cancelling :
      {r : Runner} → Reaches o r → (id : Text) (now : Instant) → Reaches o (cancel id now r).1
  staged :
      {r : Runner}
      → Reaches o r
      → (a : Address) (name : Text) (done total : ℤ) (now : Instant)
      → Reaches o (stage a name done total now r)
  logged :
      {r : Runner}
      → Reaches o r
      → (a : Address) (line : LogLine) (now : Instant) → Reaches o (logf a line now r)
  watched :
      {r : Runner}
      → Reaches o r
      → (since : ℤ) (number : ℕ) (now : Instant)
      → Reaches o (record r { feed = subscribe since number now r.feed })
  unwatched :
      {r : Runner}
      → Reaches o r
      → (number : ℕ) → Reaches o (record r { feed = unsubscribe number r.feed })
  shutting : {r : Runner} → Reaches o r → Reaches o (begin_shutdown r)
  shut : {r : Runner} → Reaches o r → Reaches o (end_shutdown r)

update_self :
    (a b : Address) (f : Record → Record) (records : Address → Record)
    → b ≡ a
    → update a f records b ≡ f (records b)
unfolding update
update_self a b f records e =
    if_cases (λ rec. rec ≡ f (records b)) (b == a) (λ _. refl) (λ q. absurd (ground arith))

update_other :
    (a b : Address) (f : Record → Record) (records : Address → Record)
    → (b == a) ≡ false
    → update a f records b ≡ records b
unfolding update
update_other a b f records e = rw e

same_address : (a b : Address) → (a == b) ≡ true → a ≡ b
same_address a b h = ground arith

none-ne-some : {A : Type 0} {a : A} → none ≡ some a → ⊥
none-ne-some h = ground arith

some-eq : {A : Type 0} {a b : A} → some a ≡ some b → a ≡ b
some-eq h = ground arith

started-IsSingle :
    (kind : Kind) (by : String) (now : Instant) (r : Runner)
    → IsSingle r
    → r.current ≡ none
    → IsSingle (start_job kind by now r).1
unfolding start_job announce
started-IsSingle kind by now r h free =
    let job = new_job (r.opts.new_id kind now (r.counter + 1)) kind by now in
    let rec : Record = record { job = job; logs = []; cancelled = false; last_emit = 0 } in
    record {
      below = λ a e. omega (arith, some-eq e);
      only = λ a lt e. elim (Bool-cases (a == r.counter)) [
        | inl q ↦ ap some (sym (same_address _ _ q))
        | inr q ↦ absurd (
            none-ne-some (
              sym free
              ∙ h.only a (ground arith) (
                  sym (
                    ap (λ (x : Record). x.job.state)
                      (update_other r.counter a (λ _. rec) r.records q))
                  ∙ e)))
      ];
      runs = λ a e.
          ap (λ (x : Record). x.job.state)
            (update_self r.counter a (λ _. rec) r.records (sym (some-eq e)));
      short = h.short;
    }

submitted-IsSingle :
    (kind : Kind) (by : String) (now : Instant) (r : Runner)
    → IsSingle r
    → IsSingle (submit kind by now r).1
unfolding submit submit_into
submitted-IsSingle kind by now r h =
    if_cases (λ (x : Submitted × Runner). IsSingle x.1) r.closed (λ _. h) (λ _. go r.current refl)
  where
    go : (c : Option Address) → r.current ≡ c → IsSingle (submit_into c kind by now r).1
    go none q = started-IsSingle kind by now r h q
    go (some a) q = h

final_state_done :
    (error : Option String) (stopped : Bool) → (final_state error stopped).0 ≡ running → ⊥
unfolding final_state
final_state_done none true h = ground arith
final_state_done none false h = ground arith
final_state_done (some e) true h = ground arith
final_state_done (some e) false h = ground arith

with_result_state :
    (most : ℕ) (now : Instant) (x : Returned) (rec : Record)
    → (with_result most now x rec).job.state ≡ rec.job.state
unfolding with_result
with_result_state most now nothing rec = refl
with_result_state most now (encoded raw) rec = refl
with_result_state most now (unencodable why) rec = refl

ended_done :
    (most : ℕ) (now : Instant) (out : Outcome) (rec : Record)
    → (ended most now out rec).job.state ≡ running
    → ⊥
unfolding ended
ended_done most now out rec h =
    final_state_done out.error rec.cancelled (sym (with_result_state most now out.result _) ∙ h)

length-forget_old :
    (most : ℕ) (records : Address → Record) (history : List Address) (by_id : List (Text × Address))
    → length (forget_old most records history by_id).0 ≤ most
unfolding forget_old
length-forget_old most records [] by_id = omega arith
length-forget_old most records (a ∷ rest) by_id =
    if_cases (λ (x : List Address × List (Text × Address)). length x.0 ≤ most)
      (ltb most (length (a ∷ rest))) (λ _. length-forget_old most records rest _)
      (λ e. ground arith)

finished-IsSingle :
    (a : Address) (out : Outcome) (now : Instant) (r : Runner)
    → IsSingle r
    → r.current ≡ some a
    → IsSingle (finish a out now r)
unfolding finish announce
finished-IsSingle a out now r h slot =
    let end = ended (nat_of r.opts.log_lines) now out in
    record {
      below = λ b e. absurd (none-ne-some e);
      only = λ b lt e. elim (Bool-cases (b == a)) [
        | inl q ↦ absurd (
            ended_done (nat_of r.opts.log_lines) now out (r.records b) (
              sym (
                ap (λ (x : Record). x.job.state)
                  (update_self a b end r.records (same_address _ _ q)))
              ∙ e))
        | inr q ↦
            let was =
              h.only b lt
                (sym (ap (λ (x : Record). x.job.state) (update_other a b end r.records q)) ∙ e) in
            absurd (ne b a q (some-eq (sym was ∙ slot)))
      ];
      runs = λ b e. absurd (none-ne-some e);
      short =
          length-forget_old (nat_of r.opts.history) (update a end r.records) (r.history ++ a ∷ [])
            r.by_id;
    }
  where
    ne : (b c : ℕ) → (b == c) ≡ false → b ≡ c → ⊥
    ne b c q e = ground arith

begun-IsSingle : (o : Options) → IsSingle (new_runner o)
unfolding new_runner
begun-IsSingle o = record {
  below = λ a e. absurd (none-ne-some e);
  only = λ a lt e. absurd (omega (arith, lt));
  runs = λ a e. absurd (none-ne-some e);
  short = omega arith;
}

same_feed : (r : Runner) (f : Feed) → IsSingle r → IsSingle (record r { feed = f })
same_feed r f h = record { below = h.below; only = h.only; runs = h.runs; short = h.short }

shutting-IsSingle : (r : Runner) → IsSingle r → IsSingle (begin_shutdown r)
unfolding begin_shutdown
shutting-IsSingle r h =
    let asked =
      IsSingle-SameJobs r (record r { records = ask_current r.current r.records })
        (asked-SameJobs r) h in
    record { below = asked.below; only = asked.only; runs = asked.runs; short = asked.short }

shut-IsSingle : (r : Runner) → IsSingle r → IsSingle (end_shutdown r)
unfolding end_shutdown
shut-IsSingle r h = same_feed r _ h

-- Whatever has been called on a runner, the job that runs is the one in its slot and no other job
-- runs, the slot's job runs, and the history is no longer than the options allow.
pub Reaches-IsSingle : (o : Options) (r : Runner) → Reaches o r → IsSingle r
Reaches-IsSingle o r begun = begun-IsSingle o
Reaches-IsSingle o r (submitted {r = s} h kind by now) =
    submitted-IsSingle kind by now s (Reaches-IsSingle o s h)
Reaches-IsSingle o r (finished {r = s} h a out now slot) =
    finished-IsSingle a out now s (Reaches-IsSingle o s h) slot
Reaches-IsSingle o r (cancelling {r = s} h id now) =
    IsSingle-SameJobs s r (cancel-SameJobs id now s) (Reaches-IsSingle o s h)
Reaches-IsSingle o r (staged {r = s} h a name done total now) =
    IsSingle-SameJobs s r (stage-SameJobs a name done total now s) (Reaches-IsSingle o s h)
Reaches-IsSingle o r (logged {r = s} h a line now) =
    IsSingle-SameJobs s r (logf-SameJobs a line now s) (Reaches-IsSingle o s h)
Reaches-IsSingle o r (watched {r = s} h since number now) = same_feed s _ (Reaches-IsSingle o s h)
Reaches-IsSingle o r (unwatched {r = s} h number) = same_feed s _ (Reaches-IsSingle o s h)
Reaches-IsSingle o r (shutting {r = s} h) = shutting-IsSingle s (Reaches-IsSingle o s h)
Reaches-IsSingle o r (shut {r = s} h) = shut-IsSingle s (Reaches-IsSingle o s h)
