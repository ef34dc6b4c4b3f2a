-- ===== src/Restore/Run/Whole.antt =====
-- A whole restore (`Run` of internal/restore/restore.go) and its calls on the file system.
use better_amp_backup.Prelude.{
  Bool, true, false, if◌then◌else◌, if_cases, List, [], ◌∷◌, ◌++◌, append-nil, All, Option, none,
  some, ◌≡◌, inl, refl, ap, ◌∙◌,
}
use better_amp_backup.Paths.{Text}
use better_amp_backup.Repo.Manifest.{restorable}
use better_amp_backup.Repo.Snapshots.{load_manifest, open_index}
use better_amp_backup.Repo.Index.{Entry, EntryError, Stream, eof, broken, entry}
use better_amp_backup.Repo.Index
use better_amp_backup.Restore.Selection.{Selection, Checked, new_selection}
use better_amp_backup.Restore.Selection
use better_amp_backup.Restore.Calls.{
  Surroundings, Options, Report, State, Outcome, ok, err, RestoreError, Step, return, continue,
  ◌>>=◌, make_dir, Call,
}
use better_amp_backup.Restore.Files.{count_all}
use better_amp_backup.Restore.Run.{
  Plan, plan, write_out, run, check_target, collect_from, collect_valid, of_checked, unless_error,
  new_report, passes, keeps,
}
use better_amp_backup.Restore.Run.Makes.{
  Adds, Makes, Makes-bind, Makes-return, Makes-raise, Makes-or_raise, Makes-lift, Makes-if,
  Makes-must, Makes-guard, Adds-both, Adds-none,
}
use better_amp_backup.Restore.Run.Allowed.{
  IsAllowed, Makes-make_dirs, Makes-restore_entries, Makes-apply_times,
}

Makes-write_out :
    (env : Surroundings) (times : Bool) (p : Plan)
    → Makes (IsAllowed env p.target p.entries) (write_out env times p)
unfolding write_out
Makes-write_out env times p = Makes-bind _ _ (Makes-must (make_dir p.target 493) (inl refl)) (λ _.
    Makes-bind _ _ (Makes-make_dirs env p.target p.entries p.entries (new_report false p)) (λ rep.
      Makes-bind _ _ (Makes-restore_entries env p.target p.entries p.entries rep (λ e h. h))
        (λ rep'.
          Makes-bind _ _ (Makes-apply_times env p.target p.entries times p.entries)
            (λ ws. Makes-return _))))

-- No call at all.
abbrev Nothing : Call → Type 0
Nothing c = ⊥

Makes-collect_valid :
    (x : Option EntryError) (m : Step (List Entry × Option Selection))
    → Makes Nothing m
    → Makes Nothing (collect_valid x m)
unfolding collect_valid
Makes-collect_valid (some e) m h = Makes-raise _
Makes-collect_valid none m h = h

Makes-collect_from :
    (includes : Option (Text → Bool)) (sel : Option Selection) (s : Stream)
    → Makes Nothing (collect_from includes sel s)
unfolding collect_from
Makes-collect_from includes sel eof = Makes-return _
Makes-collect_from includes sel broken = Makes-raise _
Makes-collect_from includes sel (entry e s) =
    let (wanted, sel') = keeps sel e in
    Makes-collect_valid (Index.validate e) _ (
      Makes-if (passes includes e.path) _ _
        (Makes-bind _ _ (Makes-collect_from includes sel' s) (λ r. Makes-return _))
        (Makes-collect_from includes sel s))

Makes-of_checked : (c : Checked (Option Selection)) → Makes Nothing (of_checked c)
Makes-of_checked (Selection.ok sel) = Makes-return sel
Makes-of_checked (Selection.err e) = Makes-raise _

Makes-unless_error : (o : Option RestoreError) → Makes Nothing (unless_error o)
Makes-unless_error none = Makes-return tt
Makes-unless_error (some e) = Makes-raise e

Makes-plan :
    (env : Surroundings) (opts : Options) (c : Option RestoreError)
    → Makes Nothing (plan env opts c)
unfolding plan
Makes-plan env opts c = Makes-bind _ _ (Makes-guard _ _) (λ _.
    Makes-bind _ _ (Makes-guard _ _) (λ _.
      Makes-bind _ _ (Makes-of_checked (new_selection opts.include_paths)) (λ sel.
        Makes-bind _ _ (Makes-lift (load_manifest opts.snapshot)) (λ m.
          Makes-bind _ _ (Makes-guard (restorable m) _) (λ _.
            Makes-bind _ _ (Makes-or_raise _ (env.absolute opts.target)) (λ target.
              Makes-bind _ _ (Makes-unless_error c) (λ _.
                Makes-bind _ _ (Makes-lift (open_index m.id)) (λ stream.
                  Makes-bind _ _ (Makes-collect_from opts.includes sel stream)
                    (λ found. Makes-bind _ _ (Makes-unless_error _) (λ _. Makes-return _))))))))))

no_new : (new : List Call) → All Nothing new → new ≡ []
no_new [] h = refl
no_new (c ∷ new) (h, hs) = absurd h

calls-Nothing : (s s' : State) → Adds Nothing s s' → s'.calls ≡ s.calls
calls-Nothing s s' h = h.calls ∙ ap (λ n. s.calls ++ n) (no_new h.new h.each) ∙ append-nil s.calls

-- What a restore has done: nothing, or calls that its plan allows.
pub data HasDone (env : Surroundings) (opts : Options) (s s' : State) : Type 0 where
  nothing : s'.calls ≡ s.calls → HasDone env opts s s'
  restored :
      (p : Plan) (planned : State)
      → plan env opts (check_target env opts) s ≡ (ok p, planned)
      → opts.dry_run ≡ false
      → Adds (IsAllowed env p.target p.entries) s s'
      → HasDone env opts s s'

-- Whatever the result of a restore: a dry run, and a restore that found no plan, make no call that
-- changes the file system. Any other makes, replaces and removes entries, and sets times, only at
-- the target or below it. It makes the directory of a file or link, and that file's temporary file,
-- in the directory of the entry's path, which for an absolute target is at the target or below it as
-- well, unless the entry's path is the target itself. It renames bytes onto a path only where an
-- entry of the plan with that path has their digest and length.
pub run-HasDone :
    (env : Surroundings) (opts : Options) (s : State) → HasDone env opts s (run env opts s).1
unfolding run ◌>>=◌
run-HasDone env opts s =
    let m = plan env opts (check_target env opts) in
    let h = Makes-plan env opts (check_target env opts) in go (m s).0 (m s).1 refl (h.at s)
  where
    go :
        (o : Outcome Plan) (s1 : State)
        → plan env opts (check_target env opts) s ≡ (o, s1)
        → Adds Nothing s s1
        → HasDone env opts s
            (continue o
              (λ p.
                if opts.dry_run
                then return (count_all p.entries (new_report true p))
                else write_out env opts.restore_times p)
              s1).1
    go (err e) s1 q h = nothing (calls-Nothing s s1 h)
    go (ok p) s1 q h =
        if_cases (λ (x : Step Report). HasDone env opts s (x s1).1) opts.dry_run
          (λ dry. nothing (calls-Nothing s s1 h))
          (λ real.
            let w = Makes-write_out env opts.restore_times p in
            restored p s1 q real (
              Adds-both (IsAllowed env p.target p.entries) s s1 _
                (Adds-none (IsAllowed env p.target p.entries) s s1 (calls-Nothing s s1 h))
                (w.at s1)))
