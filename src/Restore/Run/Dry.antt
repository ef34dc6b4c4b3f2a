-- ===== src/Restore/Run/Dry.antt =====
-- A dry run of a restore (internal/restore/restore.go) against the real one.
use better_amp_backup.Prelude.{
  ℕ, ◌==◌, Bool, true, false, List, [], ◌∷◌, length, list_eq, Option, none, some, Bool-cases, ◌≡◌,
  if◌then◌else◌, inl, inr, refl, subst, arith,
}
use better_amp_backup.Paths.{Text}
use better_amp_backup.Repo.Manifest.{is_zero, restorable}
use better_amp_backup.Repo.Snapshots.{load_manifest}
use better_amp_backup.Repo.Index.{Entry, EntryType}
use better_amp_backup.Restore.Selection.{path_dir}
use better_amp_backup.Restore.Calls.{
  Bytes, Surroundings, Options, Report, State, Outcome, ok, err, RestoreError, escapes, no_hash,
  no_object, no_target, both_filters, bad_target, not_restorable, lift, corrupted, wrong_size,
  cancelled, os_failed, raise, or_raise, ◌>>=◌, ◌>>◌, must, check, guard, make_dir, make_parent,
  create_temp, write_empty, set_mode, place, Step,
}
use better_amp_backup.Restore.Files.{
  safe_join, write_symlink, after_error, fill_temp, write_empty_file, write_content, write_file,
  make_dirs, restore_entry, restore_entries, perm, count_all, apply_times,
}
use better_amp_backup.Restore.Run.{Plan, plan, write_out, run, check_target, new_report}
use better_amp_backup.Restore.Run.Counts.{
  bind-eq-ok, return-eq-ok, Adds, Adds-both, count_all-AddsAll, make_dirs-Adds, total, symlinks_of,
  files_of, bytes_of, Adds-none,
}

guard-eq-ok :
    (b : Bool) (e : RestoreError) (s s' : State) (u : Unit {0})
    → guard b e s ≡ (ok u, s')
    → b ≡ true
guard-eq-ok true e s s' u q = refl
guard-eq-ok false e s s' u q = absurd (ground arith)

same_number : (a b : ℕ) → (a == b) ≡ true → a ≡ b
same_number a b h = ground arith

-- A file that was written has the size of its entry.
fill_temp-size :
    (env : Surroundings) (dst : Text) (e : Entry) (bytes : Bytes) (n : ℕ) (s s' : State)
    → fill_temp env dst e bytes s ≡ (ok n, s')
    → n ≡ e.size
unfolding fill_temp
fill_temp-size env dst e bytes n s s' q =
    let (_, s1, _, q1) = bind-eq-ok (check os_failed) _ s s' n q in
    let (_, s2, _, q2) = bind-eq-ok (check os_failed) _ s1 s' n q1 in
    let (_, s3, _, q3) =
      bind-eq-ok (guard (list_eq (env.sum bytes) e.hash) corrupted) _ s2 s' n q2 in
    let (_, s4, g, q4) = bind-eq-ok (guard (length bytes == e.size) wrong_size) _ s3 s' n q3 in
    let (_, s5, _, q5) = bind-eq-ok (must (set_mode (path_dir dst) (perm e.mode))) _ s4 s' n q4 in
    let (_, s6, _, q6) = bind-eq-ok (must (place dst bytes)) _ s5 s' n q5 in
    let same =
      same_number (length bytes) e.size
        (guard-eq-ok (length bytes == e.size) wrong_size s3 s4 _ g) in
    omega (arith, return-eq-ok (length bytes) n s6 s' q6, same)

after_error-eq-ok :
    (dst : Text) (x : Outcome ℕ × State) (n : ℕ) (s' : State)
    → after_error dst x ≡ (ok n, s')
    → x ≡ (ok n, s')
after_error-eq-ok dst (ok m, s) n s' q = q
after_error-eq-ok dst (err e, s) n s' q = absurd (ground arith)

write_content-size :
    (env : Surroundings) (dst : Text) (e : Entry) (n : ℕ) (s s' : State)
    → write_content env dst e s ≡ (ok n, s')
    → n ≡ e.size
unfolding write_content
write_content-size env dst e n s s' q =
    let (bytes, s1, _, q1) = bind-eq-ok (or_raise no_object (env.content e.hash)) _ s s' n q in
    let (_, s2, _, q2) = bind-eq-ok (must (create_temp (path_dir dst))) _ s1 s' n q1 in
    fill_temp-size env dst e bytes n s2 s'
      (after_error-eq-ok (path_dir dst) (fill_temp env dst e bytes s2) n s' q2)

write_empty_file-size :
    (dst : Text) (e : Entry) (n : ℕ) (s s' : State)
    → write_empty_file dst e s ≡ (ok n, s')
    → n ≡ e.size
unfolding write_empty_file
write_empty_file-size dst e n s s' q =
    let (_, s1, g, q1) = bind-eq-ok (guard (e.size == 0) no_hash) _ s s' n q in
    let (_, s2, _, q2) = bind-eq-ok (must (write_empty dst (perm e.mode))) _ s1 s' n q1 in
    let same = same_number e.size 0 (guard-eq-ok (e.size == 0) no_hash s s1 _ g) in
    omega (arith, return-eq-ok 0 n s2 s' q2, same)

branch :
    (b c : Bool) (x y : Step ℕ) (s : State) (z : Outcome ℕ × State)
    → b ≡ c
    → (if b then x else y) s ≡ z
    → (if c then x else y) s ≡ z
branch b c x y s z e = subst (λ t. (if t then x else y) s ≡ z) e

write_file-size :
    (env : Surroundings) (target : Text) (e : Entry) (n : ℕ) (s s' : State)
    → write_file env target e s ≡ (ok n, s')
    → n ≡ e.size
unfolding write_file
write_file-size env target e n s s' q =
    let (dst, s1, _, q1) = bind-eq-ok (or_raise escapes (safe_join target e.path)) _ s s' n q in
    let (_, s2, _, q2) = bind-eq-ok (must (make_parent (path_dir dst))) _ s1 s' n q1 in
    elim (Bool-cases (is_zero e.hash)) [
      | inl z ↦
          write_empty_file-size dst e n s2 s' (branch (is_zero e.hash) true _ _ s2 (ok n, s') z q2)
      | inr z ↦
          write_content-size env dst e n s2 s'
            (branch (is_zero e.hash) false _ _ s2 (ok n, s') z q2)
    ]

restore_entry-Adds :
    (env : Surroundings) (target : Text) (e : Entry) (k : EntryType) (rep rep' : Report)
    (s s' : State)
    → restore_entry env target e k rep s ≡ (ok rep', s')
    → Adds 0 (symlinks_of k) (files_of k) (bytes_of k e.size) rep rep'
unfolding restore_entry
restore_entry-Adds env target e EntryType.dir rep rep' s s' q =
    subst (Adds 0 0 0 0 rep) (return-eq-ok rep rep' s s' q) (Adds-none rep)
restore_entry-Adds env target e (EntryType.other t) rep rep' s s' q =
    subst (Adds 0 0 0 0 rep) (return-eq-ok rep rep' s s' q) (Adds-none rep)
restore_entry-Adds env target e EntryType.symlink rep rep' s s' q =
    let (_, s1, _, q1) = bind-eq-ok (write_symlink target e) _ s s' rep' q in
    subst (Adds 0 1 0 0 rep) (return-eq-ok _ rep' s1 s' q1) (record {
      more_dirs = omega arith;
      more_symlinks = refl;
      more_files = omega arith;
      more_bytes = omega arith;
    })
restore_entry-Adds env target e EntryType.file rep rep' s s' q =
    let (n, s1, w, q1) = bind-eq-ok (write_file env target e) _ s s' rep' q in
    subst (Adds 0 0 1 e.size rep) (return-eq-ok _ rep' s1 s' q1) (record {
      more_dirs = omega arith;
      more_symlinks = omega arith;
      more_files = refl;
      more_bytes = omega (arith, write_file-size env target e n s s1 w);
    })

restore_entries-Adds :
    (env : Surroundings) (target : Text) (es : List Entry) (rep rep' : Report) (s s' : State)
    → restore_entries env target es rep s ≡ (ok rep', s')
    → Adds 0
        (total (λ e. symlinks_of e.kind) es)
        (total (λ e. files_of e.kind) es)
        (total (λ e. bytes_of e.kind e.size) es)
        rep
        rep'
unfolding restore_entries
restore_entries-Adds env target [] rep rep' s s' q =
    subst (Adds 0 0 0 0 rep) (return-eq-ok rep rep' s s' q) (Adds-none rep)
restore_entries-Adds env target (e ∷ es) rep rep' s s' q =
    let (r1, s1, q1, q2) =
      bind-eq-ok (check cancelled >> restore_entry env target e e.kind rep) _ s s' rep' q in
    let (_, s0, _, q0) =
      bind-eq-ok (check cancelled) (λ _. restore_entry env target e e.kind rep) s s1 r1 q1 in
    Adds-both 0 _ _ _ 0 _ _ _ rep r1 rep' (restore_entry-Adds env target e e.kind rep r1 s0 s1 q0)
      (restore_entries-Adds env target es r1 rep' s1 s' q2)

-- The same numbers of directories, links, files and bytes.
pub record SameCounts (rep rep' : Report) : Type 0 where
  pub dirs : rep.dirs ≡ rep'.dirs
  pub symlinks : rep.symlinks ≡ rep'.symlinks
  pub files : rep.files ≡ rep'.files
  pub bytes : rep.bytes ≡ rep'.bytes

write_out-SameCounts :
    (env : Surroundings) (times : Bool) (p : Plan) (rep : Report) (s s' : State)
    → write_out env times p s ≡ (ok rep, s')
    → SameCounts (count_all p.entries (new_report true p)) rep
unfolding write_out
write_out-SameCounts env times p rep s s' q =
    let (_, s1, _, q1) = bind-eq-ok (must (make_dir p.target 493)) _ s s' rep q in
    let (r2, s2, d, q2) =
      bind-eq-ok (make_dirs p.target p.entries (new_report false p)) _ s1 s' rep q1 in
    let (r3, s3, f, q3) = bind-eq-ok (restore_entries env p.target p.entries r2) _ s2 s' rep q2 in
    let (ws, s4, _, q4) = bind-eq-ok (apply_times times p.target p.entries) _ s3 s' rep q3 in
    let a = make_dirs-Adds p.target p.entries (new_report false p) r2 s1 s2 d in
    let b = restore_entries-Adds env p.target p.entries r2 r3 s2 s3 f in
    let c = count_all-AddsAll p.entries (new_report true p) in
    let last = return-eq-ok _ rep s4 s' q4 in
    subst (SameCounts (count_all p.entries (new_report true p))) last (record {
      dirs = omega (arith, a.more_dirs, b.more_dirs, c.more_dirs);
      symlinks = omega (arith, a.more_symlinks, b.more_symlinks, c.more_symlinks);
      files = omega (arith, a.more_files, b.more_files, c.more_files);
      bytes = omega (arith, a.more_bytes, b.more_bytes, c.more_bytes);
    })

abbrev pub as_dry : Options → Options
as_dry opts = record opts { dry_run = true }

-- A plan that was made found the target fit.
plan-target :
    (env : Surroundings) (opts : Options) (c : Option RestoreError) (p : Plan) (s s' : State)
    → plan env opts c s ≡ (ok p, s')
    → c ≡ none
unfolding plan
plan-target env opts none p s s' q = refl
plan-target env opts (some e) p s s' q =
    let (_, s1, _, q1) = bind-eq-ok (guard _ no_target) _ s s' p q in
    let (_, s2, _, q2) = bind-eq-ok (guard _ both_filters) _ s1 s' p q1 in
    let (_, s3, _, q3) = bind-eq-ok _ _ s2 s' p q2 in
    let (m, s4, _, q4) = bind-eq-ok (lift (load_manifest opts.snapshot)) _ s3 s' p q3 in
    let (_, s5, _, q5) = bind-eq-ok (guard (restorable m) not_restorable) _ s4 s' p q4 in
    let (_, s6, _, q6) = bind-eq-ok (or_raise bad_target (env.absolute opts.target)) _ s5 s' p q5 in
    let (_, s7, q7, _) = bind-eq-ok (raise e) _ s6 s' p q6 in absurd (ground arith)

planned :
    (env : Surroundings) (opts : Options) (p : Plan) (s s' : State)
    → plan env opts none s ≡ (ok p, s')
    → run env (as_dry opts) s ≡ (ok (count_all p.entries (new_report true p)), s')
unfolding run plan ◌>>=◌
planned env opts p s s' q = rw q

-- Where a restore that is no dry run returns a report, the dry run with the same options from the
-- same state returns one too, with the same numbers of directories, symlinks, files and bytes.
pub run-SameCounts :
    (env : Surroundings) (opts : Options) (rep : Report) (s s' : State)
    → opts.dry_run ≡ false
    → run env opts s ≡ (ok rep, s')
    → (rep' : Report) × (s'' : State) × (run env (as_dry opts) s ≡ (ok rep', s''))
      × SameCounts rep' rep
unfolding run
run-SameCounts env opts rep s s' real q =
    let (p, s1, q1, q2) = bind-eq-ok (plan env opts (check_target env opts)) _ s s' rep q in
    let fit = plan-target env opts (check_target env opts) p s s1 q1 in
    let q1' = subst (λ c. plan env opts c s ≡ (ok p, s1)) fit q1 in
    (
      count_all p.entries (new_report true p),
      s1,
      planned env opts p s s1 q1',
      write_out-SameCounts env opts.restore_times p rep s1 s' (rw real at q2),
    )
