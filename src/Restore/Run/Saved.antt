-- ===== src/Restore/Run/Saved.antt =====
-- A restore of what a run has saved (`Run` of internal/restore/restore.go after `Run` of
-- internal/backup/backup.go).
use better_amp_backup.Prelude.{
  Bool, true, false, not, list_eq, List, [], ◌∷◌, ◌++◌, All, In, Option, none, some, ◌≡◌, refl, sym,
  ap, ◌∙◌, subst, arith,
}
use better_amp_backup.Paths.{Text}
use better_amp_backup.Repo.Manifest.{Hash, Manifest, SnapshotId, complete}
use better_amp_backup.Repo.Index.{Entry, Stream, eof, entry, index, index_version}
use better_amp_backup.Repo.Index
use better_amp_backup.Repo.Disk.{Disk, Action, index_file, find}
use better_amp_backup.Repo.Disk
use better_amp_backup.Repo.Snapshots.{manifest_ext, index_ext, load_manifest, open_index}
use better_amp_backup.Repo.Writer.{stream_of}
use better_amp_backup.Scan.{Item, WalkResult}
use better_amp_backup.Backup.Written.{load_manifest-found, open_index-found}
use better_amp_backup.Backup.Covered.{IsCaptured}
use better_amp_backup.Backup.Outcomes.{IsSaved, IsCompleteSnapshot}
use better_amp_backup.Backup.Whole.{run-IsSaved, run-IsCompleteSnapshot}
use better_amp_backup.Backup.Run.{
  Options as BackupOptions, Input, World, run, ok as returned, sort_by_path,
}
use better_amp_backup.Restore.Selection.{Selection, new_selection}
use better_amp_backup.Restore.Calls.{
  Surroundings, Options, RestoreError, State, ok, Step, continue, ◌>>=◌, lift, guard,
}
use better_amp_backup.Restore.Run.{
  Plan, plan, collect_from, collect_valid, check_target, unmatched_error, source_warnings,
}

module _ {A B : Type 0} where
  -- A step that returned goes on.
  bind-ok :
      (m : Step A) (f : A → Step B) (s s' : State) (a : A) → m s ≡ (ok a, s') → (m >>= f) s ≡ f a s'
  unfolding ◌>>=◌
  bind-ok m f s s' a q = ap (λ x. continue x.0 f x.1) q

-- A read of the repository that changes nothing.
lift-ok :
    {A : Type 0} (m : Action A) (s : State) (a : A)
    → m s.repo ≡ (Disk.ok a, s.repo)
    → lift m s ≡ (ok a, s)
unfolding lift
lift-ok m s a q = rw q refl

guard-ok : (b : Bool) (e : RestoreError) (s : State) → b ≡ true → guard b e s ≡ (ok tt, s)
guard-ok b e s q = rw q refl

valid-goes_on :
    (e : Entry) (m : Step (List Entry × Option Selection))
    → Index.validate e ≡ none
    → collect_valid (Index.validate e) m ≡ m
unfolding collect_valid
valid-goes_on e m q = rw q refl

-- With no filter the loop collects every entry.
collect_everything :
    (es : List Entry) (s : State)
    → All (λ e. Index.validate e ≡ none) es
    → collect_from none none (stream_of es) s ≡ (ok (es, none), s)
unfolding collect_from stream_of
collect_everything [] s h = refl
collect_everything (e ∷ es) s (h, hs) =
    ap (λ m. m s) (valid-goes_on e _ h)
    ∙ bind-ok (collect_from none none (stream_of es)) _ s s (es, none) (collect_everything es s hs)

-- Everything is asked for, into a target whose absolute path is known.
pub record AsksForAll (env : Surroundings) (opts : Options) (target : Text) : Type 0 where
  pub no_includes : opts.includes ≡ none
  pub no_paths : opts.include_paths ≡ []
  pub has_target : list_eq opts.target [] ≡ false
  pub absolute : env.absolute opts.target ≡ some target

-- What a restore of a snapshot that is saved plans.
plan-IsSaved :
    (env : Surroundings) (opts : Options) (target : Text) (m : Manifest) (s : State)
    → AsksForAll env opts target
    → s.repo.faults ≡ []
    → (saved : IsSaved opts.snapshot m s.repo)
    → plan env opts none s
      ≡ (ok (record { target = target; entries = saved.entries; warnings = source_warnings m }), s)
unfolding plan new_selection unmatched_error
plan-IsSaved env opts target m s asked quiet saved =
    bind-ok _ _ s s tt (guard-ok _ _ s (not_false _ asked.has_target))
    ∙ bind-ok _ _ s s tt (guard-ok _ _ s (rw asked.no_includes refl))
    ∙ bind-ok _ _ s s none (rw asked.no_paths refl)
    ∙ bind-ok _ _ s s m (
        lift-ok (load_manifest opts.snapshot) s m (
          load_manifest-found opts.snapshot m s.repo saved.valid_id saved.valid saved.manifest_there
            quiet))
    ∙ bind-ok _ _ s s tt (guard-ok _ _ s saved.can_restore)
    ∙ bind-ok _ _ s s target (rw asked.absolute refl)
    ∙ bind-ok _ _ s s tt refl
    ∙ bind-ok _ _ s s (stream_of saved.entries) (
        lift-ok (open_index m.id) s (stream_of saved.entries) (
          subst (λ i. open_index i s.repo ≡ (Disk.ok (stream_of saved.entries), s.repo))
            (sym saved.same_id)
            (open_index-found opts.snapshot _ s.repo saved.valid_id saved.index_there quiet)))
    ∙ bind-ok _ _ s s (saved.entries, none)
        (rw asked.no_includes (collect_everything saved.entries s saved.valid_entries))
    ∙ bind-ok _ _ s s tt refl
    ∙ ap (λ es. (ok (record { target = target; entries = es; warnings = source_warnings m }), s))
        saved.sorted
  where
    not_false : (b : Bool) → b ≡ false → not b ≡ true
    not_false b q = rw q refl

entry_parts : (e f : Entry) (s t : Stream) → entry e s ≡ entry f t → (e ≡ f) × (s ≡ t)
entry_parts e f s t q = (ground arith, ground arith)

stream_of_cancel : (es fs : List Entry) → stream_of es ≡ stream_of fs → es ≡ fs
unfolding stream_of
stream_of_cancel [] [] q = refl
stream_of_cancel [] (f ∷ fs) q = absurd (ground arith)
stream_of_cancel (e ∷ es) [] q = absurd (ground arith)
stream_of_cancel (e ∷ es) (f ∷ fs) q =
    let (same, rest) = entry_parts e f (stream_of es) (stream_of fs) q in
    ap (λ x. x ∷ es) same ∙ ap (λ xs. f ∷ xs) (stream_of_cancel es fs rest)

same_entries :
    (es fs : List Entry)
    → some (index_file (index index_version (stream_of es)))
      ≡ some (index_file (index index_version (stream_of fs)))
    → es ≡ fs
same_entries es fs q =
    let same : stream_of es ≡ stream_of fs = ground arith in stream_of_cancel es fs same

-- The snapshot is saved in every disk with the same snapshots.
IsSaved-same :
    (id : SnapshotId) (m : Manifest) (d e : Disk)
    → e.snapshots ≡ d.snapshots
    → IsSaved id m d
    → IsSaved id m e
IsSaved-same id m d e same h = record {
  entries = h.entries;
  valid_id = h.valid_id;
  same_id = h.same_id;
  valid = h.valid;
  can_restore = h.can_restore;
  valid_entries = h.valid_entries;
  sorted = h.sorted;
  manifest_there = ap (find (id ++ manifest_ext)) same ∙ h.manifest_there;
  index_there = ap (find (id ++ index_ext)) same ∙ h.index_there;
}

-- A restore of all of a complete snapshot that a run has returned, from the repository that it left
-- and with no call that fails, into a target that passes `checkTarget`, plans the entries of that
-- snapshot in the order of their paths: each is faithful to an item of the run's walk, and every
-- item of the walk has an entry of its path in the plan.
pub plan-restores_run :
    (hash_of : List Entry → Hash) (backup : BackupOptions) (input : Input) (w w' : World)
    (m : Manifest) (env : Surroundings) (opts : Options) (target : Text) (s : State)
    → run hash_of backup input w ≡ (returned m, w')
    → m.state ≡ complete
    → s.repo.snapshots ≡ w'.repo.snapshots
    → s.repo.faults ≡ []
    → input.new_id ≡ opts.snapshot
    → AsksForAll env opts target
    → check_target env opts ≡ none
    → (p : Plan) × (plan env opts (check_target env opts) s ≡ (ok p, s))
      × (p.target ≡ target)
      × (sort_by_path p.entries ≡ p.entries)
      × (scanned : WalkResult) × (input.scanned ≡ some scanned)
      × (snapshot : IsCompleteSnapshot input scanned w.repo m w') × (p.entries ≡ snapshot.entries)
      × ((it : Item) → In it scanned.items → IsCaptured p.entries it)
plan-restores_run hash_of backup input w w' m env opts target s q c same quiet named asked free =
    let there = run-IsSaved hash_of backup input w w' m q in
    let (scanned, walked, snapshot) = run-IsCompleteSnapshot hash_of backup input w w' m q c in
    let saved =
      subst (λ i. IsSaved i m s.repo) named
        (IsSaved-same input.new_id m w'.repo s.repo same there) in
    let same_list = same_entries saved.entries snapshot.entries (
      sym saved.index_there
      ∙ ap (λ i. find (i ++ index_ext) s.repo.snapshots) (sym named)
      ∙ ap (find (input.new_id ++ index_ext)) same
      ∙ snapshot.index_there) in
    (
      record { target = target; entries = saved.entries; warnings = source_warnings m },
      ap (λ x. plan env opts x s) free ∙ plan-IsSaved env opts target m s asked quiet saved,
      refl,
      saved.sorted,
      scanned,
      walked,
      snapshot,
      same_list,
      λ it there. subst (λ es. IsCaptured es it) (sym same_list) (snapshot.captured it there),
    )
