-- ===== src/Repo/Gc/DryRun.antt =====
-- A dry run of `Prune` (internal/repo/gc.go) changes nothing.
use better_amp_backup.Prelude.{
  Bool, true, false, ◌&&◌, not, List, [], ◌∷◌, ◌≡◌, sym, ap, ◌∙◌, subst, arith,
}
use better_amp_backup.Repo.Disk.{Disk, ObjectInfo, may_fail, io_error, pure, gets}
use better_amp_backup.Repo.Disk.Keeps.{
  Keeps, SameFiles, SameFiles-preorder, Keeps-pure, Keeps-gets, Keeps-bind, Keeps-may_fail,
}
use better_amp_backup.Repo.Lock.{gc_lock, release, release_from}
use better_amp_backup.Repo.Lock.Rules.{with_lock_cases, release_last}
use better_amp_backup.Repo.Gc.{
  PruneOptions, PruneReport, Marked, no_sweep, mark, walk, delete_each, counted, report_of, sweep,
  prune_locked, prune,
}
use better_amp_backup.Repo.Gc.Reads.{Keeps-mark, Keeps-walk}

Reads-delete_each :
    (infos : List ObjectInfo) (rep : PruneReport) → Keeps SameFiles (delete_each true infos rep)
unfolding delete_each
Reads-delete_each [] rep = Keeps-pure rep
Reads-delete_each (info ∷ infos) rep =
    Keeps-bind (may_fail io_error) _ (Keeps-may_fail io_error) (λ _.
      Keeps-bind (pure tt) _ (Keeps-pure tt) (λ _. Reads-delete_each infos (counted info rep)))

module _ (opts : PruneOptions) (dry : opts.dry_run ≡ true) where
  Reads-sweep : (mk : Marked) → Keeps SameFiles (sweep opts mk)
  unfolding sweep
  Reads-sweep mk = Keeps-bind (gets (λ d. d.objects)) _ (Keeps-gets (λ d. d.objects)) (λ files.
      Keeps-bind (walk opts mk.referenced files no_sweep) _
        (Keeps-walk opts mk.referenced files no_sweep)
        (λ sw.
          subst (λ b. Keeps SameFiles (delete_each b sw.doomed (report_of opts mk sw))) (sym dry)
            (Reads-delete_each sw.doomed (report_of opts mk sw))))

  Reads-prune_locked : Keeps SameFiles (prune_locked opts)
  unfolding prune_locked
  Reads-prune_locked =
      Keeps-bind _ _ (rw (never opts.empty_trash) (Keeps-pure tt))
        (λ _. Keeps-bind (mark opts) (sweep opts) (Keeps-mark opts) Reads-sweep)
    where
      never : (b : Bool) → (b && not opts.dry_run) ≡ false
      never b = ground arith

-- A dry run leaves every snapshot, the trash, every object and the locks as they were, whether it
-- returns a report or an error, and also where the options ask for the trash to be emptied.
pub dry_run_changes_nothing :
    (opts : PruneOptions) (d : Disk) → opts.dry_run ≡ true → SameFiles d (prune opts d).1
unfolding prune release
dry_run_changes_nothing opts d dry =
    with_lock_cases (λ r. SameFiles d r.1) gc_lock true (prune_locked opts) d (λ x e same. same)
      (λ b locked.
        let same = (Reads-prune_locked opts dry).at b in
        record {
          snapshots = same.snapshots ∙ locked.snapshots;
          trash = same.trash ∙ locked.trash;
          objects = same.objects ∙ locked.objects;
          locks =
              ap (release_from gc_lock) (same.locks ∙ locked.locks)
              ∙ release_last gc_lock true d.locks;
        })
