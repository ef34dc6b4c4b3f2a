-- ===== src/Repo/Gc/Untouched.antt =====
-- `Prune` (internal/repo/gc.go) leaves the live snapshots alone.
use better_amp_backup.Prelude.{Bool, true, ◌&&◌, not, List, [], ◌∷◌, ◌≡◌, refl, ◌∙◌}
use better_amp_backup.Repo.Manifest.{Hash}
use better_amp_backup.Repo.Disk.{Disk, ObjectInfo, RepoError, io_error, may_fail, pure}
use better_amp_backup.Repo.Disk.Keeps.{
  IsPreorder, Keeps, Keeps-may_fail, Keeps-reads, Keeps-bind, Keeps-pure, Keeps-if, Keeps-gets,
}
use better_amp_backup.Repo.Lock.{gc_lock, release}
use better_amp_backup.Repo.Lock.Rules.{with_lock_cases}
use better_amp_backup.Repo.Trash.{empty_trash}
use better_amp_backup.Repo.Trash.Leaves.{SameLive-empty_trash}
use better_amp_backup.Repo.Gc.{
  PruneOptions, PruneReport, Marked, no_sweep, mark, walk, delete_object, delete_each, counted,
  report_of, sweep, prune_locked, prune,
}
use better_amp_backup.Repo.Gc.Reads.{Keeps-mark, Keeps-walk}

-- The same files among the snapshots.
pub record SameSnapshots (d e : Disk) : Type 0 where
  pub snapshots : e.snapshots ≡ d.snapshots

instance abbrev pub SameSnapshots-preorder : IsPreorder SameSnapshots
SameSnapshots-preorder = record {
  reflexive = λ d. record { snapshots = refl };
  transitive = λ d e f h k. record { snapshots = k.snapshots ∙ h.snapshots };
}

SameSnapshots-call : (x : RepoError) → Keeps SameSnapshots (may_fail x)
SameSnapshots-call x =
    Keeps-reads SameSnapshots (may_fail x) (λ d e h. record { snapshots = h.snapshots })
      (Keeps-may_fail x)

SameSnapshots-delete_object : (h : Hash) → Keeps SameSnapshots (delete_object h)
unfolding delete_object
SameSnapshots-delete_object h =
    Keeps-bind _ _ (SameSnapshots-call io_error)
      (λ _. record { at = λ d. record { snapshots = refl } })

SameSnapshots-delete_each :
    (dry : Bool) (infos : List ObjectInfo) (rep : PruneReport)
    → Keeps SameSnapshots (delete_each dry infos rep)
unfolding delete_each
SameSnapshots-delete_each dry [] rep = Keeps-pure rep
SameSnapshots-delete_each dry (info ∷ infos) rep =
    Keeps-bind _ _ (SameSnapshots-call io_error) (λ _.
      Keeps-bind _ _
        (Keeps-if dry (pure tt) (delete_object info.hash) (Keeps-pure tt)
          (SameSnapshots-delete_object info.hash))
        (λ _. SameSnapshots-delete_each dry infos (counted info rep)))

SameSnapshots-sweep :
    (opts : PruneOptions) (marked : Marked) → Keeps SameSnapshots (sweep opts marked)
unfolding sweep
SameSnapshots-sweep opts marked = Keeps-bind _ _ (Keeps-gets (λ d. d.objects)) (λ files.
    Keeps-bind _ _
      (Keeps-reads SameSnapshots (walk opts marked.referenced files no_sweep)
        (λ d e h. record { snapshots = h.snapshots })
        (Keeps-walk opts marked.referenced files no_sweep))
      (λ sw. SameSnapshots-delete_each opts.dry_run sw.doomed (report_of opts marked sw)))

SameSnapshots-empty_trash : Keeps SameSnapshots empty_trash
SameSnapshots-empty_trash = record {
  at = λ d. let h = SameLive-empty_trash.at d in record { snapshots = h.snapshots };
}

SameSnapshots-prune_locked : (opts : PruneOptions) → Keeps SameSnapshots (prune_locked opts)
unfolding prune_locked
SameSnapshots-prune_locked opts =
    Keeps-bind _ _
      (Keeps-if (opts.empty_trash && not opts.dry_run) empty_trash (pure tt)
        SameSnapshots-empty_trash (Keeps-pure tt))
      (λ _.
        Keeps-bind (mark opts) (sweep opts)
          (Keeps-reads SameSnapshots (mark opts) (λ d e h. record { snapshots = h.snapshots })
            (Keeps-mark opts))
          (SameSnapshots-sweep opts))

-- However `Prune` ends, the files among the snapshots are the same.
pub prune-SameSnapshots : (opts : PruneOptions) (d : Disk) → SameSnapshots d (prune opts d).1
unfolding prune release
prune-SameSnapshots opts d =
    with_lock_cases (λ r. SameSnapshots d r.1) gc_lock true (prune_locked opts) d
      (λ x e same. record { snapshots = same.snapshots })
      (λ b locked.
        let h = (SameSnapshots-prune_locked opts).at b in
        record { snapshots = h.snapshots ∙ locked.snapshots })
