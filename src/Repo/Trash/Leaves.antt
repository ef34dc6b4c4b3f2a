-- ===== src/Repo/Trash/Leaves.antt =====
-- The operations on the trash (internal/repo/gc.go) delete no object, and emptying it touches no
-- live snapshot.
use better_amp_backup.Prelude.{[], ◌∷◌, ◌≡◌, refl, ◌∙◌}
use better_amp_backup.Repo.Disk.{Disk, Dir, RepoError, io_error, may_fail, modify, gets}
use better_amp_backup.Repo.Disk.Keeps.{
  IsPreorder, Keeps, SameFiles, Keeps-pure, Keeps-gets, Keeps-bind, Keeps-may_fail, Keeps-reads,
}
use better_amp_backup.Repo.Trash.{trash_dir, remove_each, empty_trash}

-- The same objects, live snapshots and locks: only the trash may differ.
pub record SameLive (d e : Disk) : Type 0 where
  pub snapshots : e.snapshots ≡ d.snapshots
  pub objects : e.objects ≡ d.objects
  pub locks : e.locks ≡ d.locks

instance abbrev pub SameLive-preorder : IsPreorder SameLive
SameLive-preorder = record {
  reflexive = λ d. record { snapshots = refl; objects = refl; locks = refl };
  transitive = λ d e f h k. record {
    snapshots = k.snapshots ∙ h.snapshots;
    objects = k.objects ∙ h.objects;
    locks = k.locks ∙ h.locks;
  };
}

pub SameLive-same : (d e : Disk) → SameFiles d e → SameLive d e
SameLive-same d e same = record {
  snapshots = same.snapshots;
  objects = same.objects;
  locks = same.locks;
}

SameLive-may_fail : (x : RepoError) → Keeps SameLive (may_fail x)
SameLive-may_fail x = Keeps-reads SameLive (may_fail x) SameLive-same (Keeps-may_fail x)

SameLive-remove_each : (dir : Dir) → Keeps SameLive (remove_each dir)
unfolding remove_each
SameLive-remove_each [] = Keeps-pure tt
SameLive-remove_each ((name, c) ∷ dir) =
    Keeps-bind (may_fail io_error) _ (SameLive-may_fail io_error) (λ _.
      Keeps-bind (modify _) _
        (record { at = λ d. record { snapshots = refl; objects = refl; locks = refl } })
        (λ _. SameLive-remove_each dir))

pub SameLive-empty_trash : Keeps SameLive empty_trash
unfolding empty_trash
SameLive-empty_trash = Keeps-bind (may_fail io_error) _ (SameLive-may_fail io_error) (λ _.
    Keeps-bind (gets (λ d. trash_dir d.trash)) remove_each (Keeps-gets _) SameLive-remove_each)
