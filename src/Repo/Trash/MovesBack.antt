-- ===== src/Repo/Trash/MovesBack.antt =====
-- `Unforget` (internal/repo/gc.go) moves files back out of the trash.
use better_amp_backup.Prelude.{
  not, ◌==◌, ◌+◌, Bool-cases, ◌++◌, Option, none, some, ◌≡◌, inl, inr, refl, ap, subst, list_eq,
  list_eq→eq,
}
use better_amp_backup.Paths.{Text}
use better_amp_backup.Repo.Manifest.{SnapshotId, valid_snapshot_id}
use better_amp_backup.Repo.Disk.{
  Disk, Content, io_error, malformed_id, not_in_trash, pure, fail, gets, may_fail, modify, ◌>>=◌,
  find,
}
use better_amp_backup.Repo.Disk.Keeps.{
  Keeps, SameFiles, Keeps-pure, Keeps-fail, Keeps-if, Keeps-bind, Keeps-may_fail, Keeps-reads,
}
use better_amp_backup.Repo.Snapshots.{manifest_ext, index_ext}
use better_amp_backup.Repo.Trash.{trash_dir, moved_back, move_back, is_there, unforget}
use better_amp_backup.Repo.Disk.Files.{
  In-without, find-without_self, find-without_other, find-put_self, find-put_other,
}
use better_amp_backup.Repo.Trash.Moves.{live, trashed, IsMoved, Moves, Moves-same, Moves-preorder}

SameFiles-Moves : (d e : Disk) → SameFiles d e → Moves trashed live d e
SameFiles-Moves d e same =
    Moves-same trashed live d e (ap trash_dir same.trash) same.snapshots same.objects same.locks

moved_back-Moves :
    (name : Text) (found : Option Content) (d : Disk)
    → find name (trash_dir d.trash) ≡ found
    → Moves trashed live d (moved_back name found d)
moved_back-Moves name none d q = Moves-same trashed live d d refl refl refl refl
moved_back-Moves name (some c) d q = record {
  names = λ n. elim (Bool-cases (list_eq name n)) [
    | inl e ↦
        let same = list_eq→eq name n e in
        inr (
          subst (IsMoved trashed live d (moved_back name (some c) d)) same (record {
            content = c;
            was = q;
            gone = find-without_self name (trash_dir d.trash);
            arrived = find-put_self name c d.snapshots;
          }))
    | inr e ↦ inl (record {
      here = find-without_other n name (trash_dir d.trash) e;
      there = find-put_other n name c d.snapshots e;
    })
  ];
  none_new = λ x. In-without x name (trash_dir d.trash);
  objects = refl;
  locks = refl;
}

looked_up-Moves :
    (name : Text) (d : Disk)
    → Moves trashed live d
        ((gets (λ (x : Disk). find name (trash_dir x.trash)) >>= λ found.
            modify (λ x. moved_back name found x) >>= λ _. pure (is_there found))
          d).1
unfolding pure gets ◌>>=◌
looked_up-Moves name d = moved_back-Moves name (find name (trash_dir d.trash)) d refl

Moves-move_back : (name : Text) → Keeps (Moves trashed live) (move_back name)
unfolding move_back
Moves-move_back name =
    Keeps-bind (may_fail io_error) _
      (Keeps-reads (Moves trashed live) (may_fail io_error) SameFiles-Moves
        (Keeps-may_fail io_error))
      (λ _. record { at = looked_up-Moves name })

Moves-unforget : (id : SnapshotId) → Keeps (Moves trashed live) (unforget id)
unfolding unforget
Moves-unforget id =
    Keeps-if (not (valid_snapshot_id id)) (fail malformed_id) _ (Keeps-fail malformed_id) (
      Keeps-bind (move_back (id ++ manifest_ext)) _ (Moves-move_back (id ++ manifest_ext)) (λ m.
        Keeps-bind (move_back (id ++ index_ext)) _ (Moves-move_back (id ++ index_ext)) (λ i.
          Keeps-if (m + i == 0) (fail not_in_trash) (pure tt) (Keeps-fail not_in_trash)
            (Keeps-pure tt))))

-- However `Unforget` ends, every name either has the same file as before in the live set and in
-- the trash, or its file has gone from the trash to the live set with its content (in place of a
-- live file of that name). No object and no lock has changed.
pub unforget-Moves : (id : SnapshotId) (d : Disk) → Moves trashed live d (unforget id d).1
unforget-Moves id d = (Moves-unforget id).at d
