-- ===== src/Repo/Trash/Samples.antt =====
-- Tests of `Forget` and `Unforget` (internal/repo/gc.go), and their theorems at a concrete disk.
use better_amp_backup.Prelude.{[], ◌∷◌, ◌++◌, none, some, true, false, ◌≡◌, refl}
use better_amp_backup.Repo.Disk.{
  Disk, Dir, manifest, index_file, ok, err, io_error, not_in_trash, ◌>>=◌, may_fail,
}
use better_amp_backup.Repo.Index.{index, eof}
use better_amp_backup.Repo.Snapshots.{manifest_ext, index_ext, file_name}
use better_amp_backup.Repo.Retention.Samples.{monday}
use better_amp_backup.Repo.Trash.{forget, unforget}
use better_amp_backup.Repo.Trash.Moves.{Moves, live, trashed, forget-Moves}
use better_amp_backup.Repo.Trash.MovesBack.{unforget-Moves}

abbrev files : Dir
files =
    (monday.id ++ manifest_ext, manifest (some monday))
    ∷ (monday.id ++ index_ext, index_file (index 1 eof))
    ∷ []

abbrev disk : Disk
disk = record { snapshots = files; trash = none; objects = []; locks = []; faults = [] }

abbrev forgotten : Disk
forgotten = (forget (monday.id ∷ []) disk).1

forgets : forgotten.snapshots ≡ []
unfolding forget ◌>>=◌ may_fail file_name
forgets = refl

-- The second rename fails, after the first is done.
half_forgotten :
    (forget (monday.id ∷ []) (record disk { faults = false ∷ false ∷ true ∷ [] })).0 ≡ err io_error
unfolding forget ◌>>=◌ may_fail file_name
half_forgotten = refl

comes_back : (unforget monday.id forgotten).0 ≡ ok tt
unfolding forget unforget ◌>>=◌ may_fail file_name
comes_back = refl

not_there : (unforget monday.id disk).0 ≡ err not_in_trash
unfolding unforget ◌>>=◌ may_fail
not_there = refl

forget-Moves_example : Moves live trashed disk (forget (monday.id ∷ []) disk).1
forget-Moves_example = forget-Moves (monday.id ∷ []) disk

unforget-Moves_example : Moves trashed live forgotten (unforget monday.id forgotten).1
unforget-Moves_example = unforget-Moves monday.id forgotten
