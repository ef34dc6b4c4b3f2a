-- ===== src/Repo/Trash.antt =====
-- Forgetting snapshots and getting them back (internal/repo/gc.go).
pub mod Reads
pub mod Ids
pub mod Leaves
pub mod Moves
mod MovesBack
mod Samples
use better_amp_backup.Prelude.{
  ℕ, zero, suc, ◌+◌, Bool, true, false, ◌&&◌, ◌||◌, not, ◌==◌, ltb, leb, if◌then◌else◌, List, [],
  ◌∷◌, ◌++◌, length, Option, none, some, codes, ◌-◌, take,
}
use better_amp_backup.Paths.{Text, has_suffix}
use better_amp_backup.Repo.Manifest.{SnapshotId, valid_snapshot_id}
use better_amp_backup.Repo.Disk.{
  Content, Dir, Disk, Action, not_in_trash, io_error, malformed_id, pure, fail, gets, modify, ◌>>=◌,
  ◌>>◌, may_fail, find, without, put,
}
use better_amp_backup.Repo.Snapshots.{manifest_ext, index_ext, file_name}

abbrev pub trash_dir : Option Dir → Dir
trash_dir none = []
trash_dir (some dir) = dir

-- `os.MkdirAll(trash)`
pub make_trash : Action (Unit {0})
make_trash = do may_fail io_error; modify (λ d. record d { trash = some (trash_dir d.trash) })

abbrev pub moved_to_trash : Text → Option Content → Disk → Disk
moved_to_trash name none d = d
moved_to_trash name (some c) d = record d {
  snapshots = without name d.snapshots;
  trash = some (put name c (trash_dir d.trash));
}

-- `os.Rename` into the trash; that the file does not exist is no error.
pub move_to_trash : Text → Action (Unit {0})
move_to_trash name = do
  may_fail io_error
  modify (λ d. moved_to_trash name (find name d.snapshots) d)

pub forget_each : List SnapshotId → Action (Unit {0})
unfolding move_to_trash file_name
forget_each [] = pure tt
forget_each (id ∷ ids) = do
  manifest_name ← file_name manifest_ext id
  index_name ← file_name index_ext id
  move_to_trash manifest_name
  move_to_trash index_name
  forget_each ids

-- `Forget`
unfoldable pub forget : List SnapshotId → Action (Unit {0})
unfolding make_trash forget_each
forget ids = do make_trash; forget_each ids

abbrev pub moved_back : Text → Option Content → Disk → Disk
moved_back name none d = d
moved_back name (some c) d = record d {
  snapshots = put name c d.snapshots;
  trash = some (without name (trash_dir d.trash));
}

abbrev pub is_there : Option Content → ℕ
is_there none = 0
is_there (some c) = 1

-- `os.Rename` out of the trash: how many files it moved
pub move_back : Text → Action ℕ
move_back name = do
  may_fail io_error
  found ← gets (λ d. find name (trash_dir d.trash))
  modify (λ d. moved_back name found d)
  pure (is_there found)

-- `Unforget`
unfoldable pub unforget : SnapshotId → Action (Unit {0})
unfolding move_back valid_snapshot_id
unforget id = if not (valid_snapshot_id id) then fail malformed_id else do
  manifests ← move_back (id ++ manifest_ext)
  indexes ← move_back (id ++ index_ext)
  if manifests + indexes == 0 then fail not_in_trash else pure tt

-- the loop of `emptyTrash`: `os.Remove` of each name that `ReadDir` found
pub remove_each : Dir → Action (Unit {0})
remove_each [] = pure tt
remove_each ((name, c) ∷ dir) = do
  may_fail io_error
  modify (λ d. record d { trash = some (without name (trash_dir d.trash)) })
  remove_each dir

-- `emptyTrash`
unfoldable pub empty_trash : Action (Unit {0})
unfolding remove_each
empty_trash = do may_fail io_error; dir ← gets (λ d. trash_dir d.trash); remove_each dir

-- `name[:len(name)-len(indexExt)]`
pub strip_index_ext : Text → SnapshotId
strip_index_ext name = take (length name - length index_ext) name

-- the loop of `listTrashedIDs`
pub trashed_ids : Dir → List SnapshotId
unfolding strip_index_ext has_suffix valid_snapshot_id
trashed_ids [] = []
trashed_ids ((name, c) ∷ dir) =
    let rest = trashed_ids dir in
    if leb (length name) (length index_ext) || not (has_suffix name index_ext)
    then rest
    else if valid_snapshot_id (strip_index_ext name)
    then strip_index_ext name ∷ rest
    else rest

-- `listTrashedIDs`
unfoldable pub list_trashed_ids : Action (List SnapshotId)
unfolding trashed_ids
list_trashed_ids = do may_fail io_error; gets (λ d. trashed_ids (trash_dir d.trash))
