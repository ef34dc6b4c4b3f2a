-- ===== src/Repo/Writer.antt =====
-- Writing a snapshot (internal/repo/snapshotwriter.go, with the index writer of
-- internal/repo/index.go). The entries are staged in a temporary file, which the model keeps in
-- the writer; the hash of the compressed index is a parameter. A rename, a write or an fsync may
-- fail, and so may the removal of an index whose manifest could not be written.
pub mod Commits
pub mod Fails
pub mod Others
use better_amp_backup.Prelude.{
  ℕ, Bool, true, false, not, if◌then◌else◌, List, [], ◌∷◌, ◌++◌, String, str_eq, Option, none, some,
}
use better_amp_backup.Paths.{Text}
use better_amp_backup.Repo.Manifest.{
  Hash, Manifest, SnapshotId, SnapshotState, complete, unknown, no_instance, valid_snapshot_id,
}
use better_amp_backup.Repo.Manifest
use better_amp_backup.Repo.Index.{Entry, EntryError, Stream, eof, entry, index, index_version}
use better_amp_backup.Repo.Index
use better_amp_backup.Repo.Disk.{
  Disk, Content, Dir, manifest, index_file, Result, ok, err, Action, malformed_id, already_exists,
  already_finished, io_error, bad_manifest, bad_entry, pure, fail, gets, modify, ◌>>=◌, ◌>>◌,
  may_fail, find, put, without,
}
use better_amp_backup.Repo.Snapshots.{manifest_ext, index_ext, file_name}

-- The instance and the root of the header are what the index file is written with.
pub record SnapshotWriter : Type 0 where
  pub id : SnapshotId
  pub instance_name : String
  pub staged : List Entry
  pub done : Bool

abbrev pub is_there : Option Content → Bool
is_there none = false
is_there (some c) = true

-- behind the test whether the manifest exists; an `os.Stat` that fails for another reason than that
-- it does not, where the source goes on, is not modelled
pub create_writer : SnapshotId → String → Bool → Action SnapshotWriter
create_writer id name true = fail already_exists
create_writer id name false = do
  may_fail io_error
  pure (record { id = id; instance_name = name; staged = []; done = false })

-- `NewSnapshotWriter`
unfoldable pub new_snapshot_writer : SnapshotId → String → Action SnapshotWriter
unfolding valid_snapshot_id create_writer
new_snapshot_writer id name =
    if not (valid_snapshot_id id)
    then fail malformed_id
    else if str_eq name ""
    then fail (bad_manifest no_instance)
    else do
      found ← gets (λ d. find (id ++ manifest_ext) d.snapshots)
      create_writer id name (is_there found)

pub add_checked : SnapshotWriter → Entry → Option EntryError → Action SnapshotWriter
add_checked w e (some x) = fail (bad_entry x)
add_checked w e none = do may_fail io_error; pure (record w { staged = w.staged ++ e ∷ [] })

-- `SnapshotWriter.Add` with `IndexWriter.Add`
unfoldable pub add : SnapshotWriter → Entry → Action SnapshotWriter
unfolding add_checked Index.validate
add w e = if w.done then fail already_finished else add_checked w e (Index.validate e)

-- What an index reader finds in the file.
unfoldable pub stream_of : List Entry → Stream
stream_of [] = eof
stream_of (e ∷ es) = entry e (stream_of es)

-- An empty state is filled in.
abbrev pub default_state : SnapshotState → SnapshotState
default_state (unknown s) = if str_eq s "" then complete else unknown s
default_state s = s

-- the manifest as `Commit` completes it
abbrev pub filled_in : SnapshotWriter → Hash → Manifest → Manifest
filled_in w h m = record m {
  version = 1;
  id = w.id;
  instance_name = w.instance_name;
  index_hash = h;
  state = default_state m.state;
}

-- `os.Remove`, whose error is ignored
abbrev pub remove_file : Text → Action (Unit {0})
remove_file name = do
  may_fail io_error
  modify (λ d. record d { snapshots = without name d.snapshots })

abbrev pub after_error : {A : Type 0} → Action (Unit {0}) → Result A × Disk → Result A × Disk
after_error cleanup (ok a, d) = (ok a, d)
after_error cleanup (err e, d) = (err e, (cleanup d).1)

-- An action whose error is returned after a clean-up.
unfoldable pub on_error : {A : Type 0} → Action (Unit {0}) → Action A → Action A
on_error cleanup m d = after_error cleanup (m d)

abbrev pub place : Text → Content → Action (Unit {0})
place name c = modify (λ d. record d { snapshots = put name c d.snapshots })

unfoldable pub publish_checked : Manifest → Option Manifest.ManifestError → Action Manifest
publish_checked m (some x) = fail (bad_manifest x)
publish_checked m none = do
  may_fail io_error
  place (m.id ++ manifest_ext) (manifest (some m))
  pure m

-- the checks and the writing of the manifest, behind the rename of the index
unfoldable pub publish : Manifest → Action Manifest
unfolding publish_checked Manifest.validate
publish m = publish_checked m (Manifest.validate m)

module _ (hash_of : List Entry → Hash) where
  -- `Commit`: the manifest as it was written
  unfoldable pub commit : SnapshotWriter → Manifest → Action Manifest
  unfolding publish on_error
  commit w m = if w.done then fail already_finished else do
    may_fail io_error
    may_fail io_error
    may_fail io_error
    may_fail io_error
    place (w.id ++ index_ext) (index_file (index index_version (stream_of w.staged)))
    on_error (remove_file (w.id ++ index_ext)) (publish (filled_in w (hash_of w.staged) m))
