-- ===== src/Repo/Snapshots.antt =====
-- Listing and opening snapshots (internal/repo/repo.go). `ListSnapshots` reads the manifests below
-- `snapshots`; the directory `.trash` below it is a field of its own in the model of the disk.
pub mod Reads
pub mod Results
pub mod Order
mod Latest
pub mod Listed
mod Samples
use better_amp_backup.Prelude.{
  ℕ, Bool, true, false, ◌&&◌, ◌||◌, not, ◌==◌, ltb, if◌then◌else◌, List, [], ◌∷◌, ◌++◌, reverse,
  Option, none, some, codes, String, str_eq,
}
use better_amp_backup.Paths.{Text, has_suffix}
use better_amp_backup.Repo.Manifest.{
  Manifest, SnapshotId, SnapshotState, complete, valid_snapshot_id,
}
use better_amp_backup.Repo.Manifest
use better_amp_backup.Repo.Index.{Entry, Stream, IndexFile, unreadable, index, index_version}
use better_amp_backup.Repo.Disk.{
  Content, manifest, index_file, directory, Dir, Disk, Action, RepoError, not_exist, malformed_id,
  io_error, bad_json, bad_manifest, bad_index, unsupported_index, pure, fail, gets, ◌>>=◌, ◌>>◌,
  may_fail, find, or_missing,
}

abbrev pub manifest_ext : Text
manifest_ext = codes ".json"

abbrev pub index_ext : Text
index_ext = codes ".idx.zst"

-- `manifestPath` and `indexPath`: the file's name below `snapshots`
unfoldable pub file_name : Text → SnapshotId → Action Text
unfolding valid_snapshot_id
file_name ext id = if valid_snapshot_id id then pure (id ++ ext) else fail malformed_id

unfoldable pub check_manifest : Option Manifest.ManifestError → Manifest → Action Manifest
check_manifest none m = pure m
check_manifest (some e) m = fail (bad_manifest e)

-- `json.Unmarshal` and `Validate`
unfoldable pub parse_manifest : Content → Action Manifest
unfolding check_manifest Manifest.validate
parse_manifest (manifest none) = fail bad_json
parse_manifest (manifest (some m)) = check_manifest (Manifest.validate m) m
parse_manifest (index_file f) = fail bad_json
parse_manifest directory = fail io_error

-- `readManifest` of a file that `ReadDir` found, or that was looked up by its name
unfoldable pub read_manifest : Content → Action Manifest
unfolding parse_manifest
read_manifest c = do may_fail io_error; parse_manifest c

-- `LoadManifest`
unfoldable pub load_manifest : SnapshotId → Action Manifest
unfolding file_name read_manifest
load_manifest id = do
  name ← file_name manifest_ext id
  found ← gets (λ d. find name d.snapshots)
  c ← or_missing found
  read_manifest c

abbrev pub is_directory : Content → Bool
is_directory directory = true
is_directory (manifest m) = false
is_directory (index_file f) = false

-- the loop of `ListSnapshots`
pub read_manifests : Dir → Action (List Manifest)
unfolding has_suffix read_manifest
read_manifests [] = pure []
read_manifests ((name, c) ∷ dir) =
    if is_directory c || not (has_suffix name manifest_ext)
    then read_manifests dir
    else do m ← read_manifest c; ms ← read_manifests dir; pure (m ∷ ms)

-- Go's `<` on strings
unfoldable pub text_ltb : Text → Text → Bool
text_ltb [] [] = false
text_ltb [] (y ∷ ys) = true
text_ltb (x ∷ xs) [] = false
text_ltb (x ∷ xs) (y ∷ ys) = if x == y then text_ltb xs ys else ltb x y

pub insert_by_id : Manifest → List Manifest → List Manifest
insert_by_id m [] = m ∷ []
insert_by_id m (n ∷ ns) = if text_ltb n.id m.id then n ∷ insert_by_id m ns else m ∷ n ∷ ns

pub sort_by_id : List Manifest → List Manifest
unfolding insert_by_id
sort_by_id [] = []
sort_by_id (m ∷ ms) = insert_by_id m (sort_by_id ms)

-- `ListSnapshots`, oldest first
unfoldable pub list_snapshots : Action (List Manifest)
unfolding sort_by_id read_manifests
list_snapshots = do
  may_fail io_error
  dir ← gets (λ d. d.snapshots)
  ms ← read_manifests dir
  pure (sort_by_id ms)

-- `NewIndexReader`
unfoldable pub new_index_reader : Content → Action Stream
new_index_reader (index_file unreadable) = fail bad_index
new_index_reader (index_file (index v s)) =
    if v == index_version then pure s else fail unsupported_index
new_index_reader (manifest m) = fail bad_index
new_index_reader directory = fail bad_index

-- `os.Open` and `NewIndexReader`
unfoldable pub open_found : Option Content → Action Stream
unfolding new_index_reader
open_found found = do may_fail io_error; c ← or_missing found; new_index_reader c

-- `OpenIndex`
unfoldable pub open_index : SnapshotId → Action Stream
unfolding file_name open_found
open_index id = do
  name ← file_name index_ext id
  found ← gets (λ d. find name d.snapshots)
  open_found found

abbrev pub is_complete : SnapshotState → Bool
is_complete SnapshotState.complete = true
is_complete s = false

-- the loop of `LatestFor`, over the manifests newest first; `[]` is the empty id
pub latest_in : String → List Manifest → SnapshotId
latest_in name [] = []
latest_in name (m ∷ ms) =
    if str_eq m.instance_name name && is_complete m.state then m.id else latest_in name ms

-- `LatestFor`
unfoldable pub latest_for : String → Action SnapshotId
unfolding latest_in
latest_for name = do all ← list_snapshots; pure (latest_in name (reverse all))
