-- ===== src/Repo/Snapshots/Reads.antt =====
-- Listing and opening snapshots (internal/repo/repo.go) changes no file.
use better_amp_backup.Prelude.{◌||◌, not, [], ◌∷◌, Option, none, some}
use better_amp_backup.Paths.{Text, has_suffix}
use better_amp_backup.Repo.Manifest.{Manifest, SnapshotId, valid_snapshot_id}
use better_amp_backup.Repo.Manifest
use better_amp_backup.Repo.Index.{unreadable, index}
use better_amp_backup.Repo.Disk.{Content, manifest, index_file, directory, Dir}
use better_amp_backup.Repo.Disk.Keeps.{
  Keeps, SameFiles, SameFiles-preorder, Keeps-if, Keeps-bind, Keeps-pure, keeps_rules,
}
use better_amp_backup.Repo.Snapshots.{
  file_name, check_manifest, parse_manifest, read_manifest, read_manifests, list_snapshots,
  new_index_reader, open_found, open_index, manifest_ext, is_directory,
}

pub Keeps-file_name : (ext : Text) (id : SnapshotId) → Keeps SameFiles (file_name ext id)
unfolding file_name
Keeps-file_name ext id = search keeps_rules

Keeps-check_manifest :
    (e : Option Manifest.ManifestError) (m : Manifest) → Keeps SameFiles (check_manifest e m)
unfolding check_manifest
Keeps-check_manifest none m = search keeps_rules
Keeps-check_manifest (some e) m = search keeps_rules

Keeps-parse_manifest : (c : Content) → Keeps SameFiles (parse_manifest c)
unfolding parse_manifest
Keeps-parse_manifest (manifest none) = search keeps_rules
Keeps-parse_manifest (manifest (some m)) = Keeps-check_manifest _ m
Keeps-parse_manifest (index_file f) = search keeps_rules
Keeps-parse_manifest directory = search keeps_rules

pub Keeps-read_manifest : (c : Content) → Keeps SameFiles (read_manifest c)
unfolding read_manifest
Keeps-read_manifest c = search (keeps_rules, Keeps-parse_manifest)

pub Keeps-read_manifests : (dir : Dir) → Keeps SameFiles (read_manifests dir)
unfolding read_manifests
Keeps-read_manifests [] = search keeps_rules
Keeps-read_manifests ((name, c) ∷ dir) =
    Keeps-if (is_directory c || not (has_suffix name manifest_ext)) _ _ (Keeps-read_manifests dir) (
      Keeps-bind _ _ (Keeps-read_manifest c)
        (λ m. Keeps-bind _ _ (Keeps-read_manifests dir) (λ ms. Keeps-pure (m ∷ ms))))

pub Keeps-list_snapshots : Keeps SameFiles list_snapshots
unfolding list_snapshots
Keeps-list_snapshots = search (keeps_rules, Keeps-read_manifests)

Keeps-new_index_reader : (c : Content) → Keeps SameFiles (new_index_reader c)
unfolding new_index_reader
Keeps-new_index_reader (index_file unreadable) = search keeps_rules
Keeps-new_index_reader (index_file (index v s)) = search keeps_rules
Keeps-new_index_reader (manifest m) = search keeps_rules
Keeps-new_index_reader directory = search keeps_rules

pub Keeps-open_found : (found : Option Content) → Keeps SameFiles (open_found found)
unfolding open_found
Keeps-open_found found = search (keeps_rules, Keeps-new_index_reader)

pub Keeps-open_index : (id : SnapshotId) → Keeps SameFiles (open_index id)
unfolding open_index
Keeps-open_index id = search (keeps_rules, Keeps-file_name, Keeps-open_found)
