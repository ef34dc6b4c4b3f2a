-- ===== src/Repo/Snapshots/Samples.antt =====
-- `LatestFor` (internal/repo/repo.go) at a concrete disk: the newest snapshot is partial.
use better_amp_backup.Prelude.{List, [], ◌∷◌, ◌++◌, none, some, ◌≡◌, refl}
use better_amp_backup.Repo.Manifest.{Manifest, SnapshotState}
use better_amp_backup.Repo.Disk.{Disk, manifest, ok, ◌>>=◌, may_fail}
use better_amp_backup.Repo.Retention.Samples.{monday, evening}
use better_amp_backup.Repo.Snapshots.{text_ltb, manifest_ext, list_snapshots, latest_for}
use better_amp_backup.Repo.Snapshots.Latest.{IsAnswer, latest_for-IsAnswer}

abbrev torn : Manifest
torn = record evening { state = SnapshotState.partial }

abbrev disk : Disk
disk = record {
  snapshots =
      (torn.id ++ manifest_ext, manifest (some torn))
      ∷ (monday.id ++ manifest_ext, manifest (some monday))
      ∷ [];
  trash = none;
  objects = [];
  locks = [];
  faults = [];
}

skips_partial : latest_for "Minecraft01" disk ≡ (ok monday.id, disk)
unfolding latest_for ◌>>=◌ may_fail list_snapshots text_ltb
skips_partial = refl

latest_for-IsAnswer_example :
    (ms : List Manifest) × (list_snapshots disk ≡ (ok ms, disk))
    × IsAnswer "Minecraft01" ms monday.id
latest_for-IsAnswer_example = latest_for-IsAnswer "Minecraft01" disk disk monday.id skips_partial
