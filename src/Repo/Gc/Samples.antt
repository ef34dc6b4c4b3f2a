-- ===== src/Repo/Gc/Samples.antt =====
-- Tests of internal/repo/gc.go, and its theorems at a concrete repository: one live and one
-- forgotten snapshot, an object of each, one that nothing needs and one that is recent.
use better_amp_backup.Prelude.{
  ℕ, [], ◌∷◌, ◌++◌, In, some, codes, pos, true, false, ◌≡◌, refl, inl, inr, map, arith,
}
use better_amp_backup.Paths.{has_suffix}
use better_amp_backup.Repo.Manifest.{is_zero, Hash, Manifest, valid_snapshot_id}
use better_amp_backup.Repo.Index.{EntryType, Stream, entry, eof, index}
use better_amp_backup.Repo.Lock.{with_lock}
use better_amp_backup.Repo.Disk.{
  ◌>>=◌, may_fail, Disk, Dir, manifest, index_file, ObjectInfo, object, ok,
}
use better_amp_backup.Repo.Disk.Keeps.{SameFiles}
use better_amp_backup.Repo.Snapshots.{manifest_ext, index_ext}
use better_amp_backup.Repo.Retention.Samples.{monday, evening, at_hour}
use better_amp_backup.Repo.Gc.{PruneOptions, prune}
use better_amp_backup.Repo.Gc.Needed.{IsLive, IsTrashed}
use better_amp_backup.Repo.Gc.Safety.{prune_keeps_live, prune_keeps_trashed, prune_keeps_recent}
use better_amp_backup.Repo.Gc.DryRun.{dry_run_changes_nothing}

abbrev world : Hash → Stream
world h =
    entry
      (record {
        path = codes "world/level.dat";
        kind = EntryType.file;
        mode = 420;
        uid = 0;
        gid = 0;
        size = 5;
        mod_time = 0;
        inode = 0;
        hash = h;
        target = [];
      })
      eof

abbrev files_of : Manifest → Hash → Dir
files_of m h =
    (m.id ++ manifest_ext, manifest (some m))
    ∷ (m.id ++ index_ext, index_file (index 1 (world h)))
    ∷ []

abbrev info : Hash → ℕ → ObjectInfo
info h at = record { hash = h; stored_size = 7; mod_time = at }

abbrev live : ObjectInfo
live = info (1 ∷ []) (at_hour 0)

abbrev forgotten : ObjectInfo
forgotten = info (2 ∷ []) (at_hour 0)

abbrev garbage : ObjectInfo
garbage = info (3 ∷ []) (at_hour 0)

abbrev recent : ObjectInfo
recent = info (4 ∷ []) (at_hour 100)

abbrev disk : Disk
disk = record {
  snapshots = files_of evening (1 ∷ []);
  trash = some (files_of monday (2 ∷ []));
  objects = map object (live ∷ forgotten ∷ garbage ∷ recent ∷ []);
  locks = [];
  faults = [];
}

abbrev options : PruneOptions
options = record { dry_run = false; grace_period = pos 0; empty_trash = false; now = at_hour 100 }

prune_deletes_garbage : (prune options disk).1.objects ≡ map object (live ∷ forgotten ∷ recent ∷ [])
unfolding prune with_lock ◌>>=◌ may_fail
prune_deletes_garbage = refl

prune_after_emptying :
    (prune (record options { empty_trash = true }) disk).1.objects ≡ map object (live ∷ recent ∷ [])
unfolding prune with_lock ◌>>=◌ may_fail
prune_after_emptying = refl

prune_reports :
    (prune options disk).0
    ≡ ok (record {
      live_snapshots = 1;
      trashed_snapshots = 1;
      referenced_objects = 2;
      total_objects = 4;
      deleted_objects = 1;
      freed_bytes = 7;
      spared_recent = 1;
      dry_run = false;
    })
unfolding prune with_lock ◌>>=◌ may_fail
prune_reports = refl

-- The call that asks for the lock fails.
prune_stops : (prune options (record disk { faults = true ∷ [] })).1.objects ≡ disk.objects
unfolding prune with_lock ◌>>=◌ may_fail
prune_stops = refl

disk-IsLive : IsLive disk (1 ∷ [])
unfolding has_suffix is_zero
disk-IsLive = record {
  name = evening.id ++ manifest_ext;
  snapshot = evening;
  version = 1;
  stream = world (1 ∷ []);
  named = refl;
  listed = inl refl;
  indexed = refl;
  holds = inl (refl, refl, refl);
}

monday_valid : valid_snapshot_id monday.id ≡ true
unfolding valid_snapshot_id
monday_valid = refl

disk-IsTrashed : IsTrashed disk (2 ∷ [])
unfolding is_zero
disk-IsTrashed = record {
  id = monday.id;
  version = 1;
  stream = world (2 ∷ []);
  valid = monday_valid;
  indexed = refl;
  holds = inl (refl, refl, refl);
}

prune_keeps_live_example : In (object live) (prune options disk).1.objects
prune_keeps_live_example = prune_keeps_live options disk live (inl refl) disk-IsLive

prune_keeps_trashed_example : In (object forgotten) (prune options disk).1.objects
prune_keeps_trashed_example =
    prune_keeps_trashed options disk forgotten (inr (inl refl)) refl disk-IsTrashed

recent_alone : (x : ObjectInfo) → In (object x) disk.objects → x.hash ≡ recent.hash → x ≡ recent
recent_alone x i same = grind arith

prune_keeps_recent_example : In (object recent) (prune options disk).1.objects
prune_keeps_recent_example =
    prune_keeps_recent options disk recent (inr (inr (inr (inl refl)))) (omega arith) recent_alone

dry_run_changes_nothing_example :
    SameFiles disk (prune (record options { dry_run = true; empty_trash = true }) disk).1
dry_run_changes_nothing_example =
    dry_run_changes_nothing (record options { dry_run = true; empty_trash = true }) disk refl
