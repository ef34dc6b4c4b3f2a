-- ===== src/Repo/Gc/Reads.antt =====
-- The mark phase and the walk of `Prune` (internal/repo/gc.go) change no file.
use better_amp_backup.Prelude.{Bool, true, false, List, [], ◌∷◌}
use better_amp_backup.Repo.Manifest.{Manifest, SnapshotId, Hash}
use better_amp_backup.Repo.Disk.{Result, ObjectFile}
use better_amp_backup.Repo.Disk.Keeps.{Keeps, SameFiles, SameFiles-preorder, keeps_rules}
use better_amp_backup.Repo.Snapshots.Reads.{
  Keeps-list_snapshots, Keeps-open_found, Keeps-open_index,
}
use better_amp_backup.Repo.Trash.Reads.{Keeps-list_trashed_ids}
use better_amp_backup.Repo.Gc.{
  PruneOptions, Sweep, lift, mark_live, mark_trashed, mark_forgotten, mark, walk,
}

Keeps-lift : {A : Type 0} (r : Result A) → Keeps SameFiles (lift r)
unfolding lift
Keeps-lift r = record { at = SameFiles-preorder.reflexive }

pub Keeps-mark_live : (ms : List Manifest) (refs : List Hash) → Keeps SameFiles (mark_live ms refs)
unfolding mark_live
Keeps-mark_live [] refs = search keeps_rules
Keeps-mark_live (m ∷ ms) refs =
    let rest = Keeps-mark_live ms in search (keeps_rules, rest, Keeps-lift, Keeps-open_index)

pub Keeps-mark_trashed :
    (ids : List SnapshotId) (refs : List Hash) → Keeps SameFiles (mark_trashed ids refs)
unfolding mark_trashed
Keeps-mark_trashed [] refs = search keeps_rules
Keeps-mark_trashed (id ∷ ids) refs =
    let rest = Keeps-mark_trashed ids in search (keeps_rules, rest, Keeps-lift, Keeps-open_found)

pub Keeps-mark_forgotten :
    (b : Bool) (ids : List SnapshotId) (refs : List Hash)
    → Keeps SameFiles (mark_forgotten b ids refs)
unfolding mark_forgotten
Keeps-mark_forgotten true ids refs = search keeps_rules
Keeps-mark_forgotten false ids refs = Keeps-mark_trashed ids refs

pub Keeps-mark : (opts : PruneOptions) → Keeps SameFiles (mark opts)
unfolding mark
Keeps-mark opts =
    search
      (
        keeps_rules, Keeps-list_snapshots, Keeps-list_trashed_ids, Keeps-mark_live,
        Keeps-mark_forgotten,
      )
      depth 9

pub Keeps-walk :
    (opts : PruneOptions) (refs : List Hash) (files : List ObjectFile) (sw : Sweep)
    → Keeps SameFiles (walk opts refs files sw)
unfolding walk
Keeps-walk opts refs [] sw = search keeps_rules
Keeps-walk opts refs (f ∷ files) sw =
    let rest = Keeps-walk opts refs files in search (keeps_rules, rest)
