-- ===== src/Life/Samples.antt =====
-- The life of a repository that begins empty (internal/backup/backup.go, internal/repo/gc.go), and
-- a `Forget` that stops half-way.
use better_amp_backup.Prelude.{true, false, [], ◌∷◌, ◌++◌, none, some, pos, ◌≡◌, refl}
use better_amp_backup.Repo.Disk.{Disk, manifest, find, may_fail, pure, gets, ok, ◌>>=◌}
use better_amp_backup.Repo.Lock.{with_lock}
use better_amp_backup.Repo.Retention.Samples.{monday}
use better_amp_backup.Repo.Gc.{PruneOptions, prune}
use better_amp_backup.Repo.Trash.{forget, unforget}
use better_amp_backup.Repo.Snapshots.{manifest_ext, list_snapshots}
use better_amp_backup.Backup.Intact.{IsWhole}
use better_amp_backup.Backup.Run.{World, run}
use better_amp_backup.Backup.Samples.{input, options, hash_of, repository}
use better_amp_backup.Life.{Leads, here, next, backed_up, forgot, pruned, between, Leads-IsWhole}

abbrev empty : World
empty = record {
  repo = record { snapshots = []; trash = none; objects = []; locks = []; faults = [] };
  calls = [];
}

empty-IsWhole : IsWhole empty.repo
empty-IsWhole = record { indexes = λ name v s l q. absurd l.listed.there }

abbrev sweeping : PruneOptions
sweeping = record { dry_run = false; grace_period = pos 1; empty_trash = false; now = 1000 }

abbrev saved : Disk
saved = (run hash_of options input empty).1.repo

abbrev half : Disk
half = record saved { faults = false ∷ true ∷ []; locks = [] }

-- A backup, a `Forget` that fails, and a `Prune`.
lived : Leads empty.repo (prune sweeping (forget (input.new_id ∷ []) half).1).1
lived =
    next
      (next
        (next (next here (backed_up hash_of options input empty))
          (between (false ∷ true ∷ []) [] saved))
        (forgot (input.new_id ∷ []) half))
      (pruned sweeping (forget (input.new_id ∷ []) half).1)

Leads-IsWhole_example : IsWhole (prune sweeping (forget (input.new_id ∷ []) half).1).1
Leads-IsWhole_example = Leads-IsWhole lived empty-IsWhole

-- `Forget` moves the manifest of a snapshot to the trash, and fails to move its index.
abbrev halved : Disk
halved = (forget (monday.id ∷ []) (record repository { faults = false ∷ false ∷ true ∷ [] })).1

-- The prune that spares the trash deletes the snapshot's object, and then the snapshot is put back.
abbrev swept : Disk
swept = (prune sweeping halved).1

half_forgotten_put_back : (unforget monday.id swept).0 ≡ ok tt
unfolding unforget prune forget ◌>>=◌ may_fail pure gets list_snapshots with_lock
half_forgotten_put_back = refl

half_forgotten_there :
    find (monday.id ++ manifest_ext) (unforget monday.id swept).1.snapshots
    ≡ some (manifest (some monday))
unfolding unforget prune forget ◌>>=◌ may_fail pure gets list_snapshots with_lock
half_forgotten_there = refl

half_forgotten_lost : (unforget monday.id swept).1.objects ≡ []
unfolding unforget prune forget ◌>>=◌ may_fail pure gets list_snapshots with_lock
half_forgotten_lost = refl
