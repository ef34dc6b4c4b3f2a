-- ===== src/Life.antt =====
-- The life of a repository: runs of a backup (internal/backup/backup.go), `Forget` and `Prune`
-- (internal/repo/gc.go), one after the other, in any order and each with any result.
mod Pruned
mod Forgotten
mod Samples
use better_amp_backup.Prelude.{Bool, List, ◌≡◌}
use better_amp_backup.Repo.Manifest.{Hash, SnapshotId}
use better_amp_backup.Repo.Index.{Entry}
use better_amp_backup.Repo.Disk.{Disk, LockHeld}
use better_amp_backup.Repo.Gc.{PruneOptions, prune}
use better_amp_backup.Repo.Trash.{forget}
use better_amp_backup.Backup.Run.{Options, Input, World, run}
use better_amp_backup.Backup.Whole.{run-IsWhole}
use better_amp_backup.Backup.Intact.{IsWhole}
use better_amp_backup.Life.Pruned.{prune-IsWhole}
use better_amp_backup.Life.Forgotten.{forget-IsWhole}

-- One call, or what happens between two: which calls of the operating system fail next is chosen
-- anew, and locks are taken, or left by a process that died.
pub data Step : Disk → Disk → Type 0 where
  backed_up :
      (hash_of : List Entry → Hash) (opts : Options) (input : Input) (w : World)
      → Step w.repo (run hash_of opts input w).1.repo
  forgot : (ids : List SnapshotId) (d : Disk) → Step d (forget ids d).1
  pruned : (opts : PruneOptions) (d : Disk) → Step d (prune opts d).1
  between :
      (faults : List Bool) (locks : List LockHeld) (d : Disk)
      → Step d (record d { faults = faults; locks = locks })

-- Any number of steps.
pub data Leads (d : Disk) : Disk → Type 0 where
  here : Leads d d
  next : {e f : Disk} → Leads d e → Step e f → Leads d f

between-IsWhole :
    (faults : List Bool) (locks : List LockHeld) (d : Disk)
    → IsWhole d
    → IsWhole (record d { faults = faults; locks = locks })
between-IsWhole faults locks d w = record {
  indexes = λ name v s l.
      w.indexes name v s (record { snapshot = l.snapshot; listed = l.listed; same = l.same });
}

Step-IsWhole : {d e : Disk} → Step d e → IsWhole d → IsWhole e
Step-IsWhole (backed_up hash_of opts input w) = run-IsWhole hash_of opts input w
Step-IsWhole (forgot ids d) = forget-IsWhole ids d
Step-IsWhole (pruned opts d) = prune-IsWhole opts d
Step-IsWhole (between faults locks d) = between-IsWhole faults locks d

-- However many backups, forgets and prunes follow one another, with whatever options and wherever
-- each of them fails: if the content of every file that the index of a listed snapshot lists was in
-- the store before, it is afterwards.
pub Leads-IsWhole : {d e : Disk} → Leads d e → IsWhole d → IsWhole e
Leads-IsWhole here w = w
Leads-IsWhole (next leads step) w = Step-IsWhole step (Leads-IsWhole leads w)
