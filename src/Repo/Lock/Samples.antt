-- ===== src/Repo/Lock/Samples.antt =====
-- The locks of internal/repo/repo.go at a concrete disk.
use better_amp_backup.Prelude.{true, [], none, false, ◌≡◌, refl}
use better_amp_backup.Repo.Disk.{◌>>=◌, may_fail, Disk, ok}
use better_amp_backup.Repo.Lock.{conflicts, lock_write, lock_gc, gc_lock}
use better_amp_backup.Repo.Lock.Rules.{lock_gc-lock_write}

abbrev empty : Disk
empty = record { snapshots = []; trash = none; objects = []; locks = []; faults = [] }

abbrev backing_up : Disk
backing_up = (lock_write empty).1

granted : lock_write empty ≡ (ok tt, backing_up)
unfolding lock_write ◌>>=◌ may_fail
granted = refl

unlocked : conflicts gc_lock true empty.locks ≡ false
unfolding conflicts
unlocked = refl

quiet : backing_up.faults ≡ []
unfolding lock_write ◌>>=◌ may_fail
quiet = refl

lock_gc-lock_write_example : (lock_gc backing_up).0 ≡ ok tt
lock_gc-lock_write_example = lock_gc-lock_write empty backing_up granted unlocked quiet
