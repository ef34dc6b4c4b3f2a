-- ===== src/Repo/Lock.antt =====
-- The repository's locks (internal/repo/repo.go): `flock` on a file of its own for each name.
-- Waiting for a lock ends when it is granted or the context is done; the model has the outcome.
pub mod Rules
mod Samples
use better_amp_backup.Prelude.{
  list_eq, Bool, true, false, ◌&&◌, ◌||◌, if◌then◌else◌, List, [], ◌∷◌, any, codes, ◌≡◌, arith,
  Bool-cases, inl, inr,
}
use better_amp_backup.Paths.{Text}
use better_amp_backup.Repo.Disk.{
  Disk, LockHeld, Result, ok, err, Action, lock_held, fail, pure, gets, modify, ◌>>=◌, ◌>>◌,
  may_fail,
}

abbrev pub write_lock : Text
write_lock = codes "repo.write"

abbrev pub gc_lock : Text
gc_lock = codes "repo.gc"

-- An exclusive lock wants no other holder of its file, a shared one no exclusive holder.
pub conflicts : Text → Bool → List LockHeld → Bool
conflicts name exclusive held = any (λ l. list_eq l.name name && (exclusive || l.exclusive)) held

pub take_lock : Text → Bool → Disk → Result (Unit {0}) × Disk
unfolding conflicts
take_lock name exclusive d =
    if conflicts name exclusive d.locks
    then (err lock_held, d)
    else (ok tt, record d { locks = record { name = name; exclusive = exclusive } ∷ d.locks })

-- `lock`; its error covers a context that is done
pub acquire : Text → Bool → Action (Unit {0})
unfolding take_lock
acquire name exclusive = do may_fail lock_held; take_lock name exclusive

-- `LockWrite` and `LockGC`
unfoldable pub lock_write : Action (Unit {0})
unfolding acquire
lock_write = acquire write_lock false

unfoldable pub lock_gc : Action (Unit {0})
unfolding acquire
lock_gc = acquire gc_lock true

-- `Unlock` of the lock that was taken last under the name
unfoldable pub release_from : Text → List LockHeld → List LockHeld
release_from name [] = []
release_from name (l ∷ held) = if list_eq l.name name then held else l ∷ release_from name held

unfoldable pub release : Text → Disk → Disk
unfolding release_from
release name d = record d { locks = release_from name d.locks }

-- `defer unlock()`: the lock goes whatever the body's result is.
abbrev pub unlock_after : {A : Type 0} → Text → Result A × Disk → Result A × Disk
unlock_after name (r, d) = (r, release name d)

abbrev pub held_for : {A : Type 0} → Text → Action A → Result (Unit {0}) × Disk → Result A × Disk
held_for name body (ok _, d) = unlock_after name (body d)
held_for name body (err e, d) = (err e, d)

unfoldable pub with_lock : {A : Type 0} → Text → Bool → Action A → Action A
unfolding acquire release
with_lock name exclusive body d = held_for name body (acquire name exclusive d)
