-- ===== src/Repo/Lock/Rules.antt =====
-- What `defer unlock()` after a lock (internal/repo/repo.go) leaves of the body's disk, and which
-- locks exclude one another.
use better_amp_backup.Prelude.{
  Bool, true, false, if◌then◌else◌, if_cases, List, [], ◌∷◌, Bool-cases, ◌≡◌, refl, sym, ap, ◌∙◌,
  arith, inl, inr, list_eq_self,
}
use better_amp_backup.Paths.{Text}
use better_amp_backup.Repo.Disk.{
  Disk, LockHeld, Result, ok, err, RepoError, lock_held, Action, continue, may_fail, ◌>>=◌,
}
use better_amp_backup.Repo.Disk.Keeps.{
  IsPreorder, Keeps, Keeps-bind, Keeps-reads, SameFiles, SameFiles-preorder, Keeps-may_fail,
  Keeps-result, bind_cases, bind-eq-ok, may_fail_quiet,
}
use better_amp_backup.Repo.Lock.{
  conflicts, take_lock, acquire, release_from, unlock_after, held_for, with_lock, write_lock,
  gc_lock, lock_write, lock_gc,
}

abbrev locked : Text → Bool → Disk → Disk
locked name exclusive d = record d {
  locks = record { name = name; exclusive = exclusive } ∷ d.locks;
}

-- The disk of a body that runs under a lock: the files as before, the lock on top.
pub record IsLocked (name : Text) (exclusive : Bool) (d e : Disk) : Type 0 where
  pub snapshots : e.snapshots ≡ d.snapshots
  pub trash : e.trash ≡ d.trash
  pub objects : e.objects ≡ d.objects
  pub locks : e.locks ≡ record { name = name; exclusive = exclusive } ∷ d.locks

-- Either the lock was refused, and nothing was done, or the body ran under it.
pub with_lock_cases :
    {A : Type 0} (P : Result A × Disk → Type 0) (name : Text) (exclusive : Bool) (body : Action A)
    (d : Disk)
    → ((x : RepoError) (e : Disk) → SameFiles d e → P (err x, e))
    → ((e : Disk) → IsLocked name exclusive d e → P (unlock_after name (body e)))
    → P (with_lock name exclusive body d)
unfolding with_lock acquire take_lock
with_lock_cases P name exclusive body d refused granted =
    bind_cases (λ r. P (held_for name body r)) (may_fail lock_held) (λ _. take_lock name exclusive)
      d
      (λ _ e q.
        let same = Keeps-result (Keeps-may_fail lock_held) d e (ok tt) q in
        if_cases (λ r. P (held_for name body r)) (conflicts name exclusive e.locks)
          (λ _. refused lock_held e same)
          (λ _. granted (locked name exclusive e) (record {
            snapshots = same.snapshots;
            trash = same.trash;
            objects = same.objects;
            locks = ap (λ ls. record { name = name; exclusive = exclusive } ∷ ls) same.locks;
          })))
      (λ x e q. refused x e (Keeps-result (Keeps-may_fail lock_held) d e (err x) q))

-- Giving back the lock that was taken last leaves the other holders as they were.
pub release_last :
    (name : Text) (exclusive : Bool) (held : List LockHeld)
    → release_from name (record { name = name; exclusive = exclusive } ∷ held) ≡ held
unfolding release_from
release_last name exclusive held = rw (list_eq_self name)

take_lock_free :
    (name : Text) (exclusive : Bool) (d : Disk)
    → conflicts name exclusive d.locks ≡ false
    → take_lock name exclusive d ≡ (ok tt, locked name exclusive d)
unfolding take_lock
take_lock_free name exclusive d free = rw (take_lock, free)

take_lock-eq-ok :
    (name : Text) (exclusive : Bool) (d e : Disk)
    → take_lock name exclusive d ≡ (ok tt, e)
    → locked name exclusive d ≡ e
unfolding take_lock
take_lock-eq-ok name exclusive d e q = elim (Bool-cases (conflicts name exclusive d.locks)) [
  | inl held ↦ absurd (
      refused (
        sym (ap (λ b. if b then (err lock_held, d) else (ok tt, locked name exclusive d)) held)
        ∙ q))
  | inr free ↦ ap (λ x. x.1) (sym (take_lock_free name exclusive d free) ∙ q)
]
  where
    refused : ◌≡◌ {A = Result (Unit {0}) × Disk} (err lock_held, d) (ok tt, e) → ⊥
    refused r = ground arith

acquire_free :
    (name : Text) (exclusive : Bool) (d : Disk)
    → d.faults ≡ []
    → conflicts name exclusive d.locks ≡ false
    → acquire name exclusive d ≡ (ok tt, locked name exclusive d)
unfolding acquire ◌>>=◌
acquire_free name exclusive d quiet free =
    ap (λ (x : Result (Unit {0}) × Disk). continue x.0 (λ _. take_lock name exclusive) x.1)
      (may_fail_quiet lock_held d quiet)
    ∙ take_lock_free name exclusive d free

-- A garbage collection gets its lock while a backup holds the write lock: whenever `LockWrite` has
-- been granted, `LockGC` is granted after it, unless another garbage collection runs or the
-- call fails.
pub lock_gc-lock_write :
    (d e : Disk)
    → lock_write d ≡ (ok tt, e)
    → conflicts gc_lock true d.locks ≡ false
    → e.faults ≡ []
    → (lock_gc e).0 ≡ ok tt
unfolding lock_gc lock_write
lock_gc-lock_write d e q free quiet =
    let (_, d1, q1, r1) =
      bind-eq-ok (may_fail lock_held) (λ _. take_lock write_lock false) d e tt q in
    let same = Keeps-result (Keeps-may_fail lock_held) d d1 (ok tt) q1 in
    let now = ap (λ (x : Disk). x.locks) (take_lock-eq-ok write_lock false d1 e r1) in
    let still : conflicts gc_lock true e.locks ≡ false =
      ap (conflicts gc_lock true) (sym now)
      ∙ unfold conflicts in ap (λ ls. conflicts gc_lock true ls) same.locks ∙ free in
    ap (λ x. x.0) (acquire_free gc_lock true e quiet still)

-- Taking a lock changes the holders only.
record KeepsFiles (d e : Disk) : Type 0 where
  snapshots : e.snapshots ≡ d.snapshots
  objects : e.objects ≡ d.objects

instance abbrev KeepsFiles-preorder : IsPreorder KeepsFiles
KeepsFiles-preorder = record {
  reflexive = λ d. record { snapshots = refl; objects = refl };
  transitive = λ d e f h k. record {
    snapshots = k.snapshots ∙ h.snapshots;
    objects = k.objects ∙ h.objects;
  };
}

KeepsFiles-take_lock :
    (name : Text) (exclusive : Bool) → Keeps KeepsFiles (take_lock name exclusive)
unfolding take_lock
KeepsFiles-take_lock name exclusive = record {
  at = λ d.
      if_cases (λ (x : Result (Unit {0}) × Disk). KeepsFiles d x.1)
        (conflicts name exclusive d.locks) (λ _. record { snapshots = refl; objects = refl })
        (λ _. record { snapshots = refl; objects = refl });
}

pub lock_write_keeps :
    (d : Disk) → let e = (lock_write d).1 in (e.snapshots ≡ d.snapshots) × (e.objects ≡ d.objects)
unfolding lock_write acquire
lock_write_keeps d =
    let k =
      Keeps-bind (may_fail lock_held) (λ _. take_lock write_lock false)
        (Keeps-reads KeepsFiles (may_fail lock_held)
          (λ d e h. record { snapshots = h.snapshots; objects = h.objects })
          (Keeps-may_fail lock_held))
        (λ _. KeepsFiles-take_lock write_lock false) in
    let h = k.at d in (h.snapshots, h.objects)
