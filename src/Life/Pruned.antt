-- ===== src/Life/Pruned.antt =====
-- `Prune` (internal/repo/gc.go) and the content of the listed snapshots.
use better_amp_backup.Prelude.{
  Bool, true, ◌||◌, List, [], ◌∷◌, any, In, Bool-cases, ◌≡◌, inl, inr, refl, sym, ap, ◌∙◌, subst,
  arith, list_eq, list_eq→eq, list_eq_self,
}
use better_amp_backup.Repo.Manifest.{Hash}
use better_amp_backup.Repo.Index.{Stream, eof, broken, entry}
use better_amp_backup.Repo.Disk.{Disk, ObjectFile, ObjectInfo, object, stray, find}
use better_amp_backup.Repo.Snapshots.Listed.{IsListed}
use better_amp_backup.Repo.Gc.{PruneOptions, has_hash, prune}
use better_amp_backup.Repo.Gc.Untouched.{prune-SameSnapshots}
use better_amp_backup.Repo.Gc.Marking.{HasFile}
use better_amp_backup.Repo.Gc.Safety.{prune_keeps_live}
use better_amp_backup.Backup.{has_object}
use better_amp_backup.Backup.Kept.{HasObject, IsBacked}
use better_amp_backup.Backup.Intact.{AllIn, IsWhole}

-- An object that the store has is one of its files.
HasObject-In :
    (h : Hash) (files : List ObjectFile)
    → any (has_hash h) files ≡ true
    → (info : ObjectInfo) × In (object info) files × (info.hash ≡ h)
unfolding has_hash
HasObject-In h [] q = absurd (ground arith)
HasObject-In h (stray name ∷ files) q =
    let (info, i, same) = HasObject-In h files q in (info, inr i, same)
HasObject-In h (object info ∷ files) q = elim (Bool-cases (list_eq info.hash h)) [
  | inl e ↦ (info, inl refl, list_eq→eq info.hash h e)
  | inr e ↦ let (info', i, same) = HasObject-In h files (rw e at q) in (info', inr i, same)
]

or_true : (a b : Bool) → b ≡ true → (a || b) ≡ true
or_true a b h = ground arith

In-HasObject :
    (info : ObjectInfo) (files : List ObjectFile)
    → In (object info) files
    → any (has_hash info.hash) files ≡ true
unfolding has_hash
In-HasObject info [] h = absurd h
In-HasObject info (f ∷ files) (inl e) =
    subst (λ x. any (has_hash info.hash) (x ∷ files) ≡ true) e (rw (list_eq_self info.hash) refl)
In-HasObject info (f ∷ files) (inr h) = or_true (has_hash info.hash f) _ (In-HasObject info files h)

-- What is backed and needed stays backed.
AllIn-needed :
    (d e : Disk) (s : Stream)
    → ((h : Hash) → HasFile h s → HasObject h d → HasObject h e)
    → AllIn (IsBacked d) s
    → AllIn (IsBacked e) s
AllIn-needed d e eof f h = tt
AllIn-needed d e broken f h = tt
AllIn-needed d e (entry x s) f (h, hs) = (
  λ kind stored. f x.hash (inl (kind, refl, stored)) (h kind stored),
  AllIn-needed d e s (λ k i. f k (inr i)) hs,
)

-- Where the content of the files of every listed snapshot is in the store, it is so after a prune.
pub prune-IsWhole : (opts : PruneOptions) (d : Disk) → IsWhole d → IsWhole (prune opts d).1
unfolding has_object
prune-IsWhole opts d w = record {
  indexes = λ name v s l q.
      let same = (prune-SameSnapshots opts d).snapshots in
      let listed = subst (λ dir. IsListed dir l.snapshot) same l.listed in
      let there = sym (ap (find name) same) ∙ q in
      AllIn-needed d (prune opts d).1 s
        (λ h needed stored.
          let (info, i, hashed) = HasObject-In h d.objects stored in
          let kept = prune_keeps_live opts d info i (record {
            name = listed.name;
            snapshot = l.snapshot;
            version = v;
            stream = s;
            named = listed.named;
            listed = listed.there;
            indexed = ap (λ n. find n d.snapshots) l.same ∙ there;
            holds = subst (λ x. HasFile x s) (sym hashed) needed;
          }) in
          subst (λ x. HasObject x (prune opts d).1) hashed (In-HasObject info _ kept))
        (w.indexes name v s (record { snapshot = l.snapshot; listed = listed; same = l.same })
          there);
}
