-- ===== src/Repo/Trash/Ids.antt =====
-- `listTrashedIDs` of internal/repo/gc.go finds each forgotten snapshot that has an index.
use mathlib.Core.List.{reverse-append}
use better_amp_backup.Prelude.{
  ◌-◌, ◌<◌, true, false, ◌||◌, not, leb, if_cases, List, [], ◌∷◌, ◌++◌, reverse, In, length,
  length-append, take, some, Bool-cases, ◌≡◌, refl, sym, ap, ◌∙◌, arith, subst, inl, inr, list_eq,
  list_eq→eq,
}
use better_amp_backup.Paths.{Text, has_suffix, has_prefix}
use better_amp_backup.Repo.Manifest.{SnapshotId, valid_snapshot_id}
use better_amp_backup.Repo.Snapshots.{index_ext}
use better_amp_backup.Repo.Disk.{Content, Dir, Disk, find, ok, may_fail, io_error}
use better_amp_backup.Repo.Disk.Keeps.{Keeps-may_fail, Keeps-result, bind-eq-ok, gets-eq-ok}
use better_amp_backup.Repo.Trash.{trash_dir, trashed_ids, strip_index_ext, list_trashed_ids}

take-length-append : (xs ys : Text) → take (length xs) (xs ++ ys) ≡ xs
take-length-append [] ys = refl
take-length-append (x ∷ xs) ys = ap (λ t. x ∷ t) (take-length-append xs ys)

strip-append : (id : SnapshotId) → strip_index_ext (id ++ index_ext) ≡ id
unfolding strip_index_ext
strip-append id =
    let n : length (id ++ index_ext) - length index_ext ≡ length id =
      omega (arith, length-append id index_ext) in
    ap (λ k. take k (id ++ index_ext)) n ∙ take-length-append id index_ext

has_prefix-append : (xs ys : Text) → has_prefix (ys ++ xs) ys ≡ true
unfolding has_prefix
has_prefix-append [] [] = refl
has_prefix-append (x ∷ xs) [] = refl
has_prefix-append xs (y ∷ ys) = ground (arith, has_prefix-append xs ys)

has_suffix-append : (xs ys : Text) → has_suffix (xs ++ ys) ys ≡ true
unfolding has_suffix
has_suffix-append xs ys = rw (reverse-append xs ys) (has_prefix-append (reverse xs) (reverse ys))

valid-nonempty : (id : SnapshotId) → valid_snapshot_id id ≡ true → 0 < length id
unfolding valid_snapshot_id
valid-nonempty [] h = absurd (ground arith)
valid-nonempty (c ∷ cs) h = omega arith

-- The name of an index is not passed over.
index_listed :
    (id : SnapshotId)
    → valid_snapshot_id id ≡ true
    → (leb (length (id ++ index_ext)) (length index_ext)
        || not (has_suffix (id ++ index_ext) index_ext))
      ≡ false
index_listed id valid =
    rw (has_suffix-append id index_ext)
      (ground (arith, length-append id index_ext, valid-nonempty id valid))

-- The name of a valid id's index stands for that id.
here-trashed_ids :
    (name : Text) (x : Content) (dir : Dir) (id : SnapshotId)
    → valid_snapshot_id id ≡ true
    → name ≡ id ++ index_ext
    → In id (trashed_ids ((name, x) ∷ dir))
unfolding trashed_ids
here-trashed_ids name x dir id valid e =
    rw (e, index_listed id valid, strip-append, valid) (inl refl)

In-trashed_ids :
    (dir : Dir) (id : SnapshotId) (c : Content)
    → valid_snapshot_id id ≡ true
    → find (id ++ index_ext) dir ≡ some c
    → In id (trashed_ids dir)
unfolding trashed_ids
In-trashed_ids [] id c valid f = absurd (ground arith)
In-trashed_ids ((name, x) ∷ dir) id c valid f = elim (Bool-cases (list_eq name (id ++ index_ext))) [
  | inl here ↦ here-trashed_ids name x dir id valid (list_eq→eq name (id ++ index_ext) here)
  | inr other ↦
      let rest = In-trashed_ids dir id c valid (rw other at f) in
      if_cases (In id) (leb (length name) (length index_ext) || not (has_suffix name index_ext))
        (λ _. rest)
        (λ _.
          if_cases (In id) (valid_snapshot_id (strip_index_ext name)) (λ _. inr rest) (λ _. rest))
]

-- The listing, when it returns, has each valid id whose index lies in the trash.
pub list_trashed_ids-finds :
    (id : SnapshotId) (c : Content) (ids : List SnapshotId) (d e : Disk)
    → list_trashed_ids d ≡ (ok ids, e)
    → valid_snapshot_id id ≡ true
    → find (id ++ index_ext) (trash_dir d.trash) ≡ some c
    → In id ids
unfolding list_trashed_ids
list_trashed_ids-finds id c ids d e q valid f =
    let (_, d1, q1, r1) = bind-eq-ok (may_fail io_error) _ d e ids q in
    let files = Keeps-result (Keeps-may_fail io_error) d d1 (ok tt) q1 in
    let listed = (gets-eq-ok (λ d. trashed_ids (trash_dir d.trash)) ids d1 e r1).0 in
    subst (In id) (ap (λ t. trashed_ids (trash_dir t)) (sym files.trash) ∙ listed)
      (In-trashed_ids (trash_dir d.trash) id c valid f)
