-- ===== src/Backup/Parent.antt =====
-- The previous snapshot (`loadParentIndex` of internal/backup/backup.go): what it returned stands
-- in an index of the repository.
use better_amp_backup.Prelude.{
  ℕ, ◌==◌, List, [], ◌∷◌, ◌++◌, All, Option, none, some, Bool-cases, ◌≡◌, inl, inr, ap, ◌∙◌, subst,
  arith,
}
use better_amp_backup.Paths.{Text}
use better_amp_backup.Repo.Manifest.{SnapshotId}
use better_amp_backup.Repo.Index.{
  Entry, EntryError, Stream, eof, broken, entry, unreadable, index, index_version,
}
use better_amp_backup.Repo.Index
use better_amp_backup.Repo.Disk.{
  Disk, Content, Action, manifest, index_file, directory, gets, may_fail, find, or_missing,
  bad_index, bad_entry, unsupported_index, io_error, ok,
}
use better_amp_backup.Repo.Disk.Keeps.{
  Keeps, SameFiles, Keeps-pure, Keeps-fail, Keeps-bind, bind-eq-ok, pure-eq-ok, gets-eq-ok,
  fail-ne-ok, SameFiles-preorder,
}
use better_amp_backup.Repo.Snapshots.{
  index_ext, file_name, new_index_reader, open_found, open_index,
}
use better_amp_backup.Repo.Snapshots.Results.{file_name-eq-ok}
use better_amp_backup.Repo.Snapshots.Reads.{Keeps-open_index}
use better_amp_backup.Backup.{add_previous, read_previous, load_parent_index, put_entry}
use better_amp_backup.Backup.Kept.{IsBacked}
use better_amp_backup.Backup.Faithful.{All-put_entry}
use better_amp_backup.Backup.Intact.{AllIn, IsIntactIn}

reader-eq-ok :
    (c : Content) (s : Stream) (d e : Disk)
    → new_index_reader c d ≡ (ok s, e)
    → (v : ℕ) × (c ≡ index_file (index v s))
unfolding new_index_reader
reader-eq-ok (index_file unreadable) s d e q = absurd (fail-ne-ok bad_index s d e q)
reader-eq-ok (manifest m) s d e q = absurd (fail-ne-ok bad_index s d e q)
reader-eq-ok directory s d e q = absurd (fail-ne-ok bad_index s d e q)
reader-eq-ok (index_file (index v s')) s d e q = elim (Bool-cases (v == index_version)) [
  | inl known ↦
      let (same, _) = pure-eq-ok s' s d e (rw known at q) in
      (v, ap (λ x. index_file (index v x)) same)
  | inr strange ↦ absurd (fail-ne-ok unsupported_index s d e (rw strange at q))
]

or_missing-found :
    (o : Option Content) (c : Content) (d e : Disk) → or_missing o d ≡ (ok c, e) → o ≡ some c
or_missing-found none c d e q = absurd (ground arith)
or_missing-found (some c') c d e q = ground arith

-- An index that was opened stands in the repository under the snapshot's id.
opened-IsThere :
    (id : SnapshotId) (s : Stream) (d e : Disk)
    → open_index id d ≡ (ok s, e)
    → (v : ℕ) × (find (id ++ index_ext) d.snapshots ≡ some (index_file (index v s)))
unfolding open_index open_found
opened-IsThere id s d e q =
    let (name, d1, q1, r1) = bind-eq-ok (file_name index_ext id) _ d e s q in
    let (found, d2, q2, r2) = bind-eq-ok (gets (λ d. find name d.snapshots)) _ d1 e s r1 in
    let (_, d3, _, r3) = bind-eq-ok (may_fail io_error) _ d2 e s r2 in
    let (c, d4, q4, r4) = bind-eq-ok (or_missing found) new_index_reader d3 e s r3 in
    let (v, index_there) = reader-eq-ok c s d4 e r4 in
    let (named, same) = file_name-eq-ok index_ext name id d d1 q1 in
    let (looked, _) = gets-eq-ok (λ d. find name d.snapshots) found d1 d2 q2 in
    (
      v,
      ap (λ n. find n d.snapshots) named
          ∙ ap (λ x. find name x.snapshots) same
          ∙ looked
          ∙ or_missing-found found c d3 d4 q4
          ∙ ap some index_there,
    )

add_previous-eq-ok :
    (x : Entry) (o : Option EntryError) (rest : Action (List Entry)) (previous : List Entry)
    (d e : Disk)
    → add_previous x o rest d ≡ (ok previous, e)
    → rest d ≡ (ok previous, e)
unfolding add_previous
add_previous-eq-ok x (some y) rest previous d e q = absurd (fail-ne-ok (bad_entry y) previous d e q)
add_previous-eq-ok x none rest previous d e q = q

module _ (P : Entry → Type 0) where
  read_previous-All :
      (s : Stream) (es previous : List Entry) (d e : Disk)
      → read_previous s es d ≡ (ok previous, e)
      → AllIn P s
      → All P es
      → All P previous
  unfolding read_previous
  read_previous-All eof es previous d e q h k =
      let (same, _) = pure-eq-ok es previous d e q in subst (All P) same k
  read_previous-All broken es previous d e q h k = absurd (fail-ne-ok bad_index previous d e q)
  read_previous-All (entry x s) es previous d e q (h, hs) k =
      read_previous-All s (put_entry x es) previous d e
        (add_previous-eq-ok x (Index.validate x) _ previous d e q) hs (All-put_entry P x es h k)

Keeps-add_previous :
    (x : Entry) (o : Option EntryError) (s : Stream) (es : List Entry)
    → Keeps SameFiles (read_previous s es)
    → Keeps SameFiles (add_previous x o (read_previous s es))
unfolding add_previous
Keeps-add_previous x (some y) s es h = Keeps-fail (bad_entry y)
Keeps-add_previous x none s es h = h

Keeps-read_previous : (s : Stream) (es : List Entry) → Keeps SameFiles (read_previous s es)
unfolding read_previous
Keeps-read_previous eof es = Keeps-pure es
Keeps-read_previous broken es = Keeps-fail bad_index
Keeps-read_previous (entry x s) es =
    Keeps-add_previous x (Index.validate x) s (put_entry x es)
      (Keeps-read_previous s (put_entry x es))

pub Keeps-load_parent_index : (id : SnapshotId) → Keeps SameFiles (load_parent_index id)
unfolding load_parent_index
Keeps-load_parent_index [] = Keeps-pure []
Keeps-load_parent_index (c ∷ cs) =
    Keeps-bind _ _ (Keeps-open_index (c ∷ cs)) (λ s. Keeps-read_previous s [])

-- The index of the parent, where there is one, has one of these names.
abbrev pub Names : (Text → Type 0) → SnapshotId → Type 0
Names P [] = Unit
Names P (c ∷ cs) = P ((c ∷ cs) ++ index_ext)

-- In an intact repository the content of the previous snapshot's files is in the store.
pub load_parent_index-IsBacked :
    {P : Text → Type 0} (id : SnapshotId) (previous : List Entry) (d e : Disk)
    → load_parent_index id d ≡ (ok previous, e)
    → Names P id
    → IsIntactIn P d
    → All (IsBacked d) previous
unfolding load_parent_index
load_parent_index-IsBacked [] previous d e q p h =
    let (same, _) = pure-eq-ok [] previous d e q in subst (All (IsBacked d)) same tt
load_parent_index-IsBacked (c ∷ cs) previous d e q p h =
    let (s, d1, q1, r1) = bind-eq-ok (open_index (c ∷ cs)) _ d e previous q in
    let (v, there) = opened-IsThere (c ∷ cs) s d d1 q1 in
    read_previous-All (IsBacked d) s [] previous d1 e r1 (h.indexes _ v s p there) tt
