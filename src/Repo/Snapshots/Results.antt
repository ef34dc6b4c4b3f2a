-- ===== src/Repo/Snapshots/Results.antt =====
-- What listing and opening snapshots (internal/repo/repo.go) return when they return a value.
use better_amp_backup.Prelude.{
  if_cases, ℕ, Bool, true, false, ◌||◌, not, List, [], ◌∷◌, ◌++◌, In, Option, none, some,
  Bool-cases, ◌≡◌, refl, sym, ap, ◌∙◌, arith, subst, inl, inr,
}
use better_amp_backup.Paths.{Text, has_suffix}
use better_amp_backup.Repo.Manifest.{Manifest, SnapshotId, valid_snapshot_id}
use better_amp_backup.Repo.Manifest
use better_amp_backup.Repo.Index.{Stream, index}
use better_amp_backup.Repo.Disk.{
  Content, manifest, index_file, Dir, Disk, ok, pure, gets, fail, may_fail, find, or_missing,
  io_error, bad_manifest, ◌>>=◌,
}
use better_amp_backup.Repo.Disk.Keeps.{
  Keeps-may_fail, Keeps-result, bind-eq-ok, pure-eq-ok, gets-eq-ok, fail-ne-ok, or_missing-eq-ok,
}
use better_amp_backup.Repo.Snapshots.{
  manifest_ext, index_ext, file_name, check_manifest, parse_manifest, read_manifest, read_manifests,
  insert_by_id, sort_by_id, list_snapshots, new_index_reader, open_found, open_index, is_directory,
  text_ltb,
}

new_index_reader-eq-ok :
    (v : ℕ) (s s' : Stream) (d e : Disk)
    → new_index_reader (index_file (index v s)) d ≡ (ok s', e)
    → s ≡ s'
unfolding new_index_reader pure fail
new_index_reader-eq-ok v s s' d e q = ground arith

-- A stream that was opened is the one in the file.
pub open_found-eq-ok :
    (v : ℕ) (s s' : Stream) (found : Option Content) (d e : Disk)
    → open_found found d ≡ (ok s', e)
    → found ≡ some (index_file (index v s))
    → s ≡ s'
unfolding open_found
open_found-eq-ok v s s' found d e q f =
    let (_, d1, _, q1) = bind-eq-ok (may_fail io_error) _ d e s' q in
    let (c, d2, q2, q3) = bind-eq-ok (or_missing found) new_index_reader d1 e s' q1 in
    let same = (or_missing-eq-ok (index_file (index v s)) c d1 d2 (rw f at q2)).0 in
    new_index_reader-eq-ok v s s' d2 e (rw (← same) at q3)

pub file_name-eq-ok :
    (ext name : Text) (id : SnapshotId) (d e : Disk)
    → file_name ext id d ≡ (ok name, e)
    → (id ++ ext ≡ name) × (d ≡ e)
unfolding file_name pure fail
file_name-eq-ok ext name id d e q = elim (Bool-cases (valid_snapshot_id id)) [
  | inl valid ↦ pure-eq-ok (id ++ ext) name d e (rw (valid, file_name) at q)
  | inr bad ↦ absurd (ground arith)
]

pub open_index-eq-ok :
    (v : ℕ) (s s' : Stream) (id : SnapshotId) (d e : Disk)
    → open_index id d ≡ (ok s', e)
    → find (id ++ index_ext) d.snapshots ≡ some (index_file (index v s))
    → s ≡ s'
unfolding open_index
open_index-eq-ok v s s' id d e q f =
    let (name, d1, q1, r1) = bind-eq-ok (file_name index_ext id) _ d e s' q in
    let (found, d2, q2, r2) =
      bind-eq-ok (gets (λ d. find name d.snapshots)) open_found d1 e s' r1 in
    let (named, same) = file_name-eq-ok index_ext name id d d1 q1 in
    let (looked, _) = gets-eq-ok (λ d. find name d.snapshots) found d1 d2 q2 in
    open_found-eq-ok v s s' found d2 e r2 (sym looked ∙ rw (← same, ← named) f)

pub check_manifest-eq-ok :
    (x : Option Manifest.ManifestError) (m m' : Manifest) (d e : Disk)
    → check_manifest x m d ≡ (ok m', e)
    → m ≡ m'
unfolding check_manifest
check_manifest-eq-ok none m m' d e q = (pure-eq-ok m m' d e q).0
check_manifest-eq-ok (some x) m m' d e q = absurd (fail-ne-ok (bad_manifest x) m' d e q)

read_manifest-eq-ok :
    (m m' : Manifest) (d e : Disk) → read_manifest (manifest (some m)) d ≡ (ok m', e) → m ≡ m'
unfolding read_manifest parse_manifest
read_manifest-eq-ok m m' d e q =
    let (_, d1, _, q1) = bind-eq-ok (may_fail io_error) _ d e m' q in
    check_manifest-eq-ok (Manifest.validate m) m m' d1 e q1

insert_by_id-head : (m : Manifest) (ms : List Manifest) → In m (insert_by_id m ms)
unfolding insert_by_id
insert_by_id-head m [] = inl refl
insert_by_id-head m (n ∷ ns) =
    if_cases (In m) (text_ltb n.id m.id) (λ _. inr (insert_by_id-head m ns)) (λ _. inl refl)

insert_by_id-tail : (x m : Manifest) (ms : List Manifest) → In x ms → In x (insert_by_id m ms)
unfolding insert_by_id
insert_by_id-tail x m [] h = absurd h
insert_by_id-tail x m (n ∷ ns) (inl e) =
    if_cases (In x) (text_ltb n.id m.id) (λ _. inl e) (λ _. inr (inl e))
insert_by_id-tail x m (n ∷ ns) (inr k) =
    if_cases (In x) (text_ltb n.id m.id) (λ _. inr (insert_by_id-tail x m ns k)) (λ _. inr (inr k))

In-sort_by_id : (x : Manifest) (ms : List Manifest) → In x ms → In x (sort_by_id ms)
unfolding sort_by_id
In-sort_by_id x [] h = absurd h
In-sort_by_id x (m ∷ ms) (inl e) = rw e (insert_by_id-head m (sort_by_id ms))
In-sort_by_id x (m ∷ ms) (inr h) = insert_by_id-tail x m (sort_by_id ms) (In-sort_by_id x ms h)

-- The name of a manifest file.
abbrev pub IsManifestName : Text → Type 0
IsManifestName name = has_suffix name manifest_ext ≡ true

abbrev pub manifest_at : Text → Manifest → Text × Content
manifest_at name m = (name, manifest (some m))

-- What the loop of `ListSnapshots` passes over.
abbrev is_skipped : Text × Content → Bool
is_skipped (name, c) = is_directory c || not (has_suffix name manifest_ext)

manifest_at_taken :
    (name : Text) (m : Manifest) → IsManifestName name → is_skipped (manifest_at name m) ≡ false
manifest_at_taken name m h = rw h

read_manifests_skip :
    (name : Text) (c : Content) (dir : Dir)
    → is_skipped (name, c) ≡ true
    → read_manifests ((name, c) ∷ dir) ≡ read_manifests dir
unfolding read_manifests
read_manifests_skip name c dir h = rw h

read_manifests_take :
    (name : Text) (c : Content) (dir : Dir)
    → is_skipped (name, c) ≡ false
    → read_manifests ((name, c) ∷ dir)
      ≡ (do m ← read_manifest c; ms ← read_manifests dir; pure (m ∷ ms))
unfolding read_manifests
read_manifests_take name c dir h = rw h

-- A listing that returned has the manifest of each manifest file.
read_manifests-finds :
    (dir : Dir) (name : Text) (m : Manifest) (ms : List Manifest) (d e : Disk)
    → read_manifests dir d ≡ (ok ms, e)
    → IsManifestName name
    → In (manifest_at name m) dir
    → In m ms
read_manifests-finds [] name m ms d e q h k = absurd k
read_manifests-finds ((name', c) ∷ dir) name m ms d e q h k =
    elim (Bool-cases (is_skipped (name', c))) [
      | inl skipped ↦
          let q' = ap (λ f. f d) (sym (read_manifests_skip name' c dir skipped)) ∙ q in
          elim k [
            | inl here ↦
                absurd (contradiction (ap is_skipped here) (manifest_at_taken name m h) skipped)
            | inr later ↦ read_manifests-finds dir name m ms d e q' h later
          ]
      | inr taken ↦
          let q' = ap (λ f. f d) (sym (read_manifests_take name' c dir taken)) ∙ q in
          let (m1, d1, q1, r1) = bind-eq-ok (read_manifest c) _ d e ms q' in
          let (ms1, d2, q2, r2) =
            bind-eq-ok (read_manifests dir) (λ xs. pure (m1 ∷ xs)) d1 e ms r1 in
          let same : m1 ∷ ms1 ≡ ms = (pure-eq-ok (m1 ∷ ms1) ms d2 e r2).0 in
          subst (In m) same (elim k [
            | inl here ↦ inl (
                read_manifest-eq-ok m m1 d d1
                  (subst (λ x. read_manifest x d ≡ (ok m1, d1)) (sym (ap (λ x. x.1) here)) q1))
            | inr later ↦ inr (read_manifests-finds dir name m ms1 d1 d2 q2 h later)
          ])
    ]
  where
    contradiction : {a b : Bool} → a ≡ b → a ≡ false → b ≡ true → ⊥
    contradiction x y z = cc

-- `ListSnapshots`, when it returns, has the manifest of each manifest file.
pub list_snapshots-finds :
    (name : Text) (m : Manifest) (ms : List Manifest) (d e : Disk)
    → list_snapshots d ≡ (ok ms, e)
    → IsManifestName name
    → In (manifest_at name m) d.snapshots
    → In m ms
unfolding list_snapshots
list_snapshots-finds name m ms d e q h k =
    let (_, d1, q1, r1) = bind-eq-ok (may_fail io_error) _ d e ms q in
    let (dir, d2, q2, r2) = bind-eq-ok (gets (λ d. d.snapshots)) _ d1 e ms r1 in
    let (ms1, d3, q3, r3) =
      bind-eq-ok (read_manifests dir) (λ xs. pure (sort_by_id xs)) d2 e ms r2 in
    let same = (pure-eq-ok (sort_by_id ms1) ms d3 e r3).0 in
    let files = Keeps-result (Keeps-may_fail io_error) d d1 (ok tt) q1 in
    let listed = (gets-eq-ok (λ d. d.snapshots) dir d1 d2 q2).0 in
    subst (In m) same (
      In-sort_by_id m ms1 (
        read_manifests-finds dir name m ms1 d2 d3 q3 h
          (subst (λ x. In (manifest_at name m) x) (sym files.snapshots ∙ listed) k)))
