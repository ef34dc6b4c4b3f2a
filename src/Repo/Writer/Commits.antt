-- ===== src/Repo/Writer/Commits.antt =====
-- What a commit leaves in the repository (internal/repo/snapshotwriter.go).
use better_amp_backup.Prelude.{
  ℕ, Bool, true, false, if◌then◌else◌, List, [], ◌∷◌, ◌++◌, String, str_eq, Option, none, some,
  Bool-cases, ◌≡◌, inl, inr, refl, sym, ap, ◌∙◌, subst, arith, list_eq,
}
use better_amp_backup.Paths.{Text}
use better_amp_backup.Repo.Manifest.{Hash, Manifest, SnapshotId, valid_snapshot_id}
use better_amp_backup.Repo.Manifest
use better_amp_backup.Repo.Index.{Entry, EntryError, index, index_version}
use better_amp_backup.Repo.Index
use better_amp_backup.Repo.Disk.{
  Disk, Content, manifest, index_file, Dir, ok, err, Result, Action, io_error, already_finished,
  bad_entry, bad_manifest, malformed_id, already_exists, fail, gets, may_fail, find, put, RepoError,
}
use better_amp_backup.Repo.Disk.Keeps.{
  Keeps-may_fail, Keeps-result, bind-eq-ok, pure-eq-ok, fail-ne-ok, gets-eq-ok,
}
use better_amp_backup.Repo.Disk.Files.{find-put_self, find-put_other}
use better_amp_backup.Repo.Snapshots.{manifest_ext, index_ext}
use better_amp_backup.Repo.Writer.{
  SnapshotWriter, new_snapshot_writer, create_writer, add, add_checked, stream_of, filled_in,
  after_error, on_error, place, publish_checked, publish, commit, is_there, remove_file,
}

list_eq-append : (xs ys zs : List ℕ) → list_eq (xs ++ ys) (xs ++ zs) ≡ list_eq ys zs
list_eq-append [] ys zs = refl
list_eq-append (x ∷ xs) ys zs = rw (list_eq-append xs ys zs) (ground arith)

-- A manifest and an index never share a name.
pub manifest_name_ne : (id : SnapshotId) → list_eq (id ++ manifest_ext) (id ++ index_ext) ≡ false
manifest_name_ne id = list_eq-append id manifest_ext index_ext

after_error-eq-ok :
    {A : Type 0} (cleanup : Action (Unit {0})) (x : Result A × Disk) (a : A) (e : Disk)
    → after_error cleanup x ≡ (ok a, e)
    → x ≡ (ok a, e)
after_error-eq-ok cleanup (ok b, d) a e q = q
after_error-eq-ok cleanup (err y, d) a e q = absurd (ground arith)

place-eq-ok :
    (name : Text) (c : Content) (d e : Disk)
    → place name c d ≡ (ok tt, e)
    → e.snapshots ≡ put name c d.snapshots
place-eq-ok name c d e q = sym (ap (λ x. x.1.snapshots) q)

may_fail-snapshots :
    (x : RepoError) (d e : Disk) → may_fail x d ≡ (ok tt, e) → e.snapshots ≡ d.snapshots
may_fail-snapshots x d e q = (Keeps-result (Keeps-may_fail x) d e (ok tt) q).snapshots

-- A published manifest is the one that was given, is valid, and stands under its id.
record IsPublished (m m' : Manifest) (d e : Disk) : Type 0 where
  same : m ≡ m'
  valid : Manifest.validate m ≡ none
  files : e.snapshots ≡ put (m.id ++ manifest_ext) (manifest (some m)) d.snapshots

publish_checked-eq-ok :
    (m m' : Manifest) (x : Option Manifest.ManifestError) (d e : Disk)
    → Manifest.validate m ≡ x
    → publish_checked m x d ≡ (ok m', e)
    → IsPublished m m' d e
unfolding publish_checked
publish_checked-eq-ok m m' (some x) d e v q = absurd (fail-ne-ok (bad_manifest x) m' d e q)
publish_checked-eq-ok m m' none d e v q =
    let (_, d1, q1, r1) = bind-eq-ok (may_fail io_error) _ d e m' q in
    let (_, d2, q2, r2) =
      bind-eq-ok (place (m.id ++ manifest_ext) (manifest (some m))) _ d1 e m' r1 in
    let (same, there) = pure-eq-ok m m' d2 e r2 in
    record {
      same = same;
      valid = v;
      files =
          sym (ap (λ x. x.snapshots) there)
          ∙ place-eq-ok (m.id ++ manifest_ext) (manifest (some m)) d1 d2 q2
          ∙ ap (put (m.id ++ manifest_ext) (manifest (some m)))
              (may_fail-snapshots io_error d d1 q1);
    }

-- The manifest that was returned stands beside the index of the staged entries.
pub record IsCommitted (h : Hash) (w : SnapshotWriter) (m m' : Manifest) (e : Disk) : Type 0 where
  pub same : m' ≡ filled_in w h m
  pub valid : Manifest.validate m' ≡ none
  pub manifest_there : find (w.id ++ manifest_ext) e.snapshots ≡ some (manifest (some m'))
  pub index_there :
      find (w.id ++ index_ext) e.snapshots
      ≡ some (index_file (index index_version (stream_of w.staged)))

published-IsCommitted :
    (h : Hash) (w : SnapshotWriter) (m m' : Manifest) (dir : Dir) (d e : Disk)
    → d.snapshots
      ≡ put (w.id ++ index_ext) (index_file (index index_version (stream_of w.staged))) dir
    → IsPublished (filled_in w h m) m' d e
    → IsCommitted h w m m' e
published-IsCommitted h w m m' dir d e f p =
    let name = w.id ++ manifest_ext in
    let iname = w.id ++ index_ext in
    let idx = index_file (index index_version (stream_of w.staged)) in
    let c = manifest (some (filled_in w h m)) in
    record {
      same = sym p.same;
      valid = subst (λ x. Manifest.validate x ≡ none) p.same p.valid;
      manifest_there =
          ap (find name) p.files
          ∙ find-put_self name c d.snapshots
          ∙ ap (λ x. some (manifest (some x))) p.same;
      index_there =
          ap (find iname) p.files
          ∙ find-put_other iname name c d.snapshots (manifest_name_ne w.id)
          ∙ ap (find iname) f
          ∙ find-put_self iname idx dir;
    }

module _ (hash_of : List Entry → Hash) where
  pub commit-eq-ok :
      (w : SnapshotWriter) (m m' : Manifest) (d e : Disk)
      → commit hash_of w m d ≡ (ok m', e)
      → IsCommitted (hash_of w.staged) w m m' e
  unfolding commit on_error publish
  commit-eq-ok w m m' d e q = elim (Bool-cases w.done) [
    | inl over ↦ absurd (fail-ne-ok already_finished m' d e (rw over at q))
    | inr open_still ↦
        let (_, d1, _, r1) = bind-eq-ok (may_fail io_error) _ d e m' (rw open_still at q) in
        let (_, d2, _, r2) = bind-eq-ok (may_fail io_error) _ d1 e m' r1 in
        let (_, d3, _, r3) = bind-eq-ok (may_fail io_error) _ d2 e m' r2 in
        let (_, d4, _, r4) = bind-eq-ok (may_fail io_error) _ d3 e m' r3 in
        let idx = index_file (index index_version (stream_of w.staged)) in
        let (_, d5, q5, r5) = bind-eq-ok (place (w.id ++ index_ext) idx) _ d4 e m' r4 in
        let p =
          after_error-eq-ok (remove_file (w.id ++ index_ext))
            (publish (filled_in w (hash_of w.staged) m) d5) m' e r5 in
        published-IsCommitted (hash_of w.staged) w m m' d4.snapshots d5 e
          (place-eq-ok (w.id ++ index_ext) idx d4 d5 q5)
          (publish_checked-eq-ok (filled_in w (hash_of w.staged) m) m' _ d5 e refl p)
  ]

-- The writer that was made stages nothing yet, under a well-formed id.
pub record IsNewWriter (id : SnapshotId) (name : String) (w : SnapshotWriter) : Type 0 where
  pub same_id : w.id ≡ id
  pub valid : valid_snapshot_id id ≡ true
  pub empty : w.staged ≡ []

create_writer-eq-ok :
    (id : SnapshotId) (name : String) (there : Bool) (w : SnapshotWriter) (d e : Disk)
    → create_writer id name there d ≡ (ok w, e)
    → (w.id ≡ id) × (w.staged ≡ [])
unfolding create_writer
create_writer-eq-ok id name true w d e q = absurd (fail-ne-ok already_exists w d e q)
create_writer-eq-ok id name false w d e q =
    let (_, d1, _, r1) = bind-eq-ok (may_fail io_error) _ d e w q in
    let (same, _) = pure-eq-ok _ w d1 e r1 in
    (sym (ap (λ x. x.id) same), sym (ap (λ x. x.staged) same))

pub new_snapshot_writer-eq-ok :
    (id : SnapshotId) (name : String) (w : SnapshotWriter) (d e : Disk)
    → new_snapshot_writer id name d ≡ (ok w, e)
    → IsNewWriter id name w
unfolding new_snapshot_writer
new_snapshot_writer-eq-ok id name w d e q = elim (Bool-cases (valid_snapshot_id id)) [
  | inr bad ↦ absurd (fail-ne-ok malformed_id w d e (rw bad at q))
  | inl good ↦ elim (Bool-cases (str_eq name "")) [
    | inl empty_name ↦ absurd (fail-ne-ok _ w d e (rw (good, empty_name) at q))
    | inr named ↦
        let (found, d1, _, r1) =
          bind-eq-ok (gets (λ d. find (id ++ manifest_ext) d.snapshots)) _ d e w
            (rw (good, named) at q) in
        let (same, empty) = create_writer-eq-ok id name (is_there found) w d1 e r1 in
        record { same_id = same; valid = good; empty = empty }
  ]
]

is_there-none : (c : Option Content) → is_there c ≡ false → c ≡ none
is_there-none none q = refl
is_there-none (some c) q = absurd (ground arith)

create_writer-not_there :
    (id : SnapshotId) (name : String) (there : Bool) (w : SnapshotWriter) (d e : Disk)
    → create_writer id name there d ≡ (ok w, e)
    → there ≡ false
unfolding create_writer
create_writer-not_there id name true w d e q = absurd (fail-ne-ok already_exists w d e q)
create_writer-not_there id name false w d e q = refl

-- A writer is made for no snapshot that is there.
pub new_snapshot_writer-absent :
    (id : SnapshotId) (name : String) (w : SnapshotWriter) (d e : Disk)
    → new_snapshot_writer id name d ≡ (ok w, e)
    → find (id ++ manifest_ext) d.snapshots ≡ none
unfolding new_snapshot_writer
new_snapshot_writer-absent id name w d e q = elim (Bool-cases (valid_snapshot_id id)) [
  | inr bad ↦ absurd (fail-ne-ok malformed_id w d e (rw bad at q))
  | inl good ↦ elim (Bool-cases (str_eq name "")) [
    | inl empty_name ↦ absurd (fail-ne-ok _ w d e (rw (good, empty_name) at q))
    | inr named ↦
        let (found, d1, q1, r1) =
          bind-eq-ok (gets (λ d. find (id ++ manifest_ext) d.snapshots)) _ d e w
            (rw (good, named) at q) in
        let (same, _) = gets-eq-ok _ found d d1 q1 in
        same ∙ is_there-none found (create_writer-not_there id name (is_there found) w d1 e r1)
  ]
]

-- An entry that was added is valid and stands behind those staged before it.
pub record IsAdded (w : SnapshotWriter) (e : Entry) (w' : SnapshotWriter) : Type 0 where
  pub valid : Index.validate e ≡ none
  pub staged : w'.staged ≡ w.staged ++ e ∷ []
  pub same_id : w'.id ≡ w.id

add_checked-eq-ok :
    (w w' : SnapshotWriter) (en : Entry) (x : Option EntryError) (d e : Disk)
    → Index.validate en ≡ x
    → add_checked w en x d ≡ (ok w', e)
    → IsAdded w en w'
unfolding add_checked
add_checked-eq-ok w w' en (some x) d e v q = absurd (fail-ne-ok (bad_entry x) w' d e q)
add_checked-eq-ok w w' en none d e v q =
    let (_, d1, _, r1) = bind-eq-ok (may_fail io_error) _ d e w' q in
    let (same, _) = pure-eq-ok _ w' d1 e r1 in
    record {
      valid = v;
      staged = sym (ap (λ x. x.staged) same);
      same_id = sym (ap (λ x. x.id) same);
    }

pub add-eq-ok :
    (w w' : SnapshotWriter) (en : Entry) (d e : Disk) → add w en d ≡ (ok w', e) → IsAdded w en w'
unfolding add
add-eq-ok w w' en d e q = elim (Bool-cases w.done) [
  | inl over ↦ absurd (fail-ne-ok already_finished w' d e (rw over at q))
  | inr open_still ↦ add_checked-eq-ok w w' en _ d e refl (
      subst
        (λ b.
          (if b then fail already_finished else add_checked w en (Index.validate en)) d
          ≡ (ok w', e))
        open_still q)
]
