-- ===== src/Backup/Written.antt =====
-- What a run writes (from `NewSnapshotWriter` on, internal/backup/backup.go) reads back.
use better_amp_backup.Prelude.{
  true, List, [], ◌∷◌, ◌++◌, append_assoc, append-nil, All, none, some, String, ◌≡◌, refl, sym, ap,
  ◌∙◌, subst,
}
use better_amp_backup.Repo.Manifest.{Hash, Manifest, SnapshotId, valid_snapshot_id}
use better_amp_backup.Repo.Manifest
use better_amp_backup.Repo.Index.{Entry, Stream, index, index_version}
use better_amp_backup.Repo.Index
use better_amp_backup.Repo.Disk.{Disk, manifest, index_file, ok, pure, gets, find, ◌>>=◌, io_error}
use better_amp_backup.Repo.Disk.Keeps.{bind-eq-ok, pure-eq-ok, may_fail_quiet}
use better_amp_backup.Repo.Snapshots.{
  manifest_ext, index_ext, file_name, load_manifest, read_manifest, parse_manifest, check_manifest,
  open_index, open_found, new_index_reader,
}
use better_amp_backup.Repo.Writer.{
  SnapshotWriter, new_snapshot_writer, add, stream_of, default_state,
}
use better_amp_backup.Repo.Writer.Commits.{new_snapshot_writer-eq-ok, add-eq-ok, commit-eq-ok}
use better_amp_backup.Backup.{Runner}
use better_amp_backup.Backup.Run.{
  Options, Input, write_snapshot, add_all, sort_by_path, manifest_of, state_of,
}

-- The entries that were added are valid and are what is staged.
pub record AreAdded (w : SnapshotWriter) (es : List Entry) (w' : SnapshotWriter) : Type 0 where
  pub valid : All (λ e. Index.validate e ≡ none) es
  pub staged : w'.staged ≡ w.staged ++ es
  pub same_id : w'.id ≡ w.id

pub add_all-eq-ok :
    (es : List Entry) (w w' : SnapshotWriter) (d e : Disk)
    → add_all w es d ≡ (ok w', e)
    → AreAdded w es w'
unfolding add_all
add_all-eq-ok [] w w' d e q =
    let (same, _) = pure-eq-ok w w' d e q in
    record {
      valid = tt;
      staged = sym (ap (λ x. x.staged) same) ∙ sym (append-nil w.staged);
      same_id = sym (ap (λ x. x.id) same);
    }
add_all-eq-ok (en ∷ es) w w' d e q =
    let (w1, d1, q1, r1) = bind-eq-ok (add w en) _ d e w' q in
    let one = add-eq-ok w w1 en d d1 q1 in
    let rest = add_all-eq-ok es w1 w' d1 e r1 in
    record {
      valid = (one.valid, rest.valid);
      staged = rest.staged ∙ ap (λ x. x ++ es) one.staged ∙ append_assoc w.staged (en ∷ []) es;
      same_id = rest.same_id ∙ one.same_id;
    }

pub load_manifest-found :
    (id : SnapshotId) (m : Manifest) (d : Disk)
    → valid_snapshot_id id ≡ true
    → Manifest.validate m ≡ none
    → find (id ++ manifest_ext) d.snapshots ≡ some (manifest (some m))
    → d.faults ≡ []
    → load_manifest id d ≡ (ok m, d)
unfolding load_manifest file_name read_manifest parse_manifest check_manifest ◌>>=◌ pure gets
load_manifest-found id m d valid good there quiet =
    rw (valid, there, may_fail_quiet io_error d quiet, good)

pub open_index-found :
    (id : SnapshotId) (s : Stream) (d : Disk)
    → valid_snapshot_id id ≡ true
    → find (id ++ index_ext) d.snapshots ≡ some (index_file (index index_version s))
    → d.faults ≡ []
    → open_index id d ≡ (ok s, d)
unfolding open_index file_name open_found new_index_reader ◌>>=◌ pure gets
open_index-found id s d valid there quiet = rw (valid, there, may_fail_quiet io_error d quiet)

-- A run's entries, as they are written.
abbrev pub written : Runner → List Entry
written r = sort_by_path r.entries

-- What a write that returned has done.
pub record IsWritten (hash_of : List Entry → Hash) (opts : Options) (input : Input)
    (parent : SnapshotId) (r : Runner) (m : Manifest) (e : Disk) : Type 0 where
  pub valid_id : valid_snapshot_id input.new_id ≡ true
  pub valid_entries : All (λ x. Index.validate x ≡ none) (written r)
  pub valid : Manifest.validate m ≡ none
  pub same_id : m.id ≡ input.new_id
  pub same_parent : m.parent ≡ parent
  pub state : m.state ≡ (manifest_of opts input parent r).state
  pub manifest_there : find (input.new_id ++ manifest_ext) e.snapshots ≡ some (manifest (some m))
  pub index_there :
      find (input.new_id ++ index_ext) e.snapshots
      ≡ some (index_file (index index_version (stream_of (written r))))

module _ (hash_of : List Entry → Hash) (opts : Options) (input : Input) (parent : SnapshotId)
    (r : Runner) where
  pub write_snapshot-eq-ok :
      (m : Manifest) (d e : Disk)
      → write_snapshot hash_of opts input parent r d ≡ (ok m, e)
      → IsWritten hash_of opts input parent r m e
  unfolding write_snapshot
  write_snapshot-eq-ok m d e q =
      let (w, d1, q1, r1) =
        bind-eq-ok (new_snapshot_writer input.new_id opts.instance_name) _ d e m q in
      let (w', d2, q2, r2) = bind-eq-ok (add_all w (written r)) _ d1 e m r1 in
      let new = new_snapshot_writer-eq-ok input.new_id opts.instance_name w d d1 q1 in
      let added = add_all-eq-ok (written r) w w' d1 d2 q2 in
      let c = commit-eq-ok hash_of w' (manifest_of opts input parent r) m d2 e r2 in
      let id : w'.id ≡ input.new_id = added.same_id ∙ new.same_id in
      let staged : w'.staged ≡ written r = added.staged ∙ ap (λ x. x ++ written r) new.empty in
      record {
        valid_id = new.valid;
        valid_entries = added.valid;
        valid = c.valid;
        same_id = ap (λ x. x.id) c.same ∙ id;
        same_parent = ap (λ x. x.parent) c.same;
        state = ap (λ x. x.state) c.same ∙ kept r.warnings;
        manifest_there =
            subst (λ i. find (i ++ manifest_ext) e.snapshots ≡ some (manifest (some m))) id
              c.manifest_there;
        index_there =
            subst
              (λ i.
                find (i ++ index_ext) e.snapshots
                ≡ some (index_file (index index_version (stream_of (written r)))))
              id
              (subst
                (λ es.
                  find (w'.id ++ index_ext) e.snapshots
                  ≡ some (index_file (index index_version (stream_of es))))
                staged c.index_there);
      }
    where
      kept : (ws : List String) → default_state (state_of ws) ≡ state_of ws
      kept [] = refl
      kept (x ∷ xs) = refl

  -- Where the writing of a snapshot returned a manifest, and no further call fails, loading the
  -- manifest gives that manifest, and opening the index gives the run's entries, sorted by path,
  -- each of them valid.
  pub write_snapshot-reads_back :
      (m : Manifest) (d e : Disk)
      → write_snapshot hash_of opts input parent r d ≡ (ok m, e)
      → e.faults ≡ []
      → (load_manifest input.new_id e ≡ (ok m, e))
        × (open_index input.new_id e ≡ (ok (stream_of (written r)), e))
        × All (λ x. Index.validate x ≡ none) (written r)
  write_snapshot-reads_back m d e q quiet =
      let w = write_snapshot-eq-ok m d e q in
      (
        load_manifest-found input.new_id m e w.valid_id w.valid w.manifest_there quiet,
        open_index-found input.new_id _ e w.valid_id w.index_there quiet,
        w.valid_entries,
      )
