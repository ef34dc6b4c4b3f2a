-- ===== src/Backup/Outcomes.antt =====
-- What a whole run (`Run` of internal/backup/backup.go) leaves behind, on every path out of it.
use better_amp_backup.Prelude.{
  true, none, List, [], ◌∷◌, ◌++◌, All, In, some, String, ◌≡◌, ◌⊎◌, inl, inr, refl, sym, ap, ◌∙◌,
  subst, fun_ext, arith,
}
use better_amp_backup.Repo.Manifest.{
  Hash, Manifest, SnapshotId, complete, valid_snapshot_id, restorable,
}
use better_amp_backup.Repo.Manifest
use better_amp_backup.Repo.Index.{Entry, index, index_version}
use better_amp_backup.Repo.Index
use better_amp_backup.Repo.Disk.{Disk, Action, Result, find, manifest, index_file, pure}
use better_amp_backup.Repo.Disk
use better_amp_backup.Repo.Disk.Keeps.{SameFiles-preorder}
use better_amp_backup.Repo.Snapshots.{index_ext, manifest_ext}
use better_amp_backup.Repo.Writer.{stream_of}
use better_amp_backup.Repo.Writer.Fails.{SameManifests, SameManifests-preorder, FailsClean}
use better_amp_backup.Repo.Snapshots.Listed.{IsListed}
use better_amp_backup.Repo.Writer.Others.{SameOthers}
use better_amp_backup.Scan.{Item, WalkResult}
use better_amp_backup.Backup.{Runner, load_parent_index}
use better_amp_backup.Backup.Faithful.{IsFaithfulTo}
use better_amp_backup.Backup.Covered.{IsCaptured, IsCaptured-sort_by_path}
use better_amp_backup.Backup.Kept.{Grows, IsBacked}
use better_amp_backup.Backup.Intact.{Scope, InScope, IsIntactFor, IsSafe, IsIntact-Grows}
use better_amp_backup.Backup.Run.{
  Options, Input, World, QuiescerCall, lift, write_snapshot, state_of, sort_by_path, of_result,
}
use better_amp_backup.Backup.Written.{written, IsWritten, write_snapshot-eq-ok}
use better_amp_backup.Backup.Sorted.{sort_by_path_idem}
use better_amp_backup.Backup.Commits.{
  FailsClean-write_snapshot, write_snapshot-IsSafe, All-sort_by_path,
}
use better_amp_backup.Backup.Refines.{
  beside, view, save_result, Others-write_snapshot, write_snapshot-refines,
}
use better_amp_backup.Backup.Phases.{IsReady, IsPaired}
use better_amp_backup.Backup.Triples.{Holds}

-- The previous entries are those that the repository holds for the parent.
pub record IsParentIndex (base : Disk) (parent : SnapshotId) (previous : List Entry) : Type 0 where
  pub before : Disk
  pub after : Disk
  pub same : before.snapshots ≡ base.snapshots
  pub loaded : load_parent_index parent before ≡ (Disk.ok previous, after)

-- A complete snapshot: its index stands under its id, each entry of it is faithful to an item of the
-- walk, and every item of the walk has an entry of its path.
pub record IsCompleteSnapshot (input : Input) (scanned : WalkResult) (base : Disk) (m : Manifest)
    (w : World) : Type 0 where
  pub previous : List Entry
  pub parent : IsParentIndex base m.parent previous
  pub entries : List Entry
  pub index_there :
      find (input.new_id ++ index_ext) w.repo.snapshots
      ≡ some (index_file (index index_version (stream_of entries)))
  pub faithful : All (IsFaithfulTo input.files previous scanned.items) entries
  pub captured : (it : Item) → In it scanned.items → IsCaptured entries it

-- A snapshot that can be restored: its manifest and its index stand under the id.
pub record IsSaved (id : SnapshotId) (m : Manifest) (d : Disk) : Type 0 where
  pub entries : List Entry
  pub valid_id : valid_snapshot_id id ≡ true
  pub same_id : m.id ≡ id
  pub valid : Manifest.validate m ≡ none
  pub can_restore : restorable m ≡ true
  pub valid_entries : All (λ e. Index.validate e ≡ none) entries
  pub sorted : sort_by_path entries ≡ entries
  pub manifest_there : find (id ++ manifest_ext) d.snapshots ≡ some (manifest (some m))
  pub index_there :
      find (id ++ index_ext) d.snapshots
      ≡ some (index_file (index index_version (stream_of entries)))

-- What is left of a run that returned, and of one that failed, of a world `base`, `before`.
pub record IsGood (input : Input) (base : Disk) (before : List QuiescerCall) (m : Manifest)
    (w : World) : Type 0 where
  pub paired : IsPaired before w
  pub intact : (scope : Scope) → IsIntactFor scope base base → IsIntactFor scope base w.repo
  pub listed :
      (n : Manifest)
      → IsListed w.repo.snapshots n
      → (n.id ≡ input.new_id) ⊎ IsListed base.snapshots n
  pub saved : IsSaved input.new_id m w.repo
  pub backed : (scope : Scope) → IsIntactFor scope base base → All (IsBacked w.repo) saved.entries
  pub complete_snapshot :
      m.state ≡ complete
      → (scanned : WalkResult) × (input.scanned ≡ some scanned)
        × IsCompleteSnapshot input scanned base m w

pub record IsBad (base : Disk) (before : List QuiescerCall) (w : World) : Type 0 where
  pub paired : IsPaired before w
  pub intact : (scope : Scope) → IsIntactFor scope base base → IsIntactFor scope base w.repo
  pub manifests : SameManifests base w.repo
  pub same_view : view w.repo ≡ view base

-- A repository with the same snapshots and no object less.
pub Grows-SameManifests : (d e : Disk) → Grows d e → SameManifests d e
Grows-SameManifests d e g = record {
  manifest_file = λ id. ap (find (id ++ manifest_ext)) g.snapshots;
  listed = λ m l. subst (λ dir. IsListed dir m) g.snapshots l;
}

view-Grows : (d e : Disk) → Grows d e → view e ≡ view d
view-Grows d e g = fun_ext (λ id.
    ap (λ dir. beside (find (id ++ manifest_ext) dir) (find (id ++ index_ext) dir)) g.snapshots)

pub Grows-IsBad :
    (base : Disk) (before : List QuiescerCall) (w : World)
    → Grows base w.repo
    → IsPaired before w
    → IsBad base before w
Grows-IsBad base before w g p = record {
  paired = p;
  intact = λ scope. IsIntact-Grows base w.repo g;
  manifests = Grows-SameManifests base w.repo g;
  same_view = view-Grows base w.repo g;
}

module _ (hash_of : List Entry → Hash) (opts : Options) (input : Input) (base : Disk)
    (before : List QuiescerCall) where
  complete-no_warnings : (ws : List String) → state_of ws ≡ complete → ws ≡ []
  complete-no_warnings [] q = refl
  complete-no_warnings (x ∷ xs) q = absurd (ground arith)

  state-restorable : (m : Manifest) (ws : List String) → m.state ≡ state_of ws → restorable m ≡ true
  unfolding restorable
  state-restorable m [] q = rw q refl
  state-restorable m (x ∷ xs) q = rw q refl

  written-IsGood :
      (scanned : WalkResult) (parent : SnapshotId) (previous : List Entry) (r : Runner) (w : World)
      (m : Manifest) (d : Disk)
      → input.scanned ≡ some scanned
      → IsParentIndex base parent previous
      → IsReady input.files scanned.items [] previous base r w
      → IsPaired before w
      → ((scope : Scope) → IsIntactFor scope base base → IsSafe (InScope scope base) (written r) d)
      → SameOthers input.new_id w.repo d
      → IsWritten hash_of opts input parent r m d
      → IsGood input base before m (record w { repo = d })
  written-IsGood scanned parent previous r w m d q from ready paired safe others wr = record {
    paired = paired;
    intact = λ scope i. let s = safe scope i in s.intact;
    listed = λ n l. elim (others.listed n l) [
      | inl fresh ↦ inl fresh
      | inr old ↦ inr (subst (λ dir. IsListed dir n) ready.grows.snapshots old)
    ];
    saved = record {
      entries = written r;
      valid_id = wr.valid_id;
      same_id = wr.same_id;
      valid = wr.valid;
      can_restore = state-restorable m r.warnings wr.state;
      valid_entries = wr.valid_entries;
      sorted = sort_by_path_idem r.entries;
      manifest_there = wr.manifest_there;
      index_there = wr.index_there;
    };
    backed = λ scope i. let s = safe scope i in s.backed;
    complete_snapshot = λ c.
        let quiet = complete-no_warnings r.warnings (sym wr.state ∙ c) in
        let (is_previous, faithful) = ready.faithful quiet in
        (
          scanned,
          q,
          record {
            previous = previous;
            parent = subst (λ p. IsParentIndex base p previous) (sym wr.same_parent) from;
            entries = written r;
            index_there = wr.index_there;
            faithful =
                All-sort_by_path (IsFaithfulTo input.files previous scanned.items) r.entries
                  faithful;
            captured = λ it there. elim (ready.captured quiet it there) [
              | inl left ↦ elim left [ ]
              | inr c ↦ IsCaptured-sort_by_path r.entries it c
            ];
          },
        );
  }

  pub Holds-write :
      (scanned : WalkResult) (parent : SnapshotId) (previous : List Entry) (r : Runner) (w : World)
      → input.scanned ≡ some scanned
      → IsParentIndex base parent previous
      → IsReady input.files scanned.items [] previous base r w
      → IsPaired before w
      → Holds
          (IsGood input base before)
          (IsBad base before)
          (lift (write_snapshot hash_of opts input parent r) w)
  unfolding lift
  Holds-write scanned parent previous r w q from ready paired =
      let x = write_snapshot hash_of opts input parent r w.repo in
      go x.0 x.1 refl (FailsClean-write_snapshot hash_of opts input parent r w.repo) (λ scope i.
        let (_, b) = ready.backed scope i in
        write_snapshot-IsSafe hash_of opts input parent r w.repo (record {
          intact = IsIntact-Grows base w.repo ready.grows i;
          backed = All-sort_by_path (IsBacked w.repo) r.entries b;
        }))
    where
      go :
          (x : Result Manifest) (d : Disk)
          → write_snapshot hash_of opts input parent r w.repo ≡ (x, d)
          → FailsClean w.repo (x, d)
          → ((scope : Scope)
              → IsIntactFor scope base base
              → IsSafe (InScope scope base) (written r) d)
          → Holds
              (IsGood input base before)
              (IsBad base before)
              (of_result x, record w { repo = d })
      go (Disk.ok m) d e clean safe =
          written-IsGood scanned parent previous r w m d q from ready paired safe
            (subst (λ x. SameOthers input.new_id w.repo x.1) e
              (Others-write_snapshot hash_of opts input parent r w.repo))
            (write_snapshot-eq-ok hash_of opts input parent r m w.repo d e)
      go (Disk.err y) d e clean safe = record {
        paired = paired;
        intact = λ scope i. let s = safe scope i in s.intact;
        manifests =
            SameManifests-preorder.transitive base w.repo d
              (Grows-SameManifests base w.repo ready.grows) clean;
        same_view =
            subst (λ x. view x.1 ≡ save_result input.new_id (written r) x.0 (view w.repo)) e
              (write_snapshot-refines hash_of opts input parent r w.repo)
            ∙ view-Grows base w.repo ready.grows;
      }
