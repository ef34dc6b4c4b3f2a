-- ===== src/Backup/Refines.antt =====
-- What the writing of a snapshot (from `NewSnapshotWriter` on, internal/backup/backup.go) is to
-- whoever lists, loads and opens snapshots: an abstract repository maps an id to the snapshot that
-- it names, and forgets file names, indexes without a manifest, locks and the order of the files.
use better_amp_backup.Prelude.{
  true, false, if◌then◌else◌, List, Option, none, some, Bool-cases, ◌≡◌, inl, inr, refl, sym, ap,
  ◌∙◌, subst, fun_ext, list_eq, list_eq_self, list_eq→eq, ◌++◌, arith,
}
use better_amp_backup.Repo.Manifest.{Hash, Manifest, SnapshotId}
use better_amp_backup.Repo.Index.{Entry, index, index_version}
use better_amp_backup.Repo.Disk.{Disk, Content, manifest, index_file, ok, err, Result, find}
use better_amp_backup.Repo.Disk.Keeps.{SameFiles, Keeps-result, bind_cases}
use better_amp_backup.Repo.Snapshots.{manifest_ext, index_ext}
use better_amp_backup.Repo.Writer.{new_snapshot_writer, stream_of, commit}
use better_amp_backup.Repo.Writer.Commits.{new_snapshot_writer-eq-ok, new_snapshot_writer-absent}
use better_amp_backup.Repo.Writer.Fails.{FailsClean, Keeps-new_snapshot_writer}
use better_amp_backup.Repo.Writer.Others.{
  SameOthers, SameOthers-preorder, SameFiles-SameOthers, Others-commit,
}
use better_amp_backup.Backup.{Runner}
use better_amp_backup.Backup.Run.{Options, Input, write_snapshot, add_all, manifest_of}
use better_amp_backup.Backup.Written.{written, add_all-eq-ok, write_snapshot-eq-ok}
use better_amp_backup.Backup.Commits.{Keeps-add_all, FailsClean-write_snapshot}

-- A manifest file and the index file beside it.
pub record Snapshot : Type 0 where
  pub manifest_file : Content
  pub index_file : Option Content

abbrev pub Repository : Type 0
Repository = SnapshotId → Option Snapshot

abbrev pub beside : Option Content → Option Content → Option Snapshot
beside none i = none
beside (some m) i = some (record { manifest_file = m; index_file = i })

abbrev pub view : Disk → Repository
view d id = beside (find (id ++ manifest_ext) d.snapshots) (find (id ++ index_ext) d.snapshots)

abbrev pub save : SnapshotId → Snapshot → Repository → Repository
save new s v id = if list_eq new id then some s else v id

abbrev pub snapshot_of : Manifest → List Entry → Snapshot
snapshot_of m es = record {
  manifest_file = manifest (some m);
  index_file = some (index_file (index index_version (stream_of es)));
}

-- the abstract operation: all of the new snapshot, or nothing
abbrev pub save_result : SnapshotId → List Entry → Result Manifest → Repository → Repository
save_result new es (ok m) v = save new (snapshot_of m es) v
save_result new es (err x) v = v

view-SameOthers :
    (new id : SnapshotId) (d e : Disk)
    → list_eq new id ≡ false
    → SameOthers new d e
    → view e id ≡ view d id
view-SameOthers new id d e ne h =
    ap (λ c. beside c (find (id ++ index_ext) e.snapshots)) (h.same_manifest id ne)
    ∙ ap (beside (find (id ++ manifest_ext) d.snapshots)) (h.same_index id ne)

view-SameFiles : (id : SnapshotId) (d e : Disk) → SameFiles d e → view e id ≡ view d id
view-SameFiles id d e h =
    ap (λ dir. beside (find (id ++ manifest_ext) dir) (find (id ++ index_ext) dir)) h.snapshots

beside-absent : (c c' i i' : Option Content) → c' ≡ none → c ≡ c' → beside c i ≡ beside c' i'
beside-absent c c' i i' n q = ap (λ x. beside x i) (q ∙ n) ∙ sym (ap (λ x. beside x i') n)

module _ (hash_of : List Entry → Hash) (opts : Options) (input : Input) (parent : SnapshotId)
    (r : Runner) where
  pub Others-write_snapshot :
      (d : Disk) → SameOthers input.new_id d (write_snapshot hash_of opts input parent r d).1
  unfolding write_snapshot
  Others-write_snapshot d =
      let maker = new_snapshot_writer input.new_id opts.instance_name in
      let made = Keeps-new_snapshot_writer input.new_id opts.instance_name in
      let still = SameFiles-SameOthers input.new_id in
      bind_cases (λ x. SameOthers input.new_id d x.1) maker _ d
        (λ w d1 q. SameOthers-preorder.transitive d d1 _ (still d d1 (Keeps-result made d d1 _ q)) (
          bind_cases (λ x. SameOthers input.new_id d1 x.1) (add_all w (written r)) _ d1
            (λ w' d2 q'.
              let new = new_snapshot_writer-eq-ok input.new_id opts.instance_name w d d1 q in
              let added = add_all-eq-ok (written r) w w' d1 d2 q' in
              let c = Others-commit hash_of w' (manifest_of opts input parent r) in
              SameOthers-preorder.transitive d1 d2 _
                (still d1 d2 (Keeps-result (Keeps-add_all (written r) w) d1 d2 _ q'))
                (subst
                  (λ i. SameOthers i d2 (commit hash_of w' (manifest_of opts input parent r) d2).1)
                  (added.same_id ∙ new.same_id) (c.at d2)))
            (λ x d2 q'. still d1 d2 (Keeps-result (Keeps-add_all (written r) w) d1 d2 _ q'))))
        (λ x d1 q. still d d1 (Keeps-result made d d1 _ q))

  -- A snapshot that is there is not written again.
  write_snapshot_refused :
      (d : Disk) (c : Content)
      → find (input.new_id ++ manifest_ext) d.snapshots ≡ some c
      → SameFiles d (write_snapshot hash_of opts input parent r d).1
  unfolding write_snapshot
  write_snapshot_refused d c there =
      bind_cases (λ x. SameFiles d x.1) (new_snapshot_writer input.new_id opts.instance_name) _ d
        (λ w d1 q. absurd (
          some_none
            (sym there ∙ new_snapshot_writer-absent input.new_id opts.instance_name w d d1 q)))
        (λ x d1 q.
          Keeps-result (Keeps-new_snapshot_writer input.new_id opts.instance_name) d d1 _ q)
    where
      some_none : some c ≡ none → ⊥
      some_none q = ground arith

  view-new :
      (d e : Disk) (x : Result Manifest)
      → write_snapshot hash_of opts input parent r d ≡ (x, e)
      → FailsClean d (x, e)
      → view e input.new_id ≡ save_result input.new_id (written r) x (view d) input.new_id
  view-new d e (ok m) q clean =
      let w = write_snapshot-eq-ok hash_of opts input parent r m d e q in
      ap (λ c. beside c (find (input.new_id ++ index_ext) e.snapshots)) w.manifest_there
      ∙ ap (beside (some (manifest (some m)))) w.index_there
      ∙ sym (saved (list_eq_self input.new_id))
    where
      saved :
          list_eq input.new_id input.new_id ≡ true
          → save input.new_id (snapshot_of m (written r)) (view d) input.new_id
            ≡ some (snapshot_of m (written r))
      saved k = rw k refl
  view-new d e (err x) q clean = by_file (find (input.new_id ++ manifest_ext) d.snapshots) refl
    where
      by_file :
          (c : Option Content)
          → find (input.new_id ++ manifest_ext) d.snapshots ≡ c
          → view e input.new_id ≡ view d input.new_id
      by_file none absent = beside-absent _ _ _ _ absent (clean.manifest_file input.new_id)
      by_file (some c) there =
          view-SameFiles input.new_id d e
            (subst (λ y. SameFiles d y.1) q (write_snapshot_refused d c there))

  view-write_snapshot_at :
      (d e : Disk) (x : Result Manifest) (id : SnapshotId)
      → write_snapshot hash_of opts input parent r d ≡ (x, e)
      → FailsClean d (x, e)
      → SameOthers input.new_id d e
      → view e id ≡ save_result input.new_id (written r) x (view d) id
  view-write_snapshot_at d e x id q clean others = elim (Bool-cases (list_eq input.new_id id)) [
    | inl same ↦
        subst (λ i. view e i ≡ save_result input.new_id (written r) x (view d) i)
          (list_eq→eq input.new_id id same) (view-new d e x q clean)
    | inr ne ↦ view-SameOthers input.new_id id d e ne others ∙ sym (untouched x ne)
  ]
    where
      untouched :
          (y : Result Manifest)
          → list_eq input.new_id id ≡ false
          → save_result input.new_id (written r) y (view d) id ≡ view d id
      untouched (ok m) ne = rw ne refl
      untouched (err z) ne = refl

  -- The writing of a snapshot, with its checks, its temporary files, its renames and its
  -- clean-up, refines one atomic operation on the abstract repository, whatever calls fail: where
  -- it returns a manifest, the new id names that manifest and the index of the run's entries,
  -- sorted by path, and every other id names what it named; where it returns an error, every id
  -- names what it named.
  pub write_snapshot-refines :
      (d : Disk)
      → view (write_snapshot hash_of opts input parent r d).1
        ≡ save_result input.new_id
            (written r)
            (write_snapshot hash_of opts input parent r d).0
            (view d)
  write_snapshot-refines d = fun_ext (λ id.
      view-write_snapshot_at d _ _ id refl (FailsClean-write_snapshot hash_of opts input parent r d)
        (Others-write_snapshot d))
