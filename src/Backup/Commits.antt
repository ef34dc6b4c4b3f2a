-- ===== src/Backup/Commits.antt =====
-- The last step of a run (from `NewSnapshotWriter` on, internal/backup/backup.go), by its result.
use better_amp_backup.Prelude.{if_cases, List, [], ◌∷◌, ◌++◌, All, ◌≡◌, sym, ap, ◌∙◌, subst}
use better_amp_backup.Paths.{Text}
use better_amp_backup.Repo.Manifest.{Hash, SnapshotId}
use better_amp_backup.Repo.Index.{Entry}
use better_amp_backup.Repo.Disk.{Disk}
use better_amp_backup.Repo.Disk.Keeps.{
  Keeps, SameFiles, SameFiles-preorder, Keeps-bind, Keeps-pure, Keeps-reads, Keeps-result,
  bind_cases,
}
use better_amp_backup.Repo.Snapshots.{text_ltb}
use better_amp_backup.Repo.Writer.{SnapshotWriter, new_snapshot_writer, commit}
use better_amp_backup.Repo.Writer.Commits.{new_snapshot_writer-eq-ok}
use better_amp_backup.Repo.Writer.Fails.{
  SameManifests, SameManifests-preorder, SameFiles-SameManifests, FailsClean, FailsClean-bind,
  FailsClean-commit, Keeps-new_snapshot_writer, Keeps-add,
}
use better_amp_backup.Backup.{Runner}
use better_amp_backup.Backup.Run.{
  Options, Input, write_snapshot, add_all, sort_by_path, insert_by_path, manifest_of,
}
use better_amp_backup.Backup.Written.{written, add_all-eq-ok}
use better_amp_backup.Backup.Intact.{IsSafe, SameFiles-StaysSafe, Safe-commit}

pub All-insert_by_path :
    (P : Entry → Type 0) (e : Entry) (es : List Entry)
    → P e
    → All P es
    → All P (insert_by_path e es)
unfolding insert_by_path
All-insert_by_path P e [] h hs = (h, tt)
All-insert_by_path P e (f ∷ fs) h (k, ks) =
    if_cases (All P) (text_ltb f.path e.path) (λ _. (k, All-insert_by_path P e fs h ks))
      (λ _. (h, (k, ks)))

-- Sorting keeps what holds of each entry.
pub All-sort_by_path : (P : Entry → Type 0) (es : List Entry) → All P es → All P (sort_by_path es)
unfolding sort_by_path
All-sort_by_path P [] h = tt
All-sort_by_path P (e ∷ es) (h, hs) =
    All-insert_by_path P e (sort_by_path es) h (All-sort_by_path P es hs)

pub Keeps-add_all : (es : List Entry) (w : SnapshotWriter) → Keeps SameFiles (add_all w es)
unfolding add_all
Keeps-add_all [] w = Keeps-pure w
Keeps-add_all (e ∷ es) w = Keeps-bind _ _ (Keeps-add w e) (λ w'. Keeps-add_all es w')

module _ (hash_of : List Entry → Hash) (opts : Options) (input : Input) (parent : SnapshotId)
    (r : Runner) where
  -- A write that failed leaves every manifest as it was.
  pub FailsClean-write_snapshot :
      (d : Disk) → FailsClean d (write_snapshot hash_of opts input parent r d)
  unfolding write_snapshot
  FailsClean-write_snapshot d =
      FailsClean-bind (new_snapshot_writer input.new_id opts.instance_name) _ d
        (Keeps-reads SameManifests _ SameFiles-SameManifests
          (Keeps-new_snapshot_writer input.new_id opts.instance_name))
        (λ w d1.
          FailsClean-bind (add_all w (written r)) _ d1
            (Keeps-reads SameManifests _ SameFiles-SameManifests (Keeps-add_all (written r) w))
            (λ w' d2. FailsClean-commit hash_of w' (manifest_of opts input parent r) d2))

  -- A write of entries whose content is stored keeps an intact repository intact, and their content
  -- stored.
  pub write_snapshot-IsSafe :
      {P : Text → Type 0} (d : Disk)
      → IsSafe P (written r) d
      → IsSafe P (written r) (write_snapshot hash_of opts input parent r d).1
  unfolding write_snapshot
  write_snapshot-IsSafe {P = P} d s =
      bind_cases (λ x. IsSafe P (written r) x.1)
        (new_snapshot_writer input.new_id opts.instance_name) _ d
        (λ w d1 q.
          let s1 =
            (SameFiles-StaysSafe {P = P} (written r) d d1 (
              Keeps-result (Keeps-new_snapshot_writer input.new_id opts.instance_name) d d1 _ q)) in
          bind_cases (λ x. IsSafe P (written r) x.1) (add_all w (written r)) _ d1
            (λ w' d2 q'.
              let s2 =
                SameFiles-StaysSafe {P = P} (written r) d1 d2
                  (Keeps-result (Keeps-add_all (written r) w) d1 d2 _ q') in
              let new = new_snapshot_writer-eq-ok input.new_id opts.instance_name w d d1 q in
              let added = add_all-eq-ok (written r) w w' d1 d2 q' in
              let staged : w'.staged ≡ written r =
                added.staged ∙ ap (λ x. x ++ written r) new.empty in
              let c = Safe-commit {P = P} hash_of w' (manifest_of opts input parent r) in
              let step = c.at d2 in
              subst (λ es. IsSafe P es (commit hash_of w' (manifest_of opts input parent r) d2).1)
                staged
                (step.safe (subst (λ es. IsSafe P es d2) (sym staged) (s2.safe (s1.safe s)))))
            (λ x d2 q'.
              let s2 =
                SameFiles-StaysSafe {P = P} (written r) d1 d2
                  (Keeps-result (Keeps-add_all (written r) w) d1 d2 _ q') in
              s2.safe (s1.safe s)))
        (λ x d1 q.
          let s1 =
            SameFiles-StaysSafe {P = P} (written r) d d1
              (Keeps-result (Keeps-new_snapshot_writer input.new_id opts.instance_name) d d1 _ q) in
          s1.safe s)
