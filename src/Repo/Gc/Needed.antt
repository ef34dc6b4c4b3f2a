-- ===== src/Repo/Gc/Needed.antt =====
-- Which objects the snapshots need, and that the mark phase of `Prune` (internal/repo/gc.go)
-- finds them all.
use better_amp_backup.Prelude.{ℕ, true, false, [], ◌++◌, In, some, ◌≡◌, ap, ◌∙◌, subst}
use better_amp_backup.Paths.{Text}
use better_amp_backup.Repo.Manifest.{Manifest, SnapshotId, Hash, valid_snapshot_id}
use better_amp_backup.Repo.Index.{Stream, index}
use better_amp_backup.Repo.Disk.{Disk, ok, index_file, find}
use better_amp_backup.Repo.Disk.Keeps.{SameFiles-preorder, Keeps-result, bind-eq-ok, pure-eq-ok}
use better_amp_backup.Repo.Snapshots.{index_ext, list_snapshots}
use better_amp_backup.Repo.Snapshots.Reads.{Keeps-list_snapshots}
use better_amp_backup.Repo.Snapshots.Results.{IsManifestName, manifest_at, list_snapshots-finds}
use better_amp_backup.Repo.Trash.{trash_dir, list_trashed_ids}
use better_amp_backup.Repo.Trash.Reads.{Keeps-list_trashed_ids}
use better_amp_backup.Repo.Trash.Ids.{list_trashed_ids-finds}
use better_amp_backup.Repo.Gc.{
  PruneOptions, Marked, is_referenced, mark, mark_live, mark_trashed, mark_forgotten,
}
use better_amp_backup.Repo.Gc.Reads.{Keeps-mark_live}
use better_amp_backup.Repo.Gc.Marking.{
  HasFile, mark_live-finds, mark_forgotten-keeps, mark_trashed-finds,
}

-- A live snapshot needs the object: its manifest is listed, and the index of its id has a file
-- entry with this hash.
pub record IsLive (d : Disk) (h : Hash) : Type 0 where
  pub name : Text
  pub snapshot : Manifest
  pub version : ℕ
  pub stream : Stream
  pub named : IsManifestName name
  pub listed : In (manifest_at name snapshot) d.snapshots
  pub indexed :
      find (snapshot.id ++ index_ext) d.snapshots ≡ some (index_file (index version stream))
  pub holds : HasFile h stream

-- A forgotten snapshot, still in the trash, needs the object.
pub record IsTrashed (d : Disk) (h : Hash) : Type 0 where
  pub id : SnapshotId
  pub version : ℕ
  pub stream : Stream
  pub valid : valid_snapshot_id id ≡ true
  pub indexed :
      find (id ++ index_ext) (trash_dir d.trash) ≡ some (index_file (index version stream))
  pub holds : HasFile h stream

module _ (opts : PruneOptions) (h : Hash) where
  pub mark-finds_live :
      (d e : Disk) (mk : Marked)
      → mark opts d ≡ (ok mk, e)
      → IsLive d h
      → is_referenced mk.referenced h ≡ true
  unfolding mark
  mark-finds_live d e mk q l =
      let (live, d1, q1, r1) = bind-eq-ok list_snapshots _ d e mk q in
      let (ids, d2, q2, r2) = bind-eq-ok list_trashed_ids _ d1 e mk r1 in
      let (refs, d3, q3, r3) = bind-eq-ok (mark_live live []) _ d2 e mk r2 in
      let (refs', d4, q4, r4) =
        bind-eq-ok (mark_forgotten opts.empty_trash ids refs) _ d3 e mk r3 in
      let here = list_snapshots-finds l.name l.snapshot live d d1 q1 l.named l.listed in
      let same = Keeps-result Keeps-list_snapshots d d1 (ok live) q1 in
      let same' = Keeps-result Keeps-list_trashed_ids d1 d2 (ok ids) q2 in
      let found =
        mark_live-finds h live [] refs d2 d3 l.snapshot l.version l.stream q3 here
          (ap (find (l.snapshot.id ++ index_ext)) (same'.snapshots ∙ same.snapshots) ∙ l.indexed)
          l.holds in
      subst (λ (x : Marked). is_referenced x.referenced h ≡ true) (pure-eq-ok _ mk d4 e r4).0
        (mark_forgotten-keeps h opts.empty_trash ids refs refs' d3 d4 q4 found)

  pub mark-finds_trashed :
      (d e : Disk) (mk : Marked)
      → mark opts d ≡ (ok mk, e)
      → opts.empty_trash ≡ false
      → IsTrashed d h
      → is_referenced mk.referenced h ≡ true
  unfolding mark mark_forgotten
  mark-finds_trashed d e mk q kept l =
      let (live, d1, q1, r1) = bind-eq-ok list_snapshots _ d e mk q in
      let (ids, d2, q2, r2) = bind-eq-ok list_trashed_ids _ d1 e mk r1 in
      let (refs, d3, q3, r3) = bind-eq-ok (mark_live live []) _ d2 e mk r2 in
      let (refs', d4, q4, r4) =
        bind-eq-ok (mark_forgotten opts.empty_trash ids refs) _ d3 e mk r3 in
      let same = Keeps-result Keeps-list_snapshots d d1 (ok live) q1 in
      let same' = Keeps-result Keeps-list_trashed_ids d1 d2 (ok ids) q2 in
      let same'' = Keeps-result (Keeps-mark_live live []) d2 d3 (ok refs) q3 in
      let here =
        list_trashed_ids-finds l.id (index_file (index l.version l.stream)) ids d1 d2 q2 l.valid
          (ap (λ t. find (l.id ++ index_ext) (trash_dir t)) same.trash ∙ l.indexed) in
      let run : mark_trashed ids refs d3 ≡ (ok refs', d4) =
        subst (λ b. mark_forgotten b ids refs d3 ≡ (ok refs', d4)) kept q4 in
      let trash = same''.trash ∙ same'.trash ∙ same.trash in
      subst (λ (x : Marked). is_referenced x.referenced h ≡ true) (pure-eq-ok _ mk d4 e r4).0
        (mark_trashed-finds h ids refs refs' d3 d4 l.id l.version l.stream run here
          (ap (λ t. find (l.id ++ index_ext) (trash_dir t)) trash ∙ l.indexed) l.holds)
