-- ===== src/Backup/Whole.antt =====
-- A whole run (`Run` of internal/backup/backup.go), on every path out of it.
use better_amp_backup.Prelude.{ℕ, List, ◌++◌, arith, some, ◌≡◌, inl, inr, sym, ap, ◌∙◌, subst}
use better_amp_backup.Repo.Manifest.{Hash, Manifest, complete}
use better_amp_backup.Repo.Index.{Entry, Stream, index, index_version}
use better_amp_backup.Repo.Disk.{Disk, find, index_file}
use better_amp_backup.Repo.Disk.Keeps.{SameFiles-preorder}
use better_amp_backup.Repo.Snapshots.{index_ext}
use better_amp_backup.Repo.Writer.Fails.{SameManifests, SameManifests-preorder}
use better_amp_backup.Scan.{WalkResult}
use better_amp_backup.Backup.Kept.{IsBacked}
use better_amp_backup.Backup.Intact.{
  AllIn, AllIn-stream_of, IsWhole, Scope, every, live, IsIntactFor, IsIntact,
}
use better_amp_backup.Backup.Run.{
  Options, Input, World, Outcome, ok, err, RunError, QuiescerCall, run,
}
use better_amp_backup.Backup.Phases.{IsPaired}
use better_amp_backup.Backup.Triples.{Holds}
use better_amp_backup.Backup.Refines.{view}
use better_amp_backup.Backup.Outcomes.{IsSaved, IsCompleteSnapshot, IsGood, IsBad}
use better_amp_backup.Backup.Ends.{Holds-run}

AllIn-found :
    (P : Entry → Type 0) (t s : Stream) (v : ℕ)
    → some (index_file (index index_version t)) ≡ some (index_file (index v s))
    → AllIn P t
    → AllIn P s
AllIn-found P t s v q = let same : t ≡ s = ground arith in subst (AllIn P) same

module _ (hash_of : List Entry → Hash) (opts : Options) (input : Input) where
  from_both :
      (base : Disk) (before : List QuiescerCall) (x : Outcome Manifest × World)
      → Holds (IsGood input base before) (IsBad base before) x
      → IsPaired before x.1
        × ((scope : Scope) → IsIntactFor scope base base → IsIntactFor scope base x.1.repo)
  from_both base before (ok m, w) h = (h.paired, h.intact)
  from_both base before (err e, w) h = (h.paired, h.intact)

  -- Whatever becomes of a run: where the content of every file that an index among the snapshots
  -- lists was in the store before, it is afterwards.
  pub run-IsIntact : (w : World) → IsIntact w.repo → IsIntact (run hash_of opts input w).1.repo
  run-IsIntact w = (from_both w.repo w.calls _ (Holds-run hash_of opts input w)).1 every

  kept-IsWhole :
      (base : Disk) (before : List QuiescerCall) (x : Outcome Manifest × World)
      → IsWhole base
      → Holds (IsGood input base before) (IsBad base before) x
      → IsWhole x.1.repo
  kept-IsWhole base before (ok m, w) i h = record {
    indexes = λ name v s l q. elim (h.listed l.snapshot l.listed) [
      | inl fresh ↦
          AllIn-found _ _ s v
            (sym h.saved.index_there
              ∙ ap (λ x. find (x ++ index_ext) w.repo.snapshots) (sym fresh)
              ∙ ap (λ x. find x w.repo.snapshots) l.same
              ∙ q)
            (AllIn-stream_of (IsBacked w.repo) h.saved.entries (h.backed live i))
      | inr old ↦
          let k = h.intact live i in
          k.indexes name v s (record { snapshot = l.snapshot; listed = old; same = l.same }) q
    ];
  }
  kept-IsWhole base before (err e, w) i h = record {
    indexes = λ name v s l q.
        let k = h.intact live i in
        k.indexes name v s
          (record {
            snapshot = l.snapshot;
            listed = h.manifests.listed l.snapshot l.listed;
            same = l.same;
          })
          q;
  }

  -- Where the content of the files of every listed snapshot is in the store, it is so after a run.
  pub run-IsWhole : (w : World) → IsWhole w.repo → IsWhole (run hash_of opts input w).1.repo
  run-IsWhole w i = kept-IsWhole w.repo w.calls _ i (Holds-run hash_of opts input w)

  -- Whatever becomes of a run, it either did not call the quiescer, or it called Quiesce once and
  -- then Release once.
  pub run-IsPaired : (w : World) → IsPaired w.calls (run hash_of opts input w).1
  run-IsPaired w = (from_both w.repo w.calls _ (Holds-run hash_of opts input w)).0

  -- A run that failed leaves every manifest, and the index beside it, as they were, and lists no
  -- manifest that was not listed: no snapshot is added, changed or lost.
  pub run-SameManifests :
      (w w' : World) (e : RunError)
      → run hash_of opts input w ≡ (err e, w')
      → SameManifests w.repo w'.repo × (view w'.repo ≡ view w.repo)
  run-SameManifests w w' e q =
      let h =
        subst (Holds (IsGood input w.repo w.calls) (IsBad w.repo w.calls)) q
          (Holds-run hash_of opts input w) in
      (h.manifests, h.same_view)

  -- A run that returned a manifest has saved it.
  pub run-IsSaved :
      (w w' : World) (m : Manifest)
      → run hash_of opts input w ≡ (ok m, w')
      → IsSaved input.new_id m w'.repo
  run-IsSaved w w' m q =
      let h =
        subst (Holds (IsGood input w.repo w.calls) (IsBad w.repo w.calls)) q
          (Holds-run hash_of opts input w) in
      h.saved

  -- A run that returned a manifest in the state complete has an index under the new id in which
  -- each entry is that of an item of the walk: a directory or a symlink as the walk found it, a
  -- file with the content of one of at most three reads, between two stats that agree, or with the
  -- hash that the parent's index has for the path, where that entry passes the stat-diff. Every
  -- item of the walk has an entry of its path there.
  pub run-IsCompleteSnapshot :
      (w w' : World) (m : Manifest)
      → run hash_of opts input w ≡ (ok m, w')
      → m.state ≡ complete
      → (scanned : WalkResult) × (input.scanned ≡ some scanned)
        × IsCompleteSnapshot input scanned w.repo m w'
  run-IsCompleteSnapshot w w' m q c =
      let h =
        subst (Holds (IsGood input w.repo w.calls) (IsBad w.repo w.calls)) q
          (Holds-run hash_of opts input w) in
      h.complete_snapshot c
