-- ===== src/Backup/Ends.antt =====
-- The paths out of a run (`Run` of internal/backup/backup.go), step by step.
use better_amp_backup.Prelude.{
  true, if_cases, List, [], ◌∷◌, ◌++◌, String, arith, some, str_eq, ◌≡◌, inl, inr, refl, sym, ap,
  ◌∙◌, subst,
}
use better_amp_backup.Repo.Manifest.{Hash, Manifest, SnapshotId}
use better_amp_backup.Repo.Index.{Entry}
use better_amp_backup.Repo.Disk.{Disk, Action, Result, find, manifest, index_file, pure}
use better_amp_backup.Repo.Disk
use better_amp_backup.Repo.Disk.Keeps.{SameFiles-preorder}
use better_amp_backup.Repo.Lock.{lock_write, write_lock, release}
use better_amp_backup.Repo.Lock.Rules.{lock_write_keeps}
use better_amp_backup.Repo.Snapshots.{latest_for, index_ext}
use better_amp_backup.Repo.Snapshots.Listed.{IsListed, latest_for-IsListed}
use better_amp_backup.Repo.Writer.Fails.{SameManifests-preorder}
use better_amp_backup.Scan.{WalkResult}
use better_amp_backup.Backup.{has_object, Runner, load_parent_index}
use better_amp_backup.Backup.Kept.{Grows, Grows-self}
use better_amp_backup.Backup.Intact.{Scope, every, live, InScope, IsIntact-Grows}
use better_amp_backup.Backup.Run.{
  Options, Input, World, Outcome, ok, err, QuiescerCall, ◌>>=◌, lift, or_raise, check_space,
  read_phases, write_snapshot, run_locked, run, unlocked, under_lock, scan_failed,
}
use better_amp_backup.Backup.Phases.{IsDone, IsPaired, IsAborted, held, Holds-read_phases}
use better_amp_backup.Backup.Triples.{Holds, Holds-bind, Holds-or_raise}
use better_amp_backup.Backup.Parent.{Names}
use better_amp_backup.Backup.Outcomes.{IsGood, IsBad, Grows-IsBad, Holds-write}
use better_amp_backup.Backup.Begins.{
  Keeps-latest_for, IsBegun, IsLoaded, Holds-read, Holds-load, Holds-check_space,
}

-- The parent is a listed snapshot, where there is one.
latest-Names :
    (base : Disk) (name : String) (parent : SnapshotId) (d e : Disk)
    → d.snapshots ≡ base.snapshots
    → latest_for name d ≡ (Disk.ok parent, e)
    → (scope : Scope) → Names (InScope scope base) parent
latest-Names base name [] d e same q scope = tt
latest-Names base name (c ∷ cs) d e same q every = tt
latest-Names base name (c ∷ cs) d e same q live = elim (latest_for-IsListed name (c ∷ cs) d e q) [
  | inl empty ↦ absurd (ground arith)
  | inr (m, listed, named) ↦ record {
    snapshot = m;
    listed = subst (λ dir. IsListed dir m) same listed;
    same = ap (λ i. i ++ index_ext) named;
  }
]

module _ (hash_of : List Entry → Hash) (opts : Options) (input : Input) where
  Holds-phases :
      (base : Disk) (before : List QuiescerCall) (scanned : WalkResult) (parent : SnapshotId)
      (previous : List Entry) (w : World)
      → input.scanned ≡ some scanned
      → IsLoaded base before parent previous w
      → Holds (IsGood input base before) (IsBad base before) (
          (read_phases hash_of opts input previous scanned >>= λ r.
          lift (write_snapshot hash_of opts input parent r))
            w)
  Holds-phases base before scanned parent previous w q h =
      Holds-bind (IsDone input.files opts.paranoid scanned.items [] previous base (held w.calls)) _
        (IsBad base before) (read_phases hash_of opts input previous scanned) _ w
        (Holds-aborted base before w h.begun.so_far
          (IsDone input.files opts.paranoid scanned.items [] previous base (held w.calls))
          (read_phases hash_of opts input previous scanned w)
          (Holds-read_phases hash_of opts input scanned previous base w h.begun.grows h.backed))
        (λ r w' done.
          Holds-write hash_of opts input base before scanned parent previous r w' q h.from
            done.ready (inr (done.so_far ∙ ap held h.begun.so_far)))
    where
      Holds-aborted :
          (base : Disk) (before : List QuiescerCall) (w : World)
          → w.calls ≡ before
          → (post : Runner → World → Type 0) (x : Outcome Runner × World)
          → Holds post (IsAborted base w.calls) x
          → Holds post (IsBad base before) x
      Holds-aborted base before w q post (ok r, w') k = k
      Holds-aborted base before w q post (err e, w') k =
          Grows-IsBad base before w' k.grows (subst (λ c. IsPaired c w') q k.paired)

  Holds-run_locked :
      (base : Disk) (before : List QuiescerCall) (w : World)
      → IsBegun base before w
      → Holds (IsGood input base before) (IsBad base before) (run_locked hash_of opts input w)
  unfolding run_locked
  Holds-run_locked base before w h =
      Holds-bind (λ scanned w'. (input.scanned ≡ some scanned) × IsBegun base before w') _
        (IsBad base before) (or_raise scan_failed input.scanned) _ w
        (Holds-or_raise _ (IsBad base before) scan_failed input.scanned w
          (Grows-IsBad base before w h.grows (inl h.so_far)) (λ scanned q. (q, h)))
        (λ scanned w1 (q, h1).
          Holds-bind
            (λ parent w'.
              IsBegun base before w'
              × (latest_for opts.instance_name w1.repo ≡ (Disk.ok parent, w'.repo)))
            _ (IsBad base before) (lift (latest_for opts.instance_name)) _ w1
            (Holds-read base before (latest_for opts.instance_name) w1
              (Keeps-latest_for opts.instance_name) h1)
            (λ parent w2 (h2, latest).
              Holds-bind (λ previous. IsLoaded base before parent previous) _ (IsBad base before)
                (lift (load_parent_index parent)) _ w2
                (Holds-load base before parent w2
                  (latest-Names base opts.instance_name parent w1.repo w2.repo h1.grows.snapshots
                    latest)
                  h2)
                (λ previous w3 h3.
                  Holds-bind (λ _. IsLoaded base before parent previous) _ (IsBad base before)
                    (check_space hash_of opts input previous scanned.items) _ w3
                    (Holds-check_space hash_of opts input base before parent previous scanned.items
                      w3 h3)
                    (λ _ w4 h4. Holds-phases base before scanned parent previous w4 q h4))))

  -- The lock is taken and given back without a change to the files.
  lock_write-Grows : (d : Disk) → Grows d (lock_write d).1
  lock_write-Grows d =
      let (snapshots, objects) = lock_write_keeps d in
      record {
        snapshots = snapshots;
        objects = λ h there. subst (λ files. has_object h files ≡ true) (sym objects) there;
      }

  release-Grows : (d : Disk) → Grows d (release write_lock d)
  unfolding release
  release-Grows d = record { snapshots = refl; objects = λ h there. there }

  Holds-unlocked :
      (base : Disk) (before : List QuiescerCall) (x : Outcome Manifest × World)
      → Holds (IsGood input base before) (IsBad base before) x
      → Holds (IsGood input base before) (IsBad base before) (unlocked hash_of opts input x)
  unfolding release
  Holds-unlocked base before (ok m, w) h =
      let freed = record w { repo = release write_lock w.repo } in
      record {
        paired = h.paired;
        intact =
            λ scope i. IsIntact-Grows w.repo freed.repo (release-Grows w.repo) (h.intact scope i);
        listed = λ n l. h.listed n l;
        saved = record {
          entries = h.saved.entries;
          valid_id = h.saved.valid_id;
          same_id = h.saved.same_id;
          valid = h.saved.valid;
          can_restore = h.saved.can_restore;
          valid_entries = h.saved.valid_entries;
          sorted = h.saved.sorted;
          manifest_there = h.saved.manifest_there;
          index_there = h.saved.index_there;
        };
        backed = λ scope i. h.backed scope i;
        complete_snapshot = λ c.
            let (scanned, q, s) = h.complete_snapshot c in
            (
              scanned,
              q,
              record {
                previous = s.previous;
                parent = s.parent;
                entries = s.entries;
                index_there = s.index_there;
                faithful = s.faithful;
                captured = s.captured;
              },
            );
      }
  Holds-unlocked base before (err e, w) h =
      let freed = record w { repo = release write_lock w.repo } in
      record {
        paired = h.paired;
        intact =
            λ scope i. IsIntact-Grows w.repo freed.repo (release-Grows w.repo) (h.intact scope i);
        manifests = record {
          manifest_file = λ id. h.manifests.manifest_file id;
          listed = λ m l. h.manifests.listed m l;
        };
        same_view = h.same_view;
      }

  Holds-under_lock :
      (x : Result (Unit {0})) (d : Disk) (w : World)
      → Grows w.repo d
      → Holds
          (IsGood input w.repo w.calls)
          (IsBad w.repo w.calls)
          (under_lock hash_of opts input (x, d) w)
  Holds-under_lock (Disk.ok _) d w g =
      Holds-unlocked w.repo w.calls (run_locked hash_of opts input (record w { repo = d })) (
        Holds-run_locked w.repo w.calls (record w { repo = d })
          (record { grows = g; so_far = refl }))
  Holds-under_lock (Disk.err e) d w g =
      Grows-IsBad w.repo w.calls (record w { repo = d }) g (inl refl)

  -- Every path out of a run.
  pub Holds-run :
      (w : World)
      → Holds (IsGood input w.repo w.calls) (IsBad w.repo w.calls) (run hash_of opts input w)
  unfolding run
  Holds-run w =
      let bad = Grows-IsBad w.repo w.calls w (Grows-self w.repo) (inl refl) in
      if_cases (Holds (IsGood input w.repo w.calls) (IsBad w.repo w.calls))
        (str_eq opts.instance_name "") (λ _. bad)
        (λ _.
          if_cases (Holds (IsGood input w.repo w.calls) (IsBad w.repo w.calls))
            (str_eq opts.root "") (λ _. bad)
            (λ _.
              Holds-under_lock (lock_write w.repo).0 (lock_write w.repo).1 w
                (lock_write-Grows w.repo)))
