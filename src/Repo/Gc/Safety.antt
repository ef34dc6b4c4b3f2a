-- ===== src/Repo/Gc/Safety.antt =====
-- `Prune` of internal/repo/gc.go deletes no object that a snapshot needs and none that is recent,
-- however it ends.
use better_amp_backup.Prelude.{
  ◌+◌, ◌<◌, Bool, true, false, ◌&&◌, not, if◌then◌else◌, List, ◌++◌, In, Bool-cases, ◌≡◌, refl, sym,
  ◌⊎◌, lt→ltb, ap, ◌∙◌, subst, inl, inr, list_eq, list_eq→eq,
}
use better_amp_backup.Repo.Manifest.{Hash}
use better_amp_backup.Repo.Disk.{
  Disk, ObjectInfo, ObjectFile, object, Result, ok, err, Action, find, pure, ◌>>=◌,
}
use better_amp_backup.Repo.Disk.Keeps.{
  SameFiles-preorder, Keeps-pure, Keeps-if, Keeps-result, bind_cases,
}
use better_amp_backup.Repo.Lock.{gc_lock, release}
use better_amp_backup.Repo.Lock.Rules.{IsLocked, with_lock_cases}
use better_amp_backup.Repo.Snapshots.{index_ext}
use better_amp_backup.Repo.Snapshots.Results.{manifest_at}
use better_amp_backup.Repo.Trash.{trash_dir, empty_trash}
use better_amp_backup.Repo.Gc.{
  PruneOptions, PruneReport, Marked, grace_of, is_referenced, is_recent, mark, has_hash, sweep,
  prune_locked, prune,
}
use better_amp_backup.Repo.Gc.Reads.{Keeps-mark}
use better_amp_backup.Repo.Gc.Needed.{IsLive, IsTrashed, mark-finds_live, mark-finds_trashed}
use better_amp_backup.Repo.Gc.Sweeping.{
  KeepsFile, KeepsFile-preorder, KeepsFile-same, IsDoomed, Misses, sweep-KeepsFile,
}
use better_amp_backup.Repo.Trash.Leaves.{SameLive, SameLive-preorder, SameLive-empty_trash}

-- What the sweep must leave alone: what is referenced, and what is recent and alone with its hash.
abbrev Safe : PruneOptions → List Hash → List ObjectFile → ObjectInfo → Type 0
Safe opts refs files info =
    (is_referenced refs info.hash ≡ true)
    ⊎ ((is_recent opts info ≡ true)
        × ((x : ObjectInfo) → In (object x) files → x.hash ≡ info.hash → x ≡ info))

true≢false : {b : Bool} → true ≡ false → b ≡ false
true≢false e = cc

Safe-Misses :
    (opts : PruneOptions) (refs : List Hash) (files : List ObjectFile) (info x : ObjectInfo)
    → Safe opts refs files info
    → IsDoomed opts refs files x
    → Misses (object info) x
unfolding has_hash
Safe-Misses opts refs files info x safe doomed = elim (Bool-cases (list_eq info.hash x.hash)) [
  | inl same ↦
      let e = list_eq→eq info.hash x.hash same in
      elim safe [
        | inl referenced ↦
            true≢false (sym referenced ∙ ap (is_referenced refs) e ∙ doomed.unreferenced)
        | inr (recent, alone) ↦
            true≢false
              (sym recent ∙ ap (is_recent opts) (sym (alone x doomed.found (sym e))) ∙ doomed.old)
      ]
  | inr other ↦ other
]

-- The disk that the mark phase begins with: only the trash may have been emptied.
record IsBegun (opts : PruneOptions) (d e : Disk) : Type 0 where
  live : SameLive d e
  trash : opts.empty_trash ≡ false → e.trash ≡ d.trash

begin-IsBegun :
    (opts : PruneOptions) (d : Disk)
    → IsBegun opts d ((if opts.empty_trash && not opts.dry_run then empty_trash else pure tt) d).1
unfolding pure
begin-IsBegun opts d = record {
  live =
      (Keeps-if (opts.empty_trash && not opts.dry_run) empty_trash (pure tt) SameLive-empty_trash
          (Keeps-pure tt)).at
        d;
  trash = λ kept. rw kept refl;
}

module _ (opts : PruneOptions) (info : ObjectInfo) where
  abbrev Spares : Disk → Action PruneReport → Type 0
  Spares d body = KeepsFile (object info) d (body d).1

  marked_sweep-KeepsFile :
      (d : Disk)
      → ((mk : Marked) (e : Disk)
          → mark opts d ≡ (ok mk, e)
          → Safe opts mk.referenced d.objects info)
      → Spares d (mark opts >>= sweep opts)
  marked_sweep-KeepsFile d safe =
      bind_cases (λ r. KeepsFile (object info) d r.1) (mark opts) (sweep opts) d
        (λ mk e q.
          let same = Keeps-result (Keeps-mark opts) d e (ok mk) q in
          let swept = sweep-KeepsFile opts mk (object info) e (λ x doomed.
            Safe-Misses opts mk.referenced d.objects info x (safe mk e q)
              (subst (λ fs. IsDoomed opts mk.referenced fs x) same.objects doomed)) in
          record { keep = λ h. swept.keep (subst (In (object info)) (sym same.objects) h) })
        (λ x e q. KeepsFile-same (object info) d e (Keeps-result (Keeps-mark opts) d e (err x) q))

  -- What the mark phase finds decides, whatever the first step has done to the trash.
  prune_locked-KeepsFile :
      (d : Disk)
      → ((e : Disk) (mk : Marked) (e' : Disk)
          → IsBegun opts d e
          → mark opts e ≡ (ok mk, e')
          → Safe opts mk.referenced e.objects info)
      → Spares d (prune_locked opts)
  unfolding prune_locked
  prune_locked-KeepsFile d safe =
      let first = if opts.empty_trash && not opts.dry_run then empty_trash else pure tt in
      bind_cases (λ r. KeepsFile (object info) d r.1) first (λ _. mark opts >>= sweep opts) d
        (λ _ e q.
          let begun =
            subst (λ (x : Result (Unit {0}) × Disk). IsBegun opts d x.1) q (begin-IsBegun opts d) in
          let swept = marked_sweep-KeepsFile e (λ mk e' q'. safe e mk e' begun q') in
          record { keep = λ h. swept.keep (subst (In (object info)) (sym begun.live.objects) h) })
        (λ x e q.
          let begun =
            subst (λ (r : Result (Unit {0}) × Disk). IsBegun opts d r.1) q (begin-IsBegun opts d) in
          record { keep = λ h. subst (In (object info)) (sym begun.live.objects) h })

  -- `Prune` takes and gives back its lock around that.
  prune-KeepsFile :
      (d : Disk)
      → ((b e : Disk) (mk : Marked) (e' : Disk)
          → IsLocked gc_lock true d b
          → IsBegun opts b e
          → mark opts e ≡ (ok mk, e')
          → Safe opts mk.referenced e.objects info)
      → Spares d (prune opts)
  unfolding prune release
  prune-KeepsFile d safe =
      with_lock_cases (λ r. KeepsFile (object info) d r.1) gc_lock true (prune_locked opts) d
        (λ x e same. KeepsFile-same (object info) d e same)
        (λ b locked.
          let swept = prune_locked-KeepsFile b (λ e mk e' begun q. safe b e mk e' locked begun q) in
          record { keep = λ h. swept.keep (subst (In (object info)) (sym locked.objects) h) })

-- `IsLive` looks at the live snapshots only, `IsTrashed` at the trash only.
IsLive-same : (d e : Disk) (h : Hash) → e.snapshots ≡ d.snapshots → IsLive d h → IsLive e h
IsLive-same d e h same l = record {
  name = l.name;
  snapshot = l.snapshot;
  version = l.version;
  stream = l.stream;
  named = l.named;
  listed = subst (In (manifest_at l.name l.snapshot)) (sym same) l.listed;
  indexed = ap (find (l.snapshot.id ++ index_ext)) same ∙ l.indexed;
  holds = l.holds;
}

IsTrashed-same : (d e : Disk) (h : Hash) → e.trash ≡ d.trash → IsTrashed d h → IsTrashed e h
IsTrashed-same d e h same l = record {
  id = l.id;
  version = l.version;
  stream = l.stream;
  valid = l.valid;
  indexed = ap (λ t. find (l.id ++ index_ext) (trash_dir t)) same ∙ l.indexed;
  holds = l.holds;
}

-- `Prune` deletes no object that a live snapshot refers to, whatever its options are and whether it
-- returns a report or stops with an error half-way.
pub prune_keeps_live :
    (opts : PruneOptions) (d : Disk) (info : ObjectInfo)
    → In (object info) d.objects
    → IsLive d info.hash
    → In (object info) (prune opts d).1.objects
prune_keeps_live opts d info there live =
    (prune-KeepsFile opts info d (λ b e mk e' locked begun q. inl (
        mark-finds_live opts info.hash e e' mk q
          (IsLive-same d e info.hash (begun.live.snapshots ∙ locked.snapshots) live)))).keep
      there

-- Unless the trash is to be emptied, `Prune` deletes no object that a forgotten snapshot in the
-- trash refers to, whether it returns a report or stops with an error.
pub prune_keeps_trashed :
    (opts : PruneOptions) (d : Disk) (info : ObjectInfo)
    → In (object info) d.objects
    → opts.empty_trash ≡ false
    → IsTrashed d info.hash
    → In (object info) (prune opts d).1.objects
prune_keeps_trashed opts d info there kept trashed =
    (prune-KeepsFile opts info d (λ b e mk e' locked begun q. inl (
        mark-finds_trashed opts info.hash e e' mk q kept
          (IsTrashed-same d e info.hash (begun.trash kept ∙ locked.trash) trashed)))).keep
      there

-- `Prune` deletes no object that was written within the grace period before `Now` (one hour where
-- the options give none), where each hash has one object file.
pub prune_keeps_recent :
    (opts : PruneOptions) (d : Disk) (info : ObjectInfo)
    → In (object info) d.objects
    → opts.now < info.mod_time + grace_of opts.grace_period
    → ((x : ObjectInfo) → In (object x) d.objects → x.hash ≡ info.hash → x ≡ info)
    → In (object info) (prune opts d).1.objects
unfolding is_recent
prune_keeps_recent opts d info there recent alone =
    (prune-KeepsFile opts info d (λ b e mk e' locked begun q. inr (
      lt→ltb _ _ recent,
      λ x i. alone x (subst (In (object x)) (begun.live.objects ∙ locked.objects) i),
    ))).keep
      there
