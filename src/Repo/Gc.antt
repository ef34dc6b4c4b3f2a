-- ===== src/Repo/Gc.antt =====
-- Deleting the objects that no snapshot needs: `Prune` of internal/repo/gc.go, with the object
-- store's `List` and `Delete` (internal/repo/objectfs.go).
pub mod Reads
pub mod Marking
pub mod Needed
mod Sweeping
pub mod Safety
mod DryRun
pub mod Untouched
mod Samples
use better_amp_backup.Prelude.{
  list_eq, ℕ, zero, suc, ◌+◌, Bool, true, false, ◌&&◌, ◌||◌, not, ◌==◌, ltb, leb, if◌then◌else◌,
  List, [], ◌∷◌, ◌++◌, length, Option, none, some, codes, ℤ, pos, negsuc, drop, ◌-◌, take, any,
}
use better_amp_backup.Clock.{Instant, Duration}
use better_amp_backup.Paths.{Text, has_suffix}
use better_amp_backup.Repo.Manifest.{Hash, Manifest, SnapshotId, valid_snapshot_id, is_zero}
use better_amp_backup.Repo.Index.{Entry, EntryType, file, Stream, eof, broken, entry, validate}
use better_amp_backup.Repo.Disk.{
  Content, Dir, Disk, ObjectInfo, ObjectFile, object, stray, LockHeld, Action, Result, ok, err,
  RepoError, not_in_trash, io_error, lock_held, bad_index, bad_entry, malformed_id, pure, fail,
  gets, modify, ◌>>=◌, ◌>>◌, may_fail, find, without, put,
}
use better_amp_backup.Repo.Lock.{with_lock, gc_lock}
use better_amp_backup.Repo.Trash.{trash_dir, empty_trash, list_trashed_ids}
use better_amp_backup.Repo.Snapshots.{index_ext, list_snapshots, open_index, open_found}

pub record PruneOptions : Type 0 where
  pub dry_run : Bool
  pub grace_period : Duration
  pub empty_trash : Bool
  pub now : Instant

pub record PruneReport : Type 0 where
  pub live_snapshots : ℕ
  pub trashed_snapshots : ℕ
  pub referenced_objects : ℕ
  pub total_objects : ℕ
  pub deleted_objects : ℕ
  pub freed_bytes : ℕ
  pub spared_recent : ℕ
  pub dry_run : Bool

-- One hour, in nanoseconds.
abbrev pub default_grace_period : ℕ
default_grace_period = 3600000000000

abbrev pub grace_of : Duration → ℕ
grace_of (pos zero) = default_grace_period
grace_of (pos (suc n)) = suc n
grace_of (negsuc n) = default_grace_period

-- `_, ok := referenced[h]`
pub is_referenced : List Hash → Hash → Bool
is_referenced refs h = any (λ r. list_eq r h) refs

-- `referenced[h] = struct{}{}`
pub add_reference : Hash → List Hash → List Hash
unfolding is_referenced
add_reference h refs = if is_referenced refs h then refs else h ∷ refs

pub is_file : EntryType → Bool
is_file EntryType.file = true
is_file t = false

-- what the loop of `markFrom` does with an entry
pub mark_entry : Entry → List Hash → List Hash
unfolding add_reference is_file is_zero
mark_entry e refs =
    if is_file e.kind && not (is_zero e.hash) then add_reference e.hash refs else refs

-- the loop of `markFrom`, with `IndexReader.Next`
pub mark_stream : Stream → List Hash → Result (List Hash)
unfolding mark_entry validate
mark_stream eof refs = ok refs
mark_stream broken refs = err bad_index
mark_stream (entry e s) refs = elim (validate e) [
  | none ↦ mark_stream s (mark_entry e refs)
  | some x ↦ err (bad_entry x)
]

pub lift : {A : Type 0} → Result A → Action A
lift r d = (r, d)

-- the live snapshots, each after a look at the context
pub mark_live : List Manifest → List Hash → Action (List Hash)
unfolding mark_stream lift open_index
mark_live [] refs = pure refs
mark_live (m ∷ ms) refs = do
  may_fail io_error
  s ← open_index m.id
  refs' ← lift (mark_stream s refs)
  mark_live ms refs'

-- the forgotten snapshots
pub mark_trashed : List SnapshotId → List Hash → Action (List Hash)
unfolding mark_stream lift open_found
mark_trashed [] refs = pure refs
mark_trashed (id ∷ ids) refs = do
  found ← gets (λ d. find (id ++ index_ext) (trash_dir d.trash))
  s ← open_found found
  refs' ← lift (mark_stream s refs)
  mark_trashed ids refs'

-- What the walk over the objects has found so far.
pub record Sweep : Type 0 where
  pub total : ℕ
  pub spared : ℕ
  pub doomed : List ObjectInfo

abbrev pub no_sweep : Sweep
no_sweep = record { total = 0; spared = 0; doomed = [] }

-- `info.ModTime > cutoff`, where `cutoff` is `Now` less the grace period
pub is_recent : PruneOptions → ObjectInfo → Bool
is_recent opts info = ltb opts.now (info.mod_time + grace_of opts.grace_period)

-- the function that `Prune` gives to `List`
pub visit_object : PruneOptions → List Hash → Sweep → ObjectInfo → Sweep
unfolding is_referenced is_recent
visit_object opts refs sw info =
    if is_referenced refs info.hash
    then record sw { total = sw.total + 1 }
    else if is_recent opts info
    then record sw { total = sw.total + 1; spared = sw.spared + 1 }
    else record sw { total = sw.total + 1; doomed = sw.doomed ++ info ∷ [] }

pub visit_file : PruneOptions → List Hash → Sweep → ObjectFile → Sweep
unfolding visit_object
visit_file opts refs sw (object info) = visit_object opts refs sw info
visit_file opts refs sw (stray name) = sw

-- `FSObjectStore.List`
pub walk : PruneOptions → List Hash → List ObjectFile → Sweep → Action Sweep
unfolding visit_file
walk opts refs [] sw = pure sw
walk opts refs (f ∷ files) sw = do
  may_fail io_error
  walk opts refs files (visit_file opts refs sw f)

unfoldable pub has_hash : Hash → ObjectFile → Bool
has_hash h (object info) = list_eq info.hash h
has_hash h (stray name) = false

pub without_object : Hash → List ObjectFile → List ObjectFile
unfolding has_hash
without_object h [] = []
without_object h (f ∷ files) =
    let rest = without_object h files in if has_hash h f then rest else f ∷ rest

-- `FSObjectStore.Delete`
pub delete_object : Hash → Action (Unit {0})
unfolding without_object
delete_object h = do
  may_fail io_error
  modify (λ d. record d { objects = without_object h d.objects })

abbrev pub counted : ObjectInfo → PruneReport → PruneReport
counted info rep = record rep {
  deleted_objects = rep.deleted_objects + 1;
  freed_bytes = rep.freed_bytes + info.stored_size;
}

pub delete_each : Bool → List ObjectInfo → PruneReport → Action PruneReport
unfolding delete_object
delete_each dry [] rep = pure rep
delete_each dry (info ∷ infos) rep = do
  may_fail io_error
  if dry then pure tt else delete_object info.hash
  delete_each dry infos (counted info rep)

-- What the mark phase found: the references, and how many snapshots there are.
pub record Marked : Type 0 where
  pub live : ℕ
  pub trashed : ℕ
  pub referenced : List Hash

-- `if !opts.EmptyTrash`
pub mark_forgotten : Bool → List SnapshotId → List Hash → Action (List Hash)
unfolding mark_trashed
mark_forgotten true ids refs = pure refs
mark_forgotten false ids refs = mark_trashed ids refs

pub mark : PruneOptions → Action Marked
unfolding mark_live mark_forgotten list_snapshots list_trashed_ids
mark opts = do
  live ← list_snapshots
  trashed ← list_trashed_ids
  refs ← mark_live live []
  refs' ← mark_forgotten opts.empty_trash trashed refs
  pure (record { live = length live; trashed = length trashed; referenced = refs' })

pub report_of : PruneOptions → Marked → Sweep → PruneReport
report_of opts marked sw = record {
  live_snapshots = marked.live;
  trashed_snapshots = marked.trashed;
  referenced_objects = length marked.referenced;
  total_objects = sw.total;
  deleted_objects = 0;
  freed_bytes = 0;
  spared_recent = sw.spared;
  dry_run = opts.dry_run;
}

pub sweep : PruneOptions → Marked → Action PruneReport
unfolding walk delete_each report_of
sweep opts marked = do
  files ← gets (λ d. d.objects)
  sw ← walk opts marked.referenced files no_sweep
  delete_each opts.dry_run sw.doomed (report_of opts marked sw)

-- `Prune` behind its lock
pub prune_locked : PruneOptions → Action PruneReport
unfolding mark sweep empty_trash
prune_locked opts = do
  if opts.empty_trash && not opts.dry_run then empty_trash else pure tt
  marked ← mark opts
  sweep opts marked

-- `Prune`
unfoldable pub prune : PruneOptions → Action PruneReport
unfolding prune_locked
prune opts = with_lock gc_lock true (prune_locked opts)
