-- ===== src/Backup.antt =====
-- Reading the files of one snapshot (internal/backup/backup.go, with `Put` of
-- internal/repo/objectfs.go as it finds an object stored or stores it). What the file system
-- answers is the environment's choice: for each path and each attempt, what was read and what
-- the stat behind it found. Items of one walk have paths of their own, so this covers every run.

pub mod Run
pub mod Rule
pub mod Settled
pub mod Kept
pub mod Triples
pub mod Outcomes
pub mod Begins
pub mod Ends
pub mod Whole
pub mod Commits
pub mod Phases
pub mod Parent
pub mod Intact
pub mod Counts
pub mod Backed
pub mod Written
pub mod Faithful
pub mod Refines
mod Sorted
pub mod Covered
pub mod Samples
use better_amp_backup.Prelude.{
  ℕ, zero, suc, ◌+◌, Bool, true, false, ◌&&◌, ◌||◌, not, ◌==◌, ltb, any, list_eq, if◌then◌else◌,
  List, [], ◌∷◌, ◌++◌, String, Option, none, some, ℤ, pos, negsuc,
}
use better_amp_backup.Paths.{Text}
use better_amp_backup.Repo.Manifest.{Hash, SnapshotId, Stats}
use better_amp_backup.Repo.Index.{Entry, EntryType, EntryError, Stream, eof, broken, entry}
use better_amp_backup.Repo.Index
use better_amp_backup.Repo.Disk.{
  Disk, ObjectFile, ObjectInfo, object, stray, Action, pure, fail, bad_index, bad_entry, ◌>>=◌,
  ◌>>◌,
}
use better_amp_backup.Repo.Snapshots.{open_index}
use better_amp_backup.Repo.Gc.{has_hash}
use better_amp_backup.Scan.{Item, entry_of, unchanged}

pub data FileError : Type 0 where
  not_exist permission other : FileError

pub data BackupError : Type 0 where
  cancelled : BackupError
  file_failed : Text → FileError → BackupError

-- The content that `Put` read off the file, what it takes on disk, and the time of the write.
pub record Read : Type 0 where
  pub hash : Hash
  pub size : ℕ
  pub stored_size : ℕ
  pub written_at : ℕ

-- The `Close` and the `Lstat` behind a read that is in the store; `lstat_failed` is an error of
-- either.
pub data Restat : Type 0 where
  lstat_failed : FileError → Restat
  lstat : ℕ → ℕ → Restat

-- One round of the loop: `Open` or `Put` failed, or the content is in the store, also where the
-- `Close` behind it fails.
pub data Attempt : Type 0 where
  failed : FileError → Attempt
  stored : Read → Restat → Attempt

pub data Warning : Type 0 where
  vanished denied unsettled : Text → Warning

pub record Env : Type 0 where
  pub is_cancelled : Text → Bool
  pub attempt : Text → ℕ → Attempt
  pub message : Warning → String

pub record PutResult : Type 0 where
  pub hash : Hash
  pub size : ℕ
  pub stored_size : ℕ
  pub new : Bool

-- The state of a run; the maps are lists with one entry for a path.
pub record Runner : Type 0 where
  pub repo : Disk
  pub previous : List Entry
  pub entries : List Entry
  pub stats : Stats
  pub warnings : List String

pub data Stored {ℓ} (A : Type ℓ) : Type ℓ where
  ok : A → Stored A
  err : FileError → Stored A

abbrev pub find_entry : Text → List Entry → Option Entry
find_entry p [] = none
find_entry p (e ∷ es) = if list_eq e.path p then some e else find_entry p es

abbrev pub without_entry : Text → List Entry → List Entry
without_entry p [] = []
without_entry p (e ∷ es) =
    let rest = without_entry p es in if list_eq e.path p then rest else e ∷ rest

-- `m[e.Path] = e`
abbrev pub put_entry : Entry → List Entry → List Entry
put_entry e es = e ∷ without_entry e.path es

abbrev pub record_entry : Entry → Runner → Runner
record_entry e r = record r { entries = put_entry e r.entries }

abbrev pub warn : Env → Warning → Runner → Runner
warn env w r = record r { warnings = r.warnings ++ env.message w ∷ [] }

abbrev pub with_stats : Stats → Runner → Runner
with_stats s r = record r { stats = s }

-- The store has an object with this hash.
unfoldable pub has_object : Hash → List ObjectFile → Bool
unfolding has_hash
has_object h files = any (has_hash h) files

-- `FSObjectStore.Put`, where it succeeds
unfoldable pub put : Read → Disk → PutResult × Disk
unfolding has_object
put rd d =
    if has_object rd.hash d.objects
    then (record { hash = rd.hash; size = rd.size; stored_size = 0; new = false }, d)
    else (
      record { hash = rd.hash; size = rd.size; stored_size = rd.stored_size; new = true },
      record d {
        objects =
            object
              (record { hash = rd.hash; stored_size = rd.stored_size; mod_time = rd.written_at })
            ∷ d.objects;
      },
    )

abbrev pub max_rereads : ℕ
max_rereads = 3

-- `after.Size() == it.Size && after.ModTime().UnixNano() == it.ModTime`
abbrev pub is_stable : Item → ℕ → ℕ → Bool
is_stable it size mod_time = size == it.size && mod_time == it.mod_time

-- r.stats.RereadFiles++
abbrev pub count_reread : Runner → Runner
count_reread r = with_stats (record (r.stats) { reread_files = r.stats.reread_files + 1 }) r

-- `if !stable`, in the last round
abbrev pub note_unsettled : Env → Text → Bool → Runner → Runner
note_unsettled env path true r = r
note_unsettled env path false r = warn env (unsettled path) (count_reread r)

abbrev pub count_object : PutResult → Runner → Runner
count_object res r =
    with_stats
      (if res.new
        then record (r.stats) {
          new_objects = r.stats.new_objects + 1;
          new_bytes = r.stats.new_bytes + res.stored_size;
        }
        else record (r.stats) { reused_objects = r.stats.reused_objects + 1 })
      r

abbrev pub read_entry : Item → PutResult → Entry
read_entry it res = record (entry_of it) { hash = res.hash; size = res.size }

-- the body of `if stable || attempt >= maxRereads-1`
pub finish : Env → Item → Bool → PutResult → Runner → Stored Entry × Runner
unfolding entry_of
finish env it stable res r =
    (ok (read_entry it res), count_object res (note_unsettled env it.path stable r))

-- what a round returns, with the rest of the loop's body as a continuation
pub on_attempt :
    Attempt → Runner → (PutResult → ℕ → ℕ → Runner → Stored Entry × Runner) → Stored Entry × Runner
unfolding put
on_attempt (failed e) r k = (err e, r)
on_attempt (stored rd (lstat_failed e)) r k = (err e, record r { repo = (put rd r.repo).1 })
on_attempt (stored rd (lstat size mod_time)) r k =
    let (res, repo) = put rd r.repo in k res size mod_time (record r { repo = repo })

-- the loop of `storeFile`: the rounds that are left behind this one, and its number
pub read_file : Env → ℕ → ℕ → Item → Runner → Stored Entry × Runner
unfolding on_attempt finish
read_file env zero n it r =
    on_attempt (env.attempt it.path n) r
      (λ res size mod_time r'. finish env it (is_stable it size mod_time) res r')
read_file env (suc left) n it r = on_attempt (env.attempt it.path n) r (λ res size mod_time r'.
    let again =
      read_file env left (suc n) (record it { size = size; mod_time = mod_time })
        (count_reread r') in
    if is_stable it size mod_time then finish env it true res r' else again)

abbrev pub vouched : Item → Entry → Entry
vouched it prev = record (entry_of it) { hash = prev.hash }

abbrev pub count_unchanged : Runner → Runner
count_unchanged r =
    with_stats (record (r.stats) { unchanged_files = r.stats.unchanged_files + 1 }) r

abbrev vouches : Bool → Option Entry → Item → Bool
vouches true prev it = false
vouches false none it = false
vouches false (some prev) it = unchanged prev it

-- the test before the loop: the entry of the previous snapshot that stands for this file
pub voucher : Bool → List Entry → Item → Option Entry
unfolding unchanged
voucher paranoid previous it =
    let prev = find_entry it.path previous in if vouches paranoid prev it then prev else none

pub store_or_read : Env → Item → Option Entry → Runner → Stored Entry × Runner
unfolding read_file entry_of
store_or_read env it (some prev) r = (ok (vouched it prev), count_unchanged r)
store_or_read env it none r = read_file env 2 0 it r

-- `storeFile`
pub store_file : Env → Bool → Item → Runner → Stored Entry × Runner
unfolding store_or_read voucher
store_file env paranoid it r = store_or_read env it (voucher paranoid r.previous it) r

-- what `process` does with the result of `storeFile`; `none` is a nil error
pub take_stored : Env → Item → Stored Entry × Runner → Option BackupError × Runner
take_stored env it (err not_exist, r) = (none, warn env (vanished it.path) r)
take_stored env it (err permission, r) = (none, warn env (denied it.path) r)
take_stored env it (err other, r) = (some (file_failed it.path other), r)
take_stored env it (ok e, r) = (
  none,
  record_entry e (
      with_stats
        (record (r.stats) { files = r.stats.files + 1; total_bytes = r.stats.total_bytes + e.size })
        r),
)

abbrev pub count_dir : Runner → Runner
count_dir r = with_stats (record (r.stats) { dirs = r.stats.dirs + 1 }) r

abbrev pub count_symlink : Runner → Runner
count_symlink r = with_stats (record (r.stats) { symlinks = r.stats.symlinks + 1 }) r

pub process_kind : Env → Bool → Item → EntryType → Runner → Option BackupError × Runner
unfolding store_file take_stored entry_of
process_kind env paranoid it EntryType.dir r = (none, record_entry (entry_of it) (count_dir r))
process_kind env paranoid it EntryType.symlink r =
    (none, record_entry (entry_of it) (count_symlink r))
process_kind env paranoid it EntryType.file r = take_stored env it (store_file env paranoid it r)
process_kind env paranoid it (EntryType.other t) r =
    take_stored env it (store_file env paranoid it r)

-- the body of the loop of `process`
pub process_item : Env → Bool → Item → Runner → Option BackupError × Runner
unfolding process_kind
process_item env paranoid it r =
    if env.is_cancelled it.path then (some cancelled, r) else process_kind env paranoid it it.kind r

abbrev pub unless_failed :
    Option BackupError × Runner
    → (Runner → Option BackupError × Runner)
    → Option BackupError × Runner
unless_failed (some x, r) k = (some x, r)
unless_failed (none, r) k = k r

-- `process`; `none` is a nil error
unfoldable pub process : Env → Bool → List Item → Runner → Option BackupError × Runner
unfolding process_item
process env paranoid [] r = (none, r)
process env paranoid (it ∷ items) r =
    unless_failed (process_item env paranoid it r) (λ r'. process env paranoid items r')

pub add_previous : Entry → Option EntryError → Action (List Entry) → Action (List Entry)
add_previous e (some x) rest = fail (bad_entry x)
add_previous e none rest = rest

-- the loop of `loadParentIndex`
pub read_previous : Stream → List Entry → Action (List Entry)
unfolding add_previous Index.validate
read_previous eof es = pure es
read_previous broken es = fail bad_index
read_previous (entry e s) es = add_previous e (Index.validate e) (read_previous s (put_entry e es))

-- `loadParentIndex`
unfoldable pub load_parent_index : SnapshotId → Action (List Entry)
unfolding read_previous open_index
load_parent_index [] = pure []
load_parent_index (c ∷ cs) = do s ← open_index (c ∷ cs); read_previous s []

-- `applyDefaults` of the reserve
abbrev pub effective_reserve : ℤ → ℕ
effective_reserve (pos zero) = 2147483648
effective_reserve (pos (suc n)) = suc n
effective_reserve (negsuc n) = 0

abbrev pub is_file : EntryType → Bool
is_file EntryType.file = true
is_file t = false

abbrev is_none : Option Entry → Bool
is_none none = true
is_none (some e) = false

-- the loop of `checkSpace`
pub needed_bytes : Bool → List Entry → List Item → ℕ
unfolding voucher
needed_bytes paranoid previous [] = 0
needed_bytes paranoid previous (it ∷ items) =
    (if is_file it.kind && is_none (voucher paranoid previous it) then it.size else 0)
    + needed_bytes paranoid previous items

-- the last test of `checkSpace`: whether so many available bytes are enough; the sum is of natural
-- numbers and does not wrap
pub has_space : Bool → List Entry → List Item → ℕ → ℕ → Bool
unfolding needed_bytes
has_space paranoid previous items reserve available =
    not (ltb available (needed_bytes paranoid previous items + reserve))
