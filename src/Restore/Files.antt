-- ===== src/Restore/Files.antt =====
-- The directories, links, files and times that a restore writes (`writeSymlink`, `writeFile`,
-- `applyTimes` and the loops of `Run` of internal/restore/restore.go).
use better_amp_backup.Prelude.{
  ℕ, ◌+◌, ◌%◌, Bool, true, false, ◌&&◌, ◌||◌, not, ◌==◌, if◌then◌else◌, List, [], ◌∷◌, ◌++◌, length,
  reverse, list_eq, Option, none, some,
}
use better_amp_backup.Paths.{Text, slash, clean, has_prefix}
use better_amp_backup.Repo.Manifest.{is_zero}
use better_amp_backup.Repo.Index.{Entry, EntryType}
use better_amp_backup.Backup.Run.{sort_by_path}
use better_amp_backup.Restore.Selection.{path_dir}
use better_amp_backup.Restore.Calls.{
  Bytes, Answer, link, place, Surroundings, Warning, times_refused, Report, State, Outcome, ok, err,
  Step, return, raise, or_raise, ◌>>=◌, ◌>>◌, rest, call, must, check, guard, done, missing,
  refused, broken_down, make_parent, create_temp, remove_temp, remove, make_dir, write_empty,
  set_mode, set_time, escapes, no_hash, no_object, corrupted, wrong_size, os_failed, cancelled,
}

-- `filepath.Join(target, rel)`
abbrev pub joined : Text → Text → Text
joined target rel = clean (target ++ slash ∷ rel)

-- `Mode.Perm()`
abbrev pub perm : ℕ → ℕ
perm mode = mode % 512

-- `Mode.Perm() | 0o700`
abbrev pub perm_with_owner : ℕ → ℕ
perm_with_owner mode = 448 + mode % 64

-- `safeJoin`
unfoldable pub safe_join : Text → Text → Option Text
unfolding clean has_prefix
safe_join target rel =
    let dst = joined target rel in
    if not (list_eq dst (clean target)) && not (has_prefix dst (clean target ++ slash ∷ []))
    then none
    else some dst

-- `countEntry`
abbrev pub count_kind : EntryType → ℕ → Report → Report
count_kind EntryType.dir n rep = record rep { dirs = rep.dirs + 1 }
count_kind EntryType.symlink n rep = record rep { symlinks = rep.symlinks + 1 }
count_kind EntryType.file n rep = record rep { files = rep.files + 1; bytes = rep.bytes + n }
count_kind (EntryType.other t) n rep = rep

unfoldable pub count_all : List Entry → Report → Report
count_all [] rep = rep
count_all (e ∷ es) rep = count_all es (count_kind e.kind e.size rep)

-- `writeSymlink`, once the path is resolved; an answer `missing` to the removal is fine
abbrev pub replaced : Answer → Step (Unit {0})
replaced done = return tt
replaced missing = return tt
replaced a = raise os_failed

unfoldable pub write_symlink : Text → Entry → Step (Unit {0})
unfolding safe_join path_dir must call
write_symlink target e = do
  dst ← or_raise escapes (safe_join target e.path)
  must (make_parent (path_dir dst))
  a ← call (remove dst)
  replaced a
  must (link e.target dst)

-- a step whose error is returned after the temporary file is removed
abbrev pub after_error : {A : Type 0} → Text → Outcome A × State → Outcome A × State
after_error dir (ok a, s) = (ok a, s)
after_error dir (err e, s) =
    (err e, record s { answers = rest s.answers; calls = s.calls ++ remove_temp dir ∷ [] })

abbrev pub or_clean_up : {A : Type 0} → Text → Step A → Step A
or_clean_up dir m s = after_error dir (m s)

-- from the copy to the rename
unfoldable pub fill_temp : Surroundings → Text → Entry → Bytes → Step ℕ
unfolding path_dir must call check
fill_temp env dst e bytes = do
  check os_failed
  check os_failed
  guard (list_eq (env.sum bytes) e.hash) corrupted
  guard (length bytes == e.size) wrong_size
  must (set_mode (path_dir dst) (perm e.mode))
  must (place dst bytes)
  return (length bytes)

-- an empty file has no object behind it
unfoldable pub write_empty_file : Text → Entry → Step ℕ
unfolding must call
write_empty_file dst e = do
  guard (e.size == 0) no_hash
  must (write_empty dst (perm e.mode))
  return 0

unfoldable pub write_content : Surroundings → Text → Entry → Step ℕ
unfolding fill_temp path_dir must call
write_content env dst e = do
  bytes ← or_raise no_object (env.content e.hash)
  must (create_temp (path_dir dst))
  or_clean_up (path_dir dst) (fill_temp env dst e bytes)

-- `writeFile`
unfoldable pub write_file : Surroundings → Text → Entry → Step ℕ
unfolding safe_join path_dir must write_empty_file write_content is_zero
write_file env target e = do
  dst ← or_raise escapes (safe_join target e.path)
  must (make_parent (path_dir dst))
  if is_zero e.hash then write_empty_file dst e else write_content env dst e

-- the body of the loop over the directories
unfoldable pub make_entry_dir : Text → Entry → EntryType → Report → Step Report
unfolding safe_join must
make_entry_dir target e EntryType.dir rep = do
  dst ← or_raise escapes (safe_join target e.path)
  must (make_dir dst (perm_with_owner e.mode))
  return (record rep { dirs = rep.dirs + 1 })
make_entry_dir target e k rep = return rep

unfoldable pub make_dirs : Text → List Entry → Report → Step Report
unfolding make_entry_dir
make_dirs target [] rep = return rep
make_dirs target (e ∷ es) rep =
    make_entry_dir target e e.kind rep >>= λ rep'. make_dirs target es rep'

-- the `switch` of the second loop
unfoldable pub restore_entry : Surroundings → Text → Entry → EntryType → Report → Step Report
unfolding write_symlink write_file
restore_entry env target e EntryType.symlink rep = do
  write_symlink target e
  return (record rep { symlinks = rep.symlinks + 1 })
restore_entry env target e EntryType.file rep = do
  n ← write_file env target e
  return (record rep { files = rep.files + 1; verified = rep.verified + 1; bytes = rep.bytes + n })
restore_entry env target e k rep = return rep

unfoldable pub restore_entries : Surroundings → Text → List Entry → Report → Step Report
unfolding restore_entry check
restore_entries env target [] rep = return rep
restore_entries env target (e ∷ es) rep =
    (check cancelled >> restore_entry env target e e.kind rep) >>= λ rep'.
    restore_entries env target es rep'

-- what `applyTimes` makes of an answer: the refused paths are collected
unfoldable pub timed : Text → List Text → Answer → Step (List Text)
timed path refusals done = return refusals
timed path refusals missing = return refusals
timed path refusals refused = return (refusals ++ path ∷ [])
timed path refusals broken_down = raise os_failed

abbrev pub is_symlink : EntryType → Bool
is_symlink EntryType.symlink = true
is_symlink t = false

unfoldable pub set_times : Text → List Entry → List Text → Step (List Text)
unfolding safe_join call timed
set_times target [] refusals = return refusals
set_times target (e ∷ es) refusals =
    (if e.mod_time == 0 || is_symlink e.kind
      then return refusals
      else or_raise escapes (safe_join target e.path) >>= λ dst.
          call (set_time dst e.mod_time) >>= timed e.path refusals)
    >>= λ refusals'. set_times target es refusals'

abbrev pub refusal_warnings : List Text → List Warning
refusal_warnings [] = []
refusal_warnings (p ∷ ps) = times_refused (p ∷ ps) ∷ []

-- `applyTimes`, where times are restored
unfoldable pub apply_times : Bool → Text → List Entry → Step (List Warning)
unfolding set_times sort_by_path
apply_times false target entries = return []
apply_times true target entries =
    set_times target (reverse (sort_by_path entries)) [] >>= λ ps. return (refusal_warnings ps)
