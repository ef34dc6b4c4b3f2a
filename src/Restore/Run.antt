-- ===== src/Restore/Run.antt =====
-- `Run` of internal/restore/restore.go, with `collect` and `checkTarget`.
mod Counts
mod Makes
mod Beside
mod Allowed
mod Whole
mod Samples
mod Dry
mod Saved
use better_amp_backup.Prelude.{
  Bool, true, false, ◌&&◌, ◌||◌, not, ◌==◌, if◌then◌else◌, List, [], ◌∷◌, ◌++◌, length, list_eq,
  Option, none, some,
}
use better_amp_backup.Paths.{Text}
use better_amp_backup.Repo.Manifest.{Manifest, partial, restorable}
use better_amp_backup.Repo.Index.{Entry, EntryError, Stream, eof, broken, entry}
use better_amp_backup.Repo.Index
use better_amp_backup.Repo.Disk.{bad_index, bad_entry}
use better_amp_backup.Repo.Disk
use better_amp_backup.Repo.Snapshots.{load_manifest, open_index}
use better_amp_backup.Backup.Run.{sort_by_path}
use better_amp_backup.Restore.Selection.{Selection, Checked, new_selection, keep, unmatched}
use better_amp_backup.Restore.Selection
use better_amp_backup.Restore.Calls.{
  TargetDir, holds, Surroundings, Options, Warning, partial_source, Report, RestoreError,
  bad_selection, repo_failed, not_matched, ok, err, Step, return, raise, or_raise, lift, ◌>>=◌,
  ◌>>◌, must, guard, make_dir, absent, unreadable, no_target, both_filters, not_restorable,
  bad_target, not_empty, os_failed,
}
use better_amp_backup.Restore.Files.{count_all, make_dirs, restore_entries, apply_times}

-- What is known once the index is read.
pub record Plan : Type 0 where
  pub target : Text
  pub entries : List Entry
  pub warnings : List Warning

abbrev pub new_report : Bool → Plan → Report
new_report dry p = record {
  files = 0;
  dirs = 0;
  symlinks = 0;
  bytes = 0;
  verified = 0;
  dry_run = dry;
  warnings = p.warnings;
}

-- `Run`, behind the dry run
unfoldable pub write_out : Surroundings → Bool → Plan → Step Report
unfolding must make_dirs restore_entries apply_times
write_out env times p = do
  must (make_dir p.target 493)
  rep ← make_dirs p.target p.entries (new_report false p)
  rep' ← restore_entries env p.target p.entries rep
  ws ← apply_times times p.target p.entries
  return (record rep' { warnings = rep'.warnings ++ ws })

-- `checkTarget`; `none` is a nil error
abbrev target_error : TargetDir → Option RestoreError
target_error absent = none
target_error unreadable = some os_failed
target_error (holds n) = if n == 0 then none else some not_empty

abbrev pub check_target : Surroundings → Options → Option RestoreError
check_target env opts = if opts.dry_run || opts.overwrite then none else target_error env.target_dir

abbrev pub passes : Option (Text → Bool) → Text → Bool
passes none p = true
passes (some f) p = f p

abbrev pub keeps : Option Selection → Entry → Bool × Option Selection
keeps none e = (true, none)
keeps (some sel) e = let (wanted, sel') = keep sel e in (wanted, some sel')

abbrev pub add_if : Entry → Bool → List Entry × Option Selection → List Entry × Option Selection
add_if e true (es, sel) = (e ∷ es, sel)
add_if e false (es, sel) = (es, sel)

pub collect_valid :
    Option EntryError → Step (List Entry × Option Selection) → Step (List Entry × Option Selection)
collect_valid (some x) more = raise (repo_failed (bad_entry x))
collect_valid none more = more

-- the loop of `collect`: the entries and the selection after them
unfoldable pub collect_from :
    Option (Text → Bool) → Option Selection → Stream → Step (List Entry × Option Selection)
unfolding keep collect_valid Index.validate
collect_from includes sel eof = return ([], sel)
collect_from includes sel broken = raise (repo_failed bad_index)
collect_from includes sel (entry e s) =
    let (wanted, sel') = keeps sel e in
    let skipped = collect_from includes sel s in
    let taken = collect_from includes sel' s in
    collect_valid (Index.validate e)
      (if passes includes e.path then (taken >>= λ r. return (add_if e wanted r)) else skipped)

pub unmatched_error : Option Selection → Option RestoreError
unfolding unmatched
unmatched_error none = none
unmatched_error (some sel) = elim (unmatched sel) [
  | [] ↦ none
  | p ∷ ps ↦ some (not_matched (p ∷ ps))
]

abbrev pub of_checked : Checked (Option Selection) → Step (Option Selection)
of_checked (Selection.ok sel) s = (ok sel, s)
of_checked (Selection.err e) s = (err (bad_selection e), s)

abbrev pub unless_error : Option RestoreError → Step (Unit {0})
unless_error none = return tt
unless_error (some e) = raise e

abbrev is_filter : Option (Text → Bool) → Bool
is_filter none = false
is_filter (some f) = true

abbrev is_empty : List Text → Bool
is_empty [] = true
is_empty (p ∷ ps) = false

abbrev pub source_warnings : Manifest → List Warning
source_warnings m = elim m.state [ partial ↦ partial_source (length m.warnings) ∷ [] | _ ↦ [] ]

-- `Run`, as far as a dry run goes, with the result of `checkTarget`
unfoldable pub plan : Surroundings → Options → Option RestoreError → Step Plan
unfolding new_selection load_manifest restorable open_index collect_from unmatched_error lift
    sort_by_path
plan env opts target_result = do
  guard (not (list_eq opts.target [])) no_target
  guard (not (is_filter opts.includes && not (is_empty opts.include_paths))) both_filters
  sel ← of_checked (new_selection opts.include_paths)
  m ← lift (load_manifest opts.snapshot)
  guard (restorable m) not_restorable
  target ← or_raise bad_target (env.absolute opts.target)
  unless_error target_result
  stream ← lift (open_index m.id)
  found ← collect_from opts.includes sel stream
  unless_error (unmatched_error found.1)
  return (record { target = target; entries = sort_by_path found.0; warnings = source_warnings m })

-- `Run`
unfoldable pub run : Surroundings → Options → Step Report
unfolding plan write_out count_all
run env opts = plan env opts (check_target env opts) >>= λ p.
    if opts.dry_run
    then return (count_all p.entries (new_report true p))
    else write_out env opts.restore_times p
