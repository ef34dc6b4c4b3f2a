-- ===== src/Repo/Index.antt =====
-- Entries of a snapshot index (internal/repo/index.go). The zstd and JSON layers are not modelled:
-- what a reader gets from an index file is a stream of decoded entries that may break off.
pub mod Inside
mod Samples
use better_amp_backup.Prelude.{
  list_eq, ℕ, Bool, true, false, ◌&&◌, not, ◌==◌, if◌then◌else◌, List, [], ◌∷◌, String, Option,
  none, some,
}
use better_amp_backup.Paths.{Text, dot_dot, split, clean, is_rooted}
use better_amp_backup.Repo.Manifest.{Hash, is_zero}

-- A decoded entry may hold any text as its type.
pub data EntryType : Type 0 where
  file dir symlink : EntryType
  other : String → EntryType

pub record Entry : Type 0 where
  pub path : Text
  pub kind : EntryType
  pub mode : ℕ
  pub uid : ℕ
  pub gid : ℕ
  pub size : ℕ
  pub mod_time : ℕ
  pub inode : ℕ
  pub hash : Hash
  pub target : Text

pub data EntryError : Type 0 where
  empty_path absolute_path not_canonical escapes_root no_hash unknown_type no_target : EntryError

-- the loop over the segments
unfoldable pub has_dot_dot : List Text → Bool
has_dot_dot [] = false
has_dot_dot (s ∷ ss) = if list_eq s dot_dot then true else has_dot_dot ss

-- the `switch` and what follows it
validate_kind : Entry → EntryType → Option EntryError
validate_kind e file = if is_zero e.hash && not (e.size == 0) then some no_hash else none
validate_kind e dir = none
validate_kind e symlink = if list_eq e.target [] then some no_target else none
validate_kind e (other t) = some unknown_type

-- `Entry.Validate`; `none` is a nil error
unfoldable pub validate : Entry → Option EntryError
unfolding has_dot_dot validate_kind clean split is_zero
validate e =
    if list_eq e.path []
    then some empty_path
    else if is_rooted e.path
    then some absolute_path
    else if not (list_eq e.path (clean e.path))
    then some not_canonical
    else if has_dot_dot (split e.path)
    then some escapes_root
    else validate_kind e e.kind

-- What `IndexReader.Next` finds from its position on.
pub data Stream : Type 0 where
  eof broken : Stream
  entry : Entry → Stream → Stream

-- An index file, as `NewIndexReader` finds it: without a readable header, or with its version.
pub data IndexFile : Type 0 where
  unreadable : IndexFile
  index : ℕ → Stream → IndexFile

abbrev pub index_version : ℕ
index_version = 1
