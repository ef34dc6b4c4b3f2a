-- ===== src/Scan.antt =====
-- What the walk finds, and the stat-diff (internal/scan/scan.go). The walk itself reads the file
-- system and is not modelled: its result is an argument of the backup.
use better_amp_backup.Prelude.{
  ℕ, zero, suc, Bool, true, false, ◌&&◌, ◌||◌, not, ◌==◌, if◌then◌else◌, List, [], ◌∷◌, String,
  str_eq,
}
use better_amp_backup.Paths.{Text}
use better_amp_backup.Repo.Manifest.{Hash, is_zero}
use better_amp_backup.Repo.Index.{Entry, EntryType}

pub data Tier : Type 0 where
  cold hot : Tier

pub record Item : Type 0 where
  pub path : Text
  pub abs : Text
  pub kind : EntryType
  pub mode : ℕ
  pub uid : ℕ
  pub gid : ℕ
  pub size : ℕ
  pub mod_time : ℕ
  pub inode : ℕ
  pub target : Text
  pub tier : Tier

-- What `Walk` returns; a warning is the text of it.
pub record WalkResult : Type 0 where
  pub items : List Item
  pub warnings : List String

abbrev zeros : ℕ → Hash
zeros zero = []
zeros (suc n) = 0 ∷ zeros n

-- `hash.Zero`
abbrev pub zero_hash : Hash
zero_hash = zeros 32

-- `Item.Entry`
unfoldable pub entry_of : Item → Entry
entry_of it = record {
  path = it.path;
  kind = it.kind;
  mode = it.mode;
  uid = it.uid;
  gid = it.gid;
  size = it.size;
  mod_time = it.mod_time;
  inode = it.inode;
  hash = zero_hash;
  target = it.target;
}

-- `==` of entry types
unfoldable pub same_type : EntryType → EntryType → Bool
same_type EntryType.file EntryType.file = true
same_type EntryType.dir EntryType.dir = true
same_type EntryType.symlink EntryType.symlink = true
same_type (EntryType.other s) (EntryType.other t) = str_eq s t
same_type a b = false

-- `Unchanged`
unfoldable pub unchanged : Entry → Item → Bool
unfolding is_zero same_type
unchanged prev it =
    if not (same_type prev.kind it.kind) || is_zero prev.hash
    then false
    else if not (prev.size == it.size) || not (prev.mod_time == it.mod_time)
    then false
    else if not (prev.mode == it.mode)
    then false
    else if not (prev.inode == 0) && (not (it.inode == 0) && not (prev.inode == it.inode))
    then false
    else true

abbrev pub is_hot : Tier → Bool
is_hot hot = true
is_hot cold = false

-- `Split`: the cold items and the hot ones
unfoldable pub split : List Item → List Item × List Item
split [] = ([], [])
split (it ∷ items) =
    let (colds, hots) = split items in
    if is_hot it.tier then (colds, it ∷ hots) else (it ∷ colds, hots)
