-- ===== src/Repo/Disk.antt =====
-- What a repository's directory holds, and the calls on it that internal/repo makes. A method is
-- a function from the disk to its result and the disk after it, so what was done before an error
-- stays done. `faults` is the environment's choice: each call takes one element off it, and `true`
-- makes the call fail (an I/O error, or a cancelled context); an empty list means no more faults.
pub mod Keeps
pub mod Files
use better_amp_backup.Prelude.{
  list_eq, ℕ, Bool, true, false, if◌then◌else◌, List, [], ◌∷◌, Option, none, some,
}
use better_amp_backup.Paths.{Text}
use better_amp_backup.Repo.Manifest.{Hash, Manifest, ManifestError}
use better_amp_backup.Repo.Index.{Entry, EntryError, Stream, IndexFile}

-- A manifest file whose JSON does not parse is `manifest none`.
pub data Content : Type 0 where
  manifest : Option Manifest → Content
  index_file : IndexFile → Content
  directory : Content

abbrev pub Dir : Type 0
Dir = List (Text × Content)

pub record ObjectInfo : Type 0 where
  pub hash : Hash
  pub stored_size : ℕ
  pub mod_time : ℕ

-- What `WalkDir` finds below `objects`: a file whose name parses as a hash, or another one.
pub data ObjectFile : Type 0 where
  object : ObjectInfo → ObjectFile
  stray : Text → ObjectFile

-- The files below `locks` that processes hold: the lock's name, and whether it is exclusive.
pub record LockHeld : Type 0 where
  pub name : Text
  pub exclusive : Bool

pub record Disk : Type 0 where
  pub snapshots : Dir
  pub trash : Option Dir
  pub objects : List ObjectFile
  pub locks : List LockHeld
  pub faults : List Bool

pub data RepoError : Type 0 where
  malformed_id not_exist already_exists already_finished io_error lock_held bad_json not_in_trash
        bad_index unsupported_index :
      RepoError
  bad_manifest : ManifestError → RepoError
  bad_entry : EntryError → RepoError

pub data Result {ℓ} (A : Type ℓ) : Type ℓ where
  ok : A → Result A
  err : RepoError → Result A

abbrev pub Action : Type 0 → Type 0
Action A = Disk → Result A × Disk

module _ {A : Type 0} where
  unfoldable pub pure : A → Action A
  pure a d = (ok a, d)

  unfoldable pub fail : RepoError → Action A
  fail e d = (err e, d)

  unfoldable pub gets : (Disk → A) → Action A
  gets f d = (ok (f d), d)

module _ {A B : Type 0} where
  abbrev pub continue : Result A → (A → Action B) → Action B
  continue (ok a) f d = f a d
  continue (err e) f d = (err e, d)

  infixl 10 ◌>>=◌ ◌>>◌
  unfoldable pub ◌>>=◌ : Action A → (A → Action B) → Action B
  unfolding pure fail gets
  ◌>>=◌ m f d = let (r, d') = m d in continue r f d'

  abbrev pub ◌>>◌ : Action A → Action B → Action B
  m >> n = m >>= λ _. n

abbrev pub modify : (Disk → Disk) → Action (Unit {0})
modify f d = (ok tt, f d)

abbrev with_faults : List Bool → (Bool → Disk → Result (Unit {0}) × Disk) → Action (Unit {0})
with_faults [] k d = k false d
with_faults (b ∷ bs) k d = k b (record d { faults = bs })

abbrev fault_result : RepoError → Bool → Disk → Result (Unit {0}) × Disk
fault_result e true d = (err e, d)
fault_result e false d = (ok tt, d)

-- A call that the environment may refuse.
unfoldable pub may_fail : RepoError → Action (Unit {0})
may_fail e d = with_faults d.faults (fault_result e) d

abbrev pub find : Text → Dir → Option Content
find name [] = none
find name ((n, c) ∷ dir) = if list_eq n name then some c else find name dir

abbrev pub without : Text → Dir → Dir
without name [] = []
without name ((n, c) ∷ dir) =
    let rest = without name dir in if list_eq n name then rest else (n, c) ∷ rest

-- A rename replaces what stands under the name.
abbrev pub put : Text → Content → Dir → Dir
put name c dir = (name, c) ∷ without name dir

abbrev pub or_missing : Option Content → Action Content
or_missing none d = (err not_exist, d)
or_missing (some c) d = (ok c, d)
