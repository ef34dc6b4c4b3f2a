-- ===== src/Restore/Calls.antt =====
-- What a restore is made of (internal/restore/restore.go): its data, and its steps. The target
-- directory is what the calls of package `os` did to it, in order; each call takes the next of the
-- environment's answers, and none left means that it succeeds. What an object's content decodes
-- to, the digest of bytes, `filepath.Abs` and what stands in the target are given by the
-- environment too.
use better_amp_backup.Prelude.{ℕ, Bool, true, false, List, [], ◌∷◌, ◌++◌, Option, none, some}
use better_amp_backup.Paths.{Text}
use better_amp_backup.Repo.Manifest.{Hash, SnapshotId}
use better_amp_backup.Repo.Disk.{Disk, Action, RepoError, bad_index, bad_entry}
use better_amp_backup.Repo.Disk
use better_amp_backup.Restore.Selection.{SelectionError}

abbrev pub Bytes : Type 0
Bytes = List ℕ

pub data Answer : Type 0 where
  done missing refused broken_down : Answer

-- A call that changes the file system, with the path that it is given. `make_parent` is the
-- `MkdirAll` of the directory of a file or link; `create_temp`, `set_mode` and `remove_temp` are
-- given the directory in which the temporary file stands, whose own name is random. `place` is the
-- rename of a temporary file with this content onto the path.
pub data Call : Type 0 where
  make_parent create_temp remove_temp remove : Text → Call
  link : Text → Text → Call
  make_dir write_empty set_mode set_time : Text → ℕ → Call
  place : Text → Bytes → Call

-- What `os.ReadDir` finds of the target.
pub data TargetDir : Type 0 where
  absent unreadable : TargetDir
  holds : ℕ → TargetDir

pub record Surroundings : Type 0 where
  pub content : Hash → Option Bytes
  pub sum : Bytes → Hash
  pub absolute : Text → Option Text
  pub target_dir : TargetDir

pub record Options : Type 0 where
  pub snapshot : SnapshotId
  pub target : Text
  pub includes : Option (Text → Bool)
  pub include_paths : List Text
  pub dry_run : Bool
  pub overwrite : Bool
  pub restore_times : Bool

pub data Warning : Type 0 where
  partial_source : ℕ → Warning
  times_refused : List Text → Warning

pub record Report : Type 0 where
  pub files : ℕ
  pub dirs : ℕ
  pub symlinks : ℕ
  pub bytes : ℕ
  pub verified : ℕ
  pub dry_run : Bool
  pub warnings : List Warning

pub data RestoreError : Type 0 where
  no_target both_filters not_restorable bad_target not_empty escapes no_hash no_object corrupted
        wrong_size os_failed cancelled :
      RestoreError
  bad_selection : SelectionError → RestoreError
  repo_failed : RepoError → RestoreError
  not_matched : List Text → RestoreError

pub record State : Type 0 where
  pub repo : Disk
  pub answers : List Answer
  pub calls : List Call

pub data Outcome {ℓ} (A : Type ℓ) : Type ℓ where
  ok : A → Outcome A
  err : RestoreError → Outcome A

abbrev pub Step : Type 0 → Type 0
Step A = State → Outcome A × State

module _ {A : Type 0} where
  abbrev pub return : A → Step A
  return a s = (ok a, s)

  abbrev pub raise : RestoreError → Step A
  raise e s = (err e, s)

  abbrev pub or_raise : RestoreError → Option A → Step A
  or_raise e none s = (err e, s)
  or_raise e (some a) s = (ok a, s)

  abbrev pub of_result : Disk.Result A → Outcome A
  of_result (Disk.ok a) = ok a
  of_result (Disk.err e) = err (repo_failed e)

  unfoldable pub lift : Action A → Step A
  lift m s = let (r, d) = m s.repo in (of_result r, record s { repo = d })

module _ {A B : Type 0} where
  abbrev pub continue : Outcome A → (A → Step B) → Step B
  continue (ok a) f s = f a s
  continue (err e) f s = (err e, s)

  infixl 10 ◌>>=◌ ◌>>◌
  unfoldable pub ◌>>=◌ : Step A → (A → Step B) → Step B
  ◌>>=◌ m f s = let (o, s') = m s in continue o f s'

  abbrev pub ◌>>◌ : Step A → Step B → Step B
  m >> n = m >>= λ _. n

abbrev pub rest : List Answer → List Answer
rest [] = []
rest (a ∷ answers) = answers

abbrev pub first : List Answer → Answer
first [] = done
first (a ∷ answers) = a

-- One call: the answer to it.
unfoldable pub call : Call → Step Answer
call c s = (ok (first s.answers), record s { answers = rest s.answers; calls = s.calls ++ c ∷ [] })

abbrev pub unless_done : RestoreError → Answer → Step (Unit {0})
unless_done e done = return tt
unless_done e a = raise e

-- A call whose error ends the restore.
unfoldable pub must : Call → Step (Unit {0})
unfolding call ◌>>=◌
must c = call c >>= unless_done os_failed

-- An answer that changes nothing: `ctx.Err`, and a read or close that may fail.
unfoldable pub check : RestoreError → Step (Unit {0})
check e s = unless_done e (first s.answers) (record s { answers = rest s.answers })

abbrev pub guard : Bool → RestoreError → Step (Unit {0})
guard true e = return tt
guard false e = raise e
