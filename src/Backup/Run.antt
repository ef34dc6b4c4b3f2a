-- ===== src/Backup/Run.antt =====
-- One run (`Run` of internal/backup/backup.go): scan, read the cold files, read the hot files
-- while the quiescer holds the application still, commit. A run returns its result and the world
-- after it: the repository and the calls of the quiescer. The walk, the free space, the clock,
-- the id and the quiescer's answers are the run's input.
use better_amp_backup.Prelude.{
  ℕ, ◌==◌, ℤ, Bool, if◌then◌else◌, List, [], ◌∷◌, ◌++◌, String, str_eq, Option, none, some,
}
use better_amp_backup.Clock.{Instant}
use better_amp_backup.Repo.Manifest.{
  Hash, Manifest, SnapshotId, SnapshotState, complete, partial, Stats,
}
use better_amp_backup.Repo.Index.{Entry}
use better_amp_backup.Repo.Disk.{Disk, Result, RepoError, Action, pure}
use better_amp_backup.Repo.Disk
use better_amp_backup.Repo.Lock.{lock_write, write_lock, release}
use better_amp_backup.Repo.Snapshots.{latest_for, text_ltb}
use better_amp_backup.Repo.Writer.{SnapshotWriter, new_snapshot_writer, add, commit}
use better_amp_backup.Scan.{Item, WalkResult, split}
use better_amp_backup.Backup.{
  Env, Runner, BackupError, process, load_parent_index, effective_reserve, has_space,
}

pub record Options : Type 0 where
  pub instance_name : String
  pub instance_id : String
  pub root : String
  pub tags : List String
  pub paranoid : Bool
  pub reserve_bytes : ℤ
  pub tool_version : String

pub record Input : Type 0 where
  pub files : Env
  pub scanned : Option WalkResult
  pub available : Option ℕ
  pub quiesce_fails : Bool
  pub release_fails : Bool
  pub new_id : SnapshotId
  pub started_at : Instant
  pub finished_at : Instant
  pub quiesce_millis : ℕ

pub data RunError : Type 0 where
  no_instance no_root scan_failed space_unknown no_space quiesce_failed release_failed : RunError
  repo_failed : RepoError → RunError
  read_failed : BackupError → RunError

pub data QuiescerCall : Type 0 where
  quiesce_call release_call : QuiescerCall

pub record World : Type 0 where
  pub repo : Disk
  pub calls : List QuiescerCall

pub data Outcome {ℓ} (A : Type ℓ) : Type ℓ where
  ok : A → Outcome A
  err : RunError → Outcome A

abbrev pub Step : Type 0 → Type 0
Step A = World → Outcome A × World

abbrev pub of_result : {A : Type 0} → Result A → Outcome A
of_result (Disk.ok a) = ok a
of_result (Disk.err e) = err (repo_failed e)

abbrev pub return : {A : Type 0} → A → Step A
return a w = (ok a, w)

abbrev pub raise : {A : Type 0} → RunError → Step A
raise e w = (err e, w)

-- An action on the repository.
unfoldable pub lift : {A : Type 0} → Action A → Step A
lift m w = let (r, d) = m w.repo in (of_result r, record w { repo = d })

module _ {A B : Type 0} where
  abbrev pub continue : Outcome A → (A → Step B) → Step B
  continue (ok a) f w = f a w
  continue (err e) f w = (err e, w)

  infixl 10 ◌>>=◌
  unfoldable pub ◌>>=◌ : Step A → (A → Step B) → Step B
  ◌>>=◌ m f w = let (o, w') = m w in continue o f w'

abbrev pub or_raise : {A : Type 0} → RunError → Option A → Step A
or_raise e none w = (err e, w)
or_raise e (some a) w = (ok a, w)

abbrev pub called : QuiescerCall → World → World
called c w = record w { calls = w.calls ++ c ∷ [] }

abbrev pub of_process : Option BackupError → Runner → Outcome Runner
of_process none r = ok r
of_process (some x) r = err (read_failed x)

-- `run.process` on the repository as it is
unfoldable pub read_items : Env → Bool → List Item → Runner → Step Runner
unfolding process
read_items env paranoid items r w =
    let (x, r') = process env paranoid items (record r { repo = w.repo }) in
    (of_process x r', record w { repo = r'.repo })

-- the two tests behind the hot phase
abbrev pub after_release : Bool → Outcome Runner → Outcome Runner
after_release release_fails (err x) = err x
after_release release_fails (ok r) = if release_fails then err release_failed else ok r

-- from `Quiesce` to `Release`
unfoldable pub hot_phase : Input → Bool → List Item → Runner → Step Runner
unfolding read_items
hot_phase input paranoid hots r w =
    let quiesced = called quiesce_call w in
    if input.quiesce_fails
    then (err quiesce_failed, called release_call quiesced)
    else let (o, w') = read_items input.files paranoid hots r quiesced in
      (after_release input.release_fails o, called release_call w')

unfoldable pub insert_by_path : Entry → List Entry → List Entry
unfolding text_ltb
insert_by_path e [] = e ∷ []
insert_by_path e (f ∷ fs) = if text_ltb f.path e.path then f ∷ insert_by_path e fs else e ∷ f ∷ fs

-- the entries in the order of `sort.Strings(paths)`
unfoldable pub sort_by_path : List Entry → List Entry
unfolding insert_by_path
sort_by_path [] = []
sort_by_path (e ∷ es) = insert_by_path e (sort_by_path es)

-- the loop over `writer.Add`
unfoldable pub add_all : SnapshotWriter → List Entry → Action SnapshotWriter
unfolding add
add_all w [] = pure w
add_all w (e ∷ es) = Disk.◌>>=◌ (add w e) (λ w'. add_all w' es)

abbrev pub state_of : List String → SnapshotState
state_of [] = complete
state_of (w ∷ ws) = partial

abbrev pub no_stats : Stats
no_stats = record {
  files = 0;
  dirs = 0;
  symlinks = 0;
  total_bytes = 0;
  new_objects = 0;
  new_bytes = 0;
  reused_objects = 0;
  unchanged_files = 0;
  reread_files = 0;
}

-- the manifest that `Commit` is given; `version`, `id` and `index_hash` are filled in there
abbrev pub manifest_of : Options → Input → SnapshotId → Runner → Manifest
manifest_of opts input parent r = record {
  version = 0;
  id = [];
  instance_name = "";
  instance_id = opts.instance_id;
  root = opts.root;
  started_at = input.started_at;
  finished_at = input.finished_at;
  quiesce_millis = input.quiesce_millis;
  parent = parent;
  state = state_of r.warnings;
  tags = opts.tags;
  stats = r.stats;
  index_hash = [];
  tool_version = opts.tool_version;
  warnings = r.warnings;
}

module _ (hash_of : List Entry → Hash) (opts : Options) (input : Input) where
  -- from `NewSnapshotWriter` to the end
  unfoldable pub write_snapshot : SnapshotId → Runner → Action Manifest
  unfolding new_snapshot_writer add_all sort_by_path commit
  write_snapshot parent r = Disk.◌>>=◌ (new_snapshot_writer input.new_id opts.instance_name) (λ w.
      Disk.◌>>=◌ (add_all w (sort_by_path r.entries))
        (λ w'. commit hash_of w' (manifest_of opts input parent r)))

  -- `checkSpace`
  unfoldable pub check_space : List Entry → List Item → Step (Unit {0})
  unfolding has_space
  check_space previous items =
      let reserve = effective_reserve opts.reserve_bytes in
      if reserve == 0
      then return tt
      else or_raise space_unknown input.available >>= λ available.
          if has_space opts.paranoid previous items reserve available
          then return tt
          else raise no_space

  -- the runner that `Run` sets up
  abbrev pub new_runner : Disk → List Entry → WalkResult → Runner
  new_runner repo previous scanned = record {
    repo = repo;
    previous = previous;
    entries = [];
    stats = no_stats;
    warnings = scanned.warnings;
  }

  -- both phases
  unfoldable pub read_phases : List Entry → WalkResult → Step Runner
  unfolding read_items hot_phase split
  read_phases previous scanned w =
      let (colds, hots) = split scanned.items in
      (read_items input.files opts.paranoid colds (new_runner w.repo previous scanned) >>= λ r.
      hot_phase input opts.paranoid hots r)
        w

  -- what `Run` does with the lock held
  unfoldable pub run_locked : Step Manifest
  unfolding read_phases check_space write_snapshot lift latest_for load_parent_index
  run_locked = do
    scanned ← or_raise scan_failed input.scanned
    parent ← lift (latest_for opts.instance_name)
    previous ← lift (load_parent_index parent)
    _ ← check_space previous scanned.items
    r ← read_phases previous scanned
    lift (write_snapshot parent r)

  abbrev pub unlocked : Outcome Manifest × World → Outcome Manifest × World
  unlocked (o, w) = (o, record w { repo = release write_lock w.repo })

  abbrev pub under_lock : Result (Unit {0}) × Disk → World → Outcome Manifest × World
  under_lock (Disk.ok _, d) w = unlocked (run_locked (record w { repo = d }))
  under_lock (Disk.err e, d) w = (err (repo_failed e), record w { repo = d })

  -- `Run`
  unfoldable pub run : Step Manifest
  unfolding run_locked lock_write release
  run w =
      if str_eq opts.instance_name ""
      then (err no_instance, w)
      else if str_eq opts.root ""
      then (err no_root, w)
      else under_lock (lock_write w.repo) w
