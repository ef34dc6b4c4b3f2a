-- ===== src/Restore/Run/Samples.antt =====
-- Tests of internal/restore/restore.go, and its theorems at a snapshot of a directory, a file in it
-- and a link.
use better_amp_backup.Prelude.{In, ℕ, true, false, [], ◌∷◌, ◌++◌, codes, some, none, ◌≡◌, refl}
use better_amp_backup.Paths.{Text}
use better_amp_backup.Repo.Manifest.{Hash}
use better_amp_backup.Repo.Index.{Entry, EntryType, index}
use better_amp_backup.Repo.Disk.{Disk, manifest, index_file, may_fail, pure, gets}
use better_amp_backup.Repo.Disk
use better_amp_backup.Repo.Snapshots.{manifest_ext, index_ext}
use better_amp_backup.Repo.Retention.Samples.{monday}
use better_amp_backup.Repo.Writer.{stream_of}
use better_amp_backup.Scan.{Item, WalkResult}
use better_amp_backup.Backup.Run.{sort_by_path}
use better_amp_backup.Backup.Covered.{IsCaptured}
use better_amp_backup.Backup.Outcomes.{IsCompleteSnapshot}
use better_amp_backup.Backup.Samples.{
  world, input, options as backup_options, hash_of, taken, manifest_or,
  run_returns as backup_returns, run_is_complete, run_quiet,
}
use better_amp_backup.Restore.Calls.{
  Bytes, Surroundings, Options, Report, State, ok, err, absent, ◌>>=◌, make_dir, make_parent,
  create_temp, set_mode, place, corrupted,
}
use better_amp_backup.Restore.Files.{write_file}
use better_amp_backup.Restore.Run.{run, Plan, plan, check_target}
use better_amp_backup.Restore.Run.Saved.{AsksForAll, plan-restores_run}
use better_amp_backup.Restore.Run.Dry.{SameCounts, as_dry, run-SameCounts}
use better_amp_backup.Restore.Run.Whole.{HasDone, run-HasDone}

abbrev item : Text → EntryType → ℕ → Hash → Text → Entry
item path kind size hash target = record {
  path = path;
  kind = kind;
  mode = 420;
  uid = 0;
  gid = 0;
  size = size;
  mod_time = 0;
  inode = 0;
  hash = hash;
  target = target;
}

abbrev mods : Entry
mods = item (codes "mods") EntryType.dir 0 [] []

abbrev jar : Entry
jar = item (codes "mods/a.jar") EntryType.file 2 (9 ∷ []) []

abbrev state : State
state = record {
  repo = record {
    snapshots =
        (monday.id ++ manifest_ext, manifest (some monday))
        ∷ (monday.id ++ index_ext, index_file (index 1 (stream_of (mods ∷ jar ∷ []))))
        ∷ [];
    trash = none;
    objects = [];
    locks = [];
    faults = [];
  };
  answers = [];
  calls = [];
}

-- The digest of some bytes is the first of them.
abbrev sum : Bytes → Hash
sum [] = []
sum (b ∷ bytes) = b ∷ []

abbrev env : Surroundings
env = record { content = λ h. some (9 ∷ 5 ∷ []); sum = sum; absolute = some; target_dir = absent }

abbrev options : Options
options = record {
  snapshot = monday.id;
  target = codes "/new";
  includes = none;
  include_paths = [];
  dry_run = false;
  overwrite = false;
  restore_times = true;
}

run_calls :
    (run env options state).1.calls
    ≡ make_dir (codes "/new") 493
      ∷ make_dir (codes "/new/mods") 484
      ∷ make_parent (codes "/new/mods")
      ∷ create_temp (codes "/new/mods")
      ∷ set_mode (codes "/new/mods") 420
      ∷ place (codes "/new/mods/a.jar") (9 ∷ 5 ∷ [])
      ∷ []
unfolding run ◌>>=◌ Disk.◌>>=◌ may_fail pure gets stream_of
run_calls = refl

-- A file of the path "." has its temporary file beside the target.
write_dot :
    (write_file env (codes "/srv/new") (record jar { path = codes "." }) state).1.calls
    ≡ make_parent (codes "/srv")
      ∷ create_temp (codes "/srv")
      ∷ set_mode (codes "/srv") 420
      ∷ place (codes "/srv/new") (9 ∷ 5 ∷ [])
      ∷ []
unfolding write_file ◌>>=◌
write_dot = refl

-- An object with other bytes than the index promises is not put in place.
abbrev bad_env : Surroundings
bad_env = record env { content = λ h. some (8 ∷ 5 ∷ []) }

run_corrupted : run bad_env options state ≡ (err corrupted, (run bad_env options state).1)
unfolding run ◌>>=◌ Disk.◌>>=◌ may_fail pure gets stream_of
run_corrupted = refl

abbrev report : Report
report = record {
  files = 1;
  dirs = 1;
  symlinks = 0;
  bytes = 2;
  verified = 1;
  dry_run = false;
  warnings = [];
}

run_returns : run env options state ≡ (ok report, (run env options state).1)
unfolding run ◌>>=◌ Disk.◌>>=◌ may_fail pure gets stream_of
run_returns = refl

run-SameCounts_example :
    (rep : Report) × (s : State) × (run env (as_dry options) state ≡ (ok rep, s))
    × SameCounts rep report
run-SameCounts_example =
    run-SameCounts env options report state (run env options state).1 refl run_returns

run-HasDone_example : HasDone env options state (run env options state).1
run-HasDone_example = run-HasDone env options state

-- Everything that a run has saved, restored from the repository that it left.
abbrev everything : Options
everything = record options { snapshot = input.new_id }

abbrev after : State
after = record { repo = taken.1.repo; answers = []; calls = [] }

everything-AsksForAll : AsksForAll env everything (codes "/new")
everything-AsksForAll = record {
  no_includes = refl;
  no_paths = refl;
  has_target = refl;
  absolute = refl;
}

plan-restores_run_example :
    (p : Plan) × (plan env everything (check_target env everything) after ≡ (ok p, after))
    × (p.target ≡ codes "/new")
    × (sort_by_path p.entries ≡ p.entries)
    × (scanned : WalkResult) × (input.scanned ≡ some scanned)
    × (snapshot : IsCompleteSnapshot input scanned world.repo (manifest_or taken.0) taken.1)
    × (p.entries ≡ snapshot.entries)
    × ((it : Item) → In it scanned.items → IsCaptured p.entries it)
plan-restores_run_example =
    plan-restores_run hash_of backup_options input world taken.1 (manifest_or taken.0) env
      everything (codes "/new") after backup_returns run_is_complete refl run_quiet refl
      everything-AsksForAll refl
