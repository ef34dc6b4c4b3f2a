-- ===== src/Backup/Samples.antt =====
-- Tests of internal/backup/backup.go, and its theorems at a run over a directory, a file that the
-- parent vouches for, a file that settles in the second round and a hot file.
use better_amp_backup.Prelude.{
  ℕ, zero, suc, ◌+◌, true, false, if◌then◌else◌, list_eq, List, [], ◌∷◌, ◌++◌, codes, some, none,
  pos, ◌≡◌, refl, subst, arith, All, Bool-cases, inl, inr,
}
use better_amp_backup.Paths.{Text}
use better_amp_backup.Repo.Manifest.{Hash, Manifest, complete}
use better_amp_backup.Repo.Index.{Entry, EntryType, Stream, index}
use better_amp_backup.Repo.Index
use better_amp_backup.Repo.Disk.{
  Disk, manifest, index_file, ObjectInfo, object, may_fail, pure, gets, fail,
}
use better_amp_backup.Repo.Disk
use better_amp_backup.Repo.Snapshots.{
  manifest_ext, index_ext, load_manifest, open_index, list_snapshots,
}
use better_amp_backup.Repo.Retention.Samples.{monday}
use better_amp_backup.Repo.Writer.{stream_of}
use better_amp_backup.Repo.Writer.Fails.{SameManifests}
use better_amp_backup.Repo.Gc.{has_hash}
use better_amp_backup.Scan.{Item, Tier, cold, hot, WalkResult}
use better_amp_backup.Backup.{has_object, Env, Attempt, stored, lstat, Read, Runner, process}
use better_amp_backup.Backup.Counts.{IsCounted, process-IsCounted}
use better_amp_backup.Backup.Run.{
  Options, Input, World, Outcome, ok, err, run, write_snapshot, ◌>>=◌, no_stats, release_failed,
  quiesce_call, release_call,
}
use better_amp_backup.Backup.Written.{written, write_snapshot-reads_back}
use better_amp_backup.Backup.Refines.{view, save_result, write_snapshot-refines}
use better_amp_backup.Backup.Kept.{HasObject, IsBacked}
use better_amp_backup.Backup.Phases.{IsPaired}
use better_amp_backup.Backup.Intact.{AllIn, IsIntact}
use better_amp_backup.Backup.Outcomes.{IsCompleteSnapshot}
use better_amp_backup.Backup.Whole.{
  run-IsIntact, run-IsPaired, run-SameManifests, run-IsCompleteSnapshot,
}

abbrev item : Text → EntryType → ℕ → ℕ → Tier → Item
item path kind size mod_time tier = record {
  path = path;
  abs = codes "/srv/" ++ path;
  kind = kind;
  mode = 420;
  uid = 0;
  gid = 0;
  size = size;
  mod_time = mod_time;
  inode = 0;
  target = [];
  tier = tier;
}

abbrev mods : Item
mods = item (codes "mods") EntryType.dir 0 1 cold

abbrev old_jar : Item
old_jar = item (codes "mods/a.jar") EntryType.file 9 5 cold

abbrev log : Item
log = item (codes "log") EntryType.file 3 7 cold

abbrev level : Item
level = item (codes "level.dat") EntryType.file 4 8 hot

abbrev content : ℕ → ℕ → Read
content h size = record { hash = h ∷ []; size = size; stored_size = size + 2; written_at = 9 }

-- The log grows while the first round reads it.
abbrev log_attempt : ℕ → Attempt
log_attempt zero = stored (content 3 3) (lstat 6 8)
log_attempt (suc n) = stored (content 4 6) (lstat 6 8)

abbrev settling : Env
settling = record {
  is_cancelled = λ path. false;
  attempt = λ path n.
      if list_eq path (codes "log") then log_attempt n else stored (content 2 4) (lstat 4 8);
  message = λ w. "a warning";
}

abbrev pub old_entry : Entry
old_entry = record {
  path = codes "mods/a.jar";
  kind = EntryType.file;
  mode = 420;
  uid = 0;
  gid = 0;
  size = 9;
  mod_time = 5;
  inode = 0;
  hash = 1 ∷ [];
  target = [];
}

abbrev old_info : ObjectInfo
old_info = record { hash = 1 ∷ []; stored_size = 11; mod_time = 5 }

abbrev pub repository : Disk
repository = record {
  snapshots =
      (monday.id ++ manifest_ext, manifest (some monday))
      ∷ (monday.id ++ index_ext, index_file (index 1 (stream_of (old_entry ∷ []))))
      ∷ [];
  trash = none;
  objects = object old_info ∷ [];
  locks = [];
  faults = [];
}

abbrev pub world : World
world = record { repo = repository; calls = [] }

abbrev pub options : Options
options = record {
  instance_name = monday.instance_name;
  instance_id = "";
  root = "/srv";
  tags = [];
  paranoid = false;
  reserve_bytes = pos 0;
  tool_version = "1";
}

abbrev pub input : Input
input = record {
  files = settling;
  scanned = some (record { items = mods ∷ old_jar ∷ log ∷ level ∷ []; warnings = [] });
  available = some 3000000000;
  quiesce_fails = false;
  release_fails = false;
  new_id = codes "20260707T120000Z-abcdef";
  started_at = 10;
  finished_at = 12;
  quiesce_millis = 1;
}

abbrev pub hash_of : List Entry → Hash
hash_of es = 7 ∷ []

abbrev start : Runner
start = record {
  repo = repository;
  previous = old_entry ∷ [];
  entries = [];
  stats = no_stats;
  warnings = [];
}

process_counts :
    (process settling false (mods ∷ old_jar ∷ log ∷ level ∷ []) start).1.stats ≡ record {
      files = 3;
      dirs = 1;
      symlinks = 0;
      total_bytes = 19;
      new_objects = 2;
      new_bytes = 14;
      reused_objects = 0;
      unchanged_files = 1;
      reread_files = 1;
    }
unfolding process
process_counts = refl

process-IsCounted_example :
    IsCounted (process settling false (mods ∷ old_jar ∷ log ∷ level ∷ []) start).1
process-IsCounted_example =
    process-IsCounted settling false (mods ∷ old_jar ∷ log ∷ level ∷ []) start refl

abbrev pub manifest_or : Outcome Manifest → Manifest
manifest_or (ok m) = m
manifest_or (err e) = monday

abbrev pub taken : Outcome Manifest × World
taken = run hash_of options input world

pub run_returns : run hash_of options input world ≡ (ok (manifest_or taken.0), taken.1)
unfolding run ◌>>=◌ Disk.◌>>=◌ may_fail pure gets list_snapshots stream_of
run_returns = refl

pub run_is_complete : (manifest_or taken.0).state ≡ complete
unfolding run ◌>>=◌ Disk.◌>>=◌ may_fail pure gets list_snapshots stream_of
run_is_complete = refl

pub run_quiet : taken.1.repo.faults ≡ []
unfolding run ◌>>=◌ Disk.◌>>=◌ may_fail pure gets list_snapshots stream_of
run_quiet = refl

run_calls : taken.1.calls ≡ quiesce_call ∷ release_call ∷ []
unfolding run ◌>>=◌ Disk.◌>>=◌ may_fail pure gets list_snapshots stream_of
run_calls = refl

run-IsCompleteSnapshot_example :
    (scanned : WalkResult) × (input.scanned ≡ some scanned)
    × IsCompleteSnapshot input scanned world.repo (manifest_or taken.0) taken.1
run-IsCompleteSnapshot_example =
    run-IsCompleteSnapshot hash_of options input world taken.1 (manifest_or taken.0) run_returns
      run_is_complete

run-IsPaired_example : IsPaired world.calls (run hash_of options input world).1
run-IsPaired_example = run-IsPaired hash_of options input world

-- The release fails, so the run does.
abbrev stuck : Input
stuck = record input { release_fails = true }

run_fails :
    run hash_of options stuck world ≡ (err release_failed, (run hash_of options stuck world).1)
unfolding run ◌>>=◌ Disk.◌>>=◌ may_fail pure gets list_snapshots stream_of
run_fails = refl

run-SameManifests_example :
    SameManifests world.repo (run hash_of options stuck world).1.repo
    × (view (run hash_of options stuck world).1.repo ≡ view world.repo)
run-SameManifests_example =
    run-SameManifests hash_of options stuck world (run hash_of options stuck world).1 release_failed
      run_fails

-- The runner that wrote nothing yet but has one entry.
abbrev one_entry : Runner
one_entry = record start { entries = old_entry ∷ [] }

abbrev written_one : Disk.Result Manifest × Disk
written_one = write_snapshot hash_of options input monday.id one_entry repository

abbrev written_manifest : Disk.Result Manifest → Manifest
written_manifest (Disk.ok m) = m
written_manifest (Disk.err e) = monday

written_one_returns :
    write_snapshot hash_of options input monday.id one_entry repository
    ≡ (Disk.ok (written_manifest written_one.0), written_one.1)
unfolding write_snapshot Disk.◌>>=◌ may_fail pure gets stream_of
written_one_returns = refl

written_one_quiet : written_one.1.faults ≡ []
unfolding write_snapshot Disk.◌>>=◌ may_fail pure gets stream_of
written_one_quiet = refl

write_snapshot-reads_back_example :
    (load_manifest input.new_id written_one.1
      ≡ (Disk.ok (written_manifest written_one.0), written_one.1))
    × (open_index input.new_id written_one.1
        ≡ (Disk.ok (stream_of (written one_entry)), written_one.1))
    × All (λ e. Index.validate e ≡ none) (written one_entry)
write_snapshot-reads_back_example =
    write_snapshot-reads_back hash_of options input monday.id one_entry
      (written_manifest written_one.0) repository written_one.1 written_one_returns
      written_one_quiet

write_snapshot-refines_example :
    view written_one.1
    ≡ save_result input.new_id (written one_entry) written_one.0 (view repository)
write_snapshot-refines_example =
    write_snapshot-refines hash_of options input monday.id one_entry repository

object_there : HasObject (1 ∷ []) repository
unfolding has_object has_hash
object_there = refl

old_stream-IsBacked : (s : Stream) → stream_of (old_entry ∷ []) ≡ s → AllIn (IsBacked repository) s
unfolding stream_of
old_stream-IsBacked s q = subst (AllIn (IsBacked repository)) q ((λ k z. object_there), tt)

repository-IsIntact : IsIntact repository
repository-IsIntact = record {
  indexes = λ name v s u q. elim (Bool-cases (list_eq (monday.id ++ manifest_ext) name)) [
    | inl e ↦ absurd (no_index v s (rw e at q))
    | inr e ↦ elim (Bool-cases (list_eq (monday.id ++ index_ext) name)) [
      | inl e' ↦ old_stream-IsBacked s (the_index v s (rw (e, e') at q))
      | inr e' ↦ absurd (nothing v s (rw (e, e') at q))
    ]
  ];
}
  where
    no_index :
        (v : ℕ) (s : Stream) → some (manifest (some monday)) ≡ some (index_file (index v s)) → ⊥
    no_index v s q = ground arith

    the_index :
        (v : ℕ) (s : Stream)
        → some (index_file (index 1 (stream_of (old_entry ∷ [])))) ≡ some (index_file (index v s))
        → stream_of (old_entry ∷ []) ≡ s
    the_index v s q = ground arith

    nothing : (v : ℕ) (s : Stream) → none ≡ some (index_file (index v s)) → ⊥
    nothing v s q = ground arith

run-IsIntact_example : IsIntact (run hash_of options input world).1.repo
run-IsIntact_example = run-IsIntact hash_of options input world repository-IsIntact
