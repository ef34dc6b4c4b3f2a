-- ===== src/Repo/Retention/Samples.antt =====
-- Tests of internal/repo/retention.go, and its theorems at concrete snapshots.
use better_amp_backup.Prelude.{
  ℕ, ◌+◌, ◌*◌, ◌≤◌, min, List, [], ◌∷◌, length, All, String, pos, negsuc, ◌≡◌, refl, codes, true,
  false,
}
use better_amp_backup.Clock.{Instant, hour}
use better_amp_backup.Repo.Manifest.{Manifest, complete, Stats, valid_snapshot_id, SnapshotId}
use better_amp_backup.Repo.Retention.Decided.{Decided}
use better_amp_backup.Repo.Retention.Explained.{IsExplained, apply-IsExplained}
use better_amp_backup.Repo.Retention.Split.{
  IsUnwanted, split_removes-IsUnwanted, split_keeps_floor, only_negative_within,
  negative_within_removes_all,
}
use better_amp_backup.Repo.Retention.{
  decide_ordered, validate as policy_validate, Policy, Decision, default_policy, apply, split, ok,
  err, negative_count, sort_newest,
}

abbrev no_stats : Stats
no_stats = record {
  files = 0;
  dirs = 0;
  symlinks = 0;
  total_bytes = 0;
  new_objects = 0;
  new_bytes = 0;
  reused_objects = 0;
  unchanged_files = 0;
  reread_files = 0;
}

abbrev pub snapshot : SnapshotId → Instant → List String → Manifest
snapshot id at tags = record {
  version = 1;
  id = id;
  instance_name = "Minecraft01";
  instance_id = "";
  root = "/srv/instance";
  started_at = at;
  finished_at = at;
  quiesce_millis = 0;
  parent = [];
  state = complete;
  tags = tags;
  stats = no_stats;
  index_hash = [];
  tool_version = "dev";
  warnings = [];
}

-- 2026-09-07T17:00:00Z and the hours after it
abbrev pub at_hour : ℕ → Instant
at_hour n = 63924397200000000000 + n * hour

abbrev pub monday : Manifest
monday = snapshot (codes "20260907T170000Z-3f2a1b") (at_hour 0) []

abbrev pinned : Manifest
pinned = snapshot (codes "20260907T180000Z-000001") (at_hour 1) ("manual" ∷ [])

abbrev pub evening : Manifest
evening = snapshot (codes "20260907T190000Z-000002") (at_hour 2) []

abbrev night : Manifest
night = snapshot (codes "20260907T200000Z-000003") (at_hour 3) []

monday_valid : valid_snapshot_id monday.id ≡ true
unfolding valid_snapshot_id
monday_valid = refl

path_invalid : valid_snapshot_id (codes "../20260907T170000Z-3f2a") ≡ false
unfolding valid_snapshot_id
path_invalid = refl

-- Two hourly buckets, one tag.
abbrev policy : Policy
policy = record default_policy {
  keep_last = pos 0;
  keep_hourly = pos 2;
  keep_daily = pos 0;
  keep_weekly = pos 0;
  keep_monthly = pos 0;
  keep_yearly = pos 1;
  keep_within = pos 0;
  min_snapshots = pos 0;
}

abbrev all : List Manifest
all = evening ∷ monday ∷ pinned ∷ night ∷ []

split_example : split policy all (at_hour 100) ≡ ok (night ∷ evening ∷ pinned ∷ [], monday ∷ [])
unfolding split
split_example = refl

abbrev decided : List Decision
decided = decide_ordered policy (at_hour 100) (sort_newest all)

apply-decided : apply policy all (at_hour 100) ≡ ok decided
unfolding apply
apply-decided = refl

rejects_negative :
    apply (record policy { keep_daily = negsuc 0 }) all (at_hour 100) ≡ err negative_count
unfolding apply
rejects_negative = refl

apply-IsExplained_example : All IsExplained decided
apply-IsExplained_example = apply-IsExplained policy all (at_hour 100) decided apply-decided

split_removes-IsUnwanted_example : All (IsUnwanted policy (at_hour 100)) (monday ∷ [])
split_removes-IsUnwanted_example =
    split_removes-IsUnwanted policy all (at_hour 100) (night ∷ evening ∷ pinned ∷ []) (monday ∷ [])
      split_example

-- With a floor of four nothing is removed.
floor_example :
    split (record policy { min_snapshots = pos 4 }) all (at_hour 100)
    ≡ ok (night ∷ evening ∷ pinned ∷ monday ∷ [], [])
unfolding split
floor_example = refl

split_keeps_floor_example : min 4 (length all) ≤ length (night ∷ evening ∷ pinned ∷ monday ∷ [])
split_keeps_floor_example =
    split_keeps_floor (record policy { min_snapshots = pos 4 }) all (at_hour 100)
      (night ∷ evening ∷ pinned ∷ monday ∷ []) [] floor_example

negative_within_removes_all_example :
    (policy_validate (only_negative_within 0) ≡ ok tt)
    × (split (only_negative_within 0) all (at_hour 3) ≡ ok ([], sort_newest all))
negative_within_removes_all_example = negative_within_removes_all 0 all (at_hour 3)
