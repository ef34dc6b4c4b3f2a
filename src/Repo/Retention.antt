-- ===== src/Repo/Retention.antt =====
-- internal/repo/retention.go: which snapshots a policy keeps. Go marks `decisions[i]` in place,
-- one loop for each rule; here each loop is a function from the decisions to the decisions.
-- `sort.Slice` leaves the order of snapshots of one instant open; the model sorts by insertion.
mod Marks
mod Buckets
mod Decided
mod Split
mod Explained
pub mod Samples
use better_amp_backup.Prelude.{
  list_eq, ℕ, zero, suc, ◌+◌, Bool, true, false, ◌&&◌, ◌||◌, ◌==◌, leb, ltb, if◌then◌else◌, List,
  [], ◌∷◌, ◌++◌, map, length, count_if, String, ℤ, pos, negsuc, ltb_ℤ, leb_ℤ, is_zero_ℤ, pos_part,
}
use better_amp_backup.Clock.{Instant, Duration, after}
use better_amp_backup.Clock.Calendar.{hour_key, day_key, week_key, month_key, year_key}
use better_amp_backup.Repo.Manifest.{Manifest, has_tag}

pub record Policy : Type 0 where
  pub keep_last : ℤ
  pub keep_hourly : ℤ
  pub keep_daily : ℤ
  pub keep_weekly : ℤ
  pub keep_monthly : ℤ
  pub keep_yearly : ℤ
  pub keep_within : Duration
  pub keep_tags : List String
  pub min_snapshots : ℤ

-- `DefaultPolicy`; 48 hours are 172800000000000 nanoseconds
abbrev pub default_policy : Policy
default_policy = record {
  keep_last = pos 6;
  keep_hourly = pos 24;
  keep_daily = pos 14;
  keep_weekly = pos 8;
  keep_monthly = pos 12;
  keep_yearly = pos 2;
  keep_within = pos 172800000000000;
  keep_tags = "pre-restore" ∷ "manual" ∷ [];
  min_snapshots = pos 3;
}

pub data PolicyError : Type 0 where
  negative_count keeps_nothing : PolicyError

-- `(T, error)`, where one of the two is nil
pub data Result {ℓ} (A : Type ℓ) : Type ℓ where
  ok : A → Result A
  err : PolicyError → Result A

abbrev is_negative : ℤ → Bool
is_negative n = ltb_ℤ n (pos 0)

abbrev is_empty {ℓ} : {A : Type ℓ} → List A → Bool
is_empty [] = true
is_empty (x ∷ xs) = false

pub some_negative : Policy → Bool
some_negative p =
    is_negative p.keep_last
    || is_negative p.keep_hourly
    || is_negative p.keep_daily
    || is_negative p.keep_weekly
    || is_negative p.keep_monthly
    || is_negative p.keep_yearly

pub all_zero : Policy → Bool
all_zero p =
    is_zero_ℤ p.keep_last
    && is_zero_ℤ p.keep_hourly
    && is_zero_ℤ p.keep_daily
    && is_zero_ℤ p.keep_weekly
    && is_zero_ℤ p.keep_monthly
    && is_zero_ℤ p.keep_yearly
    && is_zero_ℤ p.keep_within
    && is_empty p.keep_tags

-- `Validate`, before `rest` runs
pub validate : Policy → Result (Unit {0})
unfolding some_negative all_zero
validate p =
    if some_negative p then err negative_count else if all_zero p then err keeps_nothing else ok tt

-- The texts that `keep` appends, before they are printed.
pub data Reason : Type 0 where
  one_of_the_last : ℤ → Reason
  within : Duration → Reason
  tagged : String → Reason
  newest_of_its_bucket : String → Reason
  floor_of : ℤ → Reason

pub record Decision : Type 0 where
  pub manifest : Manifest
  pub keep : Bool
  pub reasons : List Reason

pub undecided : Manifest → Decision
undecided m = record { manifest = m; keep = false; reasons = [] }

-- the closure `keep`
abbrev pub keep_decision : Reason → Decision → Decision
keep_decision why d = record d { keep = true; reasons = d.reasons ++ why ∷ [] }

-- `sort.Slice` with `StartedAt.After`
pub insert_newest : Manifest → List Manifest → List Manifest
insert_newest m [] = m ∷ []
insert_newest m (n ∷ ns) =
    if after n.started_at m.started_at then n ∷ insert_newest m ns else m ∷ n ∷ ns

pub sort_newest : List Manifest → List Manifest
unfolding insert_newest
sort_newest [] = []
sort_newest (m ∷ ms) = insert_newest m (sort_newest ms)

-- `if i < p.KeepLast`
pub mark_last : ℤ → ℕ → List Decision → List Decision
mark_last n i [] = []
mark_last n i (d ∷ ds) =
    (if ltb_ℤ (pos i) n then keep_decision (one_of_the_last n) d else d) ∷ mark_last n (i + 1) ds

-- The loops that test each snapshot by itself.
pub mark_where : (Manifest → Bool) → Reason → List Decision → List Decision
mark_where test why [] = []
mark_where test why (d ∷ ds) =
    (if test d.manifest then keep_decision why d else d) ∷ mark_where test why ds

-- `m.StartedAt.After(now.Add(-p.KeepWithin))`, for a positive `KeepWithin`
pub younger : ℕ → Instant → Manifest → Bool
younger w now m = ltb now (m.started_at + w)

pub mark_within : Duration → Instant → List Decision → List Decision
unfolding mark_where younger
mark_within (pos zero) now ds = ds
mark_within (pos (suc w)) now ds = mark_where (younger (suc w) now) (within (pos (suc w))) ds
mark_within (negsuc w) now ds = ds

pub mark_tags : List String → List Decision → List Decision
unfolding mark_where has_tag
mark_tags [] ds = ds
mark_tags (tag ∷ tags) ds = mark_tags tags (mark_where (λ m. has_tag m tag) (tagged tag) ds)

pub record Bucket : Type 0 where
  pub count : ℤ
  pub name : String
  pub key : Instant → List ℕ

-- `seen[k]`
pub seen_in : List (List ℕ) → List ℕ → Bool
seen_in [] k = false
seen_in (s ∷ seen) k = list_eq s k || seen_in seen k

-- the inner loop, with `continue` and `break`
pub bucket_loop : ℕ → String → (Instant → List ℕ) → List (List ℕ) → List Decision → List Decision
unfolding seen_in
bucket_loop count name key seen [] = []
bucket_loop count name key seen (d ∷ ds) =
    let k = key d.manifest.started_at in
    let next = d ∷ bucket_loop count name key seen ds in
    let newest =
      keep_decision (newest_of_its_bucket name) d ∷ bucket_loop count name key (k ∷ seen) ds in
    if seen_in seen k then next else if leb count (length seen) then d ∷ ds else newest

pub mark_bucket : Bucket → List Decision → List Decision
unfolding bucket_loop
mark_bucket b ds =
    if leb_ℤ b.count (pos 0) then ds else bucket_loop (pos_part b.count) b.name b.key [] ds

pub mark_buckets : List Bucket → List Decision → List Decision
unfolding mark_bucket
mark_buckets [] ds = ds
mark_buckets (b ∷ bs) ds = mark_buckets bs (mark_bucket b ds)

pub buckets : Policy → List Bucket
unfolding hour_key day_key week_key month_key year_key
buckets p =
    record { count = p.keep_hourly; name = "hourly"; key = hour_key }
    ∷ record { count = p.keep_daily; name = "daily"; key = day_key }
    ∷ record { count = p.keep_weekly; name = "weekly"; key = week_key }
    ∷ record { count = p.keep_monthly; name = "monthly"; key = month_key }
    ∷ record { count = p.keep_yearly; name = "yearly"; key = year_key }
    ∷ []

pub kept_count : List Decision → ℕ
kept_count ds = count_if (λ d. d.keep) ds

pub floor_loop : ℕ → ℕ → List Decision → List Decision
floor_loop least kept [] = []
floor_loop least kept (d ∷ ds) =
    let skip = d ∷ floor_loop least kept ds in
    let rescue = keep_decision (floor_of (pos least)) d ∷ floor_loop least (kept + 1) ds in
    if leb least kept then d ∷ ds else if d.keep then skip else rescue

pub mark_floor : ℤ → List Decision → List Decision
unfolding floor_loop kept_count
mark_floor (pos zero) ds = ds
mark_floor (pos (suc n)) ds = floor_loop (suc n) (kept_count ds) ds
mark_floor (negsuc n) ds = ds

-- The rules before the floor, in the order of the source.
pub mark_rules : Policy → Instant → List Decision → List Decision
unfolding mark_last mark_within mark_tags mark_buckets buckets
mark_rules p now ds =
    mark_buckets (buckets p)
      (mark_tags p.keep_tags (mark_within p.keep_within now (mark_last p.keep_last 0 ds)))

-- What `Apply` decides of snapshots that are ordered already, newest first.
pub decide_ordered : Policy → Instant → List Manifest → List Decision
unfolding mark_rules mark_floor undecided
decide_ordered p now ordered = mark_floor p.min_snapshots (mark_rules p now (map undecided ordered))

abbrev map_result {ℓ κ} : {A : Type ℓ} {B : Type κ} → (A → B) → Result A → Result B
map_result f (ok a) = ok (f a)
map_result f (err e) = err e

-- `Policy.Apply`
unfoldable pub apply : Policy → List Manifest → Instant → Result (List Decision)
unfolding validate sort_newest decide_ordered
apply p snapshots now = map_result (λ _. decide_ordered p now (sort_newest snapshots)) (validate p)

-- the loop of `Policy.Split`
pub partition : List Decision → List Manifest × List Manifest
partition [] = ([], [])
partition (d ∷ ds) =
    let (keep, remove) = partition ds in
    if d.keep then (d.manifest ∷ keep, remove) else (keep, d.manifest ∷ remove)

-- `Policy.Split`
unfoldable pub split : Policy → List Manifest → Instant → Result (List Manifest × List Manifest)
unfolding partition apply
split p snapshots now = map_result partition (apply p snapshots now)
