-- ===== src/SnapTree/Cache.antt =====
-- The cache of trees (`Cache` of internal/snaptree/snaptree.go). A critical section is a step: the
-- locked part of `Get`, the end of a build, `Invalidate`. `tree` is none until the one build of
-- the entry is done.
pub mod Bounded
use better_amp_backup.Prelude.{
  ℕ, zero, suc, ◌-◌, ℤ, pos, negsuc, ◌&&◌, ◌||◌, not, ltb, leb, if◌then◌else◌, List, [], ◌∷◌,
  length, list_eq, Option, none, some, ◌≢◌,
}
use better_amp_backup.Paths.{Text}
use better_amp_backup.SnapTree.{Tree}

pub record CacheEntry : Type 0 where
  pub id : Text
  pub tree : Option Tree
  pub last_used : ℕ

pub record Cache : Type 0 where
  pub max_trees : ℕ
  pub idle : ℕ
  pub max_entries : ℕ
  pub entries : List CacheEntry

abbrev pub or_default : ℕ → ℤ → ℕ
or_default n (pos zero) = n
or_default n (pos (suc k)) = suc k
or_default n (negsuc k) = n

-- `NewCache`; durations are in seconds
unfoldable pub new_cache : ℤ → ℤ → ℤ → Cache
new_cache max_trees idle max_entries = record {
  max_trees = or_default 3 max_trees;
  idle = or_default 300 idle;
  max_entries = or_default 2000000 max_entries;
  entries = [];
}

-- `delete(c.entries, id)`
unfoldable pub without_entry : Text → List CacheEntry → List CacheEntry
without_entry id [] = []
without_entry id (e ∷ es) =
    let rest = without_entry id es in if list_eq e.id id then rest else e ∷ rest

-- the first loop of `evictLocked`
unfoldable pub drop_idle : ℕ → ℕ → List CacheEntry → List CacheEntry
drop_idle idle now [] = []
drop_idle idle now (e ∷ es) =
    let rest = drop_idle idle now es in if ltb idle (now - e.last_used) then rest else e ∷ rest

-- the loop that looks for the entry that was used longest ago
unfoldable pub oldest_from : CacheEntry → List CacheEntry → CacheEntry
oldest_from oldest [] = oldest
oldest_from oldest (e ∷ es) =
    if list_eq oldest.id [] || ltb e.last_used oldest.last_used
    then oldest_from e es
    else oldest_from oldest es

-- the second loop of `evictLocked`; each round drops an entry, so their number is enough fuel
unfoldable pub make_room : ℕ → ℕ → List CacheEntry → List CacheEntry
unfolding oldest_from without_entry
make_room fuel max_trees [] = []
make_room zero max_trees (e ∷ es) = e ∷ es
make_room (suc fuel) max_trees (e ∷ es) =
    let oldest = oldest_from e es in
    let next = make_room fuel max_trees (without_entry oldest.id (e ∷ es)) in
    if leb max_trees (length (e ∷ es)) && not (list_eq oldest.id []) then next else e ∷ es

-- `evictLocked`
unfoldable pub evict : ℕ → Cache → Cache
unfolding drop_idle make_room
evict now c =
    let fresh = drop_idle c.idle now c.entries in
    record c { entries = make_room (length fresh) c.max_trees fresh }

-- the entry of the id is used now, and made where it is missing
unfoldable pub touch : ℕ → Text → List CacheEntry → List CacheEntry
touch now id [] = record { id = id; tree = none; last_used = now } ∷ []
touch now id (e ∷ es) =
    let rest = touch now id es in
    if list_eq e.id id then record e { last_used = now } ∷ es else e ∷ rest

-- the locked part of `Get`
unfoldable pub enter : ℕ → Text → Cache → Cache
unfolding evict touch
enter now id c = let c' = evict now c in record c' { entries = touch now id c'.entries }

-- `entry.once.Do`, where the build succeeded and the entry is still there
unfoldable pub fill : Text → Tree → List CacheEntry → List CacheEntry
fill id t [] = []
fill id t (e ∷ es) =
    let rest = fill id t es in if list_eq e.id id then record e { tree = some t } ∷ es else e ∷ rest

unfoldable pub built : Text → Tree → Cache → Cache
unfolding fill
built id t c = record c { entries = fill id t c.entries }

-- `Invalidate`, also behind a build that failed
unfoldable pub invalidate : Text → Cache → Cache
unfolding without_entry
invalidate id c = record c { entries = without_entry id c.entries }

-- What goroutines do to a cache, in any order.
pub data Reaches (c : Cache) : Cache → Type 0 where
  start : Reaches c c
  entered : (d : Cache) (now : ℕ) (id : Text) → id ≢ [] → Reaches c d → Reaches c (enter now id d)
  was_built : (d : Cache) (id : Text) (t : Tree) → Reaches c d → Reaches c (built id t d)
  invalidated : (d : Cache) (id : Text) → Reaches c d → Reaches c (invalidate id d)
