-- ===== src/Repo/Retention/Explained.antt =====
-- The reasons that `Policy.Apply` of internal/repo/retention.go gives, and the order of its answer.
use better_amp_backup.Prelude.{
  if_cases, subst, length, leb_ℤ, pos_part, ℕ, zero, suc, ◌+◌, ◌≤◌, Bool, true, false, not, leb,
  if◌then◌else◌, List, [], ◌∷◌, ◌++◌, map, All, String, ℤ, pos, negsuc, ◌≡◌, refl, arith,
}
use better_amp_backup.Clock.{Instant, Duration, after}
use better_amp_backup.Repo.Manifest.{Manifest, has_tag}
use better_amp_backup.Repo.Retention.{
  Policy, Decision, Reason, Bucket, undecided, keep_decision, is_empty, mark_last, mark_where,
  mark_within, mark_tags, younger, bucket_loop, mark_bucket, mark_buckets, floor_loop, mark_floor,
  mark_rules, decide_ordered, insert_newest, sort_newest, apply, ok, within, tagged,
  newest_of_its_bucket, floor_of, seen_in,
}
use better_amp_backup.Repo.Retention.Decided.{manifests-Decided, kept_rule, apply-Decided}

-- A snapshot is kept exactly when there is a reason for it.
abbrev pub IsExplained : Decision → Type 0
IsExplained d = d.keep ≡ not (is_empty d.reasons)

not-is_empty-snoc : (rs : List Reason) (why : Reason) → true ≡ not (is_empty (rs ++ why ∷ []))
not-is_empty-snoc [] why = refl
not-is_empty-snoc (r ∷ rs) why = refl

keep_if-IsExplained :
    (b : Bool) (why : Reason) (d : Decision)
    → IsExplained d
    → IsExplained (if b then keep_decision why d else d)
keep_if-IsExplained true why d h = not-is_empty-snoc d.reasons why
keep_if-IsExplained false why d h = h

mark_last-IsExplained :
    (n : ℤ) (i : ℕ) (ds : List Decision) → All IsExplained ds → All IsExplained (mark_last n i ds)
unfolding mark_last
mark_last-IsExplained n i [] h = tt
mark_last-IsExplained n i (d ∷ ds) (h, hs) =
    (keep_if-IsExplained _ _ d h, mark_last-IsExplained n (i + 1) ds hs)

mark_where-IsExplained :
    (test : Manifest → Bool) (why : Reason) (ds : List Decision)
    → All IsExplained ds
    → All IsExplained (mark_where test why ds)
unfolding mark_where
mark_where-IsExplained test why [] h = tt
mark_where-IsExplained test why (d ∷ ds) (h, hs) =
    (keep_if-IsExplained _ _ d h, mark_where-IsExplained test why ds hs)

mark_within-IsExplained :
    (w : Duration) (now : Instant) (ds : List Decision)
    → All IsExplained ds
    → All IsExplained (mark_within w now ds)
unfolding mark_within
mark_within-IsExplained (pos zero) now ds h = h
mark_within-IsExplained (pos (suc w)) now ds h =
    mark_where-IsExplained (younger (suc w) now) (within (pos (suc w))) ds h
mark_within-IsExplained (negsuc w) now ds h = h

mark_tags-IsExplained :
    (tags : List String) (ds : List Decision)
    → All IsExplained ds
    → All IsExplained (mark_tags tags ds)
unfolding mark_tags
mark_tags-IsExplained [] ds h = h
mark_tags-IsExplained (tag ∷ tags) ds h =
    mark_tags-IsExplained tags _ (mark_where-IsExplained (λ m. has_tag m tag) (tagged tag) ds h)

bucket_loop-IsExplained :
    (count : ℕ) (name : String) (key : Instant → List ℕ) (seen : List (List ℕ)) (ds : List Decision)
    → All IsExplained ds
    → All IsExplained (bucket_loop count name key seen ds)
unfolding bucket_loop
bucket_loop-IsExplained count name key seen [] h = tt
bucket_loop-IsExplained count name key seen (d ∷ ds) (h, hs) =
    let k = key d.manifest.started_at in
    if_cases (All IsExplained) (seen_in seen k)
      (λ _. (h, bucket_loop-IsExplained count name key seen ds hs))
      (λ _.
        if_cases (All IsExplained) (leb count (length seen)) (λ _. (h, hs))
          (λ _. (
            keep_if-IsExplained true (newest_of_its_bucket name) d h,
            bucket_loop-IsExplained count name key (k ∷ seen) ds hs,
          )))

mark_buckets-IsExplained :
    (bs : List Bucket) (ds : List Decision)
    → All IsExplained ds
    → All IsExplained (mark_buckets bs ds)
unfolding mark_buckets mark_bucket
mark_buckets-IsExplained [] ds h = h
mark_buckets-IsExplained (b ∷ bs) ds h = mark_buckets-IsExplained bs _ (
    if_cases (All IsExplained) (leb_ℤ b.count (pos 0)) (λ _. h)
      (λ _. bucket_loop-IsExplained (pos_part b.count) b.name b.key [] ds h))

floor_loop-IsExplained :
    (least kept : ℕ) (ds : List Decision)
    → All IsExplained ds
    → All IsExplained (floor_loop least kept ds)
unfolding floor_loop
floor_loop-IsExplained least kept [] h = tt
floor_loop-IsExplained least kept (d ∷ ds) (h, hs) =
    if_cases (All IsExplained) (leb least kept) (λ _. (h, hs))
      (λ _.
        if_cases (All IsExplained) d.keep (λ _. (h, floor_loop-IsExplained least kept ds hs))
          (λ _. (
            keep_if-IsExplained true (floor_of (pos least)) d h,
            floor_loop-IsExplained least (kept + 1) ds hs,
          )))

mark_floor-IsExplained :
    (least : ℤ) (ds : List Decision) → All IsExplained ds → All IsExplained (mark_floor least ds)
unfolding mark_floor
mark_floor-IsExplained (pos zero) ds h = h
mark_floor-IsExplained (pos (suc n)) ds h = floor_loop-IsExplained (suc n) _ ds h
mark_floor-IsExplained (negsuc n) ds h = h

undecided-IsExplained : (ms : List Manifest) → All IsExplained (map undecided ms)
unfolding undecided
undecided-IsExplained [] = tt
undecided-IsExplained (m ∷ ms) = (refl, undecided-IsExplained ms)

ruleset explained_rules = (
  undecided-IsExplained, mark_last-IsExplained, mark_within-IsExplained, mark_tags-IsExplained,
  mark_buckets-IsExplained, mark_floor-IsExplained,
)

decide_ordered-IsExplained :
    (p : Policy) (now : Instant) (ms : List Manifest) → All IsExplained (decide_ordered p now ms)
unfolding decide_ordered mark_rules
decide_ordered-IsExplained p now ms = search explained_rules depth 8

-- `Apply` keeps a snapshot exactly when it lists a reason for keeping it.
pub apply-IsExplained :
    (p : Policy) (snapshots : List Manifest) (now : Instant) (ds : List Decision)
    → apply p snapshots now ≡ ok ds
    → All IsExplained ds
unfolding apply
apply-IsExplained p snapshots now ds h =
    let e : decide_ordered p now (sort_newest snapshots) ≡ ds = ground arith in
    subst (All IsExplained) e (decide_ordered-IsExplained p now (sort_newest snapshots))

-- No snapshot is newer than one above it.
abbrev pub IsNewestFirst : List Manifest → Type 0
IsNewestFirst [] = Unit
IsNewestFirst (m ∷ ms) = All (λ n. n.started_at ≤ m.started_at) ms × IsNewestFirst ms

All-insert_newest :
    (t : Instant) (m : Manifest) (ms : List Manifest)
    → m.started_at ≤ t
    → All (λ n. n.started_at ≤ t) ms
    → All (λ n. n.started_at ≤ t) (insert_newest m ms)
unfolding insert_newest
All-insert_newest t m [] le h = (le, tt)
All-insert_newest t m (n ∷ ns) le (h, hs) =
    if_cases (All (λ k. k.started_at ≤ t)) (after n.started_at m.started_at)
      (λ _. (h, All-insert_newest t m ns le hs)) (λ _. (le, (h, hs)))

All-older :
    (s t : Instant) (ms : List Manifest)
    → s ≤ t
    → All (λ n. n.started_at ≤ s) ms
    → All (λ n. n.started_at ≤ t) ms
All-older s t [] le h = tt
All-older s t (m ∷ ms) le (h, hs) = (omega arith, All-older s t ms le hs)

insert_newest-IsNewestFirst :
    (m : Manifest) (ms : List Manifest) → IsNewestFirst ms → IsNewestFirst (insert_newest m ms)
unfolding insert_newest
insert_newest-IsNewestFirst m [] h = (tt, tt)
insert_newest-IsNewestFirst m (n ∷ ns) (h, hs) =
    if_cases IsNewestFirst (after n.started_at m.started_at)
      (λ newer.
        (All-insert_newest n.started_at m ns (ground arith) h, insert_newest-IsNewestFirst m ns hs))
      (λ older.
        let le : n.started_at ≤ m.started_at = ground arith in
        ((le, All-older n.started_at m.started_at ns le h), (h, hs)))

sort_newest-IsNewestFirst : (ms : List Manifest) → IsNewestFirst (sort_newest ms)
unfolding sort_newest
sort_newest-IsNewestFirst [] = tt
sort_newest-IsNewestFirst (m ∷ ms) =
    insert_newest-IsNewestFirst m (sort_newest ms) (sort_newest-IsNewestFirst ms)

-- The decisions of `Apply` are those of its snapshots, newest first.
apply-IsNewestFirst :
    (p : Policy) (snapshots : List Manifest) (now : Instant) (ds : List Decision)
    → apply p snapshots now ≡ ok ds
    → IsNewestFirst (map (λ d. d.manifest) ds)
apply-IsNewestFirst p snapshots now ds h =
    rw
      (manifests-Decided (kept_rule p now (sort_newest snapshots)) [] _ ds
        (apply-Decided p snapshots now ds h))
      (sort_newest-IsNewestFirst snapshots)
