-- ===== src/Repo/Retention/Split.antt =====
-- What `Policy.Split` of internal/repo/retention.go promises about the two lists that it returns.
use mathlib.Core.List.{Perm, perm_middle}
use mathlib.Core.List.Perm
use better_amp_backup.Prelude.{
  ◌⊎◌, ℕ, zero, suc, ◌+◌, ◌≤◌, min, Bool, false, ◌&&◌, ◌||◌, leb, ltb, List, [], ◌∷◌, ◌++◌, map,
  length, All, any, ℤ, pos, negsuc, ltb_ℤ, pos_part, ◌≡◌, refl, sym, ap, ◌∙◌, arith, Bool-cases,
  inl, inr, subst,
}
use better_amp_backup.Clock.{Instant, after}
use better_amp_backup.Repo.Manifest.{Manifest, has_tag}
use better_amp_backup.Repo.Retention.{
  Policy, Decision, kept_count, floor_loop, mark_floor, insert_newest, sort_newest, ok, partition,
  split, validate, decide_ordered, mark_rules, undecided, mark_last, mark_buckets, mark_bucket,
  buckets, mark_tags, mark_within,
}
use better_amp_backup.Repo.Retention.Decided.{
  Decided, manifests-Decided, kept_rule, decide_ordered-Decided,
}

insert_newest-perm : (m : Manifest) (ms : List Manifest) → Perm (insert_newest m ms) (m ∷ ms)
unfolding insert_newest
insert_newest-perm m [] = Perm.refl _
insert_newest-perm m (n ∷ ns) = elim (Bool-cases (after n.started_at m.started_at)) [
  | inl newer ↦ rw newer (Perm.trans (Perm.cons n (insert_newest-perm m ns)) (Perm.swap m n ns))
  | inr older ↦ rw older (Perm.refl _)
]

sort_newest-perm : (ms : List Manifest) → Perm (sort_newest ms) ms
unfolding sort_newest
sort_newest-perm [] = Perm.refl []
sort_newest-perm (m ∷ ms) =
    Perm.trans (insert_newest-perm m (sort_newest ms)) (Perm.cons m (sort_newest-perm ms))

partition-perm :
    (ds : List Decision) → Perm ((partition ds).0 ++ (partition ds).1) (map (λ d. d.manifest) ds)
unfolding partition
partition-perm [] = Perm.refl []
partition-perm (d ∷ ds) = elim (Bool-cases d.keep) [
  | inl kept ↦ rw kept (Perm.cons d.manifest (partition-perm ds))
  | inr removed ↦ rw removed (
      Perm.trans (perm_middle (partition ds).0 (partition ds).1)
        (Perm.cons d.manifest (partition-perm ds)))
]

split-ok :
    (p : Policy) (snapshots : List Manifest) (now : Instant) (keep remove : List Manifest)
    → split p snapshots now ≡ ok (keep, remove)
    → partition (decide_ordered p now (sort_newest snapshots)) ≡ (keep, remove)
unfolding split
split-ok p snapshots now keep remove h = ground arith

-- Nothing is lost and nothing is doubled: what `Split` keeps and what it removes are together the
-- snapshots that it was given.
split-perm :
    (p : Policy) (snapshots : List Manifest) (now : Instant) (keep remove : List Manifest)
    → split p snapshots now ≡ ok (keep, remove)
    → Perm (keep ++ remove) snapshots
split-perm p snapshots now keep remove h =
    let ordered = sort_newest snapshots in
    let ds = decide_ordered p now ordered in
    let e = split-ok p snapshots now keep remove h in
    subst (λ (x : List Manifest × List Manifest). Perm (x.0 ++ x.1) snapshots) e
      (Perm.trans (partition-perm ds) (
        rw
          (manifests-Decided (kept_rule p now ordered) [] ordered ds
            (decide_ordered-Decided p now ordered))
          (sort_newest-perm snapshots)))

-- What `holds_of` the decisions that do not keep holds of all that `Split` removes.
partition-removed :
    (P : Manifest → Type 0) (ds : List Decision)
    → All (λ d. d.keep ≡ false → P d.manifest) ds
    → All P (partition ds).1
unfolding partition
partition-removed P [] h = tt
partition-removed P (d ∷ ds) (here, rest) = elim (Bool-cases d.keep) [
  | inl kept ↦ rw kept (partition-removed P ds rest)
  | inr removed ↦ rw removed (here removed, partition-removed P ds rest)
]

-- No rule that looks at one snapshot alone wants it.
abbrev pub IsUnwanted : Policy → Instant → Manifest → Type 0
IsUnwanted p now m =
    (any (has_tag m) p.keep_tags ≡ false)
    × ((pos_part p.keep_within ≡ 0) ⊎ (m.started_at + pos_part p.keep_within ≤ now))

rules_false : (a b c d e : Bool) → false ≡ ((a || (b || (c || d))) || e) → (c ≡ false) × (b ≡ false)
rules_false a b c d e h = ground arith

not_within :
    (w : ℤ) (t now : ℕ)
    → (ltb_ℤ (pos 0) w && ltb now (t + pos_part w)) ≡ false
    → (pos_part w ≡ 0) ⊎ (t + pos_part w ≤ now)
not_within (pos zero) t now h = inl refl
not_within (pos (suc w)) t now h = inr (ground arith)
not_within (negsuc w) t now h = inl refl

removed-IsUnwanted :
    (p : Policy) (now : Instant) (all newer ms : List Manifest) (ds : List Decision)
    → Decided (kept_rule p now all) newer ms ds
    → All (λ d. d.keep ≡ false → IsUnwanted p now d.manifest) ds
removed-IsUnwanted p now all newer [] [] h = tt
removed-IsUnwanted p now all newer [] (d ∷ ds) h = absurd h
removed-IsUnwanted p now all newer (m ∷ ms) [] h = absurd h
removed-IsUnwanted p now all newer (m ∷ ms) (d ∷ ds) (same, kept, rest) = (
  λ removed.
      let (tags, young) = rules_false _ _ _ _ _ (sym removed ∙ kept) in
      rw same (tags, not_within p.keep_within m.started_at now young),
  removed-IsUnwanted p now all (m ∷ newer) ms ds rest,
)

-- `Split` removes no snapshot that carries one of `KeepTags`, and none that is younger than a
-- positive `KeepWithin`.
pub split_removes-IsUnwanted :
    (p : Policy) (snapshots : List Manifest) (now : Instant) (keep remove : List Manifest)
    → split p snapshots now ≡ ok (keep, remove)
    → All (IsUnwanted p now) remove
split_removes-IsUnwanted p snapshots now keep remove h =
    let ordered = sort_newest snapshots in
    let ds = decide_ordered p now ordered in
    subst (λ (x : List Manifest × List Manifest). All (IsUnwanted p now) x.1)
      (split-ok p snapshots now keep remove h)
      (partition-removed (IsUnwanted p now) ds
        (removed-IsUnwanted p now ordered [] ordered ds (decide_ordered-Decided p now ordered)))

-- `done` counts what stands above in the list, and is kept.
floor_loop-count :
    (least done kept : ℕ) (ds : List Decision)
    → kept ≡ done + kept_count ds
    → min least (done + length ds) ≤ done + kept_count (floor_loop least kept ds)
unfolding floor_loop kept_count
floor_loop-count least done kept [] e = omega arith
floor_loop-count least done kept (d ∷ ds) e = elim (Bool-cases (leb least kept)) [
  | inl full ↦ rw full (ground arith)
  | inr room ↦ elim (Bool-cases d.keep) [
    | inl here ↦ rw (room, here) (ground (arith, floor_loop-count least (done + 1) kept ds))
    | inr missing ↦
        rw (room, missing) (ground (arith, floor_loop-count least (done + 1) (kept + 1) ds))
  ]
]

length-floor_loop :
    (least kept : ℕ) (ds : List Decision) → length (floor_loop least kept ds) ≡ length ds
unfolding floor_loop
length-floor_loop least kept [] = refl
length-floor_loop least kept (d ∷ ds) =
    ground (arith, length-floor_loop least kept ds, length-floor_loop least (kept + 1) ds)

mark_floor-count :
    (least : ℤ) (ds : List Decision)
    → min (pos_part least) (length ds) ≤ kept_count (mark_floor least ds)
unfolding mark_floor
mark_floor-count (pos zero) ds = omega arith
mark_floor-count (pos (suc n)) ds =
    omega (arith, floor_loop-count (suc n) 0 (kept_count ds) ds (omega arith))
mark_floor-count (negsuc n) ds = omega arith

length-mark_floor : (least : ℤ) (ds : List Decision) → length (mark_floor least ds) ≡ length ds
unfolding mark_floor
length-mark_floor (pos zero) ds = refl
length-mark_floor (pos (suc n)) ds = length-floor_loop (suc n) (kept_count ds) ds
length-mark_floor (negsuc n) ds = refl

length-partition : (ds : List Decision) → length (partition ds).0 ≡ kept_count ds
unfolding partition kept_count
length-partition [] = refl
length-partition (d ∷ ds) = ground (arith, length-partition ds)

length-manifests : (ds : List Decision) → length (map (λ d. d.manifest) ds) ≡ length ds
length-manifests [] = refl
length-manifests (d ∷ ds) = ap suc (length-manifests ds)

length-insert_newest :
    (m : Manifest) (ms : List Manifest) → length (insert_newest m ms) ≡ length ms + 1
unfolding insert_newest
length-insert_newest m [] = omega arith
length-insert_newest m (n ∷ ns) = ground (arith, length-insert_newest m ns)

length-sort_newest : (ms : List Manifest) → length (sort_newest ms) ≡ length ms
unfolding sort_newest
length-sort_newest [] = refl
length-sort_newest (m ∷ ms) =
    omega (arith, length-insert_newest m (sort_newest ms), length-sort_newest ms)

length-decide_ordered :
    (p : Policy) (now : Instant) (ms : List Manifest) → length (decide_ordered p now ms) ≡ length ms
length-decide_ordered p now ms =
    sym (length-manifests (decide_ordered p now ms))
    ∙ ap length (manifests-Decided (kept_rule p now ms) [] ms _ (decide_ordered-Decided p now ms))

kept-decide_ordered :
    (p : Policy) (now : Instant) (ms : List Manifest)
    → min (pos_part p.min_snapshots) (length ms) ≤ kept_count (decide_ordered p now ms)
unfolding decide_ordered
kept-decide_ordered p now ms =
    subst (λ n. min (pos_part p.min_snapshots) n ≤ kept_count (decide_ordered p now ms))
      (length-decide_ordered p now ms)
      (rw length-mark_floor
        (mark_floor-count p.min_snapshots (mark_rules p now (map undecided ms))))

-- `Split` keeps at least `MinSnapshots` snapshots, or all of them where there are fewer.
pub split_keeps_floor :
    (p : Policy) (snapshots : List Manifest) (now : Instant) (keep remove : List Manifest)
    → split p snapshots now ≡ ok (keep, remove)
    → min (pos_part p.min_snapshots) (length snapshots) ≤ length keep
split_keeps_floor p snapshots now keep remove h =
    let ordered = sort_newest snapshots in
    let e : (partition (decide_ordered p now ordered)).0 ≡ keep =
      ap (λ (x : List Manifest × List Manifest). x.0) (split-ok p snapshots now keep remove h) in
    rw (← e, length-partition, ← length-sort_newest snapshots) (kept-decide_ordered p now ordered)

-- The policy whose only rule is a negative `KeepWithin`.
abbrev pub only_negative_within : ℕ → Policy
only_negative_within w = record {
  keep_last = pos 0;
  keep_hourly = pos 0;
  keep_daily = pos 0;
  keep_weekly = pos 0;
  keep_monthly = pos 0;
  keep_yearly = pos 0;
  keep_within = negsuc w;
  keep_tags = [];
  min_snapshots = pos 0;
}

mark_last_zero : (i : ℕ) (ds : List Decision) → mark_last (pos 0) i ds ≡ ds
unfolding mark_last
mark_last_zero i [] = refl
mark_last_zero i (d ∷ ds) = ground (arith, mark_last_zero (i + 1) ds)

partition-undecided : (ms : List Manifest) → partition (map undecided ms) ≡ ([], ms)
unfolding partition undecided
partition-undecided [] = refl
partition-undecided (m ∷ ms) = rw (partition-undecided ms)

-- The policy whose only rule is a negative `KeepWithin` passes `Validate`, and `Split` then
-- keeps no snapshot at all: it removes all that it is given.
pub negative_within_removes_all :
    (w : ℕ) (snapshots : List Manifest) (now : Instant)
    → (validate (only_negative_within w) ≡ ok tt)
      × (split (only_negative_within w) snapshots now ≡ ok ([], sort_newest snapshots))
unfolding split mark_rules mark_floor mark_buckets mark_bucket buckets mark_tags mark_within
    validate
negative_within_removes_all w snapshots now = (refl, rw mark_last_zero (rw partition-undecided))
