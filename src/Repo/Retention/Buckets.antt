-- ===== src/Repo/Retention/Buckets.antt =====
-- The bucket loops of internal/repo/retention.go, said without their `seen` map and their `break`.
use better_amp_backup.Prelude.{
  list_eq→eq, list_eq, ℕ, zero, suc, ◌+◌, ◌≤◌, Bool, true, false, ◌&&◌, ◌||◌, not, leb, ltb,
  if◌then◌else◌, List, [], ◌∷◌, length, String, ℤ, pos, negsuc, ltb_ℤ, ◌≡◌, refl, arith, Bool-cases,
  inl, inr, any,
}
use better_amp_backup.Clock.{Instant}
use better_amp_backup.Repo.Manifest.{Manifest}
use better_amp_backup.Repo.Retention.{
  Decision, Bucket, seen_in, bucket_loop, mark_bucket, mark_buckets,
}
use better_amp_backup.Repo.Retention.Marks.{
  Rule, Marks, Marks-never, Marks-either, never, Marks-ext,
}

abbrev Key : Type 0
Key = Instant → List ℕ

-- Does one of the snapshots stand in the bucket `k`?
abbrev pub holds : Key → List ℕ → List Manifest → Bool
holds key k [] = false
holds key k (m ∷ ms) = list_eq (key m.started_at) k || holds key k ms

-- How many buckets the snapshots fill.
abbrev pub filled : Key → List Manifest → ℕ
filled key [] = 0
filled key (m ∷ ms) = (if holds key (key m.started_at) ms then 0 else 1) + filled key ms

-- Fewer than `count` buckets are filled by newer snapshots, and none of these is in this bucket.
abbrev pub fresh_rule : ℕ → Key → Rule
fresh_rule count key newer m =
    ltb (filled key newer) count && not (holds key (key m.started_at) newer)

-- What `seen` holds: the buckets of the newer snapshots, each once.
record Tracks (key : Key) (newer : List Manifest) (seen : List (List ℕ)) : Type 0 where
  same : (k : List ℕ) → seen_in seen k ≡ holds key k newer
  size : length seen ≡ filled key newer

Marks-full :
    (count : ℕ) (key : Key) (newer : List Manifest) (ds : List Decision)
    → count ≤ filled key newer
    → Marks (fresh_rule count key) newer ds ds
Marks-full count key newer [] h = tt
Marks-full count key newer (d ∷ ds) h =
    (refl, ground arith, Marks-full count key (d.manifest ∷ newer) ds (omega arith))

Tracks-old :
    (key : Key) (newer : List Manifest) (seen : List (List ℕ)) (m : Manifest)
    → Tracks key newer seen
    → seen_in seen (key m.started_at) ≡ true
    → Tracks key (m ∷ newer) seen
Tracks-old key newer seen m t h = record {
  same = λ k. elim (Bool-cases (list_eq (key m.started_at) k)) [
    | inl e ↦ rw e (rw (← list_eq→eq (key m.started_at) k e) h)
    | inr e ↦ rw e (t.same k)
  ];
  size = rw (← t.same (key m.started_at)) (rw h (ground (arith, t.size)));
}

Tracks-new :
    (key : Key) (newer : List Manifest) (seen : List (List ℕ)) (m : Manifest)
    → Tracks key newer seen
    → seen_in seen (key m.started_at) ≡ false
    → Tracks key (m ∷ newer) (key m.started_at ∷ seen)
unfolding seen_in
Tracks-new key newer seen m t h = record {
  same = λ k. rw (t.same k);
  size = rw (← t.same (key m.started_at)) (rw h (ground (arith, t.size)));
}

bucket_loop-Marks :
    (count : ℕ) (name : String) (key : Key) (newer : List Manifest) (seen : List (List ℕ))
    (ds : List Decision)
    → Tracks key newer seen
    → Marks (fresh_rule count key) newer ds (bucket_loop count name key seen ds)
unfolding bucket_loop
bucket_loop-Marks count name key newer seen [] t = tt
bucket_loop-Marks count name key newer seen (d ∷ ds) t =
    elim (Bool-cases (seen_in seen (key d.manifest.started_at))) [
      | inl old ↦ rw old (
        refl,
        ground (arith, t.same (key d.manifest.started_at)),
        bucket_loop-Marks count name key (d.manifest ∷ newer) seen ds
            (Tracks-old key newer seen d.manifest t old),
      )
      | inr new ↦ elim (Bool-cases (leb count (length seen))) [
        | inl full ↦ rw (new, full) (Marks-full count key newer (d ∷ ds) (ground (arith, t.size)))
        | inr room ↦
            rw (new, room)
              (
                refl,
                ground (arith, t.same (key d.manifest.started_at), t.size),
                bucket_loop-Marks count name key (d.manifest ∷ newer)
                    (key d.manifest.started_at ∷ seen) ds
                    (Tracks-new key newer seen d.manifest t new),
              )
      ]
    ]

-- The newest of its bucket, among the `count` newest buckets that hold a snapshot.
abbrev pub bucket_rule : Bucket → Rule
bucket_rule b newer m =
    ltb_ℤ (pos (filled b.key newer)) b.count && not (holds b.key (b.key m.started_at) newer)

full_false : (n : ℕ) (b : Bool) → false ≡ (ltb n 0 && b)
full_false n b = ground arith

pos_not_le_zero : (n : ℕ) → leb (suc n) 0 ≡ false
pos_not_le_zero n = ground arith

mark_bucket_of-Marks :
    (count : ℤ) (name : String) (key : Key) (ds : List Decision)
    → let b : Bucket = record { count = count; name = name; key = key } in
      Marks (bucket_rule b) [] ds (mark_bucket b ds)
unfolding mark_bucket
mark_bucket_of-Marks (pos zero) name key ds =
    Marks-ext never _ [] ds ds (λ n m. full_false (filled key n) _) (Marks-never [] ds)
mark_bucket_of-Marks (pos (suc n)) name key ds = rw (pos_not_le_zero n) (
    bucket_loop-Marks (suc n) name key [] [] ds
      (unfold seen_in in record { same = λ k. refl; size = refl }))
mark_bucket_of-Marks (negsuc n) name key ds = Marks-never [] ds

abbrev pub buckets_rule : List Bucket → Rule
buckets_rule bs newer m = any (λ b. bucket_rule b newer m) bs

pub mark_buckets-Marks :
    (bs : List Bucket) (ds : List Decision) → Marks (buckets_rule bs) [] ds (mark_buckets bs ds)
unfolding mark_buckets
mark_buckets-Marks [] ds = Marks-never [] ds
mark_buckets-Marks (b ∷ bs) ds =
    Marks-either (bucket_rule b) (buckets_rule bs) [] ds (mark_bucket b ds) _
      (mark_bucket_of-Marks b.count b.name b.key ds) (mark_buckets-Marks bs (mark_bucket b ds))
