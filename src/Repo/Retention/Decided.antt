-- ===== src/Repo/Retention/Decided.antt =====
-- `Policy.Apply` of internal/repo/retention.go as a whole, against one rule that says for each
-- snapshot whether it is kept.
use better_amp_backup.Prelude.{
  subst, ℕ, zero, suc, ◌+◌, ◌≤◌, Bool, ◌||◌, leb, ltb, if◌then◌else◌, List, [], ◌∷◌, map, ℤ, pos,
  negsuc, pos_part, ◌≡◌, refl, ◌∙◌, arith, Bool-cases, inl, inr,
}
use better_amp_backup.Clock.{Instant}
use better_amp_backup.Repo.Manifest.{Manifest}
use better_amp_backup.Repo.Retention.{
  Policy, Decision, undecided, buckets, kept_count, floor_loop, mark_floor, mark_rules, mark_last,
  mark_within, mark_tags, decide_ordered, sort_newest, apply, ok,
}
use better_amp_backup.Repo.Retention.Marks.{
  Rule, Marks, either, Marks-either, last_rule, within_rule, tag_rule, mark_last-Marks,
  mark_within-Marks, mark_tags-Marks,
}
use better_amp_backup.Repo.Retention.Buckets.{buckets_rule, mark_buckets-Marks}

-- Some rule of the policy wants the snapshot.
abbrev pub wanted : Policy → Instant → Rule
wanted p now = either (last_rule p.keep_last) (
    either (within_rule p.keep_within now)
      (either (tag_rule p.keep_tags) (buckets_rule (buckets p))))

-- How many snapshots of `ms` a rule wants, and how many of the newer ones it does not.
abbrev pub wanted_count : Rule → List Manifest → List Manifest → ℕ
wanted_count rule newer [] = 0
wanted_count rule newer (m ∷ ms) =
    (if rule newer m then 1 else 0) + wanted_count rule (m ∷ newer) ms

abbrev pub unwanted : Rule → List Manifest → ℕ
unwanted rule [] = 0
unwanted rule (m ∷ newer) = (if rule newer m then 0 else 1) + unwanted rule newer

-- The floor takes the newest snapshots that no rule wants, as many as are missing.
abbrev pub rescued : ℤ → ℕ → Rule → Rule
rescued least total rule newer m = ltb (total + unwanted rule newer) (pos_part least)

-- The rule that `Apply` comes to, over all snapshots newest first.
abbrev pub kept_rule : Policy → Instant → List Manifest → Rule
kept_rule p now ordered =
    either (wanted p now)
      (rescued p.min_snapshots (wanted_count (wanted p now) [] ordered) (wanted p now))

-- One decision for each snapshot, in their order, and each keeps what the rule wants.
abbrev pub Decided : Rule → List Manifest → List Manifest → List Decision → Type 0
Decided rule newer [] [] = Unit
Decided rule newer [] (d ∷ ds) = ⊥
Decided rule newer (m ∷ ms) [] = ⊥
Decided rule newer (m ∷ ms) (d ∷ ds) =
    (d.manifest ≡ m) × (d.keep ≡ rule newer m) × Decided rule (m ∷ newer) ms ds

mark_rules-Marks :
    (p : Policy) (now : Instant) (ds : List Decision)
    → Marks (wanted p now) [] ds (mark_rules p now ds)
unfolding mark_rules
mark_rules-Marks p now ds =
    let ds1 = mark_last p.keep_last 0 ds in
    let ds2 = mark_within p.keep_within now ds1 in
    let ds3 = mark_tags p.keep_tags ds2 in
    Marks-either (last_rule p.keep_last) _ [] ds ds1 _ (mark_last-Marks p.keep_last 0 [] ds refl) (
      Marks-either (within_rule p.keep_within now) _ [] ds1 ds2 _
        (mark_within-Marks p.keep_within now [] ds1)
        (Marks-either (tag_rule p.keep_tags) (buckets_rule (buckets p)) [] ds2 ds3 _
          (mark_tags-Marks p.keep_tags [] ds2) (mark_buckets-Marks (buckets p) ds3)))

Decided-Marks :
    (rule : Rule) (newer ms : List Manifest) (es : List Decision)
    → Marks rule newer (map undecided ms) es
    → Decided rule newer ms es
unfolding undecided
Decided-Marks rule newer [] [] h = tt
Decided-Marks rule newer [] (e ∷ es) h = h
Decided-Marks rule newer (m ∷ ms) [] h = h
Decided-Marks rule newer (m ∷ ms) (e ∷ es) (same, kept, rest) =
    (same, kept, Decided-Marks rule (m ∷ newer) ms es rest)

-- What stands after `floor_loop` broke off.
Decided-full :
    (least total : ℕ) (rule : Rule) (newer ms : List Manifest) (ds : List Decision)
    → least ≤ total + unwanted rule newer
    → Decided rule newer ms ds
    → Decided (either rule (rescued (pos least) total rule)) newer ms ds
Decided-full least total rule newer [] [] h k = tt
Decided-full least total rule newer [] (d ∷ ds) h k = k
Decided-full least total rule newer (m ∷ ms) [] h k = k
Decided-full least total rule newer (m ∷ ms) (d ∷ ds) h (same, kept, rest) =
    (same, ground arith, Decided-full least total rule (m ∷ newer) ms ds (omega arith) rest)

floor_loop-Decided :
    (least total kept : ℕ) (rule : Rule) (newer ms : List Manifest) (ds : List Decision)
    → kept ≡ total + unwanted rule newer
    → Decided rule newer ms ds
    → Decided (either rule (rescued (pos least) total rule)) newer ms (floor_loop least kept ds)
unfolding floor_loop
floor_loop-Decided least total kept rule newer [] [] e k = tt
floor_loop-Decided least total kept rule newer [] (d ∷ ds) e k = absurd k
floor_loop-Decided least total kept rule newer (m ∷ ms) [] e k = absurd k
floor_loop-Decided least total kept rule newer (m ∷ ms) (d ∷ ds) e (same, keeps, rest) =
    elim (Bool-cases (leb least kept)) [
      | inl full ↦
          rw full (
            Decided-full least total rule newer (m ∷ ms) (d ∷ ds) (ground arith)
              (same, keeps, rest))
      | inr room ↦ elim (Bool-cases d.keep) [
        | inl kept_already ↦
            rw (room, kept_already)
              (
                same,
                ground arith,
                floor_loop-Decided least total kept rule (m ∷ newer) ms ds (ground arith) rest,
              )
        | inr missing ↦
            rw (room, missing)
              (
                same,
                ground arith,
                floor_loop-Decided least total (kept + 1) rule (m ∷ newer) ms ds (ground arith)
                    rest,
              )
      ]
    ]

pub manifests-Decided :
    (rule : Rule) (newer ms : List Manifest) (ds : List Decision)
    → Decided rule newer ms ds
    → map (λ d. d.manifest) ds ≡ ms
manifests-Decided rule newer [] [] h = refl
manifests-Decided rule newer [] (d ∷ ds) h = absurd h
manifests-Decided rule newer (m ∷ ms) [] h = absurd h
manifests-Decided rule newer (m ∷ ms) (d ∷ ds) (same, kept, rest) =
    cc (manifests-Decided rule (m ∷ newer) ms ds rest)

count-Decided :
    (rule : Rule) (newer ms : List Manifest) (ds : List Decision)
    → Decided rule newer ms ds
    → kept_count ds ≡ wanted_count rule newer ms
unfolding kept_count
count-Decided rule newer [] [] h = refl
count-Decided rule newer [] (d ∷ ds) h = absurd h
count-Decided rule newer (m ∷ ms) [] h = absurd h
count-Decided rule newer (m ∷ ms) (d ∷ ds) (same, kept, rest) =
    ground (arith, count-Decided rule (m ∷ newer) ms ds rest)

Decided-ext :
    (r s : Rule) (newer ms : List Manifest) (ds : List Decision)
    → ((n : List Manifest) (m : Manifest) → r n m ≡ s n m)
    → Decided r newer ms ds
    → Decided s newer ms ds
Decided-ext r s newer [] [] e h = tt
Decided-ext r s newer [] (d ∷ ds) e h = absurd h
Decided-ext r s newer (m ∷ ms) [] e h = absurd h
Decided-ext r s newer (m ∷ ms) (d ∷ ds) e (same, kept, rest) =
    (same, kept ∙ e newer m, Decided-ext r s (m ∷ newer) ms ds e rest)

never_below_zero : (n : ℕ) (b : Bool) → b ≡ (b || ltb n 0)
never_below_zero n b = ground arith

mark_floor-Decided :
    (least : ℤ) (rule : Rule) (ms : List Manifest) (ds : List Decision)
    → Decided rule [] ms ds
    → Decided
        (either rule (rescued least (wanted_count rule [] ms) rule))
        []
        ms
        (mark_floor least ds)
unfolding mark_floor
mark_floor-Decided (pos zero) rule ms ds h =
    Decided-ext rule _ [] ms ds (λ n m. never_below_zero _ (rule n m)) h
mark_floor-Decided (pos (suc n)) rule ms ds h =
    floor_loop-Decided (suc n) (wanted_count rule [] ms) (kept_count ds) rule [] ms ds
      (omega (arith, count-Decided rule [] ms ds h)) h
mark_floor-Decided (negsuc n) rule ms ds h =
    Decided-ext rule _ [] ms ds (λ k m. never_below_zero _ (rule k m)) h

pub decide_ordered-Decided :
    (p : Policy) (now : Instant) (ordered : List Manifest)
    → Decided (kept_rule p now ordered) [] ordered (decide_ordered p now ordered)
unfolding decide_ordered
decide_ordered-Decided p now ordered =
    mark_floor-Decided p.min_snapshots (wanted p now) ordered _
      (Decided-Marks (wanted p now) [] ordered _ (mark_rules-Marks p now (map undecided ordered)))

pub apply-Decided :
    (p : Policy) (snapshots : List Manifest) (now : Instant) (ds : List Decision)
    → apply p snapshots now ≡ ok ds
    → Decided (kept_rule p now (sort_newest snapshots)) [] (sort_newest snapshots) ds
unfolding apply
apply-Decided p snapshots now ds h =
    let e : decide_ordered p now (sort_newest snapshots) ≡ ds = ground (arith) in
    subst (λ x. Decided (kept_rule p now (sort_newest snapshots)) [] (sort_newest snapshots) x) e
      (decide_ordered-Decided p now (sort_newest snapshots))
