-- ===== src/Repo/Snapshots/Latest.antt =====
-- `LatestFor` (internal/repo/repo.go) finds the parent of the next backup.
use mathlib.Core.List.{reverse-reverse}
use better_amp_backup.Prelude.{
  Bool, true, false, ◌&&◌, if_cases, List, [], ◌∷◌, In, reverse, String, str_eq, ◌≡◌, ◌⊎◌, inl, inr,
  refl, sym, ap, ◌∙◌, subst, arith,
}
use better_amp_backup.Repo.Manifest.{Manifest, SnapshotId}
use better_amp_backup.Repo.Disk.{Disk, ok, pure}
use better_amp_backup.Repo.Disk.Keeps.{bind-eq-ok, pure-eq-ok}
use better_amp_backup.Repo.Snapshots.{
  text_ltb, sort_by_id, read_manifests, list_snapshots, is_complete, latest_in, latest_for,
}
use better_amp_backup.Repo.Snapshots.Order.{
  IsAscending, IsDescending, sort_by_id-IsAscending, In-reverse, reverse-IsDescending,
}

-- A complete snapshot of the instance.
abbrev pub is_eligible : String → Manifest → Bool
is_eligible name m = str_eq m.instance_name name && is_complete m.state

-- The newest of the eligible manifests has this id.
pub record IsLatest (name : String) (ms : List Manifest) (id : SnapshotId) : Type 0 where
  pub manifest : Manifest
  pub listed : In manifest ms
  pub eligible : is_eligible name manifest ≡ true
  pub same : manifest.id ≡ id
  pub newest : (n : Manifest) → In n ms → is_eligible name n ≡ true → text_ltb id n.id ≡ false

abbrev pub NoneEligible : String → List Manifest → Type 0
NoneEligible name ms = (n : Manifest) → In n ms → is_eligible name n ≡ false

-- Either no manifest is eligible, and the id is empty, or the id is that of the newest.
abbrev pub IsAnswer : String → List Manifest → SnapshotId → Type 0
IsAnswer name ms id = ((id ≡ []) × NoneEligible name ms) ⊎ IsLatest name ms id

text_ltb_self : (id : SnapshotId) → text_ltb id id ≡ false
unfolding text_ltb
text_ltb_self [] = refl
text_ltb_self (c ∷ cs) = ground (arith, text_ltb_self cs)

IsAnswer-later :
    (name : String) (m : Manifest) (ms : List Manifest) (id : SnapshotId)
    → is_eligible name m ≡ false
    → IsAnswer name ms id
    → IsAnswer name (m ∷ ms) id
IsAnswer-later name m ms id not (inl (empty, none)) = inl (
  empty,
  λ n i. elim i [ inl e ↦ subst (λ x. is_eligible name x ≡ false) (sym e) not | inr j ↦ none n j ],
)
IsAnswer-later name m ms id not (inr a) = inr (record {
  manifest = a.manifest;
  listed = inr a.listed;
  eligible = a.eligible;
  same = a.same;
  newest = λ n i h. elim i [
    | inl e ↦ absurd (apart (sym h ∙ ap (is_eligible name) e ∙ not))
    | inr j ↦ a.newest n j h
  ];
})
  where
    apart : true ≡ false → ⊥
    apart q = ground arith

latest_in-IsAnswer :
    (name : String) (ms : List Manifest) → IsDescending ms → IsAnswer name ms (latest_in name ms)
unfolding latest_in
latest_in-IsAnswer name [] h = inl (refl, λ n i. absurd i)
latest_in-IsAnswer name (m ∷ ms) (h, hs) =
    if_cases (IsAnswer name (m ∷ ms)) (is_eligible name m)
      (λ e. inr (record {
        manifest = m;
        listed = inl refl;
        eligible = e;
        same = refl;
        newest = λ n i k. elim i [
          | inl q ↦
              subst (λ (x : Manifest). text_ltb m.id x.id ≡ false) (sym q) (text_ltb_self m.id)
          | inr j ↦ h n j
        ];
      }))
      (λ e. IsAnswer-later name m ms (latest_in name ms) e (latest_in-IsAnswer name ms hs))

In-reversed : (n : Manifest) (ms : List Manifest) → In n ms → In n (reverse ms)
In-reversed n ms i = In-reverse n (reverse ms) (subst (In n) (sym (reverse-reverse ms)) i)

IsAnswer-reverse :
    (name : String) (ms : List Manifest) (id : SnapshotId)
    → IsAnswer name (reverse ms) id
    → IsAnswer name ms id
IsAnswer-reverse name ms id (inl (empty, none)) = inl (empty, λ n i. none n (In-reversed n ms i))
IsAnswer-reverse name ms id (inr a) = inr (record {
  manifest = a.manifest;
  listed = In-reverse a.manifest ms a.listed;
  eligible = a.eligible;
  same = a.same;
  newest = λ n i h. a.newest n (In-reversed n ms i) h;
})

list_snapshots-IsAscending :
    (d e : Disk) (ms : List Manifest) → list_snapshots d ≡ (ok ms, e) → IsAscending ms
unfolding list_snapshots
list_snapshots-IsAscending d e ms q =
    let (_, d1, q1, r1) = bind-eq-ok _ _ d e ms q in
    let (dir, d2, q2, r2) = bind-eq-ok _ _ d1 e ms r1 in
    let (all, d3, q3, r3) =
      bind-eq-ok (read_manifests dir) (λ all. pure (sort_by_id all)) d2 e ms r2 in
    subst IsAscending (pure-eq-ok (sort_by_id all) ms d3 e r3).0 (sort_by_id-IsAscending all)

-- When `LatestFor` returns an id, it is that of the complete snapshot of the instance with the
-- greatest id among those that `ListSnapshots` returns, or empty where none of them is complete and
-- of this instance. Partial and failed snapshots never are the answer.
pub latest_for-IsAnswer :
    (name : String) (d e : Disk) (id : SnapshotId)
    → latest_for name d ≡ (ok id, e)
    → (ms : List Manifest) × (list_snapshots d ≡ (ok ms, e)) × IsAnswer name ms id
unfolding latest_for
latest_for-IsAnswer name d e id q =
    let (ms, d1, q1, r1) =
      bind-eq-ok list_snapshots (λ all. pure (latest_in name (reverse all))) d e id q in
    let (same, there) = pure-eq-ok (latest_in name (reverse ms)) id d1 e r1 in
    let ascending = list_snapshots-IsAscending d d1 ms q1 in
    (
      ms,
      subst (λ x. list_snapshots d ≡ (ok ms, x)) there q1,
      subst (IsAnswer name ms) same (
          IsAnswer-reverse name ms _
            (latest_in-IsAnswer name (reverse ms) (reverse-IsDescending ms ascending))),
    )
