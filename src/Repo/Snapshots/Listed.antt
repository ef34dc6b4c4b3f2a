-- ===== src/Repo/Snapshots/Listed.antt =====
-- What `ListSnapshots` and `LatestFor` (internal/repo/repo.go) return comes out of manifest files.
use better_amp_backup.Prelude.{
  Bool, true, false, ◌||◌, not, if_cases, List, [], ◌∷◌, In, some, none, String, Bool-cases, ◌≡◌,
  ◌⊎◌, inl, inr, sym, ap, ◌∙◌, subst, arith,
}
use better_amp_backup.Paths.{Text, has_suffix}
use better_amp_backup.Repo.Manifest.{Manifest, SnapshotId}
use better_amp_backup.Repo.Manifest
use better_amp_backup.Repo.Disk.{
  Content, manifest, index_file, directory, Dir, Disk, ok, pure, gets, may_fail, io_error, bad_json,
  put, without,
}
use better_amp_backup.Repo.Disk.Keeps.{
  Keeps-may_fail, Keeps-result, bind-eq-ok, pure-eq-ok, gets-eq-ok, fail-ne-ok,
}
use better_amp_backup.Repo.Index.{IndexFile}
use better_amp_backup.Repo.Disk.Files.{In-without}
use better_amp_backup.Repo.Snapshots.{
  manifest_ext, parse_manifest, read_manifest, read_manifests, insert_by_id, sort_by_id,
  list_snapshots, is_directory, text_ltb, latest_for,
}
use better_amp_backup.Repo.Snapshots.Results.{IsManifestName, manifest_at, check_manifest-eq-ok}
use better_amp_backup.Repo.Snapshots.Latest.{latest_for-IsAnswer}

-- A manifest file of the directory that holds this manifest.
pub record IsListed (dir : Dir) (m : Manifest) : Type 0 where
  pub name : Text
  pub named : IsManifestName name
  pub there : In (manifest_at name m) dir

parse_manifest-eq-ok :
    (c : Content) (m : Manifest) (d e : Disk)
    → parse_manifest c d ≡ (ok m, e)
    → c ≡ manifest (some m)
unfolding parse_manifest
parse_manifest-eq-ok (manifest none) m d e q = absurd (fail-ne-ok bad_json m d e q)
parse_manifest-eq-ok (manifest (some m')) m d e q =
    ap (λ x. manifest (some x)) (check_manifest-eq-ok (Manifest.validate m') m' m d e q)
parse_manifest-eq-ok (index_file f) m d e q = absurd (fail-ne-ok bad_json m d e q)
parse_manifest-eq-ok directory m d e q = absurd (fail-ne-ok io_error m d e q)

read_manifest-content :
    (c : Content) (m : Manifest) (d e : Disk)
    → read_manifest c d ≡ (ok m, e)
    → c ≡ manifest (some m)
unfolding read_manifest
read_manifest-content c m d e q =
    let (_, d1, _, r1) = bind-eq-ok (may_fail io_error) _ d e m q in
    parse_manifest-eq-ok c m d1 e r1

insert_by_id-In : (x m : Manifest) (ms : List Manifest) → In x (insert_by_id m ms) → In x (m ∷ ms)
unfolding insert_by_id
insert_by_id-In x m [] h = h
insert_by_id-In x m (n ∷ ns) h =
    if_cases (λ (l : List Manifest). In x l → In x (m ∷ n ∷ ns)) (text_ltb n.id m.id)
      (λ _ k. elim k [
        | inl e ↦ inr (inl e)
        | inr i ↦ elim (insert_by_id-In x m ns i) [ inl e ↦ inl e | inr j ↦ inr (inr j) ]
      ])
      (λ _ k. k) h

sort_by_id-In : (x : Manifest) (ms : List Manifest) → In x (sort_by_id ms) → In x ms
unfolding sort_by_id
sort_by_id-In x [] h = h
sort_by_id-In x (m ∷ ms) h = elim (insert_by_id-In x m (sort_by_id ms) h) [
  | inl e ↦ inl e
  | inr k ↦ inr (sort_by_id-In x ms k)
]

IsListed-later :
    (f : Text × Content) (dir : Dir) (m : Manifest) → IsListed dir m → IsListed (f ∷ dir) m
IsListed-later f dir m h = record { name = h.name; named = h.named; there = inr h.there }

is_named : (a b : Bool) → (a || not b) ≡ false → b ≡ true
is_named a b h = ground arith

read_manifests-IsListed :
    (dir : Dir) (ms : List Manifest) (m : Manifest) (d e : Disk)
    → read_manifests dir d ≡ (ok ms, e)
    → In m ms
    → IsListed dir m
unfolding read_manifests
read_manifests-IsListed [] ms m d e q h = absurd (subst (In m) (sym (pure-eq-ok [] ms d e q).0) h)
read_manifests-IsListed ((name, c) ∷ dir) ms m d e q h =
    elim (Bool-cases (is_directory c || not (has_suffix name manifest_ext))) [
      | inl skipped ↦
          IsListed-later (name, c) dir m (read_manifests-IsListed dir ms m d e (rw skipped at q) h)
      | inr taken ↦
          let (m1, d1, q1, r1) = bind-eq-ok (read_manifest c) _ d e ms (rw taken at q) in
          let (ms1, d2, q2, r2) =
            bind-eq-ok (read_manifests dir) (λ xs. pure (m1 ∷ xs)) d1 e ms r1 in
          let same : m1 ∷ ms1 ≡ ms = (pure-eq-ok (m1 ∷ ms1) ms d2 e r2).0 in
          elim (subst (In m) (sym same) h) [
            | inl here ↦ record {
              name = name;
              named = is_named (is_directory c) (has_suffix name manifest_ext) taken;
              there = inl (
                  ap (λ x. manifest_at name x) here
                  ∙ sym (ap (λ x. (name, x)) (read_manifest-content c m1 d d1 q1)));
            }
            | inr later ↦
                IsListed-later (name, c) dir m (read_manifests-IsListed dir ms1 m d1 d2 q2 later)
          ]
    ]

list_snapshots-IsListed :
    (ms : List Manifest) (m : Manifest) (d e : Disk)
    → list_snapshots d ≡ (ok ms, e)
    → In m ms
    → IsListed d.snapshots m
unfolding list_snapshots
list_snapshots-IsListed ms m d e q h =
    let (_, d1, q1, r1) = bind-eq-ok (may_fail io_error) _ d e ms q in
    let (dir, d2, q2, r2) = bind-eq-ok (gets (λ d. d.snapshots)) _ d1 e ms r1 in
    let (ms1, d3, q3, r3) =
      bind-eq-ok (read_manifests dir) (λ xs. pure (sort_by_id xs)) d2 e ms r2 in
    let same = (pure-eq-ok (sort_by_id ms1) ms d3 e r3).0 in
    let files = Keeps-result (Keeps-may_fail io_error) d d1 (ok tt) q1 in
    let listed = (gets-eq-ok (λ d. d.snapshots) dir d1 d2 q2).0 in
    subst (λ x. IsListed x m) (sym listed ∙ files.snapshots)
      (read_manifests-IsListed dir ms1 m d2 d3 q3 (sort_by_id-In m ms1 (subst (In m) (sym same) h)))

-- The id that `LatestFor` returns is empty or that of a manifest file.
pub latest_for-IsListed :
    (name : String) (id : SnapshotId) (d e : Disk)
    → latest_for name d ≡ (ok id, e)
    → (id ≡ []) ⊎ ((m : Manifest) × IsListed d.snapshots m × (m.id ≡ id))
latest_for-IsListed name id d e q =
    let (ms, listing, answer) = latest_for-IsAnswer name d e id q in
    elim answer [
      | inl (empty, _) ↦ inl empty
      | inr a ↦ inr (a.manifest, list_snapshots-IsListed ms a.manifest d e listing a.listed, a.same)
    ]

-- Files that are put among the snapshots or taken away, and the manifests that are listed.
pub IsListed-without :
    (n : Text) (dir : Dir) (m : Manifest) → IsListed (without n dir) m → IsListed dir m
IsListed-without n dir m h = record {
  name = h.name;
  named = h.named;
  there = In-without (manifest_at h.name m) n dir h.there;
}

pub IsListed-put :
    (n : Text) (c : Content) (dir : Dir) (m : Manifest)
    → IsListed (put n c dir) m
    → (c ≡ manifest (some m)) ⊎ IsListed dir m
IsListed-put n c dir m h = elim h.there [
  | inl here ↦ inl (sym (ap (λ x. x.1) here))
  | inr later ↦
      inr (IsListed-without n dir m (record { name = h.name; named = h.named; there = later }))
]

pub IsListed-put_index :
    (n : Text) (f : IndexFile) (dir : Dir) (m : Manifest)
    → IsListed (put n (index_file f) dir) m
    → IsListed dir m
IsListed-put_index n f dir m h = elim (IsListed-put n (index_file f) dir m h) [
  | inl clash ↦ absurd (ground arith)
  | inr old ↦ old
]
