-- ===== src/Repo/Writer/Others.antt =====
-- Writing a snapshot leaves the files of every other snapshot alone
-- (internal/repo/snapshotwriter.go).
use better_amp_backup.Prelude.{
  ℕ, ◌⊎◌, false, List, [], ◌∷◌, ◌++◌, length, length-append, Option, none, some, Bool-cases, ◌≡◌,
  inl, inr, refl, sym, ap, ◌∙◌, subst, arith, list_eq, list_eq→eq, list_eq_self,
}
use better_amp_backup.Paths.{Text}
use better_amp_backup.Repo.Manifest.{Hash, Manifest, SnapshotId}
use better_amp_backup.Repo.Manifest
use better_amp_backup.Repo.Index.{Entry, IndexFile}
use better_amp_backup.Repo.Disk.{
  Disk, manifest, index_file, Action, Result, ok, err, RepoError, io_error, already_finished,
  bad_manifest, may_fail, find,
}
use better_amp_backup.Repo.Disk.Keeps.{
  IsPreorder, Keeps, SameFiles, Keeps-may_fail, Keeps-reads, Keeps-bind, Keeps-pure, Keeps-fail,
  Keeps-if,
}
use better_amp_backup.Repo.Disk.Files.{find-put_other, find-without_other}
use better_amp_backup.Repo.Snapshots.{manifest_ext, index_ext}
use better_amp_backup.Repo.Snapshots.Listed.{
  IsListed, IsListed-put, IsListed-put_index, IsListed-without,
}
use better_amp_backup.Repo.Writer.{
  SnapshotWriter, filled_in, after_error, on_error, place, publish_checked, publish, commit,
  remove_file,
}
use better_amp_backup.Repo.Writer.Fails.{index_name_ne}

head_tail : (x y : ℕ) (xs ys : List ℕ) → x ∷ xs ≡ y ∷ ys → (x ≡ y) × (xs ≡ ys)
head_tail x y xs ys q = (ground arith, ground arith)

append_cancel : (xs ys zs : List ℕ) → xs ++ zs ≡ ys ++ zs → xs ≡ ys
append_cancel [] [] zs q = refl
append_cancel [] (y ∷ ys) zs q = absurd (omega (arith, ap length q, length-append ys zs))
append_cancel (x ∷ xs) [] zs q = absurd (omega (arith, ap length q, length-append xs zs))
append_cancel (x ∷ xs) (y ∷ ys) zs q =
    let (same, rest) = head_tail x y (xs ++ zs) (ys ++ zs) q in
    ap (λ h. h ∷ xs) same ∙ ap (λ t. y ∷ t) (append_cancel xs ys zs rest)

-- Files of different snapshots have different names.
name_ne :
    (ext : Text) (i j : SnapshotId) → list_eq i j ≡ false → list_eq (i ++ ext) (j ++ ext) ≡ false
name_ne ext i j ne = elim (Bool-cases (list_eq (i ++ ext) (j ++ ext))) [
  | inl e ↦
      let same = append_cancel i j ext (list_eq→eq (i ++ ext) (j ++ ext) e) in
      absurd (clash (subst (λ x. list_eq x j ≡ false) same ne))
  | inr e ↦ e
]
  where
    clash : list_eq j j ≡ false → ⊥
    clash k = ground (arith, list_eq_self j)

-- What the snapshots other than the new one have is as it was, and no other is listed.
pub record SameOthers (new : SnapshotId) (d e : Disk) : Type 0 where
  pub same_manifest :
      (id : SnapshotId)
      → list_eq new id ≡ false
      → find (id ++ manifest_ext) e.snapshots ≡ find (id ++ manifest_ext) d.snapshots
  pub same_index :
      (id : SnapshotId)
      → list_eq new id ≡ false
      → find (id ++ index_ext) e.snapshots ≡ find (id ++ index_ext) d.snapshots
  pub listed : (m : Manifest) → IsListed e.snapshots m → (m.id ≡ new) ⊎ IsListed d.snapshots m

instance abbrev pub SameOthers-preorder : {new : SnapshotId} → IsPreorder (SameOthers new)
SameOthers-preorder = record {
  reflexive =
      λ d. record { same_manifest = λ id n. refl; same_index = λ id n. refl; listed = λ m. inr };
  transitive = λ d e f h k. record {
    same_manifest = λ id n. k.same_manifest id n ∙ h.same_manifest id n;
    same_index = λ id n. k.same_index id n ∙ h.same_index id n;
    listed = λ m l. elim (k.listed m l) [ inl fresh ↦ inl fresh | inr old ↦ h.listed m old ];
  };
}

same_manifests : (m m' : Manifest) → manifest (some m) ≡ manifest (some m') → m ≡ m'
same_manifests m m' q = ground arith

module _ (new : SnapshotId) where
  pub SameFiles-SameOthers : (d e : Disk) → SameFiles d e → SameOthers new d e
  SameFiles-SameOthers d e h = record {
    same_manifest = λ id n. ap (find (id ++ manifest_ext)) h.snapshots;
    same_index = λ id n. ap (find (id ++ index_ext)) h.snapshots;
    listed = λ m l. inr (subst (λ dir. IsListed dir m) h.snapshots l);
  }

  Others-call : (x : RepoError) → Keeps (SameOthers new) (may_fail x)
  Others-call x = Keeps-reads (SameOthers new) (may_fail x) SameFiles-SameOthers (Keeps-may_fail x)

  manifest_index_ne :
      (id : SnapshotId)
      → list_eq new id ≡ false
      → list_eq (new ++ manifest_ext) (id ++ index_ext) ≡ false
  manifest_index_ne id n = elim (Bool-cases (list_eq (new ++ manifest_ext) (id ++ index_ext))) [
    | inl e ↦
        let same = list_eq→eq (new ++ manifest_ext) (id ++ index_ext) e in
        absurd
          (clash (subst (λ x. list_eq (id ++ index_ext) x ≡ false) same (index_name_ne id new)))
    | inr e ↦ e
  ]
    where
      clash : list_eq (id ++ index_ext) (id ++ index_ext) ≡ false → ⊥
      clash k = ground (arith, list_eq_self (id ++ index_ext))

  Others-place_index :
      (f : IndexFile) → Keeps (SameOthers new) (place (new ++ index_ext) (index_file f))
  Others-place_index f = record {
    at = λ d. record {
      same_manifest = λ id n.
          find-put_other (id ++ manifest_ext) (new ++ index_ext) (index_file f) d.snapshots
            (index_name_ne new id);
      same_index = λ id n.
          find-put_other (id ++ index_ext) (new ++ index_ext) (index_file f) d.snapshots
            (name_ne index_ext new id n);
      listed = λ m l. inr (IsListed-put_index (new ++ index_ext) f d.snapshots m l);
    };
  }

  Others-place_manifest :
      (m : Manifest)
      → m.id ≡ new
      → Keeps (SameOthers new) (place (new ++ manifest_ext) (manifest (some m)))
  Others-place_manifest m is_new = record {
    at = λ d. record {
      same_manifest = λ id n.
          find-put_other (id ++ manifest_ext) (new ++ manifest_ext) (manifest (some m)) d.snapshots
            (name_ne manifest_ext new id n);
      same_index = λ id n.
          find-put_other (id ++ index_ext) (new ++ manifest_ext) (manifest (some m)) d.snapshots
            (manifest_index_ne id n);
      listed = λ m' l.
          elim (IsListed-put (new ++ manifest_ext) (manifest (some m)) d.snapshots m' l) [
            | inl here ↦ inl (sym (ap (λ x. x.id) (same_manifests m m' here)) ∙ is_new)
            | inr old ↦ inr old
          ];
    };
  }

  Others-remove : Keeps (SameOthers new) (remove_file (new ++ index_ext))
  Others-remove = Keeps-bind _ _ (Others-call io_error) (λ _. record {
    at = λ d. record {
      same_manifest = λ id n.
          find-without_other (id ++ manifest_ext) (new ++ index_ext) d.snapshots
            (index_name_ne new id);
      same_index = λ id n.
          find-without_other (id ++ index_ext) (new ++ index_ext) d.snapshots
            (name_ne index_ext new id n);
      listed = λ m l. inr (IsListed-without (new ++ index_ext) d.snapshots m l);
    };
  })

module _ (new : SnapshotId) {A : Type 0} where
  Others-after_error :
      (cleanup : Action (Unit {0})) (d : Disk) (x : Result A × Disk)
      → Keeps (SameOthers new) cleanup
      → SameOthers new d x.1
      → SameOthers new d (after_error cleanup x).1
  Others-after_error cleanup d (ok a, e) h k = k
  Others-after_error cleanup d (err x, e) h k =
      SameOthers-preorder.transitive d e (cleanup e).1 k (h.at e)

Others-publish_checked :
    (m : Manifest) (x : Option Manifest.ManifestError)
    → Keeps (SameOthers m.id) (publish_checked m x)
unfolding publish_checked
Others-publish_checked m (some x) = Keeps-fail (bad_manifest x)
Others-publish_checked m none =
    Keeps-bind _ _ (Others-call m.id io_error)
      (λ _. Keeps-bind _ _ (Others-place_manifest m.id m refl) (λ _. Keeps-pure m))

module _ (hash_of : List Entry → Hash) where
  pub Others-commit :
      (w : SnapshotWriter) (m : Manifest) → Keeps (SameOthers w.id) (commit hash_of w m)
  unfolding commit on_error publish
  Others-commit w m =
      let call = Others-call w.id io_error in
      Keeps-if w.done _ _ (Keeps-fail already_finished) (
        Keeps-bind _ _ call (λ _. Keeps-bind _ _ call (λ _. Keeps-bind _ _ call (λ _.
          Keeps-bind _ _ call (λ _. Keeps-bind _ _ (Others-place_index w.id _) (λ _. record {
            at = λ d.
                Others-after_error w.id (remove_file (w.id ++ index_ext)) d _ (Others-remove w.id)
                  (let h = Others-publish_checked (filled_in w (hash_of w.staged) m) _ in h.at d);
          }))))))
