-- ===== src/Repo/Writer/Fails.antt =====
-- A snapshot whose writing failed is not there (internal/repo/snapshotwriter.go).
use better_amp_backup.Prelude.{
  ℕ, Bool, true, false, List, [], ◌∷◌, ◌++◌, codes, String, Option, none, some, Bool-cases, ◌≡◌,
  inl, inr, refl, ap, ◌∙◌, subst, arith, list_eq, list_eq→eq, if_cases,
}
use better_amp_backup.Paths.{Text}
use better_amp_backup.Repo.Manifest.{Hash, Manifest, SnapshotId, valid_snapshot_id, no_instance}
use better_amp_backup.Repo.Manifest
use better_amp_backup.Repo.Index.{Entry, EntryError, IndexFile}
use better_amp_backup.Repo.Disk.{
  Disk, Content, manifest, index_file, ok, err, Result, Action, io_error, already_finished,
  bad_manifest, pure, fail, may_fail, find, ◌>>=◌, RepoError,
}
use better_amp_backup.Repo.Disk.Keeps.{
  IsPreorder, Keeps, SameFiles, SameFiles-preorder, Keeps-may_fail, Keeps-result, Keeps-reads,
  Keeps-bind, Keeps-fail, keeps_rules, bind_cases,
}
use better_amp_backup.Repo.Disk.Files.{find-put_other, find-without_other}
use better_amp_backup.Repo.Snapshots.{manifest_ext, index_ext}
use better_amp_backup.Repo.Snapshots.Listed.{IsListed, IsListed-without, IsListed-put_index}
use better_amp_backup.Repo.Writer.{
  SnapshotWriter, new_snapshot_writer, create_writer, add, add_checked, after_error, on_error,
  place, publish_checked, publish, commit, remove_file,
}

abbrev last_code : List ℕ → ℕ
last_code [] = 0
last_code (x ∷ []) = x
last_code (x ∷ y ∷ ys) = last_code (y ∷ ys)

last_code-append :
    (xs : List ℕ) (y : ℕ) (ys : List ℕ) → last_code (xs ++ y ∷ ys) ≡ last_code (y ∷ ys)
last_code-append [] y ys = refl
last_code-append (x ∷ []) y ys = refl
last_code-append (x ∷ z ∷ zs) y ys = last_code-append (z ∷ zs) y ys

-- An index has the name of no manifest.
pub index_name_ne : (i j : SnapshotId) → list_eq (i ++ index_ext) (j ++ manifest_ext) ≡ false
index_name_ne i j = elim (Bool-cases (list_eq (i ++ index_ext) (j ++ manifest_ext))) [
  | inl e ↦ absurd (
      omega (
        arith,
        ap last_code (list_eq→eq (i ++ index_ext) (j ++ manifest_ext) e),
        last_code-append i 46 (codes "idx.zst"),
        last_code-append j 46 (codes "json"),
      ))
  | inr e ↦ e
]

-- Each manifest is as it was: the same content, or as absent as before, and no other is listed.
pub record SameManifests (d e : Disk) : Type 0 where
  pub manifest_file :
      (id : SnapshotId)
      → find (id ++ manifest_ext) e.snapshots ≡ find (id ++ manifest_ext) d.snapshots
  pub listed : (m : Manifest) → IsListed e.snapshots m → IsListed d.snapshots m

instance abbrev pub SameManifests-preorder : IsPreorder SameManifests
SameManifests-preorder = record {
  reflexive = λ d. record { manifest_file = λ id. refl; listed = λ m l. l };
  transitive = λ d e f h k. record {
    manifest_file = λ id. k.manifest_file id ∙ h.manifest_file id;
    listed = λ m l. h.listed m (k.listed m l);
  };
}

pub SameFiles-SameManifests : (d e : Disk) → SameFiles d e → SameManifests d e
SameFiles-SameManifests d e h = record {
  manifest_file = λ id. ap (find (id ++ manifest_ext)) h.snapshots;
  listed = λ m l. subst (λ dir. IsListed dir m) h.snapshots l;
}

Keeps-place :
    (i : SnapshotId) (f : IndexFile) → Keeps SameManifests (place (i ++ index_ext) (index_file f))
Keeps-place i f = record {
  at = λ d. record {
    manifest_file = λ id.
        find-put_other (id ++ manifest_ext) (i ++ index_ext) (index_file f) d.snapshots
          (index_name_ne i id);
    listed = λ m. IsListed-put_index (i ++ index_ext) f d.snapshots m;
  };
}

Keeps-call : (x : RepoError) → Keeps SameManifests (may_fail x)
Keeps-call x = Keeps-reads SameManifests (may_fail x) SameFiles-SameManifests (Keeps-may_fail x)

Keeps-remove : (i : SnapshotId) → Keeps SameManifests (remove_file (i ++ index_ext))
Keeps-remove i = Keeps-bind _ _ (Keeps-call io_error) (λ _. record {
  at = λ d. record {
    manifest_file = λ id.
        find-without_other (id ++ manifest_ext) (i ++ index_ext) d.snapshots (index_name_ne i id);
    listed = λ m. IsListed-without (i ++ index_ext) d.snapshots m;
  };
})

-- Where the action failed, the manifests are as they were.
abbrev pub FailsClean : {A : Type 0} → Disk → Result A × Disk → Type 0
FailsClean d (ok a, e) = Unit
FailsClean d (err x, e) = SameManifests d e

module _ {A : Type 0} where
  pub Keeps-FailsClean : (m : Action A) (d : Disk) → Keeps SameManifests m → FailsClean d (m d)
  Keeps-FailsClean m d h = go (m d).0 (m d).1 (h.at d)
    where
      go : (r : Result A) (e : Disk) → SameManifests d e → FailsClean d (r, e)
      go (ok a) e k = tt
      go (err x) e k = k

  FailsClean-trans :
      (d e : Disk) (x : Result A × Disk) → SameManifests d e → FailsClean e x → FailsClean d x
  FailsClean-trans d e (ok a, f) h k = tt
  FailsClean-trans d e (err x, f) h k = SameManifests-preorder.transitive d e f h k

module _ {A B : Type 0} where
  -- A first step that keeps the manifests, and a second one that fails clean.
  pub FailsClean-bind :
      (m : Action A) (f : A → Action B) (d : Disk)
      → Keeps SameManifests m
      → ((a : A) (e : Disk) → FailsClean e (f a e))
      → FailsClean d ((m >>= f) d)
  FailsClean-bind m f d h k =
      bind_cases (FailsClean d) m f d
        (λ a e q. FailsClean-trans d e (f a e) (Keeps-result h d e (ok a) q) (k a e))
        (λ x e q. Keeps-result h d e (err x) q)

-- The last two steps of a commit do not fail.
FailsClean-placed :
    (name : Text) (c : Content) (m : Manifest) (d : Disk)
    → FailsClean d ((place name c >>= λ _. pure m) d)
unfolding ◌>>=◌ pure
FailsClean-placed name c m d = tt

FailsClean-publish_checked :
    (m : Manifest) (x : Option Manifest.ManifestError) (d : Disk)
    → FailsClean d (publish_checked m x d)
unfolding publish_checked
FailsClean-publish_checked m (some x) d =
    Keeps-FailsClean (fail (bad_manifest x)) d (Keeps-fail (bad_manifest x))
FailsClean-publish_checked m none d =
    FailsClean-bind (may_fail io_error) _ d (Keeps-call io_error)
      (λ _ e. FailsClean-placed (m.id ++ manifest_ext) (manifest (some m)) m e)

FailsClean-after_error :
    {A : Type 0} (cleanup : Action (Unit {0})) (d : Disk) (x : Result A × Disk)
    → Keeps SameManifests cleanup
    → FailsClean d x
    → FailsClean d (after_error cleanup x)
FailsClean-after_error cleanup d (ok a, e) h k = tt
FailsClean-after_error cleanup d (err x, e) h k =
    SameManifests-preorder.transitive d e (cleanup e).1 k (h.at e)

module _ (hash_of : List Entry → Hash) where
  pub FailsClean-commit :
      (w : SnapshotWriter) (m : Manifest) (d : Disk) → FailsClean d (commit hash_of w m d)
  unfolding commit on_error publish
  FailsClean-commit w m d =
      if_cases (λ (a : Action Manifest). FailsClean d (a d)) w.done
        (λ _. Keeps-FailsClean (fail already_finished) d (Keeps-fail already_finished))
        (λ _. FailsClean-bind (may_fail io_error) _ d (Keeps-call io_error) (λ _ d1.
          FailsClean-bind (may_fail io_error) _ d1 (Keeps-call io_error) (λ _ d2.
            FailsClean-bind (may_fail io_error) _ d2 (Keeps-call io_error) (λ _ d3.
              FailsClean-bind (may_fail io_error) _ d3 (Keeps-call io_error) (λ _ d4.
                FailsClean-bind _ _ d4 (Keeps-place w.id _) (λ _ d5.
                  FailsClean-after_error (remove_file (w.id ++ index_ext)) d5 _ (Keeps-remove w.id)
                    (FailsClean-publish_checked _ _ d5)))))))

Keeps-create_writer :
    (id : SnapshotId) (name : String) (there : Bool) → Keeps SameFiles (create_writer id name there)
unfolding create_writer
Keeps-create_writer id name true = search keeps_rules
Keeps-create_writer id name false = search keeps_rules

-- Until the commit, a writer touches no file of the repository.
pub Keeps-new_snapshot_writer :
    (id : SnapshotId) (name : String) → Keeps SameFiles (new_snapshot_writer id name)
unfolding new_snapshot_writer
Keeps-new_snapshot_writer id name = search (keeps_rules, Keeps-create_writer)

Keeps-add_checked :
    (w : SnapshotWriter) (e : Entry) (x : Option EntryError) → Keeps SameFiles (add_checked w e x)
unfolding add_checked
Keeps-add_checked w e (some x) = search keeps_rules
Keeps-add_checked w e none = search keeps_rules

pub Keeps-add : (w : SnapshotWriter) (e : Entry) → Keeps SameFiles (add w e)
unfolding add
Keeps-add w e = search (keeps_rules, Keeps-add_checked)
