-- ===== src/Backup/Intact.antt =====
-- The invariant of a repository that backups and restores rest on: what an index refers to is
-- stored (the writing of a snapshot, internal/backup/backup.go and
-- internal/repo/snapshotwriter.go).
use better_amp_backup.Prelude.{
  ℕ, true, List, [], ◌∷◌, ◌++◌, All, Option, none, some, Bool-cases, ◌≡◌, inl, inr, sym, ap, ◌∙◌,
  subst, arith, list_eq, list_eq→eq,
}
use better_amp_backup.Paths.{Text}
use better_amp_backup.Repo.Manifest.{Hash, Manifest, SnapshotId}
use better_amp_backup.Repo.Manifest
use better_amp_backup.Repo.Index.{Entry, Stream, eof, broken, entry, index, index_version}
use better_amp_backup.Repo.Disk.{
  Disk, Content, manifest, index_file, Dir, Action, RepoError, io_error, already_finished,
  bad_manifest, pure, fail, may_fail, find, put, without, ◌>>=◌, ◌>>◌,
}
use better_amp_backup.Repo.Disk
use better_amp_backup.Repo.Disk.Keeps.{
  IsPreorder, Keeps, SameFiles, SameFiles-preorder, Keeps-may_fail, Keeps-reads, Keeps-bind,
  Keeps-pure, Keeps-fail, Keeps-if,
}
use better_amp_backup.Repo.Disk.Files.{
  find-put_self, find-put_other, find-without_self, find-without_other,
}
use better_amp_backup.Repo.Snapshots.{manifest_ext, index_ext}
use better_amp_backup.Repo.Snapshots.Listed.{IsListed}
use better_amp_backup.Repo.Writer.{
  SnapshotWriter, stream_of, after_error, on_error, place, publish_checked, publish, commit,
  remove_file,
}
use better_amp_backup.Backup.{has_object}
use better_amp_backup.Backup.Kept.{Grows, IsBacked, IsBacked-Grows, All-Backed-Grows}

-- Each entry of a stream, up to where it breaks off.
abbrev pub AllIn : (Entry → Type 0) → Stream → Type 0
AllIn P eof = Unit
AllIn P broken = Unit
AllIn P (entry e s) = P e × AllIn P s

pub AllIn-map :
    (P Q : Entry → Type 0) (s : Stream) → ((e : Entry) → P e → Q e) → AllIn P s → AllIn Q s
AllIn-map P Q eof f h = tt
AllIn-map P Q broken f h = tt
AllIn-map P Q (entry e s) f (h, hs) = (f e h, AllIn-map P Q s f hs)

pub AllIn-stream_of : (P : Entry → Type 0) (es : List Entry) → All P es → AllIn P (stream_of es)
unfolding stream_of
AllIn-stream_of P [] h = tt
AllIn-stream_of P (e ∷ es) (h, hs) = (h, AllIn-stream_of P es hs)

-- Whatever index stands under one of these names, the content of its files is in the store.
pub record IsIntactIn (P : Text → Type 0) (d : Disk) : Type 0 where
  pub indexes :
      (name : Text) (v : ℕ) (s : Stream)
      → P name
      → find name d.snapshots ≡ some (index_file (index v s))
      → AllIn (IsBacked d) s

-- Every index of the repository, or those of the snapshots that are listed.
pub data Scope : Type 0 where
  every live : Scope

-- The index of a listed snapshot.
pub record IsLiveIndex (d : Disk) (name : Text) : Type 0 where
  pub snapshot : Manifest
  pub listed : IsListed d.snapshots snapshot
  pub same : snapshot.id ++ index_ext ≡ name

abbrev pub InScope : Scope → Disk → Text → Type 0
InScope every d name = Unit
InScope live d name = IsLiveIndex d name

-- The indexes in the scope of `base` are intact in `d`.
abbrev pub IsIntactFor : Scope → Disk → Disk → Type 0
IsIntactFor scope base d = IsIntactIn (InScope scope base) d

-- Every index among the snapshots is intact.
abbrev pub IsIntact : Disk → Type 0
IsIntact d = IsIntactFor every d d

-- The index of every listed snapshot is intact.
abbrev pub IsWhole : Disk → Type 0
IsWhole d = IsIntactFor live d d

pub IsIntact-Grows : {P : Text → Type 0} (d e : Disk) → Grows d e → IsIntactIn P d → IsIntactIn P e
IsIntact-Grows d e g h = record {
  indexes = λ name v s p q.
      AllIn-map (IsBacked d) (IsBacked e) s (λ x. IsBacked-Grows d e x g)
        (h.indexes name v s p (sym (ap (find name) g.snapshots) ∙ q));
}

pub SameFiles-Grows : (d e : Disk) → SameFiles d e → Grows d e
SameFiles-Grows d e h = record {
  snapshots = h.snapshots;
  objects = λ x there. subst (λ files. has_object x files ≡ true) (sym h.objects) there;
}

-- The repository is intact, and so will it be with these entries.
pub record IsSafe (P : Text → Type 0) (es : List Entry) (d : Disk) : Type 0 where
  pub intact : IsIntactIn P d
  pub backed : All (IsBacked d) es

pub IsSafe-Grows :
    {P : Text → Type 0} (es : List Entry) (d e : Disk) → Grows d e → IsSafe P es d → IsSafe P es e
IsSafe-Grows es d e g h = record {
  intact = IsIntact-Grows d e g h.intact;
  backed = All-Backed-Grows d e es g h.backed;
}

pub record StaysSafe (P : Text → Type 0) (es : List Entry) (d e : Disk) : Type 0 where
  pub safe : IsSafe P es d → IsSafe P es e

instance abbrev pub StaysSafe-preorder :
    {P : Text → Type 0} {es : List Entry} → IsPreorder (StaysSafe P es)
StaysSafe-preorder = record {
  reflexive = λ d. record { safe = λ h. h };
  transitive = λ d e f h k. record { safe = λ x. k.safe (h.safe x) };
}

module _ {P : Text → Type 0} (es : List Entry) where
  pub SameFiles-StaysSafe : (d e : Disk) → SameFiles d e → StaysSafe P es d e
  SameFiles-StaysSafe d e h = record { safe = IsSafe-Grows es d e (SameFiles-Grows d e h) }

  Safe-call : (x : RepoError) → Keeps (StaysSafe P es) (may_fail x)
  Safe-call x = Keeps-reads (StaysSafe P es) (may_fail x) SameFiles-StaysSafe (Keeps-may_fail x)

  -- A file that is put among the snapshots and is no index, or the index of these entries.
  put-IsIntact :
      (name : Text) (c : Content) (d : Disk)
      → ((v : ℕ) (s : Stream) → c ≡ index_file (index v s) → AllIn (IsBacked d) s)
      → IsIntactIn P d
      → IsIntactIn P (record d { snapshots = put name c d.snapshots })
  put-IsIntact name c d sound h = record {
    indexes = λ other v s p q. elim (Bool-cases (list_eq name other)) [
      | inl e ↦
          let same = list_eq→eq name other e in
          let q' =
            subst (λ n. find n (put name c d.snapshots) ≡ some (index_file (index v s))) (sym same)
              q in
          let found = sym (find-put_self name c d.snapshots) ∙ q' in sound v s (ground arith)
      | inr e ↦ h.indexes other v s p (sym (find-put_other other name c d.snapshots e) ∙ q)
    ];
  }

  without-IsIntact :
      (name : Text) (d : Disk)
      → IsIntactIn P d
      → IsIntactIn P (record d { snapshots = without name d.snapshots })
  without-IsIntact name d h = record {
    indexes = λ other v s p q. elim (Bool-cases (list_eq name other)) [
      | inl e ↦
          let same = list_eq→eq name other e in
          let q' =
            subst (λ n. find n (without name d.snapshots) ≡ some (index_file (index v s)))
              (sym same) q in
          let nowhere = sym (find-without_self name d.snapshots) ∙ q' in absurd (ground arith)
      | inr e ↦ h.indexes other v s p (sym (find-without_other other name d.snapshots e) ∙ q)
    ];
  }

  Safe-place_index :
      (name : Text)
      → Keeps (StaysSafe P es) (place name (index_file (index index_version (stream_of es))))
  Safe-place_index name = record {
    at = λ d. record {
      safe = λ h. record {
        intact =
            put-IsIntact name _ d
              (λ v s q.
                let same : stream_of es ≡ s = ground arith in
                subst (AllIn (IsBacked d)) same (AllIn-stream_of (IsBacked d) es h.backed))
              h.intact;
        backed = h.backed;
      };
    };
  }

  Safe-place_manifest :
      (name : Text) (m : Manifest) → Keeps (StaysSafe P es) (place name (manifest (some m)))
  Safe-place_manifest name m = record {
    at = λ d. record {
      safe = λ h. record {
        intact = put-IsIntact name _ d (λ v s q. absurd (ground arith)) h.intact;
        backed = h.backed;
      };
    };
  }

  Safe-remove : (name : Text) → Keeps (StaysSafe P es) (remove_file name)
  Safe-remove name = Keeps-bind _ _ (Safe-call io_error) (λ _. record {
    at = λ d. record {
      safe = λ h. record { intact = without-IsIntact name d h.intact; backed = h.backed };
    };
  })

  Safe-publish_checked :
      (m : Manifest) (x : Option Manifest.ManifestError)
      → Keeps (StaysSafe P es) (publish_checked m x)
  unfolding publish_checked
  Safe-publish_checked m (some x) = Keeps-fail (bad_manifest x)
  Safe-publish_checked m none =
      Keeps-bind _ _ (Safe-call io_error)
        (λ _. Keeps-bind _ _ (Safe-place_manifest (m.id ++ manifest_ext) m) (λ _. Keeps-pure m))

  Safe-on_error :
      {A : Type 0} (cleanup : Action (Unit {0})) (m : Action A)
      → Keeps (StaysSafe P es) cleanup
      → Keeps (StaysSafe P es) m
      → Keeps (StaysSafe P es) (on_error cleanup m)
  unfolding on_error
  Safe-on_error {A = A} cleanup m h k = record { at = λ d. go d (m d).0 (m d).1 (k.at d) }
    where
      go :
          (d : Disk) (r : Disk.Result A) (e : Disk)
          → StaysSafe P es d e
          → StaysSafe P es d (after_error cleanup (r, e)).1
      go d (Disk.ok a) e s = s
      go d (Disk.err x) e s = StaysSafe-preorder.transitive d e (cleanup e).1 s (h.at e)

-- Committing entries whose content is in the store keeps the repository intact, whatever fails.
pub Safe-commit :
    {P : Text → Type 0} (hash_of : List Entry → Hash) (w : SnapshotWriter) (m : Manifest)
    → Keeps (StaysSafe P w.staged) (commit hash_of w m)
unfolding commit publish
Safe-commit hash_of w m = Keeps-if w.done _ _ (Keeps-fail already_finished) (
    Keeps-bind _ _ (Safe-call w.staged io_error) (λ _.
      Keeps-bind _ _ (Safe-call w.staged io_error) (λ _.
        Keeps-bind _ _ (Safe-call w.staged io_error) (λ _.
          Keeps-bind _ _ (Safe-call w.staged io_error) (λ _.
            Keeps-bind _ _ (Safe-place_index w.staged (w.id ++ index_ext)) (λ _.
              Safe-on_error w.staged _ _ (Safe-remove w.staged (w.id ++ index_ext))
                (Safe-publish_checked w.staged _ _)))))))
