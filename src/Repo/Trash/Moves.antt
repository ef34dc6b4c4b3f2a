-- ===== src/Repo/Trash/Moves.antt =====
-- `Forget` (internal/repo/gc.go) moves files to the trash.
use better_amp_backup.Prelude.{
  Bool-cases, In, List, [], ◌∷◌, ◌++◌, Option, none, some, ◌≡◌, ◌⊎◌, inl, inr, refl, sym, ap, ◌∙◌,
  subst, arith, list_eq, list_eq→eq,
}
use better_amp_backup.Paths.{Text}
use better_amp_backup.Repo.Manifest.{SnapshotId, valid_snapshot_id}
use better_amp_backup.Repo.Disk.{
  Disk, Dir, Content, RepoError, io_error, malformed_id, pure, fail, may_fail, find,
}
use better_amp_backup.Repo.Disk.Keeps.{
  IsPreorder, Keeps, Keeps-pure, Keeps-fail, Keeps-if, Keeps-bind, Keeps-may_fail, Keeps-reads,
}
use better_amp_backup.Repo.Disk.Files.{
  In-without, find-without_self, find-without_other, find-put_self, find-put_other,
}
use better_amp_backup.Repo.Snapshots.{manifest_ext, index_ext, file_name}
use better_amp_backup.Repo.Trash.{
  trash_dir, make_trash, moved_to_trash, move_to_trash, forget_each, forget,
}

abbrev pub live : Disk → Dir
live d = d.snapshots

abbrev pub trashed : Disk → Dir
trashed d = trash_dir d.trash

-- A name as it was on both sides.
pub record IsKept (from to : Disk → Dir) (d e : Disk) (n : Text) : Type 0 where
  pub here : find n (from e) ≡ find n (from d)
  pub there : find n (to e) ≡ find n (to d)

-- A file that has gone from one side to the other, with its content.
pub record IsMoved (from to : Disk → Dir) (d e : Disk) (n : Text) : Type 0 where
  pub content : Content
  pub was : find n (from d) ≡ some content
  pub gone : find n (from e) ≡ none
  pub arrived : find n (to e) ≡ some content

-- Nothing but files that have gone from one side to the other.
pub record Moves (from to : Disk → Dir) (d e : Disk) : Type 0 where
  pub names : (n : Text) → IsKept from to d e n ⊎ IsMoved from to d e n
  pub none_new : (x : Text × Content) → In x (from e) → In x (from d)
  pub objects : e.objects ≡ d.objects
  pub locks : e.locks ≡ d.locks

module _ (from to : Disk → Dir) where
  pub names_trans :
      (d e f : Disk) (n : Text)
      → IsKept from to d e n ⊎ IsMoved from to d e n
      → IsKept from to e f n ⊎ IsMoved from to e f n
      → IsKept from to d f n ⊎ IsMoved from to d f n
  names_trans d e f n (inl h) (inl k) =
      inl (record { here = k.here ∙ h.here; there = k.there ∙ h.there })
  names_trans d e f n (inl h) (inr k) =
      inr (record {
        content = k.content;
        was = sym h.here ∙ k.was;
        gone = k.gone;
        arrived = k.arrived;
      })
  names_trans d e f n (inr h) (inl k) = inr (record {
    content = h.content;
    was = h.was;
    gone = k.here ∙ h.gone;
    arrived = k.there ∙ h.arrived;
  })
  names_trans d e f n (inr h) (inr k) = absurd (twice (sym h.gone ∙ k.was))
    where
      twice : {c : Content} → none ≡ some c → ⊥
      twice q = ground arith

  pub Moves-same :
      (d e : Disk)
      → from e ≡ from d
      → to e ≡ to d
      → e.objects ≡ d.objects
      → e.locks ≡ d.locks
      → Moves from to d e
  Moves-same d e here there objects locks = record {
    names = λ n. inl (record { here = ap (find n) here; there = ap (find n) there });
    none_new = λ x. subst (In x) here;
    objects = objects;
    locks = locks;
  }

instance abbrev pub Moves-preorder : {from to : Disk → Dir} → IsPreorder (Moves from to)
Moves-preorder {from} {to} = record {
  reflexive = λ d. Moves-same from to d d refl refl refl refl;
  transitive = λ d e f h k. record {
    names = λ n. names_trans from to d e f n (h.names n) (k.names n);
    none_new = λ x i. h.none_new x (k.none_new x i);
    objects = k.objects ∙ h.objects;
    locks = k.locks ∙ h.locks;
  };
}

Moves-may_fail_out : (x : RepoError) → Keeps (Moves live trashed) (may_fail x)
Moves-may_fail_out x =
    Keeps-reads (Moves live trashed) (may_fail x)
      (λ d e same.
        Moves-same live trashed d e same.snapshots (ap trash_dir same.trash) same.objects
          same.locks)
      (Keeps-may_fail x)

moved_to_trash-Moves :
    (name : Text) (found : Option Content) (d : Disk)
    → find name d.snapshots ≡ found
    → Moves live trashed d (moved_to_trash name found d)
moved_to_trash-Moves name none d q = Moves-same live trashed d d refl refl refl refl
moved_to_trash-Moves name (some c) d q = record {
  names = λ n. elim (Bool-cases (list_eq name n)) [
    | inl e ↦
        let same = list_eq→eq name n e in
        inr (
          subst (IsMoved live trashed d (moved_to_trash name (some c) d)) same (record {
            content = c;
            was = q;
            gone = find-without_self name d.snapshots;
            arrived = find-put_self name c (trash_dir d.trash);
          }))
    | inr e ↦ inl (record {
      here = find-without_other n name d.snapshots e;
      there = find-put_other n name c (trash_dir d.trash) e;
    })
  ];
  none_new = λ x. In-without x name d.snapshots;
  objects = refl;
  locks = refl;
}

Moves-move_to_trash : (name : Text) → Keeps (Moves live trashed) (move_to_trash name)
unfolding move_to_trash
Moves-move_to_trash name =
    Keeps-bind (may_fail io_error) _ (Moves-may_fail_out io_error)
      (λ _. record { at = λ d. moved_to_trash-Moves name (find name d.snapshots) d refl })

Moves-file_name : (ext : Text) (id : SnapshotId) → Keeps (Moves live trashed) (file_name ext id)
unfolding file_name
Moves-file_name ext id =
    Keeps-if (valid_snapshot_id id) (pure (id ++ ext)) (fail malformed_id) (Keeps-pure _)
      (Keeps-fail _)

Moves-forget_each : (ids : List SnapshotId) → Keeps (Moves live trashed) (forget_each ids)
unfolding forget_each
Moves-forget_each [] = Keeps-pure tt
Moves-forget_each (id ∷ ids) =
    Keeps-bind (file_name manifest_ext id) _ (Moves-file_name manifest_ext id) (λ m.
      Keeps-bind (file_name index_ext id) _ (Moves-file_name index_ext id) (λ i.
        Keeps-bind (move_to_trash m) _ (Moves-move_to_trash m) (λ _.
          Keeps-bind (move_to_trash i) _ (Moves-move_to_trash i) (λ _. Moves-forget_each ids))))

Moves-make_trash : Keeps (Moves live trashed) make_trash
unfolding make_trash
Moves-make_trash = Keeps-bind (may_fail io_error) _ (Moves-may_fail_out io_error) (λ _. record {
  at = λ d.
      Moves-same live trashed d (record d { trash = some (trash_dir d.trash) }) refl refl refl refl;
})

-- However `Forget` ends, every name either has the same file as before in the live set and in the
-- trash, or its file has gone from the live set to the trash with its content (in place of a file
-- of that name in the trash). No object and no lock has changed.
pub forget-Moves : (ids : List SnapshotId) (d : Disk) → Moves live trashed d (forget ids d).1
unfolding forget
forget-Moves ids d =
    (Keeps-bind make_trash (λ _. forget_each ids) Moves-make_trash (λ _. Moves-forget_each ids)).at
      d
