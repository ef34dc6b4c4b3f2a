-- ===== src/Life/Forgotten.antt =====
-- `Forget` (internal/repo/gc.go) and the content of the listed snapshots.
use better_amp_backup.Prelude.{true, List, none, some, ◌≡◌, ◌⊎◌, inl, inr, sym, ◌∙◌, subst, arith}
use better_amp_backup.Paths.{Text}
use better_amp_backup.Repo.Manifest.{SnapshotId}
use better_amp_backup.Repo.Disk.{Disk, Content, find}
use better_amp_backup.Repo.Snapshots.Results.{manifest_at}
use better_amp_backup.Repo.Snapshots.Listed.{IsListed}
use better_amp_backup.Repo.Trash.{forget}
use better_amp_backup.Repo.Trash.Moves.{live, trashed, IsKept, IsMoved, Moves, forget-Moves}
use better_amp_backup.Backup.{has_object}
use better_amp_backup.Backup.Kept.{IsBacked}
use better_amp_backup.Backup.Intact.{AllIn-map, IsWhole}

kept_or_gone :
    (d e : Disk) (n : Text) (c : Content)
    → IsKept live trashed d e n ⊎ IsMoved live trashed d e n
    → find n e.snapshots ≡ some c
    → find n d.snapshots ≡ some c
kept_or_gone d e n c (inl kept) q = sym kept.here ∙ q
kept_or_gone d e n c (inr moved) q = absurd (apart (sym moved.gone ∙ q))
  where
    apart : none ≡ some c → ⊥
    apart k = ground arith

-- Files that only leave the live set leave what is listed whole.
Moves-IsWhole : (d e : Disk) → Moves live trashed d e → IsWhole d → IsWhole e
Moves-IsWhole d e h w = record {
  indexes = λ name v s l q.
      let listed : IsListed d.snapshots l.snapshot = record {
        name = l.listed.name;
        named = l.listed.named;
        there = h.none_new (manifest_at l.listed.name l.snapshot) l.listed.there;
      } in
      AllIn-map (IsBacked d) (IsBacked e) s
        (λ x b kind stored.
          subst (λ files. has_object x.hash files ≡ true) (sym h.objects) (b kind stored))
        (w.indexes name v s (record { snapshot = l.snapshot; listed = listed; same = l.same })
          (kept_or_gone d e name _ (h.names name) q));
}

-- Where the content of the files of every listed snapshot is in the store, it is so after `Forget`.
pub forget-IsWhole : (ids : List SnapshotId) (d : Disk) → IsWhole d → IsWhole (forget ids d).1
forget-IsWhole ids d = Moves-IsWhole d (forget ids d).1 (forget-Moves ids d)
