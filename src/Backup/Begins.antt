-- ===== src/Backup/Begins.antt =====
-- The steps of a run (`Run` of internal/backup/backup.go) before its phases.
use better_amp_backup.Prelude.{if_cases, ◌==◌, List, All, String, ◌≡◌, inl, refl}
use better_amp_backup.Repo.Manifest.{Hash, SnapshotId}
use better_amp_backup.Repo.Index.{Entry}
use better_amp_backup.Repo.Disk.{Disk, Action, Result, find, manifest, index_file, pure}
use better_amp_backup.Repo.Disk
use better_amp_backup.Repo.Disk.Keeps.{Keeps, SameFiles, SameFiles-preorder, Keeps-bind, Keeps-pure}
use better_amp_backup.Repo.Snapshots.{latest_for}
use better_amp_backup.Repo.Snapshots.Reads.{Keeps-list_snapshots}
use better_amp_backup.Repo.Writer.Fails.{SameManifests-preorder}
use better_amp_backup.Scan.{Item}
use better_amp_backup.Backup.{load_parent_index, effective_reserve, has_space}
use better_amp_backup.Backup.Kept.{Grows, Grows-trans, IsBacked, All-Backed-Grows}
use better_amp_backup.Backup.Intact.{Scope, InScope, IsIntactFor, IsIntact-Grows, SameFiles-Grows}
use better_amp_backup.Backup.Parent.{Names, Keeps-load_parent_index, load_parent_index-IsBacked}
use better_amp_backup.Backup.Run.{
  Options, Input, World, QuiescerCall, Step, lift, or_raise, check_space, of_result, space_unknown,
}
use better_amp_backup.Backup.Triples.{Holds, Holds-bind, Holds-or_raise}
use better_amp_backup.Backup.Outcomes.{IsParentIndex, IsBad, Grows-IsBad}

pub Keeps-latest_for : (name : String) → Keeps SameFiles (latest_for name)
unfolding latest_for
Keeps-latest_for name = Keeps-bind _ _ Keeps-list_snapshots (λ all. Keeps-pure _)

-- Where a run stands before its phases.
pub record IsBegun (base : Disk) (before : List QuiescerCall) (w : World) : Type 0 where
  pub grows : Grows base w.repo
  pub so_far : w.calls ≡ before

module _ {A : Type 0} (base : Disk) (before : List QuiescerCall) where
  -- An action that only reads takes a run on, and what it returned is known.
  pub Holds-read :
      (m : Action A) (w : World)
      → Keeps SameFiles m
      → IsBegun base before w
      → Holds
          (λ a w'. IsBegun base before w' × (m w.repo ≡ (Disk.ok a, w'.repo)))
          (IsBad base before)
          (lift m w)
  unfolding lift
  Holds-read m w k h = go (m w.repo).0 (m w.repo).1 refl (k.at w.repo)
    where
      go :
          (x : Result A) (d : Disk)
          → m w.repo ≡ (x, d)
          → SameFiles w.repo d
          → Holds
              (λ a w'. IsBegun base before w' × (m w.repo ≡ (Disk.ok a, w'.repo)))
              (IsBad base before)
              (of_result x, record w { repo = d })
      go (Disk.ok a) d q same = (
        record {
          grows = Grows-trans base w.repo d h.grows (SameFiles-Grows w.repo d same);
          so_far = h.so_far;
        },
        q,
      )
      go (Disk.err x) d q same =
          Grows-IsBad base before (record w { repo = d })
            (Grows-trans base w.repo d h.grows (SameFiles-Grows w.repo d same)) (inl h.so_far)

-- Where a run stands with the entries of the previous snapshot.
pub record IsLoaded (base : Disk) (before : List QuiescerCall) (parent : SnapshotId)
    (previous : List Entry) (w : World) : Type 0 where
  pub begun : IsBegun base before w
  pub from : IsParentIndex base parent previous
  pub backed : (scope : Scope) → IsIntactFor scope base base → All (IsBacked w.repo) previous

-- What loading the previous index adds.
pub load_parent_index-IsLoaded :
    (base : Disk) (before : List QuiescerCall) (parent : SnapshotId) (previous : List Entry)
    (w w' : World)
    → ((scope : Scope) → Names (InScope scope base) parent)
    → IsBegun base before w
    → SameFiles w.repo w'.repo
    → IsBegun base before w'
    → load_parent_index parent w.repo ≡ (Disk.ok previous, w'.repo)
    → IsLoaded base before parent previous w'
load_parent_index-IsLoaded base before parent previous w w' named h same h' q = record {
  begun = h';
  from = record { before = w.repo; after = w'.repo; same = h.grows.snapshots; loaded = q };
  backed = λ scope intact.
      All-Backed-Grows w.repo w'.repo previous (SameFiles-Grows w.repo w'.repo same) (
        load_parent_index-IsBacked parent previous w.repo w'.repo q (named scope)
          (IsIntact-Grows base w.repo h.grows intact));
}

-- `loadParentIndex`, in a run.
pub Holds-load :
    (base : Disk) (before : List QuiescerCall) (parent : SnapshotId) (w : World)
    → ((scope : Scope) → Names (InScope scope base) parent)
    → IsBegun base before w
    → Holds
        (λ previous. IsLoaded base before parent previous)
        (IsBad base before)
        (lift (load_parent_index parent) w)
unfolding lift
Holds-load base before parent w named h =
    let x = load_parent_index parent w.repo in
    go x.0 x.1 refl ((Keeps-load_parent_index parent).at w.repo)
      (Holds-read base before (load_parent_index parent) w (Keeps-load_parent_index parent) h)
  where
    go :
        (x : Result (List Entry)) (d : Disk)
        → load_parent_index parent w.repo ≡ (x, d)
        → SameFiles w.repo d
        → Holds
            (λ a w'.
              IsBegun base before w' × (load_parent_index parent w.repo ≡ (Disk.ok a, w'.repo)))
            (IsBad base before)
            (of_result x, record w { repo = d })
        → Holds
            (λ previous. IsLoaded base before parent previous)
            (IsBad base before)
            (of_result x, record w { repo = d })
    go (Disk.ok previous) d q same (h', q') =
        load_parent_index-IsLoaded base before parent previous w (record w { repo = d }) named h
          same h' q'
    go (Disk.err e) d q same k = k

module _ (hash_of : List Entry → Hash) (opts : Options) (input : Input) (base : Disk)
    (before : List QuiescerCall) where
  pub Holds-check_space :
      (parent : SnapshotId) (previous : List Entry) (items : List Item) (w : World)
      → IsLoaded base before parent previous w
      → Holds
          (λ _. IsLoaded base before parent previous)
          (IsBad base before)
          (check_space hash_of opts input previous items w)
  unfolding check_space
  Holds-check_space parent previous items w h =
      let bad = Grows-IsBad base before w h.begun.grows (inl h.begun.so_far) in
      let reserve = effective_reserve opts.reserve_bytes in
      if_cases
        (λ (m : Step (Unit {0})).
          Holds (λ _. IsLoaded base before parent previous) (IsBad base before) (m w))
        (reserve == 0) (λ _. h)
        (λ _.
          Holds-bind (λ _. IsLoaded base before parent previous) _ (IsBad base before)
            (or_raise space_unknown input.available) _ w
            (Holds-or_raise (λ _. IsLoaded base before parent previous) (IsBad base before) _
              input.available w bad (λ a q. h))
            (λ available w' h'.
              if_cases
                (λ (m : Step (Unit {0})).
                  Holds (λ _. IsLoaded base before parent previous) (IsBad base before) (m w'))
                (has_space opts.paranoid previous items reserve available) (λ _. h')
                (λ _. Grows-IsBad base before w' h'.begun.grows (inl h'.begun.so_far))))
