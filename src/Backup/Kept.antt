-- ===== src/Backup/Kept.antt =====
-- What reading files (`process` of internal/backup/backup.go) leaves in the repository: no
-- snapshot changes, no object goes, and what the entries refer to is there.
use better_amp_backup.Prelude.{
  Bool, true, false, ◌||◌, if_cases, List, [], ◌∷◌, any, All, All-map, Option, none, some, ◌≡◌,
  refl, sym, ap, ◌∙◌, subst, arith,
}
use better_amp_backup.Paths.{Text}
use better_amp_backup.Repo.Manifest.{Hash, is_zero}
use better_amp_backup.Repo.Index.{Entry, EntryType}
use better_amp_backup.Repo.Disk.{Disk}
use better_amp_backup.Repo.Gc.{has_hash}
use better_amp_backup.Scan.{Item}
use better_amp_backup.Backup.{
  Env, Runner, Stored, ok, err, not_exist, permission, other, Read, PutResult, put, has_object,
  store_or_read, store_file, take_stored, process_kind, process_item, process, note_unsettled,
  BackupError, unless_failed, finish, read_entry,
}
use better_amp_backup.Backup.Rule.{IsRoundRule, read_file_rule}

abbrev pub HasObject : Hash → Disk → Type 0
HasObject h d = has_object h d.objects ≡ true

-- The snapshots are the same, and every object is still there.
pub record Grows (d e : Disk) : Type 0 where
  pub snapshots : e.snapshots ≡ d.snapshots
  pub objects : (h : Hash) → HasObject h d → HasObject h e

pub Grows-self : (d : Disk) → Grows d d
Grows-self d = record { snapshots = refl; objects = λ h k. k }

pub Grows-trans : (d e f : Disk) → Grows d e → Grows e f → Grows d f
Grows-trans d e f h k = record {
  snapshots = k.snapshots ∙ h.snapshots;
  objects = λ x there. k.objects x (h.objects x there);
}

or_true : (a b : Bool) → b ≡ true → (a || b) ≡ true
or_true a b h = ground arith

Grows-put : (rd : Read) (d : Disk) → Grows d (put rd d).1
unfolding put has_object
Grows-put rd d =
    if_cases (λ (x : PutResult × Disk). Grows d x.1) (any (has_hash rd.hash) d.objects)
      (λ _. Grows-self d) (λ _. record { snapshots = refl; objects = λ h there. or_true _ _ there })

-- The file's content is in the store, where the result is an entry.
pub record Keeps (r : Runner) (x : Stored Entry × Runner) : Type 0 where
  pub grows : Grows r.repo x.1.repo
  pub there : (e : Entry) → x.0 ≡ ok e → HasObject e.hash x.1.repo

repo-note_unsettled :
    (env : Env) (p : Text) (stable : Bool) (r : Runner)
    → (note_unsettled env p stable r).repo ≡ r.repo
repo-note_unsettled env p true r = refl
repo-note_unsettled env p false r = refl

Keeps-finish :
    (env : Env) (it : Item) (stable : Bool) (res : PutResult) (r : Runner)
    → HasObject res.hash r.repo
    → Keeps r (finish env it stable res r)
unfolding finish
Keeps-finish env it stable res r there =
    let same = repo-note_unsettled env it.path stable r in
    record {
      grows = subst (Grows r.repo) (sym same) (Grows-self r.repo);
      there = λ e q.
          subst (HasObject e.hash) (sym same) (subst (λ h. HasObject h r.repo) (ap_hash e q) there);
    }
  where
    ap_hash : (e : Entry) → ok (read_entry it res) ≡ ok e → res.hash ≡ e.hash
    ap_hash e q = let same : read_entry it res ≡ e = ground arith in ap (λ x. x.hash) same

pub Keeps-rule : IsRoundRule Keeps
Keeps-rule = record {
  on_failed = λ r e. record { grows = Grows-self r.repo; there = λ f q. absurd (ground arith) };
  on_put = λ r rd x h. record {
    grows = Grows-trans r.repo (put rd r.repo).1 x.1.repo (Grows-put rd r.repo) h.grows;
    there = h.there;
  };
  on_reread = λ r x h. record { grows = h.grows; there = h.there };
  on_finish = λ env it stable res r there. Keeps-finish env it stable res r there;
}

-- A file of the index with content of its own has that content in the store.
abbrev pub IsBacked : Disk → Entry → Type 0
IsBacked d e = e.kind ≡ EntryType.file → is_zero e.hash ≡ false → HasObject e.hash d

pub IsBacked-Grows : (d d' : Disk) (e : Entry) → Grows d d' → IsBacked d e → IsBacked d' e
IsBacked-Grows d d' e g h k z = g.objects e.hash (h k z)

pub All-Backed-Grows :
    (d d' : Disk) (es : List Entry) → Grows d d' → All (IsBacked d) es → All (IsBacked d') es
All-Backed-Grows d d' es g h =
    All-map (IsBacked d) (IsBacked d') es (λ e. IsBacked-Grows d d' e g) h

store_file-Grows :
    (env : Env) (it : Item) (by : Option Entry) (r : Runner)
    → Grows r.repo (store_or_read env it by r).1.repo
unfolding store_or_read
store_file-Grows env it (some prev) r = Grows-self r.repo
store_file-Grows env it none r = (read_file_rule Keeps Keeps-rule env 2 0 it r).grows

repo-take_stored :
    (env : Env) (it : Item) (x : Stored Entry × Runner) → (take_stored env it x).1.repo ≡ x.1.repo
unfolding take_stored
repo-take_stored env it (err not_exist, r) = refl
repo-take_stored env it (err permission, r) = refl
repo-take_stored env it (err other, r) = refl
repo-take_stored env it (ok e, r) = refl

stored-Grows :
    (env : Env) (paranoid : Bool) (it : Item) (r : Runner)
    → Grows r.repo (take_stored env it (store_file env paranoid it r)).1.repo
unfolding store_file
stored-Grows env paranoid it r =
    subst (Grows r.repo) (sym (repo-take_stored env it _)) (store_file-Grows env it _ r)

process_kind-Grows :
    (env : Env) (paranoid : Bool) (it : Item) (k : EntryType) (r : Runner)
    → Grows r.repo (process_kind env paranoid it k r).1.repo
unfolding process_kind
process_kind-Grows env paranoid it EntryType.dir r = Grows-self r.repo
process_kind-Grows env paranoid it EntryType.symlink r = Grows-self r.repo
process_kind-Grows env paranoid it EntryType.file r = stored-Grows env paranoid it r
process_kind-Grows env paranoid it (EntryType.other t) r = stored-Grows env paranoid it r

process_item-Grows :
    (env : Env) (paranoid : Bool) (it : Item) (r : Runner)
    → Grows r.repo (process_item env paranoid it r).1.repo
unfolding process_item
process_item-Grows env paranoid it r =
    if_cases (λ (x : Option BackupError × Runner). Grows r.repo x.1.repo) (env.is_cancelled it.path)
      (λ _. Grows-self r.repo) (λ _. process_kind-Grows env paranoid it it.kind r)

unless_failed-Grows :
    (d : Disk) (x : Option BackupError × Runner) (k : Runner → Option BackupError × Runner)
    → Grows d x.1.repo
    → ((r : Runner) → Grows r.repo (k r).1.repo)
    → Grows d (unless_failed x k).1.repo
unless_failed-Grows d (some e, r) k g h = g
unless_failed-Grows d (none, r) k g h = Grows-trans d r.repo (k r).1.repo g (h r)

-- Reading items changes no snapshot and removes no object, whatever becomes of it.
pub process-Grows :
    (env : Env) (paranoid : Bool) (items : List Item) (r : Runner)
    → Grows r.repo (process env paranoid items r).1.repo
unfolding process
process-Grows env paranoid [] r = Grows-self r.repo
process-Grows env paranoid (it ∷ items) r =
    unless_failed-Grows r.repo (process_item env paranoid it r) _
      (process_item-Grows env paranoid it r) (λ r'. process-Grows env paranoid items r')
