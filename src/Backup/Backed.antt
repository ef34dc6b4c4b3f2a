-- ===== src/Backup/Backed.antt =====
-- What the index of a run refers to is in the store (`process` of internal/backup/backup.go).
use better_amp_backup.Prelude.{
  Bool, true, false, if_cases, List, [], ◌∷◌, All, Option, none, some, Bool-cases, ◌≡◌, inl, inr,
  refl, sym, ap, ◌∙◌, subst, arith, list_eq,
}
use better_amp_backup.Paths.{Text}
use better_amp_backup.Repo.Manifest.{is_zero}
use better_amp_backup.Repo.Index.{Entry, EntryType}
use better_amp_backup.Repo.Disk.{Disk}
use better_amp_backup.Scan.{Item, entry_of, unchanged, same_type}
use better_amp_backup.Backup.{
  Env, Runner, Stored, ok, err, not_exist, permission, other, vouched, store_or_read, store_file,
  take_stored, process_kind, process_item, process, find_entry, record_entry, BackupError,
  unless_failed, warn, vanished, denied, count_dir, count_symlink,
}
use better_amp_backup.Backup.Rule.{read_file_rule}
use better_amp_backup.Backup.Faithful.{All-put_entry}
use better_amp_backup.Backup.Kept.{
  HasObject, Grows, Grows-self, Grows-trans, Keeps, Keeps-rule, IsBacked, All-Backed-Grows,
}
use better_amp_backup.Backup.Settled.{voucher-eq-some}
use better_amp_backup.Backup.Faithful.{Reads-store_or_read}

unchanged-parts :
    (prev : Entry) (it : Item)
    → unchanged prev it ≡ true
    → (same_type prev.kind it.kind ≡ true) × (is_zero prev.hash ≡ false)
unfolding unchanged
unchanged-parts prev it q = ground arith

same_type_file : (k : EntryType) → same_type k EntryType.file ≡ true → k ≡ EntryType.file
unfolding same_type
same_type_file EntryType.file q = refl
same_type_file EntryType.dir q = absurd (ground arith)
same_type_file EntryType.symlink q = absurd (ground arith)
same_type_file (EntryType.other t) q = absurd (ground arith)

find_entry-All :
    (P : Entry → Type 0) (p : Text) (es : List Entry) (e : Entry)
    → All P es
    → find_entry p es ≡ some e
    → P e
find_entry-All P p [] e h q = absurd (ground arith)
find_entry-All P p (x ∷ es) e (h, hs) q = elim (Bool-cases (list_eq x.path p)) [
  | inl same ↦ let eq : x ≡ e = ground arith in subst P eq h
  | inr skipped ↦ find_entry-All P p es e hs (rw skipped at q)
]

-- What one file does to the repository, and what its entry refers to.
record Backs (r : Runner) (x : Stored Entry × Runner) : Type 0 where
  grows : Grows r.repo x.1.repo
  previous : x.1.previous ≡ r.previous
  entries : x.1.entries ≡ r.entries
  backed : (e : Entry) → x.0 ≡ ok e → IsBacked x.1.repo e

vouched-IsBacked :
    (d : Disk) (it : Item) (prev e : Entry)
    → unchanged prev it ≡ true
    → IsBacked d prev
    → vouched it prev ≡ e
    → IsBacked d e
unfolding entry_of
vouched-IsBacked d it prev e same b q k z =
    let (alike, named) = unchanged-parts prev it same in
    let kind : it.kind ≡ EntryType.file = ap (λ x. x.kind) q ∙ k in
    let prev_kind =
      same_type_file prev.kind (subst (λ t. same_type prev.kind t ≡ true) kind alike) in
    subst (λ h. HasObject h d) (ap (λ x. x.hash) q) (b prev_kind named)

store_or_read-Backs :
    (env : Env) (it : Item) (by : Option Entry) (r : Runner)
    → ((prev : Entry) → by ≡ some prev → IsBacked r.repo prev × (unchanged prev it ≡ true))
    → Backs r (store_or_read env it by r)
unfolding store_or_read
store_or_read-Backs env it (some prev) r sound = record {
  grows = Grows-self r.repo;
  previous = refl;
  entries = refl;
  backed = λ e q.
      let (b, same) = sound prev refl in vouched-IsBacked r.repo it prev e same b (ground arith);
}
store_or_read-Backs env it none r sound =
    let k = read_file_rule Keeps Keeps-rule env 2 0 it r in
    let reads = Reads-store_or_read env it none r in
    record {
      grows = k.grows;
      previous = reads.previous;
      entries = reads.entries;
      backed = λ e q _ _. k.there e q;
    }

store_file-Backs :
    (env : Env) (paranoid : Bool) (it : Item) (r : Runner)
    → All (IsBacked r.repo) r.previous
    → Backs r (store_file env paranoid it r)
unfolding store_file
store_file-Backs env paranoid it r h = store_or_read-Backs env it _ r (λ prev q.
    let (there, same) = voucher-eq-some paranoid r.previous it prev q in
    (find_entry-All (IsBacked r.repo) it.path r.previous prev h there, same))

-- A run's state whose previous entries and own entries are backed.
pub record IsSound (r : Runner) : Type 0 where
  pub previous : All (IsBacked r.repo) r.previous
  pub entries : All (IsBacked r.repo) r.entries

-- The repository grew, and the state stayed sound.
pub record Advances (r r' : Runner) : Type 0 where
  pub grows : Grows r.repo r'.repo
  pub sound : IsSound r'

still :
    (r r1 r2 : Runner)
    → IsSound r
    → Grows r.repo r1.repo
    → r1.previous ≡ r.previous
    → r1.entries ≡ r.entries
    → r2.repo ≡ r1.repo
    → r2.previous ≡ r1.previous
    → r2.entries ≡ r1.entries
    → IsSound r2
still r r1 r2 s g p e same_repo p' e' =
    let back = λ (es es' : List Entry) (q : es' ≡ es) (h : All (IsBacked r.repo) es).
      subst (λ d. All (IsBacked d) es') (sym same_repo)
        (subst (All (IsBacked r1.repo)) (sym q) (All-Backed-Grows r.repo r1.repo es g h)) in
    record {
      previous = back r.previous r2.previous (p' ∙ p) s.previous;
      entries = back r.entries r2.entries (e' ∙ e) s.entries;
    }

stored-Advances :
    (env : Env) (it : Item) (r : Runner) (x : Stored Entry × Runner)
    → IsSound r
    → Backs r x
    → Advances r (take_stored env it x).1
unfolding take_stored
stored-Advances env it r (err not_exist, r1) s b = record {
  grows = b.grows;
  sound = still r r1 (warn env (vanished it.path) r1) s b.grows b.previous b.entries refl refl refl;
}
stored-Advances env it r (err permission, r1) s b = record {
  grows = b.grows;
  sound = still r r1 (warn env (denied it.path) r1) s b.grows b.previous b.entries refl refl refl;
}
stored-Advances env it r (err other, r1) s b = record {
  grows = b.grows;
  sound = still r r1 r1 s b.grows b.previous b.entries refl refl refl;
}
stored-Advances env it r (ok e, r1) s b =
    let same = still r r1 r1 s b.grows b.previous b.entries refl refl refl in
    record {
      grows = b.grows;
      sound = record {
        previous = same.previous;
        entries = All-put_entry (IsBacked r1.repo) e r1.entries (b.backed e refl) same.entries;
      };
    }

found-Advances :
    (it : Item) (r r1 : Runner)
    → (it.kind ≡ EntryType.file → ⊥)
    → r1.repo ≡ r.repo
    → r1.previous ≡ r.previous
    → r1.entries ≡ r.entries
    → IsSound r
    → Advances r (record_entry (entry_of it) r1)
unfolding entry_of
found-Advances it r r1 ne same_repo p e s =
    let same = still r r r1 s (Grows-self r.repo) refl refl same_repo p e in
    record {
      grows = subst (Grows r.repo) (sym same_repo) (Grows-self r.repo);
      sound = record {
        previous = same.previous;
        entries =
            All-put_entry (IsBacked r1.repo) (entry_of it) r1.entries (λ k z. absurd (ne k))
              same.entries;
      };
    }

dir_ne_file : EntryType.dir ≡ EntryType.file → ⊥
dir_ne_file q = ground arith

symlink_ne_file : EntryType.symlink ≡ EntryType.file → ⊥
symlink_ne_file q = ground arith

process_kind-Advances :
    (env : Env) (paranoid : Bool) (it : Item) (k : EntryType) (r : Runner)
    → it.kind ≡ k
    → IsSound r
    → Advances r (process_kind env paranoid it k r).1
unfolding process_kind
process_kind-Advances env paranoid it EntryType.dir r q s =
    found-Advances it r (count_dir r) (λ k. dir_ne_file (sym q ∙ k)) refl refl refl s
process_kind-Advances env paranoid it EntryType.symlink r q s =
    found-Advances it r (count_symlink r) (λ k. symlink_ne_file (sym q ∙ k)) refl refl refl s
process_kind-Advances env paranoid it EntryType.file r q s =
    stored-Advances env it r _ s (store_file-Backs env paranoid it r s.previous)
process_kind-Advances env paranoid it (EntryType.other t) r q s =
    stored-Advances env it r _ s (store_file-Backs env paranoid it r s.previous)

process_item-Advances :
    (env : Env) (paranoid : Bool) (it : Item) (r : Runner)
    → IsSound r
    → Advances r (process_item env paranoid it r).1
unfolding process_item
process_item-Advances env paranoid it r s =
    if_cases (λ (x : Option BackupError × Runner). Advances r x.1) (env.is_cancelled it.path)
      (λ _. record { grows = Grows-self r.repo; sound = s })
      (λ _. process_kind-Advances env paranoid it it.kind r refl s)

unless_failed-Advances :
    (r : Runner) (x : Option BackupError × Runner) (k : Runner → Option BackupError × Runner)
    → Advances r x.1
    → ((r' : Runner) → IsSound r' → Advances r' (k r').1)
    → Advances r (unless_failed x k).1
unless_failed-Advances r (some e, r1) k a h = a
unless_failed-Advances r (none, r1) k a h =
    let b = h r1 a.sound in
    record { grows = Grows-trans r.repo r1.repo (k r1).1.repo a.grows b.grows; sound = b.sound }

-- Reading items, whatever becomes of it, changes no snapshot and removes no object; and where each
-- file of the previous snapshot and each file read so far has its content in the store, so has
-- each file of the state after it.
pub process-IsSound :
    (env : Env) (paranoid : Bool) (items : List Item) (r : Runner)
    → IsSound r
    → Advances r (process env paranoid items r).1
unfolding process
process-IsSound env paranoid [] r s = record { grows = Grows-self r.repo; sound = s }
process-IsSound env paranoid (it ∷ items) r s =
    unless_failed-Advances r (process_item env paranoid it r) _
      (process_item-Advances env paranoid it r s)
      (λ r' s'. process-IsSound env paranoid items r' s')
