-- ===== src/Backup/Settled.antt =====
-- What a run records of a file (`storeFile` and `process` of internal/backup/backup.go).
use better_amp_backup.Prelude.{
  ℕ, zero, suc, ◌+◌, ◌<◌, Bool, true, false, List, [], ◌∷◌, ◌++◌, length, length-append, Option,
  none, some, Bool-cases, Option-cases, ◌≡◌, ◌⊎◌, inl, inr, refl, sym, ap, ◌∙◌, subst, arith,
}
use better_amp_backup.Repo.Index.{Entry, EntryType}
use better_amp_backup.Scan.{Item, entry_of, unchanged}
use better_amp_backup.Backup.{
  Env, Attempt, failed, stored, Read, lstat, lstat_failed, Runner, Stored, ok, PutResult, put,
  is_stable, finish, on_attempt, read_file, read_entry, vouched, voucher, store_or_read, store_file,
  find_entry, count_reread, count_object,
}
use better_amp_backup.Backup.Rule.{after_put}

-- The size and the time that the stat before round `n` found: the walk's, or that of the round
-- before.
abbrev restat_of : ℕ × ℕ → Attempt → ℕ × ℕ
restat_of st (stored rd (lstat size mod_time)) = (size, mod_time)
restat_of st (stored rd (lstat_failed e)) = st
restat_of st (failed e) = st

abbrev pub stat_before : Env → Item → ℕ → ℕ × ℕ
stat_before env it zero = (it.size, it.mod_time)
stat_before env it (suc n) = restat_of (stat_before env it n) (env.attempt it.path n)

-- The entry holds what was read in one round, and the stats around that read agree.
pub record IsSettled (env : Env) (it : Item) (e : Entry) : Type 0 where
  pub round : ℕ
  pub in_time : round < 3
  pub content : Read
  pub read_between :
      env.attempt it.path round
      ≡ stored content (lstat (stat_before env it round).0 (stat_before env it round).1)
  pub same_path : e.path ≡ it.path
  pub same_hash : e.hash ≡ content.hash
  pub same_size : e.size ≡ content.size
  pub same_time : e.mod_time ≡ (stat_before env it round).1

-- A round that went on to the end of the loop's body read the file and found it again.
pub on_attempt-eq-ok :
    (a : Attempt) (r : Runner) (k : PutResult → ℕ → ℕ → Runner → Stored Entry × Runner) (e : Entry)
    (r' : Runner)
    → on_attempt a r k ≡ (ok e, r')
    → (rd : Read) × (size : ℕ) × (mod_time : ℕ) × (a ≡ stored rd (lstat size mod_time))
      × (k (put rd r.repo).0 size mod_time (after_put rd r) ≡ (ok e, r'))
unfolding on_attempt
on_attempt-eq-ok (failed x) r k e r' q = absurd (ground arith)
on_attempt-eq-ok (stored rd (lstat_failed x)) r k e r' q = absurd (ground arith)
on_attempt-eq-ok (stored rd (lstat size mod_time)) r k e r' q = (rd, size, mod_time, refl, q)

pub put-hash : (rd : Read) (r : Runner) → (put rd r.repo).0.hash ≡ rd.hash
unfolding put
put-hash rd r = ground arith

put-size : (rd : Read) (r : Runner) → (put rd r.repo).0.size ≡ rd.size
unfolding put
put-size rd r = ground arith

pub append_nonempty : {A : Type 0} (xs : List A) (x : A) → xs ++ x ∷ [] ≡ [] → ⊥
append_nonempty xs x h = omega (arith, ap length h, length-append xs (x ∷ []))

warnings-count_object : (res : PutResult) (r : Runner) → (count_object res r).warnings ≡ r.warnings
warnings-count_object res r = refl

-- A body that ended without a warning ended on a stable file, with the entry of what was read.
finish-eq-ok :
    (env : Env) (it : Item) (stable : Bool) (res : PutResult) (r : Runner) (e : Entry) (r' : Runner)
    → finish env it stable res r ≡ (ok e, r')
    → r'.warnings ≡ []
    → (stable ≡ true) × (e ≡ read_entry it res)
unfolding finish
finish-eq-ok env it true res r e r' q h = (refl, ground arith)
finish-eq-ok env it false res r e r' q h =
    absurd (append_nonempty r.warnings _ (ap (λ x. x.1.warnings) q ∙ h))

is_stable-eq :
    (it : Item) (size mod_time : ℕ)
    → is_stable it size mod_time ≡ true
    → (size ≡ it.size) × (mod_time ≡ it.mod_time)
is_stable-eq it size mod_time h = ground arith

-- The item as the round before left it.
abbrev seen : Env → Item → ℕ → Item
seen env it n = record it { size = (stat_before env it n).0; mod_time = (stat_before env it n).1 }

round-IsSettled :
    (env : Env) (it : Item) (n size mod_time : ℕ) (rd : Read) (r : Runner) (e : Entry)
    → n < 3
    → env.attempt it.path n ≡ stored rd (lstat size mod_time)
    → is_stable (seen env it n) size mod_time ≡ true
    → e ≡ read_entry (seen env it n) (put rd r.repo).0
    → IsSettled env it e
unfolding entry_of
round-IsSettled env it n size mod_time rd r e lt q s w =
    let (same_size, same_time) = is_stable-eq (seen env it n) size mod_time s in
    record {
      round = n;
      in_time = lt;
      content = rd;
      read_between = rw (← same_size, ← same_time) q;
      same_path = ap (λ x. x.path) w;
      same_hash = ap (λ x. x.hash) w ∙ put-hash rd r;
      same_size = ap (λ x. x.size) w ∙ put-size rd r;
      same_time = ap (λ x. x.mod_time) w;
    }

seen_next :
    (env : Env) (it : Item) (n size mod_time : ℕ) (rd : Read)
    → env.attempt it.path n ≡ stored rd (lstat size mod_time)
    → record it { size = size; mod_time = mod_time } ≡ seen env it (suc n)
seen_next env it n size mod_time rd q =
    ap
      (λ a. record it {
        size = (restat_of (stat_before env it n) a).0;
        mod_time = (restat_of (stat_before env it n) a).1;
      })
      (sym q)

read_file-IsSettled :
    (env : Env) (left n : ℕ) (it : Item) (r : Runner) (e : Entry) (r' : Runner)
    → left + n < 3
    → read_file env left n (seen env it n) r ≡ (ok e, r')
    → r'.warnings ≡ []
    → IsSettled env it e
unfolding read_file
read_file-IsSettled env zero n it r e r' lt q h =
    let (rd, size, mod_time, found, k) = on_attempt-eq-ok (env.attempt it.path n) r _ e r' q in
    let (s, w) = finish-eq-ok env (seen env it n) _ _ _ e r' k h in
    round-IsSettled env it n size mod_time rd r e (omega arith) found s w
read_file-IsSettled env (suc left) n it r e r' lt q h =
    let (rd, size, mod_time, found, k) = on_attempt-eq-ok (env.attempt it.path n) r _ e r' q in
    elim (Bool-cases (is_stable (seen env it n) size mod_time)) [
      | inl s ↦
          let (_, w) =
            finish-eq-ok env (seen env it n) true (put rd r.repo).0 _ e r' (rw s at k) h in
          round-IsSettled env it n size mod_time rd r e (omega arith) found s w
      | inr s ↦
          let again = count_reread (after_put rd r) in
          read_file-IsSettled env left (suc n) it again e r' (omega arith)
            (subst (λ i. read_file env left (suc n) i again ≡ (ok e, r'))
              (seen_next env it n size mod_time rd found) (rw s at k))
            h
    ]

-- What a complete snapshot says of a file: its content was read while the file did not change, or
-- the previous snapshot's entry of the same path passed the stat-diff and vouches for it.
pub data IsFaithful (env : Env) (previous : List Entry) (it : Item) (e : Entry) : Type 0 where
  settled : IsSettled env it e → IsFaithful env previous it e
  vouched_for :
      (prev : Entry)
      → find_entry it.path previous ≡ some prev
      → unchanged prev it ≡ true
      → e ≡ vouched it prev
      → IsFaithful env previous it e
  as_found :
      e ≡ entry_of it
      → (it.kind ≡ EntryType.dir) ⊎ (it.kind ≡ EntryType.symlink)
      → IsFaithful env previous it e

pub voucher-eq-some :
    (paranoid : Bool) (previous : List Entry) (it : Item) (prev : Entry)
    → voucher paranoid previous it ≡ some prev
    → (find_entry it.path previous ≡ some prev) × (unchanged prev it ≡ true)
unfolding voucher
voucher-eq-some true previous it prev q = absurd (ground arith)
voucher-eq-some false previous it prev q = elim (Option-cases (find_entry it.path previous)) [
  | inl none_there ↦ absurd (ground arith)
  | inr (found, there) ↦ elim (Bool-cases (unchanged found it)) [
    | inl same ↦
        let e : found ≡ prev = ground arith in
        (there ∙ ap some e, ap (λ x. unchanged x it) (sym e) ∙ same)
    | inr changed ↦ absurd (ground arith)
  ]
]

store_or_read-IsFaithful :
    (env : Env) (previous : List Entry) (it : Item) (by : Option Entry) (r : Runner) (e : Entry)
    (r' : Runner)
    → ((prev : Entry)
        → by ≡ some prev
        → (find_entry it.path previous ≡ some prev) × (unchanged prev it ≡ true))
    → store_or_read env it by r ≡ (ok e, r')
    → r'.warnings ≡ []
    → IsFaithful env previous it e
unfolding store_or_read
store_or_read-IsFaithful env previous it (some prev) r e r' sound q h =
    let (there, same) = sound prev refl in vouched_for prev there same (ground arith)
store_or_read-IsFaithful env previous it none r e r' sound q h =
    settled (read_file-IsSettled env 2 0 it r e r' (omega arith) q h)

pub store_file-IsFaithful :
    (env : Env) (paranoid : Bool) (it : Item) (r : Runner) (e : Entry) (r' : Runner)
    → store_file env paranoid it r ≡ (ok e, r')
    → r'.warnings ≡ []
    → IsFaithful env r.previous it e
unfolding store_file
store_file-IsFaithful env paranoid it r e r' q h =
    store_or_read-IsFaithful env r.previous it _ r e r'
      (λ prev. voucher-eq-some paranoid r.previous it prev) q h
