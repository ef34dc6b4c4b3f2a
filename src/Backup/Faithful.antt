-- ===== src/Backup/Faithful.antt =====
-- What the index of a complete snapshot says is what was on disk (`process` of
-- internal/backup/backup.go).
use better_amp_backup.Prelude.{
  Bool, true, false, if_cases, List, [], ◌∷◌, All, In, Option, none, some, Bool-cases, ◌≡◌, ◌⊎◌,
  inl, inr, refl, sym, ap, ◌∙◌, subst, arith, list_eq,
}
use better_amp_backup.Paths.{Text}
use better_amp_backup.Repo.Index.{Entry, EntryType}
use better_amp_backup.Scan.{Item, entry_of}
use better_amp_backup.Backup.{
  Env, Runner, Stored, ok, err, not_exist, permission, other, store_or_read, store_file,
  take_stored, process_kind, process_item, process, without_entry, put_entry, record_entry,
  BackupError, unless_failed, note_unsettled, finish, count_dir, count_symlink,
}
use better_amp_backup.Backup.Rule.{IsRoundRule, read_file_rule}
use better_amp_backup.Backup.Settled.{
  IsFaithful, as_found, settled, vouched_for, store_file-IsFaithful, append_nonempty,
}

-- What was found for an item that is one of those walked.
abbrev pub IsFaithfulTo : Env → List Entry → List Item → Entry → Type 0
IsFaithfulTo env previous items e =
    (it : Item) × In it items × (e.path ≡ it.path) × IsFaithful env previous it e

module _ (P : Entry → Type 0) where
  All-without_entry : (p : Text) (es : List Entry) → All P es → All P (without_entry p es)
  All-without_entry p [] h = tt
  All-without_entry p (e ∷ es) (h, hs) =
      if_cases (All P) (list_eq e.path p) (λ _. All-without_entry p es hs)
        (λ _. (h, All-without_entry p es hs))

  pub All-put_entry : (e : Entry) (es : List Entry) → P e → All P es → All P (put_entry e es)
  All-put_entry e es h hs = (h, All-without_entry e.path es hs)

-- What reading a file leaves alone; its warnings only grow.
pub record Reads (r r' : Runner) : Type 0 where
  pub previous : r'.previous ≡ r.previous
  pub entries : r'.entries ≡ r.entries
  pub quiet : r'.warnings ≡ [] → r.warnings ≡ []

Reads-note_unsettled :
    (env : Env) (p : Text) (stable : Bool) (r : Runner) → Reads r (note_unsettled env p stable r)
Reads-note_unsettled env p true r = record { previous = refl; entries = refl; quiet = λ h. h }
Reads-note_unsettled env p false r = record {
  previous = refl;
  entries = refl;
  quiet = λ h. absurd (append_nonempty r.warnings _ h);
}

Reads-rule : IsRoundRule (λ r x. Reads r x.1)
unfolding finish
Reads-rule = record {
  on_failed = λ r e. record { previous = refl; entries = refl; quiet = λ h. h };
  on_put = λ r rd x h. record { previous = h.previous; entries = h.entries; quiet = h.quiet };
  on_reread = λ r x h. record { previous = h.previous; entries = h.entries; quiet = h.quiet };
  on_finish = λ env it stable res r there.
      let h = Reads-note_unsettled env it.path stable r in
      record { previous = h.previous; entries = h.entries; quiet = h.quiet };
}

pub Reads-store_or_read :
    (env : Env) (it : Item) (by : Option Entry) (r : Runner) → Reads r (store_or_read env it by r).1
unfolding store_or_read
Reads-store_or_read env it (some prev) r = record {
  previous = refl;
  entries = refl;
  quiet = λ h. h;
}
Reads-store_or_read env it none r = read_file_rule _ Reads-rule env 2 0 it r

Reads-store_file :
    (env : Env) (paranoid : Bool) (it : Item) (r : Runner)
    → Reads r (store_file env paranoid it r).1
unfolding store_file
Reads-store_file env paranoid it r = Reads-store_or_read env it _ r

-- An item that left no warning left its entry.
pub record IsRecorded (env : Env) (it : Item) (r r' : Runner) : Type 0 where
  pub entry : Entry
  pub same_path : entry.path ≡ it.path
  pub faithful : IsFaithful env r.previous it entry
  pub entries : r'.entries ≡ put_entry entry r.entries

path-IsFaithful :
    (env : Env) (previous : List Entry) (it : Item) (e : Entry)
    → IsFaithful env previous it e
    → e.path ≡ it.path
unfolding entry_of
path-IsFaithful env previous it e (settled h) = h.same_path
path-IsFaithful env previous it e (vouched_for prev there same q) = ap (λ x. x.path) q
path-IsFaithful env previous it e (as_found q k) = ap (λ x. x.path) q

-- What `process` takes over from a result that left no warning.
record IsTaken (x : Stored Entry × Runner) (r' : Runner) : Type 0 where
  entry : Entry
  returned : x.0 ≡ ok entry
  entries : r'.entries ≡ put_entry entry x.1.entries
  previous : r'.previous ≡ x.1.previous
  quiet : x.1.warnings ≡ []

take_stored-IsTaken :
    (env : Env) (it : Item) (x : Stored Entry × Runner) (r' : Runner)
    → take_stored env it x ≡ (none, r')
    → r'.warnings ≡ []
    → IsTaken x r'
unfolding take_stored
take_stored-IsTaken env it (err not_exist, r) r' q h =
    absurd (append_nonempty r.warnings _ (ap (λ x. x.1.warnings) q ∙ h))
take_stored-IsTaken env it (err permission, r) r' q h =
    absurd (append_nonempty r.warnings _ (ap (λ x. x.1.warnings) q ∙ h))
take_stored-IsTaken env it (err other, r) r' q h = absurd (ground arith)
take_stored-IsTaken env it (ok e, r) r' q h = record {
  entry = e;
  returned = refl;
  entries = sym (ap (λ x. x.1.entries) q);
  previous = sym (ap (λ x. x.1.previous) q);
  quiet = ap (λ x. x.1.warnings) q ∙ h;
}

-- One item keeps the previous entries and adds no warning.
pub record Goes (env : Env) (it : Item) (r r' : Runner) : Type 0 where
  pub recorded : IsRecorded env it r r'
  pub previous : r'.previous ≡ r.previous
  pub quiet : r.warnings ≡ []

stored-Goes :
    (env : Env) (paranoid : Bool) (it : Item) (r r' : Runner)
    → take_stored env it (store_file env paranoid it r) ≡ (none, r')
    → r'.warnings ≡ []
    → Goes env it r r'
stored-Goes env paranoid it r r' q h =
    let x = store_file env paranoid it r in
    let t = take_stored-IsTaken env it x r' q h in
    let reads = Reads-store_file env paranoid it r in
    let f =
      store_file-IsFaithful env paranoid it r t.entry x.1 (ap (λ y. (y, x.1)) t.returned) t.quiet in
    record {
      recorded = record {
        entry = t.entry;
        same_path = path-IsFaithful env r.previous it t.entry f;
        faithful = f;
        entries = t.entries ∙ ap (put_entry t.entry) reads.entries;
      };
      previous = t.previous ∙ reads.previous;
      quiet = reads.quiet t.quiet;
    }

found-Goes :
    (env : Env) (it : Item) (r r1 r' : Runner)
    → (it.kind ≡ EntryType.dir) ⊎ (it.kind ≡ EntryType.symlink)
    → r1.entries ≡ r.entries
    → r1.previous ≡ r.previous
    → r1.warnings ≡ r.warnings
    → record_entry (entry_of it) r1 ≡ r'
    → r'.warnings ≡ []
    → Goes env it r r'
unfolding entry_of
found-Goes env it r r1 r' kind same_entries same_previous same_warnings q h = record {
  recorded = record {
    entry = entry_of it;
    same_path = refl;
    faithful = as_found refl kind;
    entries = sym (ap (λ x. x.entries) q) ∙ ap (put_entry (entry_of it)) same_entries;
  };
  previous = sym (ap (λ x. x.previous) q) ∙ same_previous;
  quiet = sym same_warnings ∙ ap (λ x. x.warnings) q ∙ h;
}

process_kind-Goes :
    (env : Env) (paranoid : Bool) (it : Item) (k : EntryType) (r r' : Runner)
    → it.kind ≡ k
    → process_kind env paranoid it k r ≡ (none, r')
    → r'.warnings ≡ []
    → Goes env it r r'
unfolding process_kind
process_kind-Goes env paranoid it EntryType.dir r r' kind q h =
    found-Goes env it r (count_dir r) r' (inl kind) refl refl refl (ap (λ x. x.1) q) h
process_kind-Goes env paranoid it EntryType.symlink r r' kind q h =
    found-Goes env it r (count_symlink r) r' (inr kind) refl refl refl (ap (λ x. x.1) q) h
process_kind-Goes env paranoid it EntryType.file r r' kind q h =
    stored-Goes env paranoid it r r' q h
process_kind-Goes env paranoid it (EntryType.other t) r r' kind q h =
    stored-Goes env paranoid it r r' q h

pub process_item-Goes :
    (env : Env) (paranoid : Bool) (it : Item) (r r' : Runner)
    → process_item env paranoid it r ≡ (none, r')
    → r'.warnings ≡ []
    → Goes env it r r'
unfolding process_item
process_item-Goes env paranoid it r r' q h = elim (Bool-cases (env.is_cancelled it.path)) [
  | inl c ↦ absurd (ground arith)
  | inr c ↦ process_kind-Goes env paranoid it it.kind r r' refl (rw c at q) h
]

-- the rest of the loop, behind a first item
pub unless_failed-eq-none :
    (x : Option BackupError × Runner) (k : Runner → Option BackupError × Runner) (r' : Runner)
    → unless_failed x k ≡ (none, r')
    → (x ≡ (none, x.1)) × (k x.1 ≡ (none, r'))
unless_failed-eq-none (some e, r) k r' q = absurd (ground arith)
unless_failed-eq-none (none, r) k r' q = (refl, q)

pub process_quiet :
    (env : Env) (paranoid : Bool) (items : List Item) (r r' : Runner)
    → process env paranoid items r ≡ (none, r')
    → r'.warnings ≡ []
    → (r.warnings ≡ []) × (r'.previous ≡ r.previous)
unfolding process
process_quiet env paranoid [] r r' q h =
    (ap (λ x. x.1.warnings) q ∙ h, sym (ap (λ x. x.1.previous) q))
process_quiet env paranoid (it ∷ items) r r' q h =
    let x = process_item env paranoid it r in
    let (first, rest) = unless_failed-eq-none x _ r' q in
    let (quiet, same) = process_quiet env paranoid items x.1 r' rest h in
    let g = process_item-Goes env paranoid it r x.1 first quiet in (g.quiet, same ∙ g.previous)

-- Reading a list of the walk's items, without an error and without a warning at its end, keeps
-- every entry faithful to an item of the walk: a directory or a symlink as it was found, a file
-- with the content of one read between two stats that agree, within three rounds, or with the hash
-- of a previous entry of its path that passes the stat-diff.
pub process-IsFaithful :
    (env : Env) (paranoid : Bool) (walked items : List Item) (r r' : Runner)
    → ((it : Item) → In it items → In it walked)
    → process env paranoid items r ≡ (none, r')
    → r'.warnings ≡ []
    → All (IsFaithfulTo env r.previous walked) r.entries
    → All (IsFaithfulTo env r.previous walked) r'.entries
unfolding process
process-IsFaithful env paranoid walked [] r r' sub q h a =
    subst (All (IsFaithfulTo env r.previous walked)) (ap (λ x. x.1.entries) q) a
process-IsFaithful env paranoid walked (it ∷ items) r r' sub q h a =
    let x = process_item env paranoid it r in
    let (first, rest) = unless_failed-eq-none x _ r' q in
    let (quiet, same) = process_quiet env paranoid items x.1 r' rest h in
    let g = process_item-Goes env paranoid it r x.1 first quiet in
    let w = g.recorded in
    let now =
      All-put_entry (IsFaithfulTo env r.previous walked) w.entry r.entries
        (it, sub it (inl refl), w.same_path, w.faithful) a in
    let kept = subst (All (IsFaithfulTo env r.previous walked)) (sym w.entries) now in
    subst (λ p. All (IsFaithfulTo env p walked) r'.entries) g.previous
      (process-IsFaithful env paranoid walked items x.1 r' (λ i m. sub i (inr m)) rest h
        (subst (λ p. All (IsFaithfulTo env p walked) x.1.entries) (sym g.previous) kept))
