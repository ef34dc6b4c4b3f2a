-- ===== src/Backup/Counts.antt =====
-- The statistics of a run (`process` of internal/backup/backup.go).
use better_amp_backup.Prelude.{
  ℕ, ◌+◌, Bool, true, false, if_cases, List, [], ◌∷◌, Option, none, some, ◌≡◌, refl, ap, ◌∙◌, arith,
}
use better_amp_backup.Paths.{Text}
use better_amp_backup.Repo.Manifest.{Stats}
use better_amp_backup.Repo.Index.{Entry, EntryType}
use better_amp_backup.Scan.{Item}
use better_amp_backup.Backup.{
  Env, Runner, Stored, ok, err, not_exist, permission, other, PutResult, store_or_read, store_file,
  take_stored, process_kind, process_item, process, note_unsettled, count_object, BackupError,
  unless_failed, finish,
}
use better_amp_backup.Backup.Rule.{IsRoundRule, read_file_rule}

-- The files by where their content came from.
abbrev pub sources : Stats → ℕ
sources s = s.new_objects + s.reused_objects + s.unchanged_files

abbrev pub counted : Stored Entry → ℕ
counted (ok e) = 1
counted (err e) = 0

-- An entry counts once; a failure does not count.
record Counts (r : Runner) (x : Stored Entry × Runner) : Type 0 where
  source : sources x.1.stats ≡ sources r.stats + counted x.0
  files : x.1.stats.files ≡ r.stats.files

stats-note_unsettled :
    (env : Env) (p : Text) (stable : Bool) (r : Runner)
    → (sources (note_unsettled env p stable r).stats ≡ sources r.stats)
      × ((note_unsettled env p stable r).stats.files ≡ r.stats.files)
stats-note_unsettled env p true r = (refl, refl)
stats-note_unsettled env p false r = (refl, refl)

stats-count_object :
    (new : Bool) (res : PutResult) (r : Runner)
    → res.new ≡ new
    → (sources (count_object res r).stats ≡ sources r.stats + 1)
      × ((count_object res r).stats.files ≡ r.stats.files)
stats-count_object true res r q = rw q (omega arith, refl)
stats-count_object false res r q = rw q (omega arith, refl)

Counts-finish :
    (env : Env) (it : Item) (stable : Bool) (res : PutResult) (r : Runner)
    → Counts r (finish env it stable res r)
unfolding finish
Counts-finish env it stable res r =
    let (s, f) = stats-note_unsettled env it.path stable r in
    let (s', f') = stats-count_object res.new res (note_unsettled env it.path stable r) refl in
    record { source = s' ∙ ap (λ n. n + 1) s; files = f' ∙ f }

Counts-rule : IsRoundRule Counts
Counts-rule = record {
  on_failed = λ r e. record { source = omega arith; files = refl };
  on_put = λ r rd x h. record { source = h.source; files = h.files };
  on_reread = λ r x h. record { source = h.source; files = h.files };
  on_finish = λ env it stable res r there. Counts-finish env it stable res r;
}

store_or_read-Counts :
    (env : Env) (it : Item) (by : Option Entry) (r : Runner) → Counts r (store_or_read env it by r)
unfolding store_or_read
store_or_read-Counts env it (some prev) r = record { source = omega arith; files = refl }
store_or_read-Counts env it none r = read_file_rule Counts Counts-rule env 2 0 it r

-- Each file is counted under one source.
abbrev pub IsCounted : Runner → Type 0
IsCounted r = sources r.stats ≡ r.stats.files

take_stored-IsCounted :
    (env : Env) (it : Item) (r : Runner) (x : Stored Entry × Runner)
    → IsCounted r
    → Counts r x
    → IsCounted (take_stored env it x).1
unfolding take_stored
take_stored-IsCounted env it r (err not_exist, r1) h c = omega (arith, c.source, c.files)
take_stored-IsCounted env it r (err permission, r1) h c = omega (arith, c.source, c.files)
take_stored-IsCounted env it r (err other, r1) h c = omega (arith, c.source, c.files)
take_stored-IsCounted env it r (ok e, r1) h c = omega (arith, c.source, c.files)

store_file-IsCounted :
    (env : Env) (paranoid : Bool) (it : Item) (r : Runner)
    → IsCounted r
    → IsCounted (take_stored env it (store_file env paranoid it r)).1
unfolding store_file
store_file-IsCounted env paranoid it r h =
    take_stored-IsCounted env it r _ h (store_or_read-Counts env it _ r)

process_kind-IsCounted :
    (env : Env) (paranoid : Bool) (it : Item) (k : EntryType) (r : Runner)
    → IsCounted r
    → IsCounted (process_kind env paranoid it k r).1
unfolding process_kind
process_kind-IsCounted env paranoid it EntryType.dir r h = h
process_kind-IsCounted env paranoid it EntryType.symlink r h = h
process_kind-IsCounted env paranoid it EntryType.file r h = store_file-IsCounted env paranoid it r h
process_kind-IsCounted env paranoid it (EntryType.other t) r h =
    store_file-IsCounted env paranoid it r h

process_item-IsCounted :
    (env : Env) (paranoid : Bool) (it : Item) (r : Runner)
    → IsCounted r
    → IsCounted (process_item env paranoid it r).1
unfolding process_item
process_item-IsCounted env paranoid it r h =
    if_cases (λ (x : Option BackupError × Runner). IsCounted x.1) (env.is_cancelled it.path)
      (λ _. h) (λ _. process_kind-IsCounted env paranoid it it.kind r h)

unless_failed-IsCounted :
    (x : Option BackupError × Runner) (k : Runner → Option BackupError × Runner)
    → IsCounted x.1
    → ((r : Runner) → IsCounted r → IsCounted (k r).1)
    → IsCounted (unless_failed x k).1
unless_failed-IsCounted (some e, r) k h f = h
unless_failed-IsCounted (none, r) k h f = f r h

-- Whatever becomes of the reading, and from a state where it holds: the files that were counted
-- are the new, the reused and the unchanged ones together.
pub process-IsCounted :
    (env : Env) (paranoid : Bool) (items : List Item) (r : Runner)
    → IsCounted r
    → IsCounted (process env paranoid items r).1
unfolding process
process-IsCounted env paranoid [] r h = h
process-IsCounted env paranoid (it ∷ items) r h =
    unless_failed-IsCounted (process_item env paranoid it r) _
      (process_item-IsCounted env paranoid it r h)
      (λ r' h'. process-IsCounted env paranoid items r' h')
