-- ===== src/Repo/Gc/Marking.antt =====
-- What the mark phase of `Prune` (internal/repo/gc.go) finds: every object that a readable index
-- among the snapshots, live or forgotten, refers to.
use better_amp_backup.Prelude.{
  list_eq_self, ℕ, Bool, true, false, List, [], ◌∷◌, ◌++◌, In, some, ◌≡◌, sym, ap, ◌∙◌, arith,
  subst, ◌⊎◌, inl, inr,
}
use better_amp_backup.Repo.Manifest.{Manifest, SnapshotId, Hash, is_zero}
use better_amp_backup.Repo.Index.{Entry, EntryType, Stream, eof, broken, entry, index}
use better_amp_backup.Repo.Disk.{Disk, Result, ok, index_file, find, gets, may_fail, io_error}
use better_amp_backup.Repo.Disk.Keeps.{
  Keeps-may_fail, Keeps-result, bind-eq-ok, pure-eq-ok, gets-eq-ok,
}
use better_amp_backup.Repo.Snapshots.Reads.{Keeps-open_found, Keeps-open_index}
use better_amp_backup.Repo.Snapshots.Results.{open_found-eq-ok, open_index-eq-ok}
use better_amp_backup.Repo.Snapshots.{index_ext, open_index, open_found}
use better_amp_backup.Repo.Trash.{trash_dir}
use better_amp_backup.Repo.Gc.{
  is_referenced, add_reference, is_file, mark_entry, mark_stream, lift, mark_live, mark_trashed,
  mark_forgotten,
}

-- The stream has a file entry with this content.
abbrev pub HasFile : Hash → Stream → Type 0
HasFile h eof = ⊥
HasFile h broken = ⊥
HasFile h (entry e s) =
    ((e.kind ≡ EntryType.file) × (e.hash ≡ h) × (is_zero h ≡ false)) ⊎ HasFile h s

abbrev pub Referenced : List Hash → Hash → Type 0
Referenced refs h = is_referenced refs h ≡ true

add_reference-keeps :
    (x h : Hash) (refs : List Hash) → Referenced refs h → Referenced (add_reference x refs) h
unfolding add_reference is_referenced
add_reference-keeps x h refs k = ground arith

add_reference_self : (h : Hash) (refs : List Hash) → Referenced (add_reference h refs) h
unfolding add_reference is_referenced
add_reference_self h refs = ground (arith, list_eq_self h)

mark_entry-keeps :
    (e : Entry) (h : Hash) (refs : List Hash) → Referenced refs h → Referenced (mark_entry e refs) h
unfolding mark_entry
mark_entry-keeps e h refs k = ground (arith, add_reference-keeps e.hash h refs k)

mark_entry_file :
    (e : Entry) (h : Hash) (refs : List Hash)
    → e.kind ≡ EntryType.file
    → e.hash ≡ h
    → is_zero h ≡ false
    → Referenced (mark_entry e refs) h
unfolding mark_entry is_file
mark_entry_file e h refs kind same named = rw (kind, same, named) (add_reference_self h refs)

-- A stream that was marked to its end has a valid entry at its head.
mark_stream-entry :
    (e : Entry) (s : Stream) (refs refs' : List Hash)
    → mark_stream (entry e s) refs ≡ ok refs'
    → mark_stream s (mark_entry e refs) ≡ ok refs'
unfolding mark_stream
mark_stream-entry e s refs refs' q = ground arith

mark_stream-keeps :
    (s : Stream) (h : Hash) (refs refs' : List Hash)
    → mark_stream s refs ≡ ok refs'
    → Referenced refs h
    → Referenced refs' h
unfolding mark_stream
mark_stream-keeps eof h refs refs' q k = let e : refs ≡ refs' = ground arith in rw e at k
mark_stream-keeps broken h refs refs' q k = absurd (ground arith)
mark_stream-keeps (entry e s) h refs refs' q k =
    mark_stream-keeps s h (mark_entry e refs) refs' (mark_stream-entry e s refs refs' q)
      (mark_entry-keeps e h refs k)

mark_stream-finds :
    (s : Stream) (h : Hash) (refs refs' : List Hash)
    → mark_stream s refs ≡ ok refs'
    → HasFile h s
    → Referenced refs' h
mark_stream-finds eof h refs refs' q k = absurd k
mark_stream-finds broken h refs refs' q k = absurd k
mark_stream-finds (entry e s) h refs refs' q (inl (kind, same, named)) =
    mark_stream-keeps s h (mark_entry e refs) refs' (mark_stream-entry e s refs refs' q)
      (mark_entry_file e h refs kind same named)
mark_stream-finds (entry e s) h refs refs' q (inr later) =
    mark_stream-finds s h (mark_entry e refs) refs' (mark_stream-entry e s refs refs' q) later

lift-eq-ok :
    (r : Result (List Hash)) (d e : Disk) (refs : List Hash)
    → lift r d ≡ (ok refs, e)
    → (r ≡ ok refs) × (d ≡ e)
unfolding lift
lift-eq-ok r d e refs q = (ap (λ x. x.0) q, ap (λ x. x.1) q)

module _ (h : Hash) where
  pub mark_trashed-keeps :
      (ids : List SnapshotId) (refs refs' : List Hash) (d e : Disk)
      → mark_trashed ids refs d ≡ (ok refs', e)
      → Referenced refs h
      → Referenced refs' h
  unfolding mark_trashed
  mark_trashed-keeps [] refs refs' d e q k =
      subst (λ r. Referenced r h) (pure-eq-ok refs refs' d e q).0 k
  mark_trashed-keeps (id ∷ ids) refs refs' d e q k =
      let (found, d1, q1, r1) =
        bind-eq-ok (gets (λ d. find (id ++ index_ext) (trash_dir d.trash))) _ d e refs' q in
      let (s, d2, q2, r2) = bind-eq-ok (open_found found) _ d1 e refs' r1 in
      let (mid, d3, q3, r3) = bind-eq-ok (lift (mark_stream s refs)) _ d2 e refs' r2 in
      mark_trashed-keeps ids mid refs' d3 e r3
        (mark_stream-keeps s h refs mid (lift-eq-ok (mark_stream s refs) d2 d3 mid q3).0 k)

  pub mark_trashed-finds :
      (ids : List SnapshotId) (refs refs' : List Hash) (d e : Disk) (id : SnapshotId) (v : ℕ)
      (s : Stream)
      → mark_trashed ids refs d ≡ (ok refs', e)
      → In id ids
      → find (id ++ index_ext) (trash_dir d.trash) ≡ some (index_file (index v s))
      → HasFile h s
      → Referenced refs' h
  unfolding mark_trashed
  mark_trashed-finds [] refs refs' d e id v s q i f k = absurd i
  mark_trashed-finds (x ∷ ids) refs refs' d e id v s q i f k =
      let (found, d1, q1, r1) =
        bind-eq-ok (gets (λ d. find (x ++ index_ext) (trash_dir d.trash))) _ d e refs' q in
      let (s', d2, q2, r2) = bind-eq-ok (open_found found) _ d1 e refs' r1 in
      let (mid, d3, q3, r3) = bind-eq-ok (lift (mark_stream s' refs)) _ d2 e refs' r2 in
      let (looked, same) =
        gets-eq-ok (λ d. find (x ++ index_ext) (trash_dir d.trash)) found d d1 q1 in
      let marked = (lift-eq-ok (mark_stream s' refs) d2 d3 mid q3) in
      let opened = Keeps-result (Keeps-open_found found) d1 d2 (ok s') q2 in
      elim i [
        | inl here ↦
            let there : found ≡ some (index_file (index v s)) =
              sym looked ∙ ap (λ n. find (n ++ index_ext) (trash_dir d.trash)) (sym here) ∙ f in
            let stream = open_found-eq-ok v s s' found d1 d2 q2 there in
            mark_trashed-keeps ids mid refs' d3 e r3
              (mark_stream-finds s' h refs mid marked.0 (subst (HasFile h) stream k))
        | inr later ↦
            let trash : d3.trash ≡ d.trash =
              ap (λ x. x.trash) (sym marked.1) ∙ opened.trash ∙ ap (λ x. x.trash) (sym same) in
            mark_trashed-finds ids mid refs' d3 e id v s r3 later
              (ap (λ t. find (id ++ index_ext) (trash_dir t)) trash ∙ f) k
      ]

  pub mark_live-keeps :
      (ms : List Manifest) (refs refs' : List Hash) (d e : Disk)
      → mark_live ms refs d ≡ (ok refs', e)
      → Referenced refs h
      → Referenced refs' h
  unfolding mark_live
  mark_live-keeps [] refs refs' d e q k =
      subst (λ r. Referenced r h) (pure-eq-ok refs refs' d e q).0 k
  mark_live-keeps (m ∷ ms) refs refs' d e q k =
      let (_, d1, q1, r1) = bind-eq-ok (may_fail io_error) _ d e refs' q in
      let (s, d2, q2, r2) = bind-eq-ok (open_index m.id) _ d1 e refs' r1 in
      let (mid, d3, q3, r3) = bind-eq-ok (lift (mark_stream s refs)) _ d2 e refs' r2 in
      mark_live-keeps ms mid refs' d3 e r3
        (mark_stream-keeps s h refs mid (lift-eq-ok (mark_stream s refs) d2 d3 mid q3).0 k)

  pub mark_live-finds :
      (ms : List Manifest) (refs refs' : List Hash) (d e : Disk) (m : Manifest) (v : ℕ) (s : Stream)
      → mark_live ms refs d ≡ (ok refs', e)
      → In m ms
      → find (m.id ++ index_ext) d.snapshots ≡ some (index_file (index v s))
      → HasFile h s
      → Referenced refs' h
  unfolding mark_live
  mark_live-finds [] refs refs' d e m v s q i f k = absurd i
  mark_live-finds (x ∷ ms) refs refs' d e m v s q i f k =
      let (_, d1, q1, r1) = bind-eq-ok (may_fail io_error) _ d e refs' q in
      let (s', d2, q2, r2) = bind-eq-ok (open_index x.id) _ d1 e refs' r1 in
      let (mid, d3, q3, r3) = bind-eq-ok (lift (mark_stream s' refs)) _ d2 e refs' r2 in
      let marked = (lift-eq-ok (mark_stream s' refs) d2 d3 mid q3) in
      let looked = Keeps-result (Keeps-may_fail io_error) d d1 (ok tt) q1 in
      let opened = Keeps-result (Keeps-open_index x.id) d1 d2 (ok s') q2 in
      elim i [
        | inl here ↦
            let there : find (x.id ++ index_ext) d1.snapshots ≡ some (index_file (index v s)) =
              ap (find (x.id ++ index_ext)) looked.snapshots
              ∙ ap (λ (n : Manifest). find (n.id ++ index_ext) d.snapshots) (sym here)
              ∙ f in
            let stream = open_index-eq-ok v s s' x.id d1 d2 q2 there in
            mark_live-keeps ms mid refs' d3 e r3
              (mark_stream-finds s' h refs mid marked.0 (subst (HasFile h) stream k))
        | inr later ↦
            let same : d3.snapshots ≡ d.snapshots =
              ap (λ x. x.snapshots) (sym marked.1) ∙ opened.snapshots ∙ looked.snapshots in
            mark_live-finds ms mid refs' d3 e m v s r3 later
              (ap (find (m.id ++ index_ext)) same ∙ f) k
      ]

  pub mark_forgotten-keeps :
      (b : Bool) (ids : List SnapshotId) (refs refs' : List Hash) (d e : Disk)
      → mark_forgotten b ids refs d ≡ (ok refs', e)
      → Referenced refs h
      → Referenced refs' h
  unfolding mark_forgotten
  mark_forgotten-keeps true ids refs refs' d e q k =
      subst (λ r. Referenced r h) (pure-eq-ok refs refs' d e q).0 k
  mark_forgotten-keeps false ids refs refs' d e q k = mark_trashed-keeps ids refs refs' d e q k
