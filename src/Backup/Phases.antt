-- ===== src/Backup/Phases.antt =====
-- The two phases of a run (`Run` of internal/backup/backup.go), cold and hot.
use better_amp_backup.Prelude.{
  Bool, true, false, if_cases, List, [], ◌∷◌, ◌++◌, append_assoc, All, In, Option, none, some, ◌≡◌,
  ◌⊎◌, inl, inr, refl, sym, ap, ◌∙◌, subst,
}
use better_amp_backup.Repo.Manifest.{Hash}
use better_amp_backup.Repo.Index.{Entry}
use better_amp_backup.Repo.Disk.{Disk}
use better_amp_backup.Scan.{Item, WalkResult, split, is_hot}
use better_amp_backup.Backup.{Env, Runner, BackupError, process}
use better_amp_backup.Backup.Faithful.{IsFaithfulTo, process-IsFaithful, process_quiet}
use better_amp_backup.Backup.Covered.{IsCaptured, process-IsCaptured}
use better_amp_backup.Backup.Kept.{Grows, Grows-trans, process-Grows, IsBacked}
use better_amp_backup.Backup.Backed.{IsSound, process-IsSound}
use better_amp_backup.Backup.Intact.{Scope, IsIntactFor}
use better_amp_backup.Backup.Triples.{Holds, Holds-bind}
use better_amp_backup.Backup.Run.{
  Options, Input, World, Outcome, ok, err, QuiescerCall, quiesce_call, release_call, called,
  of_process, read_items, after_release, hot_phase, read_phases, new_runner,
}

-- `Quiesce` was called, and then `Release`.
abbrev pub held : List QuiescerCall → List QuiescerCall
held calls = calls ++ quiesce_call ∷ release_call ∷ []

-- The state of a run in its world, over the repository `base` that the run began with, with the
-- items `left` still to be read.
pub record IsReady (env : Env) (walked left : List Item) (previous : List Entry) (base : Disk)
    (r : Runner) (w : World) : Type 0 where
  pub grows : Grows base w.repo
  pub backed :
      (scope : Scope)
      → IsIntactFor scope base base
      → All (IsBacked w.repo) r.previous × All (IsBacked w.repo) r.entries
  pub faithful :
      r.warnings ≡ [] → (r.previous ≡ previous) × All (IsFaithfulTo env previous walked) r.entries
  pub captured : r.warnings ≡ [] → (it : Item) → In it walked → In it left ⊎ IsCaptured r.entries it

-- What is left where a phase failed.
pub record IsOver (base : Disk) (calls : List QuiescerCall) (w : World) : Type 0 where
  pub grows : Grows base w.repo
  pub so_far : w.calls ≡ calls

module _ (env : Env) (paranoid : Bool) (walked left : List Item) (previous : List Entry)
    (base : Disk) where
  -- What is left where a phase returned.
  pub record IsDone (calls : List QuiescerCall) (r : Runner) (w : World) : Type 0 where
    pub ready : IsReady env walked left previous base r w
    pub so_far : w.calls ≡ calls

  read_items-IsReady :
      (before items : List Item) (r r' : Runner) (w : World)
      → ((it : Item) → In it items → In it walked)
      → ((it : Item) → In it before → In it items ⊎ In it left)
      → IsReady env walked before previous base r w
      → process env paranoid items (record r { repo = w.repo }) ≡ (none, r')
      → IsReady env walked left previous base r' (record w { repo = r'.repo })
  read_items-IsReady before items r r' w sub parts h q =
      let r0 = record r { repo = w.repo } in
      record {
        grows =
            Grows-trans base w.repo r'.repo h.grows
              (subst (λ x. Grows w.repo x.1.repo) q (process-Grows env paranoid items r0));
        backed = λ scope intact.
            let (b_previous, b_entries) = h.backed scope intact in
            let a =
              process-IsSound env paranoid items r0
                (record { previous = b_previous; entries = b_entries }) in
            let s' = subst (λ x. IsSound x.1) q a.sound in (s'.previous, s'.entries);
        faithful = λ quiet.
            let (quiet_before, same) = process_quiet env paranoid items r0 r' q quiet in
            let (is_previous, so_far) = h.faithful quiet_before in
            (
              same ∙ is_previous,
              subst (λ p. All (IsFaithfulTo env p walked) r'.entries) is_previous
                  (process-IsFaithful env paranoid walked items r0 r' sub q quiet (
                    subst (λ p. All (IsFaithfulTo env p walked) r.entries) (sym is_previous)
                      so_far)),
            );
        captured = λ quiet it there.
            let (quiet_before, _) = process_quiet env paranoid items r0 r' q quiet in
            go it (process-IsCaptured env paranoid items r0 r' q quiet it)
              (h.captured quiet_before it there);
      }
    where
      go :
          (it : Item)
          → (In it items ⊎ IsCaptured r.entries it → IsCaptured r'.entries it)
          → In it before ⊎ IsCaptured r.entries it
          → In it left ⊎ IsCaptured r'.entries it
      go it read (inr c) = inr (read (inr c))
      go it read (inl b) = elim (parts it b) [
        | inl now ↦ inr (read (inl now))
        | inr later ↦ inl later
      ]

  pub Holds-read_items :
      (before items : List Item) (r : Runner) (w : World)
      → ((it : Item) → In it items → In it walked)
      → ((it : Item) → In it before → In it items ⊎ In it left)
      → IsReady env walked before previous base r w
      → Holds (IsDone w.calls) (IsOver base w.calls) (read_items env paranoid items r w)
  unfolding read_items
  Holds-read_items before items r w sub parts h =
      let r0 = record r { repo = w.repo } in
      go (process env paranoid items r0).0 (process env paranoid items r0).1 refl
    where
      go :
          (x : Option BackupError) (r' : Runner)
          → process env paranoid items (record r { repo = w.repo }) ≡ (x, r')
          → Holds
              (IsDone w.calls)
              (IsOver base w.calls)
              (of_process x r', record w { repo = r'.repo })
      go none r' q = record {
        ready = read_items-IsReady before items r r' w sub parts h q;
        so_far = refl;
      }
      go (some e) r' q = record {
        grows = Grows-trans base w.repo r'.repo h.grows (
            subst (λ x. Grows w.repo x.1.repo) q
              (process-Grows env paranoid items (record r { repo = w.repo })));
        so_far = refl;
      }

  released-so_far :
      (w w' : World)
      → w'.calls ≡ (called quiesce_call w).calls
      → (called release_call w').calls ≡ held w.calls
  released-so_far w w' q =
      ap (λ c. c ++ release_call ∷ []) q
      ∙ append_assoc w.calls (quiesce_call ∷ []) (release_call ∷ [])

  Holds-after_release :
      (calls : List QuiescerCall) (fails : Bool) (o : Outcome Runner) (w : World)
      → Holds (IsDone calls) (IsOver base calls) (o, w)
      → Holds (IsDone calls) (IsOver base calls) (after_release fails o, w)
  Holds-after_release calls fails (err x) w h = h
  Holds-after_release calls true (ok r) w h = record { grows = h.ready.grows; so_far = h.so_far }
  Holds-after_release calls false (ok r) w h = h

  IsReady-called :
      (c : QuiescerCall) (r : Runner) (w : World)
      → IsReady env walked left previous base r w
      → IsReady env walked left previous base r (called c w)
  IsReady-called c r w h = record {
    grows = h.grows;
    backed = h.backed;
    faithful = h.faithful;
    captured = h.captured;
  }

  Holds-called :
      (calls : List QuiescerCall) (o : Outcome Runner) (w w0 : World)
      → calls ≡ (called quiesce_call w0).calls
      → Holds (IsDone calls) (IsOver base calls) (o, w)
      → Holds (IsDone (held w0.calls)) (IsOver base (held w0.calls)) (o, called release_call w)
  Holds-called calls (ok r) w w0 q h = record {
    ready = IsReady-called release_call r w h.ready;
    so_far = released-so_far w0 w (h.so_far ∙ q);
  }
  Holds-called calls (err x) w w0 q h = record {
    grows = h.grows;
    so_far = released-so_far w0 w (h.so_far ∙ q);
  }

module _ (input : Input) (paranoid : Bool) (walked : List Item) (previous : List Entry)
    (base : Disk) where
  Holds-hot_phase :
      (items : List Item) (r : Runner) (w : World)
      → ((it : Item) → In it items → In it walked)
      → IsReady input.files walked items previous base r w
      → Holds
          (IsDone input.files paranoid walked [] previous base (held w.calls))
          (IsOver base (held w.calls))
          (hot_phase input paranoid items r w)
  unfolding hot_phase
  Holds-hot_phase items r w sub h =
      if_cases
        (Holds (IsDone input.files paranoid walked [] previous base (held w.calls))
          (IsOver base (held w.calls)))
        input.quiesce_fails
        (λ _. record {
          grows = h.grows;
          so_far =
              released-so_far input.files paranoid walked [] previous base w (called quiesce_call w)
                refl;
        })
        (λ _.
          let q = called quiesce_call w in
          let (o, w') = read_items input.files paranoid items r q in
          Holds-called input.files paranoid walked [] previous base q.calls _ w' w refl (
            Holds-after_release input.files paranoid walked [] previous base q.calls
              input.release_fails o w'
              (Holds-read_items input.files paranoid walked [] previous base items items r q sub
                (λ it there. inl there)
                (IsReady-called input.files paranoid walked items previous base quiesce_call r w
                  h))))

-- Both parts of a split are parts of the list.
split-In :
    (items : List Item) (it : Item)
    → (In it (split items).0 → In it items) × (In it (split items).1 → In it items)
unfolding split
split-In [] it = (λ h. h, λ h. h)
split-In (x ∷ items) it =
    let (colds, hots) = split-In items it in
    if_cases
      (λ (p : List Item × List Item).
        (In it p.0 → In it (x ∷ items)) × (In it p.1 → In it (x ∷ items)))
      (is_hot x.tier) (λ _. (λ h. inr (colds h), λ h. behind (split items).1 hots h))
      (λ _. (λ h. behind (split items).0 colds h, λ h. inr (hots h)))
  where
    behind : (xs : List Item) → (In it xs → In it items) → In it (x ∷ xs) → In it (x ∷ items)
    behind xs f (inl e) = inl e
    behind xs f (inr h) = inr (f h)

-- Each item is in one part of a split.
split-parts :
    (items : List Item) (it : Item) → In it items → In it (split items).0 ⊎ In it (split items).1
unfolding split
split-parts [] it h = elim h [ ]
split-parts (x ∷ items) it (inl same) =
    if_cases (λ (p : List Item × List Item). In it p.0 ⊎ In it p.1) (is_hot x.tier)
      (λ _. inr (inl same)) (λ _. inl (inl same))
split-parts (x ∷ items) it (inr h) = elim (split-parts items it h) [
  | inl c ↦
      if_cases (λ (p : List Item × List Item). In it p.0 ⊎ In it p.1) (is_hot x.tier) (λ _. inl c)
        (λ _. inl (inr c))
  | inr c ↦
      if_cases (λ (p : List Item × List Item). In it p.0 ⊎ In it p.1) (is_hot x.tier)
        (λ _. inr (inr c)) (λ _. inr c)
]

-- The quiescer was not called, or was called to hold and then to release.
abbrev pub IsPaired : List QuiescerCall → World → Type 0
IsPaired calls w = (w.calls ≡ calls) ⊎ (w.calls ≡ held calls)

-- What is left where the phases failed.
pub record IsAborted (base : Disk) (before : List QuiescerCall) (w : World) : Type 0 where
  pub grows : Grows base w.repo
  pub paired : IsPaired before w

Holds-IsAborted :
    (post : Runner → World → Type 0) (base : Disk) (calls before : List QuiescerCall)
    (x : Outcome Runner × World)
    → ((w : World) → w.calls ≡ calls → IsPaired before w)
    → Holds post (IsOver base calls) x
    → Holds post (IsAborted base before) x
Holds-IsAborted post base calls before (ok r, w) paired h = h
Holds-IsAborted post base calls before (err x, w) paired h = record {
  grows = h.grows;
  paired = paired w h.so_far;
}

module _ (hash_of : List Entry → Hash) (opts : Options) (input : Input) (scanned : WalkResult)
    (previous : List Entry) where
  pub Holds-read_phases :
      (base : Disk) (w : World)
      → Grows base w.repo
      → ((scope : Scope) → IsIntactFor scope base base → All (IsBacked w.repo) previous)
      → Holds
          (IsDone input.files opts.paranoid scanned.items [] previous base (held w.calls))
          (IsAborted base w.calls)
          (read_phases hash_of opts input previous scanned w)
  unfolding read_phases
  Holds-read_phases base w g b =
      let r = new_runner hash_of opts input w.repo previous scanned in
      let hots = (split scanned.items).1 in
      let start : IsReady input.files scanned.items scanned.items previous base r w = record {
        grows = g;
        backed = λ scope intact. (b scope intact, tt);
        faithful = λ quiet. (refl, tt);
        captured = λ quiet it there. inl there;
      } in
      Holds-bind (IsDone input.files opts.paranoid scanned.items hots previous base w.calls)
        (IsDone input.files opts.paranoid scanned.items [] previous base (held w.calls))
        (IsAborted base w.calls) (read_items input.files opts.paranoid (split scanned.items).0 r) _
        w
        (Holds-IsAborted (IsDone input.files opts.paranoid scanned.items hots previous base w.calls)
          base w.calls w.calls (read_items input.files opts.paranoid (split scanned.items).0 r w)
          (λ x. inl)
          (Holds-read_items input.files opts.paranoid scanned.items hots previous base scanned.items
            (split scanned.items).0 r w (λ it h. (split-In scanned.items it).0 h)
            (split-parts scanned.items) start))
        (λ r' w' done.
          subst
            (λ calls.
              Holds (IsDone input.files opts.paranoid scanned.items [] previous base (held calls))
                (IsAborted base calls)
                (hot_phase input opts.paranoid (split scanned.items).1 r' w'))
            done.so_far
            (Holds-IsAborted
              (IsDone input.files opts.paranoid scanned.items [] previous base (held w'.calls)) base
              (held w'.calls) w'.calls (hot_phase input opts.paranoid (split scanned.items).1 r' w')
              (λ x. inr)
              (Holds-hot_phase input opts.paranoid scanned.items previous base
                (split scanned.items).1 r' w' (λ it h. (split-In scanned.items it).1 h)
                done.ready)))
