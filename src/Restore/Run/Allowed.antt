-- ===== src/Restore/Run/Allowed.antt =====
-- What a restore (internal/restore/restore.go) does to the file system, whatever its result.
use better_amp_backup.Prelude.{
  ◌==◌, ◌||◌, Bool, true, false, List, [], ◌∷◌, ◌++◌, length, reverse, list_eq, In, Option, none,
  some, Bool-cases, ◌≡◌, ◌⊎◌, inl, inr, refl, sym, ap, subst, arith,
}
use better_amp_backup.Paths.{Text, slash, clean, has_prefix, is_rooted}
use better_amp_backup.Repo.Manifest.{is_zero}
use better_amp_backup.Repo.Index.{Entry, EntryType}
use better_amp_backup.Backup.Run.{sort_by_path}
use better_amp_backup.Restore.Selection.{path_dir}
use better_amp_backup.Restore.Calls.{
  Bytes, Surroundings, Report, State, ok, RestoreError, escapes, no_hash, no_object, corrupted,
  wrong_size, cancelled, os_failed, Step, or_raise, ◌>>=◌, guard, Call, make_dir, make_parent,
  create_temp, remove_temp, remove, link, write_empty, set_mode, set_time, place, Answer, done,
  missing, refused, broken_down,
}
use better_amp_backup.Restore.Files.{
  joined, safe_join, write_symlink, fill_temp, write_empty_file, write_content, write_file,
  make_dirs, make_entry_dir, restore_entry, restore_entries, timed, set_times, apply_times,
  is_symlink, replaced,
}
use better_amp_backup.Restore.Run.Beside.{IsInside, path_dir-IsInside}
use better_amp_backup.Restore.Run.Makes.{
  Makes, Makes-bind, Makes-bind_known, Makes-call, Makes-return, Makes-raise, Makes-or_raise,
  Makes-if, Makes-must, Makes-check, Makes-guard, Makes-or_clean_up,
}

-- The bytes that an entry promises.
pub record IsPromised (env : Surroundings) (entries : List Entry) (target dst : Text)
    (bytes : Bytes) : Type 0 where
  pub entry : Entry
  pub listed : In entry entries
  pub same_path : safe_join target entry.path ≡ some dst
  pub same_hash : list_eq (env.sum bytes) entry.hash ≡ true
  pub same_size : (length bytes == entry.size) ≡ true

-- The directory of the path that an entry of the plan stands for, a path in the target. It is in the
-- target too, unless the path is the target itself; for a target that is not absolute the latter is
-- left open.
pub record IsBeside (entries : List Entry) (target dir : Text) : Type 0 where
  pub entry : Entry
  pub listed : In entry entries
  pub path : Text
  pub same_path : safe_join target entry.path ≡ some path
  pub inside : IsInside target path
  pub parent : dir ≡ path_dir path
  pub within :
      IsInside target dir ⊎ (list_eq path (clean target) ≡ true) ⊎ (is_rooted target ≡ false)

-- A call on the target or below it, or, for the directory and the temporary file of an entry, on the
-- directory of its path; what is put in place has the hash and the size of the entry.
abbrev pub IsAllowed : Surroundings → Text → List Entry → Call → Type 0
IsAllowed env target es (make_parent dir) = IsBeside es target dir
IsAllowed env target es (create_temp dir) = IsBeside es target dir
IsAllowed env target es (remove_temp dir) = IsBeside es target dir
IsAllowed env target es (remove dst) = IsInside target dst
IsAllowed env target es (link to dst) = IsInside target dst
IsAllowed env target es (make_dir dst mode) = (dst ≡ target) ⊎ IsInside target dst
IsAllowed env target es (write_empty dst mode) = IsInside target dst
IsAllowed env target es (set_mode dir mode) = IsBeside es target dir
IsAllowed env target es (set_time dst time) = IsInside target dst
IsAllowed env target es (place dst bytes) = IsInside target dst × IsPromised env es target dst bytes

guard-eq-ok :
    (b : Bool) (e : RestoreError) (s s' : State) (u : Unit {0})
    → guard b e s ≡ (ok u, s')
    → b ≡ true
guard-eq-ok true e s s' u q = refl
guard-eq-ok false e s s' u q = absurd (ground arith)

or_raise-eq-ok :
    {A : Type 0} (e : RestoreError) (o : Option A) (a : A) (s s' : State)
    → or_raise e o s ≡ (ok a, s')
    → o ≡ some a
or_raise-eq-ok e none a s s' q = absurd (ground arith)
or_raise-eq-ok e (some x) a s s' q = let same : x ≡ a = ground arith in ap some same

-- A path that `safeJoin` returned does not leave the target.
pub safe_join-IsInside :
    (target rel dst : Text) → safe_join target rel ≡ some dst → IsInside target dst
unfolding safe_join
safe_join-IsInside target rel dst q =
    let j = joined target rel in
    elim (Bool-cases (list_eq j (clean target))) [
      | inl e ↦
          let same : j ≡ dst = ground arith in
          inl (subst (λ x. list_eq x (clean target) ≡ true) same e)
      | inr ne ↦ elim (Bool-cases (has_prefix j (clean target ++ slash ∷ []))) [
        | inl e ↦
            let same : j ≡ dst = ground arith in
            inr (subst (λ x. has_prefix x (clean target ++ slash ∷ []) ≡ true) same e)
        | inr out ↦ absurd (ground arith)
      ]
    ]

safe_join-joined :
    (target rel dst : Text) → safe_join target rel ≡ some dst → dst ≡ joined target rel
unfolding safe_join
safe_join-joined target rel dst q = elim (Bool-cases (list_eq (joined target rel) (clean target))) [
  | inl e ↦ let same : joined target rel ≡ dst = ground arith in sym same
  | inr ne ↦ elim (Bool-cases (has_prefix (joined target rel) (clean target ++ slash ∷ []))) [
    | inl e ↦ let same : joined target rel ≡ dst = ground arith in sym same
    | inr out ↦ absurd (ground arith)
  ]
]

module _ (env : Surroundings) (target : Text) (entries : List Entry) where
  abbrev Allowed : Call → Type 0
  Allowed = IsAllowed env target entries

  -- The rest of a step has the resolved path inside the target.
  Makes-resolved :
      {A : Type 0} (rel : Text) (f : Text → Step A)
      → ((dst : Text)
          → safe_join target rel ≡ some dst
          → IsInside target dst
          → Makes Allowed (f dst))
      → Makes Allowed (or_raise escapes (safe_join target rel) >>= f)
  Makes-resolved rel f h =
      Makes-bind_known (or_raise escapes (safe_join target rel)) f
        (Makes-or_raise escapes (safe_join target rel))
        (λ dst s s' q.
          let found = or_raise-eq-ok escapes (safe_join target rel) dst s s' q in
          h dst found (safe_join-IsInside target rel dst found))

  Makes-make_entry_dir :
      (e : Entry) (k : EntryType) (rep : Report) → Makes Allowed (make_entry_dir target e k rep)
  unfolding make_entry_dir
  Makes-make_entry_dir e EntryType.dir rep =
      Makes-resolved e.path _
        (λ dst found i. Makes-bind _ _ (Makes-must (make_dir dst _) (inr i)) (λ _. Makes-return _))
  Makes-make_entry_dir e EntryType.file rep = Makes-return rep
  Makes-make_entry_dir e EntryType.symlink rep = Makes-return rep
  Makes-make_entry_dir e (EntryType.other t) rep = Makes-return rep

  pub Makes-make_dirs : (es : List Entry) (rep : Report) → Makes Allowed (make_dirs target es rep)
  unfolding make_dirs
  Makes-make_dirs [] rep = Makes-return rep
  Makes-make_dirs (e ∷ es) rep =
      Makes-bind _ _ (Makes-make_entry_dir e e.kind rep) (λ rep'. Makes-make_dirs es rep')

  Makes-replaced : (a : Answer) → Makes Allowed (replaced a)
  Makes-replaced done = Makes-return tt
  Makes-replaced missing = Makes-return tt
  Makes-replaced refused = Makes-raise os_failed
  Makes-replaced broken_down = Makes-raise os_failed

  beside :
      (e : Entry) (dst : Text)
      → In e entries
      → safe_join target e.path ≡ some dst
      → IsInside target dst
      → IsBeside entries target (path_dir dst)
  beside e dst m found i = record {
    entry = e;
    listed = m;
    path = dst;
    same_path = found;
    inside = i;
    parent = refl;
    within = elim i [
      | inl same ↦ inr (inl same)
      | inr below ↦ elim (Bool-cases (is_rooted target)) [
        | inl rooted ↦ inl (
            path_dir-IsInside target e.path dst rooted (safe_join-joined target e.path dst found)
              below)
        | inr relative ↦ inr (inr relative)
      ]
    ];
  }

  Makes-write_symlink : (e : Entry) → In e entries → Makes Allowed (write_symlink target e)
  unfolding write_symlink
  Makes-write_symlink e m = Makes-resolved e.path _ (λ dst found i.
      Makes-bind _ _ (Makes-must (make_parent (path_dir dst)) (beside e dst m found i)) (λ _.
        Makes-bind _ _ (Makes-call Allowed (remove dst) i)
          (λ a. Makes-bind _ _ (Makes-replaced a) (λ _. Makes-must (link e.target dst) i))))

  Makes-fill_temp :
      (dst : Text) (e : Entry) (bytes : Bytes)
      → In e entries
      → safe_join target e.path ≡ some dst
      → IsInside target dst
      → Makes Allowed (fill_temp env dst e bytes)
  unfolding fill_temp
  Makes-fill_temp dst e bytes m found i = Makes-bind _ _ (Makes-check os_failed) (λ _.
      Makes-bind _ _ (Makes-check os_failed) (λ _.
        Makes-bind_known _ _ (Makes-guard (list_eq (env.sum bytes) e.hash) corrupted) (λ u s s' q.
          Makes-bind_known _ _ (Makes-guard (length bytes == e.size) wrong_size) (λ u' t t' q'.
            Makes-bind _ _ (Makes-must (set_mode (path_dir dst) _) (beside e dst m found i)) (λ _.
              Makes-bind _ _
                (Makes-must (place dst bytes) (
                  i,
                  record {
                    entry = e;
                    listed = m;
                    same_path = found;
                    same_hash = guard-eq-ok _ corrupted s s' u q;
                    same_size = guard-eq-ok _ wrong_size t t' u' q';
                  },
                ))
                (λ _. Makes-return _))))))

  Makes-write_file : (e : Entry) → In e entries → Makes Allowed (write_file env target e)
  unfolding write_file write_empty_file write_content
  Makes-write_file e m = Makes-resolved e.path _ (λ dst found i.
      Makes-bind _ _ (Makes-must (make_parent (path_dir dst)) (beside e dst m found i)) (λ _.
        Makes-if (is_zero e.hash) _ _
          (Makes-bind _ _ (Makes-guard (e.size == 0) no_hash)
            (λ _. Makes-bind _ _ (Makes-must (write_empty dst _) i) (λ _. Makes-return 0)))
          (Makes-bind _ _ (Makes-or_raise no_object (env.content e.hash)) (λ bytes.
            Makes-bind _ _ (Makes-must (create_temp (path_dir dst)) (beside e dst m found i)) (λ _.
              Makes-or_clean_up (path_dir dst) _ (beside e dst m found i)
                (Makes-fill_temp dst e bytes m found i))))))

  Makes-restore_entry :
      (e : Entry) (k : EntryType) (rep : Report)
      → In e entries
      → Makes Allowed (restore_entry env target e k rep)
  unfolding restore_entry
  Makes-restore_entry e EntryType.symlink rep m =
      Makes-bind _ _ (Makes-write_symlink e m) (λ _. Makes-return _)
  Makes-restore_entry e EntryType.file rep m =
      Makes-bind _ _ (Makes-write_file e m) (λ _. Makes-return _)
  Makes-restore_entry e EntryType.dir rep m = Makes-return rep
  Makes-restore_entry e (EntryType.other t) rep m = Makes-return rep

  pub Makes-restore_entries :
      (es : List Entry) (rep : Report)
      → ((e : Entry) → In e es → In e entries)
      → Makes Allowed (restore_entries env target es rep)
  unfolding restore_entries
  Makes-restore_entries [] rep sub = Makes-return rep
  Makes-restore_entries (e ∷ es) rep sub =
      Makes-bind _ _
        (Makes-bind _ _ (Makes-check cancelled)
          (λ _. Makes-restore_entry e e.kind rep (sub e (inl refl))))
        (λ rep'. Makes-restore_entries es rep' (λ x h. sub x (inr h)))

  Makes-timed :
      (path : Text) (refusals : List Text) (a : Answer) → Makes Allowed (timed path refusals a)
  unfolding timed
  Makes-timed path refusals done = Makes-return refusals
  Makes-timed path refusals missing = Makes-return refusals
  Makes-timed path refusals refused = Makes-return _
  Makes-timed path refusals broken_down = Makes-raise os_failed

  Makes-set_times :
      (es : List Entry) (refusals : List Text) → Makes Allowed (set_times target es refusals)
  unfolding set_times
  Makes-set_times [] refusals = Makes-return refusals
  Makes-set_times (e ∷ es) refusals =
      Makes-bind _ _
        (Makes-if (e.mod_time == 0 || is_symlink e.kind) _ _ (Makes-return refusals) (
          Makes-resolved e.path _ (λ dst found i.
            Makes-bind _ _ (Makes-call Allowed (set_time dst e.mod_time) i)
              (λ a. Makes-timed e.path refusals a))))
        (λ refusals'. Makes-set_times es refusals')

  pub Makes-apply_times :
      (times : Bool) (es : List Entry) → Makes Allowed (apply_times times target es)
  unfolding apply_times
  Makes-apply_times false es = Makes-return []
  Makes-apply_times true es =
      Makes-bind _ _ (Makes-set_times (reverse (sort_by_path es)) []) (λ ps. Makes-return _)
