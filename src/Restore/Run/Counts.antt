-- ===== src/Restore/Run/Counts.antt =====
-- What a restore counts (internal/restore/restore.go), against what its entries amount to.
use better_amp_backup.Prelude.{ℕ, ◌+◌, List, [], ◌∷◌, ◌≡◌, refl, subst, arith}
use better_amp_backup.Paths.{Text}
use better_amp_backup.Repo.Index.{Entry, EntryType}
use better_amp_backup.Restore.Calls.{
  Report, State, Outcome, ok, err, escapes, Step, return, or_raise, continue, ◌>>=◌, must, make_dir,
}
use better_amp_backup.Restore.Files.{
  safe_join, count_kind, count_all, make_entry_dir, make_dirs, perm_with_owner,
}

module _ {A B : Type 0} where
  -- A step that returned is made of two that returned.
  pub bind-eq-ok :
      (m : Step A) (f : A → Step B) (s s' : State) (b : B)
      → (m >>= f) s ≡ (ok b, s')
      → (a : A) × (s1 : State) × (m s ≡ (ok a, s1)) × (f a s1 ≡ (ok b, s'))
  unfolding ◌>>=◌
  bind-eq-ok m f s s' b h = go (m s).0 (m s).1 refl h
    where
      go :
          (o : Outcome A) (s1 : State)
          → m s ≡ (o, s1)
          → continue o f s1 ≡ (ok b, s')
          → (a : A) × (s2 : State) × (m s ≡ (ok a, s2)) × (f a s2 ≡ (ok b, s'))
      go (ok a) s1 q k = (a, s1, q, k)
      go (err x) s1 q k = absurd (ground arith)

pub return-eq-ok : {A : Type 0} (a b : A) (s s' : State) → return a s ≡ (ok b, s') → a ≡ b
return-eq-ok a b s s' q = ground arith

-- The sum of a number over the entries.
abbrev pub total : (Entry → ℕ) → List Entry → ℕ
total f [] = 0
total f (e ∷ es) = f e + total f es

abbrev pub dirs_of : EntryType → ℕ
dirs_of EntryType.dir = 1
dirs_of t = 0

abbrev pub symlinks_of : EntryType → ℕ
symlinks_of EntryType.symlink = 1
symlinks_of t = 0

abbrev pub files_of : EntryType → ℕ
files_of EntryType.file = 1
files_of t = 0

abbrev pub bytes_of : EntryType → ℕ → ℕ
bytes_of EntryType.file n = n
bytes_of t n = 0

-- One report counts so much more than another.
pub record Adds (dirs symlinks files bytes : ℕ) (rep rep' : Report) : Type 0 where
  pub more_dirs : rep'.dirs ≡ rep.dirs + dirs
  pub more_symlinks : rep'.symlinks ≡ rep.symlinks + symlinks
  pub more_files : rep'.files ≡ rep.files + files
  pub more_bytes : rep'.bytes ≡ rep.bytes + bytes

pub Adds-none : (rep : Report) → Adds 0 0 0 0 rep rep
Adds-none rep = record {
  more_dirs = omega arith;
  more_symlinks = omega arith;
  more_files = omega arith;
  more_bytes = omega arith;
}

pub Adds-both :
    (d l f b d' l' f' b' : ℕ) (r r' r'' : Report)
    → Adds d l f b r r'
    → Adds d' l' f' b' r' r''
    → Adds (d + d') (l + l') (f + f') (b + b') r r''
Adds-both d l f b d' l' f' b' r r' r'' h k = record {
  more_dirs = omega (arith, h.more_dirs, k.more_dirs);
  more_symlinks = omega (arith, h.more_symlinks, k.more_symlinks);
  more_files = omega (arith, h.more_files, k.more_files);
  more_bytes = omega (arith, h.more_bytes, k.more_bytes);
}

count_kind-Adds :
    (k : EntryType) (n : ℕ) (rep : Report)
    → Adds (dirs_of k) (symlinks_of k) (files_of k) (bytes_of k n) rep (count_kind k n rep)
count_kind-Adds EntryType.file n rep = record {
  more_dirs = omega arith;
  more_symlinks = omega arith;
  more_files = refl;
  more_bytes = refl;
}
count_kind-Adds EntryType.dir n rep = record {
  more_dirs = refl;
  more_symlinks = omega arith;
  more_files = omega arith;
  more_bytes = omega arith;
}
count_kind-Adds EntryType.symlink n rep = record {
  more_dirs = omega arith;
  more_symlinks = refl;
  more_files = omega arith;
  more_bytes = omega arith;
}
count_kind-Adds (EntryType.other t) n rep = Adds-none rep

-- Everything that the entries amount to.
abbrev pub AddsAll : List Entry → Report → Report → Type 0
AddsAll es =
    Adds (total (λ e. dirs_of e.kind) es) (total (λ e. symlinks_of e.kind) es)
      (total (λ e. files_of e.kind) es) (total (λ e. bytes_of e.kind e.size) es)

pub count_all-AddsAll : (es : List Entry) (rep : Report) → AddsAll es rep (count_all es rep)
unfolding count_all
count_all-AddsAll [] rep = Adds-none rep
count_all-AddsAll (e ∷ es) rep =
    Adds-both _ _ _ _ _ _ _ _ rep (count_kind e.kind e.size rep) _
      (count_kind-Adds e.kind e.size rep) (count_all-AddsAll es (count_kind e.kind e.size rep))

make_entry_dir-Adds :
    (target : Text) (e : Entry) (k : EntryType) (rep rep' : Report) (s s' : State)
    → make_entry_dir target e k rep s ≡ (ok rep', s')
    → Adds (dirs_of k) 0 0 0 rep rep'
unfolding make_entry_dir
make_entry_dir-Adds target e EntryType.dir rep rep' s s' q =
    let (dst, s1, _, q1) = bind-eq-ok (or_raise escapes (safe_join target e.path)) _ s s' rep' q in
    let (_, s2, _, q2) =
      bind-eq-ok (must (make_dir dst (perm_with_owner e.mode))) _ s1 s' rep' q1 in
    subst (Adds 1 0 0 0 rep) (return-eq-ok _ rep' s2 s' q2) (record {
      more_dirs = refl;
      more_symlinks = omega arith;
      more_files = omega arith;
      more_bytes = omega arith;
    })
make_entry_dir-Adds target e EntryType.file rep rep' s s' q =
    subst (Adds 0 0 0 0 rep) (return-eq-ok rep rep' s s' q) (Adds-none rep)
make_entry_dir-Adds target e EntryType.symlink rep rep' s s' q =
    subst (Adds 0 0 0 0 rep) (return-eq-ok rep rep' s s' q) (Adds-none rep)
make_entry_dir-Adds target e (EntryType.other t) rep rep' s s' q =
    subst (Adds 0 0 0 0 rep) (return-eq-ok rep rep' s s' q) (Adds-none rep)

pub make_dirs-Adds :
    (target : Text) (es : List Entry) (rep rep' : Report) (s s' : State)
    → make_dirs target es rep s ≡ (ok rep', s')
    → Adds (total (λ e. dirs_of e.kind) es) 0 0 0 rep rep'
unfolding make_dirs
make_dirs-Adds target [] rep rep' s s' q =
    subst (Adds 0 0 0 0 rep) (return-eq-ok rep rep' s s' q) (Adds-none rep)
make_dirs-Adds target (e ∷ es) rep rep' s s' q =
    let (r1, s1, q1, q2) = bind-eq-ok (make_entry_dir target e e.kind rep) _ s s' rep' q in
    Adds-both _ 0 0 0 _ 0 0 0 rep r1 rep' (make_entry_dir-Adds target e e.kind rep r1 s s1 q1)
      (make_dirs-Adds target es r1 rep' s1 s' q2)
