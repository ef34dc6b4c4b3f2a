-- ===== src/Restore/Run/Beside.antt =====
-- Where the directory of a restored file stands (`filepath.Dir` in `writeFile` and `writeSymlink` of
-- internal/restore/restore.go).
use mathlib.Core.List.{reverse-cons}
use better_amp_backup.Prelude.{
  Bool, true, false, ◌||◌, List, [], ◌∷◌, ◌++◌, reverse, All, list_eq, ◌≡◌, ◌⊎◌, inl, inr, refl,
  sym, ap, ◌∙◌, subst, arith,
}
use better_amp_backup.Paths.{Text, slash, join, clean, is_rooted, has_prefix}
use better_amp_backup.Paths.Segments.{All-reverse}
use better_amp_backup.Paths.Names.{IsName, join_snoc}
use better_amp_backup.Paths.Rooted.{clean-rooted, clean-names, has_prefix-name}
use better_amp_backup.Restore.Selection.{path_dir}
use better_amp_backup.Restore.Selection.Ancestors.{dir_part}
use better_amp_backup.Restore.Files.{joined}

-- The target itself, or a path below it.
abbrev pub IsInside : Text → Text → Type 0
IsInside target dst =
    (list_eq dst (clean target) ≡ true) ⊎ (has_prefix dst (clean target ++ slash ∷ []) ≡ true)

-- A path that is not its own directory's only name.
path_dir-rooted :
    (s : Text) (ss : List Text) (t : Text)
    → All IsName (s ∷ ss)
    → IsName t
    → path_dir (slash ∷ join ((s ∷ ss) ++ t ∷ [])) ≡ slash ∷ join (s ∷ ss)
unfolding path_dir
path_dir-rooted s ss t h k =
    ap (λ x. path_dir (slash ∷ x)) (join_snoc s ss t)
    ∙ ap clean (dir_part (slash ∷ join (s ∷ ss)) t k.slash_free)
    ∙ clean-rooted s ss h

either : (a b : Bool) → (a || b) ≡ true → (a ≡ true) ⊎ (b ≡ true)
either true b h = inl refl
either false b h = inr h

-- What is below a rooted directory is in it or in one below it.
names-IsInside :
    (target x t : Text) (ns : List Text)
    → clean target ≡ slash ∷ x
    → All IsName ns
    → IsName t
    → has_prefix (slash ∷ join (ns ++ t ∷ [])) (clean target ++ slash ∷ []) ≡ true
    → IsInside target (path_dir (slash ∷ join (ns ++ t ∷ [])))
unfolding join has_prefix
names-IsInside target x t [] c h k below =
    let none = has_prefix-name [] (slash ∷ x) t k.slash_free in
    let below' : has_prefix (slash ∷ t) ((slash ∷ x) ++ slash ∷ []) ≡ true =
      subst (λ y. has_prefix (slash ∷ t) (y ++ slash ∷ []) ≡ true) c below in
    absurd (ground (arith, none, below'))
names-IsInside target x t (s ∷ ss) c h k below =
    let a = slash ∷ join (s ∷ ss) in
    let same : has_prefix (a ++ slash ∷ t) (clean target ++ slash ∷ []) ≡ true =
      subst (λ y. has_prefix (slash ∷ y) (clean target ++ slash ∷ []) ≡ true) (join_snoc s ss t)
        below in
    subst (IsInside target) (sym (path_dir-rooted s ss t h k)) (
      either (list_eq a (clean target)) (has_prefix a (clean target ++ slash ∷ []))
        (sym (has_prefix-name a (clean target) t k.slash_free) ∙ same))

-- The same for the names from the last one.
out-IsInside :
    (target x : Text) (out : List Text)
    → clean target ≡ slash ∷ x
    → All IsName out
    → has_prefix (slash ∷ join (reverse out)) (clean target ++ slash ∷ []) ≡ true
    → IsInside target (path_dir (slash ∷ join (reverse out)))
unfolding join has_prefix
out-IsInside target x [] c h below =
    absurd (root x (subst (λ y. has_prefix (slash ∷ []) (y ++ slash ∷ []) ≡ true) c below))
  where
    root : (y : Text) → has_prefix (slash ∷ []) (slash ∷ y ++ slash ∷ []) ≡ true → ⊥
    root [] e = ground arith
    root (z ∷ zs) e = ground arith
out-IsInside target x (t ∷ out) c (k, h) below =
    let turned = reverse-cons t out in
    subst (λ ns. IsInside target (path_dir (slash ∷ join ns))) (sym turned)
      (names-IsInside target x t (reverse out) c (All-reverse IsName out h) k (
        subst (λ ns. has_prefix (slash ∷ join ns) (clean target ++ slash ∷ []) ≡ true) turned
          below))

-- The directory of a path inside a rooted target is inside too, unless the path is the target.
pub path_dir-IsInside :
    (target rel path : Text)
    → is_rooted target ≡ true
    → path ≡ joined target rel
    → has_prefix path (clean target ++ slash ∷ []) ≡ true
    → IsInside target (path_dir path)
path_dir-IsInside target rel path rooted same below =
    let (out, names, is_clean) = clean-names (target ++ slash ∷ rel) (still target rooted) in
    let (out', names', is_clean') = clean-names target rooted in
    let whole = same ∙ is_clean in
    subst (λ p. IsInside target (path_dir p)) (sym whole)
      (out-IsInside target (join (reverse out')) out is_clean' names
        (subst (λ p. has_prefix p (clean target ++ slash ∷ []) ≡ true) whole below))
  where
    still : (t : Text) → is_rooted t ≡ true → is_rooted (t ++ slash ∷ rel) ≡ true
    still [] h = absurd (ground arith)
    still (c ∷ cs) h = h
