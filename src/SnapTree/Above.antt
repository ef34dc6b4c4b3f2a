-- ===== src/SnapTree/Above.antt =====
-- The loop of `rollUp` (internal/snaptree/snaptree.go) over the chain of parents of a path goes
-- through the directories that the path is below, once each.
use mathlib.Core.List.{reverse-append, reverse-cons, reverse-reverse}
use better_amp_backup.Prelude.{
  ℕ, zero, suc, ◌+◌, ◌≤◌, Bool, false, ◌||◌, ◌==◌, if◌then◌else◌, [], ◌∷◌, ◌++◌, append_assoc,
  reverse, length, length-append, count_if, list_eq, list_eq→eq, ◌≡◌, ◌≢◌, ◌⊎◌, inl, inr, refl, sym,
  ap, ◌∙◌, subst, arith, Bool-cases,
}
use better_amp_backup.Paths.{Text, slash, has_prefix}
use better_amp_backup.Paths.Segments.{IsSlashFree, All-reverse}
use better_amp_backup.Paths.Rooted.{has_prefix-slash_free, has_prefix-name}
use better_amp_backup.SnapTree.{cut, parent_of, parents, above}

-- The root, or a path that the other one continues behind a slash.
unfoldable pub is_below : Text → Text → Bool
unfolding has_prefix
is_below dir p = list_eq dir [] || has_prefix p (dir ++ slash ∷ [])

abbrev pub once : Bool → ℕ
once b = if b then 1 else 0

-- What `cut` makes of a text: there is no slash, or it is what stands behind the first.
cut-cases :
    (r : Text)
    → (IsSlashFree r × (cut r ≡ [])) ⊎ ((t : Text) × IsSlashFree t × (r ≡ t ++ slash ∷ cut r))
cut-cases [] = inl (tt, refl)
cut-cases (c ∷ cs) = elim (Bool-cases (c == slash)) [
  | inl e ↦ inr ([], tt, rw e (ground arith))
  | inr e ↦
      let ne : c ≢ slash = λ q. ground arith in
      elim (cut-cases cs) [
        | inl (free, none) ↦ inl ((ne, free), rw e none)
        | inr (t, free, same) ↦ inr (c ∷ t, (ne, free), rw e (ap (λ x. c ∷ x) same))
      ]
]

-- A path has no slash, and its parent is the root, or it is its parent, a slash and a name.
parent_of-cases :
    (p : Text)
    → (IsSlashFree p × (parent_of p ≡ []))
      ⊎ ((t : Text) × IsSlashFree t × (p ≡ parent_of p ++ slash ∷ t))
unfolding parent_of
parent_of-cases p = elim (cut-cases (reverse p)) [
  | inl (free, none) ↦ inl (
    subst IsSlashFree (reverse-reverse p) (All-reverse (λ c. c ≢ slash) (reverse p) free),
    ap reverse none,
  )
  | inr (t, free, same) ↦ inr (
    reverse t,
    All-reverse (λ c. c ≢ slash) t free,
    sym (reverse-reverse p)
        ∙ ap reverse same
        ∙ reverse-append t (slash ∷ cut (reverse p))
        ∙ ap (λ x. x ++ reverse t) (reverse-cons slash (cut (reverse p)))
        ∙ append_assoc (reverse (cut (reverse p))) (slash ∷ []) (reverse t),
  )
]

has_prefix-longer : (a : Text) → has_prefix a (a ++ slash ∷ []) ≡ false
unfolding has_prefix
has_prefix-longer [] = refl
has_prefix-longer (x ∷ xs) = ground (arith, has_prefix-longer xs)

-- What is below a directory is in it, or its parent is below it.
is_below-parent_of :
    (dir p : Text) → is_below dir p ≡ (list_eq (parent_of p) dir || is_below dir (parent_of p))
unfolding is_below has_prefix
is_below-parent_of dir p = elim (parent_of-cases p) [
  | inl (free, root) ↦ at_root dir (parent_of p) (has_prefix-slash_free p dir free) root
  | inr (t, free, same) ↦ ground (
    arith,
    ap (λ x. has_prefix x (dir ++ slash ∷ [])) same,
    has_prefix-name (parent_of p) dir t free,
  )
]
  where
    at_root :
        (d up : Text)
        → has_prefix p (d ++ slash ∷ []) ≡ false
        → up ≡ []
        → (list_eq d [] || has_prefix p (d ++ slash ∷ []))
          ≡ (list_eq up d || (list_eq d [] || has_prefix up (d ++ slash ∷ [])))
    at_root [] up h e = rw e (ground arith)
    at_root (x ∷ xs) up h e = rw e (ground arith)

parent_of-length : (p : Text) (n : ℕ) → length p ≤ suc n → length (parent_of p) ≤ n
parent_of-length p n h = elim (parent_of-cases p) [
  | inl (free, root) ↦ omega (arith, ap length root)
  | inr (t, free, same) ↦ omega (arith, h, ap length same, length-append (parent_of p) (slash ∷ t))
]

-- A directory is not below itself, but for the root.
is_below_self : (dir : Text) → list_eq dir [] ≡ false → is_below dir dir ≡ false
unfolding is_below has_prefix
is_below_self dir h = rw h (has_prefix-longer dir)

root-once : (dir : Text) → once (list_eq [] dir) + 0 ≡ once (list_eq [] dir || is_below dir [])
unfolding is_below has_prefix
root-once [] = refl
root-once (d ∷ ds) = refl

-- A directory that is a path of the chain is not one of those behind it.
first-once :
    (dir d : Text)
    → list_eq d [] ≡ false
    → once (list_eq d dir) + once (is_below dir d) ≡ once (list_eq d dir || is_below dir d)
first-once dir d ne = elim (Bool-cases (list_eq d dir)) [
  | inl e ↦
      let same = list_eq→eq d dir e in
      let below : is_below dir d ≡ false =
        subst (λ x. is_below x d ≡ false) same (is_below_self d ne) in
      rw (e, below) refl
  | inr e ↦ rw e (omega arith)
]

parents-once :
    (dir : Text) (fuel : ℕ) (d : Text)
    → length d ≤ fuel
    → count_if (λ x. list_eq x dir) (parents fuel d) ≡ once (list_eq d dir || is_below dir d)
unfolding parents
parents-once dir zero [] h = root-once dir
parents-once dir zero (c ∷ cs) h = absurd (omega (arith, h))
parents-once dir (suc fuel) d h = elim (Bool-cases (list_eq d [])) [
  | inl e ↦ rw e (
      subst (λ x. once (list_eq x dir) + 0 ≡ once (list_eq x dir || is_below dir x))
        (sym (list_eq→eq d [] e)) (root-once dir))
  | inr e ↦ rw e (
      ap (λ n. once (list_eq d dir) + n)
        (parents-once dir fuel (parent_of d) (parent_of-length d fuel h)
          ∙ ap once (sym (is_below-parent_of dir d)))
      ∙ first-once dir d e)
]

-- Each directory that a path is below is met once, and no other.
pub above-once : (dir p : Text) → count_if (λ x. list_eq x dir) (above p) ≡ once (is_below dir p)
unfolding above
above-once dir p =
    parents-once dir (length p) (parent_of p) (parent_of-length p (length p) (omega arith))
    ∙ ap once (sym (is_below-parent_of dir p))
