-- ===== src/Restore/Selection/Ancestors.antt =====
-- The directories that a selection carries along (the last loop of `newSelection` in
-- internal/restore/paths.go) are the proper ancestors of the selected paths.
use mathlib.Core.List.{reverse-append, reverse-cons, reverse-reverse}
use better_amp_backup.Prelude.{
  list_eq, list_eq→eq, ℕ, zero, suc, ◌≤◌, true, false, ◌||◌, ◌==◌, if_cases, List, [], ◌∷◌, ◌++◌,
  append-nil, append_assoc, reverse, All, length, length-append, length-reverse, ◌≡◌, ◌≢◌, refl,
  sym, ap, ◌∙◌, subst, arith, Bool-cases, inl, inr,
}
use better_amp_backup.Paths.{Text, slash, dot, split, join, clean, is_rooted}
use better_amp_backup.Paths.Segments.{
  IsSlashFree, IsPlain, split-join, split-IsSlashFree, All-reverse, clean-IsPlain,
}
use better_amp_backup.Paths.Names.{
  IsName, IsName-IsSlashFree, join_snoc, join-split, clean-join, length-join, is_rooted-join,
  split_nonempty,
}
use better_amp_backup.Repo.Index.{has_dot_dot}
use better_amp_backup.Repo.Index.Inside.{has_dot_dot-All}
use better_amp_backup.Restore.Selection.{
  ok, check_path, drop_base, path_dir, ancestors, ancestors_of,
}

drop_base-append : (r x : Text) → IsSlashFree r → drop_base (r ++ slash ∷ x) ≡ slash ∷ x
drop_base-append [] x h = refl
drop_base-append (c ∷ cs) x (ne, h) =
    if_cases (λ t. t ≡ slash ∷ x) (c == slash) (λ e. absurd (ground arith))
      (λ e. drop_base-append cs x h)

drop_base_self : (r : Text) → IsSlashFree r → drop_base r ≡ []
drop_base_self [] h = refl
drop_base_self (c ∷ cs) (ne, h) =
    if_cases (λ t. t ≡ []) (c == slash) (λ e. absurd (ground arith)) (λ e. drop_base_self cs h)

pub dir_part :
    (a t : Text) → IsSlashFree t → reverse (drop_base (reverse (a ++ slash ∷ t))) ≡ a ++ slash ∷ []
dir_part a t h =
    ap (λ x. reverse (drop_base x))
      (reverse-append a (slash ∷ t)
        ∙ ap (λ x. x ++ reverse a) (reverse-cons slash t)
        ∙ append_assoc (reverse t) (slash ∷ []) (reverse a))
    ∙ ap reverse (drop_base-append (reverse t) (reverse a) (All-reverse (λ c. c ≢ slash) t h))
    ∙ reverse-cons slash (reverse a)
    ∙ ap (λ x. x ++ slash ∷ []) (reverse-reverse a)

path_dir-join :
    (s : Text) (ss : List Text) (t : Text)
    → All IsName (s ∷ ss)
    → IsName t
    → path_dir (join ((s ∷ ss) ++ t ∷ [])) ≡ join (s ∷ ss)
unfolding path_dir
path_dir-join s ss t h k =
    ap (λ x. clean (reverse (drop_base (reverse x)))) (join_snoc s ss t)
    ∙ ap clean (dir_part (join (s ∷ ss)) t k.slash_free)
    ∙ clean-join s ss h

path_dir_name : (t : Text) → IsSlashFree t → path_dir t ≡ dot
unfolding path_dir clean
path_dir_name t h =
    ap (λ x. clean (reverse x)) (drop_base_self (reverse t) (All-reverse (λ c. c ≢ slash) t h))

-- The ancestors of a chain of names, given from its end, the nearest first.
pub parents : List Text → List Text
parents [] = []
parents (r ∷ []) = []
parents (r ∷ q ∷ rs) = join (reverse (q ∷ rs)) ∷ parents (q ∷ rs)

first : List Text → Text
first [] = []
first (s ∷ ss) = s

split-dot : split dot ≡ dot ∷ []
unfolding split
split-dot = refl

not_dot : (s : Text) (ss : List Text) → All IsName (s ∷ ss) → join (s ∷ ss) ≡ dot → ⊥
unfolding first
not_dot s ss (h, hs) e =
    let same : s ≡ dot =
      ap first
        (sym (split-join s ss (IsName-IsSlashFree (s ∷ ss) (h, hs))) ∙ ap split e ∙ split-dot) in
    apart (sym (ap (λ x. list_eq x dot) same) ∙ h.plain.not_dot)
  where
    apart : true ≡ false → ⊥
    apart k = ground arith

not_slash : (s : Text) (ss : List Text) → All IsName (s ∷ ss) → join (s ∷ ss) ≡ slash ∷ [] → ⊥
not_slash s ss (h, hs) e =
    apart (ap is_rooted (sym (append-nil (join (s ∷ ss)) ∙ e)) ∙ is_rooted-join s ss [] h)
  where
    apart : true ≡ false → ⊥
    apart k = ground arith

-- The loop does not stop at a chain of names.
join_goes_on :
    (s : Text) (ss : List Text)
    → All IsName (s ∷ ss)
    → (list_eq (join (s ∷ ss)) dot || list_eq (join (s ∷ ss)) (slash ∷ [])) ≡ false
unfolding join
join_goes_on s ss (h, hs) = elim (Bool-cases (list_eq (join (s ∷ ss)) dot)) [
  | inl e ↦ absurd (not_dot s ss (h, hs) (list_eq→eq _ _ e))
  | inr e ↦ elim (Bool-cases (list_eq (join (s ∷ ss)) (slash ∷ []))) [
    | inl e' ↦ absurd (not_slash s ss (h, hs) (list_eq→eq _ _ e'))
    | inr e' ↦ rw (e, e')
  ]
]

reverse_nonempty :
    (q : Text) (rs : List Text) → (s : Text) × (ss : List Text) × (reverse (q ∷ rs) ≡ s ∷ ss)
reverse_nonempty q rs = go (reverse rs) (reverse-cons q rs)
  where
    go :
        (xs : List Text)
        → reverse (q ∷ rs) ≡ xs ++ q ∷ []
        → (s : Text) × (ss : List Text) × (reverse (q ∷ rs) ≡ s ∷ ss)
    go [] e = (q, [], e)
    go (x ∷ xs) e = (x, xs ++ q ∷ [], e)

goes_on :
    (fuel : ℕ) (s : Text) (ss : List Text)
    → All IsName (s ∷ ss)
    → ancestors (suc fuel) (join (s ∷ ss))
      ≡ join (s ∷ ss) ∷ ancestors fuel (path_dir (join (s ∷ ss)))
unfolding ancestors
goes_on fuel s ss h = rw (join_goes_on s ss h)

ancestors-parents :
    (fuel : ℕ) (r : Text) (rs : List Text)
    → All IsName (r ∷ rs)
    → length rs ≤ fuel
    → ancestors fuel (path_dir (join (reverse (r ∷ rs)))) ≡ parents (r ∷ rs)
unfolding ancestors parents
ancestors-parents zero r [] (h, hs) le = refl
ancestors-parents (suc fuel) r [] (h, hs) le =
    ap (ancestors (suc fuel)) (path_dir_name r h.slash_free)
ancestors-parents zero r (q ∷ rs) (h, hs) le = absurd (omega (arith, le))
ancestors-parents (suc fuel) r (q ∷ rs) (h, hs) le =
    let (s, ss, e) = reverse_nonempty q rs in
    let names : All IsName (s ∷ ss) = subst (All IsName) e (All-reverse IsName (q ∷ rs) hs) in
    let up : path_dir (join (reverse (r ∷ q ∷ rs))) ≡ join (s ∷ ss) =
      ap (λ x. path_dir (join x)) (reverse-cons r (q ∷ rs) ∙ ap (λ x. x ++ r ∷ []) e)
      ∙ path_dir-join s ss r names h in
    ap (ancestors (suc fuel)) up
    ∙ goes_on fuel s ss names
    ∙ ap (λ x. join x ∷ ancestors fuel (path_dir (join x))) (sym e)
    ∙ ap (λ x. join (reverse (q ∷ rs)) ∷ x) (ancestors-parents fuel q rs hs (omega (arith, le)))

record IsChecked (p c : Text) : Type 0 where
  same : p ≡ c
  relative : is_rooted p ≡ false
  canonical : list_eq p (clean p) ≡ true
  inside : has_dot_dot (split p) ≡ false

check_path-IsChecked : (p c : Text) → check_path p ≡ ok c → IsChecked p c
unfolding check_path
check_path-IsChecked p c h = ground arith

plain_names : (ss : List Text) → All IsPlain ss → All IsSlashFree ss → All IsName ss
plain_names [] h k = tt
plain_names (s ∷ ss) (h, hs) (k, ks) = (record { plain = h; slash_free = k }, plain_names ss hs ks)

ancestors_of-dot : ancestors_of dot ≡ parents (reverse (split dot))
unfolding ancestors_of parents split path_dir clean
ancestors_of-dot = refl

ancestors_of_names :
    (p : Text) (rs : List Text)
    → reverse (split p) ≡ rs
    → All IsName rs
    → rs ≢ []
    → ancestors_of p ≡ parents rs
unfolding ancestors_of
ancestors_of_names p [] e h ne = absurd (ne refl)
ancestors_of_names p (r ∷ rs) e h ne =
    let whole : join (reverse (r ∷ rs)) ≡ p =
      ap (λ x. join (reverse x)) (sym e) ∙ ap join (reverse-reverse (split p)) ∙ join-split p in
    let long = length-join (reverse (r ∷ rs)) (All-reverse IsName (r ∷ rs) h) in
    ap (λ x. ancestors (length p) (path_dir x)) (sym whole)
    ∙ ancestors-parents (length p) r rs h (
        omega (
          arith,
          long,
          ap length whole,
          ap length (reverse-cons r rs),
          length-append (reverse rs) (r ∷ []),
          length-reverse rs,
        ))

-- What a checked path adds to `dirs` is every directory above it and nothing else, the nearest
-- first: the fuel of the loop, the length of the path, is enough.
pub ancestors_of-parents :
    (p c : Text) → check_path p ≡ ok c → ancestors_of c ≡ parents (reverse (split c))
ancestors_of-parents p c h =
    let k = check_path-IsChecked p c h in
    let plain =
      clean-IsPlain p k.relative (list_eq→eq p (clean p) k.canonical)
        (has_dot_dot-All (split p) k.inside) in
    subst (λ x. ancestors_of x ≡ parents (reverse (split x))) k.same
      (elim plain [
        | inl e ↦ subst (λ x. ancestors_of x ≡ parents (reverse (split x))) (sym e) ancestors_of-dot
        | inr all ↦
            ancestors_of_names p (reverse (split p)) refl
              (All-reverse IsName (split p) (plain_names (split p) all (split-IsSlashFree p)))
              (λ e. split_nonempty p (sym (reverse-reverse (split p)) ∙ ap reverse e))
      ])
