-- ===== src/SnapTree/Maps.antt =====
-- The maps of `rollUp` (internal/snaptree/snaptree.go) keep each key once, and what it writes back
-- is what is found afterwards.
use better_amp_backup.Prelude.{
  ℕ, true, false, if_cases, if◌then◌else◌, List, [], ◌∷◌, list_eq, list_eq→eq, Option, none, some,
  Bool-cases, ◌≡◌, inl, inr, refl, sym, ap, ◌∙◌, subst, arith,
}
use better_amp_backup.Paths.{Text}
use better_amp_backup.SnapTree.{
  Node, Tree, lookup, store, has, is_dir, bump, bump_all, dirs_of, above, add_up, totals_of,
  write_back,
}

-- No key stands twice in the list.
unfoldable pub IsMap : List (Text × Node) → Type 0
IsMap [] = Unit
IsMap ((p, node) ∷ m) = (lookup p m ≡ none) × IsMap m

dirs_of-absent :
    (p : Text) (m : List (Text × Node)) → lookup p m ≡ none → lookup p (dirs_of m) ≡ none
unfolding dirs_of
dirs_of-absent p [] h = refl
dirs_of-absent p ((k, node) ∷ m) h = elim (Bool-cases (list_eq k p)) [
  | inl e ↦ absurd (ground arith)
  | inr e ↦
      let rest = dirs_of-absent p m (rw e at h) in
      if_cases (λ (x : List (Text × Node)). lookup p x ≡ none) (is_dir node.kind) (λ _. rw e rest)
        (λ _. rest)
]

dirs_of-IsMap : (m : List (Text × Node)) → IsMap m → IsMap (dirs_of m)
unfolding IsMap dirs_of
dirs_of-IsMap [] h = tt
dirs_of-IsMap ((k, node) ∷ m) (new, h) =
    if_cases IsMap (is_dir node.kind) (λ _. (dirs_of-absent k m new, dirs_of-IsMap m h))
      (λ _. dirs_of-IsMap m h)

bump-absent :
    (p d : Text) (size : ℕ) (m : List (Text × Node))
    → lookup p m ≡ none
    → lookup p (bump d size m) ≡ none
bump-absent p d size [] h = refl
bump-absent p d size ((k, node) ∷ m) h = elim (Bool-cases (list_eq k p)) [
  | inl e ↦ absurd (ground arith)
  | inr e ↦
      if_cases (λ (x : List (Text × Node)). lookup p x ≡ none) (list_eq k d) (λ _. rw e (rw e at h))
        (λ _. rw e (bump-absent p d size m (rw e at h)))
]

bump-IsMap : (d : Text) (size : ℕ) (m : List (Text × Node)) → IsMap m → IsMap (bump d size m)
unfolding IsMap
bump-IsMap d size [] h = tt
bump-IsMap d size ((k, node) ∷ m) (new, h) =
    if_cases IsMap (list_eq k d) (λ _. (new, h))
      (λ _. (bump-absent k d size m new, bump-IsMap d size m h))

bump_all-IsMap :
    (dirs : List Text) (size : ℕ) (m : List (Text × Node)) → IsMap m → IsMap (bump_all dirs size m)
unfolding bump_all
bump_all-IsMap [] size m h = h
bump_all-IsMap (d ∷ dirs) size m h =
    bump_all-IsMap dirs size (bump d size m) (bump-IsMap d size m h)

add_up-IsMap : (m totals : List (Text × Node)) → IsMap totals → IsMap (add_up m totals)
unfolding add_up
add_up-IsMap [] totals h = h
add_up-IsMap ((p, node) ∷ m) totals h =
    if_cases IsMap (is_dir node.kind) (λ _. add_up-IsMap m totals h)
      (λ _.
        add_up-IsMap m (bump_all (above p) node.size totals)
          (bump_all-IsMap (above p) node.size totals h))

pub totals_of-IsMap : (t : Tree) → IsMap t.by_path → IsMap (totals_of t)
unfolding totals_of
totals_of-IsMap t h = add_up-IsMap t.by_path (dirs_of t.by_path) (dirs_of-IsMap t.by_path h)

lookup-store_same :
    (p key : Text) (a : Node) (m : List (Text × Node))
    → list_eq p key ≡ true
    → lookup key (store p a m) ≡ some a
lookup-store_same p key a [] e = rw e refl
lookup-store_same p key a ((k, b) ∷ m) e = elim (Bool-cases (list_eq k p)) [
  | inl f ↦
      let there : list_eq k key ≡ true =
        subst (λ x. list_eq x key ≡ true) (sym (list_eq→eq k p f)) e in
      rw (f, there) refl
  | inr f ↦
      let there : list_eq k key ≡ false = subst (λ x. list_eq k x ≡ false) (list_eq→eq p key e) f in
      rw (f, there) (lookup-store_same p key a m e)
]

lookup-store_other :
    (p key : Text) (a : Node) (m : List (Text × Node))
    → list_eq p key ≡ false
    → lookup key (store p a m) ≡ lookup key m
lookup-store_other p key a [] e = rw e refl
lookup-store_other p key a ((k, b) ∷ m) e = elim (Bool-cases (list_eq k p)) [
  | inl f ↦
      let there : list_eq k key ≡ false =
        subst (λ x. list_eq x key ≡ false) (sym (list_eq→eq k p f)) e in
      rw (f, there) refl
  | inr f ↦ rw f (
      ap (λ (x : Option Node). if list_eq k key then some b else x)
        (lookup-store_other p key a m e))
]

-- What is not among the totals is as it was.
write_back-absent :
    (dir : Text) (totals : List (Text × Node)) (t : Tree)
    → lookup dir totals ≡ none
    → lookup dir (write_back totals t).by_path ≡ lookup dir t.by_path
unfolding write_back
write_back-absent dir [] t h = refl
write_back-absent dir ((p, agg) ∷ totals) t h = elim (Bool-cases (list_eq p dir)) [
  | inl e ↦ absurd (ground arith)
  | inr e ↦ write_back-absent dir totals _ (rw e at h) ∙ lookup-store_other p dir agg t.by_path e
]

pub write_back-lookup :
    (dir : Text) (totals : List (Text × Node)) (t : Tree)
    → IsMap totals
    → has (lookup dir totals) ≡ true
    → lookup dir (write_back totals t).by_path ≡ lookup dir totals
unfolding write_back IsMap
write_back-lookup dir [] t h there = absurd (ground arith)
write_back-lookup dir ((p, agg) ∷ totals) t (new, h) there = elim (Bool-cases (list_eq p dir)) [
  | inl e ↦
      let gone : lookup dir totals ≡ none =
        subst (λ x. lookup x totals ≡ none) (list_eq→eq p dir e) new in
      rw e (write_back-absent dir totals _ gone ∙ lookup-store_same p dir agg t.by_path e)
  | inr e ↦ rw e (write_back-lookup dir totals _ h (rw e at there))
]
