-- ===== src/Restore/Selection/Kept.antt =====
-- What `keep` of internal/restore/paths.go lets through, and what it misses.
use better_amp_backup.Prelude.{
  ℕ, zero, suc, true, false, if◌then◌else◌, List, [], ◌∷◌, ◌++◌, In, Option, none, some, list_eq→eq,
  get_elem?, Bool-cases, ◌≡◌, ◌⊎◌, inl, inr, refl, sym, ◌∙◌, subst, arith,
}
use better_amp_backup.Paths.{Text, slash, has_prefix}
use better_amp_backup.Repo.Index.{Entry}
use better_amp_backup.Restore.Selection.{
  Selection, Checked, ok, err, trim_space, check_path, canonical_selection_path, and_then,
  clean_all, sort_strings, compact, below, select, new_selection, search_strings, is_equal,
  parent_before, is_dir, keep, keep_below, matching,
}
use better_amp_backup.Restore.Selection.Lookup.{
  has_prefix-IsBelow, In-sort_strings, In-compact, In-collapse, In-get_elem?,
}

-- The path itself or something below it.
abbrev pub IsUnder : Text → Text → Type 0
IsUnder p x = (x ≡ p) ⊎ ((r : Text) × (x ≡ p ++ slash ∷ r))

abbrev pub Covered : List Text → Text → Type 0
Covered paths x = (p : Text) × In p paths × IsUnder p x

is_equal-Covered :
    (paths : List Text) (x : Text) (i : ℕ) → is_equal x (get_elem? paths i) ≡ true → Covered paths x
is_equal-Covered paths x i h = go (get_elem? paths i) refl h
  where
    go : (o : Option Text) → get_elem? paths i ≡ o → is_equal x o ≡ true → Covered paths x
    go none q k = absurd (ground arith)
    go (some p) q k = (p, In-get_elem? p paths i q, inl (sym (list_eq→eq p x k)))

parent_before-Covered :
    (paths : List Text) (x p : Text) (i : ℕ) → parent_before paths x i ≡ some p → Covered paths x
parent_before-Covered paths x p zero h = absurd (ground arith)
parent_before-Covered paths x p (suc i) h = go (get_elem? paths i) refl h
  where
    go :
        (o : Option Text)
        → get_elem? paths i ≡ o
        → elim o [ none ↦ none | some q ↦ if has_prefix x (below q) then some q else none ] ≡ some p
        → Covered paths x
    go none q k = absurd (ground arith)
    go (some y) q k = elim (Bool-cases (has_prefix x (below y))) [
      | inl e ↦ (y, In-get_elem? y paths i q, inr (has_prefix-IsBelow x y e))
      | inr e ↦ absurd (ground arith)
    ]

keep-Covered :
    (s : Selection) (e : Entry)
    → is_dir e.kind ≡ false
    → (keep s e).0 ≡ true
    → Covered s.paths e.path
unfolding keep
keep-Covered s e file h =
    let i = search_strings s.paths e.path in
    elim (Bool-cases (is_equal e.path (get_elem? s.paths i))) [
      | inl q ↦ is_equal-Covered s.paths e.path i q
      | inr q ↦ go (parent_before s.paths e.path i) refl (
          subst
            (λ b.
              (if b
                then (true, matching e.path s)
                else keep_below s e (parent_before s.paths e.path i)).0
              ≡ true)
            q h)
    ]
  where
    go :
        (o : Option Text)
        → parent_before s.paths e.path (search_strings s.paths e.path) ≡ o
        → (keep_below s e o).0 ≡ true
        → Covered s.paths e.path
    go none q k = absurd (ground arith)
    go (some p) q k = parent_before-Covered s.paths e.path p (search_strings s.paths e.path) q

select-In : (p : Text) (cleaned : List Text) → In p (select cleaned).paths → In p cleaned
unfolding select
select-In p cleaned h =
    In-sort_strings p cleaned
      (In-compact p (sort_strings cleaned) (In-collapse p (compact (sort_strings cleaned)) h))

check_path-eq-ok : (p c : Text) → check_path p ≡ ok c → p ≡ c
unfolding check_path
check_path-eq-ok p c h = ground arith

pub and_then-eq-ok :
    {A B : Type 0} (r : Checked A) (f : A → Checked B) (b : B)
    → and_then r f ≡ ok b
    → (a : A) × (r ≡ ok a) × (f a ≡ ok b)
and_then-eq-ok (ok a) f b h = (a, refl, h)
and_then-eq-ok (err e) f b h = absurd (ground arith)

clean_all-In :
    (ps cs : List Text) (c : Text)
    → clean_all ps ≡ ok cs
    → In c cs
    → (p : Text) × In p ps × (trim_space p ≡ c)
unfolding clean_all canonical_selection_path
clean_all-In [] cs c h i =
    let none_left : cs ≡ [] = ground arith in absurd (subst (In c) none_left i)
clean_all-In (p ∷ ps) cs c h i =
    let (d, q, h1) = and_then-eq-ok (canonical_selection_path p) _ cs h in
    let (ds, q1, h2) = and_then-eq-ok (clean_all ps) _ cs h1 in
    let whole : cs ≡ d ∷ ds = ground arith in
    elim (subst (In c) whole i) [
      | inl here ↦ (p, inl refl, check_path-eq-ok (trim_space p) d q ∙ sym here)
      | inr later ↦ let (p', j, e) = clean_all-In ps ds c q1 later in (p', inr j, e)
    ]

-- An entry that is not a directory passes `keep` only if it is one of the paths that the caller
-- gave, up to white space around it, or lies below one of them.
pub keep-IsUnder :
    (ps : List Text) (s : Selection) (e : Entry)
    → new_selection ps ≡ ok (some s)
    → is_dir e.kind ≡ false
    → (keep s e).0 ≡ true
    → (p : Text) × In p ps × IsUnder (trim_space p) e.path
unfolding new_selection
keep-IsUnder [] s e h file k = absurd (ground arith)
keep-IsUnder (p ∷ ps) s e h file k =
    let (cleaned, q, h1) = and_then-eq-ok (clean_all (p ∷ ps)) _ (some s) h in
    let built : select cleaned ≡ s = ground arith in
    let (c, i, under) = keep-Covered s e file k in
    let (p', j, t) =
      clean_all-In (p ∷ ps) cleaned c q
        (select-In c cleaned (subst (λ (x : Selection). In c x.paths) (sym built) i)) in
    (p', j, subst (λ x. IsUnder x e.path) (sym t) under)
