-- ===== src/Restore/Selection/Found.antt =====
-- What `keep` of internal/restore/paths.go finds: everything below a selected path, as long as no
-- other selected path stands between the two in the order of strings.
use better_amp_backup.Prelude.{
  ℕ, suc, Bool, true, false, if◌then◌else◌, if_cases, Bool-cases, List, [], ◌∷◌, In, Option, none,
  some, get_elem?, list_eq_self, ◌≡◌, inl, inr, refl, sym, ap, ◌∙◌, subst, arith,
}
use better_amp_backup.Paths.{Text, slash, has_prefix}
use better_amp_backup.Repo.Index.{Entry}
use better_amp_backup.Repo.Snapshots.{text_ltb}
use better_amp_backup.Repo.Snapshots.Order.{text_ltb_asym}
use better_amp_backup.Restore.Selection.{
  Selection, ok, clean_all, select, new_selection, search_strings, is_equal, parent_before, keep,
  keep_below, below,
}
use better_amp_backup.Restore.Selection.Lookup.{text_ltb-append, has_prefix-below}
use better_amp_backup.Restore.Selection.Kept.{IsUnder, and_then-eq-ok}
use better_amp_backup.Restore.Selection.Sorted.{IsStrict, text_ltb_step, select-IsStrict}

-- No path of the selection is after `p` and before `x`.
abbrev pub NoneBetween : Text → Text → List Text → Type 0
NoneBetween p x paths = (q : Text) → In q paths → text_ltb p q ≡ true → text_ltb q x ≡ false

search_none :
    (ps : List Text) (x : Text)
    → ((q : Text) → In q ps → text_ltb q x ≡ false)
    → search_strings ps x ≡ 0
unfolding search_strings
search_none [] x h = refl
search_none (p ∷ ps) x h = rw (h p (inl refl))

search_more :
    (p : Text) (ps : List Text) (x : Text)
    → text_ltb p x ≡ true
    → search_strings (p ∷ ps) x ≡ suc (search_strings ps x)
unfolding search_strings
search_more p ps x h = rw h

-- The element before the one that the search finds.
search_before :
    (p x : Text) (ps : List Text)
    → IsStrict ps
    → In p ps
    → text_ltb p x ≡ true
    → NoneBetween p x ps
    → (i : ℕ) × (search_strings ps x ≡ suc i) × (get_elem? ps i ≡ some p)
search_before p x [] h i lt clear = absurd i
search_before p x (y ∷ ys) (h, hs) (inl e) lt clear =
    let first : text_ltb y x ≡ true = subst (λ z. text_ltb z x ≡ true) e lt in
    let rest =
      search_none ys x
        (λ q j. clear q (inr j) (subst (λ z. text_ltb z q ≡ true) (sym e) (h q j))) in
    (0, search_more y ys x first ∙ ap suc rest, ap some (sym e))
search_before p x (y ∷ ys) (h, hs) (inr j) lt clear =
    let first = text_ltb_step y p x (h p j) (text_ltb_asym p x lt) in
    let (i, found, there) = search_before p x ys hs j lt (λ q k. clear q (inr k)) in
    (suc i, search_more y ys x first ∙ ap suc found, there)

-- The search stops at an element that is there.
search_self :
    (x : Text) (ps : List Text)
    → IsStrict ps
    → In x ps
    → get_elem? ps (search_strings ps x) ≡ some x
unfolding search_strings
search_self x [] h i = absurd i
search_self x (y ∷ ys) (h, hs) (inl e) =
    let stop : text_ltb y x ≡ false = subst (λ z. text_ltb z x ≡ false) e (irreflexive x) in
    rw stop (ap some (sym e))
  where
    irreflexive : (t : Text) → text_ltb t t ≡ false
    irreflexive t = elim (Bool-cases (text_ltb t t)) [ inl q ↦ text_ltb_asym t t q | inr q ↦ q ]
search_self x (y ∷ ys) (h, hs) (inr j) = rw (h x j) (search_self x ys hs j)

keep_equal :
    (s : Selection) (e : Entry)
    → is_equal e.path (get_elem? s.paths (search_strings s.paths e.path)) ≡ true
    → (keep s e).0 ≡ true
unfolding keep
keep_equal s e h = rw h

keep_parent :
    (s : Selection) (e : Entry) (p : Text)
    → parent_before s.paths e.path (search_strings s.paths e.path) ≡ some p
    → (keep s e).0 ≡ true
unfolding keep
keep_parent s e p h =
    if_cases (λ (r : Bool × Selection). r.0 ≡ true)
      (is_equal e.path (get_elem? s.paths (search_strings s.paths e.path))) (λ _. refl)
      (λ _. ap (λ o. (keep_below s e o).0) h)

keep-found :
    (s : Selection) (e : Entry) (p : Text)
    → IsStrict s.paths
    → In p s.paths
    → IsUnder p e.path
    → NoneBetween p e.path s.paths
    → (keep s e).0 ≡ true
keep-found s e p strict i (inl same) clear =
    let there = search_self e.path s.paths strict (subst (λ x. In x s.paths) (sym same) i) in
    keep_equal s e (ap (is_equal e.path) there ∙ list_eq_self e.path)
keep-found s e p strict i (inr (r, same)) clear =
    let before : text_ltb p e.path ≡ true =
      subst (λ x. text_ltb p x ≡ true) (sym same) (text_ltb-append p r slash) in
    let (k, found, there) = search_before p e.path s.paths strict i before clear in
    let prefix : has_prefix e.path (below p) ≡ true =
      subst (λ x. has_prefix x (below p) ≡ true) (sym same) (has_prefix-below p r) in
    keep_parent s e p (
      ap (parent_before s.paths e.path) found
      ∙ ap
          (λ (o : Option Text). elim o [
            | none ↦ none
            | some q ↦ if has_prefix e.path (below q) then some q else none
          ])
          there
      ∙ ap (λ b. if b then some p else none) prefix)

-- An entry that is a selected path or lies below one passes `keep`, as long as no other selected
-- path stands between the two in the order of strings.
pub keep-NoneBetween :
    (ps : List Text) (s : Selection) (e : Entry) (p : Text)
    → new_selection ps ≡ ok (some s)
    → In p s.paths
    → IsUnder p e.path
    → NoneBetween p e.path s.paths
    → (keep s e).0 ≡ true
unfolding new_selection
keep-NoneBetween [] s e p h i under clear = absurd (ground arith)
keep-NoneBetween (x ∷ ps) s e p h i under clear =
    let (cleaned, q, h1) = and_then-eq-ok (clean_all (x ∷ ps)) _ (some s) h in
    let built : select cleaned ≡ s = ground arith in
    keep-found s e p (subst (λ (y : Selection). IsStrict y.paths) built (select-IsStrict cleaned)) i
      under clear
