-- ===== src/Restore/Selection/Missed.antt =====
-- What `keep` of internal/restore/paths.go misses: in the order of strings a sibling whose name
-- goes on with a character before the slash stands between a directory and what is below it.
use better_amp_backup.Prelude.{
  ℕ, ◌<◌, true, false, List, [], ◌∷◌, ◌++◌, Option, some, append_assoc, ◌≡◌, refl, sym, ap, ◌∙◌,
  arith,
}
use better_amp_backup.Paths.{Text, slash, has_prefix}
use better_amp_backup.Repo.Index.{Entry}
use better_amp_backup.Restore.Selection.{
  Selection, Checked, and_then, ok, canonical_selection_path, clean_all, insert_string,
  sort_strings, compact_from, compact, below, collapse_from, collapse, select, new_selection,
  search_strings, keep, is_dir,
}
use better_amp_backup.Restore.Selection.Lookup.{
  text_ltb-append, text_ltb-append_longer, text_ltb-branch, list_eq-append, has_prefix-branch,
  has_prefix-branch_above, has_prefix-below,
}

module _ (p q x : Text) (c : ℕ) (early : c < slash) where
  abbrev sibling : Text
  sibling = p ++ c ∷ q

  abbrev inside : Text
  inside = p ++ slash ∷ x

  not_below : has_prefix inside (below sibling) ≡ false
  not_below =
      ap (has_prefix inside) (append_assoc p (c ∷ q) (slash ∷ []))
      ∙ has_prefix-branch_above p (q ++ slash ∷ []) x c slash early

  select_one : (select (p ∷ [])).paths ≡ p ∷ []
  unfolding select sort_strings compact collapse
  select_one = refl

  select_both : (select (p ∷ sibling ∷ [])).paths ≡ p ∷ sibling ∷ []
  unfolding select sort_strings insert_string compact compact_from collapse collapse_from
  select_both =
      rw
        (text_ltb-append_longer p q c, list_eq-append p q c, has_prefix-branch p q [] c slash early)

  keep_one : (s : Selection) (e : Entry) → s.paths ≡ p ∷ [] → e.path ≡ inside → (keep s e).0 ≡ true
  unfolding keep search_strings
  keep_one s e one there = rw (there, one, text_ltb-append p x slash, has_prefix-below p x)

  keep_both :
      (s : Selection) (e : Entry)
      → s.paths ≡ p ∷ sibling ∷ []
      → e.path ≡ inside
      → is_dir e.kind ≡ false
      → (keep s e).0 ≡ false
  unfolding keep search_strings
  keep_both s e both there file =
      rw (
        there,
        both,
        text_ltb-append p x slash,
        text_ltb-branch p q x c slash early,
        not_below,
        file,
      )

  clean_one : canonical_selection_path p ≡ ok p → clean_all (p ∷ []) ≡ ok (p ∷ [])
  unfolding clean_all
  clean_one h = rw h

  clean_both :
      canonical_selection_path p ≡ ok p
      → canonical_selection_path sibling ≡ ok sibling
      → clean_all (p ∷ sibling ∷ []) ≡ ok (p ∷ sibling ∷ [])
  unfolding clean_all
  clean_both h k = rw (h, k)

  -- To select a sibling as well loses what is below a directory: where `p` and the longer name `p
  -- ++ c ∷ q` are canonical and `c` comes before the slash (as a blank, a dash or a dot does), an
  -- entry below `p` that is not a directory passes `keep` of the selection of `p` and not that of
  -- the selection of both.
  pub keep_misses :
      (s t : Selection) (e : Entry)
      → canonical_selection_path p ≡ ok p
      → canonical_selection_path (p ++ c ∷ q) ≡ ok (p ++ c ∷ q)
      → new_selection (p ∷ []) ≡ ok (some s)
      → new_selection (p ∷ (p ++ c ∷ q) ∷ []) ≡ ok (some t)
      → is_dir e.kind ≡ false
      → e.path ≡ p ++ slash ∷ x
      → ((keep s e).0 ≡ true) × ((keep t e).0 ≡ false)
  unfolding new_selection
  keep_misses s t e h k one two file there =
      let s_is : select (p ∷ []) ≡ s = injected (sym (ap built (clean_one h)) ∙ one) in
      let t_is : select (p ∷ sibling ∷ []) ≡ t = injected (sym (ap built (clean_both h k)) ∙ two) in
      (
        keep_one s e (ap (λ (y : Selection). y.paths) (sym s_is) ∙ select_one) there,
        keep_both t e (ap (λ (y : Selection). y.paths) (sym t_is) ∙ select_both) there file,
      )
    where
      built : Checked (List Text) → Checked (Option Selection)
      built r = and_then r (λ cleaned. ok (some (select cleaned)))

      injected :
          {a b : Selection}
          → ◌≡◌ {A = Checked (Option Selection)} (ok (some a)) (ok (some b))
          → a ≡ b
      injected r = ground arith
