-- ===== src/Restore/Selection/Samples.antt =====
-- Tests of internal/restore/paths.go, and its theorems at concrete selections.
use better_amp_backup.Prelude.{inl, inr, subst}
use better_amp_backup.Repo.Snapshots.{text_ltb}
use better_amp_backup.Restore.Selection.Found.{keep-NoneBetween}
use better_amp_backup.Prelude.{[], ◌∷◌, In, codes, some, true, false, ◌≡◌, refl, arith}
use better_amp_backup.Paths.{Text}
use better_amp_backup.Repo.Index.{Entry, EntryType}
use better_amp_backup.Restore.Selection.{
  Selection, ok, err, escapes_root, canonical_selection_path, trim_space, select, new_selection,
  keep, unmatched,
}
use better_amp_backup.Restore.Selection.{check_path, ancestors_of}
use better_amp_backup.Restore.Selection.Ancestors.{parents, ancestors_of-parents}
use better_amp_backup.Paths.{split}
use better_amp_backup.Prelude.{reverse}
use better_amp_backup.Restore.Selection.Kept.{IsUnder, keep-IsUnder}
use better_amp_backup.Restore.Selection.Missed.{keep_misses}

abbrev entry_at : Text → Entry
entry_at path = record {
  path = path;
  kind = EntryType.file;
  mode = 420;
  uid = 0;
  gid = 0;
  size = 5;
  mod_time = 0;
  inode = 0;
  hash = 1 ∷ [];
  target = [];
}

abbrev mods : Text
mods = codes "mods"

abbrev old_mods : Text
old_mods = codes "mods-old"

abbrev jar : Entry
jar = entry_at (codes "mods/a.jar")

abbrev one : Selection
one = select (mods ∷ [])

abbrev both : Selection
both = select (mods ∷ old_mods ∷ [])

one_selected : new_selection (mods ∷ []) ≡ ok (some one)
unfolding new_selection
one_selected = refl

both_selected : new_selection (mods ∷ old_mods ∷ []) ≡ ok (some both)
unfolding new_selection
both_selected = refl

refuses_escape : new_selection (codes "../etc" ∷ []) ≡ err escapes_root
unfolding new_selection
refuses_escape = refl

collapses :
    (select (codes "a/b" ∷ codes "c" ∷ codes "a" ∷ codes "a" ∷ [])).paths
    ≡ codes "a" ∷ codes "c" ∷ []
unfolding select
collapses = refl

carries_ancestors : (select (codes "a/b/c" ∷ [])).dirs ≡ codes "a/b" ∷ codes "a" ∷ []
unfolding select
carries_ancestors = refl

nothing_unmatched : unmatched (keep one jar).1 ≡ []
unfolding unmatched select keep
nothing_unmatched = refl

mods_canonical : canonical_selection_path mods ≡ ok mods
unfolding canonical_selection_path
mods_canonical = refl

old_mods_canonical : canonical_selection_path old_mods ≡ ok old_mods
unfolding canonical_selection_path
old_mods_canonical = refl

one_keeps : (keep one jar).0 ≡ true
unfolding keep select
one_keeps = refl

keep-IsUnder_example : (p : Text) × In p (mods ∷ []) × IsUnder (trim_space p) jar.path
keep-IsUnder_example = keep-IsUnder (mods ∷ []) one jar one_selected refl one_keeps

keep_misses_example : ((keep one jar).0 ≡ true) × ((keep both jar).0 ≡ false)
keep_misses_example =
    keep_misses mods (codes "old") (codes "a.jar") 45 (omega arith) one both jar mods_canonical
      old_mods_canonical one_selected both_selected refl refl

deep_checked : check_path (codes "a/b/c") ≡ ok (codes "a/b/c")
unfolding check_path
deep_checked = refl

ancestors_of-parents_example :
    ancestors_of (codes "a/b/c") ≡ parents (reverse (split (codes "a/b/c")))
ancestors_of-parents_example = ancestors_of-parents (codes "a/b/c") (codes "a/b/c") deep_checked

only_one : (q : Text) → In q one.paths → text_ltb mods q ≡ true → text_ltb q jar.path ≡ false
unfolding select text_ltb
only_one q (inl e) later = absurd (itself (subst (λ x. text_ltb mods x ≡ true) e later))
  where
    itself : text_ltb mods mods ≡ true → ⊥
    itself h = ground arith
only_one q (inr i) later = absurd i

mods_selected : In mods one.paths
unfolding select
mods_selected = inl refl

keep-NoneBetween_example : (keep one jar).0 ≡ true
keep-NoneBetween_example =
    keep-NoneBetween (mods ∷ []) one jar mods one_selected mods_selected (inr (codes "a.jar", refl))
      only_one
