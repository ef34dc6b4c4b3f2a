-- ===== src/Restore/Selection/Sorted.antt =====
-- The paths of a selection (internal/restore/paths.go) stand in strictly ascending order.
use better_amp_backup.Prelude.{
  true, false, if_cases, List, [], ◌∷◌, In, list_eq, ◌≡◌, inl, inr, refl, sym, subst, arith,
}
use better_amp_backup.Paths.{Text, has_prefix}
use better_amp_backup.Repo.Snapshots.{text_ltb}
use better_amp_backup.Repo.Snapshots.Order.{text_ltb_asym, text_ltb_trans}
use better_amp_backup.Restore.Selection.{
  insert_string, sort_strings, compact_from, compact, below, collapse_from, collapse, select,
}
use better_amp_backup.Restore.Selection.Lookup.{In-insert_string, In-collapse_from}

abbrev pub NoneBefore : Text → List Text → Type 0
NoneBefore p qs = (q : Text) → In q qs → text_ltb q p ≡ false

abbrev pub AllAfter : Text → List Text → Type 0
AllAfter p qs = (q : Text) → In q qs → text_ltb p q ≡ true

abbrev pub IsSorted : List Text → Type 0
IsSorted [] = Unit
IsSorted (p ∷ ps) = NoneBefore p ps × IsSorted ps

abbrev pub IsStrict : List Text → Type 0
IsStrict [] = Unit
IsStrict (p ∷ ps) = AllAfter p ps × IsStrict ps

insert_string-IsSorted : (p : Text) (ps : List Text) → IsSorted ps → IsSorted (insert_string p ps)
unfolding insert_string
insert_string-IsSorted p [] h = (λ q i. absurd i, tt)
insert_string-IsSorted p (x ∷ ps) (h, hs) =
    if_cases IsSorted (text_ltb x p)
      (λ e. (
        λ q i. elim (In-insert_string p q ps i) [
          | inl k ↦ subst (λ y. text_ltb y x ≡ false) (sym k) (text_ltb_asym x p e)
          | inr j ↦ h q j
        ],
        insert_string-IsSorted p ps hs,
      ))
      (λ e. (
        λ q i. elim i [
          | inl k ↦ subst (λ y. text_ltb y p ≡ false) (sym k) e
          | inr j ↦ text_ltb_trans p x q e (h q j)
        ],
        (h, hs),
      ))

sort_strings-IsSorted : (ps : List Text) → IsSorted (sort_strings ps)
unfolding sort_strings
sort_strings-IsSorted [] = tt
sort_strings-IsSorted (p ∷ ps) =
    insert_string-IsSorted p (sort_strings ps) (sort_strings-IsSorted ps)

-- One of two different texts comes first.
text_ltb_total : (a b : Text) → text_ltb b a ≡ false → list_eq b a ≡ false → text_ltb a b ≡ true
unfolding text_ltb
text_ltb_total [] [] h k = absurd (ground arith)
text_ltb_total [] (y ∷ ys) h k = refl
text_ltb_total (x ∷ xs) [] h k = absurd (ground arith)
text_ltb_total (x ∷ xs) (y ∷ ys) h k = ground (arith, text_ltb_total xs ys)

-- a < b and b ≤ c
pub text_ltb_step :
    (a b c : Text) → text_ltb a b ≡ true → text_ltb c b ≡ false → text_ltb a c ≡ true
unfolding text_ltb
text_ltb_step [] [] c h k = absurd (ground arith)
text_ltb_step (x ∷ xs) [] c h k = absurd (ground arith)
text_ltb_step [] (y ∷ ys) [] h k = absurd (ground arith)
text_ltb_step [] (y ∷ ys) (z ∷ zs) h k = refl
text_ltb_step (x ∷ xs) (y ∷ ys) [] h k = absurd (ground arith)
text_ltb_step (x ∷ xs) (y ∷ ys) (z ∷ zs) h k = ground (arith, text_ltb_step xs ys zs)

compact_from-IsStrict :
    (last : Text) (ps : List Text)
    → NoneBefore last ps
    → IsSorted ps
    → AllAfter last (compact_from last ps) × IsStrict (compact_from last ps)
unfolding compact_from
compact_from-IsStrict last [] h hs = (λ q i. absurd i, tt)
compact_from-IsStrict last (p ∷ ps) h (k, ks) =
    if_cases (λ qs. AllAfter last qs × IsStrict qs) (list_eq p last)
      (λ e. compact_from-IsStrict last ps (λ q i. h q (inr i)) ks)
      (λ e.
        let first = text_ltb_total last p (h p (inl refl)) e in
        let (after, strict) = compact_from-IsStrict p ps k ks in
        (
          λ q i. elim i [
            | inl same ↦ subst (λ y. text_ltb last y ≡ true) (sym same) first
            | inr j ↦ text_ltb_step last p q first (text_ltb_asym p q (after q j))
          ],
          (after, strict),
        ))

compact-IsStrict : (ps : List Text) → IsSorted ps → IsStrict (compact ps)
unfolding compact
compact-IsStrict [] h = tt
compact-IsStrict (p ∷ ps) (h, hs) = compact_from-IsStrict p ps h hs

collapse_from-IsStrict :
    (last : Text) (ps : List Text) → IsStrict ps → IsStrict (collapse_from last ps)
unfolding collapse_from
collapse_from-IsStrict last [] h = tt
collapse_from-IsStrict last (p ∷ ps) (h, hs) =
    if_cases IsStrict (has_prefix p (below last)) (λ _. collapse_from-IsStrict last ps hs)
      (λ _. (λ q i. h q (In-collapse_from p q ps i), collapse_from-IsStrict p ps hs))

collapse-IsStrict : (ps : List Text) → IsStrict ps → IsStrict (collapse ps)
unfolding collapse
collapse-IsStrict [] h = tt
collapse-IsStrict (p ∷ ps) (h, hs) =
    (λ q i. h q (In-collapse_from p q ps i), collapse_from-IsStrict p ps hs)

pub select-IsStrict : (cleaned : List Text) → IsStrict (select cleaned).paths
unfolding select
select-IsStrict cleaned =
    collapse-IsStrict (compact (sort_strings cleaned))
      (compact-IsStrict (sort_strings cleaned) (sort_strings-IsSorted cleaned))
