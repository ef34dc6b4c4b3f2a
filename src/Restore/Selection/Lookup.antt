-- ===== src/Restore/Selection/Lookup.antt =====
-- Lemmas on the order of texts and on the lists that internal/restore/paths.go builds.
use better_amp_backup.Prelude.{
  ℕ, zero, suc, ◌<◌, true, false, if◌then◌else◌, List, [], ◌∷◌, ◌++◌, In, some, list_eq, get_elem?,
  Bool-cases, ◌≡◌, inl, inr, refl, ap₂, subst, arith,
}
use better_amp_backup.Paths.{Text, slash, has_prefix}
use better_amp_backup.Repo.Snapshots.{text_ltb}
use better_amp_backup.Restore.Selection.{
  insert_string, sort_strings, compact_from, compact, below, collapse_from, collapse,
}

pub text_ltb-append : (p q : Text) (c : ℕ) → text_ltb p (p ++ c ∷ q) ≡ true
unfolding text_ltb
text_ltb-append [] q c = refl
text_ltb-append (x ∷ p) q c = ground (arith, text_ltb-append p q c)

pub text_ltb-append_longer : (p q : Text) (c : ℕ) → text_ltb (p ++ c ∷ q) p ≡ false
unfolding text_ltb
text_ltb-append_longer [] q c = refl
text_ltb-append_longer (x ∷ p) q c = ground (arith, text_ltb-append_longer p q c)

pub text_ltb-branch : (p q r : Text) (c d : ℕ) → c < d → text_ltb (p ++ c ∷ q) (p ++ d ∷ r) ≡ true
unfolding text_ltb
text_ltb-branch [] q r c d h = ground arith
text_ltb-branch (x ∷ p) q r c d h = ground (arith, text_ltb-branch p q r c d h)

pub list_eq-append : (p q : Text) (c : ℕ) → list_eq (p ++ c ∷ q) p ≡ false
list_eq-append [] q c = refl
list_eq-append (x ∷ p) q c = ground (arith, list_eq-append p q c)

pub has_prefix-branch :
    (p q r : Text) (c d : ℕ) → c < d → has_prefix (p ++ c ∷ q) (p ++ d ∷ r) ≡ false
unfolding has_prefix
has_prefix-branch [] q r c d h = ground arith
has_prefix-branch (x ∷ p) q r c d h = ground (arith, has_prefix-branch p q r c d h)

pub has_prefix-branch_above :
    (p q r : Text) (c d : ℕ) → c < d → has_prefix (p ++ d ∷ r) (p ++ c ∷ q) ≡ false
unfolding has_prefix
has_prefix-branch_above [] q r c d h = ground arith
has_prefix-branch_above (x ∷ p) q r c d h = ground (arith, has_prefix-branch_above p q r c d h)

pub has_prefix-below : (p x : Text) → has_prefix (p ++ slash ∷ x) (below p) ≡ true
unfolding has_prefix
has_prefix-below [] x = has_prefix_nil x
  where
    has_prefix_nil : (x : Text) → has_prefix (slash ∷ x) (slash ∷ []) ≡ true
    has_prefix_nil [] = refl
    has_prefix_nil (y ∷ ys) = refl
has_prefix-below (y ∷ p) x = ground (arith, has_prefix-below p x)

pub has_prefix-IsBelow :
    (x p : Text) → has_prefix x (below p) ≡ true → (r : Text) × (x ≡ p ++ slash ∷ r)
unfolding has_prefix
has_prefix-IsBelow [] [] h = absurd (ground arith)
has_prefix-IsBelow [] (y ∷ p) h = absurd (ground arith)
has_prefix-IsBelow (c ∷ x) [] h = (x, ground arith)
has_prefix-IsBelow (c ∷ x) (y ∷ p) h =
    let (r, e) = has_prefix-IsBelow x p (ground arith) in
    let same : c ≡ y = ground arith in (r, ap₂ (λ b t. b ∷ t) same e)

pub In-insert_string : (p q : Text) (ps : List Text) → In q (insert_string p ps) → In q (p ∷ ps)
unfolding insert_string
In-insert_string p q [] h = h
In-insert_string p q (x ∷ ps) h = ground (arith, In-insert_string p q ps)

pub In-sort_strings : (q : Text) (ps : List Text) → In q (sort_strings ps) → In q ps
unfolding sort_strings
In-sort_strings q [] h = h
In-sort_strings q (p ∷ ps) h = elim (In-insert_string p q (sort_strings ps) h) [
  | inl e ↦ inl e
  | inr i ↦ inr (In-sort_strings q ps i)
]

pub In-compact_from : (last q : Text) (ps : List Text) → In q (compact_from last ps) → In q ps
unfolding compact_from
In-compact_from last q [] h = h
In-compact_from last q (p ∷ ps) h = elim (Bool-cases (list_eq p last)) [
  | inl e ↦ inr (In-compact_from last q ps (rw e at h))
  | inr e ↦
      elim (subst (λ b. In q (if b then compact_from last ps else p ∷ compact_from p ps)) e h) [
        | inl here ↦ inl here
        | inr i ↦ inr (In-compact_from p q ps i)
      ]
]

pub In-compact : (q : Text) (ps : List Text) → In q (compact ps) → In q ps
unfolding compact
In-compact q [] h = h
In-compact q (p ∷ ps) (inl e) = inl e
In-compact q (p ∷ ps) (inr i) = inr (In-compact_from p q ps i)

pub In-collapse_from : (last q : Text) (ps : List Text) → In q (collapse_from last ps) → In q ps
unfolding collapse_from
In-collapse_from last q [] h = h
In-collapse_from last q (p ∷ ps) h = elim (Bool-cases (has_prefix p (below last))) [
  | inl e ↦ inr (
      In-collapse_from last q ps
        (subst (λ b. In q (if b then collapse_from last ps else p ∷ collapse_from p ps)) e h))
  | inr e ↦
      elim (subst (λ b. In q (if b then collapse_from last ps else p ∷ collapse_from p ps)) e h) [
        | inl here ↦ inl here
        | inr i ↦ inr (In-collapse_from p q ps i)
      ]
]

pub In-collapse : (q : Text) (ps : List Text) → In q (collapse ps) → In q ps
unfolding collapse
In-collapse q [] h = h
In-collapse q (p ∷ ps) (inl e) = inl e
In-collapse q (p ∷ ps) (inr i) = inr (In-collapse_from p q ps i)

pub In-get_elem? : (p : Text) (ps : List Text) (i : ℕ) → get_elem? ps i ≡ some p → In p ps
In-get_elem? p [] i h = absurd (ground arith)
In-get_elem? p (x ∷ ps) zero h = inl (ground arith)
In-get_elem? p (x ∷ ps) (suc i) h = inr (In-get_elem? p ps i h)
