-- ===== src/Repo/Snapshots/Order.antt =====
-- Go's order of strings, and that `ListSnapshots` (internal/repo/repo.go) sorts by it.
use mathlib.Core.List.{reverse-cons}
use better_amp_backup.Prelude.{
  true, false, if◌then◌else◌, if_cases, Bool-cases, List, [], ◌∷◌, ◌++◌, In, In-append, reverse,
  ◌≡◌, ◌⊎◌, inl, inr, refl, sym, subst, arith,
}
use better_amp_backup.Paths.{Text}
use better_amp_backup.Repo.Manifest.{Manifest}
use better_amp_backup.Repo.Snapshots.{text_ltb, insert_by_id, sort_by_id}

pub text_ltb_asym : (a b : Text) → text_ltb a b ≡ true → text_ltb b a ≡ false
unfolding text_ltb
text_ltb_asym [] [] h = refl
text_ltb_asym [] (y ∷ ys) h = refl
text_ltb_asym (x ∷ xs) [] h = absurd (ground arith)
text_ltb_asym (x ∷ xs) (y ∷ ys) h = ground (arith, text_ltb_asym xs ys)

-- a ≤ b and b ≤ c
pub text_ltb_trans :
    (a b c : Text) → text_ltb b a ≡ false → text_ltb c b ≡ false → text_ltb c a ≡ false
unfolding text_ltb
text_ltb_trans [] b [] h k = refl
text_ltb_trans [] b (z ∷ zs) h k = refl
text_ltb_trans (x ∷ xs) [] c h k = absurd (ground arith)
text_ltb_trans (x ∷ xs) (y ∷ ys) [] h k = absurd (ground arith)
text_ltb_trans (x ∷ xs) (y ∷ ys) (z ∷ zs) h k = ground (arith, text_ltb_trans xs ys zs)

abbrev pub NoEarlier : Manifest → List Manifest → Type 0
NoEarlier m ms = (n : Manifest) → In n ms → text_ltb n.id m.id ≡ false

abbrev pub NoLater : Manifest → List Manifest → Type 0
NoLater m ms = (n : Manifest) → In n ms → text_ltb m.id n.id ≡ false

-- Oldest first.
abbrev pub IsAscending : List Manifest → Type 0
IsAscending [] = Unit
IsAscending (m ∷ ms) = NoEarlier m ms × IsAscending ms

-- Newest first.
abbrev pub IsDescending : List Manifest → Type 0
IsDescending [] = Unit
IsDescending (m ∷ ms) = NoLater m ms × IsDescending ms

pub In-insert_by_id :
    (n m : Manifest) (ms : List Manifest) → In n (insert_by_id m ms) → (n ≡ m) ⊎ In n ms
unfolding insert_by_id
In-insert_by_id n m [] h = h
In-insert_by_id n m (x ∷ ms) h = elim (Bool-cases (text_ltb x.id m.id)) [
  | inl e ↦ elim (subst (λ b. In n (if b then x ∷ insert_by_id m ms else m ∷ x ∷ ms)) e h) [
    | inl here ↦ inr (inl here)
    | inr i ↦ elim (In-insert_by_id n m ms i) [ inl q ↦ inl q | inr j ↦ inr (inr j) ]
  ]
  | inr e ↦ subst (λ b. In n (if b then x ∷ insert_by_id m ms else m ∷ x ∷ ms)) e h
]

insert_by_id-IsAscending :
    (m : Manifest) (ms : List Manifest) → IsAscending ms → IsAscending (insert_by_id m ms)
unfolding insert_by_id
insert_by_id-IsAscending m [] h = (λ n i. absurd i, tt)
insert_by_id-IsAscending m (x ∷ ms) (h, hs) =
    if_cases IsAscending (text_ltb x.id m.id)
      (λ e. (
        λ n i. elim (In-insert_by_id n m ms i) [
          | inl q ↦
              subst (λ (y : Manifest). text_ltb y.id x.id ≡ false) (sym q)
                (text_ltb_asym x.id m.id e)
          | inr j ↦ h n j
        ],
        insert_by_id-IsAscending m ms hs,
      ))
      (λ e. (
        λ n i. elim i [
          | inl q ↦ subst (λ (y : Manifest). text_ltb y.id m.id ≡ false) (sym q) e
          | inr j ↦ text_ltb_trans m.id x.id n.id e (h n j)
        ],
        (h, hs),
      ))

pub sort_by_id-IsAscending : (ms : List Manifest) → IsAscending (sort_by_id ms)
unfolding sort_by_id
sort_by_id-IsAscending [] = tt
sort_by_id-IsAscending (m ∷ ms) =
    insert_by_id-IsAscending m (sort_by_id ms) (sort_by_id-IsAscending ms)

pub In-reverse : (n : Manifest) (ms : List Manifest) → In n (reverse ms) → In n ms
In-reverse n [] h = h
In-reverse n (m ∷ ms) h =
    elim (In-append n (reverse ms) (m ∷ []) (subst (In n) (reverse-cons m ms) h)) [
      | inl i ↦ inr (In-reverse n ms i)
      | inr i ↦ elim i [ inl e ↦ inl e | inr j ↦ absurd j ]
    ]

snoc-IsDescending :
    (ms : List Manifest) (m : Manifest)
    → IsDescending ms
    → NoEarlier m ms
    → IsDescending (ms ++ m ∷ [])
snoc-IsDescending [] m h k = (λ n i. absurd i, tt)
snoc-IsDescending (x ∷ ms) m (h, hs) k = (
  λ n i. elim (In-append n ms (m ∷ []) i) [
    | inl j ↦ h n j
    | inr j ↦ elim j [
      | inl e ↦ subst (λ (y : Manifest). text_ltb x.id y.id ≡ false) (sym e) (k x (inl refl))
      | inr z ↦ absurd z
    ]
  ],
  snoc-IsDescending ms m hs (λ n i. k n (inr i)),
)

pub reverse-IsDescending : (ms : List Manifest) → IsAscending ms → IsDescending (reverse ms)
reverse-IsDescending [] h = tt
reverse-IsDescending (m ∷ ms) (h, hs) =
    subst IsDescending (sym (reverse-cons m ms)) (
      snoc-IsDescending (reverse ms) m (reverse-IsDescending ms hs)
        (λ n i. h n (In-reverse n ms i)))
