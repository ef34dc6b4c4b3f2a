-- ===== src/Paths/Names.antt =====
-- `strings.Join` and `path.Clean` on a chain of names.
use mathlib.Core.List.{reverse-cons, reverse-reverse}
use better_amp_backup.Prelude.{
  list_eq, ℕ, ◌≤◌, Bool, false, ◌==◌, if_cases, List, [], ◌∷◌, ◌++◌, append_assoc, append-nil,
  reverse, All, length, length-append, ◌≡◌, ◌≢◌, refl, sym, ap, ◌∙◌, arith, Bool-cases, inl, inr,
}
use better_amp_backup.Paths.{
  Text, slash, push, split, join, visit, clean_segments, clean, is_rooted, or_dot,
}
use better_amp_backup.Paths.Segments.{IsSlashFree, IsPlain, split-join, All-append}

-- What can stand between two slashes and names an entry.
pub record IsName (s : Text) : Type 0 where
  pub plain : IsPlain s
  pub slash_free : IsSlashFree s

pub join_snoc :
    (s : Text) (ss : List Text) (t : Text) → join ((s ∷ ss) ++ t ∷ []) ≡ join (s ∷ ss) ++ slash ∷ t
unfolding join
join_snoc s [] t = refl
join_snoc s (x ∷ xs) t =
    ap (λ y. s ++ slash ∷ y) (join_snoc x xs t)
    ∙ sym (append_assoc s (slash ∷ join (x ∷ xs)) (slash ∷ t))

join-push : (c : ℕ) (ss : List Text) → ss ≢ [] → join (push c ss) ≡ c ∷ join ss
unfolding join
join-push c [] ne = absurd (ne refl)
join-push c (s ∷ []) ne = refl
join-push c (s ∷ t ∷ ts) ne = refl

pub split_nonempty : (p : Text) → split p ≢ []
unfolding split
split_nonempty [] e = ground arith
split_nonempty (c ∷ cs) e = elim (Bool-cases (c == slash)) [
  | inl q ↦ ground arith
  | inr q ↦ pushed (split cs) (rw q at e)
]
  where
    pushed : (ss : List Text) → push c ss ≡ [] → ⊥
    pushed [] h = ground arith
    pushed (s ∷ ss) h = ground arith

join_empty : (ss : List Text) → ss ≢ [] → join ([] ∷ ss) ≡ slash ∷ join ss
unfolding join
join_empty [] ne = absurd (ne refl)
join_empty (s ∷ ss) ne = refl

-- `strings.Join` puts together what `strings.Split` took apart.
pub join-split : (p : Text) → join (split p) ≡ p
unfolding split join
join-split [] = refl
join-split (c ∷ cs) =
    if_cases (λ ss. join ss ≡ c ∷ cs) (c == slash)
      (λ e.
        let same : c ≡ slash = ground arith in
        join_empty (split cs) (split_nonempty cs)
        ∙ ap (λ x. slash ∷ x) (join-split cs)
        ∙ ap (λ x. x ∷ cs) (sym same))
      (λ e. join-push c (split cs) (split_nonempty cs) ∙ ap (λ x. c ∷ x) (join-split cs))

visit-IsPlain :
    (rooted : Bool) (out : List Text) (s : Text) → IsPlain s → visit rooted out s ≡ s ∷ out
unfolding visit
visit-IsPlain rooted out s h = rw (h.nonempty, h.not_dot, h.not_dot_dot)

pub clean_segments-IsName :
    (rooted : Bool) (out ss : List Text)
    → All IsName ss
    → clean_segments rooted out (ss ++ [] ∷ []) ≡ reverse ss ++ out
unfolding clean_segments visit
clean_segments-IsName rooted out [] h = refl
clean_segments-IsName rooted out (s ∷ ss) (h, hs) =
    ap (λ o. clean_segments rooted o (ss ++ [] ∷ [])) (visit-IsPlain rooted out s h.plain)
    ∙ clean_segments-IsName rooted (s ∷ out) ss hs
    ∙ sym (append_assoc (reverse ss) (s ∷ []) out)
    ∙ ap (λ x. x ++ out) (sym (reverse-cons s ss))

pub IsName-IsSlashFree : (ss : List Text) → All IsName ss → All IsSlashFree ss
IsName-IsSlashFree [] h = tt
IsName-IsSlashFree (s ∷ ss) (h, hs) = (h.slash_free, IsName-IsSlashFree ss hs)

-- A chain of names begins with a character other than the slash.
is_rooted-append : (s t : Text) → IsName s → is_rooted (s ++ t) ≡ false
is_rooted-append [] t h = absurd (no h.plain.nonempty)
  where
    no : list_eq [] [] ≡ false → ⊥
    no e = ground arith
is_rooted-append (c ∷ cs) t h = first h.slash_free
  where
    first : (c ≢ slash) × All (λ d. d ≢ slash) cs → (c == slash) ≡ false
    first (ne, rest) = ground arith

pub is_rooted-join :
    (s : Text) (ss : List Text) (t : Text) → IsName s → is_rooted (join (s ∷ ss) ++ t) ≡ false
unfolding join
is_rooted-join s [] t h = is_rooted-append s t h
is_rooted-join s (x ∷ xs) t h =
    ap is_rooted (append_assoc s (slash ∷ join (x ∷ xs)) t) ∙ is_rooted-append s _ h

-- `path.Clean` takes the slash off the end of a chain of names.
pub clean-join :
    (s : Text) (ss : List Text)
    → All IsName (s ∷ ss)
    → clean (join (s ∷ ss) ++ slash ∷ []) ≡ join (s ∷ ss)
unfolding clean
clean-join s ss (h, hs) =
    let p = join (s ∷ ss) ++ slash ∷ [] in
    let parts : split p ≡ (s ∷ ss) ++ [] ∷ [] =
      ap split (sym (join_snoc s ss []))
      ∙ split-join s (ss ++ [] ∷ []) (
          All-append IsSlashFree (s ∷ ss) ([] ∷ []) (IsName-IsSlashFree (s ∷ ss) (h, hs))
            (tt, tt)) in
    let kept = clean_segments-IsName false [] (s ∷ ss) (h, hs) ∙ append-nil (reverse (s ∷ ss)) in
    ap (λ b. or_dot b (reverse (clean_segments b [] (split p))))
      (is_rooted-join s ss (slash ∷ []) h)
    ∙ ap (λ x. or_dot false (reverse (clean_segments false [] x))) parts
    ∙ ap (λ x. or_dot false (reverse x)) kept
    ∙ ap (or_dot false) (reverse-reverse (s ∷ ss))

length-IsName : (s : Text) → IsName s → 1 ≤ length s
length-IsName [] h = absurd (no h.plain.nonempty)
  where
    no : list_eq [] [] ≡ false → ⊥
    no e = ground arith
length-IsName (c ∷ cs) h = omega arith

-- A chain of names is at least as long as it has names.
pub length-join : (ss : List Text) → All IsName ss → length ss ≤ length (join ss)
unfolding join
length-join [] h = omega arith
length-join (s ∷ []) (h, hs) = length-IsName s h
length-join (s ∷ t ∷ ts) (h, hs) =
    omega (arith, length-join (t ∷ ts) hs, length-append s (slash ∷ join (t ∷ ts)))
