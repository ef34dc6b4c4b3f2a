-- ===== src/Paths/Segments.antt =====
-- Which texts are their own `path.Clean`: those made of plain segments.
use mathlib.Core.List.{reverse-append}
use better_amp_backup.Prelude.{
  list_eq, ℕ, Bool, false, ◌||◌, ◌==◌, if_cases, List, [], ◌∷◌, ◌++◌, reverse, All, ◌≡◌, ◌≢◌, refl,
  ap, ◌∙◌, arith, ◌⊎◌, inl, inr,
}
use better_amp_backup.Paths.{
  Text, slash, dot, dot_dot, push, split, join, go_up, visit, clean_segments, clean, is_rooted,
  or_dot,
}

-- No slash in it.
abbrev pub IsSlashFree : Text → Type 0
IsSlashFree s = All (λ c. c ≢ slash) s

-- A segment that names an entry of the directory before it.
pub record IsPlain (s : Text) : Type 0 where
  pub nonempty : list_eq s [] ≡ false
  pub not_dot : list_eq s dot ≡ false
  pub not_dot_dot : list_eq s dot_dot ≡ false

push-IsSlashFree :
    (c : ℕ) (ss : List Text) → c ≢ slash → All IsSlashFree ss → All IsSlashFree (push c ss)
push-IsSlashFree c [] ne h = ((ne, tt), tt)
push-IsSlashFree c (s ∷ ss) ne (h, hs) = ((ne, h), hs)

pub split-IsSlashFree : (p : Text) → All IsSlashFree (split p)
unfolding split
split-IsSlashFree [] = (tt, tt)
split-IsSlashFree (c ∷ cs) =
    if_cases (All IsSlashFree) (c == slash) (λ _. (tt, split-IsSlashFree cs))
      (λ e. push-IsSlashFree c (split cs) (λ eq. ground arith) (split-IsSlashFree cs))

split-append : (s p : Text) → IsSlashFree s → split (s ++ (slash ∷ p)) ≡ s ∷ split p
unfolding split
split-append [] p h = refl
split-append (c ∷ cs) p (h, hs) = rw (split-append cs p hs) (ground arith)

split_self : (s : Text) → IsSlashFree s → split s ≡ s ∷ []
unfolding split
split_self [] h = refl
split_self (c ∷ cs) (h, hs) = rw (split_self cs hs) (ground arith)

-- `strings.Split` takes apart what `strings.Join` put together.
pub split-join :
    (s : Text) (ss : List Text) → All IsSlashFree (s ∷ ss) → split (join (s ∷ ss)) ≡ s ∷ ss
unfolding join
split-join s [] (h, hs) = split_self s h
split-join s (t ∷ ts) (h, hs) =
    split-append s (join (t ∷ ts)) h ∙ ap (λ x. s ∷ x) (split-join t ts hs)

-- What `path.Clean` leaves between two slashes.
abbrev IsKept : Text → Type 0
IsKept s = (list_eq s [] ≡ false) × (list_eq s dot ≡ false) × IsSlashFree s

dot_dot-IsKept : IsKept dot_dot
dot_dot-IsKept = (refl, refl, (omega arith))

go_up-IsKept : (rooted : Bool) (out : List Text) → All IsKept out → All IsKept (go_up rooted out)
unfolding go_up
go_up-IsKept rooted [] h = if_cases (All IsKept) rooted (λ _. tt) (λ _. (dot_dot-IsKept, tt))
go_up-IsKept rooted (s ∷ out) (h, hs) =
    if_cases (All IsKept) (list_eq s dot_dot) (λ _. (dot_dot-IsKept, (h, hs))) (λ _. hs)

or_false_parts : (a b : Bool) → (a || b) ≡ false → (a ≡ false) × (b ≡ false)
or_false_parts a b h = ground arith

visit-IsKept :
    (rooted : Bool) (out : List Text) (s : Text)
    → All IsKept out
    → IsSlashFree s
    → All IsKept (visit rooted out s)
unfolding visit
visit-IsKept rooted out s h k =
    if_cases (All IsKept) (list_eq s [] || list_eq s dot) (λ _. h)
      (λ named.
        let (nonempty, not_dot) = or_false_parts (list_eq s []) (list_eq s dot) named in
        if_cases (All IsKept) (list_eq s dot_dot) (λ _. go_up-IsKept rooted out h)
          (λ _. ((nonempty, not_dot, k), h)))

clean_segments-IsKept :
    (rooted : Bool) (out ss : List Text)
    → All IsKept out
    → All IsSlashFree ss
    → All IsKept (clean_segments rooted out ss)
unfolding clean_segments
clean_segments-IsKept rooted out [] h k = h
clean_segments-IsKept rooted out (s ∷ ss) h (k, ks) =
    clean_segments-IsKept rooted (visit rooted out s) ss (visit-IsKept rooted out s h k) ks

pub All-append {ℓ κ} :
    {A : Type ℓ} (P : A → Type κ) (xs ys : List A) → All P xs → All P ys → All P (xs ++ ys)
All-append P [] ys h k = k
All-append P (x ∷ xs) ys (h, hs) k = (h, All-append P xs ys hs k)

pub All-reverse {ℓ κ} : {A : Type ℓ} (P : A → Type κ) (xs : List A) → All P xs → All P (reverse xs)
All-reverse P [] h = tt
All-reverse P (x ∷ xs) (h, hs) =
    rw (reverse-append (x ∷ []) xs)
      (All-append P (reverse xs) (x ∷ []) (All-reverse P xs hs) (h, tt))

Kept-IsSlashFree : (ss : List Text) → All IsKept ss → All IsSlashFree ss
Kept-IsSlashFree [] h = tt
Kept-IsSlashFree (s ∷ ss) ((a, b, c), hs) = (c, Kept-IsSlashFree ss hs)

Kept-IsPlain :
    (ss : List Text) → All IsKept ss → All (λ s. list_eq s dot_dot ≡ false) ss → All IsPlain ss
Kept-IsPlain [] h k = tt
Kept-IsPlain (s ∷ ss) ((a, b, c), hs) (k, ks) =
    (record { nonempty = a; not_dot = b; not_dot_dot = k }, Kept-IsPlain ss hs ks)

IsPlain-or_dot :
    (p : Text) (ss : List Text)
    → All IsKept ss
    → p ≡ or_dot false ss
    → All (λ s. list_eq s dot_dot ≡ false) (split p)
    → (p ≡ dot) ⊎ All IsPlain (split p)
IsPlain-or_dot p [] h e k = inl e
IsPlain-or_dot p (s ∷ ss) h e k =
    let parts : split p ≡ s ∷ ss = ap split e ∙ split-join s ss (Kept-IsSlashFree (s ∷ ss) h) in
    inr (rw parts (Kept-IsPlain (s ∷ ss) h (rw parts at k)))

-- A relative path that is its own `path.Clean` and has no `..` segment is `.` or goes down from
-- the root by plain segments only.
pub clean-IsPlain :
    (p : Text)
    → is_rooted p ≡ false
    → p ≡ clean p
    → All (λ s. list_eq s dot_dot ≡ false) (split p)
    → (p ≡ dot) ⊎ All IsPlain (split p)
unfolding clean
clean-IsPlain p relative canonical inside =
    IsPlain-or_dot p (reverse (clean_segments false [] (split p)))
      (All-reverse IsKept _ (clean_segments-IsKept false [] (split p) tt (split-IsSlashFree p)))
      (canonical ∙ ap (λ b. or_dot b (reverse (clean_segments b [] (split p)))) relative) inside
