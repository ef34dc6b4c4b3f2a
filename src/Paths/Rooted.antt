-- ===== src/Paths/Rooted.antt =====
-- `path.Clean` on a path that begins with a slash, and `strings.HasPrefix` with a directory.
use mathlib.Core.List.{reverse-reverse}
use better_amp_backup.Prelude.{
  list_eq, true, false, ◌||◌, List, [], ◌∷◌, ◌++◌, append-nil, reverse, All, ◌≡◌, refl, sym, ap,
  ◌∙◌, arith, Bool-cases, inl, inr,
}
use better_amp_backup.Paths.{
  Text, slash, dot, dot_dot, split, join, visit, go_up, clean_segments, clean, is_rooted, or_dot,
  has_prefix,
}
use better_amp_backup.Paths.Segments.{
  IsSlashFree, IsPlain, split-join, split-IsSlashFree, All-append,
}
use better_amp_backup.Paths.Names.{IsName, IsName-IsSlashFree, join_snoc, clean_segments-IsName}

-- `path.Clean` takes the slash off the end of a chain of names behind the root.
pub clean-rooted :
    (s : Text) (ss : List Text)
    → All IsName (s ∷ ss)
    → clean (slash ∷ join (s ∷ ss) ++ slash ∷ []) ≡ slash ∷ join (s ∷ ss)
unfolding clean clean_segments visit split
clean-rooted s ss (h, hs) =
    let p = join (s ∷ ss) ++ slash ∷ [] in
    let parts : split p ≡ (s ∷ ss) ++ [] ∷ [] =
      ap split (sym (join_snoc s ss []))
      ∙ split-join s (ss ++ [] ∷ []) (
          All-append IsSlashFree (s ∷ ss) ([] ∷ []) (IsName-IsSlashFree (s ∷ ss) (h, hs))
            (tt, tt)) in
    let kept = clean_segments-IsName true [] (s ∷ ss) (h, hs) ∙ append-nil (reverse (s ∷ ss)) in
    ap (λ x. or_dot true (reverse (clean_segments true [] x))) parts
    ∙ ap (λ x. or_dot true (reverse x)) kept
    ∙ ap (or_dot true) (reverse-reverse (s ∷ ss))

go_up-IsName : (out : List Text) → All IsName out → All IsName (go_up true out)
unfolding go_up
go_up-IsName [] h = tt
go_up-IsName (s ∷ out) (h, hs) = rw h.plain.not_dot_dot hs

visit-IsName :
    (out : List Text) (s : Text) → All IsName out → IsSlashFree s → All IsName (visit true out s)
unfolding visit
visit-IsName out s h k = elim (Bool-cases (list_eq s [] || list_eq s dot)) [
  | inl e ↦ rw e h
  | inr e ↦ elim (Bool-cases (list_eq s dot_dot)) [
    | inl up ↦ rw (e, up) (go_up-IsName out h)
    | inr named ↦
        let plain : IsPlain s = record {
          nonempty = ground arith;
          not_dot = ground arith;
          not_dot_dot = named;
        } in
        rw (e, named) (record { plain = plain; slash_free = k }, h)
  ]
]

rooted-IsName :
    (out ss : List Text)
    → All IsName out
    → All IsSlashFree ss
    → All IsName (clean_segments true out ss)
unfolding clean_segments
rooted-IsName out [] h k = h
rooted-IsName out (s ∷ ss) h (k, ks) =
    rooted-IsName (visit true out s) ss (visit-IsName out s h k) ks

-- What `path.Clean` makes of a rooted path: the slash and names, given from the last one.
pub clean-names :
    (p : Text)
    → is_rooted p ≡ true
    → (out : List Text) × All IsName out × (clean p ≡ slash ∷ join (reverse out))
unfolding clean
clean-names p rooted = (
  clean_segments true [] (split p),
  rooted-IsName [] (split p) tt (split-IsSlashFree p),
  ap (λ b. or_dot b (reverse (clean_segments b [] (split p)))) rooted,
)

pub has_prefix-slash_free :
    (t dir : Text) → IsSlashFree t → has_prefix t (dir ++ slash ∷ []) ≡ false
unfolding has_prefix
has_prefix-slash_free [] [] h = refl
has_prefix-slash_free [] (d ∷ ds) h = refl
has_prefix-slash_free (c ∷ cs) [] (ne, h) = ground arith
has_prefix-slash_free (c ∷ cs) (d ∷ ds) (ne, h) = ground (arith, has_prefix-slash_free cs ds h)

-- What begins with a directory and a slash is in it, or below what begins so.
pub has_prefix-name :
    (a dir t : Text)
    → IsSlashFree t
    → has_prefix (a ++ slash ∷ t) (dir ++ slash ∷ [])
      ≡ (list_eq a dir || has_prefix a (dir ++ slash ∷ []))
unfolding has_prefix
has_prefix-name [] [] t h = refl
has_prefix-name [] (d ∷ ds) t h = ground (arith, has_prefix-slash_free t ds h)
has_prefix-name (x ∷ xs) [] t h = refl
has_prefix-name (x ∷ xs) (d ∷ ds) t h = ground (arith, has_prefix-name xs ds t h)
