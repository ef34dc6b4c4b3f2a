-- ===== src/Repo/Index/Inside.antt =====
-- Every entry that passes `Entry.Validate` (internal/repo/index.go) names a place inside the
-- snapshot root.
use better_amp_backup.Prelude.{
  list_eq→eq, list_eq, true, false, List, [], ◌∷◌, All, none, ◌≡◌, ◌⊎◌, inl, inr, arith, Bool-cases,
}
use better_amp_backup.Paths.{Text, dot, dot_dot, split, clean, is_rooted}
use better_amp_backup.Paths.Segments.{IsPlain, clean-IsPlain}
use better_amp_backup.Repo.Index.{Entry, validate, has_dot_dot}

pub has_dot_dot-All :
    (ss : List Text) → has_dot_dot ss ≡ false → All (λ s. list_eq s dot_dot ≡ false) ss
unfolding has_dot_dot
has_dot_dot-All [] h = tt
has_dot_dot-All (s ∷ ss) h = elim (Bool-cases (list_eq s dot_dot)) [
  | inl up ↦ absurd (ground arith)
  | inr down ↦ (down, has_dot_dot-All ss (rw down at h))
]

-- The path is the root itself or a chain of plain names below it.
abbrev pub IsInside : Text → Type 0
IsInside p = (p ≡ dot) ⊎ All IsPlain (split p)

record Checks (e : Entry) : Type 0 where
  relative : is_rooted e.path ≡ false
  canonical : list_eq e.path (clean e.path) ≡ true
  inside : has_dot_dot (split e.path) ≡ false

validate-Checks : (e : Entry) → validate e ≡ none → Checks e
unfolding validate
validate-Checks e h = ground arith

-- An entry that passes `Validate` has a path that is the snapshot root itself, `.`, or leads down
-- from it by names that are neither empty nor `.` nor `..`.
pub validate-IsInside : (e : Entry) → validate e ≡ none → IsInside e.path
validate-IsInside e h =
    let c = validate-Checks e h in
    clean-IsPlain e.path c.relative (list_eq→eq e.path (clean e.path) c.canonical)
      (has_dot_dot-All (split e.path) c.inside)
