-- ===== src/Repo/Disk/Files.antt =====
-- Looking up a file of a directory after one was put there or taken away.
use better_amp_backup.Prelude.{
  In, if_cases, false, Bool-cases, [], ◌∷◌, none, some, ◌≡◌, inl, inr, refl, sym, subst, list_eq,
  list_eq→eq, list_eq_self,
}
use better_amp_backup.Paths.{Text}
use better_amp_backup.Repo.Disk.{Dir, Content, find, without, put}

pub find-without_self : (n : Text) (dir : Dir) → find n (without n dir) ≡ none
find-without_self n [] = refl
find-without_self n ((m, c) ∷ dir) = elim (Bool-cases (list_eq m n)) [
  | inl e ↦ rw e (find-without_self n dir)
  | inr e ↦ rw (e, find-without_self n dir, e)
]

pub find-without_other :
    (n m : Text) (dir : Dir) → list_eq m n ≡ false → find n (without m dir) ≡ find n dir
find-without_other n m [] ne = refl
find-without_other n m ((k, c) ∷ dir) ne = elim (Bool-cases (list_eq k m)) [
  | inl e ↦
      let skipped : list_eq k n ≡ false =
        subst (λ x. list_eq x n ≡ false) (sym (list_eq→eq k m e)) ne in
      rw (e, skipped) (find-without_other n m dir ne)
  | inr e ↦ rw (e, find-without_other n m dir ne)
]

pub find-put_self : (n : Text) (c : Content) (dir : Dir) → find n (put n c dir) ≡ some c
find-put_self n c dir = rw (list_eq_self n)

pub find-put_other :
    (n m : Text) (c : Content) (dir : Dir) → list_eq m n ≡ false → find n (put m c dir) ≡ find n dir
find-put_other n m c dir ne = rw ne (find-without_other n m dir ne)

pub In-without : (x : Text × Content) (n : Text) (dir : Dir) → In x (without n dir) → In x dir
In-without x n [] h = h
In-without x n ((m, c) ∷ dir) h =
    let later = In-without x n dir in
    if_cases (λ (l : Dir). In x l → In x ((m, c) ∷ dir)) (list_eq m n) (λ _ k. inr (later k))
      (λ _ k. elim k [ inl here ↦ inl here | inr i ↦ inr (later i) ]) h
