-- ===== src/Backup/Covered.antt =====
-- The index of a complete snapshot leaves nothing out (`process` of internal/backup/backup.go).
use better_amp_backup.Prelude.{
  Bool, false, arith, if_cases, Bool-cases, List, [], ◌∷◌, In, none, ◌≡◌, ◌⊎◌, inl, inr, refl, sym,
  ◌∙◌, subst, list_eq, list_eq→eq,
}
use better_amp_backup.Paths.{Text}
use better_amp_backup.Repo.Index.{Entry}
use better_amp_backup.Repo.Snapshots.{text_ltb}
use better_amp_backup.Scan.{Item}
use better_amp_backup.Backup.{Env, Runner, process_item, process, without_entry, put_entry}
use better_amp_backup.Backup.Run.{insert_by_path, sort_by_path}
use better_amp_backup.Backup.Faithful.{process_item-Goes, process_quiet, unless_failed-eq-none}

-- The entries have one of the item's path.
abbrev pub IsCaptured : List Entry → Item → Type 0
IsCaptured es it = (e : Entry) × In e es × (e.path ≡ it.path)

In-without_entry :
    (p : Text) (e : Entry) (es : List Entry)
    → list_eq e.path p ≡ false
    → In e es
    → In e (without_entry p es)
In-without_entry p e [] ne h = elim h [ ]
In-without_entry p e (f ∷ es) ne (inl same) =
    if_cases (In e) (list_eq f.path p)
      (λ q.
        let ne' = subst (λ (x : Entry). list_eq x.path p ≡ false) same ne in absurd (ground arith))
      (λ q. inl same)
In-without_entry p e (f ∷ es) ne (inr h) =
    if_cases (In e) (list_eq f.path p) (λ q. In-without_entry p e es ne h)
      (λ q. inr (In-without_entry p e es ne h))

-- An entry that is put in replaces one of its own path only.
IsCaptured-put_entry :
    (e : Entry) (es : List Entry) (it : Item) → IsCaptured es it → IsCaptured (put_entry e es) it
IsCaptured-put_entry e es it (f, there, same) = elim (Bool-cases (list_eq f.path e.path)) [
  | inl q ↦ (e, inl refl, sym (list_eq→eq f.path e.path q) ∙ same)
  | inr q ↦ (f, inr (In-without_entry e.path f es q there), same)
]

-- An item that was recorded, and every one from before.
process_item-IsCaptured :
    (env : Env) (paranoid : Bool) (it : Item) (r r' : Runner)
    → process_item env paranoid it r ≡ (none, r')
    → r'.warnings ≡ []
    → IsCaptured r'.entries it × ((i : Item) → IsCaptured r.entries i → IsCaptured r'.entries i)
process_item-IsCaptured env paranoid it r r' q h =
    let g = process_item-Goes env paranoid it r r' q h in
    let w = g.recorded in
    (
      subst (λ es. IsCaptured es it) (sym w.entries) (w.entry, inl refl, w.same_path),
      λ i c.
          subst (λ es. IsCaptured es i) (sym w.entries)
            (IsCaptured-put_entry w.entry r.entries i c),
    )

-- Reading a list of items, without an error and without a warning at its end, leaves an entry of
-- every one of their paths, and of every path that had one.
pub process-IsCaptured :
    (env : Env) (paranoid : Bool) (items : List Item) (r r' : Runner)
    → process env paranoid items r ≡ (none, r')
    → r'.warnings ≡ []
    → (it : Item) → In it items ⊎ IsCaptured r.entries it
    → IsCaptured r'.entries it
unfolding process
process-IsCaptured env paranoid [] r r' q h it (inl c) = elim c [ ]
process-IsCaptured env paranoid [] r r' q h it (inr c) = subst (λ x. IsCaptured x.1.entries it) q c
process-IsCaptured env paranoid (i ∷ items) r r' q h it c =
    let x = process_item env paranoid i r in
    let (first, rest) = unless_failed-eq-none x _ r' q in
    let (quiet, same) = process_quiet env paranoid items x.1 r' rest h in
    let (now, kept) = process_item-IsCaptured env paranoid i r x.1 first quiet in
    process-IsCaptured env paranoid items x.1 r' rest h it (go x.1 now kept c)
  where
    go :
        (r1 : Runner)
        → IsCaptured r1.entries i
        → ((j : Item) → IsCaptured r.entries j → IsCaptured r1.entries j)
        → In it (i ∷ items) ⊎ IsCaptured r.entries it
        → In it items ⊎ IsCaptured r1.entries it
    go r1 now kept (inl (inl same)) = inr (subst (IsCaptured r1.entries) (sym same) now)
    go r1 now kept (inl (inr there)) = inl there
    go r1 now kept (inr old) = inr (kept it old)

In-insert_by_path : (x e : Entry) (es : List Entry) → In x (e ∷ es) → In x (insert_by_path e es)
unfolding insert_by_path
In-insert_by_path x e [] h = h
In-insert_by_path x e (f ∷ fs) (inl same) =
    if_cases (In x) (text_ltb f.path e.path) (λ _. inr (In-insert_by_path x e fs (inl same)))
      (λ _. inl same)
In-insert_by_path x e (f ∷ fs) (inr (inl same)) =
    if_cases (In x) (text_ltb f.path e.path) (λ _. inl same) (λ _. inr (inl same))
In-insert_by_path x e (f ∷ fs) (inr (inr there)) =
    if_cases (In x) (text_ltb f.path e.path) (λ _. inr (In-insert_by_path x e fs (inr there)))
      (λ _. inr (inr there))

-- Sorting keeps every entry.
In-sort_by_path : (x : Entry) (es : List Entry) → In x es → In x (sort_by_path es)
unfolding sort_by_path
In-sort_by_path x [] h = elim h [ ]
In-sort_by_path x (e ∷ es) (inl same) = In-insert_by_path x e (sort_by_path es) (inl same)
In-sort_by_path x (e ∷ es) (inr h) =
    In-insert_by_path x e (sort_by_path es) (inr (In-sort_by_path x es h))

pub IsCaptured-sort_by_path :
    (es : List Entry) (it : Item) → IsCaptured es it → IsCaptured (sort_by_path es) it
IsCaptured-sort_by_path es it (e, there, same) = (e, In-sort_by_path e es there, same)
