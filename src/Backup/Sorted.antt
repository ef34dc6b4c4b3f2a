-- ===== src/Backup/Sorted.antt =====
-- The entries of a run are sorted by path (internal/backup/backup.go), and to sort them once more,
-- as `applyTimes` and `Run` of internal/restore/restore.go do, changes nothing.
use better_amp_backup.Prelude.{if_cases, false, List, [], ◌∷◌, ◌≡◌, refl, ap, ◌∙◌}
use better_amp_backup.Repo.Index.{Entry}
use better_amp_backup.Repo.Snapshots.{text_ltb}
use better_amp_backup.Repo.Snapshots.Order.{text_ltb_asym}
use better_amp_backup.Backup.Run.{insert_by_path, sort_by_path}

abbrev StartsAfter : Entry → List Entry → Type 0
StartsAfter e [] = Unit
StartsAfter e (f ∷ fs) = text_ltb f.path e.path ≡ false

-- No entry is followed by one with an earlier path.
abbrev IsOrdered : List Entry → Type 0
IsOrdered [] = Unit
IsOrdered (e ∷ es) = StartsAfter e es × IsOrdered es

insert_by_path-StartsAfter :
    (e f : Entry) (es : List Entry)
    → text_ltb f.path e.path ≡ false
    → StartsAfter e es
    → StartsAfter e (insert_by_path f es)
unfolding insert_by_path
insert_by_path-StartsAfter e f [] h k = h
insert_by_path-StartsAfter e f (g ∷ gs) h k =
    if_cases (StartsAfter e) (text_ltb g.path f.path) (λ _. k) (λ _. h)

insert_by_path-IsOrdered :
    (e : Entry) (es : List Entry) → IsOrdered es → IsOrdered (insert_by_path e es)
unfolding insert_by_path
insert_by_path-IsOrdered e [] h = (tt, tt)
insert_by_path-IsOrdered e (f ∷ fs) (h, hs) =
    if_cases IsOrdered (text_ltb f.path e.path)
      (λ earlier. (
        insert_by_path-StartsAfter f e fs (text_ltb_asym f.path e.path earlier) h,
        insert_by_path-IsOrdered e fs hs,
      ))
      (λ later. (later, (h, hs)))

sort_by_path-IsOrdered : (es : List Entry) → IsOrdered (sort_by_path es)
unfolding sort_by_path
sort_by_path-IsOrdered [] = tt
sort_by_path-IsOrdered (e ∷ es) =
    insert_by_path-IsOrdered e (sort_by_path es) (sort_by_path-IsOrdered es)

insert_by_path_first :
    (e : Entry) (es : List Entry) → StartsAfter e es → insert_by_path e es ≡ e ∷ es
unfolding insert_by_path
insert_by_path_first e [] h = refl
insert_by_path_first e (f ∷ fs) h = rw h refl

sort_by_path_ordered : (es : List Entry) → IsOrdered es → sort_by_path es ≡ es
unfolding sort_by_path
sort_by_path_ordered [] h = refl
sort_by_path_ordered (e ∷ es) (h, hs) =
    ap (insert_by_path e) (sort_by_path_ordered es hs) ∙ insert_by_path_first e es h

-- Sorting twice is sorting once.
pub sort_by_path_idem : (es : List Entry) → sort_by_path (sort_by_path es) ≡ sort_by_path es
sort_by_path_idem es = sort_by_path_ordered (sort_by_path es) (sort_by_path-IsOrdered es)
