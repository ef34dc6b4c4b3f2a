-- ===== src/Restore/Selection.antt =====
-- The selection of paths of a restore (internal/restore/paths.go). The two sets of the struct are
-- lists.
pub mod Ancestors
mod Lookup
mod Kept
mod Missed
mod Sorted
mod Found
mod Samples
use better_amp_backup.Prelude.{
  ℕ, zero, suc, ◌+◌, Bool, true, false, ◌&&◌, ◌||◌, not, ◌==◌, ltb, leb, if◌then◌else◌, List, [],
  ◌∷◌, ◌++◌, length, reverse, any, get_elem?, ◌-◌, Option, none, some, list_eq, map,
}
use better_amp_backup.Paths.{Text, slash, dot, dot_dot, split, has_prefix, clean, is_rooted}
use better_amp_backup.Repo.Index.{Entry, EntryType, has_dot_dot}
use better_amp_backup.Repo.Snapshots.{text_ltb}

pub record Selection : Type 0 where
  pub paths : List Text
  pub dirs : List Text
  pub matched : List Text

pub data SelectionError : Type 0 where
  empty_path absolute_path not_canonical escapes_root : SelectionError

pub data Checked {ℓ} (A : Type ℓ) : Type ℓ where
  ok : A → Checked A
  err : SelectionError → Checked A

-- unicode.IsSpace
abbrev is_space : ℕ → Bool
is_space c =
    (leb 9 c && leb c 13)
    || c == 32
    || c == 133
    || c == 160
    || c == 5760
    || (leb 8192 c && leb c 8202)
    || c == 8232
    || c == 8233
    || c == 8239
    || c == 8287
    || c == 12288

abbrev trim_left : Text → Text
trim_left [] = []
trim_left (c ∷ cs) = let rest = trim_left cs in if is_space c then rest else c ∷ cs

-- strings.TrimSpace
pub trim_space : Text → Text
trim_space p = reverse (trim_left (reverse (trim_left p)))

unfoldable pub check_path : Text → Checked Text
unfolding clean has_dot_dot split
check_path p =
    if list_eq p []
    then err empty_path
    else if is_rooted p
    then err absolute_path
    else if not (list_eq p (clean p))
    then err not_canonical
    else if has_dot_dot (split p)
    then err escapes_root
    else ok p

-- `canonicalSelectionPath`
pub canonical_selection_path : Text → Checked Text
unfolding trim_space check_path
canonical_selection_path p = check_path (trim_space p)

abbrev pub and_then : {A B : Type 0} → Checked A → (A → Checked B) → Checked B
and_then (ok a) f = f a
and_then (err e) f = err e

-- the first loop of `newSelection`
pub clean_all : List Text → Checked (List Text)
unfolding canonical_selection_path
clean_all [] = ok []
clean_all (p ∷ ps) =
    and_then (canonical_selection_path p) (λ c. and_then (clean_all ps) (λ cs. ok (c ∷ cs)))

pub insert_string : Text → List Text → List Text
unfolding text_ltb
insert_string p [] = p ∷ []
insert_string p (q ∷ qs) = if text_ltb q p then q ∷ insert_string p qs else p ∷ q ∷ qs

-- sort.Strings
pub sort_strings : List Text → List Text
unfolding insert_string
sort_strings [] = []
sort_strings (p ∷ ps) = insert_string p (sort_strings ps)

-- slices.Compact, behind the element that was kept last
pub compact_from : Text → List Text → List Text
compact_from last [] = []
compact_from last (p ∷ ps) = if list_eq p last then compact_from last ps else p ∷ compact_from p ps

pub compact : List Text → List Text
unfolding compact_from
compact [] = []
compact (p ∷ ps) = p ∷ compact_from p ps

abbrev pub below : Text → Text
below p = p ++ slash ∷ []

-- the loop that collapses, behind the selection that was kept last
pub collapse_from : Text → List Text → List Text
unfolding has_prefix
collapse_from last [] = []
collapse_from last (p ∷ ps) =
    if has_prefix p (below last) then collapse_from last ps else p ∷ collapse_from p ps

pub collapse : List Text → List Text
unfolding collapse_from
collapse [] = []
collapse (p ∷ ps) = p ∷ collapse_from p ps

-- what is behind the last slash goes, of the text in reverse
abbrev pub drop_base : Text → Text
drop_base [] = []
drop_base (c ∷ cs) = if c == slash then c ∷ cs else drop_base cs

-- path.Dir
unfoldable pub path_dir : Text → Text
unfolding clean
path_dir p = clean (reverse (drop_base (reverse p)))

-- the loop over the ancestors; `Ancestors` shows that the length of the path is enough fuel
pub ancestors : ℕ → Text → List Text
unfolding path_dir
ancestors zero dir = []
ancestors (suc fuel) dir =
    let rest = ancestors fuel (path_dir dir) in
    if list_eq dir dot || list_eq dir (slash ∷ []) then [] else dir ∷ rest

pub ancestors_of : Text → List Text
unfolding ancestors
ancestors_of p = ancestors (length p) (path_dir p)

pub all_ancestors : List Text → List Text
unfolding ancestors_of
all_ancestors [] = []
all_ancestors (p ∷ ps) = ancestors_of p ++ all_ancestors ps

-- the selection of paths that have been checked
pub select : List Text → Selection
unfolding sort_strings compact collapse all_ancestors
select cleaned =
    let paths = collapse (compact (sort_strings cleaned)) in
    record { paths = paths; dirs = all_ancestors paths; matched = [] }

-- `newSelection`; a selection of nothing is nil
unfoldable pub new_selection : List Text → Checked (Option Selection)
unfolding clean_all select
new_selection [] = ok none
new_selection (p ∷ ps) = and_then (clean_all (p ∷ ps)) (λ cleaned. ok (some (select cleaned)))

-- sort.SearchStrings: the index of the first element that is not less
pub search_strings : List Text → Text → ℕ
unfolding text_ltb
search_strings [] x = 0
search_strings (p ∷ ps) x = if text_ltb p x then suc (search_strings ps x) else 0

abbrev pub is_equal : Text → Option Text → Bool
is_equal x none = false
is_equal x (some p) = list_eq p x

-- `i > 0`, and the element before is a parent
abbrev pub parent_before : List Text → Text → ℕ → Option Text
parent_before paths x zero = none
parent_before paths x (suc i) = elim (get_elem? paths i) [
  | none ↦ none
  | some p ↦ if has_prefix x (below p) then some p else none
]

abbrev pub member : Text → List Text → Bool
member x xs = any (λ y. list_eq y x) xs

abbrev pub is_dir : EntryType → Bool
is_dir EntryType.dir = true
is_dir t = false

abbrev pub matching : Text → Selection → Selection
matching p s = record s { matched = p ∷ s.matched }

-- the last two tests of `keep`
abbrev pub keep_below : Selection → Entry → Option Text → Bool × Selection
keep_below s e (some parent) = (true, matching parent s)
keep_below s e none = (is_dir e.kind && member e.path s.dirs, s)

-- `keep`: its answer and the selection after it
unfoldable pub keep : Selection → Entry → Bool × Selection
unfolding search_strings has_prefix
keep s e =
    let i = search_strings s.paths e.path in
    if is_equal e.path (get_elem? s.paths i)
    then (true, matching e.path s)
    else keep_below s e (parent_before s.paths e.path i)

-- `unmatched`
unfoldable pub unmatched : Selection → List Text
unmatched s = unmatched_in s.matched s.paths
  where
    unmatched_in : List Text → List Text → List Text
    unmatched_in matched [] = []
    unmatched_in matched (p ∷ ps) =
        let rest = unmatched_in matched ps in if member p matched then rest else p ∷ rest
