-- ===== src/SnapTree.antt =====
-- A snapshot's directory tree for a file browser (internal/snaptree/snaptree.go). The maps are
-- association lists, an entry under a key replaced in place; where the source ranges over a map,
-- the model goes through the list, and no theorem depends on the order.
pub mod Cache
mod Above
mod Maps
mod Sums
mod Samples
use better_amp_backup.Prelude.{
  ℕ, zero, suc, ◌+◌, ◌-◌, ℤ, pos, negsuc, Bool, true, false, ◌&&◌, ◌||◌, not, ◌==◌, ltb, leb,
  if◌then◌else◌, List, [], ◌∷◌, ◌++◌, length, reverse, take, drop, list_eq, Option, none, some,
}
use better_amp_backup.Paths.{Text, slash, dot}
use better_amp_backup.Repo.Index.{Entry, EntryType, EntryError, Stream, eof, broken, entry}
use better_amp_backup.Repo.Index
use better_amp_backup.Repo.Snapshots.{text_ltb}

pub record Node : Type 0 where
  pub name : Text
  pub path : Text
  pub kind : EntryType
  pub size : ℕ
  pub mod_time : ℕ
  pub target : Text
  pub children : ℕ
  pub sub_bytes : ℕ

pub record Tree : Type 0 where
  pub children : List (Text × List Node)
  pub by_path : List (Text × Node)
  pub entries : ℕ
  pub bytes : ℕ

module _ {A : Type 0} where
  abbrev pub lookup : Text → List (Text × A) → Option A
  lookup key [] = none
  lookup key ((k, a) ∷ m) = if list_eq k key then some a else lookup key m

  abbrev pub store : Text → A → List (Text × A) → List (Text × A)
  store key a [] = (key, a) ∷ []
  store key a ((k, b) ∷ m) =
      let rest = store key a m in if list_eq k key then (k, a) ∷ m else (k, b) ∷ rest

  abbrev or_else : A → Option A → A
  or_else a none = a
  or_else a (some b) = b

-- `Node.IsDir`
abbrev pub is_dir : EntryType → Bool
is_dir EntryType.dir = true
is_dir t = false

-- the text in reverse, from its first slash on, without it
abbrev pub cut : Text → Text
cut [] = []
cut (c ∷ cs) = if c == slash then cs else cut cs

-- `parentOf`
unfoldable pub parent_of : Text → Text
parent_of p = reverse (cut (reverse p))

abbrev trim_slashes : Text → Text
trim_slashes [] = []
trim_slashes (c ∷ cs) = let rest = trim_slashes cs in if c == slash then rest else c ∷ cs

-- `normalise`, with `strings.Trim(p, "/")`
pub normalise : Text → Text
normalise p =
    let trimmed = reverse (trim_slashes (reverse (trim_slashes p))) in
    if list_eq trimmed dot then [] else trimmed

abbrev until_slash : Text → Text
until_slash [] = []
until_slash (c ∷ cs) = let rest = until_slash cs in if c == slash then [] else c ∷ rest

-- `path.Base`
pub base : Text → Text
base [] = dot
base (c ∷ cs) = elim (trim_slashes (reverse (c ∷ cs))) [
  | [] ↦ slash ∷ []
  | d ∷ ds ↦ reverse (until_slash (d ∷ ds))
]

abbrev pub kids : Text → Tree → List Node
kids dir t = or_else [] (lookup dir t.children)

abbrev pub has : {A : Type 0} → Option A → Bool
has none = false
has (some a) = true

abbrev pub append_kid : Text → Node → Tree → Tree
append_kid dir node t = record t { children = store dir (kids dir t ++ node ∷ []) t.children }

abbrev pub open_dir : Text → Tree → Tree
open_dir dir t =
    if has (lookup dir t.children) then t else record t { children = store dir [] t.children }

abbrev dir_node : Text → Node
dir_node dir = record {
  name = base dir;
  path = dir;
  kind = EntryType.dir;
  size = 0;
  mod_time = 0;
  target = [];
  children = 0;
  sub_bytes = 0;
}

-- `if _, ok := t.byPath[dir]; !ok`
abbrev name_dir : Text → Tree → Tree
name_dir dir t =
    if has (lookup dir t.by_path)
    then t
    else append_kid (parent_of dir) (dir_node dir)
        (record t { by_path = store dir (dir_node dir) t.by_path })

-- the loop of `ensureDir`; a parent is shorter, so the length of the path is enough fuel
pub ensure_dir : ℕ → Text → Tree → Tree
unfolding parent_of base
ensure_dir zero dir t = t
ensure_dir (suc fuel) dir t =
    let up = ensure_dir fuel (parent_of dir) (name_dir dir (open_dir dir t)) in
    if list_eq dir [] || has (lookup dir t.children) then t else up

abbrev pub node_of : Entry → Node
node_of e = record {
  name = base e.path;
  path = e.path;
  kind = e.kind;
  size = e.size;
  mod_time = e.mod_time;
  target = e.target;
  children = 0;
  sub_bytes = 0;
}

abbrev pub is_file : EntryType → Bool
is_file EntryType.file = true
is_file t = false

abbrev counted : Entry → Tree → Tree
counted e t = record t {
  entries = t.entries + 1;
  bytes = t.bytes + (if is_file e.kind then e.size else 0);
  by_path = store e.path (node_of e) t.by_path;
}

-- `add`
pub add : Entry → Tree → Tree
unfolding parent_of ensure_dir base
add e t =
    let parent = parent_of e.path in
    let t' = append_kid parent (node_of e) (ensure_dir (length parent) parent (counted e t)) in
    if is_dir e.kind then open_dir e.path t' else t'

-- `agg.Children++` and `agg.SubBytes += node.Size`, of natural numbers, which do not wrap
abbrev pub bump_node : ℕ → Node → Node
bump_node size agg = record agg { children = agg.children + 1; sub_bytes = agg.sub_bytes + size }

abbrev pub bump : Text → ℕ → List (Text × Node) → List (Text × Node)
bump dir size [] = []
bump dir size ((k, agg) ∷ totals) =
    let rest = bump dir size totals in
    if list_eq k dir then (k, bump_node size agg) ∷ totals else (k, agg) ∷ rest

-- the loop over the chain of parents, which ends behind the root
pub parents : ℕ → Text → List Text
unfolding parent_of
parents zero dir = dir ∷ []
parents (suc fuel) dir =
    let up = parents fuel (parent_of dir) in if list_eq dir [] then dir ∷ [] else dir ∷ up

pub bump_all : List Text → ℕ → List (Text × Node) → List (Text × Node)
bump_all [] size totals = totals
bump_all (dir ∷ dirs) size totals = bump_all dirs size (bump dir size totals)

pub dirs_of : List (Text × Node) → List (Text × Node)
dirs_of [] = []
dirs_of ((p, node) ∷ m) =
    let rest = dirs_of m in if is_dir node.kind then (p, node) ∷ rest else rest

-- the directories above a node
pub above : Text → List Text
unfolding parents parent_of
above p = parents (length p) (parent_of p)

-- the second loop of `rollUp`
pub add_up : List (Text × Node) → List (Text × Node) → List (Text × Node)
unfolding bump_all above
add_up [] totals = totals
add_up ((p, node) ∷ m) totals =
    let next = add_up m (bump_all (above p) node.size totals) in
    let same = add_up m totals in if is_dir node.kind then same else next

-- `totals`, at the end of the second loop
pub totals_of : Tree → List (Text × Node)
unfolding dirs_of add_up
totals_of t = add_up t.by_path (dirs_of t.by_path)

abbrev replace_kid : Node → List Node → List Node
replace_kid agg [] = []
replace_kid agg (n ∷ ns) =
    let rest = replace_kid agg ns in if list_eq n.path agg.path then agg ∷ rest else n ∷ rest

-- the last loop of `rollUp`
pub write_back : List (Text × Node) → Tree → Tree
unfolding parent_of
write_back [] t = t
write_back ((p, agg) ∷ totals) t = write_back totals (record t {
  by_path = store p agg t.by_path;
  children =
      if has (lookup (parent_of p) t.children)
      then store (parent_of p) (replace_kid agg (kids (parent_of p) t)) t.children
      else t.children;
})

-- `rollUp`
pub roll_up : Tree → Tree
unfolding totals_of write_back
roll_up t = write_back (totals_of t) t

-- the comparison of `sort`
abbrev node_before : Node → Node → Bool
node_before a b =
    if is_dir a.kind && not (is_dir b.kind)
    then true
    else if is_dir b.kind && not (is_dir a.kind)
    then false
    else text_ltb a.name b.name

insert_node : Node → List Node → List Node
unfolding text_ltb
insert_node n [] = n ∷ []
insert_node n (m ∷ ms) = if node_before m n then m ∷ insert_node n ms else n ∷ m ∷ ms

sort_nodes : List Node → List Node
unfolding insert_node
sort_nodes [] = []
sort_nodes (n ∷ ns) = insert_node n (sort_nodes ns)

-- `sort`
pub sort_children : List (Text × List Node) → List (Text × List Node)
unfolding sort_nodes
sort_children [] = []
sort_children ((dir, ns) ∷ m) = (dir, sort_nodes ns) ∷ sort_children m

pub data BuildError : Type 0 where
  too_large bad_index : BuildError
  bad_entry : EntryError → BuildError

pub data Built {ℓ} (A : Type ℓ) : Type ℓ where
  ok : A → Built A
  err : BuildError → Built A

abbrev at_limit : ℕ → Tree → Bool
at_limit max_entries t = not (max_entries == 0) && leb max_entries t.entries

abbrev add_valid : Bool → Option EntryError → Built Tree → Built Tree
add_valid full (some x) more = err (bad_entry x)
add_valid true none more = err too_large
add_valid false none more = more

-- the loop of `Build`, over an index that was opened
unfoldable pub read_tree : ℕ → Stream → Tree → Built Tree
unfolding add Index.validate
read_tree max_entries eof t = ok t
read_tree max_entries broken t = err bad_index
read_tree max_entries (entry e s) t =
    add_valid (at_limit max_entries t) (Index.validate e) (read_tree max_entries s (add e t))

abbrev pub empty_tree : Tree
empty_tree = record { children = ([], []) ∷ []; by_path = []; entries = 0; bytes = 0 }

abbrev finished : Built Tree → Built Tree
finished (err e) = err e
finished (ok t) =
    let rolled = roll_up t in ok (record rolled { children = sort_children rolled.children })

-- `Build`, behind `OpenIndex`
unfoldable pub build : ℕ → Stream → Built Tree
unfolding read_tree roll_up sort_children
build max_entries s = finished (read_tree max_entries s empty_tree)

-- the page of `List`; an offset below zero is zero, and a limit of zero or less is none
abbrev clamp : ℤ → ℕ
clamp (pos n) = n
clamp (negsuc n) = 0

unfoldable pub page : List Node → ℤ → ℤ → List Node
page ns offset limit =
    let start = clamp offset in
    if leb (length ns) start
    then []
    else if ltb 0 (clamp limit) && ltb (start + clamp limit) (length ns)
    then take (clamp limit) (drop start ns)
    else drop start ns

-- `List`: a page and the number of children
pub list : Text → ℤ → ℤ → Tree → Option (List Node × ℕ)
unfolding page normalise
list dir offset limit t = elim (lookup (normalise dir) t.children) [
  | none ↦ none
  | some ns ↦ some (page ns offset limit, length ns)
]

-- `Stat`
pub stat : Text → Tree → Option Node
unfolding normalise
stat p t = lookup (normalise p) t.by_path
