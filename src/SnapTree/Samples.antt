-- ===== src/SnapTree/Samples.antt =====
-- Tests of internal/snaptree/snaptree.go, and its theorems at a tree of two directories and a file.
use better_amp_backup.Prelude.{
  ℕ, pos, negsuc, List, [], ◌∷◌, codes, Option, some, none, ◌≡◌, ◌≢◌, refl, map, arith,
}
use better_amp_backup.Paths.{Text, has_prefix}
use better_amp_backup.Repo.Index.{Entry, EntryType, Stream, eof, entry}
use better_amp_backup.SnapTree.{
  Node, Tree, Built, ok, err, too_large, build, read_tree, list, stat, empty_tree,
}
use better_amp_backup.SnapTree.Above.{is_below}
use better_amp_backup.SnapTree.Sums.{bytes_below}
use better_amp_backup.SnapTree.Cache.Bounded.{IsBounded, new_cache-IsBounded}
use better_amp_backup.SnapTree.Cache.{Cache, new_cache, enter, start, entered}

abbrev item : Text → EntryType → ℕ → Entry
item path kind size = record {
  path = path;
  kind = kind;
  mode = 420;
  uid = 0;
  gid = 0;
  size = size;
  mod_time = 0;
  inode = 0;
  hash = 9 ∷ [];
  target = [];
}

-- The directory "world" is invented.
abbrev stream : Stream
stream = entry (item (codes "b.txt") EntryType.file 2) (
    entry (item (codes "world/region") EntryType.dir 0)
      (entry (item (codes "world/region/r.mca") EntryType.file 7) eof))

abbrev tree_of : Built Tree → Tree
tree_of (ok t) = t
tree_of (err e) = empty_tree

abbrev read : Tree
read = tree_of (read_tree 0 stream empty_tree)

abbrev sub_bytes_of : Option Node → ℕ
sub_bytes_of none = 0
sub_bytes_of (some n) = n.sub_bytes

build_sums : sub_bytes_of (stat (codes "/world/") (tree_of (build 0 stream))) ≡ 7
unfolding build stat
build_sums = refl

abbrev names_of : Option (List Node × ℕ) → List Text
names_of none = []
names_of (some (ns, total)) = map (λ n. n.name) ns

build_sorts :
    names_of (list [] (pos 0) (pos 5) (tree_of (build 0 stream)))
    ≡ codes "world" ∷ codes "b.txt" ∷ []
unfolding build list
build_sorts = refl

list_pages : names_of (list [] (pos 1) (pos 1) (tree_of (build 0 stream))) ≡ codes "b.txt" ∷ []
unfolding build list
list_pages = refl

build_limit : build 2 stream ≡ err too_large
unfolding build
build_limit = refl

-- The directory "world", before the sums.
abbrev world_node : Node
world_node = record {
  name = codes "world";
  path = codes "world";
  kind = EntryType.dir;
  size = 0;
  mod_time = 0;
  target = [];
  children = 0;
  sub_bytes = 0;
}

below_world : bytes_below (codes "world") read.by_path ≡ 7
unfolding read_tree is_below has_prefix
below_world = refl

two_ne : codes "two" ≢ []
two_ne q = ground arith

one_ne : codes "one" ≢ []
one_ne q = ground arith

abbrev asked_twice : Cache
asked_twice = enter 5 (codes "two") (enter 3 (codes "one") (new_cache (pos 1) (pos 60) (negsuc 0)))

new_cache-IsBounded_example : IsBounded asked_twice
new_cache-IsBounded_example =
    new_cache-IsBounded (pos 1) (pos 60) (negsuc 0) asked_twice
      (entered _ 5 (codes "two") two_ne (entered _ 3 (codes "one") one_ne start))
