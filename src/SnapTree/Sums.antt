-- ===== src/SnapTree/Sums.antt =====
-- What `rollUp` of internal/snaptree/snaptree.go adds up for a directory.
use better_amp_backup.Prelude.{ℕ, ◌+◌, true, if◌then◌else◌, List, [], ◌∷◌, Option, none, some, ◌≡◌}
use better_amp_backup.Paths.{Text}
use better_amp_backup.SnapTree.{Node, lookup, has, is_dir}
use better_amp_backup.SnapTree.Above.{is_below}

-- What the totals say of a directory.
abbrev pub sub_bytes_in : Option Node → ℕ
sub_bytes_in none = 0
sub_bytes_in (some node) = node.sub_bytes

abbrev pub total_at : Text → List (Text × Node) → ℕ
total_at dir totals = sub_bytes_in (lookup dir totals)

-- The sizes of the nodes below the directory that are no directories.
abbrev pub bytes_below : Text → List (Text × Node) → ℕ
bytes_below dir [] = 0
bytes_below dir ((p, node) ∷ m) =
    (if is_dir node.kind then 0 else if is_below dir p then node.size else 0) + bytes_below dir m

-- One step of the sum, and a directory of the totals stays one.
record Bumps (dir : Text) (more : ℕ) (totals totals' : List (Text × Node)) : Type 0 where
  adds : total_at dir totals' ≡ total_at dir totals + more
  stays : has (lookup dir totals') ≡ true
