-- ===== src/Repo/Index/Samples.antt =====
-- Tests of `Entry.Validate` (internal/repo/index.go), and its theorem at a concrete entry.
use better_amp_backup.Prelude.{[], ◌∷◌, none, some, codes, ◌≡◌, refl}
use better_amp_backup.Paths.{Text}
use better_amp_backup.Repo.Index.{Entry, EntryType, not_canonical, escapes_root, validate}
use better_amp_backup.Repo.Index.Inside.{IsInside, validate-IsInside}

abbrev entry_at : Text → Entry
entry_at path = record {
  path = path;
  kind = EntryType.file;
  mode = 420;
  uid = 0;
  gid = 0;
  size = 5;
  mod_time = 0;
  inode = 0;
  hash = 1 ∷ [];
  target = [];
}

accepts : validate (entry_at (codes "world/level.dat")) ≡ none
unfolding validate
accepts = refl

refuses_escape : validate (entry_at (codes "../level.dat")) ≡ some escapes_root
unfolding validate
refuses_escape = refl

refuses_detour : validate (entry_at (codes "world/../level.dat")) ≡ some not_canonical
unfolding validate
refuses_detour = refl

validate-IsInside_example : IsInside (codes "world/level.dat")
validate-IsInside_example = validate-IsInside (entry_at (codes "world/level.dat")) accepts
