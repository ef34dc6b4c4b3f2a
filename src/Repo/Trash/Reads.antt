-- ===== src/Repo/Trash/Reads.antt =====
-- Listing the trash (internal/repo/gc.go) changes no file.
use better_amp_backup.Repo.Disk.Keeps.{Keeps, SameFiles, SameFiles-preorder, keeps_rules}
use better_amp_backup.Repo.Trash.{list_trashed_ids}

pub Keeps-list_trashed_ids : Keeps SameFiles list_trashed_ids
unfolding list_trashed_ids
Keeps-list_trashed_ids = search keeps_rules
