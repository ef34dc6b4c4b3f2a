-- ===== src/Lib.antt =====
-- Verification of better-amp-backup: incremental, deduplicating backups of AMP instances.
--
-- The program keeps snapshots (a manifest and an index each) and content-addressed objects in a
-- repository. A backup quiesces the game server, writes objects and commits a snapshot; a retention
-- policy forgets snapshots, and a prune deletes the objects that no snapshot needs. A daemon runs
-- these as jobs, one at a time.
--
-- Files:
--   Prelude         shared notation, Boolean tests, lists over the native numbers, signed integers
--   Clock           instants, durations and the civil calendar, from Go's `time` package
--   Paths           `strings.Split`, `strings.HasSuffix` and Go's package `path` on code points
--   Repo.Manifest   internal/repo/manifest.go and the addresses of internal/hash/hash.go
--   Repo.Retention  internal/repo/retention.go: `Validate`, `Apply`, `Split`
--   Repo.Index      internal/repo/index.go: entries, `Entry.Validate`, the reader as a stream
--   Repo.Disk       what the repository's directory holds, as explicit state, and injected faults
--   Repo.Snapshots  internal/repo/repo.go: `LoadManifest`, `ListSnapshots`, `OpenIndex`, `LatestFor`
--   Repo.Lock       internal/repo/repo.go: `lock`, `LockWrite`, `LockGC`
--   Repo.Trash      internal/repo/gc.go: `Forget`, `Unforget`, `emptyTrash`, `listTrashedIDs`
--   Repo.Writer     internal/repo/snapshotwriter.go and the writer of internal/repo/index.go
--   Repo.Gc         internal/repo/gc.go: `Prune`; `List` and `Delete` of internal/repo/objectfs.go
--   Repo.Stored     internal/repo/object.go, `writeObject` and `Open` of internal/repo/objectfs.go, and the
--                   choice of internal/compress/compress.go
--   Scan            internal/scan/scan.go: items, `Unchanged`, `Split`
--   Backup          internal/backup/backup.go: `storeFile`, `process`, `loadParentIndex`, `checkSpace`,
--                   and `Put` of internal/repo/objectfs.go; Backup.Run is `Run`,
--                   Backup.Refines its repository as a map from ids to snapshots
--   Life            backups, `Forget` and `Prune` as steps that follow one another in any order
--   Restore.Selection  internal/restore/paths.go: `newSelection`, `keep`, `unmatched`
--   Restore.Calls   internal/restore/restore.go: the data, and the calls of a restore as steps
--   Restore.Files   its directories, links, files and times: `writeFile`, `writeSymlink`, `applyTimes`
--   Restore.Run     its `Run` and `collect`; Restore.Run.Saved a restore of what a run has saved
--   SnapTree        internal/snaptree/snaptree.go: `Build`, `List`, `Stat`; SnapTree.Cache its cache
--   Jobs            internal/jobs/jobs.go: the data; Jobs.Feed its event ring and watchers, Jobs.Runner
--                   the job slot, Jobs.Handle the other calls and internal/jobs/handle.go
--   Quiesce         internal/quiesce/console.go: `Quiesce`, `Release` and the watchdog
--   Schedule        internal/schedule/schedule.go: `recompute`, `nextHousekeeping`, `untilNext`, `fireDue`, `fire`
--                   as far as its submission
--
-- A method of the repository is a function from the disk to its result and the disk after it. Each
-- call that can fail takes one element off `faults`, a list that the theorems quantify over, so an
-- error may stop a method at any of its calls. Loops run over lists. On fuel are the loop over
-- `path.Dir` in Restore.Selection, which gets the length of the path, shown to be enough, the loops
-- over the parents of a path in SnapTree, which get its length too and take a character off in each
-- round, and the eviction of SnapTree.Cache, which drops an entry in each round and gets their
-- number.
--
-- A run of a backup gets what its environment answers as its input: what the walk found, for each
-- path and each round what was read and what the stat behind it found, whether the quiescer's calls
-- fail. Its theorems quantify over the input, so they cover every order in which files change or
-- vanish. The loop over a file's rounds has at most three, as the constant of the source says.
--
-- A restore is modelled by the calls of package `os` that it makes, in order, each with an answer
-- that the environment chooses. What a call does to a file system is not modelled, so a link that
-- stands in the target already is not followed.
--
-- A critical section of the job runner is a function on its state, and what the goroutines do is
-- a sequence of such steps.
--
-- Times are nanoseconds on one scale, for `Now` and for a file's time alike. Sizes are natural
-- numbers: the sums of `checkSpace` and of the totals of SnapTree do not wrap where the source adds
-- int64, and the wait of `fire` lasts exactly as long as it is told to.
--
-- Not modelled: the walk of the file system, JSON and the zstd library (an index is a stream of decoded entries that may break off, a
-- manifest file a value or text that does not parse), waiting for a lock,
-- an `os.Stat` of `NewSnapshotWriter` that fails for another reason than that the manifest is not
-- there (the source goes on as if it were absent), HTTP and the AMP service,
-- the command line and the web pages.
pub mod Prelude
pub mod Clock
pub mod Repo
pub mod Paths
pub mod Restore
pub mod Jobs
pub mod Quiesce
pub mod Schedule
pub mod Scan
pub mod Backup
pub mod Life
pub mod SnapTree
