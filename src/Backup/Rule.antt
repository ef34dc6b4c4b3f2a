-- ===== src/Backup/Rule.antt =====
-- A rule for the loop of `storeFile` (internal/backup/backup.go): what its rounds have, it has.
use better_amp_backup.Prelude.{ℕ, zero, suc, Bool, true, if_cases, list_eq_self, ◌≡◌, arith}
use better_amp_backup.Repo.Index.{Entry}
use better_amp_backup.Repo.Disk.{Disk}
use better_amp_backup.Repo.Gc.{has_hash}
use better_amp_backup.Scan.{Item}
use better_amp_backup.Backup.{
  Env, Attempt, failed, stored, Read, lstat, lstat_failed, Runner, Stored, err, FileError,
  PutResult, put, has_object, finish, on_attempt, read_file, count_reread, is_stable,
}

abbrev pub after_put : Read → Runner → Runner
after_put rd r = record r { repo = (put rd r.repo).1 }

-- `P r x` speaks of the runner before and of what comes out.
pub record IsRoundRule (P : Runner → Stored Entry × Runner → Type 0) : Type 0 where
  pub on_failed : (r : Runner) (e : FileError) → P r (err e, r)
  pub on_put : (r : Runner) (rd : Read) (x : Stored Entry × Runner) → P (after_put rd r) x → P r x
  pub on_reread : (r : Runner) (x : Stored Entry × Runner) → P (count_reread r) x → P r x
  pub on_finish :
      (env : Env) (it : Item) (stable : Bool) (res : PutResult) (r : Runner)
      → has_object res.hash r.repo.objects ≡ true
      → P r (finish env it stable res r)

-- What was put is there.
put-has_object : (rd : Read) (d : Disk) → has_object (put rd d).0.hash (put rd d).1.objects ≡ true
unfolding put has_object has_hash
put-has_object rd d = ground (arith, list_eq_self rd.hash)

module _ (P : Runner → Stored Entry × Runner → Type 0) (rule : IsRoundRule P) where
  on_attempt_rule :
      (a : Attempt) (r : Runner) (k : PutResult → ℕ → ℕ → Runner → Stored Entry × Runner)
      → ((res : PutResult) (size mod_time : ℕ) (r' : Runner)
          → has_object res.hash r'.repo.objects ≡ true
          → P r' (k res size mod_time r'))
      → P r (on_attempt a r k)
  unfolding on_attempt
  on_attempt_rule (failed e) r k h = rule.on_failed r e
  on_attempt_rule (stored rd (lstat_failed e)) r k h =
      rule.on_put r rd _ (rule.on_failed (after_put rd r) e)
  on_attempt_rule (stored rd (lstat size mod_time)) r k h =
      rule.on_put r rd _ (h _ size mod_time (after_put rd r) (put-has_object rd r.repo))

  pub read_file_rule :
      (env : Env) (left n : ℕ) (it : Item) (r : Runner) → P r (read_file env left n it r)
  unfolding read_file
  read_file_rule env zero n it r =
      on_attempt_rule (env.attempt it.path n) r _ (λ res size mod_time r' there.
        rule.on_finish env it (is_stable it size mod_time) res r' there)
  read_file_rule env (suc left) n it r =
      on_attempt_rule (env.attempt it.path n) r _ (λ res size mod_time r' there.
        if_cases (P r') (is_stable it size mod_time) (λ _. rule.on_finish env it true res r' there)
          (λ _. rule.on_reread r' _ (
            read_file_rule env left (suc n) (record it { size = size; mod_time = mod_time })
              (count_reread r'))))
