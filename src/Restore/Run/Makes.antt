-- ===== src/Restore/Run/Makes.antt =====
-- Which calls on the file system a step of a restore (internal/restore/restore.go) makes.
use better_amp_backup.Prelude.{
  Bool, true, false, if◌then◌else◌, List, [], ◌∷◌, ◌++◌, append-nil, append_assoc, All, Option,
  none, some, ◌≡◌, refl, sym, ap, ◌∙◌,
}
use better_amp_backup.Paths.{Text}
use better_amp_backup.Paths.Segments.{All-append}
use better_amp_backup.Repo.Disk.{Action}
use better_amp_backup.Restore.Calls.{
  Call, remove_temp, State, Outcome, ok, err, RestoreError, Answer, done, missing, refused,
  broken_down, Step, return, raise, or_raise, lift, continue, ◌>>=◌, call, must, unless_done, check,
  guard, first, rest, os_failed,
}
use better_amp_backup.Restore.Files.{or_clean_up, after_error}

-- The calls that were added, each of which has `P`.
pub record Adds (P : Call → Type 0) (s s' : State) : Type 0 where
  pub new : List Call
  pub calls : s'.calls ≡ s.calls ++ new
  pub each : All P new

pub record Makes {A : Type 0} (P : Call → Type 0) (m : Step A) : Type 0 where
  pub at : (s : State) → Adds P s (m s).1

module _ (P : Call → Type 0) where
  pub Adds-none : (s s' : State) → s'.calls ≡ s.calls → Adds P s s'
  Adds-none s s' q = record { new = []; calls = q ∙ sym (append-nil s.calls); each = tt }

  pub Adds-both : (s s' s'' : State) → Adds P s s' → Adds P s' s'' → Adds P s s''
  Adds-both s s' s'' h k = record {
    new = h.new ++ k.new;
    calls = k.calls ∙ ap (λ c. c ++ k.new) h.calls ∙ append_assoc s.calls h.new k.new;
    each = All-append P h.new k.new h.each k.each;
  }

  pub Makes-call : (c : Call) → P c → Makes P (call c)
  unfolding call
  Makes-call c p = record { at = λ s. record { new = c ∷ []; calls = refl; each = (p, tt) } }

module _ {A : Type 0} {P : Call → Type 0} where
  pub Makes-return : (a : A) → Makes P (return a)
  Makes-return a = record { at = λ s. Adds-none P s s refl }

  pub Makes-raise : (e : RestoreError) → Makes P (raise {A = A} e)
  Makes-raise e = record { at = λ s. Adds-none P s s refl }

  pub Makes-or_raise : (e : RestoreError) (o : Option A) → Makes P (or_raise e o)
  Makes-or_raise e none = Makes-raise e
  Makes-or_raise e (some a) = Makes-return a

  pub Makes-lift : (m : Action A) → Makes P (lift m)
  unfolding lift
  Makes-lift m = record { at = λ s. Adds-none P s (lift m s).1 refl }

  pub Makes-if : (b : Bool) (m n : Step A) → Makes P m → Makes P n → Makes P (if b then m else n)
  Makes-if true m n h k = h
  Makes-if false m n h k = k

  pub Makes-or_clean_up :
      (dst : Text) (m : Step A) → P (remove_temp dst) → Makes P m → Makes P (or_clean_up dst m)
  Makes-or_clean_up dst m p h = record { at = λ s. go s (m s).0 (m s).1 (h.at s) }
    where
      go :
          (s : State) (o : Outcome A) (s' : State)
          → Adds P s s'
          → Adds P s (after_error dst (o, s')).1
      go s (ok a) s' k = k
      go s (err e) s' k =
          let cleaned = record s' {
            answers = rest s'.answers;
            calls = s'.calls ++ remove_temp dst ∷ [];
          } in
          Adds-both P s s' cleaned k
            (record { new = remove_temp dst ∷ []; calls = refl; each = (p, tt) })

module _ {A B : Type 0} {P : Call → Type 0} where
  -- A step that may count on what the first one returned.
  pub Makes-bind_known :
      (m : Step A) (f : A → Step B)
      → Makes P m
      → ((a : A) (s s' : State) → m s ≡ (ok a, s') → Makes P (f a))
      → Makes P (m >>= f)
  unfolding ◌>>=◌
  Makes-bind_known m f h k = record { at = λ s. go s (m s).0 (m s).1 refl (h.at s) }
    where
      go :
          (s : State) (o : Outcome A) (s' : State)
          → m s ≡ (o, s')
          → Adds P s s'
          → Adds P s (continue o f s').1
      go s (ok a) s' q j = let next = k a s s' q in Adds-both P s s' (f a s').1 j (next.at s')
      go s (err e) s' q j = j

  pub Makes-bind :
      (m : Step A) (f : A → Step B) → Makes P m → ((a : A) → Makes P (f a)) → Makes P (m >>= f)
  Makes-bind m f h k = Makes-bind_known m f h (λ a s s' q. k a)

module _ {P : Call → Type 0} where
  Makes-unless_done : (e : RestoreError) (a : Answer) → Makes P (unless_done e a)
  Makes-unless_done e done = Makes-return tt
  Makes-unless_done e missing = Makes-raise e
  Makes-unless_done e refused = Makes-raise e
  Makes-unless_done e broken_down = Makes-raise e

  pub Makes-must : (c : Call) → P c → Makes P (must c)
  unfolding must
  Makes-must c p = Makes-bind (call c) _ (Makes-call P c p) (λ a. Makes-unless_done os_failed a)

  pub Makes-check : (e : RestoreError) → Makes P (check e)
  unfolding check
  Makes-check e = record {
    at = λ s.
        let answered = record s { answers = rest s.answers } in
        let m = Makes-unless_done e (first s.answers) in
        let h = m.at answered in record { new = h.new; calls = h.calls; each = h.each };
  }

  pub Makes-guard : (b : Bool) (e : RestoreError) → Makes P (guard b e)
  Makes-guard true e = Makes-return tt
  Makes-guard false e = Makes-raise e

pub ruleset makes_rules = (
  Makes-return, Makes-raise, Makes-or_raise, Makes-lift, Makes-if, Makes-bind, Makes-must,
  Makes-check, Makes-guard,
)
