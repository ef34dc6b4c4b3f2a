-- ===== src/Repo/Disk/Keeps.antt =====
-- Rules for what an action leaves alone, whatever its result.
use better_amp_backup.Prelude.{
  Bool, true, false, if◌then◌else◌, List, [], ◌∷◌, Option, none, some, ◌≡◌, refl, ◌∙◌, ap, arith,
  subst,
}
use better_amp_backup.Repo.Disk.{
  Disk, Result, ok, err, RepoError, Action, pure, fail, gets, continue, ◌>>=◌, may_fail,
  with_faults, fault_result, or_missing, Content,
}

-- Nothing done keeps `R`, and so do two steps that keep it.
pub record IsPreorder (R : Disk → Disk → Type 0) : Type 0 where
  pub reflexive : (d : Disk) → R d d
  pub transitive : (d e f : Disk) → R d e → R e f → R d f

-- The same files and locks: only the environment's choices are used up.
pub record SameFiles (d e : Disk) : Type 0 where
  pub snapshots : e.snapshots ≡ d.snapshots
  pub trash : e.trash ≡ d.trash
  pub objects : e.objects ≡ d.objects
  pub locks : e.locks ≡ d.locks

instance abbrev pub SameFiles-preorder : IsPreorder SameFiles
SameFiles-preorder = record {
  reflexive = λ d. record { snapshots = refl; trash = refl; objects = refl; locks = refl };
  transitive = λ d e f h k. record {
    snapshots = k.snapshots ∙ h.snapshots;
    trash = k.trash ∙ h.trash;
    objects = k.objects ∙ h.objects;
    locks = k.locks ∙ h.locks;
  };
}

-- `m` relates the disk before it to the disk after it by `R`.
pub record Keeps {A : Type 0} (R : Disk → Disk → Type 0) (m : Action A) : Type 0 where
  pub at : (d : Disk) → R d (m d).1

module _ {A : Type 0} {R : Disk → Disk → Type 0} ⦃p : IsPreorder R⦄ where
  pub Keeps-pure : (a : A) → Keeps R (pure a)
  unfolding pure
  Keeps-pure a = record { at = p.reflexive }

  pub Keeps-fail : (e : RepoError) → Keeps R (fail {A = A} e)
  unfolding fail
  Keeps-fail e = record { at = p.reflexive }

  pub Keeps-gets : (f : Disk → A) → Keeps R (gets f)
  unfolding gets
  Keeps-gets f = record { at = p.reflexive }

  pub Keeps-if : (b : Bool) (m n : Action A) → Keeps R m → Keeps R n → Keeps R (if b then m else n)
  Keeps-if true m n h k = h
  Keeps-if false m n h k = k

module _ {R : Disk → Disk → Type 0} ⦃p : IsPreorder R⦄ where
  pub Keeps-or_missing : (c : Option Content) → Keeps R (or_missing c)
  Keeps-or_missing none = record { at = p.reflexive }
  Keeps-or_missing (some c) = record { at = p.reflexive }

module _ {A B : Type 0} {R : Disk → Disk → Type 0} ⦃p : IsPreorder R⦄ where
  Keeps-continue :
      (r : Result A) (f : A → Action B) (d e : Disk)
      → R d e
      → ((a : A) → Keeps R (f a))
      → R d (continue r f e).1
  Keeps-continue (ok a) f d e h k = p.transitive d e _ h ((k a).at e)
  Keeps-continue (err x) f d e h k = h

  pub Keeps-bind :
      (m : Action A) (f : A → Action B) → Keeps R m → ((a : A) → Keeps R (f a)) → Keeps R (m >>= f)
  unfolding ◌>>=◌
  Keeps-bind m f h k = record { at = λ d. let (r, e) = m d in Keeps-continue r f d e (h.at d) k }

SameFiles-fault_result :
    (e : RepoError) (b : Bool) (d d' : Disk) → SameFiles d d' → SameFiles d (fault_result e b d').1
SameFiles-fault_result e true d d' h = h
SameFiles-fault_result e false d d' h = h

SameFiles-with_faults :
    (e : RepoError) (bs : List Bool) (d : Disk) → SameFiles d (with_faults bs (fault_result e) d).1
SameFiles-with_faults e [] d = SameFiles-preorder.reflexive d
SameFiles-with_faults e (b ∷ bs) d =
    SameFiles-fault_result e b d _
      (record { snapshots = refl; trash = refl; objects = refl; locks = refl })

pub Keeps-may_fail : (e : RepoError) → Keeps SameFiles (may_fail e)
unfolding may_fail
Keeps-may_fail e = record { at = λ d. SameFiles-with_faults e d.faults d }

-- With no faults to come, the call succeeds.
pub may_fail_quiet : (x : RepoError) (d : Disk) → d.faults ≡ [] → may_fail x d ≡ (ok tt, d)
unfolding may_fail
may_fail_quiet x d q = ap (λ bs. with_faults bs (fault_result x) d) q

-- What reads only keeps every relation that does not look at the choices.
pub Keeps-reads :
    {A : Type 0} (R : Disk → Disk → Type 0) (m : Action A)
    → ((d e : Disk) → SameFiles d e → R d e)
    → Keeps SameFiles m
    → Keeps R m
Keeps-reads R m w h = record { at = λ d. w d (m d).1 (h.at d) }

pub ruleset keeps_rules =
    (Keeps-pure, Keeps-fail, Keeps-gets, Keeps-if, Keeps-or_missing, Keeps-bind, Keeps-may_fail)

-- The disk after an action, from the pair that it returns.
pub Keeps-result :
    {A : Type 0} {R : Disk → Disk → Type 0} {m : Action A}
    → Keeps R m
    → (d e : Disk) (r : Result A) → m d ≡ (r, e)
    → R d e
Keeps-result {R} h d e r q = subst (λ x. R d x.1) q (h.at d)

module _ {A B : Type 0} where
  -- A step that failed ends the action; one that returned goes on from its disk.
  pub bind_cases :
      (P : Result B × Disk → Type 0) (m : Action A) (f : A → Action B) (d : Disk)
      → ((a : A) (e : Disk) → m d ≡ (ok a, e) → P (f a e))
      → ((x : RepoError) (e : Disk) → m d ≡ (err x, e) → P (err x, e))
      → P ((m >>= f) d)
  unfolding ◌>>=◌
  bind_cases P m f d good bad = go (m d).0 (m d).1 refl
    where
      go : (r : Result A) (e : Disk) → m d ≡ (r, e) → P (continue r f e)
      go (ok a) e q = good a e q
      go (err x) e q = bad x e q

  -- Inversion: an action that returned a value returned one from each of its two steps.
  pub bind-eq-ok :
      (m : Action A) (f : A → Action B) (d e : Disk) (b : B)
      → (m >>= f) d ≡ (ok b, e)
      → (a : A) × (d' : Disk) × (m d ≡ (ok a, d')) × (f a d' ≡ (ok b, e))
  unfolding ◌>>=◌
  bind-eq-ok m f d e b h = go (m d).0 (m d).1 refl h
    where
      go :
          (r : Result A) (d' : Disk)
          → m d ≡ (r, d')
          → continue r f d' ≡ (ok b, e)
          → (a : A) × (d'' : Disk) × (m d ≡ (ok a, d'')) × (f a d'' ≡ (ok b, e))
      go (ok a) d' q k = (a, d', q, k)
      go (err x) d' q k = absurd (ground arith)

module _ {A : Type 0} where
  pub pure-eq-ok : (a b : A) (d e : Disk) → pure a d ≡ (ok b, e) → (a ≡ b) × (d ≡ e)
  unfolding pure
  pure-eq-ok a b d e q = (ground arith, ap (λ x. x.1) q)

  pub gets-eq-ok : (f : Disk → A) (b : A) (d e : Disk) → gets f d ≡ (ok b, e) → (f d ≡ b) × (d ≡ e)
  unfolding gets
  gets-eq-ok f b d e q = (ground arith, ap (λ x. x.1) q)

  pub gets-ne-err : (f : Disk → A) (x : RepoError) (d e : Disk) → gets f d ≡ (err x, e) → ⊥
  unfolding gets
  gets-ne-err f x d e q = ground arith

  pub fail-ne-ok : (x : RepoError) (b : A) (d e : Disk) → fail x d ≡ (ok b, e) → ⊥
  unfolding fail
  fail-ne-ok x b d e q = ground arith

pub or_missing-eq-ok :
    (c c' : Content) (d e : Disk) → or_missing (some c) d ≡ (ok c', e) → (c ≡ c') × (d ≡ e)
or_missing-eq-ok c c' d e q = (ground arith, ap (λ x. x.1) q)
