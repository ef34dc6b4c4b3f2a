-- ===== src/Backup/Triples.antt =====
-- What a step of a run has, by its result: one predicate where it returned, one where it failed.
use better_amp_backup.Prelude.{Option, none, some, ◌≡◌, refl, subst}
use better_amp_backup.Repo.Disk.{Disk, Result, Action}
use better_amp_backup.Repo.Disk
use better_amp_backup.Repo.Disk.Keeps.{Keeps, bind_cases}
use better_amp_backup.Backup.Run.{
  World, Outcome, ok, err, RunError, Step, lift, continue, ◌>>=◌, or_raise, of_result,
}

module _ {A : Type 0} where
  abbrev pub Holds : (A → World → Type 0) → (World → Type 0) → Outcome A × World → Type 0
  Holds post bad (ok a, w) = post a w
  Holds post bad (err e, w) = bad w

  -- The same of an action on the repository.
  abbrev pub HoldsFor : (A → Disk → Type 0) → (Disk → Type 0) → Result A × Disk → Type 0
  HoldsFor post bad (Disk.ok a, d) = post a d
  HoldsFor post bad (Disk.err e, d) = bad d

  pub Holds-or_raise :
      (post : A → World → Type 0) (bad : World → Type 0) (e : RunError) (o : Option A) (w : World)
      → bad w
      → ((a : A) → o ≡ some a → post a w)
      → Holds post bad (or_raise e o w)
  Holds-or_raise post bad e none w b h = b
  Holds-or_raise post bad e (some a) w b h = h a refl

  pub HoldsFor-Keeps :
      (R : Disk → Disk → Type 0) (m : Action A) (d : Disk)
      → Keeps R m
      → HoldsFor (λ a. R d) (R d) (m d)
  HoldsFor-Keeps R m d h = go (m d).0 (m d).1 (h.at d)
    where
      go : (r : Result A) (e : Disk) → R d e → HoldsFor (λ a. R d) (R d) (r, e)
      go (Disk.ok a) e k = k
      go (Disk.err x) e k = k

  pub Holds-lift :
      (post : A → Disk → Type 0) (bad : Disk → Type 0) (m : Action A) (w : World)
      → HoldsFor post bad (m w.repo)
      → Holds
          (λ a w'. post a w'.repo × (w'.calls ≡ w.calls))
          (λ w'. bad w'.repo × (w'.calls ≡ w.calls))
          (lift m w)
  unfolding lift
  Holds-lift post bad m w h = go (m w.repo).0 (m w.repo).1 h
    where
      go :
          (r : Result A) (d : Disk)
          → HoldsFor post bad (r, d)
          → Holds
              (λ a w'. post a w'.repo × (w'.calls ≡ w.calls))
              (λ w'. bad w'.repo × (w'.calls ≡ w.calls))
              (of_result r, record w { repo = d })
      go (Disk.ok a) d k = (k, refl)
      go (Disk.err x) d k = (k, refl)

  pub Holds-map :
      (post post' : A → World → Type 0) (bad bad' : World → Type 0) (x : Outcome A × World)
      → ((a : A) (w : World) → post a w → post' a w)
      → ((w : World) → bad w → bad' w)
      → Holds post bad x
      → Holds post' bad' x
  Holds-map post post' bad bad' (ok a, w) f g h = f a w h
  Holds-map post post' bad bad' (err e, w) f g h = g w h

module _ {A B : Type 0} where
  pub Holds-bind :
      (mid : A → World → Type 0) (post : B → World → Type 0) (bad : World → Type 0) (m : Step A)
      (f : A → Step B) (w : World)
      → Holds mid bad (m w)
      → ((a : A) (w' : World) → mid a w' → Holds post bad (f a w'))
      → Holds post bad ((m >>= f) w)
  unfolding ◌>>=◌
  Holds-bind mid post bad m f w h k = go (m w).0 (m w).1 h
    where
      go : (o : Outcome A) (w' : World) → Holds mid bad (o, w') → Holds post bad (continue o f w')
      go (ok a) w' j = k a w' j
      go (err e) w' j = j

  pub HoldsFor-bind :
      (mid : A → Disk → Type 0) (post : B → Disk → Type 0) (bad : Disk → Type 0) (m : Action A)
      (f : A → Action B) (d : Disk)
      → HoldsFor mid bad (m d)
      → ((a : A) (e : Disk) → mid a e → HoldsFor post bad (f a e))
      → HoldsFor post bad (Disk.◌>>=◌ m f d)
  HoldsFor-bind mid post bad m f d h k =
      bind_cases (HoldsFor post bad) m f d (λ a e q. k a e (subst (HoldsFor mid bad) q h))
        (λ x e q. subst (HoldsFor mid bad) q h)
