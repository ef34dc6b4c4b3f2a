-- ===== src/Repo/Gc/Sweeping.antt =====
-- What the sweep of `Prune` (internal/repo/gc.go) dooms and what it deletes.
use better_amp_backup.Prelude.{
  Bool, true, false, if◌then◌else◌, if_cases, List, [], ◌∷◌, ◌++◌, All, All-map, In, ◌≡◌, refl, sym,
  subst, inl, inr,
}
use better_amp_backup.Repo.Manifest.{Hash}
use better_amp_backup.Repo.Disk.{
  Disk, ObjectInfo, ObjectFile, object, stray, ok, err, pure, gets, may_fail, io_error,
}
use better_amp_backup.Repo.Disk.Keeps.{
  IsPreorder, Keeps, SameFiles, SameFiles-preorder, Keeps-pure, Keeps-if, Keeps-bind,
  Keeps-may_fail, Keeps-reads, Keeps-result, bind-eq-ok, bind_cases, pure-eq-ok, gets-eq-ok,
  gets-ne-err,
}
use better_amp_backup.Repo.Gc.{
  PruneOptions, PruneReport, Marked, Sweep, no_sweep, is_referenced, is_recent, visit_object,
  visit_file, walk, has_hash, without_object, delete_object, delete_each, counted, report_of, sweep,
}
use better_amp_backup.Repo.Gc.Reads.{Keeps-walk}

-- The file is still there.
pub record KeepsFile (i : ObjectFile) (d e : Disk) : Type 0 where
  pub keep : In i d.objects → In i e.objects

instance abbrev pub KeepsFile-preorder : (i : ObjectFile) → IsPreorder (KeepsFile i)
KeepsFile-preorder i = record {
  reflexive = λ d. record { keep = λ h. h };
  transitive = λ d e f h k. record { keep = λ x. k.keep (h.keep x) };
}

pub KeepsFile-same : (i : ObjectFile) (d e : Disk) → SameFiles d e → KeepsFile i d e
KeepsFile-same i d e same = record { keep = λ h. subst (In i) (sym same.objects) h }

In-without_object :
    (i : ObjectFile) (x : Hash) (files : List ObjectFile)
    → has_hash x i ≡ false
    → In i files
    → In i (without_object x files)
unfolding without_object
In-without_object i x [] other h = absurd h
In-without_object i x (f ∷ files) other (inl e) =
    if_cases (In i) (has_hash x f) (λ hit. absurd (contradiction hit)) (λ _. inl e)
  where
    contradiction : has_hash x f ≡ true → ⊥
    contradiction hit = cc
In-without_object i x (f ∷ files) other (inr h) =
    let rest = In-without_object i x files other h in
    if_cases (In i) (has_hash x f) (λ _. rest) (λ _. inr rest)

Keeps-delete_object :
    (i : ObjectFile) (x : Hash) → has_hash x i ≡ false → Keeps (KeepsFile i) (delete_object x)
unfolding delete_object
Keeps-delete_object i x other =
    Keeps-bind (may_fail io_error) _
      (Keeps-reads (KeepsFile i) (may_fail io_error) (KeepsFile-same i) (Keeps-may_fail io_error))
      (λ _. record { at = λ d. record { keep = In-without_object i x d.objects other } })

abbrev pub Misses : ObjectFile → ObjectInfo → Type 0
Misses i info = has_hash info.hash i ≡ false

Keeps-delete_each :
    (i : ObjectFile) (dry : Bool) (infos : List ObjectInfo) (rep : PruneReport)
    → All (Misses i) infos
    → Keeps (KeepsFile i) (delete_each dry infos rep)
unfolding delete_each
Keeps-delete_each i dry [] rep h = Keeps-pure rep
Keeps-delete_each i dry (info ∷ infos) rep (h, hs) =
    Keeps-bind (may_fail io_error) _
      (Keeps-reads (KeepsFile i) (may_fail io_error) (KeepsFile-same i) (Keeps-may_fail io_error))
      (λ _.
        Keeps-bind (if dry then pure tt else delete_object info.hash) _
          (Keeps-if dry (pure tt) (delete_object info.hash) (Keeps-pure tt)
            (Keeps-delete_object i info.hash h))
          (λ _. Keeps-delete_each i dry infos (counted info rep) hs))

-- What the walk dooms: an object that no reference names and that is not recent.
pub record IsDoomed (opts : PruneOptions) (refs : List Hash) (files : List ObjectFile)
    (info : ObjectInfo) : Type 0 where
  pub unreferenced : is_referenced refs info.hash ≡ false
  pub old : is_recent opts info ≡ false
  pub found : In (object info) files

All-snoc {κ} :
    {A : Type 0} (P : A → Type κ) (xs : List A) (x : A) → All P xs → P x → All P (xs ++ x ∷ [])
All-snoc P [] x h k = (k, tt)
All-snoc P (y ∷ ys) x (h, hs) k = (h, All-snoc P ys x hs k)

visit-IsDoomed :
    (opts : PruneOptions) (refs : List Hash) (files : List ObjectFile) (sw : Sweep) (f : ObjectFile)
    → In f files
    → All (IsDoomed opts refs files) sw.doomed
    → All (IsDoomed opts refs files) (visit_file opts refs sw f).doomed
unfolding visit_file visit_object
visit-IsDoomed opts refs files sw (stray name) i h = h
visit-IsDoomed opts refs files sw (object info) i h =
    if_cases (λ (x : Sweep). All (IsDoomed opts refs files) x.doomed) (is_referenced refs info.hash)
      (λ _. h)
      (λ free.
        if_cases (λ (x : Sweep). All (IsDoomed opts refs files) x.doomed) (is_recent opts info)
          (λ _. h)
          (λ old.
            All-snoc (IsDoomed opts refs files) sw.doomed info h
              (record { unreferenced = free; old = old; found = i })))

walk-IsDoomed :
    (opts : PruneOptions) (refs : List Hash) (files rest : List ObjectFile) (sw sw' : Sweep)
    (d e : Disk)
    → ((f : ObjectFile) → In f rest → In f files)
    → walk opts refs rest sw d ≡ (ok sw', e)
    → All (IsDoomed opts refs files) sw.doomed
    → All (IsDoomed opts refs files) sw'.doomed
unfolding walk
walk-IsDoomed opts refs files [] sw sw' d e sub q h =
    subst (λ (x : Sweep). All (IsDoomed opts refs files) x.doomed) (pure-eq-ok sw sw' d e q).0 h
walk-IsDoomed opts refs files (f ∷ rest) sw sw' d e sub q h =
    let (_, d1, q1, r1) = bind-eq-ok (may_fail io_error) _ d e sw' q in
    walk-IsDoomed opts refs files rest (visit_file opts refs sw f) sw' d1 e (λ g k. sub g (inr k))
      r1 (visit-IsDoomed opts refs files sw f (sub f (inl refl)) h)

-- An object that no doomed one shares its hash with is still there after the sweep.
pub sweep-KeepsFile :
    (opts : PruneOptions) (mk : Marked) (i : ObjectFile) (d : Disk)
    → ((x : ObjectInfo) → IsDoomed opts mk.referenced d.objects x → Misses i x)
    → KeepsFile i d (sweep opts mk d).1
unfolding sweep
sweep-KeepsFile opts mk i d misses =
    bind_cases (λ r. KeepsFile i d r.1) (gets (λ d. d.objects)) _ d
      (λ files d1 q1.
        let (got, same) = gets-eq-ok (λ d. d.objects) files d d1 q1 in
        bind_cases (λ r. KeepsFile i d r.1) (walk opts mk.referenced files no_sweep) _ d1
          (λ sw d2 q2.
            let walked =
              Keeps-result (Keeps-walk opts mk.referenced files no_sweep) d1 d2 (ok sw) q2 in
            let doomed =
              walk-IsDoomed opts mk.referenced files files no_sweep sw d1 d2 (λ f h. h) q2 tt in
            let missed =
              All-map (IsDoomed opts mk.referenced files) (Misses i) sw.doomed
                (λ x h. misses x (subst (λ fs. IsDoomed opts mk.referenced fs x) (sym got) h))
                doomed in
            let swept =
              (Keeps-delete_each i opts.dry_run sw.doomed (report_of opts mk sw) missed).at d2 in
            record {
              keep = λ h.
                  swept.keep
                    (subst (In i) (sym walked.objects) (subst (λ x. In i x.objects) same h));
            })
          (λ x d2 q2.
            let walked =
              Keeps-result (Keeps-walk opts mk.referenced files no_sweep) d1 d2 (err x) q2 in
            record {
              keep = λ h.
                  subst (In i) (sym walked.objects) (subst (λ (x : Disk). In i x.objects) same h);
            }))
      (λ x d1 q1. absurd (gets-ne-err (λ d. d.objects) x d d1 q1))
