-- ===== src/Repo/Retention/Marks.antt =====
-- What one loop of internal/repo/retention.go does to the decisions, said of all of them at once:
-- `Marks test newer before after` when `after` differs from `before` only by the decisions that
-- `test` wants, where `test` sees the snapshots that are newer than the one decided.
use better_amp_backup.Prelude.{
  ℕ, zero, suc, ◌+◌, Bool, true, false, ◌&&◌, ◌||◌, ◌&&◌, ltb, if◌then◌else◌, List, [], ◌∷◌, length,
  String, ℤ, pos, negsuc, ltb_ℤ, pos_part, ◌≡◌, refl, ap, ◌∙◌, arith, or_assoc, any,
}
use better_amp_backup.Clock.{Instant, Duration}
use better_amp_backup.Repo.Manifest.{Manifest, has_tag}
use better_amp_backup.Repo.Retention.{
  Decision, Reason, keep_decision, mark_last, mark_where, mark_within, mark_tags, younger,
  one_of_the_last, within, tagged,
}

-- Does the rule want this snapshot, given the newer ones, nearest first?
abbrev pub Rule : Type 0
Rule = List Manifest → Manifest → Bool

abbrev pub Marks : Rule → List Manifest → List Decision → List Decision → Type 0
Marks rule newer [] [] = Unit
Marks rule newer [] (e ∷ es) = ⊥
Marks rule newer (d ∷ ds) [] = ⊥
Marks rule newer (d ∷ ds) (e ∷ es) =
    (e.manifest ≡ d.manifest)
    × (e.keep ≡ (d.keep || rule newer d.manifest))
    × Marks rule (d.manifest ∷ newer) ds es

abbrev pub never : Rule
never newer m = false

abbrev pub either : Rule → Rule → Rule
either r s newer m = r newer m || s newer m

pub keep_or_false : (b : Bool) → b ≡ (b || false)
keep_or_false true = refl
keep_or_false false = refl

or_true : (b : Bool) → true ≡ (b || true)
or_true true = refl
or_true false = refl

pub Marks-never : (newer : List Manifest) (ds : List Decision) → Marks never newer ds ds
Marks-never newer [] = tt
Marks-never newer (d ∷ ds) = (refl, keep_or_false d.keep, Marks-never (d.manifest ∷ newer) ds)

-- Two loops, one after the other, want what either of them wants.
pub Marks-either :
    (r s : Rule) (newer : List Manifest) (ds es fs : List Decision)
    → Marks r newer ds es
    → Marks s newer es fs
    → Marks (either r s) newer ds fs
Marks-either r s newer [] [] [] h k = tt
Marks-either r s newer [] [] (f ∷ fs) h k = absurd k
Marks-either r s newer [] (e ∷ es) fs h k = absurd h
Marks-either r s newer (d ∷ ds) [] fs h k = absurd h
Marks-either r s newer (d ∷ ds) (e ∷ es) [] h k = absurd k
Marks-either r s newer (d ∷ ds) (e ∷ es) (f ∷ fs) (same, kept, rest) (same', kept', rest') = (
  same' ∙ same,
  (rw same at kept')
      ∙ ap (λ b. b || s newer d.manifest) kept
      ∙ or_assoc d.keep (r newer d.manifest) (s newer d.manifest),
  Marks-either r s (d.manifest ∷ newer) ds es fs rest (rw same at rest'),
)

-- A rule that says the same is the same rule.
pub Marks-ext :
    (r s : Rule) (newer : List Manifest) (ds es : List Decision)
    → ((n : List Manifest) (m : Manifest) → r n m ≡ s n m)
    → Marks r newer ds es
    → Marks s newer ds es
Marks-ext r s newer [] [] e h = tt
Marks-ext r s newer [] (x ∷ es) e h = absurd h
Marks-ext r s newer (d ∷ ds) [] e h = absurd h
Marks-ext r s newer (d ∷ ds) (x ∷ es) e (same, kept, rest) =
    (same, rw (← e newer d.manifest) kept, Marks-ext r s (d.manifest ∷ newer) ds es e rest)

-- One decision of a loop.
pub manifest-keep_if :
    (b : Bool) (why : Reason) (d : Decision)
    → (if b then keep_decision why d else d).manifest ≡ d.manifest
manifest-keep_if true why d = refl
manifest-keep_if false why d = refl

pub keep-keep_if :
    (b : Bool) (why : Reason) (d : Decision)
    → (if b then keep_decision why d else d).keep ≡ (d.keep || b)
keep-keep_if true why d = or_true d.keep
keep-keep_if false why d = keep_or_false d.keep

abbrev pub last_rule : ℤ → Rule
last_rule n newer m = ltb_ℤ (pos (length newer)) n

pub mark_last-Marks :
    (n : ℤ) (i : ℕ) (newer : List Manifest) (ds : List Decision)
    → i ≡ length newer
    → Marks (last_rule n) newer ds (mark_last n i ds)
unfolding mark_last
mark_last-Marks n i newer [] e = tt
mark_last-Marks n i newer (d ∷ ds) e = (
  manifest-keep_if _ _ d,
  keep-keep_if (ltb_ℤ (pos i) n) (one_of_the_last n) d ∙ ap (λ j. d.keep || ltb_ℤ (pos j) n) e,
  mark_last-Marks n (i + 1) (d.manifest ∷ newer) ds (omega arith),
)

abbrev pub each_rule : (Manifest → Bool) → Rule
each_rule test newer m = test m

pub mark_where-Marks :
    (test : Manifest → Bool) (why : Reason) (newer : List Manifest) (ds : List Decision)
    → Marks (each_rule test) newer ds (mark_where test why ds)
unfolding mark_where
mark_where-Marks test why newer [] = tt
mark_where-Marks test why newer (d ∷ ds) = (
  manifest-keep_if (test d.manifest) why d,
  keep-keep_if (test d.manifest) why d,
  mark_where-Marks test why (d.manifest ∷ newer) ds,
)

abbrev pub within_rule : Duration → Instant → Rule
within_rule w now newer m = ltb_ℤ (pos 0) w && ltb now (m.started_at + pos_part w)

pub mark_within-Marks :
    (w : Duration) (now : Instant) (newer : List Manifest) (ds : List Decision)
    → Marks (within_rule w now) newer ds (mark_within w now ds)
unfolding mark_within younger
mark_within-Marks (pos zero) now newer ds = Marks-never newer ds
mark_within-Marks (pos (suc w)) now newer ds =
    Marks-ext (each_rule (younger (suc w) now)) (within_rule (pos (suc w)) now) newer ds _
      (λ n m. ground arith) (mark_where-Marks (younger (suc w) now) (within (pos (suc w))) newer ds)
mark_within-Marks (negsuc w) now newer ds = Marks-never newer ds

abbrev pub tag_rule : List String → Rule
tag_rule tags newer m = any (has_tag m) tags

pub mark_tags-Marks :
    (tags : List String) (newer : List Manifest) (ds : List Decision)
    → Marks (tag_rule tags) newer ds (mark_tags tags ds)
unfolding mark_tags
mark_tags-Marks [] newer ds = Marks-never newer ds
mark_tags-Marks (tag ∷ tags) newer ds =
    let here = mark_where (λ m. has_tag m tag) (tagged tag) ds in
    Marks-either (each_rule (λ m. has_tag m tag)) (tag_rule tags) newer ds here
      (mark_tags tags here) (mark_where-Marks (λ m. has_tag m tag) (tagged tag) newer ds)
      (mark_tags-Marks tags newer here)
