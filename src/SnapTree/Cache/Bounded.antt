-- ===== src/SnapTree/Cache/Bounded.antt =====
-- How many trees the cache (`Cache` of internal/snaptree/snaptree.go) holds.
use better_amp_backup.Prelude.{
  ℕ, zero, suc, ◌-◌, ◌≤◌, ◌<◌, ℤ, pos, negsuc, false, ◌&&◌, ◌||◌, not, ltb, leb, if_cases, List, [],
  ◌∷◌, length, list_eq, list_eq_self, All, In, Option, none, ◌≡◌, ◌≢◌, inl, inr, refl, sym, ap,
  subst, arith,
}
use better_amp_backup.Paths.{Text}
use better_amp_backup.SnapTree.{Tree}
use better_amp_backup.SnapTree.Cache.{
  CacheEntry, Cache, or_default, new_cache, without_entry, drop_idle, oldest_from, make_room, evict,
  touch, enter, fill, built, invalidate, Reaches, start, entered, was_built, invalidated,
}

-- An entry is kept under the id of a snapshot.
abbrev IsNamed : CacheEntry → Type 0
IsNamed e = list_eq e.id [] ≡ false

length-without_entry : (id : Text) (es : List CacheEntry) → length (without_entry id es) ≤ length es
unfolding without_entry
length-without_entry id [] = omega arith
length-without_entry id (e ∷ es) = ground (arith, length-without_entry id es)

length-without_entry_in :
    (e : CacheEntry) (es : List CacheEntry)
    → In e es
    → suc (length (without_entry e.id es)) ≤ length es
unfolding without_entry
length-without_entry_in e [] h = absurd h
length-without_entry_in e (x ∷ es) (inl q) =
    rw (ap (λ y. list_eq y.id e.id) (sym q), list_eq_self e.id)
      (omega (arith, length-without_entry e.id es))
length-without_entry_in e (x ∷ es) (inr h) =
    ground (arith, length-without_entry e.id es, length-without_entry_in e es h)

oldest_from-In : (e : CacheEntry) (es : List CacheEntry) → In (oldest_from e es) (e ∷ es)
unfolding oldest_from
oldest_from-In e [] = inl refl
oldest_from-In e (x ∷ es) =
    if_cases (λ o. In o (e ∷ x ∷ es)) (list_eq e.id [] || ltb x.last_used e.last_used)
      (λ _. inr (oldest_from-In x es)) (λ _. behind (oldest_from-In e es))
  where
    behind : In (oldest_from e es) (e ∷ es) → In (oldest_from e es) (e ∷ x ∷ es)
    behind (inl q) = inl q
    behind (inr h) = inr (inr h)

module _ (P : CacheEntry → Type 0) where
  All-In : (e : CacheEntry) (es : List CacheEntry) → All P es → In e es → P e
  All-In e [] h k = absurd k
  All-In e (x ∷ es) (h, hs) (inl q) = subst P (sym q) h
  All-In e (x ∷ es) (h, hs) (inr k) = All-In e es hs k

  All-without : (id : Text) (es : List CacheEntry) → All P es → All P (without_entry id es)
  unfolding without_entry
  All-without id [] h = tt
  All-without id (e ∷ es) (h, hs) =
      if_cases (All P) (list_eq e.id id) (λ _. All-without id es hs)
        (λ _. (h, All-without id es hs))

  All-drop_idle : (idle now : ℕ) (es : List CacheEntry) → All P es → All P (drop_idle idle now es)
  unfolding drop_idle
  All-drop_idle idle now [] h = tt
  All-drop_idle idle now (e ∷ es) (h, hs) =
      if_cases (All P) (ltb idle (now - e.last_used)) (λ _. All-drop_idle idle now es hs)
        (λ _. (h, All-drop_idle idle now es hs))

  All-make_room :
      (fuel max_trees : ℕ) (es : List CacheEntry) → All P es → All P (make_room fuel max_trees es)
  unfolding make_room
  All-make_room zero max_trees [] h = tt
  All-make_room (suc fuel) max_trees [] h = tt
  All-make_room zero max_trees (e ∷ es) h = h
  All-make_room (suc fuel) max_trees (e ∷ es) h =
      let o = oldest_from e es in
      if_cases (All P) (leb max_trees (length (e ∷ es)) && not (list_eq o.id []))
        (λ _. All-make_room fuel max_trees _ (All-without o.id (e ∷ es) h)) (λ _. h)

-- Room for one more.
length-make_room :
    (fuel max_trees : ℕ) (es : List CacheEntry)
    → 0 < max_trees
    → length es ≤ fuel
    → All IsNamed es
    → length (make_room fuel max_trees es) < max_trees
unfolding make_room
length-make_room zero max_trees [] p f h = omega arith
length-make_room (suc fuel) max_trees [] p f h = omega arith
length-make_room zero max_trees (e ∷ es) p f h = absurd (omega arith)
length-make_room (suc fuel) max_trees (e ∷ es) p f h =
    let o = oldest_from e es in
    let there = oldest_from-In e es in
    let named = All-In IsNamed o (e ∷ es) h there in
    if_cases (λ xs. length xs < max_trees)
      (leb max_trees (length (e ∷ es)) && not (list_eq o.id [])) {y = e ∷ es}
      (λ _.
        length-make_room fuel max_trees (without_entry o.id (e ∷ es)) p
          (omega (arith, length-without_entry_in o (e ∷ es) there))
          (All-without IsNamed o.id (e ∷ es) h))
      (λ full. ground (arith, named))

length-drop_idle :
    (idle now : ℕ) (es : List CacheEntry) → length (drop_idle idle now es) ≤ length es
unfolding drop_idle
length-drop_idle idle now [] = omega arith
length-drop_idle idle now (e ∷ es) = ground (arith, length-drop_idle idle now es)

-- A cache of some trees, each under a name, and not more than it may hold.
pub record IsBounded (c : Cache) : Type 0 where
  pub positive : 0 < c.max_trees
  pub bounded : length c.entries ≤ c.max_trees
  pub named : All IsNamed c.entries

length-touch :
    (now : ℕ) (id : Text) (es : List CacheEntry) → length (touch now id es) ≤ suc (length es)
unfolding touch
length-touch now id [] = omega arith
length-touch now id (e ∷ es) = ground (arith, length-touch now id es)

touch-IsNamed :
    (now : ℕ) (id : Text) (es : List CacheEntry)
    → list_eq id [] ≡ false
    → All IsNamed es
    → All IsNamed (touch now id es)
unfolding touch
touch-IsNamed now id [] n h = (n, tt)
touch-IsNamed now id (e ∷ es) n (h, hs) =
    if_cases (All IsNamed) (list_eq e.id id) (λ _. (h, hs)) (λ _. (h, touch-IsNamed now id es n hs))

named_id : (id : Text) → id ≢ [] → list_eq id [] ≡ false
named_id [] n = absurd (n refl)
named_id (c ∷ cs) n = refl

enter-IsBounded :
    (now : ℕ) (id : Text) (c : Cache) → id ≢ [] → IsBounded c → IsBounded (enter now id c)
unfolding enter evict
enter-IsBounded now id c n h =
    let fresh = drop_idle c.idle now c.entries in
    let room = make_room (length fresh) c.max_trees fresh in
    let names = All-drop_idle IsNamed c.idle now c.entries h.named in
    record {
      positive = h.positive;
      bounded = omega (
        arith,
        length-touch now id room,
        length-make_room (length fresh) c.max_trees fresh h.positive (omega arith) names,
      );
      named =
          touch-IsNamed now id room (named_id id n)
            (All-make_room IsNamed (length fresh) c.max_trees fresh names);
    }

fill-IsNamed :
    (id : Text) (t : Tree) (es : List CacheEntry)
    → All IsNamed es
    → (length (fill id t es) ≡ length es) × All IsNamed (fill id t es)
unfolding fill
fill-IsNamed id t [] h = (refl, tt)
fill-IsNamed id t (e ∷ es) (h, hs) =
    let (same, named) = fill-IsNamed id t es hs in
    if_cases (λ xs. (length xs ≡ suc (length es)) × All IsNamed xs) (list_eq e.id id)
      (λ _. (refl, (h, hs))) (λ _. (ap suc same, (h, named)))

-- Whatever goroutines do to a cache that is bounded, with ids that are not empty: it holds no more
-- trees than it may, builds under way included.
pub Reaches-IsBounded : (c d : Cache) → IsBounded c → Reaches c d → IsBounded d
unfolding built invalidate
Reaches-IsBounded c _ h start = h
Reaches-IsBounded c _ h (entered d now id n r) =
    enter-IsBounded now id d n (Reaches-IsBounded c d h r)
Reaches-IsBounded c _ h (was_built d id t r) =
    let k = Reaches-IsBounded c d h r in
    let (same, named) = fill-IsNamed id t d.entries k.named in
    record { positive = k.positive; bounded = omega (arith, same, k.bounded); named = named }
Reaches-IsBounded c _ h (invalidated d id r) =
    let k = Reaches-IsBounded c d h r in
    record {
      positive = k.positive;
      bounded = omega (arith, length-without_entry id d.entries, k.bounded);
      named = All-without IsNamed id d.entries k.named;
    }

-- A cache of one tree drops that tree when it is asked for it again, used at any time before:
-- every request builds the tree anew.
pub enter_rebuilds :
    (c : Cache) (id : Text) (t : Option Tree) (used now : ℕ)
    → id ≢ []
    → c.max_trees ≡ 1
    → c.entries ≡ record { id = id; tree = t; last_used = used } ∷ []
    → (enter now id c).entries ≡ record { id = id; tree = none; last_used = now } ∷ []
unfolding enter evict drop_idle make_room oldest_from without_entry touch
enter_rebuilds c id t used now n one held =
    rw (held, one)
      (if_cases
        (λ es.
          touch now id (make_room (length es) 1 es)
          ≡ record { id = id; tree = none; last_used = now } ∷ [])
        (ltb c.idle (now - used)) (λ _. refl) (λ _. rw (named_id id n, list_eq_self id) refl))

-- Whatever goroutines do to a new cache, with ids that are not empty: it holds no more trees than
-- it may, builds under way included.
pub new_cache-IsBounded :
    (max_trees idle max_entries : ℤ) (d : Cache)
    → Reaches (new_cache max_trees idle max_entries) d
    → IsBounded d
unfolding new_cache
new_cache-IsBounded max_trees idle max_entries d r =
    Reaches-IsBounded (new_cache max_trees idle max_entries) d
      (record { positive = default_positive 2 max_trees; bounded = omega arith; named = tt }) r
  where
    default_positive : (n : ℕ) (x : ℤ) → 0 < or_default (suc n) x
    default_positive n (pos zero) = omega arith
    default_positive n (pos (suc k)) = omega arith
    default_positive n (negsuc k) = omega arith
