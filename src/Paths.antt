-- ===== src/Paths.antt =====
-- Slash-separated paths: `strings.Split` and `strings.Trim` at a slash, and Go's package `path`,
-- as far as the source uses them. A text is the list of its code points.
pub mod Segments
pub mod Names
pub mod Rooted
use better_amp_backup.Prelude.{
  list_eq, ℕ, Bool, true, false, ◌&&◌, ◌||◌, not, ◌==◌, if◌then◌else◌, List, [], ◌∷◌, ◌++◌, reverse,
  codes, ◌≡◌, refl,
}

abbrev pub Text : Type 0
Text = List ℕ

abbrev pub slash : ℕ
slash = 47

abbrev pub dot : Text
dot = 46 ∷ []

abbrev pub dot_dot : Text
dot_dot = 46 ∷ 46 ∷ []

abbrev pub push : ℕ → List Text → List Text
push c [] = (c ∷ []) ∷ []
push c (s ∷ ss) = (c ∷ s) ∷ ss

-- strings.Split(p, "/")
unfoldable pub split : Text → List Text
split [] = [] ∷ []
split (c ∷ cs) = let rest = split cs in if c == slash then [] ∷ rest else push c rest

-- strings.Join(segments, "/")
unfoldable pub join : List Text → Text
join [] = []
join (s ∷ []) = s
join (s ∷ t ∷ ts) = s ++ (slash ∷ join (t ∷ ts))

-- strings.HasPrefix
unfoldable pub has_prefix : Text → Text → Bool
has_prefix xs [] = true
has_prefix [] (y ∷ ys) = false
has_prefix (x ∷ xs) (y ∷ ys) = x == y && has_prefix xs ys

-- strings.HasSuffix
unfoldable pub has_suffix : Text → Text → Bool
unfolding has_prefix
has_suffix xs ys = has_prefix (reverse xs) (reverse ys)

abbrev pub is_rooted : Text → Bool
is_rooted [] = false
is_rooted (c ∷ cs) = c == slash

-- A `..` removes the segment before it; at the front of a relative path it stays.
pub go_up : Bool → List Text → List Text
go_up rooted [] = if rooted then [] else dot_dot ∷ []
go_up rooted (s ∷ out) = if list_eq s dot_dot then dot_dot ∷ s ∷ out else out

-- `out` holds the segments so far, the last one first.
unfoldable pub visit : Bool → List Text → Text → List Text
unfolding go_up
visit rooted out s =
    if list_eq s [] || list_eq s dot
    then out
    else if list_eq s dot_dot
    then go_up rooted out
    else s ∷ out

unfoldable pub clean_segments : Bool → List Text → List Text → List Text
unfolding visit
clean_segments rooted out [] = out
clean_segments rooted out (s ∷ ss) = clean_segments rooted (visit rooted out s) ss

abbrev pub or_dot : Bool → List Text → Text
or_dot true ss = slash ∷ join ss
or_dot false [] = dot
or_dot false (s ∷ ss) = join (s ∷ ss)

-- path.Clean
unfoldable pub clean : Text → Text
unfolding split clean_segments join
clean p = or_dot (is_rooted p) (reverse (clean_segments (is_rooted p) [] (split p)))

clean_example : clean (codes "a//b/./c/../d/") ≡ codes "a/b/d"
unfolding clean
clean_example = refl

clean_up_example : clean (codes "../x/../..") ≡ codes "../.."
unfolding clean
clean_up_example = refl

clean_root_example : clean (codes "/../a") ≡ codes "/a"
unfolding clean
clean_root_example = refl
