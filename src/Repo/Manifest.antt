-- ===== src/Repo/Manifest.antt =====
-- Snapshot manifests (internal/repo/manifest.go) and the addresses of objects
-- (internal/hash/hash.go). Texts that the code only compares or prints are `String`; a snapshot
-- id, whose form is checked, is a list of code points.
use better_amp_backup.Prelude.{
  ℕ, Bool, true, false, ◌&&◌, ◌||◌, not, ◌==◌, leb, if◌then◌else◌, List, [], ◌∷◌, String, str_eq,
  Option, none, some,
}
use better_amp_backup.Clock.{Instant}

-- `hash.Hash`: the 32 bytes of a digest
abbrev pub Hash : Type 0
Hash = List ℕ

abbrev pub SnapshotId : Type 0
SnapshotId = List ℕ

-- `Hash.IsZero`
unfoldable pub is_zero : Hash → Bool
is_zero [] = true
is_zero (b ∷ bs) = b == 0 && is_zero bs

-- A manifest read from disk may hold any text as its state.
pub data SnapshotState : Type 0 where
  complete partial failed : SnapshotState
  unknown : String → SnapshotState

pub record Stats : Type 0 where
  pub files : ℕ
  pub dirs : ℕ
  pub symlinks : ℕ
  pub total_bytes : ℕ
  pub new_objects : ℕ
  pub new_bytes : ℕ
  pub reused_objects : ℕ
  pub unchanged_files : ℕ
  pub reread_files : ℕ

pub record Manifest : Type 0 where
  pub version : ℕ
  pub id : SnapshotId
  pub instance_name : String
  pub instance_id : String
  pub root : String
  pub started_at : Instant
  pub finished_at : Instant
  pub quiesce_millis : ℕ
  pub parent : SnapshotId
  pub state : SnapshotState
  pub tags : List String
  pub stats : Stats
  pub index_hash : Hash
  pub tool_version : String
  pub warnings : List String

-- `HasTag`
unfoldable pub has_tag_in : List String → String → Bool
has_tag_in [] tag = false
has_tag_in (t ∷ ts) tag = if str_eq t tag then true else has_tag_in ts tag

unfoldable pub has_tag : Manifest → String → Bool
unfolding has_tag_in
has_tag m tag = has_tag_in m.tags tag

-- `Restorable`
unfoldable pub restorable : Manifest → Bool
restorable m = elim m.state [
  | complete ↦ true
  | partial ↦ true
  | failed ↦ false
  | unknown s ↦ false
]

is_digit : ℕ → Bool
is_digit c = leb b'0' c && leb c b'9'

is_lower_hex : ℕ → Bool
unfolding is_digit
is_lower_hex c = is_digit c || (leb b'a' c && leb c b'f')

-- One test for each character of the pattern `^\d{8}T\d{6}Z-[0-9a-f]{6}$`.
id_tests : List (ℕ → Bool)
unfolding is_digit is_lower_hex
id_tests =
    is_digit
    ∷ is_digit
    ∷ is_digit
    ∷ is_digit
    ∷ is_digit
    ∷ is_digit
    ∷ is_digit
    ∷ is_digit
    ∷ (λ c. c == b'T')
    ∷ is_digit
    ∷ is_digit
    ∷ is_digit
    ∷ is_digit
    ∷ is_digit
    ∷ is_digit
    ∷ (λ c. c == b'Z')
    ∷ (λ c. c == b'-')
    ∷ is_lower_hex
    ∷ is_lower_hex
    ∷ is_lower_hex
    ∷ is_lower_hex
    ∷ is_lower_hex
    ∷ is_lower_hex
    ∷ []

passes : List (ℕ → Bool) → List ℕ → Bool
passes [] [] = true
passes [] (c ∷ cs) = false
passes (t ∷ ts) [] = false
passes (t ∷ ts) (c ∷ cs) = t c && passes ts cs

-- `ValidSnapshotID`
unfoldable pub valid_snapshot_id : SnapshotId → Bool
unfolding passes id_tests
valid_snapshot_id s = passes id_tests s

pub data ManifestError : Type 0 where
  unsupported_version malformed_id no_instance unknown_state malformed_parent : ManifestError

known_state : SnapshotState → Bool
known_state complete = true
known_state partial = true
known_state failed = true
known_state (unknown s) = false

abbrev no_parent : SnapshotId → Bool
no_parent [] = true
no_parent (c ∷ cs) = false

-- `Manifest.Validate`; `none` is a nil error
unfoldable pub validate : Manifest → Option ManifestError
unfolding valid_snapshot_id known_state
validate m =
    if not (m.version == 1)
    then some unsupported_version
    else if not (valid_snapshot_id m.id)
    then some malformed_id
    else if str_eq m.instance_name ""
    then some no_instance
    else if not (known_state m.state)
    then some unknown_state
    else if not (no_parent m.parent) && not (valid_snapshot_id m.parent)
    then some malformed_parent
    else none
