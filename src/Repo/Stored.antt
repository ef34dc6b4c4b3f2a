-- ===== src/Repo/Stored.antt =====
-- How an object's content stands on disk (internal/repo/object.go, `writeObject` and `Open` of
-- internal/repo/objectfs.go, and the choice of internal/compress/compress.go). The zstd library
-- and the hash are parameters. Bytes and the code points of a name are numbers.
pub mod Reads
mod Samples
use better_amp_backup.Prelude.{
  ℕ, ◌+◌, ◌*◌, Bool, true, false, ◌&&◌, ◌||◌, not, ◌==◌, ltb, leb, any, list_eq, if◌then◌else◌,
  List, [], ◌∷◌, ◌++◌, take, length, map, codes, String,
}
use better_amp_backup.Paths.{Text, slash}
use better_amp_backup.Repo.Manifest.{Hash}

abbrev pub Bytes : Type 0
Bytes = List ℕ

-- `Algo` is a byte, with two values that are known.
abbrev pub algo_none : ℕ
algo_none = 0

abbrev pub algo_zstd : ℕ
algo_zstd = 1

-- `Algo.Valid`
abbrev pub valid_algo : ℕ → Bool
valid_algo a = a == algo_none || a == algo_zstd

pub data ObjectError : Type 0 where
  read_failed truncated_header bad_magic : ObjectError
  unsupported_version unknown_algo : ℕ → ObjectError
  encoder_failed decoder_failed : ObjectError

pub data Outcome {ℓ} (A : Type ℓ) : Type ℓ where
  ok : A → Outcome A
  err : ObjectError → Outcome A

-- The library at the store's level: whether it makes encoders and decoders, what `EncodeAll` and
-- an encoder that writes to a stream make of bytes, and what a decoder reads.
pub record Codec : Type 0 where
  pub makes_encoders : Bool
  pub makes_decoders : Bool
  pub encode_all : Bytes → Bytes
  pub encode_stream : Bytes → Bytes
  pub decode_stream : Bytes → Outcome Bytes

pub record ObjectHeader : Type 0 where
  pub version : ℕ
  pub algo : ℕ

abbrev pub object_version : ℕ
object_version = 1

abbrev pub object_magic : Bytes
object_magic = codes "ABBO"

-- `encodeObjectHeader`
pub encode_object_header : ObjectHeader → Bytes
encode_object_header h = object_magic ++ h.version ∷ h.algo ∷ 0 ∷ 0 ∷ []

abbrev pub check_header : Bool → ObjectHeader → Outcome ObjectHeader
check_header magic h =
    if not magic
    then err bad_magic
    else if not (h.version == object_version)
    then err (unsupported_version h.version)
    else if not (valid_algo h.algo)
    then err (unknown_algo h.algo)
    else ok h

-- `path.Ext`: from the last dot behind the last slash
abbrev pub ext_from : Text → Text → Text
ext_from found [] = found
ext_from found (c ∷ cs) =
    let behind_slash = ext_from [] cs in
    let behind_dot = ext_from (c ∷ cs) cs in
    let rest = ext_from found cs in
    if c == slash then behind_slash else if c == 46 then behind_dot else rest

-- `unicode.ToLower` where it gives an ASCII letter: of A to Z, of U+0130 and of U+212A
abbrev pub to_lower : ℕ → ℕ
to_lower c =
    if leb 65 c && leb c 90 then c + 32 else if c == 304 then 105 else if c == 8490 then 107 else c

abbrev pub already_compressed : List Text
already_compressed =
    codes ".zip"
    ∷ codes ".jar"
    ∷ codes ".gz"
    ∷ codes ".xz"
    ∷ codes ".zst"
    ∷ codes ".bz2"
    ∷ codes ".7z"
    ∷ codes ".rar"
    ∷ codes ".png"
    ∷ codes ".jpg"
    ∷ codes ".jpeg"
    ∷ codes ".webp"
    ∷ codes ".ogg"
    ∷ codes ".mp3"
    ∷ codes ".mp4"
    ∷ codes ".webm"
    ∷ []

-- `SkipByName`
unfoldable pub skip_by_name : Text → Bool
skip_by_name name = any (list_eq (map to_lower (ext_from [] name))) already_compressed

abbrev pub probe_size : ℕ
probe_size = 131072

-- `float64(out)/float64(src) > worthwhileRatio`; lengths below 2^48 are compared without an error.
abbrev pub too_large : ℕ → ℕ → Bool
too_large out src = ltb (95 * src) (100 * out)

-- the choice of `Encode` behind its early return, with the bytes that it returns
abbrev pub encode_with : Codec → Bytes → Bytes × ℕ
encode_with z src =
    let out = z.encode_all src in
    if ltb probe_size (length src)
      && too_large (length (z.encode_all (take probe_size src))) probe_size
    then (src, algo_none)
    else if too_large (length out) (length src)
    then (src, algo_none)
    else (out, algo_zstd)

-- `Encode`
unfoldable pub encode : Codec → Bytes → Text → Outcome (Bytes × ℕ)
unfolding skip_by_name
encode z src name =
    if length src == 0 || skip_by_name name
    then ok (src, algo_none)
    else if not z.makes_encoders
    then err encoder_failed
    else ok (encode_with z src)

-- What a reader gives: its bytes, and whether it fails behind them.
pub record Source : Type 0 where
  pub bytes : Bytes
  pub breaks : Bool

-- The temporary file and the result of `writeObject`.
pub record Written : Type 0 where
  pub file : Bytes
  pub hash : Hash
  pub size : ℕ
  pub stored_size : ℕ
  pub algo : ℕ

abbrev pub object_header_size : ℕ
object_header_size = 8

abbrev pub chosen : Outcome (Bytes × ℕ) → Outcome ℕ
chosen (ok (out, algo)) = ok algo
chosen (err e) = err e

-- the encoding that `writeObject` chooses from the probe
pub choose_algo : Codec → Text → Bytes → Outcome ℕ
unfolding encode
choose_algo z name probe =
    if skip_by_name name
    then ok algo_none
    else if ltb 0 (length probe)
    then chosen (encode z probe name)
    else ok algo_zstd

module _ (hash_of : Bytes → Hash) (z : Codec) where
  abbrev pub written : ℕ → Bytes → Bytes → Written
  written algo src payload = record {
    file = encode_object_header (record { version = object_version; algo = algo }) ++ payload;
    hash = hash_of src;
    size = length src;
    stored_size = object_header_size + length payload;
    algo = algo;
  }

  -- from the header on
  pub write_with : Source → Outcome ℕ → Outcome Written
  unfolding encode_object_header
  write_with src (err e) = err e
  write_with src (ok algo) =
      if algo == algo_zstd
      then (if not z.makes_encoders
          then err encoder_failed
          else if src.breaks
          then err read_failed
          else ok (written algo src.bytes (z.encode_stream src.bytes)))
      else if src.breaks
      then err read_failed
      else ok (written algo src.bytes src.bytes)

  -- `writeObject`; a write to the temporary file does not fail
  unfoldable pub write_object : Text → Source → Outcome Written
  unfolding choose_algo write_with
  write_object name src =
      if src.breaks && ltb (length src.bytes) probe_size
      then err read_failed
      else write_with src (choose_algo z name (take probe_size src.bytes))

-- the rest of `Open` behind the header, with everything that the reader then gives
pub open_payload : Codec → Bytes → Outcome ObjectHeader → Outcome Bytes
open_payload z payload (err e) = err e
open_payload z payload (ok h) =
    if h.algo == algo_none
    then ok payload
    else if h.algo == algo_zstd
    then (if not z.makes_decoders then err decoder_failed else z.decode_stream payload)
    else err (unknown_algo h.algo)

-- `Open` of a file that is there, `io.ReadFull` of its header and `decodeObjectHeader`
unfoldable pub open_object : Codec → Bytes → Outcome Bytes
unfolding open_payload
open_object z (m ∷ n ∷ o ∷ p ∷ version ∷ algo ∷ f ∷ g ∷ payload) = open_payload z payload (
    check_header (list_eq (m ∷ n ∷ o ∷ p ∷ []) object_magic)
      (record { version = version; algo = algo }))
open_object z short = err truncated_header
