-- ===== src/Repo/Stored/Samples.antt =====
-- Tests of internal/repo/object.go and internal/compress/compress.go, and their theorem on a file,
-- with a codec that takes off or adds a leading zero.
use better_amp_backup.Prelude.{true, false, [], ◌∷◌, codes, ◌≡◌, refl}
use better_amp_backup.Repo.Manifest.{Hash}
use better_amp_backup.Repo.Stored.{
  Bytes, Codec, Written, Outcome, ok, err, read_failed, truncated_header, unknown_algo,
  skip_by_name, write_object, open_object,
}
use better_amp_backup.Repo.Stored.Reads.{IsStored, write_object-IsStored}

abbrev strip : Bytes → Outcome Bytes
strip [] = err read_failed
strip (b ∷ bs) = ok bs

abbrev codec : Codec
codec = record {
  makes_encoders = true;
  makes_decoders = true;
  encode_all = λ bs. [];
  encode_stream = λ bs. 0 ∷ bs;
  decode_stream = strip;
}

abbrev hash_of : Bytes → Hash
hash_of bs = 7 ∷ []

skips_jar : skip_by_name (codes "mods/a.v2.JAR") ≡ true
unfolding skip_by_name
skips_jar = refl

no_skip_behind_slash : skip_by_name (codes "x.zip/level") ≡ false
unfolding skip_by_name
no_skip_behind_slash = refl

stored_file :
    write_object hash_of codec (codes "log") (record { bytes = 5 ∷ []; breaks = false })
    ≡ ok (record {
      file = 65 ∷ 66 ∷ 66 ∷ 79 ∷ 1 ∷ 1 ∷ 0 ∷ 0 ∷ 0 ∷ 5 ∷ [];
      hash = 7 ∷ [];
      size = 1;
      stored_size = 10;
      algo = 1;
    })
unfolding write_object
stored_file = refl

opens_no_stray : open_object codec (65 ∷ 66 ∷ []) ≡ err truncated_header
unfolding open_object
opens_no_stray = refl

opens_no_unknown : open_object codec (65 ∷ 66 ∷ 66 ∷ 79 ∷ 1 ∷ 2 ∷ 0 ∷ 0 ∷ []) ≡ err (unknown_algo 2)
unfolding open_object
opens_no_unknown = refl

write_object-IsStored_example :
    (w : Written) × (write_object hash_of codec
        (codes "log")
        (record { bytes = 5 ∷ []; breaks = false })
      ≡ ok w)
    × IsStored hash_of codec (5 ∷ []) w
write_object-IsStored_example =
    write_object-IsStored hash_of codec refl refl (λ bs. refl) (codes "log")
      (record { bytes = 5 ∷ []; breaks = false }) refl
