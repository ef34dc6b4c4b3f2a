-- ===== src/Repo/Stored/Reads.antt =====
-- What `writeObject` writes is what `Open` reads (internal/repo/objectfs.go).
use better_amp_backup.Prelude.{
  ℕ, Bool, true, false, not, ◌&&◌, if◌then◌else◌, ltb, length, take, ◌≡◌, ◌⊎◌, inl, inr, refl, ◌∙◌,
  arith, if_cases,
}
use better_amp_backup.Paths.{Text}
use better_amp_backup.Repo.Manifest.{Hash}
use better_amp_backup.Repo.Stored.{
  Bytes, Codec, Source, Written, Outcome, ok, err, read_failed, encoder_failed, algo_none,
  algo_zstd, choose_algo, write_with, write_object, open_object, open_payload, written,
  encode_object_header, probe_size, encode_with, chosen, encode, skip_by_name, too_large,
}

-- The stored file gives the bytes, under their hash and with their sizes.
pub record IsStored (hash_of : Bytes → Hash) (z : Codec) (src : Bytes) (w : Written) : Type 0 where
  pub reads : open_object z w.file ≡ ok src
  pub hash : w.hash ≡ hash_of src
  pub size : w.size ≡ length src
  pub stored_size : w.stored_size ≡ length w.file

abbrev IsKnown : Outcome ℕ → Type 0
IsKnown x = (x ≡ ok algo_none) ⊎ (x ≡ ok algo_zstd)

either-IsKnown :
    (b c : Bool) (src out : Bytes)
    → IsKnown (
        chosen
          (ok (if b then (src, algo_none) else if c then (src, algo_none) else (out, algo_zstd))))
either-IsKnown true c src out = inl refl
either-IsKnown false true src out = inl refl
either-IsKnown false false src out = inr refl

unless-IsKnown :
    (b makes : Bool) (src : Bytes) (x : Bytes × ℕ)
    → makes ≡ true
    → IsKnown (chosen (ok x))
    → IsKnown
        (chosen (if b then ok (src, algo_none) else if not makes then err encoder_failed else ok x))
unless-IsKnown true makes src x q k = inl refl
unless-IsKnown false true src x q k = k
unless-IsKnown false false src x q k = absurd (ground arith)

encode-IsKnown :
    (z : Codec) (src : Bytes) (name : Text)
    → z.makes_encoders ≡ true
    → IsKnown (chosen (encode z src name))
unfolding encode
encode-IsKnown z src name makes = unless-IsKnown _ z.makes_encoders src (encode_with z src) makes (
    either-IsKnown
      (ltb probe_size (length src)
        && too_large (length (z.encode_all (take probe_size src))) probe_size)
      (too_large (length (z.encode_all src)) (length src)) src (z.encode_all src))

choose_algo-IsKnown :
    (z : Codec) (name : Text) (probe : Bytes)
    → z.makes_encoders ≡ true
    → IsKnown (choose_algo z name probe)
unfolding choose_algo
choose_algo-IsKnown z name probe makes =
    if_cases IsKnown (skip_by_name name) (λ _. inl refl)
      (λ _.
        if_cases IsKnown (ltb 0 (length probe)) (λ _. encode-IsKnown z probe name makes)
          (λ _. inr refl))

goes_on :
    (a b : Bool) (x : Outcome Written) → a ≡ false → (if a && b then err read_failed else x) ≡ x
goes_on a b x q = ground arith

module _ (hash_of : Bytes → Hash) (z : Codec) (encodes : z.makes_encoders ≡ true)
    (decodes : z.makes_decoders ≡ true)
    (inverse : (bs : Bytes) → z.decode_stream (z.encode_stream bs) ≡ ok bs) where
  write_with-IsStored :
      (src : Source) (algo : Outcome ℕ)
      → src.breaks ≡ false
      → IsKnown algo
      → (w : Written) × (write_with hash_of z src algo ≡ ok w) × IsStored hash_of z src.bytes w
  unfolding write_with open_object open_payload encode_object_header
  write_with-IsStored src algo whole (inl q) = (
    written hash_of z algo_none src.bytes src.bytes,
    rw (q, whole) refl,
    record { reads = refl; hash = refl; size = refl; stored_size = omega arith },
  )
  write_with-IsStored src algo whole (inr q) = (
    written hash_of z algo_zstd src.bytes (z.encode_stream src.bytes),
    rw (q, encodes, whole) refl,
    record {
      reads = rw decodes (inverse src.bytes);
      hash = refl;
      size = refl;
      stored_size = omega arith;
    },
  )

  -- Where the zstd library makes encoders and decoders, a decoder reads what an encoder of a stream
  -- has written, and the reader of a file does not fail, `writeObject` returns a result under every
  -- name: opening the file that it wrote gives the bytes back, whether they were compressed or not,
  -- the hash is that of the bytes, the size is their number and the stored size that of the file.
  pub write_object-IsStored :
      (name : Text) (src : Source)
      → src.breaks ≡ false
      → (w : Written) × (write_object hash_of z name src ≡ ok w) × IsStored hash_of z src.bytes w
  unfolding write_object
  write_object-IsStored name src whole =
      let (w, returns, stored) =
        write_with-IsStored src (choose_algo z name (take probe_size src.bytes)) whole
          (choose_algo-IsKnown z name (take probe_size src.bytes) encodes) in
      (w, goes_on src.breaks _ _ whole ∙ returns, stored)
