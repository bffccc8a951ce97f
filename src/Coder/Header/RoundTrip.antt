-- ===== src/Coder/Header/RoundTrip.antt =====
-- Encoding a header and reading it back.
use detllm.Base.{
  ℕ, ◌^◌, ◌<◌, ◌≡◌, refl, ◌∙◌, arith, true, false, List, [], ◌++◌, append_assoc, append-nil, length,
  length-append, ltb, ok, ◌>>◌, replicate, same_bytes, slice, slice-append, copy_next, to_le_bytes,
  from_le_bytes, from-to_le_bytes, length-to_le_bytes,
}
use detllm.Coder.Header.{DtlzHeader, magic, version, header_len, encode, validate, decode}

-- The fields of a header are of the widths that the struct declares.
pub record IsTyped (h : DtlzHeader) : Type 0 where
  pub flags_word : h.flags < 2 ^ 16
  pub hash_length : length h.model_sha256 ≡ 32
  pub n_ctx_word : h.n_ctx < 2 ^ 32
  pub overlap_word : h.overlap < 2 ^ 32
  pub orig_len_word : h.orig_len < 2 ^ 64

-- The header up to each of its fields.
module _ (h : DtlzHeader) where
  abbrev pub upto_magic : List ℕ
  upto_magic = [] ++ magic

  abbrev pub upto_version : List ℕ
  upto_version = upto_magic ++ to_le_bytes 2 version

  abbrev pub upto_flags : List ℕ
  upto_flags = upto_version ++ to_le_bytes 2 h.flags

  abbrev pub upto_hash : List ℕ
  upto_hash = upto_flags ++ h.model_sha256

  abbrev pub upto_n_ctx : List ℕ
  upto_n_ctx = upto_hash ++ to_le_bytes 4 h.n_ctx

  abbrev pub upto_overlap : List ℕ
  upto_overlap = upto_n_ctx ++ to_le_bytes 4 h.overlap

  abbrev pub upto_orig_len : List ℕ
  upto_orig_len = upto_overlap ++ to_le_bytes 8 h.orig_len

-- Where each field begins.
module _ (h : DtlzHeader) (t : IsTyped h) where
  length-upto_version : length (upto_version h) ≡ 6
  unfolding to_le_bytes
  length-upto_version = refl

  length-upto_flags : length (upto_flags h) ≡ 8
  length-upto_flags =
      length-append (upto_version h) (to_le_bytes 2 h.flags)
      ∙ omega (arith, length-to_le_bytes 2 h.flags, length-upto_version)

  length-upto_hash : length (upto_hash h) ≡ 40
  length-upto_hash =
      length-append (upto_flags h) h.model_sha256 ∙ omega (arith, t.hash_length, length-upto_flags)

  length-upto_n_ctx : length (upto_n_ctx h) ≡ 44
  length-upto_n_ctx =
      length-append (upto_hash h) (to_le_bytes 4 h.n_ctx)
      ∙ omega (arith, length-to_le_bytes 4 h.n_ctx, length-upto_hash)

  length-upto_overlap : length (upto_overlap h) ≡ 48
  length-upto_overlap =
      length-append (upto_n_ctx h) (to_le_bytes 4 h.overlap)
      ∙ omega (arith, length-to_le_bytes 4 h.overlap, length-upto_n_ctx)

  pub length-upto_orig_len : length (upto_orig_len h) ≡ 56
  length-upto_orig_len =
      length-append (upto_overlap h) (to_le_bytes 8 h.orig_len)
      ∙ omega (arith, length-to_le_bytes 8 h.orig_len, length-upto_overlap)

  -- The copies of `encode` lay the fields out one behind the other.
  pub encode_lem : encode h ≡ upto_orig_len h
  unfolding encode
  encode_lem =
      rw
        (
          copy_next 0 4 magic [] (replicate 56 0) refl refl,
          copy_next 4 2 (to_le_bytes 2 version) (upto_magic h) (replicate 52 0) refl
              (length-to_le_bytes 2 version),
          copy_next 6 2 (to_le_bytes 2 h.flags) (upto_version h) (replicate 50 0)
              length-upto_version (length-to_le_bytes 2 h.flags),
          copy_next 8 32 h.model_sha256 (upto_flags h) (replicate 48 0) length-upto_flags
              t.hash_length,
          copy_next 40 4 (to_le_bytes 4 h.n_ctx) (upto_hash h) (replicate 16 0) length-upto_hash
              (length-to_le_bytes 4 h.n_ctx),
          copy_next 44 4 (to_le_bytes 4 h.overlap) (upto_n_ctx h) (replicate 12 0) length-upto_n_ctx
              (length-to_le_bytes 4 h.overlap),
          copy_next 48 8 (to_le_bytes 8 h.orig_len) (upto_overlap h) (replicate 8 0)
              length-upto_overlap (length-to_le_bytes 8 h.orig_len),
        )
        (append-nil (upto_orig_len h))

-- Reading back what `encode` wrote, whatever follows it.
module _ (h : DtlzHeader) (t : IsTyped h) (rest : List ℕ) where
  abbrev whole : List ℕ
  whole = upto_orig_len h ++ rest

  abbrev after_overlap : List ℕ
  after_overlap = to_le_bytes 8 h.orig_len ++ rest

  abbrev after_n_ctx : List ℕ
  after_n_ctx = to_le_bytes 4 h.overlap ++ after_overlap

  abbrev after_hash : List ℕ
  after_hash = to_le_bytes 4 h.n_ctx ++ after_n_ctx

  abbrev after_flags : List ℕ
  after_flags = h.model_sha256 ++ after_hash

  at_overlap : whole ≡ upto_overlap h ++ after_overlap
  at_overlap = append_assoc (upto_overlap h) (to_le_bytes 8 h.orig_len) rest

  at_n_ctx : whole ≡ upto_n_ctx h ++ after_n_ctx
  at_n_ctx = at_overlap ∙ append_assoc (upto_n_ctx h) (to_le_bytes 4 h.overlap) after_overlap

  at_hash : whole ≡ upto_hash h ++ after_hash
  at_hash = at_n_ctx ∙ append_assoc (upto_hash h) (to_le_bytes 4 h.n_ctx) after_n_ctx

  at_flags : whole ≡ upto_flags h ++ after_flags
  at_flags = at_hash ∙ append_assoc (upto_flags h) h.model_sha256 after_hash

  at_version : whole ≡ upto_version h ++ (to_le_bytes 2 h.flags ++ after_flags)
  at_version = at_flags ∙ append_assoc (upto_version h) (to_le_bytes 2 h.flags) after_flags

  magic_lem : same_bytes (slice 0 4 whole) magic ≡ true
  unfolding same_bytes
  magic_lem = refl

  version_lem : from_le_bytes (slice 4 6 whole) ≡ version
  unfolding to_le_bytes from_le_bytes
  version_lem = refl

  flags_lem : from_le_bytes (slice 6 8 whole) ≡ h.flags
  flags_lem =
      rw
        (
          at_flags,
          slice-append 6 8 (upto_version h) (to_le_bytes 2 h.flags) after_flags
              (length-upto_version h t) (omega (arith, length-to_le_bytes 2 h.flags)),
        )
        (from-to_le_bytes 2 h.flags (omega (arith, t.flags_word)))

  hash_lem : slice 8 40 whole ≡ h.model_sha256
  hash_lem = rw at_hash (
      slice-append 8 40 (upto_flags h) h.model_sha256 after_hash (length-upto_flags h t)
        (omega (arith, t.hash_length)))

  n_ctx_lem : from_le_bytes (slice 40 44 whole) ≡ h.n_ctx
  n_ctx_lem =
      rw
        (
          at_n_ctx,
          slice-append 40 44 (upto_hash h) (to_le_bytes 4 h.n_ctx) after_n_ctx
              (length-upto_hash h t) (omega (arith, length-to_le_bytes 4 h.n_ctx)),
        )
        (from-to_le_bytes 4 h.n_ctx (omega (arith, t.n_ctx_word)))

  overlap_lem : from_le_bytes (slice 44 48 whole) ≡ h.overlap
  overlap_lem =
      rw
        (
          at_overlap,
          slice-append 44 48 (upto_n_ctx h) (to_le_bytes 4 h.overlap) after_overlap
              (length-upto_n_ctx h t) (omega (arith, length-to_le_bytes 4 h.overlap)),
        )
        (from-to_le_bytes 4 h.overlap (omega (arith, t.overlap_word)))

  orig_len_lem : from_le_bytes (slice 48 56 whole) ≡ h.orig_len
  orig_len_lem =
      rw
        (slice-append 48 56 (upto_overlap h) (to_le_bytes 8 h.orig_len) rest
          (length-upto_overlap h t) (omega (arith, length-to_le_bytes 8 h.orig_len)))
        (from-to_le_bytes 8 h.orig_len (omega (arith, t.orig_len_word)))

  -- Take a header whose fields are of their declared widths, and any bytes behind its encoding.
  -- `decode` gives back the header if `validate` accepts it, and the error of `validate` if not.
  pub decode-encode : decode (encode h ++ rest) ≡ (validate h >> ok h)
  unfolding decode validate
  decode-encode =
      let long : ltb (length whole) header_len ≡ false =
        ground (arith, length-append (upto_orig_len h) rest, length-upto_orig_len h t) in
      rw
        (
          encode_lem h t,
          long,
          magic_lem,
          version_lem,
          flags_lem,
          hash_lem,
          n_ctx_lem,
          overlap_lem,
          orig_len_lem,
        )
        (ground arith)
