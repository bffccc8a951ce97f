-- ===== src/Coder/Header/Canonical.antt =====
-- What `DtlzHeader::decode` accepts is what `encode` writes.
use detllm.Base.{
  ℕ, ap₂, ◌↔◌, ◌-◌, ◌^◌, ◌≤◌, ◌<◌, ◌≡◌, refl, sym, ap, ◌∙◌, arith, List, ◌++◌, length, All, IsByte,
  ok, same_bytes_iff, slice, take, drop, length-take_of_le, length-drop, take-append-drop,
  take-append-slice, from_le_bytes-slice-lt, to-from_le_bytes-slice, to_le_bytes, from_le_bytes,
}
use detllm.Base.Bits.{bit_and-even_mask}
use detllm.Coder.Header.{DtlzHeader, magic, version, encode, validate, decode}
use detllm.Coder.Header.RoundTrip.{IsTyped, encode_lem}

-- The header that `decode` reads from the fields.
abbrev fields : List ℕ → DtlzHeader
fields bytes = record {
  flags = from_le_bytes (slice 6 8 bytes);
  model_sha256 = slice 8 40 bytes;
  n_ctx = from_le_bytes (slice 40 44 bytes);
  overlap = from_le_bytes (slice 44 48 bytes);
  orig_len = from_le_bytes (slice 48 56 bytes);
}

decode-ok :
    (bytes : List ℕ) {h : DtlzHeader}
    → decode bytes ≡ ok h
    → (56 ≤ length bytes)
      × (slice 0 4 bytes ≡ magic)
      × (from_le_bytes (slice 4 6 bytes) ≡ version)
      × (validate (fields bytes) ≡ ok tt)
      × (fields bytes ≡ h)
unfolding decode
decode-ok bytes h = ground (arith, same_bytes_iff (slice 0 4 bytes) magic)

module _ (bytes : List ℕ) (all : All IsByte bytes) (long : 56 ≤ length bytes) where
  fields-IsTyped : IsTyped (fields bytes)
  fields-IsTyped = record {
    flags_word = from_le_bytes-slice-lt 6 8 bytes all (omega arith) (omega arith);
    hash_length = length-take_of_le 32 (drop 8 bytes) (omega (arith, length-drop 8 bytes));
    n_ctx_word = from_le_bytes-slice-lt 40 44 bytes all (omega arith) (omega arith);
    overlap_word = from_le_bytes-slice-lt 44 48 bytes all (omega arith) (omega arith);
    orig_len_word = from_le_bytes-slice-lt 48 56 bytes all (omega arith) (omega arith);
  }

  written :
      (from to : ℕ) {done : List ℕ}
      → done ≡ take from bytes
      → from ≤ to
      → to ≤ 56
      → done ++ to_le_bytes (to - from) (from_le_bytes (slice from to bytes)) ≡ take to bytes
  written from to e le inside =
      ap₂ ◌++◌ e (to-from_le_bytes-slice from to bytes all le (omega arith))
      ∙ take-append-slice from to bytes le

  -- The fields of the bytes, written again.
  encode-fields :
      slice 0 4 bytes ≡ magic
      → from_le_bytes (slice 4 6 bytes) ≡ version
      → encode (fields bytes) ++ drop 56 bytes ≡ bytes
  encode-fields m v =
      let upto_4 : magic ++ to_le_bytes 2 version
          ≡ take 4 bytes ++ to_le_bytes 2 (from_le_bytes (slice 4 6 bytes)) =
        ap₂ (λ (x : List ℕ) (y : ℕ). x ++ to_le_bytes 2 y) (sym m) (sym v) in
      let upto_6 = upto_4 ∙ written 4 6 refl (omega arith) (omega arith) in
      let upto_8 = written 6 8 upto_6 (omega arith) (omega arith) in
      let upto_40 =
        ap (λ (x : List ℕ). x ++ slice 8 40 bytes) upto_8
        ∙ take-append-slice 8 40 bytes (omega arith) in
      let upto_44 = written 40 44 upto_40 (omega arith) (omega arith) in
      let upto_48 = written 44 48 upto_44 (omega arith) (omega arith) in
      let upto_56 = written 48 56 upto_48 (omega arith) (omega arith) in
      rw (encode_lem (fields bytes) fields-IsTyped)
        (ap (λ (x : List ℕ). x ++ drop 56 bytes) upto_56 ∙ take-append-drop 56 bytes)

-- If `decode` accepts some bytes, then the header that it returns has fields of their declared
-- widths, `validate` accepts it, and the bytes are its encoding and what stands after 56 bytes.
pub encode-decode :
    (bytes : List ℕ) {h : DtlzHeader}
    → All IsByte bytes
    → decode bytes ≡ ok h
    → IsTyped h × (validate h ≡ ok tt) × (bytes ≡ encode h ++ drop 56 bytes)
encode-decode bytes {h} all found =
    let (long, m, v, valid, same) = decode-ok bytes found in
    rw (← same) (fields-IsTyped bytes all long, valid, sym (encode-fields bytes all long m v))

-- With flags of 16 bits, `validate` accepts a header exactly if no flag but that for byte escapes
-- is set, the context is not empty and the overlap is shorter than the context.
validate_iff :
    (h : DtlzHeader)
    → h.flags < 2 ^ 16
    → (validate h ≡ ok tt) ↔ ((h.flags ≤ 1) × (0 < h.n_ctx) × (h.overlap < h.n_ctx))
unfolding validate
validate_iff h word = ground (arith, bit_and-even_mask 15 h.flags)
