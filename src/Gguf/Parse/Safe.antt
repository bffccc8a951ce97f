-- ===== src/Gguf/Parse/Safe.antt =====
-- `parse` never panics: every index is within what was read.
use detllm.Base.{
  ℕ, zero, suc, ◌*◌, arith, Bool, not, ◌&&◌, ◌||◌, none, some, List, [], ◌∷◌, ◌++◌, ltb, ◌==◌,
  if◌then◌else◌, length, ok, err, guard, ok_or, same_bytes, Returns, Returns->>=, Returns-guard,
  Returns-ok_or,
}
use detllm.Gguf.Layout.{
  TensorInfo, Range, multiply, element_count, encoded_len, data_range, data_ranges, sort,
  check_windows, validate_tensor_data_layout,
}
use detllm.Gguf.Reader.{
  bad_magic, truncated, unsupported_version, duplicate_tensor_name, duplicate_metadata_key, Reader,
  read_exact, ensure_count, u32, u64, string, read_many,
}
use detllm.Gguf.Value.{MetadataValue, read_value}
use detllm.Gguf.Parse.{
  Metadata, get, insert_new, has_name, align_up, magic, read_metadata, read_tensor, read_tensors,
  parse_inner,
}
use detllm.Gguf.Value.Safe.{
  read_exact-Returns, word-Returns, read_many-Returns, choose-Returns, ensure_count-Returns,
  string-Returns, read_value-Returns,
}

insert_new-Returns :
    (metadata : Metadata) (key : List ℕ) (value : MetadataValue)
    → Returns (insert_new metadata key value)
unfolding insert_new
insert_new-Returns metadata key value =
    elim (get metadata key)
      as (λ o. Returns (elim o [
        | none ↦ ok (metadata ++ ((key, value) ∷ []))
        | some v ↦ err duplicate_metadata_key
      ])) [ none ↦ tt | some v ↦ tt ]

multiply-Returns : (dimensions : List ℕ) (n : ℕ) → Returns (multiply dimensions n)
unfolding multiply
multiply-Returns [] n = tt
multiply-Returns (d ∷ dimensions) n = ground (arith, multiply-Returns dimensions (n * d))

encoded_len-Returns : (t : TensorInfo) → Returns (encoded_len t)
unfolding encoded_len element_count
encoded_len-Returns t = ground (arith, multiply-Returns t.dimensions 1)

data_ranges-Returns :
    (data_offset file_len : ℕ) (tensors : List TensorInfo)
    → Returns (data_ranges data_offset file_len tensors)
unfolding data_ranges data_range
data_ranges-Returns data_offset file_len [] = tt
data_ranges-Returns data_offset file_len (t ∷ tensors) =
    ground (arith, encoded_len-Returns t, data_ranges-Returns data_offset file_len tensors)

check_windows-Returns : (ranges : List Range) → Returns (check_windows ranges)
unfolding check_windows
check_windows-Returns [] = tt
check_windows-Returns (r ∷ []) = tt
check_windows-Returns (r ∷ s ∷ ranges) = ground (arith, check_windows-Returns (s ∷ ranges))

layout-Returns :
    (data_offset file_len : ℕ) (tensors : List TensorInfo)
    → Returns (validate_tensor_data_layout data_offset file_len tensors)
unfolding validate_tensor_data_layout
layout-Returns data_offset file_len tensors =
    Returns->>= (data_ranges data_offset file_len tensors) _
      (data_ranges-Returns data_offset file_len tensors)
      λ ranges found. check_windows-Returns (sort ranges)

module _ (valid_utf8 : List ℕ → Bool) where
  read_metadata-Returns :
      (n : ℕ) (metadata : Metadata) (r : Reader) → Returns (read_metadata valid_utf8 n metadata r)
  unfolding read_metadata
  read_metadata-Returns zero metadata r = tt
  read_metadata-Returns (suc n) metadata r =
      Returns->>= (string valid_utf8 r) _ (string-Returns valid_utf8 r) λ (key, r₁) one.
        Returns->>= (read_value valid_utf8 r₁) _ (read_value-Returns valid_utf8 r₁)
          λ (value, r₂) two.
            Returns->>= (insert_new metadata key value) _ (insert_new-Returns metadata key value)
              λ metadata' three. read_metadata-Returns n metadata' r₂

  read_tensor-Returns : (r : Reader) → Returns (read_tensor valid_utf8 r)
  unfolding read_tensor
  read_tensor-Returns r =
      Returns->>= (string valid_utf8 r) _ (string-Returns valid_utf8 r) λ (name, r₁) one.
        Returns->>= (u32 r₁) _ (word-Returns 4 r₁) λ (ndim, r₂) two.
          Returns->>= (read_many u64 ndim [] r₂) _
            (read_many-Returns u64 (word-Returns 8) ndim [] r₂)
            λ (dimensions, r₃) three.
              Returns->>= (u32 r₃) _ (word-Returns 4 r₃)
                λ (ty, r₄) four. Returns->>= (u64 r₄) _ (word-Returns 8 r₄) λ (offset, r₅) five. tt

  read_tensors-Returns :
      (n : ℕ) (tensors : List TensorInfo) (r : Reader)
      → Returns (read_tensors valid_utf8 n tensors r)
  unfolding read_tensors
  read_tensors-Returns zero tensors r = tt
  read_tensors-Returns (suc n) tensors r =
      Returns->>= (read_tensor valid_utf8 r) _ (read_tensor-Returns r) λ (t, r') one.
        Returns->>= (guard (not (has_name t.name tensors)) duplicate_tensor_name) _
          (Returns-guard (not (has_name t.name tensors)) duplicate_tensor_name)
          λ u two. read_tensors-Returns n (tensors ++ (t ∷ [])) r'

  -- `parse` and `parse_metadata_prefix`, which call this, end in a file or an error on every list of
  -- bytes, whatever `from_utf8` accepts: no index and no range of a slice is out of bounds. Running
  -- out of memory is not considered.
  pub parse_inner-Returns :
      (bytes : List ℕ) (validate_tensor_data : Bool)
      → Returns (parse_inner valid_utf8 bytes validate_tensor_data)
  unfolding parse_inner
  parse_inner-Returns bytes validate_tensor_data =
      Returns->>= (read_exact (record { bytes = bytes; pos = 0 }) 4) _
        (read_exact-Returns (record { bytes = bytes; pos = 0 }) 4)
        λ (start, r₁) e₁.
          Returns->>= (guard (same_bytes start magic) bad_magic) _
            (Returns-guard (same_bytes start magic) bad_magic)
            λ u₁ e₂. Returns->>= (u32 r₁) _ (word-Returns 4 r₁) λ (version, r₂) e₃.
              Returns->>= (guard (version == 2 || version == 3) (unsupported_version version)) _
                (Returns-guard (version == 2 || version == 3) (unsupported_version version))
                λ u₂ e₄. Returns->>= (u64 r₂) _ (word-Returns 8 r₂) λ (tensor_count, r₃) e₅.
                  Returns->>= (u64 r₃) _ (word-Returns 8 r₃) λ (metadata_count, r₄) e₆.
                    Returns->>= (read_metadata valid_utf8 metadata_count [] r₄) _
                      (read_metadata-Returns metadata_count [] r₄)
                      λ (metadata, r₅) e₇.
                        Returns->>= (ensure_count r₅ tensor_count 24) _
                          (ensure_count-Returns r₅ tensor_count 24)
                          λ u₃ e₈.
                            Returns->>= (read_tensors valid_utf8 tensor_count [] r₅) _
                              (read_tensors-Returns tensor_count [] r₅)
                              λ (tensors, r₆) e₉.
                                Returns->>= (ok_or (align_up r₆.pos 32) truncated) _
                                  (Returns-ok_or (align_up r₆.pos 32) truncated)
                                  λ data_offset e₁₀.
                                    Returns->>=
                                      (guard
                                        (not
                                          (validate_tensor_data && ltb (length bytes) data_offset))
                                        truncated)
                                      _
                                      (Returns-guard
                                        (not
                                          (validate_tensor_data && ltb (length bytes) data_offset))
                                        truncated)
                                      λ u₄ e₁₁.
                                        Returns->>=
                                          (if validate_tensor_data
                                            then validate_tensor_data_layout data_offset
                                                (length bytes) tensors
                                            else ok tt)
                                          _
                                          (choose-Returns validate_tensor_data _ _
                                            (layout-Returns data_offset (length bytes) tensors) tt)
                                          λ u₅ e₁₂. tt
