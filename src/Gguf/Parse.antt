-- ===== src/Gguf/Parse.antt =====
-- crates/det-gguf/src/lib.rs: `parse`, and the lookups on what it returns.
-- The map of the metadata is a list of keys and values, each key once.
pub mod Lookup
pub mod Safe
pub mod Align
use detllm.Base.{
  ℕ, zero, suc, ◌+◌, ◌-◌, ◌^◌, bit_and, Bool, true, false, not, ◌&&◌, ◌||◌, Option, none, some,
  List, [], ◌∷◌, ◌++◌, ltb, leb, ◌==◌, if◌then◌else◌, length, Outcome, ok, err, ◌>>=◌, ◌>>◌, guard,
  ok_or, checked_add, checked_mul, same_bytes, slice,
}
use detllm.Gguf.Types.{from_u32}
use detllm.Gguf.Reader.{
  GgufError, bad_magic, unsupported_version, truncated, duplicate_metadata_key,
  duplicate_tensor_name, tensor_not_found, metadata_not_found, metadata_type_mismatch, Reader, Read,
  read_exact, ensure_count, u32, u64, string, read_many,
}
use detllm.Gguf.Value.{
  MetadataValue, u32_value, u64_value, f32_value, f64_value, string_value, read_value,
}
use detllm.Gguf.Layout.{TensorInfo, Range, data_range, validate_tensor_data_layout}

abbrev pub Metadata : Type 0
Metadata = List (List ℕ × MetadataValue)

pub record Gguf : Type 0 where
  pub version : ℕ
  pub metadata : Metadata
  pub tensors : List TensorInfo
  pub data_offset : ℕ
  pub file_len : ℕ

-- `BTreeMap::get`.
unfoldable pub get : Metadata → List ℕ → Option MetadataValue
get [] key = none
get ((k, v) ∷ metadata) key = if same_bytes k key then some v else get metadata key

-- `metadata.insert(key, value)`, refused where the key is there already.
unfoldable pub insert_new : Metadata → List ℕ → MetadataValue → Outcome GgufError Metadata
insert_new metadata key value = elim (get metadata key) [
  | none ↦ ok (metadata ++ ((key, value) ∷ []))
  | some v ↦ err duplicate_metadata_key
]

unfoldable pub has_name : List ℕ → List TensorInfo → Bool
has_name name [] = false
has_name name (t ∷ tensors) = if same_bytes t.name name then true else has_name name tensors

unfoldable pub align_up : ℕ → ℕ → Option ℕ
align_up x align = if align == 0 then none else elim (checked_add x (align - 1)) [
  | none ↦ none
  | some n ↦ some (bit_and n (2 ^ 64 - 1 - (align - 1)))
]

-- "GGUF".
abbrev pub magic : List ℕ
magic = b'G' ∷ b'G' ∷ b'U' ∷ b'F' ∷ []

module _ (valid_utf8 : List ℕ → Bool) where
  -- The loop over the metadata, on the entries left.
  unfoldable pub read_metadata : ℕ → Metadata → Reader → Read Metadata
  read_metadata zero metadata r = ok (metadata, r)
  read_metadata (suc n) metadata r = do
    (key, r₁) ← string valid_utf8 r
    (value, r₂) ← read_value valid_utf8 r₁
    metadata' ← insert_new metadata key value
    read_metadata n metadata' r₂

  -- What the loop over the tensors reads in one round.
  unfoldable pub read_tensor : Reader → Read TensorInfo
  read_tensor r = do
    (name, r₁) ← string valid_utf8 r
    (ndim, r₂) ← u32 r₁
    (dimensions, r₃) ← read_many u64 ndim [] r₂
    (raw, r₄) ← u32 r₃
    (offset, r₅) ← u64 r₄
    ok (record { name = name; dimensions = dimensions; ty = from_u32 raw; offset = offset }, r₅)

  unfoldable pub read_tensors : ℕ → List TensorInfo → Reader → Read (List TensorInfo)
  read_tensors zero tensors r = ok (tensors, r)
  read_tensors (suc n) tensors r = do
    (t, r') ← read_tensor r
    guard (not (has_name t.name tensors)) duplicate_tensor_name
    read_tensors n (tensors ++ (t ∷ [])) r'

  unfoldable pub parse_inner : List ℕ → Bool → Outcome GgufError Gguf
  parse_inner bytes validate_tensor_data = do
    (start, r₁) ← read_exact (record { bytes = bytes; pos = 0 }) 4
    guard (same_bytes start magic) bad_magic
    (version, r₂) ← u32 r₁
    guard (version == 2 || version == 3) (unsupported_version version)
    (tensor_count, r₃) ← u64 r₂
    (metadata_count, r₄) ← u64 r₃
    (metadata, r₅) ← read_metadata metadata_count [] r₄
    ensure_count r₅ tensor_count 24
    (tensors, r₆) ← read_tensors tensor_count [] r₅
    data_offset ← ok_or (align_up r₆.pos 32) truncated
    guard (not (validate_tensor_data && ltb (length bytes) data_offset)) truncated
    if validate_tensor_data
        then validate_tensor_data_layout data_offset (length bytes) tensors
        else ok tt
    ok (record {
      version = version;
      metadata = metadata;
      tensors = tensors;
      data_offset = data_offset;
      file_len = if validate_tensor_data then length bytes else data_offset;
    })

  unfoldable pub parse : List ℕ → Outcome GgufError Gguf
  parse bytes = parse_inner bytes true

  unfoldable pub parse_metadata_prefix : List ℕ → Outcome GgufError Gguf
  parse_metadata_prefix bytes = parse_inner bytes false

unfoldable pub metadata_value : Gguf → List ℕ → Outcome GgufError MetadataValue
metadata_value g key = ok_or (get g.metadata key) metadata_not_found

unfoldable pub metadata_str : Gguf → List ℕ → Outcome GgufError (List ℕ)
metadata_str g key = do
  value ← metadata_value g key
  elim value [ string_value s ↦ ok s | _ ↦ err metadata_type_mismatch ]

unfoldable pub metadata_u32 : Gguf → List ℕ → Outcome GgufError ℕ
metadata_u32 g key = do
  value ← metadata_value g key
  elim value [
    | u32_value v ↦ ok v
    | u64_value v ↦ if ltb v (2 ^ 32) then ok v else err metadata_type_mismatch
    | _ ↦ err metadata_type_mismatch
  ]

-- `f64_to_f32` stands for the cast `as f32`, on the bits of both numbers.
unfoldable pub metadata_f32 : (ℕ → ℕ) → Gguf → List ℕ → Outcome GgufError ℕ
metadata_f32 f64_to_f32 g key = do
  value ← metadata_value g key
  elim value [
    | f32_value v ↦ ok v
    | f64_value v ↦ ok (f64_to_f32 v)
    | _ ↦ err metadata_type_mismatch
  ]

-- `self.tensors.iter().filter(|t| t.name == name)`.
unfoldable pub named : List ℕ → List TensorInfo → List TensorInfo
named name [] = []
named name (t ∷ tensors) =
    let rest = named name tensors in if same_bytes t.name name then t ∷ rest else rest

unfoldable pub tensor : Gguf → List ℕ → Outcome GgufError TensorInfo
tensor g name = elim (named name g.tensors) [
  | [] ↦ err tensor_not_found
  | t ∷ [] ↦ ok t
  | t ∷ u ∷ rest ↦ err duplicate_tensor_name
]

unfoldable pub tensor_data_range : Gguf → TensorInfo → Outcome GgufError Range
tensor_data_range g t = data_range g.data_offset g.file_len t

unfoldable pub tensor_data : Gguf → List ℕ → List ℕ → Outcome GgufError (List ℕ)
tensor_data g bytes name = do
  t ← tensor g name
  range ← tensor_data_range g t
  if leb range.start range.end && leb range.end (length bytes)
      then ok (slice range.start range.end bytes)
      else err truncated
