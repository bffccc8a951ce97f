-- ===== src/Gguf/Layout.antt =====
-- crates/det-gguf/src/lib.rs: the sizes of tensors and where their data lies in the file.
pub mod Sizes
pub mod Disjoint
use detllm.Base.{
  ℕ, zero, suc, ◌+◌, ◌-◌, ◌*◌, ◌/◌, ◌%◌, ◌^◌, Bool, true, false, not, Option, none, some, List, [],
  ◌∷◌, ltb, leb, ◌==◌, if◌then◌else◌, is_empty, length, Outcome, ok, err, ◌>>=◌, ◌>>◌, guard, ok_or,
  checked_add, checked_mul,
}
use detllm.Gguf.Types.{GgmlType, raw, type_size, block_size}
use detllm.Gguf.Reader.{
  GgufError, invalid_tensor_offset, invalid_tensor_shape, unsupported_tensor_type, truncated,
}

pub record TensorInfo : Type 0 where
  pub name : List ℕ
  pub dimensions : List ℕ
  pub ty : GgmlType
  pub offset : ℕ

-- The loop of `element_count`.
unfoldable pub multiply : List ℕ → ℕ → Outcome GgufError ℕ
multiply [] n = ok n
multiply (d ∷ dimensions) n = do
  guard (not (d == 0)) invalid_tensor_shape
  n ← ok_or (checked_mul n d) invalid_tensor_shape
  multiply dimensions n

unfoldable pub element_count : TensorInfo → Outcome GgufError ℕ
unfolding multiply
element_count t = do
  guard (not (is_empty t.dimensions)) invalid_tensor_shape
  multiply t.dimensions 1

unfoldable pub encoded_len : TensorInfo → Outcome GgufError ℕ
encoded_len t = do
  n ← element_count t
  size ← ok_or (type_size t.ty) (unsupported_tensor_type (raw t.ty))
  block ← ok_or (block_size t.ty) (unsupported_tensor_type (raw t.ty))
  guard (n % block == 0) invalid_tensor_shape
  ok_or (checked_mul (n / block) size) invalid_tensor_shape

-- `start..end`.
pub record Range : Type 0 where
  pub start : ℕ
  pub end : ℕ

-- What `tensor_data_range` and the loop of `validate_tensor_data_layout` do with a tensor.
unfoldable pub data_range : ℕ → ℕ → TensorInfo → Outcome GgufError Range
data_range data_offset file_len t = do
  len ← encoded_len t
  start ← ok_or (checked_add data_offset t.offset) invalid_tensor_offset
  end ← ok_or (checked_add start len) invalid_tensor_offset
  guard (not (ltb file_len end)) truncated
  ok (record { start = start; end = end })

unfoldable pub data_ranges : ℕ → ℕ → List TensorInfo → Outcome GgufError (List Range)
data_ranges data_offset file_len [] = ok []
data_ranges data_offset file_len (t ∷ tensors) = do
  r ← data_range data_offset file_len t
  rest ← data_ranges data_offset file_len tensors
  ok (r ∷ rest)

-- `sort_by_key(|range| range.start)`, which is stable.
unfoldable pub insert : Range → List Range → List Range
insert r [] = r ∷ []
insert r (s ∷ sorted) = if leb r.start s.start then r ∷ s ∷ sorted else s ∷ insert r sorted

unfoldable pub sort : List Range → List Range
sort [] = []
sort (r ∷ ranges) = insert r (sort ranges)

-- The loop over `windows(2)`.
unfoldable pub check_windows : List Range → Outcome GgufError (Unit {0})
check_windows [] = ok tt
check_windows (r ∷ []) = ok tt
check_windows (r ∷ s ∷ ranges) = do
  guard (not (ltb s.start r.end)) invalid_tensor_offset
  check_windows (s ∷ ranges)

unfoldable pub validate_tensor_data_layout : ℕ → ℕ → List TensorInfo → Outcome GgufError (Unit {0})
validate_tensor_data_layout data_offset file_len tensors = do
  ranges ← data_ranges data_offset file_len tensors
  check_windows (sort ranges)
