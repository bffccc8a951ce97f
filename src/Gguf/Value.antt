-- ===== src/Gguf/Value.antt =====
-- crates/det-gguf/src/lib.rs: metadata values and how they are read.
pub mod Safe
use detllm.Base.{
  ℕ, ◌-◌, ◌^◌, Bool, ◌||◌, ◌&&◌, List, [], ltb, leb, ◌==◌, if◌then◌else◌, Outcome, ok, err, ◌>>=◌,
  ◌>>◌,
}
use detllm.Gguf.Reader.{
  GgufError, unsupported_value_type, Reader, Read, ensure_count, u8, u16, u32, u64, bool, string,
  read_many,
}

-- The signed numbers that the casts `as i8` and so on give.
pub data ℤ : Type 0 where
  pos negsuc : ℕ → ℤ

abbrev pub as_signed : ℕ → ℕ → ℤ
as_signed bits n = if ltb n (2 ^ (bits - 1)) then pos n else negsuc (2 ^ bits - 1 - n)

pub data MetadataValue : Type 0 where
  u8_value u16_value u32_value u64_value f32_value f64_value : ℕ → MetadataValue
  i8_value i16_value i32_value i64_value : ℤ → MetadataValue
  bool_value : Bool → MetadataValue
  string_value : List ℕ → MetadataValue
  array_u8 array_u16 array_u32 array_u64 array_f32 array_f64 : List ℕ → MetadataValue
  array_i8 array_i16 array_i32 array_i64 : List ℤ → MetadataValue
  array_bool : List Bool → MetadataValue
  array_string : List (List ℕ) → MetadataValue

-- A read whose result goes into a constructor.
abbrev pub into {ℓ κ} :
    {A : Type ℓ} {B : Type κ}
    → (A → B)
    → Outcome GgufError (A × Reader)
    → Outcome GgufError (B × Reader)
into f read = do (a, r) ← read; ok (f a, r)

-- The least size of an element, for each type that an array may have.
unfoldable pub min_elem_bytes : ℕ → Outcome GgufError ℕ
min_elem_bytes ty =
    if ty == 0 || ty == 1 || ty == 7
    then ok 1
    else if ty == 2 || ty == 3
    then ok 2
    else if leb 4 ty && leb ty 6
    then ok 4
    else if ty == 8 || (leb 10 ty && leb ty 12)
    then ok 8
    else err (unsupported_value_type ty)

module _ (valid_utf8 : List ℕ → Bool) where
  -- The inner match, on the type of the elements.
  unfoldable pub read_array : ℕ → ℕ → Reader → Read MetadataValue
  read_array ty n r =
      if ty == 0
      then into array_u8 (read_many u8 n [] r)
      else if ty == 1
      then into array_i8 (read_many (λ r. into (as_signed 8) (u8 r)) n [] r)
      else if ty == 2
      then into array_u16 (read_many u16 n [] r)
      else if ty == 3
      then into array_i16 (read_many (λ r. into (as_signed 16) (u16 r)) n [] r)
      else if ty == 4
      then into array_u32 (read_many u32 n [] r)
      else if ty == 5
      then into array_i32 (read_many (λ r. into (as_signed 32) (u32 r)) n [] r)
      else if ty == 6
      then into array_f32 (read_many u32 n [] r)
      else if ty == 7
      then into array_bool (read_many bool n [] r)
      else if ty == 8
      then into array_string (read_many (string valid_utf8) n [] r)
      else if ty == 10
      then into array_u64 (read_many u64 n [] r)
      else if ty == 11
      then into array_i64 (read_many (λ r. into (as_signed 64) (u64 r)) n [] r)
      else if ty == 12
      then into array_f64 (read_many u64 n [] r)
      else err (unsupported_value_type ty)

  -- The branch of `read_value` for arrays.
  unfoldable pub read_counted : Reader → Read MetadataValue
  unfolding read_array
  read_counted start = do
    (elem_ty, r) ← u32 start
    (n, r') ← u64 r
    size ← min_elem_bytes elem_ty
    ensure_count r' n size
    read_array elem_ty n r'

  unfoldable pub read_value : Reader → Read MetadataValue
  unfolding read_counted
  read_value start = do
    (ty, r) ← u32 start
    if ty == 0
        then into u8_value (u8 r)
        else if ty == 1
        then into (λ n. i8_value (as_signed 8 n)) (u8 r)
        else if ty == 2
        then into u16_value (u16 r)
        else if ty == 3
        then into (λ n. i16_value (as_signed 16 n)) (u16 r)
        else if ty == 4
        then into u32_value (u32 r)
        else if ty == 5
        then into (λ n. i32_value (as_signed 32 n)) (u32 r)
        else if ty == 6
        then into f32_value (u32 r)
        else if ty == 7
        then into bool_value (bool r)
        else if ty == 8
        then into string_value (string valid_utf8 r)
        else if ty == 9
        then read_counted r
        else if ty == 10
        then into u64_value (u64 r)
        else if ty == 11
        then into (λ n. i64_value (as_signed 64 n)) (u64 r)
        else if ty == 12
        then into f64_value (u64 r)
        else err (unsupported_value_type ty)
