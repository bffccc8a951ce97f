-- ===== src/Gguf/Types.antt =====
-- crates/det-gguf/src/lib.rs: the types of tensors in a GGUF file.
use detllm.Base.{ℕ, ◌<◌, ◌≡◌, refl, arith, Option, none, some, ◌==◌, if◌then◌else◌}

pub data GgmlType : Type 0 where
  f32 f16 q4_0 q4_1 q5_0 q5_1 q8_0 q8_1 q2_k q3_k q4_k q5_k q6_k q8_k : GgmlType
  other : ℕ → GgmlType

unfoldable pub from_u32 : ℕ → GgmlType
from_u32 n =
    if n == 0
    then f32
    else if n == 1
    then f16
    else if n == 2
    then q4_0
    else if n == 3
    then q4_1
    else if n == 6
    then q5_0
    else if n == 7
    then q5_1
    else if n == 8
    then q8_0
    else if n == 9
    then q8_1
    else if n == 10
    then q2_k
    else if n == 11
    then q3_k
    else if n == 12
    then q4_k
    else if n == 13
    then q5_k
    else if n == 14
    then q6_k
    else if n == 15
    then q8_k
    else other n

unfoldable pub raw : GgmlType → ℕ
raw f32 = 0
raw f16 = 1
raw q4_0 = 2
raw q4_1 = 3
raw q5_0 = 6
raw q5_1 = 7
raw q8_0 = 8
raw q8_1 = 9
raw q2_k = 10
raw q3_k = 11
raw q4_k = 12
raw q5_k = 13
raw q6_k = 14
raw q8_k = 15
raw (other n) = n

unfoldable pub type_size : GgmlType → Option ℕ
type_size f32 = some 4
type_size f16 = some 2
type_size q4_0 = some 18
type_size q4_1 = some 20
type_size q5_0 = some 22
type_size q5_1 = some 24
type_size q8_0 = some 34
type_size q8_1 = some 40
type_size q2_k = some 84
type_size q3_k = some 110
type_size q4_k = some 144
type_size q5_k = some 176
type_size q6_k = some 210
type_size q8_k = some 292
type_size (other n) = none

unfoldable pub block_size : GgmlType → Option ℕ
block_size f32 = some 1
block_size f16 = some 1
block_size q4_0 = some 32
block_size q4_1 = some 32
block_size q5_0 = some 32
block_size q5_1 = some 32
block_size q8_0 = some 32
block_size q8_1 = some 32
block_size q2_k = some 256
block_size q3_k = some 256
block_size q4_k = some 256
block_size q5_k = some 256
block_size q6_k = some 256
block_size q8_k = some 256
block_size (other n) = none

-- `from_u32` loses nothing: `raw` gives back the number.
raw-from_u32 : (n : ℕ) → raw (from_u32 n) ≡ n
unfolding raw from_u32
raw-from_u32 n = ground arith

-- `type_size` and `block_size` know the same types, and their sizes are not 0.
pub data Sizes (t : GgmlType) : Type 0 where
  unknown : type_size t ≡ none → block_size t ≡ none → Sizes t
  known :
      (size block : ℕ)
      → type_size t ≡ some size
      → block_size t ≡ some block
      → 0 < size
      → 0 < block
      → Sizes t

pub Sizes-all : (t : GgmlType) → Sizes t
unfolding type_size block_size
Sizes-all f32 = known _ _ refl refl (omega arith) (omega arith)
Sizes-all f16 = known _ _ refl refl (omega arith) (omega arith)
Sizes-all q4_0 = known _ _ refl refl (omega arith) (omega arith)
Sizes-all q4_1 = known _ _ refl refl (omega arith) (omega arith)
Sizes-all q5_0 = known _ _ refl refl (omega arith) (omega arith)
Sizes-all q5_1 = known _ _ refl refl (omega arith) (omega arith)
Sizes-all q8_0 = known _ _ refl refl (omega arith) (omega arith)
Sizes-all q8_1 = known _ _ refl refl (omega arith) (omega arith)
Sizes-all q2_k = known _ _ refl refl (omega arith) (omega arith)
Sizes-all q3_k = known _ _ refl refl (omega arith) (omega arith)
Sizes-all q4_k = known _ _ refl refl (omega arith) (omega arith)
Sizes-all q5_k = known _ _ refl refl (omega arith) (omega arith)
Sizes-all q6_k = known _ _ refl refl (omega arith) (omega arith)
Sizes-all q8_k = known _ _ refl refl (omega arith) (omega arith)
Sizes-all (other n) = unknown refl refl
