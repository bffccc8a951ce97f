-- ===== src/Gguf/Reader.antt =====
-- crates/det-gguf/src/lib.rs: `Reader`, which reads little-endian values from a file.
-- A string is the list of its bytes. `valid_utf8` stands for `std::str::from_utf8`, a number that
-- has floating point in the source is its bits.
use detllm.Base.{
  ℕ, zero, suc, Bool, true, false, not, List, [], ◌∷◌, ◌++◌, ltb, ◌==◌, if◌then◌else◌, length,
  get_elem?, Outcome, ok, err, ◌>>=◌, ◌>>◌, guard, ok_or, at_index, panic, leb, ◌&&◌, checked_add,
  checked_mul, slice, from_le_bytes,
}

pub data GgufError : Type 0 where
  bad_magic truncated invalid_utf8 invalid_tensor_offset invalid_tensor_shape tensor_not_found :
      GgufError
  metadata_not_found duplicate_metadata_key duplicate_tensor_name invalid_bool : GgufError
  metadata_type_mismatch : GgufError
  unsupported_version unsupported_value_type unsupported_tensor_type : ℕ → GgufError

pub record Reader : Type 0 where
  pub bytes : List ℕ
  pub pos : ℕ

-- What a method of the reader gives: its result and the reader after it.
abbrev pub Read : Type 0 → Type 0
Read A = Outcome GgufError (A × Reader)

-- `&bytes[from..to]`, which panics out of range.
abbrev pub index_range : ℕ → ℕ → List ℕ → Outcome GgufError (List ℕ)
index_range from to bytes =
    if leb from to && leb to (length bytes) then ok (slice from to bytes) else panic

unfoldable pub read_exact : Reader → ℕ → Read (List ℕ)
read_exact r n = do
  end ← ok_or (checked_add r.pos n) truncated
  guard (not (ltb (length r.bytes) end)) truncated
  out ← index_range r.pos end r.bytes
  ok (out, record r { pos = end })

unfoldable pub ensure_count : Reader → ℕ → ℕ → Outcome GgufError (Unit {0})
ensure_count r n min_item_bytes = do
  min_len ← ok_or (checked_mul n min_item_bytes) truncated
  end ← ok_or (checked_add r.pos min_len) truncated
  guard (not (ltb (length r.bytes) end)) truncated

unfoldable pub u8 : Reader → Read ℕ
u8 r = do (b, r') ← read_exact r 1; n ← at_index (get_elem? b 0); ok (n, r')

-- `[b[i], b[i + 1], …]`, of `n` elements. Each index panics out of range.
unfoldable pub index_from : ℕ → ℕ → List ℕ → Outcome GgufError (List ℕ)
index_from i zero b = ok []
index_from i (suc n) b = do
  x ← at_index (get_elem? b i)
  rest ← index_from (suc i) n b
  ok (x ∷ rest)

-- `u16`, `u32` and `u64`, on their number of bytes.
unfoldable pub word : ℕ → Reader → Read ℕ
word n r = do (b, r') ← read_exact r n; indexed ← index_from 0 n b; ok (from_le_bytes indexed, r')

abbrev pub u16 : Reader → Read ℕ
u16 = word 2

abbrev pub u32 : Reader → Read ℕ
u32 = word 4

abbrev pub u64 : Reader → Read ℕ
u64 = word 8

unfoldable pub bool : Reader → Read Bool
bool r = do
  (b, r') ← u8 r
  if b == 0 then ok (false, r') else if b == 1 then ok (true, r') else err invalid_bool

unfoldable pub string : (List ℕ → Bool) → Reader → Read (List ℕ)
string valid_utf8 r = do
  (n, r₁) ← u64 r
  (b, r₂) ← read_exact r₁ n
  guard (valid_utf8 b) invalid_utf8
  ok (b, r₂)

-- `for _ in 0..n { out.push(read(r)?) }`.
unfoldable pub read_many {ℓ} :
    {A : Type ℓ}
    → (Reader → Outcome GgufError (A × Reader))
    → ℕ
    → List A
    → Reader
    → Outcome GgufError (List A × Reader)
read_many read zero out r = ok (out, r)
read_many read (suc n) out r = do (a, r') ← read r; read_many read n (out ++ (a ∷ [])) r'
