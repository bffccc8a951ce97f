-- ===== src/Gguf/Value/Safe.antt =====
-- Reading a value never panics: every index is within what was read.
use detllm.Base.{
  ℕ, zero, suc, ◌+◌, ◌-◌, ◌≤◌, ◌≡◌, ap, arith, Bool, true, false, List, [], ◌∷◌, ◌++◌, ◌==◌,
  if◌then◌else◌, length, get_elem?-lt, ok, Outcome, guard, slice, length-take_of_le, length-drop,
  drop, Returns, Returns->>=, Returns-guard,
}
use detllm.Gguf.Reader.{
  GgufError, Reader, read_exact, ensure_count, u8, index_from, word, u32, u64, u16, bool, string,
  read_many,
}
use detllm.Gguf.Value.{
  MetadataValue, as_signed, u8_value, u16_value, u32_value, u64_value, f32_value, f64_value,
  i8_value, i16_value, i32_value, i64_value, bool_value, string_value, array_u8, array_u16,
  array_u32, array_u64, array_f32, array_f64, array_i8, array_i16, array_i32, array_i64, array_bool,
  array_string, into, min_elem_bytes, read_array, read_counted, read_value,
}

pub read_exact-Returns : (r : Reader) (n : ℕ) → Returns (read_exact r n)
unfolding read_exact
read_exact-Returns r n = ground arith

-- `read_exact` gives as many bytes as it is asked for.
pub read_exact-length :
    (r : Reader) (n : ℕ) {b : List ℕ} {r' : Reader} → read_exact r n ≡ ok (b, r') → length b ≡ n
unfolding read_exact
read_exact-length r n {b} {r'} h =
    let (inside, same) : (r.pos + n ≤ length r.bytes) × (slice r.pos (r.pos + n) r.bytes ≡ b) =
      ground arith in
    omega (
      arith,
      length-take_of_le (r.pos + n - r.pos) (drop r.pos r.bytes),
      length-drop r.pos r.bytes,
      ap length same,
    )

pub u8-Returns : (r : Reader) → Returns (u8 r)
unfolding u8
u8-Returns r = Returns->>= (read_exact r 1) _ (read_exact-Returns r 1) λ (b, r') read.
    let (n, found) = get_elem?-lt b 0 (omega (arith, read_exact-length r 1 read)) in rw found tt

index_from-Returns : (i n : ℕ) (b : List ℕ) → i + n ≤ length b → Returns (index_from i n b)
unfolding index_from
index_from-Returns i zero b inside = tt
index_from-Returns i (suc n) b inside =
    let (x, found) = get_elem?-lt b i (omega arith) in
    rw found (
      Returns->>= (index_from (suc i) n b) _ (index_from-Returns (suc i) n b (omega arith))
        λ rest read. tt)

-- The indexes of a word are within the bytes that `read_exact` gives.
pub word-Returns : (n : ℕ) (r : Reader) → Returns (word n r)
unfolding word
word-Returns n r = Returns->>= (read_exact r n) _ (read_exact-Returns r n) λ (b, r') read.
    Returns->>= (index_from 0 n b) _
      (index_from-Returns 0 n b (omega (arith, read_exact-length r n read))) λ indexed done. tt

pub bool-Returns : (r : Reader) → Returns (bool r)
unfolding bool
bool-Returns r = Returns->>= (u8 r) _ (u8-Returns r) λ (b, r') read. ground arith

pub into-Returns {ℓ κ} :
    {A : Type ℓ} {B : Type κ} (f : A → B) (read : Outcome GgufError (A × Reader))
    → Returns read
    → Returns (into f read)
into-Returns f read r = Returns->>= read _ r λ a done. tt

pub read_many-Returns {ℓ} :
    {A : Type ℓ} (read : Reader → Outcome GgufError (A × Reader))
    → ((r : Reader) → Returns (read r))
    → (n : ℕ) (out : List A) (r : Reader) → Returns (read_many read n out r)
unfolding read_many
read_many-Returns read each zero out r = tt
read_many-Returns read each (suc n) out r =
    Returns->>= (read r) _ (each r)
      λ (a, r') done. read_many-Returns read each n (out ++ (a ∷ [])) r'

pub choose-Returns {ℓ} :
    {A : Type ℓ} (test : Bool) (m k : Outcome GgufError A)
    → Returns m
    → Returns k
    → Returns (if test then m else k)
choose-Returns true m k a b = a
choose-Returns false m k a b = b

pub min_elem_bytes-Returns : (ty : ℕ) → Returns (min_elem_bytes ty)
unfolding min_elem_bytes
min_elem_bytes-Returns ty = ground arith

pub ensure_count-Returns : (r : Reader) (n size : ℕ) → Returns (ensure_count r n size)
unfolding ensure_count
ensure_count-Returns r n size = ground arith

module _ (valid_utf8 : List ℕ → Bool) where
  pub string-Returns : (r : Reader) → Returns (string valid_utf8 r)
  unfolding string
  string-Returns r = Returns->>= (u64 r) _ (word-Returns 8 r) λ (n, r₁) one.
      Returns->>= (read_exact r₁ n) _ (read_exact-Returns r₁ n) λ (b, r₂) two.
        Returns->>= (guard (valid_utf8 b) _) _ (Returns-guard (valid_utf8 b) _) λ u three. tt

  pub array-Returns :
      {A : Type 0} (n : ℕ) (r : Reader) (f : List A → MetadataValue)
      (read : Reader → Outcome GgufError (A × Reader))
      → ((r : Reader) → Returns (read r))
      → Returns (into f (read_many read n [] r))
  array-Returns n r f read each =
      into-Returns f (read_many read n [] r) (read_many-Returns read each n [] r)

  pub read_array-Returns : (ty n : ℕ) (r : Reader) → Returns (read_array valid_utf8 ty n r)
  unfolding read_array
  read_array-Returns ty n r =
      (choose-Returns (ty == 0) _ _ (array-Returns n r array_u8 u8 u8-Returns) (
        choose-Returns (ty == 1) _ _
          (array-Returns n r array_i8 (λ r. into (as_signed 8) (u8 r))
            (λ r. into-Returns (as_signed 8) (u8 r) (u8-Returns r)))
          (choose-Returns (ty == 2) _ _ (array-Returns n r array_u16 u16 (word-Returns 2)) (
            choose-Returns (ty == 3) _ _
              (array-Returns n r array_i16 (λ r. into (as_signed 16) (u16 r))
                (λ r. into-Returns (as_signed 16) (u16 r) (word-Returns 2 r)))
              (choose-Returns (ty == 4) _ _ (array-Returns n r array_u32 u32 (word-Returns 4)) (
                choose-Returns (ty == 5) _ _
                  (array-Returns n r array_i32 (λ r. into (as_signed 32) (u32 r))
                    (λ r. into-Returns (as_signed 32) (u32 r) (word-Returns 4 r)))
                  (choose-Returns (ty == 6) _ _ (array-Returns n r array_f32 u32 (word-Returns 4)) (
                    choose-Returns (ty == 7) _ _ (array-Returns n r array_bool bool bool-Returns) (
                      choose-Returns (ty == 8) _ _
                        (array-Returns n r array_string (string valid_utf8) string-Returns)
                        (choose-Returns (ty == 10) _ _
                          (array-Returns n r array_u64 u64 (word-Returns 8))
                          (choose-Returns (ty == 11) _ _
                            (array-Returns n r array_i64 (λ r. into (as_signed 64) (u64 r))
                              (λ r. into-Returns (as_signed 64) (u64 r) (word-Returns 8 r)))
                            (choose-Returns (ty == 12) _ _
                              (array-Returns n r array_f64 u64 (word-Returns 8)) tt))))))))))))

  pub read_counted-Returns : (r : Reader) → Returns (read_counted valid_utf8 r)
  unfolding read_counted
  read_counted-Returns r = Returns->>= (u32 r) _ (word-Returns 4 r) λ (ty, r₁) one.
      Returns->>= (u64 r₁) _ (word-Returns 8 r₁) λ (n, r₂) two.
        Returns->>= (min_elem_bytes ty) _ (min_elem_bytes-Returns ty) λ size three.
          Returns->>= (ensure_count r₂ n size) _ (ensure_count-Returns r₂ n size)
            λ u four. read_array-Returns ty n r₂

  pub read_value-Returns : (r : Reader) → Returns (read_value valid_utf8 r)
  unfolding read_value
  read_value-Returns start = Returns->>= (u32 start) _ (word-Returns 4 start) λ (ty, r) one.
      (choose-Returns (ty == 0) _ _ (into-Returns u8_value (u8 r) (u8-Returns r)) (
        choose-Returns (ty == 1) _ _
          (into-Returns (λ n. i8_value (as_signed 8 n)) (u8 r) (u8-Returns r))
          (choose-Returns (ty == 2) _ _ (into-Returns u16_value (u16 r) (word-Returns 2 r)) (
            choose-Returns (ty == 3) _ _
              (into-Returns (λ n. i16_value (as_signed 16 n)) (u16 r) (word-Returns 2 r))
              (choose-Returns (ty == 4) _ _ (into-Returns u32_value (u32 r) (word-Returns 4 r)) (
                choose-Returns (ty == 5) _ _
                  (into-Returns (λ n. i32_value (as_signed 32 n)) (u32 r) (word-Returns 4 r))
                  (choose-Returns (ty == 6) _ _ (into-Returns f32_value (u32 r) (word-Returns 4 r))
                    (choose-Returns (ty == 7) _ _
                      (into-Returns bool_value (bool r) (bool-Returns r))
                      (choose-Returns (ty == 8) _ _
                        (into-Returns string_value (string valid_utf8 r) (string-Returns r))
                        (choose-Returns (ty == 9) _ _ (read_counted-Returns r) (
                          choose-Returns (ty == 10) _ _
                            (into-Returns u64_value (u64 r) (word-Returns 8 r))
                            (choose-Returns (ty == 11) _ _
                              (into-Returns (λ n. i64_value (as_signed 64 n)) (u64 r)
                                (word-Returns 8 r))
                              (choose-Returns (ty == 12) _ _
                                (into-Returns f64_value (u64 r) (word-Returns 8 r)) tt)))))))))))))
