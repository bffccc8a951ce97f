-- ===== src/Gguf/Layout/Sizes.antt =====
-- `element_count` and `encoded_len`: the product of the dimensions, in whole blocks.
use detllm.Base.{
  ℕ, ◌*◌, ◌/◌, ◌%◌, ◌^◌, ◌≤◌, ◌<◌, ◌≡◌, ◌↔◌, sym, ap, ◌∙◌, arith, some, List, [], ◌∷◌, is_empty_iff,
  length, All, ok, >>=-eq-ok, ok-injective,
}
use detllm.Gguf.Types.{type_size, block_size, known, unknown, Sizes-all}
use detllm.Gguf.Layout.{TensorInfo, multiply, element_count, encoded_len}
use native.Mathlib.Decide.{dec_lt}
use native.Mathlib.Nat.{
  div-add-mod', zero-mul, mul-le-mul_left, mul-one, mul_assoc, mul-pos, one-mul,
}

abbrev pub product : List ℕ → ℕ
product [] = 1
product (d ∷ dimensions) = d * product dimensions

abbrev pub Positive : ℕ → Type 0
Positive d = 0 < d

product-pos : (dimensions : List ℕ) → All Positive dimensions → 0 < product dimensions
product-pos [] h = omega arith
product-pos (d ∷ dimensions) h = mul-pos h.0 (product-pos dimensions h.1)

multiply-ok :
    (dimensions : List ℕ) (n : ℕ) {m : ℕ}
    → multiply dimensions n ≡ ok m
    → All Positive dimensions × (m ≡ n * product dimensions) × ((n < 2 ^ 64) → m < 2 ^ 64)
unfolding multiply
multiply-ok [] n h = let same = ok-injective h in (tt, omega arith, λ lt. omega arith)
multiply-ok (d ∷ dimensions) n {m} h =
    ground (arith, multiply-ok dimensions (n * d) {m = m}, mul_assoc n d (product dimensions))

multiply-product :
    (dimensions : List ℕ) (n : ℕ)
    → All Positive dimensions
    → 0 < n
    → n * product dimensions < 2 ^ 64
    → multiply dimensions n ≡ ok (n * product dimensions)
unfolding multiply
multiply-product [] n h pos lt = ap ok (sym (mul-one n))
multiply-product (d ∷ dimensions) n h pos lt =
    let assoc = mul_assoc n d (product dimensions) in
    let more : n * d * 1 ≤ n * d * product dimensions =
      mul-le-mul_left (n * d) (product-pos dimensions h.1) in
    let fits : n * d < 2 ^ 64 = omega arith in
    rw (← assoc) (ground (arith, h.0, mul-pos pos h.0, multiply-product dimensions (n * d) h.1))

-- `element_count` gives `n` exactly if there is a dimension, no dimension is 0, and `n` is their
-- product and fits 64 bits.
pub element_count_iff :
    (t : TensorInfo) (n : ℕ)
    → (element_count t ≡ ok n) ↔ (
        (0 < length t.dimensions)
        × All Positive t.dimensions
        × (n ≡ product t.dimensions)
        × (n < 2 ^ 64))
unfolding element_count
element_count_iff t n = (
  λ h. ground (arith, is_empty_iff t.dimensions, multiply-ok t.dimensions 1 {m = n}),
  λ (dims, h, same, lt).
      let one = one-mul (product t.dimensions) in
      ground (arith, is_empty_iff t.dimensions, multiply-product t.dimensions 1),
)

blocks :
    (n block size len : ℕ)
    → 0 < n
    → 0 < size
    → 0 < block
    → n % block ≡ 0
    → len ≡ n / block * size
    → (len * block ≡ n * size) × (0 < len)
blocks n block size len some_n some_size some_block whole len-eq =
    let n-eq : n ≡ n / block * block = omega (arith, div-add-mod' n block) in
    let some_blocks : 0 < n / block = elim (dec_lt 0 (n / block)) [
      | yes h ↦ h
      | no h ↦
          let none_left : n / block ≡ 0 = omega arith in
          let empty : n ≡ 0 = n-eq ∙ ap (λ (q : ℕ). q * block) none_left ∙ zero-mul block in
          absurd (omega arith)
    ] in
    let scaled : n / block * size * block ≡ n * size =
      omega (arith, ap (λ (m : ℕ). m * size) n-eq) in
    (rw len-eq scaled, rw len-eq (mul-pos some_blocks some_size))

-- If `encoded_len` gives a length, then the type has a size and a block, the length times the block
-- is the product of the dimensions times the size, and the length is not 0.
pub encoded_len-ok :
    (t : TensorInfo) {len : ℕ}
    → encoded_len t ≡ ok len
    → (size : ℕ) × (block : ℕ) × (type_size t.ty ≡ some size)
      × (block_size t.ty ≡ some block)
      × (len * block ≡ product t.dimensions * size)
      × (0 < len)
unfolding encoded_len
encoded_len-ok t {len} h =
    let (n, counted, h₁) = >>=-eq-ok (element_count t) _ h in
    let (dims, all, same, lt) = (element_count_iff t n).0 counted in
    let pos = product-pos t.dimensions all in
    elim (Sizes-all t.ty) [
      | unknown no_size no_block ↦ cc (rw no_size at h₁)
      | known size block at_size at_block some_size some_block ↦
          let last = rw (at_size, at_block) at h₁ in
          let (whole, len-eq) : (n % block ≡ 0) × (len ≡ n / block * size) = ground arith in
          let (total, some_len) =
            blocks n block size len (omega arith) some_size some_block whole len-eq in
          (size, block, at_size, at_block, rw (← same) total, some_len)
    ]
