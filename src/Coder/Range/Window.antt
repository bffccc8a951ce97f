-- ===== src/Coder/Range/Window.antt =====
-- The first bytes of a stream, read as a big-endian number: what the decoder holds as its code.
use detllm.Base.{
  ℕ, zero, suc, ◌+◌, ◌*◌, ◌/◌, ◌%◌, ◌^◌, ◌≤◌, ◌<◌, ◌≡◌, arith, some, List, [], ◌∷◌, length,
  get_elem?, All, get_elem?-lt, All-get_elem?, shl64, ap, IsByte,
}
use native.Mathlib.Nat.{pow-suc, one-le-pow}

unfoldable pub big_endian : ℕ → List ℕ → ℕ
big_endian zero bytes = 0
big_endian (suc n) [] = 0
big_endian (suc n) (b ∷ bytes) = b * 256 ^ n + big_endian n bytes

-- One byte more at the end.
pub big_endian-suc :
    (n : ℕ) (bytes : List ℕ) {b : ℕ}
    → get_elem? bytes n ≡ some b
    → big_endian (suc n) bytes ≡ big_endian n bytes * 256 + b
unfolding big_endian
big_endian-suc n [] e = cc
big_endian-suc zero (x ∷ bytes) e = ground arith
big_endian-suc (suc n) (x ∷ bytes) e =
    omega (arith, big_endian-suc n bytes e, ap (λ (t : ℕ). x * t) (pow-suc 256 n))

pub big_endian-lt : (n : ℕ) (bytes : List ℕ) → All IsByte bytes → big_endian n bytes < 256 ^ n
unfolding big_endian
big_endian-lt zero bytes h = omega arith
big_endian-lt (suc n) [] h = omega (arith, one-le-pow (suc n) 256)
big_endian-lt (suc n) (b ∷ bytes) h = grind (arith, pow-suc 256 n, big_endian-lt n bytes h.1)

-- The number in the first eight bytes lies in the interval `[low, low + range)`.
pub record Covers (low range : ℕ) (bytes : List ℕ) : Type 0 where
  pub bytes_only : All IsByte bytes
  pub long : 8 ≤ length bytes
  pub above : low ≤ big_endian 8 bytes
  pub below : big_endian 8 bytes < low + range

pub Covers-shift :
    (low r range : ℕ) (bytes : List ℕ)
    → low < 2 ^ 64
    → low % 2 ^ 56 + r ≤ 2 ^ 56
    → r < 2 ^ 56
    → r ≤ range
    → Covers (shl64 low 8) (shl64 r 8) bytes
    → Covers low range (low / 2 ^ 56 ∷ bytes)
unfolding big_endian
Covers-shift low r range bytes word top small le c =
    let (x, last) = get_elem?-lt bytes 7 c.long in
    let is_byte : x < 256 = All-get_elem? IsByte bytes 7 c.bytes_only last in
    let shifted : big_endian 8 bytes ≡ big_endian 7 bytes * 256 + x = big_endian-suc 7 bytes last in
    record {
      bytes_only = (omega arith, c.bytes_only);
      long = omega (arith, c.long);
      above = omega (arith, c.above);
      below = omega (arith, c.below);
    }

pub Covers-widen :
    {low range low' range' : ℕ} {bytes : List ℕ}
    → Covers low' range' bytes
    → low ≤ low'
    → low' + range' ≤ low + range
    → Covers low range bytes
Covers-widen c from to = record {
  bytes_only = c.bytes_only;
  long = c.long;
  above = omega (arith, c.above);
  below = omega (arith, c.below);
}
