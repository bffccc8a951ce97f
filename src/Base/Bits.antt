-- ===== src/Base/Bits.antt =====
-- Laws of the bit operations at the shapes that the program uses, for every width.
use Prim.Native.Nat.{
  ℕ, zero, suc, ◌+◌, ◌-◌, ◌*◌, ◌/◌, ◌%◌, ◌^◌, ◌≤◌, ◌<◌, min, max, digits, bitwise, differ, bit_and,
  bit_or, bit_xor, bit_and-bitwise, bit_or-bitwise, bit_xor-bitwise,
}
use mathlib.Core.Path.{◌≡◌, refl, ap}
use mathlib.Core.Logic.{◌↔◌}
use native.Mathlib.Nat.{pow-suc, one-le-pow, div-div-eq-div-mul, div-add-mod'}
use native.Mathlib.Omega.{arith}

-- Two amounts of fuel that both cover the first operand give the same digits.
module _ (out : ℕ → ℕ) (op : ℕ → ℕ → ℕ) where
  digits_irrelevant : (x y k l : ℕ) → (x ≤ k) × (x ≤ l) → digits out op k x y ≡ digits out op l x y
  digits_irrelevant zero y zero zero c = refl
  digits_irrelevant zero y zero (suc l) c = refl
  digits_irrelevant zero y (suc k) zero c = refl
  digits_irrelevant zero y (suc k) (suc l) c = refl
  digits_irrelevant (suc x) y zero l c = absurd (omega arith)
  digits_irrelevant (suc x) y (suc k) zero c = absurd (omega arith)
  digits_irrelevant (suc x) y (suc k) (suc l) c =
      omega (arith, digits_irrelevant (suc x / 2) (y / 2) k l (omega arith))

  lowest_digit :
      (x y : ℕ)
      → bitwise out op (suc x) y ≡ bitwise out op (suc x / 2) (y / 2) * 2 + op (suc x % 2) (y % 2)
  lowest_digit x y =
      omega (arith, digits_irrelevant (suc x / 2) (y / 2) x (suc x / 2) (omega arith))

and_lowest : (x y : ℕ) → bit_and x y ≡ bit_and (x / 2) (y / 2) * 2 + min (x % 2) (y % 2)
and_lowest zero y = omega (arith, bit_and-bitwise 0 y, bit_and-bitwise 0 (y / 2))
and_lowest (suc x) y = simp bit_and-bitwise (lowest_digit (λ r. 0) min x y)

or_lowest : (x y : ℕ) → bit_or x y ≡ bit_or (x / 2) (y / 2) * 2 + max (x % 2) (y % 2)
or_lowest zero y = omega (arith, bit_or-bitwise 0 y, bit_or-bitwise 0 (y / 2))
or_lowest (suc x) y = simp bit_or-bitwise (lowest_digit (λ r. r) max x y)

xor_lowest : (x y : ℕ) → bit_xor x y ≡ bit_xor (x / 2) (y / 2) * 2 + differ (x % 2) (y % 2)
xor_lowest zero y = omega (arith, bit_xor-bitwise 0 y, bit_xor-bitwise 0 (y / 2))
xor_lowest (suc x) y = simp bit_xor-bitwise (lowest_digit (λ r. r) differ x y)

-- What the operations do to a zero second operand, by halving.
bit_and-zero : (n x : ℕ) → x ≤ n → bit_and x 0 ≡ 0
bit_and-zero n zero h = refl
bit_and-zero zero (suc x) h = absurd (omega arith)
bit_and-zero (suc n) (suc x) h = omega (arith, and_lowest (suc x) 0, bit_and-zero n (suc x / 2))

bit_or-zero : (n x : ℕ) → x ≤ n → bit_or x 0 ≡ x
bit_or-zero n zero h = refl
bit_or-zero zero (suc x) h = absurd (omega arith)
bit_or-zero (suc n) (suc x) h = omega (arith, or_lowest (suc x) 0, bit_or-zero n (suc x / 2))

-- The exclusive or is 0 on equal numbers only.
differ_bits : (x y : ℕ) → x < 2 → y < 2 → (differ x y ≤ 1) × ((differ x y ≡ 0) ↔ (x ≡ y))
differ_bits zero zero p q = ground arith
differ_bits zero (suc zero) p q = ground arith
differ_bits zero (suc (suc y)) p q = absurd (omega arith)
differ_bits (suc zero) zero p q = ground arith
differ_bits (suc zero) (suc zero) p q = ground arith
differ_bits (suc zero) (suc (suc y)) p q = absurd (omega arith)
differ_bits (suc (suc x)) y p q = absurd (omega arith)

differ_mod :
    (x y : ℕ) → (differ (x % 2) (y % 2) ≤ 1) × ((differ (x % 2) (y % 2) ≡ 0) ↔ (x % 2 ≡ y % 2))
differ_mod x y = differ_bits (x % 2) (y % 2) (omega arith) (omega arith)

xor-eq-zero : (n x y : ℕ) → x ≤ n → bit_xor x y ≡ 0 → x ≡ y
xor-eq-zero n zero y h e = omega (arith, bit_xor-bitwise 0 y)
xor-eq-zero zero (suc x) y h e = absurd (omega arith)
xor-eq-zero (suc n) (suc x) y h e =
    let halves : suc x / 2 ≡ y / 2 =
      xor-eq-zero n (suc x / 2) (y / 2) (omega arith) (omega (arith, xor_lowest (suc x) y)) in
    let bits : suc x % 2 ≡ y % 2 =
      (differ_mod (suc x) y).1.0 (omega (arith, xor_lowest (suc x) y)) in
    omega arith

xor_self : (n x : ℕ) → x ≤ n → bit_xor x x ≡ 0
xor_self n zero h = refl
xor_self zero (suc x) h = absurd (omega arith)
xor_self (suc n) (suc x) h =
    let bits : differ (suc x % 2) (suc x % 2) ≡ 0 = (differ_mod (suc x) (suc x)).1.1 refl in
    omega (arith, xor_lowest (suc x) (suc x), xor_self n (suc x / 2))

div-pow-suc : (k x : ℕ) → x / 2 ^ suc k ≡ x / 2 / 2 ^ k
div-pow-suc k x = rw (div-div-eq-div-mul, pow-suc) (ap (◌/◌ x) (omega arith))

-- Two numbers whose exclusive or is below `2 ^ k` agree from bit `k` on.
pub xor-lt-pow_iff : (k x y : ℕ) → (bit_xor x y < 2 ^ k) ↔ (x / 2 ^ k ≡ y / 2 ^ k)
xor-lt-pow_iff zero x y = (
  λ h. ap (λ (t : ℕ). t / 1) (xor-eq-zero x x y (omega arith) (omega arith)),
  λ e. let same : x ≡ y = omega arith in rw same (omega (arith, xor_self y y)),
)
xor-lt-pow_iff (suc k) x y =
    let (there, back) = xor-lt-pow_iff k (x / 2) (y / 2) in
    (
      λ h.
          rw (div-pow-suc k x, div-pow-suc k y)
            (there (omega (arith, pow-suc 2 k, xor_lowest x y))),
      λ e. omega (
        arith,
        pow-suc 2 k,
        xor_lowest x y,
        differ_mod x y,
        back (rw (← div-pow-suc k x, ← div-pow-suc k y) e),
      ),
    )

mul-pow-suc : (q k : ℕ) → q * 2 ^ suc k ≡ 2 * (q * 2 ^ k)
mul-pow-suc q k = omega (arith, ap (λ (t : ℕ). q * t) (pow-suc 2 k))

-- `(q << k) | r` is a sum where `r` fits `k` bits.
pub bit_or-shifted : (k q r : ℕ) → r < 2 ^ k → bit_or (q * 2 ^ k) r ≡ q * 2 ^ k + r
bit_or-shifted zero q r h =
    let none_left : r ≡ 0 = omega arith in rw none_left (omega (arith, bit_or-zero (q * 1) (q * 1)))
bit_or-shifted (suc k) q r h =
    let half : bit_or (q * 2 ^ suc k / 2) (r / 2) ≡ q * 2 ^ k + r / 2 =
      let halved : q * 2 ^ suc k / 2 ≡ q * 2 ^ k = omega (arith, mul-pow-suc q k) in
      rw halved (bit_or-shifted k q (r / 2) (omega (arith, pow-suc 2 k))) in
    omega (arith, or_lowest (q * 2 ^ suc k) r, mul-pow-suc q k, half)

mod-pow-suc : (k x : ℕ) → x % 2 ^ suc k ≡ 2 * (x / 2 % 2 ^ k) + x % 2
mod-pow-suc k x = omega (
  arith,
  div-add-mod' x (2 ^ suc k),
  div-add-mod' (x / 2) (2 ^ k),
  div-pow-suc k x,
  ap (λ (t : ℕ). t * 2 ^ suc k) (div-pow-suc k x),
  mul-pow-suc (x / 2 / 2 ^ k) k,
)

-- A mask of `k` low bits is a remainder.
pub bit_and-mask : (k x : ℕ) → bit_and x (2 ^ k - 1) ≡ x % 2 ^ k
bit_and-mask zero x = omega (arith, bit_and-zero x x)
bit_and-mask (suc k) x =
    let shorter : (2 ^ suc k - 1) / 2 ≡ 2 ^ k - 1 = omega (arith, pow-suc 2 k, one-le-pow k 2) in
    let half : bit_and (x / 2) ((2 ^ suc k - 1) / 2) ≡ x / 2 % 2 ^ k =
      rw shorter (bit_and-mask k (x / 2)) in
    omega (arith, pow-suc 2 k, one-le-pow k 2, and_lowest x (2 ^ suc k - 1), half, mod-pow-suc k x)

-- A mask of `k` ones over a zero.
pub bit_and-even_mask : (k x : ℕ) → bit_and x (2 * (2 ^ k - 1)) ≡ 2 * (x / 2 % 2 ^ k)
bit_and-even_mask k x =
    let half : 2 * (2 ^ k - 1) / 2 ≡ 2 ^ k - 1 = omega arith in
    let masked : bit_and (x / 2) (2 * (2 ^ k - 1) / 2) ≡ x / 2 % 2 ^ k =
      rw half (bit_and-mask k (x / 2)) in
    omega (arith, and_lowest x (2 * (2 ^ k - 1)), masked)

-- A mask of `k` ones over `j` zeros.
pub bit_and-shifted_mask :
    (j k x : ℕ) → bit_and x (2 ^ j * (2 ^ k - 1)) ≡ 2 ^ j * (x / 2 ^ j % 2 ^ k)
bit_and-shifted_mask zero k x =
    let same : 2 ^ 0 * (2 ^ k - 1) ≡ 2 ^ k - 1 = omega arith in
    let here : x / 2 ^ 0 ≡ x = omega arith in rw (same, here) (omega (arith, bit_and-mask k x))
bit_and-shifted_mask (suc j) k x =
    let mask = 2 ^ suc j * (2 ^ k - 1) in
    let twice : mask ≡ 2 * (2 ^ j * (2 ^ k - 1)) =
      omega (arith, ap (λ (t : ℕ). t * (2 ^ k - 1)) (pow-suc 2 j)) in
    let half : mask / 2 ≡ 2 ^ j * (2 ^ k - 1) = omega arith in
    let masked : bit_and (x / 2) (mask / 2) ≡ 2 ^ j * (x / 2 / 2 ^ j % 2 ^ k) =
      rw half (bit_and-shifted_mask j k (x / 2)) in
    let whole : 2 ^ suc j * (x / 2 / 2 ^ j % 2 ^ k) ≡ 2 * (2 ^ j * (x / 2 / 2 ^ j % 2 ^ k)) =
      omega (arith, ap (λ (t : ℕ). t * (x / 2 / 2 ^ j % 2 ^ k)) (pow-suc 2 j)) in
    rw (div-pow-suc j x) (omega (arith, and_lowest x mask))
