-- ===== src/Coder/Range/Interval.antt =====
-- The interval `[low, low + range)` of the coder, and what `normalize_step` does to it.
use detllm.Base.{
  ℕ, ◌+◌, ◌-◌, ◌/◌, ◌%◌, ◌^◌, ◌≤◌, ◌<◌, ◌≡◌, inl, inr, bit_and, bit_xor, true, false, arith,
  Bool-cases, ltb, wrapping_add, wrapping_neg, ltb→lt, shl64,
}
use detllm.Base.Bits.{xor-lt-pow_iff, bit_and-mask}
use detllm.Coder.Range.{normalize_step, top, bottom}

-- The interval is not empty and ends at the end of the words at the latest; if it ends there, it
-- lies within the last 2 ^ 56 words.
pub record IsInterval (low range : ℕ) : Type 0 where
  pub word : low < 2 ^ 64
  pub some_left : 0 < range
  pub fits : low + range ≤ 2 ^ 64
  pub edge : low + range ≡ 2 ^ 64 → 2 ^ 64 ≤ low + 2 ^ 56

-- The test of the first branch: low and the end of the interval share the top byte.
same_top :
    {low range : ℕ}
    → IsInterval low range
    → ltb (bit_xor low (wrapping_add low range)) top ≡ true
    → (low / 2 ^ 56 ≡ (low + range) / 2 ^ 56) × (low + range < 2 ^ 64)
same_top {low} {range} v h = ground (arith, xor-lt-pow_iff 56 low (wrapping_add low range))

other_top :
    {low range : ℕ}
    → IsInterval low range
    → ltb (bit_xor low (wrapping_add low range)) top ≡ false
    → low / 2 ^ 56 < (low + range) / 2 ^ 56
other_top {low} {range} v h = ground (arith, xor-lt-pow_iff 56 low (wrapping_add low range))

-- The distance from low to the next multiple of `bottom`.
clipped : (low : ℕ) → bit_and (wrapping_neg low) (bottom - 1) ≡ (2 ^ 64 - low) % 2 ^ 64 % 2 ^ 48
clipped low = bit_and-mask 48 (wrapping_neg low)

-- One call of `normalize_step`: the top byte is settled; or the interval is too small and is cut
-- where the next top byte begins; or it is wide enough.
pub data Normalized (low range : ℕ) : Type 0 where
  settled :
      normalize_step low range ≡ (true, range)
      → low % 2 ^ 56 + range < 2 ^ 56
      → low + range < 2 ^ 64
      → Normalized low range
  cut :
      (r : ℕ)
      → normalize_step low range ≡ (true, r)
      → low % 2 ^ 56 + r ≡ 2 ^ 56
      → 0 < r
      → r ≤ range
      → range < 2 ^ 48
      → Normalized low range
  wide : normalize_step low range ≡ (false, range) → 2 ^ 48 ≤ range → Normalized low range

-- The distance from `low` to the next top byte, where that is near.
cut_lem :
    {low range : ℕ}
    → IsInterval low range
    → low / 2 ^ 56 < (low + range) / 2 ^ 56
    → range < 2 ^ 48
    → let r = (2 ^ 64 - low) % 2 ^ 64 % 2 ^ 48 in
      (low % 2 ^ 56 + r ≡ 2 ^ 56) × (0 < r) × (r ≤ range)
cut_lem v apart small = omega arith

pub normalize_step-Normalized : {low range : ℕ} → IsInterval low range → Normalized low range
unfolding normalize_step
normalize_step-Normalized {low} {range} v =
    elim (Bool-cases (ltb (bit_xor low (wrapping_add low range)) top)) [
      | inl same ↦ let (near, inside) = same_top v same in settled (rw same) (omega arith) inside
      | inr other ↦ elim (Bool-cases (ltb range bottom)) [
        | inl small ↦
            let (near, pos, le) = cut_lem v (other_top v other) (ltb→lt _ _ small) in
            cut _ (rw (other, small, clipped low)) near pos le (ltb→lt _ _ small)
        | inr large ↦ wide (rw (other, large)) (ground arith)
      ]
    ]

-- What the shift of `renorm` makes of the interval that `normalize_step` leaves.
pub shift-IsInterval :
    (low r : ℕ)
    → 0 < r
    → r < 2 ^ 56
    → low % 2 ^ 56 + r ≤ 2 ^ 56
    → (low % 2 ^ 56 + r ≡ 2 ^ 56 → r < 2 ^ 48)
    → IsInterval (shl64 low 8) (shl64 r 8)
shift-IsInterval low r pos lt le near = omega arith

-- A settled top byte, and a cut, each leave an interval.
pub settled-IsInterval :
    (low r : ℕ) → 0 < r → low % 2 ^ 56 + r < 2 ^ 56 → IsInterval (shl64 low 8) (shl64 r 8)
settled-IsInterval low r pos lt =
    shift-IsInterval low r pos (omega arith) (omega arith) (λ e. absurd (omega arith))

pub cut-IsInterval :
    (low r : ℕ)
    → low % 2 ^ 56 + r ≡ 2 ^ 56
    → 0 < r
    → r < 2 ^ 48
    → IsInterval (shl64 low 8) (shl64 r 8)
cut-IsInterval low r near pos lt = shift-IsInterval low r pos (omega arith) (omega arith) (λ e. lt)
