-- ===== src/Gguf/Parse/Align.antt =====
-- Where the data region begins.
use detllm.Base.{ℕ, ◌+◌, ◌-◌, ◌*◌, ◌/◌, ◌%◌, ◌^◌, ◌≤◌, ◌<◌, ◌≡◌, ◌↔◌, arith, some, bit_and}
use detllm.Base.Bits.{bit_and-shifted_mask}
use detllm.Gguf.Parse.{align_up}

-- `align_up` on 32 gives exactly the least multiple of 32 that is not below the position, and
-- nothing if the position is within 31 of the end of the words.
pub align_up_iff :
    (x y : ℕ)
    → (align_up x 32 ≡ some y) ↔ ((x ≤ y) × (y < x + 32) × (y % 32 ≡ 0) × (x + 31 < 2 ^ 64))
unfolding align_up
align_up_iff x y =
    let masked : bit_and (x + 31) (2 ^ 5 * (2 ^ 59 - 1)) ≡ 2 ^ 5 * ((x + 31) / 2 ^ 5 % 2 ^ 59) =
      bit_and-shifted_mask 5 59 (x + 31) in
    ground arith
