-- ===== src/Num/Half.antt =====
-- crates/det-num/src/f16.rs: half floats as bits, and the single floats of the same value.
pub mod Loop
pub mod Pack
pub mod Exact
use detllm.Base.{
  ℕ, zero, suc, ◌+◌, ◌-◌, ◌*◌, ◌/◌, ◌%◌, ◌^◌, bit_and, bit_or, Bool, not, Option, none, some, ◌==◌,
  if◌then◌else◌,
}

unfoldable pub f16_is_finite : ℕ → Bool
f16_is_finite bits = not (bit_and bits 0x7c00 == 0x7c00)

-- `a << k` on `u32`.
abbrev pub shl32 : ℕ → ℕ → ℕ
shl32 a k = a * 2 ^ k % 2 ^ 32

-- `e -= 1` on `i32`, which is its pattern of bits.
abbrev pub less_one : ℕ → ℕ
less_one e = (e + 2 ^ 32 - 1) % 2 ^ 32

-- The loop that looks for the leading bit. `frac` has 10 bits and is not 0, so that 10 rounds are
-- fuel enough.
unfoldable pub normalize : ℕ → ℕ → ℕ → Option (ℕ × ℕ)
normalize zero f e = if bit_and f 0x400 == 0 then none else some (f, e)
normalize (suc fuel) f e =
    let rest = normalize fuel (shl32 f 1) (less_one e) in
    if bit_and f 0x400 == 0 then rest else some (f, e)

-- The exponent 0.
unfoldable pub from_subnormal : ℕ → ℕ → Option ℕ
from_subnormal sign frac = if frac == 0 then some sign else elim (normalize 10 frac (2 ^ 32 - 14)) [
  | none ↦ none
  | some fe ↦
      let f = bit_and fe.0 0x3ff in
      let exp32 = shl32 ((fe.1 + 127) % 2 ^ 32) 23 in some (bit_or (bit_or sign exp32) (shl32 f 13))
]

-- The bits of the single float; `none` is a loop out of fuel.
unfoldable pub f16_to_f32 : ℕ → Option ℕ
f16_to_f32 bits =
    let sign = shl32 (bit_and bits 0x8000) 16 in
    let exp = bit_and (bits / 2 ^ 10) 0x1f in
    let frac = bit_and bits 0x3ff in
    if exp == 0
    then from_subnormal sign frac
    else if exp == 0x1f
    then some (bit_or (bit_or sign 0x7f80_0000) (shl32 frac 13))
    else (let exp32 = shl32 ((exp + 2 ^ 32 - 15 + 127) % 2 ^ 32) 23 in
        some (bit_or (bit_or sign exp32) (shl32 frac 13)))
