-- ===== src/Num/Half/Exact.antt =====
-- The conversion keeps the value.
use detllm.Base.{
  ℕ, ◌+◌, ◌-◌, ◌*◌, ◌/◌, ◌%◌, ◌^◌, ◌<◌, ◌≡◌, ◌∙◌, refl, ap, arith, inl, inr, ◌⊎◌, bit_or, true,
  false, some, ◌==◌,
}
use detllm.Base.Bits.{bit_and-shifted_mask}
use detllm.Num.Half.{f16_is_finite, shl32, from_subnormal, f16_to_f32}
use detllm.Num.Half.Loop.{pow-add}
use detllm.Num.Half.Pack.{
  sign_lem, exp_lem, frac_lem, half_magnitude, single_magnitude, Keeps, Keeps-pack,
  from_subnormal-Keeps,
}

f16_to_f32-subnormal :
    (bits : ℕ)
    → bits < 2 ^ 16
    → bits / 2 ^ 10 % 2 ^ 5 ≡ 0
    → f16_to_f32 bits ≡ from_subnormal (bits / 2 ^ 15 * 2 ^ 31) (bits % 2 ^ 10)
unfolding f16_to_f32
f16_to_f32-subnormal bits small exp =
    rw (sign_lem bits small, exp_lem bits small, exp, frac_lem bits small) refl

f16_to_f32-normal :
    (bits e : ℕ)
    → bits < 2 ^ 16
    → bits / 2 ^ 10 % 2 ^ 5 ≡ e
    → 0 < e
    → e < 31
    → f16_to_f32 bits
      ≡ some
          (bit_or (bit_or (bits / 2 ^ 15 * 2 ^ 31) ((e + 112) * 2 ^ 23)) (bits % 2 ^ 10 * 2 ^ 13))
unfolding f16_to_f32
f16_to_f32-normal bits e small exp pos low =
    let zero_test : (e == 0) ≡ false = ground arith in
    let top_test : (e == 0x1f) ≡ false = ground arith in
    let biased : shl32 ((e + 2 ^ 32 - 15 + 127) % 2 ^ 32) 23 ≡ (e + 112) * 2 ^ 23 = omega arith in
    let fraction : shl32 (bits % 2 ^ 10) 13 ≡ bits % 2 ^ 10 * 2 ^ 13 = omega arith in
    rw
      (
        sign_lem bits small,
        exp_lem bits small,
        exp,
        zero_test,
        top_test,
        frac_lem bits small,
        biased,
        fraction,
      )
      refl

half_magnitude-subnormal :
    (bits : ℕ) → bits / 2 ^ 10 % 2 ^ 5 ≡ 0 → half_magnitude bits ≡ bits % 2 ^ 10
unfolding half_magnitude
half_magnitude-subnormal bits exp = rw exp refl

half_magnitude-normal :
    (bits e : ℕ)
    → bits / 2 ^ 10 % 2 ^ 5 ≡ e
    → 0 < e
    → half_magnitude bits ≡ (2 ^ 10 + bits % 2 ^ 10) * 2 ^ (e - 1)
unfolding half_magnitude
half_magnitude-normal bits e exp pos =
    let test : (e == 0) ≡ false = ground arith in rw (exp, test) refl

finite_exp : (bits : ℕ) → f16_is_finite bits ≡ true → bits / 2 ^ 10 % 2 ^ 5 < 31
unfolding f16_is_finite
finite_exp bits h = ground (arith, bit_and-shifted_mask 10 5 bits)

regroup_normal :
    (frac p : ℕ) → (2 ^ 23 + frac * 2 ^ 13) * (p * 2 ^ 112) ≡ (2 ^ 10 + frac) * p * 2 ^ 125
regroup_normal frac p = grind arith

zero_or_pos : (n : ℕ) → (n ≡ 0) ⊎ (0 < n)
zero_or_pos n = ground arith

normal_magnitude :
    (frac e : ℕ)
    → 0 < e
    → (2 ^ 23 + frac * 2 ^ 13) * 2 ^ (e + 112 - 1) ≡ (2 ^ 10 + frac) * 2 ^ (e - 1) * 2 ^ 125
normal_magnitude frac e pos =
    let split : e + 112 - 1 ≡ (e - 1) + 112 = omega arith in
    ap (λ n. (2 ^ 23 + frac * 2 ^ 13) * 2 ^ n) split
    ∙ ap (λ n. (2 ^ 23 + frac * 2 ^ 13) * n) (pow-add (e - 1) 112)
    ∙ regroup_normal frac (2 ^ (e - 1))

-- A finite half float converts to a finite single float with the same sign and the same value: the
-- loop comes to an end, and the magnitudes are equal, subnormal numbers and zeros included. (The unit
-- of the half floats, `2 ^ -24`, has `2 ^ 125` units of the single floats.)
pub f16_to_f32_exact :
    (bits : ℕ)
    → bits < 2 ^ 16
    → f16_is_finite bits ≡ true
    → (word : ℕ) × (f16_to_f32 bits ≡ some word)
      × (word < 2 ^ 32)
      × (word / 2 ^ 31 ≡ bits / 2 ^ 15)
      × (single_magnitude word ≡ half_magnitude bits * 2 ^ 125)
      × (word / 2 ^ 23 % 2 ^ 8 < 255)
unfolding Keeps
f16_to_f32_exact bits small finite = elim (zero_or_pos (bits / 2 ^ 10 % 2 ^ 5)) [
  | inl exp ↦
      rw (f16_to_f32-subnormal bits small exp, half_magnitude-subnormal bits exp)
        (from_subnormal-Keeps (bits / 2 ^ 15) (bits % 2 ^ 10) (omega arith) (omega arith))
  | inr pos ↦
      let e = bits / 2 ^ 10 % 2 ^ 5 in
      rw
        (
          f16_to_f32-normal bits e small refl pos (finite_exp bits finite),
          half_magnitude-normal bits e refl pos,
        )
        (Keeps-pack (bits / 2 ^ 15) (e + 112) (bits % 2 ^ 10 * 2 ^ 13)
          ((2 ^ 10 + bits % 2 ^ 10) * 2 ^ (e - 1)) (omega arith) (omega arith)
          (omega (arith, finite_exp bits finite)) (omega arith)
          (normal_magnitude (bits % 2 ^ 10) e pos))
]
