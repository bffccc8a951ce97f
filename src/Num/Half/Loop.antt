-- ===== src/Num/Half/Loop.antt =====
-- The loop that looks for the leading bit of a fraction.
use detllm.Base.{
  ℕ, zero, suc, ◌+◌, ◌-◌, ◌*◌, ◌/◌, ◌%◌, ◌^◌, ◌≤◌, ◌<◌, ◌≡◌, ◌∙◌, refl, ap, ap₂, arith, inl, inr,
  bit_and, true, false, le_or_lt, some, ◌==◌,
}
use native.Mathlib.Nat.{pow-suc}
use detllm.Base.Bits.{bit_and-shifted_mask}
use detllm.Num.Half.{shl32, less_one, normalize}

pub pow-add : (a b : ℕ) → 2 ^ (a + b) ≡ 2 ^ a * 2 ^ b
pow-add zero b = let same : zero + b ≡ b = omega arith in rw same (omega arith)
pow-add (suc a) b =
    let step : suc a + b ≡ suc (a + b) = omega arith in
    rw (step, pow-suc, pow-suc, pow-add a b) (grind arith)

double-pow : (f k : ℕ) → f * 2 * 2 ^ k ≡ f * 2 ^ suc k
double-pow f k = rw pow-suc (grind arith)

-- The bit that the loop looks for.
top_bit : (f : ℕ) → f < 2 ^ 11 → bit_and f 0x400 ≡ 2 ^ 10 * (f / 2 ^ 10)
top_bit f h =
    let one : f / 2 ^ 10 % 2 ^ 1 ≡ f / 2 ^ 10 = omega arith in
    bit_and-shifted_mask 10 1 f ∙ ap (λ n. 2 ^ 10 * n) one

leading_now : (fuel f e : ℕ) → f < 2 ^ 11 → 2 ^ 10 ≤ f → normalize fuel f e ≡ some (f, e)
unfolding normalize
leading_now zero f e h low =
    let test : (bit_and f 0x400 == 0) ≡ false = ground (arith, top_bit f h) in rw test refl
leading_now (suc fuel) f e h low =
    let test : (bit_and f 0x400 == 0) ≡ false = ground (arith, top_bit f h) in rw test refl

leading_later :
    (fuel f e : ℕ) → f < 2 ^ 10 → normalize (suc fuel) f e ≡ normalize fuel (shl32 f 1) (less_one e)
unfolding normalize
leading_later fuel f e h =
    let test : (bit_and f 0x400 == 0) ≡ true = ground (arith, top_bit f (omega arith)) in
    rw test refl

-- The loop doubles `f` until it has 11 bits.
pub normalize-ok :
    (fuel f e : ℕ)
    → f < 2 ^ 11
    → 2 ^ 10 ≤ f * 2 ^ fuel
    → fuel ≤ e
    → e < 2 ^ 32
    → (k : ℕ) × (normalize fuel f e ≡ some (f * 2 ^ k, e - k))
      × (k ≤ fuel)
      × (2 ^ 10 ≤ f * 2 ^ k)
      × (f * 2 ^ k < 2 ^ 11)
normalize-ok zero f e h low le word = (
  0,
  leading_now 0 f e h (omega arith) ∙ ap₂ (λ (f e : ℕ). some (f, e)) (omega arith) (omega arith),
  omega arith,
  omega arith,
  omega arith,
)
normalize-ok (suc fuel) f e h low le word = elim (le_or_lt (2 ^ 10) f) [
  | inl stop ↦ (
    0,
    leading_now (suc fuel) f e h stop ∙ ap₂ (λ (f e : ℕ). some (f, e)) (omega arith) (omega arith),
    omega arith,
    omega arith,
    omega arith,
  )
  | inr more ↦
      let twice : shl32 f 1 ≡ f * 2 = omega arith in
      let less : less_one e ≡ e - 1 = omega arith in
      let grow : f * 2 * 2 ^ fuel ≡ f * 2 ^ suc fuel = double-pow f fuel in
      let (k, run, bound, low', high) =
        normalize-ok fuel (f * 2) (e - 1) (omega arith) (omega (arith, grow)) (omega arith)
          (omega arith) in
      let same : f * 2 * 2 ^ k ≡ f * 2 ^ suc k = double-pow f k in
      (
        suc k,
        leading_later fuel f e more
            ∙ ap₂ (normalize fuel) twice less
            ∙ run
            ∙ ap₂ (λ (f e : ℕ). some (f, e)) same (omega arith),
        omega arith,
        omega (arith, same),
        omega (arith, same),
      )
]
