-- ===== src/Num/Half/Pack.antt =====
-- The word that sign, exponent and fraction make, for a subnormal number with a loop.
use detllm.Base.{
  ℕ, zero, suc, ◌+◌, ◌-◌, ◌*◌, ◌/◌, ◌%◌, ◌^◌, ◌≤◌, ◌<◌, ◌≡◌, ◌∙◌, refl, sym, ap, arith, bit_and,
  bit_or, false, Option, some, ◌==◌, if◌then◌else◌,
}
use detllm.Base.Bits.{bit_and-mask, bit_and-shifted_mask, bit_or-shifted}
use detllm.Num.Half.{shl32, normalize, from_subnormal}
use detllm.Num.Half.Loop.{pow-add, normalize-ok}

-- The magnitude of a finite half float, in units of `2 ^ -24`.
unfoldable pub half_magnitude : ℕ → ℕ
half_magnitude bits =
    let exp = bits / 2 ^ 10 % 2 ^ 5 in
    let frac = bits % 2 ^ 10 in if exp == 0 then frac else (2 ^ 10 + frac) * 2 ^ (exp - 1)

-- The magnitude of a finite single float, in units of `2 ^ -149`.
unfoldable pub single_magnitude : ℕ → ℕ
single_magnitude bits =
    let exp = bits / 2 ^ 23 % 2 ^ 8 in
    let frac = bits % 2 ^ 23 in if exp == 0 then frac else (2 ^ 23 + frac) * 2 ^ (exp - 1)

-- Sign, exponent and fraction put together.
pack :
    (s e f : ℕ)
    → e < 2 ^ 8
    → f < 2 ^ 23
    → bit_or (bit_or (s * 2 ^ 31) (e * 2 ^ 23)) f ≡ s * 2 ^ 31 + e * 2 ^ 23 + f
pack s e f he hf =
    let high : s * 2 ^ 31 + e * 2 ^ 23 ≡ (s * 2 ^ 8 + e) * 2 ^ 23 = omega arith in
    ap (λ n. bit_or n f) (bit_or-shifted 31 s (e * 2 ^ 23) (omega arith) ∙ high)
    ∙ bit_or-shifted 23 (s * 2 ^ 8 + e) f hf
    ∙ ap (λ n. n + f) (sym high)

-- The fields of a packed word.
single_magnitude-pack :
    (s e f : ℕ)
    → 0 < e
    → e < 2 ^ 8
    → f < 2 ^ 23
    → single_magnitude (s * 2 ^ 31 + e * 2 ^ 23 + f) ≡ (2 ^ 23 + f) * 2 ^ (e - 1)
unfolding single_magnitude
single_magnitude-pack s e f pos he hf =
    let exp : (s * 2 ^ 31 + e * 2 ^ 23 + f) / 2 ^ 23 % 2 ^ 8 ≡ e = omega arith in
    let frac : (s * 2 ^ 31 + e * 2 ^ 23 + f) % 2 ^ 23 ≡ f = omega arith in
    let test : (e == 0) ≡ false = ground arith in rw (exp, frac, test) refl

single_magnitude-zero : (s : ℕ) → single_magnitude (s * 2 ^ 31) ≡ 0
unfolding single_magnitude
single_magnitude-zero s =
    let exp : s * 2 ^ 31 / 2 ^ 23 % 2 ^ 8 ≡ 0 = omega arith in
    let frac : s * 2 ^ 31 % 2 ^ 23 ≡ 0 = omega arith in rw (exp, frac) refl

-- The fields of a half float.
module _ (bits : ℕ) (small : bits < 2 ^ 16) where
  pub sign_lem : shl32 (bit_and bits 0x8000) 16 ≡ bits / 2 ^ 15 * 2 ^ 31
  sign_lem = omega (arith, bit_and-shifted_mask 15 1 bits)

  pub exp_lem : bit_and (bits / 2 ^ 10) 0x1f ≡ bits / 2 ^ 10 % 2 ^ 5
  exp_lem = bit_and-mask 5 (bits / 2 ^ 10)

  pub frac_lem : bit_and bits 0x3ff ≡ bits % 2 ^ 10
  frac_lem = bit_and-mask 10 bits

-- What the single float has to be.
unfoldable pub Keeps : ℕ → ℕ → ℕ → Option ℕ → Type 0
Keeps sign magnitude bound result =
    (word : ℕ) × (result ≡ some word)
    × (word < 2 ^ 32)
    × (word / 2 ^ 31 ≡ sign)
    × (single_magnitude word ≡ magnitude * 2 ^ 125)
    × (word / 2 ^ 23 % 2 ^ 8 < bound)

pub Keeps-pack :
    (s e f magnitude : ℕ)
    → s < 2
    → 0 < e
    → e < 255
    → f < 2 ^ 23
    → (2 ^ 23 + f) * 2 ^ (e - 1) ≡ magnitude * 2 ^ 125
    → Keeps s magnitude 255 (some (bit_or (bit_or (s * 2 ^ 31) (e * 2 ^ 23)) f))
unfolding Keeps
Keeps-pack s e f magnitude hs pos he hf same = (
  s * 2 ^ 31 + e * 2 ^ 23 + f,
  ap some (pack s e f (omega arith) hf),
  omega arith,
  omega arith,
  single_magnitude-pack s e f pos (omega arith) hf ∙ same,
  omega arith,
)

-- The value of a normalised fraction.
normal_value :
    (g p : ℕ) → 2 ^ 10 ≤ g → g < 2 ^ 11 → (2 ^ 23 + g % 2 ^ 10 * 2 ^ 13) * p ≡ g * (2 ^ 13 * p)
normal_value g p low high =
    let same : 2 ^ 23 + g % 2 ^ 10 * 2 ^ 13 ≡ g * 2 ^ 13 = omega arith in rw same (grind arith)

regroup : (a p q : ℕ) → p * q ≡ 2 ^ 112 → a * p * (2 ^ 13 * q) ≡ a * 2 ^ 125
regroup a p q h =
    let same : a * p * (2 ^ 13 * q) ≡ a * (2 ^ 13 * (p * q)) = grind arith in
    same ∙ ap (λ n. a * (2 ^ 13 * n)) h

subnormal_value : (frac k : ℕ) → k ≤ 10 → frac * 2 ^ k * (2 ^ 13 * 2 ^ (112 - k)) ≡ frac * 2 ^ 125
subnormal_value frac k h =
    let split : k + (112 - k) ≡ 112 = omega arith in
    let whole : 2 ^ k * 2 ^ (112 - k) ≡ 2 ^ 112 =
      sym (pow-add k (112 - k)) ∙ ap (λ n. 2 ^ n) split in
    regroup frac (2 ^ k) (2 ^ (112 - k)) whole

from_subnormal_zero : (sign : ℕ) → from_subnormal sign 0 ≡ some sign
unfolding from_subnormal
from_subnormal_zero sign = refl

from_subnormal_run :
    (sign frac : ℕ) {f e : ℕ}
    → 0 < frac
    → normalize 10 frac (2 ^ 32 - 14) ≡ some (f, e)
    → from_subnormal sign frac
      ≡ some (bit_or (bit_or sign (shl32 ((e + 127) % 2 ^ 32) 23)) (shl32 (bit_and f 0x3ff) 13))
unfolding from_subnormal
from_subnormal_run sign frac pos run =
    let test : (frac == 0) ≡ false = ground arith in rw (test, run) refl

pub from_subnormal-Keeps :
    (s frac : ℕ) → s < 2 → frac < 2 ^ 10 → Keeps s frac 255 (from_subnormal (s * 2 ^ 31) frac)
unfolding Keeps
from_subnormal-Keeps s zero hs small = (
  s * 2 ^ 31,
  from_subnormal_zero (s * 2 ^ 31),
  omega arith,
  omega arith,
  single_magnitude-zero s,
  omega arith,
)
from_subnormal-Keeps s (suc frac) hs small =
    let (k, run, bound, low, high) =
      normalize-ok 10 (suc frac) (2 ^ 32 - 14) (omega arith) (omega arith) (omega arith)
        (omega arith) in
    let g = suc frac * 2 ^ k in
    let exp : shl32 ((2 ^ 32 - 14 - k + 127) % 2 ^ 32) 23 ≡ (113 - k) * 2 ^ 23 = omega arith in
    let fraction : shl32 (bit_and g 0x3ff) 13 ≡ g % 2 ^ 10 * 2 ^ 13 =
      omega (arith, bit_and-mask 10 g) in
    let less : 113 - k - 1 ≡ 112 - k = omega arith in
    rw (from_subnormal_run (s * 2 ^ 31) (suc frac) (omega arith) run, exp, fraction)
      (Keeps-pack s (113 - k) (g % 2 ^ 10 * 2 ^ 13) (suc frac) hs (omega arith) (omega arith)
        (omega arith)
        (ap (λ n. (2 ^ 23 + g % 2 ^ 10 * 2 ^ 13) * 2 ^ n) less
          ∙ normal_value g (2 ^ (112 - k)) low high
          ∙ subnormal_value (suc frac) k bound))
