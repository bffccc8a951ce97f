-- ===== src/Coder/Range/Renorm.antt =====
-- The loop of `renorm` of the encoder ends, and leaves an interval that is wide enough to divide.
use detllm.Base.{ℕ, zero, suc, ◌+◌, ◌*◌, ◌^◌, ◌≤◌, ◌<◌, ◌≡◌, ap, true, false, arith, ok, shl64}
use detllm.Coder.Range.{normalize_step, renorm_fuel}
use detllm.Coder.Range.Encoder.{RangeEncoder, renorm, shift_out}
use detllm.Coder.Range.Interval.{
  IsInterval, settled, cut, wide, normalize_step-Normalized, settled-IsInterval, cut-IsInterval,
}
use native.Mathlib.Nat.{pow-suc}

-- What `encode` may be called on.
pub record IsReady (e : RangeEncoder) : Type 0 where
  pub interval : IsInterval e.low e.range
  pub enough : 2 ^ 48 ≤ e.range

-- One round, by the three answers of `normalize_step`.
pub renorm_again :
    (fuel : ℕ) (e : RangeEncoder) {r : ℕ}
    → normalize_step e.low e.range ≡ (true, r)
    → renorm (suc fuel) e ≡ renorm fuel (shift_out e r)
unfolding renorm
renorm_again fuel e h = rw h

pub renorm_done :
    (fuel : ℕ) (e : RangeEncoder)
    → normalize_step e.low e.range ≡ (false, e.range)
    → renorm (suc fuel) e ≡ ok e
unfolding renorm
renorm_done fuel e h = rw h

abbrev Settles : ℕ → RangeEncoder → Type 0
Settles fuel e = (e' : RangeEncoder) × (renorm fuel e ≡ ok e') × IsReady e'

module _ (fuel : ℕ) (e : RangeEncoder) (v : IsInterval e.low e.range) where
  Settles-wide :
      normalize_step e.low e.range ≡ (false, e.range) → 2 ^ 48 ≤ e.range → Settles (suc fuel) e
  Settles-wide h w = (e, renorm_done fuel e h, record { interval = v; enough = w })

  Settles-again :
      {r : ℕ}
      → normalize_step e.low e.range ≡ (true, r)
      → Settles fuel (shift_out e r)
      → Settles (suc fuel) e
  Settles-again h (e', run, ready) = (e', rw (renorm_again fuel e h) run, ready)

grows : (k r : ℕ) → r * 256 ^ suc k ≡ r * 256 * 256 ^ k
grows k r = omega (arith, ap (λ (t : ℕ). r * t) (pow-suc 256 k))

-- A bound that was met after `k + 1` rounds is met after `k` rounds of the shifted range.
still_far : (b k r : ℕ) → r < 2 ^ 56 → b ≤ r * 256 ^ suc k → b ≤ shl64 r 8 * 256 ^ k
still_far b k r small far =
    let shifted : shl64 r 8 ≡ r * 256 = omega arith in rw shifted (omega (arith, grows k r))

-- An interval that ends with the words stays so, and grows by a byte in each round.
Settles-edge :
    (k fuel : ℕ) (e : RangeEncoder)
    → IsInterval e.low e.range
    → e.low + e.range ≡ 2 ^ 64
    → 2 ^ 48 ≤ e.range * 256 ^ k
    → k < fuel
    → Settles fuel e
unfolding shift_out
Settles-edge k zero e v edge far lt = absurd (omega arith)
Settles-edge zero (suc fuel) e v edge far lt = elim (normalize_step-Normalized v) [
  | settled h near inside ↦ absurd (omega arith)
  | cut r h near pos le small ↦ absurd (omega arith)
  | wide h w ↦ Settles-wide fuel e v h w
]
Settles-edge (suc k) (suc fuel) e v edge far lt = elim (normalize_step-Normalized v) [
  | settled h near inside ↦ absurd (omega arith)
  | cut r h near pos le small ↦
      let whole : e.range ≡ r = omega arith in
      Settles-again fuel e v h (
        Settles-edge k fuel (shift_out e r) (cut-IsInterval e.low r near pos (omega arith))
          (omega arith) (still_far (2 ^ 48) k r (omega arith) (rw whole at far)) (omega arith))
  | wide h w ↦ Settles-wide fuel e v h w
]

Settles-open :
    (k fuel : ℕ) (e : RangeEncoder)
    → IsInterval e.low e.range
    → 2 ^ 56 ≤ e.range * 256 ^ k
    → k + 6 < fuel
    → Settles fuel e
unfolding shift_out
Settles-open k zero e v far lt = absurd (omega arith)
Settles-open zero (suc fuel) e v far lt = elim (normalize_step-Normalized v) [
  | settled h near inside ↦ absurd (omega arith)
  | cut r h near pos le small ↦ absurd (omega arith)
  | wide h w ↦ Settles-wide fuel e v h w
]
Settles-open (suc k) (suc fuel) e v far lt = elim (normalize_step-Normalized v) [
  | settled h near inside ↦ Settles-again fuel e v h (
      Settles-open k fuel (shift_out e e.range) (settled-IsInterval e.low e.range v.some_left near)
        (still_far (2 ^ 56) k e.range (omega arith) far) (omega arith))
  | cut r h near pos le small ↦ Settles-again fuel e v h (
      Settles-edge 6 fuel (shift_out e r) (cut-IsInterval e.low r near pos (omega arith))
        (omega arith) (omega arith) (omega arith))
  | wide h w ↦ Settles-wide fuel e v h w
]

-- From an encoder whose interval is not empty, ends at 2^64 at the latest, and starts at 2^64 -
-- 2^56 at the earliest if it ends there, the loop of `renorm` ends within 16 rounds, and leaves
-- such an interval that is at least 2^48 wide.
pub renorm-IsReady :
    (e : RangeEncoder)
    → IsInterval e.low e.range
    → (e' : RangeEncoder) × (renorm renorm_fuel e ≡ ok e') × IsReady e'
renorm-IsReady e v = Settles-open 7 renorm_fuel e v (omega arith) (omega arith)
