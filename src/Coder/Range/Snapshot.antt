-- ===== src/Coder/Range/Snapshot.antt =====
-- Snapshots of the encoder: what they restore, and what `from_snapshot` lets pass.
use detllm.Base.{
  ℕ, zero, suc, ◌*◌, ◌/◌, ◌^◌, ◌<◌, ◌≡◌, refl, ◌∙◌, arith, true, false, ltb, ◌==◌, bit_xor,
  wrapping_add, wrapping_mul, ok, stuck,
}
use detllm.Base.Bits.{xor-lt-pow_iff}
use detllm.Coder.Range.{normalize_step, renorm_fuel, top}
use detllm.Coder.Range.Encoder.{
  RangeEncoder, RangeEncoderSnapshot, from_snapshot, snapshot, encode, renorm, shift_out,
}
use detllm.Coder.Range.Renorm.{IsReady, renorm_again}
use detllm.Coder.Range.Narrow.{IsSymbol, validate-IsSymbol_iff}
use native.Mathlib.Nat.{div-eq_of_lt, zero-mul}

-- `from_snapshot` on the snapshot of a ready encoder gives back that encoder.
pub from_snapshot-snapshot : (e : RangeEncoder) → IsReady e → from_snapshot (snapshot e) ≡ ok e
unfolding from_snapshot snapshot
from_snapshot-snapshot e ready =
    let some_left : (e.range == 0) ≡ false = ground (arith, ready.enough) in rw some_left

-- An empty interval is shifted for ever.
normalize_step-zero : (low : ℕ) → low < 2 ^ 64 → normalize_step low 0 ≡ (true, 0)
unfolding normalize_step
normalize_step-zero low word =
    let same : wrapping_add low 0 ≡ low = omega arith in
    let below : ltb (bit_xor low low) top ≡ true =
      ground (arith, (xor-lt-pow_iff 56 low low).1 refl) in
    rw (same, below)

pub renorm-zero :
    (fuel : ℕ) (e : RangeEncoder) → e.low < 2 ^ 64 → e.range ≡ 0 → renorm fuel e ≡ stuck
unfolding shift_out
renorm-zero zero e word empty = unfold renorm in refl
renorm-zero (suc fuel) e word empty =
    let again : normalize_step e.low e.range ≡ (true, 0) =
      rw empty (normalize_step-zero e.low word) in
    renorm_again fuel e {r = 0} again ∙ renorm-zero fuel (shift_out e 0) (omega arith) refl

-- The encoder's state when it enters the loop of `encode`.
abbrev pub entered : RangeEncoder → ℕ → ℕ → ℕ → RangeEncoder
entered e cum freq total = record e {
  low = wrapping_add e.low (wrapping_mul (e.range / total) cum);
  range = e.range / total * freq;
}

-- `from_snapshot` accepts a snapshot whose range is at least 1 but smaller than a later total. On a
-- symbol of that total that `validate` accepts, `encode` then enters its loop with an empty
-- interval, and no number of rounds ends the loop.
pub encode-from_snapshot_diverges :
    (s : RangeEncoderSnapshot) (cum freq total : ℕ)
    → 0 < s.range
    → s.range < total
    → IsSymbol cum freq total
    → (e : RangeEncoder) × (from_snapshot s ≡ ok e)
      × (encode e cum freq total ≡ renorm renorm_fuel (entered e cum freq total))
      × ((fuel : ℕ) → renorm fuel (entered e cum freq total) ≡ stuck)
unfolding from_snapshot encode
encode-from_snapshot_diverges s cum freq total some_left small symbol =
    let e : RangeEncoder = record { low = s.low; range = s.range; out = s.out } in
    let kept : (s.range == 0) ≡ false = ground arith in
    let none_left : s.range / total ≡ 0 = div-eq_of_lt small in
    let empty : s.range / total * freq ≡ 0 = rw none_left (zero-mul freq) in
    let fits : ltb (s.range / total * freq) (2 ^ 64) ≡ true = rw empty refl in
    (
      e,
      rw kept,
      rw ((validate-IsSymbol_iff cum freq total).1 symbol, fits),
      λ fuel. renorm-zero fuel (entered e cum freq total) (omega arith) empty,
    )
