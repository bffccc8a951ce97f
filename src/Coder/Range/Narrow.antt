-- ===== src/Coder/Range/Narrow.antt =====
-- The part of the interval that `encode` and `advance` choose for a symbol.
use detllm.Base.{
  ℕ, ◌+◌, ◌*◌, ◌/◌, ◌^◌, ◌≤◌, ◌<◌, ◌≡◌, ◌↔◌, arith, true, ok, wrapping_add, wrapping_mul, ltb, ◌==◌,
  none, some,
}
use detllm.Coder.Range.{validate, renorm_fuel}
use detllm.Coder.Range.Encoder.{RangeEncoder, encode, renorm}
use detllm.Coder.Range.Decoder.{RangeDecoder, advance}
use detllm.Coder.Range.Decoder
use detllm.Coder.Range.Interval.{IsInterval}
use detllm.Coder.Range.Renorm.{IsReady}
use native.Mathlib.Nat.{div-mul-le_self, le-div_iff_mul-le, mul-le-mul_left, mul-pos}

-- What `validate` asks of a symbol's cumulative frequency, its frequency and their total.
pub record IsSymbol (cum freq total : ℕ) : Type 0 where
  pub occurs : 0 < freq
  pub within : cum + freq ≤ total
  pub bounded : total < 2 ^ 31

pub validate-IsSymbol_iff :
    (cum freq total : ℕ) → (validate cum freq total ≡ ok tt) ↔ IsSymbol cum freq total
unfolding validate
validate-IsSymbol_iff cum freq total = (λ h. ground arith, λ s. ground arith)

abbrev pub narrowed : RangeEncoder → ℕ → ℕ → ℕ → RangeEncoder
narrowed e cum freq total = record e {
  low = e.low + e.range / total * cum;
  range = e.range / total * freq;
}

-- The products stay within the range.
pub products :
    (range cum freq total : ℕ)
    → 2 ^ 48 ≤ range
    → IsSymbol cum freq total
    → (0 < range / total)
      × (0 < range / total * freq)
      × (range / total * cum + range / total * freq ≤ range)
products range cum freq total wide s =
    let some_total : 0 < total = omega (arith, s.occurs, s.within) in
    let pos : 1 ≤ range / total = (le-div_iff_mul-le some_total).1 (omega (arith, s.bounded)) in
    let whole : range / total * total ≤ range = div-mul-le_self range total in
    let inner : range / total * (cum + freq) ≤ range / total * total =
      mul-le-mul_left (range / total) s.within in
    (pos, mul-pos pos s.occurs, omega arith)

pub narrowed-IsInterval :
    {e : RangeEncoder} {cum freq total : ℕ}
    → IsReady e
    → IsSymbol cum freq total
    → IsInterval (narrowed e cum freq total).low (narrowed e cum freq total).range
narrowed-IsInterval {e} {cum} {freq} {total} ready s =
    omega (arith, products e.range cum freq total ready.enough s)

pub encode_lem :
    {e : RangeEncoder} {cum freq total : ℕ}
    → IsReady e
    → IsSymbol cum freq total
    → encode e cum freq total ≡ renorm renorm_fuel (narrowed e cum freq total)
unfolding encode
encode_lem {e} {cum} {freq} {total} ready s =
    let (pos, some_left, within) = products e.range cum freq total ready.enough s in
    let low : wrapping_add e.low (wrapping_mul (e.range / total) cum)
        ≡ e.low + e.range / total * cum =
      omega arith in
    let fits : ltb (e.range / total * freq) (2 ^ 64) ≡ true = ground arith in
    rw ((validate-IsSymbol_iff cum freq total).1 s, low, fits)

-- The decoder between `decode_freq` and `advance`, and on its way to the loop of `advance`.
abbrev pub awaiting : RangeDecoder → ℕ → RangeDecoder
awaiting d total = record d { pending = some (d.range / total, total) }

abbrev pub chosen : RangeDecoder → ℕ → ℕ → ℕ → RangeDecoder
chosen d cum freq total = record d {
  low = d.low + d.range / total * cum;
  range = d.range / total * freq;
  pending = none;
}

pub advance_lem :
    (d : RangeDecoder) {cum freq total : ℕ}
    → IsInterval d.low d.range
    → 2 ^ 48 ≤ d.range
    → IsSymbol cum freq total
    → advance (awaiting d total) cum freq total
      ≡ Decoder.renorm renorm_fuel (chosen d cum freq total)
unfolding advance
advance_lem d {cum} {freq} {total} v wide s =
    let (pos, some_left, within) = products d.range cum freq total wide s in
    let low : wrapping_add d.low (wrapping_mul (d.range / total) cum)
        ≡ d.low + d.range / total * cum =
      omega arith in
    let fits : ltb (d.range / total * freq) (2 ^ 64) ≡ true = ground arith in
    let same : (total == total) ≡ true = ground arith in
    rw ((validate-IsSymbol_iff cum freq total).1 s, same, low, fits)
