-- ===== src/Coder/Range/Symbol.antt =====
-- One symbol: `encode` on one side, `decode_freq` and `advance` on the other.
use detllm.Base.{
  ℕ, ◌+◌, ◌-◌, ◌*◌, ◌/◌, ◌^◌, ◌≤◌, ◌<◌, ◌≡◌, sym, arith, false, List, ◌++◌, ok, leb, ◌==◌, ◌||◌,
  wrapping_sub, ◌∙◌,
}
use detllm.Coder.Range.{renorm_fuel}
use detllm.Coder.Range.Encoder.{RangeEncoder, encode}
use detllm.Coder.Range.Decoder.{RangeDecoder, decode_freq, advance}
use detllm.Coder.Range.Renorm.{IsReady, renorm-IsReady}
use detllm.Coder.Range.Window.{Covers, Covers-widen, big_endian, big_endian-lt}
use detllm.Coder.Range.Follow.{follow, renorm_follows}
use detllm.Coder.Range.Narrow.{
  IsSymbol, narrowed, products, narrowed-IsInterval, encode_lem, awaiting, advance_lem,
}
use native.Mathlib.Nat.{le-div_iff_mul-le, div-lt_iff_lt-mul}

-- From a ready state (an interval within the words and at least 2^48 wide) `encode` succeeds on
-- every symbol that `validate` accepts, its loop ends within the fuel, and the state that it leaves
-- is ready again.
pub encode-IsReady :
    {e : RangeEncoder} {cum freq total : ℕ}
    → IsReady e
    → IsSymbol cum freq total
    → (e' : RangeEncoder) × (encode e cum freq total ≡ ok e') × IsReady e'
encode-IsReady {e} {cum} {freq} {total} ready s =
    rw (encode_lem ready s)
      (renorm-IsReady (narrowed e cum freq total) (narrowed-IsInterval ready s))

-- The value that `decode_freq` computes from a code in the narrowed interval.
value_bounds :
    (low code range cum freq total : ℕ)
    → 0 < range / total
    → low + range / total * cum ≤ code
    → code < low + range / total * cum + range / total * freq
    → (cum ≤ (code - low) / (range / total)) × ((code - low) / (range / total) < cum + freq)
value_bounds low code range cum freq total pos above below =
    let r = range / total in
    ((le-div_iff_mul-le pos).1 (omega arith), (div-lt_iff_lt-mul pos).1 (omega arith))

abbrev pub asked : RangeEncoder → List ℕ → ℕ → RangeDecoder
asked e rest total = awaiting (follow e rest) total

-- Below, `e` is ready for the symbol, and `rest` follows the narrowed encoder.
module _ {e : RangeEncoder} {cum freq total : ℕ} {rest : List ℕ} (ready : IsReady e)
    (s : IsSymbol cum freq total)
    (covers : Covers (narrowed e cum freq total).low (narrowed e cum freq total).range rest) where
  decode_freq_lem :
      (value : ℕ) × (cum ≤ value)
      × (value < cum + freq)
      × (decode_freq (follow e rest) total ≡ ok (value, asked e rest total))
  unfolding decode_freq
  decode_freq_lem =
      let (pos, some_left, within) = products e.range cum freq total ready.enough s in
      let word : big_endian 8 rest < 2 ^ 64 = big_endian-lt 8 rest covers.bytes_only in
      let offset : wrapping_sub (big_endian 8 rest) e.low ≡ big_endian 8 rest - e.low =
        omega (arith, covers.above, ready.interval.word) in
      let (above, below) =
        value_bounds e.low (big_endian 8 rest) e.range cum freq total pos covers.above
          covers.below in
      let value = (big_endian 8 rest - e.low) / (e.range / total) in
      let total_ok : (total == 0) || leb (2 ^ 31) total ≡ false =
        ground (arith, s.occurs, s.within, s.bounded) in
      let range_ok : (e.range / total == 0) ≡ false = ground arith in
      let value_ok : leb total value ≡ false = ground (arith, s.within) in
      (value, above, below, rw (total_ok, range_ok, offset, value_ok))

-- Let `encode` take a ready encoder `e` to `e'` on an accepted symbol, and let the bytes `rest'`
-- read as a number of the interval of `e'`. Then some bytes `rest` stand behind the output of `e`
-- as `rest'` stands behind that of `e'`, and read as a number of the interval of `e`; the decoder
-- at `e` that reads `rest` finds a value in `[cum, cum + freq)`, and `advance` on the symbol takes
-- it to the decoder at `e'` that reads `rest'`.
pub symbol_follows :
    {e e' : RangeEncoder} {cum freq total : ℕ} (rest' : List ℕ)
    → IsReady e
    → IsSymbol cum freq total
    → encode e cum freq total ≡ ok e'
    → Covers e'.low e'.range rest'
    → (rest : List ℕ) × (e.out ++ rest ≡ e'.out ++ rest')
      × Covers e.low e.range rest
      × (value : ℕ) × (cum ≤ value)
      × (value < cum + freq)
      × (decode_freq (follow e rest) total ≡ ok (value, asked e rest total))
      × (advance (asked e rest total) cum freq total ≡ ok (follow e' rest'))
symbol_follows {e} {e'} {cum} {freq} {total} rest' ready s run covers =
    let n = narrowed e cum freq total in
    let (rest, same, inner, along) =
      renorm_follows renorm_fuel n e' rest' (narrowed-IsInterval ready s)
        (sym (encode_lem ready s) ∙ run) covers in
    let (value, low, high, found) = decode_freq_lem ready s inner in
    let (pos, some_left, within) = products e.range cum freq total ready.enough s in
    (
      rest,
      same,
      Covers-widen inner (omega arith) (omega arith),
      value,
      low,
      high,
      found,
      advance_lem (follow e rest) ready.interval ready.enough s ∙ along,
    )
