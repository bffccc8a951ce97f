-- ===== src/Coder/Range/Decoder.antt =====
-- `RangeDecoder` of crates/det-coder/src/range.rs.
use detllm.Base.{
  is_some, ℕ, zero, suc, ◌+◌, ◌-◌, ◌/◌, ◌^◌, bit_or, not, ◌||◌, Option, none, some, List, leb, ◌==◌,
  if◌then◌else◌, length, get_elem?, Outcome, ok, err, stuck, ◌>>=◌, ◌>>◌, guard, ok_or, at_index,
  wrapping_add, wrapping_sub, wrapping_mul, shl64, mul64,
}
use detllm.Coder.Range.{
  RangeError, invalid_frequency, unexpected_eof, validate, normalize_step, renorm_fuel,
}

pub record RangeDecoder : Type 0 where
  pub low : ℕ
  pub code : ℕ
  pub range : ℕ
  pub pending : Option (ℕ × ℕ)
  pub input : List ℕ
  pub pos : ℕ

unfoldable pub read_byte : RangeDecoder → Outcome RangeError (ℕ × RangeDecoder)
read_byte d =
    if leb (length d.input) d.pos
    then err unexpected_eof
    else do b ← at_index (get_elem? d.input d.pos); ok (b, record d { pos = d.pos + 1 })

-- `self.code = (self.code << 8) | self.read_byte()? as u64`.
unfoldable pub shift_in : RangeDecoder → Outcome RangeError RangeDecoder
unfolding read_byte
shift_in d = do (b, d') ← read_byte d; ok (record d' { code = bit_or (shl64 d.code 8) b })

-- The `for` loop of `new`, on the rounds left.
unfoldable pub fill : ℕ → RangeDecoder → Outcome RangeError RangeDecoder
unfolding shift_in
fill zero d = ok d
fill (suc n) d = shift_in d >>= fill n

unfoldable pub new : List ℕ → Outcome RangeError RangeDecoder
unfolding fill
new input =
    fill 8
      (record { low = 0; code = 0; range = 2 ^ 64 - 1; pending = none; input = input; pos = 0 })

unfoldable pub decode_freq : RangeDecoder → ℕ → Outcome RangeError (ℕ × RangeDecoder)
decode_freq d total = do
  guard (not (is_some d.pending)) invalid_frequency
  guard (not (total == 0 || leb (2 ^ 31) total)) invalid_frequency
  let range = d.range / total
  guard (not (range == 0)) invalid_frequency
  let value = wrapping_sub d.code d.low / range
  guard (not (leb total value)) invalid_frequency
  ok (value, record d { pending = some (range, total) })

unfoldable pub renorm : ℕ → RangeDecoder → Outcome RangeError RangeDecoder
unfolding shift_in
renorm zero d = stuck
renorm (suc fuel) d =
    let (again, range) = normalize_step d.low d.range in
    let rest =
      shift_in d >>= λ d'. renorm fuel (record d' { low = shl64 d.low 8; range = shl64 range 8 }) in
    if again then rest else ok (record d { range = range })

unfoldable pub advance : RangeDecoder → ℕ → ℕ → ℕ → Outcome RangeError RangeDecoder
advance d cum freq total = do
  validate cum freq total
  (range, pending_total) ← ok_or d.pending invalid_frequency
  guard (pending_total == total) invalid_frequency
  let low = wrapping_add d.low (wrapping_mul range cum)
  range ← mul64 range freq
  renorm renorm_fuel (record d { low = low; range = range; pending = none })
