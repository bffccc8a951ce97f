-- ===== src/Coder/Range/Ends.antt =====
-- Both ends of a stream: `finish` writes the last bytes, `RangeDecoder::new` reads the first.
use detllm.Base.{
  IsByte, ℕ, zero, suc, ◌+◌, ◌-◌, ◌*◌, ◌^◌, ◌≤◌, ◌<◌, ◌≡◌, sym, ◌∙◌, arith, none, List, [], ◌∷◌,
  ◌++◌, append-nil, append_assoc, true, leb, length, get_elem?-lt, All, All-get_elem?, ok, err,
  shl64, shr64, bit_or,
}
use detllm.Base.Bits.{bit_or-shifted}
use native.Mathlib.Nat.{pow-le-pow_right}
use native.Mathlib.Numerals.{add-one}
use native.Mathlib.Decide.{dec_lt}
use detllm.Coder.Range.{unexpected_eof}
use detllm.Coder.Range.Encoder.{RangeEncoder, flush, finish}
use detllm.Coder.Range.Encoder
use detllm.Coder.Range.Decoder.{RangeDecoder, fill, shift_in, read_byte}
use detllm.Coder.Range.Decoder
use detllm.Coder.Range.Renorm.{IsReady}
use detllm.Coder.Range.Window.{Covers, big_endian, big_endian-suc, big_endian-lt}
use detllm.Coder.Range.Follow.{follow, shift_in_lem}

-- The bytes that `n` rounds of the loop of `finish` write.
top_bytes : ℕ → ℕ → List ℕ
top_bytes zero low = []
top_bytes (suc n) low = shr64 low 56 ∷ top_bytes n (shl64 low 8)

flush_lem : (n low : ℕ) (out : List ℕ) → flush n low out ≡ out ++ top_bytes n low
unfolding flush top_bytes
flush_lem zero low out = sym (append-nil out)
flush_lem (suc n) low out =
    flush_lem n (shl64 low 8) (out ++ (shr64 low 56 ∷ []))
    ∙ append_assoc out (shr64 low 56 ∷ []) (top_bytes n (shl64 low 8))

top_bytes-word : (low : ℕ) → low < 2 ^ 64 → big_endian 8 (top_bytes 8 low) ≡ low
unfolding top_bytes big_endian
top_bytes-word low word = omega arith

top_bytes-IsByte : (n low : ℕ) → low < 2 ^ 64 → All IsByte (top_bytes n low)
unfolding top_bytes
top_bytes-IsByte zero low word = tt
top_bytes-IsByte (suc n) low word = (omega arith, top_bytes-IsByte n (shl64 low 8) (omega arith))

-- `finish` writes out a number of the interval, its lowest one.
pub finish-Covers :
    {e : RangeEncoder}
    → IsReady e
    → (rest : List ℕ) × (finish e ≡ e.out ++ rest) × Covers e.low e.range rest
unfolding finish
finish-Covers {e} ready = (
  top_bytes 8 e.low,
  flush_lem 8 e.low e.out,
  let same : big_endian 8 (top_bytes 8 e.low) ≡ e.low = top_bytes-word e.low ready.interval.word in
      record {
        bytes_only = top_bytes-IsByte 8 e.low ready.interval.word;
        long = unfold top_bytes in omega arith;
        above = omega arith;
        below = omega (arith, ready.interval.some_left);
      },
)

pub new-IsReady : IsReady Encoder.new
unfolding Encoder.new
new-IsReady = record { interval = omega arith; enough = omega arith }

-- The decoder after `k` rounds of the loop of `new`.
abbrev filled : List ℕ → ℕ → RangeDecoder
filled input k = record {
  low = 0;
  code = big_endian k input;
  range = 2 ^ 64 - 1;
  pending = none;
  input = input;
  pos = k;
}

filled-suc :
    (input : List ℕ) (k : ℕ)
    → All IsByte input
    → k < 8
    → k < length input
    → shift_in (filled input k) ≡ ok (filled input (suc k))
filled-suc input k bytes lt inside =
    let (b, found) = get_elem?-lt input k inside in
    let small : big_endian k input < 2 ^ 56 = omega (
      arith,
      big_endian-lt k input bytes,
      pow-le-pow_right {n = 256} (omega arith) {i = k} {j = 7} (omega arith),
    ) in
    let whole : shl64 (big_endian k input) 8 ≡ big_endian k input * 2 ^ 8 = omega arith in
    let next : bit_or (shl64 (big_endian k input) 8) b ≡ big_endian (suc k) input =
      rw (whole, bit_or-shifted 8 (big_endian k input) b (All-get_elem? IsByte input k bytes found))
        (sym (big_endian-suc k input found)) in
    shift_in_lem (filled input k) found ∙ rw (next, add-one)

fill_lem :
    (n k : ℕ) (input : List ℕ)
    → All IsByte input
    → n + k ≡ 8
    → 8 ≤ length input
    → fill n (filled input k) ≡ ok (filled input 8)
unfolding fill
fill_lem zero k input bytes all long = let last : k ≡ 8 = omega arith in rw last
fill_lem (suc n) k input bytes all long =
    rw (filled-suc input k bytes (omega arith) (omega arith))
      (fill_lem n (suc k) input bytes (omega arith) long)

-- On eight bytes or more a decoder starts out in the place of a new encoder.
pub new_lem :
    (input : List ℕ)
    → All IsByte input
    → 8 ≤ length input
    → Decoder.new input ≡ ok (follow Encoder.new input)
unfolding Decoder.new big_endian Encoder.new
new_lem input bytes long = fill_lem 8 0 input bytes (omega arith) long

fill_short :
    (n k : ℕ) (input : List ℕ)
    → All IsByte input
    → n + k ≡ 8
    → k ≤ length input
    → length input < 8
    → fill n (filled input k) ≡ err unexpected_eof
unfolding fill
fill_short zero k input bytes all le short = absurd (omega arith)
fill_short (suc n) k input bytes all le short = elim (dec_lt k (length input)) [
  | yes inside ↦
      rw (filled-suc input k bytes (omega arith) inside)
        (fill_short n (suc k) input bytes (omega arith) inside short)
  | no over ↦ let past : leb (length input) k ≡ true = ground arith in unfold shift_in in rw past
]

-- `RangeDecoder::new` refuses an input of fewer than eight bytes as ended too early.
pub new_short :
    (input : List ℕ) → All IsByte input → length input < 8 → Decoder.new input ≡ err unexpected_eof
unfolding Decoder.new big_endian
new_short input bytes short = fill_short 8 0 input bytes (omega arith) (omega arith) short
