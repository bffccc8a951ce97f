-- ===== src/Coder/Range/Decode.antt =====
-- The decoder on any input: it moves through the same intervals as the encoder, so its loop ends
-- too, and the only error that its loop can meet is the end of the input.
use detllm.Base.{
  ℕ, zero, suc, ◌+◌, ◌/◌, ◌^◌, ◌%◌, ◌*◌, ◌≤◌, ◌<◌, ◌≡◌, ◌⊎◌, inl, inr, refl, sym, ap, ◌∙◌, arith,
  true, false, ◌||◌, none, List, [], length, get_elem?-lt, leb, ◌==◌, Bool-cases, le_or_lt, ok, err,
  ok-injective, wrapping_sub, shl64, bit_or,
}
use detllm.Coder.Range.{unexpected_eof, invalid_frequency, normalize_step, renorm_fuel}
use detllm.Coder.Range.Encoder.{RangeEncoder, shift_out}
use detllm.Coder.Range.Encoder
use detllm.Coder.Range.Decoder.{RangeDecoder, shift_in, read_byte, decode_freq, advance}
use detllm.Coder.Range.Decoder
use detllm.Coder.Range.Interval.{
  IsInterval, settled, cut, wide, normalize_step-Normalized, settled-IsInterval, cut-IsInterval,
}
use detllm.Coder.Range.Renorm.{renorm-IsReady, renorm_again, renorm_done}
use detllm.Coder.Range.Narrow.{
  IsSymbol, narrowed, narrowed-IsInterval, awaiting, chosen, advance_lem,
}
use native.Mathlib.Nat.{le-div_iff_mul-le}

-- What `decode_freq` may be called on: a word-sized interval wide enough, and no value pending.
pub record IsWaiting (d : RangeDecoder) : Type 0 where
  pub interval : IsInterval d.low d.range
  pub enough : 2 ^ 48 ≤ d.range
  pub idle : d.pending ≡ none

-- The encoder with the interval of the decoder.
abbrev mirror : RangeDecoder → List ℕ → RangeEncoder
mirror d out = record { low = d.low; range = d.range; out = out }

shift_in-cases :
    (d : RangeDecoder)
    → (shift_in d ≡ err unexpected_eof)
      ⊎ ((code : ℕ) × (pos : ℕ) × (shift_in d ≡ ok (record d { code = code; pos = pos })))
unfolding shift_in
shift_in-cases d = elim (Bool-cases (leb (length d.input) d.pos)) [
  | inl over ↦ inl (rw over)
  | inr inside ↦
      let (b, found) = get_elem?-lt d.input d.pos (ground arith) in
      inr (bit_or (shl64 d.code 8) b, d.pos + 1, rw (inside, found))
]

abbrev Renormed : RangeDecoder → RangeEncoder → ℕ → Type 0
Renormed d e' fuel =
    (Decoder.renorm fuel d ≡ err unexpected_eof)
    ⊎ ((d' : RangeDecoder) × (Decoder.renorm fuel d ≡ ok d')
        × (d'.low ≡ e'.low)
        × (d'.range ≡ e'.range)
        × (d'.pending ≡ d.pending))

-- One round of both loops; the decoder may meet the end of its input.
again-Renormed :
    (fuel r : ℕ) (d : RangeDecoder) (e' : RangeEncoder)
    → normalize_step d.low d.range ≡ (true, r)
    → ((code pos : ℕ)
        → Renormed
            (record d { low = shl64 d.low 8; code = code; range = shl64 r 8; pos = pos })
            e'
            fuel)
    → Renormed d e' (suc fuel)
unfolding Decoder.renorm
again-Renormed fuel r d e' h more = elim (shift_in-cases d) [
  | inl eof ↦ inl (rw (h, eof))
  | inr (code, pos, moved) ↦ rw (h, moved) (more code pos)
]

renorm-Renormed :
    (fuel : ℕ) (d : RangeDecoder) (out : List ℕ) (e' : RangeEncoder)
    → IsInterval d.low d.range
    → Encoder.renorm fuel (mirror d out) ≡ ok e'
    → Renormed d e' fuel
unfolding shift_out
renorm-Renormed zero d out e' v run = unfold Encoder.renorm in cc
renorm-Renormed (suc fuel) d out e' v run = elim (normalize_step-Normalized v) [
  | settled h near inside ↦ again-Renormed fuel d.range d e' h λ code pos.
      renorm-Renormed fuel
        (record d { low = shl64 d.low 8; code = code; range = shl64 d.range 8; pos = pos }) _ e'
        (settled-IsInterval d.low d.range v.some_left near)
        (sym (renorm_again fuel (mirror d out) h) ∙ run)
  | cut r h near pos le narrow ↦ again-Renormed fuel r d e' h λ code at.
      renorm-Renormed fuel
        (record d { low = shl64 d.low 8; code = code; range = shl64 r 8; pos = at }) _ e'
        (cut-IsInterval d.low r near pos (omega arith))
        (sym (renorm_again fuel (mirror d out) h) ∙ run)
  | wide h w ↦
      let same : mirror d out ≡ e' = ok-injective (sym (renorm_done fuel (mirror d out) h) ∙ run) in
      inr (
        d,
        unfold Decoder.renorm in rw h,
        ap (λ (e : RangeEncoder). e.low) same,
        ap (λ (e : RangeEncoder). e.range) same,
        refl,
      )
]

-- On a decoder whose interval is at least 2^48 wide and that has no value pending, and for a total
-- of at least 1 and less than 2^31, `decode_freq` either refuses the code as an invalid frequency,
-- or gives a value below the total and leaves the decoder waiting for `advance`.
pub decode_freq-cases :
    (d : RangeDecoder) (total : ℕ)
    → IsWaiting d
    → 0 < total
    → total < 2 ^ 31
    → (decode_freq d total ≡ err invalid_frequency)
      ⊎ ((value : ℕ) × (value < total) × (decode_freq d total ≡ ok (value, awaiting d total)))
unfolding decode_freq
decode_freq-cases d total w some_total few =
    let total_ok : (total == 0) || leb (2 ^ 31) total ≡ false = ground arith in
    let value = wrapping_sub d.code d.low / (d.range / total) in
    let pos : 1 ≤ d.range / total = (le-div_iff_mul-le some_total).1 (omega (arith, w.enough)) in
    let range_ok : (d.range / total == 0) ≡ false = ground arith in
    elim (Bool-cases (leb total value)) [
      | inl high ↦ inl (rw (w.idle, total_ok, range_ok, high))
      | inr low ↦ inr (value, ground arith, rw (w.idle, total_ok, range_ok, low))
    ]

below_next : (width n : ℕ) → 1 ≤ width → n < n / width * width + width
below_next width n pos = elim (le_or_lt (suc (n / width) * width) n) [
  | inl over ↦
      let more : suc (n / width) ≤ n / width = (le-div_iff_mul-le pos).1 over in
      absurd (omega arith)
  | inr under ↦ omega arith
]

-- On a decoder whose interval is at least 2^48 wide and that has no value pending, for a total of at
-- least 1 and less than 2^31 and a code that is a word, let the width be the range divided by the
-- total. The code lies at some distance behind `low`, modulo 2^64. `decode_freq` gives the number of
-- whole widths in that distance, which is below the total, and leaves the decoder waiting for
-- `advance`; if the distance is not below the total times the width, it refuses the code as an
-- invalid frequency.
pub decode_freq_place :
    (d : RangeDecoder) (total : ℕ)
    → IsWaiting d
    → 0 < total
    → total < 2 ^ 31
    → d.code < 2 ^ 64
    → let width = d.range / total in
      (distance : ℕ) × (distance < 2 ^ 64)
      × ((d.low + distance) % 2 ^ 64 ≡ d.code)
      × (((total * width ≤ distance) × (decode_freq d total ≡ err invalid_frequency))
          ⊎ ((value : ℕ) × (value < total)
              × (value * width ≤ distance)
              × (distance < value * width + width)
              × (decode_freq d total ≡ ok (value, awaiting d total))))
unfolding decode_freq
decode_freq_place d total w some_total few code_word =
    let width = d.range / total in
    let distance = wrapping_sub d.code d.low in
    let value = distance / width in
    let total_ok : (total == 0) || leb (2 ^ 31) total ≡ false = ground arith in
    let pos : 1 ≤ width = (le-div_iff_mul-le some_total).1 (omega (arith, w.enough)) in
    let range_ok : (width == 0) ≡ false = ground arith in
    let low_word = w.interval.word in
    (
      distance,
      omega arith,
      omega arith,
      elim (Bool-cases (leb total value)) [
        | inl high ↦
            let many : total ≤ value = ground arith in
            inl ((le-div_iff_mul-le pos).0 many, rw (w.idle, total_ok, range_ok, high))
        | inr low ↦ inr (
          value,
          ground arith,
          (le-div_iff_mul-le pos).0 (omega arith),
          below_next width distance pos,
          rw (w.idle, total_ok, range_ok, low),
        )
      ],
    )

-- On a decoder that waits for `advance` with the total, and on a symbol that `validate` accepts,
-- `advance` either meets the end of the input or leaves a decoder that is ready for the next
-- `decode_freq`: its loop ends within the fuel, and no other error is left.
pub advance-cases :
    (d : RangeDecoder) (cum freq total : ℕ)
    → IsWaiting d
    → IsSymbol cum freq total
    → (advance (awaiting d total) cum freq total ≡ err unexpected_eof)
      ⊎ ((d' : RangeDecoder) × (advance (awaiting d total) cum freq total ≡ ok d') × IsWaiting d')
advance-cases d cum freq total w s =
    let n = narrowed (mirror d []) cum freq total in
    let v : IsInterval n.low n.range =
      narrowed-IsInterval {e = mirror d []} (record { interval = w.interval; enough = w.enough })
        s in
    let (e', run, ready) = renorm-IsReady n v in
    let first = advance_lem d w.interval w.enough s in
    elim (renorm-Renormed renorm_fuel (chosen d cum freq total) [] e' v run) [
      | inl eof ↦ inl (first ∙ eof)
      | inr (d', ran, low, range, idle) ↦ inr (
        d',
        first ∙ ran,
        record {
          interval = rw (low, range) ready.interval;
          enough = rw range ready.enough;
          idle = idle;
        },
      )
    ]
