-- ===== src/Coder/Range/Follow.antt =====
-- The decoder that has read what the encoder wrote, and eight bytes more, keeps pace with it.
use detllm.Base.{
  IsByte, ℕ, zero, suc, ◌+◌, ◌*◌, ◌%◌, ◌^◌, ◌≤◌, ◌<◌, ◌≡◌, refl, sym, ◌∙◌, true, false, arith, none,
  some, List, [], ◌∷◌, ◌++◌, append_assoc, ok-injective, length, length-append, leb,
  lt_of_get_elem?, get_elem?, get_elem?-append, get_elem?-lt, ok, shl64, shr64, All, All-get_elem?,
  bit_or,
}
use detllm.Base.Bits.{bit_or-shifted}
use detllm.Coder.Range.{normalize_step}
use detllm.Coder.Range.Encoder.{RangeEncoder, shift_out}
use detllm.Coder.Range.Encoder
use detllm.Coder.Range.Decoder.{RangeDecoder, shift_in, read_byte}
use detllm.Coder.Range.Decoder
use detllm.Coder.Range.Interval.{
  IsInterval, settled, cut, wide, normalize_step-Normalized, settled-IsInterval, cut-IsInterval,
}
use detllm.Coder.Range.Renorm.{renorm_again, renorm_done}
use detllm.Coder.Range.Window.{big_endian, big_endian-suc, big_endian-lt, Covers, Covers-shift}

-- The decoder in the place of `e`, where `rest` is what follows the bytes that `e` wrote.
abbrev pub follow : RangeEncoder → List ℕ → RangeDecoder
follow e rest = record {
  low = e.low;
  code = big_endian 8 rest;
  range = e.range;
  pending = none;
  input = e.out ++ rest;
  pos = length e.out + 8;
}

pub shift_in_lem :
    (d : RangeDecoder) {b : ℕ}
    → get_elem? d.input d.pos ≡ some b
    → shift_in d ≡ ok (record d { code = bit_or (shl64 d.code 8) b; pos = d.pos + 1 })
unfolding shift_in
shift_in_lem d e =
    let inside : leb (length d.input) d.pos ≡ false =
      ground (arith, lt_of_get_elem? d.input d.pos e) in
    rw (inside, e)

-- The code moves on by a byte.
next_code :
    (x b : ℕ) (bytes : List ℕ)
    → All IsByte bytes
    → get_elem? bytes 7 ≡ some b
    → bit_or (shl64 (big_endian 8 (x ∷ bytes)) 8) b ≡ big_endian 8 bytes
unfolding big_endian
next_code x b bytes hb e =
    let small : big_endian 7 bytes < 2 ^ 56 = big_endian-lt 7 bytes hb in
    let shifted : shl64 (x * 2 ^ 56 + big_endian 7 bytes) 8 ≡ big_endian 7 bytes * 2 ^ 8 =
      omega arith in
    rw (shifted, bit_or-shifted 8 (big_endian 7 bytes) b (All-get_elem? IsByte bytes 7 hb e))
      (sym (big_endian-suc 7 bytes e))

-- One round of both loops.
again_follows :
    (fuel : ℕ) (e : RangeEncoder) (r : ℕ) (rest : List ℕ)
    → normalize_step e.low e.range ≡ (true, r)
    → All IsByte rest
    → 8 ≤ length rest
    → Decoder.renorm (suc fuel) (follow e (shr64 e.low 56 ∷ rest))
      ≡ Decoder.renorm fuel (follow (shift_out e r) rest)
unfolding Decoder.renorm shift_out
again_follows fuel e r rest h bytes long =
    let (b, last) = get_elem?-lt rest 7 long in
    let found : get_elem? (e.out ++ (shr64 e.low 56 ∷ rest)) (length e.out + 8) ≡ some b =
      get_elem?-append e.out (shr64 e.low 56 ∷ rest) 8 _ refl ∙ last in
    let later : length e.out + 8 + 1 ≡ length e.out + 1 + 8 = omega arith in
    rw (
      h,
      shift_in_lem (follow e (shr64 e.low 56 ∷ rest)) found,
      next_code (shr64 e.low 56) b rest bytes last,
      append_assoc,
      length-append,
      later,
    )

-- Where the encoder's loop goes from `e` to `e'`, and `rest'` is what follows then, the decoder's
-- loop goes along; `rest` is what follows `e`.
abbrev Followed : ℕ → RangeEncoder → RangeEncoder → List ℕ → Type 0
Followed fuel e e' rest' =
    (rest : List ℕ) × (e.out ++ rest ≡ e'.out ++ rest')
    × Covers e.low e.range rest
    × (Decoder.renorm fuel (follow e rest) ≡ ok (follow e' rest'))

Followed-again :
    (fuel : ℕ) (e e' : RangeEncoder) (rest' : List ℕ) {r : ℕ}
    → normalize_step e.low e.range ≡ (true, r)
    → e.low < 2 ^ 64
    → r ≤ e.range
    → r < 2 ^ 56
    → e.low % 2 ^ 56 + r ≤ 2 ^ 56
    → Followed fuel (shift_out e r) e' rest'
    → Followed (suc fuel) e e' rest'
Followed-again fuel e e' rest' {r} h word le small top (rest, same, covers, run) =
    let covers' : Covers (shl64 e.low 8) (shl64 r 8) rest = unfold shift_out in covers in
    (
      shr64 e.low 56 ∷ rest,
      sym (append_assoc e.out (shr64 e.low 56 ∷ []) rest) ∙ unfold shift_out in same,
      Covers-shift e.low r e.range rest word top small le covers',
      again_follows fuel e r rest h covers.bytes_only covers.long ∙ run,
    )

pub renorm_follows :
    (fuel : ℕ) (e e' : RangeEncoder) (rest' : List ℕ)
    → IsInterval e.low e.range
    → Encoder.renorm fuel e ≡ ok e'
    → Covers e'.low e'.range rest'
    → Followed fuel e e' rest'
renorm_follows zero e e' rest' v run covers = unfold Encoder.renorm in cc
renorm_follows (suc fuel) e e' rest' v run covers = elim (normalize_step-Normalized v) [
  | settled h near inside ↦
      Followed-again fuel e e' rest' h v.word (omega arith) (omega arith) (omega arith) (
        renorm_follows fuel (shift_out e e.range) e' rest'
          (unfold shift_out in settled-IsInterval e.low e.range v.some_left near)
          (rw (renorm_again fuel e h) at run) covers)
  | cut r h near pos le narrow ↦
      Followed-again fuel e e' rest' h v.word le (omega arith) (omega arith) (
        renorm_follows fuel (shift_out e r) e' rest'
          (unfold shift_out in cut-IsInterval e.low r near pos (omega arith))
          (rw (renorm_again fuel e h) at run) covers)
  | wide h w ↦
      let same : e ≡ e' = ok-injective (sym (renorm_done fuel e h) ∙ run) in
      rw (← same) (rest', refl, rw same covers, unfold Decoder.renorm in rw h)
]
