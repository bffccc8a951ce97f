-- ===== src/Coder/Cdf/Logits/Codec.antt =====
-- The encoder's range of a symbol and the decoder's lookup, both from the same logits.
use detllm.Base.{
  ℕ, ◌+◌, ◌-◌, ◌^◌, ◌≤◌, ◌<◌, ◌≡◌, refl, sym, ap, ◌∙◌, arith, true, false, not, Option, none, some,
  List, ltb, leb, is_empty, is_empty_iff, length, take, get_elem?, get_elem?-lt, lt_of_get_elem?,
  ok, >>=-eq-ok, ok-injective, guard, saturating_add,
}
use native.Mathlib.Decide.{dec_lt}
use detllm.Coder.Cdf.{
  SymbolRange, DecoderDistribution, symbol_range, empty, too_many_symbols, symbol_out_of_range,
  max_symbols,
}
use detllm.Coder.Cdf.Table.{sum, Falls}
use detllm.Coder.Cdf.Distribution.{symbol_range-Falls, symbol_range-tail}
use detllm.Coder.Cdf.Logits.{
  Floats, fill_exp_scratch, find_range, tail_range, logits_to_symbol_range_impl,
  logits_to_decoder_distribution_impl,
}
use detllm.Coder.Cdf.Logits.Loops.{Counts-length, find_range-found}
use detllm.Coder.Cdf.Logits.Agree.{fill_exp_scratch-length}
use detllm.Coder.Cdf.Logits.Tail.{find_range-beyond, Collected, decoder_distribution-Collected}

module _ (floats : Floats) where
  open floats use {F32, neg_infinity, sum_f32_ref}

  -- The range that the encoder computes, where the decoder has a distribution.
  module _ (logits : List F32) (symbol tail : ℕ) {d : DecoderDistribution}
      (m : Collected floats logits tail d) (inside : symbol < length logits + tail) where
    freq-length : length d.freq ≡ length logits
    freq-length =
        let exps = fill_exp_scratch floats logits m.best in
        Counts-length floats exps (sum_f32_ref exps) d.freq m.counts
        ∙ fill_exp_scratch-length floats logits m.best

    computed :
        (range : Option (ℕ × ℕ)) (cum freq : ℕ)
        → find_range floats
            (fill_exp_scratch floats logits m.best)
            (sum_f32_ref (fill_exp_scratch floats logits m.best))
            0
            symbol
            none
            0
          ≡ ok (range, 0 + sum d.freq)
        → tail_range floats symbol (length logits) range (0 + sum d.freq) ≡ ok (some (cum, freq))
        → logits_to_symbol_range_impl floats logits symbol tail
          ≡ ok (record { cum = cum; freq = freq; total = d.total })
    unfolding logits_to_symbol_range_impl
    computed range cum freq searched tailed =
        let full : is_empty logits ≡ false = ground (arith, is_empty_iff logits, m.some_logit) in
        let few : ltb max_symbols (saturating_add (length logits) tail) ≡ false =
          ground (arith, m.few) in
        let in_range : leb (saturating_add (length logits) tail) symbol ≡ false =
          ground (arith, m.few) in
        let fits : ltb (0 + sum d.freq + tail) (2 ^ 64) ≡ true =
          ground (arith, m.whole, m.bounded) in
        let whole : 0 + sum d.freq + tail ≡ d.total = omega (arith, m.whole) in
        let small : leb (2 ^ 31) d.total ≡ false = ground (arith, m.bounded) in
        rw (full, few, in_range, m.found, searched, tailed, fits, whole, small)

    entry_range :
        {f : ℕ}
        → get_elem? d.freq symbol ≡ some f
        → logits_to_symbol_range_impl floats logits symbol tail
          ≡ ok (record { cum = 0 + sum (take symbol d.freq); freq = f; total = d.total })
    unfolding tail_range
    entry_range {f} at =
        let exps = fill_exp_scratch floats logits m.best in
        let place : 0 + symbol ≡ symbol = omega arith in
        let searched = rw place at (
          find_range-found floats exps (sum_f32_ref exps) d.freq 0 symbol none 0 m.counts
            (omega (arith, m.whole, m.bounded)) at) in
        let in_table : leb (length logits) symbol ≡ false =
          ground (arith, freq-length, lt_of_get_elem? d.freq symbol at) in
        computed (some (0 + sum (take symbol d.freq), f)) (0 + sum (take symbol d.freq)) f searched
          (rw in_table)

    behind_range :
        length logits ≤ symbol
        → logits_to_symbol_range_impl floats logits symbol tail
          ≡ ok (record {
            cum = 0 + sum d.freq + (symbol - length logits);
            freq = 1;
            total = d.total;
          })
    unfolding tail_range
    behind_range behind =
        let exps = fill_exp_scratch floats logits m.best in
        let searched =
          find_range-beyond floats exps (sum_f32_ref exps) d.freq 0 symbol none 0 m.counts
            (omega (arith, m.whole, m.bounded)) (omega (arith, freq-length)) in
        let in_tail : leb (length logits) symbol ≡ true = ground arith in
        let fits : ltb (0 + sum d.freq + (symbol - length logits)) (2 ^ 64) ≡ true =
          ground (arith, m.whole, m.bounded) in
        computed none (0 + sum d.freq + (symbol - length logits)) 1 searched (rw (in_tail, fits))

  symbol_inside :
      (logits : List F32) (symbol tail : ℕ) {r : SymbolRange}
      → length logits + tail ≤ max_symbols
      → logits_to_symbol_range_impl floats logits symbol tail ≡ ok r
      → symbol < length logits + tail
  unfolding logits_to_symbol_range_impl
  symbol_inside logits symbol tail few h =
      let (u₁, some_logit, h₁) = >>=-eq-ok (guard (not (is_empty logits)) empty) _ h in
      let (u₂, fits, h₂) =
        >>=-eq-ok
          (guard (not (ltb max_symbols (saturating_add (length logits) tail))) too_many_symbols) _
          h₁ in
      let (u₃, inside, h₃) =
        >>=-eq-ok
          (guard (not (leb (saturating_add (length logits) tail) symbol)) symbol_out_of_range) _
          h₂ in
      ground arith

  -- From the same logits and the same number of symbols in the tail, let the encoder compute the
  -- range of a symbol and the decoder a distribution. Then the decoder looks up each value of the
  -- range to that symbol with that range.
  pub symbol_range-decoder_distribution :
      (logits : List F32) (symbol tail value : ℕ) {d : DecoderDistribution} {r : SymbolRange}
      → logits_to_decoder_distribution_impl floats logits tail ≡ ok d
      → logits_to_symbol_range_impl floats logits symbol tail ≡ ok r
      → r.cum ≤ value
      → value < r.cum + r.freq
      → symbol_range d value ≡ some (symbol, r)
  symbol_range-decoder_distribution logits symbol tail value {d} {r} made ranged above below =
      let m = decoder_distribution-Collected floats logits tail made in
      let inside = symbol_inside logits symbol tail m.few ranged in
      let length-eq = freq-length logits symbol tail m inside in
      let whole : d.total ≡ sum d.freq + d.tail_symbols = omega (arith, m.whole, m.same_tail) in
      elim (dec_lt symbol (length d.freq)) [
        | yes in_table ↦
            let (f, at) = get_elem?-lt d.freq symbol in_table in
            let same : record { cum = 0 + sum (take symbol d.freq); freq = f; total = d.total }
                ≡ r =
              ok-injective (sym (entry_range logits symbol tail m inside at) ∙ ranged) in
            let falls : Falls 0 d.freq symbol (0 + sum (take symbol d.freq)) f value = record {
              entry = at;
              begins = refl;
              above = omega (arith, above, ap (λ (r : SymbolRange). r.cum) same);
              below = omega (
                arith,
                below,
                ap (λ (r : SymbolRange). r.cum) same,
                ap (λ (r : SymbolRange). r.freq) same,
              );
            } in
            symbol_range-Falls d symbol whole m.bounded falls
            ∙ ap (λ (r : SymbolRange). some (symbol, r)) same
        | no behind ↦
            let same : record {
              cum = 0 + sum d.freq + (symbol - length logits);
              freq = 1;
              total = d.total;
            }
                ≡ r =
              ok-injective
                (sym (behind_range logits symbol tail m inside (omega arith)) ∙ ranged) in
            let value-eq : value ≡ 0 + sum d.freq + (symbol - length logits) = omega (
              arith,
              above,
              below,
              ap (λ (r : SymbolRange). r.cum) same,
              ap (λ (r : SymbolRange). r.freq) same,
            ) in
            let place : length d.freq + (value - sum d.freq) ≡ symbol = omega arith in
            symbol_range-tail d value whole m.bounded (omega arith) (omega (arith, m.whole))
            ∙ rw (place, value-eq) (ap (λ (r : SymbolRange). some (symbol, r)) same)
      ]
