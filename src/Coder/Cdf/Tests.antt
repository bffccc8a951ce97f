-- ===== src/Coder/Cdf/Tests.antt =====
-- Tables from logits at concrete inputs.
use detllm.Base.{
  some, arith, ℕ, ◌+◌, ◌*◌, ◌≡◌, refl, true, ltb, if◌then◌else◌, List, [], ◌∷◌, length, ok,
}
use detllm.Coder.Cdf.{Cdf, SymbolRange, DecoderDistribution, append_uniform_tail, symbol_range}
use detllm.Coder.Cdf.Table.{sum}
use detllm.Coder.Cdf.Valid.{IsValid}
use detllm.Coder.Cdf.Uniform.{append_uniform_tail-IsValid}
use detllm.Coder.Cdf.Logits.{
  logits_to_decoder_distribution_impl, logits_to_decoder_distribution_with_scratch,
  logits_to_symbol_range_with_scratch, logits_to_symbol_range_impl, Floats,
  logits_to_cdf_with_scratch, logits_to_symbol_range_with_scratch,
  logits_to_decoder_distribution_with_scratch,
}
use detllm.Coder.Cdf.Logits.Codec.{symbol_range-decoder_distribution}
use detllm.Coder.Cdf.Logits.Agree.{logits_to_cdf-IsValid, logits_to_cdf_agrees}

-- Whole numbers in place of floating-point numbers.
abbrev whole_numbers : Floats
whole_numbers = record {
  F32 = ℕ;
  neg_infinity = 0;
  clamp = 0;
  is_finite = λ x. true;
  greater = λ x y. ltb y x;
  sub = λ x y. x;
  max = λ x y. if ltb x y then y else x;
  exp_f32 = λ x. x;
  sum_f32_ref = sum;
  div = λ x y. x;
  scale = λ x. x;
  to_u32 = λ x. x;
}

abbrev logits : List ℕ
logits = 2 ∷ 1 ∷ 6 ∷ 0 ∷ []

abbrev table : Cdf
table = record { freq = 3 ∷ 2 ∷ 7 ∷ 1 ∷ []; cum = 0 ∷ 3 ∷ 5 ∷ 12 ∷ []; total = 13 }

table_is_made : logits_to_cdf_with_scratch whole_numbers logits ≡ ok table
unfolding logits_to_cdf_with_scratch detllm.Coder.Cdf.Logits.greatest
    detllm.Coder.Cdf.Logits.fill_exp_scratch detllm.Coder.Cdf.Logits.push_counts
    detllm.Coder.Cdf.Logits.count
table_is_made = refl

logits_to_cdf-IsValid_example : IsValid table
logits_to_cdf-IsValid_example = logits_to_cdf-IsValid whole_numbers logits {c = table} table_is_made

logits_to_cdf_agrees_example :
    (logits_to_decoder_distribution_with_scratch whole_numbers logits
      ≡ ok (record { freq = table.freq; tail_symbols = 0; total = 13 }))
    × (logits_to_symbol_range_with_scratch whole_numbers logits 2
        ≡ ok (record { cum = 5; freq = 7; total = 13 }))
logits_to_cdf_agrees_example =
    logits_to_cdf_agrees whole_numbers logits 2 {c = table} {cum = 5} {freq = 7} table_is_made refl
      refl

abbrev longer : Cdf
longer = record {
  freq = 3 ∷ 2 ∷ 7 ∷ 1 ∷ 1 ∷ 1 ∷ [];
  cum = 0 ∷ 3 ∷ 5 ∷ 12 ∷ 13 ∷ 14 ∷ [];
  total = 15;
}

tail_is_appended : append_uniform_tail table 2 1 ≡ ok longer
unfolding append_uniform_tail detllm.Coder.Cdf.push_uniform
tail_is_appended = refl

append_uniform_tail-IsValid_example :
    IsValid longer
    × (length longer.freq ≡ length table.freq + 2)
    × (longer.total ≡ table.total + 2 * 1)
append_uniform_tail-IsValid_example =
    append_uniform_tail-IsValid table 2 1 {c' = longer} logits_to_cdf-IsValid_example
      tail_is_appended

-- The distribution and the range of a symbol of the tail, with two symbols in the tail.
abbrev distribution : DecoderDistribution
distribution = record { freq = 3 ∷ 2 ∷ 7 ∷ 1 ∷ []; tail_symbols = 2; total = 15 }

distribution_is_made : logits_to_decoder_distribution_impl whole_numbers logits 2 ≡ ok distribution
unfolding logits_to_decoder_distribution_impl detllm.Coder.Cdf.Logits.greatest
    detllm.Coder.Cdf.Logits.fill_exp_scratch detllm.Coder.Cdf.Logits.collect
    detllm.Coder.Cdf.Logits.count
distribution_is_made = refl

abbrev tail_range_5 : SymbolRange
tail_range_5 = record { cum = 14; freq = 1; total = 15 }

tail_range_is_made : logits_to_symbol_range_impl whole_numbers logits 5 2 ≡ ok tail_range_5
unfolding logits_to_symbol_range_impl detllm.Coder.Cdf.Logits.greatest
    detllm.Coder.Cdf.Logits.fill_exp_scratch detllm.Coder.Cdf.Logits.find_range
    detllm.Coder.Cdf.Logits.tail_range detllm.Coder.Cdf.Logits.count
tail_range_is_made = refl

symbol_range-decoder_distribution_example : symbol_range distribution 14 ≡ some (5, tail_range_5)
symbol_range-decoder_distribution_example =
    symbol_range-decoder_distribution whole_numbers logits 5 2 14 {d = distribution}
      {r = tail_range_5} distribution_is_made tail_range_is_made (omega arith) (omega arith)
