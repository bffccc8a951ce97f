-- ===== src/Coder/Cdf/Logits.antt =====
-- crates/det-coder/src/cdf.rs: tables from logits. The operations on `f32` are parameters, those of
-- crates/det-num among them; the buffers of `CdfScratch` are results.
pub mod Loops
pub mod Agree
pub mod Tail
pub mod Codec
use detllm.Base.{
  ℕ, zero, suc, ◌+◌, ◌-◌, ◌^◌, Bool, true, false, not, Option, none, some, List, [], ◌∷◌, ◌++◌, ltb,
  leb, ◌==◌, if◌then◌else◌, is_empty, length, map, Outcome, ok, err, panic, ◌>>=◌, ◌>>◌, guard,
  ok_or, checked_add, saturating_add, add64,
}
use detllm.Coder.Cdf.{
  Cdf, CdfError, SymbolRange, DecoderDistribution, empty, non_finite_logit, symbol_out_of_range,
  too_many_symbols, total_too_large, max_symbols, byte_escape_symbols, append_uniform_tail,
}

-- What the code uses of `f32`: `scale` is `p * M`, `to_u32` the cast `as u32`.
pub record Floats : Type 1 where
  pub F32 : Type 0
  pub neg_infinity : F32
  pub clamp : F32
  pub is_finite : F32 → Bool
  pub greater : F32 → F32 → Bool
  pub sub : F32 → F32 → F32
  pub max : F32 → F32 → F32
  pub exp_f32 : F32 → F32
  pub sum_f32_ref : List F32 → F32
  pub div : F32 → F32 → F32
  pub scale : F32 → F32
  pub to_u32 : F32 → ℕ

-- `a + 1` on `u32`.
abbrev pub add32 : ℕ → ℕ → Outcome CdfError ℕ
add32 a b = if ltb (a + b) (2 ^ 32) then ok (a + b) else panic

module _ (floats : Floats) where
  open floats use {
    F32, neg_infinity, clamp, is_finite, greater, sub, max, exp_f32, sum_f32_ref, div, scale,
    to_u32,
  }

  -- The loop over the logits that finds the greatest.
  unfoldable pub greatest : List F32 → F32 → Outcome CdfError F32
  greatest [] best = ok best
  greatest (x ∷ logits) best = do
    guard (is_finite x) non_finite_logit
    greatest logits (if greater x best then x else best)

  unfoldable pub fill_exp_scratch : List F32 → F32 → List F32
  fill_exp_scratch logits best = map (λ x. exp_f32 (max (sub x best) clamp)) logits

  -- The count of a symbol.
  unfoldable pub count : F32 → F32 → Outcome CdfError ℕ
  count e z = add32 (to_u32 (scale (div e z))) 1

  -- The loop of `logits_to_cdf_with_scratch`; `total` holds the sum so far.
  unfoldable pub push_counts : List F32 → F32 → Cdf → Outcome CdfError Cdf
  push_counts [] z c = ok c
  push_counts (e ∷ exps) z c = do
    f ← count e z
    total ← add64 c.total f
    push_counts exps z
        (record { freq = c.freq ++ (f ∷ []); cum = c.cum ++ (c.total ∷ []); total = total })

  unfoldable pub logits_to_cdf_with_scratch : List F32 → Outcome CdfError Cdf
  unfolding greatest fill_exp_scratch push_counts
  logits_to_cdf_with_scratch logits = do
    guard (not (is_empty logits)) empty
    guard (not (ltb max_symbols (length logits))) too_many_symbols
    best ← greatest logits neg_infinity
    let exps = fill_exp_scratch logits best
    c ← push_counts exps (sum_f32_ref exps) (record { freq = []; cum = []; total = 0 })
    guard (not (leb (2 ^ 31) c.total)) total_too_large
    ok c

  unfoldable pub logits_to_cdf_with_byte_escapes : List F32 → Outcome CdfError Cdf
  logits_to_cdf_with_byte_escapes logits = do
    guard (not (ltb max_symbols (saturating_add (length logits) byte_escape_symbols)))
        too_many_symbols
    c ← logits_to_cdf_with_scratch logits
    append_uniform_tail c byte_escape_symbols 1

  -- The loop of `logits_to_symbol_range_impl`, with the place in the list, the range and the total
  -- so far; the total of the range is filled in behind the loop.
  unfoldable pub find_range :
      List F32 → F32 → ℕ → ℕ → Option (ℕ × ℕ) → ℕ → Outcome CdfError (Option (ℕ × ℕ) × ℕ)
  find_range [] z idx symbol range total = ok (range, total)
  find_range (e ∷ exps) z idx symbol range total = do
    f ← count e z
    let range' = if idx == symbol then some (total, f) else range
    total' ← add64 total f
    find_range exps z (idx + 1) symbol range' total'

  -- The range of a symbol of the tail replaces the one of the loop.
  unfoldable pub tail_range : ℕ → ℕ → Option (ℕ × ℕ) → ℕ → Outcome CdfError (Option (ℕ × ℕ))
  tail_range symbol n range total =
      if leb n symbol then (do cum ← add64 total (symbol - n); ok (some (cum, 1))) else ok range

  unfoldable pub logits_to_symbol_range_impl : List F32 → ℕ → ℕ → Outcome CdfError SymbolRange
  unfolding find_range tail_range
  logits_to_symbol_range_impl logits symbol tail_symbols = do
    guard (not (is_empty logits)) empty
    guard (not (ltb max_symbols (saturating_add (length logits) tail_symbols))) too_many_symbols
    guard (not (leb (saturating_add (length logits) tail_symbols) symbol)) symbol_out_of_range
    best ← greatest logits neg_infinity
    let exps = fill_exp_scratch logits best
    (found, sum) ← find_range exps (sum_f32_ref exps) 0 symbol none 0
    range ← tail_range symbol (length logits) found sum
    total ← ok_or (checked_add sum tail_symbols) total_too_large
    guard (not (leb (2 ^ 31) total)) total_too_large
    (cum, freq) ← ok_or range symbol_out_of_range
    ok (record { cum = cum; freq = freq; total = total })

  -- The loop of `logits_to_decoder_distribution_impl`.
  unfoldable pub collect : List F32 → F32 → List ℕ → ℕ → Outcome CdfError (List ℕ × ℕ)
  collect [] z freq total = ok (freq, total)
  collect (e ∷ exps) z freq total = do
    f ← count e z
    total' ← ok_or (checked_add total f) total_too_large
    collect exps z (freq ++ (f ∷ [])) total'

  unfoldable pub logits_to_decoder_distribution_impl :
      List F32 → ℕ → Outcome CdfError DecoderDistribution
  unfolding collect
  logits_to_decoder_distribution_impl logits tail_symbols = do
    guard (not (is_empty logits)) empty
    guard (not (ltb max_symbols (saturating_add (length logits) tail_symbols))) too_many_symbols
    best ← greatest logits neg_infinity
    let exps = fill_exp_scratch logits best
    (freq, sum) ← collect exps (sum_f32_ref exps) [] 0
    total ← ok_or (checked_add sum tail_symbols) total_too_large
    guard (not (leb (2 ^ 31) total)) total_too_large
    ok (record { freq = freq; tail_symbols = tail_symbols; total = total })

  unfoldable pub logits_to_symbol_range_with_scratch : List F32 → ℕ → Outcome CdfError SymbolRange
  logits_to_symbol_range_with_scratch logits symbol = logits_to_symbol_range_impl logits symbol 0

  unfoldable pub logits_to_symbol_range_with_byte_escapes :
      List F32 → ℕ → Outcome CdfError SymbolRange
  logits_to_symbol_range_with_byte_escapes logits symbol =
      logits_to_symbol_range_impl logits symbol byte_escape_symbols

  unfoldable pub logits_to_decoder_distribution_with_scratch :
      List F32 → Outcome CdfError DecoderDistribution
  logits_to_decoder_distribution_with_scratch logits = logits_to_decoder_distribution_impl logits 0

  unfoldable pub logits_to_decoder_distribution_with_byte_escapes :
      List F32 → Outcome CdfError DecoderDistribution
  logits_to_decoder_distribution_with_byte_escapes logits =
      logits_to_decoder_distribution_impl logits byte_escape_symbols
