-- ===== src/Coder/Cdf/Logits/Agree.antt =====
-- The three functions that turn logits into counts agree.
use detllm.Base.{
  ℕ, suc, ◌+◌, ◌^◌, ◌≡◌, refl, ap, ◌∙◌, arith, true, false, none, some, List, [], ◌∷◌, ltb, leb,
  is_empty, is_empty_iff, length, map, take, get_elem?, lt_of_get_elem?, ok, saturating_add,
}
use detllm.Coder.Cdf.{Cdf, max_symbols}
use detllm.Coder.Cdf.Table.{sum, get_elem?-cumulate}
use detllm.Coder.Cdf.Valid.{IsValid}
use detllm.Coder.Cdf.Logits.{
  Floats, fill_exp_scratch, logits_to_cdf_with_scratch, tail_range, logits_to_symbol_range_impl,
  logits_to_symbol_range_with_scratch, logits_to_decoder_distribution_impl,
  logits_to_decoder_distribution_with_scratch,
}
use detllm.Coder.Cdf.Logits.Loops.{
  Counts-Positive, Counts-length, collect-Counts, find_range-found, Made, logits_to_cdf-Made,
}

length-map {ℓ κ} :
    {A : Type ℓ} {B : Type κ} (f : A → B) (xs : List A) → length (map f xs) ≡ length xs
length-map f [] = refl
length-map f (x ∷ xs) = ap suc (length-map f xs)

module _ (floats : Floats) where
  open floats use {F32, sum_f32_ref}

  pub fill_exp_scratch-length :
      (logits : List F32) (best : F32)
      → length (fill_exp_scratch floats logits best) ≡ length logits
  unfolding fill_exp_scratch
  fill_exp_scratch-length logits best = length-map _ logits

  Made-length :
      {logits : List F32} {c : Cdf} (m : Made floats logits c) → length c.freq ≡ length logits
  Made-length {logits} m =
      let exps = fill_exp_scratch floats logits m.best in
      rw m.pushed.pushed_freq (
        Counts-length floats exps (sum_f32_ref exps) m.pushed.freq m.pushed.counts
        ∙ fill_exp_scratch-length logits m.best)

  -- Whatever the operations on floating-point numbers do, a table that `logits_to_cdf_with_scratch`
  -- makes is well-formed.
  pub logits_to_cdf-IsValid :
      (logits : List F32) {c : Cdf} → logits_to_cdf_with_scratch floats logits ≡ ok c → IsValid c
  logits_to_cdf-IsValid logits {c} h =
      let m = logits_to_cdf-Made floats logits h in
      let exps = fill_exp_scratch floats logits m.best in
      let p = m.pushed in
      record {
        sums = rw (p.pushed_cum, p.pushed_freq) refl;
        whole = rw p.pushed_freq (omega (arith, p.pushed_total));
        positive =
            rw p.pushed_freq (Counts-Positive floats exps (sum_f32_ref exps) p.freq p.counts);
        some_symbol = omega (arith, Made-length m, m.some_logit);
        few = omega (arith, Made-length m, m.few);
        bounded = m.bounded;
      }

  decoder_distribution-logits_to_cdf :
      (logits : List F32) {c : Cdf}
      → logits_to_cdf_with_scratch floats logits ≡ ok c
      → logits_to_decoder_distribution_with_scratch floats logits
        ≡ ok (record { freq = c.freq; tail_symbols = 0; total = c.total })
  unfolding logits_to_decoder_distribution_with_scratch logits_to_decoder_distribution_impl
  decoder_distribution-logits_to_cdf logits {c} h =
      let m = logits_to_cdf-Made floats logits h in
      let exps = fill_exp_scratch floats logits m.best in
      let p = m.pushed in
      let collected =
        collect-Counts floats exps (sum_f32_ref exps) p.freq [] 0 p.counts
          (omega (arith, p.pushed_total, m.bounded)) in
      let full : is_empty logits ≡ false = ground (arith, is_empty_iff logits, m.some_logit) in
      let few : ltb max_symbols (saturating_add (length logits) 0) ≡ false =
        ground (arith, m.few) in
      let fits : ltb (0 + sum p.freq + 0) (2 ^ 64) ≡ true =
        ground (arith, p.pushed_total, m.bounded) in
      let whole : 0 + sum p.freq + 0 ≡ c.total = omega (arith, p.pushed_total) in
      let small : leb (2 ^ 31) c.total ≡ false = ground (arith, m.bounded) in
      rw (full, few, m.found, collected, fits, whole, small, p.pushed_freq)

  symbol_range-logits_to_cdf :
      (logits : List F32) (symbol : ℕ) {c : Cdf} {cum freq : ℕ}
      → logits_to_cdf_with_scratch floats logits ≡ ok c
      → get_elem? c.cum symbol ≡ some cum
      → get_elem? c.freq symbol ≡ some freq
      → logits_to_symbol_range_with_scratch floats logits symbol
        ≡ ok (record { cum = cum; freq = freq; total = c.total })
  unfolding logits_to_symbol_range_with_scratch logits_to_symbol_range_impl tail_range
  symbol_range-logits_to_cdf logits symbol {c} {cum} {freq} h at_cum at_freq =
      let m = logits_to_cdf-Made floats logits h in
      let exps = fill_exp_scratch floats logits m.best in
      let p = m.pushed in
      let entry : get_elem? p.freq symbol ≡ some freq =
        cc (at_freq, ap (λ (l : List ℕ). get_elem? l symbol) p.pushed_freq) in
      let place : 0 + symbol ≡ symbol = omega arith in
      let found_at =
        find_range-found floats exps (sum_f32_ref exps) p.freq 0 symbol none 0 p.counts
          (omega (arith, p.pushed_total, m.bounded)) entry in
      let found = rw place at found_at in
      let full : is_empty logits ≡ false = ground (arith, is_empty_iff logits, m.some_logit) in
      let few : ltb max_symbols (saturating_add (length logits) 0) ≡ false =
        ground (arith, m.few) in
      let fits : ltb (0 + sum p.freq + 0) (2 ^ 64) ≡ true =
        ground (arith, p.pushed_total, m.bounded) in
      let whole : 0 + sum p.freq + 0 ≡ c.total = omega (arith, p.pushed_total) in
      let small : leb (2 ^ 31) c.total ≡ false = ground (arith, m.bounded) in
      let inside : leb (saturating_add (length logits) 0) symbol ≡ false =
        ground (arith, Made-length m, m.few, lt_of_get_elem? c.freq symbol at_freq) in
      let in_table : leb (length logits) symbol ≡ false =
        ground (arith, Made-length m, lt_of_get_elem? c.freq symbol at_freq) in
      let start : some (0 + sum (take symbol p.freq)) ≡ some cum = cc (
        get_elem?-cumulate 0 p.freq symbol entry,
        ap (λ (l : List ℕ). get_elem? l symbol) p.pushed_cum,
        at_cum,
      ) in
      let begins : 0 + sum (take symbol p.freq) ≡ cum = cc in
      rw (full, few, inside, m.found, found, in_table, fits, whole, small, begins)

  -- Where `logits_to_cdf_with_scratch` makes a table, the other two functions succeed on the same
  -- logits: `logits_to_decoder_distribution_with_scratch` gives the counts and the total of the
  -- table, and `logits_to_symbol_range_with_scratch` gives, for each symbol of the table, what the
  -- table holds for it, with the total of the table.
  pub logits_to_cdf_agrees :
      (logits : List F32) (symbol : ℕ) {c : Cdf} {cum freq : ℕ}
      → logits_to_cdf_with_scratch floats logits ≡ ok c
      → get_elem? c.cum symbol ≡ some cum
      → get_elem? c.freq symbol ≡ some freq
      → (logits_to_decoder_distribution_with_scratch floats logits
          ≡ ok (record { freq = c.freq; tail_symbols = 0; total = c.total }))
        × (logits_to_symbol_range_with_scratch floats logits symbol
            ≡ ok (record { cum = cum; freq = freq; total = c.total }))
  logits_to_cdf_agrees logits symbol h at_cum at_freq = (
    decoder_distribution-logits_to_cdf logits h,
    symbol_range-logits_to_cdf logits symbol h at_cum at_freq,
  )
