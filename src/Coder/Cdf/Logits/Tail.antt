-- ===== src/Coder/Cdf/Logits/Tail.antt =====
-- The loop of the decoder's distribution, and the encoder's loop on a symbol behind the counts.
use detllm.Base.{
  ℕ, ◌+◌, ◌^◌, ◌≤◌, ◌<◌, ◌≡◌, refl, sym, ap, ◌∙◌, arith, true, false, not, Option, List, [], ◌∷◌,
  ◌++◌, append-nil, append_assoc, ltb, leb, ◌==◌, is_empty, is_empty_iff, length, ok, >>=-eq-ok,
  ok-injective, guard, ok_or, checked_add, saturating_add,
}
use detllm.Coder.Cdf.{DecoderDistribution, empty, too_many_symbols, total_too_large, max_symbols}
use detllm.Coder.Cdf.Table.{sum}
use detllm.Coder.Cdf.Logits.{
  Floats, greatest, fill_exp_scratch, count, find_range, collect,
  logits_to_decoder_distribution_impl,
}
use detllm.Coder.Cdf.Logits.Loops.{Counts}

module _ (floats : Floats) where
  open floats use {F32, neg_infinity, sum_f32_ref}

  pub collect-ok :
      (exps : List F32) (z : F32) (before : List ℕ) (total : ℕ) {freq : List ℕ} {end : ℕ}
      → collect floats exps z before total ≡ ok (freq, end)
      → (counts : List ℕ) × Counts floats exps z counts
        × (freq ≡ before ++ counts)
        × (end ≡ total + sum counts)
  unfolding collect
  collect-ok [] z before total {freq} {end} h =
      let same = ok-injective h in
      (
        [],
        tt,
        sym (append-nil before ∙ ap (λ (p : List ℕ × ℕ). p.0) same),
        omega (arith, ap (λ (p : List ℕ × ℕ). p.1) same),
      )
  collect-ok (e ∷ exps) z before total {freq} {end} h =
      let (f, counted, h₁) = >>=-eq-ok (count floats e z) _ h in
      let (next, added, h₂) = >>=-eq-ok (ok_or (checked_add total f) total_too_large) _ h₁ in
      let sums : next ≡ total + f = ground arith in
      let (counts, all, appended, whole) = collect-ok exps z (before ++ (f ∷ [])) next h₂ in
      (f ∷ counts, (counted, all), appended ∙ append_assoc before (f ∷ []) counts, omega arith)

  -- The loop over the counts passes a symbol of the tail.
  pub find_range-beyond :
      (exps : List F32) (z : F32) (freq : List ℕ) (idx symbol : ℕ) (range : Option (ℕ × ℕ))
      (total : ℕ)
      → Counts floats exps z freq
      → total + sum freq < 2 ^ 64
      → idx + length freq ≤ symbol
      → find_range floats exps z idx symbol range total ≡ ok (range, total + sum freq)
  unfolding find_range
  find_range-beyond [] z [] idx symbol range total h lt beyond =
      let same : total + 0 ≡ total = omega arith in rw same
  find_range-beyond [] z (f ∷ freq) idx symbol range total h lt beyond = absurd h
  find_range-beyond (e ∷ exps) z [] idx symbol range total h lt beyond = absurd h
  find_range-beyond (e ∷ exps) z (f ∷ freq) idx symbol range total h lt beyond =
      let fits : ltb (total + f) (2 ^ 64) ≡ true = ground arith in
      let sums : total + f + sum freq ≡ total + (f + sum freq) = omega arith in
      let other : (idx == symbol) ≡ false = ground arith in
      let rest =
        find_range-beyond exps z freq (idx + 1) symbol range (total + f) h.1 (omega arith)
          (omega arith) in
      rw (h.0, fits, other, rest, sums)

  -- What `logits_to_decoder_distribution_impl` goes through where it succeeds.
  pub record Collected (logits : List F32) (tail : ℕ) (d : DecoderDistribution) : Type 0 where
    pub some_logit : 0 < length logits
    pub few : length logits + tail ≤ max_symbols
    pub best : F32
    pub found : greatest floats logits neg_infinity ≡ ok best
    pub counts :
        Counts floats
          (fill_exp_scratch floats logits best)
          (sum_f32_ref (fill_exp_scratch floats logits best))
          d.freq
    pub same_tail : d.tail_symbols ≡ tail
    pub whole : d.total ≡ sum d.freq + tail
    pub bounded : d.total < 2 ^ 31

  pub decoder_distribution-Collected :
      (logits : List F32) (tail : ℕ) {d : DecoderDistribution}
      → logits_to_decoder_distribution_impl floats logits tail ≡ ok d
      → Collected logits tail d
  unfolding logits_to_decoder_distribution_impl
  decoder_distribution-Collected logits tail {d} h =
      let (u₁, some_logit, h₁) = >>=-eq-ok (guard (not (is_empty logits)) empty) _ h in
      let (u₂, few, h₂) =
        >>=-eq-ok
          (guard (not (ltb max_symbols (saturating_add (length logits) tail))) too_many_symbols) _
          h₁ in
      let (best, found, h₃) = >>=-eq-ok (greatest floats logits neg_infinity) _ h₂ in
      let exps = fill_exp_scratch floats logits best in
      let ((freq, end), collected, h₄) =
        >>=-eq-ok (collect floats exps (sum_f32_ref exps) [] 0) _ h₃ in
      let (total, added, h₅) = >>=-eq-ok (ok_or (checked_add end tail) total_too_large) _ h₄ in
      let (u₃, bounded, h₆) = >>=-eq-ok (guard (not (leb (2 ^ 31) total)) total_too_large) _ h₅ in
      let (counts, all, appended, sums) = collect-ok exps (sum_f32_ref exps) [] 0 collected in
      let sum-eq : total ≡ end + tail = ground arith in
      let same : record { freq = freq; tail_symbols = tail; total = total } ≡ d = ok-injective h₆ in
      rw (← same) (record {
        some_logit = ground (arith, is_empty_iff logits);
        few = ground arith;
        best = best;
        found = found;
        counts = rw appended all;
        same_tail = refl;
        whole = rw appended (omega arith);
        bounded = ground arith;
      })
