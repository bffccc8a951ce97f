-- ===== src/Codec/Symbols/Agree.antt =====
-- The encoder's range of a symbol is what the decoder finds in the same state.
use detllm.Base.{
  ℕ, zero, suc, ◌+◌, ◌≤◌, ◌<◌, ◌≡◌, ◌∙◌, refl, sym, ap, ap₂, subst, ◌^◌, arith, true, not,
  Bool-cases, inl, inr, Option, none, some, List, [], ◌∷◌, ◌++◌, append-nil, append_assoc, All,
  replicate, length, get_elem?, ltb, leb, ◌==◌, if◌then◌else◌, is_empty, ok, >>=-eq-ok, guard-eq-ok,
  ok_or, ok-injective, saturating_add, checked_add, add64,
}
use detllm.Coder.Cdf.{
  Cdf, CdfError, SymbolRange, DecoderDistribution, count_up, uniform_cdf, total_too_large,
  symbol_out_of_range, max_symbols,
}
use detllm.Coder.Cdf.Table.{sum, Positive, cumulate}
use detllm.Coder.Cdf.Valid.{IsValid}
use detllm.Coder.Cdf.Logits.{
  Floats, greatest, fill_exp_scratch, count, find_range, collect, tail_range,
  logits_to_symbol_range_impl, logits_to_decoder_distribution_impl,
}

-- The loop of `uniform_cdf` makes the counts 1 and their sums.
count_up_lem :
    (n i : ℕ) (freq cum : List ℕ)
    → count_up n i freq cum ≡ (freq ++ replicate n 1, cum ++ cumulate i (replicate n 1))
unfolding count_up cumulate
count_up_lem zero i freq cum = rw (append-nil freq, append-nil cum) refl
count_up_lem (suc n) i freq cum =
    count_up_lem n (i + 1) (freq ++ 1 ∷ []) (cum ++ i ∷ [])
    ∙ ap₂ (λ a b. (a, b)) (append_assoc freq (1 ∷ []) (replicate n 1))
        (append_assoc cum (i ∷ []) (cumulate (i + 1) (replicate n 1)))

sum-replicate : (n : ℕ) → sum (replicate n 1) ≡ n
sum-replicate zero = refl
sum-replicate (suc n) = omega (arith, sum-replicate n)

length-replicate : (n : ℕ) → length (replicate {A = ℕ} n 1) ≡ n
length-replicate zero = refl
length-replicate (suc n) = ap suc (length-replicate n)

replicate-Positive : (n : ℕ) → All Positive (replicate n 1)
replicate-Positive zero = tt
replicate-Positive (suc n) = (omega arith, replicate-Positive n)

get_elem?-ones :
    (n i k : ℕ)
    → k < n
    → (get_elem? (replicate {A = ℕ} n 1) k ≡ some 1)
      × (get_elem? (cumulate i (replicate n 1)) k ≡ some (i + k))
unfolding cumulate
get_elem?-ones zero i k lt = absurd (omega arith)
get_elem?-ones (suc n) i zero lt = (refl, ap some (omega arith))
get_elem?-ones (suc n) i (suc k) lt =
    let (freq, cum) = get_elem?-ones n (i + 1) k (omega arith) in
    (freq, cum ∙ ap some (omega arith))

-- What `uniform_cdf` makes.
pub record Even (n : ℕ) (c : Cdf) : Type 0 where
  pub valid : IsValid c
  pub whole : c.total ≡ n
  pub long : length c.freq ≡ n
  pub at_cum : (k : ℕ) → k < n → get_elem? c.cum k ≡ some k
  pub at_freq : (k : ℕ) → k < n → get_elem? c.freq k ≡ some 1

ones : ℕ → Cdf
ones n = record { freq = replicate n 1; cum = cumulate 0 (replicate n 1); total = n }

ones-Even : (n : ℕ) → 0 < n → n ≤ max_symbols → Even n (ones n)
unfolding ones
ones-Even n pos few = record {
  valid = record {
    sums = refl;
    whole = sym (sum-replicate n);
    positive = replicate-Positive n;
    some_symbol = omega (arith, length-replicate n);
    few = omega (arith, length-replicate n);
    bounded = omega arith;
  };
  whole = refl;
  long = length-replicate n;
  at_cum = λ k lt. (get_elem?-ones n 0 k lt).1 ∙ ap some (omega arith);
  at_freq = λ k lt. (get_elem?-ones n 0 k lt).0;
}

pub uniform_cdf-Even : (n : ℕ) {c : Cdf} → uniform_cdf n ≡ ok c → Even n c
unfolding uniform_cdf ones
uniform_cdf-Even n {c} h =
    let (pos, h₁) = guard-eq-ok (not (n == 0)) _ _ h in
    let (few, h₂) = guard-eq-ok (not (ltb max_symbols n)) _ _ h₁ in
    let (small, h₃) = guard-eq-ok (not (leb (2 ^ 31) n)) _ _ h₂ in
    let made : ones n ≡ c =
      ap (λ (p : List ℕ × List ℕ). record { freq = p.0; cum = p.1; total = n })
        (sym (count_up_lem n 0 [] []))
      ∙ ok-injective h₃ in
    subst (Even n) made (ones-Even n (ground arith) (ground arith))

-- A sum that fits the words.
checked :
    (a b : ℕ) {c : ℕ}
    → add64 {E = CdfError} a b ≡ ok c
    → ok_or (checked_add a b) total_too_large ≡ ok c
checked a b {c} h = elim (Bool-cases (ltb (a + b) (2 ^ 64))) [
  | inl fits ↦ rw fits (ap ok (ok-injective (rw fits at h)))
  | inr over ↦ absurd (cc (rw over at h))
]

module _ (floats : Floats) where
  open floats use {F32, neg_infinity, sum_f32_ref}

  -- Where the encoder's loop adds the counts up, the decoder's does.
  collect-find_range :
      (exps : List F32) (z : F32) (idx symbol : ℕ) (found : Option (ℕ × ℕ)) (freq : List ℕ)
      (total : ℕ) {found' : Option (ℕ × ℕ)} {total' : ℕ}
      → find_range floats exps z idx symbol found total ≡ ok (found', total')
      → (freq' : List ℕ) × (collect floats exps z freq total ≡ ok (freq', total'))
  unfolding find_range collect
  collect-find_range [] z idx symbol found freq total h = (
    freq,
    ap ok (ap₂ (λ a b. (a, b)) refl (ap (λ (p : Option (ℕ × ℕ) × ℕ). p.1) (ok-injective h))),
  )
  collect-find_range (e ∷ exps) z idx symbol found freq total h =
      let (f, counted, h₁) = >>=-eq-ok (count floats e z) _ h in
      let (sum, added, h₂) = >>=-eq-ok (add64 total f) _ h₁ in
      let (freq', run) =
        collect-find_range exps z (idx + 1) symbol
          (if idx == symbol then some (total, f) else found) (freq ++ f ∷ []) sum h₂ in
      (freq', rw (counted, checked total f added) run)

  distribution_run :
      (logits : List F32) (tail : ℕ) (best : F32) (freq : List ℕ) (sum total : ℕ)
      → not (is_empty logits) ≡ true
      → not (ltb max_symbols (saturating_add (length logits) tail)) ≡ true
      → greatest floats logits neg_infinity ≡ ok best
      → collect floats
          (fill_exp_scratch floats logits best)
          (sum_f32_ref (fill_exp_scratch floats logits best))
          []
          0
        ≡ ok (freq, sum)
      → ok_or (checked_add sum tail) total_too_large ≡ ok total
      → not (leb (2 ^ 31) total) ≡ true
      → logits_to_decoder_distribution_impl floats logits tail
        ≡ ok (record { freq = freq; tail_symbols = tail; total = total })
  unfolding logits_to_decoder_distribution_impl
  distribution_run logits tail best freq sum total h₁ h₂ h₃ h₄ h₅ h₆ =
      rw (h₁, h₂, h₃, h₄, h₅, h₆) refl

  -- Where the encoder has a range, the decoder has a distribution of the same total.
  pub decoder_distribution-symbol_range :
      (logits : List F32) (symbol tail : ℕ) {r : SymbolRange}
      → logits_to_symbol_range_impl floats logits symbol tail ≡ ok r
      → (d : DecoderDistribution) × (logits_to_decoder_distribution_impl floats logits tail ≡ ok d)
        × (d.total ≡ r.total)
  unfolding logits_to_symbol_range_impl
  decoder_distribution-symbol_range logits symbol tail {r} h =
      let (full, h₁) = guard-eq-ok (not (is_empty logits)) _ _ h in
      let (few, h₂) =
        guard-eq-ok (not (ltb max_symbols (saturating_add (length logits) tail))) _ _ h₁ in
      let (inside, h₃) =
        guard-eq-ok (not (leb (saturating_add (length logits) tail) symbol)) _ _ h₂ in
      let (best, greatest_is, h₄) = >>=-eq-ok (greatest floats logits neg_infinity) _ h₃ in
      let exps = fill_exp_scratch floats logits best in
      let ((found, sum), searched, h₅) =
        >>=-eq-ok (find_range floats exps (sum_f32_ref exps) 0 symbol none 0) _ h₄ in
      let (range, tailed, h₆) =
        >>=-eq-ok (tail_range floats symbol (length logits) found sum) _ h₅ in
      let (total, fits, h₇) = >>=-eq-ok (ok_or (checked_add sum tail) total_too_large) _ h₆ in
      let (small, h₈) = guard-eq-ok (not (leb (2 ^ 31) total)) _ _ h₇ in
      let ((cum, freq), there, h₉) = >>=-eq-ok (ok_or range symbol_out_of_range) _ h₈ in
      let (freq', run) = collect-find_range exps (sum_f32_ref exps) 0 symbol none [] 0 searched in
      (
        record { freq = freq'; tail_symbols = tail; total = total },
        distribution_run logits tail best freq' sum total full few greatest_is run fits small,
        ap (λ (r : SymbolRange). r.total) (ok-injective h₉),
      )
