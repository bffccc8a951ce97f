-- ===== src/Coder/Cdf/Logits/Loops.antt =====
-- The loops over the exponentials: each comes to the same counts.
use detllm.Base.{
  ℕ, zero, suc, ◌+◌, ◌^◌, ◌≤◌, ◌<◌, ◌≡◌, refl, sym, ap, ◌∙◌, arith, true, false, not, Option, some,
  List, [], ◌∷◌, ◌++◌, append-nil, append_assoc, ltb, leb, ◌==◌, is_empty, is_empty_iff, length,
  take, get_elem?, All, ok, >>=-eq-ok, ok-injective, guard, add64,
}
use detllm.Coder.Cdf.{Cdf, empty, too_many_symbols, total_too_large, max_symbols}
use detllm.Coder.Cdf.Table.{sum, Positive, cumulate}
use detllm.Coder.Cdf.Logits.{
  Floats, greatest, fill_exp_scratch, count, push_counts, logits_to_cdf_with_scratch, find_range,
  collect,
}

module _ (floats : Floats) where
  open floats use {F32, neg_infinity, sum_f32_ref}

  -- The counts that `count` gives for the exponentials.
  abbrev pub Counts : List F32 → F32 → List ℕ → Type 0
  Counts [] z [] = Unit
  Counts [] z (f ∷ freq) = ⊥
  Counts (e ∷ exps) z [] = ⊥
  Counts (e ∷ exps) z (f ∷ freq) = (count floats e z ≡ ok f) × Counts exps z freq

  count-pos : (e z : F32) {f : ℕ} → count floats e z ≡ ok f → 0 < f
  unfolding count
  count-pos e z h = ground arith

  pub record Pushed (exps : List F32) (z : F32) (c c' : Cdf) : Type 0 where
    pub freq : List ℕ
    pub counts : Counts exps z freq
    pub pushed_freq : c'.freq ≡ c.freq ++ freq
    pub pushed_cum : c'.cum ≡ c.cum ++ cumulate c.total freq
    pub pushed_total : c'.total ≡ c.total + sum freq

  push_counts-Pushed :
      (exps : List F32) (z : F32) (c : Cdf) {c' : Cdf}
      → push_counts floats exps z c ≡ ok c'
      → Pushed exps z c c'
  unfolding push_counts cumulate
  push_counts-Pushed [] z c h =
      let same = ok-injective h in
      rw (← same) (record {
        freq = [];
        counts = tt;
        pushed_freq = sym (append-nil c.freq);
        pushed_cum = sym (append-nil c.cum);
        pushed_total = omega arith;
      })
  push_counts-Pushed (e ∷ exps) z c h =
      let (f, counted, h₁) = >>=-eq-ok (count floats e z) _ h in
      let (total, added, h₂) = >>=-eq-ok (add64 c.total f) _ h₁ in
      let sums : total ≡ c.total + f = ground arith in
      let p =
        push_counts-Pushed exps z
          (record { freq = c.freq ++ (f ∷ []); cum = c.cum ++ (c.total ∷ []); total = total }) h₂ in
      record {
        freq = f ∷ p.freq;
        counts = (counted, p.counts);
        pushed_freq = p.pushed_freq ∙ append_assoc c.freq (f ∷ []) p.freq;
        pushed_cum =
            rw (p.pushed_cum, sums)
              (append_assoc c.cum (c.total ∷ []) (cumulate (c.total + f) p.freq));
        pushed_total = omega (arith, p.pushed_total);
      }

  pub Counts-Positive :
      (exps : List F32) (z : F32) (freq : List ℕ) → Counts exps z freq → All Positive freq
  Counts-Positive [] z [] h = tt
  Counts-Positive [] z (f ∷ freq) h = absurd h
  Counts-Positive (e ∷ exps) z [] h = tt
  Counts-Positive (e ∷ exps) z (f ∷ freq) h = (count-pos e z h.0, Counts-Positive exps z freq h.1)

  pub Counts-length :
      (exps : List F32) (z : F32) (freq : List ℕ) → Counts exps z freq → length freq ≡ length exps
  Counts-length [] z [] h = refl
  Counts-length [] z (f ∷ freq) h = absurd h
  Counts-length (e ∷ exps) z [] h = absurd h
  Counts-length (e ∷ exps) z (f ∷ freq) h = ap suc (Counts-length exps z freq h.1)

  pub collect-Counts :
      (exps : List F32) (z : F32) (freq before : List ℕ) (total : ℕ)
      → Counts exps z freq
      → total + sum freq < 2 ^ 64
      → collect floats exps z before total ≡ ok (before ++ freq, total + sum freq)
  unfolding collect
  collect-Counts [] z [] before total h lt =
      let same : total + 0 ≡ total = omega arith in rw (append-nil, same)
  collect-Counts [] z (f ∷ freq) before total h lt = absurd h
  collect-Counts (e ∷ exps) z [] before total h lt = absurd h
  collect-Counts (e ∷ exps) z (f ∷ freq) before total h lt =
      let fits : ltb (total + f) (2 ^ 64) ≡ true = ground arith in
      let sums : total + f + sum freq ≡ total + (f + sum freq) = omega arith in
      let rest = collect-Counts exps z freq (before ++ (f ∷ [])) (total + f) h.1 (omega arith) in
      rw (h.0, fits, rest, append_assoc, sums)

  pub find_range-passed :
      (exps : List F32) (z : F32) (freq : List ℕ) (idx symbol : ℕ) (range : Option (ℕ × ℕ))
      (total : ℕ)
      → Counts exps z freq
      → total + sum freq < 2 ^ 64
      → symbol < idx
      → find_range floats exps z idx symbol range total ≡ ok (range, total + sum freq)
  unfolding find_range
  find_range-passed [] z [] idx symbol range total h lt after =
      let same : total + 0 ≡ total = omega arith in rw same
  find_range-passed [] z (f ∷ freq) idx symbol range total h lt after = absurd h
  find_range-passed (e ∷ exps) z [] idx symbol range total h lt after = absurd h
  find_range-passed (e ∷ exps) z (f ∷ freq) idx symbol range total h lt after =
      let fits : ltb (total + f) (2 ^ 64) ≡ true = ground arith in
      let sums : total + f + sum freq ≡ total + (f + sum freq) = omega arith in
      let other : (idx == symbol) ≡ false = ground arith in
      let rest =
        find_range-passed exps z freq (idx + 1) symbol range (total + f) h.1 (omega arith)
          (omega arith) in
      rw (h.0, fits, other, rest, sums)

  pub find_range-found :
      (exps : List F32) (z : F32) (freq : List ℕ) (idx k : ℕ) (range : Option (ℕ × ℕ)) (total : ℕ)
      {f : ℕ}
      → Counts exps z freq
      → total + sum freq < 2 ^ 64
      → get_elem? freq k ≡ some f
      → find_range floats exps z idx (idx + k) range total
        ≡ ok (some (total + sum (take k freq), f), total + sum freq)
  unfolding find_range
  find_range-found [] z [] idx k range total h lt found = cc
  find_range-found [] z (g ∷ freq) idx k range total h lt found = absurd h
  find_range-found (e ∷ exps) z [] idx k range total h lt found = absurd h
  find_range-found (e ∷ exps) z (g ∷ freq) idx zero range total {f} h lt found =
      let fits : ltb (total + g) (2 ^ 64) ≡ true = ground arith in
      let sums : total + g + sum freq ≡ total + (g + sum freq) = omega arith in
      let here : (idx == idx + 0) ≡ true = ground arith in
      let same : g ≡ f = cc in
      let start : total + 0 ≡ total = omega arith in
      let rest =
        find_range-passed exps z freq (idx + 1) (idx + 0) (some (total, g)) (total + g) h.1
          (omega arith) (omega arith) in
      rw (h.0, fits, here, rest, sums, start, same)
  find_range-found (e ∷ exps) z (g ∷ freq) idx (suc k) range total h lt found =
      let fits : ltb (total + g) (2 ^ 64) ≡ true = ground arith in
      let sums : total + g + sum freq ≡ total + (g + sum freq) = omega arith in
      let other : (idx == idx + suc k) ≡ false = ground arith in
      let next : idx + 1 + k ≡ idx + suc k = omega arith in
      let before : total + g + sum (take k freq) ≡ total + (g + sum (take k freq)) = omega arith in
      let rest =
        find_range-found exps z freq (idx + 1) k range (total + g) h.1 (omega arith) found in
      rw (h.0, fits, other, ← next, rest, sums, before)

  -- What `logits_to_cdf_with_scratch` goes through where it succeeds.
  pub record Made (logits : List F32) (c : Cdf) : Type 0 where
    pub some_logit : 0 < length logits
    pub few : length logits ≤ max_symbols
    pub best : F32
    pub found : greatest floats logits neg_infinity ≡ ok best
    pub pushed :
        Pushed
          (fill_exp_scratch floats logits best)
          (sum_f32_ref (fill_exp_scratch floats logits best))
          (record { freq = []; cum = []; total = 0 })
          c
    pub bounded : c.total < 2 ^ 31

  pub logits_to_cdf-Made :
      (logits : List F32) {c : Cdf}
      → logits_to_cdf_with_scratch floats logits ≡ ok c
      → Made logits c
  unfolding logits_to_cdf_with_scratch
  logits_to_cdf-Made logits {c} h =
      let (u₁, some_logit, h₁) = >>=-eq-ok (guard (not (is_empty logits)) empty) _ h in
      let (u₂, few, h₂) =
        >>=-eq-ok (guard (not (ltb max_symbols (length logits))) too_many_symbols) _ h₁ in
      let (best, found, h₃) = >>=-eq-ok (greatest floats logits neg_infinity) _ h₂ in
      let exps = fill_exp_scratch floats logits best in
      let (made, pushed, h₄) =
        >>=-eq-ok
          (push_counts floats exps (sum_f32_ref exps) (record { freq = []; cum = []; total = 0 })) _
          h₃ in
      let (u₃, bounded, h₅) =
        >>=-eq-ok (guard (not (leb (2 ^ 31) made.total)) total_too_large) _ h₄ in
      let same : made ≡ c = ok-injective h₅ in
      record {
        some_logit = ground (arith, is_empty_iff logits);
        few = ground arith;
        best = best;
        found = found;
        pushed = rw (← same) (
            push_counts-Pushed exps (sum_f32_ref exps) (record { freq = []; cum = []; total = 0 })
              pushed);
        bounded = rw (← same) (ground arith);
      }
