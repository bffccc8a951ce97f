-- ===== src/Coder/Cdf/Uniform.antt =====
-- `append_uniform_tail` and `uniform_cdf` keep and make well-formed tables.
use detllm.Base.{
  ℕ, zero, suc, ◌+◌, ◌*◌, ◌^◌, ◌≤◌, ◌<◌, ◌≡◌, ap, arith, not, [], ◌∷◌, ◌++◌, ltb, leb, ◌==◌, length,
  length-append, All, ok, >>=-eq-ok, ok-injective, guard, ok_or, checked_add, checked_mul,
  saturating_add, add64,
}
use detllm.Coder.Cdf.{
  Cdf, max_symbols, malformed, too_many_symbols, total_too_large, push_uniform, append_uniform_tail,
}
use detllm.Coder.Cdf.Table.{sum, Positive, cumulate, cumulate-append, sum-append, All-append}
use detllm.Coder.Cdf.Valid.{IsValid}

-- The part of `IsValid` that each round keeps.
record IsTable (c : Cdf) : Type 0 where
  sums : c.cum ≡ cumulate 0 c.freq
  whole : c.total ≡ sum c.freq
  positive : All Positive c.freq

snoc-IsTable :
    (c : Cdf) (f total : ℕ)
    → IsTable c
    → 0 < f
    → total ≡ c.total + f
    → IsTable (record { freq = c.freq ++ (f ∷ []); cum = c.cum ++ (c.total ∷ []); total = total })
unfolding cumulate
snoc-IsTable c f total t pos same = record {
  sums =
      rw (cumulate-append 0 c.freq (f ∷ []), t.sums)
        (ap (λ (s : ℕ). cumulate 0 c.freq ++ (s ∷ [])) (omega (arith, t.whole)));
  whole = omega (arith, sum-append c.freq (f ∷ []), t.whole);
  positive = All-append Positive c.freq (f ∷ []) t.positive (pos, tt);
}

push_uniform-IsTable :
    (n f : ℕ) (c : Cdf) {c' : Cdf}
    → IsTable c
    → 0 < f
    → push_uniform n f c ≡ ok c'
    → IsTable c' × (length c'.freq ≡ length c.freq + n) × (c'.total ≡ c.total + n * f)
unfolding push_uniform
push_uniform-IsTable zero f c t pos h =
    let same = ok-injective h in rw (← same) (t, omega arith, omega arith)
push_uniform-IsTable (suc n) f c t pos h =
    let (total, added, h₁) = >>=-eq-ok (add64 c.total f) _ h in
    let same : total ≡ c.total + f = ground arith in
    let (t', long, whole) = push_uniform-IsTable n f _ (snoc-IsTable c f total t pos same) pos h₁ in
    (t', omega (arith, length-append c.freq (f ∷ [])), omega arith)

-- `append_uniform_tail` keeps a table well-formed, and adds that many symbols of that count.
pub append_uniform_tail-IsValid :
    (c : Cdf) (symbols freq : ℕ) {c' : Cdf}
    → IsValid c
    → append_uniform_tail c symbols freq ≡ ok c'
    → IsValid c'
      × (length c'.freq ≡ length c.freq + symbols)
      × (c'.total ≡ c.total + symbols * freq)
unfolding append_uniform_tail
append_uniform_tail-IsValid c symbols freq {c'} v h =
    let (u₁, few, h₁) =
      >>=-eq-ok
        (guard (not (ltb max_symbols (saturating_add (length c.freq) symbols))) too_many_symbols) _
        h in
    let (u₂, pos, h₂) = >>=-eq-ok (guard (not (freq == 0)) malformed) _ h₁ in
    let (add, fits, h₃) = >>=-eq-ok (ok_or (checked_mul symbols freq) total_too_large) _ h₂ in
    let (end, fits', h₄) = >>=-eq-ok (ok_or (checked_add c.total add) total_too_large) _ h₃ in
    let (u₃, bounded, h₅) = >>=-eq-ok (guard (not (leb (2 ^ 31) end)) total_too_large) _ h₄ in
    let some_freq : 0 < freq = ground arith in
    let t : IsTable c = record { sums = v.sums; whole = v.whole; positive = v.positive } in
    let (t', long, whole) = push_uniform-IsTable symbols freq c t some_freq h₅ in
    let most : length c.freq + symbols ≤ max_symbols = ground arith in
    let small : c.total + symbols * freq < 2 ^ 31 = ground arith in
    (
      record {
        sums = t'.sums;
        whole = t'.whole;
        positive = t'.positive;
        some_symbol = omega (arith, v.some_symbol);
        few = omega arith;
        bounded = omega arith;
      },
      long,
      whole,
    )
