-- ===== src/Coder/Cdf/Valid.antt =====
-- `Cdf::validate` accepts the well-formed tables, and the lookup is right on them.
use detllm.Base.{
  ℕ, ◌+◌, ◌^◌, ◌≤◌, ◌<◌, ◌≡◌, ◌↔◌, refl, ap, arith, List, [], ◌∷◌, length, All, is_empty_iff, ok,
  ok-injective, Returns,
}
use native.Mathlib.Nat.{zero-add}
use detllm.Coder.Cdf.{Cdf, max_symbols, validate_entries, validate}
use detllm.Coder.Cdf.Table.{sum, Positive, cumulate, length-cumulate}

-- A frequency table in the order of its symbols: no count is 0, and `cum` holds the sums.
pub record IsValid (c : Cdf) : Type 0 where
  pub sums : c.cum ≡ cumulate 0 c.freq
  pub whole : c.total ≡ sum c.freq
  pub positive : All Positive c.freq
  pub some_symbol : 0 < length c.freq
  pub few : length c.freq ≤ max_symbols
  pub bounded : c.total < 2 ^ 31

validate_entries-ok :
    (cum freq : List ℕ) (start : ℕ) {end : ℕ}
    → length freq ≡ length cum
    → validate_entries cum freq start ≡ ok end
    → (cum ≡ cumulate start freq) × All Positive freq × (end ≡ start + sum freq)
unfolding validate_entries cumulate
validate_entries-ok [] [] start e h = let same = ok-injective h in (refl, tt, omega arith)
validate_entries-ok [] (f ∷ freq) start e h = absurd (omega arith)
validate_entries-ok (c ∷ cum) [] start e h = absurd (omega arith)
validate_entries-ok (c ∷ cum) (f ∷ freq) start {end} e h =
    ground (arith, validate_entries-ok cum freq (start + f) {end = end} (omega arith))

validate_entries-cumulate :
    (freq : List ℕ) (start : ℕ)
    → All Positive freq
    → start + sum freq < 2 ^ 64
    → validate_entries (cumulate start freq) freq start ≡ ok (start + sum freq)
unfolding validate_entries cumulate
validate_entries-cumulate [] start h lt = ap ok (omega arith)
validate_entries-cumulate (f ∷ freq) start h lt =
    ground (arith, validate_entries-cumulate freq (start + f) h.1 (omega arith))

pub validate-IsValid : (c : Cdf) → validate c ≡ ok tt → IsValid c
unfolding validate
validate-IsValid c h =
    ground (arith, is_empty_iff c.freq, validate_entries-ok c.cum c.freq 0 {end = c.total})

pub IsValid-validate : (c : Cdf) → IsValid c → validate c ≡ ok tt
unfolding validate
IsValid-validate c v =
    let same_length : length c.cum ≡ length c.freq = rw v.sums (length-cumulate 0 c.freq) in
    let entries : validate_entries c.cum c.freq 0 ≡ ok (sum c.freq) =
      rw (v.sums, ← zero-add (sum c.freq))
        (validate_entries-cumulate c.freq 0 v.positive (omega (arith, v.whole, v.bounded))) in
    ground (arith, is_empty_iff c.freq, is_empty_iff c.cum)

-- `Cdf::validate` accepts a table exactly if its `cum` holds the sums of the counts before each
-- symbol, its total is the sum of the counts, no count is 0, and it has from 1 to 2^18 symbols and
-- a total below 2^31.
pub validate-IsValid_iff : (c : Cdf) → (validate c ≡ ok tt) ↔ IsValid c
validate-IsValid_iff c = (validate-IsValid c, IsValid-validate c)

validate_entries-Returns :
    (cum freq : List ℕ) (total : ℕ) → Returns (validate_entries cum freq total)
unfolding validate_entries
validate_entries-Returns [] [] total = tt
validate_entries-Returns [] (f ∷ freq) total = tt
validate_entries-Returns (c ∷ cum) [] total = tt
validate_entries-Returns (c ∷ cum) (f ∷ freq) total =
    ground (arith, validate_entries-Returns cum freq (total + f))

-- `validate` always comes back.
pub validate-Returns : (c : Cdf) → Returns (validate c)
unfolding validate
validate-Returns c = ground (arith, validate_entries-Returns c.cum c.freq 0)

sum-pos : (freq : List ℕ) → All Positive freq → 0 < length freq → 0 < sum freq
sum-pos [] h some_symbol = absurd (omega arith)
sum-pos (f ∷ freq) h some_symbol = omega (arith, h.0)

pub IsValid-pos : {c : Cdf} → IsValid c → 0 < c.total
IsValid-pos {c} v = omega (arith, v.whole, sum-pos c.freq v.positive v.some_symbol)
