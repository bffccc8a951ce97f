-- ===== src/Coder/Cdf/Lookup.antt =====
-- `symbol_for` and `symbol_for_validated` on a well-formed table.
use detllm.Base.{
  ℕ, suc, ◌+◌, ◌≤◌, ◌<◌, ◌≡◌, sym, ap, ◌∙◌, arith, leb, some, length, get_elem?, is_empty_iff,
}
use detllm.Coder.Cdf.{Cdf, symbol_for_validated, symbol_for, partition_point}
use detllm.Coder.Cdf.Table.{
  length-cumulate, Falls, Falls-total, Falls-le, partition_point-cumulate, get_elem?-cumulate,
}
use detllm.Coder.Cdf.Valid.{IsValid, IsValid-validate}
use detllm.Coder.Range.Narrow.{IsSymbol}

module _ {c : Cdf} (v : IsValid c) {symbol cum f value : ℕ}
    (falls : Falls 0 c.freq symbol cum f value) where
  -- A value is looked up to the symbol that it falls to.
  pub symbol_for_validated-Falls : symbol_for_validated c value ≡ some symbol
  unfolding symbol_for_validated
  symbol_for_validated-Falls =
      let same_length : length c.cum ≡ length c.freq = rw v.sums (length-cumulate 0 c.freq) in
      let point : partition_point (λ x. leb x value) c.cum ≡ suc symbol =
        rw v.sums (partition_point-cumulate 0 c.freq symbol falls) in
      let inside : value < c.total =
        omega (arith, falls.below, v.whole, Falls-le 0 c.freq symbol falls) in
      rw point (ground (arith, is_empty_iff c.cum, v.some_symbol))

  pub cum-Falls : get_elem? c.cum symbol ≡ some cum
  cum-Falls =
      rw v.sums (get_elem?-cumulate 0 c.freq symbol falls.entry) ∙ ap some (sym falls.begins)

  -- The range coder accepts the symbol.
  pub Falls-IsSymbol : IsSymbol cum f c.total
  Falls-IsSymbol = record {
    occurs = omega (arith, falls.above, falls.below);
    within = omega (arith, v.whole, Falls-le 0 c.freq symbol falls);
    bounded = v.bounded;
  }

-- On a well-formed table `symbol_for` finds a symbol for every value below the total, and the value
-- lies in the interval that the table gives to the symbol.
pub symbol_for-total :
    {c : Cdf} {value : ℕ}
    → IsValid c
    → value < c.total
    → (symbol : ℕ) × (cum : ℕ) × (f : ℕ) × (symbol_for c value ≡ some symbol)
      × (get_elem? c.cum symbol ≡ some cum)
      × (get_elem? c.freq symbol ≡ some f)
      × (cum ≤ value)
      × (value < cum + f)
unfolding symbol_for
symbol_for-total {c} {value} v inside =
    let (symbol, cum, f, falls) =
      Falls-total 0 c.freq value (omega arith) (omega (arith, v.whole)) in
    (
      symbol,
      cum,
      f,
      rw (IsValid-validate c v, symbol_for) (symbol_for_validated-Falls v falls),
      cum-Falls v falls,
      falls.entry,
      falls.above,
      falls.below,
    )

-- What the table says of a symbol is what the values of the symbol fall to.
pub entry-Falls :
    {c : Cdf} {symbol cum f value : ℕ}
    → IsValid c
    → get_elem? c.cum symbol ≡ some cum
    → get_elem? c.freq symbol ≡ some f
    → cum ≤ value
    → value < cum + f
    → Falls 0 c.freq symbol cum f value
entry-Falls {c} {symbol} {cum} v at_cum at_freq above below = record {
  entry = at_freq;
  begins =
      cc (get_elem?-cumulate 0 c.freq symbol at_freq, ap (λ l. get_elem? l symbol) v.sums, at_cum);
  above = above;
  below = below;
}

-- On a well-formed table `symbol_for` looks up each value of the interval that the table gives to a
-- symbol to that symbol.
symbol_for_unique :
    {c : Cdf} {symbol cum f value : ℕ}
    → IsValid c
    → get_elem? c.cum symbol ≡ some cum
    → get_elem? c.freq symbol ≡ some f
    → cum ≤ value
    → value < cum + f
    → symbol_for c value ≡ some symbol
unfolding symbol_for
symbol_for_unique {c} v at_cum at_freq above below =
    rw (IsValid-validate c v, symbol_for)
      (symbol_for_validated-Falls v (entry-Falls v at_cum at_freq above below))
