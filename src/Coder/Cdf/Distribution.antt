-- ===== src/Coder/Cdf/Distribution.antt =====
-- The encoder's range of a symbol and the decoder's lookup, both from the same logits.
use detllm.Base.{
  ℕ, zero, suc, ◌+◌, ◌-◌, ◌^◌, ◌≤◌, ◌<◌, ◌≡◌, ap, arith, true, false, some, List, [], ◌∷◌, ltb, leb,
  length,
}
use detllm.Coder.Cdf.{DecoderDistribution, hit, past, search_symbol, symbol_range}
use detllm.Coder.Cdf.Table.{sum, Falls, Falls-tail, Falls-le}

-- The loop of `DecoderDistribution::symbol_range` stops at the symbol that the value falls to.
search_symbol-Falls :
    (freq : List ℕ) (idx start symbol : ℕ) (total : ℕ) {cum f value : ℕ}
    → Falls start freq symbol cum f value
    → start + sum freq < 2 ^ 64
    → search_symbol freq idx start value total
      ≡ hit (idx + symbol) (record { cum = cum; freq = f; total = total })
unfolding search_symbol
search_symbol-Falls [] idx start symbol total h lt = cc (h.entry)
search_symbol-Falls (g ∷ freq) idx start zero total {cum} {f} {value} h lt =
    let same : g ≡ f = cc (h.entry) in
    let begins : cum ≡ start = omega (arith, h.begins) in
    let fits : ltb (start + g) (2 ^ 64) ≡ true = ground arith in
    let below : ltb value (start + g) ≡ true = ground (arith, h.below) in
    let place : idx + 0 ≡ idx = omega arith in rw (fits, below, place, begins, same)
search_symbol-Falls (g ∷ freq) idx start (suc symbol) total {cum} {f} {value} h lt =
    let fits : ltb (start + g) (2 ^ 64) ≡ true = ground arith in
    let above : ltb value (start + g) ≡ false = ground (arith, h.begins, h.above) in
    let place : idx + 1 + symbol ≡ idx + suc symbol = omega arith in
    rw (fits, above, ← place)
      (search_symbol-Falls freq (idx + 1) (start + g) symbol total (Falls-tail h) (omega arith))

search_symbol-past :
    (freq : List ℕ) (idx start value total : ℕ)
    → start + sum freq ≤ value
    → start + sum freq < 2 ^ 64
    → search_symbol freq idx start value total ≡ past (start + sum freq)
unfolding search_symbol
search_symbol-past [] idx start value total h lt = ap past (omega arith)
search_symbol-past (g ∷ freq) idx start value total h lt =
    let fits : ltb (start + g) (2 ^ 64) ≡ true = ground arith in
    let above : ltb value (start + g) ≡ false = ground arith in
    let sums : start + g + sum freq ≡ start + (g + sum freq) = omega arith in
    rw (
      fits,
      above,
      search_symbol-past freq (idx + 1) (start + g) value total (omega arith) (omega arith),
      sums,
    )

-- A distribution whose total is the sum of its counts and its tail looks up each value of a
-- symbol's interval to that symbol, with the interval.
pub symbol_range-Falls :
    (d : DecoderDistribution) (symbol : ℕ) {cum f value : ℕ}
    → d.total ≡ sum d.freq + d.tail_symbols
    → d.total < 2 ^ 31
    → Falls 0 d.freq symbol cum f value
    → symbol_range d value ≡ some (symbol, record { cum = cum; freq = f; total = d.total })
unfolding symbol_range
symbol_range-Falls d symbol {cum} {f} {value} whole bounded falls =
    let inside : leb d.total value ≡ false =
      ground (arith, Falls-le 0 d.freq symbol falls, falls.below) in
    let place : 0 + symbol ≡ symbol = omega arith in
    let found = rw place at (search_symbol-Falls d.freq 0 0 symbol d.total falls (omega arith)) in
    rw (inside, found)

-- On such a distribution a value behind the counts is looked up to the symbol of the tail that lies
-- as far behind the counts, with a count of 1.
pub symbol_range-tail :
    (d : DecoderDistribution) (value : ℕ)
    → d.total ≡ sum d.freq + d.tail_symbols
    → d.total < 2 ^ 31
    → sum d.freq ≤ value
    → value < d.total
    → symbol_range d value
      ≡ some
          (length d.freq + (value - sum d.freq), record { cum = value; freq = 1; total = d.total })
unfolding symbol_range
symbol_range-tail d value whole bounded behind inside =
    let open_end : leb d.total value ≡ false = ground arith in
    let found = search_symbol-past d.freq 0 0 value d.total (omega arith) (omega arith) in
    let sums : 0 + sum d.freq ≡ sum d.freq = omega arith in
    let after : ltb value (sum d.freq) ≡ false = ground arith in
    let in_tail : ltb (value - sum d.freq) d.tail_symbols ≡ true = ground arith in
    rw (open_end, found, sums, after, in_tail)
