-- ===== src/Codec/Symbols/Follow.antt =====
-- One symbol: the encoder's `symbol_range` and `encode`, and the decoder's `decode_symbol`.
use detllm.Base.{
  ℕ, ◌<◌, ◌≡◌, ◌∙◌, refl, sym, ap, ◌^◌, arith, true, false, not, Bool-cases, inl, inr, some, List,
  ◌++◌, leb, ◌==◌, ltb, if◌then◌else◌, length, get_elem?, Outcome, ok, >>=-eq-ok, guard-eq-ok,
  map_err, map_err-eq-ok, ok-injective,
}
use detllm.Coder.Range.Encoder.{RangeEncoder}
use detllm.Coder.Range.Encoder
use detllm.Coder.Range.{validate}
use detllm.Coder.Range.Decoder.{RangeDecoder, decode_freq, advance}
use detllm.Coder.Range.Renorm.{IsReady}
use detllm.Coder.Range.Window.{Covers}
use detllm.Coder.Range.Narrow.{IsSymbol, validate-IsSymbol_iff}
use detllm.Coder.Range.Follow.{follow}
use detllm.Coder.Range.Symbol.{symbol_follows}
use detllm.Coder.Cdf.{
  Cdf, CdfError, SymbolRange, DecoderDistribution, symbol_for_validated, uniform_symbol_range,
  max_symbols,
}
use detllm.Coder.Cdf
use detllm.Coder.Cdf.Lookup.{symbol_for_validated-Falls, entry-Falls}
use detllm.Coder.Cdf.Logits.{
  Floats, logits_to_symbol_range_impl, logits_to_decoder_distribution_impl,
  logits_to_symbol_range_with_byte_escapes, logits_to_symbol_range_with_scratch,
  logits_to_decoder_distribution_with_byte_escapes, logits_to_decoder_distribution_with_scratch,
}
use detllm.Coder.Cdf.Logits.Codec.{symbol_range-decoder_distribution}
use detllm.Codec.Model.{CodecError, Model, cdf}
use detllm.Codec.State.{
  State, decode_from_table, symbol_range, decoder_distribution, decode_from_logits, decode_symbol,
}
use detllm.Codec.Symbols.Agree.{Even, decoder_distribution-symbol_range}

-- What `encode` accepts is a symbol.
pub encode-IsSymbol :
    (e : RangeEncoder) (cum freq total : ℕ) {e' : RangeEncoder}
    → Encoder.encode e cum freq total ≡ ok e'
    → IsSymbol cum freq total
unfolding Encoder.encode
encode-IsSymbol e cum freq total h =
    let (u, valid, h₁) = >>=-eq-ok (validate cum freq total) _ h in
    (validate-IsSymbol_iff cum freq total).0 valid

uniform_symbol_range-ok :
    (symbol n : ℕ) {r : SymbolRange}
    → uniform_symbol_range symbol n ≡ ok r
    → (symbol < n) × (record { cum = symbol; freq = 1; total = n } ≡ r)
unfolding uniform_symbol_range
uniform_symbol_range-ok symbol n h =
    let (pos, h₁) = guard-eq-ok (not (n == 0)) _ _ h in
    let (few, h₂) = guard-eq-ok (not (ltb max_symbols n)) _ _ h₁ in
    let (inside, h₃) = guard-eq-ok (not (leb n symbol)) _ _ h₂ in
    let (small, h₄) = guard-eq-ok (not (leb (2 ^ 31) n)) _ _ h₃ in (ground arith, ok-injective h₄)

-- The decoder reads `rest` behind the encoder `e`, and what is left behind `e'`.
unfoldable pub Follows :
    RangeEncoder
    → RangeEncoder
    → List ℕ
    → (RangeDecoder → Outcome CodecError (ℕ × RangeDecoder))
    → ℕ
    → Type 0
Follows e e' rest' read symbol =
    (rest : List ℕ) × (e.out ++ rest ≡ e'.out ++ rest')
    × Covers e.low e.range rest
    × (read (follow e rest) ≡ ok (symbol, follow e' rest'))

table_run :
    (c : Cdf) (dec dec' dec'' : RangeDecoder) (value symbol cum freq : ℕ)
    → decode_freq dec c.total ≡ ok (value, dec')
    → symbol_for_validated c value ≡ some symbol
    → get_elem? c.cum symbol ≡ some cum
    → get_elem? c.freq symbol ≡ some freq
    → advance dec' cum freq c.total ≡ ok dec''
    → decode_from_table dec c ≡ ok (symbol, dec'')
unfolding decode_from_table
table_run c dec dec' dec'' value symbol cum freq h₁ h₂ h₃ h₄ h₅ = rw (h₁, h₂, h₃, h₄, h₅) refl

-- From the uniform table.
decode_from_table-Follows :
    {e e' : RangeEncoder} (c : Cdf) (n symbol : ℕ) (rest' : List ℕ)
    → IsReady e
    → Even n c
    → symbol < n
    → Encoder.encode e symbol 1 c.total ≡ ok e'
    → Covers e'.low e'.range rest'
    → Follows e e' rest' (λ dec. decode_from_table dec c) symbol
unfolding Follows
decode_from_table-Follows {e} {e'} c n symbol rest' ready even lt run covers' =
    let (rest, same, covers, value, above, below, asked, told) =
      symbol_follows rest' ready (encode-IsSymbol e symbol 1 c.total run) run covers' in
    let at_cum = even.at_cum symbol lt in
    let at_freq = even.at_freq symbol lt in
    let falls = entry-Falls even.valid at_cum at_freq above below in
    (
      rest,
      same,
      covers,
      table_run c _ _ _ value symbol symbol 1 asked (symbol_for_validated-Falls even.valid falls)
          at_cum at_freq told,
    )

encode_same :
    (e : RangeEncoder) {cum cum' freq freq' total total' : ℕ}
    → cum ≡ cum'
    → freq ≡ freq'
    → total ≡ total'
    → Encoder.encode e cum freq total ≡ Encoder.encode e cum' freq' total'
encode_same e h k l = cc

module _ (floats : Floats) (model : Model floats.F32) where
  -- Both sides have the same symbols behind the vocabulary.
  same_tail :
      (s : State floats model) (symbol : ℕ) {r : SymbolRange}
      → map_err cdf (
          if s.use_byte_escapes
          then logits_to_symbol_range_with_byte_escapes floats s.logits symbol
          else logits_to_symbol_range_with_scratch floats s.logits symbol)
        ≡ ok r
      → (tail : ℕ) × (logits_to_symbol_range_impl floats s.logits symbol tail ≡ ok r)
        × ((d : DecoderDistribution)
            → logits_to_decoder_distribution_impl floats s.logits tail ≡ ok d
            → decoder_distribution floats model s ≡ ok d)
  unfolding decoder_distribution logits_to_symbol_range_with_byte_escapes
      logits_to_symbol_range_with_scratch logits_to_decoder_distribution_with_byte_escapes
      logits_to_decoder_distribution_with_scratch
  same_tail s symbol h = elim (Bool-cases s.use_byte_escapes) [
    | inl escapes ↦
        (256, map_err-eq-ok cdf _ (rw escapes at h), λ d made. rw escapes (ap (map_err cdf) made))
    | inr none_used ↦
        (0, map_err-eq-ok cdf _ (rw none_used at h), λ d made. rw none_used (ap (map_err cdf) made))
  ]

  logits_run :
      (s : State floats model) (d : DecoderDistribution) (dec dec' dec'' : RangeDecoder)
      (value symbol : ℕ) (r : SymbolRange)
      → decoder_distribution floats model s ≡ ok d
      → decode_freq dec d.total ≡ ok (value, dec')
      → Cdf.symbol_range d value ≡ some (symbol, r)
      → advance dec' r.cum r.freq r.total ≡ ok dec''
      → decode_from_logits floats model dec s ≡ ok (symbol, dec'')
  unfolding decode_from_logits
  logits_run s d dec dec' dec'' value symbol r h₁ h₂ h₃ h₄ = rw (h₁, h₂, h₃, h₄) refl

  decode_from_logits-Follows :
      (s : State floats model) (e e' : RangeEncoder) (tail symbol : ℕ) (r : SymbolRange)
      (rest' : List ℕ)
      → IsReady e
      → logits_to_symbol_range_impl floats s.logits symbol tail ≡ ok r
      → ((d : DecoderDistribution)
          → logits_to_decoder_distribution_impl floats s.logits tail ≡ ok d
          → decoder_distribution floats model s ≡ ok d)
      → Encoder.encode e r.cum r.freq r.total ≡ ok e'
      → Covers e'.low e'.range rest'
      → Follows e e' rest' (λ dec. decode_from_logits floats model dec s) symbol
  unfolding Follows
  decode_from_logits-Follows s e e' tail symbol r rest' ready ranged same_dist run covers' =
      let (d, made, total) = decoder_distribution-symbol_range floats s.logits symbol tail ranged in
      let (rest, same, covers, value, above, below, asked, told) =
        symbol_follows rest' ready (encode-IsSymbol e r.cum r.freq r.total run) run covers' in
      let found =
        symbol_range-decoder_distribution floats s.logits symbol tail value made ranged above
          below in
      let asked' = ap (decode_freq (follow e rest)) total ∙ asked in
      (rest, same, covers, logits_run s d _ _ _ value symbol r (same_dist d made) asked' found told)

  table_first :
      (s : State floats model) (dec : RangeDecoder)
      → (s.context_len == 0) ≡ true
      → decode_symbol floats model dec s ≡ decode_from_table dec s.table
  unfolding decode_symbol
  table_first s dec first =
      ap (λ b. if b then decode_from_table dec s.table else decode_from_logits floats model dec s)
        first

  logits_later :
      (s : State floats model) (dec : RangeDecoder)
      → (s.context_len == 0) ≡ false
      → decode_symbol floats model dec s ≡ decode_from_logits floats model dec s
  unfolding decode_symbol
  logits_later s dec later =
      ap (λ b. if b then decode_from_table dec s.table else decode_from_logits floats model dec s)
        later

  -- In the same state the decoder finds the symbol that the encoder wrote.
  pub decode_symbol-Follows :
      (s : State floats model) (e e' : RangeEncoder) (n symbol : ℕ) (r : SymbolRange)
      (rest' : List ℕ)
      → Even n s.table
      → IsReady e
      → symbol_range floats model symbol s ≡ ok r
      → Encoder.encode e r.cum r.freq r.total ≡ ok e'
      → Covers e'.low e'.range rest'
      → Follows e e' rest' (λ dec. decode_symbol floats model dec s) symbol
  unfolding symbol_range Follows
  decode_symbol-Follows s e e' n symbol r rest' even ready ranged run covers' =
      elim (Bool-cases (s.context_len == 0)) [
        | inl first ↦
            let ranged' =
              map_err-eq-ok cdf (uniform_symbol_range symbol (length s.table.freq))
                (rw first at ranged) in
            let (lt, made) = uniform_symbol_range-ok symbol (length s.table.freq) ranged' in
            let whole : r.total ≡ s.table.total =
              ap (λ (r : SymbolRange). r.total) (sym made) ∙ even.long ∙ sym even.whole in
            let run' : Encoder.encode e symbol 1 s.table.total ≡ ok e' =
              encode_same e (ap (λ (r : SymbolRange). r.cum) made)
                (ap (λ (r : SymbolRange). r.freq) made) (sym whole)
              ∙ run in
            let (rest, same, covers, told) =
              decode_from_table-Follows s.table n symbol rest' ready even (omega (arith, even.long))
                run' covers' in
            (rest, same, covers, table_first s (follow e rest) first ∙ told)
        | inr later ↦
            let (tail, ranged', same_dist) = same_tail s symbol (rw later at ranged) in
            let (rest, same, covers, told) =
              decode_from_logits-Follows s e e' tail symbol r rest' ready ranged' same_dist run
                covers' in
            (rest, same, covers, logits_later s (follow e rest) later ∙ told)
      ]
