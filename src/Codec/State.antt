-- ===== src/Codec/State.antt =====
-- crates/det-cli/src/main.rs: `WindowedModelState`. A method takes the state and gives the next one;
-- the buffers of the tables (`CdfScratch`) are results, as in the coder.
use detllm.Base.{
  ℕ, ◌+◌, Bool, not, List, [], ◌∷◌, leb, ◌==◌, if◌then◌else◌, length, get_elem?, replicate, map,
  slice, Outcome, ok, ◌>>=◌, ◌>>◌, guard, ok_or, at_index, map_err,
}
use detllm.Coder.Range.Decoder.{RangeDecoder}
use detllm.Coder.Range.Decoder
use detllm.Coder.Cdf.{
  Cdf, SymbolRange, symbol_for_validated, uniform_cdf, uniform_cdf_with_byte_escapes,
  uniform_symbol_range,
}
use detllm.Coder.Cdf
use detllm.Coder.Cdf.Logits.{
  Floats, logits_to_symbol_range_with_byte_escapes, logits_to_symbol_range_with_scratch,
  logits_to_decoder_distribution_with_byte_escapes, logits_to_decoder_distribution_with_scratch,
}
use detllm.Codec.{next_window_start}
use detllm.Codec.Model.{
  CodecError, Model, rope_error, cache_error, workspace_error, forward_error, position_mismatch,
  window_full, cdf, range, lookup_failed,
}

-- `decode_symbol` from a table.
unfoldable pub decode_from_table : RangeDecoder → Cdf → Outcome CodecError (ℕ × RangeDecoder)
decode_from_table dec c = do
  (value, dec') ← map_err range (Decoder.decode_freq dec c.total)
  token ← ok_or (symbol_for_validated c value) (lookup_failed value)
  cum ← at_index (get_elem? c.cum token)
  freq ← at_index (get_elem? c.freq token)
  dec'' ← map_err range (Decoder.advance dec' cum freq c.total)
  ok (token, dec'')

module _ (floats : Floats) (model : Model floats.F32) where
  pub record State : Type 0 where
    pub n_ctx : ℕ
    pub window_start : ℕ
    pub context_len : ℕ
    pub rope : model.Rope
    pub cache : model.Cache
    pub workspace : model.Workspace
    pub logits : List floats.F32
    pub table : Cdf
    pub use_byte_escapes : Bool

  -- The uniform table, which is used before the first token of a window.
  unfoldable pub uniform_table : Bool → Outcome CodecError Cdf
  uniform_table use_byte_escapes = map_err cdf (
      if use_byte_escapes then uniform_cdf_with_byte_escapes model.rows else uniform_cdf model.rows)

  abbrev pub no_logits : List floats.F32
  no_logits = replicate model.rows model.zero_f32

  unfoldable pub new : ℕ → Bool → Outcome CodecError State
  unfolding uniform_table
  new n_ctx use_byte_escapes = do
    rope ← ok_or (model.rope_tables n_ctx) rope_error
    cache ← ok_or model.new_cache cache_error
    workspace ← ok_or (model.forward_workspace n_ctx) workspace_error
    table ← uniform_table use_byte_escapes
    ok (record {
      n_ctx = n_ctx;
      window_start = 0;
      context_len = 0;
      rope = rope;
      cache = cache;
      workspace = workspace;
      logits = no_logits;
      table = table;
      use_byte_escapes = use_byte_escapes;
    })

  unfoldable pub advance : ℕ → State → Outcome CodecError State
  advance token s = do
    guard (not (leb s.n_ctx s.context_len)) window_full
    (cache, logits, workspace) ←
        ok_or (model.forward_one token s.context_len s.rope s.cache s.logits s.workspace)
          forward_error
    ok (record s {
      cache = cache;
      logits = logits;
      workspace = workspace;
      context_len = s.context_len + 1;
    })

  unfoldable pub advance_all : List ℕ → State → Outcome CodecError State
  unfolding advance
  advance_all [] s = ok s
  advance_all (token ∷ context) s = advance token s >>= advance_all context

  unfoldable pub replay : ℕ → List ℕ → State → Outcome CodecError State
  unfolding advance_all
  replay window_start context s = do
    cache ← ok_or model.new_cache cache_error
    advance_all context (record s {
      cache = cache;
      logits = map (λ x. model.zero_f32) s.logits;
      window_start = window_start;
      context_len = 0;
    })

  -- The start of the window is at most the position, so that the slice is within the tokens.
  unfoldable pub sync : ℕ → List ℕ → ℕ → State → Outcome CodecError State
  unfolding replay next_window_start
  sync pos tokens overlap s = do
    guard (pos == length tokens) position_mismatch
    let next_start = next_window_start pos s.window_start s.n_ctx overlap
    if next_start == s.window_start then ok s else replay next_start (slice next_start pos tokens) s

  unfoldable pub symbol_range : ℕ → State → Outcome CodecError SymbolRange
  symbol_range symbol s = map_err cdf (
      if s.context_len == 0
      then uniform_symbol_range symbol (length s.table.freq)
      else if s.use_byte_escapes
      then logits_to_symbol_range_with_byte_escapes floats s.logits symbol
      else logits_to_symbol_range_with_scratch floats s.logits symbol)

  unfoldable pub decoder_distribution : State → Outcome CodecError Cdf.DecoderDistribution
  decoder_distribution s = map_err cdf (
      if s.use_byte_escapes
      then logits_to_decoder_distribution_with_byte_escapes floats s.logits
      else logits_to_decoder_distribution_with_scratch floats s.logits)

  -- `decode_symbol` from the logits.
  unfoldable pub decode_from_logits : RangeDecoder → State → Outcome CodecError (ℕ × RangeDecoder)
  unfolding decoder_distribution
  decode_from_logits dec s = do
    d ← decoder_distribution s
    (value, dec') ← map_err range (Decoder.decode_freq dec d.total)
    (symbol, r) ← ok_or (Cdf.symbol_range d value) (lookup_failed value)
    dec'' ← map_err range (Decoder.advance dec' r.cum r.freq r.total)
    ok (symbol, dec'')

  unfoldable pub decode_symbol : RangeDecoder → State → Outcome CodecError (ℕ × RangeDecoder)
  unfolding decode_from_table decode_from_logits
  decode_symbol dec s =
      if s.context_len == 0 then decode_from_table dec s.table else decode_from_logits dec s
