-- ===== src/Codec/Symbols.antt =====
-- crates/det-cli/src/main.rs: `encode_symbols_with_model` and `decode_bytes_with_model`.
pub mod Table
pub mod Agree
pub mod Follow
pub mod Read
pub mod RoundTrip
use detllm.Base.{
  ℕ, zero, suc, ◌^◌, Bool, not, ◌&&◌, List, [], ◌∷◌, ◌++◌, ltb, leb, if◌then◌else◌, is_empty,
  length, Outcome, ok, err, stuck, ◌>>=◌, ◌>>◌, guard, map_err,
}
use detllm.Coder.Range.Encoder.{RangeEncoder}
use detllm.Coder.Range.Encoder
use detllm.Coder.Range.Decoder.{RangeDecoder}
use detllm.Coder.Range.Decoder
use detllm.Coder.Cdf.Logits.{Floats}
use detllm.Token.Codec.{Tokenizer, codec_symbol_is_token, decode_codec_symbol, detokenize_bytes}
use detllm.Codec.{validate_window}
use detllm.Codec.Model.{
  CodecError, Model, window, range, detokenize, outside_vocabulary, token_too_large, no_bytes,
}
use detllm.Codec.State.{State, new, advance, sync, symbol_range, decode_symbol}

-- The two vectors that `decode_bytes_with_model` gives.
pub record DecodedBytes : Type 0 where
  pub bytes : List ℕ
  pub symbols : List ℕ

-- The bytes of a decoded symbol.
unfoldable pub symbol_bytes : Tokenizer → ℕ → Bool → ℕ → Outcome CodecError (List ℕ)
symbol_bytes tokenizer vocab_len use_byte_escapes symbol =
    if use_byte_escapes
    then map_err detokenize (decode_codec_symbol tokenizer symbol vocab_len)
    else (do
      guard (ltb symbol (2 ^ 32)) (token_too_large symbol)
      map_err detokenize (detokenize_bytes tokenizer (symbol ∷ [])))

module _ (floats : Floats) (model : Model floats.F32) where
  -- The token becomes part of the context.
  unfoldable pub push_token :
      ℕ → List ℕ → State floats model → Outcome CodecError (List ℕ × State floats model)
  push_token symbol context s = do
    s' ← advance floats model symbol s
    ok (context ++ symbol ∷ [], s')

  -- The end of a round of the encoder: a byte escape is no part of the context.
  unfoldable pub push_encoded :
      Bool → ℕ → List ℕ → State floats model → Outcome CodecError (List ℕ × State floats model)
  push_encoded use_byte_escapes symbol context s =
      if use_byte_escapes && not (codec_symbol_is_token symbol model.rows)
      then ok (context, s)
      else guard (not (leb model.rows symbol)) (outside_vocabulary symbol)
        >> push_token symbol context s

  unfoldable pub push_decoded :
      Bool → ℕ → List ℕ → State floats model → Outcome CodecError (List ℕ × State floats model)
  push_decoded use_byte_escapes symbol context s =
      if use_byte_escapes && not (codec_symbol_is_token symbol model.rows)
      then ok (context, s)
      else push_token symbol context s

  -- The loop over the symbols.
  unfoldable pub encode_symbols :
      Bool
      → ℕ
      → List ℕ
      → List ℕ
      → State floats model
      → RangeEncoder
      → Outcome CodecError RangeEncoder
  encode_symbols use_byte_escapes overlap [] context s enc = ok enc
  encode_symbols use_byte_escapes overlap (symbol ∷ symbols) context s enc = do
    s₁ ← sync floats model (length context) context overlap s
    r ← symbol_range floats model symbol s₁
    enc' ← map_err range (Encoder.encode enc r.cum r.freq r.total)
    (context', s₂) ← push_encoded use_byte_escapes symbol context s₁
    encode_symbols use_byte_escapes overlap symbols context' s₂ enc'

  unfoldable pub encode_symbols_with_model : List ℕ → ℕ → ℕ → Bool → Outcome CodecError (List ℕ)
  unfolding encode_symbols validate_window new
  encode_symbols_with_model symbols n_ctx overlap use_byte_escapes = do
    map_err window (validate_window n_ctx overlap model.context_length)
    s ← new floats model n_ctx use_byte_escapes
    enc ← encode_symbols use_byte_escapes overlap symbols [] s Encoder.new
    ok (Encoder.finish enc)

  -- What the decoder has read so far.
  pub record Reading : Type 0 where
    pub context : List ℕ
    pub symbols : List ℕ
    pub bytes : List ℕ
    pub state : State floats model
    pub dec : RangeDecoder

  -- A round of the decoder, where `next` is the rest of the loop.
  unfoldable pub decode_round :
      Tokenizer
      → ℕ
      → Bool
      → (Reading → Outcome CodecError DecodedBytes)
      → Reading
      → Outcome CodecError DecodedBytes
  decode_round tokenizer overlap use_byte_escapes next r = do
    s₁ ← sync floats model (length r.context) r.context overlap r.state
    (symbol, dec') ← decode_symbol floats model r.dec s₁
    piece ← symbol_bytes tokenizer model.rows use_byte_escapes symbol
    guard (not (is_empty piece)) (no_bytes symbol)
    (context', s₂) ← push_decoded use_byte_escapes symbol r.context s₁
    next (record {
      context = context';
      symbols = r.symbols ++ symbol ∷ [];
      bytes = r.bytes ++ piece;
      state = s₂;
      dec = dec';
    })

  -- The loop: every round adds a byte at least, so that `byte_len` rounds are fuel enough.
  unfoldable pub decode_from :
      Tokenizer → ℕ → ℕ → Bool → ℕ → Reading → Outcome CodecError DecodedBytes
  decode_from tokenizer byte_len overlap use_byte_escapes zero r =
      if ltb (length r.bytes) byte_len
      then stuck
      else ok (record { bytes = r.bytes; symbols = r.symbols })
  decode_from tokenizer byte_len overlap use_byte_escapes (suc fuel) r =
      if ltb (length r.bytes) byte_len
      then decode_round tokenizer overlap use_byte_escapes
          (decode_from tokenizer byte_len overlap use_byte_escapes fuel) r
      else ok (record { bytes = r.bytes; symbols = r.symbols })

  unfoldable pub decode_bytes_with_model :
      Tokenizer → List ℕ → ℕ → ℕ → ℕ → Bool → Outcome CodecError DecodedBytes
  unfolding decode_from validate_window new
  decode_bytes_with_model tokenizer payload byte_len n_ctx overlap use_byte_escapes = do
    map_err window (validate_window n_ctx overlap model.context_length)
    dec ← map_err range (Decoder.new payload)
    s ← new floats model n_ctx use_byte_escapes
    decode_from tokenizer byte_len overlap use_byte_escapes byte_len
        (record { context = []; symbols = []; bytes = []; state = s; dec = dec })
