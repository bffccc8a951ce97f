-- ===== src/Token/Codec.antt =====
-- crates/det-token/src/lib.rs: `Tokenizer`, and the symbols of the codec: a token of the vocabulary,
-- or behind the vocabulary one of the 256 bytes.
pub mod Kinds
pub mod Build
pub mod RoundTrip
use detllm.Base.{
  ℕ, zero, suc, ◌+◌, ◌-◌, ◌%◌, ◌^◌, Bool, true, false, not, ◌||◌, Option, none, some, List, [], ◌∷◌,
  ◌++◌, map, ltb, if◌then◌else◌, length, is_empty, Outcome, ok, err, stuck, ◌>>=◌, is_some,
  same_bytes, add64, map_err,
}
use detllm.Gguf.Parse.{Gguf}
use detllm.Token.{TokenError, unsupported_tokenizer_model, token_index_overflow, invalid_token}
use detllm.Token.Pieces.{codes}
use detllm.Token.Metadata.{
  gguf_tokens, optional_gguf_emit_mask, optional_gguf_merges, optional_gguf_model,
  optional_gguf_scores, has_gguf_scores,
}
use detllm.Token.Fallback.{ByteFallbackTokenizer}
use detllm.Token.Fallback
use detllm.Token.Bpe.{ByteBpeTokenizer}
use detllm.Token.Bpe
use detllm.Token.Bpe.Merge
use detllm.Token.SentencePiece.{SentencePieceTokenizer}
use detllm.Token.SentencePiece

pub data Tokenizer : Type 0 where
  byte_fallback : ByteFallbackTokenizer → Tokenizer
  byte_bpe : ByteBpeTokenizer → Tokenizer
  sentence_piece : SentencePieceTokenizer → Tokenizer

pub data CodecSymbol : Type 0 where
  token byte_escape : ℕ → CodecSymbol

-- `.map(Self::ByteBpe)`.
abbrev pub of_kind {ℓ} :
    {T : Type ℓ} → (T → Tokenizer) → Outcome TokenError T → Outcome TokenError Tokenizer
of_kind kind result = do t ← result; ok (kind t)

unfoldable pub build_bpe :
    List (List ℕ) → List (List ℕ) → Option (List Bool) → Outcome TokenError Tokenizer
unfolding Bpe.from_tokens_merges_and_emit_mask
build_bpe tokens merges emit_mask =
    of_kind byte_bpe (Bpe.from_tokens_merges_and_emit_mask tokens merges emit_mask)

unfoldable pub build_sentence_piece :
    Gguf → List (List ℕ) → Option (List Bool) → Outcome TokenError Tokenizer
unfolding optional_gguf_scores SentencePiece.from_tokens_scores_and_emit_mask
build_sentence_piece gguf tokens emit_mask = do
  scores ← optional_gguf_scores gguf (length tokens)
  of_kind sentence_piece (SentencePiece.from_tokens_scores_and_emit_mask tokens scores emit_mask)

unfoldable pub build_fallback : List (List ℕ) → Option (List Bool) → Outcome TokenError Tokenizer
unfolding Fallback.from_tokens_and_emit_mask
build_fallback tokens emit_mask =
    of_kind byte_fallback (Fallback.from_tokens_and_emit_mask tokens emit_mask)

-- A model file that names a model.
unfoldable pub build_named :
    Gguf
    → List (List ℕ)
    → Option (List Bool)
    → List (List ℕ)
    → List ℕ
    → Outcome TokenError Tokenizer
unfolding build_bpe build_sentence_piece
build_named gguf tokens emit_mask merges model =
    if same_bytes model (codes "gpt2")
    then build_bpe tokens merges emit_mask
    else if same_bytes model (codes "llama")
        || same_bytes model (codes "spm")
        || same_bytes model (codes "sentencepiece")
    then build_sentence_piece gguf tokens emit_mask
    else err (unsupported_tokenizer_model model)

unfoldable pub build_scored :
    Gguf → List (List ℕ) → Option (List Bool) → Outcome TokenError Tokenizer
unfolding has_gguf_scores build_sentence_piece build_fallback
build_scored gguf tokens emit_mask = do
  scored ← has_gguf_scores gguf
  if scored then build_sentence_piece gguf tokens emit_mask else build_fallback tokens emit_mask

-- The match on the model: without merges, no list of them and an empty one are the same here.
unfoldable pub build :
    Gguf
    → List (List ℕ)
    → Option (List Bool)
    → List (List ℕ)
    → Option (List ℕ)
    → Outcome TokenError Tokenizer
unfolding build_named build_bpe build_scored
build gguf tokens emit_mask merges (some model) = build_named gguf tokens emit_mask merges model
build gguf tokens emit_mask merges none =
    if is_empty merges
    then build_scored gguf tokens emit_mask
    else build_bpe tokens merges emit_mask

-- `unwrap_or(empty_merges)`.
abbrev pub merges_or_empty : Option (List (List ℕ)) → List (List ℕ)
merges_or_empty none = []
merges_or_empty (some merges) = merges

unfoldable pub from_gguf : Gguf → Outcome TokenError Tokenizer
unfolding gguf_tokens optional_gguf_emit_mask optional_gguf_merges optional_gguf_model build
from_gguf gguf = do
  tokens ← gguf_tokens gguf
  emit_mask ← optional_gguf_emit_mask gguf (length tokens)
  merges ← optional_gguf_merges gguf
  model ← optional_gguf_model gguf
  build gguf tokens emit_mask (merges_or_empty merges) model

unfoldable pub tokenize_bytes : Tokenizer → List ℕ → Outcome TokenError (List ℕ)
unfolding Fallback.tokenize_bytes Bpe.Merge.tokenize_bytes SentencePiece.tokenize_bytes
tokenize_bytes (byte_fallback t) input = Fallback.tokenize_bytes t input
tokenize_bytes (byte_bpe t) input = Bpe.Merge.tokenize_bytes t input
tokenize_bytes (sentence_piece t) input = SentencePiece.tokenize_bytes t input

unfoldable pub detokenize_bytes : Tokenizer → List ℕ → Outcome TokenError (List ℕ)
unfolding Fallback.detokenize_bytes Bpe.detokenize_bytes SentencePiece.detokenize_bytes
detokenize_bytes (byte_fallback t) tokens = Fallback.detokenize_bytes t tokens
detokenize_bytes (byte_bpe t) tokens = Bpe.detokenize_bytes t tokens
detokenize_bytes (sentence_piece t) tokens = SentencePiece.detokenize_bytes t tokens

unfoldable pub has_single_byte_token : Tokenizer → ℕ → Bool
has_single_byte_token (byte_fallback t) byte = is_some (t.byte_to_token byte)
has_single_byte_token (byte_bpe t) byte = is_some (t.byte_to_token byte)
has_single_byte_token (sentence_piece t) byte = is_some (t.byte_fallback.byte_to_token byte)

-- The inner loop over `pos`: the bytes in front that have tokens, and the rest.
unfoldable pub take_run : Tokenizer → List ℕ → List ℕ × List ℕ
unfolding has_single_byte_token
take_run t [] = ([], [])
take_run t (b ∷ input) =
    let (run, rest) = take_run t input in
    if has_single_byte_token t b then (b ∷ run, rest) else ([], b ∷ input)

-- The outer loop over `pos`, on the rest `input[pos..]`: one round at the byte `b`, where `next` is
-- the rest of the loop.
unfoldable pub stream_round :
    Tokenizer
    → (List ℕ → Outcome TokenError (List CodecSymbol))
    → ℕ
    → List ℕ
    → Outcome TokenError (List CodecSymbol)
unfolding has_single_byte_token take_run tokenize_bytes
stream_round t next b input =
    if not (has_single_byte_token t b)
    then (do rest ← next input; ok (byte_escape b ∷ rest))
    else (do
      tokens ← tokenize_bytes t (b ∷ (take_run t input).0)
      rest ← next (take_run t input).1
      ok (map token tokens ++ rest))

unfoldable pub stream_from : Tokenizer → ℕ → List ℕ → Outcome TokenError (List CodecSymbol)
unfolding stream_round
stream_from t fuel [] = ok []
stream_from t zero (b ∷ input) = stuck
stream_from t (suc fuel) (b ∷ input) = stream_round t (stream_from t fuel) b input

-- Each round takes at least one byte, so that the length of the input is fuel enough.
unfoldable pub codec_symbol_stream : Tokenizer → List ℕ → Outcome TokenError (List CodecSymbol)
unfolding stream_from
codec_symbol_stream t input = stream_from t (length input) input

unfoldable pub symbol_number : ℕ → CodecSymbol → Outcome TokenError ℕ
symbol_number vocab_len (token id) = ok id
symbol_number vocab_len (byte_escape byte) = add64 vocab_len byte

unfoldable pub symbol_numbers : ℕ → List CodecSymbol → Outcome TokenError (List ℕ)
unfolding symbol_number
symbol_numbers vocab_len [] = ok []
symbol_numbers vocab_len (symbol ∷ symbols) = do
  number ← symbol_number vocab_len symbol
  numbers ← symbol_numbers vocab_len symbols
  ok (number ∷ numbers)

unfoldable pub codec_symbols : Tokenizer → List ℕ → ℕ → Outcome TokenError (List ℕ)
unfolding codec_symbol_stream symbol_numbers
codec_symbols t input vocab_len = do
  symbols ← codec_symbol_stream t input
  symbol_numbers vocab_len symbols

unfoldable pub codec_symbol_is_token : ℕ → ℕ → Bool
codec_symbol_is_token symbol vocab_len = ltb symbol vocab_len

unfoldable pub decode_codec_symbol : Tokenizer → ℕ → ℕ → Outcome TokenError (List ℕ)
unfolding Fallback.token_id detokenize_bytes
decode_codec_symbol t symbol vocab_len =
    if ltb symbol vocab_len
    then (do id ← Fallback.token_id symbol; detokenize_bytes t (id ∷ []))
    else (do
      limit ← add64 vocab_len 256
      if ltb symbol limit
          then ok ((symbol - vocab_len) % 256 ∷ [])
          else err (invalid_token (if ltb symbol (2 ^ 32) then symbol else 2 ^ 32 - 1)))
