-- ===== src/Token/Tests.antt =====
-- The tokenizers at concrete inputs.
use detllm.Base.{
  ℕ, ◌+◌, ◌<◌, ◌≡◌, ◌↔◌, refl, arith, false, none, some, List, [], ◌∷◌, ◌++◌, All, is_empty, ok,
  Map, no_keys, insert, same_bytes, num_eq, bytes_eq, pair_eq,
}
use detllm.Gguf.Value.{string_value, array_string}
use detllm.Gguf.Parse.{Gguf, metadata_value, get}
use detllm.Token.Pieces.{
  codes, gpt2_char_to_byte, parse_merge, token_piece_bytes, canonical_byte_fallback_token,
}
use detllm.Token.Pieces.Unicode.{byte_to_unicode, gpt2_char_to_byte_iff}
use detllm.Token.Pieces.Merges.{NotSpace, parse_merge_iff}
use detllm.Token.Metadata.{gguf_tokens}
use detllm.Token.Fallback.{ByteFallbackTokenizer, new}
use detllm.Token.Fallback.RoundTrip.{new_iff}
use detllm.Token.Spelling.{piece_at, Spells, Covers}
use detllm.Token.SentencePiece.{SentencePieceTokenizer}
use detllm.Token.SentencePiece
use detllm.Token.SentencePiece.Vocabulary.{insert-Pieces, no_keys-Pieces}
use detllm.Token.SentencePiece.Total
use detllm.Token.Bpe.{ByteBpeTokenizer, from_tokens_merges_and_emit_mask}
use detllm.Token.Bpe.Vocabulary.{from_tokens-Built}
use detllm.Token.Bpe.Merge
use detllm.Token.Bpe.Start
use detllm.Token.Codec.{byte_bpe, from_gguf, codec_symbols}
use detllm.Token.Codec.RoundTrip.{decode_symbols, decode-codec_symbols}

gpt2_char_to_byte_iff_example :
    (gpt2_char_to_byte 288 ≡ some 32) ↔ ((byte_to_unicode 32 ≡ 288) × (32 < 256))
gpt2_char_to_byte_iff_example = gpt2_char_to_byte_iff 288 32

parse_merge_iff_example : (parse_merge (codes "a b") ≡ ok (codes "a", codes "b")) ↔ (
    (codes "a b" ≡ codes "a" ++ b' ' ∷ codes "b")
    × (is_empty (codes "a") ≡ false)
    × (is_empty (codes "b") ≡ false)
    × All NotSpace (codes "a")
    × All NotSpace (codes "b"))
parse_merge_iff_example = parse_merge_iff (codes "a b") (codes "a") (codes "b")

abbrev vocabulary : List (List ℕ)
vocabulary = codes "a" ∷ codes "b" ∷ codes "ab" ∷ []

-- A signed digit is read as a byte.
signed_byte : canonical_byte_fallback_token (codes "<0x+5>") ≡ some 5
unfolding canonical_byte_fallback_token
signed_byte = refl

hex_token : canonical_byte_fallback_token (codes "<0xaF>") ≡ some 175
unfolding canonical_byte_fallback_token
hex_token = refl

-- The letter for a space in the vocabulary of GPT-2, and the one in that of SentencePiece.
space_tokens :
    (token_piece_bytes (196 ∷ 160 ∷ b'a' ∷ []) ≡ codes " a")
    × (token_piece_bytes (226 ∷ 150 ∷ 129 ∷ b'a' ∷ []) ≡ codes " a")
unfolding token_piece_bytes
space_tokens = (refl, refl)

abbrev two_bytes : ByteFallbackTokenizer
two_bytes = record {
  byte_to_token = insert 98 1 (insert 97 0 no_keys);
  token_to_byte = insert 1 98 (insert 0 97 no_keys);
}

new_two : new ((97, 0) ∷ (98, 1) ∷ []) ≡ ok two_bytes
unfolding new
new_two = refl

new_iff_example : (two_bytes.byte_to_token 98 ≡ some 1) ↔ (two_bytes.token_to_byte 1 ≡ some 98)
new_iff_example = new_iff ((97, 0) ∷ (98, 1) ∷ []) {t = two_bytes} new_two 98 1

abbrev model_file : Gguf
model_file = record {
  version = 3;
  metadata =
      (codes "tokenizer.ggml.tokens", array_string vocabulary)
      ∷ (codes "tokenizer.ggml.merges", array_string (codes "a b" ∷ []))
      ∷ (codes "tokenizer.ggml.model", string_value (codes "gpt2"))
      ∷ [];
  tensors = [];
  data_offset = 0;
  file_len = 0;
}

abbrev bpe : ByteBpeTokenizer
bpe = record {
  byte_to_token = insert 98 1 (insert 97 0 no_keys);
  token_to_bytes = insert 2 (codes "ab") (insert 1 (codes "b") (insert 0 (codes "a") no_keys));
  merge_ranks = insert (0, 1) (0, 2) no_keys;
}

vocabulary_of_file : gguf_tokens model_file ≡ ok vocabulary
unfolding gguf_tokens metadata_value get same_bytes
vocabulary_of_file = refl

tokenizer_of_file : from_gguf model_file ≡ ok (byte_bpe bpe)
unfolding from_gguf metadata_value get same_bytes
tokenizer_of_file = refl

-- `c` has no token.
decode-codec_symbols_example :
    (symbols : List ℕ) × (codec_symbols (byte_bpe bpe) (codes "cab") 3 ≡ ok symbols)
    × All (λ symbol. symbol < 3 + 256) symbols
    × (decode_symbols (byte_bpe bpe) 3 symbols ≡ ok (codes "cab"))
decode-codec_symbols_example =
    decode-codec_symbols model_file vocabulary (byte_bpe bpe) 3 (codes "cab") vocabulary_of_file
      tokenizer_of_file (omega arith) (omega arith) (omega arith, (omega arith, (omega arith, tt)))

symbols_of_cab : codec_symbols (byte_bpe bpe) (codes "cab") 3 ≡ ok (102 ∷ 2 ∷ [])
unfolding codec_symbols insert
symbols_of_cab = refl

bpe_built : from_tokens_merges_and_emit_mask vocabulary (codes "a b" ∷ []) none ≡ ok bpe
unfolding from_tokens_merges_and_emit_mask same_bytes
bpe_built = refl

-- Every byte of `abab` has its token.
covered : (m : Map ℕ ℕ) → m 97 ≡ some 0 → m 98 ≡ some 1 → All (Covers vocabulary m) (codes "abab")
unfolding Covers piece_at
covered m a b = ((0, a, refl), ((1, b, refl), ((0, a, refl), ((1, b, refl), tt))))

first_of : bpe.byte_to_token 97 ≡ some 0
unfolding insert
first_of = refl

second_of : bpe.byte_to_token 98 ≡ some 1
unfolding insert
second_of = refl

merging-Spells_example :
    (ids : List ℕ) × (Merge.tokenize_bytes bpe (codes "abab") ≡ ok ids)
    × Spells (piece_at vocabulary) ids (codes "abab")
merging-Spells_example =
    Start.merging-Spells vocabulary bpe (codes "abab")
      (from_tokens-Built vocabulary (codes "a b" ∷ []) none {t = bpe} bpe_built).rules
      (covered bpe.byte_to_token first_of second_of)

abbrev pieces : SentencePieceTokenizer
pieces = record {
  byte_fallback = two_bytes;
  token_to_bytes = bpe.token_to_bytes;
  pieces = insert (codes "ab") (2, 0) no_keys;
  max_piece_len = 2;
}

ab_piece : piece_at vocabulary 2 ≡ some (codes "ab")
unfolding piece_at
ab_piece = refl

longest-Spells_example :
    (ids : List ℕ) × (SentencePiece.tokenize_bytes pieces (codes "abab") ≡ ok ids)
    × Spells (piece_at vocabulary) ids (codes "abab")
longest-Spells_example =
    Total.longest-Spells vocabulary pieces (codes "abab")
      (insert-Pieces vocabulary no_keys (codes "ab") 2 0 ab_piece (no_keys-Pieces vocabulary))
      (covered bpe.byte_to_token first_of second_of)

merged_ab : Merge.tokenize_bytes bpe (codes "abba") ≡ ok (2 ∷ 1 ∷ 0 ∷ [])
unfolding Merge.tokenize_bytes insert
merged_ab = refl

longest_ab : SentencePiece.tokenize_bytes pieces (codes "abba") ≡ ok (2 ∷ 1 ∷ 0 ∷ [])
unfolding SentencePiece.tokenize_bytes insert same_bytes
longest_ab = refl
