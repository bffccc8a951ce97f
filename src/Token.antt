-- ===== src/Token.antt =====
-- crates/det-token: the tokenizers and the symbols that the codec works on.
-- A string is the list of its UTF-8 bytes, a `BTreeMap` or an array over bytes is a function from
-- its keys.
pub mod Pieces
pub mod Metadata
pub mod Coverage
pub mod Fallback
pub mod Spelling
pub mod SentencePiece
pub mod Bpe
pub mod Codec
mod Tests
use detllm.Base.{ℕ, List}
use detllm.Gguf.Value.{ℤ}

pub data TokenError : Type 0 where
  missing_byte_fallback duplicate_byte_fallback : ℕ → TokenError
  invalid_token duplicate_token_id : ℕ → TokenError
  missing_vocabulary metadata_type token_type_length scores_length : TokenError
  non_finite_score token_index_overflow : TokenError
  missing_token_bytes missing_merge_token duplicate_token_bytes : List ℕ → TokenError
  incomplete_byte_fallback : List ℕ → TokenError
  invalid_merge duplicate_merge unsupported_tokenizer_model : List ℕ → TokenError
  invalid_token_type : ℤ → TokenError
