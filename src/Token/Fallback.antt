-- ===== src/Token/Fallback.antt =====
-- crates/det-token/src/lib.rs: `ByteFallbackTokenizer`, one token for each byte.
-- A token id is a `u32`, so that `usize::try_from` of it does not fail.
pub mod RoundTrip
pub mod Vocabulary
use detllm.Base.{
  ℕ, suc, ◌^◌, Bool, ◌||◌, Option, none, some, List, [], ◌∷◌, ◌++◌, ltb, leb, ◌==◌, if◌then◌else◌,
  not, length, is_empty, Outcome, ok, err, ◌>>=◌, ◌>>◌, guard, ok_or, Map, no_keys, insert, is_some,
  num_eq, false,
}
use detllm.Gguf.Parse.{Gguf}
use detllm.Token.{
  TokenError, missing_byte_fallback, duplicate_byte_fallback, invalid_token, duplicate_token_id,
  token_index_overflow, incomplete_byte_fallback,
}
use detllm.Token.Pieces.{canonical_byte_fallback_token}
use detllm.Token.Metadata.{gguf_tokens, optional_gguf_emit_mask, token_is_emittable}
use detllm.Token.Coverage.{missing_byte_pairs}

pub record ByteFallbackTokenizer : Type 0 where
  pub byte_to_token : Map ℕ ℕ
  pub token_to_byte : Map ℕ ℕ

abbrev pub no_tokens : ByteFallbackTokenizer
no_tokens = record { byte_to_token = no_keys; token_to_byte = no_keys }

-- The loop of `new`.
unfoldable pub add_pairs :
    List (ℕ × ℕ) → ByteFallbackTokenizer → Outcome TokenError ByteFallbackTokenizer
unfolding insert
add_pairs [] t = ok t
add_pairs ((byte, token) ∷ pairs) t = do
  guard (not (is_some (t.byte_to_token byte))) (duplicate_byte_fallback byte)
  guard (not (is_some (t.token_to_byte token))) (duplicate_token_id token)
  add_pairs pairs record {
    byte_to_token = insert byte token t.byte_to_token;
    token_to_byte = insert token byte t.token_to_byte;
  }

unfoldable pub new : List (ℕ × ℕ) → Outcome TokenError ByteFallbackTokenizer
unfolding add_pairs
new pairs = add_pairs pairs no_tokens

-- `pairs.iter().any(|&(existing, _)| existing == byte)`.
unfoldable pub any_byte : ℕ → List (ℕ × ℕ) → Bool
any_byte byte [] = false
any_byte byte ((existing, token) ∷ pairs) = existing == byte || any_byte byte pairs

-- `u32::try_from(idx)`.
unfoldable pub token_id : ℕ → Outcome TokenError ℕ
token_id idx = if ltb idx (2 ^ 32) then ok idx else err token_index_overflow

unfoldable pub push_pair : Option ℕ → ℕ → List (ℕ × ℕ) → Outcome TokenError (List (ℕ × ℕ))
unfolding token_id any_byte
push_pair none idx pairs = ok pairs
push_pair (some byte) idx pairs = do
  id ← token_id idx
  guard (not (any_byte byte pairs)) (duplicate_byte_fallback byte)
  ok (pairs ++ (byte, id) ∷ [])

-- The loop that collects the pairs.
unfoldable pub byte_pairs : ℕ → List (List ℕ) → List (ℕ × ℕ) → Outcome TokenError (List (ℕ × ℕ))
unfolding push_pair canonical_byte_fallback_token
byte_pairs idx [] pairs = ok pairs
byte_pairs idx (token ∷ tokens) pairs = do
  pairs' ← push_pair (canonical_byte_fallback_token token) idx pairs
  byte_pairs (suc idx) tokens pairs'

-- The loop of `from_pairs_and_emit_mask`, where `vocab_len` is `tokens.len()`.
unfoldable pub add_emittable :
    ℕ
    → Option (List Bool)
    → List (ℕ × ℕ)
    → ByteFallbackTokenizer
    → Outcome TokenError ByteFallbackTokenizer
unfolding insert token_is_emittable
add_emittable vocab_len emit_mask [] t = ok t
add_emittable vocab_len emit_mask ((byte, token) ∷ pairs) t = do
  guard (not (is_some (t.token_to_byte token))) (duplicate_token_id token)
  guard (not (leb vocab_len token)) (invalid_token token)
  add_emittable vocab_len emit_mask pairs record {
    byte_to_token =
        if token_is_emittable emit_mask token
        then insert byte token t.byte_to_token
        else t.byte_to_token;
    token_to_byte = insert token byte t.token_to_byte;
  }

unfoldable pub from_pairs_and_emit_mask :
    List (ℕ × ℕ) → List (List ℕ) → Option (List Bool) → Outcome TokenError ByteFallbackTokenizer
unfolding add_emittable
from_pairs_and_emit_mask pairs tokens emit_mask =
    add_emittable (length tokens) emit_mask pairs no_tokens

unfoldable pub from_tokens_and_emit_mask :
    List (List ℕ) → Option (List Bool) → Outcome TokenError ByteFallbackTokenizer
unfolding byte_pairs missing_byte_pairs from_pairs_and_emit_mask
from_tokens_and_emit_mask tokens emit_mask = do
  pairs ← byte_pairs 0 tokens []
  guard (is_empty (missing_byte_pairs pairs)) (incomplete_byte_fallback (missing_byte_pairs pairs))
  from_pairs_and_emit_mask pairs tokens emit_mask

unfoldable pub from_tokens : List (List ℕ) → Outcome TokenError ByteFallbackTokenizer
unfolding from_tokens_and_emit_mask
from_tokens tokens = from_tokens_and_emit_mask tokens none

unfoldable pub from_gguf : Gguf → Outcome TokenError ByteFallbackTokenizer
unfolding gguf_tokens optional_gguf_emit_mask from_tokens_and_emit_mask
from_gguf gguf = do
  tokens ← gguf_tokens gguf
  emit_mask ← optional_gguf_emit_mask gguf (length tokens)
  from_tokens_and_emit_mask tokens emit_mask

-- The tokens of single bytes: `tokenize_bytes`, and the first loop of the one of `ByteBpeTokenizer`.
unfoldable pub byte_ids : Map ℕ ℕ → List ℕ → Outcome TokenError (List ℕ)
byte_ids byte_to_token [] = ok []
byte_ids byte_to_token (b ∷ input) = do
  token ← ok_or (byte_to_token b) (missing_byte_fallback b)
  rest ← byte_ids byte_to_token input
  ok (token ∷ rest)

unfoldable pub tokenize_bytes : ByteFallbackTokenizer → List ℕ → Outcome TokenError (List ℕ)
unfolding byte_ids
tokenize_bytes t input = byte_ids t.byte_to_token input

unfoldable pub detokenize_bytes : ByteFallbackTokenizer → List ℕ → Outcome TokenError (List ℕ)
detokenize_bytes t [] = ok []
detokenize_bytes t (token ∷ tokens) = do
  b ← ok_or (t.token_to_byte token) (invalid_token token)
  rest ← detokenize_bytes t tokens
  ok (b ∷ rest)
