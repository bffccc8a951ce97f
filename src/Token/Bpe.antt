-- ===== src/Token/Bpe.antt =====
-- crates/det-token/src/lib.rs: `ByteBpeTokenizer`, how it is built.
pub mod Merge
pub mod Entering
pub mod Vocabulary
pub mod Chain
pub mod Join
pub mod Push
pub mod Step
pub mod Total
pub mod First
pub mod Start
use detllm.Base.{
  ℕ, zero, suc, ◌+◌, ◌^◌, Bool, true, false, not, Option, none, some, List, [], ◌∷◌, ◌++◌,
  if◌then◌else◌, length, Outcome, ok, err, ◌>>=◌, ◌>>◌, guard, ok_or, Map, no_keys, insert, is_some,
  num_eq, bytes_eq, pair_eq,
}
use detllm.Gguf.Parse.{Gguf}
use detllm.Token.{
  TokenError, duplicate_byte_fallback, duplicate_token_bytes, missing_token_bytes,
  missing_merge_token, duplicate_merge, missing_vocabulary,
}
use detllm.Token.Pieces.{token_piece_bytes, parse_merge}
use detllm.Token.Metadata.{
  gguf_tokens, optional_gguf_merges, optional_gguf_emit_mask, token_is_emittable,
}
use detllm.Token.Fallback.{token_id}
use detllm.Token.Spelling.{detokenize_with}

-- The rule for a pair of tokens is its rank and the token that they become.
pub record ByteBpeTokenizer : Type 0 where
  pub byte_to_token : Map ℕ ℕ
  pub token_to_bytes : Map ℕ (List ℕ)
  pub merge_ranks : Map (ℕ × ℕ) (ℕ × ℕ)

-- The maps that the first loop fills.
pub record Entered : Type 0 where
  pub byte_to_token : Map ℕ ℕ
  pub token_to_bytes : Map ℕ (List ℕ)
  pub bytes_to_token : Map (List ℕ) ℕ

-- `if let [byte] = bytes.as_slice()`.
unfoldable pub enter_byte : List ℕ → ℕ → Map ℕ ℕ → Outcome TokenError (Map ℕ ℕ)
unfolding insert
enter_byte (byte ∷ []) id byte_to_token = do
  guard (not (is_some (byte_to_token byte))) (duplicate_byte_fallback byte)
  ok (insert byte id byte_to_token)
enter_byte bytes id byte_to_token = ok byte_to_token

-- One token, where `emits` is what the mask says of it.
unfoldable pub enter_token : Bool → List ℕ → ℕ → Entered → Outcome TokenError Entered
unfolding enter_byte insert
enter_token false bytes id e = ok record {
  byte_to_token = e.byte_to_token;
  token_to_bytes = insert id bytes e.token_to_bytes;
  bytes_to_token = e.bytes_to_token;
}
enter_token true bytes id e = do
  byte_to_token ← enter_byte bytes id e.byte_to_token
  guard (not (is_some (e.bytes_to_token bytes))) (duplicate_token_bytes bytes)
  ok record {
    byte_to_token = byte_to_token;
    token_to_bytes = insert id bytes e.token_to_bytes;
    bytes_to_token = insert bytes id e.bytes_to_token;
  }

unfoldable pub enter_tokens :
    Option (List Bool) → ℕ → List (List ℕ) → Entered → Outcome TokenError Entered
unfolding token_id token_is_emittable token_piece_bytes enter_token
enter_tokens emit_mask idx [] e = ok e
enter_tokens emit_mask idx (token ∷ tokens) e = do
  id ← token_id idx
  e' ← enter_token (token_is_emittable emit_mask idx) (token_piece_bytes token) id e
  enter_tokens emit_mask (suc idx) tokens e'

-- `let Some(&id) = ... else`: without a mask a missing token is an error, with one the rule is
-- passed over.
unfoldable pub or_skip {ℓ} :
    {A : Type ℓ}
    → Bool
    → TokenError
    → Option ℕ
    → (ℕ → Outcome TokenError (Option A))
    → Outcome TokenError (Option A)
or_skip masked e (some id) next = next id
or_skip true e none next = ok none
or_skip false e none next = err e

-- The tokens of a rule: the pair and what it becomes.
unfoldable pub find_rule :
    Bool → Map (List ℕ) ℕ → List ℕ → List ℕ → Outcome TokenError (Option ((ℕ × ℕ) × ℕ))
unfolding or_skip
find_rule masked bytes_to_token left_bytes right_bytes =
    or_skip masked (missing_token_bytes left_bytes) (bytes_to_token left_bytes) λ left_id.
      or_skip masked (missing_token_bytes right_bytes) (bytes_to_token right_bytes) λ right_id.
        or_skip masked (missing_merge_token (left_bytes ++ right_bytes))
          (bytes_to_token (left_bytes ++ right_bytes))
          λ merged_id. ok (some ((left_id, right_id), merged_id))

unfoldable pub add_rule :
    List ℕ
    → ℕ
    → Option ((ℕ × ℕ) × ℕ)
    → Map (ℕ × ℕ) (ℕ × ℕ)
    → Outcome TokenError (Map (ℕ × ℕ) (ℕ × ℕ))
unfolding insert
add_rule merge rank none merge_ranks = ok merge_ranks
add_rule merge rank (some (pair, merged_id)) merge_ranks = do
  guard (not (is_some (merge_ranks pair))) (duplicate_merge merge)
  ok (insert pair (rank, merged_id) merge_ranks)

-- The second loop.
unfoldable pub add_merges :
    Bool
    → Map (List ℕ) ℕ
    → ℕ
    → List (List ℕ)
    → Map (ℕ × ℕ) (ℕ × ℕ)
    → Outcome TokenError (Map (ℕ × ℕ) (ℕ × ℕ))
unfolding parse_merge token_piece_bytes find_rule add_rule
add_merges masked bytes_to_token rank [] merge_ranks = ok merge_ranks
add_merges masked bytes_to_token rank (merge ∷ merges) merge_ranks = do
  (left, right) ← parse_merge merge
  rule ← find_rule masked bytes_to_token (token_piece_bytes left) (token_piece_bytes right)
  merge_ranks' ← add_rule merge rank rule merge_ranks
  add_merges masked bytes_to_token (suc rank) merges merge_ranks'

unfoldable pub from_tokens_merges_and_emit_mask :
    List (List ℕ) → List (List ℕ) → Option (List Bool) → Outcome TokenError ByteBpeTokenizer
unfolding enter_tokens add_merges
from_tokens_merges_and_emit_mask tokens merges emit_mask = do
  e ←
      enter_tokens emit_mask 0 tokens
        record { byte_to_token = no_keys; token_to_bytes = no_keys; bytes_to_token = no_keys }
  merge_ranks ← add_merges (is_some emit_mask) e.bytes_to_token 0 merges no_keys
  ok record {
    byte_to_token = e.byte_to_token;
    token_to_bytes = e.token_to_bytes;
    merge_ranks = merge_ranks;
  }

unfoldable pub from_tokens_and_merges :
    List (List ℕ) → List (List ℕ) → Outcome TokenError ByteBpeTokenizer
unfolding from_tokens_merges_and_emit_mask
from_tokens_and_merges tokens merges = from_tokens_merges_and_emit_mask tokens merges none

unfoldable pub from_gguf : Gguf → Outcome TokenError ByteBpeTokenizer
unfolding gguf_tokens optional_gguf_merges optional_gguf_emit_mask from_tokens_merges_and_emit_mask
from_gguf gguf = do
  tokens ← gguf_tokens gguf
  given ← optional_gguf_merges gguf
  merges ← ok_or given missing_vocabulary
  emit_mask ← optional_gguf_emit_mask gguf (length tokens)
  from_tokens_merges_and_emit_mask tokens merges emit_mask

unfoldable pub detokenize_bytes : ByteBpeTokenizer → List ℕ → Outcome TokenError (List ℕ)
unfolding detokenize_with
detokenize_bytes t tokens = detokenize_with t.token_to_bytes tokens
