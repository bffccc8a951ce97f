-- ===== src/Token/SentencePiece.antt =====
-- crates/det-token/src/lib.rs: `SentencePieceTokenizer`.
-- A score is the bits of an `f32`; those that are looked at are finite.
pub mod Vocabulary
pub mod Total
use detllm.Base.{
  ℕ, zero, suc, ◌+◌, ◌-◌, ◌^◌, Bool, true, false, not, ◌&&◌, ◌||◌, Option, none, some, List, [],
  ◌∷◌, ltb, leb, ◌==◌, if◌then◌else◌, length, get_elem?, take, drop, Outcome, ok, err, stuck, ◌>>=◌,
  ◌>>◌, guard, ok_or, at_index, Map, no_keys, insert, num_eq, bytes_eq,
}
use detllm.Gguf.Parse.{Gguf}
use detllm.Token.{TokenError, missing_byte_fallback, scores_length, non_finite_score}
use detllm.Token.Pieces.{token_piece_bytes}
use detllm.Token.Metadata.{
  gguf_tokens, optional_gguf_emit_mask, optional_gguf_scores, token_is_emittable, all_finite,
}
use detllm.Token.Fallback.{ByteFallbackTokenizer, token_id}
use detllm.Token.Fallback
use detllm.Token.Spelling.{detokenize_with}

pub record SentencePieceTokenizer : Type 0 where
  pub byte_fallback : ByteFallbackTokenizer
  pub token_to_bytes : Map ℕ (List ℕ)
  pub pieces : Map (List ℕ) (ℕ × ℕ)
  pub max_piece_len : ℕ

-- `a > b` on finite `f32`: below `2 ^ 31` the bits are ordered as the numbers, from there on the
-- numbers are negative and ordered the other way, and there are two zeros.
unfoldable pub f32_gt : ℕ → ℕ → Bool
f32_gt a b =
    if ltb a (2 ^ 31)
    then (if ltb b (2 ^ 31) then ltb b a else not (a == 0 && b == 2 ^ 31))
    else ltb a b && leb (2 ^ 31) b

-- `score > best_score || (score.to_bits() == best_score.to_bits() && id < best_id)`.
unfoldable pub better : ℕ → ℕ → ℕ → ℕ → Bool
unfolding f32_gt
better id score best_id best_score =
    f32_gt score best_score || (score == best_score && ltb id best_id)

-- The match on `pieces.get(&bytes)`.
unfoldable pub enter_piece : List ℕ → ℕ → ℕ → Map (List ℕ) (ℕ × ℕ) → Map (List ℕ) (ℕ × ℕ)
unfolding better insert
enter_piece bytes id score pieces = elim (pieces bytes) [
  | none ↦ insert bytes (id, score) pieces
  | some (best_id, best_score) ↦
      if better id score best_id best_score then insert bytes (id, score) pieces else pieces
]

unfoldable pub max : ℕ → ℕ → ℕ
max a b = if leb a b then b else a

-- `scores.map(|s| s[idx]).unwrap_or(0.0)`.
unfoldable pub score_at : Option (List ℕ) → ℕ → Outcome TokenError ℕ
score_at none idx = ok 0
score_at (some scores) idx = at_index (get_elem? scores idx)

unfoldable pub add_tokens :
    Option (List ℕ)
    → Option (List Bool)
    → ℕ
    → List (List ℕ)
    → SentencePieceTokenizer
    → Outcome TokenError SentencePieceTokenizer
unfolding token_id token_piece_bytes score_at token_is_emittable max enter_piece insert
add_tokens scores emit_mask idx [] t = ok t
add_tokens scores emit_mask idx (token ∷ tokens) t = do
  id ← token_id idx
  score ← score_at scores idx
  let bytes = token_piece_bytes token
  let enters = ltb 1 (length bytes) && token_is_emittable emit_mask idx
  add_tokens scores emit_mask (suc idx) tokens record {
    byte_fallback = t.byte_fallback;
    token_to_bytes = insert id bytes t.token_to_bytes;
    pieces = if enters then enter_piece bytes id score t.pieces else t.pieces;
    max_piece_len = if enters then max t.max_piece_len (length bytes) else t.max_piece_len;
  }

-- The checks on the scores that are given.
unfoldable pub check_scores : Option (List ℕ) → ℕ → Outcome TokenError (Unit {0})
unfolding all_finite
check_scores none vocab_len = ok tt
check_scores (some scores) vocab_len = do
  guard (length scores == vocab_len) scores_length
  guard (all_finite scores) non_finite_score

unfoldable pub from_tokens_scores_and_emit_mask :
    List (List ℕ) → Option (List ℕ) → Option (List Bool) → Outcome TokenError SentencePieceTokenizer
unfolding check_scores Fallback.from_tokens_and_emit_mask add_tokens
from_tokens_scores_and_emit_mask tokens scores emit_mask = do
  check_scores scores (length tokens)
  byte_fallback ← Fallback.from_tokens_and_emit_mask tokens emit_mask
  add_tokens scores emit_mask 0 tokens record {
    byte_fallback = byte_fallback;
    token_to_bytes = no_keys;
    pieces = no_keys;
    max_piece_len = 1;
  }

unfoldable pub from_tokens_and_scores :
    List (List ℕ) → Option (List ℕ) → Outcome TokenError SentencePieceTokenizer
unfolding from_tokens_scores_and_emit_mask
from_tokens_and_scores tokens scores = from_tokens_scores_and_emit_mask tokens scores none

unfoldable pub from_gguf : Gguf → Outcome TokenError SentencePieceTokenizer
unfolding gguf_tokens optional_gguf_scores optional_gguf_emit_mask from_tokens_scores_and_emit_mask
from_gguf gguf = do
  tokens ← gguf_tokens gguf
  scores ← optional_gguf_scores gguf (length tokens)
  emit_mask ← optional_gguf_emit_mask gguf (length tokens)
  from_tokens_scores_and_emit_mask tokens scores emit_mask

-- The best piece so far: its length, token and score.
pub record Best : Type 0 where
  pub len : ℕ
  pub id : ℕ
  pub score : ℕ

-- The match on a piece that `pieces` has.
unfoldable pub improve : ℕ → ℕ × ℕ → Option Best → Option Best
unfolding better
improve len (id, score) none = some record { len = len; id = id; score = score }
improve len (id, score) (some best) =
    if ltb best.len len || (len == best.len && better id score best.id best.score)
    then some record { len = len; id = id; score = score }
    else some best

unfoldable pub consider : ℕ → Option (ℕ × ℕ) → Option Best → Option Best
unfolding improve
consider len none best = best
consider len (some entry) best = improve len entry best

-- The loop over `end`: `rounds` pieces are left, the next one has `len` bytes of `input[pos..]`.
unfoldable pub best_piece : Map (List ℕ) (ℕ × ℕ) → ℕ → ℕ → List ℕ → Option Best → Option Best
unfolding consider
best_piece pieces zero len input best = best
best_piece pieces (suc rounds) len input best =
    best_piece pieces rounds (suc len) input (consider len (pieces (take len input)) best)

unfoldable pub min : ℕ → ℕ → ℕ
min a b = if leb a b then a else b

-- The best piece, or the token of the first byte `b`; and how many bytes it takes.
unfoldable pub choose : SentencePieceTokenizer → ℕ → Option Best → Outcome TokenError (ℕ × ℕ)
choose t b (some best) = ok (best.id, best.len)
choose t b none = do
  token ← ok_or (t.byte_fallback.byte_to_token b) (missing_byte_fallback b)
  ok (token, 1)

-- One round, on the rest of the input, which begins with `b`.
unfoldable pub next_token : SentencePieceTokenizer → ℕ → List ℕ → Outcome TokenError (ℕ × ℕ)
unfolding best_piece min choose
next_token t b input =
    choose t b (best_piece t.pieces (min (length input) t.max_piece_len) 1 input none)

-- The loop over `pos`, on the rest `input[pos..]`.
unfoldable pub tokenize_from : SentencePieceTokenizer → ℕ → List ℕ → Outcome TokenError (List ℕ)
unfolding next_token
tokenize_from t fuel [] = ok []
tokenize_from t zero (b ∷ input) = stuck
tokenize_from t (suc fuel) (b ∷ input) = do
  (token, len) ← next_token t b (b ∷ input)
  rest ← tokenize_from t fuel (drop len (b ∷ input))
  ok (token ∷ rest)

-- Each round takes at least one byte, so that the length of the input is fuel enough.
unfoldable pub tokenize_bytes : SentencePieceTokenizer → List ℕ → Outcome TokenError (List ℕ)
unfolding tokenize_from
tokenize_bytes t input = tokenize_from t (length input) input

unfoldable pub detokenize_bytes : SentencePieceTokenizer → List ℕ → Outcome TokenError (List ℕ)
unfolding detokenize_with
detokenize_bytes t tokens = detokenize_with t.token_to_bytes tokens
