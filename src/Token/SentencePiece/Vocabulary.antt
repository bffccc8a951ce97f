-- ===== src/Token/SentencePiece/Vocabulary.antt =====
-- What the constructor of `SentencePieceTokenizer` enters is the vocabulary.
use detllm.Base.{
  ℕ, suc, ◌≤◌, ◌^◌, ◌≡◌, ◌∙◌, refl, sym, ap, subst, arith, Bool, true, false, ◌&&◌, Option, none,
  some, List, [], ◌∷◌, if◌then◌else◌, ltb, length, ok, >>=-eq-ok, ok-injective, Map, insert,
  insert-eq-some, bytes_eq, num_eq, no_keys, inl, inr,
}
use detllm.Token.Pieces.{token_piece_bytes}
use detllm.Token.Metadata.{token_is_emittable}
use detllm.Token.Fallback.{token_id, from_tokens_and_emit_mask}
use detllm.Token.Fallback.Vocabulary.{token_id-ok}
use detllm.Token.Spelling.{
  piece_at, Knows, Knows-insert, Knows-nothing, Knows-all, Left, Left-all, Left-next, Left-here,
  Left-none,
}
use detllm.Token.SentencePiece.{
  SentencePieceTokenizer, better, enter_piece, score_at, add_tokens, check_scores,
  from_tokens_scores_and_emit_mask,
}

-- An entry of `pieces` is a token with these bytes.
unfoldable pub Pieces : List (List ℕ) → Map (List ℕ) (ℕ × ℕ) → Type 0
Pieces tokens pieces =
    (bytes : List ℕ) (id score : ℕ)
    → pieces bytes ≡ some (id, score)
    → piece_at tokens id ≡ some bytes

pub insert-Pieces :
    (tokens : List (List ℕ)) (pieces : Map (List ℕ) (ℕ × ℕ)) (bytes : List ℕ) (id score : ℕ)
    → piece_at tokens id ≡ some bytes
    → Pieces tokens pieces
    → Pieces tokens (insert bytes (id, score) pieces)
unfolding Pieces
insert-Pieces tokens pieces bytes id score here h bytes' id' score' found =
    elim (insert-eq-some bytes (id, score) pieces found) [
      | inl (same, same') ↦
          let same_id : id ≡ id' = ap (λ (p : ℕ × ℕ). p.0) same' in rw (← same, ← same_id) here
      | inr (other, old) ↦ h bytes' id' score' old
    ]

either :
    (tokens : List (List ℕ)) (m m' : Map (List ℕ) (ℕ × ℕ)) (test : Bool)
    → Pieces tokens m
    → Pieces tokens m'
    → Pieces tokens (if test then m else m')
either tokens m m' true h h' = h
either tokens m m' false h h' = h'

enter_piece-Pieces :
    (tokens : List (List ℕ)) (pieces : Map (List ℕ) (ℕ × ℕ)) (bytes : List ℕ) (id score : ℕ)
    → piece_at tokens id ≡ some bytes
    → Pieces tokens pieces
    → Pieces tokens (enter_piece bytes id score pieces)
unfolding enter_piece
enter_piece-Pieces tokens pieces bytes id score here h =
    let entered = insert-Pieces tokens pieces bytes id score here h in
    elim (pieces bytes)
      as (λ o. Pieces tokens (elim o [
        | none ↦ insert bytes (id, score) pieces
        | some (best_id, best_score) ↦
            if better id score best_id best_score then insert bytes (id, score) pieces else pieces
      ])) [
        | none ↦ entered
        | some (best_id, best_score) ↦
            either tokens _ _ (better id score best_id best_score) entered h
      ]

-- What a finished tokenizer keeps of the vocabulary.
pub record Built (tokens : List (List ℕ)) (t : SentencePieceTokenizer) : Type 0 where
  pub whole : (id : ℕ) → t.token_to_bytes id ≡ piece_at tokens id
  pub pieces : Pieces tokens t.pieces
  pub small : length tokens ≤ 2 ^ 32

add_tokens-Built :
    (tokens : List (List ℕ)) (scores : Option (List ℕ)) (emit_mask : Option (List Bool)) (idx : ℕ)
    (rest : List (List ℕ)) (t : SentencePieceTokenizer) {t' : SentencePieceTokenizer}
    → Left tokens idx rest
    → idx ≤ 2 ^ 32
    → Knows tokens t.token_to_bytes idx
    → Pieces tokens t.pieces
    → add_tokens scores emit_mask idx rest t ≡ ok t'
    → Built tokens t' × (t'.byte_fallback ≡ t.byte_fallback)
unfolding add_tokens
add_tokens-Built tokens scores emit_mask idx [] t left small knows pieces run =
    let end = Left-none idx left in
    rw (← ok-injective run) (
      record {
        whole = Knows-all tokens t.token_to_bytes idx knows end;
        pieces = pieces;
        small = omega arith;
      },
      refl,
    )
add_tokens-Built tokens scores emit_mask idx (token ∷ rest) t left small knows pieces run =
    let (id, first, run') = >>=-eq-ok (token_id idx) _ run in
    let (score, second, run'') = >>=-eq-ok (score_at scores idx) _ run' in
    let (same, lt) = token_id-ok idx first in
    let bytes = token_piece_bytes token in
    let here : piece_at tokens id ≡ some bytes =
      subst (λ i. piece_at tokens i ≡ some bytes) same (Left-here idx left) in
    let knows' : Knows tokens (insert id bytes t.token_to_bytes) (suc idx) =
      subst (λ i. Knows tokens (insert i bytes t.token_to_bytes) (suc idx)) same
        (Knows-insert tokens t.token_to_bytes idx bytes (Left-here idx left) knows) in
    let enters = ltb 1 (length bytes) && token_is_emittable emit_mask idx in
    let pieces' =
      either tokens _ _ enters (enter_piece-Pieces tokens t.pieces bytes id score here pieces)
        pieces in
    add_tokens-Built tokens scores emit_mask (suc idx) rest _ (Left-next idx left) (omega arith)
      knows' pieces' run''

pub no_keys-Pieces : (tokens : List (List ℕ)) → Pieces tokens no_keys
unfolding Pieces
no_keys-Pieces tokens bytes id score found = cc

pub from_tokens-Built :
    (tokens : List (List ℕ)) (scores : Option (List ℕ)) (emit_mask : Option (List Bool))
    {t : SentencePieceTokenizer}
    → from_tokens_scores_and_emit_mask tokens scores emit_mask ≡ ok t
    → Built tokens t × (from_tokens_and_emit_mask tokens emit_mask ≡ ok t.byte_fallback)
unfolding from_tokens_scores_and_emit_mask
from_tokens-Built tokens scores emit_mask run =
    let (checked, first, run') = >>=-eq-ok (check_scores scores (length tokens)) _ run in
    let (fallback, second, run'') = >>=-eq-ok (from_tokens_and_emit_mask tokens emit_mask) _ run' in
    let (built, same) =
      add_tokens-Built tokens scores emit_mask 0 tokens _ (Left-all tokens) (omega arith)
        (Knows-nothing tokens) (no_keys-Pieces tokens) run'' in
    (built, second ∙ sym (ap ok same))
