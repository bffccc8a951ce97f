-- ===== src/Token/Fallback/Vocabulary.antt =====
-- The byte of a fallback token is the text of that token in the vocabulary.
use detllm.Base.{
  ℕ, suc, ◌<◌, ◌^◌, ◌≡◌, ◌∙◌, refl, ap, Bool, not, Option, none, some, subst, List, [], ◌∷◌, ◌++◌,
  All, length, ok, ltb, ltb→lt, is_some, insert, insert-eq-some, guard-eq-ok, >>=-eq-ok, if-eq-ok,
  ok-injective, num_eq, is_empty, leb, inl, inr,
}
use detllm.Token.Pieces.{canonical_byte_fallback_token, token_piece_bytes}
use detllm.Token.Coverage.{missing_byte_pairs}
use detllm.Token.Spelling.{piece_at, Left, Left-all, Left-next, Left-here}
use detllm.Token.Fallback.{
  ByteFallbackTokenizer, no_tokens, any_byte, token_id, push_pair, byte_pairs, add_emittable,
  from_tokens_and_emit_mask,
}

pub token_id-ok : (idx : ℕ) {id : ℕ} → token_id idx ≡ ok id → (idx ≡ id) × (idx < 2 ^ 32)
unfolding token_id
token_id-ok idx h =
    let (small, same) = if-eq-ok (ltb idx (2 ^ 32)) idx _ h in (same, ltb→lt idx (2 ^ 32) small)

-- The pair's token is the one of the vocabulary that stands for the pair's byte.
unfoldable pub Stands : List (List ℕ) → ℕ × ℕ → Type 0
Stands tokens (byte, id) = (piece_at tokens id ≡ some (byte ∷ [])) × (id < 2 ^ 32)

All-snoc :
    {A : Type 0} (P : A → Type 0) (xs : List A) {a : A} → All P xs → P a → All P (xs ++ a ∷ [])
All-snoc P [] h p = (p, tt)
All-snoc P (x ∷ xs) h p = (h.0, All-snoc P xs h.1 p)

canonical-piece :
    (token : List ℕ) {byte : ℕ}
    → canonical_byte_fallback_token token ≡ some byte
    → token_piece_bytes token ≡ byte ∷ []
unfolding token_piece_bytes
canonical-piece token h = rw h refl

stands :
    (tokens : List (List ℕ)) (byte id : ℕ)
    → piece_at tokens id ≡ some (byte ∷ [])
    → id < 2 ^ 32
    → Stands tokens (byte, id)
unfolding Stands
stands tokens byte id here small = (here, small)

push_pair-Stands :
    (tokens : List (List ℕ)) (byte? : Option ℕ) (idx : ℕ) (pairs : List (ℕ × ℕ))
    {pairs' : List (ℕ × ℕ)}
    → ((byte : ℕ) → byte? ≡ some byte → piece_at tokens idx ≡ some (byte ∷ []))
    → All (Stands tokens) pairs
    → push_pair byte? idx pairs ≡ ok pairs'
    → All (Stands tokens) pairs'
unfolding push_pair
push_pair-Stands tokens none idx pairs here h run = subst (All (Stands tokens)) (ok-injective run) h
push_pair-Stands tokens (some byte) idx pairs here h run =
    let (id, first, run') = >>=-eq-ok (token_id idx) _ run in
    let (second, run'') = guard-eq-ok (not (any_byte byte pairs)) _ _ run' in
    let (same, small) = token_id-ok idx first in
    subst (All (Stands tokens)) (ok-injective run'') (
      All-snoc (Stands tokens) pairs h
        (rw (← same) (stands tokens byte idx (here byte refl) small)))

byte_pairs-Stands :
    (tokens : List (List ℕ)) (idx : ℕ) (rest : List (List ℕ)) (pairs : List (ℕ × ℕ))
    {pairs' : List (ℕ × ℕ)}
    → Left tokens idx rest
    → All (Stands tokens) pairs
    → byte_pairs idx rest pairs ≡ ok pairs'
    → All (Stands tokens) pairs'
unfolding byte_pairs
byte_pairs-Stands tokens idx [] pairs left h run = subst (All (Stands tokens)) (ok-injective run) h
byte_pairs-Stands tokens idx (token ∷ rest) pairs left h run =
    let byte? = canonical_byte_fallback_token token in
    let (pairs'', first, run') = >>=-eq-ok (push_pair byte? idx pairs) _ run in
    let here : (byte : ℕ) → byte? ≡ some byte → piece_at tokens idx ≡ some (byte ∷ []) =
      λ byte e. Left-here idx left ∙ ap some (canonical-piece token e) in
    byte_pairs-Stands tokens (suc idx) rest pairs'' (Left-next idx left)
      (push_pair-Stands tokens byte? idx pairs here h first) run'

-- What the finished tokenizer knows of a token.
unfoldable pub Known : List (List ℕ) → ByteFallbackTokenizer → Type 0
Known tokens t = (byte id : ℕ) → t.token_to_byte id ≡ some byte → Stands tokens (byte, id)

Known-insert :
    (tokens : List (List ℕ)) (t : ByteFallbackTokenizer) (byte_to_token : ℕ → Option ℕ)
    (byte token : ℕ)
    → Known tokens t
    → Stands tokens (byte, token)
    → Known tokens
        record { byte_to_token = byte_to_token; token_to_byte = insert token byte t.token_to_byte }
unfolding Known
Known-insert tokens t byte_to_token byte token h new b id found =
    elim (insert-eq-some token byte t.token_to_byte found) [
      | inl (same, same') ↦ rw (← same, ← same') new
      | inr (other, old) ↦ h b id old
    ]

no_tokens-Known : (tokens : List (List ℕ)) → Known tokens no_tokens
unfolding Known
no_tokens-Known tokens byte id found = cc

add_emittable-Known :
    (tokens : List (List ℕ)) (vocab_len : ℕ) (emit_mask : Option (List Bool)) (pairs : List (ℕ × ℕ))
    (t : ByteFallbackTokenizer) {t' : ByteFallbackTokenizer}
    → All (Stands tokens) pairs
    → Known tokens t
    → add_emittable vocab_len emit_mask pairs t ≡ ok t'
    → Known tokens t'
unfolding add_emittable
add_emittable-Known tokens vocab_len emit_mask [] t all h run =
    subst (Known tokens) (ok-injective run) h
add_emittable-Known tokens vocab_len emit_mask ((byte, token) ∷ pairs) t all h run =
    let (first, run') = guard-eq-ok (not (is_some (t.token_to_byte token))) _ _ run in
    let (second, run'') = guard-eq-ok (not (leb vocab_len token)) _ _ run' in
    add_emittable-Known tokens vocab_len emit_mask pairs _ all.1
      (Known-insert tokens t _ byte token h all.0) run''

pub from_tokens-Known :
    (tokens : List (List ℕ)) (emit_mask : Option (List Bool)) {t : ByteFallbackTokenizer}
    → from_tokens_and_emit_mask tokens emit_mask ≡ ok t
    → Known tokens t
unfolding from_tokens_and_emit_mask
from_tokens-Known tokens emit_mask run =
    let (pairs, first, run') = >>=-eq-ok (byte_pairs 0 tokens []) _ run in
    let (second, run'') = guard-eq-ok (is_empty (missing_byte_pairs pairs)) _ _ run' in
    add_emittable-Known tokens (length tokens) emit_mask pairs no_tokens
      (byte_pairs-Stands tokens 0 tokens [] (Left-all tokens) tt first) (no_tokens-Known tokens)
      run''
