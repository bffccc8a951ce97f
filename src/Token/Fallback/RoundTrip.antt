-- ===== src/Token/Fallback/RoundTrip.antt =====
-- The bytes come back from their tokens.
use detllm.Base.{
  ℕ, ◌≡◌, ◌↔◌, ◌∙◌, ==_iff, subst, inl, inr, refl, ap, Bool, true, false, not, Bool-cases, Option,
  some, List, [], ◌∷◌, if◌then◌else◌, length, ok, is_some, insert, insert-eq-some, insert_self,
  insert_other, >>=-eq-ok, guard-eq-ok, is_empty, leb, ok-injective, ◌==◌, num_eq,
}
use detllm.Token.Coverage.{missing_byte_pairs}
use detllm.Token.Metadata.{token_is_emittable}
use detllm.Token.Fallback.{
  ByteFallbackTokenizer, no_tokens, add_pairs, new, add_emittable, from_tokens_and_emit_mask,
  byte_pairs,
}

-- The token of a byte stands for that byte.
unfoldable pub Inverts : ByteFallbackTokenizer → Type 0
Inverts t = (b token : ℕ) → t.byte_to_token b ≡ some token → t.token_to_byte token ≡ some b

-- An insertion at a key that was free keeps what there was.
pub kept :
    (token byte : ℕ) (m : ℕ → Option ℕ) {id b : ℕ}
    → is_some (m token) ≡ false
    → m id ≡ some b
    → insert token byte m id ≡ some b
kept token byte m {id} fresh found = elim (Bool-cases (token == id)) [
  | inl same ↦ absurd (cc (fresh, ap is_some (ap m ((==_iff token id).0 same) ∙ found)))
  | inr other ↦ insert_other token byte m other ∙ found
]

-- What both loops keep: a token that is new gets its byte, and the byte gets it or stays as it is.
Inverts-insert :
    (t : ByteFallbackTokenizer) (emits : Bool) (byte token : ℕ)
    → Inverts t
    → is_some (t.token_to_byte token) ≡ false
    → Inverts record {
      byte_to_token = if emits then insert byte token t.byte_to_token else t.byte_to_token;
      token_to_byte = insert token byte t.token_to_byte;
    }
unfolding Inverts
Inverts-insert t false byte token h fresh b id found =
    kept token byte t.token_to_byte fresh (h b id found)
Inverts-insert t true byte token h fresh b id found =
    elim (insert-eq-some byte token t.byte_to_token found) [
      | inl (same, same') ↦ rw (← same', ← same) (insert_self token byte t.token_to_byte)
      | inr (other, old) ↦ kept token byte t.token_to_byte fresh (h b id old)
    ]

not-true : (b : Bool) → not b ≡ true → b ≡ false
not-true true h = cc
not-true false h = refl

add_pairs-Inverts :
    (pairs : List (ℕ × ℕ)) (t : ByteFallbackTokenizer) {t' : ByteFallbackTokenizer}
    → Inverts t
    → add_pairs pairs t ≡ ok t'
    → Inverts t'
unfolding add_pairs
add_pairs-Inverts [] t h run = subst Inverts (ok-injective run) h
add_pairs-Inverts ((byte, token) ∷ pairs) t h run =
    let (first, run') = guard-eq-ok (not (is_some (t.byte_to_token byte))) _ _ run in
    let (second, run'') = guard-eq-ok (not (is_some (t.token_to_byte token))) _ _ run' in
    let fresh = not-true _ second in
    add_pairs-Inverts pairs _ (Inverts-insert t true byte token h fresh) run''

add_emittable-Inverts :
    (vocab_len : ℕ) (emit_mask : Option (List Bool)) (pairs : List (ℕ × ℕ))
    (t : ByteFallbackTokenizer) {t' : ByteFallbackTokenizer}
    → Inverts t
    → add_emittable vocab_len emit_mask pairs t ≡ ok t'
    → Inverts t'
unfolding add_emittable
add_emittable-Inverts vocab_len emit_mask [] t h run = subst Inverts (ok-injective run) h
add_emittable-Inverts vocab_len emit_mask ((byte, token) ∷ pairs) t h run =
    let (first, run') = guard-eq-ok (not (is_some (t.token_to_byte token))) _ _ run in
    let (second, run'') = guard-eq-ok (not (leb vocab_len token)) _ _ run' in
    let fresh = not-true _ first in
    let emits = token_is_emittable emit_mask token in
    add_emittable-Inverts vocab_len emit_mask pairs _ (Inverts-insert t emits byte token h fresh)
      run''

no_tokens-Inverts : Inverts no_tokens
unfolding Inverts
no_tokens-Inverts b token h = cc

pub from_tokens-Inverts :
    (tokens : List (List ℕ)) (emit_mask : Option (List Bool)) {t : ByteFallbackTokenizer}
    → from_tokens_and_emit_mask tokens emit_mask ≡ ok t
    → Inverts t
unfolding from_tokens_and_emit_mask
from_tokens-Inverts tokens emit_mask run =
    let (pairs, first, run') = >>=-eq-ok (byte_pairs 0 tokens []) _ run in
    let (second, run'') = guard-eq-ok (is_empty (missing_byte_pairs pairs)) _ _ run' in
    add_emittable-Inverts (length tokens) emit_mask pairs no_tokens no_tokens-Inverts run''

-- The other way round: the byte of a token has that token.
unfoldable pub swapped : ByteFallbackTokenizer → ByteFallbackTokenizer
swapped t = record { byte_to_token = t.token_to_byte; token_to_byte = t.byte_to_token }

add_pairs-swapped :
    (pairs : List (ℕ × ℕ)) (t : ByteFallbackTokenizer) {t' : ByteFallbackTokenizer}
    → Inverts (swapped t)
    → add_pairs pairs t ≡ ok t'
    → Inverts (swapped t')
unfolding add_pairs swapped
add_pairs-swapped [] t h run = subst (λ t. Inverts (swapped t)) (ok-injective run) h
add_pairs-swapped ((byte, token) ∷ pairs) t h run =
    let (first, run') = guard-eq-ok (not (is_some (t.byte_to_token byte))) _ _ run in
    let (second, run'') = guard-eq-ok (not (is_some (t.token_to_byte token))) _ _ run' in
    add_pairs-swapped pairs _ (Inverts-insert (swapped t) true token byte h (not-true _ first))
      run''

-- A tokenizer that `new` builds from pairs has a token for a byte exactly if it has that byte for
-- the token: its two maps are inverse to each other.
pub new_iff :
    (pairs : List (ℕ × ℕ)) {t : ByteFallbackTokenizer}
    → new pairs ≡ ok t
    → (b token : ℕ) → (t.byte_to_token b ≡ some token) ↔ (t.token_to_byte token ≡ some b)
unfolding new Inverts swapped
new_iff pairs built b token = (
  add_pairs-Inverts pairs no_tokens no_tokens-Inverts built b token,
  add_pairs-swapped pairs no_tokens (λ token b found. cc found) built token b,
)
