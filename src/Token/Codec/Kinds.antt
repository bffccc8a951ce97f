-- ===== src/Token/Codec/Kinds.antt =====
-- What the codec needs of a tokenizer, and that each of the three kinds has it.
use detllm.Base.{
  ℕ, ◌≤◌, ◌<◌, ◌^◌, ◌≡◌, ◌∙◌, refl, sym, ap, arith, Bool, true, Option, none, some, some-injective,
  List, [], ◌∷◌, All, length, ok, is_some, Map,
}
use detllm.Token.Spelling.{
  Spells, Spells-same, Covers, piece_at, piece_at-lt, detokenize_with-Spells,
}
use detllm.Token.Fallback.{ByteFallbackTokenizer, byte_ids}
use detllm.Token.Fallback
use detllm.Token.Fallback.RoundTrip.{Inverts, from_tokens-Inverts}
use detllm.Token.Fallback.Vocabulary.{Stands, Known, from_tokens-Known}
use detllm.Token.Bpe.{ByteBpeTokenizer, from_tokens_merges_and_emit_mask}
use detllm.Token.Bpe
use detllm.Token.Bpe.Entering.{ByteTokens}
use detllm.Token.SentencePiece.{SentencePieceTokenizer, from_tokens_scores_and_emit_mask}
use detllm.Token.SentencePiece
use detllm.Token.Codec.{
  Tokenizer, byte_fallback, byte_bpe, sentence_piece, tokenize_bytes, detokenize_bytes,
  has_single_byte_token,
}

unfoldable pub single : Option ℕ → Option (List ℕ)
single none = none
single (some b) = some (b ∷ [])

-- The bytes of a token, as the tokenizer has them.
unfoldable pub bytes_of : Tokenizer → Map ℕ (List ℕ)
unfolding single
bytes_of (byte_fallback t) id = single (t.token_to_byte id)
bytes_of (byte_bpe t) id = t.token_to_bytes id
bytes_of (sentence_piece t) id = t.token_to_bytes id

abbrev pub HasToken : Tokenizer → ℕ → Type 0
HasToken t b = has_single_byte_token t b ≡ true

pub record Faithful (tokens : List (List ℕ)) (t : Tokenizer) : Type 0 where
  pub total :
      (input : List ℕ)
      → All (HasToken t) input
      → (ids : List ℕ) × (tokenize_bytes t input ≡ ok ids) × Spells (bytes_of t) ids input
  pub back :
      (ids input : List ℕ) → Spells (bytes_of t) ids input → detokenize_bytes t ids ≡ ok input
  pub low :
      (id : ℕ) (piece : List ℕ) → bytes_of t id ≡ some piece → (id < length tokens) × (id < 2 ^ 32)

pub All-map : (P Q : ℕ → Type 0) (xs : List ℕ) → ((x : ℕ) → P x → Q x) → All P xs → All Q xs
All-map P Q [] f h = tt
All-map P Q (x ∷ xs) f h = (f x h.0, All-map P Q xs f h.1)

is_some-cases : {A : Type 0} (o : Option A) → is_some o ≡ true → (a : A) × (o ≡ some a)
is_some-cases none h = absurd (cc h)
is_some-cases (some a) h = (a, refl)

single-cases :
    (o : Option ℕ) {piece : List ℕ}
    → single o ≡ some piece
    → (b : ℕ) × (o ≡ some b) × (b ∷ [] ≡ piece)
unfolding single
single-cases none h = absurd (cc h)
single-cases (some b) h = (b, refl, some-injective h)

-- The fallback alone.
fallback-total :
    (t : ByteFallbackTokenizer) (input : List ℕ)
    → Inverts t
    → All (HasToken (byte_fallback t)) input
    → (ids : List ℕ) × (Fallback.tokenize_bytes t input ≡ ok ids)
      × Spells (bytes_of (byte_fallback t)) ids input
unfolding Fallback.tokenize_bytes Spells bytes_of Inverts has_single_byte_token
fallback-total t [] inverts h = ([], refl, refl)
fallback-total t (b ∷ input) inverts (here, h) =
    let (id, found) = is_some-cases (t.byte_to_token b) here in
    let (ids, run, spelled) = fallback-total t input inverts h in
    (
      id ∷ ids,
      rw (found, run) refl,
      (b ∷ [], input, ap single (inverts b id found), refl, spelled, refl),
    )

fallback-back :
    (t : ByteFallbackTokenizer) (ids input : List ℕ)
    → Spells (bytes_of (byte_fallback t)) ids input
    → Fallback.detokenize_bytes t ids ≡ ok input
unfolding Fallback.detokenize_bytes Spells bytes_of
fallback-back t [] input h = rw h refl
fallback-back t (id ∷ ids) input (piece, rest, found, full, spelled, same) =
    let (b, is_b, is_piece) = single-cases (t.token_to_byte id) found in
    rw (is_b, fallback-back t ids rest spelled, same, ← is_piece) refl

-- `from_tokens_and_emit_mask` builds a faithful tokenizer.
pub fallback-Faithful :
    (tokens : List (List ℕ)) (emit_mask : Option (List Bool)) {t : ByteFallbackTokenizer}
    → Fallback.from_tokens_and_emit_mask tokens emit_mask ≡ ok t
    → Faithful tokens (byte_fallback t)
unfolding tokenize_bytes detokenize_bytes bytes_of Known Stands
fallback-Faithful tokens emit_mask {t} built =
    let inverts = from_tokens-Inverts tokens emit_mask built in
    let known = from_tokens-Known tokens emit_mask built in
    record {
      total = λ input h. fallback-total t input inverts h;
      back = λ ids input h. fallback-back t ids input h;
      low = λ id piece found.
          let (b, is_b, is_piece) = single-cases (t.token_to_byte id) found in
          let (stands, small) = known b id is_b in (piece_at-lt tokens id stands, small);
    }

-- A token of the vocabulary that is in a map of the whole of it.
whole-low :
    (tokens : List (List ℕ)) (m : Map ℕ (List ℕ)) (id : ℕ) {piece : List ℕ}
    → ((id : ℕ) → m id ≡ piece_at tokens id)
    → length tokens ≤ 2 ^ 32
    → m id ≡ some piece
    → (id < length tokens) × (id < 2 ^ 32)
whole-low tokens m id whole small found =
    let lt = piece_at-lt tokens id (sym (whole id) ∙ found) in (lt, omega arith)

pub bpe-Faithful :
    (tokens merges : List (List ℕ)) (emit_mask : Option (List Bool)) {t : ByteBpeTokenizer}
    → from_tokens_merges_and_emit_mask tokens merges emit_mask ≡ ok t
    → Faithful tokens (byte_bpe t)
unfolding tokenize_bytes detokenize_bytes bytes_of has_single_byte_token Covers ByteTokens
bpe-Faithful tokens merges emit_mask {t} built =
    let h = Bpe.Vocabulary.from_tokens-Built tokens merges emit_mask built in
    record {
      total = λ input covered.
          let own : All (Covers tokens t.byte_to_token) input =
            All-map _ _ input
              (λ b has.
                let (id, found) = is_some-cases (t.byte_to_token b) has in
                (id, found, h.bytes b id found))
              covered in
          let (ids, run, spelled) = Bpe.Start.merging-Spells tokens t input h.rules own in
          (ids, run, Spells-same (piece_at tokens) t.token_to_bytes ids input h.whole spelled);
      back = λ ids input h. detokenize_with-Spells t.token_to_bytes ids input h;
      low = λ id piece found. whole-low tokens t.token_to_bytes id h.whole h.small found;
    }

pub sentence_piece-Faithful :
    (tokens : List (List ℕ)) (scores : Option (List ℕ)) (emit_mask : Option (List Bool))
    {t : SentencePieceTokenizer}
    → from_tokens_scores_and_emit_mask tokens scores emit_mask ≡ ok t
    → Faithful tokens (sentence_piece t)
unfolding tokenize_bytes detokenize_bytes bytes_of has_single_byte_token Covers Inverts Known Stands
sentence_piece-Faithful tokens scores emit_mask {t} built =
    let (h, fallback) = SentencePiece.Vocabulary.from_tokens-Built tokens scores emit_mask built in
    let inverts = from_tokens-Inverts tokens emit_mask fallback in
    let known = from_tokens-Known tokens emit_mask fallback in
    record {
      total = λ input covered.
          let own : All (Covers tokens t.byte_fallback.byte_to_token) input =
            All-map _ _ input
              (λ b has.
                let (id, found) = is_some-cases (t.byte_fallback.byte_to_token b) has in
                (id, found, (known b id (inverts b id found)).0))
              covered in
          let (ids, run, spelled) =
            SentencePiece.Total.longest-Spells tokens t input h.pieces own in
          (ids, run, Spells-same (piece_at tokens) t.token_to_bytes ids input h.whole spelled);
      back = λ ids input h. detokenize_with-Spells t.token_to_bytes ids input h;
      low = λ id piece found. whole-low tokens t.token_to_bytes id h.whole h.small found;
    }
