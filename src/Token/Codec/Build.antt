-- ===== src/Token/Codec/Build.antt =====
-- What `Tokenizer::from_gguf` builds has what the codec needs.
use detllm.Base.{
  ℕ, ◌≡◌, ◌∙◌, sym, subst, Bool, true, false, Option, none, some, List, length, is_empty,
  if◌then◌else◌, Outcome, ok, err, >>=-eq-ok, ok-injective, Bool,
}
use detllm.Gguf.Parse.{Gguf}
use detllm.Token.{TokenError, unsupported_tokenizer_model}
use detllm.Token.Metadata.{
  gguf_tokens, optional_gguf_emit_mask, optional_gguf_merges, optional_gguf_model,
  optional_gguf_scores, has_gguf_scores,
}
use detllm.Token.Fallback
use detllm.Token.Bpe
use detllm.Token.SentencePiece
use detllm.Token.Codec.{
  Tokenizer, build_bpe, build_sentence_piece, build_fallback, build_named, build_scored, build,
  merges_or_empty, from_gguf,
}
use detllm.Token.Codec.Kinds.{Faithful, fallback-Faithful, bpe-Faithful, sentence_piece-Faithful}

build_bpe-Faithful :
    (tokens merges : List (List ℕ)) (emit_mask : Option (List Bool)) {t : Tokenizer}
    → build_bpe tokens merges emit_mask ≡ ok t
    → Faithful tokens t
unfolding build_bpe
build_bpe-Faithful tokens merges emit_mask built =
    let (t', built', same) =
      >>=-eq-ok (Bpe.from_tokens_merges_and_emit_mask tokens merges emit_mask) _ built in
    subst (Faithful tokens) (ok-injective same) (bpe-Faithful tokens merges emit_mask built')

build_sentence_piece-Faithful :
    (gguf : Gguf) (tokens : List (List ℕ)) (emit_mask : Option (List Bool)) {t : Tokenizer}
    → build_sentence_piece gguf tokens emit_mask ≡ ok t
    → Faithful tokens t
unfolding build_sentence_piece
build_sentence_piece-Faithful gguf tokens emit_mask built =
    let (scores, given, built') = >>=-eq-ok (optional_gguf_scores gguf (length tokens)) _ built in
    let (t', built'', same) =
      >>=-eq-ok (SentencePiece.from_tokens_scores_and_emit_mask tokens scores emit_mask) _ built' in
    subst (Faithful tokens) (ok-injective same)
      (sentence_piece-Faithful tokens scores emit_mask built'')

build_fallback-Faithful :
    (tokens : List (List ℕ)) (emit_mask : Option (List Bool)) {t : Tokenizer}
    → build_fallback tokens emit_mask ≡ ok t
    → Faithful tokens t
unfolding build_fallback
build_fallback-Faithful tokens emit_mask built =
    let (t', built', same) =
      >>=-eq-ok (Fallback.from_tokens_and_emit_mask tokens emit_mask) _ built in
    subst (Faithful tokens) (ok-injective same) (fallback-Faithful tokens emit_mask built')

-- A test that chooses between two results.
if-Faithful :
    (tokens : List (List ℕ)) (test : Bool) (a b : Outcome TokenError Tokenizer) {t : Tokenizer}
    → (a ≡ ok t → Faithful tokens t)
    → (b ≡ ok t → Faithful tokens t)
    → (if test then a else b) ≡ ok t
    → Faithful tokens t
if-Faithful tokens true a b h h' built = h built
if-Faithful tokens false a b h h' built = h' built

build-Faithful :
    (gguf : Gguf) (tokens : List (List ℕ)) (emit_mask : Option (List Bool)) (merges : List (List ℕ))
    (model : Option (List ℕ)) {t : Tokenizer}
    → build gguf tokens emit_mask merges model ≡ ok t
    → Faithful tokens t
unfolding build build_named build_scored
build-Faithful gguf tokens emit_mask merges (some model) built =
    if-Faithful tokens _ _ _ (build_bpe-Faithful tokens merges emit_mask)
      (if-Faithful tokens _ _ (err (unsupported_tokenizer_model model))
        (build_sentence_piece-Faithful gguf tokens emit_mask) (λ failed. cc failed))
      built
build-Faithful gguf tokens emit_mask merges none built =
    if-Faithful tokens (is_empty merges) _ _
      (λ built.
        let (scored, given, built') = >>=-eq-ok (has_gguf_scores gguf) _ built in
        if-Faithful tokens scored _ _ (build_sentence_piece-Faithful gguf tokens emit_mask)
          (build_fallback-Faithful tokens emit_mask) built')
      (build_bpe-Faithful tokens merges emit_mask) built

pub from_gguf-Faithful :
    (gguf : Gguf) (tokens : List (List ℕ)) {t : Tokenizer}
    → gguf_tokens gguf ≡ ok tokens
    → from_gguf gguf ≡ ok t
    → Faithful tokens t
unfolding from_gguf
from_gguf-Faithful gguf tokens {t} given built =
    let (tokens', first, built') = >>=-eq-ok (gguf_tokens gguf) _ built in
    let (emit_mask, second, built'') =
      >>=-eq-ok (optional_gguf_emit_mask gguf (length tokens')) _ built' in
    let (merges, third, built3) = >>=-eq-ok (optional_gguf_merges gguf) _ built'' in
    let (model, fourth, end) = >>=-eq-ok (optional_gguf_model gguf) _ built3 in
    let same : tokens' ≡ tokens = ok-injective (sym first ∙ given) in
    subst (λ tokens. Faithful tokens t) same
      (build-Faithful gguf tokens' emit_mask (merges_or_empty merges) model end)
