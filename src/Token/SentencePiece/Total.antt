-- ===== src/Token/SentencePiece/Total.antt =====
-- `tokenize_bytes` of `SentencePieceTokenizer` spells its input.
use detllm.Base.{
  ℕ, zero, suc, ◌+◌, ◌≤◌, ◌≡◌, refl, sym, arith, Bool-cases, ◌||◌, ◌&&◌, ◌==◌, Option, none, some,
  List, [], ◌∷◌, All, All-drop, ltb, length, take, drop, take-append-drop, length-drop,
  is_empty_iff, length-take_of_le, ok, Map, inl, inr,
}
use detllm.Token.Spelling.{piece_at, Spells, Covers}
use detllm.Token.SentencePiece.{
  SentencePieceTokenizer, Best, better, improve, consider, best_piece, min, choose, next_token,
  tokenize_from, tokenize_bytes,
}
use detllm.Token.SentencePiece.Vocabulary.{Pieces}

-- A token that stands for the first `len` bytes of the input.
unfoldable Fits : List (List ℕ) → List ℕ → ℕ → ℕ → Type 0
Fits tokens input id len =
    (1 ≤ len) × (len ≤ length input) × (piece_at tokens id ≡ some (take len input))

unfoldable FitsBest : List (List ℕ) → List ℕ → Option Best → Type 0
FitsBest tokens input none = Unit
FitsBest tokens input (some best) = Fits tokens input best.id best.len

improve-Fits :
    (tokens : List (List ℕ)) (input : List ℕ) (len id score : ℕ) (best : Option Best)
    → Fits tokens input id len
    → FitsBest tokens input best
    → FitsBest tokens input (improve len (id, score) best)
unfolding improve FitsBest
improve-Fits tokens input len id score none new old = new
improve-Fits tokens input len id score (some best) new old =
    elim (Bool-cases
      (ltb best.len len || (len == best.len && better id score best.id best.score))) [
        | inl wins ↦ rw wins new
        | inr loses ↦ rw loses old
      ]

consider-Fits :
    (tokens : List (List ℕ)) (pieces : Map (List ℕ) (ℕ × ℕ)) (len : ℕ) (input : List ℕ)
    (entry : Option (ℕ × ℕ)) (best : Option Best)
    → Pieces tokens pieces
    → 1 ≤ len
    → len ≤ length input
    → pieces (take len input) ≡ entry
    → FitsBest tokens input best
    → FitsBest tokens input (consider len entry best)
unfolding consider Pieces Fits
consider-Fits tokens pieces len input none best h low high e old = old
consider-Fits tokens pieces len input (some (id, score)) best h low high e old =
    improve-Fits tokens input len id score best (low, high, h (take len input) id score e) old

best_piece-Fits :
    (tokens : List (List ℕ)) (pieces : Map (List ℕ) (ℕ × ℕ)) (rounds len : ℕ) (input : List ℕ)
    (best : Option Best)
    → Pieces tokens pieces
    → 1 ≤ len
    → rounds + len ≤ suc (length input)
    → FitsBest tokens input best
    → FitsBest tokens input (best_piece pieces rounds len input best)
unfolding best_piece
best_piece-Fits tokens pieces zero len input best h low room old = old
best_piece-Fits tokens pieces (suc rounds) len input best h low room old =
    best_piece-Fits tokens pieces rounds (suc len) input _ h (omega arith) (omega arith) (
      consider-Fits tokens pieces len input (pieces (take len input)) best h low (omega arith) refl
        old)

min-le : (a b : ℕ) → min a b ≤ a
unfolding min
min-le a b = ground arith

nothing_yet : (tokens : List (List ℕ)) (input : List ℕ) → FitsBest tokens input none
unfolding FitsBest
nothing_yet tokens input = tt

choose-ok :
    (tokens : List (List ℕ)) (t : SentencePieceTokenizer) (b : ℕ) (input : List ℕ)
    (best : Option Best)
    → Covers tokens t.byte_fallback.byte_to_token b
    → FitsBest tokens (b ∷ input) best
    → (id : ℕ) × (len : ℕ) × (choose t b best ≡ ok (id, len)) × Fits tokens (b ∷ input) id len
unfolding choose FitsBest Covers Fits
choose-ok tokens t b input (some best) covered fits = (best.id, best.len, refl, fits)
choose-ok tokens t b input none (id, found, here) fits =
    (id, 1, rw found refl, (omega arith, omega arith, here))

next_token-ok :
    (tokens : List (List ℕ)) (t : SentencePieceTokenizer) (b : ℕ) (input : List ℕ)
    → Pieces tokens t.pieces
    → Covers tokens t.byte_fallback.byte_to_token b
    → (id : ℕ) × (len : ℕ) × (next_token t b (b ∷ input) ≡ ok (id, len))
      × Fits tokens (b ∷ input) id len
unfolding next_token
next_token-ok tokens t b input h covered =
    let rounds = min (length (b ∷ input)) t.max_piece_len in
    let low : rounds ≤ suc (length input) = min-le (suc (length input)) t.max_piece_len in
    let fits =
      best_piece-Fits tokens t.pieces rounds 1 (b ∷ input) none h (omega arith) (omega arith)
        (nothing_yet tokens (b ∷ input)) in
    choose-ok tokens t b input _ covered fits

-- The length of the input is fuel enough, and the tokens spell it.
tokenize_from-Spells :
    (tokens : List (List ℕ)) (t : SentencePieceTokenizer) (fuel : ℕ) (input : List ℕ)
    → Pieces tokens t.pieces
    → All (Covers tokens t.byte_fallback.byte_to_token) input
    → length input ≤ fuel
    → (ids : List ℕ) × (tokenize_from t fuel input ≡ ok ids) × Spells (piece_at tokens) ids input
unfolding tokenize_from Spells Fits
tokenize_from-Spells tokens t fuel [] h covered enough = ([], refl, refl)
tokenize_from-Spells tokens t zero (b ∷ input) h covered enough = absurd (omega arith)
tokenize_from-Spells tokens t (suc fuel) (b ∷ input) h covered enough =
    let (id, len, chosen, (low, high, piece)) = next_token-ok tokens t b input h covered.0 in
    let shorter : length (drop len (b ∷ input)) ≤ fuel =
      omega (arith, length-drop len (b ∷ input)) in
    let (ids, run, spelled) =
      tokenize_from-Spells tokens t fuel (drop len (b ∷ input)) h
        (All-drop _ len (b ∷ input) covered) shorter in
    (
      id ∷ ids,
      rw (chosen, run) refl,
      (
        take len (b ∷ input),
        drop len (b ∷ input),
        piece,
        (is_empty_iff (take len (b ∷ input))).1
            (omega (arith, length-take_of_le len (b ∷ input) high)),
        spelled,
        sym (take-append-drop len (b ∷ input)),
      ),
    )

-- If each byte of the input has a fallback token that stands for it and each piece is a token with
-- these bytes, then `tokenize_bytes` of the SentencePiece tokenizer comes to an end with tokens whose
-- bytes, one after the other, are the input.
pub longest-Spells :
    (tokens : List (List ℕ)) (t : SentencePieceTokenizer) (input : List ℕ)
    → Pieces tokens t.pieces
    → All (Covers tokens t.byte_fallback.byte_to_token) input
    → (ids : List ℕ) × (tokenize_bytes t input ≡ ok ids) × Spells (piece_at tokens) ids input
unfolding tokenize_bytes
longest-Spells tokens t input h covered =
    tokenize_from-Spells tokens t (length input) input h covered (omega arith)
