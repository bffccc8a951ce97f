-- ===== src/Token/Codec/RoundTrip.antt =====
-- The symbols of the codec decode to the input.
use detllm.Base.{
  ℕ, zero, suc, ◌+◌, ◌-◌, ◌%◌, ◌≤◌, ◌<◌, ◌^◌, ◌≡◌, ◌∙◌, refl, sym, ap, subst, arith, inl, inr, true,
  false, Bool-cases, is_empty, List, [], ◌∷◌, ◌++◌, append-nil, append_assoc, map, All, IsByte,
  length, ltb, Outcome, ok, ◌>>=◌,
}
use detllm.Gguf.Parse.{Gguf}
use detllm.Token.{TokenError}
use detllm.Token.Metadata.{gguf_tokens}
use detllm.Token.Spelling.{Spells}
use detllm.Token.Codec.{
  Tokenizer, CodecSymbol, token, byte_escape, from_gguf, tokenize_bytes, detokenize_bytes,
  has_single_byte_token, take_run, stream_round, stream_from, codec_symbol_stream, symbol_number,
  symbol_numbers, codec_symbols, decode_codec_symbol,
}
use detllm.Token.Codec.Build.{from_gguf-Faithful}
use detllm.Token.Codec.Kinds.{Faithful, HasToken, bytes_of}

-- The decoder's side: the bytes of the symbols, one after the other.
unfoldable pub decode_symbols : Tokenizer → ℕ → List ℕ → Outcome TokenError (List ℕ)
unfolding decode_codec_symbol
decode_symbols t vocab_len [] = ok []
decode_symbols t vocab_len (symbol ∷ symbols) = do
  bytes ← decode_codec_symbol t symbol vocab_len
  rest ← decode_symbols t vocab_len symbols
  ok (bytes ++ rest)

decode_token :
    (t : Tokenizer) (vocab_len id : ℕ) {piece : List ℕ}
    → id < vocab_len
    → id < 2 ^ 32
    → detokenize_bytes t (id ∷ []) ≡ ok piece
    → decode_codec_symbol t id vocab_len ≡ ok piece
unfolding decode_codec_symbol
decode_token t vocab_len id lt small found =
    let inside : ltb id vocab_len ≡ true = ground arith in
    let fits : ltb id (2 ^ 32) ≡ true = ground arith in rw (inside, fits) found

decode_byte :
    (t : Tokenizer) (vocab_len b : ℕ)
    → vocab_len + 256 < 2 ^ 64
    → b < 256
    → decode_codec_symbol t (vocab_len + b) vocab_len ≡ ok (b ∷ [])
unfolding decode_codec_symbol
decode_byte t vocab_len b room lt =
    let behind : ltb (vocab_len + b) vocab_len ≡ false = ground arith in
    let limit : ltb (vocab_len + 256) (2 ^ 64) ≡ true = ground arith in
    let below : ltb (vocab_len + b) (vocab_len + 256) ≡ true = ground arith in
    let same : (vocab_len + b - vocab_len) % 256 ≡ b = omega arith in
    rw (behind, limit, below, same) refl

-- The symbols decode to the bytes, each to one at least.
unfoldable pub Decodes : Tokenizer → ℕ → List ℕ → List ℕ → Type 0
Decodes t vocab_len [] bytes = bytes ≡ []
Decodes t vocab_len (symbol ∷ symbols) bytes =
    (piece : List ℕ) × (rest : List ℕ) × (decode_codec_symbol t symbol vocab_len ≡ ok piece)
    × (is_empty piece ≡ false)
    × Decodes t vocab_len symbols rest
    × (bytes ≡ piece ++ rest)

decode_symbols-Decodes :
    (t : Tokenizer) (vocab_len : ℕ) (symbols bytes : List ℕ)
    → Decodes t vocab_len symbols bytes
    → decode_symbols t vocab_len symbols ≡ ok bytes
unfolding Decodes decode_symbols
decode_symbols-Decodes t vocab_len [] bytes h = rw h refl
decode_symbols-Decodes t vocab_len (symbol ∷ symbols) bytes (piece, rest, found, full, more, same) =
    ap (λ o. o >>= λ a. decode_symbols t vocab_len symbols >>= λ b. ok (a ++ b)) found
    ∙ ap (λ o. o >>= λ b. ok (piece ++ b)) (decode_symbols-Decodes t vocab_len symbols rest more)
    ∙ ap ok (sym same)

-- The numbers of the symbols are in range and decode to the bytes.
unfoldable Carries : Tokenizer → ℕ → List CodecSymbol → List ℕ → Type 0
Carries t vocab_len symbols bytes =
    (numbers : List ℕ) × (symbol_numbers vocab_len symbols ≡ ok numbers)
    × All (λ number. number < vocab_len + 256) numbers
    × Decodes t vocab_len numbers bytes

Carries-cons :
    (t : Tokenizer) (vocab_len : ℕ) (symbol : CodecSymbol) (number : ℕ) (symbols : List CodecSymbol)
    (piece bytes : List ℕ)
    → symbol_number vocab_len symbol ≡ ok number
    → number < vocab_len + 256
    → decode_codec_symbol t number vocab_len ≡ ok piece
    → is_empty piece ≡ false
    → Carries t vocab_len symbols bytes
    → Carries t vocab_len (symbol ∷ symbols) (piece ++ bytes)
unfolding Carries symbol_numbers Decodes
Carries-cons t vocab_len symbol number symbols piece bytes is_number lt decoded full
      (numbers, run, all, back) =
    (
      number ∷ numbers,
      ap (λ o. o >>= λ n. symbol_numbers vocab_len symbols >>= λ ns. ok (n ∷ ns)) is_number
          ∙ ap (λ o. o >>= λ ns. ok (number ∷ ns)) run,
      (lt, all),
      (piece, bytes, decoded, full, back, refl),
    )

round_byte :
    (t : Tokenizer) (next : List ℕ → Outcome TokenError (List CodecSymbol)) (b : ℕ) (input : List ℕ)
    {symbols : List CodecSymbol}
    → has_single_byte_token t b ≡ false
    → next input ≡ ok symbols
    → stream_round t next b input ≡ ok (byte_escape b ∷ symbols)
unfolding stream_round
round_byte t next b input has run = rw (has, run) refl

round_run :
    (t : Tokenizer) (next : List ℕ → Outcome TokenError (List CodecSymbol)) (b : ℕ) (input : List ℕ)
    {ids : List ℕ} {symbols : List CodecSymbol}
    → has_single_byte_token t b ≡ true
    → tokenize_bytes t (b ∷ (take_run t input).0) ≡ ok ids
    → next (take_run t input).1 ≡ ok symbols
    → stream_round t next b input ≡ ok (map token ids ++ symbols)
unfolding stream_round
round_run t next b input has found run = rw (has, found, run) refl

module _ (tokens : List (List ℕ)) (t : Tokenizer) (h : Faithful tokens t) (vocab_len : ℕ)
    (low : length tokens ≤ vocab_len) (room : vocab_len + 256 < 2 ^ 64) where
  -- The tokens of a run, in front of other symbols.
  Carries-tokens :
      (ids piece : List ℕ) (symbols : List CodecSymbol) (bytes : List ℕ)
      → Spells (bytes_of t) ids piece
      → Carries t vocab_len symbols bytes
      → Carries t vocab_len (map token ids ++ symbols) (piece ++ bytes)
  unfolding Spells symbol_number
  Carries-tokens [] piece symbols bytes same carried = rw same carried
  Carries-tokens (id ∷ ids) piece symbols bytes (first, rest, found, full, spelled, same) carried =
      let (lt, small) = h.low id first found in
      let alone : Spells (bytes_of t) (id ∷ []) first =
        (first, [], found, full, refl, sym (append-nil first)) in
      let decoded =
        decode_token t vocab_len id (omega arith) small (h.back (id ∷ []) first alone) in
      rw (same, append_assoc)
        (Carries-cons t vocab_len (token id) id (map token ids ++ symbols) first (rest ++ bytes)
          refl (omega arith) decoded full (Carries-tokens ids rest symbols bytes spelled carried))

  Carries-byte :
      (b : ℕ) (symbols : List CodecSymbol) (bytes : List ℕ)
      → b < 256
      → Carries t vocab_len symbols bytes
      → Carries t vocab_len (byte_escape b ∷ symbols) (b ∷ bytes)
  unfolding symbol_number
  Carries-byte b symbols bytes lt carried =
      let fits : ltb (vocab_len + b) (2 ^ 64) ≡ true = ground arith in
      Carries-cons t vocab_len (byte_escape b) (vocab_len + b) symbols (b ∷ []) bytes (rw fits refl)
        (omega arith) (decode_byte t vocab_len b room lt) refl carried

  take_run_lem :
      (input : List ℕ)
      → All IsByte input
      → All (HasToken t) (take_run t input).0
        × ((take_run t input).0 ++ (take_run t input).1 ≡ input)
        × All IsByte (take_run t input).1
        × (length (take_run t input).1 ≤ length input)
  unfolding take_run
  take_run_lem [] bytes = (tt, refl, tt, omega arith)
  take_run_lem (b ∷ input) bytes =
      let (all, same, rest, shorter) = take_run_lem input bytes.1 in
      elim (Bool-cases (has_single_byte_token t b)) [
        | inl has ↦ rw has ((has, all), ap (◌∷◌ b) same, rest, omega arith)
        | inr not_has ↦ rw not_has (tt, refl, bytes, omega arith)
      ]

  -- The rest of the loop, on inputs that are short enough.
  unfoldable Rest : ℕ → (List ℕ → Outcome TokenError (List CodecSymbol)) → Type 0
  Rest fuel next =
      (rest : List ℕ)
      → All IsByte rest
      → length rest ≤ fuel
      → (symbols : List CodecSymbol) × (next rest ≡ ok symbols) × Carries t vocab_len symbols rest

  stream_round-Carries :
      (fuel : ℕ) (next : List ℕ → Outcome TokenError (List CodecSymbol)) (b : ℕ) (input : List ℕ)
      → Rest fuel next
      → b < 256
      → All IsByte input
      → length input ≤ fuel
      → (symbols : List CodecSymbol) × (stream_round t next b input ≡ ok symbols)
        × Carries t vocab_len symbols (b ∷ input)
  unfolding Rest
  stream_round-Carries fuel next b input rest lt bytes short =
      elim (Bool-cases (has_single_byte_token t b)) [
        | inl has ↦
            let (all, same, bytes', short') = take_run_lem input bytes in
            let (ids, found, spelled) = h.total (b ∷ (take_run t input).0) (has, all) in
            let (symbols, run, carried) = rest (take_run t input).1 bytes' (omega arith) in
            let whole : Carries t vocab_len (map token ids ++ symbols)
                (b ∷ (take_run t input).0 ++ (take_run t input).1) =
              Carries-tokens ids (b ∷ (take_run t input).0) symbols (take_run t input).1 spelled
                carried in
            (
              map token ids ++ symbols,
              round_run t next b input has found run,
              subst (λ bytes. Carries t vocab_len (map token ids ++ symbols) (b ∷ bytes)) same
                  whole,
            )
        | inr not_has ↦
            let (symbols, run, carried) = rest input bytes short in
            (
              byte_escape b ∷ symbols,
              round_byte t next b input not_has run,
              Carries-byte b symbols input lt carried,
            )
      ]

  nothing_left : Carries t vocab_len [] []
  unfolding Carries symbol_numbers Decodes
  nothing_left = ([], refl, tt, refl)

  stream_from-Carries : (fuel : ℕ) → Rest fuel (stream_from t fuel)
  unfolding stream_from Rest
  stream_from-Carries zero [] bytes enough = ([], refl, nothing_left)
  stream_from-Carries (suc fuel) [] bytes enough = ([], refl, nothing_left)
  stream_from-Carries zero (b ∷ input) bytes enough = absurd (omega arith)
  stream_from-Carries (suc fuel) (b ∷ input) bytes enough =
      stream_round-Carries fuel (stream_from t fuel) b input (stream_from-Carries fuel) bytes.0
        bytes.1 (omega arith)

-- The symbols of an input decode to it, each to one byte at least.
pub codec_symbols-Decodes :
    (gguf : Gguf) (tokens : List (List ℕ)) (t : Tokenizer) (vocab_len : ℕ) (input : List ℕ)
    → gguf_tokens gguf ≡ ok tokens
    → from_gguf gguf ≡ ok t
    → length tokens ≤ vocab_len
    → vocab_len + 256 < 2 ^ 64
    → All IsByte input
    → (symbols : List ℕ) × (codec_symbols t input vocab_len ≡ ok symbols)
      × All (λ symbol. symbol < vocab_len + 256) symbols
      × Decodes t vocab_len symbols input
unfolding codec_symbols codec_symbol_stream Rest Carries
codec_symbols-Decodes gguf tokens t vocab_len input given built low room bytes =
    let h = from_gguf-Faithful gguf tokens given built in
    let (symbols, run, (numbers, run', all, back)) =
      stream_from-Carries tokens t h vocab_len low room (length input) input bytes (omega arith) in
    (numbers, ap (λ o. o >>= symbol_numbers vocab_len) run ∙ run', all, back)

-- A tokenizer that `from_gguf` builds encodes every input: with a vocabulary size that is not below
-- the number of tokens of the file and leaves room for 256 more in a word, `codec_symbols` gives
-- symbols that are all below that size plus 256, and decoding them one by one gives the input back.
pub decode-codec_symbols :
    (gguf : Gguf) (tokens : List (List ℕ)) (t : Tokenizer) (vocab_len : ℕ) (input : List ℕ)
    → gguf_tokens gguf ≡ ok tokens
    → from_gguf gguf ≡ ok t
    → length tokens ≤ vocab_len
    → vocab_len + 256 < 2 ^ 64
    → All IsByte input
    → (symbols : List ℕ) × (codec_symbols t input vocab_len ≡ ok symbols)
      × All (λ symbol. symbol < vocab_len + 256) symbols
      × (decode_symbols t vocab_len symbols ≡ ok input)
decode-codec_symbols gguf tokens t vocab_len input given built low room bytes =
    let (symbols, run, all, back) =
      codec_symbols-Decodes gguf tokens t vocab_len input given built low room bytes in
    (symbols, run, all, decode_symbols-Decodes t vocab_len symbols input back)
