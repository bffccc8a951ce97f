-- ===== src/Codec/Symbols/Read.antt =====
-- The decoder's loop reads what the encoder's loop writes.
use detllm.Base.{
  ℕ, zero, suc, ◌+◌, ◌≤◌, ◌<◌, ◌≡◌, ◌∙◌, refl, sym, ap, ap₂, subst, arith, Bool, true, false, List,
  [], ◌∷◌, ◌++◌, append-nil, append_assoc, ltb, is_empty, is_empty_iff, length, length-append, ok,
  >>=-eq-ok, map_err, map_err-eq-ok, ok-injective,
}
use detllm.Coder.Range.Encoder.{RangeEncoder}
use detllm.Coder.Range.Encoder
use detllm.Coder.Range.Decoder.{RangeDecoder}
use detllm.Coder.Range.Renorm.{IsReady}
use detllm.Coder.Range.Window.{Covers}
use detllm.Coder.Range.Follow.{follow}
use detllm.Coder.Range.Symbol.{encode-IsReady}
use detllm.Coder.Range.Ends.{finish-Covers}
use detllm.Coder.Cdf.{SymbolRange}
use detllm.Coder.Cdf.Logits.{Floats}
use detllm.Token.Codec.{Tokenizer}
use detllm.Codec.Model.{Model, range}
use detllm.Codec.State.{State, sync, symbol_range, decode_symbol}
use detllm.Codec.Symbols.{
  Reading, symbol_bytes, push_encoded, push_decoded, encode_symbols, decode_round, decode_from,
}
use detllm.Codec.Symbols.Agree.{Even}
use detllm.Codec.Symbols.Table.{sync-table, push_decoded-push_encoded}
use detllm.Codec.Symbols.Follow.{encode-IsSymbol, Follows, decode_symbol-Follows}

-- The symbols stand for the bytes, and each of them for one at least.
unfoldable pub StandFor : Tokenizer → ℕ → Bool → List ℕ → List ℕ → Type 0
StandFor tokenizer vocab_len escapes [] bytes = bytes ≡ []
StandFor tokenizer vocab_len escapes (symbol ∷ symbols) bytes =
    (piece : List ℕ) × (rest : List ℕ) × (symbol_bytes tokenizer vocab_len escapes symbol
      ≡ ok piece)
    × (is_empty piece ≡ false)
    × StandFor tokenizer vocab_len escapes symbols rest
    × (bytes ≡ piece ++ rest)

-- A number that is not 0 has one before it.
suc_of_lt : (n : ℕ) → 0 < n → (k : ℕ) × (n ≡ suc k)
suc_of_lt zero h = absurd (omega arith)
suc_of_lt (suc n) h = (n, refl)

module _ (floats : Floats) (model : Model floats.F32) (tokenizer : Tokenizer) (overlap : ℕ)
    (escapes : Bool) where
  -- What a successful round of the encoder shows.
  record Round (symbol : ℕ) (context : List ℕ) (s : State floats model) (e : RangeEncoder)
      : Type 0 where
    s₁ : State floats model
    s₂ : State floats model
    context' : List ℕ
    r : SymbolRange
    e' : RangeEncoder
    synced : sync floats model (length context) context overlap s ≡ ok s₁
    ranged : symbol_range floats model symbol s₁ ≡ ok r
    encoded : Encoder.encode e r.cum r.freq r.total ≡ ok e'
    pushed : push_encoded floats model escapes symbol context s₁ ≡ ok (context', s₂)

  encode_symbols-Round :
      (symbol : ℕ) (symbols context : List ℕ) (s : State floats model) (e : RangeEncoder)
      {last : RangeEncoder}
      → encode_symbols floats model escapes overlap (symbol ∷ symbols) context s e ≡ ok last
      → (r : Round symbol context s e) × (encode_symbols floats model escapes overlap symbols
            r.context' r.s₂ r.e'
          ≡ ok last)
  unfolding encode_symbols
  encode_symbols-Round symbol symbols context s e h =
      let (s₁, synced, h₁) = >>=-eq-ok (sync floats model (length context) context overlap s) _ h in
      let (r, ranged, h₂) = >>=-eq-ok (symbol_range floats model symbol s₁) _ h₁ in
      let (e', encoded, h₃) =
        >>=-eq-ok (map_err range (Encoder.encode e r.cum r.freq r.total)) _ h₂ in
      let ((context', s₂), pushed, h₄) =
        >>=-eq-ok (push_encoded floats model escapes symbol context s₁) _ h₃ in
      (
        record {
          s₁ = s₁;
          s₂ = s₂;
          context' = context';
          r = r;
          e' = e';
          synced = synced;
          ranged = ranged;
          encoded = map_err-eq-ok range _ encoded;
          pushed = pushed;
        },
        h₄,
      )

  decode_end :
      (byte_len fuel : ℕ) (r : Reading floats model)
      → ltb (length r.bytes) byte_len ≡ false
      → decode_from floats model tokenizer byte_len overlap escapes fuel r
        ≡ ok (record { bytes = r.bytes; symbols = r.symbols })
  unfolding decode_from
  decode_end byte_len zero r h = rw h refl
  decode_end byte_len (suc fuel) r h = rw h refl

  decode_step :
      (byte_len fuel : ℕ) (r : Reading floats model) (symbol : ℕ) (piece context' : List ℕ)
      (s₁ s₂ : State floats model) (dec' : RangeDecoder)
      → ltb (length r.bytes) byte_len ≡ true
      → sync floats model (length r.context) r.context overlap r.state ≡ ok s₁
      → decode_symbol floats model r.dec s₁ ≡ ok (symbol, dec')
      → symbol_bytes tokenizer model.rows escapes symbol ≡ ok piece
      → is_empty piece ≡ false
      → push_decoded floats model escapes symbol r.context s₁ ≡ ok (context', s₂)
      → decode_from floats model tokenizer byte_len overlap escapes (suc fuel) r
        ≡ decode_from floats model tokenizer byte_len overlap escapes fuel (record {
          context = context';
          symbols = r.symbols ++ symbol ∷ [];
          bytes = r.bytes ++ piece;
          state = s₂;
          dec = dec';
        })
  unfolding decode_from decode_round
  decode_step byte_len fuel r symbol piece context' s₁ s₂ dec' h₁ h₂ h₃ h₄ h₅ h₆ =
      rw (h₁, h₂, h₃, h₄, h₅, h₆) refl

  -- What the encoder's loop puts behind the bytes of `e`, the decoder's loop reads.
  unfoldable pub Read :
      List ℕ → List ℕ → List ℕ → State floats model → RangeEncoder → RangeEncoder → Type 0
  Read symbols bytes context s e last =
      (rest : List ℕ) × (Encoder.finish last ≡ e.out ++ rest)
      × Covers e.low e.range rest
      × ((byte_len fuel : ℕ) (done out : List ℕ)
          → byte_len ≡ length done + length bytes
          → length bytes ≤ fuel
          → decode_from floats model tokenizer byte_len overlap escapes fuel (record {
            context = context;
            symbols = out;
            bytes = done;
            state = s;
            dec = follow e rest;
          })
            ≡ ok (record { bytes = done ++ bytes; symbols = out ++ symbols }))

  Read-nil :
      (context : List ℕ) (s : State floats model) (e : RangeEncoder)
      → IsReady e
      → Read [] [] context s e e
  unfolding Read
  Read-nil context s e ready =
      let (rest, written, covers) = finish-Covers ready in
      (
        rest,
        written,
        covers,
        λ byte_len fuel done out same enough.
            let full : ltb (length done) byte_len ≡ false = ground arith in
            decode_end byte_len fuel _ full
            ∙ ap₂ (λ (b o : List ℕ). ok (record { bytes = b; symbols = o })) (sym (append-nil done))
                (sym (append-nil out)),
      )

  Read-cons :
      (symbol : ℕ) (symbols piece bytes context : List ℕ) (s : State floats model)
      (e last : RangeEncoder) (n : ℕ)
      → IsReady e
      → Even n s.table
      → symbol_bytes tokenizer model.rows escapes symbol ≡ ok piece
      → is_empty piece ≡ false
      → (r : Round symbol context s e) → Read symbols bytes r.context' r.s₂ r.e' last
      → Read (symbol ∷ symbols) (piece ++ bytes) context s e last
  unfolding Read Follows
  Read-cons symbol symbols piece bytes context s e last n ready even stands some_byte r
        (rest', written, covers', more) =
      let even' : Even n r.s₁.table =
        subst (Even n) (sym (sync-table floats model (length context) context overlap s r.synced))
          even in
      let (rest, same, covers, told) =
        decode_symbol-Follows floats model r.s₁ e r.e' n symbol r.r rest' even' ready r.ranged
          r.encoded covers' in
      let (pushed, kept) =
        push_decoded-push_encoded floats model escapes symbol context r.s₁ r.pushed in
      (
        rest,
        written ∙ sym same,
        covers,
        λ byte_len fuel done out whole enough.
            let pos : 0 < length piece = (is_empty_iff piece).0 some_byte in
            let long : byte_len ≡ length done + (length piece + length bytes) =
              whole ∙ ap (λ k. length done + k) (length-append piece bytes) in
            let (fuel', is_suc) = suc_of_lt fuel (omega (arith, length-append piece bytes)) in
            let step =
              decode_step byte_len fuel'
                (record {
                  context = context;
                  symbols = out;
                  bytes = done;
                  state = s;
                  dec = follow e rest;
                })
                symbol piece r.context' r.s₁ r.s₂ (follow r.e' rest') (ground arith) r.synced told
                stands some_byte pushed in
            let after =
              more byte_len fuel' (done ++ piece) (out ++ symbol ∷ [])
                (omega (arith, length-append done piece))
                (omega (arith, length-append piece bytes)) in
            rw is_suc (
              step
              ∙ after
              ∙ ap₂ (λ (b o : List ℕ). ok (record { bytes = b; symbols = o }))
                  (append_assoc done piece bytes) (append_assoc out (symbol ∷ []) symbols)),
      )

  pub encode_symbols-Read :
      (symbols bytes context : List ℕ) (s : State floats model) (e last : RangeEncoder) (n : ℕ)
      → IsReady e
      → Even n s.table
      → StandFor tokenizer model.rows escapes symbols bytes
      → encode_symbols floats model escapes overlap symbols context s e ≡ ok last
      → Read symbols bytes context s e last
  unfolding StandFor encode_symbols
  encode_symbols-Read [] bytes context s e last n ready even stands run =
      subst (λ bytes. Read [] bytes context s e last) (sym stands)
        (subst (Read [] [] context s e) (ok-injective run) (Read-nil context s e ready))
  encode_symbols-Read (symbol ∷ symbols) bytes context s e last n ready even
        (piece, rest, found, some_byte, stands, same) run =
      let (r, more) = encode_symbols-Round symbol symbols context s e run in
      let (next, encoded, ready') =
        encode-IsReady ready (encode-IsSymbol e r.r.cum r.r.freq r.r.total r.encoded) in
      let ready'' : IsReady r.e' = subst IsReady (ok-injective (sym encoded ∙ r.encoded)) ready' in
      let (pushed, kept) =
        push_decoded-push_encoded floats model escapes symbol context r.s₁ r.pushed in
      let table_same = kept ∙ sync-table floats model (length context) context overlap s r.synced in
      let even' : Even n r.s₂.table = subst (Even n) (sym table_same) even in
      subst (λ bytes. Read (symbol ∷ symbols) bytes context s e last) (sym same)
        (Read-cons symbol symbols piece rest context s e last n ready even found some_byte r
          (encode_symbols-Read symbols rest r.context' r.s₂ r.e' last n ready'' even' stands more))
