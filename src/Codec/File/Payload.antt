-- ===== src/Codec/File/Payload.antt =====
-- crates/det-cli/src/main.rs: `decompress` undoes `compress`, from the header and the payload of a
-- file.
use detllm.Base.{
  ℕ, ◌/◌, ◌%◌, ◌^◌, ◌<◌, ◌≡◌, ◌∙◌, refl, sym, ap, subst, arith, Bool, true, Option, some, List, [],
  ◌∷◌, ◌++◌, All, IsByte, ltb, leb, length, length-append, take-all, drop-length-append, ok,
  >>=-eq-ok, map_err, map_err-eq-ok, same_bytes, same_bytes_iff, bytes_eq, ok-injective,
}
use detllm.Coder.Cdf.Logits.{Floats}
use detllm.Coder.Header.{
  DtlzHeader, decode, encode, encode_checked, validate, flag_byte_escapes, header_len,
}
use detllm.Coder.Header.RoundTrip.{IsTyped, encode_lem, length-upto_orig_len, decode-encode}
use detllm.Gguf.Parse.{Gguf}
use detllm.Token.Codec.{Tokenizer, codec_symbols}
use detllm.Token.Codec.RoundTrip.{Decodes, codec_symbols-Decodes}
use detllm.Codec.{validate_window}
use detllm.Codec.Model.{Model}
use detllm.Codec.Symbols.{symbol_bytes, encode_symbols_with_model, decode_bytes_with_model}
use detllm.Codec.Symbols.Read.{StandFor}
use detllm.Codec.Symbols.RoundTrip.{decode-encode_symbols_with_model}
use detllm.Codec.Load.{LoadedModel, Loaded}
use detllm.Codec.File.{
  unwrap_or, check_window, header_of, compress_bytes, decompress_payload, upto, get_from, codec,
  tokenize, header_error,
}

Decodes-StandFor :
    (t : Tokenizer) (vocab_len : ℕ) (symbols bytes : List ℕ)
    → Decodes t vocab_len symbols bytes
    → StandFor t vocab_len true symbols bytes
unfolding Decodes StandFor symbol_bytes
Decodes-StandFor t vocab_len [] bytes h = h
Decodes-StandFor t vocab_len (symbol ∷ symbols) bytes (piece, rest, found, full, more, same) =
    (piece, rest, rw found refl, full, Decodes-StandFor t vocab_len symbols rest more, same)

upto-all : (bytes : List ℕ) → upto (length bytes) bytes ≡ ok bytes
upto-all bytes =
    let inside : leb (length bytes) (length bytes) ≡ true = ground arith in
    rw (inside, take-all (length bytes) bytes refl) refl

pub check_window-le :
    (n_ctx overlap model_ctx : ℕ)
    → check_window n_ctx overlap model_ctx ≡ ok tt
    → model_ctx < 2 ^ 32
    → n_ctx < 2 ^ 32
unfolding validate_window
check_window-le n_ctx overlap model_ctx h small = ground arith

module _ (floats : Floats) where
  -- What a run of `compress_bytes` shows.
  pub record Compressed (m : LoadedModel floats.F32) (n_ctx : ℕ) (input out : List ℕ) : Type 0 where
    pub symbols : List ℕ
    pub payload : List ℕ
    pub symbols_of : codec_symbols m.tokenizer input m.model.rows ≡ ok symbols
    pub checked : check_window n_ctx (n_ctx / 4) m.model.context_length ≡ ok tt
    pub coded : encode_symbols_with_model floats m.model symbols n_ctx (n_ctx / 4) true ≡ ok payload
    pub valid : validate (header_of floats m.model_sha256 n_ctx input) ≡ ok tt
    pub whole : out ≡ encode (header_of floats m.model_sha256 n_ctx input) ++ payload

  pub compress_bytes-Compressed :
      (m : LoadedModel floats.F32) (given : Option ℕ) (input out : List ℕ)
      → compress_bytes floats m given input ≡ ok out
      → Compressed m (unwrap_or given m.model.context_length) input out
  unfolding compress_bytes encode_checked
  compress_bytes-Compressed m given input out h =
      let n_ctx = unwrap_or given m.model.context_length in
      let (symbols, symbols_of, h₁) =
        >>=-eq-ok (map_err tokenize (codec_symbols m.tokenizer input m.model.rows)) _ h in
      let (u, checked, h₂) =
        >>=-eq-ok (check_window n_ctx (n_ctx / 4) m.model.context_length) _ h₁ in
      let (payload, coded, h₃) =
        >>=-eq-ok
          (map_err codec (encode_symbols_with_model floats m.model symbols n_ctx (n_ctx / 4) true))
          _ h₂ in
      let (header, written, h₄) =
        >>=-eq-ok
          (map_err header_error (encode_checked (header_of floats m.model_sha256 n_ctx input))) _
          h₃ in
      let (v, valid, h₅) =
        >>=-eq-ok (validate (header_of floats m.model_sha256 n_ctx input)) _
          (map_err-eq-ok header_error _ written) in
      record {
        symbols = symbols;
        payload = payload;
        symbols_of = map_err-eq-ok tokenize _ symbols_of;
        checked = checked;
        coded = map_err-eq-ok codec _ coded;
        valid = valid;
        whole = sym (ok-injective h₄) ∙ ap (◌++ payload) (sym (ok-injective h₅));
      }

  decompress_run :
      (m : LoadedModel floats.F32) (h : DtlzHeader) (payload bytes symbols out : List ℕ)
      → m.model_sha256 ≡ h.model_sha256
      → check_window h.n_ctx h.overlap m.model.context_length ≡ ok tt
      → h.flags ≡ flag_byte_escapes
      → h.orig_len < 2 ^ 64
      → decode_bytes_with_model floats m.model m.tokenizer payload h.orig_len h.n_ctx h.overlap true
        ≡ ok (record { bytes = bytes; symbols = symbols })
      → encode_symbols_with_model floats m.model symbols h.n_ctx h.overlap true ≡ ok payload
      → upto h.orig_len bytes ≡ ok out
      → decompress_payload floats m h payload ≡ ok out
  unfolding decompress_payload
  decompress_run m h payload bytes symbols out h₁ h₂ h₃ h₄ h₅ h₆ h₇ =
      let same : same_bytes m.model_sha256 h.model_sha256 ≡ true = (same_bytes_iff _ _).1 h₁ in
      let fits : ltb h.orig_len (2 ^ 64) ≡ true = ground arith in
      let canonical : same_bytes payload payload ≡ true = (same_bytes_iff payload payload).1 refl in
      rw (same, h₂, h₃, fits, h₅, h₆, canonical) h₇

  -- `decompress_payload` gives back what `compress_bytes` was given, from the header and the
  -- payload of its file.
  pub decompress-Compressed :
      (valid_utf8 : List ℕ → Bool) (load_model : Gguf → List ℕ → Option (Model floats.F32))
      (file : List ℕ) (m : LoadedModel floats.F32) (n_ctx : ℕ) (input out : List ℕ)
      → Loaded valid_utf8 load_model file m
      → n_ctx < 2 ^ 32
      → All IsByte input
      → length input < 2 ^ 64
      → (c : Compressed m n_ctx input out)
      → decompress_payload floats m (header_of floats m.model_sha256 n_ctx input) c.payload
        ≡ ok input
  decompress-Compressed valid_utf8 load_model file m n_ctx input out loaded small bytes fits c =
      let (symbols, found, all, stands) =
        codec_symbols-Decodes loaded.gguf loaded.tokens m.tokenizer m.model.rows input loaded.given
          loaded.built (omega (arith, loaded.agree)) (omega (arith, loaded.room)) bytes in
      let same : symbols ≡ c.symbols = ok-injective (sym found ∙ c.symbols_of) in
      let stands' : StandFor m.tokenizer m.model.rows true c.symbols input =
        subst (λ symbols. StandFor m.tokenizer m.model.rows true symbols input) same
          (Decodes-StandFor m.tokenizer m.model.rows symbols input stands) in
      let whole : n_ctx % 2 ^ 32 ≡ n_ctx = omega arith in
      let quarter : n_ctx / 4 % 2 ^ 32 ≡ n_ctx / 4 = omega arith in
      decompress_run m (header_of floats m.model_sha256 n_ctx input) c.payload input c.symbols input
        refl (rw (whole, quarter) c.checked) refl fits
        (rw (whole, quarter)
          (decode-encode_symbols_with_model floats m.model m.tokenizer c.symbols input c.payload
            n_ctx (n_ctx / 4) true stands' c.coded))
        (rw (whole, quarter) c.coded) (upto-all input)

  pub decode-Compressed :
      (m : LoadedModel floats.F32) (n_ctx : ℕ) (input out : List ℕ)
      → length m.model_sha256 ≡ 32
      → n_ctx < 2 ^ 32
      → length input < 2 ^ 64
      → (c : Compressed m n_ctx input out)
      → (decode out ≡ ok (header_of floats m.model_sha256 n_ctx input))
        × (get_from header_len out ≡ some c.payload)
  decode-Compressed m n_ctx input out hash small fits c =
      let header = header_of floats m.model_sha256 n_ctx input in
      let typed : IsTyped header = record {
        flags_word = omega arith;
        hash_length = hash;
        n_ctx_word = omega arith;
        overlap_word = omega arith;
        orig_len_word = fits;
      } in
      let width : length (encode header) ≡ 56 =
        ap length (encode_lem header typed) ∙ length-upto_orig_len header typed in
      let inside : leb 56 (length (encode header ++ c.payload)) ≡ true =
        ground (arith, length-append (encode header) c.payload) in
      rw c.whole (
        decode-encode header typed c.payload ∙ rw c.valid refl,
        rw inside (ap some (drop-length-append 56 (encode header) c.payload width)),
      )
