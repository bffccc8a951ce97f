-- ===== src/Codec/Symbols/RoundTrip.antt =====
-- `decode_bytes_with_model` gives back what `encode_symbols_with_model` was given.
use detllm.Base.{
  ℕ, ◌≡◌, ◌∙◌, sym, ap, arith, Bool, List, [], length, Outcome, ok, ◌>>=◌, ◌>>◌, >>=-eq-ok, map_err,
  ok-injective,
}
use detllm.Coder.Range.Encoder.{RangeEncoder}
use detllm.Coder.Range.Encoder
use detllm.Coder.Range.Decoder.{RangeDecoder}
use detllm.Coder.Range.Decoder
use detllm.Coder.Range.Follow.{follow}
use detllm.Coder.Range.Ends.{new-IsReady, new_lem}
use detllm.Coder.Cdf.Logits.{Floats}
use detllm.Token.Codec.{Tokenizer}
use detllm.Codec.{validate_window}
use detllm.Codec.Model.{CodecError, Model, window, range}
use detllm.Codec.State.{State, new}
use detllm.Codec.Symbols.{
  DecodedBytes, encode_symbols, encode_symbols_with_model, decode_from, decode_bytes_with_model,
}
use detllm.Codec.Symbols.Table.{new-Even}
use detllm.Codec.Symbols.Read.{StandFor, Read, encode_symbols-Read}

decode_run :
    (floats : Floats) (model : Model floats.F32) (tokenizer : Tokenizer) (payload : List ℕ)
    (byte_len n_ctx overlap : ℕ) (escapes : Bool) (s : State floats model) (dec : RangeDecoder)
    → map_err window (validate_window n_ctx overlap model.context_length) ≡ ok tt
    → Decoder.new payload ≡ ok dec
    → new floats model n_ctx escapes ≡ ok s
    → decode_bytes_with_model floats model tokenizer payload byte_len n_ctx overlap escapes
      ≡ decode_from floats model tokenizer byte_len overlap escapes byte_len
          (record { context = []; symbols = []; bytes = []; state = s; dec = dec })
unfolding decode_bytes_with_model
decode_run floats model tokenizer payload byte_len n_ctx overlap escapes s dec h₁ h₂ h₃ =
    let rest_of : RangeDecoder → State floats model → Outcome CodecError DecodedBytes = λ dec s.
      decode_from floats model tokenizer byte_len overlap escapes byte_len
        (record { context = []; symbols = []; bytes = []; state = s; dec = dec }) in
    ap
      (λ o.
        o
        >> (map_err range (Decoder.new payload) >>= λ dec.
            new floats model n_ctx escapes >>= rest_of dec))
      h₁
    ∙ ap (λ o. map_err range o >>= λ dec. new floats model n_ctx escapes >>= rest_of dec) h₂
    ∙ ap (λ o. o >>= rest_of dec) h₃

-- If `encode_symbols_with_model` writes a payload for some symbols, and each of the symbols stands
-- for at least one byte, then `decode_bytes_with_model`, asked for as many bytes as they stand for
-- together, reads these bytes and symbols from the payload. Both sides use the same model, window
-- and tokenizer; the model may compute anything.
pub decode-encode_symbols_with_model :
    (floats : Floats) (model : Model floats.F32) (tokenizer : Tokenizer)
    (symbols bytes payload : List ℕ) (n_ctx overlap : ℕ) (escapes : Bool)
    → StandFor tokenizer model.rows escapes symbols bytes
    → encode_symbols_with_model floats model symbols n_ctx overlap escapes ≡ ok payload
    → decode_bytes_with_model floats model tokenizer payload (length bytes) n_ctx overlap escapes
      ≡ ok (record { bytes = bytes; symbols = symbols })
unfolding encode_symbols_with_model Read
decode-encode_symbols_with_model floats model tokenizer symbols bytes payload n_ctx overlap escapes
      stands h =
    let (u, valid, h₁) =
      >>=-eq-ok (map_err window (validate_window n_ctx overlap model.context_length)) _ h in
    let (s, made, h₂) = >>=-eq-ok (new floats model n_ctx escapes) _ h₁ in
    let (last, run, h₃) =
      >>=-eq-ok (encode_symbols floats model escapes overlap symbols [] s Encoder.new) _ h₂ in
    let (n, even) = new-Even floats model n_ctx escapes made in
    let (rest, written, covers, read) =
      encode_symbols-Read floats model tokenizer overlap escapes symbols bytes [] s Encoder.new last
        n new-IsReady even stands run in
    let same : payload ≡ rest = sym (ok-injective h₃) ∙ (unfold Encoder.new in written) in
    let start : Decoder.new payload ≡ ok (follow Encoder.new rest) =
      ap Decoder.new same ∙ new_lem rest covers.bytes_only covers.long in
    decode_run floats model tokenizer payload (length bytes) n_ctx overlap escapes s
      (follow Encoder.new rest) valid start made
    ∙ read (length bytes) (length bytes) [] [] (omega arith) (omega arith)
