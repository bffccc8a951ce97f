-- ===== src/Codec/File.antt =====
-- crates/det-cli/src/main.rs: the commands `compress` and `decompress`, from their options on.
pub mod Payload
pub mod RoundTrip
mod Tests
use detllm.Base.{
  ℕ, ◌+◌, ◌/◌, ◌%◌, ◌^◌, bit_and, Bool, true, false, not, Option, none, some, List, ◌++◌, ltb, leb,
  ◌==◌, if◌then◌else◌, length, take, drop, Outcome, ok, err, panic, ◌>>=◌, ◌>>◌, guard, ok_or,
  map_err, is_some, same_bytes, Map, insert, bytes_eq,
}
use detllm.Coder.Header.{
  DtlzHeader, FileError, decode, encode_checked, flag_byte_escapes, header_len,
}
use detllm.Coder.Cdf.Logits.{Floats}
use detllm.Gguf.Parse.{Gguf}
use detllm.Token.{TokenError}
use detllm.Token.Codec.{codec_symbols}
use detllm.Codec.{validate_window}
use detllm.Codec.Model.{CodecError, Model, window}
use detllm.Codec.Symbols.{DecodedBytes, encode_symbols_with_model, decode_bytes_with_model}
use detllm.Codec.Load.{LoadError, LoadedModel, load}

pub record IoModelOpts : Type 0 where
  pub model : List ℕ
  pub input : List ℕ
  pub output : List ℕ
  pub n_ctx : Option ℕ
  pub threads : Option ℕ

-- The messages of the two commands.
pub data CommandError : Type 0 where
  thread_count n_ctx_is_stored truncated_payload wrong_model orig_len_too_large not_canonical :
      CommandError
  unreadable unwritable : List ℕ → CommandError
  load_failed : LoadError → CommandError
  tokenize : TokenError → CommandError
  codec : CodecError → CommandError
  header_error : FileError → CommandError

-- The files by their paths.
abbrev pub Files : Type 0
Files = Map (List ℕ) (List ℕ)

-- What the commands use of other crates and of the system: `str::from_utf8`, `F32Llama::from_gguf`,
-- `set_thread_count` of crates/det-model, and whether a path can be written.
pub record World (F32 : Type 0) : Type 1 where
  pub valid_utf8 : List ℕ → Bool
  pub load_model : Gguf → List ℕ → Option (Model F32)
  pub set_thread_count : Option ℕ → Bool
  pub writable : List ℕ → Bool

-- `fs::read`.
abbrev pub read : Files → List ℕ → Outcome CommandError (List ℕ)
read files path = ok_or (files path) (unreadable path)

-- `unwrap_or`.
abbrev pub unwrap_or : Option ℕ → ℕ → ℕ
unwrap_or none d = d
unwrap_or (some n) d = n

-- `bytes.get(from..)`.
abbrev pub get_from : ℕ → List ℕ → Option (List ℕ)
get_from from bytes = if leb from (length bytes) then some (drop from bytes) else none

-- `&bytes[..to]`.
abbrev pub upto : ℕ → List ℕ → Outcome CommandError (List ℕ)
upto to bytes = if leb to (length bytes) then ok (take to bytes) else panic

-- The window as `validate_window` takes it.
abbrev pub check_window : ℕ → ℕ → ℕ → Outcome CommandError (Unit {0})
check_window n_ctx overlap model_ctx =
    map_err (λ e. codec (window e)) (validate_window n_ctx overlap model_ctx)

module _ (floats : Floats) where
  -- The header that `compress` writes: `n_ctx` and `overlap` as `u32`.
  abbrev pub header_of : List ℕ → ℕ → List ℕ → DtlzHeader
  header_of model_sha256 n_ctx input = record {
    flags = flag_byte_escapes;
    model_sha256 = model_sha256;
    n_ctx = n_ctx % 2 ^ 32;
    overlap = n_ctx / 4 % 2 ^ 32;
    orig_len = length input;
  }

  -- What `compress` writes for the bytes that it has read.
  unfoldable pub compress_bytes :
      LoadedModel floats.F32 → Option ℕ → List ℕ → Outcome CommandError (List ℕ)
  compress_bytes m given input = do
    symbols ← map_err tokenize (codec_symbols m.tokenizer input m.model.rows)
    let n_ctx = unwrap_or given m.model.context_length
    check_window n_ctx (n_ctx / 4) m.model.context_length
    payload ←
        map_err codec (encode_symbols_with_model floats m.model symbols n_ctx (n_ctx / 4) true)
    header ← map_err header_error (encode_checked (header_of m.model_sha256 n_ctx input))
    ok (header ++ payload)

  -- What `decompress` writes for a header and a payload.
  unfoldable pub decompress_payload :
      LoadedModel floats.F32 → DtlzHeader → List ℕ → Outcome CommandError (List ℕ)
  decompress_payload m header payload = do
    guard (same_bytes m.model_sha256 header.model_sha256) wrong_model
    check_window header.n_ctx header.overlap m.model.context_length
    let use_byte_escapes = not (bit_and header.flags flag_byte_escapes == 0)
    guard (ltb header.orig_len (2 ^ 64)) orig_len_too_large
    decoded ← map_err codec (
        decode_bytes_with_model floats m.model m.tokenizer payload header.orig_len header.n_ctx
          header.overlap use_byte_escapes)
    canonical_payload ← map_err codec (
        encode_symbols_with_model floats m.model decoded.symbols header.n_ctx header.overlap
          use_byte_escapes)
    guard (same_bytes canonical_payload payload) not_canonical
    upto header.orig_len decoded.bytes

  module _ (world : World floats.F32) where
    -- `fs::write`.
    abbrev pub write : List ℕ → List ℕ → Files → Outcome CommandError Files
    write path bytes files =
        if world.writable path then ok (insert path bytes files) else err (unwritable path)

    abbrev pub load_file : Files → List ℕ → Outcome CommandError (LoadedModel floats.F32)
    load_file files path = do
      bytes ← read files path
      map_err load_failed (load world.valid_utf8 world.load_model bytes)

    unfoldable pub compress : IoModelOpts → Files → Outcome CommandError Files
    compress opts files = do
      guard (world.set_thread_count opts.threads) thread_count
      input ← read files opts.input
      loaded ← load_file files opts.model
      out ← compress_bytes loaded opts.n_ctx input
      write opts.output out files

    unfoldable pub decompress : IoModelOpts → Files → Outcome CommandError Files
    decompress opts files = do
      guard (not (is_some opts.n_ctx)) n_ctx_is_stored
      guard (world.set_thread_count opts.threads) thread_count
      encoded ← read files opts.input
      header ← map_err header_error (decode encoded)
      payload ← ok_or (get_from header_len encoded) truncated_payload
      loaded ← load_file files opts.model
      restored ← decompress_payload loaded header payload
      write opts.output restored files
