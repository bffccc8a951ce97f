-- ===== src/Lib.antt =====
-- Verification of detllm, a lossless text compressor whose probabilities come from a language model
-- that is computed deterministically.
--
-- How the parts interact. `det-gguf` reads the model file, `det-model` computes logits from it,
-- `det-coder` turns logits into integer frequency tables and codes one symbol at a time with a range
-- coder, `det-token` maps text to symbols, and `det-cli` writes a header and the coded symbols. A
-- stream can be read back only if the encoder and the decoder go through the same integers.
--
-- Base holds the shared helpers: Tests the Boolean tests on numbers, Lists the list functions over
-- native numbers, Outcomes the results of calls (`ok`, `err`, `panic` for a failed index or an
-- overflow with overflow checks on, `stuck` for a loop that ran out of fuel), Words the operators of
-- Rust at 64 bits, Bits the laws of masks, Bytes little-endian numbers and slices,
-- Maps maps and arrays over bytes as functions from their keys.
--
-- Coder is crates/det-coder/src.
--   Coder/Range (range.rs): `RangeEncoder` in Encoder, `RangeDecoder` in Decoder, `validate` and
--   `normalize_step` in Range. A method takes the encoder or decoder and gives the next one. The
--   loops of both `renorm` methods have 16 rounds of fuel: a round moves the range up by a byte, and
--   from 1 on it is at least 2^48 within that many rounds.
--   Coder/Cdf (cdf.rs): `Cdf`, its `validate` and lookups, the uniform tables, and
--   `DecoderDistribution`; Coder/Cdf/Logits the functions on logits, where the operations on `f32`
--   and those of crates/det-num are fields of the record `Floats`.
--   Coder/Stream (stream.rs): `encode_token_stream` and `decode_token_stream`.
--   Coder/Header (file.rs): `DtlzHeader`.
--
-- Gguf is crates/det-gguf/src/lib.rs: Types is `GgmlType`, Reader is `Reader`, Value is
-- `MetadataValue` and `read_value`, Layout the sizes and ranges of tensors, Parse `parse` and the
-- lookups. `std::str::from_utf8` is the parameter `valid_utf8`, the cast of `f64` to `f32` the
-- parameter of `metadata_f32`; floating-point values are their bits. The loops of the parser run
-- on the counts in the file and need no fuel.
--
-- Token is crates/det-token/src/lib.rs: Pieces the texts of the vocabulary, Metadata what is read
-- from a model file, Coverage the coverage of the bytes, Fallback, Bpe and SentencePiece the three
-- tokenizers (Bpe/Merge is the merge loop), Spelling what they share, and Codec `Tokenizer` with the
-- symbols of the codec. The merge loop has `3 n` rounds of fuel for `n` bytes: each round takes an
-- entry from the heap, which begins with at most `n - 1`, and adds two only when it kills one of `n`
-- tokens. The loops over a position have as many rounds as the input has bytes, and take at least
-- one each. The heap is a list whose least entry is popped.
--
-- Codec is the windowed codec of crates/det-cli/src/main.rs: Codec itself the window
-- (`validate_window`, `next_window_start`), State `WindowedModelState`, Symbols
-- `encode_symbols_with_model` and `decode_bytes_with_model`, Load `LoadedModel::load` with its
-- checks, and File `compress` and `decompress` from their options on, over the files as a map from paths to
-- bytes; what they use of other crates and of the system is the record `World`. The model of
-- crates/det-model is the parameter `Model`: its step may be any function of the token, the place,
-- the cache, the logits and the buffer. The decoder's loop has as many rounds of fuel as bytes are
-- asked for, since it refuses a symbol without bytes.
--
-- Num is crates/det-num/src: Sha256 is hash.rs (Sha256/Padding says what the hash of a whole message
-- is), Half is f16.rs, with floats as their bits, and Reduce is reduce.rs, over any addition and
-- multiplication. The loop of `update` has a 64th of the input as fuel, since a round takes 64 bytes;
-- that of `f16_to_f32` has 10 rounds for a fraction of 10 bits.
--
-- Llama is crates/det-model/src/lib.rs: Config is `LlamaConfig` and Cache is `KvCache`, with floats
-- as their bits. The rest of that crate is the parameter `Model` of Codec.
--
-- A `usize` has 64 bits, as on the targets of the program; a `Vec` is a list, without its capacity.
-- A method that fails before it writes leaves its caller with the state that it had.
--
-- Not modelled: the matrices and the forward pass of crates/det-model, and crates/det-quant
-- (floating-point tensor code), the rest of crates/det-num (rounding and self-tests in floating
-- point, a copy of libm), the rest of crates/det-cli and xtask (argument parsing, printing,
-- self-tests, benchmarks), the scripts.
pub mod Base
pub mod Codec
pub mod Coder
pub mod Gguf
pub mod Llama
pub mod Num
pub mod Token
