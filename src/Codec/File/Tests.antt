-- ===== src/Codec/File/Tests.antt =====
-- A file that is compressed and restored, with a small model.
use detllm.Base.{
  ℕ, ◌+◌, ◌<◌, ◌^◌, ◌≡◌, refl, subst, arith, Bool, true, false, Option, none, some, some-injective,
  List, [], ◌∷◌, ◌++◌, ltb, if◌then◌else◌, Outcome, ok, insert, no_keys, bytes_eq,
}
use detllm.Coder.Cdf.Logits.{Floats}
use detllm.Gguf.Parse.{Gguf}
use detllm.Token.Pieces.{codes}
use detllm.Codec.Tests.{numbers, three_tokens}
use detllm.Codec.Load.{load, LoadedModel}
use detllm.Codec.File.{IoModelOpts, Files, World, compress, decompress}
use detllm.Codec.File.RoundTrip.{IsLawful, decompress-compress}

-- A model file without tensors: the tokens `a`, `b` and `ab`, the merge of `a` and `b`, and the name
-- `gpt2`.
abbrev model_file : List ℕ
model_file =
    71 ∷ 71 ∷ 85 ∷ 70 ∷ 3 ∷ 0 ∷ 0 ∷ 0 ∷ 0 ∷ 0 ∷ 0 ∷ 0 ∷ 0 ∷ 0 ∷ 0 ∷ 0 ∷ 3 ∷ 0 ∷ 0 ∷ 0 ∷ 0 ∷ 0 ∷ 0
    ∷ 0 ∷ 21 ∷ 0 ∷ 0 ∷ 0 ∷ 0 ∷ 0 ∷ 0 ∷ 0 ∷ 116 ∷ 111 ∷ 107 ∷ 101 ∷ 110 ∷ 105 ∷ 122 ∷ 101 ∷ 114 ∷ 46
    ∷ 103 ∷ 103 ∷ 109 ∷ 108 ∷ 46 ∷ 116 ∷ 111 ∷ 107 ∷ 101 ∷ 110 ∷ 115 ∷ 9 ∷ 0 ∷ 0 ∷ 0 ∷ 8 ∷ 0 ∷ 0 ∷ 0
    ∷ 3 ∷ 0 ∷ 0 ∷ 0 ∷ 0 ∷ 0 ∷ 0 ∷ 0 ∷ 1 ∷ 0 ∷ 0 ∷ 0 ∷ 0 ∷ 0 ∷ 0 ∷ 0 ∷ 97 ∷ 1 ∷ 0 ∷ 0 ∷ 0 ∷ 0 ∷ 0 ∷ 0
    ∷ 0 ∷ 98 ∷ 2 ∷ 0 ∷ 0 ∷ 0 ∷ 0 ∷ 0 ∷ 0 ∷ 0 ∷ 97 ∷ 98 ∷ 21 ∷ 0 ∷ 0 ∷ 0 ∷ 0 ∷ 0 ∷ 0 ∷ 0 ∷ 116 ∷ 111
    ∷ 107 ∷ 101 ∷ 110 ∷ 105 ∷ 122 ∷ 101 ∷ 114 ∷ 46 ∷ 103 ∷ 103 ∷ 109 ∷ 108 ∷ 46 ∷ 109 ∷ 101 ∷ 114
    ∷ 103 ∷ 101 ∷ 115 ∷ 9 ∷ 0 ∷ 0 ∷ 0 ∷ 8 ∷ 0 ∷ 0 ∷ 0 ∷ 1 ∷ 0 ∷ 0 ∷ 0 ∷ 0 ∷ 0 ∷ 0 ∷ 0 ∷ 3 ∷ 0 ∷ 0
    ∷ 0 ∷ 0 ∷ 0 ∷ 0 ∷ 0 ∷ 97 ∷ 32 ∷ 98 ∷ 20 ∷ 0 ∷ 0 ∷ 0 ∷ 0 ∷ 0 ∷ 0 ∷ 0 ∷ 116 ∷ 111 ∷ 107 ∷ 101
    ∷ 110 ∷ 105 ∷ 122 ∷ 101 ∷ 114 ∷ 46 ∷ 103 ∷ 103 ∷ 109 ∷ 108 ∷ 46 ∷ 109 ∷ 111 ∷ 100 ∷ 101 ∷ 108
    ∷ 8 ∷ 0 ∷ 0 ∷ 0 ∷ 4 ∷ 0 ∷ 0 ∷ 0 ∷ 0 ∷ 0 ∷ 0 ∷ 0 ∷ 103 ∷ 112 ∷ 116 ∷ 50 ∷ 0 ∷ 0 ∷ 0 ∷ 0 ∷ 0 ∷ 0
    ∷ 0 ∷ 0 ∷ 0 ∷ 0 ∷ 0 ∷ 0 ∷ 0 ∷ 0 ∷ 0 ∷ 0 ∷ 0 ∷ 0 ∷ 0 ∷ 0 ∷ 0 ∷ 0 ∷ 0 ∷ 0 ∷ 0 ∷ 0 ∷ 0 ∷ []

abbrev world : World ℕ
world = record {
  valid_utf8 = λ bytes. true;
  load_model = λ gguf bytes. some three_tokens;
  set_thread_count = λ threads. true;
  writable = λ path. true;
}

world-IsLawful : IsLawful numbers world
world-IsLawful = record {
  context_word =
      λ gguf bytes model e. subst (λ m. m.context_length < 2 ^ 32) (some-injective e) (omega arith);
}

abbrev files : Files
files = insert (codes "in") (codes "abcabab") (insert (codes "m") model_file no_keys)

abbrev there : IoModelOpts
there = record {
  model = codes "m";
  input = codes "in";
  output = codes "out";
  n_ctx = none;
  threads = none;
}

abbrev back : IoModelOpts
back = record {
  model = codes "m";
  input = codes "out";
  output = codes "again";
  n_ctx = none;
  threads = some 2;
}

-- The header, with the hash of the model file, and the payload.
abbrev compressed : List ℕ
compressed =
    68 ∷ 84 ∷ 76 ∷ 90 ∷ 1 ∷ 0 ∷ 1 ∷ 0 ∷ 245 ∷ 33 ∷ 100 ∷ 241 ∷ 227 ∷ 233 ∷ 116 ∷ 176 ∷ 110 ∷ 104
    ∷ 88 ∷ 115 ∷ 235 ∷ 188 ∷ 72 ∷ 61 ∷ 224 ∷ 206 ∷ 13 ∷ 30 ∷ 92 ∷ 180 ∷ 142 ∷ 136 ∷ 72 ∷ 32 ∷ 99
    ∷ 43 ∷ 82 ∷ 45 ∷ 50 ∷ 25 ∷ 2 ∷ 0 ∷ 0 ∷ 0 ∷ 0 ∷ 0 ∷ 0 ∷ 0 ∷ 7 ∷ 0 ∷ 0 ∷ 0 ∷ 0 ∷ 0 ∷ 0 ∷ 0 ∷ 2
    ∷ 96 ∷ 166 ∷ 147 ∷ 167 ∷ 34 ∷ 97 ∷ 1 ∷ 197 ∷ 206 ∷ 0 ∷ []

abbrev after : Files
after = insert (codes "out") compressed files

file_is_written : compress numbers world there files ≡ ok after
unfolding detllm.Num.Sha256.word_at detllm.Num.Sha256.to_be_bytes detllm.Num.Sha256.block_words
    detllm.Num.Sha256.next_word detllm.Num.Sha256.extend detllm.Num.Sha256.mix
    detllm.Num.Sha256.mix_all detllm.Num.Sha256.compress detllm.Num.Sha256.fill
    detllm.Num.Sha256.whole_blocks detllm.Num.Sha256.absorb detllm.Num.Sha256.update
    detllm.Num.Sha256.words_bytes detllm.Num.Sha256.last_block detllm.Num.Sha256.finalize
    detllm.Gguf.Reader.read_exact detllm.Gguf.Reader.ensure_count detllm.Gguf.Reader.word
    detllm.Gguf.Reader.index_from detllm.Gguf.Reader.string detllm.Gguf.Reader.read_many
    detllm.Gguf.Value.min_elem_bytes detllm.Gguf.Value.read_array detllm.Gguf.Value.read_counted
    detllm.Gguf.Value.read_value detllm.Gguf.Layout.data_ranges
    detllm.Gguf.Layout.validate_tensor_data_layout detllm.Gguf.Layout.sort
    detllm.Gguf.Layout.check_windows detllm.Gguf.Parse.get detllm.Gguf.Parse.insert_new
    detllm.Gguf.Parse.has_name detllm.Gguf.Parse.align_up detllm.Gguf.Parse.read_metadata
    detllm.Gguf.Parse.read_tensors detllm.Gguf.Parse.parse_inner detllm.Gguf.Parse.parse
    detllm.Gguf.Parse.metadata_value detllm.Token.Codec.from_gguf detllm.Token.Codec.codec_symbols
    detllm.Token.Codec.codec_symbol_is_token detllm.Codec.Load.string_count
    detllm.Codec.Load.gguf_token_vocab_len detllm.Codec.Load.validate_vocab_lengths
    detllm.Codec.Load.validate_codec_vocab_len detllm.Coder.Header.encode
    detllm.Coder.Header.validate detllm.Coder.Header.encode_checked detllm.Codec.File.compress_bytes
    detllm.Codec.Symbols.encode_symbols_with_model detllm.Codec.Symbols.push_encoded
    detllm.Codec.Symbols.push_token detllm.Codec.Symbols.encode_symbols
    detllm.Coder.Cdf.uniform_cdf_with_byte_escapes detllm.Coder.Cdf.uniform_cdf
    detllm.Coder.Cdf.uniform_symbol_range detllm.Coder.Cdf.count_up detllm.Codec.State.sync
    detllm.Codec.State.symbol_range detllm.Codec.State.advance detllm.Codec.State.advance_all
    detllm.Codec.State.new detllm.Codec.State.replay detllm.Codec.State.uniform_table
    detllm.Coder.Range.validate detllm.Coder.Range.normalize_step detllm.Coder.Range.Encoder.encode
    detllm.Coder.Range.Encoder.new detllm.Coder.Range.Encoder.renorm
    detllm.Coder.Range.Encoder.finish detllm.Coder.Range.Encoder.flush
    detllm.Coder.Range.Encoder.shift_out
    detllm.Coder.Cdf.Logits.logits_to_symbol_range_with_byte_escapes
    detllm.Coder.Cdf.Logits.logits_to_symbol_range_impl detllm.Coder.Cdf.Logits.greatest
    detllm.Coder.Cdf.Logits.count detllm.Coder.Cdf.Logits.fill_exp_scratch
    detllm.Coder.Cdf.Logits.find_range detllm.Coder.Cdf.Logits.tail_range
    detllm.Codec.next_window_start detllm.Codec.validate_window compress load insert
    detllm.Base.same_bytes detllm.Base.from_le_bytes detllm.Base.to_le_bytes detllm.Base.copy_at
file_is_written = refl

input_is_there : files (codes "in") ≡ some (codes "abcabab")
unfolding insert detllm.Base.same_bytes
input_is_there = refl

paths_differ : detllm.Base.same_bytes (codes "out") (codes "m") ≡ false
unfolding detllm.Base.same_bytes
paths_differ = refl

decompress-compress_example :
    decompress numbers world back after ≡ ok (insert (codes "again") (codes "abcabab") after)
decompress-compress_example =
    decompress-compress numbers world world-IsLawful there back files after (codes "abcabab")
      file_is_written input_is_there
      (
        omega arith,
        (
          omega arith,
          (omega arith, (omega arith, (omega arith, (omega arith, (omega arith, tt))))),
        ),
      )
      (omega arith) paths_differ refl refl refl refl refl
