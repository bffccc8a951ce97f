-- ===== src/Codec/File/RoundTrip.antt =====
-- `decompress` restores what `compress` was given, from file to file.
use detllm.Base.{
  ℕ, ◌/◌, ◌^◌, ◌<◌, ◌≡◌, ◌∙◌, refl, sym, ap, subst, true, false, none, some, List, All, IsByte,
  length, ok, >>=-eq-ok, guard-eq-ok, map_err-eq-ok, ok_or-eq-ok, if-eq-ok, same_bytes, insert,
  insert_self, insert_other, bytes_eq, some-injective,
}
use detllm.Num.Sha256.{new, update}
use detllm.Num.Sha256.Digest.{length-finalize}
use detllm.Coder.Cdf.Logits.{Floats}
use detllm.Coder.Header.{DtlzHeader, decode, header_len}
use detllm.Gguf.Parse.{Gguf}
use detllm.Codec.Model.{Model}
use detllm.Codec.Load.{LoadedModel, load, load-Loaded}
use detllm.Codec.File.{
  IoModelOpts, Files, World, unwrap_or, header_of, compress_bytes, decompress_payload, compress,
  decompress, get_from, read, load_file, load_failed,
}
use detllm.Codec.File.Payload.{
  Compressed, check_window-le, compress_bytes-Compressed, decompress-Compressed, decode-Compressed,
}

module _ (floats : Floats) where
  module _ (world : World floats.F32) where
    -- The steps of a successful `compress`.
    record Done (opts : IoModelOpts) (files after : Files) : Type 1 where
      input : List ℕ
      file : List ℕ
      m : LoadedModel floats.F32
      out : List ℕ
      input_at : files opts.input ≡ some input
      model_at : files opts.model ≡ some file
      loaded : load world.valid_utf8 world.load_model file ≡ ok m
      written : compress_bytes floats m opts.n_ctx input ≡ ok out
      result : after ≡ insert opts.output out files

    compress-Done :
        (opts : IoModelOpts) (files after : Files)
        → compress floats world opts files ≡ ok after
        → Done opts files after
    unfolding compress
    compress-Done opts files after h =
        let (threads, h₁) = guard-eq-ok (world.set_thread_count opts.threads) _ _ h in
        let (input, input_at, h₂) = >>=-eq-ok (read files opts.input) _ h₁ in
        let (m, loaded, h₃) = >>=-eq-ok (load_file floats world files opts.model) _ h₂ in
        let (file, model_at, loaded') = >>=-eq-ok (read files opts.model) _ loaded in
        let (out, written, h₄) = >>=-eq-ok (compress_bytes floats m opts.n_ctx input) _ h₃ in
        let (allowed, same) = if-eq-ok (world.writable opts.output) _ _ h₄ in
        record {
          input = input;
          file = file;
          m = m;
          out = out;
          input_at = ok_or-eq-ok (files opts.input) _ input_at;
          model_at = ok_or-eq-ok (files opts.model) _ model_at;
          loaded = map_err-eq-ok load_failed _ loaded';
          written = written;
          result = sym same;
        }

    -- The steps of `decompress`, when each of them gives a value.
    decompress_steps :
        (opts : IoModelOpts) (files : Files) (encoded payload file restored : List ℕ)
        (header : DtlzHeader) (m : LoadedModel floats.F32)
        → opts.n_ctx ≡ none
        → world.set_thread_count opts.threads ≡ true
        → files opts.input ≡ some encoded
        → decode encoded ≡ ok header
        → get_from header_len encoded ≡ some payload
        → files opts.model ≡ some file
        → load world.valid_utf8 world.load_model file ≡ ok m
        → decompress_payload floats m header payload ≡ ok restored
        → world.writable opts.output ≡ true
        → decompress floats world opts files ≡ ok (insert opts.output restored files)
    unfolding decompress
    decompress_steps opts files encoded payload file restored header m h₁ h₂ h₃ h₄ h₅ h₆ h₇ h₈ h₉ =
        rw (h₁, h₂, h₃, h₄, h₅, h₆, h₇, h₈, h₉) refl

    -- `F32Llama::from_gguf` reads the context length with `metadata_u32`.
    pub record IsLawful : Type 1 where
      pub context_word :
          (gguf : Gguf) (bytes : List ℕ) (model : Model floats.F32)
          → world.load_model gguf bytes ≡ some model
          → model.context_length < 2 ^ 32

    -- If `compress` writes a file, then `decompress` with the same model file, asked to read that
    -- file, writes the input of `compress` again: for every input of bytes whose length is a word,
    -- every `--n-ctx` that `compress` takes, and every model, tokenizer and floating point
    -- arithmetic. The output of `compress` must not be the path of the model, `decompress` is given
    -- no `--n-ctx`, a number of threads that can be set and a path that can be written, and the
    -- context length that a model has is below `2 ^ 32`.
    pub decompress-compress :
        IsLawful
        → (opts back : IoModelOpts) (files after : Files) (input : List ℕ)
        → compress floats world opts files ≡ ok after
        → files opts.input ≡ some input
        → All IsByte input
        → length input < 2 ^ 64
        → same_bytes opts.output opts.model ≡ false
        → back.model ≡ opts.model
        → back.input ≡ opts.output
        → back.n_ctx ≡ none
        → world.set_thread_count back.threads ≡ true
        → world.writable back.output ≡ true
        → decompress floats world back after ≡ ok (insert back.output input after)
    decompress-compress lawful opts back files after input run input_at bytes fits apart model_same
          read_back no_n_ctx threads writable =
        let d = compress-Done opts files after run in
        let same : d.input ≡ input = some-injective (sym d.input_at ∙ input_at) in
        let loaded = load-Loaded world.valid_utf8 world.load_model d.file d.loaded in
        let c =
          subst
            (λ input.
              Compressed floats d.m (unwrap_or opts.n_ctx d.m.model.context_length) input d.out)
            same (compress_bytes-Compressed floats d.m opts.n_ctx d.input d.out d.written) in
        let n_ctx = unwrap_or opts.n_ctx d.m.model.context_length in
        let small : n_ctx < 2 ^ 32 =
          check_window-le n_ctx (n_ctx / 4) d.m.model.context_length c.checked
            (lawful.context_word loaded.gguf d.file d.m.model loaded.from_file) in
        let hash : length d.m.model_sha256 ≡ 32 =
          ap length loaded.hash ∙ length-finalize (update new d.file) in
        let (decoded, behind) = decode-Compressed floats d.m n_ctx input d.out hash small fits c in
        decompress_steps back after d.out c.payload d.file input
          (header_of floats d.m.model_sha256 n_ctx input) d.m no_n_ctx threads
          (ap after read_back ∙ rw d.result (insert_self opts.output d.out files)) decoded behind
          (ap after model_same
            ∙ rw d.result (insert_other opts.output d.out files apart ∙ d.model_at))
          d.loaded
          (decompress-Compressed floats world.valid_utf8 world.load_model d.file d.m n_ctx input
            d.out loaded small bytes fits c)
          writable
