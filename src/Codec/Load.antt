-- ===== src/Codec/Load.antt =====
-- crates/det-cli/src/main.rs: `LoadedModel::load` and the checks that it makes.
use detllm.Base.{
  ℕ, ◌+◌, ◌≤◌, ◌≡◌, ◌∙◌, refl, ap, subst, arith, Bool, not, Option, some, List, ltb, ◌==◌, length,
  Outcome, ok, err, ◌>>=◌, ◌>>◌, >>=-eq-ok, guard, ok_or, ok_or-eq-ok, map_err, map_err-eq-ok,
  checked_add, ok-injective,
}
use detllm.Num.Sha256.{new, update, finalize}
use detllm.Coder.Cdf.{byte_escape_symbols, max_symbols}
use detllm.Gguf.Reader.{GgufError}
use detllm.Gguf.Value.{MetadataValue, array_string}
use detllm.Gguf.Parse.{Gguf, metadata_value, parse}
use detllm.Token.{TokenError}
use detllm.Token.Pieces.{codes}
use detllm.Token.Metadata.{gguf_tokens, read_key}
use detllm.Token.Codec.{Tokenizer, from_gguf}
use detllm.Codec.Model.{Model}

-- The messages of `load`, with what they are made of.
pub data LoadError : Type 0 where
  gguf_parse vocabulary_metadata : GgufError → LoadError
  vocabulary_type model_load symbol_count_overflow : LoadError
  tokenizer : TokenError → LoadError
  vocabulary_mismatch : ℕ → ℕ → LoadError
  symbol_limit : ℕ → LoadError

pub record LoadedModel (F32 : Type 0) : Type 1 where
  pub model_sha256 : List ℕ
  pub model : Model F32
  pub tokenizer : Tokenizer

unfoldable pub string_count : MetadataValue → Outcome LoadError ℕ
string_count value = elim value [
  | array_string tokens ↦ ok (length tokens)
  | _ ↦ err vocabulary_type
]

unfoldable pub gguf_token_vocab_len : Gguf → Outcome LoadError ℕ
gguf_token_vocab_len gguf = do
  value ← map_err vocabulary_metadata (metadata_value gguf (codes "tokenizer.ggml.tokens"))
  string_count value

unfoldable pub validate_vocab_lengths : ℕ → ℕ → Outcome LoadError (Unit {0})
validate_vocab_lengths tokenizer_vocab_len model_vocab_len =
    guard (tokenizer_vocab_len == model_vocab_len)
      (vocabulary_mismatch tokenizer_vocab_len model_vocab_len)

unfoldable pub validate_codec_vocab_len : ℕ → Outcome LoadError (Unit {0})
validate_codec_vocab_len vocab_len = do
  symbol_count ← ok_or (checked_add vocab_len byte_escape_symbols) symbol_count_overflow
  guard (not (ltb max_symbols symbol_count)) (symbol_limit vocab_len)

string_count-ok :
    (value : MetadataValue) {n : ℕ}
    → string_count value ≡ ok n
    → (tokens : List (List ℕ)) × (value ≡ array_string tokens) × (length tokens ≡ n)
unfolding string_count
string_count-ok value {n} =
    elim value
      as (λ value.
        string_count value ≡ ok n
        → (tokens : List (List ℕ)) × (value ≡ array_string tokens) × (length tokens ≡ n)) [
          | array_string tokens ↦ λ h. (tokens, refl, ok-injective h)
          | _ ↦ λ h. absurd (cc h)
        ]

gguf_tokens-ok :
    (gguf : Gguf) (tokens : List (List ℕ))
    → metadata_value gguf (codes "tokenizer.ggml.tokens") ≡ ok (array_string tokens)
    → gguf_tokens gguf ≡ ok tokens
unfolding gguf_tokens read_key
gguf_tokens-ok gguf tokens h = rw h refl

-- The length is that of the tokens that the tokenizer reads.
gguf_token_vocab_len-ok :
    (gguf : Gguf) {n : ℕ}
    → gguf_token_vocab_len gguf ≡ ok n
    → (tokens : List (List ℕ)) × (gguf_tokens gguf ≡ ok tokens) × (length tokens ≡ n)
unfolding gguf_token_vocab_len
gguf_token_vocab_len-ok gguf {n} h =
    let (value, found, h₁) =
      >>=-eq-ok (map_err vocabulary_metadata (metadata_value gguf (codes "tokenizer.ggml.tokens")))
        _ h in
    let (tokens, same, count) = string_count-ok value h₁ in
    (
      tokens,
      gguf_tokens-ok gguf tokens (map_err-eq-ok vocabulary_metadata _ found ∙ ap ok same),
      count,
    )

validate_vocab_lengths-ok : (n k : ℕ) → validate_vocab_lengths n k ≡ ok tt → n ≡ k
unfolding validate_vocab_lengths
validate_vocab_lengths-ok n k h = ground arith

validate_codec_vocab_len-ok :
    (n : ℕ) → validate_codec_vocab_len n ≡ ok tt → n + byte_escape_symbols ≤ max_symbols
unfolding validate_codec_vocab_len
validate_codec_vocab_len-ok n h = ground arith

-- `valid_utf8` is the test of `str::from_utf8`, and `load_model` is `F32Llama::from_gguf` of
-- crates/det-model.
module _ {F32 : Type 0} (valid_utf8 : List ℕ → Bool)
    (load_model : Gguf → List ℕ → Option (Model F32)) where
  unfoldable pub load : List ℕ → Outcome LoadError (LoadedModel F32)
  load bytes = do
    let model_sha256 = finalize (update new bytes)
    gguf ← map_err gguf_parse (parse valid_utf8 bytes)
    tokenizer_vocab_len ← gguf_token_vocab_len gguf
    t ← map_err tokenizer (from_gguf gguf)
    model ← ok_or (load_model gguf bytes) model_load
    validate_vocab_lengths tokenizer_vocab_len model.rows
    validate_codec_vocab_len model.rows
    ok (record { model_sha256 = model_sha256; model = model; tokenizer = t })

  -- What a loaded model has: the parts of the file, which agree.
  pub record Loaded (bytes : List ℕ) (m : LoadedModel F32) : Type 1 where
    pub gguf : Gguf
    pub tokens : List (List ℕ)
    pub parsed : parse valid_utf8 bytes ≡ ok gguf
    pub given : gguf_tokens gguf ≡ ok tokens
    pub built : from_gguf gguf ≡ ok m.tokenizer
    pub from_file : load_model gguf bytes ≡ some m.model
    pub hash : m.model_sha256 ≡ finalize (update new bytes)
    pub agree : length tokens ≡ m.model.rows
    pub room : m.model.rows + byte_escape_symbols ≤ max_symbols

  -- A file that loads gives a model and a tokenizer with as many tokens as the model has rows, and
  -- with the byte escapes they are not more than the coder's symbols.
  pub load-Loaded : (bytes : List ℕ) {m : LoadedModel F32} → load bytes ≡ ok m → Loaded bytes m
  unfolding load
  load-Loaded bytes {m} h =
      let (gguf, parsed, h₁) = >>=-eq-ok (map_err gguf_parse (parse valid_utf8 bytes)) _ h in
      let (n, counted, h₂) = >>=-eq-ok (gguf_token_vocab_len gguf) _ h₁ in
      let (t, built, h₃) = >>=-eq-ok (map_err tokenizer (from_gguf gguf)) _ h₂ in
      let (model, from_file, h₄) = >>=-eq-ok (ok_or (load_model gguf bytes) model_load) _ h₃ in
      let (u, agree, h₅) = >>=-eq-ok (validate_vocab_lengths n model.rows) _ h₄ in
      let (v, room, h₆) = >>=-eq-ok (validate_codec_vocab_len model.rows) _ h₅ in
      let (tokens, given, count) = gguf_token_vocab_len-ok gguf counted in
      subst (Loaded bytes) (ok-injective h₆) (record {
        gguf = gguf;
        tokens = tokens;
        parsed = map_err-eq-ok gguf_parse _ parsed;
        given = given;
        built = map_err-eq-ok tokenizer _ built;
        from_file = ok_or-eq-ok (load_model gguf bytes) model_load from_file;
        hash = refl;
        agree = count ∙ validate_vocab_lengths-ok n model.rows agree;
        room = validate_codec_vocab_len-ok model.rows room;
      })
