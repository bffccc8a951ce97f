-- ===== src/Llama/Config.antt =====
-- crates/det-model/src/lib.rs: `LlamaConfig`. A float is its bits.
pub mod Shape
use detllm.Base.{
  ℕ, ◌/◌, ◌%◌, ◌^◌, Bool, true, false, not, ◌||◌, Option, none, some, List, [], ◌∷◌, ◌++◌, ltb, leb,
  ◌==◌, if◌then◌else◌, Outcome, ok, err, panic, stuck, ◌>>=◌, ◌>>◌, guard, map_err, same_bytes,
}
use detllm.Gguf.Reader.{GgufError, metadata_not_found}
use detllm.Gguf.Value.{MetadataValue, bool_value, f32_value, f64_value}
use detllm.Gguf.Parse.{Gguf, metadata_value, metadata_str, metadata_u32, metadata_f32}
use detllm.Token.Pieces.{codes}
use detllm.Token.Metadata.{is_finite}

pub data RopePairing : Type 0 where
  adjacent split_half : RopePairing

pub data ModelError : Type 0 where
  shape non_finite unsupported_architecture unsupported_attention_head_length : ModelError
  unsupported_model_feature unsupported_rope_scaling missing_metadata gguf_error : ModelError
  unsupported_tensor_type thread_panicked : ModelError

pub record LlamaConfig : Type 0 where
  pub block_count : ℕ
  pub embedding_length : ℕ
  pub feed_forward_length : ℕ
  pub head_count : ℕ
  pub head_count_kv : ℕ
  pub rms_epsilon : ℕ
  pub attention_scale : ℕ
  pub rope_freq_base : ℕ
  pub rope_dimension_count : ℕ
  pub rope_pairing : RopePairing
  pub context_length : ℕ

unfoldable pub head_dim : LlamaConfig → Outcome ModelError ℕ
head_dim c =
    if c.head_count == 0 || not (c.embedding_length % c.head_count == 0)
    then err shape
    else ok (c.embedding_length / c.head_count)

-- `!x.is_finite() || x <= 0.0`: a finite float is positive if it has no sign and is not zero.
unfoldable pub not_positive : ℕ → Bool
not_positive x = not (is_finite x) || (leb (2 ^ 31) x || x == 0)

-- The first test of `validate`.
unfoldable pub is_malformed : LlamaConfig → Bool
is_malformed c =
    c.block_count == 0
    || (c.embedding_length == 0
        || (c.feed_forward_length == 0
            || (c.head_count == 0
                || (c.head_count_kv == 0
                    || (c.context_length == 0
                        || (not (c.head_count % c.head_count_kv == 0)
                            || (c.rope_dimension_count == 0
                                || (not (c.rope_dimension_count % 2 == 0)
                                    || (not_positive c.rms_epsilon
                                        || (not_positive c.attention_scale
                                            || not_positive c.rope_freq_base))))))))))

unfoldable pub validate : LlamaConfig → Outcome ModelError (Unit {0})
validate c = do
  guard (not (is_malformed c)) shape
  dim ← head_dim c
  guard (not (ltb dim c.rope_dimension_count)) shape

unfoldable pub map_metadata_error : GgufError → ModelError
map_metadata_error e = elim e [ metadata_not_found ↦ missing_metadata | _ ↦ gguf_error ]

unfoldable pub required_u32 : Gguf → List ℕ → Outcome ModelError ℕ
required_u32 gguf key = map_err map_metadata_error (metadata_u32 gguf key)

-- The match of `optional_u32`, `optional_f32` and `optional_str`.
unfoldable pub optional : {A : Type 0} → Outcome GgufError A → Outcome ModelError (Option A)
optional (ok a) = ok (some a)
optional (err e) = elim e [ metadata_not_found ↦ ok none | other ↦ err (map_metadata_error other) ]
optional panic = panic
optional stuck = stuck

abbrev pub optional_u32 : Gguf → List ℕ → Outcome ModelError (Option ℕ)
optional_u32 gguf key = optional (metadata_u32 gguf key)

abbrev pub optional_str : Gguf → List ℕ → Outcome ModelError (Option (List ℕ))
optional_str gguf key = optional (metadata_str gguf key)

unfoldable pub optional_bool : Gguf → List ℕ → Outcome ModelError (Option Bool)
optional_bool gguf key = do
  found ← optional (metadata_value gguf key)
  elim found [
    | none ↦ ok none
    | some value ↦ elim value [ bool_value b ↦ ok (some b) | _ ↦ err gguf_error ]
  ]

-- `unwrap_or`.
abbrev pub or_else {ℓ} : {A : Type ℓ} → Option A → A → A
or_else none d = d
or_else (some a) d = a

-- `is_some_and(|value| value != n)`.
abbrev pub differs : Option ℕ → ℕ → Bool
differs none n = false
differs (some value) n = not (value == n)

unfoldable pub reject_true_optional_bool : Gguf → List ℕ → Outcome ModelError (Unit {0})
reject_true_optional_bool gguf key = do
  found ← optional_bool gguf key
  guard (not (or_else found false)) unsupported_model_feature

unfoldable pub reject_false_optional_bool : Gguf → List ℕ → Outcome ModelError (Unit {0})
reject_false_optional_bool gguf key = do
  found ← optional_bool gguf key
  guard (or_else found true) unsupported_model_feature

unfoldable pub reject_nonzero_optional_u32 : Gguf → List ℕ → Outcome ModelError (Unit {0})
reject_nonzero_optional_u32 gguf key = do
  found ← optional_u32 gguf key
  guard (or_else found 0 == 0) unsupported_model_feature

-- The tests on a float of 32 or of 64 bits: finite, and then zero of either sign. Widening to `f64`
-- keeps both.
unfoldable pub reject_nonzero : MetadataValue → Outcome ModelError (Unit {0})
reject_nonzero value = elim value [
  | f32_value x ↦ do guard (is_finite x) shape; guard (x % 2 ^ 31 == 0) unsupported_model_feature
  | f64_value x ↦ do
    guard (not (x / 2 ^ 52 % 2 ^ 11 == 2047)) shape
    guard (x % 2 ^ 63 == 0) unsupported_model_feature
  | _ ↦ err gguf_error
]

unfoldable pub reject_nonzero_optional_f32 : Gguf → List ℕ → Outcome ModelError (Unit {0})
reject_nonzero_optional_f32 gguf key = do
  found ← optional (metadata_value gguf key)
  elim found [ none ↦ ok tt | some value ↦ reject_nonzero value ]

-- The two matches on the architecture.
unfoldable pub pairing_of : List ℕ → Outcome ModelError RopePairing
pairing_of arch =
    if same_bytes arch (codes "llama")
    then ok adjacent
    else if same_bytes arch (codes "qwen2")
    then ok split_half
    else err unsupported_architecture

-- `if let Some(scaling_type) = ...`.
abbrev pub is_unscaled : Option (List ℕ) → Bool
is_unscaled none = true
is_unscaled (some scaling_type) = same_bytes scaling_type (codes "none")

-- The keys that must not hold another number than zero.
abbrev pub zero_keys : List (List ℕ)
zero_keys =
    codes "attention.max_alibi_bias"
    ∷ codes "attention.clamp_kqv"
    ∷ codes "attention.value_scale"
    ∷ codes "attn_logit_softcapping"
    ∷ codes "final_logit_softcapping"
    ∷ codes "logit_scale"
    ∷ codes "embedding_scale"
    ∷ codes "residual_scale"
    ∷ []

-- `cast` is `f64 as f32`, and `default_attention_scale` is one over a square root.
module _ (cast default_attention_scale : ℕ → ℕ) (gguf : Gguf) where
  abbrev pub required_f32 : List ℕ → Outcome ModelError ℕ
  required_f32 key = map_err map_metadata_error (metadata_f32 cast gguf key)

  abbrev pub optional_f32 : List ℕ → Outcome ModelError (Option ℕ)
  optional_f32 key = optional (metadata_f32 cast gguf key)

  unfoldable pub reject_nonzero_keys :
      (List ℕ → List ℕ) → List (List ℕ) → Outcome ModelError (Unit {0})
  reject_nonzero_keys key [] = ok tt
  reject_nonzero_keys key (suffix ∷ suffixes) = do
    reject_nonzero_optional_f32 gguf (key suffix)
    reject_nonzero_keys key suffixes

  -- The loop over the two lengths of the heads.
  unfoldable pub check_lengths : ℕ → List (List ℕ) → Outcome ModelError (Unit {0})
  check_lengths dim [] = ok tt
  check_lengths dim (key ∷ keys) = do
    found ← optional_u32 gguf key
    guard (not (differs found dim)) unsupported_attention_head_length
    check_lengths dim keys

  -- The features that are refused, in their order.
  unfoldable pub check_features : (List ℕ → List ℕ) → ℕ → Outcome ModelError (Unit {0})
  check_features key embedding_length = do
    length_out ← optional_u32 gguf (key (codes "embedding_length_out"))
    guard (not (differs length_out embedding_length)) unsupported_model_feature
    reject_false_optional_bool gguf (key (codes "attention.causal"))
    scaling ← optional_str gguf (key (codes "rope.scaling.type"))
    guard (is_unscaled scaling) unsupported_rope_scaling
    reject_true_optional_bool gguf (key (codes "use_parallel_residual"))
    reject_nonzero_optional_u32 gguf (key (codes "attention.sliding_window"))
    reject_nonzero_keys key zero_keys

  unfoldable pub from_gguf : Outcome ModelError LlamaConfig
  from_gguf = do
    arch ← map_err map_metadata_error (metadata_str gguf (codes "general.architecture"))
    pairing ← pairing_of arch
    let key : List ℕ → List ℕ = λ suffix. arch ++ (codes "." ++ suffix)
    head_count ← required_u32 gguf (key (codes "attention.head_count"))
    kv ← optional_u32 gguf (key (codes "attention.head_count_kv"))
    embedding_length ← required_u32 gguf (key (codes "embedding_length"))
    guard (not (head_count == 0 || not (embedding_length % head_count == 0))) shape
    check_features key embedding_length
    let dim = embedding_length / head_count
    check_lengths dim
        (key (codes "attention.key_length") ∷ key (codes "attention.value_length") ∷ [])
    scale ← optional_f32 (key (codes "attention.scale"))
    block_count ← required_u32 gguf (key (codes "block_count"))
    feed_forward_length ← required_u32 gguf (key (codes "feed_forward_length"))
    rms_epsilon ← required_f32 (key (codes "attention.layer_norm_rms_epsilon"))
    freq_base ← optional_f32 (key (codes "rope.freq_base"))
    rope_dimension ← optional_u32 gguf (key (codes "rope.dimension_count"))
    context_length ← required_u32 gguf (key (codes "context_length"))
    let config : LlamaConfig = record {
      block_count = block_count;
      embedding_length = embedding_length;
      feed_forward_length = feed_forward_length;
      head_count = head_count;
      head_count_kv = or_else kv (head_count % 2 ^ 32);
      rms_epsilon = rms_epsilon;
      attention_scale = or_else scale (default_attention_scale dim);
      rope_freq_base = or_else freq_base 0x461c_4000;
      rope_dimension_count = or_else rope_dimension (dim % 2 ^ 32);
      rope_pairing = pairing;
      context_length = context_length;
    }
    validate config
    ok config
