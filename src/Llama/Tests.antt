-- ===== src/Llama/Tests.antt =====
-- A configuration and a cache at concrete inputs.
use detllm.Base.{
  ℕ, ◌+◌, ◌*◌, ◌%◌, ◌≤◌, ◌<◌, ◌≡◌, ◌≢◌, refl, arith, true, List, [], ◌∷◌, ◌++◌, length, slice, ok,
}
use detllm.Gguf.Value.{string_value, u32_value, f32_value}
use detllm.Gguf.Parse.{Gguf, metadata_str, metadata_u32, metadata_value, get}
use detllm.Token.Pieces.{codes}
use detllm.Token.Metadata.{all_finite}
use detllm.Llama.Config.{LlamaConfig, adjacent, from_gguf}
use detllm.Llama.Config.Shape.{IsShaped, from_gguf-IsShaped}
use detllm.Llama.Cache.{KvCache, new, store, key, value, key_prefix, value_prefix}
use detllm.Llama.Cache.Layout.{IsSized, IsIn, new-IsSized}
use detllm.Llama.Cache.Found.{store-key, key_prefix-keys}

abbrev one : ℕ
one = 0x3f80_0000

abbrev model_file : Gguf
model_file = record {
  version = 3;
  metadata =
      (codes "general.architecture", string_value (codes "llama"))
      ∷ (codes "llama.attention.head_count", u32_value 2)
      ∷ (codes "llama.attention.head_count_kv", u32_value 1)
      ∷ (codes "llama.embedding_length", u32_value 4)
      ∷ (codes "llama.attention.scale", f32_value one)
      ∷ (codes "llama.block_count", u32_value 2)
      ∷ (codes "llama.feed_forward_length", u32_value 8)
      ∷ (codes "llama.attention.layer_norm_rms_epsilon", f32_value one)
      ∷ (codes "llama.context_length", u32_value 3)
      ∷ [];
  tensors = [];
  data_offset = 0;
  file_len = 0;
}

abbrev config : LlamaConfig
config = record {
  block_count = 2;
  embedding_length = 4;
  feed_forward_length = 8;
  head_count = 2;
  head_count_kv = 1;
  rms_epsilon = one;
  attention_scale = one;
  rope_freq_base = 0x461c_4000;
  rope_dimension_count = 2;
  rope_pairing = adjacent;
  context_length = 3;
}

config_is_read : from_gguf (λ x. x) (λ x. x) model_file ≡ ok config
unfolding from_gguf metadata_value get metadata_str metadata_u32 detllm.Base.same_bytes
    detllm.Gguf.Parse.metadata_f32 detllm.Llama.Config.pairing_of detllm.Llama.Config.required_u32
    detllm.Llama.Config.optional detllm.Llama.Config.optional_bool
    detllm.Llama.Config.check_features detllm.Llama.Config.check_lengths
    detllm.Llama.Config.reject_true_optional_bool detllm.Llama.Config.reject_false_optional_bool
    detllm.Llama.Config.reject_nonzero_optional_u32 detllm.Llama.Config.reject_nonzero_optional_f32
    detllm.Llama.Config.reject_nonzero_keys detllm.Llama.Config.validate
    detllm.Llama.Config.is_malformed detllm.Llama.Config.not_positive detllm.Llama.Config.head_dim
    detllm.Token.Metadata.is_finite
config_is_read = refl

from_gguf-IsShaped_example :
    (arch : List ℕ) × (metadata_str model_file (codes "general.architecture") ≡ ok arch)
    × (metadata_u32 model_file (arch ++ (codes "." ++ codes "context_length")) ≡ ok 3)
    × (dim : ℕ) × IsShaped config dim
from_gguf-IsShaped_example = from_gguf-IsShaped (λ x. x) (λ x. x) model_file config config_is_read

abbrev zeros : List ℕ
zeros = 0 ∷ 0 ∷ 0 ∷ 0 ∷ 0 ∷ 0 ∷ 0 ∷ 0 ∷ 0 ∷ 0 ∷ 0 ∷ 0 ∷ []

abbrev empty : KvCache
empty = record { config = config; dim = 2; k = zeros; v = zeros }

empty_is_new : new config ≡ ok empty
unfolding new detllm.Llama.Config.validate detllm.Llama.Config.is_malformed
    detllm.Llama.Config.not_positive detllm.Llama.Config.head_dim detllm.Token.Metadata.is_finite
empty_is_new = refl

empty-IsSized : IsSized empty
empty-IsSized = new-IsSized config empty empty_is_new

abbrev ones : List ℕ
ones = one ∷ one ∷ []

ones_are_finite : all_finite ones ≡ true
unfolding all_finite
ones_are_finite = refl

store-key_example :
    (c' : KvCache) × (store empty 1 2 ones ones ≡ ok c')
    × IsSized c'
    × ((h : ℕ)
        → h < 1
        → (key c' 1 h 2 ≡ ok (slice (h * 2) (h * 2 + 2) ones))
          × (value c' 1 h 2 ≡ ok (slice (h * 2) (h * 2 + 2) ones)))
    × ((layer' h pos' : ℕ)
        → IsIn empty layer' h pos'
        → (1 ≡ layer' → 2 ≢ pos')
        → (key c' layer' h pos' ≡ key empty layer' h pos')
          × (value c' layer' h pos' ≡ value empty layer' h pos'))
store-key_example =
    store-key empty 1 2 ones ones empty-IsSized (omega arith) (omega arith) (omega arith) refl refl
      ones_are_finite ones_are_finite

place-IsIn : IsIn empty 1 0 0
place-IsIn = record { layer_lt = omega arith; head_lt = omega arith; pos_lt = omega arith }

key_prefix-keys_example :
    (keys : List ℕ) × (values : List ℕ) × (key_prefix empty 1 0 2 ≡ ok keys)
    × (value_prefix empty 1 0 2 ≡ ok values)
    × (length keys ≡ 2 * 2)
    × (length values ≡ 2 * 2)
    × ((pos : ℕ)
        → pos < 2
        → (key empty 1 0 pos ≡ ok (slice (pos * 2) (pos * 2 + 2) keys))
          × (value empty 1 0 pos ≡ ok (slice (pos * 2) (pos * 2 + 2) values)))
key_prefix-keys_example =
    key_prefix-keys empty 1 0 2 empty-IsSized place-IsIn (omega arith) (omega arith)
