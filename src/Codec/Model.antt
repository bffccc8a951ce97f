-- ===== src/Codec/Model.antt =====
-- crates/det-cli/src/main.rs: the errors of the codec, and what it uses of crates/det-model.
use detllm.Base.{ℕ, List, Option}
use detllm.Coder.Range.{RangeError}
use detllm.Coder.Cdf.{CdfError}
use detllm.Token.{TokenError}
use detllm.Codec.{WindowError}

-- The messages, with what they are made of.
pub data CodecError : Type 0 where
  window : WindowError → CodecError
  rope_error cache_error workspace_error forward_error position_mismatch window_full : CodecError
  cdf : CdfError → CodecError
  range : RangeError → CodecError
  detokenize : TokenError → CodecError
  lookup_failed outside_vocabulary token_too_large no_bytes : ℕ → CodecError

-- The model: the tables and buffers that it makes, and one step of it, which takes a token, its
-- place in the window, the tables, the cache, the logits so far and the buffer, and gives the last
-- three as it leaves them.
pub record Model (F32 : Type 0) : Type 1 where
  pub Rope : Type 0
  pub Cache : Type 0
  pub Workspace : Type 0
  pub rows : ℕ
  pub context_length : ℕ
  pub rope_tables : ℕ → Option Rope
  pub new_cache : Option Cache
  pub forward_workspace : ℕ → Option Workspace
  pub forward_one :
      ℕ → ℕ → Rope → Cache → List F32 → Workspace → Option (Cache × List F32 × Workspace)
  pub zero_f32 : F32
