-- ===== src/Llama/Cache.antt =====
-- crates/det-model/src/lib.rs: `KvCache`, the keys and values of the tokens so far. Its two vectors
-- hold, for each block, head and position, the elements of one head.
pub mod Blocks
pub mod Layout
pub mod Heads
pub mod Store
pub mod Found
use detllm.Base.{
  ℕ, zero, suc, ◌+◌, ◌*◌, Bool, not, ◌||◌, ◌&&◌, Option, none, some, List, ltb, leb, ◌==◌,
  if◌then◌else◌, length, replicate, slice, copy_at, Outcome, ok, err, ◌>>=◌, ◌>>◌, guard, ok_or,
  checked_add, checked_mul,
}
use detllm.Token.Metadata.{all_finite}
use detllm.Llama.Config.{LlamaConfig, ModelError, shape, non_finite, head_dim, validate}

pub record KvCache : Type 0 where
  pub config : LlamaConfig
  pub dim : ℕ
  pub k : List ℕ
  pub v : List ℕ

-- `a.checked_mul(b).ok_or(ModelError::Shape)?`, which is also `checked_len`, and the same of
-- `checked_add`.
abbrev pub checked_len : ℕ → ℕ → Outcome ModelError ℕ
checked_len a b = ok_or (checked_mul a b) shape

abbrev pub checked_end : ℕ → ℕ → Outcome ModelError ℕ
checked_end a b = ok_or (checked_add a b) shape

unfoldable pub new : LlamaConfig → Outcome ModelError KvCache
new config = do
  validate config
  dim ← head_dim config
  heads ← checked_len config.block_count config.head_count_kv
  places ← checked_len heads config.context_length
  len ← checked_len places dim
  ok (record { config = config; dim = dim; k = replicate len 0; v = replicate len 0 })

unfoldable pub offset : KvCache → ℕ → ℕ → ℕ → Outcome ModelError ℕ
offset c layer kv_head pos = do
  guard
      (not (
        leb c.config.block_count layer
        || (leb c.config.head_count_kv kv_head || leb c.config.context_length pos)))
      shape
  first ← checked_len layer c.config.head_count_kv
  head ← checked_end first kv_head
  place ← checked_len head c.config.context_length
  at ← checked_end place pos
  checked_len at c.dim

unfoldable pub ensure_finite_slice : List ℕ → Outcome ModelError (Unit {0})
ensure_finite_slice values = guard (all_finite values) non_finite

-- `values.get(from..to).ok_or(ModelError::Shape)?`.
abbrev pub get_range : ℕ → ℕ → List ℕ → Outcome ModelError (List ℕ)
get_range from to values =
    if leb from to && leb to (length values) then ok (slice from to values) else err shape

-- `values.get_mut(from..to).ok_or(ModelError::Shape)?.copy_from_slice(bytes)`, where `bytes` is as
-- long as the range.
abbrev pub set_range : ℕ → ℕ → List ℕ → List ℕ → Outcome ModelError (List ℕ)
set_range from to values bytes =
    if leb from to && leb to (length values) then ok (copy_at from bytes values) else err shape

-- A round of the loop of `store`.
unfoldable pub store_head : ℕ → ℕ → List ℕ → List ℕ → ℕ → KvCache → Outcome ModelError KvCache
store_head layer pos k_layer v_layer kv_head c = do
  src ← checked_len kv_head c.dim
  src_end ← checked_end src c.dim
  dst ← offset c layer kv_head pos
  dst_end ← checked_end dst c.dim
  key ← get_range src src_end k_layer
  k ← set_range dst dst_end c.k key
  value ← get_range src src_end v_layer
  v ← set_range dst dst_end c.v value
  ok (record c { k = k; v = v })

-- The rounds for `kv_head` and the `rounds - 1` heads behind it.
unfoldable pub store_heads : ℕ → ℕ → ℕ → ℕ → List ℕ → List ℕ → KvCache → Outcome ModelError KvCache
store_heads zero kv_head layer pos k_layer v_layer c = ok c
store_heads (suc rounds) kv_head layer pos k_layer v_layer c = do
  c' ← store_head layer pos k_layer v_layer kv_head c
  store_heads rounds (suc kv_head) layer pos k_layer v_layer c'

unfoldable pub store : KvCache → ℕ → ℕ → List ℕ → List ℕ → Outcome ModelError KvCache
store c layer pos k_layer v_layer = do
  expected ← checked_len c.config.head_count_kv c.dim
  guard (length k_layer == expected && length v_layer == expected) shape
  ensure_finite_slice k_layer
  ensure_finite_slice v_layer
  store_heads c.config.head_count_kv 0 layer pos k_layer v_layer c

unfoldable pub key : KvCache → ℕ → ℕ → ℕ → Outcome ModelError (List ℕ)
key c layer kv_head pos = do
  from ← offset c layer kv_head pos
  to ← checked_end from c.dim
  get_range from to c.k

unfoldable pub value : KvCache → ℕ → ℕ → ℕ → Outcome ModelError (List ℕ)
value c layer kv_head pos = do
  from ← offset c layer kv_head pos
  to ← checked_end from c.dim
  get_range from to c.v

unfoldable pub prefix : KvCache → List ℕ → ℕ → ℕ → ℕ → Outcome ModelError (List ℕ)
prefix c values layer kv_head len = do
  guard (not (len == 0 || ltb c.config.context_length len)) shape
  start ← offset c layer kv_head 0
  elems ← checked_len len c.dim
  end ← checked_end start elems
  get_range start end values

unfoldable pub key_prefix : KvCache → ℕ → ℕ → ℕ → Outcome ModelError (List ℕ)
unfolding prefix
key_prefix c layer kv_head len = prefix c c.k layer kv_head len

unfoldable pub value_prefix : KvCache → ℕ → ℕ → ℕ → Outcome ModelError (List ℕ)
unfolding prefix
value_prefix c layer kv_head len = prefix c c.v layer kv_head len
