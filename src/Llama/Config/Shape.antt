-- ===== src/Llama/Config/Shape.antt =====
-- What a configuration that is accepted looks like.
use detllm.Base.{
  ℕ, zero, suc, ◌*◌, ◌/◌, ◌%◌, ◌≤◌, ◌<◌, ◌≡◌, ◌∙◌, ap, subst, arith, true, not, List, ◌++◌, Outcome,
  ok, >>=-eq-ok, map_err, map_err-eq-ok, guard-eq-ok, guard, ◌>>=◌, ◌==◌, ◌||◌, ◌^◌, [], ◌∷◌,
  ok-injective,
}
use native.Mathlib.Nat.{div-add-mod'}
use detllm.Gguf.Parse.{Gguf, metadata_str, metadata_u32}
use detllm.Token.Pieces.{codes}
use detllm.Llama.Config.{
  LlamaConfig, ModelError, shape, head_dim, is_malformed, validate, from_gguf, map_metadata_error,
  pairing_of, required_u32, optional_u32, required_f32, optional_f32, check_features, check_lengths,
  or_else,
}

-- The heads share the embedding, the groups of heads share the keys and values, and the part of a
-- head that is turned is an even number of its elements.
pub record IsShaped (c : LlamaConfig) (dim : ℕ) : Type 0 where
  pub blocks : 0 < c.block_count
  pub kv_heads : 0 < c.head_count_kv
  pub context : 0 < c.context_length
  pub groups : c.head_count % c.head_count_kv ≡ 0
  pub dimension : head_dim c ≡ ok dim
  pub embedding : c.embedding_length ≡ c.head_count * dim
  pub dim_pos : 0 < dim
  pub rope_even : c.rope_dimension_count % 2 ≡ 0
  pub rope_pos : 0 < c.rope_dimension_count
  pub rope_fits : c.rope_dimension_count ≤ dim

head_dim-ok :
    (c : LlamaConfig) {dim : ℕ}
    → head_dim c ≡ ok dim
    → (c.embedding_length % c.head_count ≡ 0) × (c.embedding_length / c.head_count ≡ dim)
unfolding head_dim
head_dim-ok c h = ground arith

positive : (m dim : ℕ) → 0 < m * dim → 0 < dim
positive m zero h = absurd (omega arith)
positive m (suc dim) h = omega arith

whole_heads : (n m dim : ℕ) → n % m ≡ 0 → n / m ≡ dim → 0 < n → (n ≡ m * dim) × (0 < dim)
whole_heads n m dim no_rest quotient pos =
    let same : n ≡ m * dim = grind (arith, div-add-mod' n m) in
    (same, positive m dim (subst (λ n. 0 < n) same pos))

-- What the first test of `validate` shows, but for the floats.
first_test :
    (c : LlamaConfig)
    → not (is_malformed c) ≡ true
    → (0 < c.block_count)
      × (0 < c.embedding_length)
      × (0 < c.head_count_kv)
      × (0 < c.context_length)
      × (c.head_count % c.head_count_kv ≡ 0)
      × (0 < c.rope_dimension_count)
      × (c.rope_dimension_count % 2 ≡ 0)
unfolding is_malformed
first_test c h = ground arith

pub validate-IsShaped : (c : LlamaConfig) → validate c ≡ ok tt → (dim : ℕ) × IsShaped c dim
unfolding validate
validate-IsShaped c h =
    let (accepted, h₁) = guard-eq-ok (not (is_malformed c)) shape _ h in
    let (blocks, embedding, kv_heads, context, groups, rope_pos, rope_even) =
      first_test c accepted in
    let (dim, dimension, h₂) = >>=-eq-ok (head_dim c) _ h₁ in
    let (no_rest, quotient) = head_dim-ok c dimension in
    let (whole, dim_pos) =
      whole_heads c.embedding_length c.head_count dim no_rest quotient embedding in
    (
      dim,
      record {
        blocks = blocks;
        kv_heads = kv_heads;
        context = context;
        groups = groups;
        dimension = dimension;
        embedding = whole;
        dim_pos = dim_pos;
        rope_even = rope_even;
        rope_pos = rope_pos;
        rope_fits = ground arith;
      },
    )

-- What follows from each value of a step follows from a run.
through :
    {A : Type 0} {P : Type 0} (m : Outcome ModelError A) (f : A → Outcome ModelError LlamaConfig)
    (c : LlamaConfig)
    → (m >>= f) ≡ ok c
    → ((a : A) → m ≡ ok a → f a ≡ ok c → P)
    → P
through m f c h k = let (a, e, h') = >>=-eq-ok m f h in k a e h'

-- A configuration that `from_gguf` accepts has the context length of the file, and is consistent: the
-- embedding is the number of heads times a positive dimension, the heads fall into whole groups, one
-- for each head of keys and values, the part of a head that is turned is an even, positive number of
-- its elements, and there is a block and a context.
pub from_gguf-IsShaped :
    (cast scale : ℕ → ℕ) (gguf : Gguf) (c : LlamaConfig)
    → from_gguf cast scale gguf ≡ ok c
    → (arch : List ℕ) × (metadata_str gguf (codes "general.architecture") ≡ ok arch)
      × (metadata_u32 gguf (arch ++ (codes "." ++ codes "context_length")) ≡ ok c.context_length)
      × (dim : ℕ) × IsShaped c dim
unfolding from_gguf required_u32
from_gguf-IsShaped cast scale gguf c h =
    through (map_err map_metadata_error (metadata_str gguf (codes "general.architecture"))) _ c h
      λ arch named h.
        let key : List ℕ → List ℕ = λ suffix. arch ++ (codes "." ++ suffix) in
        through (pairing_of arch) _ c h λ pairing _ h.
          through (required_u32 gguf (key (codes "attention.head_count"))) _ c h λ head_count _ h.
            through (optional_u32 gguf (key (codes "attention.head_count_kv"))) _ c h λ kv _ h.
              through (required_u32 gguf (key (codes "embedding_length"))) _ c h
                λ embedding_length _ h.
                  through
                    (guard (not (head_count == 0 || not (embedding_length % head_count == 0)))
                      shape)
                    _ c h
                    λ _ _ h.
                      through (check_features cast scale gguf key embedding_length) _ c h λ _ _ h.
                        through
                          (check_lengths cast scale gguf (embedding_length / head_count) (
                            key (codes "attention.key_length")
                            ∷ key (codes "attention.value_length")
                            ∷ []))
                          _ c h
                          λ _ _ h.
                            through (optional_f32 cast scale gguf (key (codes "attention.scale"))) _
                              c h
                              λ attention_scale _ h.
                                through (required_u32 gguf (key (codes "block_count"))) _ c h
                                  λ block_count _ h.
                                    through (required_u32 gguf (key (codes "feed_forward_length")))
                                      _ c h
                                      λ feed_forward_length _ h.
                                        through
                                          (required_f32 cast scale gguf
                                            (key (codes "attention.layer_norm_rms_epsilon")))
                                          _ c h
                                          λ rms_epsilon _ h.
                                            through
                                              (optional_f32 cast scale gguf
                                                (key (codes "rope.freq_base")))
                                              _ c h
                                              λ freq_base _ h.
                                                through
                                                  (optional_u32 gguf
                                                    (key (codes "rope.dimension_count")))
                                                  _ c h
                                                  λ rope_dimension _ h.
                                                    through
                                                      (required_u32 gguf
                                                        (key (codes "context_length")))
                                                      _ c h
                                                      λ context_length context h.
                                                        let config : LlamaConfig = record {
                                                          block_count = block_count;
                                                          embedding_length = embedding_length;
                                                          feed_forward_length = feed_forward_length;
                                                          head_count = head_count;
                                                          head_count_kv =
                                                            or_else kv (head_count % 2 ^ 32);
                                                          rms_epsilon = rms_epsilon;
                                                          attention_scale =
                                                            or_else attention_scale
                                                            (scale (embedding_length / head_count));
                                                          rope_freq_base =
                                                            or_else freq_base 0x461c_4000;
                                                          rope_dimension_count =
                                                            or_else rope_dimension (
                                                            embedding_length / head_count % 2 ^ 32);
                                                          rope_pairing = pairing;
                                                          context_length = context_length;
                                                        } in
                                                        through (validate config) _ c h λ _ valid h.
                                                          let same : config ≡ c = ok-injective h in
                                                          let (dim, shaped) =
                                                            subst (λ c. (dim : ℕ) × IsShaped c dim)
                                                            same (validate-IsShaped config valid) in
                                                          (
                                                            arch,
                                                            map_err-eq-ok map_metadata_error _
                                                            named,
                                                            map_err-eq-ok map_metadata_error _
                                                            context
                                                            ∙ ap
                                                            (λ (c : LlamaConfig).
                                                            ok c.context_length)
                                                            same,
                                                            dim,
                                                            shaped,
                                                          )
