-- ===== src/Llama/Cache/Found.antt =====
-- What has been stored is found, at its place and in the prefixes.
use detllm.Base.{
  ℕ, zero, suc, ◌+◌, ◌-◌, ◌*◌, ◌≤◌, ◌<◌, ◌≡◌, ◌≢◌, ◌∙◌, refl, sym, ap, ap₂, arith, true, false,
  ◌==◌, List, length, length-drop, length-take_of_le, drop, ltb, slice, ok,
}
use detllm.Token.Metadata.{all_finite}
use detllm.Llama.Cache.{
  KvCache, checked_len, checked_end, get_range, offset, store, key, value, prefix, key_prefix,
  value_prefix,
}
use detllm.Llama.Cache.Blocks.{slice-slice}
use detllm.Llama.Cache.Layout.{
  IsSized, IsIn, place, place_inside, offset-place, rows_le, checked_len-ok, checked_end-ok,
  index_le,
}
use detllm.Llama.Cache.Heads.{block, get_range-ok, key-block}
use detllm.Llama.Cache.Store.{store_heads-Written, store_run}

-- In a cache whose vectors have the size that its configuration says, `store` at a block and a
-- position that exist, of finite keys and values of the right length, with at least one head,
-- succeeds and keeps the size.
-- `key` and `value` then give, for each head at that block and position, the elements of that head,
-- and for each other block or position what they gave before.
pub store-key :
    (c : KvCache) (layer pos : ℕ) (k_layer v_layer : List ℕ)
    → IsSized c
    → layer < c.config.block_count
    → pos < c.config.context_length
    → 0 < c.config.head_count_kv
    → length k_layer ≡ c.config.head_count_kv * c.dim
    → length v_layer ≡ c.config.head_count_kv * c.dim
    → all_finite k_layer ≡ true
    → all_finite v_layer ≡ true
    → (c' : KvCache) × (store c layer pos k_layer v_layer ≡ ok c')
      × IsSized c'
      × ((h : ℕ)
          → h < c.config.head_count_kv
          → (key c' layer h pos ≡ ok (slice (h * c.dim) (h * c.dim + c.dim) k_layer))
            × (value c' layer h pos ≡ ok (slice (h * c.dim) (h * c.dim + c.dim) v_layer)))
      × ((layer' h pos' : ℕ)
          → IsIn c layer' h pos'
          → (layer ≡ layer' → pos ≢ pos')
          → (key c' layer' h pos' ≡ key c layer' h pos')
            × (value c' layer' h pos' ≡ value c layer' h pos'))
store-key c layer pos k_layer v_layer s layer_lt pos_lt some_head kl vl kf vf =
    let (k, v, run, w, u) =
      store_heads-Written c.config.head_count_kv 0 layer pos k_layer v_layer c s layer_lt pos_lt
        (omega arith) kl vl in
    let after : KvCache = record c { k = k; v = v } in
    let sized : IsSized after = record {
      total = s.total;
      places = s.places;
      word = s.word;
      k_len = w.same_len ∙ s.k_len;
      v_len = u.same_len ∙ s.v_len;
      dim_pos = s.dim_pos;
    } in
    let first : IsIn c layer 0 pos = record {
      layer_lt = layer_lt;
      head_lt = some_head;
      pos_lt = pos_lt;
    } in
    (
      after,
      store_run c layer pos k_layer v_layer (omega (arith, rows_le c layer 0 pos s first, s.word))
          kl vl kf vf run,
      sized,
      λ h lt.
          let (found, found') =
            key-block after layer h pos sized
              (record { layer_lt = layer_lt; head_lt = lt; pos_lt = pos_lt }) in
          (
            found ∙ ap ok (w.fresh h (omega arith) (omega arith)),
            found' ∙ ap ok (u.fresh h (omega arith) (omega arith)),
          ),
      λ layer' h pos' i other.
          let (found, found') =
            key-block after layer' h pos' sized
              (record { layer_lt = i.layer_lt; head_lt = i.head_lt; pos_lt = i.pos_lt }) in
          let (before, before') = key-block c layer' h pos' s i in
          (
            found ∙ ap ok (w.old layer' h pos' i (λ _ _. other)) ∙ sym before,
            found' ∙ ap ok (u.old layer' h pos' i (λ _ _. other)) ∙ sym before',
          ),
    )

prefix_run :
    (c : KvCache) (values : List ℕ) (layer h len start elems end : ℕ)
    → 0 < len
    → len ≤ c.config.context_length
    → offset c layer h 0 ≡ ok start
    → checked_len len c.dim ≡ ok elems
    → checked_end start elems ≡ ok end
    → prefix c values layer h len ≡ get_range start end values
unfolding prefix
prefix_run c values layer h len start elems end pos le h₁ h₂ h₃ =
    let t : (len == 0) ≡ false = ground arith in
    let u : ltb c.config.context_length len ≡ false = ground arith in rw (t, u, h₁, h₂, h₃) refl

distribute :
    (row width pos dim : ℕ) → (row * width + pos) * dim ≡ (row * width + 0) * dim + pos * dim
distribute row width pos dim = grind arith

last_row : (len dim : ℕ) → 0 < len → (len - 1) * dim + dim ≡ len * dim
last_row zero dim h = absurd (omega arith)
last_row (suc len) dim h = let same : suc len - 1 ≡ len = omega arith in rw same (grind arith)

place_shift :
    (c : KvCache) (layer h pos : ℕ)
    → place c layer h pos * c.dim ≡ place c layer h 0 * c.dim + pos * c.dim
place_shift c layer h pos =
    distribute (layer * c.config.head_count_kv + h) c.config.context_length pos c.dim

-- `key_prefix` and `value_prefix` give, in a cache of the right size, at a block and a head that
-- exist and for a length that is not 0 and not above the context, what `key` and `value` give at
-- the positions below that length, one after the other.
pub key_prefix-keys :
    (c : KvCache) (layer h len : ℕ)
    → IsSized c
    → IsIn c layer h 0
    → 0 < len
    → len ≤ c.config.context_length
    → (keys : List ℕ) × (values : List ℕ) × (key_prefix c layer h len ≡ ok keys)
      × (value_prefix c layer h len ≡ ok values)
      × (length keys ≡ len * c.dim)
      × (length values ≡ len * c.dim)
      × ((pos : ℕ)
          → pos < len
          → (key c layer h pos ≡ ok (slice (pos * c.dim) (pos * c.dim + c.dim) keys))
            × (value c layer h pos ≡ ok (slice (pos * c.dim) (pos * c.dim + c.dim) values)))
unfolding key_prefix value_prefix
key_prefix-keys c layer h len s i some_pos le =
    let start = place c layer h 0 * c.dim in
    let end = start + len * c.dim in
    let last : IsIn c layer h (len - 1) = record {
      layer_lt = i.layer_lt;
      head_lt = i.head_lt;
      pos_lt = omega arith;
    } in
    let end_le : end ≤ s.total = omega (
      arith,
      place_inside c layer h (len - 1) s last,
      place_shift c layer h (len - 1),
      last_row len c.dim some_pos,
    ) in
    let word = s.word in
    let run = λ (values : List ℕ).
      prefix_run c values layer h len start (len * c.dim) end some_pos le
        (offset-place c layer h 0 s i) (checked_len-ok len c.dim (omega arith))
        (checked_end-ok start (len * c.dim) (omega arith)) in
    let width : (xs : List ℕ) → length xs ≡ s.total → length (slice start end xs) ≡ len * c.dim =
      λ xs xs_len.
        let wide : end - start ≡ len * c.dim = omega arith in
        length-take_of_le (end - start) (drop start xs) (omega (arith, length-drop start xs))
        ∙ wide in
    let part : (xs : List ℕ) (pos : ℕ)
        → length xs ≡ s.total
        → pos < len
        → block c (place c layer h pos) xs
          ≡ slice (pos * c.dim) (pos * c.dim + c.dim) (slice start end xs) =
      λ xs pos xs_len lt.
        let row = index_le pos len c.dim lt in
        let shift = place_shift c layer h pos in
        sym (
          slice-slice (pos * c.dim) (pos * c.dim + c.dim) start end xs (omega arith) (omega arith)
            (omega arith)
          ∙ ap₂ (λ (from to : ℕ). slice from to xs) (sym shift) (omega (arith, shift))) in
    (
      slice start end c.k,
      slice start end c.v,
      run c.k ∙ get_range-ok start end c.k (omega arith) (omega (arith, s.k_len)),
      run c.v ∙ get_range-ok start end c.v (omega arith) (omega (arith, s.v_len)),
      width c.k s.k_len,
      width c.v s.v_len,
      λ pos lt.
          let (found, found') =
            key-block c layer h pos s
              (record { layer_lt = i.layer_lt; head_lt = i.head_lt; pos_lt = omega arith }) in
          (found ∙ ap ok (part c.k pos s.k_len lt), found' ∙ ap ok (part c.v pos s.v_len lt)),
    )
