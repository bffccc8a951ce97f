-- ===== src/Llama/Cache/Store.antt =====
-- What `store` leaves for `key` and `value` to find.
use detllm.Base.{
  ℕ, zero, suc, ◌+◌, ◌*◌, ◌^◌, ◌≤◌, ◌<◌, ◌≡◌, ◌≢◌, ◌∙◌, ◌⊎◌, inl, inr, refl, ap, subst, arith, true,
  ◌&&◌, ◌==◌, List, length, le_or_lt, slice, copy_at, ok, ◌>>=◌, ◌>>◌, guard,
}
use detllm.Token.Metadata.{all_finite}
use detllm.Llama.Config.{shape, non_finite}
use detllm.Llama.Cache.{KvCache, ensure_finite_slice, store_heads, store}
use detllm.Llama.Cache.Blocks.{
  length-copy_at, slice-copy_at, slice-copy_at_before, slice-copy_at_behind,
}
use detllm.Llama.Cache.Layout.{
  IsSized, IsIn, place, place_inside, place-injective, checked_len-ok, index_le,
}
use detllm.Llama.Cache.Heads.{block, length-block, store_head-ok}

-- `after` is `before` with the elements of `n` heads from `first` on, at one block and position.
pub record Written (c : KvCache) (layer pos first n : ℕ) (src before after : List ℕ) : Type 0 where
  pub same_len : length after ≡ length before
  pub fresh :
      (h : ℕ)
      → first ≤ h
      → h < first + n
      → block c (place c layer h pos) after ≡ slice (h * c.dim) (h * c.dim + c.dim) src
  pub old :
      (layer' h' pos' : ℕ)
      → IsIn c layer' h' pos'
      → (first ≤ h' → h' < first + n → layer ≡ layer' → pos ≢ pos')
      → block c (place c layer' h' pos') after ≡ block c (place c layer' h' pos') before

apart : (p q : ℕ) → p ≢ q → (p < q) ⊎ (q < p)
apart p q h = ground arith

-- Another place keeps its elements.
block-copy_at_other :
    (c : KvCache) (p q : ℕ) (ys xs : List ℕ)
    → length ys ≡ c.dim
    → p * c.dim + c.dim ≤ length xs
    → q * c.dim + c.dim ≤ length xs
    → p ≢ q
    → block c q (copy_at (p * c.dim) ys xs) ≡ block c q xs
block-copy_at_other c p q ys xs width p_in q_in other = elim (apart p q other) [
  | inl less ↦
      slice-copy_at_behind (q * c.dim) (q * c.dim + c.dim) (p * c.dim) ys xs
        (omega (arith, index_le p q c.dim less)) (omega arith)
  | inr more ↦
      slice-copy_at_before (q * c.dim) (q * c.dim + c.dim) (p * c.dim) ys xs (omega arith)
        (omega (arith, index_le q p c.dim more)) (omega arith)
]

copy_at-Written :
    (c : KvCache) (layer pos h : ℕ) (src xs : List ℕ) (s : IsSized c)
    → IsIn c layer h pos
    → length src ≡ c.config.head_count_kv * c.dim
    → length xs ≡ s.total
    → Written c layer pos h 1 src xs
        (copy_at (place c layer h pos * c.dim) (slice (h * c.dim) (h * c.dim + c.dim) src) xs)
copy_at-Written c layer pos h src xs s i src_len xs_len =
    let p = place c layer h pos in
    let part = slice (h * c.dim) (h * c.dim + c.dim) src in
    let row = index_le h c.config.head_count_kv c.dim i.head_lt in
    let width : length part ≡ c.dim = length-block c.dim h src (omega arith) in
    let inside = place_inside c layer h pos s i in
    record {
      same_len = length-copy_at (p * c.dim) part xs (omega arith);
      fresh = λ h' low high.
          let same : h ≡ h' = omega arith in
          subst
            (λ h'.
              block c (place c layer h' pos) (copy_at (p * c.dim) part xs)
              ≡ slice (h' * c.dim) (h' * c.dim + c.dim) src)
            same
            (slice-copy_at (p * c.dim) (p * c.dim + c.dim) part xs (omega arith) (omega arith));
      old = λ layer' h' pos' i' other.
          let inside' = place_inside c layer' h' pos' s i' in
          block-copy_at_other c p (place c layer' h' pos') part xs width (omega arith) (omega arith)
            (λ e.
              let (layers, heads, positions) =
                place-injective c layer h pos layer' h' pos' i i' e in
              other (omega arith) (omega arith) layers positions);
    }

Written-join :
    (c : KvCache) (layer pos first n : ℕ) (src xs ys zs : List ℕ)
    → IsIn c layer first pos
    → Written c layer pos first 1 src xs ys
    → Written c layer pos (suc first) n src ys zs
    → Written c layer pos first (suc n) src xs zs
Written-join c layer pos first n src xs ys zs i w w' = record {
  same_len = w'.same_len ∙ w.same_len;
  fresh = λ h low high. elim (le_or_lt h first) [
    | inl le ↦
        let same : first ≡ h = omega arith in
        subst (λ h. block c (place c layer h pos) zs ≡ slice (h * c.dim) (h * c.dim + c.dim) src)
          same
          (w'.old layer first pos i (λ low' high'. absurd (omega arith))
            ∙ w.fresh first (omega arith) (omega arith))
    | inr later ↦ w'.fresh h (omega arith) (omega arith)
  ];
  old = λ layer' h' pos' i' other.
      w'.old layer' h' pos' i' (λ low high. other (omega arith) (omega arith))
      ∙ w.old layer' h' pos' i' (λ low high. other (omega arith) (omega arith));
}

-- The vectors of the cache do not matter for where the places are.
Written-of :
    (c : KvCache) (k v : List ℕ) (layer pos first n : ℕ) (src before after : List ℕ)
    → Written (record c { k = k; v = v }) layer pos first n src before after
    → Written c layer pos first n src before after
Written-of c k v layer pos first n src before after w = record {
  same_len = w.same_len;
  fresh = w.fresh;
  old = λ layer' h' pos' i.
      w.old layer' h' pos'
        (record { layer_lt = i.layer_lt; head_lt = i.head_lt; pos_lt = i.pos_lt });
}

pub store_heads-Written :
    (rounds h layer pos : ℕ) (kl vl : List ℕ) (c : KvCache)
    → IsSized c
    → layer < c.config.block_count
    → pos < c.config.context_length
    → h + rounds ≤ c.config.head_count_kv
    → length kl ≡ c.config.head_count_kv * c.dim
    → length vl ≡ c.config.head_count_kv * c.dim
    → (k : List ℕ) × (v : List ℕ) × (store_heads rounds h layer pos kl vl c
        ≡ ok (record c { k = k; v = v }))
      × Written c layer pos h rounds kl c.k k
      × Written c layer pos h rounds vl c.v v
unfolding store_heads
store_heads-Written zero h layer pos kl vl c s layer_lt pos_lt heads kl_len vl_len = (
  c.k,
  c.v,
  refl,
  record {
    same_len = refl;
    fresh = λ h low high. absurd (omega arith);
    old = λ layer' h' pos' i other. refl;
  },
  record {
    same_len = refl;
    fresh = λ h low high. absurd (omega arith);
    old = λ layer' h' pos' i other. refl;
  },
)
store_heads-Written (suc rounds) h layer pos kl vl c s layer_lt pos_lt heads kl_len vl_len =
    let i : IsIn c layer h pos = record {
      layer_lt = layer_lt;
      head_lt = omega arith;
      pos_lt = pos_lt;
    } in
    let run = store_head-ok layer pos h kl vl c s i kl_len vl_len in
    let w = copy_at-Written c layer pos h kl c.k s i kl_len s.k_len in
    let u = copy_at-Written c layer pos h vl c.v s i vl_len s.v_len in
    let at = place c layer h pos * c.dim in
    let k₁ = copy_at at (slice (h * c.dim) (h * c.dim + c.dim) kl) c.k in
    let v₁ = copy_at at (slice (h * c.dim) (h * c.dim + c.dim) vl) c.v in
    let s₁ : IsSized (record c { k = k₁; v = v₁ }) = record {
      total = s.total;
      places = s.places;
      word = s.word;
      k_len = w.same_len ∙ s.k_len;
      v_len = u.same_len ∙ s.v_len;
      dim_pos = s.dim_pos;
    } in
    let (k, v, more, w', u') =
      store_heads-Written rounds (suc h) layer pos kl vl (record c { k = k₁; v = v₁ }) s₁ layer_lt
        pos_lt (omega arith) kl_len vl_len in
    (
      k,
      v,
      ap (λ o. o >>= λ c. store_heads rounds (suc h) layer pos kl vl c) run ∙ more,
      Written-join c layer pos h rounds kl c.k k₁ k i w
          (Written-of c k₁ v₁ layer pos (suc h) rounds kl k₁ k w'),
      Written-join c layer pos h rounds vl c.v v₁ v i u
          (Written-of c k₁ v₁ layer pos (suc h) rounds vl v₁ v u'),
    )

pub store_run :
    (c : KvCache) (layer pos : ℕ) (kl vl : List ℕ) {c' : KvCache}
    → c.config.head_count_kv * c.dim < 2 ^ 64
    → length kl ≡ c.config.head_count_kv * c.dim
    → length vl ≡ c.config.head_count_kv * c.dim
    → all_finite kl ≡ true
    → all_finite vl ≡ true
    → store_heads c.config.head_count_kv 0 layer pos kl vl c ≡ ok c'
    → store c layer pos kl vl ≡ ok c'
unfolding store ensure_finite_slice
store_run c layer pos kl vl word kl_len vl_len kl_finite vl_finite run =
    let expected = checked_len-ok c.config.head_count_kv c.dim word in
    let t : (length kl == c.config.head_count_kv * c.dim) ≡ true = ground arith in
    let u : (length vl == c.config.head_count_kv * c.dim) ≡ true = ground arith in
    ap
      (λ o. o >>= λ n.
        guard (length kl == n && length vl == n) shape
        >> (guard (all_finite kl) non_finite
            >> (guard (all_finite vl) non_finite
                >> store_heads c.config.head_count_kv 0 layer pos kl vl c)))
      expected
    ∙ rw (t, u, kl_finite, vl_finite) run
