-- ===== src/Llama/Cache/Layout.antt =====
-- Where the elements of a head stand: the places do not overlap and fill the vectors.
use detllm.Base.{
  ℕ, zero, suc, ◌+◌, ◌*◌, ◌^◌, ◌≤◌, ◌<◌, ◌≡◌, ◌∙◌, ◌⊎◌, inl, inr, refl, sym, ap, subst, arith, true,
  false, length, replicate, ltb, leb, ok, ◌>>=◌, >>=-eq-ok, ok-injective,
}
use detllm.Llama.Config.{LlamaConfig, head_dim, validate}
use detllm.Llama.Config.Shape.{validate-IsShaped}
use detllm.Llama.Cache.{KvCache, checked_len, checked_end, new, offset}

index_lt : (a i n m : ℕ) → a < n → i < m → a * m + i < n * m
index_lt a i n m p q = grind arith

pub index_le : (a n m : ℕ) → a < n → a * m + m ≤ n * m
index_le a n m p = grind arith

mul_pos : (a m : ℕ) → 0 < m → a ≤ a * m
mul_pos a m p = grind arith

mul_mono : (x y n : ℕ) → x ≤ y → x * n ≤ y * n
mul_mono x y n p = grind arith

product_le : (a b m n : ℕ) → 0 < a → 0 < m → b * n ≤ a * b * m * n
product_le a b m n p q =
    let more : b ≤ a * b = grind arith in
    let most : a * b ≤ a * b * m = mul_pos (a * b) m q in mul_mono b (a * b * m) n (omega arith)

three : (a b : ℕ) → (a < b) ⊎ ((b < a) ⊎ (a ≡ b))
three a b = ground arith

pub index_injective : (a b i j m : ℕ) → i < m → j < m → a * m + i ≡ b * m + j → (a ≡ b) × (i ≡ j)
index_injective a b i j m p q e = elim (three a b) [
  | inl less ↦ absurd (omega (arith, index_lt a i b m less p))
  | inr (inl more) ↦ absurd (omega (arith, index_lt b j a m more q))
  | inr (inr same) ↦ (same, let scaled : a * m ≡ b * m = ap (λ a. a * m) same in omega arith)
]

-- The vectors have an element for each place of a head, and as many as fit a word.
pub record IsSized (c : KvCache) : Type 0 where
  pub total : ℕ
  pub places :
      c.config.block_count * c.config.head_count_kv * c.config.context_length * c.dim ≡ total
  pub word : total < 2 ^ 64
  pub k_len : length c.k ≡ total
  pub v_len : length c.v ≡ total
  pub dim_pos : 0 < c.dim

-- The block, the head and the position exist.
pub record IsIn (c : KvCache) (layer kv_head pos : ℕ) : Type 0 where
  pub layer_lt : layer < c.config.block_count
  pub head_lt : kv_head < c.config.head_count_kv
  pub pos_lt : pos < c.config.context_length

abbrev pub place : KvCache → ℕ → ℕ → ℕ → ℕ
place c layer kv_head pos =
    (layer * c.config.head_count_kv + kv_head) * c.config.context_length + pos

pub place_lt :
    (c : KvCache) (layer kv_head pos : ℕ)
    → IsIn c layer kv_head pos
    → place c layer kv_head pos
      < c.config.block_count * c.config.head_count_kv * c.config.context_length
place_lt c layer kv_head pos h =
    index_lt (layer * c.config.head_count_kv + kv_head) pos
      (c.config.block_count * c.config.head_count_kv) c.config.context_length
      (index_lt layer kv_head c.config.block_count c.config.head_count_kv h.layer_lt h.head_lt)
      h.pos_lt

-- The elements of a place are within the vectors.
pub place_inside :
    (c : KvCache) (layer kv_head pos : ℕ) (s : IsSized c)
    → IsIn c layer kv_head pos
    → place c layer kv_head pos * c.dim + c.dim ≤ s.total
place_inside c layer kv_head pos s h =
    subst (λ n. place c layer kv_head pos * c.dim + c.dim ≤ n) s.places
      (index_le (place c layer kv_head pos) _ c.dim (place_lt c layer kv_head pos h))

-- The elements of one position of a block are not more than those of the vectors.
pub rows_le :
    (c : KvCache) (layer kv_head pos : ℕ) (s : IsSized c)
    → IsIn c layer kv_head pos
    → c.config.head_count_kv * c.dim ≤ s.total
rows_le c layer kv_head pos s h =
    subst (λ n. c.config.head_count_kv * c.dim ≤ n) s.places
      (product_le c.config.block_count c.config.head_count_kv c.config.context_length c.dim
        (omega (arith, h.layer_lt)) (omega (arith, h.pos_lt)))

pub place-injective :
    (c : KvCache) (layer kv_head pos layer' kv_head' pos' : ℕ)
    → IsIn c layer kv_head pos
    → IsIn c layer' kv_head' pos'
    → place c layer kv_head pos ≡ place c layer' kv_head' pos'
    → (layer ≡ layer') × (kv_head ≡ kv_head') × (pos ≡ pos')
place-injective c layer kv_head pos layer' kv_head' pos' h h' e =
    let (rows, same) =
      index_injective (layer * c.config.head_count_kv + kv_head)
        (layer' * c.config.head_count_kv + kv_head') pos pos' c.config.context_length h.pos_lt
        h'.pos_lt e in
    let (layers, heads) =
      index_injective layer layer' kv_head kv_head' c.config.head_count_kv h.head_lt h'.head_lt
        rows in
    (layers, heads, same)

pub checked_len-ok : (a b : ℕ) → a * b < 2 ^ 64 → checked_len a b ≡ ok (a * b)
checked_len-ok a b h = let test : ltb (a * b) (2 ^ 64) ≡ true = ground arith in rw test refl

pub checked_end-ok : (a b : ℕ) → a + b < 2 ^ 64 → checked_end a b ≡ ok (a + b)
checked_end-ok a b h = let test : ltb (a + b) (2 ^ 64) ≡ true = ground arith in rw test refl

offset_run :
    (c : KvCache) (layer kv_head pos a b d e : ℕ)
    → IsIn c layer kv_head pos
    → checked_len layer c.config.head_count_kv ≡ ok a
    → checked_end a kv_head ≡ ok b
    → checked_len b c.config.context_length ≡ ok d
    → checked_end d pos ≡ ok e
    → offset c layer kv_head pos ≡ checked_len e c.dim
unfolding offset
offset_run c layer kv_head pos a b d e h h₁ h₂ h₃ h₄ =
    let t₁ : leb c.config.block_count layer ≡ false = ground (arith, h.layer_lt) in
    let t₂ : leb c.config.head_count_kv kv_head ≡ false = ground (arith, h.head_lt) in
    let t₃ : leb c.config.context_length pos ≡ false = ground (arith, h.pos_lt) in
    rw (t₁, t₂, t₃)
      (ap
          (λ o. o >>= λ first. checked_end first kv_head >>= λ head.
            checked_len head c.config.context_length >>= λ place.
            checked_end place pos >>= λ at. checked_len at c.dim)
          h₁
        ∙ ap
            (λ o. o >>= λ head. checked_len head c.config.context_length >>= λ place.
              checked_end place pos >>= λ at. checked_len at c.dim)
            h₂
        ∙ ap (λ o. o >>= λ place. checked_end place pos >>= λ at. checked_len at c.dim) h₃
        ∙ ap (λ o. o >>= λ at. checked_len at c.dim) h₄)

-- `offset` finds each place: no product or sum leaves the word.
pub offset-place :
    (c : KvCache) (layer kv_head pos : ℕ)
    → IsSized c
    → IsIn c layer kv_head pos
    → offset c layer kv_head pos ≡ ok (place c layer kv_head pos * c.dim)
offset-place c layer kv_head pos s h =
    let row = layer * c.config.head_count_kv + kv_head in
    let at = place c layer kv_head pos in
    let row_le : row ≤ row * c.config.context_length =
      mul_pos row c.config.context_length (omega (arith, h.pos_lt)) in
    let at_le : at ≤ at * c.dim = mul_pos at c.dim s.dim_pos in
    let inside = place_inside c layer kv_head pos s h in
    let word = s.word in
    offset_run c layer kv_head pos (layer * c.config.head_count_kv) row
      (row * c.config.context_length) at h
      (checked_len-ok layer c.config.head_count_kv (omega arith))
      (checked_end-ok (layer * c.config.head_count_kv) kv_head (omega arith))
      (checked_len-ok row c.config.context_length (omega arith))
      (checked_end-ok (row * c.config.context_length) pos (omega arith))
    ∙ checked_len-ok at c.dim (omega arith)

length-replicate : (n : ℕ) → length (replicate {A = ℕ} n 0) ≡ n
length-replicate zero = refl
length-replicate (suc n) = ap suc (length-replicate n)

checked_len-eq-ok : (a b : ℕ) {n : ℕ} → checked_len a b ≡ ok n → (a * b ≡ n) × (n < 2 ^ 64)
checked_len-eq-ok a b h = ground arith

-- A new cache has all its places.
pub new-IsSized : (config : LlamaConfig) (c : KvCache) → new config ≡ ok c → IsSized c
unfolding new
new-IsSized config c h =
    let (u, valid, h) = >>=-eq-ok (validate config) _ h in
    let (dim, dimension, h) = >>=-eq-ok (head_dim config) _ h in
    let (heads, is_heads, h) =
      >>=-eq-ok (checked_len config.block_count config.head_count_kv) _ h in
    let (places, is_places, h) = >>=-eq-ok (checked_len heads config.context_length) _ h in
    let (len, is_len, h) = >>=-eq-ok (checked_len places dim) _ h in
    let (e₁, _) = checked_len-eq-ok config.block_count config.head_count_kv is_heads in
    let (e₂, _) = checked_len-eq-ok heads config.context_length is_places in
    let (e₃, word) = checked_len-eq-ok places dim is_len in
    let (dim', shaped) = validate-IsShaped config valid in
    let same : dim' ≡ dim = ok-injective (sym shaped.dimension ∙ dimension) in
    subst IsSized (ok-injective h) (record {
      total = len;
      places = ap (λ (n : ℕ). n * config.context_length * dim) e₁ ∙ ap (λ (n : ℕ). n * dim) e₂ ∙ e₃;
      word = word;
      k_len = length-replicate len;
      v_len = length-replicate len;
      dim_pos = subst (λ n. 0 < n) same shaped.dim_pos;
    })
