-- ===== src/Llama/Cache/Heads.antt =====
-- What a round of `store` writes: the elements of one head go to the place of the head.
use detllm.Base.{
  ℕ, ◌+◌, ◌-◌, ◌*◌, ◌≤◌, ◌≡◌, ◌∙◌, refl, arith, true, List, length, length-drop, length-take_of_le,
  drop, leb, slice, copy_at, ok,
}
use detllm.Llama.Cache.{
  KvCache, checked_len, checked_end, get_range, set_range, offset, store_head, key, value,
}
use detllm.Llama.Cache.Layout.{
  IsSized, IsIn, place, place_inside, rows_le, offset-place, checked_len-ok, checked_end-ok,
  index_le,
}

-- The elements of place `p`.
abbrev pub block : KvCache → ℕ → List ℕ → List ℕ
block c p xs = slice (p * c.dim) (p * c.dim + c.dim) xs

pub length-block :
    (dim h : ℕ) (xs : List ℕ)
    → h * dim + dim ≤ length xs
    → length (slice (h * dim) (h * dim + dim) xs) ≡ dim
length-block dim h xs inside =
    let width : h * dim + dim - h * dim ≡ dim = omega arith in
    length-take_of_le (h * dim + dim - h * dim) (drop (h * dim) xs)
      (omega (arith, length-drop (h * dim) xs))
    ∙ width

pub get_range-ok :
    (from to : ℕ) (xs : List ℕ)
    → from ≤ to
    → to ≤ length xs
    → get_range from to xs ≡ ok (slice from to xs)
get_range-ok from to xs le inside =
    let t : leb from to ≡ true = ground arith in
    let u : leb to (length xs) ≡ true = ground arith in rw (t, u) refl

set_range-ok :
    (from to : ℕ) (xs ys : List ℕ)
    → from ≤ to
    → to ≤ length xs
    → set_range from to xs ys ≡ ok (copy_at from ys xs)
set_range-ok from to xs ys le inside =
    let t : leb from to ≡ true = ground arith in
    let u : leb to (length xs) ≡ true = ground arith in rw (t, u) refl

store_head_run :
    (layer pos h : ℕ) (kl vl : List ℕ) (c : KvCache) (src src_end dst dst_end : ℕ)
    (a k b v : List ℕ)
    → checked_len h c.dim ≡ ok src
    → checked_end src c.dim ≡ ok src_end
    → offset c layer h pos ≡ ok dst
    → checked_end dst c.dim ≡ ok dst_end
    → get_range src src_end kl ≡ ok a
    → set_range dst dst_end c.k a ≡ ok k
    → get_range src src_end vl ≡ ok b
    → set_range dst dst_end c.v b ≡ ok v
    → store_head layer pos kl vl h c ≡ ok (record c { k = k; v = v })
unfolding store_head
store_head_run layer pos h kl vl c src src_end dst dst_end a k b v h₁ h₂ h₃ h₄ h₅ h₆ h₇ h₈ =
    rw (h₁, h₂, h₃, h₄, h₅, h₆, h₇, h₈) refl

key_run :
    (c : KvCache) (layer h pos from to : ℕ)
    → offset c layer h pos ≡ ok from
    → checked_end from c.dim ≡ ok to
    → (key c layer h pos ≡ get_range from to c.k) × (value c layer h pos ≡ get_range from to c.v)
unfolding key value
key_run c layer h pos from to h₁ h₂ = (rw (h₁, h₂) refl, rw (h₁, h₂) refl)

-- `key` and `value` give the elements of the place.
pub key-block :
    (c : KvCache) (layer h pos : ℕ)
    → IsSized c
    → IsIn c layer h pos
    → (key c layer h pos ≡ ok (block c (place c layer h pos) c.k))
      × (value c layer h pos ≡ ok (block c (place c layer h pos) c.v))
key-block c layer h pos s i =
    let at = place c layer h pos * c.dim in
    let inside = place_inside c layer h pos s i in
    let word = s.word in
    let (k, v) =
      key_run c layer h pos at (at + c.dim) (offset-place c layer h pos s i)
        (checked_end-ok at c.dim (omega arith)) in
    (
      k ∙ get_range-ok at (at + c.dim) c.k (omega arith) (omega (arith, s.k_len)),
      v ∙ get_range-ok at (at + c.dim) c.v (omega arith) (omega (arith, s.v_len)),
    )

-- A round writes the elements of its head to the place of the head.
pub store_head-ok :
    (layer pos h : ℕ) (kl vl : List ℕ) (c : KvCache)
    → IsSized c
    → IsIn c layer h pos
    → length kl ≡ c.config.head_count_kv * c.dim
    → length vl ≡ c.config.head_count_kv * c.dim
    → let at = place c layer h pos * c.dim in
      store_head layer pos kl vl h c
      ≡ ok (record c {
        k = copy_at at (slice (h * c.dim) (h * c.dim + c.dim) kl) c.k;
        v = copy_at at (slice (h * c.dim) (h * c.dim + c.dim) vl) c.v;
      })
store_head-ok layer pos h kl vl c s i kl_len vl_len =
    let at = place c layer h pos * c.dim in
    let inside = place_inside c layer h pos s i in
    let word = s.word in
    let row : h * c.dim + c.dim ≤ c.config.head_count_kv * c.dim =
      index_le h c.config.head_count_kv c.dim i.head_lt in
    let rows : c.config.head_count_kv * c.dim ≤ s.total = rows_le c layer h pos s i in
    store_head_run layer pos h kl vl c (h * c.dim) (h * c.dim + c.dim) at (at + c.dim) _ _ _ _
      (checked_len-ok h c.dim (omega arith)) (checked_end-ok (h * c.dim) c.dim (omega arith))
      (offset-place c layer h pos s i) (checked_end-ok at c.dim (omega arith))
      (get_range-ok (h * c.dim) (h * c.dim + c.dim) kl (omega arith) (omega arith))
      (set_range-ok at (at + c.dim) c.k _ (omega arith) (omega (arith, s.k_len)))
      (get_range-ok (h * c.dim) (h * c.dim + c.dim) vl (omega arith) (omega arith))
      (set_range-ok at (at + c.dim) c.v _ (omega arith) (omega (arith, s.v_len)))
