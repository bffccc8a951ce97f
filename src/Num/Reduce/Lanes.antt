-- ===== src/Num/Reduce/Lanes.antt =====
-- What the eight lanes hold at the end.
use detllm.Base.{
  ℕ, zero, suc, ◌+◌, ◌^◌, ◌%◌, ◌≡◌, ◌∙◌, refl, ap, arith, inl, inr, bit_and, true, false,
  Bool-cases, List, [], ◌∷◌, ◌==◌, if◌then◌else◌, length, ok,
}
use mathlib.Core.Path.{fun_ext}
use detllm.Base.Bits.{bit_and-mask}
use detllm.Num.Reduce.{
  Float, Acc, add_to_lane, finish_8lane, dot_from, sum_from, sum_squares_from, dot_f32_ref,
  sum_f32_ref, sum_squares_f32_ref,
}

-- The terms whose index is `lane` modulo 8, in their order; the first term has the index `i`.
unfoldable pub terms_of_lane {ℓ} : {A : Type ℓ} → ℕ → ℕ → List A → List A
terms_of_lane lane i [] = []
terms_of_lane lane i (x ∷ xs) =
    let rest = terms_of_lane lane (suc i) xs in if i % 8 == lane then x ∷ rest else rest

module _ {F : Type 0} (float : Float F) where
  unfoldable pub in_order : F → List F → F
  in_order first [] = first
  in_order first (x ∷ xs) = in_order (float.add first x) xs

  unfoldable pub products : List F → List F → List F
  products (x ∷ xs) (y ∷ ys) = float.mul x y ∷ products xs ys
  products _ _ = []

  -- The sum of the terms of a lane, from the left, starting from zero.
  unfoldable pub lane_sum : List F → ℕ → F
  lane_sum terms lane = in_order float.nought (terms_of_lane lane 0 terms)

  -- The values of the `2 ^ depth` lanes from `first` on, added as a balanced tree.
  unfoldable pub tree : ℕ → ℕ → (ℕ → F) → F
  tree zero first lane = lane first
  tree (suc depth) first lane =
      float.add (tree depth first lane) (tree depth (first + 2 ^ depth) lane)

  -- The sums of the eight lanes, added as a tree of depth 3.
  unfoldable pub reduced : List F → F
  reduced terms = tree 3 0 (lane_sum terms)

  finish_8lane-tree : (acc : Acc float) → finish_8lane float acc ≡ tree 3 0 acc
  unfolding finish_8lane tree
  finish_8lane-tree acc = refl

  sum_from-lane :
      (i : ℕ) (terms : List F) (acc : Acc float) (lane : ℕ)
      → sum_from float i terms acc lane ≡ in_order (acc lane) (terms_of_lane lane i terms)
  unfolding sum_from terms_of_lane in_order add_to_lane
  sum_from-lane i [] acc lane = refl
  sum_from-lane i (x ∷ xs) acc lane =
      let low : bit_and i 7 ≡ i % 8 = bit_and-mask 3 i in
      sum_from-lane (suc i) xs (add_to_lane float i x acc) lane
      ∙ elim (Bool-cases (i % 8 == lane)) [
        | inl here ↦
            let same : (lane == bit_and i 7) ≡ true = rw low (ground arith) in rw (here, same) refl
        | inr other ↦
            let same : (lane == bit_and i 7) ≡ false = rw low (ground arith) in
            rw (other, same) refl
      ]

  dot_from-products :
      (i : ℕ) (xs ys : List F) (acc : Acc float)
      → dot_from float i xs ys acc ≡ sum_from float i (products xs ys) acc
  unfolding dot_from sum_from products
  dot_from-products i [] ys acc = refl
  dot_from-products i (x ∷ xs) [] acc = refl
  dot_from-products i (x ∷ xs) (y ∷ ys) acc = dot_from-products (suc i) xs ys _

  sum_squares_from-products :
      (i : ℕ) (xs : List F) (acc : Acc float)
      → sum_squares_from float i xs acc ≡ sum_from float i (products xs xs) acc
  unfolding sum_squares_from sum_from products
  sum_squares_from-products i [] acc = refl
  sum_squares_from-products i (x ∷ xs) acc = sum_squares_from-products (suc i) xs _

  sum_f32_ref-reduced : (x : List F) → sum_f32_ref float x ≡ reduced x
  unfolding sum_f32_ref reduced lane_sum
  sum_f32_ref-reduced x =
      ap (finish_8lane float) (fun_ext λ lane. sum_from-lane 0 x (λ j. float.nought) lane)
      ∙ finish_8lane-tree (λ lane. in_order float.nought (terms_of_lane lane 0 x))

  -- With any addition and multiplication, associative or not: `sum_f32_ref` is the balanced tree
  -- of the sums of lanes 0 to 7 in this order, each of which adds from the left, starting from zero,
  -- the terms whose index is its lane modulo 8; `sum_squares_f32_ref` is that of the squares, and
  -- `dot_f32_ref`, on slices of one length, that of the products.
  pub reductions_reduced :
      (x y : List F)
      → length x ≡ length y
      → (dot_f32_ref float x y ≡ ok (reduced (products x y)))
        × (sum_f32_ref float x ≡ reduced x)
        × (sum_squares_f32_ref float x ≡ reduced (products x x))
  unfolding dot_f32_ref sum_squares_f32_ref
  reductions_reduced x y same =
      let test : (length x == length y) ≡ true = ground arith in
      (
        rw test (
            ap (λ acc. ok (finish_8lane float acc)) (dot_from-products 0 x y _)
            ∙ ap ok (unfold sum_f32_ref in sum_f32_ref-reduced (products x y))),
        sum_f32_ref-reduced x,
        ap (finish_8lane float) (sum_squares_from-products 0 x _)
            ∙ (unfold sum_f32_ref in sum_f32_ref-reduced (products x x)),
      )
