-- ===== src/Gguf/Layout/Disjoint.antt =====
-- `validate_tensor_data_layout` accepts exactly the layouts without an overlap.
use detllm.Base.{
  ◌≤◌, ◌<◌, ◌≡◌, ◌↔◌, ◌⊎◌, inl, inr, refl, arith, false, List, [], ◌∷◌, ltb, leb, Bool-cases, All,
  ok, >>=-eq-ok, ok-injective, ℕ,
}
use detllm.Gguf.Layout.Sizes.{encoded_len-ok}
use detllm.Gguf.Layout.{
  TensorInfo, Range, insert, sort, check_windows, data_range, encoded_len, data_ranges,
  validate_tensor_data_layout,
}

abbrev pub Apart : Range → Range → Type 0
Apart r s = (r.end ≤ s.start) ⊎ (s.end ≤ r.start)

abbrev pub Pairwise : List Range → Type 0
Pairwise [] = Unit
Pairwise (r ∷ ranges) = All (Apart r) ranges × Pairwise ranges

abbrev pub NonEmpty : Range → Type 0
NonEmpty r = r.start < r.end

Apart-sym : (r s : Range) → Apart r s → Apart s r
Apart-sym r s (inl h) = inr h
Apart-sym r s (inr h) = inl h

abbrev Sorted : List Range → Type 0
Sorted [] = Unit
Sorted (r ∷ ranges) = All (λ (s : Range). r.start ≤ s.start) ranges × Sorted ranges

All-insert :
    (P : Range → Type 0) (r : Range) (ranges : List Range)
    → All P (insert r ranges) ↔ (P r × All P ranges)
unfolding insert
All-insert P r [] = (λ h. h, λ h. h)
All-insert P r (s ∷ ranges) = elim (Bool-cases (leb r.start s.start)) [
  | inl first ↦ rw first (λ h. h, λ h. h)
  | inr later ↦
      let more = All-insert P r ranges in
      rw later (λ h. ((more.0 h.1).0, (h.0, (more.0 h.1).1)), λ h. (h.1.0, more.1 (h.0, h.1.1)))
]

Apart-All : (r : Range) (ranges : List Range) → All (Apart r) ranges → All (λ s. Apart s r) ranges
Apart-All r [] h = tt
Apart-All r (s ∷ ranges) h = (Apart-sym r s h.0, Apart-All r ranges h.1)

Pairwise-insert :
    (r : Range) (ranges : List Range) → Pairwise (insert r ranges) ↔ Pairwise (r ∷ ranges)
unfolding insert
Pairwise-insert r [] = (λ h. h, λ h. h)
Pairwise-insert r (s ∷ ranges) = elim (Bool-cases (leb r.start s.start)) [
  | inl first ↦ rw first (λ h. h, λ h. h)
  | inr later ↦
      let more = Pairwise-insert r ranges in
      let all = All-insert (Apart s) r ranges in
      rw later (
        λ h. ((Apart-sym s r (all.0 h.0).0, (more.0 h.1).0), ((all.0 h.0).1, (more.0 h.1).1)),
        λ h. (all.1 (Apart-sym r s h.0.0, h.1.0), more.1 (h.0.1, h.1.1)),
      )
]

All-sort : (P : Range → Type 0) (ranges : List Range) → All P (sort ranges) ↔ All P ranges
unfolding sort
All-sort P [] = (λ h. h, λ h. h)
All-sort P (r ∷ ranges) =
    let more = All-sort P ranges in
    let all = All-insert P r (sort ranges) in
    (λ h. ((all.0 h).0, more.0 (all.0 h).1), λ h. all.1 (h.0, more.1 h.1))

Pairwise-sort : (ranges : List Range) → Pairwise (sort ranges) ↔ Pairwise ranges
unfolding sort
Pairwise-sort [] = (λ h. h, λ h. h)
Pairwise-sort (r ∷ ranges) =
    let more = Pairwise-sort ranges in
    let pair = Pairwise-insert r (sort ranges) in
    let all = All-sort (Apart r) ranges in
    (λ h. (all.0 (pair.0 h).0, more.0 (pair.0 h).1), λ h. pair.1 (all.1 h.0, more.1 h.1))

bounds-weaken :
    (r s : Range) (ranges : List Range)
    → r.start ≤ s.start
    → All (λ (u : Range). s.start ≤ u.start) ranges
    → All (λ (u : Range). r.start ≤ u.start) ranges
bounds-weaken r s [] le h = tt
bounds-weaken r s (u ∷ ranges) le h = (omega arith, bounds-weaken r s ranges le h.1)

insert-Sorted : (r : Range) (ranges : List Range) → Sorted ranges → Sorted (insert r ranges)
unfolding insert
insert-Sorted r [] h = (tt, tt)
insert-Sorted r (s ∷ ranges) h = elim (Bool-cases (leb r.start s.start)) [
  | inl first ↦
      let le : r.start ≤ s.start = ground arith in
      rw first ((le, bounds-weaken r s ranges le h.0), h)
  | inr later ↦
      let le : s.start ≤ r.start = ground arith in
      rw later (
        (All-insert (λ (u : Range). s.start ≤ u.start) r ranges).1 (le, h.0),
        insert-Sorted r ranges h.1,
      )
]

sort-Sorted : (ranges : List Range) → Sorted (sort ranges)
unfolding sort
sort-Sorted [] = tt
sort-Sorted (r ∷ ranges) = insert-Sorted r (sort ranges) (sort-Sorted ranges)

-- The windows show that each range ends before all later ones.
check_windows-after :
    (b : ℕ) (r : Range) (ranges : List Range)
    → b ≤ r.end
    → check_windows (r ∷ ranges) ≡ ok tt
    → All NonEmpty ranges
    → All (λ (s : Range). b ≤ s.start) ranges
unfolding check_windows
check_windows-after b r [] le h some = tt
check_windows-after b r (s ∷ ranges) le h some =
    let next : r.end ≤ s.start = ground arith in
    let rest : check_windows (s ∷ ranges) ≡ ok tt = ground arith in
    (omega arith, check_windows-after b s ranges (omega (arith, some.0)) rest some.1)

to_Apart :
    (r : Range) (ranges : List Range)
    → All (λ (s : Range). r.end ≤ s.start) ranges
    → All (Apart r) ranges
to_Apart r [] h = tt
to_Apart r (s ∷ ranges) h = (inl h.0, to_Apart r ranges h.1)

check_windows-tail :
    (r : Range) (ranges : List Range)
    → check_windows (r ∷ ranges) ≡ ok tt
    → check_windows ranges ≡ ok tt
unfolding check_windows
check_windows-tail r [] h = refl
check_windows-tail r (s ∷ ranges) h = ground arith

check_windows-Pairwise :
    (ranges : List Range) → check_windows ranges ≡ ok tt → All NonEmpty ranges → Pairwise ranges
check_windows-Pairwise [] h some = tt
check_windows-Pairwise (r ∷ ranges) h some = (
  to_Apart r ranges (check_windows-after r.end r ranges (omega arith) h some.1),
  check_windows-Pairwise ranges (check_windows-tail r ranges h) some.1,
)

Pairwise-check_windows :
    (ranges : List Range)
    → Sorted ranges
    → All NonEmpty ranges
    → Pairwise ranges
    → check_windows ranges ≡ ok tt
unfolding check_windows
Pairwise-check_windows [] sorted some apart = refl
Pairwise-check_windows (r ∷ []) sorted some apart = refl
Pairwise-check_windows (r ∷ s ∷ ranges) sorted some apart =
    let rest = Pairwise-check_windows (s ∷ ranges) sorted.1 some.1 apart.1 in
    let next : r.end ≤ s.start = elim apart.0.0 [
      | inl h ↦ h
      | inr h ↦ absurd (omega (arith, sorted.0.0, some.1.0))
    ] in
    let small : ltb s.start r.end ≡ false = ground arith in rw small rest

data_range-NonEmpty :
    (data_offset file_len : ℕ) (t : TensorInfo) {r : Range}
    → data_range data_offset file_len t ≡ ok r
    → NonEmpty r
unfolding data_range
data_range-NonEmpty data_offset file_len t h =
    let (len, sized, h₁) = >>=-eq-ok (encoded_len t) _ h in
    let (size, block, s, b, whole, pos) = encoded_len-ok t sized in ground arith

data_ranges-NonEmpty :
    (data_offset file_len : ℕ) (tensors : List TensorInfo) {ranges : List Range}
    → data_ranges data_offset file_len tensors ≡ ok ranges
    → All NonEmpty ranges
unfolding data_ranges
data_ranges-NonEmpty data_offset file_len [] h = rw (← ok-injective h) tt
data_ranges-NonEmpty data_offset file_len (t ∷ tensors) h =
    let (r, first, h₁) = >>=-eq-ok (data_range data_offset file_len t) _ h in
    let (rest, more, h₂) = >>=-eq-ok (data_ranges data_offset file_len tensors) _ h₁ in
    rw (← ok-injective h₂) (
      data_range-NonEmpty data_offset file_len t first,
      data_ranges-NonEmpty data_offset file_len tensors more,
    )

pub validate_tensor_data_layout_iff :
    (data_offset file_len : ℕ) (tensors : List TensorInfo)
    → (validate_tensor_data_layout data_offset file_len tensors ≡ ok tt) ↔ (
        (ranges : List Range) × (data_ranges data_offset file_len tensors ≡ ok ranges)
        × Pairwise ranges)
unfolding validate_tensor_data_layout
validate_tensor_data_layout_iff data_offset file_len tensors = (
  λ h.
      let (ranges, found, checked) = >>=-eq-ok (data_ranges data_offset file_len tensors) _ h in
      let some =
        (All-sort NonEmpty ranges).1 (data_ranges-NonEmpty data_offset file_len tensors found) in
      (ranges, found, (Pairwise-sort ranges).0 (check_windows-Pairwise (sort ranges) checked some)),
  λ (ranges, found, apart).
      let some =
        (All-sort NonEmpty ranges).1 (data_ranges-NonEmpty data_offset file_len tensors found) in
      rw found (
        Pairwise-check_windows (sort ranges) (sort-Sorted ranges) some
          ((Pairwise-sort ranges).1 apart)),
)
