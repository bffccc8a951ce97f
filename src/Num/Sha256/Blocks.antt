-- ===== src/Num/Sha256/Blocks.antt =====
-- Blocks of 64 bytes, one behind the other.
use detllm.Base.{
  ℕ, zero, suc, ◌+◌, ◌*◌, ◌/◌, ◌≤◌, ◌<◌, ◌≡◌, ◌∙◌, refl, sym, ap, ap₂, arith, Bool-cases, inl, inr,
  List, [], ◌∷◌, ◌++◌, append-nil, append_assoc, length, length-append, leb, take, drop, take-all,
  take-append_of_le, drop-append_of_le, length-drop, take-append-drop, length-take_of_le,
}
use detllm.Num.Sha256.{Words, initial, compress, whole_blocks}
use detllm.Num.Sha256.Padding.{compress_blocks}

compress_blocks-append :
    (n k : ℕ) (s : Words) (xs ys : List ℕ)
    → length xs ≡ n * 64
    → compress_blocks (n + k) s (xs ++ ys) ≡ compress_blocks k (compress_blocks n s xs) ys
unfolding compress_blocks
compress_blocks-append zero k s [] ys h =
    let same : zero + k ≡ k = omega arith in ap (λ n. compress_blocks n s ys) same
compress_blocks-append zero k s (x ∷ xs) ys h = absurd (omega arith)
compress_blocks-append (suc n) k s xs ys h =
    let step : suc n + k ≡ suc (n + k) = omega arith in
    ap (λ c. compress_blocks c s (xs ++ ys)) step
    ∙ ap₂ (λ (b r : List ℕ). compress_blocks (n + k) (compress s b) r)
        (take-append_of_le 64 xs ys (omega arith)) (drop-append_of_le 64 xs ys (omega arith))
    ∙ compress_blocks-append n k (compress s (take 64 xs)) (drop 64 xs) ys
        (omega (arith, length-drop 64 xs))

-- The blocks of `done` take the first state to `s`.
pub record Ran (done : List ℕ) (s : Words) : Type 0 where
  pub count : ℕ
  pub whole : length done ≡ count * 64
  pub result : compress_blocks count initial done ≡ s

pub Ran-nil : Ran [] initial
unfolding compress_blocks
Ran-nil = record { count = 0; whole = refl; result = refl }

pub Ran-block :
    {done : List ℕ} {s : Words} (block : List ℕ)
    → Ran done s
    → length block ≡ 64
    → Ran (done ++ block) (compress s block)
unfolding compress_blocks
Ran-block {done} {s} block h full = record {
  count = h.count + 1;
  whole = omega (arith, length-append done block, h.whole);
  result =
      compress_blocks-append h.count 1 initial done block h.whole
      ∙ rw (h.result, take-all 64 block full) refl;
}

pub Ran-compress_blocks :
    {done : List ℕ} {s : Words} → Ran done s → compress_blocks (length done / 64) initial done ≡ s
Ran-compress_blocks {done} h =
    let same : length done / 64 ≡ h.count = omega (arith, h.whole) in rw same h.result

-- The loop of `update` compresses the whole blocks and leaves less than one.
pub whole_blocks-Ran :
    (fuel : ℕ) (s : Words) (input done : List ℕ)
    → Ran done s
    → length input < suc fuel * 64
    → (taken : List ℕ) × (input ≡ taken ++ (whole_blocks fuel s input).1)
      × Ran (done ++ taken) (whole_blocks fuel s input).0
      × (length (whole_blocks fuel s input).1 < 64)
unfolding whole_blocks
whole_blocks-Ran zero s input done h enough = ([], refl, rw append-nil h, omega arith)
whole_blocks-Ran (suc fuel) s input done h enough = elim (Bool-cases (leb 64 (length input))) [
  | inl more ↦
      let long : 64 ≤ length input = ground arith in
      let (taken, same, ran, short) =
        whole_blocks-Ran fuel (compress s (take 64 input)) (drop 64 input) (done ++ take 64 input)
          (Ran-block (take 64 input) h (length-take_of_le 64 input long))
          (omega (arith, length-drop 64 input)) in
      rw more (
        take 64 input ++ taken,
        sym (take-append-drop 64 input)
            ∙ ap (◌++◌ (take 64 input)) same
            ∙ sym (append_assoc (take 64 input) taken _),
        rw (← append_assoc) ran,
        short,
      )
  | inr last ↦ rw last ([], refl, rw append-nil h, ground arith)
]
