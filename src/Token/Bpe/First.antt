-- ===== src/Token/Bpe/First.antt =====
-- The links and the heap before the first merge.
use detllm.Base.{
  ℕ, zero, suc, ◌+◌, ◌-◌, ◌≤◌, ◌<◌, ◌≡◌, ◌≢◌, ◌∙◌, ◌⊎◌, inl, inr, refl, sym, ap, subst, arith, true,
  Bool-cases, ◌==◌, Option, none, some, some-injective, List, All, length, get_elem?, replicate, ok,
  ◌>>=◌, Map,
}
use detllm.Token.Bpe.Merge.{Entry, push_pairs, first_prev, first_next}
use detllm.Token.Bpe.Chain.{count, Below}
use detllm.Token.Bpe.Push.{Pushed, push_bpe_pair-Pushed}

pub length-replicate : (n : ℕ) → length (replicate n true) ≡ n
length-replicate zero = refl
length-replicate (suc n) = ap suc (length-replicate n)

pub get_elem?-replicate : (n i : ℕ) → i < n → get_elem? (replicate n true) i ≡ some true
get_elem?-replicate zero i lt = absurd (omega arith)
get_elem?-replicate (suc n) zero lt = refl
get_elem?-replicate (suc n) (suc i) lt = get_elem?-replicate n i (omega arith)

pub count-replicate : (n : ℕ) → count (replicate n true) ≡ n
unfolding count
count-replicate zero = refl
count-replicate (suc n) = ap suc (count-replicate n)

pub length-first_prev : (rounds i : ℕ) → length (first_prev rounds i) ≡ rounds
unfolding first_prev
length-first_prev zero i = refl
length-first_prev (suc rounds) i = ap suc (length-first_prev rounds (suc i))

pub length-first_next : (rounds i len : ℕ) → length (first_next rounds i len) ≡ rounds
unfolding first_next
length-first_next zero i len = refl
length-first_next (suc rounds) i len = ap suc (length-first_next rounds (suc i) len)

pub first_prev-below :
    (rounds i k j : ℕ) → get_elem? (first_prev rounds i) k ≡ some (some j) → j < i + rounds
unfolding first_prev
first_prev-below zero i k j h = absurd (cc h)
first_prev-below (suc rounds) i zero j h = elim (Bool-cases (i == 0)) [
  | inl first ↦ absurd (cc (some-injective (rw first at h)))
  | inr later ↦
      let same : i - 1 ≡ j = some-injective (some-injective (rw later at h)) in omega arith
]
first_prev-below (suc rounds) i (suc k) j h = omega (arith, first_prev-below rounds (suc i) k j h)

-- The link of the index `i + k`.
pub first_next_lem :
    (rounds i len k : ℕ) {link : Option ℕ}
    → get_elem? (first_next rounds i len) k ≡ some link
    → ((i + k + 1 ≡ len) × (link ≡ none)) ⊎ ((i + k + 1 ≢ len) × (link ≡ some (i + k + 1)))
unfolding first_next
first_next_lem zero i len k h = absurd (cc h)
first_next_lem (suc rounds) i len zero {link} h = elim (Bool-cases (i + 1 == len)) [
  | inl last ↦ inl (ground arith, sym (some-injective (rw last at h)))
  | inr inner ↦
      let next : i + 1 ≡ i + 0 + 1 = omega arith in
      inr ((λ e. absurd (ground arith)), sym (some-injective (rw inner at h)) ∙ ap some next)
]
first_next_lem (suc rounds) i len (suc k) h =
    let step : suc i + k + 1 ≡ i + suc k + 1 = omega arith in
    elim (first_next_lem rounds (suc i) len k h) [
      | inl (last, e) ↦ inl (omega arith, e)
      | inr (inner, e) ↦ inr ((λ e. inner (omega arith)), e ∙ ap some step)
    ]

pub push_pairs-Pushed :
    (len : ℕ) (m : Map (ℕ × ℕ) (ℕ × ℕ)) (ids : List ℕ) (rounds i : ℕ) (heap : List Entry)
    → length ids ≡ len
    → rounds + i < len
    → All (Below len) heap
    → (heap' : List Entry) × (push_pairs m ids rounds i heap ≡ ok heap')
      × (length heap' ≤ rounds + length heap)
      × All (Below len) heap'
unfolding push_pairs Pushed
push_pairs-Pushed len m ids zero i heap same room h = (heap, refl, omega arith, h)
push_pairs-Pushed len m ids (suc rounds) i heap same room h =
    let in_next : (j : ℕ) → some (i + 1) ≡ some j → j < len =
      λ j e. subst (λ k. k < len) (some-injective e) (omega arith) in
    let (heap', pushed, few, below) =
      push_bpe_pair-Pushed len m ids i (some (i + 1)) heap same (omega arith) in_next h in
    let (heap'', pushed', few', below') =
      push_pairs-Pushed len m ids rounds (suc i) heap' same (omega arith) below in
    (heap'', ap (λ o. o >>= push_pairs m ids rounds (suc i)) pushed ∙ pushed', omega arith, below')
