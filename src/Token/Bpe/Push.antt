-- ===== src/Token/Bpe/Push.antt =====
-- Pairs are pushed and links written back within the bounds.
use detllm.Base.{
  ℕ, suc, ◌≤◌, ◌<◌, ◌≡◌, ◌∙◌, inl, inr, refl, subst, arith, Option, none, some, some-injective,
  List, All, length, get_elem?, get_elem?-lt, Outcome, ok, Map,
}
use detllm.Token.{TokenError}
use detllm.Token.Bpe.Merge.{Entry, set_at, push_rule, push_bpe_pair, push_left, relink}
use detllm.Token.Bpe.Chain.{length-set_at, set_at-cases, Below}

-- A pair is pushed without a panic, with one entry at most.
unfoldable pub Pushed : ℕ → List Entry → Outcome TokenError (List Entry) → Type 0
Pushed len heap pushed =
    (heap' : List Entry) × (pushed ≡ ok heap')
    × (length heap' ≤ suc (length heap))
    × All (Below len) heap'

push_rule-Pushed :
    (len : ℕ) (rule : Option (ℕ × ℕ)) (left : ℕ) (heap : List Entry)
    → left < len
    → All (Below len) heap
    → (length (push_rule rule left heap) ≤ suc (length heap))
      × All (Below len) (push_rule rule left heap)
unfolding push_rule
push_rule-Pushed len none left heap lt h = (omega arith, h)
push_rule-Pushed len (some (rank, merged_id)) left heap lt h = (omega arith, (lt, h))

pub push_bpe_pair-Pushed :
    (len : ℕ) (m : Map (ℕ × ℕ) (ℕ × ℕ)) (ids : List ℕ) (left : ℕ) (right : Option ℕ)
    (heap : List Entry)
    → length ids ≡ len
    → left < len
    → ((j : ℕ) → right ≡ some j → j < len)
    → All (Below len) heap
    → Pushed len heap (push_bpe_pair m ids left right heap)
unfolding push_bpe_pair Pushed
push_bpe_pair-Pushed len m ids left none heap same lt lt' h = (heap, refl, omega arith, h)
push_bpe_pair-Pushed len m ids left (some right) heap same lt lt' h =
    let (left_id, found) = get_elem?-lt ids left (omega arith) in
    let (right_id, found') = get_elem?-lt ids right (omega (arith, lt' right refl)) in
    let (few, all) = push_rule-Pushed len (m (left_id, right_id)) left heap lt h in
    (push_rule (m (left_id, right_id)) left heap, rw (found, found') refl, few, all)

pub push_left-Pushed :
    (len : ℕ) (m : Map (ℕ × ℕ) (ℕ × ℕ)) (ids : List ℕ) (left : Option ℕ) (index : ℕ)
    (heap : List Entry)
    → length ids ≡ len
    → index < len
    → ((j : ℕ) → left ≡ some j → j < len)
    → All (Below len) heap
    → Pushed len heap (push_left m ids left index heap)
unfolding push_left Pushed
push_left-Pushed len m ids none index heap same lt lt' h = (heap, refl, omega arith, h)
push_left-Pushed len m ids (some left) index heap same lt lt' h =
    push_bpe_pair-Pushed len m ids left (some index) heap same (lt' left refl)
      (λ j e. subst (λ k. k < len) (some-injective e) lt) h

-- The links back stay within the bounds.
pub relink-ok :
    (len index : ℕ) (after : Option ℕ) (prev : List (Option ℕ))
    → length prev ≡ len
    → index < len
    → ((j : ℕ) → after ≡ some j → j < len)
    → ((i j : ℕ) → get_elem? prev i ≡ some (some j) → j < len)
    → (prev' : List (Option ℕ)) × (relink after index prev ≡ ok prev')
      × (length prev' ≡ len)
      × ((i j : ℕ) → get_elem? prev' i ≡ some (some j) → j < len)
unfolding relink
relink-ok len index none prev same lt lt' h = (prev, refl, same, h)
relink-ok len index (some after) prev same lt lt' h =
    let (old, found) = get_elem?-lt prev after (omega (arith, lt' after refl)) in
    (
      set_at after (some index) prev,
      rw found refl,
      length-set_at after (some index) prev ∙ same,
      λ i j found'. elim (set_at-cases after (some index) prev i found') [
        | inl (here, e) ↦ subst (λ k. k < len) (some-injective e) lt
        | inr (other, old') ↦ h i j old'
      ],
    )
