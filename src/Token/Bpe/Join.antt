-- ===== src/Token/Bpe/Join.antt =====
-- The links after a merge.
use detllm.Base.{
  ℕ, ◌<◌, ◌≡◌, ◌≢◌, ◌∙◌, inl, inr, sym, ap, ap₂, subst, arith, true, false, Option, some,
  some-injective, List, ◌++◌, All, length, get_elem?, slice,
}
use detllm.Token.Bpe.Entering.{Joins}
use detllm.Token.Bpe.Merge.{Entry, Merging, set_at}
use detllm.Token.Bpe.Chain.{
  length-set_at, set_at-cases, set_at-other, end, slice-slice, Part, Below, Chained,
}

-- The parts of two neighbours make up one.
Part-join :
    (tokens : List (List ℕ)) (input : List ℕ) (index left_id right right_id merged_id : ℕ)
    (after : Option ℕ)
    → Part tokens input index left_id (some right)
    → Part tokens input right right_id after
    → Joins tokens left_id right_id merged_id
    → Part tokens input index merged_id after
unfolding Part Joins end
Part-join tokens input index left_id right right_id merged_id after (lt, le, first)
      (lt', le', second) (x, y, is_x, is_y, joined) =
    let same_x : x ≡ slice index right input = some-injective (sym is_x ∙ first) in
    let same_y : y ≡ slice right (end (length input) after) input =
      some-injective (sym is_y ∙ second) in
    let whole : x ++ y ≡ slice index (end (length input) after) input =
      ap₂ ◌++◌ same_x same_y
      ∙ slice-slice index right (end (length input) after) input (omega arith) (omega arith) in
    (omega arith, le', joined ∙ ap some whole)

Part-lt :
    (tokens : List (List ℕ)) (input : List ℕ) (i id j : ℕ) → Part tokens input i id (some j) → i < j
unfolding Part end
Part-lt tokens input i id j part = part.0

module _ (tokens : List (List ℕ)) (input : List ℕ) (s : Merging) (h : Chained tokens input s)
    (index right left_id right_id merged_id : ℕ) (after : Option ℕ)
    (live : get_elem? s.alive index ≡ some true) (live_right : get_elem? s.alive right ≡ some true)
    (link : get_elem? s.next index ≡ some (some right))
    (link_right : get_elem? s.next right ≡ some after)
    (is_left : get_elem? s.ids index ≡ some left_id)
    (is_right : get_elem? s.ids right ≡ some right_id)
    (joins : Joins tokens left_id right_id merged_id) (prev : List (Option ℕ))
    (prev_same : length prev ≡ length input)
    (prev_below : (i j : ℕ) → get_elem? prev i ≡ some (some j) → j < length input)
    (heap : List Entry) (heap_below : All (Below (length input)) heap) where
  abbrev after_join : Merging
  after_join = record {
    ids = set_at index merged_id s.ids;
    prev = prev;
    next = set_at index after s.next;
    alive = set_at right false s.alive;
    heap = heap;
  }

  -- Who is alive after the merge was so before, and is not the right one.
  still :
      (i : ℕ)
      → get_elem? after_join.alive i ≡ some true
      → (right ≢ i) × (get_elem? s.alive i ≡ some true)
  still i e = elim (set_at-cases right false s.alive i e) [
    | inl (same, dead) ↦ absurd (cc dead)
    | inr old ↦ old
  ]

  new-Part : Part tokens input index merged_id after
  new-Part =
      Part-join tokens input index left_id right right_id merged_id after
        (h.part index left_id (some right) live is_left link)
        (h.part right right_id after live_right is_right link_right) joins

  after_join-Part :
      (i id : ℕ) (link' : Option ℕ)
      → get_elem? after_join.alive i ≡ some true
      → get_elem? after_join.ids i ≡ some id
      → get_elem? after_join.next i ≡ some link'
      → Part tokens input i id link'
  after_join-Part i id link' a is n =
      let (apart, a') = still i a in
      elim (set_at-cases index merged_id s.ids i is) [
        | inl (same, same_id) ↦ elim (set_at-cases index after s.next i n) [
          | inl (same', same_link) ↦
              subst (λ k. Part tokens input k id link') same
                (subst (λ k. Part tokens input index k link') same_id
                  (subst (Part tokens input index merged_id) same_link new-Part))
          | inr (other, old) ↦ absurd (other same)
        ]
        | inr (other, old_id) ↦ elim (set_at-cases index after s.next i n) [
          | inl (same', same_link) ↦ absurd (other same')
          | inr (other', old) ↦ h.part i id link' a' old_id old
        ]
      ]

  right_lt : (j : ℕ) → after ≡ some j → right < j
  right_lt j e =
      Part-lt tokens input right right_id j
        (h.part right right_id (some j) live_right is_right (link_right ∙ ap some e))

  alive_after :
      (j : ℕ)
      → right ≢ j
      → get_elem? s.alive j ≡ some true
      → get_elem? after_join.alive j ≡ some true
  alive_after j other a = set_at-other right false s.alive j other ∙ a

  linked_after :
      (i j : ℕ)
      → get_elem? after_join.alive i ≡ some true
      → get_elem? after_join.next i ≡ some (some j)
      → get_elem? after_join.alive j ≡ some true
  linked_after i j a n =
      let (apart, a') = still i a in
      elim (set_at-cases index after s.next i n) [
        | inl (same, is_j) ↦
            let lt = right_lt j is_j in
            alive_after j (λ e. absurd (omega arith))
              (h.linked right j live_right (link_right ∙ ap some is_j))
        | inr (other, old) ↦
            alive_after j
              (λ e. other (h.alone index i j live a' (link ∙ ap (λ k. some (some k)) e) old))
              (h.linked i j a' old)
      ]

  alone_after :
      (i k j : ℕ)
      → get_elem? after_join.alive i ≡ some true
      → get_elem? after_join.alive k ≡ some true
      → get_elem? after_join.next i ≡ some (some j)
      → get_elem? after_join.next k ≡ some (some j)
      → i ≡ k
  alone_after i k j a b n m =
      let (apart, a') = still i a in
      let (apart', b') = still k b in
      elim (set_at-cases index after s.next i n) [
        | inl (same, is_j) ↦ elim (set_at-cases index after s.next k m) [
          | inl (same', is_j') ↦ sym same ∙ same'
          | inr (other, old) ↦
              absurd (apart' (h.alone right k j live_right b' (link_right ∙ ap some is_j) old))
        ]
        | inr (other, old) ↦ elim (set_at-cases index after s.next k m) [
          | inl (same', is_j') ↦
              absurd (apart (h.alone right i j live_right a' (link_right ∙ ap some is_j') old))
          | inr (other', old') ↦ h.alone i k j a' b' old old'
        ]
      ]

  right_pos : 0 < right
  right_pos = omega (
    arith,
    Part-lt tokens input index left_id right (h.part index left_id (some right) live is_left link),
  )

  pub after_join-Chained : Chained tokens input after_join
  after_join-Chained = record {
    ids_len = length-set_at index merged_id s.ids ∙ h.ids_len;
    prev_len = prev_same;
    next_len = length-set_at index after s.next ∙ h.next_len;
    alive_len = length-set_at right false s.alive ∙ h.alive_len;
    start = alive_after 0 (λ e. absurd (omega (arith, right_pos))) h.start;
    part = after_join-Part;
    linked = linked_after;
    alone = alone_after;
    prev_in = prev_below;
    heap_in = heap_below;
  }
