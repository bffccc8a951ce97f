-- ===== src/Token/Bpe/Step.antt =====
-- A round of the merge loop keeps the links as they should be.
use detllm.Base.{
  ℕ, suc, ◌≤◌, ◌<◌, ◌≡◌, ◌∙◌, inl, inr, refl, ap, subst, arith, Bool, true, false, Bool-cases,
  Option, none, some, List, length, get_elem?, get_elem?-lt, lt_of_get_elem?, Outcome, ok, Map,
}
use detllm.Token.{TokenError}
use detllm.Token.Bpe.Entering.{Joins, Rules}
use detllm.Token.Bpe.Merge.{
  Entry, Merging, set_at, push_bpe_pair, push_left, relink, join_pair, is_rule, check_rule,
  check_right, check_left, merge_entry,
}
use detllm.Token.Bpe.Join.{after_join-Chained}
use detllm.Token.Bpe.Chain.{length-set_at, count-set_at, Chained, size}
use detllm.Token.Bpe.Push.{Pushed, push_bpe_pair-Pushed, push_left-Pushed, relink-ok}

-- A round comes back with links that are as they should be, and `size` grows by nothing.
unfoldable pub Kept : List (List ℕ) → List ℕ → Merging → Outcome TokenError Merging → Type 0
Kept tokens input s result =
    (s' : Merging) × (result ≡ ok s') × Chained tokens input s' × (size s' ≤ size s)

kept :
    (tokens : List (List ℕ)) (input : List ℕ) (s : Merging)
    → Chained tokens input s
    → Kept tokens input s (ok s)
unfolding Kept
kept tokens input s h = (s, refl, h, omega arith)

joined-size :
    (ids : List ℕ) (prev next : List (Option ℕ)) (right : ℕ) (heap : List Entry) (s : Merging)
    → get_elem? s.alive right ≡ some true
    → length heap ≤ suc (suc (length s.heap))
    → size record {
      ids = ids;
      prev = prev;
      next = next;
      alive = set_at right false s.alive;
      heap = heap;
    }
      ≤ size s
unfolding size
joined-size ids prev next right heap s live few = omega (arith, count-set_at right s.alive live)

join_pair-run :
    (m : Map (ℕ × ℕ) (ℕ × ℕ)) (e : Entry) (right : ℕ) (s : Merging) (after left : Option ℕ)
    (prev : List (Option ℕ)) (heap heap' : List Entry)
    → get_elem? s.next right ≡ some after
    → relink after e.index s.prev ≡ ok prev
    → get_elem? prev e.index ≡ some left
    → push_left m (set_at e.index e.merged_id s.ids) left e.index s.heap ≡ ok heap
    → push_bpe_pair m (set_at e.index e.merged_id s.ids) e.index after heap ≡ ok heap'
    → join_pair m e right s
      ≡ ok record {
        ids = set_at e.index e.merged_id s.ids;
        prev = prev;
        next = set_at e.index after s.next;
        alive = set_at right false s.alive;
        heap = heap';
      }
unfolding join_pair
join_pair-run m e right s after left prev heap heap' h1 h2 h3 h4 h5 = rw (h1, h2, h3, h4, h5) refl

join_pair-Kept :
    (tokens : List (List ℕ)) (input : List ℕ) (m : Map (ℕ × ℕ) (ℕ × ℕ)) (e : Entry) (right : ℕ)
    (s : Merging) (left_id right_id : ℕ)
    → Chained tokens input s
    → get_elem? s.alive e.index ≡ some true
    → get_elem? s.alive right ≡ some true
    → get_elem? s.next e.index ≡ some (some right)
    → get_elem? s.ids e.index ≡ some left_id
    → get_elem? s.ids right ≡ some right_id
    → Joins tokens left_id right_id e.merged_id
    → Kept tokens input s (join_pair m e right s)
unfolding Kept Pushed
join_pair-Kept tokens input m e right s left_id right_id h live live_right link is_left is_right
      joins =
    let len = length input in
    let in_index : e.index < len =
      omega (arith, lt_of_get_elem? s.alive e.index live, h.alive_len) in
    let in_right : right < len =
      omega (arith, lt_of_get_elem? s.alive right live_right, h.alive_len) in
    let ids = set_at e.index e.merged_id s.ids in
    let ids_len : length ids ≡ len = length-set_at e.index e.merged_id s.ids ∙ h.ids_len in
    let (after, link_right) = get_elem?-lt s.next right (omega (arith, h.next_len)) in
    let in_after : (j : ℕ) → after ≡ some j → j < len = λ j is_j. omega (
      arith,
      h.alive_len,
      lt_of_get_elem? s.alive j (h.linked right j live_right (link_right ∙ ap some is_j)),
    ) in
    let (prev, relinked, prev_len, prev_in) =
      relink-ok len e.index after s.prev h.prev_len in_index in_after h.prev_in in
    let (left, found) = get_elem?-lt prev e.index (omega arith) in
    let in_left : (j : ℕ) → left ≡ some j → j < len =
      λ j is_j. prev_in e.index j (found ∙ ap some is_j) in
    let (heap, pushed, few, below) =
      push_left-Pushed len m ids left e.index s.heap ids_len in_index in_left h.heap_in in
    let (heap', pushed', few', below') =
      push_bpe_pair-Pushed len m ids e.index after heap ids_len in_index in_after below in
    (
      _,
      join_pair-run m e right s after left prev heap heap' link_right relinked found pushed pushed',
      after_join-Chained tokens input s h e.index right left_id right_id e.merged_id after live
          live_right link link_right is_left is_right joins prev prev_len prev_in heap' below',
      joined-size ids prev (set_at e.index after s.next) right heap' s live_right (omega arith),
    )

is_rule-Joins :
    (tokens : List (List ℕ)) (rule : Option (ℕ × ℕ)) (e : Entry) (left right : ℕ)
    → ((rank merged : ℕ) → rule ≡ some (rank, merged) → Joins tokens left right merged)
    → is_rule rule e ≡ true
    → Joins tokens left right e.merged_id
unfolding is_rule
is_rule-Joins tokens none e left right h test = absurd (cc test)
is_rule-Joins tokens (some (rank, merged)) e left right h test =
    let same : merged ≡ e.merged_id = ground arith in
    subst (Joins tokens left right) same (h rank merged refl)

check_rule-Kept :
    (tokens : List (List ℕ)) (input : List ℕ) (m : Map (ℕ × ℕ) (ℕ × ℕ)) (e : Entry) (right : ℕ)
    (s : Merging) (live_right : Bool)
    → Rules tokens m
    → Chained tokens input s
    → get_elem? s.alive e.index ≡ some true
    → get_elem? s.alive right ≡ some live_right
    → get_elem? s.next e.index ≡ some (some right)
    → Kept tokens input s (check_rule m e right live_right s)
unfolding check_rule Rules
check_rule-Kept tokens input m e right s false rules h live live_right link = kept tokens input s h
check_rule-Kept tokens input m e right s true rules h live live_right link =
    let in_index = lt_of_get_elem? s.alive e.index live in
    let in_right = lt_of_get_elem? s.alive right live_right in
    let (left_id, is_left) = get_elem?-lt s.ids e.index (omega (arith, h.ids_len, h.alive_len)) in
    let (right_id, is_right) = get_elem?-lt s.ids right (omega (arith, h.ids_len, h.alive_len)) in
    elim (Bool-cases (is_rule (m (left_id, right_id)) e)) [
      | inl rule ↦
          let joins =
            is_rule-Joins tokens (m (left_id, right_id)) e left_id right_id
              (λ rank merged. rules left_id right_id rank merged) rule in
          rw (is_left, is_right, rule)
            (join_pair-Kept tokens input m e right s left_id right_id h live live_right link is_left
              is_right joins)
      | inr other ↦ rw (is_left, is_right, other) (kept tokens input s h)
    ]

check_right-Kept :
    (tokens : List (List ℕ)) (input : List ℕ) (m : Map (ℕ × ℕ) (ℕ × ℕ)) (e : Entry)
    (link : Option ℕ) (s : Merging)
    → Rules tokens m
    → Chained tokens input s
    → get_elem? s.alive e.index ≡ some true
    → get_elem? s.next e.index ≡ some link
    → Kept tokens input s (check_right m e link s)
unfolding check_right
check_right-Kept tokens input m e none s rules h live next = kept tokens input s h
check_right-Kept tokens input m e (some right) s rules h live next =
    let live_right = h.linked e.index right live next in
    rw live_right (check_rule-Kept tokens input m e right s true rules h live live_right next)

pub merge_entry-Kept :
    (tokens : List (List ℕ)) (input : List ℕ) (m : Map (ℕ × ℕ) (ℕ × ℕ)) (e : Entry) (s : Merging)
    → Rules tokens m
    → Chained tokens input s
    → e.index < length input
    → Kept tokens input s (merge_entry m e s)
unfolding merge_entry check_left
merge_entry-Kept tokens input m e s rules h lt =
    let (live, is_live) = get_elem?-lt s.alive e.index (omega (arith, h.alive_len)) in
    let (link, next) = get_elem?-lt s.next e.index (omega (arith, h.next_len)) in
    elim (Bool-cases live) [
      | inl alive ↦
          rw (is_live, alive, next)
            (check_right-Kept tokens input m e link s rules h (is_live ∙ ap some alive) next)
      | inr dead ↦ rw (is_live, dead) (kept tokens input s h)
    ]
