-- ===== src/Token/Bpe/Merge.antt =====
-- crates/det-token/src/lib.rs: `tokenize_bytes` of `ByteBpeTokenizer`, which merges pairs of
-- tokens, the one of the least rank first.
-- The heap is the list of its entries, of which the least is popped. The arrays are lists, and an
-- index out of range is a panic.
use detllm.Base.{
  ℕ, zero, suc, ◌+◌, ◌-◌, ◌*◌, Bool, true, false, ◌&&◌, ◌||◌, Option, none, some, List, [], ◌∷◌,
  ltb, ◌==◌, if◌then◌else◌, length, get_elem?, replicate, Outcome, ok, stuck, ◌>>=◌, at_index, Map,
}
use detllm.Token.{TokenError}
use detllm.Token.Fallback.{byte_ids}
use detllm.Token.Bpe.{ByteBpeTokenizer}

-- An entry of the heap: `(rank, index, merged_id)`.
pub record Entry : Type 0 where
  pub rank : ℕ
  pub index : ℕ
  pub merged_id : ℕ

-- The variables of the loop.
pub record Merging : Type 0 where
  pub ids : List ℕ
  pub prev : List (Option ℕ)
  pub next : List (Option ℕ)
  pub alive : List Bool
  pub heap : List Entry

-- `xs[i] = a`, within the bounds.
unfoldable pub set_at {ℓ} : {A : Type ℓ} → ℕ → A → List A → List A
set_at i a [] = []
set_at zero a (x ∷ xs) = a ∷ xs
set_at (suc i) a (x ∷ xs) = x ∷ set_at i a xs

-- The order of the tuples.
unfoldable pub entry_lt : Entry → Entry → Bool
entry_lt a b =
    ltb a.rank b.rank
    || (a.rank == b.rank
        && (ltb a.index b.index || (a.index == b.index && ltb a.merged_id b.merged_id)))

unfoldable pub pick : Entry → List Entry → Option (Entry × List Entry) → Option (Entry × List Entry)
unfolding entry_lt
pick e es none = some (e, [])
pick e es (some (least, rest)) = if entry_lt least e then some (least, e ∷ rest) else some (e, es)

-- `heap.pop()`.
unfoldable pub pop : List Entry → Option (Entry × List Entry)
unfolding pick
pop [] = none
pop (e ∷ es) = pick e es (pop es)

unfoldable pub push_rule : Option (ℕ × ℕ) → ℕ → List Entry → List Entry
push_rule none left heap = heap
push_rule (some (rank, merged_id)) left heap =
    record { rank = rank; index = left; merged_id = merged_id } ∷ heap

unfoldable pub push_bpe_pair :
    Map (ℕ × ℕ) (ℕ × ℕ) → List ℕ → ℕ → Option ℕ → List Entry → Outcome TokenError (List Entry)
unfolding push_rule
push_bpe_pair merge_ranks ids left none heap = ok heap
push_bpe_pair merge_ranks ids left (some right) heap = do
  left_id ← at_index (get_elem? ids left)
  right_id ← at_index (get_elem? ids right)
  ok (push_rule (merge_ranks (left_id, right_id)) left heap)

-- `if let Some(after) = after { prev[after] = Some(index); }`.
unfoldable pub relink : Option ℕ → ℕ → List (Option ℕ) → Outcome TokenError (List (Option ℕ))
unfolding set_at
relink none index prev = ok prev
relink (some after) index prev = do
  old ← at_index (get_elem? prev after)
  ok (set_at after (some index) prev)

-- `if let Some(left) = prev[index] { push_bpe_pair(.., left, Some(index)) }`.
unfoldable pub push_left :
    Map (ℕ × ℕ) (ℕ × ℕ) → List ℕ → Option ℕ → ℕ → List Entry → Outcome TokenError (List Entry)
unfolding push_bpe_pair
push_left merge_ranks ids none index heap = ok heap
push_left merge_ranks ids (some left) index heap =
    push_bpe_pair merge_ranks ids left (some index) heap

-- The merge of the token at the entry's index with the one at `right`.
unfoldable pub join_pair : Map (ℕ × ℕ) (ℕ × ℕ) → Entry → ℕ → Merging → Outcome TokenError Merging
unfolding set_at relink push_left push_bpe_pair
join_pair merge_ranks e right s = do
  let ids = set_at e.index e.merged_id s.ids
  after ← at_index (get_elem? s.next right)
  prev ← relink after e.index s.prev
  left ← at_index (get_elem? prev e.index)
  heap ← push_left merge_ranks ids left e.index s.heap
  heap' ← push_bpe_pair merge_ranks ids e.index after heap
  ok record {
    ids = ids;
    prev = prev;
    next = set_at e.index after s.next;
    alive = set_at right false s.alive;
    heap = heap';
  }

-- `self.merge_ranks.get(..) != Some(&(rank, merged_id))`, negated.
unfoldable pub is_rule : Option (ℕ × ℕ) → Entry → Bool
is_rule none e = false
is_rule (some (rank, merged_id)) e = rank == e.rank && merged_id == e.merged_id

unfoldable pub check_rule :
    Map (ℕ × ℕ) (ℕ × ℕ) → Entry → ℕ → Bool → Merging → Outcome TokenError Merging
unfolding is_rule join_pair
check_rule merge_ranks e right false s = ok s
check_rule merge_ranks e right true s = do
  left_id ← at_index (get_elem? s.ids e.index)
  right_id ← at_index (get_elem? s.ids right)
  if is_rule (merge_ranks (left_id, right_id)) e then join_pair merge_ranks e right s else ok s

unfoldable pub check_right :
    Map (ℕ × ℕ) (ℕ × ℕ) → Entry → Option ℕ → Merging → Outcome TokenError Merging
unfolding check_rule
check_right merge_ranks e none s = ok s
check_right merge_ranks e (some right) s = do
  live ← at_index (get_elem? s.alive right)
  check_rule merge_ranks e right live s

unfoldable pub check_left :
    Map (ℕ × ℕ) (ℕ × ℕ) → Entry → Bool → Merging → Outcome TokenError Merging
unfolding check_right
check_left merge_ranks e false s = ok s
check_left merge_ranks e true s = do
  right ← at_index (get_elem? s.next e.index)
  check_right merge_ranks e right s

-- The body of the loop, for the entry that has been popped.
unfoldable pub merge_entry : Map (ℕ × ℕ) (ℕ × ℕ) → Entry → Merging → Outcome TokenError Merging
unfolding check_left
merge_entry merge_ranks e s = do
  live ← at_index (get_elem? s.alive e.index)
  check_left merge_ranks e live s

abbrev pub with_heap : List Entry → Merging → Merging
with_heap heap s = record {
  ids = s.ids;
  prev = s.prev;
  next = s.next;
  alive = s.alive;
  heap = heap;
}

-- `while let Some(..) = heap.pop()`: what is popped, and the rest of the loop.
unfoldable pub on_pop :
    Map (ℕ × ℕ) (ℕ × ℕ)
    → (Merging → Outcome TokenError Merging)
    → Merging
    → Option (Entry × List Entry)
    → Outcome TokenError Merging
unfolding merge_entry
on_pop merge_ranks rest_of_loop s none = ok s
on_pop merge_ranks rest_of_loop s (some (e, rest)) =
    merge_entry merge_ranks e (with_heap rest s) >>= rest_of_loop

unfoldable pub run_merges : Map (ℕ × ℕ) (ℕ × ℕ) → ℕ → Merging → Outcome TokenError Merging
unfolding pop on_pop
run_merges merge_ranks zero s = on_pop merge_ranks (λ s'. stuck) s (pop s.heap)
run_merges merge_ranks (suc fuel) s =
    on_pop merge_ranks (run_merges merge_ranks fuel) s (pop s.heap)

-- The links before the first merge, from the index `i` on.
unfoldable pub first_prev : ℕ → ℕ → List (Option ℕ)
first_prev zero i = []
first_prev (suc rounds) i = (if i == 0 then none else some (i - 1)) ∷ first_prev rounds (suc i)

unfoldable pub first_next : ℕ → ℕ → ℕ → List (Option ℕ)
first_next zero i len = []
first_next (suc rounds) i len =
    (if i + 1 == len then none else some (i + 1)) ∷ first_next rounds (suc i) len

-- `for i in 0..ids.len() - 1`.
unfoldable pub push_pairs :
    Map (ℕ × ℕ) (ℕ × ℕ) → List ℕ → ℕ → ℕ → List Entry → Outcome TokenError (List Entry)
unfolding push_bpe_pair
push_pairs merge_ranks ids zero i heap = ok heap
push_pairs merge_ranks ids (suc rounds) i heap = do
  heap' ← push_bpe_pair merge_ranks ids i (some (i + 1)) heap
  push_pairs merge_ranks ids rounds (suc i) heap'

unfoldable pub keep_alive : Bool → ℕ → List ℕ → List ℕ
keep_alive true id rest = id ∷ rest
keep_alive false id rest = rest

-- The last loop, along the links.
unfoldable pub read_out : ℕ → Option ℕ → Merging → Outcome TokenError (List ℕ)
unfolding keep_alive
read_out fuel none s = ok []
read_out zero (some i) s = stuck
read_out (suc fuel) (some i) s = do
  live ← at_index (get_elem? s.alive i)
  id ← at_index (get_elem? s.ids i)
  next ← at_index (get_elem? s.next i)
  rest ← read_out fuel next s
  ok (keep_alive live id rest)

-- Each round takes an entry from the heap, and adds at most two when it kills a token: `3 n` rounds
-- are enough for the merges, and `n` for the way along the links.
unfoldable pub merge_ids : Map (ℕ × ℕ) (ℕ × ℕ) → List ℕ → Outcome TokenError (List ℕ)
unfolding push_pairs first_prev first_next run_merges read_out
merge_ids merge_ranks ids = do
  heap ← push_pairs merge_ranks ids (length ids - 1) 0 []
  s ← run_merges merge_ranks (3 * length ids) record {
    ids = ids;
    prev = first_prev (length ids) 0;
    next = first_next (length ids) 0 (length ids);
    alive = replicate (length ids) true;
    heap = heap;
  }
  read_out (length ids) (some 0) s

unfoldable pub tokenize_bytes : ByteBpeTokenizer → List ℕ → Outcome TokenError (List ℕ)
unfolding byte_ids merge_ids
tokenize_bytes t input = do
  ids ← byte_ids t.byte_to_token input
  if ltb (length ids) 2 then ok ids else merge_ids t.merge_ranks ids
