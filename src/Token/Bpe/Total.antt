-- ===== src/Token/Bpe/Total.antt =====
-- `tokenize_bytes` of `ByteBpeTokenizer` spells its input.
use detllm.Base.{
  ℕ, zero, suc, ◌+◌, ◌-◌, ◌≤◌, ◌<◌, ◌≡◌, ◌∙◌, inl, inr, refl, sym, ap, subst, arith, true, false,
  Bool-cases, Option, none, some, List, [], ◌∷◌, ◌++◌, All, length, get_elem?, get_elem?-lt,
  lt_of_get_elem?, slice, drop, is_empty, is_empty_iff, length-drop, length-take_of_le, ok, stuck,
  ◌>>=◌, Map, Option-cases, drop-drop, take-append-drop,
}
use detllm.Token.Spelling.{piece_at, Spells}
use detllm.Token.Bpe.Entering.{Rules}
use detllm.Token.Bpe.Merge.{
  Entry, Merging, entry_lt, pick, pop, with_heap, on_pop, merge_entry, run_merges, keep_alive,
  read_out,
}
use detllm.Token.Bpe.Chain.{end, Part, Below, Chained, size}
use detllm.Token.Bpe.Step.{Kept, merge_entry-Kept}

-- A pop takes one entry away.
unfoldable Popped : ℕ → List Entry → Option (Entry × List Entry) → Type 0
Popped len heap none = heap ≡ []
Popped len heap (some (e, rest)) =
    (suc (length rest) ≡ length heap) × Below len e × All (Below len) rest

pick-Popped :
    (len : ℕ) (e : Entry) (es : List Entry) (popped : Option (Entry × List Entry))
    → Below len e
    → All (Below len) es
    → Popped len es popped
    → Popped len (e ∷ es) (pick e es popped)
unfolding pick Popped
pick-Popped len e es none lt h p = (omega (arith, ap length p), lt, tt)
pick-Popped len e es (some (least, rest)) lt h (same, below, all) =
    elim (Bool-cases (entry_lt least e)) [
      | inl less ↦ rw less (omega arith, below, (lt, all))
      | inr other ↦ rw other (refl, lt, h)
    ]

pop-Popped : (len : ℕ) (heap : List Entry) → All (Below len) heap → Popped len heap (pop heap)
unfolding pop Popped
pop-Popped len [] h = refl
pop-Popped len (e ∷ es) h = pick-Popped len e es (pop es) h.0 h.1 (pop-Popped len es h.1)

with_heap-Chained :
    (tokens : List (List ℕ)) (input : List ℕ) (s : Merging) (heap : List Entry)
    → Chained tokens input s
    → All (Below (length input)) heap
    → Chained tokens input (with_heap heap s)
with_heap-Chained tokens input s heap h below = record {
  ids_len = h.ids_len;
  prev_len = h.prev_len;
  next_len = h.next_len;
  alive_len = h.alive_len;
  start = h.start;
  part = h.part;
  linked = h.linked;
  alone = h.alone;
  prev_in = h.prev_in;
  heap_in = below;
}

with_heap-size :
    (s : Merging) (heap : List Entry)
    → suc (length heap) ≡ length s.heap
    → suc (size (with_heap heap s)) ≡ size s
unfolding size
with_heap-size s heap same = omega arith

run_end :
    (m : Map (ℕ × ℕ) (ℕ × ℕ)) (fuel : ℕ) (s : Merging)
    → pop s.heap ≡ none
    → run_merges m fuel s ≡ ok s
unfolding run_merges
run_end m zero s empty = ap (on_pop m (λ s'. stuck) s) empty
run_end m (suc fuel) s empty = ap (on_pop m (run_merges m fuel) s) empty

run_step :
    (m : Map (ℕ × ℕ) (ℕ × ℕ)) (fuel : ℕ) (s : Merging) (e : Entry) (rest : List Entry)
    (s' : Merging)
    → pop s.heap ≡ some (e, rest)
    → merge_entry m e (with_heap rest s) ≡ ok s'
    → run_merges m (suc fuel) s ≡ run_merges m fuel s'
unfolding run_merges
run_step m fuel s e rest s' popped run =
    ap (on_pop m (run_merges m fuel) s) popped ∙ ap (λ o. o >>= run_merges m fuel) run

read_step :
    (s : Merging) (fuel i id : ℕ) (next : Option ℕ) (ids : List ℕ)
    → get_elem? s.alive i ≡ some true
    → get_elem? s.ids i ≡ some id
    → get_elem? s.next i ≡ some next
    → read_out fuel next s ≡ ok ids
    → read_out (suc fuel) (some i) s ≡ ok (id ∷ ids)
unfolding read_out keep_alive
read_step s fuel i id next ids live is link run = rw (live, is, link, run) refl

drop-length : (xs : List ℕ) → drop (length xs) xs ≡ []
drop-length [] = refl
drop-length (x ∷ xs) = drop-length xs

drop-slice : (i j : ℕ) (xs : List ℕ) → i ≤ j → drop i xs ≡ slice i j xs ++ drop j xs
drop-slice i j xs h =
    let step : i + (j - i) ≡ j = omega arith in
    let behind : drop j xs ≡ drop (j - i) (drop i xs) =
      ap (λ m. drop m xs) (sym step) ∙ drop-drop i (j - i) xs in
    rw behind (sym (take-append-drop (j - i) (drop i xs)))

slice-full : (i j : ℕ) (xs : List ℕ) → i < j → j ≤ length xs → is_empty (slice i j xs) ≡ false
slice-full i j xs lt inside = (is_empty_iff (slice i j xs)).1 (
    omega (
      arith,
      length-drop i xs,
      length-take_of_le (j - i) (drop i xs) (omega (arith, length-drop i xs)),
    ))

-- Fuel of `size` is enough for the loop.
pub run_merges-Chained :
    (tokens : List (List ℕ)) (input : List ℕ) (m : Map (ℕ × ℕ) (ℕ × ℕ)) (fuel : ℕ) (s : Merging)
    → Rules tokens m
    → Chained tokens input s
    → size s ≤ fuel
    → (s' : Merging) × (run_merges m fuel s ≡ ok s') × Chained tokens input s'
unfolding Popped Kept
run_merges-Chained tokens input m zero s rules h enough = elim (Option-cases (pop s.heap)) [
  | inl empty ↦ (s, run_end m _ s empty, h)
  | inr ((e, rest), popped) ↦
      let (same, lt, below) =
        subst (Popped (length input) s.heap) popped (pop-Popped (length input) s.heap h.heap_in) in
      absurd (omega (arith, with_heap-size s rest same))
]
run_merges-Chained tokens input m (suc fuel) s rules h enough = elim (Option-cases (pop s.heap)) [
  | inl empty ↦ (s, run_end m _ s empty, h)
  | inr ((e, rest), popped) ↦
      let (same, lt, below) =
        subst (Popped (length input) s.heap) popped (pop-Popped (length input) s.heap h.heap_in) in
      let (s', run, h', less) =
        merge_entry-Kept tokens input m e (with_heap rest s) rules
          (with_heap-Chained tokens input s rest h below) lt in
      let (s'', run', h'') =
        run_merges-Chained tokens input m fuel s' rules h'
          (omega (arith, with_heap-size s rest same)) in
      (s'', run_step m fuel s e rest s' popped run ∙ run', h'')
]

-- The way along the links gives the tokens of the rest of the input.
pub read_out-Spells :
    (tokens : List (List ℕ)) (input : List ℕ) (s : Merging) (fuel : ℕ) (link : Option ℕ)
    → Chained tokens input s
    → ((j : ℕ) → link ≡ some j → get_elem? s.alive j ≡ some true)
    → length input ≤ fuel + end (length input) link
    → (ids : List ℕ) × (read_out fuel link s ≡ ok ids)
      × Spells (piece_at tokens) ids (drop (end (length input) link) input)
unfolding read_out Spells end Part
read_out-Spells tokens input s zero none h live enough = ([], refl, drop-length input)
read_out-Spells tokens input s (suc fuel) none h live enough = ([], refl, drop-length input)
read_out-Spells tokens input s zero (some i) h live enough =
    absurd (omega (arith, h.alive_len, lt_of_get_elem? s.alive i (live i refl)))
read_out-Spells tokens input s (suc fuel) (some i) h live enough =
    let is_live = live i refl in
    let lt : i < length input = omega (arith, h.alive_len, lt_of_get_elem? s.alive i is_live) in
    let (id, is) = get_elem?-lt s.ids i (omega (arith, h.ids_len)) in
    let (next, link) = get_elem?-lt s.next i (omega (arith, h.next_len)) in
    let (above, inside, piece) = h.part i id next is_live is link in
    let (ids, run, spelled) =
      read_out-Spells tokens input s fuel next h (λ j e. h.linked i j is_live (link ∙ ap some e))
        (omega arith) in
    let to = end (length input) next in
    (
      id ∷ ids,
      read_step s fuel i id next ids is_live is link run,
      (
        slice i to input,
        drop to input,
        piece,
        slice-full i to input above inside,
        spelled,
        drop-slice i to input (omega arith),
      ),
    )
