-- ===== src/Token/Bpe/Start.antt =====
-- The links before the first merge, and `tokenize_bytes` from its start to its end.
use detllm.Base.{
  ℕ, zero, suc, ◌+◌, ◌-◌, ◌*◌, ◌≤◌, ◌<◌, ◌≡◌, ◌∙◌, inl, inr, refl, ap, subst, arith, true,
  Bool-cases, ltb, Option, some, some-injective, List, [], ◌∷◌, All, length, get_elem?,
  lt_of_get_elem?, slice, take, drop, replicate, if◌then◌else◌, ok, ◌>>=◌, Map,
}
use detllm.Token.Fallback.{byte_ids}
use detllm.Token.Spelling.{piece_at, Spells, Covers}
use detllm.Token.Bpe.{ByteBpeTokenizer}
use detllm.Token.Bpe.Entering.{Rules}
use detllm.Token.Bpe.Merge.{
  Entry, Merging, push_pairs, first_prev, first_next, run_merges, read_out, merge_ids,
  tokenize_bytes,
}
use detllm.Token.Bpe.Chain.{end, Part, Below, Chained, size}
use detllm.Token.Bpe.Total.{run_merges-Chained, read_out-Spells}
use detllm.Token.Bpe.First.{
  get_elem?-replicate, length-replicate, count-replicate, length-first_prev, length-first_next,
  first_prev-below, first_next_lem, push_pairs-Pushed,
}

-- Each byte has its token: what the first loop gives.
unfoldable Singles : List (List ℕ) → List ℕ → List ℕ → Type 0
Singles tokens input ids =
    (length ids ≡ length input)
    × ((i id : ℕ) → get_elem? ids i ≡ some id → piece_at tokens id ≡ some (slice i (suc i) input))

byte_ids-Singles :
    (tokens : List (List ℕ)) (byte_to_token : Map ℕ ℕ) (input : List ℕ)
    → All (Covers tokens byte_to_token) input
    → (ids : List ℕ) × (byte_ids byte_to_token input ≡ ok ids)
      × Spells (piece_at tokens) ids input
      × Singles tokens input ids
unfolding byte_ids Covers Spells Singles
byte_ids-Singles tokens m [] h = ([], refl, refl, (refl, λ i id found. cc found))
byte_ids-Singles tokens m (b ∷ input) ((id, found, piece), h) =
    let (ids, run, spelled, (same, parts)) = byte_ids-Singles tokens m input h in
    (
      id ∷ ids,
      rw (found, run) refl,
      (b ∷ [], input, piece, refl, spelled, refl),
      (
        ap suc same,
        λ i id' found'.
            elim i
                as (λ i.
                  get_elem? (id ∷ ids) i ≡ some id'
                  → piece_at tokens id' ≡ some (slice i (suc i) (b ∷ input))) [
                    | zero ↦ λ found'.
                        subst (λ k. piece_at tokens k ≡ some (b ∷ [])) (some-injective found') piece
                    | suc k ↦ λ found'.
                        parts k id' found' ∙ ap (λ n. some (take n (drop k input))) (omega arith)
                  ]
              found',
      ),
    )

abbrev first_state : List ℕ → List Entry → Merging
first_state ids heap = record {
  ids = ids;
  prev = first_prev (length ids) 0;
  next = first_next (length ids) 0 (length ids);
  alive = replicate (length ids) true;
  heap = heap;
}

-- The link of `i` is the next index, or none at the end.
first_link :
    (len i : ℕ) {link : Option ℕ}
    → get_elem? (first_next len 0 len) i ≡ some link
    → (end len link ≡ suc i) × ((j : ℕ) → link ≡ some j → (j ≡ suc i) × (suc i < len))
unfolding end
first_link len i {link} h =
    let in_len : i < len =
      omega (arith, lt_of_get_elem? (first_next len 0 len) i h, length-first_next len 0 len) in
    elim (first_next_lem len 0 len i h) [
      | inl (last, same) ↦ rw same (omega arith, λ j e. absurd (cc e))
      | inr (inner, same) ↦ rw same (
        omega arith,
        λ j e.
            let is_j : i + 1 ≡ j = omega (arith, some-injective e) in (omega arith, ground arith),
      )
    ]

first_state-Chained :
    (tokens : List (List ℕ)) (input ids : List ℕ) (heap : List Entry)
    → Singles tokens input ids
    → 0 < length input
    → All (Below (length input)) heap
    → Chained tokens input (first_state ids heap)
unfolding Singles Part
first_state-Chained tokens input ids heap (same, parts) some_input below =
    let len = length ids in
    let low : (i : ℕ) (link : Option ℕ) → get_elem? (first_next len 0 len) i ≡ some link → i < len =
      λ i link n.
        omega (arith, lt_of_get_elem? (first_next len 0 len) i n, length-first_next len 0 len) in
    record {
      ids_len = same;
      prev_len = length-first_prev len 0 ∙ same;
      next_len = length-first_next len 0 len ∙ same;
      alive_len = length-replicate len ∙ same;
      start = get_elem?-replicate len 0 (omega arith);
      part = λ i id link a is n.
          let lt = low i link n in
          let ends : end (length input) link ≡ suc i = rw same at (first_link len i n).0 in
          rw ends (omega arith, omega arith, parts i id is);
      linked = λ i j a n.
          let (is_j, lt) = (first_link len i n).1 j refl in get_elem?-replicate len j (omega arith);
      alone = λ i k j a b n m.
          let (is_j, lt) = (first_link len i n).1 j refl in
          let (is_j', lt') = (first_link len k m).1 j refl in omega arith;
      prev_in = λ i j p. omega (arith, first_prev-below len 0 i j p);
      heap_in = below;
    }

merge_run :
    (m : Map (ℕ × ℕ) (ℕ × ℕ)) (ids : List ℕ) (heap : List Entry) (s : Merging) {out : List ℕ}
    → push_pairs m ids (length ids - 1) 0 [] ≡ ok heap
    → run_merges m (3 * length ids) (first_state ids heap) ≡ ok s
    → read_out (length ids) (some 0) s ≡ ok out
    → merge_ids m ids ≡ ok out
unfolding merge_ids
merge_run m ids heap s h1 h2 h3 =
    ap
      (λ o. o >>= λ heap.
        run_merges m (3 * length ids) (first_state ids heap) >>= read_out (length ids) (some 0))
      h1
    ∙ ap (λ o. o >>= read_out (length ids) (some 0)) h2
    ∙ h3

first_state-size :
    (ids : List ℕ) (heap : List Entry)
    → 0 < length ids
    → length heap ≤ length ids - 1 + 0
    → size (first_state ids heap) ≤ 3 * length ids
unfolding size
first_state-size ids heap h few = omega (arith, count-replicate (length ids))

merge_ids-Spells :
    (tokens : List (List ℕ)) (input ids : List ℕ) (m : Map (ℕ × ℕ) (ℕ × ℕ))
    → Rules tokens m
    → Singles tokens input ids
    → 0 < length input
    → (out : List ℕ) × (merge_ids m ids ≡ ok out) × Spells (piece_at tokens) out input
unfolding Singles end
merge_ids-Spells tokens input ids m rules singles some_input =
    let (heap, pushed, few, below) =
      push_pairs-Pushed (length input) m ids (length ids - 1) 0 [] singles.0
        (omega (arith, singles.0)) tt in
    let h = first_state-Chained tokens input ids heap singles some_input below in
    let (s, run, h') =
      run_merges-Chained tokens input m (3 * length ids) (first_state ids heap) rules h
        (first_state-size ids heap (omega (arith, singles.0)) few) in
    let (out, read, spelled) =
      read_out-Spells tokens input s (length ids) (some 0) h'
        (λ j e. subst (λ k. get_elem? s.alive k ≡ some true) (some-injective e) h'.start)
        (omega (arith, singles.0)) in
    (out, merge_run m ids heap s pushed run read, spelled)

-- If each byte of the input has a token that stands for it and each merge rule gives a token that
-- stands for the bytes of both of its tokens, then `tokenize_bytes` of the BPE tokenizer comes to an
-- end without a panic, and the bytes of its tokens, one after the other, are the input.
pub merging-Spells :
    (tokens : List (List ℕ)) (t : ByteBpeTokenizer) (input : List ℕ)
    → Rules tokens t.merge_ranks
    → All (Covers tokens t.byte_to_token) input
    → (ids : List ℕ) × (tokenize_bytes t input ≡ ok ids) × Spells (piece_at tokens) ids input
unfolding tokenize_bytes Singles
merging-Spells tokens t input rules covered =
    let (ids, found, spelled, singles) = byte_ids-Singles tokens t.byte_to_token input covered in
    let start =
      ap (λ o. o >>= λ ids. if ltb (length ids) 2 then ok ids else merge_ids t.merge_ranks ids)
        found in
    elim (Bool-cases (ltb (length ids) 2)) [
      | inl few ↦
          (ids, start ∙ ap (λ b. if b then ok ids else merge_ids t.merge_ranks ids) few, spelled)
      | inr more ↦
          let some_ids : 2 ≤ length ids = ground arith in
          let (out, run, spelled') =
            merge_ids-Spells tokens input ids t.merge_ranks rules singles
              (omega (arith, singles.0)) in
          (
            out,
            start ∙ ap (λ b. if b then ok ids else merge_ids t.merge_ranks ids) more ∙ run,
            spelled',
          )
    ]
