-- ===== src/Num/Sha256/Streaming.antt =====
-- `update`, piece by piece, and `finalize`.
use detllm.Base.{
  ℕ, ◌+◌, ◌-◌, ◌%◌, ◌^◌, ◌≤◌, ◌<◌, ◌≡◌, ◌∙◌, refl, sym, ap, arith, true, false, inl, inr, ◌⊎◌, List,
  [], ◌∷◌, ◌++◌, append-nil, append_assoc, length, length-append, take-all, drop-all, ◌==◌, take,
  drop, length-drop, take-append-drop, length-take_of_le, copy_at, copy_at-append, wrapping_add,
}
use detllm.Num.Sha256.{Sha256, compress, fill, absorb, update}
use detllm.Num.Sha256.Blocks.{Ran-block}
use detllm.Num.Sha256.Buffer.{Holds, absorb_nothing, absorb-Holds, fill_whole, fill_part}

update_empty :
    (s : Sha256) (input : List ℕ)
    → s.buf_len ≡ 0
    → update s input ≡ absorb (record s { len = wrapping_add s.len (length input) }) input
unfolding update
update_empty s input h = let test : (s.buf_len == 0) ≡ true = ground arith in rw test refl

update-fill :
    (s : Sha256) (input rest : List ℕ) (s' : Sha256)
    → 0 < s.buf_len
    → fill (record s { len = wrapping_add s.len (length input) }) input ≡ (s', rest)
    → update s input ≡ absorb s' rest
unfolding update
update-fill s input rest s' h filled =
    let test : (s.buf_len == 0) ≡ false = ground arith in rw (test, filled) refl

length-eq-zero : (xs : List ℕ) → length xs ≡ 0 → xs ≡ []
length-eq-zero [] h = refl
length-eq-zero (x ∷ xs) h = absurd (omega arith)

-- The buffer is empty, or the input does not fill it, or it does.
cases_of : (k n : ℕ) → (k ≡ 0) ⊎ ((0 < k) × ((k + n < 64) ⊎ (64 ≤ k + n)))
cases_of k n = ground arith

-- The count of the bytes, in a word.
count_next :
    (m input : List ℕ) (len : ℕ)
    → len ≡ length m % 2 ^ 64
    → wrapping_add len (length input) ≡ length (m ++ input) % 2 ^ 64
count_next m input len h = omega (arith, length-append m input)

module _ (m : List ℕ) (s : Sha256) (h : Holds m s) (input : List ℕ) where
  width_blank : length h.blank ≡ 64 - s.buf_len
  width_blank = omega (arith, h.width, h.tail_len, ap length h.buffer, length-append h.tail h.blank)

  -- The buffer with more bytes behind those that it has.
  added :
      (bytes : List ℕ)
      → copy_at s.buf_len bytes s.buf ≡ (h.tail ++ bytes) ++ drop (length bytes) h.blank
  added bytes =
      ap (copy_at s.buf_len bytes) h.buffer
      ∙ copy_at-append s.buf_len bytes h.tail h.blank h.tail_len

  -- The input ends before the buffer is full.
  update-Holds_part :
      0 < s.buf_len → s.buf_len + length input < 64 → Holds (m ++ input) (update s input)
  update-Holds_part some_tail less =
      let filled =
        fill_part (record s { len = wrapping_add s.len (length input) }) input (length input)
          (omega arith) less in
      let all : take (length input) input ≡ input = take-all (length input) input refl in
      rw
        (
          update-fill s input _ _ some_tail filled,
          drop-all (length input) input (omega arith),
          absorb_nothing,
          all,
        )
        (record {
          done = h.done;
          tail = h.tail ++ input;
          blank = drop (length input) h.blank;
          message = ap (λ m. m ++ input) h.message ∙ append_assoc h.done h.tail input;
          ran = h.ran;
          buffer = added input;
          width = rw added (
              omega (
                arith,
                length-append (h.tail ++ input) (drop (length input) h.blank),
                length-append h.tail input,
                length-drop (length input) h.blank,
                width_blank,
                h.tail_len,
              ));
          tail_len = omega (arith, length-append h.tail input, h.tail_len);
          short = less;
          count = count_next m input s.len h.count;
        })

  -- The input fills the buffer, and what is left of it starts a new one.
  update-Holds_whole :
      0 < s.buf_len → 64 ≤ s.buf_len + length input → Holds (m ++ input) (update s input)
  update-Holds_whole some_tail enough =
      let n = 64 - s.buf_len in
      let first = take n input in
      let first_len : length first ≡ n = length-take_of_le n input (omega arith) in
      let filled =
        fill_whole (record s { len = wrapping_add s.len (length input) }) input n
          (ground (arith, h.short)) (omega (arith, h.short)) in
      let whole : copy_at s.buf_len first s.buf ≡ h.tail ++ first =
        added first
        ∙ ap (λ rest. (h.tail ++ first) ++ rest)
            (drop-all (length first) h.blank (omega (arith, width_blank)))
        ∙ append-nil (h.tail ++ first) in
      let full : length (h.tail ++ first) ≡ 64 =
        omega (arith, length-append h.tail first, h.tail_len, h.short) in
      let message : (h.done ++ (h.tail ++ first)) ++ drop n input ≡ m ++ input =
        append_assoc h.done (h.tail ++ first) (drop n input)
        ∙ ap (◌++◌ h.done) (append_assoc h.tail first (drop n input))
        ∙ ap (λ rest. h.done ++ (h.tail ++ rest)) (take-append-drop n input)
        ∙ sym (append_assoc h.done h.tail input)
        ∙ ap (λ m. m ++ input) (sym h.message) in
      rw (update-fill s input _ _ some_tail filled, whole, ← message)
        (absorb-Holds
          (record s {
            state = compress s.state (h.tail ++ first);
            len = wrapping_add s.len (length input);
            buf = h.tail ++ first;
            buf_len = 0;
          })
          (h.done ++ (h.tail ++ first)) (drop n input) (Ran-block (h.tail ++ first) h.ran full) full
          refl (count_next m input s.len h.count ∙ ap (λ m. length m % 2 ^ 64) (sym message)))

  update-Holds_empty : s.buf_len ≡ 0 → Holds (m ++ input) (update s input)
  update-Holds_empty empty =
      let none_left : h.tail ≡ [] = length-eq-zero h.tail (h.tail_len ∙ empty) in
      let same : h.done ≡ m = sym (h.message ∙ ap (◌++◌ h.done) none_left ∙ append-nil h.done) in
      let holds =
        absorb-Holds (record s { len = wrapping_add s.len (length input) }) h.done input h.ran
          h.width empty
          (count_next m input s.len h.count ∙ ap (λ m. length (m ++ input) % 2 ^ 64) (sym same)) in
      rw (update_empty s input empty, ← same) holds

  -- After `update` the hash holds the message with the input behind it.
  pub update-Holds : Holds (m ++ input) (update s input)
  update-Holds = elim (cases_of s.buf_len (length input)) [
    | inl empty ↦ update-Holds_empty empty
    | inr (some_tail, inl less) ↦ update-Holds_part some_tail less
    | inr (some_tail, inr enough) ↦ update-Holds_whole some_tail enough
  ]
