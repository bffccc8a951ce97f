-- ===== src/Num/Sha256/Digest.antt =====
-- `finalize` gives the hash of the padded message.
use detllm.Base.{
  ℕ, zero, suc, ◌+◌, ◌-◌, ◌*◌, ◌%◌, ◌^◌, ◌≤◌, ◌<◌, ◌≡◌, ◌∙◌, refl, sym, ap, ap₂, arith, true, false,
  Bool-cases, le_or_lt, inl, inr, List, [], ◌∷◌, ◌++◌, append-nil, append_assoc, length,
  length-append, ltb, drop, drop-all, length-drop, replicate, copy_at, copy_at-append, wrapping_mul,
}
use detllm.Num.Sha256.{
  Words, Sha256, new, compress, update, clear, to_be_bytes, words_bytes, last_block, finalize,
}
use detllm.Num.Sha256.Padding.{pad, digest}
use detllm.Num.Sha256.Blocks.{Ran, Ran-block, Ran-compress_blocks}
use detllm.Num.Sha256.Buffer.{Holds, new-Holds}
use detllm.Num.Sha256.Streaming.{update-Holds}

pub length-to_be_bytes : (n v : ℕ) → length (to_be_bytes n v) ≡ n
unfolding to_be_bytes
length-to_be_bytes zero v = refl
length-to_be_bytes (suc n) v = ap suc (length-to_be_bytes n v)

abbrev zeros : ℕ → List ℕ
zeros n = replicate n 0

length-zeros : (n : ℕ) → length (zeros n) ≡ n
length-zeros zero = refl
length-zeros (suc n) = ap suc (length-zeros n)

zeros-add : (n k : ℕ) → zeros (n + k) ≡ zeros n ++ zeros k
zeros-add zero k = ap zeros (omega arith)
zeros-add (suc n) k =
    let step : suc n + k ≡ suc (n + k) = omega arith in ap zeros step ∙ ap (◌∷◌ 0) (zeros-add n k)

-- A copy that reaches the end of the buffer.
copy_to_end :
    (at : ℕ) (bytes done blank : List ℕ)
    → length done ≡ at
    → length blank ≤ length bytes
    → copy_at at bytes (done ++ blank) ≡ done ++ bytes
copy_to_end at bytes done blank e le =
    copy_at-append at bytes done blank e
    ∙ ap (λ rest. (done ++ bytes) ++ rest) (drop-all (length bytes) blank le)
    ∙ append-nil (done ++ bytes)

-- The last block: the bytes in front, zeros, and the number of bits.
last_block_lem :
    (s : Words) (bit_len n : ℕ) (front blank : List ℕ)
    → length front ≡ n
    → n ≤ 56
    → length (front ++ blank) ≡ 64
    → last_block s bit_len (front ++ blank) n
      ≡ words_bytes (compress s ((front ++ zeros (56 - n)) ++ to_be_bytes 8 bit_len))
unfolding last_block
last_block_lem s bit_len n front blank e le width =
    let width_zeros : length (zeros (56 - n)) ≡ 56 - n = length-zeros (56 - n) in
    let cleared : clear n 56 (front ++ blank)
        ≡ (front ++ zeros (56 - n)) ++ drop (length (zeros (56 - n))) blank =
      copy_at-append n (zeros (56 - n)) front blank e in
    let filled : copy_at 56 (to_be_bytes 8 bit_len) (clear n 56 (front ++ blank))
        ≡ (front ++ zeros (56 - n)) ++ to_be_bytes 8 bit_len =
      ap (copy_at 56 (to_be_bytes 8 bit_len)) cleared
      ∙ copy_to_end 56 (to_be_bytes 8 bit_len) (front ++ zeros (56 - n)) _
          (omega (arith, length-append front (zeros (56 - n))))
          (omega (
            arith,
            length-to_be_bytes 8 bit_len,
            length-append front blank,
            length-drop (length (zeros (56 - n))) blank,
          )) in
    ap (λ block. words_bytes (compress s block)) filled

finalize_short :
    (s : Sha256)
    → s.buf_len < 56
    → finalize s
      ≡ last_block s.state
          (wrapping_mul s.len 8)
          (copy_at s.buf_len (0x80 ∷ []) s.buf)
          (s.buf_len + 1)
unfolding finalize
finalize_short s h = let test : ltb 56 (s.buf_len + 1) ≡ false = ground arith in rw test refl

finalize_long :
    (s : Sha256) (buf : List ℕ)
    → 56 ≤ s.buf_len
    → clear (s.buf_len + 1) 64 (copy_at s.buf_len (0x80 ∷ []) s.buf) ≡ buf
    → finalize s ≡ last_block (compress s.state buf) (wrapping_mul s.len 8) buf 0
unfolding finalize
finalize_long s buf h same =
    let test : ltb 56 (s.buf_len + 1) ≡ true = ground arith in rw test (rw same refl)

digest_lem : (m p : List ℕ) (w : Words) → Ran p w → pad m ≡ p → digest m ≡ words_bytes w
unfolding digest
digest_lem m p w ran same = rw same (ap words_bytes (Ran-compress_blocks ran))

module _ (m : List ℕ) (s : Sha256) (h : Holds m s) where
  abbrev front : List ℕ
  front = h.tail ++ 0x80 ∷ []

  abbrev bits : List ℕ
  bits = to_be_bytes 8 (wrapping_mul s.len 8)

  front_len : length front ≡ s.buf_len + 1
  front_len = omega (arith, length-append h.tail (0x80 ∷ []), h.tail_len)

  marked : copy_at s.buf_len (0x80 ∷ []) s.buf ≡ front ++ drop 1 h.blank
  marked =
      ap (copy_at s.buf_len (0x80 ∷ [])) h.buffer
      ∙ copy_at-append s.buf_len (0x80 ∷ []) h.tail h.blank h.tail_len

  blank_len : length (drop 1 h.blank) ≡ 63 - s.buf_len
  blank_len = omega (
    arith,
    h.width,
    h.tail_len,
    ap length h.buffer,
    length-append h.tail h.blank,
    length-drop 1 h.blank,
  )

  length_m : length m % 64 ≡ s.buf_len
  length_m =
      omega
        (arith, ap length h.message, length-append h.done h.tail, h.tail_len, h.ran.whole, h.short)

  -- The padding of the message, with `k` zeros.
  pad_lem : (k : ℕ) → (119 - s.buf_len) % 64 ≡ k → pad m ≡ h.done ++ ((front ++ zeros k) ++ bits)
  unfolding pad
  pad_lem k enough =
      let same : (119 - length m % 64) % 64 ≡ k = rw length_m enough in
      let count : length m * 8 % 2 ^ 64 ≡ wrapping_mul s.len 8 = omega (arith, h.count) in
      ap₂ (λ (k n : ℕ). (m ++ (0x80 ∷ zeros k)) ++ to_be_bytes 8 n) same count
      ∙ ap (λ m. (m ++ (0x80 ∷ zeros k)) ++ bits) h.message
      ∙ ap (λ m. m ++ bits)
          (append_assoc h.done h.tail (0x80 ∷ zeros k)
            ∙ ap (◌++◌ h.done) (sym (append_assoc h.tail (0x80 ∷ []) (zeros k))))
      ∙ append_assoc h.done (front ++ zeros k) bits

  block_len : (k : ℕ) → s.buf_len + k ≡ 55 → length ((front ++ zeros k) ++ bits) ≡ 64
  block_len k e = omega (
    arith,
    length-append (front ++ zeros k) bits,
    length-append front (zeros k),
    front_len,
    length-zeros k,
    length-to_be_bytes 8 (wrapping_mul s.len 8),
  )

  finalize-digest_short : s.buf_len < 56 → finalize s ≡ digest m
  finalize-digest_short small =
      let k = 56 - (s.buf_len + 1) in
      let width : length (front ++ drop 1 h.blank) ≡ 64 =
        omega (arith, length-append front (drop 1 h.blank), front_len, blank_len) in
      finalize_short s small
      ∙ ap (λ buf. last_block s.state (wrapping_mul s.len 8) buf (s.buf_len + 1)) marked
      ∙ last_block_lem s.state (wrapping_mul s.len 8) (s.buf_len + 1) front (drop 1 h.blank)
          front_len (omega arith) width
      ∙ sym (
          digest_lem m (h.done ++ ((front ++ zeros k) ++ bits)) _
            (Ran-block ((front ++ zeros k) ++ bits) h.ran (block_len k (omega arith)))
            (pad_lem k (omega arith)))

  finalize-digest_long : 56 ≤ s.buf_len → finalize s ≡ digest m
  finalize-digest_long large =
      let n = 64 - (s.buf_len + 1) in
      let block = front ++ zeros n in
      let cleared : clear (s.buf_len + 1) 64 (copy_at s.buf_len (0x80 ∷ []) s.buf) ≡ block =
        ap (clear (s.buf_len + 1) 64) marked
        ∙ copy_to_end (s.buf_len + 1) (zeros n) front (drop 1 h.blank) front_len
            (omega (arith, length-zeros n, blank_len)) in
      let full : length block ≡ 64 =
        omega (arith, length-append front (zeros n), front_len, length-zeros n, h.short) in
      let last = ([] ++ zeros (56 - 0)) ++ bits in
      let last_len : length last ≡ 64 = omega (
        arith,
        length-append (zeros 56) bits,
        length-zeros 56,
        length-to_be_bytes 8 (wrapping_mul s.len 8),
      ) in
      let split : (front ++ zeros (n + 56)) ++ bits ≡ block ++ last =
        ap (λ zs. (front ++ zs) ++ bits) (zeros-add n 56)
        ∙ ap (λ xs. xs ++ bits) (sym (append_assoc front (zeros n) (zeros 56)))
        ∙ append_assoc block (zeros 56) bits in
      let padded : pad m ≡ (h.done ++ block) ++ last =
        pad_lem (n + 56) (omega (arith, h.short))
        ∙ ap (◌++◌ h.done) split
        ∙ sym (append_assoc h.done block last) in
      finalize_long s block large cleared
      ∙ last_block_lem (compress s.state block) (wrapping_mul s.len 8) 0 [] block refl (omega arith)
          full
      ∙ sym (
          digest_lem m ((h.done ++ block) ++ last) _
            (Ran-block last (Ran-block block h.ran full) last_len) padded)

  finalize-digest : finalize s ≡ digest m
  finalize-digest = elim (le_or_lt 56 s.buf_len) [
    | inl large ↦ finalize-digest_long large
    | inr small ↦ finalize-digest_short small
  ]

-- `update` for each of the pieces.
unfoldable pub update_all : Sha256 → List (List ℕ) → Sha256
update_all s [] = s
update_all s (piece ∷ pieces) = update_all (update s piece) pieces

-- The message in pieces.
unfoldable pub joined : List (List ℕ) → List ℕ
joined [] = []
joined (piece ∷ pieces) = piece ++ joined pieces

update_all-Holds :
    (pieces : List (List ℕ)) (m : List ℕ) (s : Sha256)
    → Holds m s
    → Holds (m ++ joined pieces) (update_all s pieces)
unfolding update_all joined
update_all-Holds [] m s h = rw append-nil h
update_all-Holds (piece ∷ pieces) m s h =
    rw (← append_assoc)
      (update_all-Holds pieces (m ++ piece) (update s piece) (update-Holds m s h piece))

-- Whatever the pieces are in which a message comes to `update`, empty ones included, `finalize` then
-- gives the hash of the padded message, which compresses it block by block.
pub finalize-update_all :
    (pieces : List (List ℕ)) → finalize (update_all new pieces) ≡ digest (joined pieces)
finalize-update_all pieces =
    finalize-digest (joined pieces) (update_all new pieces)
      (update_all-Holds pieces [] new new-Holds)

length-words_bytes : (w : Words) → length (words_bytes w) ≡ 32
unfolding words_bytes to_be_bytes
length-words_bytes w = refl

-- The hash has 32 bytes, whatever the buffer holds.
pub length-finalize : (s : Sha256) → length (finalize s) ≡ 32
unfolding finalize last_block
length-finalize s = elim (Bool-cases (ltb 56 (s.buf_len + 1))) [
  | inl long ↦ rw long (length-words_bytes _)
  | inr short ↦ rw short (length-words_bytes _)
]
