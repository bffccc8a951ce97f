-- ===== src/Num/Sha256.antt =====
-- crates/det-num/src/hash.rs: `Sha256`.
pub mod Padding
pub mod Blocks
pub mod Buffer
pub mod Streaming
pub mod Digest
use Prim.Native.Nat.{min}
use detllm.Base.{
  ℕ, zero, suc, ◌+◌, ◌-◌, ◌*◌, ◌/◌, ◌%◌, ◌^◌, bit_and, bit_xor, true, false, not, List, [], ◌∷◌,
  ◌++◌, ltb, leb, ◌==◌, if◌then◌else◌, length, is_empty, take, drop, replicate, copy_at,
  wrapping_add, wrapping_mul,
}

-- `wrapping_add`, `rotate_right`, `>>`, `!` on `u32`.
abbrev pub add32 : ℕ → ℕ → ℕ
add32 a b = (a + b) % 2 ^ 32

abbrev pub rotate_right : ℕ → ℕ → ℕ
rotate_right x k = x / 2 ^ k + x % 2 ^ k * 2 ^ (32 - k)

abbrev pub shr : ℕ → ℕ → ℕ
shr x k = x / 2 ^ k

abbrev pub not32 : ℕ → ℕ
not32 x = 2 ^ 32 - 1 - x

-- `[u32; 8]`: the state, and the variables `a` to `h` of `compress`.
pub record Words : Type 0 where
  pub a : ℕ
  pub b : ℕ
  pub c : ℕ
  pub d : ℕ
  pub e : ℕ
  pub f : ℕ
  pub g : ℕ
  pub h : ℕ

pub record Sha256 : Type 0 where
  pub state : Words
  pub len : ℕ
  pub buf : List ℕ
  pub buf_len : ℕ

abbrev pub initial : Words
initial = record {
  a = 0x6a09e667;
  b = 0xbb67ae85;
  c = 0x3c6ef372;
  d = 0xa54ff53a;
  e = 0x510e527f;
  f = 0x9b05688c;
  g = 0x1f83d9ab;
  h = 0x5be0cd19;
}

abbrev pub new : Sha256
new = record { state = initial; len = 0; buf = replicate 64 0; buf_len = 0 }

abbrev pub k : List ℕ
k =
    0x428a2f98 ∷ 0x71374491 ∷ 0xb5c0fbcf ∷ 0xe9b5dba5 ∷ 0x3956c25b ∷ 0x59f111f1 ∷ 0x923f82a4
    ∷ 0xab1c5ed5 ∷ 0xd807aa98 ∷ 0x12835b01 ∷ 0x243185be ∷ 0x550c7dc3 ∷ 0x72be5d74 ∷ 0x80deb1fe
    ∷ 0x9bdc06a7 ∷ 0xc19bf174 ∷ 0xe49b69c1 ∷ 0xefbe4786 ∷ 0x0fc19dc6 ∷ 0x240ca1cc ∷ 0x2de92c6f
    ∷ 0x4a7484aa ∷ 0x5cb0a9dc ∷ 0x76f988da ∷ 0x983e5152 ∷ 0xa831c66d ∷ 0xb00327c8 ∷ 0xbf597fc7
    ∷ 0xc6e00bf3 ∷ 0xd5a79147 ∷ 0x06ca6351 ∷ 0x14292967 ∷ 0x27b70a85 ∷ 0x2e1b2138 ∷ 0x4d2c6dfc
    ∷ 0x53380d13 ∷ 0x650a7354 ∷ 0x766a0abb ∷ 0x81c2c92e ∷ 0x92722c85 ∷ 0xa2bfe8a1 ∷ 0xa81a664b
    ∷ 0xc24b8b70 ∷ 0xc76c51a3 ∷ 0xd192e819 ∷ 0xd6990624 ∷ 0xf40e3585 ∷ 0x106aa070 ∷ 0x19a4c116
    ∷ 0x1e376c08 ∷ 0x2748774c ∷ 0x34b0bcb5 ∷ 0x391c0cb3 ∷ 0x4ed8aa4a ∷ 0x5b9cca4f ∷ 0x682e6ff3
    ∷ 0x748f82ee ∷ 0x78a5636f ∷ 0x84c87814 ∷ 0x8cc70208 ∷ 0x90befffa ∷ 0xa4506ceb ∷ 0xbef9a3f7
    ∷ 0xc67178f2 ∷ []

-- `words[i]`, at an index within the bounds.
unfoldable pub word_at : List ℕ → ℕ → ℕ
word_at [] i = 0
word_at (w ∷ ws) zero = w
word_at (w ∷ ws) (suc i) = word_at ws i

-- `to_be_bytes` of a word of `n` bytes.
unfoldable pub to_be_bytes : ℕ → ℕ → List ℕ
to_be_bytes zero v = []
to_be_bytes (suc n) v = v / 256 ^ n % 256 ∷ to_be_bytes n v

-- The loop over the chunks of the block: `u32::from_be_bytes` of four bytes each.
unfoldable pub block_words : List ℕ → List ℕ
block_words (b₀ ∷ b₁ ∷ b₂ ∷ b₃ ∷ block) =
    (((b₀ * 256 + b₁) * 256 + b₂) * 256 + b₃) ∷ block_words block
block_words _ = []

-- The value of `w[i]` in the second loop.
unfoldable pub next_word : List ℕ → ℕ → ℕ
next_word w i =
    let w15 = word_at w (i - 15) in
    let w2 = word_at w (i - 2) in
    let s0 = bit_xor (bit_xor (rotate_right w15 7) (rotate_right w15 18)) (shr w15 3) in
    let s1 = bit_xor (bit_xor (rotate_right w2 17) (rotate_right w2 19)) (shr w2 10) in
    add32 (add32 (add32 (word_at w (i - 16)) s0) (word_at w (i - 7))) s1

-- The second loop, for `i` and the `rounds - 1` indices behind it: `w` is the part before `i`.
unfoldable pub extend : ℕ → ℕ → List ℕ → List ℕ
unfolding next_word
extend zero i w = w
extend (suc rounds) i w = extend rounds (suc i) (w ++ next_word w i ∷ [])

-- A round of the third loop, with `K[i]` and `w[i]`.
unfoldable pub mix : ℕ → ℕ → Words → Words
mix ki wi s =
    let s1 = bit_xor (bit_xor (rotate_right s.e 6) (rotate_right s.e 11)) (rotate_right s.e 25) in
    let ch = bit_xor (bit_and s.e s.f) (bit_and (not32 s.e) s.g) in
    let temp1 = add32 (add32 (add32 (add32 s.h s1) ch) ki) wi in
    let s0 = bit_xor (bit_xor (rotate_right s.a 2) (rotate_right s.a 13)) (rotate_right s.a 22) in
    let maj = bit_xor (bit_xor (bit_and s.a s.b) (bit_and s.a s.c)) (bit_and s.b s.c) in
    let temp2 = add32 s0 maj in
    record {
      a = add32 temp1 temp2;
      b = s.a;
      c = s.b;
      d = s.c;
      e = add32 s.d temp1;
      f = s.e;
      g = s.f;
      h = s.g;
    }

unfoldable pub mix_all : List ℕ → List ℕ → Words → Words
unfolding mix
mix_all (ki ∷ ks) (wi ∷ ws) s = mix_all ks ws (mix ki wi s)
mix_all _ _ s = s

unfoldable pub compress : Words → List ℕ → Words
unfolding mix_all extend block_words
compress s block =
    let r = mix_all k (extend 48 16 (block_words block)) s in
    record {
      a = add32 s.a r.a;
      b = add32 s.b r.b;
      c = add32 s.c r.c;
      d = add32 s.d r.d;
      e = add32 s.e r.e;
      f = add32 s.f r.f;
      g = add32 s.g r.g;
      h = add32 s.h r.h;
    }

-- The first part of `update`, where the buffer holds something: the hash, and the rest of the input.
unfoldable pub fill : Sha256 → List ℕ → Sha256 × List ℕ
fill s input =
    let n = min (64 - s.buf_len) (length input) in
    let buf = copy_at s.buf_len (take n input) s.buf in
    if s.buf_len + n == 64
    then (record s { state = compress s.state buf; buf = buf; buf_len = 0 }, drop n input)
    else (record s { buf = buf; buf_len = s.buf_len + n }, drop n input)

-- The loop over the whole blocks of the input. A round takes 64 bytes, so that a 64th of the length
-- is fuel enough.
unfoldable pub whole_blocks : ℕ → Words → List ℕ → Words × List ℕ
whole_blocks zero s input = (s, input)
whole_blocks (suc fuel) s input =
    if leb 64 (length input)
    then whole_blocks fuel (compress s (take 64 input)) (drop 64 input)
    else (s, input)

-- The rest of `update` behind the first part.
unfoldable pub absorb : Sha256 → List ℕ → Sha256
absorb s input =
    let (state, rest) = whole_blocks (length input / 64) s.state input in
    if is_empty rest
    then record s { state = state }
    else record s { state = state; buf = copy_at 0 rest s.buf; buf_len = length rest }

unfoldable pub update : Sha256 → List ℕ → Sha256
update s input =
    let s = record s { len = wrapping_add s.len (length input) } in
    if not (s.buf_len == 0) then (let (s, rest) = fill s input in absorb s rest) else absorb s input

-- `buf[from..to]` filled with zeros.
abbrev pub clear : ℕ → ℕ → List ℕ → List ℕ
clear from to buf = copy_at from (replicate (to - from) 0) buf

-- The bytes of the words.
unfoldable pub words_bytes : Words → List ℕ
unfolding to_be_bytes
words_bytes s =
    to_be_bytes 4 s.a
    ++ to_be_bytes 4 s.b
    ++ to_be_bytes 4 s.c
    ++ to_be_bytes 4 s.d
    ++ to_be_bytes 4 s.e
    ++ to_be_bytes 4 s.f
    ++ to_be_bytes 4 s.g
    ++ to_be_bytes 4 s.h

-- The last block of `finalize`.
unfoldable pub last_block : Words → ℕ → List ℕ → ℕ → List ℕ
last_block s bit_len buf buf_len =
    words_bytes (compress s (copy_at 56 (to_be_bytes 8 bit_len) (clear buf_len 56 buf)))

unfoldable pub finalize : Sha256 → List ℕ
finalize s =
    let bit_len = wrapping_mul s.len 8 in
    let buf = copy_at s.buf_len (0x80 ∷ []) s.buf in
    let buf_len = s.buf_len + 1 in
    if ltb 56 buf_len
    then (let buf = clear buf_len 64 buf in last_block (compress s.state buf) bit_len buf 0)
    else last_block s.state bit_len buf buf_len
