-- ===== src/Num/Sha256/Padding.antt =====
-- What SHA-256 is of a whole message: the padded message, compressed block by block.
use detllm.Base.{
  ℕ, zero, suc, ◌-◌, ◌*◌, ◌/◌, ◌%◌, ◌^◌, List, ◌∷◌, ◌++◌, length, take, drop, replicate,
}
use detllm.Num.Sha256.{Words, initial, compress, to_be_bytes, words_bytes}

-- The message, a byte with its high bit only, the fewest zeros that leave 8 bytes to the end of a
-- block, and the number of bits.
unfoldable pub pad : List ℕ → List ℕ
pad m =
    m ++ (0x80 ∷ replicate ((119 - length m % 64) % 64) 0) ++ to_be_bytes 8 (length m * 8 % 2 ^ 64)

-- The first `n` blocks.
unfoldable pub compress_blocks : ℕ → Words → List ℕ → Words
compress_blocks zero s bytes = s
compress_blocks (suc n) s bytes = compress_blocks n (compress s (take 64 bytes)) (drop 64 bytes)

unfoldable pub digest : List ℕ → List ℕ
digest m = words_bytes (compress_blocks (length (pad m) / 64) initial (pad m))
