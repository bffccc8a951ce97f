-- ===== src/Num/Tests.antt =====
-- The hash, the half floats and the reductions at concrete inputs.
use detllm.Base.{
  ℕ, ◌+◌, ◌*◌, ◌/◌, ◌%◌, ◌^◌, ◌<◌, ◌≡◌, refl, arith, true, some, List, [], ◌∷◌, ok, copy_at,
}
use detllm.Token.Pieces.{codes}
use detllm.Num.Sha256.{new, update, finalize}
use detllm.Num.Sha256.Padding.{digest}
use detllm.Num.Sha256.Digest.{update_all, joined, finalize-update_all}
use detllm.Num.Half.{f16_is_finite, f16_to_f32}
use detllm.Num.Half.Pack.{half_magnitude, single_magnitude}
use detllm.Num.Half.Exact.{f16_to_f32_exact}
use detllm.Num.Reduce.{Float, dot_f32_ref, sum_f32_ref, sum_squares_f32_ref}
use detllm.Num.Reduce.Lanes.{products, reduced, reductions_reduced}

-- The test `sha256_known_vector` of the source.
abc :
    finalize (update new (codes "abc"))
    ≡ 0xba ∷ 0x78 ∷ 0x16 ∷ 0xbf ∷ 0x8f ∷ 0x01 ∷ 0xcf ∷ 0xea ∷ 0x41 ∷ 0x41 ∷ 0x40 ∷ 0xde ∷ 0x5d
      ∷ 0xae ∷ 0x22 ∷ 0x23 ∷ 0xb0 ∷ 0x03 ∷ 0x61 ∷ 0xa3 ∷ 0x96 ∷ 0x17 ∷ 0x7a ∷ 0x9c ∷ 0xb4 ∷ 0x10
      ∷ 0xff ∷ 0x61 ∷ 0xf2 ∷ 0x00 ∷ 0x15 ∷ 0xad ∷ []
unfolding finalize update detllm.Num.Sha256.fill detllm.Num.Sha256.absorb
    detllm.Num.Sha256.whole_blocks detllm.Num.Sha256.last_block detllm.Num.Sha256.compress
    detllm.Num.Sha256.mix_all detllm.Num.Sha256.mix detllm.Num.Sha256.extend
    detllm.Num.Sha256.next_word detllm.Num.Sha256.word_at detllm.Num.Sha256.block_words
    detllm.Num.Sha256.words_bytes detllm.Num.Sha256.to_be_bytes copy_at
abc = refl

finalize-update_all_example :
    finalize (update_all new (codes "ab" ∷ [] ∷ codes "c" ∷ []))
    ≡ digest (joined (codes "ab" ∷ [] ∷ codes "c" ∷ []))
finalize-update_all_example = finalize-update_all (codes "ab" ∷ [] ∷ codes "c" ∷ [])

-- The least subnormal number, and 1.
small_is_finite : f16_is_finite 1 ≡ true
unfolding f16_is_finite
small_is_finite = refl

f16_to_f32_exact_example :
    (word : ℕ) × (f16_to_f32 1 ≡ some word)
    × (word < 2 ^ 32)
    × (word / 2 ^ 31 ≡ 1 / 2 ^ 15)
    × (single_magnitude word ≡ half_magnitude 1 * 2 ^ 125)
    × (word / 2 ^ 23 % 2 ^ 8 < 255)
f16_to_f32_exact_example = f16_to_f32_exact 1 (omega arith) small_is_finite

-- The test `converts_common_values` of the source, and a subnormal number.
common_values :
    (f16_to_f32 0x0000 ≡ some 0)
    × (f16_to_f32 0x8000 ≡ some 0x8000_0000)
    × (f16_to_f32 0x3c00 ≡ some 0x3f80_0000)
    × (f16_to_f32 0xc000 ≡ some 0xc000_0000)
    × (f16_to_f32 0x7bff ≡ some 0x477f_e000)
    × (f16_to_f32 0x0001 ≡ some 0x3380_0000)
unfolding f16_to_f32 detllm.Num.Half.from_subnormal detllm.Num.Half.normalize
common_values = (refl, refl, refl, refl, refl, refl)

abbrev whole_numbers : Float ℕ
whole_numbers = record { nought = 0; add = ◌+◌; mul = ◌*◌ }

abbrev nine : List ℕ
nine = 1 ∷ 2 ∷ 3 ∷ 4 ∷ 5 ∷ 6 ∷ 7 ∷ 8 ∷ 9 ∷ []

reductions_reduced_example :
    (dot_f32_ref whole_numbers nine nine
      ≡ ok (reduced whole_numbers (products whole_numbers nine nine)))
    × (sum_f32_ref whole_numbers nine ≡ reduced whole_numbers nine)
    × (sum_squares_f32_ref whole_numbers nine
        ≡ reduced whole_numbers (products whole_numbers nine nine))
reductions_reduced_example = reductions_reduced whole_numbers nine nine refl
