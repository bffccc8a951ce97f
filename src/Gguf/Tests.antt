-- ===== src/Gguf/Tests.antt =====
-- The parser at concrete inputs.
use detllm.Base.{
  ℕ, ◌+◌, ◌*◌, ◌^◌, ◌≤◌, ◌<◌, ◌≡◌, ◌↔◌, ◌%◌, refl, arith, Bool, true, false, Option, none, some,
  List, [], ◌∷◌, ◌++◌, length, get_elem?, All, Outcome, ok, err, Returns, replicate, to_le_bytes,
}
use detllm.Gguf.Types.{from_u32, type_size, block_size, f32, q4_0}
use detllm.Gguf.Reader.{GgufError}
use detllm.Gguf.Layout.{
  TensorInfo, element_count, encoded_len, data_ranges, validate_tensor_data_layout,
}
use detllm.Gguf.Layout.Sizes.{Positive, product, element_count_iff}
use detllm.Gguf.Parse.{Gguf, align_up, parse, parse_inner, tensor_data}
use detllm.Gguf.Parse.Lookup.{tensor_data-parse}
use detllm.Gguf.Parse.Safe.{parse_inner-Returns}
use detllm.Gguf.Parse.Align.{align_up_iff}

-- A tensor of 2 rows of 32 elements, in blocks of 18 bytes.
abbrev weight : TensorInfo
weight = record { name = b'w' ∷ []; dimensions = 32 ∷ 2 ∷ []; ty = q4_0; offset = 32 }

abbrev scale : TensorInfo
scale = record { name = b's' ∷ []; dimensions = 4 ∷ []; ty = f32; offset = 0 }

element_count_iff_example : (element_count weight ≡ ok 64) ↔ (
    (0 < length weight.dimensions)
    × All Positive weight.dimensions
    × (64 ≡ product weight.dimensions)
    × (64 < 2 ^ 64))
element_count_iff_example = element_count_iff weight 64

weight_length : encoded_len weight ≡ ok 36
unfolding encoded_len element_count type_size block_size
weight_length = refl

align_up_iff_example :
    (align_up 57 32 ≡ some 64) ↔ ((57 ≤ 64) × (64 < 57 + 32) × (64 % 32 ≡ 0) × (57 + 31 < 2 ^ 64))
align_up_iff_example = align_up_iff 57 64

abbrev any_bytes : List ℕ → Bool
any_bytes b = true

-- A file with one tensor of four numbers, without metadata: 4 + 4 + 8 + 8 bytes, then
-- 9 + 4 + 8 + 4 + 8 bytes of the tensor, padded to 64, then 16 bytes of data.
abbrev file : List ℕ
file =
    (b'G' ∷ b'G' ∷ b'U' ∷ b'F' ∷ 3 ∷ 0 ∷ 0 ∷ 0 ∷ [])
    ++ ((1 ∷ replicate 7 0)
        ++ (replicate 8 0
            ++ ((1 ∷ replicate 7 0)
                ++ ((b's' ∷ [])
                    ++ ((1 ∷ 0 ∷ 0 ∷ 0 ∷ [])
                        ++ ((4 ∷ replicate 7 0)
                            ++ (replicate 4 0
                                ++ (replicate 8 0 ++ (replicate 7 0 ++ replicate 16 9)))))))))

abbrev parsed : Gguf
parsed = record {
  version = 3;
  metadata = [];
  tensors = scale ∷ [];
  data_offset = 64;
  file_len = 80;
}

file_is_parsed : parse any_bytes file ≡ ok parsed
unfolding parse parse_inner detllm.Gguf.Reader.read_exact detllm.Base.same_bytes
    detllm.Gguf.Reader.word detllm.Gguf.Reader.index_from detllm.Base.from_le_bytes
    detllm.Gguf.Parse.read_metadata detllm.Gguf.Reader.ensure_count detllm.Gguf.Parse.read_tensors
    detllm.Gguf.Parse.read_tensor detllm.Gguf.Reader.string detllm.Gguf.Reader.read_many
    detllm.Gguf.Parse.has_name align_up validate_tensor_data_layout data_ranges
    detllm.Gguf.Layout.data_range encoded_len element_count detllm.Gguf.Layout.check_windows
    detllm.Gguf.Layout.insert detllm.Gguf.Layout.multiply detllm.Gguf.Layout.sort block_size
    from_u32 type_size
file_is_parsed = refl

tensor_data-parse_example :
    (part : List ℕ) × (tensor_data parsed file scale.name ≡ ok part)
    × (encoded_len scale ≡ ok (length part))
tensor_data-parse_example = tensor_data-parse any_bytes file parsed 0 scale file_is_parsed refl

parse_inner-Returns_example : Returns (parse_inner any_bytes (b'G' ∷ b'G' ∷ []) true)
parse_inner-Returns_example = parse_inner-Returns any_bytes (b'G' ∷ b'G' ∷ []) true
