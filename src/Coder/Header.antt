-- ===== src/Coder/Header.antt =====
-- crates/det-coder/src/file.rs: the header of a DTLZ file.
pub mod RoundTrip
pub mod Canonical
use detllm.Base.{
  ℕ, ◌-◌, ◌^◌, bit_and, Bool, not, List, [], ◌∷◌, ltb, leb, ◌==◌, length, Outcome, ok, err, ◌>>=◌,
  ◌>>◌, guard, replicate, same_bytes, slice, copy_at, to_le_bytes, from_le_bytes,
}

-- b"DTLZ".
abbrev pub magic : List ℕ
magic = b'D' ∷ b'T' ∷ b'L' ∷ b'Z' ∷ []

abbrev pub version : ℕ
version = 1

abbrev pub flag_byte_escapes : ℕ
flag_byte_escapes = 1

abbrev pub supported_flags : ℕ
supported_flags = flag_byte_escapes

abbrev pub header_len : ℕ
header_len = 56

pub record DtlzHeader : Type 0 where
  pub flags : ℕ
  pub model_sha256 : List ℕ
  pub n_ctx : ℕ
  pub overlap : ℕ
  pub orig_len : ℕ

pub data FileError : Type 0 where
  too_short bad_magic invalid_context invalid_overlap : FileError
  unsupported_version unsupported_flags : ℕ → FileError

-- `flags & !SUPPORTED_FLAGS`, in 16 bits.
abbrev pub other_flags : ℕ → ℕ
other_flags flags = bit_and flags (2 ^ 16 - 1 - supported_flags)

unfoldable pub encode : DtlzHeader → List ℕ
encode h =
    let out = replicate header_len 0 in
    let out = copy_at 0 magic out in
    let out = copy_at 4 (to_le_bytes 2 version) out in
    let out = copy_at 6 (to_le_bytes 2 h.flags) out in
    let out = copy_at 8 h.model_sha256 out in
    let out = copy_at 40 (to_le_bytes 4 h.n_ctx) out in
    let out = copy_at 44 (to_le_bytes 4 h.overlap) out in copy_at 48 (to_le_bytes 8 h.orig_len) out

unfoldable pub validate : DtlzHeader → Outcome FileError (Unit {0})
validate h = do
  guard (other_flags h.flags == 0) (unsupported_flags h.flags)
  guard (not (h.n_ctx == 0)) invalid_context
  guard (not (leb h.n_ctx h.overlap)) invalid_overlap

unfoldable pub encode_checked : DtlzHeader → Outcome FileError (List ℕ)
encode_checked h = do validate h; ok (encode h)

unfoldable pub decode : List ℕ → Outcome FileError DtlzHeader
decode bytes = do
  guard (not (ltb (length bytes) header_len)) too_short
  guard (same_bytes (slice 0 4 bytes) magic) bad_magic
  let file_version = from_le_bytes (slice 4 6 bytes)
  guard (file_version == version) (unsupported_version file_version)
  let flags = from_le_bytes (slice 6 8 bytes)
  guard (other_flags flags == 0) (unsupported_flags flags)
  let header : DtlzHeader = record {
    flags = flags;
    model_sha256 = slice 8 40 bytes;
    n_ctx = from_le_bytes (slice 40 44 bytes);
    overlap = from_le_bytes (slice 44 48 bytes);
    orig_len = from_le_bytes (slice 48 56 bytes);
  }
  validate header
  ok header
