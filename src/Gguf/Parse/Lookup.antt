-- ===== src/Gguf/Parse/Lookup.antt =====
-- What `parse` accepts, `tensor_data` can look up.
use detllm.Base.{
  ℕ, zero, suc, ◌+◌, ◌-◌, ◌≤◌, ◌≡◌, refl, sym, ap, arith, Bool, true, false, not, ◌&&◌, ◌||◌,
  Bool-cases, inl, inr, some, List, [], ◌∷◌, ◌++◌, ltb, leb, ◌==◌, length, get_elem?, ok, >>=-eq-ok,
  ok-injective, guard, ok_or, same_bytes, same_bytes_iff, slice, length-take_of_le, length-drop,
  drop,
}
use detllm.Gguf.Layout.{
  TensorInfo, Range, data_range, encoded_len, data_ranges, validate_tensor_data_layout,
}
use detllm.Gguf.Layout.Disjoint.{validate_tensor_data_layout_iff}
use detllm.Gguf.Reader.{
  Reader, bad_magic, truncated, unsupported_version, read_exact, ensure_count, u32, u64,
}
use detllm.Gguf.Parse.{
  Gguf, has_name, named, tensor, tensor_data_range, tensor_data, read_tensor, read_tensors,
  read_metadata, magic, align_up, parse_inner, parse,
}

-- No two tensors share a name.
abbrev pub Unique : List TensorInfo → Type 0
Unique [] = Unit
Unique (t ∷ tensors) = (has_name t.name tensors ≡ false) × Unique tensors

has_name-append :
    (name : List ℕ) (tensors : List TensorInfo) (t : TensorInfo)
    → has_name name tensors ≡ false
    → same_bytes t.name name ≡ false
    → has_name name (tensors ++ (t ∷ [])) ≡ false
unfolding has_name
has_name-append name [] t h other = rw other
has_name-append name (u ∷ tensors) t h other = ground (arith, has_name-append name tensors t)

same_bytes-sym : (xs ys : List ℕ) → same_bytes xs ys ≡ false → same_bytes ys xs ≡ false
same_bytes-sym xs ys other = elim (Bool-cases (same_bytes ys xs)) [
  | inr h ↦ h
  | inl h ↦
      let same : ys ≡ xs = (same_bytes_iff ys xs).0 h in
      cc (other, (same_bytes_iff xs ys).1 (sym same))
]

append-Unique :
    (tensors : List TensorInfo) (t : TensorInfo)
    → Unique tensors
    → has_name t.name tensors ≡ false
    → Unique (tensors ++ (t ∷ []))
unfolding has_name
append-Unique [] t u new = (refl, tt)
append-Unique (s ∷ tensors) t u new =
    let other : same_bytes s.name t.name ≡ false = ground arith in
    let later : has_name t.name tensors ≡ false = ground arith in
    (
      has_name-append s.name tensors t u.0 (same_bytes-sym s.name t.name other),
      append-Unique tensors t u.1 later,
    )

named-none :
    (name : List ℕ) (tensors : List TensorInfo)
    → has_name name tensors ≡ false
    → named name tensors ≡ []
unfolding has_name named
named-none name [] h = refl
named-none name (t ∷ tensors) h = ground (arith, named-none name tensors)

has_name-get_elem? :
    (tensors : List TensorInfo) (i : ℕ) {t : TensorInfo}
    → get_elem? tensors i ≡ some t
    → has_name t.name tensors ≡ true
unfolding has_name
has_name-get_elem? [] i h = cc
has_name-get_elem? (s ∷ tensors) zero {t} h =
    let same : s ≡ t = cc in rw (same, (same_bytes_iff t.name t.name).1 refl)
has_name-get_elem? (s ∷ tensors) (suc i) {t} h = rw (has_name-get_elem? tensors i h) (ground arith)

named-Unique :
    (tensors : List TensorInfo) (i : ℕ) {t : TensorInfo}
    → Unique tensors
    → get_elem? tensors i ≡ some t
    → named t.name tensors ≡ t ∷ []
unfolding named
named-Unique [] i u h = cc
named-Unique (s ∷ tensors) zero {t} u h =
    let same : s ≡ t = cc in
    let none_later : has_name t.name tensors ≡ false = rw (← same) u.0 in
    rw (same, (same_bytes_iff t.name t.name).1 refl, named-none t.name tensors none_later)
named-Unique (s ∷ tensors) (suc i) {t} u h =
    let later = has_name-get_elem? tensors i h in
    elim (Bool-cases (same_bytes s.name t.name)) [
      | inr other ↦ rw other (named-Unique tensors i u.1 h)
      | inl same ↦
          let names : s.name ≡ t.name = (same_bytes_iff s.name t.name).0 same in
          cc (later, ap (λ n. has_name n tensors) names, u.0)
    ]

data_ranges-get_elem? :
    (data_offset file_len : ℕ) (tensors : List TensorInfo) (i : ℕ) {ranges : List Range}
    {t : TensorInfo}
    → data_ranges data_offset file_len tensors ≡ ok ranges
    → get_elem? tensors i ≡ some t
    → (r : Range) × (data_range data_offset file_len t ≡ ok r)
unfolding data_ranges
data_ranges-get_elem? data_offset file_len [] i found h = cc (h)
data_ranges-get_elem? data_offset file_len (s ∷ tensors) i {t = t} found h =
    let (r, first, found₁) = >>=-eq-ok (data_range data_offset file_len s) _ found in
    let (rest, more, found₂) = >>=-eq-ok (data_ranges data_offset file_len tensors) _ found₁ in
    elim i
        as (λ i.
          get_elem? (s ∷ tensors) i ≡ some t
          → (r : Range) × (data_range data_offset file_len t ≡ ok r)) [
            | zero ↦ λ at. let same : s ≡ t = cc in (r, rw (← same) first)
            | suc j ↦ λ at. data_ranges-get_elem? data_offset file_len tensors j more at
          ]
      h

data_range-ok :
    (data_offset file_len : ℕ) (t : TensorInfo) {r : Range}
    → data_range data_offset file_len t ≡ ok r
    → (len : ℕ) × (encoded_len t ≡ ok len) × (r.end ≡ r.start + len) × (r.end ≤ file_len)
unfolding data_range
data_range-ok data_offset file_len t {r} h =
    let (len, sized, h₁) = >>=-eq-ok (encoded_len t) _ h in
    let (long, inside) : (r.end ≡ r.start + len) × (r.end ≤ file_len) = ground arith in
    (len, sized, long, inside)

tensor_data-found :
    (g : Gguf) (bytes : List ℕ) (t : TensorInfo) (r : Range)
    → named t.name g.tensors ≡ t ∷ []
    → data_range g.data_offset g.file_len t ≡ ok r
    → r.start ≤ r.end
    → r.end ≤ length bytes
    → tensor_data g bytes t.name ≡ ok (slice r.start r.end bytes)
unfolding tensor_data tensor tensor_data_range
tensor_data-found g bytes t r only at_r le inside =
    let ordered : leb r.start r.end ≡ true = ground arith in
    let within : leb r.end (length bytes) ≡ true = ground arith in
    rw (only, tensor, at_r, ordered, within)

module _ (valid_utf8 : List ℕ → Bool) where
  read_tensors-Unique :
      (n : ℕ) (before : List TensorInfo) (r : Reader) {after : List TensorInfo} {r' : Reader}
      → Unique before
      → read_tensors valid_utf8 n before r ≡ ok (after, r')
      → Unique after
  unfolding read_tensors
  read_tensors-Unique zero before r {after} u h =
      let same : before ≡ after = ap (λ (p : List TensorInfo × Reader). p.0) (ok-injective h) in
      rw (← same) u
  read_tensors-Unique (suc n) before r u h =
      let ((t, r₁), one, h₁) = >>=-eq-ok (read_tensor valid_utf8 r) _ h in
      elim (Bool-cases (has_name t.name before)) [
        | inl old ↦ cc (rw old at h₁)
        | inr new ↦
            read_tensors-Unique n (before ++ (t ∷ [])) r₁ (append-Unique before t u new)
              (rw new at h₁)
      ]

  parse-ok :
      (bytes : List ℕ) {g : Gguf}
      → parse valid_utf8 bytes ≡ ok g
      → Unique g.tensors
        × (validate_tensor_data_layout g.data_offset (length bytes) g.tensors ≡ ok tt)
        × (g.file_len ≡ length bytes)
  unfolding parse parse_inner
  parse-ok bytes {g} h =
      let ((start, r₁), e₁, h₁) =
        >>=-eq-ok (read_exact (record { bytes = bytes; pos = 0 }) 4) _ h in
      let (u₁, e₂, h₂) = >>=-eq-ok (guard (same_bytes start magic) bad_magic) _ h₁ in
      let ((version, r₂), e₃, h₃) = >>=-eq-ok (u32 r₁) _ h₂ in
      let (u₂, e₄, h₄) =
        >>=-eq-ok (guard (version == 2 || version == 3) (unsupported_version version)) _ h₃ in
      let ((tensor_count, r₃), e₅, h₅) = >>=-eq-ok (u64 r₂) _ h₄ in
      let ((metadata_count, r₄), e₆, h₆) = >>=-eq-ok (u64 r₃) _ h₅ in
      let ((metadata, r₅), e₇, h₇) =
        >>=-eq-ok (read_metadata valid_utf8 metadata_count [] r₄) _ h₆ in
      let (u₃, e₈, h₈) = >>=-eq-ok (ensure_count r₅ tensor_count 24) _ h₇ in
      let ((tensors, r₆), e₉, h₉) = >>=-eq-ok (read_tensors valid_utf8 tensor_count [] r₅) _ h₈ in
      let (data_offset, e₁₀, h₁₀) = >>=-eq-ok (ok_or (align_up r₆.pos 32) truncated) _ h₉ in
      let (u₄, e₁₁, h₁₁) =
        >>=-eq-ok (guard (not (true && ltb (length bytes) data_offset)) truncated) _ h₁₀ in
      let (u₅, layout, h₁₂) =
        >>=-eq-ok (validate_tensor_data_layout data_offset (length bytes) tensors) _ h₁₁ in
      let same = ok-injective h₁₂ in
      rw (← same) (read_tensors-Unique tensor_count [] r₅ tt e₉, layout, refl)

  -- If `parse` accepts a file, then `tensor_data` finds, under the name of each tensor, a part of
  -- the file that is as long as `encoded_len` says.
  pub tensor_data-parse :
      (bytes : List ℕ) (g : Gguf) (i : ℕ) (t : TensorInfo)
      → parse valid_utf8 bytes ≡ ok g
      → get_elem? g.tensors i ≡ some t
      → (part : List ℕ) × (tensor_data g bytes t.name ≡ ok part)
        × (encoded_len t ≡ ok (length part))
  tensor_data-parse bytes g i t accepted found =
      let (unique, layout, whole) = parse-ok bytes accepted in
      let (ranges, located, apart) =
        (validate_tensor_data_layout_iff g.data_offset (length bytes) g.tensors).0 layout in
      let (r, at_r) =
        data_ranges-get_elem? g.data_offset (length bytes) g.tensors i located found in
      let (len, sized, long, inside) = data_range-ok g.data_offset (length bytes) t at_r in
      let part_length : length (slice r.start r.end bytes) ≡ len = omega (
        arith,
        length-take_of_le (r.end - r.start) (drop r.start bytes),
        length-drop r.start bytes,
      ) in
      let at_g : data_range g.data_offset g.file_len t ≡ ok r = rw whole at_r in
      (
        slice r.start r.end bytes,
        tensor_data-found g bytes t r (named-Unique g.tensors i unique found) at_g (omega arith)
            inside,
        rw part_length sized,
      )
