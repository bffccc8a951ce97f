-- ===== src/Base/Maps.antt =====
-- Maps as functions, for the `BTreeMap`s and arrays of the source that are only looked up by key.
use detllm.Base.Tests.{if◌then◌else◌, ◌==◌, ==_iff, Bool-cases}
use detllm.Base.Bytes.{same_bytes, same_bytes_iff}
use Prim.Native.Nat.{ℕ}
use mathlib.Core.Path.{◌≡◌, refl, ap}
use mathlib.Core.Logic.{◌↔◌, ◌⊎◌, inl, inr}
use mathlib.Core.Bool.{Bool, true, false, ◌&&◌}
use mathlib.Core.Option.{Option, none, some}
use mathlib.Core.List.{List}
use native.Mathlib.Omega.{arith}

pub record Eq {ℓ} (K : Type ℓ) : Type ℓ where
  pub beq : K → K → Bool
  pub beq_iff : (a b : K) → (beq a b ≡ true) ↔ (a ≡ b)

abbrev pub pair_beq : ℕ × ℕ → ℕ × ℕ → Bool
pair_beq (a, b) (c, d) = a == c && b == d

pub pair_beq_iff : (p q : ℕ × ℕ) → (pair_beq p q ≡ true) ↔ (p ≡ q)
pair_beq_iff (a, b) (c, d) =
    (λ h. ground arith, λ h. ground (arith, ap (λ (p : ℕ × ℕ). p.0) h, ap (λ (p : ℕ × ℕ). p.1) h))

instance abbrev pub num_eq : Eq ℕ
num_eq = record { beq = ◌==◌; beq_iff = ==_iff }

instance abbrev pub bytes_eq : Eq (List ℕ)
bytes_eq = record { beq = same_bytes; beq_iff = same_bytes_iff }

instance abbrev pub pair_eq : Eq (ℕ × ℕ)
pair_eq = record { beq = pair_beq; beq_iff = pair_beq_iff }

abbrev pub Map {ℓ κ} : Type ℓ → Type κ → Type (ℓ ⊔ κ)
Map K V = K → Option V

abbrev pub is_some {ℓ} : {A : Type ℓ} → Option A → Bool
is_some none = false
is_some (some a) = true

pub Option-cases {ℓ} : {A : Type ℓ} (o : Option A) → (o ≡ none) ⊎ ((a : A) × (o ≡ some a))
Option-cases none = inl refl
Option-cases (some a) = inr (a, refl)

pub some-injective {ℓ} : {A : Type ℓ} {a b : A} → some a ≡ some b → a ≡ b
some-injective h = cc

module _ {ℓ κ} {K : Type ℓ} {V : Type κ} where
  abbrev pub no_keys : Map K V
  no_keys k = none

  unfoldable pub insert : ⦃e : Eq K⦄ → K → V → Map K V → Map K V
  insert ⦃e⦄ k v m j = if e.beq k j then some v else m j

  pub insert_self : ⦃e : Eq K⦄ → (k : K) (v : V) (m : Map K V) → insert k v m k ≡ some v
  unfolding insert
  insert_self ⦃e⦄ k v m = rw ((e.beq_iff k k).1 refl)

  -- What is found after an insertion is new, or was there and has another key.
  pub insert-eq-some :
      ⦃e : Eq K⦄
      → (k : K) (v : V) (m : Map K V) {j : K} {w : V} → insert k v m j ≡ some w
      → ((k ≡ j) × (v ≡ w)) ⊎ ((e.beq k j ≡ false) × (m j ≡ some w))
  unfolding insert
  insert-eq-some ⦃e⦄ k v m {j} h = elim (Bool-cases (e.beq k j)) [
    | inl same ↦ inl ((e.beq_iff k j).0 same, some-injective (rw same at h))
    | inr other ↦ inr (other, rw other at h)
  ]

  pub insert_other :
      ⦃e : Eq K⦄ → (k : K) (v : V) (m : Map K V) {j : K} → e.beq k j ≡ false → insert k v m j ≡ m j
  unfolding insert
  insert_other k v m h = rw h
