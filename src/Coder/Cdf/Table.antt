-- ===== src/Coder/Cdf/Table.antt =====
-- The abstract frequency table: a list of counts. A symbol's interval begins at the sum of the
-- counts before it.
use detllm.Base.{
  ℕ, zero, suc, ◌+◌, ◌≤◌, ◌<◌, ◌≡◌, refl, ap, ◌∙◌, arith, leb, some, List, [], ◌∷◌, ◌++◌, length,
  get_elem?, take, All,
}
use detllm.Coder.Cdf.{partition_point}
use native.Mathlib.Nat.{add_assoc}
use native.Mathlib.Decide.{dec_lt}

abbrev pub sum : List ℕ → ℕ
sum [] = 0
sum (f ∷ freq) = f + sum freq

abbrev pub Positive : ℕ → Type 0
Positive f = 0 < f

-- The sums before each entry, from `start` on.
unfoldable pub cumulate : ℕ → List ℕ → List ℕ
cumulate start [] = []
cumulate start (f ∷ freq) = start ∷ cumulate (start + f) freq

pub length-cumulate : (start : ℕ) (freq : List ℕ) → length (cumulate start freq) ≡ length freq
unfolding cumulate
length-cumulate start [] = refl
length-cumulate start (f ∷ freq) = ap suc (length-cumulate (start + f) freq)

pub cumulate-append :
    (start : ℕ) (freq more : List ℕ)
    → cumulate start (freq ++ more) ≡ cumulate start freq ++ cumulate (start + sum freq) more
unfolding cumulate
cumulate-append start [] more = ap (λ t. cumulate t more) (omega arith)
cumulate-append start (f ∷ freq) more =
    ap (◌∷◌ start) (rw (cumulate-append (start + f) freq more, add_assoc))

pub sum-append : (freq more : List ℕ) → sum (freq ++ more) ≡ sum freq + sum more
sum-append [] more = omega arith
sum-append (f ∷ freq) more = omega (arith, sum-append freq more)

pub All-append {κ} :
    (P : ℕ → Type κ) (freq more : List ℕ) → All P freq → All P more → All P (freq ++ more)
All-append P [] more h k = k
All-append P (f ∷ freq) more h k = (h.0, All-append P freq more h.1 k)

-- `value` falls to entry `symbol` of the table, whose interval is `[cum, cum + f)`.
pub record Falls (start : ℕ) (freq : List ℕ) (symbol cum f value : ℕ) : Type 0 where
  pub entry : get_elem? freq symbol ≡ some f
  pub begins : cum ≡ start + sum (take symbol freq)
  pub above : cum ≤ value
  pub below : value < cum + f

pub Falls-suc :
    {start f : ℕ} {freq : List ℕ} {symbol cum g value : ℕ}
    → Falls (start + f) freq symbol cum g value
    → Falls start (f ∷ freq) (suc symbol) cum g value
Falls-suc h = record {
  entry = h.entry;
  begins = omega (arith, h.begins);
  above = h.above;
  below = h.below;
}

pub Falls-tail :
    {start f : ℕ} {freq : List ℕ} {symbol cum g value : ℕ}
    → Falls start (f ∷ freq) (suc symbol) cum g value
    → Falls (start + f) freq symbol cum g value
Falls-tail h = record {
  entry = h.entry;
  begins = omega (arith, h.begins);
  above = h.above;
  below = h.below;
}

-- Every value below the total falls to a symbol.
pub Falls-total :
    (start : ℕ) (freq : List ℕ) (value : ℕ)
    → start ≤ value
    → value < start + sum freq
    → (symbol : ℕ) × (cum : ℕ) × (f : ℕ) × Falls start freq symbol cum f value
Falls-total start [] value lo hi = absurd (omega arith)
Falls-total start (f ∷ freq) value lo hi = elim (dec_lt value (start + f)) [
  | yes here ↦
      (0, start, f, record { entry = refl; begins = omega arith; above = lo; below = here })
  | no later ↦
      let (s, c, g, falls) = Falls-total (start + f) freq value (omega arith) (omega arith) in
      (suc s, c, g, Falls-suc falls)
]

-- The count of a symbol that a value falls to ends within the total.
pub Falls-le :
    (start : ℕ) (freq : List ℕ) (symbol : ℕ) {cum f value : ℕ}
    → Falls start freq symbol cum f value
    → cum + f ≤ start + sum freq
Falls-le start [] symbol h = cc (h.entry)
Falls-le start (g ∷ freq) zero {f} h = let same : g ≡ f = cc (h.entry) in omega (arith, h.begins)
Falls-le start (g ∷ freq) (suc symbol) h =
    omega (arith, Falls-le (start + g) freq symbol (Falls-tail h))

-- The search of `symbol_for_validated` stops right behind the symbol.
partition_point-above :
    (start value : ℕ) (freq : List ℕ)
    → value < start
    → partition_point (λ x. leb x value) (cumulate start freq) ≡ 0
unfolding partition_point cumulate
partition_point-above start value [] h = refl
partition_point-above start value (f ∷ freq) h = ground arith

pub partition_point-cumulate :
    (start : ℕ) (freq : List ℕ) (symbol : ℕ) {cum f value : ℕ}
    → Falls start freq symbol cum f value
    → partition_point (λ x. leb x value) (cumulate start freq) ≡ suc symbol
unfolding partition_point cumulate
partition_point-cumulate start [] symbol h = cc (h.entry)
partition_point-cumulate start (g ∷ freq) zero {f} {value} h =
    let same : g ≡ f = cc (h.entry) in
    ground (arith, h.begins, h.above, h.below, partition_point-above (start + g) value freq)
partition_point-cumulate start (g ∷ freq) (suc symbol) {value} h =
    ground
      (arith, h.begins, h.above, partition_point-cumulate (start + g) freq symbol (Falls-tail h))

pub get_elem?-cumulate :
    (start : ℕ) (freq : List ℕ) (symbol : ℕ) {f : ℕ}
    → get_elem? freq symbol ≡ some f
    → get_elem? (cumulate start freq) symbol ≡ some (start + sum (take symbol freq))
unfolding cumulate
get_elem?-cumulate start [] symbol e = cc
get_elem?-cumulate start (g ∷ freq) zero e = ap some (omega arith)
get_elem?-cumulate start (g ∷ freq) (suc symbol) e =
    get_elem?-cumulate (start + g) freq symbol e ∙ ap some (omega arith)
