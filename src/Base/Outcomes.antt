-- ===== src/Base/Outcomes.antt =====
-- What a call comes to: a value, an error of the source, a panic, or a loop out of fuel.
use mathlib.Core.Path.{◌≡◌, refl, ap}
use mathlib.Core.Bool.{Bool, true, false}
use mathlib.Core.Logic.{◌⊎◌, inl, inr}
use mathlib.Core.Option.{Option, none, some}
use detllm.Base.Tests.{if◌then◌else◌}

pub data Outcome {ℓ κ} (E : Type ℓ) (A : Type κ) : Type (ℓ ⊔ κ) where
  ok : A → Outcome E A
  err : E → Outcome E A
  panic : Outcome E A
  stuck : Outcome E A

-- The operator `?`: what is not a value ends the function.
infixl 5 ◌>>=◌ ◌>>◌
abbrev pub ◌>>=◌ {ℓ κ ι} :
    {E : Type ℓ} {A : Type κ} {B : Type ι} → Outcome E A → (A → Outcome E B) → Outcome E B
stuck >>= next = stuck
panic >>= next = panic
err e >>= next = err e
ok a >>= next = next a

-- `if !test { return Err(e) }`.
abbrev pub guard {ℓ} : {E : Type ℓ} → Bool → E → Outcome E (Unit {0})
guard true e = ok tt
guard false e = err e

abbrev pub ◌>>◌ {ℓ κ} : {E : Type ℓ} {B : Type κ} → Outcome E (Unit {0}) → Outcome E B → Outcome E B
check >> rest = check >>= λ _. rest

-- `ok_or`.
abbrev pub ok_or {ℓ κ} : {E : Type ℓ} {A : Type κ} → Option A → E → Outcome E A
ok_or none e = err e
ok_or (some a) e = ok a

-- `map_err`.
abbrev pub map_err {ℓ κ ι} :
    {E : Type ℓ} {F : Type κ} {A : Type ι} → (E → F) → Outcome E A → Outcome F A
map_err f (ok a) = ok a
map_err f (err e) = err (f e)
map_err f panic = panic
map_err f stuck = stuck

-- A slice index: out of range is a panic.
abbrev pub at_index {ℓ κ} : {E : Type ℓ} {A : Type κ} → Option A → Outcome E A
at_index none = panic
at_index (some a) = ok a

pub >>=-eq-ok {ℓ κ ι} :
    {E : Type ℓ} {A : Type κ} {B : Type ι} (o : Outcome E A) (next : A → Outcome E B) {last : B}
    → (o >>= next) ≡ ok last
    → (a : A) × (o ≡ ok a) × (next a ≡ ok last)
>>=-eq-ok stuck next run = cc
>>=-eq-ok panic next run = cc
>>=-eq-ok (err e) next run = cc
>>=-eq-ok (ok a) next run = (a, refl, run)

pub guard-eq-ok {ℓ κ} :
    {E : Type ℓ} {B : Type κ} (test : Bool) (e : E) (rest : Outcome E B) {b : B}
    → (guard test e >> rest) ≡ ok b
    → (test ≡ true) × (rest ≡ ok b)
guard-eq-ok true e rest h = (refl, h)
guard-eq-ok false e rest h = cc

value_of {ℓ κ} : {E : Type ℓ} {A : Type κ} → A → Outcome E A → A
value_of d (ok a) = a
value_of d (err e) = d
value_of d panic = d
value_of d stuck = d

pub ok-injective {ℓ κ} :
    {E : Type ℓ} {A : Type κ} {a b : A} → ◌≡◌ {A = Outcome E A} (ok a) (ok b) → a ≡ b
unfolding value_of
ok-injective {a} e = ap (value_of a) e

pub map_err-eq-ok {ℓ κ ι} :
    {E : Type ℓ} {F : Type κ} {A : Type ι} (f : E → F) (m : Outcome E A) {a : A}
    → map_err f m ≡ ok a
    → m ≡ ok a
map_err-eq-ok f (ok b) h = ap ok (ok-injective h)
map_err-eq-ok f (err e) h = cc
map_err-eq-ok f panic h = cc
map_err-eq-ok f stuck h = cc

pub ok_or-eq-ok {ℓ κ} :
    {E : Type ℓ} {A : Type κ} (o : Option A) (e : E) {a : A} → ok_or o e ≡ ok a → o ≡ some a
ok_or-eq-ok none e h = cc
ok_or-eq-ok (some b) e h = ap some (ok-injective h)

pub if-eq-ok {ℓ κ} :
    {E : Type ℓ} {A : Type κ} (test : Bool) (a : A) (e : E) {b : A}
    → (if test then ok a else err e) ≡ ok b
    → (test ≡ true) × (a ≡ b)
if-eq-ok true a e h = (refl, ok-injective h)
if-eq-ok false a e h = cc

-- The call comes back, with a value or an error: it does not panic and does not run out of fuel.
abbrev pub Returns {ℓ κ} : {E : Type ℓ} {A : Type κ} → Outcome E A → Type 0
Returns (ok a) = Unit
Returns (err e) = Unit
Returns panic = ⊥
Returns stuck = ⊥

pub Returns->>= {ℓ κ ι} :
    {E : Type ℓ} {A : Type κ} {B : Type ι} (m : Outcome E A) (f : A → Outcome E B)
    → Returns m
    → ((a : A) → m ≡ ok a → Returns (f a))
    → Returns (m >>= f)
Returns->>= (ok a) f r k = k a refl
Returns->>= (err e) f r k = tt
Returns->>= panic f r k = absurd r
Returns->>= stuck f r k = absurd r

pub Returns-guard {ℓ} : {E : Type ℓ} (test : Bool) (e : E) → Returns (guard test e)
Returns-guard true e = tt
Returns-guard false e = tt

pub Returns-ok_or {ℓ κ} : {E : Type ℓ} {A : Type κ} (o : Option A) (e : E) → Returns (ok_or o e)
Returns-ok_or none e = tt
Returns-ok_or (some a) e = tt

pub Returns-map_err {ℓ κ ι} :
    {E : Type ℓ} {F : Type κ} {A : Type ι} (f : E → F) (m : Outcome E A)
    → Returns m
    → Returns (map_err f m)
Returns-map_err f (ok a) r = tt
Returns-map_err f (err e) r = tt
Returns-map_err f panic r = r
Returns-map_err f stuck r = r

pub Returns-ok {ℓ κ} : {E : Type ℓ} {A : Type κ} {m : Outcome E A} {a : A} → m ≡ ok a → Returns m
Returns-ok e = rw e tt

pub Returns-err {ℓ κ} : {E : Type ℓ} {A : Type κ} {m : Outcome E A} {x : E} → m ≡ err x → Returns m
Returns-err e = rw e tt

pub Returns-cases {ℓ κ} :
    {E : Type ℓ} {A : Type κ} (m : Outcome E A)
    → Returns m
    → ((a : A) × (m ≡ ok a)) ⊎ ((e : E) × (m ≡ err e))
Returns-cases (ok a) r = inl (a, refl)
Returns-cases (err e) r = inr (e, refl)
Returns-cases panic r = absurd r
Returns-cases stuck r = absurd r

pub Returns-if {ℓ κ} :
    {E : Type ℓ} {A : Type κ} (test : Bool) (a : A) (e : E) → Returns (if test then ok a else err e)
Returns-if true a e = tt
Returns-if false a e = tt
