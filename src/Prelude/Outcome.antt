-- ===== src/Prelude/Outcome.antt =====
-- The outcome of a call: a value, an error, or a panic with its message.
use Prim.Native.String.{String}
use mathlib.Core.Path.{◌≡◌, refl, ap}
use mathlib.Core.List.{List, [], ◌∷◌}
use mathlib.Core.Option.{Option, none, some}

pub data Res {ℓ κ} (E : Type ℓ) (A : Type κ) : Type (ℓ ⊔ κ) where
  ok : A → Res E A
  err : E → Res E A
  panic : String → Res E A

-- `?` and `and_then`
infixl 5 ◌>>=◌
abbrev pub ◌>>=◌ {ℓ κ μ} :
    {E : Type ℓ} {A : Type κ} {B : Type μ} → Res E A → (A → Res E B) → Res E B
panic why >>= next = panic why
err problem >>= next = err problem
ok value >>= next = next value

module _ {ℓ κ} {E : Type ℓ} {A : Type κ} where
  -- `map_err`
  abbrev pub map_err {μ} : {F : Type μ} → (E → F) → Res E A → Res F A
  map_err f (ok a) = ok a
  map_err f (err e) = err (f e)
  map_err f (panic m) = panic m

  -- `map`
  abbrev pub map_ok {μ} : {B : Type μ} → (A → B) → Res E A → Res E B
  map_ok f (ok a) = ok (f a)
  map_ok f (err e) = err e
  map_ok f (panic m) = panic m

  -- `ok_or_else`
  abbrev pub ok_or : Option A → E → Res E A
  ok_or (some a) e = ok a
  ok_or none e = err e

-- `map(f).collect::<Result<Vec<_>, _>>()`: the first element that fails ends the walk.
abbrev pub collect_map {ℓ κ μ} :
    {E : Type ℓ} {A : Type κ} {B : Type μ} → (A → Res E B) → List A → Res E (List B)
collect_map f [] = ok []
collect_map f (x ∷ xs) = f x >>= λ y. collect_map f xs >>= λ ys. ok (y ∷ ys)

-- Inversion of a successful step.
pub >>=-eq-ok {ℓ κ μ} :
    {E : Type ℓ} {A : Type κ} {B : Type μ} (first : Res E A) (next : A → Res E B) {last : B}
    → first >>= next ≡ ok last
    → (value : A) × (first ≡ ok value) × (next value ≡ ok last)
>>=-eq-ok (panic why) next run = cc
>>=-eq-ok (err problem) next run = cc
>>=-eq-ok (ok value) next run = (value, refl, run)

-- `unwrap_or`
abbrev pub value_or {ℓ κ} : {E : Type ℓ} {A : Type κ} → A → Res E A → A
value_or d (ok a) = a
value_or d (err e) = d
value_or d (panic m) = d

pub ok-injective {ℓ κ} :
    {E : Type ℓ} {A : Type κ} {a b : A} → ◌≡◌ {A = Res E A} (ok a) (ok b) → a ≡ b
ok-injective {a} e = ap (value_or a) e

pub map_ok-eq-ok {ℓ κ μ} :
    {E : Type ℓ} {A : Type κ} {B : Type μ} (f : A → B) (m : Res E A) {b : B}
    → map_ok f m ≡ ok b
    → (a : A) × (m ≡ ok a) × (f a ≡ b)
map_ok-eq-ok f (ok a) e = (a, refl, ok-injective e)
map_ok-eq-ok f (err x) e = cc
map_ok-eq-ok f (panic m) e = cc

pub >>=-of_ok {ℓ κ μ} :
    {E : Type ℓ} {A : Type κ} {B : Type μ} (m : Res E A) (f : A → Res E B) {a : A}
    → m ≡ ok a
    → (m >>= f) ≡ f a
>>=-of_ok m f e = ap (λ r. r >>= f) e

pub >>=-of_panic {ℓ κ μ} :
    {E : Type ℓ} {A : Type κ} {B : Type μ} (m : Res E A) (f : A → Res E B) {s : String}
    → m ≡ panic s
    → (m >>= f) ≡ panic s
>>=-of_panic m f e = ap (λ r. r >>= f) e
