-- ===== src/Prelude/Quiet.antt =====
-- Outcomes that are no panic.
use Prim.Native.String.{String}
use mathlib.Core.Path.{◌≡◌, refl}
use mathlib.Core.Logic.{◌≢◌, ◌⊎◌, inl, inr}
use mathlib.Core.List.{List, [], ◌∷◌}
use mathlib.Core.Option.{Option, none, some}
use nu_plugin_dns.Prelude.Outcome.{Res, ok, err, panic, ◌>>=◌, map_err, map_ok, ok_or, collect_map}

abbrev pub IsQuiet {ℓ κ} : {E : Type ℓ} {A : Type κ} → Res E A → Type (ℓ ⊔ κ)
IsQuiet m = (s : String) → m ≢ panic s

pub ok-IsQuiet : {E A : Type 0} (a : A) → IsQuiet {E = E} (ok a)
ok-IsQuiet a s p = cc

module _ {E A B : Type 0} where
  pub >>=-IsQuiet :
      (m : Res E A) (f : A → Res E B) → IsQuiet m → ((a : A) → IsQuiet (f a)) → IsQuiet (m >>= f)
  >>=-IsQuiet (ok a) f h k s p = k a s p
  >>=-IsQuiet (err e) f h k s p = cc
  >>=-IsQuiet (panic m) f h k s p = h m refl

  pub map_err-IsQuiet : (f : E → B) (m : Res E A) → IsQuiet m → IsQuiet (map_err f m)
  map_err-IsQuiet f (ok a) h s p = cc
  map_err-IsQuiet f (err e) h s p = cc
  map_err-IsQuiet f (panic m) h s p = h m refl

module _ {E A : Type 0} where
  pub ok_or-IsQuiet : (o : Option A) (e : E) → IsQuiet (ok_or o e)
  ok_or-IsQuiet none e s p = cc
  ok_or-IsQuiet (some a) e s p = cc

  pub collect_map-IsQuiet :
      {B : Type 0} (f : A → Res E B) (xs : List A)
      → ((x : A) → IsQuiet (f x))
      → IsQuiet (collect_map f xs)
  collect_map-IsQuiet f [] h = λ s p. cc
  collect_map-IsQuiet f (x ∷ xs) h =
      >>=-IsQuiet (f x) _ (h x)
        λ y. >>=-IsQuiet (collect_map f xs) _ (collect_map-IsQuiet f xs h) λ ys s p. cc

module _ {E A B : Type 0} where
  pub map_ok-IsQuiet : (f : A → B) (m : Res E A) → IsQuiet m → IsQuiet (map_ok f m)
  map_ok-IsQuiet f (ok a) h s p = cc
  map_ok-IsQuiet f (err e) h s p = cc
  map_ok-IsQuiet f (panic m) h s p = h m refl

-- Inversion of a bind that panics.
pub >>=-eq-panic :
    {E A B : Type 0} (m : Res E A) (f : A → Res E B) {s : String}
    → (m >>= f) ≡ panic s
    → (m ≡ panic s) ⊎ ((a : A) × (m ≡ ok a) × (f a ≡ panic s))
>>=-eq-panic (ok a) f e = inr (a, refl, e)
>>=-eq-panic (err x) f e = cc
>>=-eq-panic {E} {A} (panic n) f {s} e =
    let same : ◌≡◌ {A = Res E A} (panic n) (panic s) = cc in inl same
