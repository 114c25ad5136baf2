-- ===== src/Prelude/Collect.antt =====
-- When a walk over a list that stops at the first failure succeeds, and with what.
use mathlib.Core.Path.{◌≡◌, refl, ap, ◌∙◌, subst}
use mathlib.Core.List.{List, [], ◌∷◌, ◌++◌}
use Prim.Native.String.{String}
use Prim.Native.Nat.{suc}
use nu_plugin_dns.Prelude.Lists.{length, All}
use nu_plugin_dns.Prelude.Outcome.{
  Res, ok, panic, ◌>>=◌, >>=-eq-ok, >>=-of_ok, ok-injective, collect_map,
}

-- The outcome is a value.
abbrev pub Succeeds {ℓ κ} : {E : Type ℓ} {A : Type κ} → Res E A → Type (ℓ ⊔ κ)
Succeeds {A} m = (a : A) × (m ≡ ok a)

-- Two steps that succeed.
pub >>=-Succeeds {ℓ κ μ} :
    {E : Type ℓ} {A : Type κ} {B : Type μ} (m : Res E A) (f : A → Res E B)
    → Succeeds m
    → ((a : A) → Succeeds (f a))
    → Succeeds (m >>= f)
>>=-Succeeds m f (a, e) h = let (b, e') = h a in (b, >>=-of_ok m f e ∙ e')

module _ {E A B : Type 0} (f : A → Res E B) where
  -- The second list is the first one's image, element by element.
  abbrev pub Images : List A → List B → Type 0
  Images [] [] = Unit
  Images (x ∷ xs) (y ∷ ys) = (f x ≡ ok y) × Images xs ys
  Images [] (_ ∷ _) = ⊥
  Images (_ ∷ _) [] = ⊥

  pub collect_map-Images : (xs : List A) {ys : List B} → collect_map f xs ≡ ok ys → Images xs ys
  collect_map-Images [] e = subst (Images []) (ok-injective e) tt
  collect_map-Images (x ∷ xs) e =
      let (y, here, rest) = >>=-eq-ok (f x) _ e in
      let (ys, later, same) = >>=-eq-ok (collect_map f xs) _ rest in
      subst (Images (x ∷ xs)) (ok-injective same) (here, collect_map-Images xs later)

  pub collect_map-Succeeds :
      (xs : List A) → All (λ x. Succeeds (f x)) xs → Succeeds (collect_map f xs)
  collect_map-Succeeds [] _ = ([], refl)
  collect_map-Succeeds (x ∷ xs) ((y, e), h) =
      let (ys, es) = collect_map-Succeeds xs h in
      (
        y ∷ ys,
        ap (λ m. m >>= λ b. collect_map f xs >>= λ bs. ok (b ∷ bs)) e
            ∙ ap (λ m. m >>= λ bs. ok (y ∷ bs)) es,
      )

  pub collect_map-panic :
      (xs ys : List A) (x : A) (m : String)
      → All (λ x. Succeeds (f x)) xs
      → f x ≡ panic m
      → collect_map f (xs ++ x ∷ ys) ≡ panic m
  collect_map-panic [] ys x m _ e = ap (λ r. r >>= λ b. collect_map f ys >>= λ bs. ok (b ∷ bs)) e
  collect_map-panic (z ∷ xs) ys x m ((y, here), h) e =
      ap (λ r. r >>= λ b. collect_map f (xs ++ x ∷ ys) >>= λ bs. ok (b ∷ bs)) here
      ∙ ap (λ r. r >>= λ bs. ok (y ∷ bs)) (collect_map-panic xs ys x m h e)

  pub length-Images : (xs : List A) (ys : List B) → Images xs ys → length ys ≡ length xs
  length-Images [] [] _ = refl
  length-Images [] (_ ∷ _) h = absurd h
  length-Images (_ ∷ _) [] h = absurd h
  length-Images (x ∷ xs) (y ∷ ys) (_, h) = ap suc (length-Images xs ys h)
