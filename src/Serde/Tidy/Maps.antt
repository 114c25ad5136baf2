-- ===== src/Serde/Tidy/Maps.antt =====
-- Records that are made of a hash map, as src/dns/serde.rs makes them, name no column twice.
use mathlib.Core.Bool.{Bool-set}
use mathlib.Core.List.{Permᴰ}
use mathlib.Core.List.Perm
use mathlib.Core.Path.{subst}
use mathlib.Core.Logic.{∥∥₁_elim}
use nu_plugin_dns.Prelude.{String, List, [], ◌∷◌, All, Bool, true, false}
use nu_plugin_dns.Prelude.{◌&&◌, ◌≡◌, refl, sym, ap, ◌∙◌, arith, str_eq, eq_iff, if◌then◌else◌}
use nu_plugin_dns.Prelude.{Bool-cases, inl, inr}
use nu_plugin_dns.Nu.{Value, record_value, to_columns}
use nu_plugin_dns.Nu.Protocol.{get}
use nu_plugin_dns.Std.HashMap.{Iteration, IsIteration, insert, insert_all, from_iter}
use nu_plugin_dns.Serde.Tidy.{IsTidy, tidy, is_none}

abbrev Entries : Type 0
Entries = List (String × Value)

-- No entry has the key.
abbrev is_free : String → Entries → Bool
is_free k es = is_none (get k (to_columns es))

is_free-insert :
    (k j : String) (v : Value) (es : Entries)
    → is_free k (insert j v es) ≡ (if str_eq j k then false else is_free k es)
unfolding insert
is_free-insert k j v [] = ground (arith, eq_iff j k)
is_free-insert k j v ((i, w) ∷ es) =
    ground (arith, eq_iff i k, eq_iff i j, eq_iff j k, is_free-insert k j v es)

and_parts : (a b : Bool) → (a && b) ≡ true → (a ≡ true) × (b ≡ true)
and_parts true b h = (refl, h)
and_parts false b h = cc

parts_of :
    (k : String) (v : Value) (es : Entries)
    → IsTidy (record_value ((k, v) ∷ es))
    → (is_free k es ≡ true) × IsTidy v × IsTidy (record_value es)
unfolding tidy
parts_of k v es h =
    let (free, h') = and_parts (is_free k es) _ h in
    let (here, rest) = and_parts (tidy v) _ h' in (free, here, rest)

entry-IsTidy :
    (k : String) (v : Value) (es : Entries)
    → is_free k es ≡ true
    → IsTidy v
    → IsTidy (record_value es)
    → IsTidy (record_value ((k, v) ∷ es))
unfolding tidy
entry-IsTidy k v es free here rest = rw (free, here) rest

insert-IsTidy :
    (j : String) (v : Value) (es : Entries)
    → IsTidy v
    → IsTidy (record_value es)
    → IsTidy (record_value (insert j v es))
unfolding insert
insert-IsTidy j v [] h k = entry-IsTidy j v [] refl h k
insert-IsTidy j v ((i, w) ∷ es) h k =
    let (free, here, rest) = parts_of i w es k in
    elim (Bool-cases (str_eq i j)) [
      | inl same ↦ rw same (entry-IsTidy j v es (rw (← (eq_iff i j).0 same) free) h rest)
      | inr other ↦
          let free' : is_free i (insert j v es) ≡ true =
            is_free-insert i j v es ∙ ground (arith, eq_iff i j, eq_iff j i) in
          rw other (entry-IsTidy i w (insert j v es) free' here (insert-IsTidy j v es h rest))
    ]

insert_all-IsTidy :
    (es more : Entries)
    → All (λ e. IsTidy e.1) more
    → IsTidy (record_value es)
    → IsTidy (record_value (insert_all es more))
unfolding insert_all
insert_all-IsTidy es [] h k = k
insert_all-IsTidy es ((j, v) ∷ more) (h, hs) k =
    insert_all-IsTidy (insert j v es) more hs (insert-IsTidy j v es h k)

-- A rearrangement.
is_free-cons :
    (k : String) (a : String × Value) (xs ys : Entries)
    → is_free k xs ≡ is_free k ys
    → is_free k (a ∷ xs) ≡ is_free k (a ∷ ys)
is_free-cons k (j, v) xs ys h = ground (arith, eq_iff j k)

is_free-swap :
    (k : String) (a b : String × Value) (xs : Entries)
    → is_free k (a ∷ b ∷ xs) ≡ is_free k (b ∷ a ∷ xs)
is_free-swap k (i, v) (j, w) xs = ground (arith, eq_iff i k, eq_iff j k)

is_free-Permᴰ : {xs ys : Entries} (k : String) → Permᴰ xs ys → is_free k xs ≡ is_free k ys
is_free-Permᴰ k Permᴰ.nil = refl
is_free-Permᴰ k (Permᴰ.cons {a} {l₁} {l₂} e p) =
    is_free-cons k a l₁ l₂ (is_free-Permᴰ k p) ∙ ap (λ x. is_free k (x ∷ l₂)) e
is_free-Permᴰ k (Permᴰ.swap {a} {b} {a'} {b'} {l} e f) =
    is_free-swap k a b l ∙ ap (λ x. is_free k (x ∷ a ∷ l)) f ∙ ap (λ x. is_free k (a' ∷ x ∷ l)) e
is_free-Permᴰ k (Permᴰ.trans p q) = is_free-Permᴰ k p ∙ is_free-Permᴰ k q

IsTidy-cons :
    (a : String × Value) (xs ys : Entries)
    → is_free a.0 xs ≡ is_free a.0 ys
    → (IsTidy (record_value xs) → IsTidy (record_value ys))
    → IsTidy (record_value (a ∷ xs))
    → IsTidy (record_value (a ∷ ys))
IsTidy-cons (k, v) xs ys same f h =
    let (free, here, rest) = parts_of k v xs h in
    entry-IsTidy k v ys (sym same ∙ free) here (f rest)

IsTidy-swap :
    (a b : String × Value) (xs : Entries)
    → IsTidy (record_value (a ∷ b ∷ xs))
    → IsTidy (record_value (b ∷ a ∷ xs))
IsTidy-swap (i, v) (j, w) xs h =
    let (free, here, h') = parts_of i v ((j, w) ∷ xs) h in
    let (free', here', rest) = parts_of j w xs h' in
    entry-IsTidy j w ((i, v) ∷ xs) (ground (arith, eq_iff i j, eq_iff j i)) here'
      (entry-IsTidy i v xs (ground (arith, eq_iff i j, eq_iff j i)) here rest)

IsTidy-Permᴰ : {xs ys : Entries} → Permᴰ xs ys → IsTidy (record_value xs) → IsTidy (record_value ys)
IsTidy-Permᴰ Permᴰ.nil h = h
IsTidy-Permᴰ (Permᴰ.cons {a} {l₁} {l₂} e p) h =
    subst (λ x. IsTidy (record_value (x ∷ l₂))) e
      (IsTidy-cons a l₁ l₂ (is_free-Permᴰ a.0 p) (IsTidy-Permᴰ p) h)
IsTidy-Permᴰ (Permᴰ.swap {a} {b} {a'} {b'} {l} e f) h =
    subst (λ x. IsTidy (record_value (a' ∷ x ∷ l))) e
      (subst (λ x. IsTidy (record_value (x ∷ a ∷ l))) f (IsTidy-swap a b l h))
IsTidy-Permᴰ (Permᴰ.trans p q) h = IsTidy-Permᴰ q (IsTidy-Permᴰ p h)

-- The record of a hash map's entries, in whatever order it gives them, if their values are tidy:
-- the map keeps one entry for each key.
pub from_iter-IsTidy :
    (I : Iteration Value)
    → IsIteration I
    → (es : Entries) → All (λ e. IsTidy e.1) es
    → IsTidy (record_value (I.arrange (from_iter es)))
unfolding from_iter tidy
from_iter-IsTidy I each es h =
    ∥∥₁_elim (Perm.symm (each (from_iter es))) (Bool-set _ _)
      λ p. IsTidy-Permᴰ p (insert_all-IsTidy [] es h refl)
