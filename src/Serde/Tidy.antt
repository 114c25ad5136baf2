-- ===== src/Serde/Tidy.antt =====
-- Values in which no record names a column twice, at any depth: what Nushell expects of a record,
-- and what the conversions of src/dns/serde.rs give.
pub mod Maps
use nu_plugin_dns.Prelude.{
  String, List, [], ◌∷◌, Option, none, some, map, All, Bool, true, false, ◌&&◌, ◌≡◌, refl, arith,
}
use nu_plugin_dns.Prelude.{ℕ, ok, err, panic, ◌>>=◌, Images, Option-cases, inl, inr}
use nu_plugin_dns.Prelude.Outcome.{Res}
use mathlib.Core.Path.{subst}
use nu_plugin_dns.Std.Utf8.{from_utf8}
use nu_plugin_dns.Serde.Util.{string_or_binary}
use nu_plugin_dns.Nu.{
  LabeledError, Value, Items, nil, cons, Columns, end, column, list_value, string_value,
  record_value,
}
use nu_plugin_dns.Nu.Protocol.{get}

abbrev pub is_none : {A : Type 0} → Option A → Bool
is_none none = true
is_none (some _) = false

unfoldable mutual
  pub tidy : Value → Bool
  tidy (Value.rec cols _) = tidy_columns cols
  tidy (Value.list vals _) = tidy_items vals
  tidy _ = true

  pub tidy_items : Items → Bool
  tidy_items nil = true
  tidy_items (cons v vs) = tidy v && tidy_items vs

  pub tidy_columns : Columns → Bool
  tidy_columns end = true
  tidy_columns (column k v r) = is_none (get k r) && (tidy v && tidy_columns r)

abbrev pub IsTidy : Value → Type 0
IsTidy v = tidy v ≡ true

pub list_value-IsTidy : (vs : List Value) → All IsTidy vs → IsTidy (list_value vs)
unfolding tidy
list_value-IsTidy [] h = refl
list_value-IsTidy (v ∷ vs) (h, hs) = ground (arith, list_value-IsTidy vs hs)

pub strings-IsTidy : (ts : List String) → IsTidy (list_value (map string_value ts))
unfolding tidy
strings-IsTidy [] = refl
strings-IsTidy (t ∷ ts) = strings-IsTidy ts

-- A conversion that gives a value gives a tidy one.
abbrev pub GivesTidy : Res LabeledError Value → Type 0
GivesTidy (ok v) = IsTidy v
GivesTidy (err _) = Unit
GivesTidy (panic _) = Unit

pub >>=-GivesTidy :
    {A : Type 0} (m : Res LabeledError A) (f : A → Res LabeledError Value)
    → ((a : A) → m ≡ ok a → GivesTidy (f a))
    → GivesTidy (m >>= f)
>>=-GivesTidy (ok a) f h = h a refl
>>=-GivesTidy (err e) f h = tt
>>=-GivesTidy (panic m) f h = tt

pub GivesTidy-ok : (m : Res LabeledError Value) {v : Value} → GivesTidy m → m ≡ ok v → IsTidy v
GivesTidy-ok m h e = subst GivesTidy e h

pub Images-IsTidy :
    {A : Type 0} (f : A → Res LabeledError Value) (xs : List A) (vs : List Value)
    → All (λ x. GivesTidy (f x)) xs
    → Images f xs vs
    → All IsTidy vs
Images-IsTidy f [] [] h i = tt
Images-IsTidy f (x ∷ xs) (v ∷ vs) (h, hs) (i, is) =
    (GivesTidy-ok (f x) h i, Images-IsTidy f xs vs hs is)
Images-IsTidy f [] (_ ∷ _) h i = absurd i
Images-IsTidy f (_ ∷ _) [] h i = absurd i

pub string_or_binary-IsTidy : (bytes : List ℕ) → IsTidy (string_or_binary bytes)
unfolding string_or_binary tidy
string_or_binary-IsTidy bytes = elim (Option-cases (from_utf8 bytes)) [
  | inl e ↦ rw (e, string_or_binary)
  | inr (text, e) ↦ rw (e, string_or_binary)
]
