-- ===== src/Std/HashMap.antt =====
-- `HashMap` with text keys, as an association list: a later entry of a key replaces the earlier one.
-- The order in which a map is iterated is not specified: it is a parameter, a rearrangement.
use mathlib.Core.List.{Perm}
use nu_plugin_dns.Prelude.{String, List, [], ◌∷◌, Option, none, some, str_eq, if◌then◌else◌}

module _ {V : Type 0} where
  unfoldable pub lookup : String → List (String × V) → Option V
  lookup key [] = none
  lookup key ((name, value) ∷ rest) = if str_eq name key then some value else lookup key rest

  unfoldable pub insert : String → V → List (String × V) → List (String × V)
  insert key value [] = (key, value) ∷ []
  insert key value ((name, old) ∷ rest) =
      if str_eq name key then (key, value) ∷ rest else (name, old) ∷ insert key value rest

  unfoldable pub insert_all : List (String × V) → List (String × V) → List (String × V)
  insert_all entries [] = entries
  insert_all entries ((key, value) ∷ more) = insert_all (insert key value entries) more

  -- `collect::<HashMap<_, _>>()`
  unfoldable pub from_iter : List (String × V) → List (String × V)
  unfolding insert_all insert
  from_iter r = insert_all [] r

-- The order of iteration.
pub record Iteration (V : Type 0) : Type 0 where
  pub arrange : List (String × V) → List (String × V)

-- It gives each entry once.
abbrev pub IsIteration : {V : Type 0} → Iteration V → Type 0
IsIteration {V} I = (m : List (String × V)) → Perm (I.arrange m) m
