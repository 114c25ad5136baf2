-- ===== src/Serde/Rdata/Options/Laws.antt =====
-- When `Opt::into_value` and `Edns::into_value` of src/dns/serde.rs give a value.
use nu_plugin_dns.Prelude.{[], ◌∷◌, ◌++◌, All, panic}
use nu_plugin_dns.Prelude.{
  Succeeds, >>=-Succeeds, >>=-of_panic, collect_map, collect_map-Succeeds, collect_map-panic, ◌≡◌,
  refl,
}
use nu_plugin_dns.Nu.{Value}
use nu_plugin_dns.Std.HashMap.{Iteration}
use nu_plugin_dns.Hickory.Rdata.Edns.{EdnsCode, EdnsOption, Opt, Edns}
use nu_plugin_dns.Serde.Rdata.Options.{entry, opt_value, edns_value}

-- An option of a variant that the code has an arm for.
abbrev pub IsSupported : EdnsCode × EdnsOption → Type 0
IsSupported (_, EdnsOption.other) = ⊥
IsSupported (_, EdnsOption.dau _) = Unit
IsSupported (_, EdnsOption.dhu _) = Unit
IsSupported (_, EdnsOption.n3u _) = Unit
IsSupported (_, EdnsOption.unknown _ _) = Unit

entry-Succeeds : (o : EdnsCode × EdnsOption) → IsSupported o → Succeeds (entry o)
unfolding entry
entry-Succeeds (c, EdnsOption.other) h = absurd h
entry-Succeeds (c, EdnsOption.dau _) h = (_, refl)
entry-Succeeds (c, EdnsOption.dhu _) h = (_, refl)
entry-Succeeds (c, EdnsOption.n3u _) h = (_, refl)
entry-Succeeds (c, EdnsOption.unknown _ _) h = (_, refl)

entries-Succeeds : (o : Opt) → All IsSupported o → All (λ e. Succeeds (entry e)) o
entries-Succeeds [] _ = tt
entries-Succeeds (e ∷ o) (h, hs) = (entry-Succeeds e h, entries-Succeeds o hs)

module _ (I : Iteration Value) where
  pub opt_value-Succeeds : (o : Opt) → All IsSupported o → Succeeds (opt_value I o)
  unfolding opt_value
  opt_value-Succeeds o h =
      >>=-Succeeds (collect_map entry o) _ (collect_map-Succeeds entry o (entries-Succeeds o h))
        (λ es. (_, refl))

  -- The EDNS part of a message has a value if each option is of a variant that the code has an arm
  -- for.
  pub edns_value-Succeeds : (e : Edns) → All IsSupported e.options → Succeeds (edns_value I e)
  unfolding edns_value
  edns_value-Succeeds e h =
      >>=-Succeeds (opt_value I e.options) _ (opt_value-Succeeds e.options h) (λ v. (_, refl))

  opt_value-panic :
      (before after : Opt) (code : EdnsCode)
      → All IsSupported before
      → opt_value I (before ++ (code, EdnsOption.other) ∷ after) ≡ panic "not yet implemented"
  unfolding opt_value entry
  opt_value-panic before after code h =
      >>=-of_panic (collect_map entry (before ++ (code, EdnsOption.other) ∷ after)) _ (
        collect_map-panic entry before after (code, EdnsOption.other) "not yet implemented"
          (entries-Succeeds before h) refl)

  -- Any other variant, such as a client subnet, makes the conversion panic, wherever it stands.
  pub edns_value-panic :
      (e : Edns) (before after : Opt) (code : EdnsCode)
      → e.options ≡ before ++ (code, EdnsOption.other) ∷ after
      → All IsSupported before
      → edns_value I e ≡ panic "not yet implemented"
  unfolding edns_value
  edns_value-panic e before after code same h =
      >>=-of_panic (opt_value I e.options) _ (rw same (opt_value-panic before after code h))
