-- ===== src/Serde/Rdata/Options/Tidy.antt =====
-- The values of EDNS options in src/dns/serde.rs name no column twice: the options' own record is
-- made of a hash map, in which a later option replaces an earlier one of the same name.
use nu_plugin_dns.Prelude.{String, List, [], ◌∷◌, All, arith, ◌≡◌, ok, >>=-eq-ok}
use nu_plugin_dns.Prelude.{collect_map, collect_map-Images, Images, ok-injective}
use mathlib.Core.Path.{subst}
use nu_plugin_dns.Nu.{Value}
use nu_plugin_dns.Std.HashMap.{Iteration, IsIteration}
use nu_plugin_dns.Hickory.Rdata.Edns.{EdnsCode, EdnsOption, Opt, Edns}
use nu_plugin_dns.Serde.Tidy.{
  tidy, IsTidy, GivesTidy, GivesTidy-ok, >>=-GivesTidy, strings-IsTidy, string_or_binary-IsTidy,
}
use nu_plugin_dns.Serde.Tidy.Maps.{from_iter-IsTidy}
use nu_plugin_dns.Serde.Rdata.Options.{option_value, entry, opt_value, edns_value}

option_value-GivesTidy : (o : EdnsOption) → GivesTidy (option_value o)
unfolding option_value tidy
option_value-GivesTidy (EdnsOption.dau supported) = strings-IsTidy supported
option_value-GivesTidy (EdnsOption.dhu supported) = strings-IsTidy supported
option_value-GivesTidy (EdnsOption.n3u supported) = strings-IsTidy supported
option_value-GivesTidy (EdnsOption.unknown code val) = ground (arith, string_or_binary-IsTidy val)
option_value-GivesTidy EdnsOption.other = tt

entry-IsTidy :
    (e : EdnsCode × EdnsOption) {shown : String × Value} → entry e ≡ ok shown → IsTidy shown.1
unfolding entry
entry-IsTidy (code, option) e =
    let (v, here, same) = >>=-eq-ok (option_value option) _ e in
    subst (λ (s : String × Value). IsTidy s.1) (ok-injective same)
      (GivesTidy-ok (option_value option) (option_value-GivesTidy option) here)

entries-IsTidy :
    (opt : Opt) (es : List (String × Value)) → Images entry opt es → All (λ e. IsTidy e.1) es
entries-IsTidy [] [] h = tt
entries-IsTidy (o ∷ opt) (e ∷ es) (h, hs) = (entry-IsTidy o h, entries-IsTidy opt es hs)
entries-IsTidy [] (_ ∷ _) h = absurd h
entries-IsTidy (_ ∷ _) [] h = absurd h

module _ (I : Iteration Value) (each : IsIteration I) where
  pub opt_value-GivesTidy : (opt : Opt) → GivesTidy (opt_value I opt)
  unfolding opt_value
  opt_value-GivesTidy opt =
      >>=-GivesTidy (collect_map entry opt) _
        λ es e. from_iter-IsTidy I each es (entries-IsTidy opt es (collect_map-Images entry opt e))

  pub edns_value-GivesTidy : (edns : Edns) → GivesTidy (edns_value I edns)
  unfolding edns_value tidy
  edns_value-GivesTidy edns = >>=-GivesTidy (opt_value I edns.options) _ λ opts e. ground (
    arith,
    GivesTidy-ok (opt_value I edns.options) {v = opts} (opt_value-GivesTidy edns.options) e,
  )
