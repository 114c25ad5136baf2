-- ===== src/Config/Laws/Sources.antt =====
-- Where the settings come from: the command line before the plugin's configuration, a record's
-- columns, the system's name servers (src/dns/config.rs).
use mathlib.Core.Path.{fun_ext}
use nu_plugin_dns.Prelude.{String, List, [], ◌∷◌, Bool, false, Option, none, some}
use nu_plugin_dns.Prelude.{>>=-of_ok, ◌≡◌, refl, sym, ap, ◌∙◌, ◌||◌, arith, eq_iff, str_eq}
use nu_plugin_dns.Nu.{Value, Columns, to_columns, Span}
use nu_plugin_dns.Nu.Protocol.{NuProtocol, IsLawful, get}
use nu_plugin_dns.Constants.Flags
use nu_plugin_dns.Hickory.{Hickory}
use nu_plugin_dns.Config.Settings.{System}
use nu_plugin_dns.Config.FromValues.{
  EvaluatedCall, from_values, try_from_value, call_value, choose, nu_value, from_nu,
}
use nu_plugin_dns.Config.Answers.{
  answers, answers_of, settle, from_values-settle, from_values-answers_of,
}

-- The column of a plugin configuration, which may be missing.
abbrev pub config_column : NuProtocol → Option Value → String → Option Value
config_column N none name = N.get_data_by_key (Value.rec (to_columns []) Span.unknown) name
config_column N (some cfg) name = N.get_data_by_key cfg name

module _ (H : Hickory) (N : NuProtocol) (sys : System) where
  nu_value-choose :
      (plugin_config : Option Value) (call : EvaluatedCall) (name : String)
      → nu_value H N sys plugin_config call name
        ≡ choose H N sys (config_column N plugin_config name) (call_value H N sys call name)
  unfolding nu_value
  nu_value-choose none call name = refl
  nu_value-choose (some cfg) call name = refl

  choose-agree :
      (a b c : Option Value) → (c ≡ none → a ≡ b) → choose H N sys a c ≡ choose H N sys b c
  unfolding choose
  choose-agree a b none h = h refl
  choose-agree a b (some v) h = refl

  -- The command line goes before the plugin's configuration: two configurations that agree on the
  -- flags that the call leaves out lead to the same settings, whatever else they hold.
  pub from_nu-agree :
      (p q : Option Value) (call : EvaluatedCall)
      → ((name : String)
          → call_value H N sys call name ≡ none
          → config_column N p name ≡ config_column N q name)
      → from_nu H N sys p call ≡ from_nu H N sys q call
  unfolding from_nu
  from_nu-agree p q call h =
      let same : (name : String) → nu_value H N sys p call name ≡ nu_value H N sys q call name =
        λ name.
          nu_value-choose p call name
          ∙ choose-agree _ _ (call_value H N sys call name) (h name)
          ∙ sym (nu_value-choose q call name) in
      ap (λ f. from_values H N sys (λ s name. (f name, s)) tt) (fun_ext same)

  -- The record without some columns.
  remove_all : List String → Columns → Columns
  remove_all [] r = r
  remove_all (k ∷ ks) r = remove_all ks (N.remove r k).1

  contains : List String → String → Bool
  contains [] j = false
  contains (k ∷ ks) j = str_eq j k || contains ks j

  get-remove_all :
      IsLawful N
      → (ks : List String) (r : Columns) (j : String) → contains ks j ≡ false
      → get j (remove_all ks r) ≡ get j r
  unfolding remove_all contains
  get-remove_all L [] r j h = refl
  get-remove_all L (k ∷ ks) r j h =
      get-remove_all L ks (N.remove r k).1 j (ground arith)
      ∙ L.remove_other r k j (λ e. ground (arith, eq_iff j k))

  removed :
      IsLawful N
      → (ks : List String) (r : Columns) (j : String) → contains ks j ≡ false
      → (N.remove (remove_all ks r) j).0 ≡ get j r
  removed L ks r j h = L.remove_self (remove_all ks r) j ∙ get-remove_all L ks r j h

  answers-remove : IsLawful N → (r : Columns) → answers N.remove r ≡ answers_of (λ name. get name r)
  unfolding answers answers_of remove_all contains
  answers-remove L r = λ i. record {
    protocol = removed L [] r Flags.protocol refl i;
    dns_name = removed L (Flags.protocol ∷ []) r Flags.dns_name refl i;
    server = removed L (Flags.protocol ∷ Flags.dns_name ∷ []) r Flags.server refl i;
    types = removed L (Flags.protocol ∷ Flags.dns_name ∷ Flags.server ∷ []) r Flags.type refl i;
    class =
        removed L (Flags.protocol ∷ Flags.dns_name ∷ Flags.server ∷ Flags.type ∷ []) r Flags.class
          refl i;
    code =
        removed L (Flags.protocol ∷ Flags.dns_name ∷ Flags.server ∷ Flags.type ∷ Flags.class ∷ []) r
          Flags.code refl i;
    dnssec =
        removed L
          (Flags.protocol ∷ Flags.dns_name ∷ Flags.server ∷ Flags.type ∷ Flags.class ∷ Flags.code
            ∷ [])
          r Flags.dnssec refl i;
    tasks =
        removed L
          (Flags.protocol ∷ Flags.dns_name ∷ Flags.server ∷ Flags.type ∷ Flags.class ∷ Flags.code
            ∷ Flags.dnssec ∷ [])
          r Flags.tasks refl i;
    timeout =
        removed L
          (Flags.protocol ∷ Flags.dns_name ∷ Flags.server ∷ Flags.type ∷ Flags.class ∷ Flags.code
            ∷ Flags.dnssec ∷ Flags.tasks ∷ [])
          r Flags.timeout refl i;
  }

  -- A record as a configuration: though each column is taken out of it as it is read, the settings
  -- are those of looking each flag up in the whole record, if Nushell's calls on records are
  -- lawful.
  pub try_from_value-get :
      IsLawful N
      → (r : Columns) (span : Span)
      → try_from_value H N sys (Value.rec r span)
        ≡ from_values H N sys (λ s name. (get name r, s)) tt
  unfolding try_from_value
  try_from_value-get L r span =
      >>=-of_ok (N.into_record (Value.rec r span)) _ (L.into_record-rec r span)
      ∙ from_values-settle H N sys N.remove r
      ∙ ap (settle H N sys) (answers-remove L r)
      ∙ sym (from_values-answers_of H N sys (λ name. get name r) tt)
