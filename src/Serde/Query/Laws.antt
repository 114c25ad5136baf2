-- ===== src/Serde/Query/Laws.antt =====
-- Which questions `Query::try_from_value` of src/dns/serde.rs asks.
pub mod Labels
pub mod Asked
pub mod Quiet
pub mod ReadBack
use mathlib.Core.List.{Mem}
use nu_plugin_dns.Prelude.{
  ℕ, ◌+◌, String, List, [], ◌∷◌, ◌++◌, map, length, length-append, length-map, All, All-append,
}
use nu_plugin_dns.Prelude.{
  Bool, true, false, ok, err, panic, map_err, collect_map, ok_or, ◌>>=◌, >>=-eq-ok, ok-injective,
}
use nu_plugin_dns.Prelude.{Bool-cases, inl, inr, ◌≡◌, refl, sym, ap, ◌∙◌, arith, if◌then◌else◌}
use nu_plugin_dns.Prelude.Outcome.{Res}
use nu_plugin_dns.Nu.{Value, Items, nil, cons, Span, span_of, of_items}
use nu_plugin_dns.Nu.Protocol.{NuProtocol}
use nu_plugin_dns.Std.Bytes.{Endian}
use nu_plugin_dns.Constants.Columns
use nu_plugin_dns.Serde.Parse.{rtype_try_from}
use nu_plugin_dns.Hickory.{Hickory}
use nu_plugin_dns.Hickory.Message.{Query}
use nu_plugin_dns.Config.{Config}
use nu_plugin_dns.Serde.Query.{
  name_err, label, record_name, record_class, must_have_col_err, all_labels, queries_for,
  record_query, string_queries, label_queries, try_from_value, try_from_items,
}

-- How many questions an input asks: a record one, a name one for each type of the flags; a list
-- whose items can all stand for labels is one name, any other list asks what its items ask.
mutual
  pub asked : ℕ → Value → ℕ
  asked types (Value.rec _ _) = 1
  asked types (Value.string _ _) = types
  asked types (Value.list vals _) = if all_labels vals then types else asked_items types vals
  asked types _ = 0

  pub asked_items : ℕ → Items → ℕ
  asked_items types nil = 0
  asked_items types (cons v vs) = asked types v + asked_items types vs

module _ (H : Hickory) (N : NuProtocol) (order : Endian) (config : Config H) where
  length-queries_for :
      (name : H.Name) → length (queries_for H N order config name) ≡ length config.qtypes.item
  unfolding queries_for
  length-queries_for name = length-map config.qtypes.item _

  length-string_queries :
      (val : String) (span : Span) {qs : List (Query H)}
      → string_queries H N order config val span ≡ ok qs
      → length qs ≡ length config.qtypes.item
  unfolding string_queries
  length-string_queries val span e =
      let parsed = map_err (name_err "Error parsing name: " span) (H.name_from_utf8 val) in
      let (name, _, same) = >>=-eq-ok parsed _ e in
      ap length (sym (ok-injective same)) ∙ length-queries_for name

  length-label_queries :
      (vals : Items) (span : Span) {qs : List (Query H)}
      → label_queries H N order config vals span ≡ ok qs
      → length qs ≡ length config.qtypes.item
  unfolding label_queries
  length-label_queries vals span e =
      let (labels, _, rest) = >>=-eq-ok (collect_map (label order) (of_items vals)) _ e in
      let parsed =
        map_err (name_err "Error parsing into name: " span) (H.name_from_labels labels) in
      let (name, _, same) = >>=-eq-ok parsed _ rest in
      ap length (sym (ok-injective same)) ∙ length-queries_for name

  length-record_query :
      (row : Value) {qs : List (Query H)}
      → record_query H N order config row ≡ ok qs
      → length qs ≡ 1
  unfolding record_query
  length-record_query row e =
      let (name, _, rest₁) = >>=-eq-ok (record_name H N order config row) _ e in
      let col =
        ok_or (N.get_data_by_key row Columns.type)
          (must_have_col_err H N order config (span_of row) Columns.type) in
      let (type, _, rest₂) = >>=-eq-ok col _ rest₁ in
      let (qtype, _, rest₃) = >>=-eq-ok (rtype_try_from H N type) _ rest₂ in
      let (class, _, same) =
        >>=-eq-ok (record_class H N order config (N.get_data_by_key row Columns.class)) _ rest₃ in
      ap length (sym (ok-injective same))

  mutual
    unfolding try_from_value asked

    length-value :
        (v : Value) {qs : List (Query H)}
        → try_from_value H N order config v ≡ ok qs
        → length qs ≡ asked (length config.qtypes.item) v
    length-value (Value.rec cols span) e = length-record_query _ e
    length-value (Value.string val span) e = length-string_queries val span e
    length-value (Value.list vals span) e = elim (Bool-cases (all_labels vals)) [
      | inl labels ↦ rw labels (length-label_queries vals span (rw labels at e))
      | inr mixed ↦ rw mixed (length-items vals (rw mixed at e))
    ]
    length-value _ e = cc

    length-items :
        (vs : Items) {qs : List (Query H)}
        → try_from_items H N order config vs ≡ ok qs
        → length qs ≡ asked_items (length config.qtypes.item) vs
    length-items nil e = ap length (sym (ok-injective e))
    length-items (cons v vs) e =
        let (qs, here, rest) = >>=-eq-ok (try_from_value H N order config v) _ e in
        let (more, later, same) = >>=-eq-ok (try_from_items H N order config vs) _ rest in
        ap length (sym (ok-injective same))
        ∙ omega (arith, length-append qs more, length-value v here, length-items vs later)

  -- An input that is accepted asks one question if it is a record, as many as the flags give types
  -- if it is a name or a list whose items can all stand for labels, and, for any other list, as
  -- many as its items ask together.
  pub length-try_from_value :
      (v : Value) {qs : List (Query H)}
      → try_from_value H N order config v ≡ ok qs
      → length qs ≡ asked (length config.qtypes.item) v
  length-try_from_value v e = length-value v e
