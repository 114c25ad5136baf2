-- ===== src/Serde/Query/Laws/Quiet.antt =====
-- The panics that `Query::try_from_value` of src/dns/serde.rs can pass on.
use nu_plugin_dns.Prelude.{ℕ, String, List, Option, none, some, Bool-cases, inl, inr, true, false}
use nu_plugin_dns.Prelude.{
  IsQuiet, ok-IsQuiet, >>=-IsQuiet, map_err-IsQuiet, ok_or-IsQuiet, collect_map-IsQuiet,
}
use nu_plugin_dns.Prelude.{map_err, ok_or, collect_map}
use nu_plugin_dns.Nu.{Value, Items, nil, cons, Span, of_items}
use nu_plugin_dns.Nu.Protocol.{NuProtocol}
use nu_plugin_dns.Std.Bytes.{Endian}
use nu_plugin_dns.Constants.Columns
use nu_plugin_dns.Hickory.{Hickory}
use nu_plugin_dns.Config.{Config}
use nu_plugin_dns.Serde.Parse.{rtype_try_from}
use nu_plugin_dns.Serde.Parse.Laws.{rtype_try_from-IsQuiet, class_try_from-IsQuiet}
use nu_plugin_dns.Serde.Query.{
  label, all_labels, record_name, record_class, record_query, string_queries, label_queries,
  try_from_value, try_from_items,
}

-- The parsers of hickory and Nushell fail by an error, not by a panic.
pub record HasQuietParsers (H : Hickory) (N : NuProtocol) : Type 0 where
  pub name_from_utf8_ne : (t : String) → IsQuiet (H.name_from_utf8 t)
  pub name_from_labels_ne : (ls : List (List ℕ)) → IsQuiet (H.name_from_labels ls)
  pub record_type_from_str_ne : (t : String) → IsQuiet (H.record_type_from_str t)
  pub class_from_str_ne : (t : String) → IsQuiet (H.class_from_str t)
  pub string_from_value_ne : (v : Value) → IsQuiet (N.string_from_value v)

module _ (H : Hickory) (N : NuProtocol) (order : Endian) (config : Config H)
    (quiet : HasQuietParsers H N) where
  label-IsQuiet : (v : Value) → IsQuiet (label order v)
  unfolding label
  label-IsQuiet (Value.bool true _) = λ s p. cc
  label-IsQuiet (Value.bool false _) = λ s p. cc
  label-IsQuiet _ = λ s p. cc

  record_name-IsQuiet : (row : Value) → IsQuiet (record_name H N order config row)
  unfolding record_name
  record_name-IsQuiet row =
      >>=-IsQuiet (ok_or (N.get_data_by_key row Columns.name) _) _ (ok_or-IsQuiet _ _) λ col.
        >>=-IsQuiet (map_err _ (N.string_from_value col)) _
          (map_err-IsQuiet _ _ (quiet.string_from_value_ne col))
          λ text. map_err-IsQuiet _ _ (quiet.name_from_utf8_ne text)

  record_class-IsQuiet : (o : Option Value) → IsQuiet (record_class H N order config o)
  unfolding record_class
  record_class-IsQuiet none = λ s p. cc
  record_class-IsQuiet (some v) = class_try_from-IsQuiet H N quiet.class_from_str_ne v

  record_query-IsQuiet : (row : Value) → IsQuiet (record_query H N order config row)
  unfolding record_query
  record_query-IsQuiet row =
      >>=-IsQuiet (record_name H N order config row) _ (record_name-IsQuiet row) λ name.
        >>=-IsQuiet (ok_or (N.get_data_by_key row Columns.type) _) _ (ok_or-IsQuiet _ _) λ col.
          >>=-IsQuiet (rtype_try_from H N col) _
            (rtype_try_from-IsQuiet H N quiet.record_type_from_str_ne col)
            λ qtype.
              >>=-IsQuiet (record_class H N order config (N.get_data_by_key row Columns.class)) _
                (record_class-IsQuiet (N.get_data_by_key row Columns.class)) λ class. ok-IsQuiet _

  string_queries-IsQuiet :
      (val : String) (span : Span) → IsQuiet (string_queries H N order config val span)
  unfolding string_queries
  string_queries-IsQuiet val span =
      >>=-IsQuiet (map_err _ (H.name_from_utf8 val)) _
        (map_err-IsQuiet _ _ (quiet.name_from_utf8_ne val)) λ name s p. cc

  label_queries-IsQuiet :
      (vals : Items) (span : Span) → IsQuiet (label_queries H N order config vals span)
  unfolding label_queries
  label_queries-IsQuiet vals span =
      >>=-IsQuiet (collect_map (label order) (of_items vals)) _
        (collect_map-IsQuiet (label order) (of_items vals) label-IsQuiet)
        λ labels.
          >>=-IsQuiet (map_err _ (H.name_from_labels labels)) _
            (map_err-IsQuiet _ _ (quiet.name_from_labels_ne labels)) λ name s p. cc

  mutual
    unfolding try_from_value

    value-IsQuiet : (v : Value) → IsQuiet (try_from_value H N order config v)
    value-IsQuiet (Value.rec cols span) = record_query-IsQuiet _
    value-IsQuiet (Value.string val span) = string_queries-IsQuiet val span
    value-IsQuiet (Value.list vals span) = elim (Bool-cases (all_labels vals)) [
      | inl labels ↦ rw labels (label_queries-IsQuiet vals span)
      | inr mixed ↦ rw mixed (items-IsQuiet vals)
    ]
    value-IsQuiet _ = λ s p. cc

    items-IsQuiet : (vs : Items) → IsQuiet (try_from_items H N order config vs)
    items-IsQuiet nil = λ s p. cc
    items-IsQuiet (cons v vs) =
        >>=-IsQuiet (try_from_value H N order config v) _ (value-IsQuiet v)
          λ qs. >>=-IsQuiet (try_from_items H N order config vs) _ (items-IsQuiet vs) λ rest s p. cc

  -- Turning an input into questions never panics, if the parsers of hickory and Nushell do not.
  pub try_from_value-IsQuiet : (v : Value) → IsQuiet (try_from_value H N order config v)
  try_from_value-IsQuiet v = value-IsQuiet v
