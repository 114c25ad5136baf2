-- ===== src/Serde/Query.antt =====
-- `Query` of src/dns/serde.rs: a question as a value, and the questions that an input value asks.
pub mod Laws
use nu_plugin_dns.Prelude.{ℕ, zero, suc, ℤ, String, ◌<>◌, List, [], ◌∷◌, ◌++◌, map, Option, ◌==◌}
use nu_plugin_dns.Prelude.{Bool, true, false, ◌&&◌, if◌then◌else◌}
use nu_plugin_dns.Prelude.{ok, err, map_err, collect_map, ok_or, ◌>>=◌}
use nu_plugin_dns.Prelude.Outcome.{Res}
use nu_plugin_dns.Nu.{Value, Items, nil, cons, of_items, Columns, string_value, zip_record}
use nu_plugin_dns.Nu.{Span, span_of, LabeledError, labeled}
use nu_plugin_dns.Nu.Protocol.{NuProtocol}
use nu_plugin_dns.Std.Bytes.{Endian, to_ne_bytes}
use nu_plugin_dns.Constants.Columns
use nu_plugin_dns.Hickory.{Hickory}
use nu_plugin_dns.Hickory.Message.{Query}
use nu_plugin_dns.Config.{Config}
use nu_plugin_dns.Serde.Code.{Coded, code_to_record_u16}
use nu_plugin_dns.Serde.Parse.{rtype_try_from, class_try_from}

abbrev pub type_coded : (H : Hickory) → Coded H.RecordType
type_coded H = record { to_string = H.record_type_to_string; into = H.record_type_to_u16 }

abbrev pub class_coded : (H : Hickory) → Coded H.DnsClass
class_coded H = record { to_string = H.class_to_string; into = H.class_to_u16 }

-- `Query::into_value`
unfoldable pub query_into_value : {H : Hickory} → Query H → Config H → Value
unfolding code_to_record_u16
query_into_value {H} query config = zip_record Columns.query_cols (
    string_value (H.name_to_utf8 query.name)
    ∷ code_to_record_u16 (type_coded H) query.query_type config
    ∷ code_to_record_u16 (class_coded H) query.query_class config
    ∷ [])

-- `&bytes[bytes.iter().position(|n| *n != 0).unwrap_or(bytes.len() - 1)..]`
unfoldable pub skip_zeros : List ℕ → List ℕ
skip_zeros [] = []
skip_zeros (b ∷ []) = b ∷ []
skip_zeros (b ∷ c ∷ bs) = let rest = skip_zeros (c ∷ bs) in if b == 0 then rest else b ∷ c ∷ bs

-- The `matches!` of the list branch: a value that can stand for a label.
abbrev pub is_label : Value → Bool
is_label (Value.binary _ _) = true
is_label (Value.int _ _) = true
is_label (Value.bool _ _) = true
is_label (Value.nothing _) = true
is_label _ = false

abbrev pub all_labels : Items → Bool
all_labels nil = true
all_labels (cons v vs) = is_label v && all_labels vs

unfoldable pub label : Endian → Value → Res LabeledError (List ℕ)
label order (Value.binary val _) = ok val
label order (Value.int val _) = ok (skip_zeros (to_ne_bytes order val))
label order (Value.bool true _) = ok (1 ∷ [])
label order (Value.bool false _) = ok (0 ∷ [])
label order (Value.nothing _) = ok (0 ∷ [])
label order val = err (labeled "invalid name" "Invalid input type for name" (span_of val))

-- The error for a text or labels that are no name, `what` saying what was tried.
abbrev pub name_err : String → Span → String → LabeledError
name_err what span e = labeled "invalid name" (what <> e) span

module _ (H : Hickory) (N : NuProtocol) (order : Endian) (config : Config H) where
  -- One question for each type that the flags give.
  unfoldable pub queries_for : H.Name → List (Query H)
  queries_for name =
      map
        (λ qtype. record { name = name; query_type = qtype.item; query_class = config.class.item })
        config.qtypes.item

  must_have_col_err : Span → String → LabeledError
  must_have_col_err span col =
      labeled "invalid input" ("Record must have a column named '" <> col <> "'") span

  record_name : Value → Res LabeledError H.Name
  unfolding must_have_col_err
  record_name row = do
    let span = span_of row
    col ← ok_or (N.get_data_by_key row Columns.name) (must_have_col_err span Columns.name)
    text ←
        map_err (λ e. labeled "invalid value" ("Could not convert value to String: " <> e) span)
          (N.string_from_value col)
    map_err (name_err "Could not convert string to name: " span) (H.name_from_utf8 text)

  -- `map(DNSClass::try_from).unwrap_or(Ok(IN))`
  record_class : Option Value → Res LabeledError H.DnsClass
  record_class (Option.some val) = class_try_from H N val
  record_class Option.none = ok H.class_in

  unfoldable pub record_query : Value → Res LabeledError (List (Query H))
  unfolding record_name record_class must_have_col_err
  record_query row = do
    name ← record_name row
    col ← ok_or (N.get_data_by_key row Columns.type) (must_have_col_err (span_of row) Columns.type)
    qtype ← rtype_try_from H N col
    class ← record_class (N.get_data_by_key row Columns.class)
    ok (record { name = name; query_type = qtype; query_class = class } ∷ [])

  unfoldable pub string_queries : String → Span → Res LabeledError (List (Query H))
  unfolding queries_for
  string_queries val span = do
    name ← map_err (name_err "Error parsing name: " span) (H.name_from_utf8 val)
    ok (queries_for name)

  unfoldable pub label_queries : Items → Span → Res LabeledError (List (Query H))
  unfolding queries_for label skip_zeros to_ne_bytes
  label_queries vals span = do
    labels ← collect_map (label order) (of_items vals)
    name ← map_err (name_err "Error parsing into name: " span) (H.name_from_labels labels)
    ok (queries_for name)

  -- `Query::try_from_value`, and its recursion over a list that holds more than labels.
  unfoldable mutual
    pub try_from_value : Value → Res LabeledError (List (Query H))
    try_from_value (Value.rec cols span) = record_query (Value.rec cols span)
    try_from_value (Value.string val span) = string_queries val span
    try_from_value (Value.list vals span) =
        let each = try_from_items vals in if all_labels vals then label_queries vals span else each
    try_from_value val = err (
        labeled "invalid input type"
          ("could not convert input to a DNS record name: " <> N.debug val) (span_of val))

    pub try_from_items : Items → Res LabeledError (List (Query H))
    try_from_items nil = ok []
    try_from_items (cons v vs) = do qs ← try_from_value v; rest ← try_from_items vs; ok (qs ++ rest)
