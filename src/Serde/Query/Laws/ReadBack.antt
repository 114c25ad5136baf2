-- ===== src/Serde/Query/Laws/ReadBack.antt =====
-- `Query::into_value` and `Query::try_from_value` of src/dns/serde.rs, one after the other.
use nu_plugin_dns.Prelude.{[], ◌∷◌, ok, err, ◌≡◌, Bool-cases, inl, inr, if◌then◌else◌}
use nu_plugin_dns.Nu.{LabeledError, labeled, Span}
use nu_plugin_dns.Nu.Protocol.{NuProtocol, IsLawful}
use nu_plugin_dns.Std.Bytes.{Endian}
use nu_plugin_dns.Hickory.{Hickory}
use nu_plugin_dns.Hickory.Message.{Query}
use nu_plugin_dns.Config.{Config}
use nu_plugin_dns.Serde.Code.{code_to_record_u16}
use nu_plugin_dns.Serde.Parse.{rtype_try_from, class_try_from}
use nu_plugin_dns.Serde.Query.{query_into_value, record_query, try_from_value}

-- The parsers of hickory read what it prints of the question's name, type and class.
pub record IsReadBack (H : Hickory) (N : NuProtocol) (q : Query H) : Type 0 where
  pub name_lem : H.name_from_utf8 (H.name_to_utf8 q.name) ≡ ok q.name
  pub type_lem :
      H.record_type_from_str (N.to_uppercase (H.record_type_to_string q.query_type))
      ≡ ok q.query_type
  pub class_lem :
      H.class_from_str (N.to_uppercase (H.class_to_string q.query_class)) ≡ ok q.query_class

abbrev not_a_type : LabeledError
not_a_type =
    labeled "invalid record type"
      "Invalid type for record type argument. Must be either string or int." Span.unknown

-- A question that is shown and given back as an input, with any flags of the second call, asks that
-- question and no other if it was shown without codes, and is refused for its type if it was shown
-- with codes; hickory reads what it prints.
pub try_from_value-query_into_value :
    (H : Hickory) (N : NuProtocol)
    → IsLawful N
    → (q : Query H) → IsReadBack H N q
    → (order : Endian) (shown asked : Config H)
    → try_from_value H N order asked (query_into_value q shown)
      ≡ (if shown.code.item then err not_a_type else ok (q ∷ []))
unfolding try_from_value record_query query_into_value code_to_record_u16 rtype_try_from
    class_try_from
try_from_value-query_into_value H N law q back order shown asked =
    elim (Bool-cases shown.code.item) [
      | inl coded ↦ rw (
        coded, law.get_data_by_key-rec, law.string_from_value-string, back.name_lem,
        law.get_data_by_key-rec,
      )
      | inr plain ↦ rw (
        plain, law.get_data_by_key-rec, law.string_from_value-string, back.name_lem,
        law.get_data_by_key-rec, back.type_lem, law.get_data_by_key-rec, back.class_lem,
      )
    ]
