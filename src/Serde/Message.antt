-- ===== src/Serde/Message.antt =====
-- `Message`, `Header` and `Record` of src/dns/serde.rs.
pub mod Laws
pub mod Tidy
pub mod ReadBack
use nu_plugin_dns.Prelude.{ℕ, pos, as_i64, List, [], ◌∷◌, Option, none, some, length}
use nu_plugin_dns.Prelude.{if◌then◌else◌, ok, panic, collect_map, ◌>>=◌}
use nu_plugin_dns.Prelude.Outcome.{Res}
use nu_plugin_dns.Nu.{Value, Span, LabeledError, bool_value, int_value, string_value, list_value}
use nu_plugin_dns.Nu.{nothing_value, record_value, zip_record}
use nu_plugin_dns.Std.HashMap.{Iteration}
use nu_plugin_dns.Constants.Columns.{message_cols, header_cols, record_cols, code_cols}
use nu_plugin_dns.Hickory.{Hickory}
use nu_plugin_dns.Hickory.Message as Wire
use nu_plugin_dns.Hickory.Message.{Code, Query, Rdata}
use nu_plugin_dns.Hickory.Rdata.Edns.{Edns}
use nu_plugin_dns.Config.{Config}
use nu_plugin_dns.Serde.Util.{Chrono, sec_to_duration}
use nu_plugin_dns.Serde.Code.{Coded, code_to_record_u16, code_to_record_u8}
use nu_plugin_dns.Serde.Query.{query_into_value, type_coded, class_coded}
use nu_plugin_dns.Serde.Rdata.{rdata_value}
use nu_plugin_dns.Serde.Rdata.Options.{edns_value}

abbrev pub code_coded : Coded Code
code_coded = record { to_string = λ c. c.text; into = λ c. c.number }

module _ {H : Hickory} (config : Config H) where
  message_type_value : Code → Value
  message_type_value t =
      if config.code.item
      then zip_record code_cols (string_value t.text ∷ int_value (pos t.number) ∷ [])
      else string_value t.text

  -- `Header::into_value`
  unfoldable pub header_value : Wire.Header → Value
  unfolding message_type_value
  header_value header = zip_record header_cols (
      int_value (pos header.id)
      ∷ message_type_value header.message_type
      ∷ code_to_record_u8 code_coded header.op_code config
      ∷ bool_value header.authoritative
      ∷ bool_value header.truncated
      ∷ bool_value header.recursion_desired
      ∷ bool_value header.recursion_available
      ∷ bool_value header.authentic_data
      ∷ code_to_record_u16 code_coded header.response_code config
      ∷ int_value (pos header.query_count)
      ∷ int_value (pos header.answer_count)
      ∷ int_value (pos header.name_server_count)
      ∷ int_value (pos header.additional_count)
      ∷ [])

  -- The last of the questions, which `pop` gives.
  unfoldable pub question_value : List (Query H) → Value
  question_value [] = record_value []
  question_value (q ∷ []) = query_into_value q config
  question_value (_ ∷ q ∷ qs) = question_value (q ∷ qs)

  module _ (C : Chrono) (I : Iteration Value) where
    unfoldable pub data_value : Option Rdata → Res LabeledError Value
    data_value none = ok nothing_value
    data_value (some rdata) = rdata_value C I rdata

    -- `Record::into_value`
    unfoldable pub resource_value : Wire.Record H → Res LabeledError Value
    unfolding data_value
    resource_value resource = do
      rdata ← data_value resource.rdata
      ok (
          zip_record record_cols (
            string_value (H.name_to_utf8 resource.name_labels)
            ∷ code_to_record_u16 (type_coded H) resource.rr_type config
            ∷ code_to_record_u16 (class_coded H) resource.dns_class config
            ∷ sec_to_duration resource.ttl
            ∷ rdata
            ∷ []))

    -- The closure `parse_records` of `Message::into_value`
    unfoldable pub parse_records : List (Wire.Record H) → Res LabeledError Value
    parse_records records = do values ← collect_map resource_value records; ok (list_value values)

    unfoldable pub optional_edns : Option Edns → Res LabeledError Value
    optional_edns none = ok nothing_value
    optional_edns (some edns) = edns_value I edns

    -- `Message::into_value`, of a message with its bytes
    unfoldable pub message_value : Wire.Message H → List ℕ → Res LabeledError Value
    message_value message bytes = do
      let size = Value.filesize (as_i64 (length bytes)) Span.unknown
      let header = header_value message.header
      let question = question_value message.queries
      answer ← parse_records message.answers
      authority ← parse_records message.name_servers
      additional ← parse_records message.additionals
      edns ← optional_edns message.edns
      ok (
          zip_record message_cols
            (header ∷ question ∷ answer ∷ authority ∷ additional ∷ edns ∷ size ∷ []))

-- `Message::new(msg)`, with hickory's encoder as an argument: it panics if the message has no
-- encoding.
unfoldable pub new_message :
    {H : Hickory}
    → (Wire.Message H → Option (List ℕ))
    → Wire.Message H
    → Res LabeledError (Wire.Message H × List ℕ)
new_message to_bytes msg = elim (to_bytes msg) [
  | none ↦ panic "unencodable message"
  | some bytes ↦ ok (msg, bytes)
]
