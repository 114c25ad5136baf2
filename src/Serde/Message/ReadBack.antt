-- ===== src/Serde/Message/ReadBack.antt =====
-- What a reader of the table can find out about a message that `Message::into_value` of
-- src/dns/serde.rs shows with `--code`. The readers look columns up by their names.
use nu_plugin_dns.Prelude.{ℕ, ◌/◌, ◌^◌, ◌<◌, pos, Bool, true, String, List, [], ◌∷◌, map, All}
use nu_plugin_dns.Prelude.{
  Option, none, some, ok, err, ◌>>=◌, >>=-eq-ok, >>=-of_ok, ok-injective, collect_map,
}
use nu_plugin_dns.Prelude.{◌≡◌, refl, ap, ◌∙◌, arith, Images}
use mathlib.Core.Path.{subst}
use nu_plugin_dns.Prelude.Outcome.{Res}
use nu_plugin_dns.Nu.{Value, of_items, to_items, list_value}
use nu_plugin_dns.Std.HashMap.{Iteration}
use nu_plugin_dns.Hickory.{Hickory}
use nu_plugin_dns.Hickory.Message as Wire
use nu_plugin_dns.Hickory.Message.{Code}
use nu_plugin_dns.Config.{Config}
use nu_plugin_dns.Serde.Util.{Chrono, sec_to_duration}
use nu_plugin_dns.Serde.Util.Laws.{sec_to_duration-u32}
use nu_plugin_dns.Serde.Code.{Coded, code_to_record_u16, code_to_record_u8}
use nu_plugin_dns.Serde.Query.{type_coded, class_coded}
use nu_plugin_dns.Serde.Message.{
  header_value, message_type_value, data_value, resource_value, message_value,
}
use nu_plugin_dns.Serde.Message.Laws.{value_at, message_value-Shows}

-- A resource record without its data, as a reader sees it.
pub record Entry : Type 0 where
  pub name : String
  pub type : Code
  pub class : Code
  pub ttl : ℕ

pub record Outline : Type 0 where
  pub header : Wire.Header
  pub answers : List Entry
  pub authorities : List Entry
  pub additionals : List Entry

abbrev required : Option Value → Res String Value
required none = err "no such column"
required (some v) = ok v

-- The value of the column of that name.
abbrev at : String → Value → Res String Value
at k v = required (value_at k v)

abbrev read_number : Value → Res String ℕ
read_number (Value.int (pos n) _) = ok n
read_number _ = err "not a number"

abbrev read_flag : Value → Res String Bool
read_flag (Value.bool b _) = ok b
read_flag _ = err "not a flag"

abbrev read_text : Value → Res String String
read_text (Value.string t _) = ok t
read_text _ = err "not a text"

-- A duration in seconds.
abbrev read_seconds : Value → Res String ℕ
read_seconds (Value.duration (pos n) _) = ok (n / 10 ^ 9)
read_seconds _ = err "not a duration"

abbrev read_code : Value → Res String Code
read_code v = do
  text ← at "name" v >>= read_text
  number ← at "code" v >>= read_number
  ok (record { text = text; number = number })

abbrev read_header : Value → Res String Wire.Header
read_header v = do
  id ← at "id" v >>= read_number
  message_type ← at "message_type" v >>= read_code
  op_code ← at "op_code" v >>= read_code
  authoritative ← at "authoritative" v >>= read_flag
  truncated ← at "truncated" v >>= read_flag
  recursion_desired ← at "recursion_desired" v >>= read_flag
  recursion_available ← at "recursion_available" v >>= read_flag
  authentic_data ← at "authentic_data" v >>= read_flag
  response_code ← at "response_code" v >>= read_code
  query_count ← at "query_count" v >>= read_number
  answer_count ← at "answer_count" v >>= read_number
  name_server_count ← at "name_server_count" v >>= read_number
  additional_count ← at "additional_count" v >>= read_number
  ok (record {
    id = id;
    message_type = message_type;
    op_code = op_code;
    authoritative = authoritative;
    truncated = truncated;
    recursion_desired = recursion_desired;
    recursion_available = recursion_available;
    authentic_data = authentic_data;
    response_code = response_code;
    query_count = query_count;
    answer_count = answer_count;
    name_server_count = name_server_count;
    additional_count = additional_count;
  })

abbrev read_entry : Value → Res String Entry
read_entry v = do
  name ← at "name" v >>= read_text
  type ← at "type" v >>= read_code
  class ← at "class" v >>= read_code
  ttl ← at "ttl" v >>= read_seconds
  ok (record { name = name; type = type; class = class; ttl = ttl })

abbrev read_section : Value → Res String (List Entry)
read_section (Value.list vs _) = collect_map read_entry (of_items vs)
read_section _ = err "not a table"

abbrev pub read_outline : Value → Res String Outline
read_outline v = do
  header ← at "header" v >>= read_header
  answers ← at "answer" v >>= read_section
  authorities ← at "authority" v >>= read_section
  additionals ← at "additional" v >>= read_section
  ok (record {
    header = header;
    answers = answers;
    authorities = authorities;
    additionals = additionals;
  })

abbrev code_of : {A : Type 0} → Coded A → A → Code
code_of coded c = record { text = coded.to_string c; number = coded.into c }

of_items-to_items : (vs : List Value) → of_items (to_items vs) ≡ vs
of_items-to_items [] = refl
of_items-to_items (v ∷ vs) = ap (λ ws. v ∷ ws) (of_items-to_items vs)

module _ {H : Hickory} where
  abbrev entry_of : Wire.Record H → Entry
  entry_of r = record {
    name = H.name_to_utf8 r.name_labels;
    type = code_of (type_coded H) r.rr_type;
    class = code_of (class_coded H) r.dns_class;
    ttl = r.ttl;
  }

  abbrev pub outline_of : Wire.Message H → Outline
  outline_of m = record {
    header = m.header;
    answers = map entry_of m.answers;
    authorities = map entry_of m.name_servers;
    additionals = map entry_of m.additionals;
  }

  -- The times to live of a message are u32s.
  abbrev pub HasTtls : Wire.Message H → Type 0
  HasTtls m =
      All (λ r. r.ttl < 2 ^ 32) m.answers
      × All (λ r. r.ttl < 2 ^ 32) m.name_servers
      × All (λ r. r.ttl < 2 ^ 32) m.additionals

  module _ (config : Config H) (C : Chrono) (I : Iteration Value)
      (on : config.code.item ≡ true) where
    read_header-header_value : (h : Wire.Header) → read_header (header_value config h) ≡ ok h
    unfolding header_value code_to_record_u8 code_to_record_u16 message_type_value
    read_header-header_value h = rw (on, code_to_record_u8, code_to_record_u16, message_type_value)

    read_code-code_to_record_u16 :
        {A : Type 0} (coded : Coded A) (c : A)
        → read_code (code_to_record_u16 coded c config) ≡ ok (code_of coded c)
    unfolding code_to_record_u16
    read_code-code_to_record_u16 coded c = rw (on, code_to_record_u16)

    -- The number of seconds is a u32.
    read_seconds-sec_to_duration :
        (sec : ℕ) → sec < 2 ^ 32 → read_seconds (sec_to_duration sec) ≡ ok sec
    read_seconds-sec_to_duration sec small =
        rw (sec_to_duration-u32 sec small) (ap ok (omega arith))

    read_entry-resource_value :
        (r : Wire.Record H) {v : Value}
        → r.ttl < 2 ^ 32
        → resource_value config C I r ≡ ok v
        → read_entry v ≡ ok (entry_of r)
    unfolding resource_value
    read_entry-resource_value r small e =
        let (rdata, _, same) = >>=-eq-ok (data_value config C I r.rdata) _ e in
        subst (λ v. read_entry v ≡ ok (entry_of r)) (ok-injective same)
          (rw (
            read_code-code_to_record_u16 (type_coded H) r.rr_type,
            read_code-code_to_record_u16 (class_coded H) r.dns_class,
            read_seconds-sec_to_duration r.ttl small,
          ))

    read_entries :
        (rs : List (Wire.Record H)) (vs : List Value)
        → All (λ r. r.ttl < 2 ^ 32) rs
        → Images (resource_value config C I) rs vs
        → collect_map read_entry vs ≡ ok (map entry_of rs)
    read_entries [] [] _ _ = refl
    read_entries [] (v ∷ vs) _ e = absurd e
    read_entries (r ∷ rs) [] _ e = absurd e
    read_entries (r ∷ rs) (v ∷ vs) (small, h) (e, es) =
        >>=-of_ok (read_entry v) _ (read_entry-resource_value r small e)
        ∙ >>=-of_ok (collect_map read_entry vs) _ (read_entries rs vs h es)

    read_shown :
        (k : String) (v : Value) (rs : List (Wire.Record H)) (vs : List Value)
        → All (λ r. r.ttl < 2 ^ 32) rs
        → Images (resource_value config C I) rs vs
        → value_at k v ≡ some (list_value vs)
        → (at k v >>= read_section) ≡ ok (map entry_of rs)
    read_shown k v rs vs small es e = rw (e, of_items-to_items vs) (read_entries rs vs small es)

    -- With `--code` a reader that looks columns up by their names gets back, from the value of a
    -- message, the message's whole header and, in each of the three sections and in their order, each
    -- record's name as printed, type, class and time to live, if the times to live are u32s.
    pub read_outline-message_value :
        (m : Wire.Message H) (bytes : List ℕ) {v : Value}
        → HasTtls m
        → message_value config C I m bytes ≡ ok v
        → read_outline v ≡ ok (outline_of m)
    read_outline-message_value m bytes {v} (h₁, h₂, h₃) e =
        let s = message_value-Shows config C I m bytes e in
        rw (
          s.header_at,
          read_header-header_value m.header,
          read_shown "answer" v m.answers s.answers h₁ s.answers_of s.answer_at,
          read_shown "authority" v m.name_servers s.authorities h₂ s.authorities_of s.authority_at,
          read_shown "additional" v m.additionals s.additionals h₃ s.additionals_of s.additional_at,
        )
