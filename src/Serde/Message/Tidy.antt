-- ===== src/Serde/Message/Tidy.antt =====
-- The value of a message in src/dns/serde.rs names no column twice, at any depth.
use nu_plugin_dns.Prelude.{ℕ, List, [], ◌∷◌, Option, none, some, Bool-cases, inl, inr, All}
use nu_plugin_dns.Prelude.{◌≡◌, refl, ok, collect_map, collect_map-Images}
use nu_plugin_dns.Nu.{Value}
use nu_plugin_dns.Std.HashMap.{Iteration, IsIteration}
use nu_plugin_dns.Hickory.{Hickory}
use nu_plugin_dns.Hickory.Message as Wire
use nu_plugin_dns.Hickory.Message.{Code, Query, Rdata}
use nu_plugin_dns.Hickory.Rdata.Edns.{Edns}
use nu_plugin_dns.Config.{Config}
use nu_plugin_dns.Serde.Util.{Chrono, sec_to_duration}
use nu_plugin_dns.Serde.Code.{Coded, code_to_record_u16, code_to_record_u8}
use nu_plugin_dns.Serde.Query.{query_into_value, type_coded, class_coded}
use nu_plugin_dns.Serde.Tidy.{
  tidy, IsTidy, GivesTidy, GivesTidy-ok, >>=-GivesTidy, Images-IsTidy, list_value-IsTidy,
}
use nu_plugin_dns.Serde.Rdata.Tidy.{HasDistinctParams, rdata_value-GivesTidy}
use nu_plugin_dns.Serde.Rdata.Options.Tidy.{edns_value-GivesTidy}
use nu_plugin_dns.Serde.Message.{
  code_coded, message_type_value, header_value, question_value, data_value, resource_value,
  parse_records, optional_edns, message_value,
}

module _ {H : Hickory} (config : Config H) where
  code_to_record_u16-IsTidy :
      {A : Type 0} (coded : Coded A) (code : A) → IsTidy (code_to_record_u16 coded code config)
  unfolding code_to_record_u16 tidy
  code_to_record_u16-IsTidy coded code = elim (Bool-cases config.code.item) [
    | inl on ↦ rw (on, code_to_record_u16)
    | inr off ↦ rw (off, code_to_record_u16)
  ]

  code_to_record_u8-IsTidy :
      {A : Type 0} (coded : Coded A) (code : A) → IsTidy (code_to_record_u8 coded code config)
  unfolding code_to_record_u8 tidy
  code_to_record_u8-IsTidy coded code = elim (Bool-cases config.code.item) [
    | inl on ↦ rw (on, code_to_record_u8)
    | inr off ↦ rw (off, code_to_record_u8)
  ]

  message_type_value-IsTidy : (t : Code) → IsTidy (message_type_value config t)
  unfolding message_type_value tidy
  message_type_value-IsTidy t = elim (Bool-cases config.code.item) [
    | inl on ↦ rw (on, message_type_value)
    | inr off ↦ rw (off, message_type_value)
  ]

  header_value-IsTidy : (h : Wire.Header) → IsTidy (header_value config h)
  unfolding header_value tidy
  header_value-IsTidy h = rw (
    message_type_value-IsTidy h.message_type,
    code_to_record_u8-IsTidy code_coded h.op_code,
    code_to_record_u16-IsTidy code_coded h.response_code,
  )

  query_into_value-IsTidy : (q : Query H) → IsTidy (query_into_value q config)
  unfolding query_into_value tidy
  query_into_value-IsTidy q = rw (
    code_to_record_u16-IsTidy (type_coded H) q.query_type,
    code_to_record_u16-IsTidy (class_coded H) q.query_class,
  )

  question_value-IsTidy : (qs : List (Query H)) → IsTidy (question_value config qs)
  unfolding question_value tidy
  question_value-IsTidy [] = refl
  question_value-IsTidy (q ∷ []) = query_into_value-IsTidy q
  question_value-IsTidy (_ ∷ q ∷ qs) = question_value-IsTidy (q ∷ qs)

  module _ (C : Chrono) (I : Iteration Value) (each : IsIteration I) where
    abbrev pub HasParams : Option Rdata → Type 0
    HasParams none = Unit
    HasParams (some d) = HasDistinctParams d

    data_value-GivesTidy : (d : Option Rdata) → HasParams d → GivesTidy (data_value config C I d)
    unfolding data_value tidy
    data_value-GivesTidy none h = refl
    data_value-GivesTidy (some d) h = rdata_value-GivesTidy C I each d h

    resource_value-GivesTidy :
        (r : Wire.Record H) → HasParams r.rdata → GivesTidy (resource_value config C I r)
    unfolding resource_value tidy sec_to_duration
    resource_value-GivesTidy r h = >>=-GivesTidy (data_value config C I r.rdata) _ λ rdata e. rw (
      code_to_record_u16-IsTidy (type_coded H) r.rr_type,
      code_to_record_u16-IsTidy (class_coded H) r.dns_class,
      GivesTidy-ok (data_value config C I r.rdata) {v = rdata} (data_value-GivesTidy r.rdata h) e,
    )

    abbrev pub HaveParams : List (Wire.Record H) → Type 0
    HaveParams = All (λ r. HasParams r.rdata)

    resources-All :
        (rs : List (Wire.Record H))
        → HaveParams rs
        → All (λ r. GivesTidy (resource_value config C I r)) rs
    resources-All [] h = tt
    resources-All (r ∷ rs) (h, hs) = (resource_value-GivesTidy r h, resources-All rs hs)

    parse_records-GivesTidy :
        (rs : List (Wire.Record H)) → HaveParams rs → GivesTidy (parse_records config C I rs)
    unfolding parse_records
    parse_records-GivesTidy rs h =
        >>=-GivesTidy (collect_map (resource_value config C I) rs) _ λ vs e. list_value-IsTidy vs (
          Images-IsTidy (resource_value config C I) rs vs (resources-All rs h)
            (collect_map-Images (resource_value config C I) rs e))

    optional_edns-GivesTidy : (e : Option Edns) → GivesTidy (optional_edns config C I e)
    unfolding optional_edns tidy
    optional_edns-GivesTidy none = refl
    optional_edns-GivesTidy (some e) = edns_value-GivesTidy I each e

    message_value-GivesTidy :
        (m : Wire.Message H) (bytes : List ℕ)
        → HaveParams m.answers
        → HaveParams m.name_servers
        → HaveParams m.additionals
        → GivesTidy (message_value config C I m bytes)
    unfolding message_value tidy
    message_value-GivesTidy m bytes h k l =
        >>=-GivesTidy (parse_records config C I m.answers) _ λ answer e.
          >>=-GivesTidy (parse_records config C I m.name_servers) _ λ authority f.
            >>=-GivesTidy (parse_records config C I m.additionals) _ λ additional g.
              >>=-GivesTidy (optional_edns config C I m.edns) _ λ edns i. rw (
                header_value-IsTidy m.header,
                question_value-IsTidy m.queries,
                GivesTidy-ok (parse_records config C I m.answers) {v = answer}
                    (parse_records-GivesTidy m.answers h) e,
                GivesTidy-ok (parse_records config C I m.name_servers) {v = authority}
                    (parse_records-GivesTidy m.name_servers k) f,
                GivesTidy-ok (parse_records config C I m.additionals) {v = additional}
                    (parse_records-GivesTidy m.additionals l) g,
                GivesTidy-ok (optional_edns config C I m.edns) {v = edns}
                    (optional_edns-GivesTidy m.edns) i,
              )

    -- In the value of a message no record names a column twice, at any depth, if in the message's
    -- records the parameters of a service binding have distinct keys, and a hash map gives each of
    -- its entries once.
    pub message_value-IsTidy :
        (m : Wire.Message H) (bytes : List ℕ) {v : Value}
        → HaveParams m.answers
        → HaveParams m.name_servers
        → HaveParams m.additionals
        → message_value config C I m bytes ≡ ok v
        → IsTidy v
    message_value-IsTidy m bytes h k l e =
        GivesTidy-ok (message_value config C I m bytes) (message_value-GivesTidy m bytes h k l) e
