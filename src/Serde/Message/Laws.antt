-- ===== src/Serde/Message/Laws.antt =====
-- When `Message::into_value` of src/dns/serde.rs gives a value, and what the value holds.
use nu_plugin_dns.Prelude.{ℕ, as_i64, String, List, [], ◌∷◌, ◌++◌, Option, none, some, length, All}
use nu_plugin_dns.Prelude.{
  Succeeds, >>=-Succeeds, >>=-eq-ok, >>=-of_ok, >>=-of_panic, ok-injective, ok, panic, ◌≡◌, refl,
  ap, sym, ◌∙◌,
}
use nu_plugin_dns.Prelude.{collect_map, collect_map-Succeeds, collect_map-Images, Images}
use mathlib.Core.Path.{subst}
use nu_plugin_dns.Nu.{Value, Columns, end, column, Span, list_value}
use nu_plugin_dns.Nu.Protocol.{get}
use nu_plugin_dns.Std.HashMap.{Iteration}
use nu_plugin_dns.Constants.Columns.{message_cols}
use nu_plugin_dns.Hickory.{Hickory}
use nu_plugin_dns.Hickory.Message as Wire
use nu_plugin_dns.Hickory.Message.{Rdata}
use nu_plugin_dns.Hickory.Rdata.Edns.{Edns, EdnsCode, EdnsOption, Opt}
use nu_plugin_dns.Config.{Config}
use nu_plugin_dns.Serde.Util.{Chrono}
use nu_plugin_dns.Serde.Rdata.Laws.{IsReadable, rdata_value-Succeeds}
use nu_plugin_dns.Serde.Rdata.Options.Laws.{IsSupported, edns_value-Succeeds, edns_value-panic}
use nu_plugin_dns.Serde.Message.{
  header_value, question_value, resource_value, data_value, parse_records, optional_edns,
  message_value,
}

-- The names of a record's columns, and the value of one.
abbrev pub columns : Value → List String
columns (Value.rec cols _) = names cols
  where
    names : Columns → List String
    names end = []
    names (column k _ r) = k ∷ names r
columns _ = []

abbrev pub value_at : String → Value → Option Value
value_at k (Value.rec cols _) = get k cols
value_at k _ = none

module _ {H : Hickory} (config : Config H) (C : Chrono) (I : Iteration Value) where
  abbrev pub HasReadableData : Option Rdata → Type 0
  HasReadableData none = Unit
  HasReadableData (some d) = IsReadable C d

  data_value-Succeeds : (d : Option Rdata) → HasReadableData d → Succeeds (data_value config C I d)
  unfolding data_value
  data_value-Succeeds none _ = (_, refl)
  data_value-Succeeds (some d) h = rdata_value-Succeeds C I d h

  resource_value-Succeeds :
      (r : Wire.Record H) → HasReadableData r.rdata → Succeeds (resource_value config C I r)
  unfolding resource_value
  resource_value-Succeeds r h =
      >>=-Succeeds (data_value config C I r.rdata) _ (data_value-Succeeds r.rdata h) λ v. (_, refl)

  abbrev pub AllReadable : List (Wire.Record H) → Type 0
  AllReadable = All (λ r. HasReadableData r.rdata)

  All-resources :
      (rs : List (Wire.Record H))
      → AllReadable rs
      → All (λ r. Succeeds (resource_value config C I r)) rs
  All-resources [] _ = tt
  All-resources (r ∷ rs) (h, hs) = (resource_value-Succeeds r h, All-resources rs hs)

  parse_records-Succeeds :
      (rs : List (Wire.Record H)) → AllReadable rs → Succeeds (parse_records config C I rs)
  unfolding parse_records
  parse_records-Succeeds rs h =
      >>=-Succeeds (collect_map (resource_value config C I) rs) _
        (collect_map-Succeeds (resource_value config C I) rs (All-resources rs h)) λ vs. (_, refl)

  abbrev pub HasSupportedOptions : Option Edns → Type 0
  HasSupportedOptions none = Unit
  HasSupportedOptions (some e) = All IsSupported e.options

  optional_edns-Succeeds :
      (e : Option Edns) → HasSupportedOptions e → Succeeds (optional_edns config C I e)
  unfolding optional_edns
  optional_edns-Succeeds none _ = (_, refl)
  optional_edns-Succeeds (some e) h = edns_value-Succeeds I e h

  -- The records of a message's three sections have data that is readable.
  pub record IsReadableMessage (m : Wire.Message H) : Type 0 where
    pub answers_ok : AllReadable m.answers
    pub name_servers_ok : AllReadable m.name_servers
    pub additionals_ok : AllReadable m.additionals

  -- A message has a value if its records' times are dates to chrono, and each EDNS option, of a
  -- record or of the message, is of a variant that the code has an arm for.
  pub message_value-Succeeds :
      (m : Wire.Message H) (bytes : List ℕ)
      → IsReadableMessage m
      → HasSupportedOptions m.edns
      → Succeeds (message_value config C I m bytes)
  unfolding message_value
  message_value-Succeeds m bytes h k =
      >>=-Succeeds (parse_records config C I m.answers) _
        (parse_records-Succeeds m.answers h.answers_ok)
        λ answer.
          >>=-Succeeds (parse_records config C I m.name_servers) _
            (parse_records-Succeeds m.name_servers h.name_servers_ok)
            λ authority.
              >>=-Succeeds (parse_records config C I m.additionals) _
                (parse_records-Succeeds m.additionals h.additionals_ok)
                λ additional.
                  >>=-Succeeds (optional_edns config C I m.edns) _ (optional_edns-Succeeds m.edns k)
                    λ edns. (_, refl)

  -- If the records of a message are readable and its EDNS part holds an option of a variant
  -- without an arm, such as a client subnet, behind options that have arms, the conversion of the
  -- message panics.
  pub message_value-panic :
      (m : Wire.Message H) (bytes : List ℕ) (e : Edns) (before after : Opt) (code : EdnsCode)
      → IsReadableMessage m
      → m.edns ≡ some e
      → e.options ≡ before ++ (code, EdnsOption.other) ∷ after
      → All IsSupported before
      → message_value config C I m bytes ≡ panic "not yet implemented"
  unfolding message_value optional_edns
  message_value-panic m bytes e before after code h same opts supported =
      let (_, e₁) = parse_records-Succeeds m.answers h.answers_ok in
      let (_, e₂) = parse_records-Succeeds m.name_servers h.name_servers_ok in
      let (_, e₃) = parse_records-Succeeds m.additionals h.additionals_ok in
      >>=-of_ok (parse_records config C I m.answers) _ e₁
      ∙ >>=-of_ok (parse_records config C I m.name_servers) _ e₂
      ∙ >>=-of_ok (parse_records config C I m.additionals) _ e₃
      ∙ >>=-of_panic (optional_edns config C I m.edns) _
          (rw same (edns_value-panic I e before after code opts supported))

  -- What the value of a message holds: the columns in their order; the header, question and EDNS
  -- part as converted; in each of the three sections
  -- the values of the section's records, in their order; and the number of bytes as the size.
  pub record Shows (m : Wire.Message H) (bytes : List ℕ) (v : Value) : Type 0 where
    pub answers : List Value
    pub authorities : List Value
    pub additionals : List Value
    pub edns : Value
    pub named : columns v ≡ message_cols
    pub header_at : value_at "header" v ≡ some (header_value config m.header)
    pub question_at : value_at "question" v ≡ some (question_value config m.queries)
    pub edns_at : value_at "edns" v ≡ some edns
    pub edns_of : optional_edns config C I m.edns ≡ ok edns
    pub answer_at : value_at "answer" v ≡ some (list_value answers)
    pub authority_at : value_at "authority" v ≡ some (list_value authorities)
    pub additional_at : value_at "additional" v ≡ some (list_value additionals)
    pub answers_of : Images (resource_value config C I) m.answers answers
    pub authorities_of : Images (resource_value config C I) m.name_servers authorities
    pub additionals_of : Images (resource_value config C I) m.additionals additionals
    pub size_at : value_at "size" v ≡ some (Value.filesize (as_i64 (length bytes)) Span.unknown)

  parse_records-Images :
      (rs : List (Wire.Record H)) {v : Value}
      → parse_records config C I rs ≡ ok v
      → (vs : List Value) × (v ≡ list_value vs) × Images (resource_value config C I) rs vs
  unfolding parse_records
  parse_records-Images rs e =
      let (vs, each, same) = >>=-eq-ok (collect_map (resource_value config C I) rs) _ e in
      (vs, sym (ok-injective same), collect_map-Images (resource_value config C I) rs each)

  -- The value of a message, when there is one, shows the message: it has the seven columns in their
  -- order, the header, the last question and the EDNS part are shown by their own conversions, each
  -- of the three sections lists the values of that section's records in their order, and the size is
  -- the number of bytes.
  pub message_value-Shows :
      (m : Wire.Message H) (bytes : List ℕ) {v : Value}
      → message_value config C I m bytes ≡ ok v
      → Shows m bytes v
  unfolding message_value
  message_value-Shows m bytes e =
      let (answer, e₁, r₁) = >>=-eq-ok (parse_records config C I m.answers) _ e in
      let (authority, e₂, r₂) = >>=-eq-ok (parse_records config C I m.name_servers) _ r₁ in
      let (additional, e₃, r₃) = >>=-eq-ok (parse_records config C I m.additionals) _ r₂ in
      let (edns, e₄, r₄) = >>=-eq-ok (optional_edns config C I m.edns) _ r₃ in
      let (xs, p, i) = parse_records-Images m.answers e₁ in
      let (ys, q, j) = parse_records-Images m.name_servers e₂ in
      let (zs, r, k) = parse_records-Images m.additionals e₃ in
      subst (Shows m bytes) (ok-injective r₄) (record {
        answers = xs;
        authorities = ys;
        additionals = zs;
        edns = edns;
        named = refl;
        header_at = refl;
        question_at = refl;
        edns_at = refl;
        edns_of = e₄;
        answer_at = ap some p;
        authority_at = ap some q;
        additional_at = ap some r;
        answers_of = i;
        authorities_of = j;
        additionals_of = k;
        size_at = refl;
      })
