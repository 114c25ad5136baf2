-- ===== src/Tests/Questions.antt =====
-- Questions of src/dns/serde.rs for concrete inputs.
use nu_plugin_dns.Prelude.{All, [], ◌∷◌, List, length, false, none, ok, ◌≡◌, refl}
use nu_plugin_dns.Nu.{Value, Span, to_items, to_columns, spanned, string_value, binary_value}
use nu_plugin_dns.Std.Bytes.{little}
use nu_plugin_dns.Std.Utf8.{from_utf8, encode}
use nu_plugin_dns.Constants.{Protocol}
use nu_plugin_dns.Hickory.Message.{Query}
use nu_plugin_dns.Config.{Config, DnssecMode}
use nu_plugin_dns.Serde.Query.{
  try_from_value, query_into_value, record_query, string_queries, label_queries,
}
use nu_plugin_dns.Serde.Parse.{rtype_try_from, class_try_from}
use nu_plugin_dns.Serde.Query.Laws.Asked.{HasNoRecord, IsByFlags, try_from_value-IsByFlags}
use nu_plugin_dns.Serde.Query.Laws.ReadBack.{IsReadBack, try_from_value-query_into_value}
use nu_plugin_dns.Serde.Query.Laws.{asked, length-try_from_value}
use nu_plugin_dns.Tests.Data.{hickory, nu, nu-IsLawful, at_home}

abbrev pub config : Config hickory
config = record {
  protocol = spanned Protocol.udp Span.unknown;
  server = spanned at_home Span.unknown;
  qtypes = spanned (spanned 28 Span.unknown ∷ spanned 1 Span.unknown ∷ []) Span.unknown;
  class = spanned 1 Span.unknown;
  code = spanned false Span.unknown;
  dnssec_mode = spanned DnssecMode.opportunistic Span.unknown;
  dns_name = none;
  tasks = spanned 8 Span.unknown;
  timeout = spanned 5000000000 Span.unknown;
}

-- A name, a name as labels, and a record.
abbrev input : Value
input =
    Value.list
      (to_items (
        string_value "example.com"
        ∷ Value.list (to_items (binary_value (97 ∷ 98 ∷ []) ∷ binary_value (99 ∷ []) ∷ []))
            Span.unknown
        ∷ Value.rec
            (to_columns (
              ("name", string_value "example.net")
              ∷ ("type", string_value "a")
              ∷ ("class", string_value "ch")
              ∷ []))
            Span.unknown
        ∷ []))
      Span.unknown

abbrev questions : List (Query hickory)
questions =
    record { name = "example.com"; query_type = 28; query_class = 1 }
    ∷ record { name = "example.com"; query_type = 1; query_class = 1 }
    ∷ record { name = "ab.c."; query_type = 28; query_class = 1 }
    ∷ record { name = "ab.c."; query_type = 1; query_class = 1 }
    ∷ record { name = "example.net"; query_type = 1; query_class = 3 }
    ∷ []

accepted : try_from_value hickory nu little config input ≡ ok questions
unfolding try_from_value record_query string_queries label_queries rtype_try_from class_try_from
    from_utf8 encode
accepted = refl

length-try_from_value_example : length questions ≡ asked 2 input
length-try_from_value_example =
    length-try_from_value hickory nu little config input {qs = questions} accepted

-- The same without the record.
abbrev names : Value
names =
    Value.list
      (to_items (
        string_value "example.com"
        ∷ Value.list (to_items (binary_value (97 ∷ 98 ∷ []) ∷ binary_value (99 ∷ []) ∷ []))
            Span.unknown
        ∷ []))
      Span.unknown

abbrev names_asked : List (Query hickory)
names_asked =
    record { name = "example.com"; query_type = 28; query_class = 1 }
    ∷ record { name = "example.com"; query_type = 1; query_class = 1 }
    ∷ record { name = "ab.c."; query_type = 28; query_class = 1 }
    ∷ record { name = "ab.c."; query_type = 1; query_class = 1 }
    ∷ []

names_accepted : try_from_value hickory nu little config names ≡ ok names_asked
unfolding try_from_value string_queries label_queries from_utf8 encode
names_accepted = refl

names-HasNoRecord : HasNoRecord names
unfolding HasNoRecord
names-HasNoRecord = (tt, ((tt, (tt, tt)), tt))

try_from_value-IsByFlags_example : All (IsByFlags hickory nu little config) names_asked
try_from_value-IsByFlags_example =
    try_from_value-IsByFlags hickory nu little config names {qs = names_asked} names-HasNoRecord
      names_accepted

-- A question in the class CH that an answer has shown; the flags say IN.
abbrev chaos : Query hickory
chaos = record { name = "version.bind."; query_type = 1; query_class = 3 }

chaos-IsReadBack : IsReadBack hickory nu chaos
unfolding from_utf8 encode
chaos-IsReadBack = record { name_lem = refl; type_lem = refl; class_lem = refl }

try_from_value-query_into_value_example :
    try_from_value hickory nu little config (query_into_value chaos config) ≡ ok (chaos ∷ [])
try_from_value-query_into_value_example =
    try_from_value-query_into_value hickory nu nu-IsLawful chaos chaos-IsReadBack little config
      config
