-- ===== src/Tests/Data.antt =====
-- Small versions of the parameters of the model: a resolver library whose names are texts and whose
-- types and classes are their codes, Nushell's calls on records and ASCII texts, a machine.
use nu_plugin_dns.Prelude.{ℕ, ◌-◌, String, List, [], ◌∷◌, ◌++◌, map, leb}
use nu_plugin_dns.Prelude.{false, ◌&&◌, Option, none, some, Res, ok, err, str_eq, eq_iff}
use nu_plugin_dns.Prelude.{if◌then◌else◌, ◌≡◌, ◌≢◌, refl, arith}
use mathlib.Core.List.Perm
use nu_plugin_dns.Nu.{Items, Value, Span, Columns, end, column, labeled, LabeledError}
use nu_plugin_dns.Nu.Protocol.{NuProtocol, get}
use nu_plugin_dns.Nu.Protocol as Nu
use nu_plugin_dns.Std.Utf8.{from_utf8, encode}
use nu_plugin_dns.Std.HashMap.{Iteration, IsIteration}
use nu_plugin_dns.Constants.{Protocol}
use nu_plugin_dns.Hickory.{Hickory}
use nu_plugin_dns.Hickory
use nu_plugin_dns.Config.{SocketAddr}
use nu_plugin_dns.Config.Settings.{System, NameServer}
use nu_plugin_dns.Prelude.{IsQuiet, Bool, true}
use nu_plugin_dns.Serde.Query.Laws.Quiet.{HasQuietParsers}
use nu_plugin_dns.Config.Laws.Quiet.{HasQuietSettings}
use nu_plugin_dns.Serde.Util.{Chrono, LocalResult}

abbrev join : List (List ℕ) → List ℕ
join [] = []
join (l ∷ ls) = l ++ 46 ∷ join ls

abbrev name_of : Option String → Res String String
name_of none = err "not UTF-8"
name_of (some t) = ok t

abbrev type_of : String → Res String ℕ
type_of t = if str_eq t "A" then ok 1 else if str_eq t "AAAA" then ok 28 else err "unknown type"

abbrev class_of : String → Res String ℕ
class_of t = if str_eq t "IN" then ok 1 else if str_eq t "CH" then ok 3 else err "unknown class"

abbrev pub hickory : Hickory
hickory = record {
  Name = String;
  name_from_utf8 = λ t. ok t;
  name_from_labels = λ labels. name_of (from_utf8 (join labels));
  name_to_utf8 = λ n. n;
  name_to_string = λ n. n;
  RecordType = ℕ;
  a = 1;
  aaaa = 28;
  record_type_from_str = type_of;
  record_type_from_u16 = λ n. n;
  record_type_to_u16 = λ n. n;
  record_type_to_string = λ n. if leb n 1 then "A" else "AAAA";
  unknown_code = λ n. if leb n 100 then none else some n;
  DnsClass = ℕ;
  class_in = 1;
  class_from_str = class_of;
  class_from_u16 = λ n. n;
  class_to_u16 = λ n. n;
  class_to_string = λ n. if leb n 1 then "IN" else "CH";
}

hickory-IsLawful : nu_plugin_dns.Hickory.IsLawful hickory
hickory-IsLawful = record {
  record_type_u16 = λ n h. refl;
  unknown_code_lem = λ n c h e. ground arith;
  class_u16 = λ n h. refl;
}

abbrev upper : ℕ → ℕ
upper b = if leb 97 b && leb b 122 then b - 32 else b

abbrev or_same : String → Option String → String
or_same t none = t
or_same t (some u) = u

-- The record without the columns of a name.
abbrev delete : String → Columns → Columns
delete k end = end
delete k (column j v r) = if str_eq j k then delete k r else column j v (delete k r)

abbrev column_of : Value → String → Option Value
column_of (Value.rec r _) k = get k r
column_of _ _ = none

abbrev text_of : Value → Res LabeledError String
text_of (Value.string t _) = ok t
text_of v = err (labeled "not a text" "here" Span.unknown)

abbrev plain_text_of : Value → Res String String
plain_text_of (Value.string t _) = ok t
plain_text_of v = err "not a text"

abbrev record_of : Value → Res LabeledError Columns
record_of (Value.rec r _) = ok r
record_of v = err (labeled "not a record" "here" Span.unknown)

abbrev is_empty_of : Value → Bool
is_empty_of (Value.nothing _) = true
is_empty_of (Value.string t _) = str_eq t ""
is_empty_of (Value.list Items.nil _) = true
is_empty_of (Value.rec end _) = true
is_empty_of _ = false

abbrev pub nu : NuProtocol
nu = record {
  get_data_by_key = column_of;
  string_from_value = plain_text_of;
  into_string = text_of;
  into_record = record_of;
  remove = λ r k. (get k r, delete k r);
  debug = λ v. "value";
  is_empty = is_empty_of;
  to_uppercase = λ t. or_same t (from_utf8 (map upper (encode t)));
}

get-delete : (k j : String) (r : Columns) → j ≢ k → get j (delete k r) ≡ get j r
get-delete k j end ne = refl
get-delete k j (column i v r) ne = ground (arith, eq_iff i k, eq_iff i j, get-delete k j r ne)

pub nu-IsLawful : Nu.IsLawful nu
nu-IsLawful = record {
  get_data_by_key-rec = λ r s k. refl;
  into_record-rec = λ r s. refl;
  remove_self = λ r k. refl;
  remove_other = λ r k j ne. get-delete k j r ne;
  into_string-string = λ t s. refl;
  string_from_value-string = λ t s. refl;
}

abbrev pub at_home : SocketAddr
at_home = record { ip = "127.0.0.53"; port = 53 }

abbrev pub home_server : NameServer
home_server = record { socket_addr = at_home; protocol = Protocol.udp }

abbrev google : NameServer
google = record { socket_addr = record { ip = "8.8.8.8"; port = 53 }; protocol = Protocol.udp }

-- A machine that reads every text as an address without a port.
abbrev pub machine : System
machine = record {
  parse_addr = λ t. none;
  parse_ip = λ t. ok t;
  name_servers = home_server ∷ [];
  default_server = google;
  try_from_int_error = "out of range integral type conversion attempted";
}

abbrev pub chrono : Chrono
chrono = record { timestamp_opt = λ secs. LocalResult.single secs; show_date = λ secs. "date" }

abbrev pub in_order : Iteration Value
in_order = record { arrange = λ m. m }

pub in_order-IsIteration : IsIteration in_order
in_order-IsIteration m = Perm.refl m

name_of-IsQuiet : (o : Option String) → IsQuiet (name_of o)
name_of-IsQuiet none s p = cc
name_of-IsQuiet (some t) s p = cc

plain_text_of-IsQuiet : (v : Value) → IsQuiet (plain_text_of v)
plain_text_of-IsQuiet (Value.string t _) = λ s p. cc
plain_text_of-IsQuiet _ = λ s p. cc

pub parsers-HasQuietParsers : HasQuietParsers hickory nu
parsers-HasQuietParsers = record {
  name_from_utf8_ne = λ t s p. cc;
  name_from_labels_ne = λ ls. name_of-IsQuiet (from_utf8 (join ls));
  record_type_from_str_ne = λ t s p. ground arith;
  class_from_str_ne = λ t s p. ground arith;
  string_from_value_ne = plain_text_of-IsQuiet;
}

text_of-IsQuiet : (v : Value) → IsQuiet (text_of v)
text_of-IsQuiet (Value.string t _) = λ s p. cc
text_of-IsQuiet _ = λ s p. cc

pub settings-HasQuietSettings : HasQuietSettings nu machine
settings-HasQuietSettings = record { into_string_ne = text_of-IsQuiet; parse_ip_ne = λ t s p. cc }
