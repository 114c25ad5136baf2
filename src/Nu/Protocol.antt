-- ===== src/Nu/Protocol.antt =====
-- What the code calls of `nu_protocol` and of the standard library's text functions, as a parameter
-- of the model, with the laws of their documentation that theorems use.
use nu_plugin_dns.Prelude.{Bool, String, Option, none, some, Res, ok, ◌≡◌, ◌≢◌, str_eq}
use nu_plugin_dns.Prelude.{if◌then◌else◌}
use nu_plugin_dns.Nu.{Value, Columns, end, column, Span, LabeledError}

-- The value of a column, if there is one.
abbrev pub get : String → Columns → Option Value
get k end = none
get k (column j v r) = if str_eq j k then some v else get k r

pub record NuProtocol : Type 0 where
  -- `Value::get_data_by_key`, which also answers for lists
  pub get_data_by_key : Value → String → Option Value
  -- `String::from_value`; its error as printed
  pub string_from_value : Value → Res String String
  -- `Value::into_string` and `Value::into_record`, their errors converted by `?`
  pub into_string : Value → Res LabeledError String
  pub into_record : Value → Res LabeledError Columns
  -- `Record::remove`, with the record that it leaves
  pub remove : Columns → String → Option Value × Columns
  -- `{:?}`
  pub debug : Value → String
  -- `Value::is_empty`
  pub is_empty : Value → Bool
  -- `str::to_uppercase`
  pub to_uppercase : String → String

-- What is documented of the calls on records and on texts.
pub record IsLawful (N : NuProtocol) : Type 0 where
  pub get_data_by_key-rec :
      (r : Columns) (s : Span) (k : String) → N.get_data_by_key (Value.rec r s) k ≡ get k r
  pub into_record-rec : (r : Columns) (s : Span) → N.into_record (Value.rec r s) ≡ ok r
  -- The removed value, and what the rest of the record still holds.
  pub remove_self : (r : Columns) (k : String) → (N.remove r k).0 ≡ get k r
  pub remove_other : (r : Columns) (k j : String) → j ≢ k → get j (N.remove r k).1 ≡ get j r
  pub into_string-string : (t : String) (s : Span) → N.into_string (Value.string t s) ≡ ok t
  pub string_from_value-string :
      (t : String) (s : Span) → N.string_from_value (Value.string t s) ≡ ok t
