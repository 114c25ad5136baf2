-- ===== src/Nu.antt =====
-- The data of the `nu_protocol` crate that src/dns builds and takes apart: spans, errors, values.
-- `Value` has the variants that the code names; `other` stands for the rest (floats, globs, ...).
pub mod Protocol
use nu_plugin_dns.Prelude.{ℕ, ℤ, Bool, String, List, [], ◌∷◌}

-- The code makes only the unknown span, and passes the others on.
pub data Span : Type 0 where
  unknown : Span
  at : ℕ → ℕ → Span

-- `LabeledError::new(msg)`, with the labels added by `with_label(text, span)`.
pub record LabeledError : Type 0 where
  pub msg : String
  pub labels : List (String × Span)

abbrev pub new_error : String → LabeledError
new_error msg = record { msg = msg; labels = [] }

abbrev pub labeled : String → String → Span → LabeledError
labeled msg label span = record { msg = msg; labels = (label, span) ∷ [] }

pub record Spanned (A : Type 0) : Type 0 where
  pub item : A
  pub span : Span

-- The macro `spanned!(item, span)` of util.rs.
abbrev pub spanned : {A : Type 0} → A → Span → Spanned A
spanned item span = record { item = item; span = span }

mutual
  -- Durations are nanoseconds and dates are seconds since the epoch.
  pub data Value : Type 0 where
    bool : Bool → Span → Value
    int filesize duration date : ℤ → Span → Value
    string : String → Span → Value
    binary : List ℕ → Span → Value
    list : Items → Span → Value
    rec : Columns → Span → Value
    nothing : Span → Value
    error : LabeledError → Span → Value
    other : String → Span → Value

  pub data Items : Type 0 where
    nil : Items
    cons : Value → Items → Items

  -- A record's columns, in order.
  pub data Columns : Type 0 where
    end : Columns
    column : String → Value → Columns → Columns

abbrev pub to_items : List Value → Items
to_items [] = nil
to_items (v ∷ vs) = cons v (to_items vs)

abbrev pub of_items : Items → List Value
of_items nil = []
of_items (cons v vs) = v ∷ of_items vs

abbrev pub to_columns : List (String × Value) → Columns
to_columns [] = end
to_columns ((k, v) ∷ r) = column k v (to_columns r)

abbrev pub of_columns : Columns → List (String × Value)
of_columns end = []
of_columns (column k v r) = (k, v) ∷ of_columns r

-- `value.span()`
abbrev pub span_of : Value → Span
span_of (Value.bool _ s) = s
span_of (Value.int _ s) = s
span_of (Value.filesize _ s) = s
span_of (Value.duration _ s) = s
span_of (Value.date _ s) = s
span_of (Value.string _ s) = s
span_of (Value.binary _ s) = s
span_of (Value.list _ s) = s
span_of (Value.rec _ s) = s
span_of (Value.nothing s) = s
span_of (Value.error _ s) = s
span_of (Value.other _ s) = s

-- `Value::list(values, Span::unknown())`
abbrev pub list_value : List Value → Value
list_value vs = Value.list (to_items vs) unknown

-- `Value::record(record![...], Span::unknown())`
abbrev pub record_value : List (String × Value) → Value
record_value r = Value.rec (to_columns r) unknown

-- `std::iter::zip`: the longer side's rest is dropped.
abbrev pub zip : List String → List Value → List (String × Value)
zip (k ∷ ks) (v ∷ vs) = (k, v) ∷ zip ks vs
zip [] _ = []
zip (_ ∷ _) [] = []

-- `Value::record(Record::from_iter(zip(columns, values)), Span::unknown())`
abbrev pub zip_record : List String → List Value → Value
zip_record ks vs = record_value (zip ks vs)

abbrev pub bool_value : Bool → Value
bool_value b = Value.bool b unknown

abbrev pub int_value : ℤ → Value
int_value n = Value.int n unknown

abbrev pub string_value : String → Value
string_value s = Value.string s unknown

abbrev pub binary_value : List ℕ → Value
binary_value b = Value.binary b unknown

abbrev pub nothing_value : Value
nothing_value = Value.nothing unknown
