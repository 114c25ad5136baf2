-- ===== src/Serde/Util.antt =====
-- The module `util` of src/dns/serde.rs.
pub mod Laws
use nu_plugin_dns.Prelude.{ℕ, ◌*◌, ◌^◌, ℤ, String, ◌<>◌, List, Option, ok, err, as_i64, ◌≡◌}
use nu_plugin_dns.Prelude.Outcome.{Res}
use nu_plugin_dns.Nu.{Value, Span, LabeledError, labeled, string_value, binary_value}
use nu_plugin_dns.Std.Decimal.{show_ℤ}
use nu_plugin_dns.Std.Utf8.{from_utf8}

unfoldable pub string_or_binary : List ℕ → Value
string_or_binary bytes = elim (from_utf8 bytes) [
  | Option.some s ↦ string_value s
  | Option.none ↦ binary_value bytes
]

-- `Duration::from_secs(sec).as_nanos() as i64`
unfoldable pub sec_to_duration : ℕ → Value
sec_to_duration sec = Value.duration (as_i64 (sec * 10 ^ 9)) Span.unknown

-- chrono's `LocalResult`. A date is kept as its seconds since the epoch.
pub data LocalResult : Type 0 where
  none : LocalResult
  single : ℤ → LocalResult
  ambiguous : ℤ → ℤ → LocalResult

-- What the code calls of chrono: `Utc.timestamp_opt(secs, 0)` and the text of a date.
pub record Chrono : Type 0 where
  pub timestamp_opt : ℤ → LocalResult
  pub show_date : ℤ → String

-- Documented for `Utc`: a time in chrono's years gives one date, any other none.
pub record IsUtc (C : Chrono) (IsInRange : ℤ → Type 0) : Type 0 where
  pub in_range : (secs : ℤ) → IsInRange secs → C.timestamp_opt secs ≡ single secs
  pub out_of_range : (secs : ℤ) → ¬ IsInRange secs → C.timestamp_opt secs ≡ none

unfoldable pub sec_to_date : Chrono → ℤ → Span → Res LabeledError Value
sec_to_date C secs input_span = elim (C.timestamp_opt secs) [
  | none ↦ err (labeled "invalid time" ("Invalid time: " <> show_ℤ secs) input_span)
  | single date ↦ ok (Value.date date Span.unknown)
  | ambiguous date₁ date₂ ↦ err (
      labeled "invalid time"
        ("Time "
          <> show_ℤ secs
          <> " produced ambiguous result: "
          <> C.show_date date₁
          <> " vs "
          <> C.show_date date₂)
        input_span)
]
