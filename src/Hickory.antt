-- ===== src/Hickory.antt =====
-- What src/dns calls of the hickory crates on names, record types and classes: a parameter of the
-- model, with the laws of their documentation that theorems use. Errors are their printed text.

pub mod Message
pub mod Rdata
use nu_plugin_dns.Prelude.{ℕ, ◌<◌, ◌^◌, String, List, [], Option, none, some, ok, ◌≡◌}
use nu_plugin_dns.Prelude.Outcome.{Res}

pub record Hickory : Type 1 where
  pub Name : Type 0
  pub name_from_utf8 : String → Res String Name
  pub name_from_labels : List (List ℕ) → Res String Name
  pub name_to_utf8 : Name → String
  pub name_to_string : Name → String
  pub RecordType : Type 0
  pub a : RecordType
  pub aaaa : RecordType
  pub record_type_from_str : String → Res String RecordType
  pub record_type_from_u16 : ℕ → RecordType
  pub record_type_to_u16 : RecordType → ℕ
  pub record_type_to_string : RecordType → String
  -- The code of a `RecordType::Unknown(code)`.
  pub unknown_code : RecordType → Option ℕ
  pub DnsClass : Type 0
  pub class_in : DnsClass
  pub class_from_str : String → Res String DnsClass
  pub class_from_u16 : ℕ → DnsClass
  pub class_to_u16 : DnsClass → ℕ
  pub class_to_string : DnsClass → String

-- Conversions of codes.
pub record IsLawful (H : Hickory) : Type 0 where
  pub record_type_u16 : (n : ℕ) → n < 2 ^ 16 → H.record_type_to_u16 (H.record_type_from_u16 n) ≡ n
  pub unknown_code_lem :
      (n c : ℕ) → n < 2 ^ 16 → H.unknown_code (H.record_type_from_u16 n) ≡ some c → c ≡ n
  pub class_u16 : (n : ℕ) → n < 2 ^ 16 → H.class_to_u16 (H.class_from_u16 n) ≡ n
