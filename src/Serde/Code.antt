-- ===== src/Serde/Code.antt =====
-- `code_to_record_u16` and `code_to_record_u8` of src/dns/serde.rs.
use nu_plugin_dns.Prelude.{ℕ, pos, String, [], ◌∷◌, if◌then◌else◌}
use nu_plugin_dns.Nu.{Value, int_value, string_value, zip_record}
use nu_plugin_dns.Hickory.{Hickory}
use nu_plugin_dns.Config.{Config}
use nu_plugin_dns.Constants.Columns.{code_cols}

-- The bounds `Display + Into<u16>` and `Display + Into<u8>` on a type of codes.
pub record Coded (C : Type 0) : Type 0 where
  pub to_string : C → String
  pub into : C → ℕ

module _ {H : Hickory} {C : Type 0} (coded : Coded C) (code : C) (config : Config H) where
  unfoldable pub code_to_record_u16 : Value
  code_to_record_u16 =
      let code_string = string_value (coded.to_string code) in
      if config.code.item
      then zip_record code_cols (code_string ∷ int_value (pos (coded.into code)) ∷ [])
      else code_string

  unfoldable pub code_to_record_u8 : Value
  code_to_record_u8 =
      let code_string = string_value (coded.to_string code) in
      if config.code.item
      then zip_record code_cols (code_string ∷ int_value (pos (coded.into code)) ∷ [])
      else code_string
