-- ===== src/Config.antt =====
-- The record `Config` of src/dns/config.rs, with the modes of src/dns/serde.rs that it holds.
pub mod Settings
pub mod FromValues
pub mod Answers
pub mod Laws
use nu_plugin_dns.Prelude.{ℕ, Bool, String, List, Option}
use nu_plugin_dns.Nu.{Spanned}
use nu_plugin_dns.Constants.{Protocol}
use nu_plugin_dns.Hickory.{Hickory}

pub data DnssecMode : Type 0 where
  none strict opportunistic : DnssecMode

-- std's `SocketAddr`: the address as printed, and the port.
pub record SocketAddr : Type 0 where
  pub ip : String
  pub port : ℕ

-- The timeout is in nanoseconds.
pub record Config (H : Hickory) : Type 0 where
  pub protocol : Spanned Protocol
  pub server : Spanned SocketAddr
  pub qtypes : Spanned (List (Spanned H.RecordType))
  pub class : Spanned H.DnsClass
  pub code : Spanned Bool
  pub dnssec_mode : Spanned DnssecMode
  pub dns_name : Option (Spanned String)
  pub tasks : Spanned ℕ
  pub timeout : Spanned ℕ
