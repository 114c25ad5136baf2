-- ===== src/Hickory/Message.antt =====
-- hickory's `RData`, resource records and messages, by what the code reads of them.
use nu_plugin_dns.Prelude.{ℕ, Bool, String, List, Option}
use nu_plugin_dns.Hickory.{Hickory}
use nu_plugin_dns.Hickory.Rdata.{Caa, Hinfo, Svcb, Mx, Naptr, Soa, Srv, Sshfp, Tlsa}
use nu_plugin_dns.Hickory.Rdata.Dnssec.{DnssecRdata}
use nu_plugin_dns.Hickory.Rdata.Edns.{Opt, Edns}

pub data Rdata : Type 0 where
  caa : Caa → Rdata
  hinfo : Hinfo → Rdata
  https svcb : Svcb → Rdata
  mx : Mx → Rdata
  naptr : Naptr → Rdata
  null : List ℕ → Rdata
  ns : String → Rdata
  openpgpkey : List ℕ → Rdata
  opt : Opt → Rdata
  ptr : String → Rdata
  soa : Soa → Rdata
  srv : Srv → Rdata
  sshfp : Sshfp → Rdata
  tlsa : Tlsa → Rdata
  txt : List (List ℕ) → Rdata
  dnssec : DnssecRdata → Rdata
  -- The code and the data.
  unknown : ℕ → List ℕ → Rdata
  -- Any other variant (A, AAAA, CNAME, ...), as printed.
  other : String → Rdata

-- `ttl` is a u32.
pub record Record (H : Hickory) : Type 0 where
  pub name_labels : H.Name
  pub rr_type : H.RecordType
  pub dns_class : H.DnsClass
  pub ttl : ℕ
  pub rdata : Option Rdata

pub record Query (H : Hickory) : Type 0 where
  pub name : H.Name
  pub query_type : H.RecordType
  pub query_class : H.DnsClass

-- A value of one of hickory's enums of codes: its printed text and its number.
pub record Code : Type 0 where
  pub text : String
  pub number : ℕ

pub record Header : Type 0 where
  pub id : ℕ
  pub message_type : Code
  pub op_code : Code
  pub authoritative : Bool
  pub truncated : Bool
  pub recursion_desired : Bool
  pub recursion_available : Bool
  pub authentic_data : Bool
  pub response_code : Code
  pub query_count : ℕ
  pub answer_count : ℕ
  pub name_server_count : ℕ
  pub additional_count : ℕ

pub record Message (H : Hickory) : Type 0 where
  pub header : Header
  pub queries : List (Query H)
  pub answers : List (Record H)
  pub name_servers : List (Record H)
  pub additionals : List (Record H)
  pub edns : Option Edns
