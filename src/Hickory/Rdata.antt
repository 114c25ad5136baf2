-- ===== src/Hickory/Rdata.antt =====
-- The record data that src/dns/serde.rs takes apart: for each variant of hickory's `RData` that it
-- names, what it reads by the accessors. A value that it only prints (a name, an algorithm, an
-- address, a key of a parameter) is the text that is printed. Numbers are unsigned, of the widths
-- that the comments give.
pub mod Dnssec
pub mod Edns
use nu_plugin_dns.Prelude.{ℕ, ℤ, Bool, String, List, Option}

pub data CaaValue : Type 0 where
  issuer : Option String → List (String × String) → CaaValue
  url : String → CaaValue
  unknown : List ℕ → CaaValue

pub record Caa : Type 0 where
  pub issuer_critical : Bool
  pub tag : String
  pub value : CaaValue

pub record Hinfo : Type 0 where
  pub cpu : List ℕ
  pub os : List ℕ

pub data SvcParamValue : Type 0 where
  mandatory alpn : List String → SvcParamValue
  no_default_alpn : String → SvcParamValue
  port : ℕ → SvcParamValue
  ipv4_hint ipv6_hint : List String → SvcParamValue
  ech_config unknown : List ℕ → SvcParamValue

-- `svc_priority` and `port` are u16.
pub record Svcb : Type 0 where
  pub svc_priority : ℕ
  pub target_name : String
  pub svc_params : List (String × SvcParamValue)

pub record Mx : Type 0 where
  pub preference : ℕ
  pub exchange : String

pub record Naptr : Type 0 where
  pub order : ℕ
  pub preference : ℕ
  pub flags : List ℕ
  pub services : List ℕ
  pub regexp : List ℕ
  pub replacement : String

-- `serial` and `minimum` are u32, the other times i32.
pub record Soa : Type 0 where
  pub mname : String
  pub rname : String
  pub serial : ℕ
  pub refresh : ℤ
  pub retry : ℤ
  pub expire : ℤ
  pub minimum : ℕ

pub record Srv : Type 0 where
  pub priority : ℕ
  pub weight : ℕ
  pub port : ℕ
  pub target : String

pub data SshfpAlgorithm : Type 0 where
  reserved rsa dsa ecdsa ed25519 ed448 : SshfpAlgorithm
  unassigned : ℕ → SshfpAlgorithm

pub data FingerprintType : Type 0 where
  reserved sha1 sha256 : FingerprintType
  unassigned : ℕ → FingerprintType

pub record Sshfp : Type 0 where
  pub algorithm : SshfpAlgorithm
  pub fingerprint_type : FingerprintType
  pub fingerprint : List ℕ

pub data CertUsage : Type 0 where
  ca service trust_anchor domain_issued private : CertUsage
  unassigned : ℕ → CertUsage

pub data Selector : Type 0 where
  full spki private : Selector
  unassigned : ℕ → Selector

pub data Matching : Type 0 where
  raw sha256 sha512 private : Matching
  unassigned : ℕ → Matching

pub record Tlsa : Type 0 where
  pub cert_usage : CertUsage
  pub selector : Selector
  pub matching : Matching
  pub cert_data : List ℕ
