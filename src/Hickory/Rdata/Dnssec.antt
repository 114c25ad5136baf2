-- ===== src/Hickory/Rdata/Dnssec.antt =====
-- The variants of hickory's `DNSSECRData`, by what the code reads of them.
use nu_plugin_dns.Prelude.{ℕ, Bool, String, List}

pub data DigestType : Type 0 where
  sha1 sha256 gostr34_11_94 sha384 sha512 ed25519 other : DigestType

pub record Ds : Type 0 where
  pub key_tag : ℕ
  pub algorithm : String
  pub digest_type : DigestType
  pub digest : List ℕ

pub record Dnskey : Type 0 where
  pub zone_key : Bool
  pub secure_entry_point : Bool
  pub revoke : Bool
  pub algorithm : String
  pub public_key : List ℕ

pub data KeyTrust : Type 0 where
  not_auth not_private auth_or_private do_not_trust : KeyTrust

pub data KeyUsage : Type 0 where
  host zone entity reserved : KeyUsage

pub record Signatory : Type 0 where
  pub zone : Bool
  pub strong : Bool
  pub unique : Bool
  pub general : Bool

pub data KeyProtocol : Type 0 where
  reserved tls email dnssec ipsec all : KeyProtocol
  other : ℕ → KeyProtocol

pub record Key : Type 0 where
  pub key_trust : KeyTrust
  pub key_usage : KeyUsage
  pub signatory : Signatory
  pub protocol : KeyProtocol
  pub algorithm : String
  pub public_key : List ℕ

pub record Nsec : Type 0 where
  pub next_domain_name : String
  pub type_bit_maps : List String

pub data Nsec3HashAlgorithm : Type 0 where
  sha1 : Nsec3HashAlgorithm

pub record Nsec3 : Type 0 where
  pub hash_algorithm : Nsec3HashAlgorithm
  pub opt_out : Bool
  pub iterations : ℕ
  pub salt : List ℕ
  pub next_hashed_owner_name : List ℕ
  pub type_bit_maps : List String

pub record Nsec3param : Type 0 where
  pub hash_algorithm : Nsec3HashAlgorithm
  pub opt_out : Bool
  pub iterations : ℕ
  pub salt : List ℕ
  pub flags : ℕ

-- `original_ttl`, `sig_expiration` and `sig_inception` are u32.
pub record Sig : Type 0 where
  pub type_covered : String
  pub algorithm : String
  pub num_labels : ℕ
  pub original_ttl : ℕ
  pub sig_expiration : ℕ
  pub sig_inception : ℕ
  pub key_tag : ℕ
  pub signer_name : String
  pub sig : List ℕ

-- `time` is a u64 and `fudge` a u16.
pub record Tsig : Type 0 where
  pub algorithm : String
  pub time : ℕ
  pub fudge : ℕ
  pub mac : List ℕ

pub data DnssecRdata : Type 0 where
  dnskey cdnskey : Dnskey → DnssecRdata
  ds cds : Ds → DnssecRdata
  key : Key → DnssecRdata
  nsec : Nsec → DnssecRdata
  nsec3 : Nsec3 → DnssecRdata
  nsec3param : Nsec3param → DnssecRdata
  sig : Sig → DnssecRdata
  tsig : Tsig → DnssecRdata
  -- The code and the data.
  unknown : ℕ → List ℕ → DnssecRdata
  -- Any other variant, as printed.
  other : String → DnssecRdata
