-- ===== src/Hickory/Rdata/Edns.antt =====
-- The options of an OPT record, and the EDNS part of a message.
use nu_plugin_dns.Prelude.{ℕ, Bool, String, List}

pub data EdnsCode : Type 0 where
  zero llq ul nsid dau dhu n3u subnet expire cookie keepalive padding chain : EdnsCode
  unknown : ℕ → EdnsCode
  -- Any other code, as its debug text.
  other : String → EdnsCode

-- The supported algorithms are texts, as printed.
pub data EdnsOption : Type 0 where
  dau dhu n3u : List String → EdnsOption
  unknown : ℕ → List ℕ → EdnsOption
  -- A variant that the code does not name, such as `Subnet`.
  other : EdnsOption

-- The entries of the options' map, in the order of its iterator.
abbrev pub Opt : Type 0
Opt = List (EdnsCode × EdnsOption)

pub record Edns : Type 0 where
  pub rcode_high : ℕ
  pub version : ℕ
  pub dnssec_ok : Bool
  pub max_payload : ℕ
  pub options : Opt
