-- ===== src/Constants.antt =====
-- src/dns/constants.rs: flag names, columns, ports and defaults.
pub mod Flags
pub mod Columns
pub mod Commands
use nu_plugin_dns.Prelude.{ℕ, ◌*◌, ◌^◌}

-- hickory_resolver's `Protocol`: the variants that the code names, and any that it does not.
pub data Protocol : Type 0 where
  udp tcp tls https quic other : Protocol

-- `default::TASKS`
abbrev pub default_tasks : ℕ
default_tasks = 8

-- `default::TIMEOUT`, in nanoseconds
abbrev pub default_timeout : ℕ
default_timeout = 5 * 10 ^ 9

unfoldable pub default_port : Protocol → ℕ
default_port Protocol.udp = 53
default_port Protocol.tcp = 53
default_port Protocol.tls = 853
default_port Protocol.quic = 853
default_port Protocol.https = 443
default_port Protocol.other = 53
