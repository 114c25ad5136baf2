-- ===== src/Constants/Commands.antt =====
-- The module `commands` of src/dns/constants.rs.
use nu_plugin_dns.Prelude.{String}

abbrev pub query : String
query = "dns query"
