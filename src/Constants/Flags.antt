-- ===== src/Constants/Flags.antt =====
-- The module `flags` of src/dns/constants.rs.
use nu_plugin_dns.Prelude.{String}

abbrev pub dns_name : String
dns_name = "dns-name"

abbrev pub name : String
name = "name"

abbrev pub server : String
server = "server"

abbrev pub protocol : String
protocol = "protocol"

abbrev pub type : String
type = "type"

abbrev pub class : String
class = "class"

abbrev pub dnssec : String
dnssec = "dnssec"

abbrev pub code : String
code = "code"

abbrev pub tasks : String
tasks = "tasks"

abbrev pub timeout : String
timeout = "timeout"
