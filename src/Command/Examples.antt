-- ===== src/Command/Examples.antt =====
-- The examples that `PluginCommand for DnsQuery` of src/dns/commands/query.rs shows to the user.
use nu_plugin_dns.Prelude.{String, List, [], ◌∷◌}

-- nu_protocol's `Example`, none of which has a result here.
pub record Example : Type 0 where
  pub example : String
  pub desc : String

abbrev shows : String → String → Example
shows example desc = record { example = example; desc = desc }

unfoldable pub examples : List Example
examples =
    shows "dns query google.com" "simple query for A / AAAA records"
    ∷ shows "dns query --type CNAME google.com" "specify query type"
    ∷ shows "dns query --type [cname, mx] -c google.com" "specify multiple query types"
    ∷ shows "dns query --type [5, 15] -c google.com"
        "specify query types by numeric ID, and get numeric IDs in output"
    ∷ shows "'google.com' | dns query" "pipe name to command"
    ∷ shows "['google.com', 'amazon.com'] | dns query" "pipe lists of names to command"
    ∷ shows
        "[ $\"ding(char -u '07')-ds\", \"metric\", \"gstatic\", \"com\" ] | each { into binary } | collect { $in } | dns query"
        "query record name that has labels with non-renderable bytes"
    ∷ shows "[{{name: 'google.com', type: 'A'}}, {{name: 'amazon.com', type: 'A'}}] | dns query"
        "pipe table of queries to command (ignores --type flag)"
    ∷ []
