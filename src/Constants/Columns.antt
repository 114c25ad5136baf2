-- ===== src/Constants/Columns.antt =====
-- The module `columns` of src/dns/constants.rs.
use nu_plugin_dns.Prelude.{String, List, [], ◌∷◌}

abbrev pub name : String
name = "name"

abbrev pub type : String
type = "type"

abbrev pub class : String
class = "class"

abbrev pub message_cols : List String
message_cols = "header" ∷ "question" ∷ "answer" ∷ "authority" ∷ "additional" ∷ "edns" ∷ "size" ∷ []

abbrev pub header_cols : List String
header_cols =
    "id" ∷ "message_type" ∷ "op_code" ∷ "authoritative" ∷ "truncated" ∷ "recursion_desired"
    ∷ "recursion_available" ∷ "authentic_data" ∷ "response_code" ∷ "query_count" ∷ "answer_count"
    ∷ "name_server_count" ∷ "additional_count" ∷ []

abbrev pub query_cols : List String
query_cols = "name" ∷ "type" ∷ "class" ∷ []

abbrev pub record_cols : List String
record_cols = "name" ∷ "type" ∷ "class" ∷ "ttl" ∷ "rdata" ∷ []

abbrev pub code_cols : List String
code_cols = "name" ∷ "code" ∷ []
