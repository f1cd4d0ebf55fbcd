-- ===== src/Dns/Tests/Server.antt =====
-- A resolver of an alias and its address, that the theorem on responses applies to.
use ruvname.Prelude.{ℕ, ◌≡◌, refl, true, some, [], ◌∷◌, if◌then◌else◌, ◌+◌}
use ruvname.Bytes.{Bytes, codes, same_hash}
use ruvname.Dns.Address.{ipv4}
use ruvname.Dns.Record.{DnsRecord, QueryType}
use ruvname.Dns.Cache.{same_record}
use ruvname.Dns.Packet.{DnsPacket, new_packet}
use ruvname.Dns.Server.{Resolver, execute_query, resolve_cnames, get_unresolved_cnames, merge}
use ruvname.Dns.Server.Response.{IsResponse, ByQuestion, execute_query-IsResponse}

-- An alias of `ruv`.
abbrev alias : DnsRecord
alias = DnsRecord.cname (codes "www.ruv") (codes "ruv") 60

abbrev address : DnsRecord
address = DnsRecord.a (codes "ruv") (ipv4 10 0 0 1) 60

-- The same but for the time to live.
abbrev lasting : DnsRecord
lasting = DnsRecord.a (codes "ruv") (ipv4 10 0 0 1) 61

abbrev found : Bytes → DnsPacket
found name =
    if same_hash name (codes "www.ruv")
    then record new_packet { answers = alias ∷ alias ∷ [] }
    else record new_packet { answers = address ∷ address ∷ lasting ∷ [] }

-- The state counts the questions.
abbrev two_names : Resolver
two_names = record {
  Self = ℕ;
  resolve = λ count qname qtype recursive. (some (found qname), count + 1);
}

abbrev request : DnsPacket
request = record new_packet {
  header = record new_packet.header { id = 7; recursion_desired = true };
  questions = record { name = codes "www.ruv"; qtype = QueryType.a } ∷ [];
}

-- The alias stands twice and is followed twice; each record is told once.
execute_query-two_names :
    (execute_query two_names true 0 request).answers ≡ alias ∷ address ∷ lasting ∷ []
unfolding execute_query get_unresolved_cnames resolve_cnames merge same_record same_hash
execute_query-two_names = refl

execute_query-IsResponse_example :
    IsResponse two_names true 0 request (execute_query two_names true 0 request)
    × ByQuestion two_names true 0 request request.questions (execute_query two_names true 0 request)
execute_query-IsResponse_example = execute_query-IsResponse two_names true 0 request
