-- ===== src/Blockchain/Tests/Filter.antt =====
-- The theorems on the filter at a domain of a toy chain.
use ruvname.Prelude.{◌≡◌, refl, inl, pos, true, false, none, some, List, [], ◌∷◌, All, arith}
use ruvname.Bytes.{Bytes, codes}
use ruvname.Dns.Address.{ipv4}
use ruvname.Dns.Name.{split}
use ruvname.Dns.Record.{QueryType, DnsRecord}
use ruvname.Dns.Packet.{DnsPacket}
use ruvname.Blockchain.Table.{DomainRow}
use ruvname.Blockchain.Block.{hash_identity}
use ruvname.Blockchain.Chain.{Chain, get_soa_serial, is_available_zone}
use ruvname.Blockchain.Filter.{AskServer, Parts, parts_of, lookup, answer_from}
use ruvname.Blockchain.Filter.Answers.{IsAnswer, IsComplete, answer_from-IsAnswer}
use ruvname.Blockchain.Filter.Expired.{IsOver, IsDenied, lookup-IsOver}
use ruvname.Blockchain.Samples.{host, owned, second, check_runs}

abbrev no_server : AskServer
no_server = λ qname qtype server. none

abbrev records : List DnsRecord
records = DnsRecord.a (codes "@") (ipv4 1 2 3 4) 60 ∷ DnsRecord.a (codes "*") (ipv4 1 2 3 5) 60 ∷ []

abbrev top : Bytes
top = codes "a.ruv"

abbrev zone : Bytes
zone = codes "ruv"

-- The domain, renewed at second 0.
abbrev top_row : DomainRow
top_row = record {
  id = 1;
  timestamp = pos 0;
  identity = hash_identity host top none;
  confirmation = [];
  payload = [];
  signing = 1 ∷ [];
  encryption = [];
}

abbrev with_top : Chain
with_top = record owned {
  db = record owned.db { domains = top_row ∷ [] };
  last_block = some second;
  zones = record { name = zone; ruvchain = false } ∷ [];
}

answer_from-IsAnswer_example :
    All
      (IsAnswer top [] QueryType.a records)
      (answer_from host no_server (pos 9) with_top top [] zone QueryType.a records).answers
    × ((answer_from host no_server
          (pos 9)
          with_top
          top
          []
          zone
          QueryType.a
          records).header.authoritative_answer
        ≡ true)
    × IsComplete top [] QueryType.a zone
        (get_soa_serial with_top)
        (answer_from host no_server (pos 9) with_top top [] zone QueryType.a records)
answer_from-IsAnswer_example =
    answer_from-IsAnswer top [] QueryType.a host no_server (pos 9) with_top zone records

top-IsOver : IsOver host (pos 40000000) with_top top top_row
unfolding check_runs hash_identity
top-IsOver = (refl, omega arith)

zone_listed : is_available_zone with_top.zones zone ≡ true
unfolding is_available_zone check_runs
zone_listed = refl

top_parts : parts_of (split top) ≡ Parts.two (codes "a") zone
unfolding parts_of split
top_parts = refl

lookup-IsOver_example :
    (p : DnsPacket) × (lookup host no_server (pos 40000000) with_top top QueryType.a ≡ some p)
    × IsDenied top zone QueryType.a (get_soa_serial with_top) p
lookup-IsOver_example =
    lookup-IsOver host no_server (pos 40000000) with_top top QueryType.a top_row [] (codes "a") zone
      top-IsOver zone_listed (inl top_parts)
