-- ===== src/Blockchain/Filter.antt =====
-- src/blockchain/filter.rs: answers to DNS queries from the domains of the chain. The query that goes
-- to a name server of a domain is a parameter.
pub mod Answers
pub mod Expired
use ruvname.Prelude.{
  ℕ, ◌+◌, ℤ, Bool, true, false, not, ◌&&◌, ◌||◌, Option, none, some, List, [], ◌∷◌, ◌++◌,
  if◌then◌else◌, any, map, is_some,
}
use ruvname.Bytes.{Bytes, codes, is_empty, same_hash}
use ruvname.Dns.Address.{IpAddr, v4, v6}
use ruvname.Dns.Record
use ruvname.Dns.Record.{QueryType, DnsRecord, get_querytype, get_domain, same_type}
use ruvname.Dns.Name.{split}
use ruvname.Dns.Packet.{DnsPacket, DnsQuestion, ResultCode, noerror, nxdomain, new_packet}
use ruvname.Blockchain.Block.{Host, DomainData}
use ruvname.Blockchain.Chain.{Chain, get_soa_serial, is_available_zone, get_domain_info}

abbrev pub name_server : Bytes
name_server = codes "ns.ruvcha.in"

abbrev pub server_admin : Bytes
server_admin = codes "admin.ruvcha.in"

unfoldable pub add_soa_record : (zone : Bytes) → (serial : ℕ) → DnsPacket → DnsPacket
add_soa_record zone serial packet = record packet {
  authorities =
      packet.authorities
      ++ DnsRecord.soa zone name_server server_admin serial 3600 300 604800 60 60 ∷ [];
}

-- The packet of an answer, with its flag and its question.
abbrev pub authoritative : (qname : Bytes) → QueryType → DnsPacket
authoritative qname qtype = record new_packet {
  header = record new_packet.header { authoritative_answer = true };
  questions = record { name = qname; qtype = qtype } ∷ [];
}

abbrev pub with_code : ResultCode → DnsPacket → DnsPacket
with_code code packet = record packet { header = record packet.header { rescode = code } }

abbrev pub has_records : List DnsRecord → Bool
has_records [] = false
has_records (r ∷ rs) = true

-- It always gives a packet.
unfoldable pub create_packet :
    (serial : ℕ) → (qname : Bytes) → QueryType → (zone : Bytes) → List DnsRecord → DnsPacket
unfolding add_soa_record
create_packet serial qname qtype zone answers =
    if has_records answers
    then record (authoritative qname qtype) {
      answers = answers;
      authorities = DnsRecord.ns zone name_server 600 ∷ [];
    }
    else add_soa_record zone serial (with_code nxdomain (authoritative qname qtype))

-- The hosts of the domain's own NS records.
abbrev pub ns_hosts : List DnsRecord → List Bytes
ns_hosts [] = []
ns_hosts (DnsRecord.ns domain host ttl ∷ rs) =
    let rest = ns_hosts rs in if same_hash domain (codes "@") then host ∷ rest else rest
ns_hosts (r ∷ rs) = ns_hosts rs

-- The address once for each host of this name.
abbrev pub glue_of : (top_domain : Bytes) → (domain : Bytes) → IpAddr → List Bytes → List IpAddr
glue_of top_domain domain addr [] = []
glue_of top_domain domain addr (host ∷ hosts) =
    let rest = glue_of top_domain domain addr hosts in
    if same_hash (domain ++ b'.' ∷ top_domain) host then addr ∷ rest else rest

abbrev pub glue_servers : (top_domain : Bytes) → (hosts : List Bytes) → List DnsRecord → List IpAddr
glue_servers top_domain hosts [] = []
glue_servers top_domain hosts (DnsRecord.a domain addr ttl ∷ rs) =
    glue_of top_domain domain (v4 addr) hosts ++ glue_servers top_domain hosts rs
glue_servers top_domain hosts (DnsRecord.aaaa domain addr ttl ∷ rs) =
    glue_of top_domain domain (v6 addr) hosts ++ glue_servers top_domain hosts rs
glue_servers top_domain hosts (r ∷ rs) = glue_servers top_domain hosts rs

-- `*domain = String::from(qname)` in the variants that the pattern lists: not in PTR and OPT.
unfoldable pub renamed : (qname : Bytes) → DnsRecord → DnsRecord
renamed q (DnsRecord.a domain addr ttl) = DnsRecord.a q addr ttl
renamed q (DnsRecord.aaaa domain addr ttl) = DnsRecord.aaaa q addr ttl
renamed q (DnsRecord.ns domain host ttl) = DnsRecord.ns q host ttl
renamed q (DnsRecord.cname domain host ttl) = DnsRecord.cname q host ttl
renamed q (DnsRecord.srv domain priority weight port host ttl) =
    DnsRecord.srv q priority weight port host ttl
renamed q (DnsRecord.tlsa domain usage selector matching value ttl) =
    DnsRecord.tlsa q usage selector matching value ttl
renamed q (DnsRecord.mx domain priority host ttl) = DnsRecord.mx q priority host ttl
renamed q (DnsRecord.unknown domain qtype data_len ttl) = DnsRecord.unknown q qtype data_len ttl
renamed q (DnsRecord.soa domain m_name r_name serial refresh retry expire minimum ttl) =
    DnsRecord.soa q m_name r_name serial refresh retry expire minimum ttl
renamed q (DnsRecord.txt domain value ttl) = DnsRecord.txt q value ttl
renamed q r = r

abbrev pub is_named : Bytes → DnsRecord → Bool
is_named name r = elim (get_domain r) [ none ↦ false | some domain ↦ same_hash domain name ]

abbrev pub is_cname : DnsRecord → Bool
is_cname r = same_type (get_querytype r) QueryType.cname

-- The record as the first loop leaves it.
unfoldable pub matched : (qname subdomain : Bytes) → QueryType → DnsRecord → DnsRecord
unfolding renamed get_domain get_querytype same_type
matched qname subdomain qtype r =
    if (same_type (get_querytype r) qtype || is_cname r)
      && ((is_named (codes "@") r && is_empty subdomain) || is_named subdomain r)
    then renamed qname r
    else r

-- Whether the first loop takes a record that it has renamed.
unfoldable pub is_match : (qname subdomain : Bytes) → QueryType → DnsRecord → Bool
unfolding get_domain get_querytype same_type
is_match qname subdomain qtype r =
    (same_type (get_querytype r) qtype || is_cname r) && (is_named qname r || is_named subdomain r)

-- The answers, and the last CNAME, which is kept apart.
unfoldable pub collect :
    (qname subdomain : Bytes)
    → QueryType
    → List DnsRecord
    → List DnsRecord × Option DnsRecord
    → List DnsRecord × Option DnsRecord
unfolding is_match
collect qname subdomain qtype [] found = found
collect qname subdomain qtype (r ∷ rs) (answers, cname) =
    let skip = collect qname subdomain qtype rs (answers, cname) in
    let alias = collect qname subdomain qtype rs (answers, some r) in
    let take = collect qname subdomain qtype rs (answers ++ r ∷ [], cname) in
    if is_match qname subdomain qtype r then (if is_cname r then alias else take) else skip

abbrev pub or_cname : List DnsRecord × Option DnsRecord → List DnsRecord
or_cname ([], none) = []
or_cname ([], some r) = r ∷ []
or_cname (r ∷ rs, cname) = r ∷ rs

unfoldable pub is_wildcard : QueryType → DnsRecord → Bool
unfolding get_domain get_querytype same_type
is_wildcard qtype r = same_type (get_querytype r) qtype && is_named (codes "*") r

-- The answers of the second loop, from records named `*`.
unfoldable pub wildcards : (qname : Bytes) → QueryType → List DnsRecord → List DnsRecord
unfolding is_wildcard renamed
wildcards qname qtype [] = []
wildcards qname qtype (r ∷ rs) =
    let rest = wildcards qname qtype rs in
    if is_wildcard qtype r then renamed qname r ∷ rest else rest

-- `unwrap_or(String::new())`
abbrev pub domain_or_empty : DnsRecord → Bytes
domain_or_empty r = elim (get_domain r) [ none ↦ [] | some domain ↦ domain ]

-- Whether the second loop finds that the name exists.
unfoldable pub name_exists : (subdomain : Bytes) → List DnsRecord → Bool
unfolding get_domain
name_exists subdomain rs =
    any (λ r. same_hash (domain_or_empty r) subdomain || same_hash (domain_or_empty r) (codes "*"))
      rs

-- The parts of `rsplitn(3, '.')`.
pub data Parts : Type 0 where
  one : (zone : Bytes) → Parts
  two : (name zone : Bytes) → Parts
  more : (subdomain name zone : Bytes) → Parts

abbrev pub add_part : Bytes → Parts → Parts
add_part label (Parts.one zone) = Parts.two label zone
add_part label (Parts.two name zone) = Parts.more label name zone
add_part label (Parts.more subdomain name zone) = Parts.more (label ++ b'.' ∷ subdomain) name zone

unfoldable pub parts_of : List Bytes → Parts
parts_of [] = Parts.one []
parts_of (label ∷ []) = Parts.one label
parts_of (label ∷ next ∷ labels) = add_part label (parts_of (next ∷ labels))

-- `send_udp_query` to a server, on port 53.
abbrev pub AskServer : Type 0
AskServer = (qname : Bytes) → QueryType → IpAddr → Option DnsPacket

unfoldable pub lookup_from_ns :
    AskServer → (qname : Bytes) → QueryType → List IpAddr → Option DnsPacket
lookup_from_ns ask qname qtype [] = none
lookup_from_ns ask qname qtype (server ∷ servers) =
    let rest = lookup_from_ns ask qname qtype servers in
    elim (ask qname qtype server) [ none ↦ rest | some packet ↦ some packet ]

module _ (host : Host) (ask : AskServer) (now : ℤ) (c : Chain) where
  -- `none` where the domain has no name server of its own that it gives the address of.
  unfoldable pub resolve_by_ns :
      (qname : Bytes) → QueryType → (top_domain : Bytes) → DomainData → Option (Option DnsPacket)
  unfolding lookup_from_ns
  resolve_by_ns qname qtype top_domain d =
      elim (glue_servers top_domain (ns_hosts d.records) d.records) [
        | [] ↦ none
        | server ∷ servers ↦ some (lookup_from_ns ask qname qtype (server ∷ servers))
      ]

  -- The answer from the records of the domain.
  unfoldable pub answer_from :
      (qname subdomain zone : Bytes) → QueryType → List DnsRecord → DnsPacket
  unfolding collect matched wildcards name_exists create_packet get_soa_serial
  answer_from qname subdomain zone qtype records =
      let left = map (matched qname subdomain qtype) records in
      let direct = or_cname (collect qname subdomain qtype left ([], none)) in
      let answers = if has_records direct then direct else wildcards qname qtype left in
      let exists = has_records direct || is_empty subdomain || name_exists subdomain left in
      let packet = create_packet (get_soa_serial c) qname qtype zone answers in
      if exists && not (has_records packet.answers) then with_code noerror packet else packet

  abbrev pub from_data :
      (qname subdomain top_domain zone : Bytes) → QueryType → Option DomainData → Option DnsPacket
  from_data qname subdomain top_domain zone qtype none = none
  from_data qname subdomain top_domain zone qtype (some d) =
      elim (resolve_by_ns qname qtype top_domain d) [
        | some result ↦ result
        | none ↦ some (answer_from qname subdomain zone qtype d.records)
      ]

  -- The domain is not on the chain, or is over.
  abbrev pub without_data : (qname zone : Bytes) → QueryType → Option DnsPacket
  without_data qname zone qtype =
      if is_available_zone c.zones zone
      then some
          (add_soa_record zone (get_soa_serial c) (with_code nxdomain (authoritative qname qtype)))
      else none

  unfoldable pub lookup_domain :
      (qname subdomain top_domain zone : Bytes) → QueryType → Option DnsPacket
  unfolding get_domain_info resolve_by_ns answer_from is_available_zone add_soa_record
      get_soa_serial
  lookup_domain qname subdomain top_domain zone qtype =
      elim (get_domain_info host c now top_domain) [
        | none ↦ without_data qname zone qtype
        | some text ↦ from_data qname subdomain top_domain zone qtype (host.parse_domain_data text)
      ]

  abbrev pub lookup_parts : (qname : Bytes) → QueryType → Parts → Option DnsPacket
  lookup_parts qname qtype (Parts.one zone) =
      if is_available_zone c.zones zone
      then some (add_soa_record zone (get_soa_serial c) new_packet)
      else none
  lookup_parts qname qtype (Parts.two name zone) =
      lookup_domain qname [] (name ++ b'.' ∷ zone) zone qtype
  lookup_parts qname qtype (Parts.more subdomain name zone) =
      lookup_domain qname subdomain (name ++ b'.' ∷ zone) zone qtype

  -- `none` leaves the query to the next filter or resolver.
  unfoldable pub lookup : (qname : Bytes) → QueryType → Option DnsPacket
  unfolding lookup_domain parts_of split is_available_zone add_soa_record get_soa_serial
  lookup qname qtype = lookup_parts qname qtype (parts_of (split qname))
