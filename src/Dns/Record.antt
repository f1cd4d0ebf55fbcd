-- ===== src/Dns/Record.antt =====
-- src/dns/protocol.rs: query types, records, and what a record says of itself.
-- src/commons/mod.rs: `is_ruvchain` and `is_ruvchain_record`, and `to_hex`.
use ruvname.Prelude.{
  ℕ, ◌+◌, ◌-◌, ◌/◌, ◌%◌, ◌≡◌, Bool, true, false, ◌||◌, Option, none, some, [], ◌∷◌, ◌++◌, ◌==◌, ltb,
  if◌then◌else◌, arith,
}
use ruvname.Bytes.{Bytes, codes}
use ruvname.Dns.Address.{Ipv4Addr, Ipv6Addr, ipv6, IpAddr, v4, v6, octet_text, ipv4_text, ipv6_text}

pub data QueryType : Type 0 where
  unknown : ℕ → QueryType
  a ns cname soa ptr mx txt aaaa srv opt tlsa : QueryType

unfoldable pub to_num : QueryType → ℕ
to_num (unknown x) = x
to_num a = 1
to_num ns = 2
to_num cname = 5
to_num soa = 6
to_num ptr = 12
to_num mx = 15
to_num txt = 16
to_num aaaa = 28
to_num srv = 33
to_num opt = 41
to_num tlsa = 52

unfoldable pub from_num : ℕ → QueryType
from_num num =
    if num == 1
    then a
    else if num == 2
    then ns
    else if num == 5
    then cname
    else if num == 6
    then soa
    else if num == 12
    then ptr
    else if num == 15
    then mx
    else if num == 16
    then txt
    else if num == 28
    then aaaa
    else if num == 33
    then srv
    else if num == 41
    then opt
    else if num == 52
    then tlsa
    else unknown num

-- The derived `==` of QueryType.
unfoldable pub same_type : QueryType → QueryType → Bool
same_type (unknown x) (unknown y) = x == y
same_type (unknown x) q = false
same_type a a = true
same_type ns ns = true
same_type cname cname = true
same_type soa soa = true
same_type ptr ptr = true
same_type mx mx = true
same_type txt txt = true
same_type aaaa aaaa = true
same_type srv srv = true
same_type opt opt = true
same_type tlsa tlsa = true
same_type p q = false

-- The fields stand in the order of the source; `TransientTtl` is its number.
pub data DnsRecord : Type 0 where
  unknown : (domain : Bytes) (qtype data_len ttl : ℕ) → DnsRecord
  a : (domain : Bytes) (addr : Ipv4Addr) (ttl : ℕ) → DnsRecord
  ns : (domain host : Bytes) (ttl : ℕ) → DnsRecord
  cname : (domain host : Bytes) (ttl : ℕ) → DnsRecord
  soa : (domain m_name r_name : Bytes) (serial refresh retry expire minimum ttl : ℕ) → DnsRecord
  ptr : (domain value : Bytes) (ttl : ℕ) → DnsRecord
  mx : (domain : Bytes) (priority : ℕ) (host : Bytes) (ttl : ℕ) → DnsRecord
  txt : (domain value : Bytes) (ttl : ℕ) → DnsRecord
  aaaa : (domain : Bytes) (addr : Ipv6Addr) (ttl : ℕ) → DnsRecord
  srv : (domain : Bytes) (priority weight port : ℕ) (host : Bytes) (ttl : ℕ) → DnsRecord
  opt : (packet_len flags : ℕ) (value : Bytes) → DnsRecord
  tlsa :
      (domain : Bytes) (certificate_usage selector matching_type : ℕ) (value : Bytes) (ttl : ℕ)
      → DnsRecord

unfoldable pub get_querytype : DnsRecord → QueryType
get_querytype (DnsRecord.unknown domain qtype data_len ttl) = QueryType.unknown qtype
get_querytype (DnsRecord.a domain addr ttl) = QueryType.a
get_querytype (DnsRecord.ns domain host ttl) = QueryType.ns
get_querytype (DnsRecord.cname domain host ttl) = QueryType.cname
get_querytype (DnsRecord.soa domain m_name r_name serial refresh retry expire minimum ttl) =
    QueryType.soa
get_querytype (DnsRecord.ptr domain value ttl) = QueryType.ptr
get_querytype (DnsRecord.mx domain priority host ttl) = QueryType.mx
get_querytype (DnsRecord.txt domain value ttl) = QueryType.txt
get_querytype (DnsRecord.aaaa domain addr ttl) = QueryType.aaaa
get_querytype (DnsRecord.srv domain priority weight port host ttl) = QueryType.srv
get_querytype (DnsRecord.opt packet_len flags value) = QueryType.opt
get_querytype (DnsRecord.tlsa domain usage selector matching value ttl) = QueryType.tlsa

unfoldable pub get_domain : DnsRecord → Option Bytes
get_domain (DnsRecord.unknown domain qtype data_len ttl) = some domain
get_domain (DnsRecord.a domain addr ttl) = some domain
get_domain (DnsRecord.ns domain host ttl) = some domain
get_domain (DnsRecord.cname domain host ttl) = some domain
get_domain (DnsRecord.soa domain m_name r_name serial refresh retry expire minimum ttl) =
    some domain
get_domain (DnsRecord.ptr domain value ttl) = some domain
get_domain (DnsRecord.mx domain priority host ttl) = some domain
get_domain (DnsRecord.txt domain value ttl) = some domain
get_domain (DnsRecord.aaaa domain addr ttl) = some domain
get_domain (DnsRecord.srv domain priority weight port host ttl) = some domain
get_domain (DnsRecord.opt packet_len flags value) = none
get_domain (DnsRecord.tlsa domain usage selector matching value ttl) = some domain

unfoldable pub get_ttl : DnsRecord → ℕ
get_ttl (DnsRecord.unknown domain qtype data_len ttl) = ttl
get_ttl (DnsRecord.a domain addr ttl) = ttl
get_ttl (DnsRecord.ns domain host ttl) = ttl
get_ttl (DnsRecord.cname domain host ttl) = ttl
get_ttl (DnsRecord.soa domain m_name r_name serial refresh retry expire minimum ttl) = ttl
get_ttl (DnsRecord.ptr domain value ttl) = ttl
get_ttl (DnsRecord.mx domain priority host ttl) = ttl
get_ttl (DnsRecord.txt domain value ttl) = ttl
get_ttl (DnsRecord.aaaa domain addr ttl) = ttl
get_ttl (DnsRecord.srv domain priority weight port host ttl) = ttl
get_ttl (DnsRecord.opt packet_len flags value) = 0
get_ttl (DnsRecord.tlsa domain usage selector matching value ttl) = ttl

-- One digit of `format!("{:01$X}", x, 2)`.
abbrev hex_digit : ℕ → ℕ
hex_digit d = if ltb d 10 then b'0' + d else b'A' + (d - 10)

unfoldable pub to_hex : Bytes → Bytes
to_hex [] = []
to_hex (x ∷ buf) = hex_digit (x / 16) ∷ hex_digit (x % 16) ∷ to_hex buf

unfoldable pub get_data : DnsRecord → Option Bytes
unfolding to_hex ipv4_text ipv6_text octet_text
get_data (DnsRecord.unknown domain qtype data_len ttl) = some domain
get_data (DnsRecord.a domain addr ttl) = some (ipv4_text addr)
get_data (DnsRecord.ns domain host ttl) = some host
get_data (DnsRecord.cname domain host ttl) = some host
get_data (DnsRecord.soa domain m_name r_name serial refresh retry expire minimum ttl) =
    some (m_name ++ (codes " @ " ++ r_name))
get_data (DnsRecord.ptr domain value ttl) = some value
get_data (DnsRecord.mx domain priority host ttl) = some host
get_data (DnsRecord.txt domain value ttl) = some value
get_data (DnsRecord.aaaa domain addr ttl) = some (ipv6_text addr)
get_data (DnsRecord.srv domain priority weight port host ttl) = some host
get_data (DnsRecord.opt packet_len flags value) = none
get_data (DnsRecord.tlsa domain usage selector matching value ttl) = some (
    domain
    ++ (b' '
        ∷ (octet_text usage
            ++ (b' '
                ∷ (octet_text selector
                    ++ (b' ' ∷ (octet_text matching ++ (b' ' ∷ to_hex value))))))))

-- `ipv6.octets()[0]` is the high byte of the first segment.
unfoldable pub is_ruvchain : IpAddr → Bool
is_ruvchain (v4 addr) = false
is_ruvchain (v6 (ipv6 s0 s1 s2 s3 s4 s5 s6 s7)) = s0 / 256 == 0xfa || s0 / 256 == 0xfb

unfoldable pub is_ruvchain_record : DnsRecord → Bool
unfolding is_ruvchain
is_ruvchain_record (DnsRecord.a domain addr ttl) = false
is_ruvchain_record (DnsRecord.aaaa domain addr ttl) = is_ruvchain (v6 addr)
is_ruvchain_record record_ = true

-- A query type survives the wire, if an unknown one does not carry a known number.
pub from_num-to_num : (n : ℕ) → to_num (from_num n) ≡ n
unfolding from_num to_num
from_num-to_num n = ground arith
