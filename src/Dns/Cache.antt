-- ===== src/Dns/Cache.antt =====
-- src/dns/cache.rs: the cache of answers.
-- The clock counts nanoseconds. A hash map is a list of pairs, and a hash set a list of its members; the
-- order in which the standard library goes through a set is an argument of each call that does so.
pub mod Fresh
pub mod Repeated
pub mod Stored
use ruvname.Prelude.{
  ℕ, ◌+◌, ◌*◌, ◌%◌, Bool, true, false, not, ◌&&◌, Option, none, some, List, [], ◌∷◌, ◌++◌, ◌==◌,
  ltb, if◌then◌else◌, filter, map, get_key, put_key,
}
use mathlib.Core.List.{Permᴰ}
use ruvname.Bytes.{Bytes, same_hash}
use ruvname.Dns.Address.{Ipv4Addr, ipv4, Ipv6Addr, ipv6}
use ruvname.Dns.Record.{QueryType, DnsRecord, same_type, get_querytype, get_domain, get_ttl}
use ruvname.Dns.Packet.{ResultCode, DnsHeader, DnsPacket, new_header, new_packet}

abbrev same_ipv4 : Ipv4Addr → Ipv4Addr → Bool
same_ipv4 (ipv4 a b c d) (ipv4 a' b' c' d') = a == a' && b == b' && c == c' && d == d'

abbrev same_ipv6 : Ipv6Addr → Ipv6Addr → Bool
same_ipv6 (ipv6 a b c d e f g h) (ipv6 a' b' c' d' e' f' g' h') =
    a == a' && b == b' && c == c' && d == d' && e == e' && f == f' && g == g' && h == h'

-- The derived `==` of DnsRecord, in which times to live are compared too.
unfoldable pub same_record : DnsRecord → DnsRecord → Bool
same_record (DnsRecord.unknown d q l t) (DnsRecord.unknown d' q' l' t') =
    same_hash d d' && q == q' && l == l' && t == t'
same_record (DnsRecord.a d addr t) (DnsRecord.a d' addr' t') =
    same_hash d d' && same_ipv4 addr addr' && t == t'
same_record (DnsRecord.ns d host t) (DnsRecord.ns d' host' t') =
    same_hash d d' && same_hash host host' && t == t'
same_record (DnsRecord.cname d host t) (DnsRecord.cname d' host' t') =
    same_hash d d' && same_hash host host' && t == t'
same_record (DnsRecord.soa d m n v w x y z t) (DnsRecord.soa d' m' n' v' w' x' y' z' t') =
    same_hash d d'
    && same_hash m m'
    && same_hash n n'
    && v == v'
    && w == w'
    && x == x'
    && y == y'
    && z == z'
    && t == t'
same_record (DnsRecord.ptr d value t) (DnsRecord.ptr d' value' t') =
    same_hash d d' && same_hash value value' && t == t'
same_record (DnsRecord.mx d p host t) (DnsRecord.mx d' p' host' t') =
    same_hash d d' && p == p' && same_hash host host' && t == t'
same_record (DnsRecord.txt d value t) (DnsRecord.txt d' value' t') =
    same_hash d d' && same_hash value value' && t == t'
same_record (DnsRecord.aaaa d addr t) (DnsRecord.aaaa d' addr' t') =
    same_hash d d' && same_ipv6 addr addr' && t == t'
same_record (DnsRecord.srv d p w port host t) (DnsRecord.srv d' p' w' port' host' t') =
    same_hash d d' && p == p' && w == w' && port == port' && same_hash host host' && t == t'
same_record (DnsRecord.opt len flags value) (DnsRecord.opt len' flags' value') =
    len == len' && flags == flags' && same_hash value value'
same_record (DnsRecord.tlsa d u s m value t) (DnsRecord.tlsa d' u' s' m' value' t') =
    same_hash d d' && u == u' && s == s' && m == m' && same_hash value value' && t == t'
same_record r r' = false

pub data CacheState : Type 0 where
  positive_cache negative_cache not_cached : CacheState

-- `record` is reserved: the field is `entry`.
pub record RecordEntry : Type 0 where
  pub entry : DnsRecord
  pub timestamp : ℕ

-- How one loop over a hash set goes through its members: each once, in some order.
pub record Iteration : Type 0 where
  pub iterate : List RecordEntry → List RecordEntry
  pub iterates : (entries : List RecordEntry) → Permᴰ entries (iterate entries)

pub data RecordSet : Type 0 where
  no_records : (qtype : QueryType) (ttl timestamp : ℕ) → RecordSet
  records : (qtype : QueryType) (entries : List RecordEntry) → RecordSet

pub record DomainEntry : Type 0 where
  pub domain : Bytes
  pub record_types : List (QueryType × RecordSet)
  pub hits : ℕ
  pub updates : ℕ

abbrev pub new_entry : Bytes → DomainEntry
new_entry domain = record { domain = domain; record_types = []; hits = 0; updates = 0 }

-- Seconds as nanoseconds.
abbrev pub seconds : ℕ → ℕ
seconds n = n * 1000000000

abbrev pub is_expired : ℕ → ℕ → ℕ → Bool
is_expired now timestamp ttl = ltb (timestamp + seconds ttl) now

-- `DomainEntry`.
unfoldable pub entry_store_nxdomain : DomainEntry → QueryType → (ttl now : ℕ) → DomainEntry
entry_store_nxdomain d qtype ttl now = record d {
  updates = (d.updates + 1) % 4294967296;
  record_types = put_key same_type d.record_types qtype (no_records qtype ttl now);
}

-- `if records.contains(&entry) { records.remove(&entry); } records.insert(entry);`
abbrev pub renew : RecordEntry → List RecordEntry → List RecordEntry
renew e entries = e ∷ filter (λ old. not (same_record old.entry e.entry)) entries

abbrev pub set_with : DnsRecord → RecordEntry → Option RecordSet → RecordSet
set_with r e none = records (get_querytype r) (e ∷ [])
set_with r e (some (no_records qtype ttl timestamp)) = records (get_querytype r) (e ∷ [])
set_with r e (some (records qtype entries)) = records qtype (renew e entries)

unfoldable pub entry_store_record : DomainEntry → DnsRecord → (now : ℕ) → DomainEntry
unfolding get_querytype same_record
entry_store_record d r now = record d {
  updates = (d.updates + 1) % 4294967296;
  record_types = put_key same_type d.record_types (get_querytype r) (
      set_with r (record { entry = r; timestamp = now })
        (get_key same_type d.record_types (get_querytype r)));
}

-- `if expires < now { continue; }` and the test of the type.
abbrev pub is_valid : (now : ℕ) → QueryType → RecordEntry → Bool
is_valid now qtype e =
    if is_expired now e.timestamp (get_ttl e.entry)
    then false
    else same_type (get_querytype e.entry) qtype

abbrev pub records_state : List RecordEntry → CacheState
records_state [] = not_cached
records_state (e ∷ valid) = positive_cache

abbrev pub set_state : (now : ℕ) → QueryType → Option RecordSet → CacheState
set_state now qtype none = not_cached
set_state now qtype (some (no_records _ ttl timestamp)) =
    if is_expired now timestamp ttl then not_cached else negative_cache
set_state now qtype (some (records _ entries)) = records_state (filter (is_valid now qtype) entries)

unfoldable pub entry_cache_state : DomainEntry → QueryType → (now : ℕ) → CacheState
unfolding same_type get_ttl
entry_cache_state d qtype now = set_state now qtype (get_key same_type d.record_types qtype)

abbrev pub valid_records : (now : ℕ) → Iteration → QueryType → Option RecordSet → List DnsRecord
valid_records now order qtype none = []
valid_records now order qtype (some (no_records _ ttl timestamp)) = []
valid_records now order qtype (some (records _ entries)) =
    map (λ e. e.entry) (filter (is_valid now qtype) (order.iterate entries))

-- What is pushed to the result.
unfoldable pub entry_fill_queryresult :
    DomainEntry → QueryType → (now : ℕ) → Iteration → List DnsRecord
entry_fill_queryresult d qtype now order =
    valid_records now order qtype (get_key same_type d.record_types qtype)

-- `Cache`. `Arc::get_mut` succeeds: clones of the entries are made for `list` only, which only the
-- tests of resolve.rs call.
pub record Cache : Type 0 where
  pub domain_entries : List (Bytes × DomainEntry)

abbrev pub new_cache : Cache
new_cache = record { domain_entries = [] }

abbrev pub get_entry : Cache → Bytes → Option DomainEntry
get_entry c qname = get_key same_hash c.domain_entries qname

abbrev pub put_entry : Cache → Bytes → DomainEntry → Cache
put_entry c qname d = record { domain_entries = put_key same_hash c.domain_entries qname d }

-- The entry of a name, or a new one.
abbrev pub entry_or_new : Bytes → Option DomainEntry → DomainEntry
entry_or_new qname none = new_entry qname
entry_or_new qname (some d) = d

abbrev pub state_or_not : QueryType → ℕ → Option DomainEntry → CacheState
state_or_not qtype now none = not_cached
state_or_not qtype now (some d) = entry_cache_state d qtype now

unfoldable pub get_cache_state : Cache → Bytes → QueryType → (now : ℕ) → CacheState
unfolding entry_cache_state
get_cache_state c qname qtype now = state_or_not qtype now (get_entry c qname)

-- The cache with the count of hits, and what is pushed to the result.
abbrev pub fill_from :
    Cache
    → Bytes
    → QueryType
    → Bool
    → (now : ℕ) → Iteration
    → Option DomainEntry
    → List DnsRecord × Cache
fill_from c qname qtype increment_stats now order none = ([], c)
fill_from c qname qtype increment_stats now order (some d) = (
  entry_fill_queryresult d qtype now order,
  if increment_stats then put_entry c qname (record d { hits = (d.hits + 1) % 4294967296 }) else c,
)

unfoldable pub fill_queryresult :
    Cache
    → Bytes
    → QueryType
    → (increment_stats : Bool) → (now : ℕ) → Iteration
    → List DnsRecord × Cache
unfolding entry_fill_queryresult
fill_queryresult c qname qtype increment_stats now order =
    fill_from c qname qtype increment_stats now order (get_entry c qname)

-- What `lookup` does in a state. The clock is read again for the answers and for the authorities.
abbrev pub respond :
    Cache
    → Bytes
    → QueryType
    → (now_2 now_3 : ℕ) → (order_2 order_3 : Iteration) → CacheState
    → Option DnsPacket × Cache
respond c qname qtype now_2 now_3 order_2 order_3 positive_cache =
    let (answers, c') = fill_queryresult c qname qtype true now_2 order_2 in
    let (authorities, c') = fill_queryresult c' qname QueryType.ns false now_3 order_3 in
    (some (record new_packet { answers = answers; authorities = authorities }), c')
respond c qname qtype now_2 now_3 order_2 order_3 negative_cache =
    (some (record new_packet { header = record new_header { rescode = ResultCode.nxdomain } }), c)
respond c qname qtype now_2 now_3 order_2 order_3 not_cached = (none, c)

unfoldable pub lookup :
    Cache
    → Bytes
    → QueryType
    → (now now_2 now_3 : ℕ) → (order_2 order_3 : Iteration) → Option DnsPacket × Cache
unfolding get_cache_state fill_queryresult
lookup c qname qtype now now_2 now_3 order_2 order_3 =
    respond c qname qtype now_2 now_3 order_2 order_3 (get_cache_state c qname qtype now)

-- Each record is stored with its own reading of the clock.
abbrev pub store_under : Cache → DnsRecord → (now : ℕ) → Option Bytes → Cache
store_under c r now none = c
store_under c r now (some domain) =
    put_entry c domain (entry_store_record (entry_or_new domain (get_entry c domain)) r now)

unfoldable pub store_one : Cache → DnsRecord → (now : ℕ) → Cache
unfolding entry_store_record get_domain
store_one c r now = store_under c r now (get_domain r)

unfoldable pub store : Cache → List (DnsRecord × ℕ) → Cache
unfolding store_one
store c [] = c
store c ((r, now) ∷ rest) = store (store_one c r now) rest

unfoldable pub store_nxdomain : Cache → Bytes → QueryType → (ttl now : ℕ) → Cache
unfolding entry_store_nxdomain
store_nxdomain c qname qtype ttl now =
    put_entry c qname (entry_store_nxdomain (entry_or_new qname (get_entry c qname)) qtype ttl now)
