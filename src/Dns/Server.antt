-- ===== src/Dns/Server.antt =====
-- src/dns/server.rs: `execute_query`, from a request to its response. The resolver is the trait object
-- of the source: a state and a method that may change it. Sockets and threads are left out.
pub mod Response
use ruvname.Prelude.{
  ℕ, zero, suc, Bool, true, false, not, ◌&&◌, Option, none, some, List, [], ◌∷◌, ◌++◌, any,
  if◌then◌else◌,
}
use ruvname.Bytes.{Bytes, same_hash}
use ruvname.Dns.Record
use ruvname.Dns.Record.{QueryType, DnsRecord}
use ruvname.Dns.Cache.{same_record}
use ruvname.Dns.Packet.{DnsPacket, DnsQuestion, ResultCode, formerr, servfail, refused, new_packet}

-- Whether some answer gives the address of a host.
abbrev has_address : QueryType → (host : Bytes) → DnsRecord → Bool
has_address QueryType.a host (DnsRecord.a domain addr ttl) = same_hash domain host
has_address QueryType.aaaa host (DnsRecord.aaaa domain addr ttl) = same_hash domain host
has_address qtype host r = false

abbrev unresolved_in : (answers : List DnsRecord) → QueryType → List DnsRecord → List DnsRecord
unresolved_in answers qtype [] = []
unresolved_in answers qtype (DnsRecord.cname domain host ttl ∷ rs) =
    let rest = unresolved_in answers qtype rs in
    if any (has_address qtype host) answers then rest else DnsRecord.cname domain host ttl ∷ rest
unresolved_in answers qtype (r ∷ rs) = unresolved_in answers qtype rs

unfoldable pub get_unresolved_cnames : DnsPacket → QueryType → List DnsRecord
get_unresolved_cnames p qtype = unresolved_in p.answers qtype p.answers

-- The trait `DnsResolver`: `none` is an error.
pub record Resolver : Type 1 where
  pub Self : Type 0
  pub resolve : Self → (qname : Bytes) → QueryType → (recursive : Bool) → Option DnsPacket × Self

-- The host that a record refers to.
abbrev target : DnsRecord → Option Bytes
target (DnsRecord.cname domain host ttl) = some host
target (DnsRecord.srv domain priority weight port host ttl) = some host
target r = none

module _ (R : Resolver) (qtype : QueryType) where
  -- The resolver's state and the results so far.
  abbrev pub Found : Type 0
  Found = R.Self × List DnsPacket

  abbrev push_result :
      (List DnsRecord → Found → Found) → List DnsPacket → Option DnsPacket × R.Self → Found
  push_result deeper results (none, self) = (self, results)
  push_result deeper results (some result, self) =
      deeper (get_unresolved_cnames result qtype) (self, results ++ result ∷ [])

  abbrev follow : (List DnsRecord → Found → Found) → Option Bytes → Found → Found
  follow deeper none found = found
  follow deeper (some host) (self, results) =
      push_result deeper results (R.resolve self host qtype true)

  abbrev follow_each : (List DnsRecord → Found → Found) → List DnsRecord → Found → Found
  follow_each deeper [] found = found
  follow_each deeper (r ∷ rs) found = follow_each deeper rs (follow deeper (target r) found)

  -- `levels` is 11 - depth: the call at depth 11 returns at once.
  unfoldable pub resolve_cnames : (levels : ℕ) → List DnsRecord → Found → Found
  unfolding get_unresolved_cnames
  resolve_cnames zero lookup_list found = found
  resolve_cnames (suc levels) lookup_list found =
      follow_each (resolve_cnames levels) lookup_list found

-- `if !packet.answers.contains(&rec) { packet.answers.push(rec); }`
abbrev pub add_new : List DnsRecord → List DnsRecord → List DnsRecord
add_new old [] = old
add_new old (r ∷ rs) =
    let kept = add_new old rs in
    let added = add_new (old ++ r ∷ []) rs in if any (λ x. same_record x r) old then kept else added

unfoldable pub merge : DnsPacket → List DnsPacket → DnsPacket
unfolding same_record
merge packet [] = packet
merge packet (result ∷ results) =
    merge
      (record packet {
        answers = add_new packet.answers result.answers;
        authorities = add_new packet.authorities result.authorities;
        resources = add_new packet.resources result.resources;
      })
      results

abbrev pub with_rescode : ResultCode → DnsPacket → DnsPacket
with_rescode code packet = record packet { header = record packet.header { rescode = code } }

-- `if result.header.authoritative_answer { packet.header.authoritative_answer = true; }`
abbrev pub with_authority : (authoritative_answer : Bool) → DnsPacket → DnsPacket
with_authority true packet = record packet {
  header = record packet.header { authoritative_answer = true };
}
with_authority false packet = packet

-- The response before anything is looked up.
abbrev pub response_to : (allow_recursive : Bool) → DnsPacket → DnsPacket
response_to allow_recursive request = record new_packet {
  header = record new_packet.header {
    id = request.header.id;
    recursion_available = allow_recursive;
    recursion_desired = request.header.recursion_desired;
    response = true;
  };
}

module _ (R : Resolver) (allow_recursive : Bool) where
  abbrev pub after_resolve : DnsPacket → DnsQuestion → Option DnsPacket × R.Self → DnsPacket
  after_resolve packet question (none, self) = with_rescode servfail packet
  after_resolve packet question (some result, self) =
      merge
        (with_rescode result.header.rescode
          (with_authority result.header.authoritative_answer packet))
        (resolve_cnames R question.qtype 11 (get_unresolved_cnames result question.qtype)
          (self, result ∷ [])).1

  abbrev pub query_first : R.Self → (request packet : DnsPacket) → List DnsQuestion → DnsPacket
  query_first self request packet [] = with_rescode formerr packet
  query_first self request packet (question ∷ questions) =
      after_resolve (record packet { questions = packet.questions ++ question ∷ [] }) question
        (R.resolve self question.name question.qtype request.header.recursion_desired)

  unfoldable pub execute_query : R.Self → (request : DnsPacket) → DnsPacket
  unfolding get_unresolved_cnames resolve_cnames merge
  execute_query self request =
      if request.header.recursion_desired && not allow_recursive
      then with_rescode refused (response_to allow_recursive request)
      else query_first self request (response_to allow_recursive request) request.questions
