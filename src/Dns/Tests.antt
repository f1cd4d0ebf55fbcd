-- ===== src/Dns/Tests.antt =====
-- Packets and cached answers that the theorems on src/dns apply to.
mod Server
use ruvname.Prelude.{
  ℕ, set, replicate, ◌+◌, ◌≡◌, refl, true, none, some, List, [], ◌∷◌, All, arith, ltb,
  if◌then◌else◌, length,
}
use ruvname.Bytes.{Bytes, codes, same_hash}
use ruvname.Dns.Address.{ipv4}
use ruvname.Dns.Record.{DnsRecord, QueryType, get_querytype, get_domain, get_ttl}
use ruvname.Dns.Buffer.{
  done, endless, byte_buffer, BytePacketBuffer, vector_buffer, VectorPacketBuffer,
}
use ruvname.Dns.Name.{read_qname, write_qname, join}
use ruvname.Dns.Name.Compress.{IsConsistent, write_qname-read_qname}
use ruvname.Dns.Name.Cycle.{read_qname-endless}
use ruvname.Dns.Name.Layout.{NameAt, root, label, jump, read_qname-NameAt}
use ruvname.Dns.Buffer.Words.{Writes, Reads, byte_buffer-Writable, byte_buffer-Readable, u16_bytes}
use ruvname.Dns.Packet.{
  DnsHeader, DnsPacket, ResultCode, first_flags, second_flags, new_packet, new_header, write_header,
  read_header,
}
use ruvname.Dns.Packet.Header.{IsValid, header_bytes, write_header-read_header}
use mathlib.Core.List.{Memᴰ}
use mathlib.Core.List.Permᴰ
use ruvname.Dns.Cache.{same_record, Iteration, new_cache, lookup, store, store_nxdomain, seconds}
use ruvname.Dns.Cache.Stored.{lookup-store_one, lookup-store_nxdomain}
use ruvname.Dns.Cache.Repeated.{lookup-store_both}
use ruvname.Dns.Cache.Fresh.{
  Operation, stored, looked_up, missing, perform_all, IsAnswer, lookup-fresh,
}

abbrev reply_header : DnsHeader
reply_header = record new_header {
  id = 0x1234;
  recursion_desired = true;
  opcode = 2;
  response = true;
  rescode = ResultCode.nxdomain;
  z = true;
  questions = 1;
  resource_entries = 0x0203;
}

reply_bytes :
    header_bytes reply_header ≡ 0x12 ∷ 0x34 ∷ 0x91 ∷ 0x43 ∷ 0 ∷ 1 ∷ 0 ∷ 0 ∷ 0 ∷ 0 ∷ 2 ∷ 3 ∷ []
unfolding header_bytes u16_bytes first_flags second_flags
reply_bytes = refl

reply_IsValid : IsValid reply_header
unfolding IsValid
reply_IsValid = (omega arith, omega arith, omega arith, omega arith, omega arith, omega arith)

write_header-read_header_example :
    Writes byte_buffer-Writable
      (λ s. write_header byte_buffer s reply_header)
      (header_bytes reply_header)
    × (length (header_bytes reply_header) ≡ 12)
    × Reads byte_buffer-Readable
        (λ s. read_header byte_buffer s new_header)
        (header_bytes reply_header)
        reply_header
write_header-read_header_example =
    write_header-read_header byte_buffer byte_buffer-Writable byte_buffer-Readable reply_header
      new_header reply_IsValid

abbrev name : Bytes
name = codes "ruv"

abbrev address : DnsRecord
address = DnsRecord.a name (ipv4 10 0 0 1) 60

-- The members in the order in which the model keeps them.
abbrev newest_first : Iteration
newest_first = record { iterate = λ entries. entries; iterates = λ entries. Permᴰ.refl entries }

abbrev history : List Operation
history =
    missing name QueryType.a 5 0
    ∷ stored address 1
    ∷ looked_up name QueryType.a 2 2 2 newest_first newest_first
    ∷ stored (DnsRecord.ns name (codes "ns") 60) 3
    ∷ []

abbrev answer : DnsPacket
answer = record new_packet {
  answers = address ∷ [];
  authorities = DnsRecord.ns name (codes "ns") 60 ∷ [];
}

found :
    (lookup (perform_all new_cache history) name QueryType.a 9 9 9 newest_first newest_first).0
    ≡ some answer
unfolding perform_all lookup same_hash
found = refl

lookup-fresh_example :
    All (IsAnswer history name QueryType.a 9) answer.answers
    × All (IsAnswer history name QueryType.ns 9) answer.authorities
lookup-fresh_example =
    lookup-fresh history name QueryType.a 9 9 9 newest_first newest_first answer found

lookup-store_nxdomain_example :
    (lookup
      (store_nxdomain new_cache name QueryType.a 5 0)
      name
      QueryType.a
      3
      3
      3
      newest_first
      newest_first).0
    ≡ (if ltb (0 + seconds 5) 3
        then none
        else some
            (record new_packet { header = record new_header { rescode = ResultCode.nxdomain } }))
lookup-store_nxdomain_example =
    lookup-store_nxdomain new_cache name QueryType.a 5 0 3 3 3 newest_first newest_first

lookup-store_one_example :
    (answers authorities : List DnsRecord) × ((lookup
        (store new_cache ((address, 7) ∷ []))
        name
        (get_querytype address)
        8
        9
        9
        newest_first
        newest_first).0
      ≡ some (record new_packet { answers = answers; authorities = authorities }))
    × Memᴰ address answers
unfolding get_domain get_ttl
lookup-store_one_example =
    lookup-store_one new_cache address name 7 8 9 9 newest_first newest_first refl (omega arith)
      (omega arith)

abbrev lasting : DnsRecord
lasting = DnsRecord.a name (ipv4 10 0 0 1) 61

lookup-store_both_example :
    (answers authorities : List DnsRecord) × ((lookup
        (store new_cache ((address, 7) ∷ (lasting, 8) ∷ []))
        name
        (get_querytype address)
        9
        9
        9
        newest_first
        newest_first).0
      ≡ some (record new_packet { answers = answers; authorities = authorities }))
    × Memᴰ address answers
    × Memᴰ lasting answers
unfolding get_domain get_querytype get_ttl same_record same_hash
lookup-store_both_example =
    lookup-store_both new_cache address lasting name 7 8 9 9 9 newest_first newest_first refl refl
      refl refl (omega arith) (omega arith) (omega arith) (omega arith)

-- A packet whose first question is a pointer to itself, after a header of zeros.
abbrev self_pointer : BytePacketBuffer
self_pointer = record { buf = set (set (replicate 512 0) 12 192) 13 12; pos = 12 }

read_qname-endless_example :
    read_qname byte_buffer (λ bytes. bytes) 100000 self_pointer [] ≡ endless
read_qname-endless_example =
    read_qname-endless (λ bytes. bytes) 12 (omega arith) 100000 self_pointer [] refl (refl, refl)

-- "b.ruv" after "ruv": the second name jumps to the first one.
abbrev two_names : VectorPacketBuffer
two_names = record {
  buffer = 3 ∷ b'r' ∷ b'u' ∷ b'v' ∷ 0 ∷ 1 ∷ b'b' ∷ 192 ∷ 0 ∷ [];
  pos = 5;
  label_lookup = [];
}

two_names_layout : NameAt two_names.buffer 4 5 9 ((b'b' ∷ []) ∷ codes "ruv" ∷ [])
two_names_layout =
    label 3 5 9 (b'b' ∷ []) (codes "ruv" ∷ []) (omega arith) (omega arith) refl refl (
      jump 2 7 0 5 (codes "ruv" ∷ []) (omega arith) refl refl
        (label 1 0 5 (codes "ruv") [] (omega arith) (omega arith) refl refl (root 4 refl)))

read_qname-NameAt_example :
    read_qname vector_buffer (λ bytes. bytes) 9 two_names []
    ≡ done (join ((b'b' ∷ []) ∷ codes "ruv" ∷ []), record two_names { pos = 9 })
read_qname-NameAt_example =
    read_qname-NameAt (λ bytes. bytes) 4 9 ((b'b' ∷ []) ∷ codes "ruv" ∷ []) two_names 9
      two_names_layout (refl, (refl, tt)) (omega arith)

-- "ruv" is written, and "b.ruv" comes next.
abbrev one_name : VectorPacketBuffer
one_name = record {
  buffer = 3 ∷ b'r' ∷ b'u' ∷ b'v' ∷ 0 ∷ [];
  pos = 5;
  label_lookup = (codes "ruv", 0) ∷ [];
}

one_name-IsConsistent : IsConsistent one_name
unfolding IsConsistent join
one_name-IsConsistent = (
  refl,
  (
    (
      codes "ruv",
      [],
      2,
      5,
      ((omega arith, omega arith, (refl, (refl, (refl, tt)))), tt),
      refl,
      omega arith,
      label 1 0 5 (codes "ruv") [] (omega arith) (omega arith) refl refl (root 4 refl),
    ),
    tt,
  ),
)

write_qname-read_qname_example :
    (s' : VectorPacketBuffer) × (fuel : ℕ) × (write_qname vector_buffer one_name
        (join ((b'b' ∷ []) ∷ codes "ruv" ∷ []))
      ≡ done s')
    × IsConsistent s'
    × (read_qname vector_buffer (λ bytes. bytes) fuel (record s' { pos = 5 }) []
        ≡ done (join ((b'b' ∷ []) ∷ codes "ruv" ∷ []), s'))
write_qname-read_qname_example =
    write_qname-read_qname (λ bytes. bytes) one_name (b'b' ∷ []) (codes "ruv" ∷ [])
      one_name-IsConsistent
      (
        (omega arith, omega arith, (refl, tt)),
        ((omega arith, omega arith, (refl, (refl, (refl, tt)))), tt),
      )
      (refl, (refl, tt)) (omega arith)
