-- ===== src/Dns/Wire.antt =====
-- src/dns/protocol.rs: `DnsRecord::write` and `DnsRecord::read` on a packet buffer.
use ruvname.Prelude.{ℕ, ◌+◌, ◌-◌, ◌/◌, ◌%◌, [], length}
use ruvname.Bytes.{Bytes}
use ruvname.Dns.Address.{ipv4, Ipv6Addr, ipv6}
use ruvname.Dns.Buffer.{
  Outcome, done, ◌>>=◌, PacketBuffer, write_u8, write_u16, write_u32, read_u16, read_u32, set_u16,
}
use ruvname.Dns.Name.{write_bytes, write_qname, read_qname}
use ruvname.Dns.Record.{QueryType, DnsRecord, to_num, from_num}

module _ {S : Type 0} (P : PacketBuffer S) where
  -- Name, type, class and time to live.
  unfoldable pub write_head : S → Bytes → QueryType → ℕ → Outcome S
  unfolding write_qname write_u16 write_u32 to_num
  write_head s domain qtype ttl = do
    s ← write_qname P s domain
    s ← write_u16 P s (to_num qtype)
    s ← write_u16 P s 1
    write_u32 P s ttl

  -- A placeholder for the size, the data, and then the size.
  unfoldable pub sized : S → (S → Outcome S) → Outcome S
  unfolding write_u16 set_u16
  sized s body = do
    s' ← write_u16 P s 0
    s' ← body s'
    set_u16 P s' (P.pos s) ((P.pos s' - (P.pos s + 2)) % 65536)

  unfoldable pub write_ipv6 : S → Ipv6Addr → Outcome S
  unfolding write_u16
  write_ipv6 s (ipv6 s0 s1 s2 s3 s4 s5 s6 s7) = do
    s ← write_u16 P s s0
    s ← write_u16 P s s1
    s ← write_u16 P s s2
    s ← write_u16 P s s3
    s ← write_u16 P s s4
    s ← write_u16 P s s5
    s ← write_u16 P s s6
    write_u16 P s s7

  unfoldable pub write_data : S → DnsRecord → Outcome S
  unfolding write_head sized write_u8 write_ipv6 write_bytes
  write_data s (DnsRecord.a domain (ipv4 a b c d) ttl) = do
    s ← write_head s domain QueryType.a ttl
    s ← write_u16 P s 4
    s ← write_u8 P s a
    s ← write_u8 P s b
    s ← write_u8 P s c
    write_u8 P s d
  write_data s (DnsRecord.aaaa domain addr ttl) = do
    s ← write_head s domain QueryType.aaaa ttl
    s ← write_u16 P s 16
    write_ipv6 s addr
  write_data s (DnsRecord.ns domain host ttl) = do
    s ← write_head s domain QueryType.ns ttl
    sized s (λ s. write_qname P s host)
  write_data s (DnsRecord.cname domain host ttl) = do
    s ← write_head s domain QueryType.cname ttl
    sized s (λ s. write_qname P s host)
  write_data s (DnsRecord.srv domain priority weight port host ttl) = do
    s ← write_head s domain QueryType.srv ttl
    sized s (λ s. (do
      s ← write_u16 P s priority
      s ← write_u16 P s weight
      s ← write_u16 P s port
      write_qname P s host))
  write_data s (DnsRecord.ptr domain value ttl) = do
    s ← write_head s domain QueryType.ptr ttl
    sized s (λ s. write_qname P s value)
  write_data s (DnsRecord.mx domain priority host ttl) = do
    s ← write_head s domain QueryType.mx ttl
    sized s (λ s. (do s ← write_u16 P s priority; write_qname P s host))
  write_data s (DnsRecord.soa domain m_name r_name serial refresh retry expire minimum ttl) = do
    s ← write_head s domain QueryType.soa ttl
    sized s (λ s. (do
      s ← write_qname P s m_name
      s ← write_qname P s r_name
      s ← write_u32 P s serial
      s ← write_u32 P s refresh
      s ← write_u32 P s retry
      s ← write_u32 P s expire
      write_u32 P s minimum))
  write_data s (DnsRecord.txt domain value ttl) = do
    s ← write_head s domain QueryType.txt ttl
    s ← write_u16 P s ((length value + 1) % 65536)
    s ← write_u8 P s (length value % 256)
    write_bytes P s value
  write_data s (DnsRecord.tlsa domain usage selector matching value ttl) = do
    s ← write_head s domain QueryType.tlsa ttl
    s ← write_u16 P s ((length value + 3) % 65536)
    s ← write_u8 P s usage
    s ← write_u8 P s selector
    s ← write_u8 P s matching
    write_bytes P s value
  write_data s (DnsRecord.opt packet_len flags value) = do
    s ← write_u8 P s 0
    s ← write_u16 P s (to_num QueryType.opt)
    s ← write_u16 P s packet_len
    s ← write_u32 P s flags
    s ← write_u16 P s (length value % 65536)
    write_bytes P s value
  write_data s (DnsRecord.unknown domain qtype data_len ttl) = done s

  -- The result is the number of bytes written.
  unfoldable pub write_record : S → DnsRecord → Outcome (ℕ × S)
  unfolding write_data
  write_record s r = do s' ← write_data s r; done (P.pos s' - P.pos s, s')

  -- `lossy` is `String::from_utf8_lossy`, `lowercase` is that and `to_lowercase`.
  module _ (lossy lowercase : Bytes → Bytes) (fuel : ℕ) where
    abbrev read_name : S → Outcome (Bytes × S)
    read_name s = read_qname P lowercase fuel s []

    unfoldable pub read_ipv6 : S → Outcome (Ipv6Addr × S)
    unfolding read_u32
    read_ipv6 s = do
      (r1, s) ← read_u32 P s
      (r2, s) ← read_u32 P s
      (r3, s) ← read_u32 P s
      (r4, s) ← read_u32 P s
      done (
        ipv6 (r1 / 65536 % 65536) (r1 % 65536) (r2 / 65536 % 65536) (r2 % 65536)
            (r3 / 65536 % 65536) (r3 % 65536) (r4 / 65536 % 65536) (r4 % 65536),
        s,
      )

    -- A text of the given length, and a step over it.
    unfoldable pub read_text : S → ℕ → (Bytes → Bytes) → Outcome (Bytes × S)
    read_text s len decode = do
      (bytes, s) ← P.get_range s (P.pos s) len
      s ← P.step s len
      done (decode bytes, s)

    unfoldable pub read_data :
        S → Bytes → (qtype_num class ttl data_len : ℕ) → QueryType → Outcome (DnsRecord × S)
    unfolding read_u16 read_u32 read_qname read_ipv6 read_text
    read_data s domain qtype_num class ttl data_len QueryType.a = do
      (raw, s) ← read_u32 P s
      done (
        DnsRecord.a domain
            (ipv4 (raw / 16777216 % 256) (raw / 65536 % 256) (raw / 256 % 256) (raw % 256)) ttl,
        s,
      )
    read_data s domain qtype_num class ttl data_len QueryType.aaaa = do
      (addr, s) ← read_ipv6 s
      done (DnsRecord.aaaa domain addr ttl, s)
    read_data s domain qtype_num class ttl data_len QueryType.ns = do
      (host, s) ← read_name s
      done (DnsRecord.ns domain host ttl, s)
    read_data s domain qtype_num class ttl data_len QueryType.cname = do
      (host, s) ← read_name s
      done (DnsRecord.cname domain host ttl, s)
    read_data s domain qtype_num class ttl data_len QueryType.srv = do
      (priority, s) ← read_u16 P s
      (weight, s) ← read_u16 P s
      (port, s) ← read_u16 P s
      (host, s) ← read_name s
      done (DnsRecord.srv domain priority weight port host ttl, s)
    read_data s domain qtype_num class ttl data_len QueryType.ptr = do
      (value, s) ← read_name s
      done (DnsRecord.ptr domain value ttl, s)
    read_data s domain qtype_num class ttl data_len QueryType.mx = do
      (priority, s) ← read_u16 P s
      (host, s) ← read_name s
      done (DnsRecord.mx domain priority host ttl, s)
    read_data s domain qtype_num class ttl data_len QueryType.soa = do
      (m_name, s) ← read_name s
      (r_name, s) ← read_name s
      (serial, s) ← read_u32 P s
      (refresh, s) ← read_u32 P s
      (retry, s) ← read_u32 P s
      (expire, s) ← read_u32 P s
      (minimum, s) ← read_u32 P s
      done (DnsRecord.soa domain m_name r_name serial refresh retry expire minimum ttl, s)
    read_data s domain qtype_num class ttl data_len QueryType.txt = do
      (value, s) ← read_text s data_len lossy
      done (DnsRecord.txt domain value ttl, s)
    read_data s domain qtype_num class ttl data_len QueryType.opt = do
      (value, s) ← read_text s data_len lossy
      done (DnsRecord.opt class ttl value, s)
    -- `data_len - 3` wraps at 16 bits.
    read_data s domain qtype_num class ttl data_len QueryType.tlsa = do
      (usage, s) ← P.read s
      (selector, s) ← P.read s
      (matching, s) ← P.read s
      (value, s) ← read_text s ((data_len + 65533) % 65536) (λ bytes. bytes)
      done (DnsRecord.tlsa domain usage selector matching value ttl, s)
    read_data s domain qtype_num class ttl data_len (QueryType.unknown x) = do
      s ← P.step s data_len
      done (DnsRecord.unknown domain qtype_num data_len ttl, s)

    unfoldable pub read_record : S → Outcome (DnsRecord × S)
    unfolding read_data from_num
    read_record s = do
      (domain, s) ← read_name s
      (qtype_num, s) ← read_u16 P s
      (class, s) ← read_u16 P s
      (ttl, s) ← read_u32 P s
      (data_len, s) ← read_u16 P s
      read_data s domain qtype_num class ttl data_len (from_num qtype_num)
