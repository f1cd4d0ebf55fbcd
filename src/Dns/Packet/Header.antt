-- ===== src/Dns/Packet/Header.antt =====
-- src/dns/protocol.rs: the header of a packet, written to a buffer and read from one.
use ruvname.Prelude.{ℕ, ◌+◌, ◌*◌, ◌/◌, ◌%◌, ◌<◌, ◌≡◌, refl, length, [], ◌∷◌, ◌++◌, arith}
use mathlib.Core.Path.{subst}
use ruvname.Bytes.{Bytes}
use ruvname.Dns.Buffer.{done, PacketBuffer}
use ruvname.Dns.Buffer.Words.{
  Readable, Writable, Reads, Writes, Reads-then, Writes-then, write_u8-Writes, write_u16-Writes,
  read_u16-Reads, read_u16-word, u16_bytes,
}
use ruvname.Dns.Packet.{DnsHeader, first_flags, second_flags, with_flags, write_header, read_header}
use ruvname.Dns.Packet.Flags.{
  First, Second, first_flags-First, second_flags-Second, with_flags_back,
}

-- The fields are as wide as their places in the header.
unfoldable pub IsValid : DnsHeader → Type 0
IsValid h =
    (h.id < 65536)
    × (h.opcode < 16)
    × (h.questions < 65536)
    × (h.answers < 65536)
    × (h.authoritative_entries < 65536)
    × (h.resource_entries < 65536)

-- The wire format of a header.
unfoldable pub header_bytes : DnsHeader → Bytes
header_bytes h =
    u16_bytes h.id
    ++ ((first_flags h ∷ [])
        ++ ((second_flags h ∷ [])
            ++ (u16_bytes h.questions
                ++ (u16_bytes h.answers
                    ++ (u16_bytes h.authoritative_entries ++ u16_bytes h.resource_entries)))))

module _ {S : Type 0} (P : PacketBuffer S) where
  write_header-Writes :
      (W : Writable P) (h : DnsHeader) → Writes W (λ s. write_header P s h) (header_bytes h)
  unfolding write_header header_bytes
  write_header-Writes W h =
      let u16 = write_u16-Writes P W in
      let u8 = write_u8-Writes P W in
      let w7 = u16 h.resource_entries in
      let w6 = Writes-then P W _ _ _ _ (u16 h.authoritative_entries) w7 in
      let w5 = Writes-then P W _ _ _ _ (u16 h.answers) w6 in
      let w4 = Writes-then P W _ _ _ _ (u16 h.questions) w5 in
      let w3 = Writes-then P W _ _ _ _ (u8 (second_flags h)) w4 in
      let w2 = Writes-then P W _ _ _ _ (u8 (first_flags h)) w3 in
      Writes-then P W _ _ _ _ (u16 h.id) w2

  -- The header after the words were read.
  abbrev filled : DnsHeader → (id flags questions answers authoritative resource : ℕ) → DnsHeader
  filled h0 id flags questions answers authoritative resource =
      record (with_flags (flags / 256) (flags % 256) h0) {
        id = id;
        questions = questions;
        answers = answers;
        authoritative_entries = authoritative;
        resource_entries = resource;
      }

  module _ (R : Readable P) where
    done-Reads : {A : Type 0} (a : A) → Reads R (λ s. done (a, s)) [] a
    done-Reads a s xs h = (s, refl, h)

    read_header-words :
        (h h0 : DnsHeader)
        → IsValid h
        → Reads R
            (λ s. read_header P s h0)
            (header_bytes h)
            (filled h0 h.id
              (first_flags h * 256 + second_flags h)
              h.questions
              h.answers
              h.authoritative_entries
              h.resource_entries)
    unfolding read_header header_bytes IsValid u16_bytes
    read_header-words h h0 (id, opcode, questions, answers, authoritative, resource) =
        let word = read_u16-word P R in
        let r7 = done-Reads (
          filled h0 h.id (first_flags h * 256 + second_flags h) h.questions h.answers
            h.authoritative_entries h.resource_entries) in
        let t6 = u16_bytes h.resource_entries in
        let t5 = u16_bytes h.authoritative_entries ++ t6 in
        let t4 = u16_bytes h.answers ++ t5 in
        let t3 = u16_bytes h.questions ++ t4 in
        let t2 = (first_flags h ∷ second_flags h ∷ []) ++ t3 in
        let r6 = Reads-then P R _ _ t6 [] _ _ (word h.resource_entries resource) r7 in
        let r5 =
          Reads-then P R _ _ (u16_bytes h.authoritative_entries) t6 _ _
            (word h.authoritative_entries authoritative) r6 in
        let r4 = Reads-then P R _ _ (u16_bytes h.answers) t5 _ _ (word h.answers answers) r5 in
        let r3 =
          Reads-then P R _ _ (u16_bytes h.questions) t4 _ _ (word h.questions questions) r4 in
        let r2 =
          Reads-then P R _ _ (first_flags h ∷ second_flags h ∷ []) t3 _ _
            (read_u16-Reads P R (first_flags h) (second_flags h)) r3 in
        Reads-then P R _ _ (u16_bytes h.id) t2 _ _ (word h.id id) r2

    read_header-Reads :
        (h h0 : DnsHeader) → IsValid h → Reads R (λ s. read_header P s h0) (header_bytes h) h
    unfolding IsValid First Second
    read_header-Reads h h0 valid =
        let first = first_flags-First h valid.1 in
        let second = second_flags-Second h in
        let a = first_flags h in
        let b = second_flags h in
        let high : (a * 256 + b) / 256 ≡ a = omega (arith, second.0) in
        let low : (a * 256 + b) % 256 ≡ b = omega (arith, second.0) in
        let same : filled h0 h.id (a * 256 + b) h.questions h.answers h.authoritative_entries
              h.resource_entries
            ≡ h =
          rw (high, low) (with_flags_back h h0 a b first second) in
        subst (Reads R (λ s. read_header P s h0) (header_bytes h)) same
          (read_header-words h h0 valid)

  -- A header whose fields fit is written as the 12 bytes of the wire format, and read back as it was,
  -- on every buffer that meets the two interfaces, wherever there is room.
  pub write_header-read_header :
      (W : Writable P) (R : Readable P) (h h0 : DnsHeader)
      → IsValid h
      → Writes W (λ s. write_header P s h) (header_bytes h)
        × (length (header_bytes h) ≡ 12)
        × Reads R (λ s. read_header P s h0) (header_bytes h) h
  unfolding header_bytes u16_bytes
  write_header-read_header W R h h0 valid =
      (write_header-Writes W h, refl, read_header-Reads R h h0 valid)
