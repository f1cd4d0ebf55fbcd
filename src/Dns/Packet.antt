-- ===== src/Dns/Packet.antt =====
-- src/dns/protocol.rs: result codes, the header and the questions of a packet on a packet buffer.
pub mod Flags
pub mod Header
use ruvname.Prelude.{
  ℕ, suc, ◌+◌, ◌*◌, ◌/◌, ◌%◌, Bool, true, false, ◌||◌, [], ◌∷◌, List, ◌==◌, if◌then◌else◌, length,
}
use ruvname.Bytes.{Bytes}
use ruvname.Dns.Buffer.{
  Outcome, done, io_error, end_of_buffer, panic, endless, ◌>>=◌, PacketBuffer, write_u8, write_u16,
  read_u16,
}
use ruvname.Dns.Name.{split, write_qname, read_qname}
use ruvname.Dns.Record.{QueryType, DnsRecord, to_num, from_num}

pub data ResultCode : Type 0 where
  noerror formerr servfail nxdomain notimp refused : ResultCode

-- `self as u8`
unfoldable pub code_num : ResultCode → ℕ
code_num noerror = 0
code_num formerr = 1
code_num servfail = 2
code_num nxdomain = 3
code_num notimp = 4
code_num refused = 5

-- `ResultCode::from_num`
unfoldable pub from_code : ℕ → ResultCode
from_code num =
    if num == 1
    then formerr
    else if num == 2
    then servfail
    else if num == 3
    then nxdomain
    else if num == 4
    then notimp
    else if num == 5
    then refused
    else noerror

pub record DnsHeader : Type 0 where
  pub id : ℕ
  pub recursion_desired : Bool
  pub truncated_message : Bool
  pub authoritative_answer : Bool
  pub opcode : ℕ
  pub response : Bool
  pub rescode : ResultCode
  pub checking_disabled : Bool
  pub authed_data : Bool
  pub z : Bool
  pub recursion_available : Bool
  pub questions : ℕ
  pub answers : ℕ
  pub authoritative_entries : ℕ
  pub resource_entries : ℕ

abbrev pub new_header : DnsHeader
new_header = record {
  id = 0;
  recursion_desired = false;
  truncated_message = false;
  authoritative_answer = false;
  opcode = 0;
  response = false;
  rescode = noerror;
  checking_disabled = false;
  authed_data = false;
  z = false;
  recursion_available = false;
  questions = 0;
  answers = 0;
  authoritative_entries = 0;
  resource_entries = 0;
}

-- `flag as u8`, shifted to the bit of the weight.
abbrev pub bit : ℕ → Bool → ℕ
bit weight flag = if flag then weight else 0

-- `(byte & weight) > 0` for a power of two.
abbrev pub has_bit : ℕ → ℕ → Bool
has_bit weight byte = byte / weight % 2 == 1

-- The first byte of flags. `opcode << 3` is cut to 8 bits, and its top bit meets `response`.
unfoldable pub first_flags : DnsHeader → ℕ
first_flags h =
    bit 1 h.recursion_desired
    + bit 2 h.truncated_message
    + bit 4 h.authoritative_answer
    + h.opcode % 16 * 8
    + bit 128 (h.response || has_bit 16 h.opcode)

unfoldable pub second_flags : DnsHeader → ℕ
unfolding code_num
second_flags h =
    code_num h.rescode
    + bit 16 h.checking_disabled
    + bit 32 h.authed_data
    + bit 64 h.z
    + bit 128 h.recursion_available

-- What the two bytes `a` and `b` of flags set in a header.
unfoldable pub with_flags : ℕ → ℕ → DnsHeader → DnsHeader
unfolding from_code
with_flags a b h = record h {
  recursion_desired = has_bit 1 a;
  truncated_message = has_bit 2 a;
  authoritative_answer = has_bit 4 a;
  opcode = a / 8 % 16;
  response = has_bit 128 a;
  rescode = from_code (b % 16);
  checking_disabled = has_bit 16 b;
  authed_data = has_bit 32 b;
  z = has_bit 64 b;
  recursion_available = has_bit 128 b;
}

pub record DnsQuestion : Type 0 where
  pub name : Bytes
  pub qtype : QueryType

module _ {S : Type 0} (P : PacketBuffer S) where
  unfoldable pub write_header : S → DnsHeader → Outcome S
  unfolding write_u16 write_u8 first_flags second_flags
  write_header s h = do
    s ← write_u16 P s h.id
    s ← write_u8 P s (first_flags h)
    s ← write_u8 P s (second_flags h)
    s ← write_u16 P s h.questions
    s ← write_u16 P s h.answers
    s ← write_u16 P s h.authoritative_entries
    write_u16 P s h.resource_entries

  unfoldable pub read_header : S → DnsHeader → Outcome (DnsHeader × S)
  unfolding read_u16 with_flags
  read_header s h = do
    (id, s) ← read_u16 P s
    (flags, s) ← read_u16 P s
    (questions, s) ← read_u16 P s
    (answers, s) ← read_u16 P s
    (authoritative, s) ← read_u16 P s
    (resource, s) ← read_u16 P s
    done (
      record (with_flags (flags / 256) (flags % 256) h) {
        id = id;
        questions = questions;
        answers = answers;
        authoritative_entries = authoritative;
        resource_entries = resource;
      },
      s,
    )

  unfoldable pub write_question : S → DnsQuestion → Outcome S
  unfolding write_qname to_num
  write_question s q = do
    s ← write_qname P s q.name
    s ← write_u16 P s (to_num q.qtype)
    write_u16 P s 1

  unfoldable pub read_question : (Bytes → Bytes) → ℕ → S → DnsQuestion → Outcome (DnsQuestion × S)
  unfolding read_qname from_num
  read_question lowercase fuel s q = do
    (name, s) ← read_qname P lowercase fuel s q.name
    (num, s) ← read_u16 P s
    (class, s) ← read_u16 P s
    done (record { name = name; qtype = from_num num }, s)

-- `self.name.split('.').map(|x| x.len() + 1).fold(1, +)`
abbrev parts_len : List Bytes → ℕ
parts_len [] = 1
parts_len (part ∷ parts) = suc (length part) + parts_len parts

unfoldable pub question_binary_len : DnsQuestion → ℕ
unfolding split
question_binary_len q = parts_len (split q.name)

-- `print` is log output.
pub record DnsPacket : Type 0 where
  pub header : DnsHeader
  pub questions : List DnsQuestion
  pub answers : List DnsRecord
  pub authorities : List DnsRecord
  pub resources : List DnsRecord

abbrev pub new_packet : DnsPacket
new_packet = record {
  header = new_header;
  questions = [];
  answers = [];
  authorities = [];
  resources = [];
}
