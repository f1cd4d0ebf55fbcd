-- ===== src/Dns/Name/Cycle.antt =====
-- src/dns/buffer.rs: `read_qname` on a pointer that points to itself.
use ruvname.Prelude.{
  ℕ, zero, suc, ◌+◌, ◌/◌, ◌%◌, ◌<◌, [], ◌≡◌, refl, sym, Bool, true, false, some, leb, get_elem?,
  arith,
}
use mathlib.Core.Path.{subst}
use ruvname.Bytes.{Bytes}
use ruvname.Dns.Buffer.{done, endless, BytePacketBuffer, byte_buffer}
use ruvname.Dns.Name.{jump_offset, read_labels, read_qname}

module _ (lowercase : Bytes → Bytes) (p : ℕ) (small : suc p < 512) where
  -- The two bytes at `p` are a pointer to `p`.
  abbrev pub PointsToItself : BytePacketBuffer → Type 0
  PointsToItself s =
      (get_elem? s.buf p ≡ some (192 + p / 256)) × (get_elem? s.buf (suc p) ≡ some (p % 256))

  offset_lem : jump_offset (192 + p / 256) (p % 256) ≡ p
  offset_lem = ground arith

  inside_first : leb 512 p ≡ false
  inside_first = ground arith

  inside_second : leb 512 (suc p) ≡ false
  inside_second = ground arith

  is_jump : leb 64 (192 + p / 256) ≡ true
  is_jump = ground arith

  get_first :
      (s : BytePacketBuffer) → PointsToItself s → byte_buffer.get s p ≡ done (192 + p / 256, s)
  unfolding byte_buffer
  get_first s (first, second) = rw (inside_first, first) refl

  get_second :
      (s : BytePacketBuffer) → PointsToItself s → byte_buffer.get s (suc p) ≡ done (p % 256, s)
  unfolding byte_buffer
  get_second s (first, second) = rw (inside_second, second) refl

  cycle :
      (fuel : ℕ) (s : BytePacketBuffer) (jumped : Bool) (delim outstr : Bytes)
      → PointsToItself s
      → read_labels byte_buffer lowercase fuel s p jumped delim outstr ≡ endless
  unfolding read_labels byte_buffer
  cycle zero s jumped delim outstr self = refl
  cycle (suc fuel) s true delim outstr self =
      rw (get_first s self, is_jump, get_second s self, offset_lem)
        (cycle fuel s true delim outstr self)
  cycle (suc fuel) s false delim outstr self =
      let s' : BytePacketBuffer = record s { pos = p + 2 } in
      rw (get_first s self, is_jump, get_second s' self, offset_lem)
        (cycle fuel s' true delim outstr self)

  -- Where the next two bytes of a UDP packet point to themselves, reading a name does not end,
  -- however many rounds it is given.
  pub read_qname-endless :
      (fuel : ℕ) (s : BytePacketBuffer) (outstr : Bytes)
      → s.pos ≡ p
      → PointsToItself s
      → read_qname byte_buffer lowercase fuel s outstr ≡ endless
  unfolding read_qname byte_buffer
  read_qname-endless fuel s outstr at self =
      subst (λ pos. read_labels byte_buffer lowercase fuel s pos false [] outstr ≡ endless) (sym at)
        (cycle fuel s false [] outstr self)
