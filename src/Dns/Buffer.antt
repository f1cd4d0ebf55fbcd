-- ===== src/Dns/Buffer.antt =====
-- src/dns/buffer.rs: the interface of a packet buffer, what it derives for machine words, and its
-- three implementations. A buffer is passed on explicitly.
pub mod Words
use ruvname.Prelude.{
  ℕ, suc, ◌+◌, ◌*◌, ◌/◌, ◌%◌, Bool, Option, none, some, List, [], ◌∷◌, ◌++◌, ltb, leb,
  if◌then◌else◌, length, get_elem?, set, take, drop, replicate,
}
use ruvname.Bytes.{Bytes, same_hash}

-- `io_error` and `end_of_buffer` are the two errors of the source, `panic` an index out of range or
-- an `unimplemented!`, and `endless` a loop that took more rounds than its fuel.
pub data Outcome {ℓ} (A : Type ℓ) : Type ℓ where
  done : A → Outcome A
  io_error : Outcome A
  end_of_buffer : Outcome A
  panic : Outcome A
  endless : Outcome A

infixl 5 ◌>>=◌
abbrev pub ◌>>=◌ {ℓ κ} : {A : Type ℓ} {B : Type κ} → Outcome A → (A → Outcome B) → Outcome B
done a >>= f = f a
io_error >>= f = io_error
end_of_buffer >>= f = end_of_buffer
panic >>= f = panic
endless >>= f = endless

-- The methods that an implementation gives; a u8 is a number below 256.
pub record PacketBuffer (S : Type 0) : Type 0 where
  pub read : S → Outcome (ℕ × S)
  pub get : S → ℕ → Outcome (ℕ × S)
  pub get_range : S → ℕ → ℕ → Outcome (Bytes × S)
  pub write : S → ℕ → Outcome S
  pub set : S → ℕ → ℕ → Outcome S
  pub pos : S → ℕ
  pub seek : S → ℕ → Outcome S
  pub step : S → ℕ → Outcome S
  pub find_label : S → Bytes → Option ℕ
  pub save_label : S → Bytes → ℕ → Outcome S

-- The methods that the trait derives.
module _ {S : Type 0} (P : PacketBuffer S) where
  unfoldable pub write_u8 : S → ℕ → Outcome S
  write_u8 s val = P.write s val

  unfoldable pub set_u16 : S → ℕ → ℕ → Outcome S
  set_u16 s pos val = do s ← P.set s pos (val / 256 % 256); P.set s (suc pos) (val % 256)

  unfoldable pub write_u16 : S → ℕ → Outcome S
  write_u16 s val = do s ← P.write s (val / 256 % 256); P.write s (val % 256)

  unfoldable pub write_u32 : S → ℕ → Outcome S
  write_u32 s val = do
    s ← P.write s (val / 16777216 % 256)
    s ← P.write s (val / 65536 % 256)
    s ← P.write s (val / 256 % 256)
    P.write s (val % 256)

  unfoldable pub read_u16 : S → Outcome (ℕ × S)
  read_u16 s = do (hi, s) ← P.read s; (lo, s) ← P.read s; done (hi * 256 + lo, s)

  unfoldable pub read_u32 : S → Outcome (ℕ × S)
  read_u32 s = do
    (b3, s) ← P.read s
    (b2, s) ← P.read s
    (b1, s) ← P.read s
    (b0, s) ← P.read s
    done (b3 * 16777216 + b2 * 65536 + b1 * 256 + b0, s)

-- An index out of range is a panic.
abbrev pub at_index : Option ℕ → Outcome ℕ
at_index none = panic
at_index (some x) = done x

-- `&buffer[start..start + len]`
abbrev pub slice : Bytes → ℕ → ℕ → Outcome Bytes
slice bytes start len =
    if leb (start + len) (length bytes) then done (take len (drop start bytes)) else panic

pub record VectorPacketBuffer : Type 0 where
  pub buffer : Bytes
  pub pos : ℕ
  pub label_lookup : List (Bytes × ℕ)

-- The map of labels: the last entry for a name counts.
unfoldable pub lookup_label : List (Bytes × ℕ) → Bytes → Option ℕ
lookup_label [] label = none
lookup_label ((name, pos) ∷ rest) label =
    if same_hash name label then some pos else lookup_label rest label

abbrev pub new_vector_buffer : VectorPacketBuffer
new_vector_buffer = record { buffer = []; pos = 0; label_lookup = [] }

unfoldable pub vector_buffer : PacketBuffer VectorPacketBuffer
unfolding lookup_label
vector_buffer = record {
  read = λ s. at_index (get_elem? s.buffer s.pos) >>= λ x. done (x, record s { pos = suc s.pos });
  get = λ s pos. at_index (get_elem? s.buffer pos) >>= λ x. done (x, s);
  get_range = λ s start len. slice s.buffer start len >>= λ xs. done (xs, s);
  write = λ s val. done (record s { buffer = s.buffer ++ (val ∷ []); pos = suc s.pos });
  set = λ s pos val.
      if ltb pos (length s.buffer)
      then done (record s { buffer = set s.buffer pos val })
      else panic;
  pos = λ s. s.pos;
  seek = λ s pos. done (record s { pos = pos });
  step = λ s steps. done (record s { pos = s.pos + steps });
  find_label = λ s label. lookup_label s.label_lookup label;
  save_label = λ s label pos. done (record s { label_lookup = (label, pos) ∷ s.label_lookup });
}

-- The bytes that the stream has yet to give, and those that it has given.
pub record StreamPacketBuffer : Type 0 where
  pub stream : Bytes
  pub buffer : Bytes
  pub pos : ℕ

-- `while need > self.buffer.len()`, byte by byte.
unfoldable pub fill : ℕ → Bytes → Bytes → ℕ → Outcome StreamPacketBuffer
fill need [] buffer pos =
    if ltb (length buffer) need
    then io_error
    else done (record { stream = []; buffer = buffer; pos = pos })
fill need (x ∷ stream) buffer pos =
    if ltb (length buffer) need
    then fill need stream (buffer ++ (x ∷ [])) pos
    else done (record { stream = x ∷ stream; buffer = buffer; pos = pos })

unfoldable pub stream_buffer : PacketBuffer StreamPacketBuffer
unfolding fill
stream_buffer = record {
  read = λ s. (do
    s ← fill (suc s.pos) s.stream s.buffer s.pos
    x ← at_index (get_elem? s.buffer s.pos)
    done (x, record s { pos = suc s.pos }));
  get = λ s pos. (do
    s ← fill (suc pos) s.stream s.buffer s.pos
    x ← at_index (get_elem? s.buffer pos)
    done (x, s));
  get_range = λ s start len. (do
    s ← fill (start + len) s.stream s.buffer s.pos
    xs ← slice s.buffer start len
    done (xs, s));
  write = λ s val. panic;
  set = λ s pos val. panic;
  pos = λ s. s.pos;
  seek = λ s pos. done (record s { pos = pos });
  step = λ s steps. done (record s { pos = s.pos + steps });
  find_label = λ s label. none;
  save_label = λ s label pos. panic;
}

-- `buf` has 512 bytes.
pub record BytePacketBuffer : Type 0 where
  pub buf : Bytes
  pub pos : ℕ

abbrev pub new_byte_buffer : BytePacketBuffer
new_byte_buffer = record { buf = replicate 512 0; pos = 0 }

unfoldable pub byte_buffer : PacketBuffer BytePacketBuffer
byte_buffer = record {
  read = λ s.
      if leb 512 s.pos
      then end_of_buffer
      else (at_index (get_elem? s.buf s.pos) >>= λ x. done (x, record s { pos = suc s.pos }));
  get = λ s pos.
      if leb 512 pos then end_of_buffer else (at_index (get_elem? s.buf pos) >>= λ x. done (x, s));
  get_range = λ s start len.
      if leb 512 (start + len)
      then end_of_buffer
      else (slice s.buf start len >>= λ xs. done (xs, s));
  write = λ s val.
      if leb 512 s.pos
      then end_of_buffer
      else done (record s { buf = set s.buf s.pos val; pos = suc s.pos });
  set = λ s pos val.
      if ltb pos (length s.buf) then done (record s { buf = set s.buf pos val }) else panic;
  pos = λ s. s.pos;
  seek = λ s pos. done (record s { pos = pos });
  step = λ s steps. done (record s { pos = s.pos + steps });
  find_label = λ s label. none;
  save_label = λ s label pos. done s;
}
