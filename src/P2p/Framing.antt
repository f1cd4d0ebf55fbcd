-- ===== src/P2p/Framing.antt =====
-- src/p2p/network.rs: how messages and handshakes stand in the byte stream of a connection. Timing is
-- explicit: a list of what each call of `read` or `write` of the socket gives.
pub mod RoundTrip
pub mod Handshake
use ruvname.Prelude.{
  ℕ, zero, suc, ◌+◌, ◌-◌, ◌*◌, ◌/◌, ◌%◌, Bool, true, false, ◌||◌, Option, none, some, List, [], ◌∷◌,
  ◌++◌, ◌==◌, ltb, if◌then◌else◌, length, take, drop, set,
}
use ruvname.Bytes.{Bytes}

-- `^` on numbers below 2 ^ k.
pub xor_bits : (k : ℕ) → ℕ → ℕ → ℕ
xor_bits zero a b = 0
xor_bits (suc k) a b = (if a % 2 == b % 2 then 0 else 1) + 2 * xor_bits k (a / 2) (b / 2)

-- `^ 0xAAAA` on a u16, and `^ 0xA` on a byte.
unfoldable pub mask_length : ℕ → ℕ
unfolding xor_bits
mask_length n = xor_bits 16 n 43690

unfoldable pub mask_garbage : ℕ → ℕ
unfolding xor_bits
mask_garbage n = xor_bits 8 n 10

-- The crate byteorder: big-endian words written to a buffer and read from a stream.
pub record ByteOrder : Type 0 where
  pub write_u16 : ℕ → Bytes
  pub read_u16 : Bytes → Option (ℕ × Bytes)

-- What one call of `write` gives, and whether three seconds are over after it.
pub data Write : Type 0 where
  wrote : (n : ℕ) (late : Bool) → Write
  interrupted : (late : Bool) → Write
  failed : Write

-- What reached the stream; `result` is `none` as long as the loop still runs.
pub record Sent : Type 0 where
  pub sent : Bytes
  pub result : Option Bool

abbrev pub sent_before : Bytes → Sent → Sent
sent_before bytes s = record s { sent = bytes ++ s.sent }

unfoldable pub write_all : Bytes → List Write → Sent
write_all [] writes = record { sent = []; result = some true }
write_all (x ∷ buf) [] = record { sent = []; result = none }
write_all (x ∷ buf) (Write.wrote n late ∷ writes) =
    let rest = write_all (drop n (x ∷ buf)) writes in
    if n == 0
    then record { sent = []; result = some false }
    else if late
    then record { sent = take n (x ∷ buf); result = some false }
    else sent_before (take n (x ∷ buf)) rest
write_all (x ∷ buf) (Write.interrupted late ∷ writes) =
    let rest = write_all (x ∷ buf) writes in
    if late then record { sent = []; result = some false } else rest
write_all (x ∷ buf) (Write.failed ∷ writes) = record { sent = []; result = some false }

-- What one call of `read` finds: a number of bytes that have arrived, or nothing, with whether the
-- tenth of a second for a message is over.
pub data Read : Type 0 where
  available : (n : ℕ) → Read
  would_block : (late : Bool) → Read
  interrupted : Read
  failed : Read

pub data ReadResult : Type 0 where
  read : (payload rest : Bytes) → ReadResult
  error : ReadResult
  running : ReadResult

abbrev after_read : (size : ℕ) → Bytes → (rest : Bytes) → ReadResult
after_read size buf rest = if length buf == size then ReadResult.read buf rest else ReadResult.error

-- The loop of `read_message`: `buf` is what it has, `stream` what the other side has sent.
unfoldable pub read_loop : (size : ℕ) → (buf stream : Bytes) → List Read → ReadResult
read_loop size buf stream [] = ReadResult.running
read_loop size buf stream (Read.available n ∷ reads) =
    let bytes = take (if ltb n (size - length buf) then n else size - length buf) stream in
    let rest = drop (length bytes) stream in
    let more = read_loop size (buf ++ bytes) rest reads in
    if length (buf ++ bytes) == size || length bytes == 0
    then after_read size (buf ++ bytes) rest
    else more
read_loop size buf stream (Read.would_block late ∷ reads) =
    let more = read_loop size buf stream reads in if late then ReadResult.error else more
read_loop size buf stream (Read.interrupted ∷ reads) = read_loop size buf stream reads
read_loop size buf stream (Read.failed ∷ reads) = ReadResult.error

module _ (order : ByteOrder) where
  abbrev pub frame : Bytes → Bytes
  frame bytes = order.write_u16 (mask_length (length bytes % 65536)) ++ bytes

  unfoldable pub send_message : Bytes → List Write → Sent
  send_message bytes writes = write_all (frame bytes) writes

  unfoldable pub read_message : (stream : Bytes) → List Read → ReadResult
  read_message stream reads = elim (order.read_u16 stream) [
    | none ↦ ReadResult.error
    | some (n, rest) ↦
        if mask_length n == 0 then ReadResult.error else read_loop (mask_length n) [] rest reads
  ]

-- `buf[i] = x`: `none` is the panic out of bounds.
abbrev pub set_elem : Bytes → (i x : ℕ) → Option Bytes
set_elem buf i x = if ltb i (length buf) then some (set buf i x) else none

-- `for i in 0..bytes.len() { buf[i + at] = bytes[i]; }`
unfoldable pub put_bytes : Bytes → (at : ℕ) → Bytes → Option Bytes
put_bytes buf at [] = some buf
put_bytes buf at (x ∷ bytes) = elim (set_elem buf at x) [
  | none ↦ none
  | some buf' ↦ put_bytes buf' (suc at) bytes
]

-- The handshakes: `packet` is the buffer of random bytes.
unfoldable pub send_client_handshake : (packet public_key : Bytes) → Option Bytes
send_client_handshake packet public_key =
    let garbage_size = length packet - 33 in
    elim (set_elem packet 0 (mask_garbage (garbage_size % 256))) [
      | none ↦ none
      | some buf ↦ put_bytes buf (garbage_size + 1) public_key
    ]

unfoldable pub send_server_handshake : (packet public_key nonce : Bytes) → Option Bytes
send_server_handshake packet public_key nonce =
    let garbage_size = length packet - 1 - 32 - 12 in
    elim (set_elem packet 0 (mask_garbage (garbage_size % 256))) [
      | none ↦ none
      | some buf ↦ elim (put_bytes buf (garbage_size + 1) public_key) [
        | none ↦ none
        | some buf' ↦ put_bytes buf' (garbage_size + 32 + 1) nonce
      ]
    ]

-- Reading from a stream whose bytes have arrived: `none` is an error.
unfoldable pub read_exact : (n : ℕ) → Bytes → Option (Bytes × Bytes)
read_exact n stream = if ltb (length stream) n then none else some (take n stream, drop n stream)

unfoldable pub read_garbage_header : Bytes → Option Bytes
read_garbage_header [] = none
read_garbage_header (size ∷ stream) = elim (read_exact (mask_garbage size) stream) [
  | none ↦ none
  | some (garbage, rest) ↦ some rest
]

unfoldable pub read_after_garbage : (n : ℕ) → Bytes → Option (Bytes × Bytes)
read_after_garbage n stream = elim (read_garbage_header stream) [
  | none ↦ none
  | some rest ↦ read_exact n rest
]

unfoldable pub read_client_handshake : Bytes → Option (Bytes × Bytes)
read_client_handshake = read_after_garbage 32

unfoldable pub read_server_handshake : Bytes → Option (Bytes × Bytes)
read_server_handshake = read_after_garbage 44
