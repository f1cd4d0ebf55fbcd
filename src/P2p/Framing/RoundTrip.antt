-- ===== src/P2p/Framing/RoundTrip.antt =====
-- src/p2p/network.rs: `send_message` on one side of a connection and `read_message` on the other.
use ruvname.Prelude.{
  ℕ, zero, suc, ◌+◌, ◌-◌, ◌*◌, ◌/◌, ◌%◌, ◌^◌, ◌<◌, ◌≤◌, ◌≡◌, refl, ◌∙◌, ap, ◌⊎◌, inl, inr, true,
  false, ◌||◌, some, List, [], ◌∷◌, ◌++◌, ◌==◌, ltb, if◌then◌else◌, length, take, drop,
  length-append, drop-append, take-append, length-take, length-drop, Bool-cases, arith,
}
use mathlib.Core.List.{append_assoc}
use ruvname.Bytes.{Bytes}
use ruvname.P2p.Framing.{
  xor_bits, mask_length, mask_garbage, ByteOrder, Write, write_all, Read, ReadResult, read_loop,
  frame, send_message, read_message,
}

xor_bits-bound : (k a b : ℕ) → xor_bits k a b < 2 ^ k
unfolding xor_bits
xor_bits-bound zero a b = omega arith
xor_bits-bound (suc k) a b = let ih = xor_bits-bound k (a / 2) (b / 2) in ground arith

low_bit : (b r : ℕ) → b < 2 → ((b + 2 * r) % 2 ≡ b) × ((b + 2 * r) / 2 ≡ r)
low_bit b r h = (omega arith, omega arith)

-- A mask taken twice is undone.
xor_bits_twice : (k a b : ℕ) → a < 2 ^ k → xor_bits k (xor_bits k a b) b ≡ a
unfolding xor_bits
xor_bits_twice zero a b h = omega arith
xor_bits_twice (suc k) a b h = elim (Bool-cases (a % 2 == b % 2)) [
  | inl e ↦
      let (bit, half) = low_bit 0 (xor_bits k (a / 2) (b / 2)) (omega arith) in
      let ih = xor_bits_twice k (a / 2) (b / 2) (omega arith) in
      rw e (rw (bit, half, ih) (ground arith))
  | inr e ↦
      let (bit, half) = low_bit 1 (xor_bits k (a / 2) (b / 2)) (omega arith) in
      let ih = xor_bits_twice k (a / 2) (b / 2) (omega arith) in
      rw e (rw (bit, half, ih) (ground arith))
]

mask_length_twice : (n : ℕ) → n < 65536 → mask_length (mask_length n) ≡ n
unfolding mask_length
mask_length_twice n h = xor_bits_twice 16 n 43690 h

mask_length-bound : (n : ℕ) → mask_length n < 65536
unfolding mask_length
mask_length-bound n = xor_bits-bound 16 n 43690

pub mask_garbage_twice : (n : ℕ) → n < 256 → mask_garbage (mask_garbage n) ≡ n
unfolding mask_garbage
mask_garbage_twice n h = xor_bits_twice 8 n 10 h

pub take-drop : {A : Type 0} (n : ℕ) (xs : List A) → take n xs ++ drop n xs ≡ xs
take-drop zero xs = refl
take-drop (suc n) [] = refl
take-drop (suc n) (x ∷ xs) = ap (◌∷◌ x) (take-drop n xs)

-- If `write_all` returns `Ok`, the stream got exactly the buffer.
write_all-sent :
    (buf : Bytes) (writes : List Write)
    → (write_all buf writes).result ≡ some true
    → (write_all buf writes).sent ≡ buf
unfolding write_all
write_all-sent [] writes h = refl
write_all-sent (x ∷ buf) [] h = cc
write_all-sent (x ∷ buf) (Write.wrote n late ∷ writes) h = elim (Bool-cases (n == 0)) [
  | inl e ↦ absurd (ground arith)
  | inr e ↦ elim (Bool-cases late) [
    | inl l ↦ absurd (ground arith)
    | inr l ↦
        let ih = write_all-sent (drop n (x ∷ buf)) writes (ground arith) in
        rw (e, l) (ap (◌++◌ (take n (x ∷ buf))) ih ∙ take-drop n (x ∷ buf))
  ]
]
write_all-sent (x ∷ buf) (Write.interrupted late ∷ writes) h = elim (Bool-cases late) [
  | inl l ↦ absurd (ground arith)
  | inr l ↦ let ih = write_all-sent (x ∷ buf) writes (ground arith) in rw l ih
]
write_all-sent (x ∷ buf) (Write.failed ∷ writes) h = cc

take-append_le : (n : ℕ) (xs ys : Bytes) → n ≤ length xs → take n (xs ++ ys) ≡ take n xs
take-append_le zero xs ys h = refl
take-append_le (suc n) [] ys h = absurd (omega arith)
take-append_le (suc n) (x ∷ xs) ys h = ap (◌∷◌ x) (take-append_le n xs ys (omega arith))

drop-append_le : (n : ℕ) (xs ys : Bytes) → n ≤ length xs → drop n (xs ++ ys) ≡ drop n xs ++ ys
drop-append_le zero xs ys h = refl
drop-append_le (suc n) [] ys h = absurd (omega arith)
drop-append_le (suc n) (x ∷ xs) ys h = drop-append_le n xs ys (omega arith)

-- Reads that deliver so many bytes in time: no failure, no end of the stream, and no wait at which
-- the time is over, before they have come.
abbrev pub Delivers : ℕ → List Read → Type 0
Delivers need [] = ⊥
Delivers need (Read.available n ∷ reads) =
    (1 ≤ n) × ((need ≤ n) ⊎ ((n < need) × Delivers (need - n) reads))
Delivers need (Read.would_block late ∷ reads) = (late ≡ false) × Delivers need reads
Delivers need (Read.interrupted ∷ reads) = Delivers need reads
Delivers need (Read.failed ∷ reads) = ⊥

read_loop-last :
    (n : ℕ) (got need rest : Bytes) (reads : List Read)
    → length need ≤ n
    → read_loop (length got + length need) got (need ++ rest) (Read.available n ∷ reads)
      ≡ ReadResult.read (got ++ need) rest
unfolding read_loop
read_loop-last n got need rest reads h =
    let size : (length got + length need) - length got ≡ length need = omega arith in
    let whole : (if ltb n (length need) then n else length need) ≡ length need = ground arith in
    let bytes : take (length need) (need ++ rest) ≡ need = take-append need rest in
    rw (size, whole, bytes, drop-append need rest) (ground (arith, length-append got need))

read_loop-part :
    (n : ℕ) (got need rest : Bytes) (reads : List Read)
    → 1 ≤ n
    → n < length need
    → read_loop (length got + length need) got (need ++ rest) (Read.available n ∷ reads)
      ≡ read_loop
          (length (got ++ take n need) + length (drop n need))
          (got ++ take n need)
          (drop n need ++ rest)
          reads
unfolding read_loop
read_loop-part n got need rest reads starts h =
    let size : (length got + length need) - length got ≡ length need = omega arith in
    let part : (if ltb n (length need) then n else length need) ≡ n = ground arith in
    let bytes : take n (need ++ rest) ≡ take n need = take-append_le n need rest (omega arith) in
    let taken : length (take n need) ≡ n = omega (arith, length-take n need) in
    let next : drop n (need ++ rest) ≡ drop n need ++ rest =
      drop-append_le n need rest (omega arith) in
    let sizes : length (got ++ take n need) + length (drop n need) ≡ length got + length need =
      omega (arith, length-append got (take n need), length-drop n need, taken) in
    let short : ((length (got ++ take n need) == length got + length need) || (n == 0)) ≡ false =
      ground (arith, length-append got (take n need), taken) in
    rw (size, part, bytes, sizes) (rw (taken, next) (rw short refl))

length_ne_zero : (bytes : Bytes) → 1 ≤ length bytes → (length bytes == 0) ≡ false
length_ne_zero bytes h = ground arith

read_loop-reads :
    (need got rest : Bytes) (reads : List Read)
    → Delivers (length need) reads
    → read_loop (length got + length need) got (need ++ rest) reads
      ≡ ReadResult.read (got ++ need) rest
unfolding read_loop
read_loop-reads need got rest [] h = absurd h
read_loop-reads need got rest (Read.available n ∷ reads) (starts, inl all) =
    read_loop-last n got need rest reads all
read_loop-reads need got rest (Read.available n ∷ reads) (starts, inr (part, h)) =
    let left : length (drop n need) ≡ length need - n = length-drop n need in
    read_loop-part n got need rest reads starts part
    ∙ read_loop-reads (drop n need) (got ++ take n need) rest reads (rw left h)
    ∙ ap (λ xs. ReadResult.read xs rest)
        (append_assoc got (take n need) (drop n need) ∙ ap (◌++◌ got) (take-drop n need))
read_loop-reads need got rest (Read.would_block late ∷ reads) (in_time, h) =
    rw in_time (read_loop-reads need got rest reads h)
read_loop-reads need got rest (Read.interrupted ∷ reads) h = read_loop-reads need got rest reads h
read_loop-reads need got rest (Read.failed ∷ reads) h = absurd h

-- The documented behaviour of the byte order crate.
abbrev pub ReadsBack : ByteOrder → Type 0
ReadsBack order =
    (n : ℕ) (rest : Bytes) → n < 65536 → order.read_u16 (order.write_u16 n ++ rest) ≡ some (n, rest)

module _ (order : ByteOrder) where
  read_message-header :
      (stream rest : Bytes) (n size : ℕ) (reads : List Read)
      → order.read_u16 stream ≡ some (n, rest)
      → mask_length n ≡ size
      → (size == 0) ≡ false
      → read_message order stream reads ≡ read_loop size [] rest reads
  unfolding read_message
  read_message-header stream rest n size reads header mask some_size =
      rw (read_message, header) (rw (mask, some_size) refl)

  send_message-sent :
      (bytes : Bytes) (writes : List Write)
      → (send_message order bytes writes).result ≡ some true
      → (send_message order bytes writes).sent ≡ frame order bytes
  unfolding send_message
  send_message-sent bytes writes done = write_all-sent (frame order bytes) writes done

-- A message of 1 to 65535 bytes whose sending ends in `Ok` is read by the other side, and nothing
-- of what follows it in the stream, whatever parts the socket cuts it into, as long as the bytes
-- arrive in time.
pub read_message-send_message :
    (order : ByteOrder) (bytes rest : Bytes) (writes : List Write) (reads : List Read)
    → ReadsBack order
    → 1 ≤ length bytes
    → length bytes < 65536
    → (send_message order bytes writes).result ≡ some true
    → Delivers (length bytes) reads
    → read_message order ((send_message order bytes writes).sent ++ rest) reads
      ≡ ReadResult.read bytes rest
read_message-send_message order bytes rest writes reads crate starts small done delivers =
    let size : length bytes % 65536 ≡ length bytes = omega arith in
    let whole : length bytes ≡ 0 + length bytes = omega arith in
    let masked : ℕ = mask_length (length bytes % 65536) in
    let back : mask_length masked ≡ length bytes =
      ap (λ n. mask_length (mask_length n)) size ∙ mask_length_twice (length bytes) small in
    let stream : (send_message order bytes writes).sent ++ rest
        ≡ order.write_u16 masked ++ (bytes ++ rest) =
      ap (λ xs. xs ++ rest) (send_message-sent order bytes writes done)
      ∙ append_assoc (order.write_u16 masked) bytes rest in
    ap (λ xs. read_message order xs reads) stream
    ∙ read_message-header order (order.write_u16 masked ++ (bytes ++ rest)) (bytes ++ rest) masked
        (length bytes) reads
        (crate masked (bytes ++ rest) (mask_length-bound (length bytes % 65536))) back
        (length_ne_zero bytes starts)
    ∙ ap (λ n. read_loop n [] (bytes ++ rest) reads) whole
    ∙ read_loop-reads bytes [] rest reads delivers
