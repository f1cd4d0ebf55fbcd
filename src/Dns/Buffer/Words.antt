-- ===== src/Dns/Buffer/Words.antt =====
-- src/dns/buffer.rs: machine words on the buffers. What a client needs to know of a buffer that it
-- reads or writes is an interface, which VectorPacketBuffer and BytePacketBuffer fill.
use ruvname.Prelude.{
  ℕ, zero, suc, ◌+◌, ◌*◌, ◌/◌, ◌%◌, ◌≤◌, ◌<◌, ◌≡◌, refl, ap, ◌∙◌, false, some, [], ◌∷◌, ◌++◌, leb,
  length, get_elem?, set, take, drop, arith, length-set, length-append,
}
use mathlib.Core.Path.{subst}
use mathlib.Core.List.{append_assoc}
use ruvname.Bytes.{Bytes}
use ruvname.Dns.Buffer.{
  Outcome, done, ◌>>=◌, PacketBuffer, vector_buffer, byte_buffer, write_u8, write_u16, read_u16,
}

-- A buffer that is read byte by byte: `rest` is what is still to be read.
pub record Readable {S : Type 0} (P : PacketBuffer S) : Type 1 where
  pub rest : S → Bytes
  pub read-rest :
      (s : S) (x : ℕ) (xs : Bytes)
      → rest s ≡ x ∷ xs
      → (s' : S) × (P.read s ≡ done (x, s')) × (rest s' ≡ xs)

-- A buffer that is written byte by byte: `room s n` says that `n` bytes fit.
pub record Writable {S : Type 0} (P : PacketBuffer S) : Type 1 where
  pub output : S → Bytes
  pub room : S → ℕ → Type 0
  pub write-output :
      (s : S) (x n : ℕ)
      → room s (1 + n)
      → (s' : S) × (P.write s x ≡ done s') × (output s' ≡ output s ++ (x ∷ [])) × room s' n

drop-cons :
    (xs : Bytes) (p x : ℕ) (rest : Bytes)
    → drop p xs ≡ x ∷ rest
    → (get_elem? xs p ≡ some x) × (drop (suc p) xs ≡ rest)
drop-cons [] zero x rest h = ground arith
drop-cons [] (suc p) x rest h = ground arith
drop-cons (y ∷ xs) zero x rest h = (ground arith, ground arith)
drop-cons (y ∷ xs) (suc p) x rest h = drop-cons xs p x rest h

pub vector_buffer-Readable : Readable vector_buffer
unfolding vector_buffer
vector_buffer-Readable = record {
  rest = λ s. drop s.pos s.buffer;
  read-rest = λ s x xs h.
      let (found, left) = drop-cons s.buffer s.pos x xs h in
      (record s { pos = suc s.pos }, rw found refl, left);
}

pub vector_buffer-Writable : Writable vector_buffer
unfolding vector_buffer
vector_buffer-Writable = record {
  output = λ s. s.buffer;
  room = λ s n. Unit;
  write-output =
      λ s x n h. (record s { buffer = s.buffer ++ (x ∷ []); pos = suc s.pos }, refl, refl, tt);
}

drop-nil : (p : ℕ) → drop {A = ℕ} p [] ≡ []
drop-nil zero = refl
drop-nil (suc p) = refl

drop-take :
    (n : ℕ) (xs : Bytes) (p x : ℕ) (rest : Bytes)
    → drop p (take n xs) ≡ x ∷ rest
    → (p < n) × (get_elem? xs p ≡ some x)
drop-take zero xs p x rest h = let nil = drop-nil p in ground arith
drop-take (suc n) [] p x rest h = let nil = drop-nil p in ground arith
drop-take (suc n) (y ∷ xs) zero x rest h = (omega arith, ground arith)
drop-take (suc n) (y ∷ xs) (suc p) x rest h =
    let (small, found) = drop-take n xs p x rest h in (omega arith, found)

inside_lem : (p : ℕ) → p < 512 → leb 512 p ≡ false
inside_lem p h = ground arith

pub byte_buffer-Readable : Readable byte_buffer
unfolding byte_buffer
byte_buffer-Readable = record {
  rest = λ s. drop s.pos (take 512 s.buf);
  read-rest = λ s x xs h.
      let (small, found) = drop-take 512 s.buf s.pos x xs h in
      let inside = inside_lem s.pos (omega arith) in
      (
        record s { pos = suc s.pos },
        rw (inside, found) refl,
        (drop-cons (take 512 s.buf) s.pos x xs h).1,
      );
}

take-set :
    (xs : Bytes) (p x : ℕ) → p < length xs → take (suc p) (set xs p x) ≡ take p xs ++ (x ∷ [])
take-set [] p x h = ground arith
take-set (y ∷ xs) zero x h = refl
take-set (y ∷ xs) (suc p) x h = ap (λ zs. y ∷ zs) (take-set xs p x (ground arith))

pub byte_buffer-Writable : Writable byte_buffer
unfolding byte_buffer
byte_buffer-Writable = record {
  output = λ s. take s.pos s.buf;
  room = λ s n. (s.pos + n ≤ 512) × (length s.buf ≡ 512);
  write-output = λ s x n (fits, whole).
      let inside = inside_lem s.pos (omega arith) in
      (
        record s { buf = set s.buf s.pos x; pos = suc s.pos },
        rw inside refl,
        take-set s.buf s.pos x (ground arith),
        (ground arith, length-set s.buf s.pos x ∙ whole),
      );
}

-- The bytes of a word, the high one first.
unfoldable pub u16_bytes : ℕ → Bytes
u16_bytes v = v / 256 % 256 ∷ v % 256 ∷ []

unfoldable pub u32_bytes : ℕ → Bytes
u32_bytes v = v / 16777216 % 256 ∷ v / 65536 % 256 ∷ v / 256 % 256 ∷ v % 256 ∷ []

-- An operation that writes the bytes, wherever they fit.
abbrev pub Writes :
    {S : Type 0} {P : PacketBuffer S} → Writable P → (S → Outcome S) → Bytes → Type 0
Writes {S} W act bytes =
    (s : S) (n : ℕ)
    → W.room s (length bytes + n)
    → (s' : S) × (act s ≡ done s') × (W.output s' ≡ W.output s ++ bytes) × W.room s' n

module _ {S : Type 0} (P : PacketBuffer S) (W : Writable P) where
  pub Writes-then :
      (act next : S → Outcome S) (xs ys : Bytes)
      → Writes W act xs
      → Writes W next ys
      → Writes W (λ s. act s >>= next) (xs ++ ys)
  Writes-then act next xs ys h1 h2 s n room =
      let size : length (xs ++ ys) + n ≡ length xs + (length ys + n) =
        omega (arith, length-append xs ys) in
      let (s1, w1, o1, r1) = h1 s (length ys + n) (subst (W.room s) size room) in
      let (s2, w2, o2, r2) = h2 s1 n r1 in
      (s2, rw w1 w2, o2 ∙ ap (λ o. o ++ ys) o1 ∙ append_assoc (W.output s) xs ys, r2)

  pub write_u8-Writes : (v : ℕ) → Writes W (λ s. write_u8 P s v) (v ∷ [])
  unfolding write_u8
  write_u8-Writes v s n room = W.write-output s v n room

  pub write_u16-Writes : (v : ℕ) → Writes W (λ s. write_u16 P s v) (u16_bytes v)
  unfolding write_u16 u16_bytes
  write_u16-Writes v =
      Writes-then (λ s. P.write s (v / 256 % 256)) (λ s. P.write s (v % 256)) (v / 256 % 256 ∷ [])
        (v % 256 ∷ []) (λ s n. W.write-output s (v / 256 % 256) n)
        (λ s n. W.write-output s (v % 256) n)

-- An operation that reads a value from the bytes.
abbrev pub Reads :
    {S A : Type 0} {P : PacketBuffer S} → Readable P → (S → Outcome (A × S)) → Bytes → A → Type 0
Reads {S} R act bytes a =
    (s : S) (xs : Bytes)
    → R.rest s ≡ bytes ++ xs
    → (s' : S) × (act s ≡ done (a, s')) × (R.rest s' ≡ xs)

module _ {S : Type 0} (P : PacketBuffer S) (R : Readable P) where
  pub Reads-then :
      {A B : Type 0} (act : S → Outcome (A × S)) (next : A → S → Outcome (B × S)) (xs ys : Bytes)
      (a : A) (b : B)
      → Reads R act xs a
      → Reads R (next a) ys b
      → Reads R (λ s. act s >>= λ (a, s). next a s) (xs ++ ys) b
  Reads-then act next xs ys a b h1 h2 s zs h =
      let (s1, r1, left1) = h1 s (ys ++ zs) (h ∙ append_assoc xs ys zs) in
      let (s2, r2, left2) = h2 s1 zs left1 in (s2, rw r1 r2, left2)

  pub read_u16-Reads : (hi lo : ℕ) → Reads R (read_u16 P) (hi ∷ lo ∷ []) (hi * 256 + lo)
  unfolding read_u16
  read_u16-Reads hi lo s xs h =
      let (s1, r1, left1) = R.read-rest s hi (lo ∷ xs) h in
      let (s2, r2, left2) = R.read-rest s1 lo xs left1 in (s2, rw (r1, r2) refl, left2)

  pub read_u16-word : (v : ℕ) → v < 65536 → Reads R (read_u16 P) (u16_bytes v) v
  unfolding u16_bytes
  read_u16-word v small =
      let back : v / 256 % 256 * 256 + v % 256 ≡ v = omega arith in
      subst (Reads R (read_u16 P) (u16_bytes v)) back (read_u16-Reads (v / 256 % 256) (v % 256))
