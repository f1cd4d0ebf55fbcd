-- ===== src/Dns/Name/Layout.antt =====
-- src/dns/buffer.rs: names as they lie in a buffer, and how `read_qname` reads them.
use ruvname.Prelude.{
  sym, take, drop, length-drop, length-take, ◌-◌, ℕ, zero, suc, ◌+◌, ◌/◌, ◌%◌, ◌≤◌, ◌<◌, ◌≡◌, refl,
  ap, ◌∙◌, Bool, true, false, some, List, [], ◌∷◌, ◌++◌, All, leb, length, get_elem?, arith,
}
use Prim.Native.Nat.{min}
use mathlib.Core.List.{append-nil, append_assoc}
use ruvname.Bytes.{Bytes}
use ruvname.Dns.Buffer.{Outcome, done, VectorPacketBuffer, vector_buffer, slice}
use ruvname.Dns.Name.{jump_offset, read_label, read_labels, read_qname, join}

-- `NameAt buf n p e labels`: the labels start at `p`, what follows them in place starts at `e`, and
-- it takes `n` rounds to read them.
pub data NameAt (buf : Bytes) : ℕ → ℕ → ℕ → List Bytes → Type 0 where
  root : (p : ℕ) → get_elem? buf p ≡ some 0 → NameAt buf 1 p (suc p) []
  label :
      (n p e : ℕ) (l : Bytes) (ls : List Bytes)
      → 0 < length l
      → length l < 64
      → get_elem? buf p ≡ some (length l)
      → take (length l) (drop (suc p) buf) ≡ l
      → NameAt buf n (suc p + length l) e ls
      → NameAt buf (suc n) p e (l ∷ ls)
  jump :
      (n p q e : ℕ) (ls : List Bytes)
      → q < 16384
      → get_elem? buf p ≡ some (192 + q / 256)
      → get_elem? buf (suc p) ≡ some (q % 256)
      → NameAt buf n q e ls
      → NameAt buf (suc n) p (p + 2) ls

-- The text of the labels, with the delimiter before the first one.
abbrev pub delimited : Bytes → List Bytes → Bytes
delimited delim [] = []
delimited delim (l ∷ ls) = delim ++ (l ++ delimited (b'.' ∷ []) ls)

pub delimited-join : (ls : List Bytes) → delimited [] ls ≡ join ls
unfolding join
delimited-join [] = refl
delimited-join (l ∷ []) = append-nil l
delimited-join (l ∷ next ∷ rest) = ap (λ text. l ++ (b'.' ∷ text)) (delimited-join (next ∷ rest))

-- Where the buffer stands after the name.
abbrev after : VectorPacketBuffer → Bool → ℕ → VectorPacketBuffer
after s true e = s
after s false e = record s { pos = e }

not_jump : (n : ℕ) → n < 64 → leb 64 n ≡ false
not_jump n h = ground arith

is_jump : (n : ℕ) → leb 64 (192 + n) ≡ true
is_jump n = ground arith

offset_lem : (q : ℕ) → q < 16384 → jump_offset (192 + q / 256) (q % 256) ≡ q
offset_lem q h = ground arith

rounds_positive : {buf : Bytes} (n p e : ℕ) (ls : List Bytes) → NameAt buf n p e ls → 0 < n
rounds_positive _ _ _ _ (root p found) = omega arith
rounds_positive _ _ _ _ (label n p e l ls some_label short found text rest) = omega arith
rounds_positive _ _ _ _ (jump n p q e ls small hi lo rest) = omega arith

slice_lem :
    (buf l : Bytes) (p : ℕ)
    → 0 < length l
    → take (length l) (drop p buf) ≡ l
    → slice buf p (length l) ≡ done l
slice_lem buf l p some_label h =
    let size : min (length l) (length buf - p) ≡ length l =
      ap (min (length l)) (sym (length-drop p buf))
      ∙ sym (length-take (length l) (drop p buf))
      ∙ ap length h in
    let inside : leb (p + length l) (length buf) ≡ true = ground arith in rw (inside, h) refl

module _ (lowercase : Bytes → Bytes) where
  read_label_text :
      (again : VectorPacketBuffer → ℕ → Bool → Bytes → Bytes → Outcome (Bytes × VectorPacketBuffer))
      (s : VectorPacketBuffer) (p : ℕ) (jumped : Bool) (delim outstr l : Bytes)
      → 0 < length l
      → slice s.buffer (suc p) (length l) ≡ done l
      → lowercase l ≡ l
      → read_label vector_buffer lowercase again s p jumped delim outstr (length l) false
        ≡ again s (suc p + length l) jumped (b'.' ∷ []) (outstr ++ (delim ++ l))
  unfolding vector_buffer
  read_label_text again s p jumped delim outstr [] some_label found low = ground arith
  read_label_text again s p jumped delim outstr (x ∷ l) some_label found low = rw (found, low) refl

  read_labels-NameAt :
      (n p e : ℕ) (ls : List Bytes) (s : VectorPacketBuffer)
      → NameAt s.buffer n p e ls
      → All (λ l. lowercase l ≡ l) ls
      → (fuel : ℕ) (jumped : Bool) (delim outstr : Bytes) → n ≤ fuel
      → read_labels vector_buffer lowercase fuel s p jumped delim outstr
        ≡ done (outstr ++ delimited delim ls, after s jumped e)
  unfolding read_labels vector_buffer
  read_labels-NameAt n p e ls s name low zero jumped delim outstr enough =
      let positive = rounds_positive n p e ls name in ground arith
  read_labels-NameAt _ _ _ _ s (root p found) low (suc fuel) true delim outstr enough =
      rw (found, append-nil outstr) refl
  read_labels-NameAt _ _ _ _ s (root p found) low (suc fuel) false delim outstr enough =
      rw (found, append-nil outstr) refl
  read_labels-NameAt _ _ _ _ s (label n p e l ls some_label short found text rest) low (suc fuel)
        jumped delim outstr enough =
      let more =
        read_labels-NameAt n (suc p + length l) e ls s rest low.1 fuel jumped (b'.' ∷ [])
          (outstr ++ (delim ++ l)) (omega arith) in
      let step =
        read_label_text (read_labels vector_buffer lowercase fuel) s p jumped delim outstr l
          some_label (slice_lem s.buffer l (suc p) some_label text) low.0 in
      let tail = delimited (b'.' ∷ []) ls in
      let text =
        append_assoc outstr (delim ++ l) tail ∙ ap (λ r. outstr ++ r) (append_assoc delim l tail) in
      rw (found, not_jump (length l) short)
        (step ∙ more ∙ ap (λ t. done (t, after s jumped e)) text)
  read_labels-NameAt _ _ _ _ s (jump n p q e ls small hi lo rest) low (suc fuel) true delim outstr
        enough =
      rw (hi, is_jump (q / 256), lo, offset_lem q small)
        (read_labels-NameAt n q e ls s rest low fuel true delim outstr (omega arith))
  read_labels-NameAt _ _ _ _ s (jump n p q e ls small hi lo rest) low (suc fuel) false delim outstr
        enough =
      rw (hi, is_jump (q / 256), lo, offset_lem q small)
        (read_labels-NameAt n q e ls (record s { pos = p + 2 }) rest low fuel true delim outstr
          (omega arith))

  -- A name laid out at the position of the buffer as labels of 1 to 63 bytes, in lower case, and jumps
  -- is read in as many rounds as it has, or more; the buffer then stands after its part in place.
  pub read_qname-NameAt :
      (n e : ℕ) (ls : List Bytes) (s : VectorPacketBuffer) (fuel : ℕ)
      → NameAt s.buffer n s.pos e ls
      → All (λ l. lowercase l ≡ l) ls
      → n ≤ fuel
      → read_qname vector_buffer lowercase fuel s [] ≡ done (join ls, record s { pos = e })
  unfolding read_qname vector_buffer
  read_qname-NameAt n e ls s fuel name low enough =
      read_labels-NameAt n s.pos e ls s name low fuel false [] [] enough
      ∙ ap (λ t. done (t, record s { pos = e })) (delimited-join ls)
