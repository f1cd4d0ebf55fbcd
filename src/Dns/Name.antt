-- ===== src/Dns/Name.antt =====
-- src/dns/buffer.rs: `write_qname` with its compression, and `read_qname` with its jumps.
-- A text is the list of its UTF-8 bytes.
pub mod Cycle
pub mod Layout
pub mod Text
pub mod Table
pub mod Compress
use ruvname.Prelude.{
  ℕ, zero, suc, ◌+◌, ◌-◌, ◌*◌, ◌%◌, Bool, true, false, Option, none, some, List, [], ◌∷◌, ◌++◌,
  ◌==◌, leb, if◌then◌else◌, length,
}
use ruvname.Bytes.{Bytes}
use ruvname.Dns.Buffer.{Outcome, done, endless, ◌>>=◌, PacketBuffer, write_u8, write_u16}

-- A byte in front of the first part.
abbrev pub on_first : ℕ → List Bytes → List Bytes
on_first x [] = (x ∷ []) ∷ []
on_first x (part ∷ parts) = (x ∷ part) ∷ parts

-- `qname.split('.')`
unfoldable pub split : Bytes → List Bytes
split [] = [] ∷ []
split (x ∷ xs) = let rest = split xs in if x == b'.' then [] ∷ rest else on_first x rest

-- `labels.join(".")`
unfoldable pub join : List Bytes → Bytes
join [] = []
join (label ∷ []) = label
join (label ∷ next ∷ rest) = label ++ (b'.' ∷ join (next ∷ rest))

-- `prev_pos as u16 | 0xC000`
abbrev pub jump_inst : ℕ → ℕ
jump_inst prev_pos = 49152 + prev_pos % 16384

-- `len ^ 0xC0`
abbrev pub flip_top : ℕ → ℕ
flip_top len =
    if leb 192 len
    then len - 192
    else if leb 128 len
    then len - 64
    else if leb 64 len
    then len + 64
    else len + 192

-- `((len ^ 0xC0) << 8) | b2`
abbrev pub jump_offset : ℕ → ℕ → ℕ
jump_offset len b2 = flip_top len * 256 + b2

module _ {S : Type 0} (P : PacketBuffer S) where
  unfoldable pub write_bytes : S → Bytes → Outcome S
  unfolding write_u8
  write_bytes s [] = done s
  write_bytes s (b ∷ bs) = write_u8 P s b >>= λ s. write_bytes s bs

  -- One round, for a label that starts the text: `again` is the rest of the loop.
  abbrev pub write_label : (S → Outcome S) → S → (label text : Bytes) → Option ℕ → Outcome S
  write_label again s label text (some prev_pos) = write_u16 P s (jump_inst prev_pos)
  write_label again s label text none = P.save_label s text (P.pos s) >>= λ s.
      write_u8 P s (length label % 256) >>= λ s. write_bytes s label >>= λ s. again s

  -- The loop over the labels, with the end that follows it: a jump leaves it early.
  unfoldable pub write_labels : S → List Bytes → Outcome S
  unfolding write_bytes write_u16
  write_labels s [] = write_u8 P s 0
  write_labels s (label ∷ rest) =
      write_label (λ s. write_labels s rest) s label (join (label ∷ rest))
        (P.find_label s (join (label ∷ rest)))

  unfoldable pub write_qname : S → Bytes → Outcome S
  unfolding write_labels split
  write_qname s qname = write_labels s (split qname)

  -- `String::from_utf8_lossy(bytes).to_lowercase()`, which depends on the tables of Unicode.
  module _ (lowercase : Bytes → Bytes) where
    -- One round, after the length: `again` is the rest of the loop.
    abbrev pub read_label :
        (S → ℕ → Bool → Bytes → Bytes → Outcome (Bytes × S))
        → S
        → (pos : ℕ) → (jumped : Bool) → (delim outstr : Bytes) → (len : ℕ) → (is_jump : Bool)
        → Outcome (Bytes × S)
    read_label again s pos jumped delim outstr len true =
        (if jumped then done s else P.seek s (pos + 2)) >>= λ s.
        P.get s (suc pos) >>= λ (b2, s). again s (jump_offset len b2) true delim outstr
    read_label again s pos jumped delim outstr zero false =
        (if jumped then done s else P.seek s (suc pos)) >>= λ s. done (outstr, s)
    read_label again s pos jumped delim outstr (suc more) false =
        P.get_range s (suc pos) (suc more) >>= λ (str_buffer, s).
        again s (suc pos + suc more) jumped (b'.' ∷ []) (outstr ++ (delim ++ lowercase str_buffer))

    unfoldable pub read_labels : ℕ → S → ℕ → Bool → Bytes → Bytes → Outcome (Bytes × S)
    read_labels zero s pos jumped delim outstr = endless
    read_labels (suc fuel) s pos jumped delim outstr = P.get s pos >>= λ (len, s).
        read_label (read_labels fuel) s pos jumped delim outstr len (leb 64 len)

    unfoldable pub read_qname : ℕ → S → Bytes → Outcome (Bytes × S)
    unfolding read_labels
    read_qname fuel s outstr = read_labels fuel s (P.pos s) false [] outstr
