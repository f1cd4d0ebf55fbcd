-- ===== src/Dns/Name/Compress.antt =====
-- src/dns/buffer.rs: `write_qname` lays a name out so that `read_qname` finds it, the jumps to names
-- that were written before included.
use ruvname.Prelude.{
  ℕ, suc, ◌+◌, ◌/◌, ◌%◌, ◌≤◌, ◌<◌, ◌≡◌, refl, sym, ◌∙◌, none, some, List, [], ◌∷◌, ◌++◌, All,
  length, get_elem?, get_elem?-append, arith, inl, inr, Option-cases, All-append, take, drop,
  take-append, length-append,
}
use mathlib.Core.Path.{subst}
use mathlib.Core.List.{append_assoc}
use ruvname.Bytes.{Bytes}
use ruvname.Dns.Buffer.{
  Outcome, done, VectorPacketBuffer, vector_buffer, lookup_label, write_u8, write_u16,
}
use ruvname.Dns.Name.{join, jump_inst, write_label, write_labels, write_qname, read_qname}
use ruvname.Dns.Name.Layout.{NameAt, root, label, jump, read_qname-NameAt}
use ruvname.Dns.Name.Text.{IsLabel, split-join, length-join}
use ruvname.Dns.Name.Table.{
  write_bytes_lem, Entry, Table, Table-append, Entries-append, found-NameAt, NameAt-append,
}

-- What a write of labels leaves behind.
abbrev Written : VectorPacketBuffer → VectorPacketBuffer → List Bytes → Type 0
Written s s' ls =
    (n : ℕ) × (w : Bytes) × (new : List (Bytes × ℕ)) × (s'.buffer ≡ s.buffer ++ w)
    × (s'.pos ≡ length s'.buffer)
    × NameAt s'.buffer n s.pos s'.pos ls
    × (s'.label_lookup ≡ new ++ s.label_lookup)
    × All (Entry s'.buffer) new

abbrev appended : VectorPacketBuffer → Bytes → VectorPacketBuffer
appended s w = record s { buffer = s.buffer ++ w; pos = s.pos + length w }

appended_pos :
    (s : VectorPacketBuffer) (w : Bytes)
    → s.pos ≡ length s.buffer
    → (appended s w).pos ≡ length (appended s w).buffer
appended_pos s w at = omega (arith, length-append s.buffer w)

at_end : (b w : Bytes) (p x : ℕ) → p ≡ length b → get_elem? (b ++ (x ∷ w)) p ≡ some x
at_end b w p x at = rw at (get_elem?-append b x w)

at_next : (b w : Bytes) (p x y : ℕ) → p ≡ length b → get_elem? (b ++ (x ∷ y ∷ w)) (suc p) ≡ some y
at_next b w p x y at =
    subst (λ bytes. get_elem? bytes (suc p) ≡ some y) (append_assoc b (x ∷ []) (y ∷ w))
      (at_end (b ++ (x ∷ [])) w (suc p) y (omega (arith, length-append b (x ∷ []))))

write_root : (s : VectorPacketBuffer) → s.pos ≡ length s.buffer → Written s (appended s (0 ∷ [])) []
write_root s at =
    let pos : suc s.pos ≡ s.pos + 1 = omega arith in
    (
      1,
      0 ∷ [],
      [],
      refl,
      appended_pos s (0 ∷ []) at,
      subst (λ e. NameAt (s.buffer ++ (0 ∷ [])) 1 s.pos e []) pos
          (root s.pos (at_end s.buffer [] s.pos 0 at)),
      refl,
      tt,
    )

-- The two bytes of a jump to `q`.
abbrev pointer : ℕ → Bytes
pointer q = (192 + q / 256) ∷ (q % 256) ∷ []

write_jump :
    (s : VectorPacketBuffer) (q : ℕ) (l : Bytes) (ls : List Bytes) (n e : ℕ)
    → s.pos ≡ length s.buffer
    → q < 16384
    → NameAt s.buffer n q e (l ∷ ls)
    → Written s (appended s (pointer q)) (l ∷ ls)
write_jump s q l ls n e at small name =
    let w = pointer q in
    (
      suc n,
      w,
      [],
      refl,
      appended_pos s w at,
      jump n s.pos q e (l ∷ ls) small (at_end s.buffer ((q % 256) ∷ []) s.pos (192 + q / 256) at)
          (at_next s.buffer [] s.pos (192 + q / 256) (q % 256) at)
          (NameAt-append w n q e (l ∷ ls) name),
      refl,
      tt,
    )

write_u16_jump :
    (s : VectorPacketBuffer) (q : ℕ)
    → q < 16384
    → write_u16 vector_buffer s (jump_inst q) ≡ done (appended s (pointer q))
unfolding write_u16 vector_buffer
write_u16_jump s q small =
    let hi : jump_inst q / 256 % 256 ≡ 192 + q / 256 = omega arith in
    let lo : jump_inst q % 256 ≡ q % 256 = omega arith in
    let pos : suc (suc s.pos) ≡ s.pos + 2 = omega arith in
    let first : Bytes = (192 + q / 256) ∷ [] in
    let second : Bytes = (q % 256) ∷ [] in rw (hi, lo, pos, append_assoc s.buffer first second) refl

-- The bytes that labels take when none of them is found.
abbrev pub parts_size : List Bytes → ℕ
parts_size [] = 1
parts_size (l ∷ ls) = suc (length l) + parts_size ls

shorter : (l : Bytes) (ls : List Bytes) → 0 < length l → length (join ls) < length (join (l ∷ ls))
unfolding join
shorter l [] h = h
shorter l (next ∷ rest) h = omega (arith, length-join l next rest)

-- The state after the length and the bytes of a label that was not found.
abbrev labelled : VectorPacketBuffer → Bytes → List Bytes → VectorPacketBuffer
labelled s l ls = record (appended (appended s (length l ∷ [])) l) {
  label_lookup = (join (l ∷ ls), s.pos) ∷ s.label_lookup;
}

drop-next : (b t : Bytes) (x : ℕ) → drop (suc (length b)) (b ++ (x ∷ t)) ≡ t
drop-next [] t x = refl
drop-next (y ∷ b) t x = drop-next b t x

label_text :
    (b l w : Bytes) (p x : ℕ)
    → p ≡ length b
    → take (length l) (drop (suc p) (b ++ (x ∷ (l ++ w)))) ≡ l
label_text b l w p x at = rw (at, drop-next b (l ++ w) x) (take-append l w)

write_label-Written :
    (s s' : VectorPacketBuffer) (l : Bytes) (ls : List Bytes)
    → s.pos ≡ length s.buffer
    → s.pos < 16384
    → All IsLabel (l ∷ ls)
    → Written (labelled s l ls) s' ls
    → Written s s' (l ∷ ls)
write_label-Written s s' l ls at small good (n, w, new, bytes, at', name, table, entries) =
    let chunk : s'.buffer ≡ s.buffer ++ (length l ∷ (l ++ w)) =
      bytes
      ∙ append_assoc (s.buffer ++ (length l ∷ [])) l w
      ∙ append_assoc s.buffer (length l ∷ []) (l ++ w) in
    let next : s.pos + 1 + length l ≡ suc s.pos + length l = omega arith in
    let here : NameAt s'.buffer (suc n) s.pos s'.pos (l ∷ ls) =
      label n s.pos s'.pos l ls good.0.0 good.0.1
        (subst (λ buf. get_elem? buf s.pos ≡ some (length l)) (sym chunk)
          (at_end s.buffer (l ++ w) s.pos (length l) at))
        (subst (λ buf. take (length l) (drop (suc s.pos) buf) ≡ l) (sym chunk)
          (label_text s.buffer l w s.pos (length l) at))
        (subst (λ p. NameAt s'.buffer n p s'.pos ls) next name) in
    (
      suc n,
      length l ∷ (l ++ w),
      new ++ ((join (l ∷ ls), s.pos) ∷ []),
      chunk,
      at',
      here,
      table ∙ sym (append_assoc new ((join (l ∷ ls), s.pos) ∷ []) s.label_lookup),
      All-append (Entry s'.buffer) new ((join (l ∷ ls), s.pos) ∷ []) entries
          ((l, ls, suc n, s'.pos, good, refl, small, here), tt),
    )

write_label-none :
    (again : VectorPacketBuffer → Outcome VectorPacketBuffer) (s : VectorPacketBuffer) (l : Bytes)
    (ls : List Bytes)
    → length l < 64
    → write_label vector_buffer again s l (join (l ∷ ls)) none ≡ again (labelled s l ls)
unfolding write_u8 vector_buffer
write_label-none again s l ls short =
    let size : length l % 256 ≡ length l = omega arith in
    let pos : suc s.pos ≡ s.pos + 1 = omega arith in
    let s1 : VectorPacketBuffer = record (appended s (length l ∷ [])) {
      label_lookup = (join (l ∷ ls), s.pos) ∷ s.label_lookup;
    } in
    rw (size, pos, write_bytes_lem s1 l) refl

-- The table before is a table for the labels that follow.
finished :
    (s : VectorPacketBuffer) (l : Bytes) (ls : List Bytes)
    → All IsLabel (l ∷ ls)
    → Table s.buffer (length (join (l ∷ ls))) s.label_lookup
    → Table ((s.buffer ++ (length l ∷ [])) ++ l) (length (join ls)) s.label_lookup
finished s l ls good table =
    let less = shorter l ls good.0.0 in
    Table-append (s.buffer ++ (length l ∷ [])) l (length (join ls)) (length (join ls))
      s.label_lookup (omega arith)
      (Table-append s.buffer (length l ∷ []) (length (join (l ∷ ls))) (length (join ls))
        s.label_lookup (omega arith) table)

write_labels-Written :
    (ls : List Bytes) (s : VectorPacketBuffer)
    → All IsLabel ls
    → s.pos ≡ length s.buffer
    → Table s.buffer (length (join ls)) s.label_lookup
    → s.pos + parts_size ls ≤ 16384
    → (s' : VectorPacketBuffer) × (write_labels vector_buffer s ls ≡ done s') × Written s s' ls
unfolding write_labels write_u8 vector_buffer
write_labels-Written [] s good at table room =
    let pos : suc s.pos ≡ s.pos + 1 = omega arith in
    (appended s (0 ∷ []), rw pos refl, write_root s at)
write_labels-Written (l ∷ ls) s good at table room =
    elim (Option-cases (lookup_label s.label_lookup (join (l ∷ ls)))) [
      | inl none_found ↦
          let (s', done', written) =
            write_labels-Written ls (labelled s l ls) good.1
              (appended_pos (appended s (length l ∷ [])) l (appended_pos s (length l ∷ []) at))
              (inr (shorter l ls good.0.0), finished s l ls good table) (omega arith) in
          (
            s',
            rw none_found
                (write_label-none (λ s. write_labels vector_buffer s ls) s l ls good.0.1 ∙ done'),
            write_label-Written s s' l ls at (omega arith) good written,
          )
      | inr (q, found) ↦
          let (small, n, e, name) = found-NameAt s.buffer l ls q s.label_lookup good table found in
          (
            appended s (pointer q),
            rw found (write_u16_jump s q small),
            write_jump s q l ls n e at small name,
          )
    ]

-- What is written is at the end of the buffer, and each entry of the table tells where its name lies.
unfoldable pub IsConsistent : VectorPacketBuffer → Type 0
IsConsistent s = (s.pos ≡ length s.buffer) × All (Entry s.buffer) s.label_lookup

as_Table : (buf : Bytes) (k : ℕ) (m : List (Bytes × ℕ)) → All (Entry buf) m → Table buf k m
as_Table buf k [] all = tt
as_Table buf k (en ∷ m) (ok, all) = (inl ok, as_Table buf k m all)

Written-IsConsistent :
    (s s' : VectorPacketBuffer) (ls : List Bytes)
    → IsConsistent s
    → Written s s' ls
    → IsConsistent s'
unfolding IsConsistent
Written-IsConsistent s s' ls (at, ok) (n, w, new, bytes, at', name, table, entries) =
    let old =
      subst (λ buf. All (Entry buf) s.label_lookup) (sym bytes)
        (Entries-append s.buffer w s.label_lookup ok) in
    (
      at',
      subst (All (Entry s'.buffer)) (sym table)
          (All-append (Entry s'.buffer) new s.label_lookup entries old),
    )

-- On a consistent buffer a name of labels of 1 to 63 bytes, in lower case, is written without an
-- error if it ends within 16384 bytes, the buffer stays consistent, and reading at the place where it
-- was written gives the name back, and ends where the writing ended.
pub write_qname-read_qname :
    (lowercase : Bytes → Bytes) (s : VectorPacketBuffer) (l : Bytes) (ls : List Bytes)
    → IsConsistent s
    → All IsLabel (l ∷ ls)
    → All (λ l. lowercase l ≡ l) (l ∷ ls)
    → s.pos + parts_size (l ∷ ls) ≤ 16384
    → (s' : VectorPacketBuffer) × (fuel : ℕ) × (write_qname vector_buffer s (join (l ∷ ls))
        ≡ done s')
      × IsConsistent s'
      × (read_qname vector_buffer lowercase fuel (record s' { pos = s.pos }) []
          ≡ done (join (l ∷ ls), s'))
unfolding write_qname IsConsistent
write_qname-read_qname lowercase s l ls (at, ok) good low room =
    let (s', run, written) =
      write_labels-Written (l ∷ ls) s good at
        (as_Table s.buffer (length (join (l ∷ ls))) s.label_lookup ok) room in
    (
      s',
      written.0,
      rw (split-join l ls good) run,
      Written-IsConsistent s s' (l ∷ ls) (at, ok) written,
      read_qname-NameAt lowercase written.0 s'.pos (l ∷ ls) (record s' { pos = s.pos }) written.0
          written.5 low (omega arith),
    )
