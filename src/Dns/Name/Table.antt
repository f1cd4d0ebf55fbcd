-- ===== src/Dns/Name/Table.antt =====
-- src/dns/buffer.rs: names stay where they lie when a buffer grows, and what the table of labels of a
-- VectorPacketBuffer says of them.
use ruvname.Prelude.{
  ℕ, zero, suc, ◌+◌, ◌/◌, ◌%◌, ◌≤◌, ◌<◌, ◌≡◌, refl, sym, ap, ◌∙◌, some, List, [], ◌∷◌, ◌++◌, All,
  length, get_elem?, arith, inl, inr, ◌⊎◌, Bool-cases, take, drop,
}
use mathlib.Core.Path.{subst}
use mathlib.Core.List.{append-nil, append_assoc}
use ruvname.Bytes.{Bytes, same_hash}
use ruvname.Bytes.Equality.{same_hash→eq}
use ruvname.Dns.Buffer.{done, VectorPacketBuffer, vector_buffer, lookup_label, write_u8}
use ruvname.Dns.Name.{split, join, write_bytes}
use ruvname.Dns.Name.Layout.{NameAt, root, label, jump}
use ruvname.Dns.Name.Text.{IsLabel, split-join}

get-append : (xs ys : Bytes) (i x : ℕ) → get_elem? xs i ≡ some x → get_elem? (xs ++ ys) i ≡ some x
get-append [] ys i x h = ground arith
get-append (y ∷ xs) ys zero x h = h
get-append (y ∷ xs) ys (suc i) x h = get-append xs ys i x h

prefix-append : (xs ys l : Bytes) → take (length l) xs ≡ l → take (length l) (xs ++ ys) ≡ l
prefix-append xs ys [] h = refl
prefix-append [] ys (x ∷ l) h = ground arith
prefix-append (y ∷ xs) ys (x ∷ l) h =
    let rest : take (length l) xs ≡ l = ground arith in
    let same : y ≡ x = ground arith in rw (same, prefix-append xs ys l rest) refl

window-append :
    (xs ys l : Bytes) (a : ℕ)
    → take (length l) (drop a xs) ≡ l
    → take (length l) (drop a (xs ++ ys)) ≡ l
window-append xs ys l zero h = prefix-append xs ys l h
window-append [] ys [] (suc a) h = refl
window-append [] ys (x ∷ l) (suc a) h = ground arith
window-append (x ∷ xs) ys l (suc a) h = window-append xs ys l a h

pub NameAt-append :
    {buf : Bytes} (w : Bytes) (n p e : ℕ) (ls : List Bytes)
    → NameAt buf n p e ls
    → NameAt (buf ++ w) n p e ls
NameAt-append {buf} w _ _ _ _ (root p found) = root p (get-append buf w p 0 found)
NameAt-append {buf} w _ _ _ _ (label n p e l ls some_label short found text rest) =
    label n p e l ls some_label short (get-append buf w p (length l) found)
      (window-append buf w l (suc p) text) (NameAt-append w n (suc p + length l) e ls rest)
NameAt-append {buf} w _ _ _ _ (jump n p q e ls small hi lo rest) =
    jump n p q e ls small (get-append buf w p (192 + q / 256) hi)
      (get-append buf w (suc p) (q % 256) lo) (NameAt-append w n q e ls rest)

pub write_bytes_lem :
    (s : VectorPacketBuffer) (bs : Bytes)
    → write_bytes vector_buffer s bs
      ≡ done (record s { buffer = s.buffer ++ bs; pos = s.pos + length bs })
unfolding write_bytes write_u8 vector_buffer
write_bytes_lem s [] =
    let still : s.pos + 0 ≡ s.pos = omega arith in rw (append-nil s.buffer, still) refl
write_bytes_lem s (b ∷ bs) =
    let s1 : VectorPacketBuffer = record s { buffer = s.buffer ++ (b ∷ []); pos = suc s.pos } in
    let pos : suc s.pos + length bs ≡ s.pos + suc (length bs) = omega arith in
    write_bytes_lem s1 bs ∙ rw (pos, append_assoc s.buffer (b ∷ []) bs) refl

-- An entry of the table of labels tells where its name lies.
abbrev pub Entry : Bytes → Bytes × ℕ → Type 0
Entry buf (name, q) =
    (l : Bytes) × (ls : List Bytes) × (n e : ℕ) × All IsLabel (l ∷ ls)
    × (name ≡ join (l ∷ ls))
    × (q < 16384)
    × NameAt buf n q e (l ∷ ls)

-- The names of more than `k` bytes may be unfinished.
abbrev pub Table : Bytes → ℕ → List (Bytes × ℕ) → Type 0
Table buf k m = All (λ en. Entry buf en ⊎ (k < length en.0)) m

pub Entry-append : (buf w : Bytes) (en : Bytes × ℕ) → Entry buf en → Entry (buf ++ w) en
Entry-append buf w (name, q) (l, ls, n, e, good, named, small, at) =
    (l, ls, n, e, good, named, small, NameAt-append w n q e (l ∷ ls) at)

pub Table-append :
    (buf w : Bytes) (k k' : ℕ) (m : List (Bytes × ℕ))
    → k' ≤ k
    → Table buf k m
    → Table (buf ++ w) k' m
Table-append buf w k k' [] h all = tt
Table-append buf w k k' (en ∷ m) h (inl ok, all) =
    (inl (Entry-append buf w en ok), Table-append buf w k k' m h all)
Table-append buf w k k' (en ∷ m) h (inr long, all) =
    (inr (omega arith), Table-append buf w k k' m h all)

pub Entries-append :
    (buf w : Bytes) (m : List (Bytes × ℕ)) → All (Entry buf) m → All (Entry (buf ++ w)) m
Entries-append buf w [] all = tt
Entries-append buf w (en ∷ m) (ok, all) = (Entry-append buf w en ok, Entries-append buf w m all)

-- A name that is found in the table lies where the table says.
pub found-NameAt :
    (buf : Bytes) (l : Bytes) (ls : List Bytes) (q : ℕ) (m : List (Bytes × ℕ))
    → All IsLabel (l ∷ ls)
    → Table buf (length (join (l ∷ ls))) m
    → lookup_label m (join (l ∷ ls)) ≡ some q
    → (q < 16384) × (n e : ℕ) × NameAt buf n q e (l ∷ ls)
unfolding lookup_label
found-NameAt buf l ls q [] good all h = ground arith
found-NameAt buf l ls q ((name, q') ∷ m) good (en, all) h =
    elim (Bool-cases (same_hash name (join (l ∷ ls)))) [
      | inl e ↦ here en (same_hash→eq name (join (l ∷ ls)) e) (ground arith)
      | inr e ↦ found-NameAt buf l ls q m good all (ground arith)
    ]
  where
    here :
        Entry buf (name, q') ⊎ (length (join (l ∷ ls)) < length name)
        → name ≡ join (l ∷ ls)
        → q' ≡ q
        → (q < 16384) × (n e : ℕ) × NameAt buf n q e (l ∷ ls)
    here (inl (l', ls', n, e, good', named, small, at)) same moved =
        let labels : l' ∷ ls' ≡ l ∷ ls =
          sym (split-join l' ls' good') ∙ ap split (sym named ∙ same) ∙ split-join l ls good in
        subst (λ q. (q < 16384) × (n e : ℕ) × NameAt buf n q e (l ∷ ls)) moved
          (small, n, e, subst (NameAt buf n q' e) labels at)
    here (inr long) same moved = let size = ap length same in ground arith
