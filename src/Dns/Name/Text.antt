-- ===== src/Dns/Name/Text.antt =====
-- src/dns/buffer.rs: the text of labels and the labels of a text.
use ruvname.Prelude.{
  ◌+◌, ◌<◌, ◌≡◌, refl, ap, ◌∙◌, false, List, [], ◌∷◌, ◌++◌, ◌==◌, All, length, arith, length-append,
}
use ruvname.Bytes.{Bytes}
use ruvname.Dns.Name.{split, join}

-- A label has 1 to 63 bytes, and no dot.
abbrev pub IsLabel : Bytes → Type 0
IsLabel l = (0 < length l) × (length l < 64) × All (λ x. (x == b'.') ≡ false) l

split_last : (l : Bytes) → All (λ x. (x == b'.') ≡ false) l → split l ≡ l ∷ []
unfolding split
split_last [] all = refl
split_last (x ∷ l) (h, all) = rw (h, split_last l all) refl

split_first :
    (l text : Bytes)
    → All (λ x. (x == b'.') ≡ false) l
    → split (l ++ (b'.' ∷ text)) ≡ l ∷ split text
unfolding split
split_first [] text all = refl
split_first (x ∷ l) text (h, all) = rw (h, split_first l text all) refl

-- The labels of the text of some labels, at least one, are those labels.
pub split-join :
    (l : Bytes) (ls : List Bytes) → All IsLabel (l ∷ ls) → split (join (l ∷ ls)) ≡ l ∷ ls
unfolding join
split-join l [] (h, all) = split_last l h.2
split-join l (next ∷ rest) (h, all) =
    split_first l (join (next ∷ rest)) h.2 ∙ ap (λ ls. l ∷ ls) (split-join next rest all)

pub length-join :
    (l next : Bytes) (rest : List Bytes)
    → length (join (l ∷ next ∷ rest)) ≡ length l + 1 + length (join (next ∷ rest))
unfolding join
length-join l next rest = omega (arith, length-append l (b'.' ∷ join (next ∷ rest)))
