-- ===== src/Bytes.antt =====
-- src/bytes.rs and src/blockchain/hash_utils.rs: byte strings, their equality, the big-endian words
-- at their ends and the difficulty of a hash.
-- A byte string is a list of numbers below 256. `none` is a panic: a slice out of bounds.
pub mod Equality
pub mod Zeros
use ruvname.Prelude.{
  ℕ, zero, suc, ◌+◌, ◌-◌, ◌*◌, ◌/◌, ◌%◌, ◌^◌, Bool, true, false, not, Option, none, some, List, [],
  ◌∷◌, ◌==◌, ltb, if◌then◌else◌, length, take, drop,
}
use Prim.Native.Char.{code}
use Prim.Native.String.{String}

abbrev pub Bytes : Type 0
Bytes = List ℕ

-- The bytes of an ASCII text.
abbrev pub codes : String → Bytes
codes String.[] = []
codes (String.◌∷◌ c s) = code c ∷ codes s

abbrev pub is_empty : Bytes → Bool
is_empty [] = true
is_empty (x ∷ xs) = false

-- `for x in ... { if *x != 0 { return false } } true`; the empty string is zero too.
unfoldable pub is_zero : Bytes → Bool
is_zero [] = true
is_zero (x ∷ xs) = if not (x == 0) then false else is_zero xs

-- The loop of `same_hash` over the zipped slices: it never leaves early.
same_loop : Bool → Bytes → Bytes → Bool
same_loop result [] right = result
same_loop result (x ∷ left) [] = result
same_loop result (x ∷ left) (y ∷ right) =
    same_loop (if not (x == y) then false else result) left right

unfoldable pub same_hash : Bytes → Bytes → Bool
unfolding same_loop
same_hash left right =
    if not (length left == length right) then false else same_loop true left right

-- `BigUint::from_bytes_le`, on which the order of `Bytes` stands.
unfoldable pub from_bytes_le : Bytes → ℕ
from_bytes_le [] = 0
from_bytes_le (x ∷ xs) = x + 256 * from_bytes_le xs

-- `u64::from_be_bytes` of a slice, read from its first byte on.
from_be_onto : ℕ → Bytes → ℕ
from_be_onto acc [] = acc
from_be_onto acc (x ∷ xs) = from_be_onto (acc * 256 + x) xs

unfoldable pub from_be_bytes : Bytes → ℕ
unfolding from_be_onto
from_be_bytes = from_be_onto 0

-- `hash[..8]`, and `hash[hash.len() - 8..]`.
unfoldable pub head_u64 : Bytes → Option ℕ
unfolding from_be_bytes
head_u64 b = if ltb (length b) 8 then none else some (from_be_bytes (take 8 b))

unfoldable pub get_tail_u64 : Bytes → Option ℕ
unfolding from_be_bytes
get_tail_u64 b = if ltb (length b) 8 then none else some (from_be_bytes (drop (length b - 8) b))

-- The number of binary digits of a number below 2 ^ k.
bits : ℕ → ℕ → ℕ
bits zero n = 0
bits (suc k) n = if n == 0 then 0 else suc (bits k (n / 2))

-- `u64::leading_zeros` and `u64::trailing_zeros`.
unfoldable pub leading_zeros : ℕ → ℕ
unfolding bits
leading_zeros n = 64 - bits 64 n

tail_zeros : ℕ → ℕ → ℕ
tail_zeros zero n = 0
tail_zeros (suc k) n = if n % 2 == 1 then 0 else suc (tail_zeros k (n / 2))

unfoldable pub trailing_zeros : ℕ → ℕ
unfolding tail_zeros
trailing_zeros = tail_zeros 64

-- Sum of zeroes from start and end.
pub sum_zeros : Option ℕ → Option ℕ → Option ℕ
sum_zeros (some int_start) (some int_end) = some (leading_zeros int_start + trailing_zeros int_end)
sum_zeros none e = none
sum_zeros (some s) none = none

unfoldable pub hash_difficulty : Bytes → Option ℕ
unfolding sum_zeros
hash_difficulty hash = sum_zeros (head_u64 hash) (get_tail_u64 hash)

unfoldable pub key_hash_difficulty : Bytes → Option ℕ
key_hash_difficulty hash = elim (head_u64 hash) [
  | none ↦ none
  | some int ↦ some (leading_zeros int)
]
