-- ===== src/Bytes/Zeros.antt =====
-- What the difficulty of a hash means: how small its first word is.
use ruvname.Prelude.{
  ℕ, zero, suc, ◌-◌, ◌*◌, ◌/◌, ◌^◌, ◌≤◌, ◌<◌, ◌≡◌, ◌↔◌, arith, some, Option-cases, inl, inr,
}
use native.Mathlib.Nat.{pow-suc}
use ruvname.Bytes.{
  Bytes, bits, leading_zeros, tail_zeros, trailing_zeros, head_u64, get_tail_u64, hash_difficulty,
}

pow_double : (m : ℕ) → 2 ^ suc m ≡ 2 * 2 ^ m
pow_double m = omega (arith, pow-suc 2 m)

pow_pos : (m : ℕ) → 0 < 2 ^ m
pow_pos zero = omega arith
pow_pos (suc m) = omega (arith, pow_double m, pow_pos m)

bits-le : (k n m : ℕ) → n < 2 ^ m → bits k n ≤ m
unfolding bits
bits-le zero n m h = omega arith
bits-le (suc k) n zero h = ground arith
bits-le (suc k) n (suc m) h = ground (arith, bits-le k (n / 2) m, pow_double m)

lt-bits : (k n m : ℕ) → n < 2 ^ k → bits k n ≤ m → n < 2 ^ m
unfolding bits
lt-bits zero n m h b = omega (arith, pow_pos m)
lt-bits (suc k) n zero h b = ground arith
lt-bits (suc k) n (suc m) h b =
    ground (arith, lt-bits k (n / 2) m, pow_double m, pow_double k, pow_pos m)

bits-le_fuel : (k n : ℕ) → bits k n ≤ k
unfolding bits
bits-le_fuel zero n = omega arith
bits-le_fuel (suc k) n = ground (arith, bits-le_fuel k (n / 2))

-- A word has d leading zeros exactly if it is below 2 ^ (64 - d).
pub leading_zeros_iff : (n d : ℕ) → n < 2 ^ 64 → d ≤ 64 → (d ≤ leading_zeros n) ↔ (n < 2 ^ (64 - d))
unfolding leading_zeros
leading_zeros_iff n d h hd = (
  λ p. lt-bits 64 n (64 - d) h (omega (arith, bits-le_fuel 64 n)),
  λ p. omega (arith, bits-le 64 n (64 - d) p),
)

tail_zeros-le : (k n : ℕ) → tail_zeros k n ≤ k
unfolding tail_zeros
tail_zeros-le zero n = omega arith
tail_zeros-le (suc k) n = ground (arith, tail_zeros-le k (n / 2))

-- No hash has a difficulty over 128.
pub hash_difficulty-le : (hash : Bytes) (d : ℕ) → hash_difficulty hash ≡ some d → d ≤ 128
unfolding hash_difficulty leading_zeros trailing_zeros
hash_difficulty-le hash d h = elim (Option-cases (head_u64 hash)) [
  | inl e ↦ absurd (ground arith)
  | inr (s, e) ↦ elim (Option-cases (get_tail_u64 hash)) [
    | inl e' ↦ absurd (ground arith)
    | inr (t, e') ↦ ground (arith, tail_zeros-le 64 t)
  ]
]
