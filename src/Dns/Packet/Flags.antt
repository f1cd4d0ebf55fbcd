-- ===== src/Dns/Packet/Flags.antt =====
-- src/dns/protocol.rs: the two bytes of flags in the header of a packet.
use ruvname.Prelude.{
  ℕ, ◌+◌, ◌*◌, ◌/◌, ◌%◌, ◌≤◌, ◌<◌, ◌≡◌, refl, sym, ap, ◌∙◌, Bool, true, false, ◌||◌, ◌==◌, arith,
}
use mathlib.Core.Path.{subst}
use ruvname.Dns.Packet.{
  ResultCode, DnsHeader, bit, has_bit, code_num, from_code, first_flags, second_flags, with_flags,
}

-- A flag as a number.
abbrev num : Bool → ℕ
num b = bit 1 b

bit_lem : (w : ℕ) (b : Bool) → bit w b ≡ w * num b
bit_lem w true = omega arith
bit_lem w false = omega arith

num_small : (b : Bool) → num b ≤ 1
num_small true = omega arith
num_small false = omega arith

num_back : (b : Bool) → (num b == 1) ≡ b
num_back true = refl
num_back false = refl

module _ (r t a o p : ℕ) where
  abbrev Byte : Type 0
  Byte = (r ≤ 1) × (t ≤ 1) × (a ≤ 1) × (o < 16) × (p ≤ 1)

  abbrev byte : ℕ
  byte = 1 * r + 2 * t + 4 * a + o * 8 + 128 * p

  byte_parts :
      Byte
      → (byte < 256)
        × (byte / 1 % 2 ≡ r)
        × (byte / 2 % 2 ≡ t)
        × (byte / 4 % 2 ≡ a)
        × (byte / 8 % 16 ≡ o)
        × (byte / 128 % 2 ≡ p)
  byte_parts h = (omega arith, omega arith, omega arith, omega arith, omega arith, omega arith)

module _ (c d e z r : ℕ) where
  abbrev Low : Type 0
  Low = (c < 16) × (d ≤ 1) × (e ≤ 1) × (z ≤ 1) × (r ≤ 1)

  abbrev low : ℕ
  low = c + 16 * d + 32 * e + 64 * z + 128 * r

  low_parts :
      Low
      → (low < 256)
        × (low % 16 ≡ c)
        × (low / 16 % 2 ≡ d)
        × (low / 32 % 2 ≡ e)
        × (low / 64 % 2 ≡ z)
        × (low / 128 % 2 ≡ r)
  low_parts h = (omega arith, omega arith, omega arith, omega arith, omega arith, omega arith)

code_lem : (c : ResultCode) → (code_num c < 16) × (from_code (code_num c) ≡ c)
unfolding code_num from_code
code_lem ResultCode.noerror = (omega arith, refl)
code_lem ResultCode.formerr = (omega arith, refl)
code_lem ResultCode.servfail = (omega arith, refl)
code_lem ResultCode.nxdomain = (omega arith, refl)
code_lem ResultCode.notimp = (omega arith, refl)
code_lem ResultCode.refused = (omega arith, refl)

or_false : (b c : Bool) → c ≡ false → (b || c) ≡ b
or_false true c h = refl
or_false false c h = h

flag : (b : Bool) (n : ℕ) → n ≡ num b → (n == 1) ≡ b
flag b n h = subst (λ n. (n == 1) ≡ b) (sym h) (num_back b)

first_lem :
    (r t a p : Bool) (o : ℕ)
    → o < 16
    → bit 1 r + bit 2 t + bit 4 a + o % 16 * 8 + bit 128 (p || has_bit 16 o)
      ≡ byte (num r) (num t) (num a) o (num p)
first_lem r t a p o h =
    let top : has_bit 16 o ≡ false = ground arith in
    rw (or_false p (has_bit 16 o) top)
      (omega (arith, bit_lem 1 r, bit_lem 2 t, bit_lem 4 a, bit_lem 128 p))

second_lem :
    (c : ℕ) (d e z r : Bool)
    → c + bit 16 d + bit 32 e + bit 64 z + bit 128 r ≡ low c (num d) (num e) (num z) (num r)
second_lem c d e z r = omega (arith, bit_lem 16 d, bit_lem 32 e, bit_lem 64 z, bit_lem 128 r)

-- What the first byte says.
unfoldable pub First : DnsHeader → ℕ → Type 0
First h x =
    (x < 256)
    × (has_bit 1 x ≡ h.recursion_desired)
    × (has_bit 2 x ≡ h.truncated_message)
    × (has_bit 4 x ≡ h.authoritative_answer)
    × (x / 8 % 16 ≡ h.opcode)
    × (has_bit 128 x ≡ h.response)

pub first_flags-First : (h : DnsHeader) → h.opcode < 16 → First h (first_flags h)
unfolding First first_flags
first_flags-First h small =
    let r = num h.recursion_desired in
    let t = num h.truncated_message in
    let a = num h.authoritative_answer in
    let o = h.opcode in
    let p = num h.response in
    let (x, e1, e2, e3, e4, e5) = byte_parts r t a o p (
      num_small h.recursion_desired,
      num_small h.truncated_message,
      num_small h.authoritative_answer,
      small,
      num_small h.response,
    ) in
    subst (First h)
      (sym (
        first_lem h.recursion_desired h.truncated_message h.authoritative_answer h.response h.opcode
          small))
      (
        x,
        flag h.recursion_desired (byte r t a o p / 1 % 2) e1,
        flag h.truncated_message (byte r t a o p / 2 % 2) e2,
        flag h.authoritative_answer (byte r t a o p / 4 % 2) e3,
        e4,
        flag h.response (byte r t a o p / 128 % 2) e5,
      )

-- What the second byte says.
unfoldable pub Second : DnsHeader → ℕ → Type 0
Second h x =
    (x < 256)
    × (from_code (x % 16) ≡ h.rescode)
    × (has_bit 16 x ≡ h.checking_disabled)
    × (has_bit 32 x ≡ h.authed_data)
    × (has_bit 64 x ≡ h.z)
    × (has_bit 128 x ≡ h.recursion_available)

pub second_flags-Second : (h : DnsHeader) → Second h (second_flags h)
unfolding Second second_flags
second_flags-Second h =
    let c = code_num h.rescode in
    let d = num h.checking_disabled in
    let e = num h.authed_data in
    let z = num h.z in
    let r = num h.recursion_available in
    let (c-small, c-back) = code_lem h.rescode in
    let (x, e1, e2, e3, e4, e5) = low_parts c d e z r (
      c-small,
      num_small h.checking_disabled,
      num_small h.authed_data,
      num_small h.z,
      num_small h.recursion_available,
    ) in
    subst (Second h)
      (sym (second_lem c h.checking_disabled h.authed_data h.z h.recursion_available))
      (
        x,
        ap from_code e1 ∙ c-back,
        flag h.checking_disabled (low c d e z r / 16 % 2) e2,
        flag h.authed_data (low c d e z r / 32 % 2) e3,
        flag h.z (low c d e z r / 64 % 2) e4,
        flag h.recursion_available (low c d e z r / 128 % 2) e5,
      )

-- The bytes of flags, read again, are the flags that they were made of.
pub with_flags_back :
    (h h0 : DnsHeader) (a b : ℕ)
    → First h a
    → Second h b
    → record (with_flags a b h0) {
      id = h.id;
      questions = h.questions;
      answers = h.answers;
      authoritative_entries = h.authoritative_entries;
      resource_entries = h.resource_entries;
    }
      ≡ h
unfolding First Second with_flags
with_flags_back h h0 a b (x, e1, e2, e3, e4, e5) (y, f1, f2, f3, f4, f5) =
    rw (e1, e2, e3, e4, e5, f1, f2, f3, f4, f5) refl
