-- ===== src/Blockchain/Chain/Discount.antt =====
-- The discount on the difficulty of a domain's update: `get_identity_discount` and
-- `get_difficulty_for_transaction` of chain.rs.
use ruvname.Prelude.{
  ℕ, ◌*◌, ◌-◌, ◌^◌, ◌≤◌, ◌≡◌, ℤ, pos, ◌+ℤ◌, ◌-ℤ◌, ◌≤ℤ◌, true, false, some, arith, is_some,
  Option-cases, inl, inr,
}
use ruvname.Bytes.{same_hash}
use ruvname.Blockchain.Constants.{
  one_week, class_domain, class_origin, u32_max, domain_difficulty, blocks_without_discount,
}
use ruvname.Blockchain.Block.{Transaction, Host}
use ruvname.Blockchain.Chain.{
  Chain, get_height, week_discount, get_domain_update_time, get_difficulty_for_transaction,
}

week_discount_bounds :
    (time timestamp : ℤ)
    → timestamp ≤ℤ time
    → (1 ≤ week_discount time timestamp) × (week_discount time timestamp ≤ 8)
unfolding ◌+ℤ◌ ◌-ℤ◌
week_discount_bounds time timestamp h = ground arith

-- A domain changed in the past, whose data reads as domain data, needs 16 to 24 bits: the discount
-- never passes 8 of them.
pub get_difficulty_for_transaction_bounds :
    (host : Host) (c : Chain) (t : Transaction) (height : ℕ) (time : ℤ)
    → same_hash t.class class_domain ≡ true
    → is_some (host.parse_domain_data t.payload) ≡ true
    → ((timestamp : ℤ)
        → get_domain_update_time c t.identity height time ≡ some timestamp
        → timestamp ≤ℤ time)
    → (16 ≤ get_difficulty_for_transaction host c t height time)
      × (get_difficulty_for_transaction host c t height time ≤ domain_difficulty)
unfolding get_difficulty_for_transaction
get_difficulty_for_transaction_bounds host c t height time domain parsed past =
    elim (Option-cases (get_domain_update_time c t.identity height time)) [
      | inl e ↦ ground arith
      | inr (timestamp, e) ↦ ground (arith, week_discount_bounds time timestamp, past timestamp)
    ]

-- A transaction that is no origin and no readable domain needs a difficulty that no hash has.
pub get_difficulty_for_transaction_unknown :
    (host : Host) (c : Chain) (t : Transaction) (height : ℕ) (time : ℤ)
    → (same_hash t.class class_domain ≡ true → is_some (host.parse_domain_data t.payload) ≡ false)
    → same_hash t.class class_origin ≡ false
    → get_difficulty_for_transaction host c t height time ≡ u32_max
unfolding get_difficulty_for_transaction
get_difficulty_for_transaction_unknown host c t height time unread other = ground arith

-- An update dated 2 ^ 32 - 23 weeks before the domain's last one needs no work at all: the negative
-- discount wraps.
pub get_difficulty_for_transaction_wraps :
    (host : Host) (c : Chain) (t : Transaction) (height : ℕ) (time timestamp : ℤ)
    → same_hash t.class class_domain ≡ true
    → is_some (host.parse_domain_data t.payload) ≡ true
    → blocks_without_discount ≤ get_height c
    → get_domain_update_time c t.identity height time ≡ some timestamp
    → timestamp ≡ time +ℤ pos ((2 ^ 32 - 23) * one_week)
    → get_difficulty_for_transaction host c t height time ≡ 0
unfolding get_difficulty_for_transaction ◌+ℤ◌ ◌-ℤ◌
get_difficulty_for_transaction_wraps host c t height time timestamp domain parsed high e gap =
    ground arith
