-- ===== src/Blockchain/Block/Better.antt =====
-- The order of rival blocks in `Block::is_better_than` of block.rs.
use ruvname.Prelude.{ℕ, ◌<◌, ◌≡◌, ◌≢◌, ◌⊎◌, true, false, some, arith, is_some}
use ruvname.Blockchain.Block.{Block, hash_weight, is_better_than}

-- Of two blocks of one kind at most one is better than the other.
pub is_better_than_asymm :
    (a b : Block)
    → is_some a.transaction ≡ is_some b.transaction
    → is_better_than a b ≡ some true
    → is_better_than b a ≢ some true
unfolding is_better_than
is_better_than_asymm a b kind better worse = ground arith

-- A full block and an empty one with the heavier hash are each better than the other.
pub is_better_than_both :
    (full empty : Block) (m n : ℕ)
    → is_some full.transaction ≡ true
    → is_some empty.transaction ≡ false
    → hash_weight full.hash ≡ some m
    → hash_weight empty.hash ≡ some n
    → m < n
    → (is_better_than full empty ≡ some true) × (is_better_than empty full ≡ some true)
unfolding is_better_than
is_better_than_both full empty m n f e wm wn h = ground arith

-- Rival blocks of one kind with equal weights and different nonces: the lower nonce decides, so
-- exactly one is better.
pub is_better_than_total :
    (a b : Block) (m n : ℕ)
    → is_some a.transaction ≡ is_some b.transaction
    → hash_weight a.hash ≡ some m
    → hash_weight b.hash ≡ some n
    → (m ≢ n) ⊎ (a.nonce ≢ b.nonce)
    → (is_better_than a b ≡ some true) ⊎ (is_better_than b a ≡ some true)
unfolding is_better_than
is_better_than_total a b m n kind wm wn differ = ground arith
