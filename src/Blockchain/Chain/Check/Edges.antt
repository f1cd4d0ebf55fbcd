-- ===== src/Blockchain/Chain/Check/Edges.antt =====
-- Blocks at the edges of `check_block`: index 0, a short hash, a chain of fewer than five blocks.
use ruvname.Prelude.{
  ℕ, ◌+◌, ◌-◌, ◌^◌, ◌≤◌, ◌<◌, ◌≡◌, ap, ℤ, false, Option, none, some, List, arith, length, sub64,
  ltb, if◌then◌else◌,
}
use ruvname.Bytes.{Bytes, same_hash, head_u64, hash_difficulty}
use ruvname.Blockchain.Constants.{limited_confidence_depth}
use ruvname.Blockchain.Block.{Block, Host, good, bad, rewind}
use ruvname.Blockchain.Table.{select_block}
use ruvname.Blockchain.Chain.{Chain, get_height, height_of, get_block}
use ruvname.Blockchain.Chain.Signers.{ok, quit, panic}
use ruvname.Blockchain.Chain.Check.{
  check_arrival, check_work, check_link, check_transaction, check_next, check_signer,
  check_position, check_block, check_new_block, needed_difficulty,
}
use ruvname.Blockchain.Chain.Update.Growth.{IsChain}

module _ (host : Host) (now : ℤ) (fuel : ℕ) (c : Chain) (b : Block) where
  missing : (h : IsChain c) (n : ℕ) → (n ≡ 0) → get_block host c n ≡ none
  unfolding get_block select_block
  missing h n e = ground (arith, h.stored n)

  missing_before : (h : IsChain c) (n : ℕ) → n ≡ 0 → get_block host c (sub64 n 1) ≡ none
  unfolding get_block select_block
  missing_before h n e = ground (arith, h.stored (sub64 n 1), h.bounded)

  check_link_zero : (h : IsChain c) → b.index ≡ 0 → check_link host now fuel c b ≡ ok tt
  unfolding check_link
  check_link_zero h e = ground (arith, missing_before h b.index e)

  check_next_zero :
      (h : IsChain c) (last : Block) (last_full : Option Block)
      → b.index ≡ 0
      → 1 ≤ last.index
      → last.index < 2 ^ 63
      → check_next host now fuel c b last last_full ≡ quit good c.signers
  unfolding check_next check_signer
  check_next_zero h last last_full e pos small = ground (arith, missing h b.index e)

  -- On a chain that has a block, an empty block of index 0 is accepted as new once its arrival and
  -- its work are in order, whatever hash it names as the one before.
  pub check_new_block_zero :
      (wrong : List Bytes) (last : Block)
      → IsChain c
      → c.last_block ≡ some last
      → b.index ≡ 0
      → b.transaction ≡ none
      → check_arrival host now fuel c b wrong c.last_block ≡ ok tt
      → check_work host now fuel c b ≡ ok tt
      → check_new_block host now fuel c b wrong ≡ quit good c.signers
  unfolding check_new_block check_position check_transaction
  check_new_block_zero wrong last h e zero_ empty arrival work = ground (
    arith,
    check_link_zero h zero_,
    check_next_zero h last c.last_full_block zero_ (h.last_starts last e)
        (omega (arith, h.bounded, ap height_of e)),
  )

  short_hash : (hash : Bytes) → length hash < 8 → hash_difficulty hash ≡ none
  unfolding hash_difficulty head_u64
  short_hash hash h = ground arith

  -- A block that arrives in order and claims enough difficulty, with a hash of fewer than 8 bytes,
  -- makes the check panic.
  pub check_block_short_hash :
      (wrong : List Bytes) (last last_full : Option Block)
      → length b.hash < 8
      → needed_difficulty host c b ≤ b.difficulty
      → check_arrival host now fuel c b wrong last ≡ ok tt
      → check_block host now fuel c b wrong last last_full ≡ panic
  unfolding check_block check_work
  check_block_short_hash wrong last last_full short enough arrival =
      ground (arith, short_hash b.hash short)

  -- A block that names another hash than that of the stored block before it is sent back to its
  -- parent if it is at most four blocks under the height, and is refused if it is deeper; but on a
  -- chain of fewer than four blocks it is refused at every index below 2 ^ 64 - 4.
  pub check_link_mismatch :
      (prev : Block)
      → get_block host c (sub64 b.index 1) ≡ some prev
      → same_hash b.prev_block_hash prev.hash ≡ false
      → b.index < 2 ^ 64 - 4
      → get_height c < 2 ^ 63
      → check_link host now fuel c b
        ≡ quit
            (if ltb (get_height c) limited_confidence_depth
              then bad
              else if ltb (b.index + limited_confidence_depth) (get_height c)
              then bad
              else rewind)
            c.signers
  unfolding check_link
  check_link_mismatch prev e differ small low = ground arith
