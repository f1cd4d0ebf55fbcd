-- ===== src/Blockchain/Chain/Update/Stale.antt =====
-- `replace_block` of chain.rs and the cached last full block.
use ruvname.Prelude.{ℕ, ◌<◌, ◌≡◌, false, none, some, arith, is_some, ◌∷◌}
use ruvname.Blockchain.Block.{Block, Host}
use ruvname.Blockchain.Table.{BlockRow, id_lt, by_id, row_of_block, truncate_db_from_block}
use ruvname.Blockchain.Table.Queries.{by_id-delete_from, by_id-cons, add_block_to_table_new}
use ruvname.Blockchain.Chain.{Chain, no_signers, get_last_full_block}
use ruvname.Blockchain.Chain.Update.{add_block, replace_block}
use ruvname.Blockchain.Chain.Update.Growth.{block_at}

module _ (host : Host) (c : Chain) (b : Block) where
  id_lt_self : (n : ℕ) → id_lt n n ≡ false
  unfolding id_lt
  id_lt_self n = ground arith

  gone :
      is_some (by_id (λ (r : BlockRow). r.id) b.index (truncate_db_from_block c.db b.index).blocks)
      ≡ false
  unfolding truncate_db_from_block
  gone = ground (
    arith,
    by_id-delete_from (λ (r : BlockRow). r.id) b.index b.index c.db.blocks,
    id_lt_self b.index,
  )

  -- After an empty fork has replaced the last full block at its index, that block is still what the
  -- chain gives as its last full block, though the table holds the fork in its place.
  pub replace_block_stale :
      (full : Block) (height : ℕ)
      → c.last_full_block ≡ some full
      → full.index ≡ b.index
      → b.transaction ≡ none
      → b.index < height
      → (c' : Chain) × (replace_block host c b ≡ some c')
        × (block_at c' b.index ≡ some (row_of_block host b))
        × (get_last_full_block host c' height none ≡ some full)
  unfolding replace_block add_block get_last_full_block row_of_block
  replace_block_stale full height e same empty below =
      let rest = truncate_db_from_block c.db b.index in
      (
        record c {
          signers = no_signers;
          last_block = some b;
          db = record rest { blocks = row_of_block host b ∷ rest.blocks };
        },
        ground (arith, add_block_to_table_new host rest b gone),
        ground
            (arith, by_id-cons (λ (r : BlockRow). r.id) (row_of_block host b) rest.blocks b.index),
        ground arith,
      )
