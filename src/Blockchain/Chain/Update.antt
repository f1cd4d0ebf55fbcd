-- ===== src/Blockchain/Chain/Update.antt =====
-- src/blockchain/chain.rs: the operations that change the chain. `none` is a panic.
pub mod Growth
pub mod Adding
pub mod Accepted
pub mod Replaced
pub mod Stale
pub mod Unseen
use ruvname.Prelude.{
  ℕ, zero, suc, ◌+◌, ◌-◌, ℤ, Bool, true, false, not, ◌&&◌, Option, none, some, List, [], ◌∷◌, ◌==◌,
  ltb, leb, if◌then◌else◌, is_some, add64, sub64,
}
use ruvname.Bytes.{Bytes, same_hash, is_empty}
use ruvname.Blockchain.Constants.{class_domain, class_origin}
use ruvname.Blockchain.Block.{Transaction, Block, Host}
use ruvname.Blockchain.Table.{
  Db, add_block_to_table, insert_domain, truncate_db_from_block, select_last_block,
}
use ruvname.Blockchain.Chain.{
  Chain, SignersCache, no_signers, get_height, get_block, get_last_full_block,
}

-- `none` is `Err`: an unknown class, or a duplicate key.
unfoldable pub add_transaction_to_table : Db → ℕ → ℤ → Transaction → Option Db
add_transaction_to_table db index timestamp t =
    if same_hash t.class class_domain
    then insert_domain db index timestamp t
    else if same_hash t.class class_origin
    then some db
    else none

-- `if transaction.signing.is_empty() { transaction.signing = owner; }`
abbrev pub with_owner : Bytes → Transaction → Transaction
with_owner owner t = if is_empty t.signing then record t { signing = owner } else t

abbrev store_transaction : Chain → Block → Option Transaction → Option Chain
store_transaction c b none = some c
store_transaction c b (some t) =
    elim (add_transaction_to_table c.db b.index b.timestamp (with_owner b.pub_key t)) [
      | none ↦ none
      | some db ↦ some (record c { last_full_block = some b; db = db })
    ]

module _ (host : Host) where
  -- A failed INSERT of the block is only logged; that of its transaction is a panic.
  unfoldable pub add_block : Chain → Block → Option Chain
  unfolding add_transaction_to_table
  add_block c b = elim (add_block_to_table host c.db b) [
    | none ↦ some c
    | some db ↦ store_transaction (record c { last_block = some b; db = db }) b b.transaction
  ]

  unfoldable pub replace_block : Chain → Block → Option Chain
  unfolding add_block
  replace_block c b =
      add_block (record c { signers = no_signers; db = truncate_db_from_block c.db b.index }) b
