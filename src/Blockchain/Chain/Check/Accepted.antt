-- ===== src/Blockchain/Chain/Check/Accepted.antt =====
-- What holds of every block that `check_block` accepts.
use ruvname.Prelude.{
  ℕ, ◌≤◌, ◌≡◌, refl, ℤ, pos, ◌+ℤ◌, ◌≤ℤ◌, -ℤ_parts, true, false, Option, some, List, arith, sub64,
  inl,
}
use mathlib.Core.Path.{subst}
use ruvname.Bytes.{Bytes}
use ruvname.Blockchain.Constants.{chain_version, keystore_difficulty, new_domains_interval}
use ruvname.Blockchain.Block.{Transaction, Block, Host, good, check_public_key_strength}
use ruvname.Blockchain.Table.{select_domain}
use ruvname.Blockchain.Chain.{
  Chain, SignersCache, get_block, get_last_full_block, is_domain_in_blockchain, can_mine_identity,
}
use ruvname.Blockchain.Chain.Domains.{CanTake, is_id_available_iff}
use ruvname.Blockchain.Chain.Signers.{ok, quit, mem}
use ruvname.Blockchain.Chain.Check.{check_block, check_transaction, is_fine}
use ruvname.Blockchain.Chain.Check.Stages.{
  HasWork, check_arrival-ok, check_work-ok, check_link-ok, check_transaction-ok, check_block-parts,
}

module _ (host : Host) (now : ℤ) (fuel : ℕ) (c : Chain) (b : Block) (wrong : List Bytes)
    (last last_full : Option Block) (s : SignersCache)
    (accepted : check_block host now fuel c b wrong last last_full ≡ quit good s) where
  -- An accepted block has a supported version, is no known bad block, is at most a minute ahead of
  -- the clock, has the work that it needs, with hash and signature right, and carries the hash of
  -- the stored block before it, if there is one.
  pub check_block-good :
      (b.version ≤ chain_version)
      × (mem b.hash wrong ≡ false)
      × (b.timestamp ≤ℤ now +ℤ pos 60)
      × HasWork host now c b
      × ((prev : Block)
          → get_block host c (sub64 b.index 1) ≡ some prev
          → b.prev_block_hash ≡ prev.hash)
  check_block-good =
      let parts =
        check_block-parts host now fuel c b wrong last last_full good s (inl refl) accepted in
      let arrival = check_arrival-ok host now fuel c b wrong last parts.0 in
      (
        arrival.0,
        arrival.1,
        arrival.2,
        check_work-ok host now fuel c b parts.1,
        λ prev e. check_link-ok host now fuel c b prev parts.2 e,
      )

  passed :
      (t : Transaction)
      → b.transaction ≡ some t
      → (check_public_key_strength host b.pub_key keystore_difficulty ≡ some true)
        × CanTake (select_domain c.db t.identity (sub64 b.index 1)) now b.pub_key
        × (is_fine (can_mine_identity host c t.identity b.index b.timestamp b.pub_key) ≡ true)
  passed t e =
      let parts =
        check_block-parts host now fuel c b wrong last last_full good s (inl refl) accepted in
      let read = subst (λ o. check_transaction host now fuel c b o ≡ ok tt) e parts.3 in
      let shown = check_transaction-ok host now fuel c b t read in
      (
        shown.0,
        (is_id_available_iff c (sub64 b.index 1) now t.identity b.pub_key).0 shown.1,
        shown.2,
      )

  -- What is stored below the parent of an accepted block with an identity does not keep the identity from
  -- its key: there is no transaction of it there, or the key signed the last of them, or that one is older
  -- than the lifetime and the renewal time together. The parent itself is not among what is looked at.
  pub check_block-owner :
      (t : Transaction)
      → b.transaction ≡ some t
      → CanTake (select_domain c.db t.identity (sub64 b.index 1)) now b.pub_key
  check_block-owner t e = (passed t e).1

  -- An accepted block with a new identity is dated a day or more after the last full block of its
  -- key that the chain finds below it.
  pub check_block-cooldown :
      (t : Transaction) (previous : Block)
      → b.transaction ≡ some t
      → is_domain_in_blockchain c b.index t.identity ≡ false
      → get_last_full_block host c b.index (some b.pub_key) ≡ some previous
      → previous.timestamp +ℤ pos new_domains_interval ≤ℤ b.timestamp
  unfolding can_mine_identity
  check_block-cooldown t previous e fresh found =
      ground (
        arith,
        (passed t e).2,
        -ℤ_parts (previous.timestamp +ℤ pos new_domains_interval) b.timestamp,
      )
