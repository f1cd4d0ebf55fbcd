-- ===== src/Blockchain/Chain/Update/Unseen.antt =====
-- `is_id_available` of chain.rs as `check_block` asks it, right after `add_block`.
use ruvname.Prelude.{
  ℕ, ◌+◌, ◌^◌, ◌<◌, ◌≡◌, ◌⊎◌, inl, inr, refl, ap, ℤ, false, some, ◌∷◌, arith, sub64, Option-cases,
  Bool-cases, ◌&&◌, is_some,
}
use ruvname.Bytes.{Bytes, same_hash}
use ruvname.Blockchain.Constants.{class_domain}
use ruvname.Blockchain.Block.{Block, Host}
use ruvname.Blockchain.Table.{
  Db, DomainRow, BlockRow, by_id, row_of_block, id_lt, last_by, insert, insert_domain,
  add_block_to_table, select_domain, row_of_transaction,
}
use ruvname.Blockchain.Chain.{Chain, is_id_available, row_state, owned_or_free}
use ruvname.Blockchain.Chain.Update.{add_block, with_owner}

id_lt_irrefl : (n : ℕ) → id_lt n n ≡ false
unfolding id_lt
id_lt_irrefl n = ground arith

-- A row does not show below its own id.
select_domain-cons :
    (db db' : Db) (r : DomainRow) (identity : Bytes) (n : ℕ)
    → r.id ≡ n
    → db'.domains ≡ r ∷ db.domains
    → select_domain db' identity n ≡ select_domain db identity n
unfolding select_domain last_by
select_domain-cons db db' r identity n e grown = ground (arith, id_lt_irrefl n)

module _ (host : Host) (c c' : Chain) (b : Block) where
  -- What `add_block` adds to the table of domains: nothing, or a row under the index of the block.
  abbrev AddedTo : Type 0
  AddedTo =
      (c'.db.domains ≡ c.db.domains)
      ⊎ ((r : DomainRow) × (r.id ≡ b.index) × (c'.db.domains ≡ r ∷ c.db.domains))

  add_block-AddedTo : add_block host c b ≡ some c' → AddedTo
  unfolding add_block add_block_to_table insert_domain insert row_of_block
  add_block-AddedTo added = elim (Option-cases b.transaction) [
    | inl e ↦ inl (ground (arith, e))
    | inr (t, e) ↦ elim (Bool-cases (same_hash t.class class_domain)) [
      | inl domain ↦
          elim (Bool-cases (is_some (by_id (λ (r : BlockRow). r.id) b.index c.db.blocks))) [
            | inl known ↦ inl (ground (arith, e))
            | inr new ↦ inr (
              row_of_transaction b.index b.timestamp (with_owner b.pub_key t),
              refl,
              ground (arith, e),
            )
          ]
      | inr other ↦ inl (ground (arith, e))
    ]
  ]

  select_domain-add_block :
      (identity : Bytes)
      → add_block host c b ≡ some c'
      → select_domain c'.db identity b.index ≡ select_domain c.db identity b.index
  select_domain-add_block identity added = elim (add_block-AddedTo added) [
    | inl same ↦
        unfold select_domain in
        ap
          (last_by (λ (r : DomainRow). r.id)
            (λ r. same_hash r.identity identity && id_lt r.id b.index))
          same
    | inr (r, e, grown) ↦ select_domain-cons c.db c'.db r identity b.index e grown
  ]

  -- Whatever a block registers, the check of the block after it, which asks for what stands below the index
  -- before its own, finds each identity available to the same keys at the same times as without that block.
  pub is_id_available-add_block :
      (next : Block) (now : ℤ) (identity key : Bytes)
      → add_block host c b ≡ some c'
      → next.index ≡ b.index + 1
      → next.index < 2 ^ 64
      → is_id_available c' (sub64 next.index 1) now identity key
        ≡ is_id_available c (sub64 next.index 1) now identity key
  unfolding is_id_available
  is_id_available-add_block next now identity key added follows small =
      let before : sub64 next.index 1 ≡ b.index = omega (arith, follows, small) in
      rw before
        (ap (λ row. owned_or_free key (row_state row now)) (select_domain-add_block identity added))
