-- ===== src/Blockchain/Chain/Update/Adding.antt =====
-- `add_block` on a block that follows the chain's last one and has a class that the tables know.
use ruvname.Prelude.{
  ℕ, ◌+◌, ◌<◌, ◌≡◌, refl, ◌⊎◌, inl, inr, true, false, Option, none, some, ◌∷◌, arith, is_some, ◌==◌,
  Bool-cases, if◌then◌else◌,
}
use ruvname.Bytes.{same_hash}
use ruvname.Blockchain.Constants.{class_domain, class_origin}
use ruvname.Blockchain.Block.{Transaction, Block, Host}
use ruvname.Blockchain.Table.{BlockRow, DomainRow, row_of_block, row_of_transaction}
use ruvname.Blockchain.Table.Queries.{by_id-cons, add_block_to_table_new, insert_domain_new}
use ruvname.Blockchain.Chain.{Chain, get_height}
use ruvname.Blockchain.Chain.Update.{add_block, with_owner}
use ruvname.Blockchain.Chain.Update.Growth.{
  block_at, domain_at, IsChain, Follows, Grows, height-Grows, IsChain-Grows,
}

-- A transaction whose class `add_transaction_to_table` knows.
abbrev pub HasClass : Option Transaction → Type 0
HasClass none = Unit
HasClass (some t) =
    (same_hash t.class class_domain ≡ true) ⊎ (same_hash t.class class_origin ≡ true)

module _ (host : Host) (c : Chain) (b : Block) (h : IsChain c) (f : Follows host c b h) where
  new_id : is_some (block_at c b.index) ≡ false
  new_id = ground (arith, h.stored b.index, f.0)

  new_domain_id : is_some (domain_at c b.index) ≡ false
  new_domain_id = elim (Bool-cases (is_some (domain_at c b.index))) [
    | inl e ↦ absurd (omega (arith, h.domains_below b.index e, f.0))
    | inr e ↦ e
  ]

  -- The tables after the INSERT of the block, and after that of its transaction.
  abbrev with_block : Chain
  with_block = record c {
    last_block = some b;
    db = record c.db { blocks = row_of_block host b ∷ c.db.blocks };
  }

  abbrev with_domain : Transaction → Chain
  with_domain t = record with_block {
    last_full_block = some b;
    db = record with_block.db {
      domains = row_of_transaction b.index b.timestamp (with_owner b.pub_key t) ∷ c.db.domains;
    };
  }

  blocks_after :
      (n : ℕ)
      → block_at with_block n ≡ (if b.index == n then some (row_of_block host b) else block_at c n)
  unfolding row_of_block
  blocks_after n = by_id-cons (λ (r : BlockRow). r.id) (row_of_block host b) c.db.blocks n

  domains_after :
      (t : Transaction) (n : ℕ)
      → is_some (domain_at (with_domain t) n) ≡ true
      → (is_some (domain_at c n) ≡ true) ⊎ (n ≡ b.index)
  domains_after t n e = ground (
    arith,
    by_id-cons (λ (r : DomainRow). r.id)
        (row_of_transaction b.index b.timestamp (with_owner b.pub_key t)) c.db.domains n,
  )

  domain-Grows :
      (t : Transaction)
      → b.transaction ≡ some t
      → same_hash t.class class_domain ≡ true
      → (c' : Chain) × (add_block host c b ≡ some c') × Grows host c b h c'
  unfolding add_block
  domain-Grows t e domain = (
    with_domain t,
    ground (
      arith,
      add_block_to_table_new host c.db b new_id,
      insert_domain_new with_block.db b.index b.timestamp (with_owner b.pub_key t) new_domain_id,
    ),
    record { last = refl; blocks = blocks_after; domains = domains_after t },
  )

  Grows-from :
      (t : Option Transaction)
      → b.transaction ≡ t
      → HasClass t
      → (c' : Chain) × (add_block host c b ≡ some c') × Grows host c b h c'
  unfolding add_block
  Grows-from none e k = (
    with_block,
    ground (arith, add_block_to_table_new host c.db b new_id),
    record { last = refl; blocks = blocks_after; domains = λ n x. inl x },
  )
  Grows-from (some t) e (inl domain) = domain-Grows t e domain
  Grows-from (some t) e (inr origin) = elim (Bool-cases (same_hash t.class class_domain)) [
    | inl domain ↦ domain-Grows t e domain
    | inr other ↦ (
      record with_block { last_full_block = some b },
      ground (arith, add_block_to_table_new host c.db b new_id),
      record { last = refl; blocks = blocks_after; domains = λ n x. inl x },
    )
  ]

  -- Such a block is added without a panic, and gives a chain of which it is the last block,
  -- with the blocks below it as they were.
  pub add_block-Follows :
      HasClass b.transaction
      → (c' : Chain) × (add_block host c b ≡ some c')
        × IsChain c'
        × (get_height c' ≡ get_height c + 1)
        × (c'.last_block ≡ some b)
        × ((n : ℕ) → n < b.index → block_at c' n ≡ block_at c n)
  add_block-Follows k =
      let (c', added, g) = Grows-from b.transaction refl k in
      (
        c',
        added,
        IsChain-Grows host c b h c' g f,
        omega (arith, height-Grows host c b h c' g, f.0),
        g.last,
        λ n below. ground (arith, g.blocks n),
      )
