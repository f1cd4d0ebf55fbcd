-- ===== src/Blockchain/Chain/Update/Growth.antt =====
-- What a well-formed chain is, and how it grows by a block that follows its last one.
use ruvname.Prelude.{
  ℕ, ◌+◌, ◌-◌, ◌^◌, ◌≤◌, ◌<◌, ◌≡◌, ◌≢◌, refl, ap, ◌⊎◌, ℤ, true, ◌&&◌, Option, none, some, arith,
  is_some, leb, ◌==◌, Bool-cases, Option-cases, inl, inr, if◌then◌else◌,
}
use ruvname.Bytes.Equality.{same_hash→eq}
use ruvname.Blockchain.Block.{Block, Host, BlockQuality, good, fork}
use ruvname.Blockchain.Table.{BlockRow, DomainRow, by_id, row_of_block}
use ruvname.Blockchain.Chain.{Chain, SignersCache, get_height, height_of, get_block}
use ruvname.Blockchain.Chain.Signers.{quit}
use ruvname.Blockchain.Chain.Signers.Chosen.{is_good_sign_block-ne-quit}
use ruvname.Blockchain.Chain.Check.{check_next, check_signer}
use ruvname.Blockchain.Chain.Check.Stages.{IsFinal}

abbrev pub block_at : Chain → ℕ → Option BlockRow
block_at c n = by_id (λ (r : BlockRow). r.id) n c.db.blocks

abbrev pub domain_at : Chain → ℕ → Option DomainRow
domain_at c n = by_id (λ (r : DomainRow). r.id) n c.db.domains

-- The table holds the blocks 1 to the height, each with the hash of the one before it; only their
-- ids stand in the domain table; the cached last block is the one at the height.
pub record IsChain (c : Chain) : Type 0 where
  pub bounded : get_height c < 2 ^ 63 - 1
  pub stored : (n : ℕ) → is_some (block_at c n) ≡ (leb 1 n && leb n (get_height c))
  pub linked :
      (n : ℕ) (r next : BlockRow)
      → block_at c n ≡ some r
      → block_at c (n + 1) ≡ some next
      → next.prev_block_hash ≡ r.hash
  pub domains_below : (n : ℕ) → is_some (domain_at c n) ≡ true → n ≤ get_height c
  pub last_starts : (l : Block) → c.last_block ≡ some l → 1 ≤ l.index
  pub last_hash :
      (l : Block) (r : BlockRow)
      → c.last_block ≡ some l
      → block_at c l.index ≡ some r
      → r.hash ≡ l.hash

module _ (host : Host) (now : ℤ) (fuel : ℕ) (c : Chain) (b : Block) where
  check_signer-ne-final :
      (last_full : Option Block) (q : BlockQuality) (s : SignersCache)
      → IsFinal q
      → check_signer host now fuel c b last_full ≢ quit q s
  unfolding check_signer
  check_signer-ne-final last_full q s e h =
      ground (arith, is_good_sign_block-ne-quit host fuel c b q s last_full)

  -- Where a block is accepted after a last block.
  pub check_next-good :
      (last : Block) (last_full : Option Block) (s : SignersCache)
      → last.index < 2 ^ 63
      → check_next host now fuel c b last last_full ≡ quit good s
      → ((b.index ≡ last.index + 1) × (b.prev_block_hash ≡ last.hash))
        ⊎ ((b.index ≤ last.index) × (get_block host c b.index ≡ none))
  unfolding check_next
  check_next-good last last_full s small h = ground (
    arith,
    check_signer-ne-final last_full good s (inl refl),
    same_hash→eq b.prev_block_hash last.hash,
  )

  -- A fork is no longer than the chain.
  pub check_next-fork :
      (last : Block) (last_full : Option Block) (s : SignersCache)
      → check_next host now fuel c b last last_full ≡ quit fork s
      → b.index ≤ last.index
  unfolding check_next
  check_next-fork last last_full s h =
      ground (arith, check_signer-ne-final last_full fork s (inr refl))

module _ (host : Host) (c : Chain) (b : Block) (h : IsChain c) where
  abbrev pub Follows : Type 0
  Follows =
      (b.index ≡ get_height c + 1)
      × (b.index < 2 ^ 63 - 1)
      × ((l : Block) → c.last_block ≡ some l → b.prev_block_hash ≡ l.hash)

  -- The state after `b`, seen through its tables.
  pub record Grows (c' : Chain) : Type 0 where
    pub last : c'.last_block ≡ some b
    pub blocks :
        (n : ℕ)
        → block_at c' n ≡ (if b.index == n then some (row_of_block host b) else block_at c n)
    pub domains :
        (n : ℕ) → is_some (domain_at c' n) ≡ true → (is_some (domain_at c n) ≡ true) ⊎ (n ≡ b.index)

  pub height-Grows : (c' : Chain) → Grows c' → get_height c' ≡ b.index
  height-Grows c' g = ap height_of g.last

  stored-Grows :
      (c' : Chain)
      → Grows c'
      → Follows
      → (n : ℕ) → is_some (block_at c' n) ≡ (leb 1 n && leb n (get_height c'))
  stored-Grows c' g f n = ground (arith, g.blocks n, h.stored n, height-Grows c' g)

  last_at_height :
      (n : ℕ) → 1 ≤ n → n ≡ get_height c → (l : Block) × (c.last_block ≡ some l) × (l.index ≡ n)
  last_at_height n pos e = elim (Option-cases c.last_block) [
    | inl x ↦ absurd (omega (arith, ap height_of x))
    | inr (l, x) ↦ (l, x, omega (arith, ap height_of x))
  ]

  linked-Grows :
      (c' : Chain)
      → Grows c'
      → Follows
      → (n : ℕ) (r next : BlockRow) → block_at c' n ≡ some r
      → block_at c' (n + 1) ≡ some next
      → next.prev_block_hash ≡ r.hash
  unfolding row_of_block
  linked-Grows c' g f n r next er en = elim (Bool-cases (b.index == (n + 1))) [
    | inl newest ↦
        let (l, el, il) =
          last_at_height n (ground (arith, g.blocks n, h.stored n)) (ground arith) in
        ground (arith, g.blocks n, g.blocks (n + 1), f.2 l el, h.last_hash l r el)
    | inr older ↦ ground (arith, g.blocks n, g.blocks (n + 1), h.linked n r next, h.stored (n + 1))
  ]

  pub IsChain-Grows : (c' : Chain) → Grows c' → Follows → IsChain c'
  unfolding row_of_block
  IsChain-Grows c' g f = record {
    bounded = omega (arith, height-Grows c' g);
    stored = stored-Grows c' g f;
    linked = linked-Grows c' g f;
    domains_below = λ n e. ground (arith, g.domains n e, h.domains_below n, height-Grows c' g);
    last_starts = λ l e. ground (arith, g.last);
    last_hash = λ l r el er. ground (arith, g.last, g.blocks l.index);
  }
