-- ===== src/Blockchain/Chain/Update/Replaced.antt =====
-- `replace_block` of chain.rs, which `handle_block` of src/p2p/network.rs calls on a fork: the chain
-- is cut back to the block before and grows again.
use ruvname.Prelude.{
  ℕ, ◌+◌, ◌-◌, ◌≤◌, ◌<◌, ◌≡◌, refl, sym, ◌∙◌, ap, inl, inr, ℤ, true, Option, none, some, List,
  arith, is_some, ltb, Option-cases, if◌then◌else◌, sub64,
}
use ruvname.Bytes.{Bytes}
use ruvname.Blockchain.Block.{Block, Host, fork}
use ruvname.Blockchain.Table.{
  BlockRow, DomainRow, block_of_row, select_block, truncate_db_from_block,
}
use ruvname.Blockchain.Table.Queries.{
  id_lt_small, by_id-delete_from, by_id-id, add_block_to_table_new,
}
use ruvname.Blockchain.Chain.{Chain, SignersCache, no_signers, get_height, height_of, get_block}
use ruvname.Blockchain.Chain.Signers.{ok, quit}
use ruvname.Blockchain.Chain.Check.{
  check_new_block, check_link, check_work, check_position, check_first,
}
use ruvname.Blockchain.Chain.Check.Stages.{check_block-parts, check_work-ok, check_link-ok}
use ruvname.Blockchain.Chain.Update.Accepted.{HasWork-class}
use ruvname.Blockchain.Chain.Update.{add_block, replace_block}
use ruvname.Blockchain.Chain.Update.Growth.{block_at, domain_at, IsChain, Follows, check_next-fork}
use ruvname.Blockchain.Chain.Update.Adding.{add_block-Follows}

abbrev last_of : Host → ℕ → Option BlockRow → Option Block
last_of host n none = none
last_of host n (some r) = some (block_of_row host r)

-- The chain cut back to the blocks below n: the state in which `replace_block` adds its block, but
-- for the cached last block, which `add_block` does not read.
abbrev cut : Host → Chain → ℕ → Chain
cut host c n = record c {
  signers = no_signers;
  db = truncate_db_from_block c.db n;
  last_block = last_of host n (block_at c (n - 1));
}

module _ (host : Host) (c : Chain) (n : ℕ) (h : IsChain c) (starts : 1 ≤ n)
    (inside : n ≤ get_height c + 1) where
  block_at-cut : (m : ℕ) → block_at (cut host c n) m ≡ (if ltb m n then block_at c m else none)
  unfolding truncate_db_from_block
  block_at-cut m = ground (
    arith,
    by_id-delete_from (λ (r : BlockRow). r.id) n m c.db.blocks,
    id_lt_small m n,
    h.stored m,
    h.bounded,
  )

  domain_at-cut :
      (m : ℕ)
      → is_some (domain_at (cut host c n) m) ≡ true
      → (m < n) × (is_some (domain_at c m) ≡ true)
  unfolding truncate_db_from_block
  domain_at-cut m e = ground (
    arith,
    by_id-delete_from (λ (r : DomainRow). r.id) n m c.db.domains,
    id_lt_small m n,
    h.domains_below m,
    h.bounded,
  )

  height-cut : get_height (cut host c n) ≡ n - 1
  unfolding block_of_row
  height-cut = elim (Option-cases (block_at c (n - 1))) [
    | inl e ↦ ground (arith, h.stored (n - 1))
    | inr (r, e) ↦
        ground (arith, h.stored (n - 1), by_id-id (λ (r : BlockRow). r.id) (n - 1) c.db.blocks r)
  ]

  -- The cached block of the cut chain is read from the row at n - 1.
  last-cut :
      (l : Block)
      → (cut host c n).last_block ≡ some l
      → (r : BlockRow) × (block_at c (n - 1) ≡ some r) × (l.index ≡ n - 1) × (l.hash ≡ r.hash)
  unfolding block_of_row
  last-cut l e = elim (Option-cases (block_at c (n - 1))) [
    | inl x ↦ absurd (ground arith)
    | inr (r, x) ↦ (
      r,
      x,
      ground (arith, by_id-id (λ (r : BlockRow). r.id) (n - 1) c.db.blocks r x),
      ground arith,
    )
  ]

  IsChain-cut : IsChain (cut host c n)
  unfolding block_of_row
  IsChain-cut = record {
    bounded = omega (arith, height-cut, h.bounded);
    stored = λ m. ground (arith, block_at-cut m, h.stored m, height-cut);
    linked =
        λ m r next er en. ground (arith, block_at-cut m, block_at-cut (m + 1), h.linked m r next);
    domains_below = λ m e. omega (arith, (domain_at-cut m e).0, height-cut);
    last_starts = λ l e. let (r, x, i, _) = last-cut l e in ground (arith, h.stored (n - 1));
    last_hash = λ l r el er.
        let (q, x, i, e) = last-cut l el in ground (arith, block_at-cut l.index, ap (block_at c) i);
  }

-- A fork passes `check_link`, and is no longer than the chain.
module _ (host : Host) (now : ℤ) (fuel : ℕ) (c : Chain) (b : Block) (wrong : List Bytes)
    (s : SignersCache) (h : IsChain c) (starts : 1 ≤ b.index)
    (forked : check_new_block host now fuel c b wrong ≡ quit fork s) where
  parts :
      (check_link host now fuel c b ≡ ok tt)
      × (check_work host now fuel c b ≡ ok tt)
      × (check_position host now fuel c b c.last_block c.last_full_block ≡ quit fork s)
  unfolding check_new_block
  parts =
      let p =
        check_block-parts host now fuel c b wrong c.last_block c.last_full_block fork s (inr refl)
          forked in
      (p.2, p.1, p.4)

  inside_from :
      (last : Option Block)
      → c.last_block ≡ last
      → check_position host now fuel c b last c.last_full_block ≡ quit fork s
      → b.index ≤ get_height c
  unfolding check_position check_first
  inside_from none e p = absurd (ground arith)
  inside_from (some l) e p =
      omega (arith, check_next-fork host now fuel c b l c.last_full_block s p, ap height_of e)

  pub inside : b.index ≤ get_height c
  inside = inside_from c.last_block refl parts.2

  linked_to : (r : BlockRow) → block_at c (b.index - 1) ≡ some r → b.prev_block_hash ≡ r.hash
  unfolding get_block select_block block_of_row
  linked_to r e =
      let before : sub64 b.index 1 ≡ b.index - 1 = omega (arith, inside, h.bounded) in
      check_link-ok host now fuel c b (block_of_row host r) parts.0 (rw before (rw e))

  follows :
      Follows host
        (cut host c b.index)
        b
        (IsChain-cut host c b.index h starts (omega (arith, inside)))
  follows = (
    omega (arith, height-cut host c b.index h starts (omega (arith, inside))),
    omega (arith, inside, h.bounded),
    λ l e.
        let (r, x, _, hash) = last-cut host c b.index h starts (omega (arith, inside)) l e in
        linked_to r x ∙ sym hash,
  )

  replace_block-cut : replace_block host c b ≡ add_block host (cut host c b.index) b
  unfolding replace_block add_block
  replace_block-cut =
      let at_cut = block_at-cut host c b.index h starts (omega (arith, inside)) b.index in
      ground (arith, add_block_to_table_new host (cut host c b.index).db b (ground (arith, at_cut)))

  -- A fork that is taken leaves a chain that ends in it, and that keeps every block below it.
  pub replace_block-IsChain :
      (c' : Chain) × (replace_block host c b ≡ some c')
      × IsChain c'
      × (c'.last_block ≡ some b)
      × ((n : ℕ) → n < b.index → block_at c' n ≡ block_at c n)
  replace_block-IsChain =
      let chain = IsChain-cut host c b.index h starts (omega (arith, inside)) in
      let (c', added, kept, _, last, below) =
        add_block-Follows host (cut host c b.index) b chain follows
          (HasWork-class host now c b (check_work-ok host now fuel c b parts.1)) in
      (
        c',
        replace_block-cut ∙ added,
        kept,
        last,
        λ n small.
            below n small
            ∙ (ground (arith, block_at-cut host c b.index h starts (omega (arith, inside)) n)),
      )
