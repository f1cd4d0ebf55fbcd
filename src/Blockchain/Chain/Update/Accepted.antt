-- ===== src/Blockchain/Chain/Update/Accepted.antt =====
-- `add_block` of chain.rs on what `check_new_block` accepts, as `handle_block` of src/p2p/network.rs calls
-- it.
use ruvname.Prelude.{
  ℕ, ◌+◌, ◌-◌, ◌^◌, ◌≤◌, ◌<◌, ◌≡◌, refl, ap, inl, inr, ℤ, false, Option, none, some, List, arith,
  is_some, Bool-cases, Option-cases,
}
use ruvname.Bytes.{Bytes, same_hash}
use ruvname.Bytes.Zeros.{hash_difficulty-le}
use ruvname.Blockchain.Constants.{class_domain, class_origin}
use ruvname.Blockchain.Block.{Transaction, Block, Host, good, is_genesis}
use ruvname.Blockchain.Table.{select_block}
use ruvname.Blockchain.Chain.{Chain, SignersCache, get_height, height_of, get_block}
use ruvname.Blockchain.Chain.Discount.{get_difficulty_for_transaction_unknown}
use ruvname.Blockchain.Chain.Signers.{quit}
use ruvname.Blockchain.Chain.Check.{check_first, check_position, check_new_block, needed_difficulty}
use ruvname.Blockchain.Chain.Check.Stages.{check_block-parts, check_work-ok, HasWork}
use ruvname.Blockchain.Chain.Update.{add_block}
use ruvname.Blockchain.Chain.Update.Adding.{HasClass, add_block-Follows}
use ruvname.Blockchain.Chain.Update.Growth.{block_at, IsChain, Follows, check_next-good}

-- A block with the work that it needs has a class that the tables know: any other needs a
-- difficulty that no hash has.
module _ (host : Host) (now : ℤ) (c : Chain) (b : Block) where
  pub class_from : (t : Option Transaction) → b.transaction ≡ t → HasWork host now c b → HasClass t
  unfolding needed_difficulty
  class_from none e work = tt
  class_from (some t) e work = elim (Bool-cases (same_hash t.class class_origin)) [
    | inl origin ↦ inr origin
    | inr other ↦ elim (Bool-cases (same_hash t.class class_domain)) [
      | inl domain ↦ inl domain
      | inr neither ↦ absurd (
          ground (
            arith,
            work.enough,
            work.done,
            hash_difficulty-le b.hash work.zeros work.zeros_of_hash,
            get_difficulty_for_transaction_unknown host c t b.index b.timestamp (λ d. cc) other,
          ))
    ]
  ]

  pub HasWork-class : HasWork host now c b → HasClass b.transaction
  HasWork-class = class_from b.transaction refl

module _ (host : Host) (now : ℤ) (fuel : ℕ) (c : Chain) (b : Block) (wrong : List Bytes)
    (s : SignersCache) (h : IsChain c) (starts : 1 ≤ b.index) (room : b.index < 2 ^ 63 - 1)
    (accepted : check_new_block host now fuel c b wrong ≡ quit good s) where
  get_block-none : get_block host c b.index ≡ none → is_some (block_at c b.index) ≡ false
  unfolding get_block select_block
  get_block-none e = elim (Option-cases (block_at c b.index)) [
    | inl x ↦ ground arith
    | inr (r, x) ↦ absurd (ground arith)
  ]

  follows_from :
      (last : Option Block)
      → c.last_block ≡ last
      → check_position host now fuel c b last c.last_full_block ≡ quit good s
      → Follows host c b h
  unfolding check_position check_first is_genesis
  follows_from none e p = (ground (arith, ap height_of e), room, λ l el. cc)
  follows_from (some l) e p =
      let small : l.index < 2 ^ 63 = omega (arith, h.bounded, ap height_of e) in
      elim (check_next-good host now fuel c b l c.last_full_block s small p) [
        | inl (next, link) ↦ (omega (arith, ap height_of e), room, λ m em. cc)
        | inr (old, missing) ↦
            absurd (ground (arith, get_block-none missing, h.stored b.index, ap height_of e))
      ]

  pub follows : Follows host c b h
  unfolding check_new_block
  follows =
      follows_from c.last_block refl
        (check_block-parts host now fuel c b wrong c.last_block c.last_full_block good s (inl refl)
          accepted).4

  pub has_class : HasClass b.transaction
  unfolding check_new_block
  has_class = HasWork-class host now c b (
      check_work-ok host now fuel c b
        (check_block-parts host now fuel c b wrong c.last_block c.last_full_block good s (inl refl)
          accepted).1)

  -- A block that is accepted as new is added without a panic, and gives a chain one block longer, of
  -- which it is the last block.
  pub add_block-IsChain :
      (c' : Chain) × (add_block host c b ≡ some c')
      × IsChain c'
      × (get_height c' ≡ get_height c + 1)
      × (c'.last_block ≡ some b)
  add_block-IsChain =
      let (c', added, chain, grown, last, _) = add_block-Follows host c b h follows has_class in
      (c', added, chain, grown, last)
