-- ===== src/Blockchain/Chain/Check/Stages.antt =====
-- `check_block` of chain.rs, part by part: what a part has shown of a block that it lets pass.
use ruvname.Prelude.{
  ℕ, ◌≤◌, ◌≡◌, ◌≢◌, ℤ, pos, ◌+ℤ◌, ◌≤ℤ◌, true, false, Option, none, some, List, arith, sub64, ◌⊎◌,
  inl, inr, Option-cases,
}
use ruvname.Bytes.{Bytes, hash_difficulty}
use ruvname.Bytes.Equality.{same_hash→eq}
use ruvname.Blockchain.Constants.{chain_version, keystore_difficulty}
use ruvname.Blockchain.Block.{
  Transaction, Block, Host, BlockQuality, good, fork, check_block_hash, check_block_signature,
  check_public_key_strength,
}
use ruvname.Blockchain.Chain.{Chain, SignersCache, get_block, is_id_available, can_mine_identity}
use ruvname.Blockchain.Chain.Signers.{ok, quit, mem}
use ruvname.Blockchain.Chain.Check.{
  is_fine, check_arrival, needed_difficulty, check_work, check_link, check_transaction,
  check_position, check_block,
}

-- The verdicts that are given at the end only.
abbrev pub IsFinal : BlockQuality → Type 0
IsFinal q = (q ≡ good) ⊎ (q ≡ fork)

-- What `check_arrival` and `check_work` have shown.
pub record HasWork (host : Host) (now : ℤ) (c : Chain) (b : Block) : Type 0 where
  pub enough : needed_difficulty host c b ≤ b.difficulty
  pub zeros : ℕ
  pub zeros_of_hash : hash_difficulty b.hash ≡ some zeros
  pub done : b.difficulty ≤ zeros
  pub hash_is_good : (check_block_hash host b).0 ≡ true
  pub signed : check_block_signature host b ≡ true

module _ (host : Host) (now : ℤ) (fuel : ℕ) (c : Chain) (b : Block) where
  check_arrival-ne-final :
      (wrong : List Bytes) (last : Option Block) (q : BlockQuality) (s : SignersCache)
      → IsFinal q
      → check_arrival host now fuel c b wrong last ≢ quit q s
  unfolding check_arrival
  check_arrival-ne-final wrong last q s e h = ground arith

  check_work-ne-final :
      (q : BlockQuality) (s : SignersCache) → IsFinal q → check_work host now fuel c b ≢ quit q s
  unfolding check_work
  check_work-ne-final q s e h = ground arith

  check_link-ne-final :
      (q : BlockQuality) (s : SignersCache) → IsFinal q → check_link host now fuel c b ≢ quit q s
  unfolding check_link
  check_link-ne-final q s e h = ground arith

  check_transaction-ne-final :
      (t : Option Transaction) (q : BlockQuality) (s : SignersCache)
      → IsFinal q
      → check_transaction host now fuel c b t ≢ quit q s
  unfolding check_transaction
  check_transaction-ne-final none q s e h = cc
  check_transaction-ne-final (some t) q s e h = ground arith

  pub check_arrival-ok :
      (wrong : List Bytes) (last : Option Block)
      → check_arrival host now fuel c b wrong last ≡ ok tt
      → (b.version ≤ chain_version) × (mem b.hash wrong ≡ false) × (b.timestamp ≤ℤ now +ℤ pos 60)
  unfolding check_arrival
  check_arrival-ok wrong last h = ground arith

  pub check_work-ok : check_work host now fuel c b ≡ ok tt → HasWork host now c b
  unfolding check_work
  check_work-ok h = elim (Option-cases (hash_difficulty b.hash)) [
    | inl e ↦ absurd (ground arith)
    | inr (z, e) ↦ record {
      enough = ground arith;
      zeros = z;
      zeros_of_hash = e;
      done = ground arith;
      hash_is_good = ground arith;
      signed = ground arith;
    }
  ]

  pub check_link-ok :
      (prev : Block)
      → check_link host now fuel c b ≡ ok tt
      → get_block host c (sub64 b.index 1) ≡ some prev
      → b.prev_block_hash ≡ prev.hash
  unfolding check_link
  check_link-ok prev h e = same_hash→eq _ _ (ground arith)

  pub check_transaction-ok :
      (t : Transaction)
      → check_transaction host now fuel c b (some t) ≡ ok tt
      → (check_public_key_strength host b.pub_key keystore_difficulty ≡ some true)
        × (is_id_available c (sub64 b.index 1) now t.identity b.pub_key ≡ true)
        × (is_fine (can_mine_identity host c t.identity b.index b.timestamp b.pub_key) ≡ true)
  unfolding check_transaction
  check_transaction-ok t h = ground arith

  pub check_block-parts :
      (wrong : List Bytes) (last last_full : Option Block) (q : BlockQuality) (s : SignersCache)
      → IsFinal q
      → check_block host now fuel c b wrong last last_full ≡ quit q s
      → (check_arrival host now fuel c b wrong last ≡ ok tt)
        × (check_work host now fuel c b ≡ ok tt)
        × (check_link host now fuel c b ≡ ok tt)
        × (check_transaction host now fuel c b b.transaction ≡ ok tt)
        × (check_position host now fuel c b last last_full ≡ quit q s)
  unfolding check_block
  check_block-parts wrong last last_full q s e h = ground (
    arith,
    check_arrival-ne-final wrong last q s e,
    check_work-ne-final q s e,
    check_link-ne-final q s e,
    check_transaction-ne-final b.transaction q s e,
  )
