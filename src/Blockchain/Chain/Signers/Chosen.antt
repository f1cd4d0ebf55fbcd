-- ===== src/Blockchain/Chain/Signers/Chosen.antt =====
-- Who `get_block_signers` of chain.rs chooses.
use ruvname.Prelude.{
  ℕ, zero, suc, ◌+◌, ◌-◌, add64, ◌≤◌, ◌≡◌, ◌≢◌, refl, false, Option, none, some, List, [], ◌∷◌,
  ◌++◌, arith, tests, length, length-append, Option-cases, Bool-cases, inl, inr, ltb,
}
use ruvname.Bytes.{Bytes, get_tail_u64}
use ruvname.Bytes.Equality.{same_hash_iff, same_hash→eq}
use ruvname.Blockchain.Constants.{block_signers_start, block_signers_all}
use ruvname.Blockchain.Block.{Block, Host, BlockQuality}
use ruvname.Blockchain.Chain.{Chain, SignersCache, get_block, has_signers_for, get_height}
use ruvname.Blockchain.Chain.Signers.{
  Run, ok, quit, panic, endless, Draw, draw_block, drawn_index, mem, signers_loop,
  get_block_signers, signed_loop, is_good_signer_for_block, is_good_sign_block,
}

module _ (host : Host) (c : Chain) (b : Block) where
  signers_loop-ne-quit :
      (fuel : ℕ) (d : Draw) (q : BlockQuality) (s : SignersCache)
      → signers_loop host c b fuel d ≢ quit q s
  unfolding signers_loop
  signers_loop-ne-quit zero d q s h = cc
  signers_loop-ne-quit (suc fuel) d q s h = ground (
    arith,
    signers_loop-ne-quit fuel (draw_block host c b d (get_block host c (drawn_index host c b d))) q
        s,
  )

  get_block_signers-ne-quit :
      (fuel : ℕ) (q : BlockQuality) (s : SignersCache) → get_block_signers host c b fuel ≢ quit q s
  unfolding get_block_signers
  get_block_signers-ne-quit fuel q s h = elim (Option-cases (get_tail_u64 b.signature)) [
    | inl e ↦ ground arith
    | inr (tail, e) ↦ ground (
      arith,
      signers_loop-ne-quit fuel (record { tail = tail; count = 1; mitigated = false; result = [] })
          q s,
    )
  ]

signed_loop-ne-quit :
    (host : Host) (c : Chain) (rounds i : ℕ) (key : Bytes) (q : BlockQuality) (s : SignersCache)
    → signed_loop host c rounds i key ≢ quit q s
unfolding signed_loop
signed_loop-ne-quit host c zero i key q s h = cc
signed_loop-ne-quit host c (suc rounds) i key q s h =
    ground (arith, signed_loop-ne-quit host c rounds (i + 1) key q s)

module _ (host : Host) (fuel : ℕ) (c : Chain) (block : Block) (q : BlockQuality)
    (s : SignersCache) where
  is_good_signer_for_block-ne-quit :
      (full : Block) → is_good_signer_for_block host fuel c block full ≢ quit q s
  unfolding is_good_signer_for_block
  is_good_signer_for_block-ne-quit full h = ground (
    arith,
    get_block_signers-ne-quit host c full fuel q s,
    signed_loop-ne-quit host c (block.index - add64 full.index 1) (add64 full.index 1) block.pub_key
        q s,
  )

  -- The check of the signer leaves no early return of its own.
  pub is_good_sign_block-ne-quit :
      (last_full : Option Block) → is_good_sign_block host fuel c block last_full ≢ quit q s
  unfolding is_good_sign_block
  is_good_sign_block-ne-quit none h = cc
  is_good_sign_block-ne-quit (some full) h = ground (arith, is_good_signer_for_block-ne-quit full)

-- Distinct keys, none of them the owner's.
abbrev pub IsDraw : Bytes → List Bytes → Type 0
IsDraw owner [] = Unit
IsDraw owner (k ∷ rest) = (k ≢ owner) × (mem k rest ≡ false) × IsDraw owner rest

module _ (host : Host) (c : Chain) (b : Block) where
  mem-concat :
      (k x : Bytes) (l : List Bytes) → mem k l ≡ false → x ≢ k → mem k (l ++ x ∷ []) ≡ false
  unfolding mem
  mem-concat k x [] h ne = ground (arith, same_hash→eq x k)
  mem-concat k x (y ∷ l) h ne = ground (arith, mem-concat k x l)

  mem→eq_ne : (k x : Bytes) (l : List Bytes) → mem x (k ∷ l) ≡ false → x ≢ k
  unfolding mem
  mem→eq_ne k x l h e = ground (arith, same_hash_iff k x)

  IsDraw-concat :
      (owner x : Bytes) (l : List Bytes)
      → IsDraw owner l
      → x ≢ owner
      → mem x l ≡ false
      → IsDraw owner (l ++ x ∷ [])
  unfolding mem
  IsDraw-concat owner x [] d ne h = (ne, refl, tt)
  IsDraw-concat owner x (k ∷ l) (ko, kl, d) ne h =
      (ko, mem-concat k x l kl (mem→eq_ne k x l h), IsDraw-concat owner x l d ne (ground arith))

  pub draw_block-IsDraw :
      (d : Draw) (drawn : Option Block)
      → IsDraw b.pub_key d.result
      → IsDraw b.pub_key (draw_block host c b d drawn).result
  unfolding draw_block
  draw_block-IsDraw d none h = ground arith
  draw_block-IsDraw d (some drawn) h = ground (
    arith,
    IsDraw-concat b.pub_key drawn.pub_key d.result h,
    same_hash_iff drawn.pub_key b.pub_key,
  )

  draw_block-length :
      (d : Draw) (drawn : Option Block)
      → length (draw_block host c b d drawn).result ≤ length d.result + 1
  unfolding draw_block
  draw_block-length d none = ground arith
  draw_block-length d (some drawn) = ground (arith, length-append d.result (drawn.pub_key ∷ []))

  signers_loop-chosen :
      (fuel : ℕ) (d : Draw) (l : List Bytes)
      → IsDraw b.pub_key d.result
      → length d.result ≤ block_signers_all
      → signers_loop host c b fuel d ≡ ok l
      → IsDraw b.pub_key l × (length l ≡ block_signers_all)
  unfolding signers_loop
  signers_loop-chosen zero d l draw short h = cc
  signers_loop-chosen (suc fuel) d l draw short h =
      let drawn = get_block host c (drawn_index host c b d) in
      elim (Bool-cases (ltb (length d.result) block_signers_all)) [
        | inl few ↦
            signers_loop-chosen fuel (draw_block host c b d drawn) l
              (draw_block-IsDraw d drawn draw) (omega (tests, draw_block-length d drawn, few))
              (ground arith)
        | inr all ↦ ground arith
      ]

  -- For a block of index at least 35 and not above the height of the chain, where the cache has no signers
  -- for it and the choice returns, seven distinct keys are chosen, none of them the block owner's, and they
  -- are cached for the block.
  pub get_block_signers-chosen :
      (fuel : ℕ) (l : List Bytes) (cache : SignersCache)
      → block_signers_start ≤ b.index
      → b.index ≤ get_height c
      → has_signers_for c.signers b.index ≡ false
      → get_block_signers host c b fuel ≡ ok (l, cache)
      → IsDraw b.pub_key l
        × (length l ≡ block_signers_all)
        × (cache ≡ record { index = b.index; signers = l })
  unfolding get_block_signers
  get_block_signers-chosen fuel l cache start high uncached h =
      elim (Option-cases (get_tail_u64 b.signature)) [
        | inl e ↦ absurd (ground arith)
        | inr (tail, e) ↦
            chosen tail e
              (signers_loop host c b fuel
                (record { tail = tail; count = 1; mitigated = false; result = [] }))
              refl
      ]
    where
      chosen :
          (tail : ℕ)
          → get_tail_u64 b.signature ≡ some tail
          → (r : Run (List Bytes))
          → signers_loop host c b fuel
              (record { tail = tail; count = 1; mitigated = false; result = [] })
            ≡ r
          → IsDraw b.pub_key l
            × (length l ≡ block_signers_all)
            × (cache ≡ record { index = b.index; signers = l })
      chosen tail e (ok m) run =
          let drawn = signers_loop-chosen fuel _ m tt (omega arith) run in ground (arith, drawn)
      chosen tail e (quit q s) run = absurd (ground arith)
      chosen tail e panic run = absurd (ground arith)
      chosen tail e endless run = absurd (ground arith)
