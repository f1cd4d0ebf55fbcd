-- ===== src/Blockchain/Chain/Signers/Endless.antt =====
-- The `while` loop of `get_block_signers` waits for seven distinct keys besides the owner's.
use ruvname.Prelude.{
  ℕ, zero, suc, ◌≤◌, ◌<◌, ◌≡◌, ◌≢◌, refl, true, false, some, List, [], ◌∷◌, ◌++◌, arith, length,
  Option-cases, inl, inr, if◌then◌else◌, is_some,
}
use ruvname.Bytes.{Bytes, same_hash, get_tail_u64}
use ruvname.Bytes.Equality.{same_hash_iff, same_hash→eq}
use ruvname.Blockchain.Constants.{block_signers_start, block_signers_all}
use ruvname.Blockchain.Block.{Block, Host}
use ruvname.Blockchain.Chain.{Chain, get_block, has_signers_for, get_height}
use ruvname.Blockchain.Chain.Signers.{
  endless, Draw, draw_block, drawn_index, mem, signers_loop, get_block_signers,
}
use ruvname.Blockchain.Chain.Signers.Chosen.{IsDraw, draw_block-IsDraw}

remove : Bytes → List Bytes → List Bytes
remove k [] = []
remove k (x ∷ xs) = let rest = remove k xs in if same_hash x k then rest else x ∷ rest

remove-le : (k : Bytes) (xs : List Bytes) → length (remove k xs) ≤ length xs
unfolding remove
remove-le k [] = omega arith
remove-le k (x ∷ xs) = ground (arith, remove-le k xs)

remove-lt : (k : Bytes) (xs : List Bytes) → mem k xs ≡ true → length (remove k xs) < length xs
unfolding remove mem
remove-lt k [] h = cc
remove-lt k (x ∷ xs) h = ground (arith, remove-lt k xs, remove-le k xs)

mem-remove : (k x : Bytes) (xs : List Bytes) → mem x xs ≡ true → x ≢ k → mem x (remove k xs) ≡ true
unfolding remove mem
mem-remove k x [] h ne = cc
mem-remove k x (y ∷ xs) h ne = ground (arith, mem-remove k x xs, same_hash→eq y k, same_hash→eq y x)

abbrev AllIn : List Bytes → List Bytes → Type 0
AllIn keys [] = Unit
AllIn keys (x ∷ xs) = (mem x keys ≡ true) × AllIn keys xs

AllIn-remove :
    (k : Bytes) (keys xs : List Bytes) → AllIn keys xs → mem k xs ≡ false → AllIn (remove k keys) xs
unfolding mem
AllIn-remove k keys [] h out = tt
AllIn-remove k keys (x ∷ xs) h out = (
  mem-remove k x keys h.0 (λ e. ground (arith, same_hash_iff x k)),
  AllIn-remove k keys xs h.1 (ground arith),
)

-- Distinct keys out of a list are no more than the list has.
draw-le :
    (owner : Bytes) (keys xs : List Bytes)
    → IsDraw owner xs
    → AllIn keys xs
    → length xs ≤ length keys
draw-le owner keys [] d h = omega arith
draw-le owner keys (x ∷ xs) d h = omega (
  arith,
  draw-le owner (remove x keys) xs d.2 (AllIn-remove x keys xs h.1 d.1),
  remove-lt x keys h.0,
)

AllIn-concat :
    (keys xs : List Bytes) (x : Bytes)
    → AllIn keys xs
    → mem x keys ≡ true
    → AllIn keys (xs ++ x ∷ [])
AllIn-concat keys [] x h m = (m, tt)
AllIn-concat keys (y ∷ xs) x h m = (h.0, AllIn-concat keys xs x h.1 m)

module _ (host : Host) (c : Chain) (b : Block) (others : List Bytes)
    (few : length others < block_signers_all)
    (known : (n : ℕ) (x : Block)
      → get_block host c n ≡ some x
      → x.pub_key ≢ b.pub_key
      → mem x.pub_key others ≡ true) where
  draw_block-AllIn :
      (d : Draw) (n : ℕ)
      → AllIn others d.result
      → AllIn others (draw_block host c b d (get_block host c n)).result
  unfolding draw_block
  draw_block-AllIn d n h = elim (Option-cases (get_block host c n)) [
    | inl e ↦ ground arith
    | inr (x, e) ↦ ground (
      arith,
      known n x e,
      AllIn-concat others d.result x.pub_key h,
      same_hash_iff x.pub_key b.pub_key,
    )
  ]

  signers_loop-endless :
      (fuel : ℕ) (d : Draw)
      → IsDraw b.pub_key d.result
      → AllIn others d.result
      → signers_loop host c b fuel d ≡ endless
  unfolding signers_loop
  signers_loop-endless zero d draw h = refl
  signers_loop-endless (suc fuel) d draw h =
      let x = get_block host c (drawn_index host c b d) in
      ground (
        arith,
        draw-le b.pub_key others d.result draw h,
        signers_loop-endless fuel (draw_block host c b d x) (draw_block-IsDraw host c b d x draw)
            (draw_block-AllIn d (drawn_index host c b d) h),
      )

  -- For a full block of index at least 35 and not above the height of the chain, with a signature of 8 bytes
  -- or more and no cached signers: while the chain holds blocks of fewer than seven keys besides the
  -- owner's, the choice of its signers does not end, however many rounds it is given.
  pub get_block_signers-endless :
      (fuel tail : ℕ)
      → block_signers_start ≤ b.index
      → b.index ≤ get_height c
      → is_some b.transaction ≡ true
      → has_signers_for c.signers b.index ≡ false
      → get_tail_u64 b.signature ≡ some tail
      → get_block_signers host c b fuel ≡ endless
  unfolding get_block_signers
  get_block_signers-endless fuel tail start high full uncached e =
      let drawn : signers_loop host c b fuel
            (record { tail = tail; count = 1; mitigated = false; result = [] })
          ≡ endless =
        signers_loop-endless fuel _ tt tt in
      ground (arith, drawn)
