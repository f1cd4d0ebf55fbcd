-- ===== src/Blockchain/Chain/Signers.antt =====
-- src/blockchain/chain.rs: `get_block_signers`, and who may sign a block.
-- A check returns early with a verdict, so it runs in `Run`.
pub mod Chosen
pub mod Endless
use ruvname.Prelude.{
  ℕ, zero, suc, ◌+◌, ◌-◌, ◌*◌, ◌/◌, ◌%◌, ◌^◌, Bool, true, false, not, ◌&&◌, ◌||◌, Option, none,
  some, List, [], ◌∷◌, ◌++◌, ◌==◌, ltb, leb, if◌then◌else◌, length, is_some, add64, sub64,
}
use ruvname.Bytes.{Bytes, same_hash, get_tail_u64}
use ruvname.Blockchain.Constants.{block_signers_start, block_signers_all, block_signers_min}
use ruvname.Blockchain.Block.{Block, Host, BlockQuality}
use ruvname.Blockchain.Table.{count_user_blocks}
use ruvname.Blockchain.Chain.{Chain, SignersCache, has_signers_for, get_height, get_block}

-- `quit` is an early return of `check_block`, with the signers' cache that it leaves. `panic` is a
-- failed assertion or unwrap, and `endless` a loop that took more rounds than its fuel.
pub data Run {ℓ} (A : Type ℓ) : Type ℓ where
  ok : A → Run A
  quit : BlockQuality → SignersCache → Run A
  panic : Run A
  endless : Run A

infixl 5 ◌>>=◌ ◌>>◌
abbrev pub ◌>>=◌ {ℓ κ} : {A : Type ℓ} {B : Type κ} → Run A → (A → Run B) → Run B
ok a >>= f = f a
quit q c >>= f = quit q c
panic >>= f = panic
endless >>= f = endless

abbrev pub ◌>>◌ {ℓ} : {B : Type ℓ} → Run (Unit {0}) → Run B → Run B
m >> k = m >>= λ _. k

unfoldable pub mem : Bytes → List Bytes → Bool
mem k [] = false
mem k (x ∷ xs) = if same_hash x k then true else mem k xs

-- The variables of the loop; the set of the source has the elements of `result`.
pub record Draw : Type 0 where
  pub tail : ℕ
  pub count : ℕ
  pub mitigated : Bool
  pub result : List Bytes

-- `count += 1`, and the change of `tail` after 5000 rounds.
abbrev pub next_draw : Draw → Draw
next_draw d =
    if not d.mitigated && ltb 5000 (add64 d.count 1)
    then record d { tail = d.tail / 13; count = add64 d.count 1; mitigated = true }
    else record d { count = add64 d.count 1 }

module _ (host : Host) (c : Chain) (b : Block) where
  abbrev minimum_block_count : ℕ
  minimum_block_count = if ltb b.index 855 then 1 else b.index / 100

  -- One round on the block that was drawn.
  unfoldable pub draw_block : Draw → Option Block → Draw
  draw_block d none = next_draw d
  draw_block d (some drawn) =
      if ltb (count_user_blocks c.db drawn.pub_key b.index) minimum_block_count
      then record d { count = add64 d.count 1 }
      else if not (same_hash drawn.pub_key b.pub_key) && not (mem drawn.pub_key d.result)
      then next_draw (record d { result = d.result ++ drawn.pub_key ∷ [] })
      else next_draw d

  -- `window` is the index before the block's.
  unfoldable pub drawn_index : Draw → ℕ
  drawn_index d = d.tail * d.count % 2 ^ 64 % sub64 b.index 1 + 1

  unfoldable pub signers_loop : ℕ → Draw → Run (List Bytes)
  unfolding draw_block drawn_index
  signers_loop zero d = endless
  signers_loop (suc fuel) d =
      let rest = signers_loop fuel (draw_block d (get_block host c (drawn_index d))) in
      if ltb (length d.result) block_signers_all then rest else ok d.result

  abbrev start_loop : ℕ → Option ℕ → Run (List Bytes)
  start_loop fuel none = panic
  start_loop fuel (some tail) =
      signers_loop fuel (record { tail = tail; count = 1; mitigated = false; result = [] })

  unfoldable pub get_block_signers : ℕ → Run (List Bytes × SignersCache)
  unfolding signers_loop
  get_block_signers fuel =
      if ltb b.index block_signers_start || ltb (get_height c) b.index
      then ok ([], c.signers)
      else if not (is_some b.transaction)
      then panic
      else if has_signers_for c.signers b.index
      then ok (c.signers.signers, c.signers)
      else do
        result ← start_loop fuel (get_tail_u64 b.signature)
        ok (result, record { index = b.index; signers = result })

module _ (host : Host) (c : Chain) where
  -- `for i in full_block.index + 1 .. block.index`: has the key signed already?
  unfoldable pub signed_loop : ℕ → ℕ → Bytes → Run Bool
  signed_loop zero i key = ok true
  signed_loop (suc rounds) i key =
      let rest = signed_loop rounds (i + 1) key in
      elim (get_block host c i) [
        | none ↦ panic
        | some signer ↦ if same_hash signer.pub_key key then ok false else rest
      ]

module _ (host : Host) (fuel : ℕ) (c : Chain) where
  unfoldable pub is_good_signer_for_block : Block → Block → Run (Bool × SignersCache)
  unfolding get_block_signers
  is_good_signer_for_block block full = do
    (signers, cache) ← get_block_signers host c full fuel
    if not (mem block.pub_key signers) then ok (false, cache) else do
      fresh ←
          signed_loop host c (block.index - add64 full.index 1) (add64 full.index 1) block.pub_key
      ok (fresh, cache)

  unfoldable pub is_good_sign_block : Block → Option Block → Run (Bool × SignersCache)
  is_good_sign_block block none = ok (true, c.signers)
  is_good_sign_block block (some full) =
      let sign_count = sub64 (get_height c) full.index in
      if is_some block.transaction
      then ok (true, c.signers)
      else if ltb sign_count block_signers_min
      then (if ltb full.index block.index && is_some block.transaction
          then ok (false, c.signers)
          else is_good_signer_for_block block full)
      else if ltb sign_count block_signers_all && not (is_some block.transaction)
      then is_good_signer_for_block block full
      else ok (true, c.signers)
