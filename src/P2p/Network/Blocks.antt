-- ===== src/P2p/Network/Blocks.antt =====
-- src/p2p/network.rs: `handle_block`, what the node does with a block that arrives.
pub mod Orphans
pub mod Handled
use ruvname.Prelude.{
  ℕ, zero, suc, ◌+◌, ℤ, Bool, true, false, ◌&&◌, ◌||◌, Option, none, some, List, [], ◌∷◌, ◌==◌, leb,
  length, if◌then◌else◌, get_key, put_key, remove_key, add64, sub64,
}
use ruvname.Bytes.{Bytes}
use ruvname.Blockchain.Constants.{limited_confidence_depth}
use ruvname.Blockchain.Block.{
  Block, BlockQuality, good, twin, future, rewind, bad, fork, is_better_than,
}
use ruvname.Blockchain.Chain.{Chain, SignersCache, get_height, get_block, update_max_height}
use ruvname.Blockchain.Chain.Signers.{Run, ok, quit, panic, endless, ◌>>=◌}
use ruvname.Blockchain.Chain.Check.{check_new_block, or_panic}
use ruvname.Blockchain.Chain.Update.{add_block, replace_block}
use ruvname.P2p.State
use ruvname.P2p.State.{State}
use ruvname.P2p.Message
use ruvname.P2p.Message.{Message}
use ruvname.P2p.Peer.{Peer}
use ruvname.P2p.Network.{Env, Network, change_peer}

abbrev pub same_index : ℕ → ℕ → Bool
same_index a b = a == b

-- The verdict of a check. It never ends without one.
abbrev pub verdict : Run (Unit {0}) → Run (BlockQuality × SignersCache)
verdict (ok u) = panic
verdict (quit q s) = ok (q, s)
verdict panic = panic
verdict endless = endless

module _ (env : Env) where
  unfoldable pub check : Chain → Block → Run (BlockQuality × SignersCache)
  check c b = verdict (check_new_block env.host env.utc env.fuel c b env.wrong_hashes)

  -- The verdict that a block of the bucket gets, and the chain after it.
  abbrev pub add_if_good : Chain → Block → BlockQuality × SignersCache → Run (Chain × Bool)
  add_if_good c b (good, s) = do
    c' ← or_panic (add_block env.host (record c { signers = s }) b)
    ok (c', true)
  add_if_good c b (q, s) = ok (record c { signers = s }, false)

  -- The loop goes on after a block that was added, and ends at any other.
  abbrev pub loop_step :
      (Chain → Run (Chain × List (ℕ × Block)))
      → (bucket : List (ℕ × Block)) → Chain × Bool
      → Run (Chain × List (ℕ × Block))
  loop_step go_on bucket (c, true) = go_on c
  loop_step go_on bucket (c, false) = ok (c, bucket)

  -- The loop over the future blocks: `endless` when the fuel is used up.
  unfoldable pub future_loop :
      (fuel : ℕ) → Chain → List (ℕ × Block) → (next_index : ℕ) → Run (Chain × List (ℕ × Block))
  unfolding check
  future_loop zero c bucket next_index = endless
  future_loop (suc n) c bucket next_index = elim (get_key same_index bucket next_index) [
    | none ↦ ok (c, bucket)
    | some b ↦
        let bucket' = remove_key same_index bucket next_index in
        check c b
        >>= add_if_good c b
        >>= loop_step (λ c'. future_loop n c' bucket' (add64 next_index 1)) bucket'
  ]

  -- A good block, and the blocks of the bucket that follow it.
  unfoldable pub take_good : Network → Block → (max_height : ℕ) → Run Network
  unfolding future_loop
  take_good n b max_height = do
    c ← or_panic (add_block env.host n.chain b)
    (c', bucket) ← future_loop (suc (length n.future_blocks)) c n.future_blocks (add64 b.index 1)
    ok (record n { chain = c'; future_blocks = if get_height c' == max_height then [] else bucket })

  -- A fork is taken if it is better, or if we are far behind.
  unfoldable pub take_fork : Network → Block → (max_height : ℕ) → Run (Network × State)
  unfolding get_block is_better_than replace_block
  take_fork n b max_height = do
    our_block ← or_panic (get_block env.host n.chain b.index)
    better ← or_panic (is_better_than b our_block)
    let lagged =
        b.index == get_height n.chain && leb (add64 b.index limited_confidence_depth) max_height
    if better || lagged
        then (do
          c ← or_panic (replace_block env.host n.chain b)
          ok (record n { chain = c }, State.idle env.now))
        else ok
            (n, State.message (env.cbor (Message.block our_block.index (env.as_bytes our_block))))

  unfoldable pub by_quality :
      Network → Block → (max_height : ℕ) → BlockQuality → Run (Network × State)
  unfolding take_good take_fork update_max_height
  by_quality n b max_height good = do n' ← take_good n b max_height; ok (n', State.idle env.now)
  by_quality n b max_height twin = ok (n, State.idle env.now)
  by_quality n b max_height future = ok (
    record n { future_blocks = put_key same_index n.future_blocks b.index b },
    State.idle env.now,
  )
  by_quality n b max_height bad = ok (
    if add64 (get_height n.chain) 1 == b.index
        then record n { chain = update_max_height n.chain (get_height n.chain) }
        else n,
    State.banned,
  )
  by_quality n b max_height rewind =
      ok (n, State.message (env.cbor (Message.get_block (sub64 b.index 1))))
  by_quality n b max_height fork = take_fork n b max_height

  abbrev pub with_signers : Network → SignersCache → Network
  with_signers n s = record n { chain = record n.chain { signers = s } }

  unfoldable pub handle_block : Network → (token : ℕ) → Block → Run (Network × State)
  unfolding change_peer check by_quality
  handle_block n token b = do
    n1 ←
        change_peer (record n { seen_blocks = b.hash ∷ n.seen_blocks }) token
          (λ p. record p { received_block = b.index })
    (q, s) ← check n1.chain b
    by_quality (with_signers n1 s) b n1.chain.max_height q
