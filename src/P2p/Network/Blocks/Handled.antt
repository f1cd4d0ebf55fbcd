-- ===== src/P2p/Network/Blocks/Handled.antt =====
-- src/p2p/network.rs: what `handle_block` does to the chain and the future blocks, and where it stops.
use ruvname.Prelude.{
  ℕ, suc, ◌+◌, ◌≤◌, ◌≡◌, refl, ◌∙◌, ap, inl, inr, Bool, true, false, ◌&&◌, ◌||◌, none, some, List,
  [], ◌∷◌, ◌==◌, leb, length, add64, AllKeys-put_key, Option-cases, Bool-cases, if◌then◌else◌,
  arith,
}
use ruvname.Blockchain.Constants.{limited_confidence_depth}
use ruvname.Blockchain.Block.{
  Block, BlockQuality, good, twin, future, rewind, bad, fork, is_better_than,
}
use ruvname.Blockchain.Table.{select_block}
use ruvname.Blockchain.Chain.{Chain, SignersCache, get_height, get_block, update_max_height}
use ruvname.Blockchain.Chain.Signers.{Run, ok, quit, panic, endless, ◌>>=◌}
use ruvname.Blockchain.Chain.Check.{or_panic}
use ruvname.Blockchain.Chain.Update.{add_block, replace_block}
use ruvname.Blockchain.Chain.Update.Growth.{IsChain, block_at}
use ruvname.Blockchain.Chain.Update.Replaced.{replace_block-IsChain, inside}
use ruvname.P2p.State.{State}
use ruvname.P2p.Message
use ruvname.P2p.Peer.{Peer}
use ruvname.P2p.Peers.{get_peer}
use ruvname.P2p.Network.{Env, Network}
use ruvname.P2p.Network.Change.{with_peer, get_peer-with_peer, change_peer-found}
use ruvname.P2p.Network.Blocks.{
  same_index, check, future_loop, take_good, take_fork, by_quality, with_signers, handle_block,
}
use ruvname.P2p.Network.Blocks.Orphans.{
  InRange, IsBucket, signed, IsChain-signed, check-quit, check-ne-quit, add_good, EndsAs, LoopDone,
  future_loop-LoopDone,
}

abbrev pub IsNode : Network → Type 0
IsNode n = IsChain n.chain × IsBucket n.future_blocks

abbrev pub Has : Network → ℕ → Type 0
Has n token = (p : Peer) × (get_peer n.peers token ≡ some p)

IsBucket-empty : IsBucket []
IsBucket-empty = tt

IsChain-max_height : (c : Chain) (height : ℕ) → IsChain c → IsChain (update_max_height c height)
unfolding update_max_height
IsChain-max_height c height h = record {
  bounded = h.bounded;
  stored = h.stored;
  linked = h.linked;
  domains_below = h.domains_below;
  last_starts = h.last_starts;
  last_hash = h.last_hash;
}

module _ (env : Env) where
  -- Where the handling of a block on a chain with future blocks stops: in the check of the block, in that
  -- of a future block that the loop after it comes to, or in the comparison with the block that it would
  -- replace.
  pub data Stops (c : Chain) (bucket : List (ℕ × Block)) (b : Block)
      : Run (BlockQuality × SignersCache) → Type 0 where
    in_check : (r : Run (BlockQuality × SignersCache)) → check env c b ≡ r → Stops c bucket b r
    in_loop :
        (r : Run (BlockQuality × SignersCache)) (s : SignersCache) (c' : Chain)
        → check env c b ≡ ok (good, s)
        → add_block env.host (signed c s) b ≡ some c'
        → EndsAs env c' bucket (add64 b.index 1) r
        → Stops c bucket b r
    in_comparison :
        (s : SignersCache) (ours : Block)
        → check env c b ≡ ok (fork, s)
        → get_block env.host (signed c s) b.index ≡ some ours
        → is_better_than b ours ≡ none
        → Stops c bucket b panic

  -- A run that ends keeps the node and has the property; it stops only where it is said to.
  abbrev pub Kept :
      {A : Type 0}
      → (Run (BlockQuality × SignersCache) → Type 0)
      → (Network → Type 0)
      → Run (Network × A)
      → Type 0
  Kept Stop P (ok (n, a)) = IsNode n × P n
  Kept Stop P (quit q s) = ⊥
  Kept Stop P panic = Stop panic
  Kept Stop P endless = Stop endless

  -- A good block: the chain grows by it, and by the blocks of the bucket that follow it.
  abbrev pub Grown : Network → Chain → (next : ℕ) → Run Network → Type 0
  Grown n c next (ok n') =
      IsNode n' × (get_height n.chain + 1 ≤ get_height n'.chain) × (n'.peers ≡ n.peers)
  Grown n c next (quit q s) = ⊥
  Grown n c next panic = EndsAs env c n.future_blocks next panic
  Grown n c next endless = EndsAs env c n.future_blocks next endless

  abbrev SamePeers : Network → Network → Type 0
  SamePeers n n' = n'.peers ≡ n.peers

  after_loop :
      (n : Network) (c : Chain) (next max_height : ℕ) (r : Run (Chain × List (ℕ × Block)))
      → get_height c ≡ get_height n.chain + 1
      → LoopDone env c n.future_blocks next r
      → Grown n c next (
          r >>= λ (c, bucket). ok (record n {
            chain = c;
            future_blocks = if get_height c == max_height then [] else bucket;
          }))
  after_loop n c next max_height (ok (c', bucket)) grown (chain, all, high, none_left) =
      elim (Bool-cases (get_height c' == max_height)) [
        | inl e ↦ rw e ((chain, tt), omega (arith, grown, high), refl)
        | inr e ↦ rw e ((chain, all), omega (arith, grown, high), refl)
      ]
  after_loop n c next max_height (quit q s) grown d = absurd d
  after_loop n c next max_height panic grown d = d
  after_loop n c next max_height endless grown d = d

  pub take_good-Grown :
      (n : Network) (b : Block) (max_height : ℕ) (s : SignersCache)
      → IsNode n
      → InRange b
      → check env n.chain b ≡ ok (good, s)
      → (c : Chain) × (add_block env.host (signed n.chain s) b ≡ some c)
        × Grown n c (add64 b.index 1) (take_good env (with_signers env n s) b max_height)
  unfolding take_good
  take_good-Grown n b max_height s (h, all) range checked =
      let (c, added, chain, grown, index) = add_good env n.chain b s h range checked in
      let fuel = suc (length n.future_blocks) in
      let next : add64 b.index 1 ≡ get_height c + 1 = omega (arith, grown, index, range.1) in
      (
        c,
        added,
        rw (take_good, added)
            (after_loop (with_signers env n s) c (add64 b.index 1) max_height
              (future_loop env fuel c n.future_blocks (add64 b.index 1)) grown
              (future_loop-LoopDone env fuel c n.future_blocks (add64 b.index 1) (omega arith) chain
                all next)),
      )

  found_at :
      (c : Chain) (n : ℕ)
      → IsChain c
      → 1 ≤ n
      → n ≤ get_height c
      → (ours : Block) × (get_block env.host c n ≡ some ours)
  unfolding get_block select_block
  found_at c n h starts inside = elim (Option-cases (block_at c n)) [
    | inl x ↦ absurd (ground (arith, h.stored n))
    | inr (r, x) ↦ elim (Option-cases (get_block env.host c n)) [
      | inl none_found ↦ absurd (ground arith)
      | inr found ↦ found
    ]
  ]

  -- The chain is replaced from the fork on, or kept.
  forked_to :
      (n : Network) (b ours : Block) (s : SignersCache) (taken : Bool)
      → IsNode n
      → (c' : Chain) × (replace_block env.host n.chain b ≡ some c') × IsChain c'
      → Kept (Stops n.chain n.future_blocks b) (SamePeers n) (
          if taken
          then (do
            c ← or_panic (replace_block env.host (with_signers env n s).chain b)
            ok (record (with_signers env n s) { chain = c }, State.idle env.now))
          else ok (
            with_signers env n s,
            State.message (env.cbor (Message.block ours.index (env.as_bytes ours))),
          ))
  unfolding replace_block
  forked_to n b ours s true (h, all) (c', replaced, chain) = rw replaced ((chain, all), refl)
  forked_to n b ours s false (h, all) r = ((IsChain-signed n.chain s h, all), refl)

  take_fork-Kept :
      (n : Network) (b : Block) (max_height : ℕ) (s : SignersCache)
      → IsNode n
      → InRange b
      → check env n.chain b ≡ ok (fork, s)
      → Kept
          (Stops n.chain n.future_blocks b)
          (SamePeers n)
          (take_fork env (with_signers env n s) b max_height)
  unfolding take_fork
  take_fork-Kept n b max_height s (h, all) range checked =
      let verdict = check-quit env n.chain b fork s checked in
      let low = inside env.host env.utc env.fuel n.chain b env.wrong_hashes s h range.0 verdict in
      let (ours, found) =
        found_at (signed n.chain s) b.index (IsChain-signed n.chain s h) range.0 low in
      let (c', replaced, chain, _, _) =
        replace_block-IsChain env.host env.utc env.fuel n.chain b env.wrong_hashes s h range.0
          verdict in
      elim (Option-cases (is_better_than b ours)) [
        | inl panics ↦ rw (take_fork, found) (rw panics (in_comparison s ours checked found panics))
        | inr (better, e) ↦
            rw (take_fork, found)
              (rw e (
                forked_to n b ours s
                  (better
                    || (b.index == get_height n.chain
                        && leb (add64 b.index limited_confidence_depth) max_height))
                  (h, all) (c', replaced, chain)))
      ]

  good_result :
      (n : Network) (b : Block) (c : Chain) (s : SignersCache) (r : Run Network)
      → check env n.chain b ≡ ok (good, s)
      → add_block env.host (signed n.chain s) b ≡ some c
      → Grown n c (add64 b.index 1) r
      → Kept
          (Stops n.chain n.future_blocks b)
          (SamePeers n)
          (r >>= λ n'. ok (n', State.idle env.now))
  good_result n b c s (ok n') checked added (h, high, same) = (h, same)
  good_result n b c s (quit q _) checked added h = absurd h
  good_result n b c s panic checked added h = in_loop panic s c checked added h
  good_result n b c s endless checked added h = in_loop endless s c checked added h

  by_quality-Kept :
      (n : Network) (b : Block) (max_height : ℕ) (q : BlockQuality) (s : SignersCache)
      → IsNode n
      → InRange b
      → check env n.chain b ≡ ok (q, s)
      → Kept
          (Stops n.chain n.future_blocks b)
          (SamePeers n)
          (by_quality env (with_signers env n s) b max_height q)
  unfolding by_quality
  by_quality-Kept n b max_height good s h range checked =
      let (c, added, grown) = take_good-Grown n b max_height s h range checked in
      good_result n b c s (take_good env (with_signers env n s) b max_height) checked added grown
  by_quality-Kept n b max_height twin s (h, all) range checked =
      ((IsChain-signed n.chain s h, all), refl)
  by_quality-Kept n b max_height future s (h, all) range checked = (
    (
      IsChain-signed n.chain s h,
      AllKeys-put_key same_index (λ index b. (index ≡ b.index) × InRange b) n.future_blocks b.index
          b all (λ k same. (ground arith, range)) (refl, range),
    ),
    refl,
  )
  by_quality-Kept n b max_height bad s (h, all) range checked =
      elim (Bool-cases (add64 (get_height n.chain) 1 == b.index)) [
        | inl e ↦ rw e (
          (
            IsChain-max_height (signed n.chain s) (get_height n.chain) (IsChain-signed n.chain s h),
            all,
          ),
          refl,
        )
        | inr e ↦ rw e ((IsChain-signed n.chain s h, all), refl)
      ]
  by_quality-Kept n b max_height rewind s (h, all) range checked =
      ((IsChain-signed n.chain s h, all), refl)
  by_quality-Kept n b max_height fork s h range checked =
      take_fork-Kept n b max_height s h range checked

  after_verdict :
      (n : Network) (b : Block)
      → IsNode n
      → InRange b
      → (r : Run (BlockQuality × SignersCache)) → check env n.chain b ≡ r
      → Kept
          (Stops n.chain n.future_blocks b)
          (SamePeers n)
          (r >>= λ (q, s). by_quality env (with_signers env n s) b n.chain.max_height q)
  after_verdict n b h range (ok (q, s)) checked =
      by_quality-Kept n b n.chain.max_height q s h range checked
  after_verdict n b h range (quit q s) checked = absurd (check-ne-quit env n.chain b q s checked)
  after_verdict n b h range panic checked = in_check panic checked
  after_verdict n b h range endless checked = in_check endless checked

  still-Has :
      (Stop : Run (BlockQuality × SignersCache) → Type 0) (token : ℕ) (n : Network)
      → Has n token
      → {A : Type 0} (r : Run (Network × A)) → Kept Stop (SamePeers n) r
      → Kept Stop (λ n'. Has n' token) r
  still-Has Stop token n (p, found) (ok (n', a)) (h, same) =
      (h, (p, ap (λ t. get_peer t token) same ∙ found))
  still-Has Stop token n found (quit q s) h = absurd h
  still-Has Stop token n found panic h = h
  still-Has Stop token n found endless h = h

  -- Whatever block arrives from a peer of the table, its index at least 1 and below 2 ^ 63 - 1: the
  -- chain is a chain afterwards, the future blocks stand under their indices, and the table still
  -- has the peer. A panic or an endless run is one of the check of the block, of the check of a future
  -- block that follows it when it is good, or, when it is a fork, a panic of its comparison with the block at
  -- its index.
  pub handle_block-Kept :
      (n : Network) (token : ℕ) (b : Block)
      → IsNode n
      → InRange b
      → Has n token
      → Kept (Stops n.chain n.future_blocks b) (λ n'. Has n' token) (handle_block env n token b)
  unfolding handle_block
  handle_block-Kept n token b h range (p, found) =
      let f : Peer → Peer = λ p. record p { received_block = b.index } in
      let seen = record n { seen_blocks = b.hash ∷ n.seen_blocks } in
      let n1 = with_peer seen token (f p) in
      rw (handle_block, change_peer-found seen token f p found)
        (still-Has (Stops n.chain n.future_blocks b) token n1
          (f p, get_peer-with_peer seen token (f p))
          (check env n.chain b >>= λ (q, s).
            by_quality env (with_signers env n1 s) b n.chain.max_height q)
          (after_verdict n1 b h range (check env n.chain b) refl))
