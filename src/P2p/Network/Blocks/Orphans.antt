-- ===== src/P2p/Network/Blocks/Orphans.antt =====
-- src/p2p/network.rs: what `handle_block` makes of the chain and of the bucket of future blocks.
use ruvname.Prelude.{
  ℕ, zero, suc, ◌+◌, ◌-◌, ◌^◌, ◌<◌, ◌≤◌, ◌≡◌, ◌≢◌, refl, sym, ◌∙◌, ap, inl, inr, none, some, List,
  length, get_key, remove_key, add64, AllKeys, AllKeys-get_key, AllKeys-remove_key,
  get_key-remove_key, length-remove_key, Option-cases, arith,
}
use ruvname.Blockchain.Block.{Block, BlockQuality, good, twin, future, rewind, bad, fork}
use ruvname.Blockchain.Chain.{Chain, SignersCache, get_height}
use ruvname.Blockchain.Chain.Signers.{Run, ok, quit, panic, endless, ◌>>=◌}
use ruvname.Blockchain.Chain.Check.{check_new_block}
use ruvname.Blockchain.Chain.Update.{add_block}
use ruvname.Blockchain.Chain.Update.Growth.{IsChain}
use ruvname.Blockchain.Chain.Update.Adding.{add_block-Follows}
use ruvname.Blockchain.Chain.Update.Accepted.{follows, has_class}
use ruvname.P2p.Network.{Env}
use ruvname.P2p.Network.Blocks.{same_index, verdict, check, add_if_good, loop_step, future_loop}

-- An index that a chain can have.
abbrev pub InRange : Block → Type 0
InRange b = (1 ≤ b.index) × (b.index < 2 ^ 63 - 1)

-- A future block stands under its index.
abbrev pub IsBucket : List (ℕ × Block) → Type 0
IsBucket = AllKeys same_index (λ index b. (index ≡ b.index) × InRange b)

abbrev pub signed : Chain → SignersCache → Chain
signed c s = record c { signers = s }

pub IsChain-signed : (c : Chain) (s : SignersCache) → IsChain c → IsChain (signed c s)
IsChain-signed c s h = record {
  bounded = h.bounded;
  stored = h.stored;
  linked = h.linked;
  domains_below = h.domains_below;
  last_starts = h.last_starts;
  last_hash = h.last_hash;
}

verdict-quit :
    (r : Run (Unit {0})) (q : BlockQuality) (s : SignersCache)
    → verdict r ≡ ok (q, s)
    → r ≡ quit q s
verdict-quit (ok u) q s h = cc
verdict-quit (quit q' s') q s h = cc
verdict-quit panic q s h = cc
verdict-quit endless q s h = cc

verdict-ne-quit : (r : Run (Unit {0})) (q : BlockQuality) (s : SignersCache) → verdict r ≢ quit q s
verdict-ne-quit (ok u) q s h = cc
verdict-ne-quit (quit q' s') q s h = cc
verdict-ne-quit panic q s h = cc
verdict-ne-quit endless q s h = cc

module _ (env : Env) where
  pub check-quit :
      (c : Chain) (b : Block) (q : BlockQuality) (s : SignersCache)
      → check env c b ≡ ok (q, s)
      → check_new_block env.host env.utc env.fuel c b env.wrong_hashes ≡ quit q s
  unfolding check
  check-quit c b q s h =
      verdict-quit (check_new_block env.host env.utc env.fuel c b env.wrong_hashes) q s h

  pub check-ne-quit :
      (c : Chain) (b : Block) (q : BlockQuality) (s : SignersCache) → check env c b ≢ quit q s
  unfolding check
  check-ne-quit c b q s h =
      verdict-ne-quit (check_new_block env.host env.utc env.fuel c b env.wrong_hashes) q s h

  -- A block with a good verdict is added, and the chain grows by it.
  pub add_good :
      (c : Chain) (b : Block) (s : SignersCache)
      → IsChain c
      → InRange b
      → check env c b ≡ ok (good, s)
      → (c' : Chain) × (add_block env.host (signed c s) b ≡ some c')
        × IsChain c'
        × (get_height c' ≡ get_height c + 1)
        × (b.index ≡ get_height c + 1)
  add_good c b s h (starts, room) checked =
      let accepted = check-quit c b good s checked in
      let hs = IsChain-signed c s h in
      let f = follows env.host env.utc env.fuel c b env.wrong_hashes s h starts room accepted in
      let (c', added, chain, grown, _, _) =
        add_block-Follows env.host (signed c s) b hs f
          (has_class env.host env.utc env.fuel c b env.wrong_hashes s h starts room accepted) in
      (c', added, chain, grown, f.0)

  -- The loop over the future blocks from an index on comes to the check of a block on a chain: the first
  -- block, or a later one, when all blocks before it were good and were added.
  pub data Visits : Chain → List (ℕ × Block) → (next : ℕ) → Chain → Block → Type 0 where
    here :
        (c : Chain) (bucket : List (ℕ × Block)) (next : ℕ) (b : Block)
        → get_key same_index bucket next ≡ some b
        → Visits c bucket next c b
    later :
        (c c' end : Chain) (bucket : List (ℕ × Block)) (next : ℕ) (b last : Block)
        (s : SignersCache)
        → get_key same_index bucket next ≡ some b
        → check env c b ≡ ok (good, s)
        → add_block env.host (signed c s) b ≡ some c'
        → Visits c' (remove_key same_index bucket next) (add64 next 1) end last
        → Visits c bucket next end last

  -- The loop ends as the check of a block that it comes to.
  abbrev pub EndsAs :
      Chain → List (ℕ × Block) → (next : ℕ) → Run (BlockQuality × SignersCache) → Type 0
  EndsAs c bucket next r =
      (end : Chain) × (last : Block) × Visits c bucket next end last × (check env end last ≡ r)

  -- How the loop over future blocks ends: with a chain that is no shorter, and a bucket without the
  -- block that comes next; or as the check of a block that it comes to ends, without a verdict.
  abbrev pub LoopDone :
      Chain → List (ℕ × Block) → (next : ℕ) → Run (Chain × List (ℕ × Block)) → Type 0
  LoopDone c bucket next (ok (c', bucket')) =
      IsChain c'
      × IsBucket bucket'
      × (get_height c ≤ get_height c')
      × (get_key same_index bucket' (get_height c' + 1) ≡ none)
  LoopDone c bucket next (quit q s) = ⊥
  LoopDone c bucket next panic = EndsAs c bucket next panic
  LoopDone c bucket next endless = EndsAs c bucket next endless

  IsBucket-found :
      (bucket : List (ℕ × Block)) (next : ℕ) (b : Block)
      → IsBucket bucket
      → get_key same_index bucket next ≡ some b
      → (b.index ≡ next) × InRange b
  IsBucket-found bucket next b all found =
      let (k, same, (index, range)) =
        AllKeys-get_key same_index (λ index b. (index ≡ b.index) × InRange b) bucket next b all
          found in
      (ground arith, range)

  pub IsBucket-remove :
      (bucket : List (ℕ × Block)) (next : ℕ)
      → IsBucket bucket
      → IsBucket (remove_key same_index bucket next)
  IsBucket-remove bucket next all =
      AllKeys-remove_key same_index (λ index b. (index ≡ b.index) × InRange b) bucket next all

  -- What a step of the loop does with a verdict that is not good.
  stopped :
      (c : Chain) (s : SignersCache) (bucket : List (ℕ × Block)) (next : ℕ)
      → IsChain c
      → IsBucket bucket
      → next ≡ get_height c + 1
      → LoopDone c bucket next (ok (signed c s, remove_key same_index bucket next))
  stopped c s bucket next h all e = (
    IsChain-signed c s h,
    IsBucket-remove bucket next all,
    omega arith,
    ap (get_key same_index (remove_key same_index bucket next)) (sym e)
        ∙ get_key-remove_key same_index bucket next,
  )

  module _ (c : Chain) (b : Block) (bucket : List (ℕ × Block)) (next : ℕ) (h : IsChain c)
      (all : IsBucket bucket) (e : next ≡ get_height c + 1) (range : InRange b)
      (found : get_key same_index bucket next ≡ some b) where
    abbrev bucket' : List (ℕ × Block)
    bucket' = remove_key same_index bucket next

    -- What the rounds after a good block do, the loop does from that block on.
    after_good :
        (c' : Chain) (s : SignersCache) (r : Run (Chain × List (ℕ × Block)))
        → check env c b ≡ ok (good, s)
        → add_block env.host (signed c s) b ≡ some c'
        → get_height c ≤ get_height c'
        → LoopDone c' bucket' (add64 next 1) r
        → LoopDone c bucket next r
    after_good c' s (ok (end, left)) checked added le (chain, rest, high, none_left) =
        (chain, rest, omega (arith, high), none_left)
    after_good c' s (quit q _) checked added le d = absurd d
    after_good c' s panic checked added le (end, last, path, stop) =
        (end, last, later c c' end bucket next b last s found checked added path, stop)
    after_good c' s endless checked added le (end, last, path, stop) =
        (end, last, later c c' end bucket next b last s found checked added path, stop)

    -- One round on a block, if the rounds after it are right.
    after_check :
        (go_on : Chain → Run (Chain × List (ℕ × Block)))
        → ((c' : Chain)
            → IsChain c'
            → get_height c' ≡ get_height c + 1
            → LoopDone c' bucket' (add64 next 1) (go_on c'))
        → (r : Run (BlockQuality × SignersCache)) → check env c b ≡ r
        → LoopDone c bucket next (r >>= add_if_good env c b >>= loop_step env go_on bucket')
    after_check go_on rest panic checked = (c, b, here c bucket next b found, checked)
    after_check go_on rest endless checked = (c, b, here c bucket next b found, checked)
    after_check go_on rest (quit q s) checked = absurd (check-ne-quit c b q s checked)
    after_check go_on rest (ok (good, s)) checked =
        let (c', added, chain, grown, _) = add_good c b s h range checked in
        rw added
          (after_good c' s (go_on c') checked added (omega (arith, grown)) (rest c' chain grown))
    after_check go_on rest (ok (twin, s)) checked = stopped c s bucket next h all e
    after_check go_on rest (ok (future, s)) checked = stopped c s bucket next h all e
    after_check go_on rest (ok (rewind, s)) checked = stopped c s bucket next h all e
    after_check go_on rest (ok (bad, s)) checked = stopped c s bucket next h all e
    after_check go_on rest (ok (fork, s)) checked = stopped c s bucket next h all e

  -- With more fuel than there are future blocks, from the index after a well-formed chain on, the loop over
  -- the future blocks ends with a chain that is no shorter and a bucket without the block that comes next;
  -- or as the check of a block of the bucket ends, without a verdict, on the chain that the good blocks
  -- before it make.
  pub future_loop-LoopDone :
      (fuel : ℕ) (c : Chain) (bucket : List (ℕ × Block)) (next : ℕ)
      → length bucket < fuel
      → IsChain c
      → IsBucket bucket
      → next ≡ get_height c + 1
      → LoopDone c bucket next (future_loop env fuel c bucket next)
  unfolding future_loop
  future_loop-LoopDone zero c bucket next enough h all e = absurd (omega arith)
  future_loop-LoopDone (suc n) c bucket next enough h all e =
      elim (Option-cases (get_key same_index bucket next)) [
        | inl none_left ↦
            rw (future_loop, none_left)
              (h, all, omega arith, ap (get_key same_index bucket) (sym e) ∙ none_left)
        | inr (b, found) ↦
            let (index, range) = IsBucket-found bucket next b all found in
            rw (future_loop, found)
              (after_check c b bucket next h all e range found
                (λ c'. future_loop env n c' (remove_key same_index bucket next) (add64 next 1))
                (λ c' chain grown.
                  future_loop-LoopDone n c' (remove_key same_index bucket next) (add64 next 1)
                    (omega (arith, length-remove_key same_index bucket next b found)) chain
                    (IsBucket-remove bucket next all) (omega (arith, grown, range.1, index)))
                (check env c b) refl)
      ]
