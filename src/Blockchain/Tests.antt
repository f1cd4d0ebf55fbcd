-- ===== src/Blockchain/Tests.antt =====
-- Runs of the checks and the updates, and the theorems on them at inputs that meet their hypotheses.
mod Edges
mod Filter
use ruvname.Prelude.{
  ℕ, zero, suc, ◌+◌, ◌-◌, ◌*◌, ◌^◌, ◌≤◌, ◌<◌, ◌≡◌, ◌≢◌, ◌⊎◌, ◌↔◌, inl, inr, refl, ap, ℤ, pos,
  negsuc, ◌+ℤ◌, ◌-ℤ◌, ◌≤ℤ◌, ◌<ℤ◌, Bool, true, false, Option, none, some, List, [], ◌∷◌, arith,
  is_some, sub64, if◌then◌else◌, length, ◌==◌, leb, ◌&&◌, ltb, replicate,
}
use ruvname.Bytes.{
  Bytes, codes, is_empty, same_hash, hash_difficulty, head_u64, get_tail_u64, key_hash_difficulty,
  is_zero, leading_zeros, trailing_zeros,
}
use ruvname.Dns.Record.{DnsRecord}
use ruvname.Blockchain.Constants.{
  class_domain, class_origin, domain_lifetime, one_week, block_signers_all, domain_difficulty,
}
use ruvname.Blockchain.Block.{
  Transaction, DomainData, ZoneData, Block, Host, good, fork, alive, hash_weight, is_better_than,
  is_genesis, get_type, check_block_hash, check_block_signature, check_public_key_strength,
  get_domain_data,
}
use ruvname.Blockchain.Block.Better.{
  is_better_than_asymm, is_better_than_both, is_better_than_total,
}
use ruvname.Blockchain.Table.{
  BlockRow, DomainRow, Db, empty_db, id_lt, by_id, last_by, insert, delete_from, row_of_block,
  block_of_row, select_block, select_domain, select_last_full_block, truncate_db_from_block,
  add_block_to_table, insert_domain, transaction_of_row, count_user_blocks,
}
use ruvname.Blockchain.Chain.{
  Chain, SignersCache, no_signers, get_height, get_block, state_at, is_id_available,
  get_last_full_block, is_domain_in_blockchain, get_domain_update_time,
  get_difficulty_for_transaction, can_mine_identity, has_signers_for,
}
use ruvname.Blockchain.Chain.Domains.{CanTake, is_id_available_iff}
use ruvname.Blockchain.Chain.Discount.{
  get_difficulty_for_transaction_bounds, get_difficulty_for_transaction_wraps,
}
use ruvname.Blockchain.Chain.Signers.{
  Run, ok, quit, panic, endless, ◌>>=◌, ◌>>◌, mem, get_block_signers,
}
use ruvname.Blockchain.Chain.Signers.Chosen.{IsDraw, get_block_signers-chosen}
use ruvname.Blockchain.Chain.Signers.Endless.{get_block_signers-endless}
use ruvname.Blockchain.Chain.Check.{
  check_arrival, check_work, check_link, check_transaction, check_position, check_block,
  check_new_block, needed_difficulty,
}
use ruvname.Blockchain.Chain.Check.Stages.{HasWork}
use ruvname.Blockchain.Chain.Check.Accepted.{
  check_block-good, check_block-owner, check_block-cooldown,
}
use ruvname.Blockchain.Chain.Check.Edges.{
  check_new_block_zero, check_block_short_hash, check_link_mismatch,
}
use ruvname.Blockchain.Chain.Update.{add_block, replace_block}
use ruvname.Blockchain.Chain.Update.Growth.{block_at, IsChain}
use ruvname.Blockchain.Chain.Update.Accepted.{add_block-IsChain}
use ruvname.Blockchain.Chain.Update.Replaced.{replace_block-IsChain}
use ruvname.Blockchain.Chain.Update.Unseen.{is_id_available-add_block}
use ruvname.Blockchain.Chain.Update.Stale.{replace_block_stale}
use ruvname.Blockchain.Samples.{
  two_blocks, two_owned, thief, renewal, host, register, work_hash, genesis, second, rival,
  no_chain, one_block, owned, late, one_block-IsChain, check_runs, start_of_chain, domain_data,
}

second_good : check_new_block host (pos 86400) 10 one_block second [] ≡ quit good no_signers
unfolding check_runs
second_good = refl

rival_fork : check_new_block host (pos 86400) 10 one_block rival [] ≡ quit fork no_signers
unfolding check_runs
rival_fork = refl

add_block-IsChain_example :
    (c' : Chain) × (add_block host one_block second ≡ some c')
    × IsChain c'
    × (get_height c' ≡ 1 + 1)
    × (c'.last_block ≡ some second)
add_block-IsChain_example =
    add_block-IsChain host (pos 86400) 10 one_block second [] no_signers one_block-IsChain
      (omega arith) (omega arith) second_good

replace_block-IsChain_example :
    (c' : Chain) × (replace_block host one_block rival ≡ some c')
    × IsChain c'
    × (c'.last_block ≡ some rival)
    × ((n : ℕ) → n < 1 → block_at c' n ≡ block_at one_block n)
replace_block-IsChain_example =
    replace_block-IsChain host (pos 86400) 10 one_block rival [] no_signers one_block-IsChain
      (omega arith) rival_fork

check_block-second :
    check_block host (pos 86400) 10 one_block second [] (some genesis) (some genesis)
    ≡ quit good no_signers
unfolding check_runs
check_block-second = refl

check_block-good_example :
    (1 ≤ 1)
    × (mem work_hash [] ≡ false)
    × (pos 86400 ≤ℤ pos 86400 +ℤ pos 60)
    × HasWork host (pos 86400) one_block second
    × ((prev : Block) → get_block host one_block (sub64 2 1) ≡ some prev → work_hash ≡ prev.hash)
check_block-good_example =
    check_block-good host (pos 86400) 10 one_block second [] (some genesis) (some genesis)
      no_signers check_block-second

check_block-renewal :
    check_block host (pos 86400) 10 two_owned renewal [] (some second) (some genesis)
    ≡ quit good no_signers
unfolding check_runs
check_block-renewal = refl

check_block-owner_example :
    CanTake (select_domain two_owned.db (7 ∷ []) (sub64 3 1)) (pos 86400) (1 ∷ [])
check_block-owner_example =
    check_block-owner host (pos 86400) 10 two_owned renewal [] (some second) (some genesis)
      no_signers check_block-renewal register refl

-- The row that the owner is looked up in.
renewal-row : is_some (select_domain two_owned.db (7 ∷ []) (sub64 3 1)) ≡ true
unfolding check_runs
renewal-row = refl

add_block-second : add_block host one_block second ≡ some two_blocks
unfolding check_runs add_block add_block_to_table insert insert_domain
add_block-second = refl

-- Another key takes the identity that the block before has registered.
thief_good : check_new_block host (pos 86400) 10 two_blocks thief [] ≡ quit good no_signers
unfolding check_runs
thief_good = refl

is_id_available-add_block_example :
    is_id_available two_blocks (sub64 3 1) (pos 86400) (7 ∷ []) (2 ∷ [])
    ≡ is_id_available one_block (sub64 3 1) (pos 86400) (7 ∷ []) (2 ∷ [])
is_id_available-add_block_example =
    is_id_available-add_block host one_block two_blocks second thief (pos 86400) (7 ∷ []) (2 ∷ [])
      add_block-second (omega arith) (omega arith)

check_block-cooldown_example : pos 0 +ℤ pos 86400 ≤ℤ pos 86400
check_block-cooldown_example =
    check_block-cooldown host (pos 86400) 10 one_block second [] (some genesis) (some genesis)
      no_signers check_block-second register genesis refl (unfold check_runs in refl)
      (unfold check_runs in refl)

is_id_available-owned : is_id_available owned 2 (pos 5) (7 ∷ []) (2 ∷ []) ≡ false
unfolding check_runs
is_id_available-owned = refl

is_id_available_iff_example :
    (is_id_available owned 2 (pos 5) (7 ∷ []) (1 ∷ []) ≡ true)
    ↔ CanTake (select_domain owned.db (7 ∷ []) 2) (pos 5) (1 ∷ [])
is_id_available_iff_example = is_id_available_iff owned 2 (pos 5) (7 ∷ []) (1 ∷ [])

get_difficulty_for_transaction_bounds_example :
    (16 ≤ get_difficulty_for_transaction host owned register 2 (pos 10))
    × (get_difficulty_for_transaction host owned register 2 (pos 10) ≤ domain_difficulty)
get_difficulty_for_transaction_bounds_example =
    get_difficulty_for_transaction_bounds host owned register 2 (pos 10) (unfold check_runs in refl)
      refl (unfold check_runs in λ timestamp e. ground arith)

get_difficulty_for_transaction_wraps_example :
    get_difficulty_for_transaction host late register 2 (pos 0) ≡ 0
get_difficulty_for_transaction_wraps_example =
    get_difficulty_for_transaction_wraps host late register 2 (pos 0)
      (pos ((2 ^ 32 - 23) * one_week)) (unfold check_runs in refl) refl (omega arith)
      (unfold check_runs in refl) (unfold check_runs in refl)
