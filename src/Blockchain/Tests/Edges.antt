-- ===== src/Blockchain/Tests/Edges.antt =====
-- Rival blocks, the choice of signers, and blocks at the edges of the checks.
use ruvname.Prelude.{
  ℕ, zero, suc, ◌≡◌, ◌≢◌, refl, pos, true, none, some, List, [], ◌∷◌, arith, length,
}
use ruvname.Bytes.{Bytes}
use ruvname.Blockchain.Constants.{block_signers_all}
use ruvname.Blockchain.Block.{Block, good, bad, hash_weight, is_better_than}
use ruvname.Blockchain.Block.Better.{is_better_than_asymm, is_better_than_both}
use ruvname.Blockchain.Table.{BlockRow, row_of_block, block_of_row, count_user_blocks}
use ruvname.Blockchain.Chain.{Chain, SignersCache, no_signers, get_last_full_block, has_signers_for}
use ruvname.Blockchain.Chain.Signers.{ok, quit, panic, endless, get_block_signers}
use ruvname.Blockchain.Chain.Signers.Chosen.{IsDraw, get_block_signers-chosen}
use ruvname.Blockchain.Chain.Signers.Endless.{get_block_signers-endless}
use ruvname.Blockchain.Chain.Check.{check_link, check_block, check_new_block}
use ruvname.Blockchain.Chain.Check.Edges.{
  check_new_block_zero, check_block_short_hash, check_link_mismatch,
}
use ruvname.Blockchain.Chain.Update.{replace_block}
use ruvname.Blockchain.Chain.Update.Growth.{block_at}
use ruvname.Blockchain.Chain.Update.Stale.{replace_block_stale}
use ruvname.Blockchain.Samples.{
  host, genesis, second, rival, one_block, one_block-IsChain, check_runs,
}

abbrev heavy_empty : Block
heavy_empty = record rival { transaction = none; nonce = 3 }

abbrev light_full : Block
light_full = record genesis { hash = 1 ∷ 0 ∷ 0 ∷ 0 ∷ 0 ∷ 0 ∷ 0 ∷ 1 ∷ [] }

light_better : is_better_than genesis light_full ≡ some true
unfolding is_better_than hash_weight check_runs
light_better = refl

is_better_than_asymm_example : is_better_than light_full genesis ≢ some true
is_better_than_asymm_example = is_better_than_asymm genesis light_full refl light_better

is_better_than_both_example :
    (is_better_than light_full heavy_empty ≡ some true)
    × (is_better_than heavy_empty light_full ≡ some true)
unfolding check_runs hash_weight
is_better_than_both_example =
    is_better_than_both light_full heavy_empty 917761 12582912 refl refl refl refl (omega arith)

-- 40 blocks of as many keys; block 36 is full.
abbrev rows : ℕ → List BlockRow
rows zero = []
rows (suc n) = row_of_block host (record genesis { index = suc n; pub_key = suc n ∷ [] }) ∷ rows n

abbrev full_block : Block
full_block = record second {
  index = 36;
  pub_key = 36 ∷ [];
  signature = 0 ∷ 0 ∷ 0 ∷ 0 ∷ 0 ∷ 0 ∷ 0 ∷ 1 ∷ [];
}

abbrev forty : Chain
forty = record one_block {
  last_block = some (record genesis { index = 40 });
  db = record { blocks = rows 40; domains = [] };
}

abbrev chosen : List Bytes
chosen = (2 ∷ []) ∷ (3 ∷ []) ∷ (4 ∷ []) ∷ (5 ∷ []) ∷ (6 ∷ []) ∷ (7 ∷ []) ∷ (8 ∷ []) ∷ []

abbrev cached : SignersCache
cached = record { index = 36; signers = chosen }

forty-chosen : get_block_signers host forty full_block 10 ≡ ok (chosen, cached)
unfolding get_block_signers check_runs has_signers_for count_user_blocks
forty-chosen = refl

get_block_signers-chosen_example :
    IsDraw (36 ∷ []) chosen × (length chosen ≡ block_signers_all) × (cached ≡ cached)
get_block_signers-chosen_example =
    get_block_signers-chosen host forty full_block 10 chosen cached (omega arith) (omega arith)
      (unfold has_signers_for in refl) forty-chosen

-- One key has mined the whole chain.
abbrev lonely : Chain
lonely = record one_block { last_block = some (record genesis { index = 40 }) }

abbrev lonely_full : Block
lonely_full = record full_block { pub_key = 1 ∷ [] }

get_block_signers-endless_example : get_block_signers host lonely lonely_full 1000 ≡ endless
unfolding check_runs
get_block_signers-endless_example =
    get_block_signers-endless host lonely lonely_full [] (omega arith) (λ n x e ne. ground arith)
      1000 1 (omega arith) (omega arith) refl (unfold has_signers_for in refl) refl

abbrev zero_block : Block
zero_block = record genesis { index = 0; transaction = none }

check_new_block_zero_example :
    check_new_block host (pos 86400) 10 one_block zero_block [] ≡ quit good no_signers
check_new_block_zero_example =
    check_new_block_zero host (pos 86400) 10 one_block zero_block [] genesis one_block-IsChain refl
      refl refl (unfold check_runs in refl) (unfold check_runs in refl)

abbrev short_block : Block
short_block = record second { hash = 1 ∷ 2 ∷ [] }

check_block_short_hash_example :
    check_block host (pos 86400) 10 one_block short_block [] (some genesis) (some genesis) ≡ panic
check_block_short_hash_example =
    check_block_short_hash host (pos 86400) 10 one_block short_block [] (some genesis)
      (some genesis) (omega arith) (unfold check_runs in omega arith) (unfold check_runs in refl)

check_link_mismatch_example :
    check_link host (pos 86400) 10 one_block (record second { prev_block_hash = [] })
    ≡ quit bad no_signers
check_link_mismatch_example =
    check_link_mismatch host (pos 86400) 10 one_block (record second { prev_block_hash = [] })
      (block_of_row host (row_of_block host genesis)) (unfold check_runs in refl)
      (unfold check_runs in refl) (omega arith) (omega arith)

abbrev empty_fork : Block
empty_fork = record rival { transaction = none }

replace_block_stale_example :
    (c' : Chain) × (replace_block host one_block empty_fork ≡ some c')
    × (block_at c' 1 ≡ some (row_of_block host empty_fork))
    × (get_last_full_block host c' 9 none ≡ some genesis)
replace_block_stale_example =
    replace_block_stale host one_block empty_fork genesis 9 refl refl refl (omega arith)
