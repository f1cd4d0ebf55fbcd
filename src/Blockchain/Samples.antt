-- ===== src/Blockchain/Samples.antt =====
-- A toy host, and concrete blocks and chains for the tests.
use ruvname.Prelude.{
  ◌-◌, ◌*◌, ◌^◌, pos, ◌+ℤ◌, ◌-ℤ◌, true, false, none, some, [], ◌∷◌, arith, if◌then◌else◌, replicate,
}
use ruvname.Bytes.{
  Bytes, codes, is_empty, same_hash, hash_difficulty, head_u64, get_tail_u64, key_hash_difficulty,
  leading_zeros, trailing_zeros,
}
use ruvname.Blockchain.Constants.{class_domain, class_origin, one_week}
use ruvname.Blockchain.Block.{
  Transaction, DomainData, Block, Host, check_block_hash, check_block_signature,
  check_public_key_strength, get_domain_data,
}
use ruvname.Blockchain.Table.{
  empty_db, row_of_transaction, id_lt, by_id, last_by, row_of_block, block_of_row, select_block,
  select_domain, select_last_full_block,
}
use ruvname.Blockchain.Chain.{
  Chain, no_signers, get_block, state_at, is_id_available, get_last_full_block,
  is_domain_in_blockchain, get_domain_update_time, get_difficulty_for_transaction,
  can_mine_identity,
}
use ruvname.Blockchain.Chain.Signers.{Run, mem}
use ruvname.Blockchain.Chain.Check.{
  check_arrival, check_work, check_link, check_transaction, check_position, check_block,
  check_new_block, needed_difficulty,
}
use ruvname.Blockchain.Chain.Update.Growth.{IsChain}

abbrev pub work_hash : Bytes
work_hash = replicate 8 0

abbrev pub domain_data : DomainData
domain_data = record { encrypted = []; zone = codes "ruv"; info = []; records = []; contacts = [] }

abbrev pub register : Transaction
register = record {
  class = class_domain;
  identity = 7 ∷ [];
  confirmation = 8 ∷ [];
  signing = [];
  encryption = [];
  payload = [];
}

abbrev pub start_of_chain : Transaction
start_of_chain = record register { class = class_origin; identity = []; confirmation = [] }

-- Hashes that are all zero, signatures that are all good, and a JSON of one text for each class.
abbrev pub host : Host
host = record {
  blakeout_data = λ bytes. work_hash;
  hash_sha256 = λ bytes. bytes;
  as_bytes_compact = λ b. [];
  keystore_check = λ message key signature. true;
  parse_domain_data = λ text. some domain_data;
  to_json = λ t. t.class;
  from_json = λ text. if is_empty text then none else some register;
}

abbrev pub genesis : Block
genesis = record {
  index = 1;
  timestamp = pos 0;
  version = 1;
  difficulty = 28;
  random = 0;
  nonce = 0;
  hash = work_hash;
  prev_block_hash = [];
  pub_key = 1 ∷ [];
  signature = work_hash;
  transaction = some start_of_chain;
  hash_good = false;
}

abbrev pub second : Block
second = record genesis {
  index = 2;
  timestamp = pos 86400;
  prev_block_hash = work_hash;
  transaction = some register;
}

abbrev pub no_chain : Chain
no_chain = record {
  origin = work_hash;
  last_block = none;
  last_full_block = none;
  max_height = 0;
  db = empty_db;
  zones = [];
  signers = no_signers;
}

abbrev pub one_block : Chain
one_block = record no_chain {
  last_block = some genesis;
  last_full_block = some genesis;
  db = record { blocks = row_of_block host genesis ∷ []; domains = [] };
}

pub no_chain-IsChain : IsChain no_chain
unfolding by_id
no_chain-IsChain = record {
  bounded = omega arith;
  stored = λ n. ground arith;
  linked = λ n r next e f. cc;
  domains_below = λ n e. cc;
  last_starts = λ l e. cc;
  last_hash = λ l r e f. cc;
}

pub one_block-IsChain : IsChain one_block
unfolding by_id row_of_block
one_block-IsChain = record {
  bounded = omega arith;
  stored = λ n. ground arith;
  linked = λ n r next e f. ground arith;
  domains_below = λ n e. cc;
  last_starts = λ l e. ground arith;
  last_hash = λ l r e f. ground arith;
}

-- `check_new_block` at noon of the second day, with all that it calls.
unfoldable pub check_runs : Chain → Block → Run (Unit {0})
unfolding check_new_block check_block check_arrival check_work check_link check_transaction
    check_position needed_difficulty get_difficulty_for_transaction get_domain_update_time
    select_domain last_by hash_difficulty head_u64 get_tail_u64 leading_zeros trailing_zeros
    check_block_hash check_block_signature check_public_key_strength key_hash_difficulty same_hash
    get_block select_block by_id row_of_block block_of_row is_id_available can_mine_identity
    get_last_full_block is_domain_in_blockchain select_last_full_block get_domain_data ◌+ℤ◌ ◌-ℤ◌ mem
    state_at id_lt
check_runs c b = check_new_block host (pos 86400) 10 c b []

-- A rival first block, whose hash is known to be good.
abbrev pub rival : Block
rival = record genesis { hash = replicate 9 0; hash_good = true }

-- A domain of key 1, renewed at second 0 in block 1.
abbrev pub owned : Chain
owned = record one_block {
  db = record one_block.db {
    domains =
        record {
          id = 1;
          timestamp = pos 0;
          identity = 7 ∷ [];
          confirmation = [];
          payload = [];
          signing = 1 ∷ [];
          encryption = [];
        }
        ∷ [];
  };
}

-- The second block on the first one.
abbrev pub two_blocks : Chain
two_blocks = record one_block {
  last_block = some second;
  last_full_block = some second;
  db = record {
    blocks = row_of_block host second ∷ row_of_block host genesis ∷ [];
    domains = row_of_transaction 2 (pos 86400) (record register { signing = 1 ∷ [] }) ∷ [];
  };
}

-- A block of another key on top of it, with the identity that the second block has registered.
abbrev pub thief : Block
thief = record second { index = 3; pub_key = 2 ∷ [] }

-- Two blocks, of which the first has registered the identity, and its renewal by the owner.
abbrev pub two_owned : Chain
two_owned = record two_blocks { db = record two_blocks.db { domains = owned.db.domains } }

abbrev pub renewal : Block
renewal = record second { index = 3 }

-- The same domain renewed (2 ^ 32 - 23) weeks later, in a long chain.
abbrev pub late : Chain
late = record owned {
  last_block = some (record genesis { index = 5000 });
  db = record owned.db {
    domains =
        record {
          id = 1;
          timestamp = pos ((2 ^ 32 - 23) * one_week);
          identity = 7 ∷ [];
          confirmation = [];
          payload = [];
          signing = 1 ∷ [];
          encryption = [];
        }
        ∷ [];
  };
}
