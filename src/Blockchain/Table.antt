-- ===== src/Blockchain/Table.antt =====
-- The tables of blocks and domains of src/blockchain/data/create_db.sql and the SQL statements of chain.rs
-- on them, less the list of the domains of a key and the counts of domains and users. A table is
-- the list of its rows; an id is kept as the u64 that was bound, and compared as the i64 that SQLite
-- sees. The primary key makes an INSERT of a present id fail.
pub mod Queries
use ruvname.Prelude.{
  ℕ, zero, ◌+◌, ℤ, as_i64, ltb_ℤ, leb_ℤ, Bool, true, false, not, ◌&&◌, Option, none, some, List, [],
  ◌∷◌, ◌==◌, if◌then◌else◌, filter, length, is_some, leb,
}
use ruvname.Bytes.{Bytes, same_hash, is_empty}
use ruvname.Blockchain.Block.{Block, Transaction, Host}
use ruvname.Blockchain.Constants.{class_domain}

-- `transaction` is the text of the column, empty for none.
pub record BlockRow : Type 0 where
  pub id : ℕ
  pub timestamp : ℤ
  pub version : ℕ
  pub difficulty : ℕ
  pub random : ℕ
  pub nonce : ℕ
  pub transaction : Bytes
  pub prev_block_hash : Bytes
  pub hash : Bytes
  pub pub_key : Bytes
  pub signature : Bytes

pub record DomainRow : Type 0 where
  pub id : ℕ
  pub timestamp : ℤ
  pub identity : Bytes
  pub confirmation : Bytes
  pub payload : Bytes
  pub signing : Bytes
  pub encryption : Bytes

pub record Db : Type 0 where
  pub blocks : List BlockRow
  pub domains : List DomainRow

abbrev pub empty_db : Db
empty_db = record { blocks = []; domains = [] }

-- `a < b` of two bound ids.
unfoldable pub id_lt : ℕ → ℕ → Bool
id_lt a b = ltb_ℤ (as_i64 a) (as_i64 b)

module _ {ℓ} {Row : Type ℓ} (id : Row → ℕ) where
  later : Row → Option Row → Row
  later r none = r
  later r (some best) = if id_lt (id r) (id best) then best else r

  -- `SELECT ... WHERE p ORDER BY id DESC LIMIT 1`.
  unfoldable pub last_by : (Row → Bool) → List Row → Option Row
  unfolding later
  last_by p [] = none
  last_by p (r ∷ rows) = let best = last_by p rows in if p r then some (later r best) else best

  -- `SELECT ... WHERE id = ? LIMIT 1`.
  unfoldable pub by_id : ℕ → List Row → Option Row
  by_id n [] = none
  by_id n (r ∷ rows) = if id r == n then some r else by_id n rows

  -- `INSERT INTO`; `none` is the error of a duplicate key.
  unfoldable pub insert : Row → List Row → Option (List Row)
  insert r rows = if is_some (by_id (id r) rows) then none else some (r ∷ rows)

  -- `DELETE ... WHERE id >= ?`.
  unfoldable pub delete_from : ℕ → List Row → List Row
  delete_from n rows = filter (λ r. id_lt (id r) n) rows

-- SQL_ADD_BLOCK and its bindings.
unfoldable pub row_of_block : Host → Block → BlockRow
row_of_block host b = record {
  id = b.index;
  timestamp = b.timestamp;
  version = b.version;
  difficulty = b.difficulty;
  random = b.random;
  nonce = b.nonce;
  transaction = elim b.transaction [ none ↦ [] | some t ↦ host.to_json t ];
  prev_block_hash = b.prev_block_hash;
  hash = b.hash;
  pub_key = b.pub_key;
  signature = b.signature;
}

-- `get_block_from_statement`: a text that is no transaction reads as none.
unfoldable pub block_of_row : Host → BlockRow → Block
block_of_row host r = record {
  index = r.id;
  timestamp = r.timestamp;
  version = r.version;
  difficulty = r.difficulty;
  random = r.random;
  nonce = r.nonce;
  hash = r.hash;
  prev_block_hash = r.prev_block_hash;
  pub_key = r.pub_key;
  signature = r.signature;
  transaction = host.from_json r.transaction;
  hash_good = false;
}

abbrev pub option_block : Host → Option BlockRow → Option Block
option_block host none = none
option_block host (some r) = some (block_of_row host r)

-- SQL_GET_BLOCK_BY_ID, in `get_block`.
unfoldable pub select_block : Host → Db → ℕ → Option Block
select_block host db index = option_block host (by_id (λ (r : BlockRow). r.id) index db.blocks)

-- SQL_GET_LAST_BLOCK, in `load_last_block`.
unfoldable pub select_last_block : Host → Db → Option Block
select_last_block host db =
    option_block host (last_by (λ (r : BlockRow). r.id) (λ r. true) db.blocks)

-- SQL_GET_LAST_FULL_BLOCK and SQL_GET_LAST_FULL_BLOCK_FOR_KEY.
abbrev matches_key : Option Bytes → Bytes → Bool
matches_key none key = true
matches_key (some wanted) key = same_hash wanted key

unfoldable pub select_last_full_block : Host → Db → ℕ → Option Bytes → Option Block
select_last_full_block host db before key = option_block host (
    last_by (λ (r : BlockRow). r.id)
      (λ r. id_lt r.id before && not (is_empty r.transaction) && matches_key key r.pub_key)
      db.blocks)

-- SQL_GET_DOMAIN_BY_ID, and SQL_GET_DOMAIN_OWNER_BY_ID, which has the same condition.
unfoldable pub select_domain : Db → Bytes → ℕ → Option DomainRow
select_domain db identity height =
    last_by (λ (r : DomainRow). r.id) (λ r. same_hash r.identity identity && id_lt r.id height)
      db.domains

-- SQL_GET_USER_BLOCK_COUNT.
unfoldable pub count_user_blocks : Db → Bytes → ℕ → ℕ
count_user_blocks db key height =
    length (filter (λ (r : BlockRow). same_hash r.pub_key key && id_lt r.id height) db.blocks)

-- SQL_GET_DOMAIN_UPDATE_TIME: the join of both tables on the id.
unfoldable pub select_update_time : Db → Bytes → Option ℤ
select_update_time db identity =
    elim (last_by (λ (r : DomainRow). r.id)
      (λ r. same_hash r.identity identity && (elim (by_id (λ (b : BlockRow). b.id) r.id db.blocks) [
        | none ↦ false
        | some b ↦ leb 23 b.difficulty
      ]))
      db.domains) [ none ↦ none | some r ↦ some r.timestamp ]

-- SQL_TRUNCATE_BLOCKS and SQL_TRUNCATE_DOMAINS, in `truncate_db_from_block`.
unfoldable pub truncate_db_from_block : Db → ℕ → Db
truncate_db_from_block db index = record {
  blocks = delete_from (λ (r : BlockRow). r.id) index db.blocks;
  domains = delete_from (λ (r : DomainRow). r.id) index db.domains;
}

-- SQL_ADD_DOMAIN and its bindings.
abbrev pub row_of_transaction : ℕ → ℤ → Transaction → DomainRow
row_of_transaction index timestamp t = record {
  id = index;
  timestamp = timestamp;
  identity = t.identity;
  confirmation = t.confirmation;
  payload = t.payload;
  signing = t.signing;
  encryption = t.encryption;
}

abbrev pub transaction_of_row : DomainRow → Transaction
transaction_of_row r = record {
  class = class_domain;
  identity = r.identity;
  confirmation = r.confirmation;
  signing = r.signing;
  encryption = r.encryption;
  payload = r.payload;
}

unfoldable pub add_block_to_table : Host → Db → Block → Option Db
add_block_to_table host db b =
    elim (insert (λ (r : BlockRow). r.id) (row_of_block host b) db.blocks) [
      | none ↦ none
      | some rows ↦ some (record db { blocks = rows })
    ]

unfoldable pub insert_domain : Db → ℕ → ℤ → Transaction → Option Db
insert_domain db index timestamp t =
    elim (insert (λ (r : DomainRow). r.id) (row_of_transaction index timestamp t) db.domains) [
      | none ↦ none
      | some rows ↦ some (record db { domains = rows })
    ]
