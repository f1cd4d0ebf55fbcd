-- ===== src/Blockchain/Block.antt =====
-- src/blockchain/block.rs, transaction.rs, types.rs and hash_utils.rs: blocks and transactions, and
-- the code outside the repository that they call, as the record `Host`.
pub mod Better
use ruvname.Prelude.{
  ℕ, ◌+◌, ◌*◌, ◌%◌, ◌^◌, ℤ, pos, Bool, true, false, ◌&&◌, Option, none, some, List, [], ◌∷◌, ◌++◌,
  ◌==◌, ltb, leb, if◌then◌else◌, is_some,
}
use ruvname.Bytes.{Bytes, same_hash, hash_difficulty, key_hash_difficulty, get_tail_u64}
use ruvname.Dns.Record.{DnsRecord}
use ruvname.Blockchain.Constants.{class_origin, class_domain}

-- `class` and `data` are `method` and `payload`. A text is its bytes.
pub record Transaction : Type 0 where
  pub class : Bytes
  pub identity : Bytes
  pub confirmation : Bytes
  pub signing : Bytes
  pub encryption : Bytes
  pub payload : Bytes

pub record ContactsData : Type 0 where
  pub name : Bytes
  pub value : Bytes

pub record DomainData : Type 0 where
  pub encrypted : Bytes
  pub zone : Bytes
  pub info : Bytes
  pub records : List DnsRecord
  pub contacts : List ContactsData

pub data TransactionType : Type 0 where
  unknown signing domain origin : TransactionType

pub data DomainState : Type 0 where
  not_found : DomainState
  alive : (renewed_time until : ℤ) → DomainState
  expired : (renewed_time until : ℤ) → DomainState
  free : (renewed_time : ℤ) → DomainState

pub data BlockQuality : Type 0 where
  good twin future rewind bad fork : BlockQuality

pub data MineResult : Type 0 where
  fine wrong_name wrong_data wrong_key wrong_zone not_owned : MineResult
  cooldown : (time : ℤ) → MineResult

pub record ZoneData : Type 0 where
  pub name : Bytes
  pub ruvchain : Bool

-- `hash_good` is the memo of a successful hash check.
pub record Block : Type 0 where
  pub index : ℕ
  pub timestamp : ℤ
  pub version : ℕ
  pub difficulty : ℕ
  pub random : ℕ
  pub nonce : ℕ
  pub hash : Bytes
  pub prev_block_hash : Bytes
  pub pub_key : Bytes
  pub signature : Bytes
  pub transaction : Option Transaction
  pub hash_good : Bool

-- The crates that the checks call: the Blakeout and SHA-256 hashes, bincode's `serialize` of a block,
-- `Keystore::check` (ed25519), and serde_json's reader and writer.
pub record Host : Type 0 where
  pub blakeout_data : Bytes → Bytes
  pub hash_sha256 : Bytes → Bytes
  pub as_bytes_compact : Block → Bytes
  pub keystore_check : (message pub_key signature : Bytes) → Bool
  pub parse_domain_data : Bytes → Option DomainData
  pub to_json : Transaction → Bytes
  pub from_json : Bytes → Option Transaction

unfoldable pub get_type : Option Transaction → TransactionType
get_type none = TransactionType.signing
get_type (some t) =
    if same_hash t.class class_domain
    then TransactionType.domain
    else if same_hash t.class class_origin
    then TransactionType.origin
    else TransactionType.unknown

abbrev is_origin_type : TransactionType → Bool
is_origin_type TransactionType.origin = true
is_origin_type TransactionType.unknown = false
is_origin_type TransactionType.signing = false
is_origin_type TransactionType.domain = false

unfoldable pub is_genesis : Block → Bool
unfolding get_type
is_genesis b =
    b.index == 1 && is_origin_type (get_type b.transaction) && same_hash b.prev_block_hash []

abbrev pub weight : Option ℕ → Option ℕ → Option ℕ → Option ℕ
weight (some d) (some k) (some tail) = some ((d + k) * 2 ^ 16 + tail % 0xffff)
weight none k t = none
weight (some d) none t = none
weight (some d) (some k) none = none

-- `(hash_diff << 16) + (tail % 0xFFFF) as u32`; at most 192 * 2 ^ 16 + 65534, so u32 does not wrap.
unfoldable pub hash_weight : Bytes → Option ℕ
hash_weight h = weight (hash_difficulty h) (key_hash_difficulty h) (get_tail_u64 h)

abbrev pub compare_weights : Option ℕ → Option ℕ → (nonce other_nonce : ℕ) → Option Bool
compare_weights none it n m = none
compare_weights (some mine) none n m = none
compare_weights (some mine) (some it) n m =
    some (if ltb it mine then true else if mine == it then ltb n m else false)

-- `none` is the panic on a hash of fewer than 8 bytes.
unfoldable pub is_better_than : Block → Block → Option Bool
is_better_than b other =
    if is_some b.transaction && (elim other.transaction [ none ↦ true | some t ↦ false ])
    then some true
    else compare_weights (hash_weight b.hash) (hash_weight other.hash) b.nonce other.nonce

module _ (host : Host) where
  -- The verdict, and the block with its memo.
  unfoldable pub check_block_hash : Block → Bool × Block
  check_block_hash b =
      if b.hash_good
      then (true, b)
      else let copy = record b { hash = []; signature = [] } in
        let result = same_hash (host.blakeout_data (host.as_bytes_compact copy)) b.hash in
        (result, record b { hash_good = result })

  unfoldable pub check_block_signature : Block → Bool
  check_block_signature b =
      host.keystore_check (host.as_bytes_compact (record b { signature = [] })) b.pub_key
        b.signature

  -- `none` is the panic on a digest of fewer than 8 bytes.
  unfoldable pub check_public_key_strength : Bytes → ℕ → Option Bool
  check_public_key_strength key strength = elim (key_hash_difficulty (host.blakeout_data key)) [
    | none ↦ none
    | some d ↦ some (leb strength d)
  ]

  unfoldable pub hash_identity : Bytes → Option Bytes → Bytes
  hash_identity identity none = host.hash_sha256 (host.hash_sha256 identity)
  hash_identity identity (some key) = host.hash_sha256 (host.hash_sha256 identity ++ key)

  unfoldable pub check_identity : Transaction → Bytes → Bool
  unfolding hash_identity
  check_identity t name =
      same_hash t.identity (hash_identity name none)
      && same_hash t.confirmation (hash_identity name (some t.signing))

  unfoldable pub get_domain_data : Transaction → Option DomainData
  get_domain_data t =
      if same_hash t.class class_domain then host.parse_domain_data t.payload else none
