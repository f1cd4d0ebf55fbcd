-- ===== src/Blockchain/Chain/Check.antt =====
-- src/blockchain/chain.rs: `check_block`, part by part in its order. A normal return is a `quit`
-- with the verdict and the signers' cache; the memo that `check_block_hash` leaves in the block is
-- dropped.
pub mod Stages
pub mod Accepted
pub mod Edges
use ruvname.Prelude.{
  ℕ, ◌+◌, ℤ, pos, ◌+ℤ◌, ltb_ℤ, Bool, true, false, not, ◌&&◌, ◌||◌, Option, none, some, List, [],
  ◌∷◌, ◌==◌, ltb, leb, if◌then◌else◌, length, is_some, add64, sub64,
}
use ruvname.Bytes.{Bytes, same_hash, is_zero, hash_difficulty}
use ruvname.Dns.Record.{DnsRecord, get_data, is_ruvchain_record}
use ruvname.Blockchain.Constants.{
  chain_version, origin_difficulty, signer_difficulty, keystore_difficulty, block_signers_start,
  limited_confidence_depth, max_records, max_data_len,
}
use ruvname.Blockchain.Block.{
  Transaction, DomainData, ZoneData, Block, Host, BlockQuality, good, twin, future, rewind, bad,
  fork, MineResult, fine, check_block_hash, check_block_signature, check_public_key_strength,
  is_genesis, get_domain_data,
}
use ruvname.Blockchain.Chain.{
  Chain, SignersCache, get_height, get_block, is_id_available, can_mine_identity,
  get_difficulty_for_transaction,
}
use ruvname.Blockchain.Chain.Signers.{
  Run, ok, quit, panic, endless, ◌>>=◌, ◌>>◌, mem, is_good_sign_block,
}

-- `if stop { return quality; }`
abbrev pub stop_if : Bool → BlockQuality → SignersCache → Run (Unit {0})
stop_if true q s = quit q s
stop_if false q s = ok tt

abbrev pub or_panic {ℓ} : {A : Type ℓ} → Option A → Run A
or_panic none = panic
or_panic (some a) = ok a

-- The records of a domain in a zone for Ruvchain addresses only.
unfoldable pub records_allowed : List DnsRecord → Bool
records_allowed [] = true
records_allowed (r ∷ rs) =
    if not (is_ruvchain_record r)
    then false
    else if (elim (get_data r) [ none ↦ false | some text ↦ ltb max_data_len (length text) ])
    then false
    else records_allowed rs

unfoldable pub zones_allow : List ZoneData → DomainData → Bool
unfolding records_allowed
zones_allow [] d = true
zones_allow (z ∷ zones) d =
    if same_hash z.name d.zone && z.ruvchain && not (records_allowed d.records)
    then false
    else zones_allow zones d

abbrev pub is_fine : MineResult → Bool
is_fine fine = true
is_fine other = false

-- The difficulty that the block must have.
unfoldable pub needed_difficulty : Host → Chain → Block → ℕ
needed_difficulty host c block = elim block.transaction [
  | none ↦ if block.index == 1 then origin_difficulty else signer_difficulty
  | some t ↦ get_difficulty_for_transaction host c t block.index block.timestamp
]

module _ (host : Host) (now : ℤ) (fuel : ℕ) (c : Chain) (block : Block) where
  -- WRONG_HASHES are two fixed hashes.
  module _ (wrong_hashes : List Bytes) where
    -- Version, known bad hashes, clock, and distance from the last block.
    unfoldable pub check_arrival : Option Block → Run (Unit {0})
    check_arrival last = do
      stop_if (ltb chain_version block.version) bad c.signers
      stop_if (mem block.hash wrong_hashes) bad c.signers
      stop_if (ltb_ℤ (now +ℤ pos 60) block.timestamp) bad c.signers
      elim last [
        | none ↦ ok tt
        | some l ↦ stop_if (ltb (add64 l.index 1) block.index) future c.signers
      ]

  -- Proof of work, hash and signature.
  unfoldable pub check_work : Run (Unit {0})
  check_work = do
    stop_if (ltb block.difficulty (needed_difficulty host c block)) bad c.signers
    zeros ← or_panic (hash_difficulty block.hash)
    stop_if (ltb zeros block.difficulty) bad c.signers
    stop_if (not (check_block_hash host block).0) bad c.signers
    stop_if (not (check_block_signature host block)) bad c.signers

  -- The link to the stored block before it.
  unfoldable pub check_link : Run (Unit {0})
  check_link = elim (get_block host c (sub64 block.index 1)) [
    | none ↦ ok tt
    | some prev ↦
        if not (same_hash block.prev_block_hash prev.hash)
        then quit
            (if ltb block.index (sub64 (get_height c) limited_confidence_depth)
              then bad
              else rewind)
            c.signers
        else ok tt
  ]

  abbrev check_domain_data : Option DomainData → Run (Unit {0})
  check_domain_data none = ok tt
  check_domain_data (some d) = do
    stop_if (ltb max_records (length d.records)) bad c.signers
    stop_if (not (zones_allow c.zones d)) bad c.signers

  unfoldable pub check_transaction : Option Transaction → Run (Unit {0})
  unfolding zones_allow
  check_transaction none = ok tt
  check_transaction (some t) = do
    strong ← or_panic (check_public_key_strength host block.pub_key keystore_difficulty)
    stop_if (not strong) bad c.signers
    stop_if (not (is_id_available c (sub64 block.index 1) now t.identity block.pub_key)) bad
        c.signers
    stop_if
        (not
          (is_fine (can_mine_identity host c t.identity block.index block.timestamp block.pub_key)))
        bad c.signers
    check_domain_data (get_domain_data host t)

  -- Against the last block, which `check_block` is given.
  unfoldable pub check_first : Run (Unit {0})
  check_first = do
    stop_if (not (is_genesis block)) future c.signers
    stop_if (not (is_zero c.origin) && not (same_hash block.hash c.origin)) bad c.signers
    quit good c.signers

  abbrev check_known : Block → SignersCache → Run (Unit {0})
  check_known last s =
      if leb block.index last.index
      then (if block.index == last.index && same_hash last.hash block.hash
          then quit twin s
          else elim (get_block host c block.index) [
            | none ↦ quit good s
            | some mine ↦ quit (if not (same_hash mine.hash block.hash) then fork else twin) s
          ])
      else quit (if not (same_hash block.prev_block_hash last.hash) then bad else good) s

  unfoldable pub check_signer : Option Block → Run SignersCache
  check_signer last_full =
      if ltb block_signers_start block.index
      then (do
        (fits, s) ← is_good_sign_block host fuel c block last_full
        stop_if (not fits) bad s
        ok s)
      else ok c.signers

  unfoldable pub check_next : Block → Option Block → Run (Unit {0})
  unfolding check_signer
  check_next last last_full = do
    stop_if (ltb_ℤ block.timestamp last.timestamp && ltb last.index block.index) bad c.signers
    stop_if (ltb (add64 last.index 1) block.index) future c.signers
    s ← check_signer last_full
    check_known last s

  unfoldable pub check_position : Option Block → Option Block → Run (Unit {0})
  unfolding check_first check_next
  check_position none last_full = check_first
  check_position (some last) last_full = check_next last last_full

  unfoldable pub check_block : List Bytes → Option Block → Option Block → Run (Unit {0})
  check_block wrong_hashes last last_full = do
    check_arrival wrong_hashes last
    check_work
    check_link
    check_transaction block.transaction
    check_position last last_full

  unfoldable pub check_new_block : List Bytes → Run (Unit {0})
  unfolding check_block
  check_new_block wrong_hashes = check_block wrong_hashes c.last_block c.last_full_block
