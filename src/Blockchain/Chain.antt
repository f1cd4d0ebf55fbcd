-- ===== src/Blockchain/Chain.antt =====
-- src/blockchain/chain.rs: the chain's state, and what it answers of blocks, domains and difficulty.
-- i64 times are integers, taken not to overflow; u64 and u32 arithmetic wraps, as in a release build.
pub mod Signers
pub mod Check
pub mod Update
pub mod Domains
pub mod Discount
use ruvname.Prelude.{
  ℕ, ◌+◌, ℤ, pos, ◌+ℤ◌, ◌-ℤ◌, ltb_ℤ, leb_ℤ, div_ℤ, as_u32, sub32, sub64, add64, Bool, true, false,
  not, ◌&&◌, ◌||◌, Option, none, some, List, [], ◌∷◌, ◌==◌, ltb, leb, if◌then◌else◌, is_some,
}
use ruvname.Bytes.{Bytes, same_hash, is_empty}
use ruvname.Blockchain.Constants.{
  domain_difficulty, origin_difficulty, blocks_without_discount, block_signers_start,
  block_signers_min, one_week, domain_lifetime, domain_renew_time, new_domains_interval, u32_max,
  class_domain, class_origin,
}
use ruvname.Blockchain.Block.{
  Transaction, DomainState, not_found, alive, expired, free, MineResult, fine, cooldown, ZoneData,
  Block, Host, hash_identity, check_identity,
}
use ruvname.Blockchain.Table.{
  DomainRow, Db, select_block, select_last_full_block, select_domain, select_update_time,
  transaction_of_row,
}

pub record SignersCache : Type 0 where
  pub index : ℕ
  pub signers : List Bytes

abbrev pub no_signers : SignersCache
no_signers = record { index = 0; signers = [] }

unfoldable pub has_signers_for : SignersCache → ℕ → Bool
has_signers_for c index = c.index == index && (elim c.signers [ [] ↦ false | s ∷ rest ↦ true ])

-- `db` is the connection's tables.
pub record Chain : Type 0 where
  pub origin : Bytes
  pub last_block : Option Block
  pub last_full_block : Option Block
  pub max_height : ℕ
  pub db : Db
  pub zones : List ZoneData
  pub signers : SignersCache

abbrev pub height_of : Option Block → ℕ
height_of none = 0
height_of (some b) = b.index

abbrev pub get_height : Chain → ℕ
get_height c = height_of c.last_block

unfoldable pub get_last_hash : Chain → Bytes
get_last_hash c = elim c.last_block [ none ↦ [] | some b ↦ b.hash ]

unfoldable pub get_soa_serial : Chain → ℕ
get_soa_serial c = elim c.last_full_block [ none ↦ 0 | some b ↦ as_u32 b.timestamp ]

abbrev max_of : ℕ → ℕ → ℕ
max_of a b = if ltb b a then a else b

unfoldable pub next_allowed_full_block : Chain → ℕ
next_allowed_full_block c = elim c.last_full_block [
  | none ↦ add64 (get_height c) 1
  | some b ↦
      if ltb b.index block_signers_start
      then add64 (get_height c) 1
      else max_of (add64 b.index block_signers_min) (add64 (get_height c) 1)
]

unfoldable pub update_max_height : Chain → ℕ → Chain
update_max_height c height = record c { max_height = height }

unfoldable pub is_waiting_signers : Chain → Bool
is_waiting_signers c =
    if ltb (get_height c) block_signers_start then false else elim c.last_full_block [
      | none ↦ false
      | some b ↦ ltb (sub64 (get_height c) b.index) block_signers_min
    ]

-- The zones of src/blockchain/data/zones.txt, by name.
unfoldable pub is_available_zone : List ZoneData → Bytes → Bool
is_available_zone [] zone = false
is_available_zone (z ∷ zones) zone =
    if same_hash z.name zone then true else is_available_zone zones zone

unfoldable pub is_domain_in_blockchain : Chain → ℕ → Bytes → Bool
is_domain_in_blockchain c height id = is_some (select_domain c.db id height)

unfoldable pub get_domain_renewal_time : Chain → ℤ → Bytes → Option ℤ
get_domain_renewal_time c time identity = elim (select_update_time c.db identity) [
  | none ↦ none
  | some timestamp ↦ if ltb_ℤ timestamp (time -ℤ pos domain_lifetime) then none else some timestamp
]

abbrev pub fresh_time : Option DomainRow → ℤ → Option ℤ
fresh_time none time = none
fresh_time (some r) time =
    if ltb_ℤ r.timestamp (time -ℤ pos domain_lifetime) then none else some r.timestamp

unfoldable pub get_domain_update_time : Chain → Bytes → ℕ → ℤ → Option ℤ
get_domain_update_time c identity height time = fresh_time (select_domain c.db identity height) time

-- The state of a domain last renewed at `timestamp`, at `time`.
unfoldable pub state_at : ℤ → ℤ → DomainState
state_at timestamp time =
    if leb_ℤ time (timestamp +ℤ pos domain_lifetime)
    then alive timestamp (timestamp +ℤ pos domain_lifetime)
    else if leb_ℤ time (timestamp +ℤ pos domain_lifetime +ℤ pos domain_renew_time)
    then expired timestamp (timestamp +ℤ pos domain_lifetime +ℤ pos domain_renew_time)
    else free timestamp

abbrev row_state : Option DomainRow → ℤ → Option Transaction × DomainState
row_state none time = (none, not_found)
row_state (some r) time = (some (transaction_of_row r), state_at r.timestamp time)

unfoldable pub get_identity_transaction_and_state :
    Chain → Bytes → ℕ → ℤ → Option Transaction × DomainState
get_identity_transaction_and_state c identity height time =
    row_state (select_domain c.db identity height) time

abbrev owned_or_free : Bytes → Option Transaction × DomainState → Bool
owned_or_free key (none, state) = true
owned_or_free key (some t, state) =
    if same_hash t.signing key
    then true
    else elim state [ not_found ↦ true | alive r u ↦ false | expired r u ↦ false | free r ↦ true ]

unfoldable pub is_id_available : Chain → ℕ → ℤ → Bytes → Bytes → Bool
unfolding get_identity_transaction_and_state
is_id_available c height time identity key =
    owned_or_free key (get_identity_transaction_and_state c identity height time)

-- How long ago the domain was changed, in weeks plus one, at most 8; `as u32` of an i64.
abbrev week_discount : ℤ → ℤ → ℕ
week_discount time timestamp =
    let weeks = div_ℤ (time -ℤ timestamp) one_week in
    as_u32 ((if ltb_ℤ (pos 7) weeks then pos 7 else weeks) +ℤ pos 1)

unfoldable pub get_identity_discount : Chain → Bytes → Bool → ℕ → ℤ → ℕ
unfolding get_domain_update_time
get_identity_discount c identity renewal height time =
    elim (get_domain_update_time c identity height time) [
      | none ↦ 0
      | some timestamp ↦
          if renewal || ltb (get_height c) blocks_without_discount
          then 1
          else week_discount time timestamp
    ]

module _ (host : Host) where
  unfoldable pub get_block : Chain → ℕ → Option Block
  get_block c index = select_block host c.db index

  -- The cached block first, then the table.
  unfoldable pub get_last_full_block : Chain → ℕ → Option Bytes → Option Block
  get_last_full_block c before key =
      let stored = select_last_full_block host c.db before key in
      elim c.last_full_block [
        | none ↦ stored
        | some b ↦
            if ltb b.index before && (elim key [ none ↦ true | some k ↦ same_hash b.pub_key k ])
            then some b
            else stored
      ]

  unfoldable pub can_mine_identity : Chain → Bytes → ℕ → ℤ → Bytes → MineResult
  unfolding is_domain_in_blockchain
  can_mine_identity c identity height time key = elim (get_last_full_block c height (some key)) [
    | none ↦ fine
    | some last ↦
        let left = last.timestamp +ℤ pos new_domains_interval -ℤ time in
        if not (is_domain_in_blockchain c height identity) && ltb_ℤ (pos 0) left
        then cooldown left
        else fine
  ]

  unfoldable pub get_domain_transaction_and_state :
      Chain → ℤ → Bytes → Option Transaction × DomainState
  unfolding get_identity_transaction_and_state
  get_domain_transaction_and_state c now domain_name =
      if is_empty domain_name
      then (none, not_found)
      else let (found, state) =
          get_identity_transaction_and_state c (hash_identity host domain_name none) (get_height c)
            now in
        elim found [
          | none ↦ (none, not_found)
          | some t ↦
              if check_identity host t domain_name then (some t, state) else (none, not_found)
        ]

  unfoldable pub get_domain_info : Chain → ℤ → Bytes → Option Bytes
  get_domain_info c now domain_name =
      let (found, state) = get_domain_transaction_and_state c now domain_name in
      elim found [
        | none ↦ none
        | some t ↦ elim state [
          | alive r u ↦ some t.payload
          | not_found ↦ none
          | expired r u ↦ none
          | free r ↦ none
        ]
      ]

  unfoldable pub get_difficulty_for_transaction : Chain → Transaction → ℕ → ℤ → ℕ
  unfolding get_identity_discount
  get_difficulty_for_transaction c t height time =
      let discount = get_identity_discount c t.identity false height time in
      if same_hash t.class class_domain
      then (if is_some (host.parse_domain_data t.payload)
          then sub32 domain_difficulty discount
          else u32_max)
      else if same_hash t.class class_origin
      then origin_difficulty
      else u32_max
