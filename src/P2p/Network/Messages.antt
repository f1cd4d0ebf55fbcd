-- ===== src/P2p/Network/Messages.antt =====
-- src/p2p/network.rs: `handle_message`, the answer to each message as the next state of the connection.
pub mod Answered
use ruvname.Prelude.{
  ℕ, suc, ◌+◌, Bool, true, false, not, ◌&&◌, Option, none, some, List, [], ◌∷◌, ◌++◌, ◌==◌, ltb,
  if◌then◌else◌, add64,
}
use ruvname.Bytes.{Bytes, codes, same_hash}
use ruvname.Blockchain.Constants.{chain_version, max_nodes}
use ruvname.Blockchain.Block.{Block}
use ruvname.Blockchain.Chain.{get_height, get_last_hash, get_block, update_max_height}
use ruvname.Blockchain.Chain.Signers.{Run, ok, panic, ◌>>=◌}
use ruvname.Blockchain.Chain.Check.{or_panic}
use ruvname.P2p.State
use ruvname.P2p.State.{State}
use ruvname.P2p.Message
use ruvname.P2p.Message.{Message}
use ruvname.P2p.Peer.{Peer, set_active, is_higher}
use ruvname.P2p.Peers.{
  Peers, get_peer, mem_text, get_peers_active_count, is_tween_connect, get_peers_for_exchange,
  add_peers_from_exchange,
}
use ruvname.P2p.Network.{Env, Network, change_peer}
use ruvname.P2p.Network.Blocks.{handle_block}

-- The version in Cargo.toml.
abbrev pub my_version : Bytes
my_version = codes "0.8.7"

abbrev prepend : ℕ → List Bytes → List Bytes
prepend c [] = (c ∷ []) ∷ []
prepend c (part ∷ parts) = (c ∷ part) ∷ parts

-- `split('.')`
unfoldable pub split_dots : Bytes → List Bytes
split_dots [] = [] ∷ []
split_dots (c ∷ text) =
    let parts = split_dots text in if c == 46 then [] ∷ parts else prepend c parts

-- The first two parts; `none` is the panic on a version without a dot.
abbrev pub first_two : List Bytes → Option Bytes
first_two [] = none
first_two (a ∷ []) = none
first_two (a ∷ b ∷ parts) = some (a ++ 46 ∷ b)

unfoldable pub starts_with : (text prefix : Bytes) → Bool
starts_with text [] = true
starts_with [] (c ∷ prefix) = false
starts_with (d ∷ text) (c ∷ prefix) = d == c && starts_with text prefix

unfoldable pub version_compatible : (version : Bytes) → Bool
unfolding split_dots starts_with
version_compatible version = elim (first_two (split_dots my_version)) [
  | none ↦ false
  | some major ↦ starts_with version major
]

-- `chance` is whether the node asks for more peers, where it draws a random number for that.
module _ (env : Env) (chance : Bool) where
  abbrev message : Message → State
  message m = State.message (env.cbor m)

  abbrev idle : State
  idle = State.idle env.now

  abbrev find_peer : Network → (token : ℕ) → Run Peer
  find_peer n token = or_panic (get_peer n.peers token)

  -- `{ peer.set_active(true); ... }`
  abbrev active : Peer → Peer
  active p = set_active p true env.now

  unfoldable pub handle_hand :
      Network
      → (token : ℕ) → (app_version origin : Bytes) → (version : ℕ) → (public : Bool)
      → (rand_id : Bytes) → Run (Network × State)
  unfolding version_compatible change_peer get_peer set_active
  handle_hand n token app_version origin version public rand_id =
      if not (version_compatible app_version)
      then (do p ← find_peer n token; ok (n, State.banned))
      else if same_hash n.peers.my_id rand_id
      then ok (n, State.send_loop)
      else if same_hash origin n.origin
      then (do
        n' ←
            change_peer n token
              (λ p. if version == chain_version then active (record p { public = public }) else p)
        ok (
          n',
          message (
              Message.shake n.app_version origin chain_version n.public n.peers.my_id
                (get_height n.chain)),
        ))
      else ok (n, State.banned)

  unfoldable pub handle_shake :
      Network
      → (token : ℕ) → (app_version origin : Bytes) → (version : ℕ) → (public : Bool)
      → (rand_id : Bytes) → (height : ℕ) → Run (Network × State)
  unfolding version_compatible change_peer get_peer set_active is_higher update_max_height
      is_tween_connect get_peers_active_count
  handle_shake n token app_version origin version public rand_id height =
      if not (same_hash origin n.origin)
      then ok (n, State.banned)
      else if ltb chain_version version
      then ok (n, State.banned)
      else if not (version == chain_version)
      then ok (n, State.banned)
      else if is_tween_connect n.peers rand_id env.now
      then ok (n, State.twin)
      else if not (version_compatible app_version)
      then (do p ← find_peer n token; ok (n, State.banned))
      else (do
        let nodes = get_peers_active_count n.peers env.now
        n1 ← change_peer n token (λ p. record (active (record p { height = height })) {
          public = public;
          reconnects = 0;
        })
        p ← find_peer n1 token
        let n2 =
            if is_higher p (get_height n.chain)
            then record n1 { chain = update_max_height n1.chain height }
            else n1
        ok (n2, if ltb nodes max_nodes && chance then message Message.get_peers else idle))

  unfoldable pub handle_ping : Network → (token height : ℕ) → (hash : Bytes) → Run (Network × State)
  unfolding change_peer get_peer set_active is_higher update_max_height get_last_hash
  handle_ping n token height hash = do
    let my_height = get_height n.chain
    let my_hash = get_last_hash n.chain
    n1 ← change_peer n token (λ p. active (record p { height = height }))
    p ← find_peer n1 token
    if mem_text hash n1.seen_blocks
        then ok (n1, message (Message.pong my_height my_hash))
        else if is_higher p my_height
        then ok (
          record n1 { chain = update_max_height n1.chain height },
          message (Message.get_block (add64 my_height 1)),
        )
        else if my_height == height && not (same_hash hash my_hash)
        then ok (n1, message (Message.get_block my_height))
        else ok (n1, message (Message.pong my_height my_hash))

  unfoldable pub handle_pong : Network → (token height : ℕ) → (hash : Bytes) → Run (Network × State)
  unfolding change_peer get_peer set_active is_higher update_max_height get_last_hash
      get_peers_active_count
  handle_pong n token height hash = do
    let my_height = get_height n.chain
    let active_count = get_peers_active_count n.peers env.now
    n1 ← change_peer n token (λ p. active (record p { height = height }))
    p ← find_peer n1 token
    if mem_text hash n1.seen_blocks
        then ok (n1, idle)
        else if is_higher p my_height
        then ok (
          record n1 { chain = update_max_height n1.chain height },
          message (Message.get_block (add64 my_height 1)),
        )
        else if my_height == height && not (same_hash hash (get_last_hash n.chain))
        then ok (n1, message (Message.get_block my_height))
        else if ltb active_count max_nodes && chance
        then ok (n1, message Message.get_peers)
        else ok (n1, idle)

  unfoldable pub handle_get_peers : Network → (token : ℕ) → Run (Network × State)
  unfolding change_peer get_peer set_active get_peers_for_exchange
  handle_get_peers n token = do
    n1 ← change_peer n token active
    p ← find_peer n1 token
    ok (n1, message (Message.peers (get_peers_for_exchange env.texts n1.peers p.addr env.now)))

  unfoldable pub handle_peers : Network → (token : ℕ) → List Bytes → Run (Network × State)
  unfolding change_peer set_active add_peers_from_exchange
  handle_peers n token addrs = do
    n1 ← change_peer n token active
    ok (record n1 { peers = add_peers_from_exchange env.texts n1.peers addrs }, idle)

  abbrev found_block : Option Block → State
  found_block none = State.error
  found_block (some b) = message (Message.block b.index (env.as_bytes b))

  unfoldable pub handle_get_block : Network → (token index : ℕ) → Run (Network × State)
  unfolding change_peer set_active get_block
  handle_get_block n token index = do
    n1 ← change_peer n token active
    ok (n1, found_block (get_block env.host n1.chain index))

  abbrev read_block : Network → (token index : ℕ) → Option Block → Run (Network × State)
  read_block n token index none = ok (n, State.banned)
  read_block n token index (some b) =
      if not (index == b.index)
      then ok (n, State.banned)
      else if mem_text b.hash n.seen_blocks
      then ok (n, idle)
      else handle_block env n token b

  unfoldable pub handle_block_message :
      Network → (token index : ℕ) → (payload : Bytes) → Run (Network × State)
  unfolding change_peer set_active handle_block
  handle_block_message n token index payload = do
    n1 ← change_peer n token active
    read_block n1 token index (env.from_bytes payload)

  unfoldable pub handle_message : Network → (token : ℕ) → Message → Run (Network × State)
  unfolding handle_hand handle_shake handle_ping handle_pong handle_get_peers handle_peers
      handle_get_block handle_block_message
  handle_message n token (Message.hand app_version origin version public rand_id) =
      handle_hand n token app_version origin version public rand_id
  handle_message n token (Message.shake app_version origin version public rand_id height) =
      handle_shake n token app_version origin version public rand_id height
  handle_message n token Message.error = ok (n, State.error)
  handle_message n token (Message.ping height hash) = handle_ping n token height hash
  handle_message n token (Message.pong height hash) = handle_pong n token height hash
  handle_message n token Message.get_peers = handle_get_peers n token
  handle_message n token (Message.peers addrs) = handle_peers n token addrs
  handle_message n token (Message.get_block index) = handle_get_block n token index
  handle_message n token (Message.block index payload) = handle_block_message n token index payload
  handle_message n token Message.twin = ok (n, State.twin)
  handle_message n token Message.loop = ok (n, State.loop)
