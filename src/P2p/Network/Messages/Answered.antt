-- ===== src/P2p/Network/Messages/Answered.antt =====
-- src/p2p/network.rs: the answers to messages that bring no block.
use ruvname.Prelude.{
  ℕ, ◌≡◌, ◌≢◌, refl, ap, ◌∙◌, Bool, true, false, not, ◌&&◌, some, List, ◌==◌, ltb, if◌then◌else◌,
}
use ruvname.Bytes.{Bytes, same_hash}
use ruvname.Blockchain.Constants.{chain_version, max_nodes}
use ruvname.Blockchain.Chain.{get_height, get_last_hash, update_max_height}
use ruvname.Blockchain.Chain.Signers.{Run, ok}
use ruvname.P2p.State.{State}
use ruvname.P2p.Message.{Message}
use ruvname.P2p.Peer.{Peer, set_active, is_higher}
use ruvname.P2p.Peers.{
  get_peer, mem_text, get_peers_active_count, is_tween_connect, add_peers_from_exchange,
}
use ruvname.P2p.Peers.Exchange.{add_peers_from_exchange-TakenBy}
use ruvname.P2p.Network.{Env, Network}
use ruvname.P2p.Network.Change.{with_peer, get_peer-with_peer, change_peer-found}
use ruvname.P2p.Network.Messages.{
  version_compatible, handle_hand, handle_shake, handle_ping, handle_pong, handle_get_peers,
  handle_peers, handle_get_block, handle_message,
}

-- A run with an answer, which leaves as they were: the chain but for the greatest height known, the
-- future blocks, the hashes seen, and that the table has the peer.
pub record Answers (n : Network) (token : ℕ) (r : Run (Network × State)) : Type 0 where
  pub next : Network
  pub state : State
  pub runs : r ≡ ok (next, state)
  pub same_chain : record next.chain { max_height = n.chain.max_height } ≡ n.chain
  pub same_future : next.future_blocks ≡ n.future_blocks
  pub same_seen : next.seen_blocks ≡ n.seen_blocks
  pub has_peer : (p : Peer) × (get_peer next.peers token ≡ some p)

Answers-if :
    {n : Network} {token : ℕ} (b : Bool) {x y : Run (Network × State)}
    → Answers n token x
    → Answers n token y
    → Answers n token (if b then x else y)
Answers-if true hx hy = hx
Answers-if false hx hy = hy

module _ (env : Env) (chance : Bool) (n : Network) (token : ℕ) (p : Peer)
    (found : get_peer n.peers token ≡ some p) where
  unchanged : {s : State} → Answers n token (ok (n, s))
  unchanged {s} = record {
    next = n;
    state = s;
    runs = refl;
    same_chain = refl;
    same_future = refl;
    same_seen = refl;
    has_peer = (p, found);
  }

  changed : (q : Peer) → {s : State} → Answers n token (ok (with_peer n token q, s))
  changed q {s} = record {
    next = with_peer n token q;
    state = s;
    runs = refl;
    same_chain = refl;
    same_future = refl;
    same_seen = refl;
    has_peer = (q, get_peer-with_peer n token q);
  }

  higher :
      (q : Peer) (height : ℕ)
      → {s : State}
      → Answers n token
          (ok (record (with_peer n token q) { chain = update_max_height n.chain height }, s))
  unfolding update_max_height
  higher q height {s} = record {
    next = record (with_peer n token q) { chain = update_max_height n.chain height };
    state = s;
    runs = refl;
    same_chain = refl;
    same_future = refl;
    same_seen = refl;
    has_peer = (q, get_peer-with_peer n token q);
  }

  -- A peer whose height is told.
  abbrev told : (height : ℕ) → Peer → Peer
  told height q = set_active (record q { height = height }) true env.now

  module _ (height : ℕ) (hash : Bytes) where
    abbrev is_seen : Bool
    is_seen = mem_text hash n.seen_blocks

    abbrev is_other : Bool
    is_other = get_height n.chain == height && not (same_hash hash (get_last_hash n.chain))

    abbrev is_more : Bool
    is_more = is_higher (told height p) (get_height n.chain)

    handle_ping-Answers : Answers n token (handle_ping env chance n token height hash)
    unfolding handle_ping
    handle_ping-Answers =
        let q = told height p in
        rw (handle_ping, change_peer-found n token (told height) p found)
          (rw (get_peer-with_peer n token q) (
            Answers-if is_seen (changed q)
              (Answers-if is_more (higher q height) (Answers-if is_other (changed q) (changed q)))))

    handle_pong-Answers : Answers n token (handle_pong env chance n token height hash)
    unfolding handle_pong
    handle_pong-Answers =
        let q = told height p in
        rw (handle_pong, change_peer-found n token (told height) p found)
          (rw (get_peer-with_peer n token q) (
            Answers-if is_seen (changed q) (
              Answers-if is_more (higher q height) (
                Answers-if is_other (changed q) (
                  Answers-if (ltb (get_peers_active_count n.peers env.now) max_nodes && chance)
                    (changed q) (changed q))))))

  module _ (app_version origin : Bytes) (version : ℕ) (public : Bool) (rand_id : Bytes) where
    -- What a `Hand` does to the peer.
    abbrev taken : Peer → Peer
    taken q =
        if version == chain_version
        then set_active (record q { public = public }) true env.now
        else q

    handle_hand-Answers :
        Answers n token (handle_hand env chance n token app_version origin version public rand_id)
    unfolding handle_hand
    handle_hand-Answers =
        rw (handle_hand, change_peer-found n token taken p found)
          (rw found (
            Answers-if (not (version_compatible app_version)) unchanged (
              Answers-if (same_hash n.peers.my_id rand_id) unchanged
                (Answers-if (same_hash origin n.origin) (changed (taken p)) unchanged))))

    module _ (height : ℕ) where
      abbrev shaken : Peer → Peer
      shaken q = record (set_active (record q { height = height }) true env.now) {
        public = public;
        reconnects = 0;
      }

      shaken-Answers :
          (more : Bool) (s : State)
          → Answers n token (
              ok (
                if more
                    then record (with_peer n token (shaken p)) {
                      chain = update_max_height n.chain height;
                    }
                    else with_peer n token (shaken p),
                s,
              ))
      shaken-Answers true s = higher (shaken p) height
      shaken-Answers false s = changed (shaken p)

      handle_shake-Answers :
          Answers n token
            (handle_shake env chance n token app_version origin version public rand_id height)
      unfolding handle_shake
      handle_shake-Answers =
          rw (handle_shake, change_peer-found n token shaken p found)
            (rw (found, get_peer-with_peer n token (shaken p))
              (Answers-if (not (same_hash origin n.origin)) unchanged (
                Answers-if (ltb chain_version version) unchanged (
                  Answers-if (not (version == chain_version)) unchanged (
                    Answers-if (is_tween_connect n.peers rand_id env.now) unchanged (
                      Answers-if (not (version_compatible app_version)) unchanged (
                        shaken-Answers (is_higher (shaken p) (get_height n.chain)) (
                          if ltb (get_peers_active_count n.peers env.now) max_nodes && chance
                          then State.message (env.cbor Message.get_peers)
                          else State.idle env.now))))))))

  abbrev active : Peer → Peer
  active q = set_active q true env.now

  handle_get_peers-Answers : Answers n token (handle_get_peers env chance n token)
  unfolding handle_get_peers
  handle_get_peers-Answers =
      rw (handle_get_peers, change_peer-found n token active p found)
        (rw (get_peer-with_peer n token (active p)) (changed (active p)))

  handle_get_block-Answers :
      (index : ℕ) → Answers n token (handle_get_block env chance n token index)
  unfolding handle_get_block
  handle_get_block-Answers index =
      rw (handle_get_block, change_peer-found n token active p found) (changed (active p))

  handle_peers-Answers :
      (addrs : List Bytes) → Answers n token (handle_peers env chance n token addrs)
  unfolding handle_peers get_peer
  handle_peers-Answers addrs =
      let n1 = with_peer n token (active p) in
      let (added, run, _, _) = add_peers_from_exchange-TakenBy env.texts n1.peers addrs in
      rw (handle_peers, change_peer-found n token active p found)
        (record {
          next = record n1 { peers = add_peers_from_exchange env.texts n1.peers addrs };
          state = State.idle env.now;
          runs = refl;
          same_chain = refl;
          same_future = refl;
          same_seen = refl;
          has_peer =
              (active p, ap (λ t. get_peer t token) run ∙ get_peer-with_peer n token (active p));
        })

  -- Every message but a block, from a peer of the table, is answered: there is no panic, and the
  -- answer leaves the chain, the future blocks and the hashes seen as they were, but for the
  -- greatest height known. The table still has the peer.
  pub handle_message-Answers :
      (m : Message)
      → ((index : ℕ) (payload : Bytes) → m ≢ Message.block index payload)
      → Answers n token (handle_message env chance n token m)
  unfolding handle_message
  handle_message-Answers (Message.hand app_version origin version public rand_id) other =
      handle_hand-Answers app_version origin version public rand_id
  handle_message-Answers (Message.shake app_version origin version public rand_id height) other =
      handle_shake-Answers app_version origin version public rand_id height
  handle_message-Answers Message.error other = unchanged
  handle_message-Answers (Message.ping height hash) other = handle_ping-Answers height hash
  handle_message-Answers (Message.pong height hash) other = handle_pong-Answers height hash
  handle_message-Answers Message.get_peers other = handle_get_peers-Answers
  handle_message-Answers (Message.peers addrs) other = handle_peers-Answers addrs
  handle_message-Answers (Message.get_block index) other = handle_get_block-Answers index
  handle_message-Answers (Message.block index payload) other = absurd (other index payload refl)
  handle_message-Answers Message.twin other = unchanged
  handle_message-Answers Message.loop other = unchanged
