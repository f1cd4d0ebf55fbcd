-- ===== src/P2p/Peers/Update.antt =====
-- src/p2p/peers.rs: `update`, which the network loop calls twice a second, and new connections. The
-- clock is read once for a call, and random choices are the record `Chances`.
use ruvname.Prelude.{
  ℕ, suc, ◌+◌, ◌-◌, ◌%◌, ℤ, pos, ◌+ℤ◌, ltb_ℤ, Bool, true, false, not, ◌&&◌, ◌||◌, Option, none,
  some, List, [], ◌∷◌, ◌==◌, ltb, leb, if◌then◌else◌, any, filter, map, length, get_elem?, add64,
}
use ruvname.Bytes.{Bytes}
use ruvname.Dns.Address.{IpAddr}
use ruvname.Dns.Record.{is_ruvchain}
use ruvname.Blockchain.Constants.{min_connected_nodes_start_sync, max_reconnects, max_nodes}
use ruvname.P2p.Address.{SocketAddr}
use ruvname.P2p.State.{State, elapsed_secs, is_idle, is_connecting, is_timed_out, need_reconnect}
use ruvname.P2p.Message.{Message}
use ruvname.P2p.Peer.{
  Peer, is_active, active_recently, has_more_blocks, is_lower, inc_reconnects, new_peer,
}
use ruvname.P2p.Peers.{
  Peers, get_peers_active_count, close_each, close_peer, ignore_ip, is_ignored, add_peer,
}

-- What chance and the network decide in one call.
pub record Chances : Type 0 where
  -- `random::<u64>() % PING_PERIOD`
  pub random_time : ℕ
  -- Whether to ask the idle peer of a token for peers instead of pinging it.
  pub asks_peers : ℕ → Bool
  -- Whether to ask for blocks with fewer than ten nodes.
  pub requests_blocks : Bool
  -- `choose_multiple` and `shuffle` of the tokens of candidates.
  pub choose_multiple : List ℕ → (amount : ℕ) → List ℕ
  -- `choose`, as a place in the list of candidates.
  pub choose : ℕ
  -- Whether the attempt to reconnect gets a socket.
  pub connects : Bool

abbrev ping_period : ℕ
ping_period = 30

module _ (cbor : Message → Bytes) (now : ℕ) where
  abbrev pub with_message : Message → Peer → Peer
  with_message m p = record p { state = State.message (cbor m) }

  abbrev pub set_message : List (ℕ × Peer) → (token : ℕ) → Message → List (ℕ × Peer)
  set_message [] token m = []
  set_message ((token', p) ∷ rest) token m =
      let rest' = set_message rest token m in
      if token' == token then (token', with_message m p) ∷ rest' else (token', p) ∷ rest'

  -- The first loop, on one peer: idle peers get a message now and then.
  unfoldable pub refresh : Chances → (nodes height : ℕ) → (hash : Bytes) → ℕ × Peer → ℕ × Peer
  refresh x nodes height hash (token, p) = elim p.state [
    | State.idle from ↦ (
      token,
      if leb (ping_period + x.random_time) (elapsed_secs now from)
          then with_message
              (if ltb nodes max_nodes && x.asks_peers token
                then Message.get_peers
                else Message.ping height hash)
              p
          else p,
    )
    | _ ↦ (token, p)
  ]

  -- The peers that the first loop closes.
  unfoldable pub is_stale : Peer → Bool
  unfolding is_idle is_connecting is_timed_out is_active
  is_stale p =
      not (is_idle p.state)
      && not (is_connecting p.state)
      && (is_timed_out now p.state || not (is_active now p))

  abbrev pub tokens_of : (Peer → Bool) → List (ℕ × Peer) → List ℕ
  tokens_of test peers = map (λ entry. entry.0) (filter (λ entry. test entry.1) peers)

  -- The loop over the chosen peers in `ask_blocks_from_peers`.
  unfoldable pub ask_loop :
      List (ℕ × Peer) → List ℕ → (index max_height : ℕ) → (have_blocks : List ℕ) → List (ℕ × Peer)
  ask_loop peers [] index max_height have_blocks = peers
  ask_loop peers (token ∷ tokens) index max_height have_blocks =
      let skipped = ask_loop peers tokens (add64 index 1) max_height have_blocks in
      let asked = set_message peers token (Message.get_block index) in
      let more = ask_loop asked tokens (add64 index 1) max_height have_blocks in
      if any (λ i. i == index) have_blocks
      then skipped
      else if ltb max_height (add64 index 1)
      then asked
      else more

  unfoldable pub ask_blocks_from_peers :
      Chances → Peers → (height max_height : ℕ) → (have_blocks : List ℕ) → Peers
  unfolding ask_loop has_more_blocks
  ask_blocks_from_peers x t height max_height have_blocks =
      let candidates = tokens_of (λ p. has_more_blocks p height) t.peers in
      record t {
        peers =
            ask_loop t.peers (x.choose_multiple candidates (max_height - height)) (add64 height 1)
              max_height have_blocks;
      }

  abbrev pub min_of : ℕ → ℕ → ℕ
  min_of a b = if ltb a b then a else b

  -- Blocks are asked for if others have more.
  unfoldable pub sync :
      Chances → (nodes height max_height : ℕ) → (have_blocks : List ℕ) → Peers → Peers
  unfolding ask_blocks_from_peers
  sync x nodes height max_height have_blocks t =
      if leb min_connected_nodes_start_sync nodes
        && ltb height max_height
        && (leb 10 nodes || x.requests_blocks)
      then ask_blocks_from_peers x t height (height + min_of (max_height - height) nodes)
          have_blocks
      else t

  abbrev pub is_behind : (height : ℕ) → Peer → Bool
  is_behind height p =
      is_lower p height
      && is_idle p.state
      && not (active_recently now p)
      && ltb p.sent_height height

  abbrev pub pinged :
      (height : ℕ) → (hash : Bytes) → List (ℕ × Peer) → (token : ℕ) → List (ℕ × Peer)
  pinged height hash [] token = []
  pinged height hash ((token', p) ∷ rest) token =
      let rest' = pinged height hash rest token in
      if token' == token
      then (
        token',
        record p { state = State.message (cbor (Message.ping height hash)); sent_height = height },
      )
        ∷ rest'
      else (token', p) ∷ rest'

  abbrev pub ping_chosen : (height : ℕ) → (hash : Bytes) → (utc : ℤ) → Peers → Option ℕ → Peers
  ping_chosen height hash utc t none = t
  ping_chosen height hash utc t (some token) = record t {
    peers = pinged height hash t.peers token;
    behind_ping_sent_time = utc;
  }

  -- A ping with our height to one peer that has fewer blocks, every five seconds.
  unfoldable pub behind_ping : Chances → (height : ℕ) → (hash : Bytes) → (utc : ℤ) → Peers → Peers
  unfolding is_lower is_idle active_recently
  behind_ping x height hash utc t =
      if ltb_ℤ (t.behind_ping_sent_time +ℤ pos 5) utc
      then (let candidates = tokens_of (is_behind height) t.peers in
          ping_chosen height hash utc t (get_elem? candidates (x.choose % length candidates)))
      else t

  -- Peers that stay offline.
  unfoldable pub is_gone : Peer → Bool
  unfolding need_reconnect
  is_gone p = need_reconnect now p.state && leb max_reconnects p.reconnects

  abbrev pub ignore_each : Peers → List IpAddr → Peers
  ignore_each t [] = t
  ignore_each t (ip ∷ ips) = ignore_each (ignore_ip t ip now) ips

  unfoldable pub drop_gone : Peers → Peers
  unfolding is_gone ignore_ip
  drop_gone t =
      ignore_each (record t { peers = filter (λ entry. not (is_gone entry.1)) t.peers })
        (map (λ entry. entry.1.addr.ip) (filter (λ entry. is_gone entry.1) t.peers))

  -- One attempt to reconnect, to the first peer that needs it.
  unfoldable pub reconnect_first : (connects : Bool) → List (ℕ × Peer) → List (ℕ × Peer)
  unfolding need_reconnect inc_reconnects
  reconnect_first connects [] = []
  reconnect_first connects ((token, p) ∷ rest) =
      let rest' = reconnect_first connects rest in
      if need_reconnect now p.state
      then (if connects
          then (token, inc_reconnects (record p { state = State.connecting })) ∷ rest
          else (token, p) ∷ rest)
      else (token, p) ∷ rest'

  unfoldable pub update :
      Chances
      → Peers
      → (hash : Bytes) → (height max_height : ℕ) → (have_blocks : List ℕ) → (utc : ℤ) → Peers
  unfolding get_peers_active_count refresh is_stale close_peer sync behind_ping drop_gone
      reconnect_first
  update x t hash height max_height have_blocks utc =
      let nodes = get_peers_active_count t now in
      let stale = tokens_of is_stale t.peers in
      let t1 =
        close_each (record t { peers = map (refresh x nodes height hash) t.peers }) stale now in
      let t2 = record t1 {
        ignored = filter (λ entry. ltb (elapsed_secs now entry.1) 600) t1.ignored;
      } in
      let t3 = sync x nodes height max_height have_blocks t2 in
      let t4 = drop_gone (behind_ping x height hash utc t3) in
      record t4 { peers = reconnect_first x.connects t4.peers }

-- `Peers::connect_peer`: `connects` is whether a socket is got, and the result the table, the next
-- token, and whether it is `Ok`.
unfoldable pub connect_peer :
    (ruvchain_only connects : Bool)
    → (now : ℕ) → Peers
    → (unique_token : ℕ) → SocketAddr
    → Peers × ℕ × Bool
unfolding is_ignored is_ruvchain add_peer
connect_peer ruvchain_only connects now t unique_token addr =
    if is_ignored t addr.ip
    then (t, unique_token, false)
    else if ruvchain_only && not (is_ruvchain addr.ip)
    then (t, unique_token, false)
    else if connects
    then (
      add_peer t unique_token (record (new_peer addr State.connecting false now) { public = true }),
      suc unique_token,
      true,
    )
    else (t, unique_token, false)
