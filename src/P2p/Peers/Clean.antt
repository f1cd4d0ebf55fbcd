-- ===== src/P2p/Peers/Clean.antt =====
-- src/p2p/peers.rs: what `update` leaves in the table.
use ruvname.Prelude.{
  ℕ, ◌+◌, ◌-◌, ◌<◌, refl, inl, inr, ℤ, Bool, not, ◌&&◌, ◌||◌, Option, none, some, List, [], ◌∷◌,
  ◌==◌, ltb, leb, any, filter, map, All, AllKeys, ◌%◌, AllKeys-put_key, Bool-cases, get_elem?,
  length, add64, arith, ltb_ℤ, pos, ◌+ℤ◌,
}
use ruvname.Bytes.{Bytes}
use ruvname.Dns.Address.{IpAddr}
use ruvname.P2p.Address.{same_ip}
use ruvname.P2p.State.{elapsed_secs, need_reconnect}
use ruvname.P2p.Message.{Message}
use ruvname.P2p.Peer.{Peer, inc_reconnects, has_more_blocks}
use ruvname.Blockchain.Constants.{min_connected_nodes_start_sync}
use ruvname.P2p.Peers.{Peers, get_peers_active_count, close_each, ignore_ip}
use ruvname.P2p.Peers.Update.{
  Chances, refresh, is_stale, tokens_of, set_message, ask_loop, ask_blocks_from_peers, sync,
  is_behind, min_of, pinged, ping_chosen, behind_ping, is_gone, ignore_each, drop_gone,
  reconnect_first, update,
}
use ruvname.P2p.Peers.Stale.{IsUsable, close_each-IsUsable, refreshed}

module _ (cbor : Message → Bytes) (now : ℕ) where
  set_message-IsUsable :
      (peers : List (ℕ × Peer)) (token : ℕ) (m : Message)
      → All IsUsable peers
      → All IsUsable (set_message cbor now peers token m)
  set_message-IsUsable [] token m all = tt
  set_message-IsUsable ((token', p) ∷ peers) token m (u, all) =
      elim (Bool-cases (token' == token)) [
        | inl e ↦ rw e (refl, set_message-IsUsable peers token m all)
        | inr e ↦ rw e (u, set_message-IsUsable peers token m all)
      ]

  ask_loop-IsUsable :
      (peers : List (ℕ × Peer)) (tokens : List ℕ) (index max_height : ℕ) (have : List ℕ)
      → All IsUsable peers
      → All IsUsable (ask_loop cbor now peers tokens index max_height have)
  unfolding ask_loop
  ask_loop-IsUsable peers [] index max_height have all = all
  ask_loop-IsUsable peers (token ∷ tokens) index max_height have all =
      let asked = set_message-IsUsable peers token (Message.get_block index) all in
      elim (Bool-cases (any (λ i. i == index) have)) [
        | inl e ↦ rw e (ask_loop-IsUsable peers tokens (add64 index 1) max_height have all)
        | inr e ↦ elim (Bool-cases (ltb max_height (add64 index 1))) [
          | inl f ↦ rw (e, f) asked
          | inr f ↦
              rw (e, f)
                (ask_loop-IsUsable (set_message cbor now peers token (Message.get_block index))
                  tokens (add64 index 1) max_height have asked)
        ]
      ]

  pinged-IsUsable :
      (height : ℕ) (hash : Bytes) (peers : List (ℕ × Peer)) (token : ℕ)
      → All IsUsable peers
      → All IsUsable (pinged cbor now height hash peers token)
  pinged-IsUsable height hash [] token all = tt
  pinged-IsUsable height hash ((token', p) ∷ peers) token (u, all) =
      elim (Bool-cases (token' == token)) [
        | inl e ↦ rw e (refl, pinged-IsUsable height hash peers token all)
        | inr e ↦ rw e (u, pinged-IsUsable height hash peers token all)
      ]

  reconnect_first-IsUsable :
      (connects : Bool) (peers : List (ℕ × Peer))
      → All IsUsable peers
      → All IsUsable (reconnect_first cbor now connects peers)
  unfolding reconnect_first inc_reconnects
  reconnect_first-IsUsable connects [] all = tt
  reconnect_first-IsUsable connects ((token, p) ∷ peers) (u, all) =
      elim (Bool-cases (need_reconnect now p.state)) [
        | inl e ↦ rw e (ground arith)
        | inr e ↦ rw e (u, reconnect_first-IsUsable connects peers all)
      ]

  -- The time of a ban, and that it is less than ten minutes ago.
  abbrev pub IsRecent : IpAddr → ℕ → Type 0
  IsRecent ip from = elapsed_secs now from < 600

  retained :
      (ignored : List (IpAddr × ℕ))
      → AllKeys same_ip IsRecent (filter (λ entry. ltb (elapsed_secs now entry.1) 600) ignored)
  retained [] = tt
  retained ((ip, from) ∷ ignored) = elim (Bool-cases (ltb (elapsed_secs now from) 600)) [
    | inl e ↦ rw (e, filter) (ground arith, retained ignored)
    | inr e ↦ rw (e, filter) (retained ignored)
  ]

  now-IsRecent : (ip : IpAddr) → IsRecent ip now
  now-IsRecent ip = omega arith

  -- What `update` makes true.
  abbrev pub Swept : Peers → Type 0
  Swept t = All IsUsable t.peers × AllKeys same_ip IsRecent t.ignored

  ignore_each-Swept : (t : Peers) (ips : List IpAddr) → Swept t → Swept (ignore_each cbor now t ips)
  unfolding ignore_ip
  ignore_each-Swept t [] h = h
  ignore_each-Swept t (ip ∷ ips) (u, r) = ignore_each-Swept (ignore_ip t ip now) ips (
    u,
    AllKeys-put_key same_ip IsRecent t.ignored ip now r (λ k' same. now-IsRecent k')
        (now-IsRecent ip),
  )

  All-filter-IsUsable :
      (p : ℕ × Peer → Bool) (peers : List (ℕ × Peer))
      → All IsUsable peers
      → All IsUsable (filter p peers)
  All-filter-IsUsable p [] all = tt
  All-filter-IsUsable p (e ∷ peers) (u, all) = elim (Bool-cases (p e)) [
    | inl y ↦ rw (y, filter) (u, All-filter-IsUsable p peers all)
    | inr n ↦ rw (n, filter) (All-filter-IsUsable p peers all)
  ]

  drop_gone-Swept : (t : Peers) → Swept t → Swept (drop_gone cbor now t)
  unfolding drop_gone
  drop_gone-Swept t (u, r) =
      ignore_each-Swept
        (record t { peers = filter (λ entry. not (is_gone cbor now entry.1)) t.peers })
        (map (λ entry. entry.1.addr.ip) (filter (λ entry. is_gone cbor now entry.1) t.peers))
        (All-filter-IsUsable (λ entry. not (is_gone cbor now entry.1)) t.peers u, r)

  ping_chosen-Swept :
      (height : ℕ) (hash : Bytes) (utc : ℤ) (t : Peers) (o : Option ℕ)
      → Swept t
      → Swept (ping_chosen cbor now height hash utc t o)
  ping_chosen-Swept height hash utc t none h = h
  ping_chosen-Swept height hash utc t (some token) (u, r) =
      (pinged-IsUsable height hash t.peers token u, r)

  behind_ping-Swept :
      (x : Chances) (height : ℕ) (hash : Bytes) (utc : ℤ) (t : Peers)
      → Swept t
      → Swept (behind_ping cbor now x height hash utc t)
  unfolding behind_ping
  behind_ping-Swept x height hash utc t h =
      elim (Bool-cases (ltb_ℤ (t.behind_ping_sent_time +ℤ pos 5) utc)) [
        | inl e ↦
            let candidates = tokens_of cbor now (is_behind cbor now height) t.peers in
            rw e (
              ping_chosen-Swept height hash utc t
                (get_elem? candidates (x.choose % length candidates)) h)
        | inr e ↦ rw e h
      ]

  ask_blocks_from_peers-Swept :
      (x : Chances) (t : Peers) (height max_height : ℕ) (have : List ℕ)
      → Swept t
      → Swept (ask_blocks_from_peers cbor now x t height max_height have)
  unfolding ask_blocks_from_peers
  ask_blocks_from_peers-Swept x t height max_height have (u, r) = (
    ask_loop-IsUsable t.peers
        (x.choose_multiple (tokens_of cbor now (λ p. has_more_blocks p height) t.peers)
          (max_height - height))
        (add64 height 1) max_height have u,
    r,
  )

  sync-Swept :
      (x : Chances) (nodes height max_height : ℕ) (have : List ℕ) (t : Peers)
      → Swept t
      → Swept (sync cbor now x nodes height max_height have t)
  unfolding sync
  sync-Swept x nodes height max_height have t h =
      elim (Bool-cases (
        leb min_connected_nodes_start_sync nodes
        && ltb height max_height
        && (leb 10 nodes || x.requests_blocks))) [
          | inl e ↦ rw e (
              ask_blocks_from_peers-Swept x t height
                (height + min_of cbor now (max_height - height) nodes) have h)
          | inr e ↦ rw e h
        ]

  -- After `update`, no connection of the table is in error or banned, and no address is ignored for
  -- ten minutes or longer, whatever the table was, and whatever chance decides.
  pub update-Swept :
      (x : Chances) (t : Peers) (hash : Bytes) (height max_height : ℕ) (have : List ℕ) (utc : ℤ)
      → Swept (update cbor now x t hash height max_height have utc)
  unfolding update
  update-Swept x t hash height max_height have utc =
      let nodes = get_peers_active_count t now in
      let t1 =
        close_each (record t { peers = map (refresh cbor now x nodes height hash) t.peers })
          (tokens_of cbor now (is_stale cbor now) t.peers) now in
      let t2 = record t1 {
        ignored = filter (λ entry. ltb (elapsed_secs now entry.1) 600) t1.ignored;
      } in
      let closed =
        close_each-IsUsable now (tokens_of cbor now (is_stale cbor now) t.peers)
          (record t { peers = map (refresh cbor now x nodes height hash) t.peers })
          (refreshed cbor now x nodes height hash t.peers) in
      let synced = sync-Swept x nodes height max_height have t2 (closed, retained t1.ignored) in
      let t3 = sync cbor now x nodes height max_height have t2 in
      let (usable, recent) =
        drop_gone-Swept (behind_ping cbor now x height hash utc t3)
          (behind_ping-Swept x height hash utc t3 synced) in
      (
        reconnect_first-IsUsable x.connects
            (drop_gone cbor now (behind_ping cbor now x height hash utc t3)).peers usable,
        recent,
      )
