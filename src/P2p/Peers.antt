-- ===== src/P2p/Peers.antt =====
-- src/p2p/peers.rs: the table of peers. A hash map is a list of pairs in some order: the source gives
-- none, so the theorems do not speak of it. Sockets, their registration and log output are left out.
pub mod Update
pub mod Exchange
pub mod Stale
pub mod Clean
pub mod Ignored
use ruvname.Prelude.{
  ℕ, zero, suc, ◌+◌, ◌-◌, ℤ, pos, ◌+ℤ◌, ltb_ℤ, Bool, true, false, not, ◌&&◌, ◌||◌, Option, none,
  some, List, [], ◌∷◌, ◌++◌, ◌==◌, ltb, leb, if◌then◌else◌, any, count_if, filter, find, map,
  length, get_key, put_key, remove_key,
}
use ruvname.Bytes.{Bytes, same_hash}
use ruvname.Dns.Address.{IpAddr}
use ruvname.Blockchain.Constants.{listen_port}
use ruvname.P2p.Address.{SocketAddr, same_ip, skip_private_addr}
use ruvname.P2p.State
use ruvname.P2p.State.{State, elapsed_secs, is_loop}
use ruvname.P2p.Peer.{Peer, is_active, is_disabled, equals, new_peer}

-- A `Token` is its number.
pub record Peers : Type 0 where
  pub peers : List (ℕ × Peer)
  pub new_peers : List SocketAddr
  pub ignored : List (IpAddr × ℕ)
  pub my_id : Bytes
  pub behind_ping_sent_time : ℤ

abbrev pub new_peers_table : (my_id : Bytes) → Peers
new_peers_table my_id = record {
  peers = [];
  new_peers = [];
  ignored = [];
  my_id = my_id;
  behind_ping_sent_time = pos 0;
}

abbrev pub same_token : ℕ → ℕ → Bool
same_token a b = a == b

unfoldable pub add_peer : Peers → (token : ℕ) → Peer → Peers
add_peer t token p = record t { peers = put_key same_token t.peers token p }

unfoldable pub get_peer : Peers → (token : ℕ) → Option Peer
get_peer t token = get_key same_token t.peers token

-- The IP address of a connection, and the test for one.
abbrev pub has_ip : IpAddr → ℕ × Peer → Bool
has_ip ip (token, p) = same_ip p.addr.ip ip

unfoldable pub is_ignored : Peers → IpAddr → Bool
unfolding same_ip
is_ignored t ip = any (λ entry. same_ip entry.0 ip) t.ignored

unfoldable pub ignore_ip : Peers → IpAddr → (now : ℕ) → Peers
unfolding same_ip
ignore_ip t ip now = record t { ignored = put_key same_ip t.ignored ip now }

-- What `close_peer` does by the state of the removed peer; the other states are only logged.
abbrev pub close_in : Peers → Peer → (now : ℕ) → State → Peers
close_in t p now State.banned = ignore_ip t p.addr.ip now
close_in t p now s = t

abbrev pub close_removed : Peers → (now : ℕ) → Option Peer → Peers
close_removed t now none = t
close_removed t now (some p) = close_in t p now p.state

unfoldable pub close_peer : Peers → (token now : ℕ) → Peers
unfolding ignore_ip get_peer
close_peer t token now =
    close_removed (record t { peers = remove_key same_token t.peers token }) now (get_peer t token)

abbrev close_each : Peers → List ℕ → (now : ℕ) → Peers
close_each t [] now = t
close_each t (token ∷ tokens) now = close_each (close_peer t token now) tokens now

unfoldable pub close_all_peers : Peers → (now : ℕ) → Peers
unfolding close_peer
close_all_peers t now = record (close_each t (map (λ entry. entry.0) t.peers) now) { peers = [] }

-- One address from another node: it is kept unless the loop continues.
unfoldable pub add_from_exchange : Peers → Option SocketAddr → Peers
unfolding is_ignored skip_private_addr
add_from_exchange t none = t
add_from_exchange t (some addr) =
    if any (has_ip addr.ip) t.peers
    then t
    else if any (λ a. same_ip a.ip addr.ip) t.new_peers
    then t
    else if is_ignored t addr.ip
    then t
    else if skip_private_addr addr
    then t
    else record t { new_peers = t.new_peers ++ (addr ∷ []) }

abbrev pub mem_text : Bytes → List Bytes → Bool
mem_text x [] = false
mem_text x (y ∷ ys) = if same_hash x y then true else mem_text x ys

-- The hash set of the texts.
unfoldable pub distinct : List Bytes → List Bytes
distinct [] = []
distinct (x ∷ xs) = let rest = distinct xs in if mem_text x rest then rest else x ∷ rest

-- The crates and the standard library: the text of a socket address, and its reading.
pub record AddrText : Type 0 where
  pub parse_addr : Bytes → Option SocketAddr
  pub addr_text : SocketAddr → Bytes

module _ (texts : AddrText) where
  abbrev pub add_each : Peers → List Bytes → Peers
  add_each t [] = t
  add_each t (text ∷ rest) = add_each (add_from_exchange t (texts.parse_addr text)) rest

  unfoldable pub add_peers_from_exchange : Peers → List Bytes → Peers
  unfolding add_from_exchange distinct
  add_peers_from_exchange t addrs = add_each t (distinct addrs)

  -- The loop over the peers, which ends at ten addresses.
  unfoldable pub exchange_loop : (now : ℕ) → SocketAddr → List (ℕ × Peer) → List Bytes → List Bytes
  unfolding is_disabled equals is_active
  exchange_loop now to [] result = result
  exchange_loop now to ((token, p) ∷ rest) result =
      let result' =
        if p.public && is_active now p
        then result ++ (texts.addr_text (record { ip = p.addr.ip; port = listen_port }) ∷ [])
        else result in
      let again = exchange_loop now to rest result in
      let next = exchange_loop now to rest result' in
      if is_disabled now p
      then again
      else if equals p to
      then again
      else if leb 10 (length result')
      then result'
      else next

  unfoldable pub get_peers_for_exchange : Peers → SocketAddr → (now : ℕ) → List Bytes
  unfolding exchange_loop
  get_peers_for_exchange t to now = exchange_loop now to t.peers []

unfoldable pub get_peers_active_count : Peers → (now : ℕ) → ℕ
unfolding is_active
get_peers_active_count t now = count_if (λ entry. is_active now entry.1) t.peers

unfoldable pub is_tween_connect : Peers → (id : Bytes) → (now : ℕ) → Bool
unfolding is_active
is_tween_connect t id now = any (λ entry. is_active now entry.1 && same_hash entry.1.id id) t.peers

unfoldable pub skip_peer_connection : Peers → SocketAddr → (now : ℕ) → Bool
unfolding is_active is_disabled equals
skip_peer_connection t addr now =
    any
      (λ entry.
        equals entry.1 addr
        && (not entry.1.public || is_active now entry.1 || is_disabled now entry.1))
      t.peers

abbrev pub set_banned : Peer → Peer
set_banned p = if is_loop p.state then p else record p { state = State.banned }

abbrev pub close_found : Peers → (now : ℕ) → Option (ℕ × Peer) → Peers
close_found t now none = t
close_found t now (some (token, p)) = close_peer t token now

abbrev ignore_found : Peers → (token now : ℕ) → Option Peer → Option Peers
ignore_found t token now none = none
ignore_found t token now (some p) =
    let t1 = record t { peers = put_key same_token t.peers token (set_banned p) } in
    let t2 = ignore_ip (close_peer t1 token now) p.addr.ip now in
    some (close_found t2 now (find (has_ip p.addr.ip) t2.peers))

-- `none` is the panic on a token that the table does not have.
unfoldable pub ignore_peer : Peers → (token now : ℕ) → Option Peers
unfolding close_peer is_loop
ignore_peer t token now = ignore_found t token now (get_peer t token)
