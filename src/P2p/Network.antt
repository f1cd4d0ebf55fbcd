-- ===== src/P2p/Network.antt =====
-- src/p2p/network.rs: the node's part of the peer-to-peer network. The mutex around the context is held
-- for one step at a time; sockets, the poll registry, logging and posted events are left out.
pub mod Blocks
pub mod Messages
pub mod Events
pub mod Handshake
pub mod Change
use ruvname.Prelude.{
  ℕ, ◌+◌, ℤ, Bool, true, false, not, ◌&&◌, Option, none, some, List, [], ◌∷◌, put_key,
  if◌then◌else◌,
}
use ruvname.Bytes.{Bytes}
use ruvname.Dns.Record.{is_ruvchain}
use ruvname.Blockchain.Block.{Block, Host}
use ruvname.Blockchain.Chain.{Chain}
use ruvname.Blockchain.Chain.Signers.{Run, ok, panic}
use ruvname.P2p.Address.{SocketAddr, unmapped}
use ruvname.P2p.State
use ruvname.P2p.Message.{Message}
use ruvname.P2p.Peer.{Peer, Chacha, new_peer}
use ruvname.P2p.Peers.{Peers, AddrText, same_token, get_peer, is_ignored, add_peer}
use ruvname.P2p.Framing.{ByteOrder}

-- What the code takes from crates, and the clocks at the time of a call: `now` is an `Instant`,
-- `utc` the time in seconds. `fuel` bounds the draws of signers, and WRONG_HASHES are two hashes.
pub record Env : Type 0 where
  pub host : Host
  pub texts : AddrText
  pub order : ByteOrder
  pub now : ℕ
  pub utc : ℤ
  pub fuel : ℕ
  pub wrong_hashes : List Bytes
  -- serde_cbor: of messages, and of blocks within them.
  pub cbor : Message → Bytes
  pub from_cbor : Bytes → Option Message
  pub as_bytes : Block → Bytes
  pub from_bytes : Bytes → Option Block
  -- x25519_dalek and chacha20poly1305.
  pub diffie_hellman : (secret_key public_key : Bytes) → Bytes
  pub encrypt : Chacha → Bytes → Option Bytes
  pub decrypt : Chacha → Bytes → Option Bytes

-- The network with what it uses of the context, and the set of block hashes that the loop keeps.
pub record Network : Type 0 where
  pub chain : Chain
  pub app_version : Bytes
  pub origin : Bytes
  pub public : Bool
  pub secret_key : Bytes
  pub public_key : Bytes
  pub token : ℕ
  pub peers : Peers
  pub future_blocks : List (ℕ × Block)
  pub seen_blocks : List Bytes

abbrev changed_peer : Network → (token : ℕ) → (Peer → Peer) → Option Peer → Run Network
changed_peer n token f none = panic
changed_peer n token f (some p) =
    ok
      (record n { peers = record n.peers { peers = put_key same_token n.peers.peers token (f p) } })

-- `self.peers.get_mut_peer(token).unwrap()`, and a change of that peer.
unfoldable pub change_peer : Network → (token : ℕ) → (Peer → Peer) → Run Network
unfolding get_peer
change_peer n token f = changed_peer n token f (get_peer n.peers token)

unfoldable pub next_token : Network → Network × ℕ
next_token n = (record n { token = n.token + 1 }, n.token)

-- One accepted connection. An address that is mapped into IPv6 is taken as IPv4.
unfoldable pub accept : Env → (ruvchain_only : Bool) → Network → SocketAddr → Network
unfolding is_ignored is_ruvchain next_token add_peer unmapped
accept env ruvchain_only n address =
    let addr = unmapped address in
    if is_ignored n.peers addr.ip
    then n
    else if ruvchain_only && not (is_ruvchain addr.ip)
    then n
    else let (n', token) = next_token n in
      record n' {
        peers =
            add_peer n'.peers token (new_peer addr (State.State.connected env.now) true env.now);
      }
