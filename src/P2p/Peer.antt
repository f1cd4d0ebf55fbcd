-- ===== src/P2p/Peer.antt =====
-- src/p2p/peer.rs: a peer. Its stream is left out; setters of one field are record updates.
use ruvname.Prelude.{
  ℕ, ◌+◌, ◌%◌, Bool, true, false, not, ◌&&◌, ◌||◌, Option, none, some, ltb, leb, if◌then◌else◌,
  replicate, [],
}
use ruvname.Bytes.{Bytes}
use ruvname.P2p.Address.{SocketAddr, same_ip, same_addr, is_loopback}
use ruvname.P2p.State
use ruvname.P2p.State.{State, elapsed_secs, is_idle}

-- src/crypto/chacha.rs: a cipher is its key and its nonce.
pub record Chacha : Type 0 where
  pub key : Bytes
  pub nonce : Bytes

pub record Peer : Type 0 where
  pub addr : SocketAddr
  pub state : State
  pub id : Bytes
  pub height : ℕ
  pub inbound : Bool
  pub public : Bool
  pub active : Bool
  pub last_active : ℕ
  pub reconnects : ℕ
  pub received_block : ℕ
  pub sent_height : ℕ
  pub cipher : Option Chacha

abbrev pub new_peer : SocketAddr → State → (inbound : Bool) → (now : ℕ) → Peer
new_peer addr state inbound now = record {
  addr = addr;
  state = state;
  id = [];
  height = 0;
  inbound = inbound;
  public = false;
  active = false;
  last_active = now;
  reconnects = 0;
  received_block = 0;
  sent_height = 0;
  cipher = none;
}

abbrev pub nonce_of : Option Chacha → Bytes
nonce_of none = replicate 12 0
nonce_of (some c) = c.nonce

unfoldable pub get_nonce : Peer → Bytes
get_nonce p = nonce_of p.cipher

unfoldable pub set_active : Peer → Bool → (now : ℕ) → Peer
set_active p active now =
    if active then record p { active = true; last_active = now } else record p { active = false }

abbrev active_in : Peer → (now : ℕ) → State → Bool
active_in p now (State.connected from) = ltb (elapsed_secs now from) 5
active_in p now (State.idle from) = ltb (elapsed_secs now from) 120
active_in p now (State.server_handshake from) = ltb (elapsed_secs now from) 10
active_in p now s = p.active && ltb (elapsed_secs now p.last_active) 120

-- `active()`
unfoldable pub is_active : (now : ℕ) → Peer → Bool
is_active now p = active_in p now p.state

unfoldable pub active_recently : (now : ℕ) → Peer → Bool
active_recently now p = p.active && ltb (elapsed_secs now p.last_active) 10

unfoldable pub has_more_blocks : Peer → (height : ℕ) → Bool
unfolding is_idle
has_more_blocks p height =
    if leb p.height height
    then false
    else if ltb height p.received_block
    then false
    else if not (is_idle p.state)
    then false
    else ltb height p.height

unfoldable pub is_higher : Peer → (height : ℕ) → Bool
is_higher p height = ltb height p.height

unfoldable pub is_lower : Peer → (height : ℕ) → Bool
is_lower p height = ltb p.height height

unfoldable pub inc_reconnects : Peer → Peer
inc_reconnects p = record p { reconnects = (p.reconnects + 1) % 4294967296 }

unfoldable pub is_disabled : (now : ℕ) → Peer → Bool
unfolding State.disabled
is_disabled now p = State.disabled now p.state || ltb 2 p.reconnects

-- A loopback address is compared with its port, any other without.
unfoldable pub equals : Peer → SocketAddr → Bool
unfolding same_addr is_loopback
equals p addr = if is_loopback p.addr.ip then same_addr p.addr addr else same_ip p.addr.ip addr.ip
