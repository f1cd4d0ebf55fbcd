-- ===== src/P2p/Network/Change.antt =====
-- src/p2p/network.rs: a change of one peer that the table has.
use ruvname.Prelude.{ℕ, ◌≡◌, refl, some, put_key, get_key-put_key, arith}
use ruvname.Blockchain.Chain.Signers.{ok}
use ruvname.P2p.Peer.{Peer}
use ruvname.P2p.Peers.{same_token, get_peer}
use ruvname.P2p.Network.{Network, change_peer}

-- The network after a change of one peer.
abbrev pub with_peer : Network → (token : ℕ) → Peer → Network
with_peer n token p = record n {
  peers = record n.peers { peers = put_key same_token n.peers.peers token p };
}

pub get_peer-with_peer :
    (n : Network) (token : ℕ) (p : Peer) → get_peer (with_peer n token p).peers token ≡ some p
unfolding get_peer
get_peer-with_peer n token p = get_key-put_key same_token n.peers.peers token p (ground arith)

pub change_peer-found :
    (n : Network) (token : ℕ) (f : Peer → Peer) (p : Peer)
    → get_peer n.peers token ≡ some p
    → change_peer n token f ≡ ok (with_peer n token (f p))
unfolding change_peer
change_peer-found n token f p found = rw (change_peer, found) refl
