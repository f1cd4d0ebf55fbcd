-- ===== src/P2p/Tests.antt =====
-- The theorems on peers and messages at inputs that meet their hypotheses.
use ruvname.Prelude.{
  ℕ, ◌+◌, ◌*◌, ◌/◌, ◌%◌, ◌≤◌, ◌≡◌, refl, inl, inr, pos, Bool, true, false, none, some, List, [],
  ◌∷◌, ◌++◌, All, length, length-replicate, replicate, arith,
}
use mathlib.Core.Path.{subst}
use ruvname.Bytes.{Bytes}
use ruvname.Blockchain.Block.{Block}
use ruvname.Blockchain.Chain.Signers.{ok}
use ruvname.Blockchain.Samples.{one_block, second, one_block-IsChain}
use ruvname.P2p.Address.{SocketAddr}
use ruvname.P2p.State.{State}
use ruvname.P2p.Message.{Message}
use ruvname.P2p.Peer.{Peer}
use ruvname.P2p.Peers.{
  Peers, get_peer, is_ignored, ignore_peer, add_peers_from_exchange, get_peers_for_exchange,
}
use ruvname.P2p.Peers.Update.{update, connect_peer}
use ruvname.P2p.Peers.Clean.{Swept, update-Swept}
use ruvname.P2p.Peers.Ignored.{ignore_peer-refused}
use ruvname.P2p.Peers.Exchange.{
  TakenBy, IsRead, IsShared, add_peers_from_exchange-TakenBy, get_peers_for_exchange-IsShared,
}
use ruvname.P2p.Framing.{
  Read, Write, ReadResult, send_message, read_message, write_all, read_loop, mask_length,
  send_client_handshake, send_server_handshake, read_client_handshake, read_server_handshake,
}
use ruvname.P2p.Framing.RoundTrip.{ReadsBack, read_message-send_message}
use ruvname.P2p.Framing.Handshake.{send_client_handshake-read, send_server_handshake-read}
use ruvname.P2p.Network.{Network}
use ruvname.P2p.Network.Handshake.{AreLinked, chacha_of, run_handshake, run_handshake-agrees}
use ruvname.P2p.Network.Blocks.{future_loop, handle_block}
use ruvname.P2p.Network.Blocks.Orphans.{InRange, LoopDone, future_loop-LoopDone}
use ruvname.P2p.Network.Blocks.Handled.{IsNode, Has, Kept, Stops, handle_block-Kept}
use ruvname.P2p.Network.Messages.{handle_message}
use ruvname.P2p.Network.Messages.Answered.{Answers, handle_message-Answers}
use ruvname.P2p.Network.Events.{Input, process_readable}
use ruvname.P2p.Network.Events.Reading.{KeepsNode, ReadStops, process_readable-Kept}
use ruvname.P2p.Samples.{
  far, near, texts, with_state, table, toy_cbor, big_endian, env, node, input, chances,
}

update-Swept_example :
    Swept toy_cbor 9 (update toy_cbor 9 chances (table State.error) [] 3 5 [] (pos 6))
update-Swept_example = update-Swept toy_cbor 9 chances (table State.error) [] 3 5 [] (pos 6)

ignore_peer-refused_example :
    (t' : Peers) × (ignore_peer (table State.connecting) 1 9 ≡ some t')
    × (get_peer t' 1 ≡ none)
    × (is_ignored t' far.ip ≡ true)
    × ((ruvchain_only connects : Bool) (later next port : ℕ)
        → connect_peer ruvchain_only connects later t' next (record { ip = far.ip; port = port })
          ≡ (t', next, false))
ignore_peer-refused_example =
    ignore_peer-refused 9 (table State.connecting) 1 (with_state State.connecting)
      (unfold get_peer in refl)

add_peers_from_exchange-TakenBy_example :
    (added : List SocketAddr) × (add_peers_from_exchange texts
        (table State.connecting)
        ((1 ∷ []) ∷ [])
      ≡ record (table State.connecting) { new_peers = added })
    × TakenBy (table State.connecting) added
    × All (IsRead texts ((1 ∷ []) ∷ [])) added
add_peers_from_exchange-TakenBy_example =
    add_peers_from_exchange-TakenBy texts (table State.connecting) ((1 ∷ []) ∷ [])

get_peers_for_exchange-IsShared_example :
    All
      (IsShared texts 9 near (table (State.idle 0)).peers)
      (get_peers_for_exchange texts (table (State.idle 0)) near 9)
    × (length (get_peers_for_exchange texts (table (State.idle 0)) near 9) ≤ 10)
get_peers_for_exchange-IsShared_example =
    get_peers_for_exchange-IsShared texts (table (State.idle 0)) near 9

big_endian-ReadsBack : ReadsBack big_endian
big_endian-ReadsBack n rest h =
    let same : (n / 256) * 256 + n % 256 ≡ n = omega arith in rw same refl

-- Five bytes go out in two parts, and three come in in three.
abbrev slow_writes : List Write
slow_writes = Write.wrote 2 false ∷ Write.interrupted false ∷ Write.wrote 3 false ∷ []

abbrev slow_reads : List Read
slow_reads =
    Read.available 1
    ∷ Read.interrupted
    ∷ Read.would_block false
    ∷ Read.available 1
    ∷ Read.available 7
    ∷ []

read_message-send_message_example :
    read_message big_endian
      ((send_message big_endian (1 ∷ 2 ∷ 3 ∷ []) slow_writes).sent ++ 9 ∷ [])
      slow_reads
    ≡ ReadResult.read (1 ∷ 2 ∷ 3 ∷ []) (9 ∷ [])
read_message-send_message_example =
    read_message-send_message big_endian (1 ∷ 2 ∷ 3 ∷ []) (9 ∷ []) slow_writes slow_reads
      big_endian-ReadsBack (omega arith) (omega arith) (unfold send_message write_all in refl)
      (
        omega arith,
        inr (
          omega arith,
          (refl, (omega arith, inr (omega arith, (omega arith, inl (omega arith))))),
        ),
      )

send_client_handshake-read_example :
    (sent : Bytes) × (send_client_handshake (replicate 64 7) (replicate 32 1) ≡ some sent)
    × (read_client_handshake (sent ++ 9 ∷ []) ≡ some (replicate 32 1, 9 ∷ []))
send_client_handshake-read_example =
    send_client_handshake-read (replicate 64 7) (replicate 32 1) (9 ∷ [])
      (omega (arith, length-replicate {A = ℕ} 64 7)) (omega (arith, length-replicate {A = ℕ} 64 7))
      (length-replicate {A = ℕ} 32 1)

send_server_handshake-read_example :
    (sent : Bytes) × (send_server_handshake (replicate 64 7) (replicate 32 1) (replicate 12 3)
      ≡ some sent)
    × (read_server_handshake (sent ++ 9 ∷ []) ≡ some (replicate 32 1 ++ replicate 12 3, 9 ∷ []))
send_server_handshake-read_example =
    send_server_handshake-read (replicate 64 7) (replicate 32 1) (replicate 12 3) (9 ∷ [])
      (omega (arith, length-replicate {A = ℕ} 64 7)) (omega (arith, length-replicate {A = ℕ} 64 7))
      (length-replicate {A = ℕ} 32 1) (length-replicate {A = ℕ} 12 3)

abbrev client : Network
client = node 1 State.connecting

abbrev server : Network
server = node 2 (State.connected 0)

are_linked :
    AreLinked env env input input client server 1 1
      (with_state State.connecting)
      (with_state (State.connected 0))
are_linked = record {
  client_found = unfold get_peer in refl;
  server_found = unfold get_peer in refl;
  client_connecting = refl;
  from = 0;
  server_connected = refl;
  client_written = refl;
  server_written = refl;
  client_packet =
      (omega (arith, length-replicate {A = ℕ} 64 7), omega (arith, length-replicate {A = ℕ} 64 7));
  server_packet =
      (omega (arith, length-replicate {A = ℕ} 64 7), omega (arith, length-replicate {A = ℕ} 64 7));
  client_key = length-replicate {A = ℕ} 32 1;
  server_key = length-replicate {A = ℕ} 32 2;
  nonce = length-replicate {A = ℕ} 12 3;
  secret = refl;
}

run_handshake-agrees_example :
    (nc' ns' : Network) × (pc' ps' : Peer) × (run_handshake env env input input client 1 server 1
      ≡ ok (nc', ns', true ∷ true ∷ true ∷ true ∷ []))
    × (get_peer nc'.peers 1 ≡ some pc')
    × (get_peer ns'.peers 1 ≡ some ps')
    × (pc'.state ≡ State.handshake_finished)
    × (ps'.state ≡ State.handshake_finished)
    × (pc'.cipher ≡ ps'.cipher)
    × (ps'.cipher ≡ chacha_of (3 ∷ []) (replicate 12 3))
run_handshake-agrees_example =
    run_handshake-agrees env env input input client server 1 1 (with_state State.connecting)
      (with_state (State.connected 0)) are_linked

second-InRange : InRange second
second-InRange = (omega arith, omega arith)

node-IsNode : (s : State) → IsNode (node 1 s)
node-IsNode s = (one_block-IsChain, tt)

node-Has : (s : State) → Has (node 1 s) 1
unfolding get_peer
node-Has s = (with_state s, refl)

handle_block-Kept_example :
    Kept env
      (Stops env one_block [] second)
      (λ n'. Has n' 1)
      (handle_block env (node 1 (State.idle 0)) 1 second)
handle_block-Kept_example =
    handle_block-Kept env (node 1 (State.idle 0)) 1 second (node-IsNode (State.idle 0))
      second-InRange (node-Has (State.idle 0))

future_loop-LoopDone_example :
    LoopDone env one_block ((2, second) ∷ []) 2 (future_loop env 2 one_block ((2, second) ∷ []) 2)
future_loop-LoopDone_example =
    future_loop-LoopDone env 2 one_block ((2, second) ∷ []) 2 (omega arith) one_block-IsChain
      ((refl, second-InRange), tt) (omega arith)

handle_message-Answers_example :
    Answers
      (node 1 (State.idle 0))
      1
      (handle_message env true (node 1 (State.idle 0)) 1 (Message.ping 7 []))
handle_message-Answers_example =
    handle_message-Answers env true (node 1 (State.idle 0)) 1 (with_state (State.idle 0))
      (unfold get_peer in refl) (Message.ping 7 []) (λ index payload e. cc)

-- A message of two bytes, which is the second block.
abbrev block_input : Input
block_input = record input { stream = 170 ∷ 168 ∷ 2 ∷ 9 ∷ [] }

block_input-read :
    read_message big_endian block_input.stream block_input.reads ≡ ReadResult.read (2 ∷ 9 ∷ []) []
unfolding read_message read_loop mask_length
block_input-read = refl

decodes_second : (b : Block) → env.from_bytes (9 ∷ []) ≡ some b → InRange b
decodes_second b e = let same : second ≡ b = cc in subst InRange same second-InRange

process_readable-Kept_example :
    KeepsNode env
      (ReadStops env block_input (node 1 (State.idle 0)) 1)
      (process_readable env block_input (node 1 (State.idle 0)) 1 false)
process_readable-Kept_example =
    process_readable-Kept env block_input (node 1 (State.idle 0)) 1 (node-IsNode (State.idle 0))
      (λ p payload rest m found read decoded index inner b e from. decodes_second b from)
      (λ e. cc (block_input-read, e)) false
