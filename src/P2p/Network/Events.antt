-- ===== src/P2p/Network/Events.antt =====
-- src/p2p/network.rs: what the node does when the socket of a connection is ready.
pub mod Reading
use ruvname.Prelude.{
  ℕ, ◌+◌, Bool, true, false, not, ◌&&◌, ◌||◌, Option, none, some, List, [], ◌∷◌, ◌==◌, leb, length,
  take, drop, if◌then◌else◌, put_key,
}
use ruvname.Bytes.{Bytes}
use ruvname.Blockchain.Constants.{chain_version}
use ruvname.Blockchain.Chain.{get_height, get_last_hash}
use ruvname.Blockchain.Chain.Signers.{Run, ok, panic, endless, ◌>>=◌}
use ruvname.Blockchain.Chain.Check.{or_panic}
use ruvname.P2p.State
use ruvname.P2p.State.{State, elapsed_secs}
use ruvname.P2p.Message
use ruvname.P2p.Message.{Message}
use ruvname.P2p.Peer.{Peer, Chacha, set_active, get_nonce}
use ruvname.P2p.Peers.{Peers, get_peer, ignore_peer, close_peer}
use ruvname.P2p.Framing
use ruvname.P2p.Framing.{
  Read, Write, ReadResult, Sent, send_message, read_message, send_client_handshake,
  send_server_handshake, read_client_handshake, read_server_handshake,
}
use ruvname.P2p.Network.{Env, Network, change_peer}
use ruvname.P2p.Network.Messages.{handle_message}

pub record Event : Type 0 where
  pub is_error : Bool
  pub is_readable : Bool
  pub is_writable : Bool
  pub is_read_closed : Bool
  pub is_write_closed : Bool

-- What one event meets: the bytes that the other side has sent, how the socket hands them over, how
-- it takes what is written, whether a handshake can be written, and random bytes.
pub record Input : Type 0 where
  pub stream : Bytes
  pub reads : List Read
  pub writes : List Write
  pub written : Bool
  pub nonce : Bytes
  pub packet : Bytes
  pub chance : Bool

module _ (env : Env) where
  abbrev pub in_state : State → Peer → Peer
  in_state s p = record p { state = s }

  -- `decode_message`, `encode_bytes` and `encode_message` by the cipher of the peer.
  abbrev pub decode : Option Chacha → Bytes → Option Bytes
  decode none bytes = some bytes
  decode (some chacha) bytes = env.decrypt chacha bytes

  abbrev pub encode_bytes : Bytes → Option Chacha → Option Bytes
  encode_bytes bytes none = some bytes
  encode_bytes bytes (some chacha) = env.encrypt chacha bytes

  abbrev pub encode_message : Message → Option Chacha → Option Bytes
  encode_message m cipher = encode_bytes (env.cbor m) cipher

  abbrev pub after_ignore : Network → (token : ℕ) → Run (Network × Bool)
  after_ignore n token = do
    peers ← or_panic (ignore_peer n.peers token env.now)
    ok (record n { peers = peers }, true)

  -- `match new_state`
  unfoldable pub apply_state : Network → (token : ℕ) → State → Run (Network × Bool)
  unfolding change_peer ignore_peer
  apply_state n token State.banned = after_ignore n token
  apply_state n token State.loop = do
    n' ← change_peer n token (in_state State.loop)
    after_ignore n' token
  apply_state n token State.twin = do n' ← change_peer n token (in_state State.twin); ok (n', false)
  apply_state n token (State.message payload) = do
    n' ← change_peer n token (in_state (State.message payload))
    ok (n', true)
  apply_state n token (State.idle from) = do
    n' ← change_peer n token (in_state (State.idle env.now))
    ok (n', true)
  apply_state n token (State.offline from) = do
    n' ← change_peer n token (in_state (State.offline env.now))
    ok (n', true)
  apply_state n token State.send_loop = do
    n' ← change_peer n token (in_state State.send_loop)
    ok (n', true)
  apply_state n token s = do n' ← change_peer n token (λ p. p); ok (n', true)

  abbrev pub or_empty : Option Bytes → Bytes
  or_empty none = []
  or_empty (some bytes) = bytes

  abbrev pub on_decoded :
      (chance : Bool) → Network → (token : ℕ) → Option Message → Run (Network × Bool)
  on_decoded chance n token none = ok (n, false)
  on_decoded chance n token (some m) = do
    (n', s) ← handle_message env chance n token m
    apply_state n' token s

  -- A message that was read, or an error.
  unfoldable pub on_message :
      (chance : Bool) → Network → (token : ℕ) → Peer → ReadResult → Run (Network × Bool)
  unfolding handle_message apply_state
  on_message chance n token p (ReadResult.read payload rest) =
      on_decoded chance n token (env.from_cbor (or_empty (decode p.cipher payload)))
  on_message chance n token p ReadResult.error = ok (n, false)
  on_message chance n token p ReadResult.running = endless

  abbrev pub with_cipher : (public_key nonce : Bytes) → State → Network → Peer → Peer
  with_cipher public_key nonce s n p = record p {
    state = s;
    cipher = some (record { key = env.diffie_hellman n.secret_key public_key; nonce = nonce });
  }

  abbrev pub on_client_handshake :
      Network → (token : ℕ) → (nonce : Bytes) → Option (Bytes × Bytes) → Run (Network × Bool)
  on_client_handshake n token nonce none = ok (n, false)
  on_client_handshake n token nonce (some (key, rest)) = do
    n' ← change_peer n token (with_cipher key nonce (State.server_handshake env.now) n)
    ok (n', true)

  abbrev pub on_server_handshake :
      Network → (token : ℕ) → Option (Bytes × Bytes) → Run (Network × Bool)
  on_server_handshake n token none = ok (n, false)
  on_server_handshake n token (some (bytes, rest)) =
      if not (length bytes == 44) then ok (n, false) else (do
        n' ←
            change_peer n token
              (with_cipher (take 32 bytes) (drop 32 bytes) State.handshake_finished n)
        ok (n', true))

  abbrev pub read_in_state : Input → Network → (token : ℕ) → Peer → State → Run (Network × Bool)
  read_in_state i n token p (State.connected from) =
      on_client_handshake n token i.nonce (read_client_handshake i.stream)
  read_in_state i n token p (State.server_handshake from) =
      on_server_handshake n token (read_server_handshake i.stream)
  read_in_state i n token p s =
      on_message i.chance n token p (read_message env.order i.stream i.reads)

  abbrev pub read_from :
      Input → Network → (token : ℕ) → (closed : Bool) → Option Peer → Run (Network × Bool)
  read_from i n token closed none = ok (n, false)
  read_from i n token closed (some p) =
      if closed then ok (n, false) else read_in_state i n token p p.state

  -- The result is whether the connection goes on.
  unfoldable pub process_readable :
      Input → Network → (token : ℕ) → (is_read_closed : Bool) → Run (Network × Bool)
  unfolding get_peer change_peer read_client_handshake read_server_handshake read_message on_message
  process_readable i n token is_read_closed =
      read_from i n token is_read_closed (get_peer n.peers token)

  -- A written handshake, after which the state changes, or a failure.
  abbrev pub after_handshake :
      Network → (token : ℕ) → (written : Bool) → State → Option Bytes → Run (Network × Bool × Bytes)
  after_handshake n token written s none = panic
  after_handshake n token written s (some bytes) =
      if written
      then (do
        n' ← change_peer n token (λ p. set_active (in_state s p) true env.now)
        ok (n', true, bytes))
      else ok (n, false, [])

  abbrev pub sent_bytes : Input → Bytes → Bytes
  sent_bytes i bytes = (send_message env.order bytes i.writes).sent

  -- A message that must be encoded; that it is not sent is only logged.
  abbrev pub after_message :
      Input → Network → (token : ℕ) → (Peer → Peer) → Option Bytes → Run (Network × Bool × Bytes)
  after_message i n token f none = panic
  after_message i n token f (some bytes) = do
    n' ← change_peer n token f
    ok (n', true, sent_bytes i bytes)

  abbrev pub sent_if : Input → Option Bytes → Bytes
  sent_if i none = []
  sent_if i (some bytes) = sent_bytes i bytes

  abbrev pub write_in_state :
      Input → Network → (token : ℕ) → Peer → State → Run (Network × Bool × Bytes)
  write_in_state i n token p State.connecting =
      after_handshake n token i.written (State.server_handshake env.now)
        (send_client_handshake i.packet n.public_key)
  write_in_state i n token p (State.server_handshake from) =
      after_handshake n token i.written State.handshake_finished
        (send_server_handshake i.packet n.public_key (get_nonce p))
  write_in_state i n token p State.handshake_finished =
      after_message i n token (λ p. set_active (in_state (State.idle env.now) p) true env.now)
        (encode_message (Message.hand n.app_version n.origin chain_version n.public n.peers.my_id)
          p.cipher)
  write_in_state i n token p (State.message payload) = do
    n' ← change_peer n token (in_state (State.idle env.now))
    ok (n', true, sent_if i (encode_bytes payload p.cipher))
  write_in_state i n token p (State.idle from) =
      if leb 120 (elapsed_secs env.now from)
      then after_message i n token (λ p. p)
          (encode_message (Message.ping (get_height n.chain) (get_last_hash n.chain)) p.cipher)
      else ok (n, true, [])
  write_in_state i n token p State.send_loop =
      after_message i n token (in_state (State.idle env.now)) (encode_message Message.loop p.cipher)
  write_in_state i n token p State.twin =
      after_message i n token (in_state (State.idle env.now)) (encode_message Message.twin p.cipher)
  write_in_state i n token p s = ok (n, true, [])

  abbrev pub write_to : Input → Network → (token : ℕ) → Option Peer → Run (Network × Bool × Bytes)
  write_to i n token none = ok (n, true, [])
  write_to i n token (some p) = write_in_state i n token p p.state

  -- The result is whether the connection goes on, and the bytes that were sent.
  unfoldable pub process_writable : Input → Network → (token : ℕ) → Run (Network × Bool × Bytes)
  unfolding get_peer change_peer set_active get_nonce send_client_handshake send_server_handshake
      send_message get_last_hash
  process_writable i n token = write_to i n token (get_peer n.peers token)

  unfoldable pub handle_connection_event :
      Input → Network → (token : ℕ) → Event → Run (Network × Bool × Bytes)
  unfolding process_readable process_writable
  handle_connection_event i n token e =
      if e.is_error || (e.is_read_closed && e.is_write_closed) then ok (n, false, []) else (do
        (n1, read) ←
            (if e.is_readable then process_readable i n token e.is_read_closed else ok (n, true))
        if not read
            then ok (n1, false, [])
            else if e.is_writable
            then process_writable i n1 token
            else ok (n1, true, []))

  -- What the main loop does with an event of a connection: one that does not go on is closed.
  unfoldable pub on_event : Input → Network → (token : ℕ) → Event → Run (Network × Bytes)
  unfolding handle_connection_event close_peer
  on_event i n token e = do
    (n', goes_on, sent) ← handle_connection_event i n token e
    if goes_on
        then ok (n', sent)
        else ok (record n' { peers = close_peer n'.peers token env.now }, sent)
