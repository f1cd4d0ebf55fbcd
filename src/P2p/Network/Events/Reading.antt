-- ===== src/P2p/Network/Events/Reading.antt =====
-- src/p2p/network.rs: what the handler of a readable socket does to the chain and the future blocks, and
-- where it stops.
use ruvname.Prelude.{
  ℕ, ◌≡◌, ◌≢◌, refl, sym, inl, inr, Bool, true, false, Option, none, some, ◌==◌, length, take, drop,
  Option-cases, Bool-cases,
}
use mathlib.Core.Path.{subst}
use ruvname.Bytes.{Bytes}
use ruvname.Blockchain.Block.{Block, BlockQuality}
use ruvname.Blockchain.Chain.{Chain, SignersCache}
use ruvname.Blockchain.Chain.Signers.{Run, ok, quit, panic, endless, ◌>>=◌}
use ruvname.Blockchain.Chain.Update.Growth.{IsChain}
use ruvname.P2p.State.{State}
use ruvname.P2p.Message.{Message}
use ruvname.P2p.Peer.{Peer, set_active}
use ruvname.P2p.Peers.{Peers, get_peer, mem_text, ignore_peer}
use ruvname.P2p.Framing.{ReadResult, read_message, read_client_handshake, read_server_handshake}
use ruvname.P2p.Network.{Env, Network, change_peer}
use ruvname.P2p.Network.Change.{with_peer, get_peer-with_peer, change_peer-found}
use ruvname.P2p.Network.Blocks.{handle_block}
use ruvname.P2p.Network.Blocks.Orphans.{InRange, IsBucket}
use ruvname.P2p.Network.Blocks.Handled.{IsNode, Has, Kept, Stops, handle_block-Kept}
use ruvname.P2p.Network.Messages.{handle_block_message, handle_message}
use ruvname.P2p.Network.Messages.Answered.{Answers, handle_message-Answers}
use ruvname.P2p.Network.Events.{
  Input, decode, or_empty, apply_state, on_decoded, on_message, with_cipher, on_client_handshake,
  on_server_handshake, read_in_state, process_readable,
}

-- A chain, but for the greatest height known.
IsChain-same : (c c' : Chain) → record c' { max_height = c.max_height } ≡ c → IsChain c → IsChain c'
IsChain-same c c' same h =
    let k = subst IsChain (sym same) h in
    record {
      bounded = k.bounded;
      stored = k.stored;
      linked = k.linked;
      domains_below = k.domains_below;
      last_starts = k.last_starts;
      last_hash = k.last_hash;
    }

module _ (env : Env) (chance : Bool) where
  -- A message with a block has one whose index is in range.
  abbrev pub Decodes : Message → Type 0
  Decodes m =
      (index : ℕ) (payload : Bytes) (b : Block)
      → m ≡ Message.block index payload
      → env.from_bytes payload ≡ some b
      → InRange b

  -- Where the handling of a message stops: in that of the block that it brings.
  abbrev pub MessageStops : Network → Message → Run (BlockQuality × SignersCache) → Type 0
  MessageStops n m r =
      (index : ℕ) × (payload : Bytes) × (b : Block) × (m ≡ Message.block index payload)
      × (env.from_bytes payload ≡ some b)
      × Stops env n.chain n.future_blocks b r

  abbrev pub KeepsPeer : Network → Message → (token : ℕ) → Run (Network × State) → Type 0
  KeepsPeer n m token r = Kept env (MessageStops n m) (λ n. Has n token) r

  Answers-Kept :
      (n : Network) (m : Message) (token : ℕ) (r : Run (Network × State))
      → IsNode n
      → Answers n token r
      → KeepsPeer n m token r
  Answers-Kept n m token r (h, all) a = rw a.runs (
    (IsChain-same n.chain a.next.chain a.same_chain h, subst IsBucket (sym a.same_future) all),
    a.has_peer,
  )

  from_block :
      (n : Network) (token index : ℕ) (payload : Bytes) (b : Block) (r : Run (Network × State))
      → env.from_bytes payload ≡ some b
      → Kept env (Stops env n.chain n.future_blocks b) (λ n. Has n token) r
      → KeepsPeer n (Message.block index payload) token r
  from_block n token index payload b (ok (n', s)) e h = h
  from_block n token index payload b (quit q s) e h = absurd h
  from_block n token index payload b panic e h = (index, payload, b, refl, e, h)
  from_block n token index payload b endless e h = (index, payload, b, refl, e, h)

  block_message-Kept :
      (n : Network) (token index : ℕ) (payload : Bytes)
      → IsNode n
      → Has n token
      → Decodes (Message.block index payload)
      → KeepsPeer n
          (Message.block index payload)
          token
          (handle_block_message env chance n token index payload)
  unfolding handle_block_message
  block_message-Kept n token index payload h (p, found) decodes =
      let f : Peer → Peer = λ q. set_active q true env.now in
      let n1 = with_peer n token (f p) in
      let has : Has n1 token = (f p, get_peer-with_peer n token (f p)) in
      rw (handle_block_message, change_peer-found n token f p found)
        (elim (Option-cases (env.from_bytes payload)) [
          | inl e ↦ rw e (h, has)
          | inr (b, e) ↦ elim (Bool-cases (index == b.index)) [
            | inr other ↦ rw (e, other) (h, has)
            | inl same ↦ elim (Bool-cases (mem_text b.hash n.seen_blocks)) [
              | inl seen ↦ rw (e, same) (rw seen (h, has))
              | inr new ↦
                  rw (e, same)
                    (rw new (
                      from_block n token index payload b (handle_block env n1 token b) e
                        (handle_block-Kept env n1 token b h (decodes index payload b refl e) has)))
            ]
          ]
        ])

  -- A message from a peer of the table leaves the chain a chain, and the peer in the table.
  pub handle_message-Kept :
      (n : Network) (token : ℕ) (m : Message)
      → IsNode n
      → Has n token
      → Decodes m
      → KeepsPeer n m token (handle_message env chance n token m)
  unfolding handle_message
  handle_message-Kept n token (Message.block index payload) h has decodes =
      block_message-Kept n token index payload h has decodes
  handle_message-Kept n token m h (p, found) decodes =
      Answers-Kept n m token (handle_message env chance n token m) h
        (handle_message-Answers env chance n token p found m (λ index payload e. cc))

module _ (env : Env) where
  -- A run that closes or ignores the connection may remove the peer.
  abbrev pub KeepsNode :
      {A : Type 0} → (Run (BlockQuality × SignersCache) → Type 0) → Run (Network × A) → Type 0
  KeepsNode Stop r = Kept env Stop (λ n. Unit) r

  -- Where the reading of a message stops: in the handling of the message that arrives.
  abbrev pub ReadStops : Input → Network → (token : ℕ) → Run (BlockQuality × SignersCache) → Type 0
  ReadStops i n token r =
      (p : Peer) × (payload : Bytes) × (rest : Bytes) × (m : Message) × (get_peer n.peers token
        ≡ some p)
      × (read_message env.order i.stream i.reads ≡ ReadResult.read payload rest)
      × (env.from_cbor (or_empty env (decode env p.cipher payload)) ≡ some m)
      × MessageStops env i.chance n m r

  ignore_peer-found :
      (t : Peers) (token now : ℕ) (p : Peer)
      → get_peer t token ≡ some p
      → (t' : Peers) × (ignore_peer t token now ≡ some t')
  unfolding ignore_peer
  ignore_peer-found t token now p found = rw (ignore_peer, found) (_, refl)

  module _ (Stop : Run (BlockQuality × SignersCache) → Type 0) where
    change_peer-Kept :
        (n : Network) (token : ℕ) (f : Peer → Peer) (b : Bool)
        → IsNode n
        → Has n token
        → KeepsNode Stop (change_peer n token f >>= λ n'. ok (n', b))
    change_peer-Kept n token f b h (p, found) = rw (change_peer-found n token f p found) (h, tt)

    apply_state-Kept :
        (n : Network) (token : ℕ) (s : State)
        → IsNode n
        → Has n token
        → KeepsNode Stop (apply_state env n token s)
    unfolding apply_state
    apply_state-Kept n token State.banned h (p, found) =
        let (t, e) = ignore_peer-found n.peers token env.now p found in rw (apply_state, e) (h, tt)
    apply_state-Kept n token State.loop h (p, found) =
        let f : Peer → Peer = λ q. record q { state = State.loop } in
        let n' = with_peer n token (f p) in
        let (t, e) =
          ignore_peer-found n'.peers token env.now (f p) (get_peer-with_peer n token (f p)) in
        rw (apply_state, change_peer-found n token f p found) (rw e (h, tt))
    apply_state-Kept n token State.twin h has =
        change_peer-Kept n token (λ q. record q { state = State.twin }) false h has
    apply_state-Kept n token (State.message payload) h has =
        change_peer-Kept n token (λ q. record q { state = State.message payload }) true h has
    apply_state-Kept n token (State.idle from) h has =
        change_peer-Kept n token (λ q. record q { state = State.idle env.now }) true h has
    apply_state-Kept n token (State.offline from) h has =
        change_peer-Kept n token (λ q. record q { state = State.offline env.now }) true h has
    apply_state-Kept n token State.send_loop h has =
        change_peer-Kept n token (λ q. record q { state = State.send_loop }) true h has
    apply_state-Kept n token s h has = change_peer-Kept n token (λ q. q) true h has

    after_answer :
        (token : ℕ) (r : Run (Network × State))
        → Kept env Stop (λ n. Has n token) r
        → KeepsNode Stop (r >>= λ (n, s). apply_state env n token s)
    after_answer token (ok (n, s)) (h, has) = apply_state-Kept n token s h has
    after_answer token (quit q s) h = absurd h
    after_answer token panic h = h
    after_answer token endless h = h

  module _ (i : Input) (n : Network) (token : ℕ) (h : IsNode n)
      (decodes : (p : Peer) (payload rest : Bytes) (m : Message)
        → get_peer n.peers token ≡ some p
        → read_message env.order i.stream i.reads ≡ ReadResult.read payload rest
        → env.from_cbor (or_empty env (decode env p.cipher payload)) ≡ some m
        → Decodes env i.chance m)
      (in_time : read_message env.order i.stream i.reads ≢ ReadResult.running) where
    from_message :
        (p : Peer) (payload rest : Bytes) (m : Message) (r : Run (Network × State))
        → get_peer n.peers token ≡ some p
        → read_message env.order i.stream i.reads ≡ ReadResult.read payload rest
        → env.from_cbor (or_empty env (decode env p.cipher payload)) ≡ some m
        → KeepsPeer env i.chance n m token r
        → Kept env (ReadStops i n token) (λ n. Has n token) r
    from_message p payload rest m (ok (n', s)) found read e h = h
    from_message p payload rest m (quit q s) found read e h = absurd h
    from_message p payload rest m panic found read e h = (p, payload, rest, m, found, read, e, h)
    from_message p payload rest m endless found read e h = (p, payload, rest, m, found, read, e, h)

    on_decoded-Kept :
        (p : Peer) (payload rest : Bytes) (o : Option Message)
        → get_peer n.peers token ≡ some p
        → read_message env.order i.stream i.reads ≡ ReadResult.read payload rest
        → env.from_cbor (or_empty env (decode env p.cipher payload)) ≡ o
        → KeepsNode (ReadStops i n token) (on_decoded env i.chance n token o)
    on_decoded-Kept p payload rest none found read e = (h, tt)
    on_decoded-Kept p payload rest (some m) found read e =
        after_answer (ReadStops i n token) token (handle_message env i.chance n token m) (
          from_message p payload rest m (handle_message env i.chance n token m) found read e (
            handle_message-Kept env i.chance n token m h (p, found)
              (decodes p payload rest m found read e)))

    on_message-Kept :
        (p : Peer) (r : ReadResult)
        → get_peer n.peers token ≡ some p
        → read_message env.order i.stream i.reads ≡ r
        → r ≢ ReadResult.running
        → KeepsNode (ReadStops i n token) (on_message env i.chance n token p r)
    unfolding on_message
    on_message-Kept p (ReadResult.read payload rest) found read ends =
        on_decoded-Kept p payload rest (env.from_cbor (or_empty env (decode env p.cipher payload)))
          found read refl
    on_message-Kept p ReadResult.error found read ends = (h, tt)
    on_message-Kept p ReadResult.running found read ends = absurd (ends refl)

    on_client_handshake-Kept :
        (o : Option (Bytes × Bytes))
        → Has n token
        → KeepsNode (ReadStops i n token) (on_client_handshake env n token i.nonce o)
    on_client_handshake-Kept none has = (h, tt)
    on_client_handshake-Kept (some (key, rest)) has =
        change_peer-Kept (ReadStops i n token) n token
          (with_cipher env key i.nonce (State.server_handshake env.now) n) true h has

    on_server_handshake-Kept :
        (o : Option (Bytes × Bytes))
        → Has n token
        → KeepsNode (ReadStops i n token) (on_server_handshake env n token o)
    on_server_handshake-Kept none has = (h, tt)
    on_server_handshake-Kept (some (bytes, rest)) has = elim (Bool-cases (length bytes == 44)) [
      | inl e ↦ rw e (
          change_peer-Kept (ReadStops i n token) n token
            (with_cipher env (take 32 bytes) (drop 32 bytes) State.handshake_finished n) true h has)
      | inr e ↦ rw e (h, tt)
    ]

    read_in_state-Kept :
        (p : Peer) (s : State)
        → get_peer n.peers token ≡ some p
        → KeepsNode (ReadStops i n token) (read_in_state env i n token p s)
    read_in_state-Kept p (State.connected from) found =
        on_client_handshake-Kept (read_client_handshake i.stream) (p, found)
    read_in_state-Kept p (State.server_handshake from) found =
        on_server_handshake-Kept (read_server_handshake i.stream) (p, found)
    read_in_state-Kept p s found =
        on_message-Kept p (read_message env.order i.stream i.reads) found refl in_time

    -- Whatever a connection sends, in whatever state it is: the chain is a chain afterwards, and
    -- the future blocks stand under their indices, given that a block in the message has an index of
    -- at least 1 and below 2 ^ 63 - 1, and that the reading of a message ends. A panic or an endless
    -- run is one that the block in the message causes: in its check, in the check of a future block that
    -- follows it when it is good, or, when it is a fork, a panic of its comparison with the block at its
    -- index.
    pub process_readable-Kept :
        (is_read_closed : Bool)
        → KeepsNode (ReadStops i n token) (process_readable env i n token is_read_closed)
    unfolding process_readable
    process_readable-Kept is_read_closed = elim (Option-cases (get_peer n.peers token)) [
      | inl e ↦ rw (process_readable, e) (h, tt)
      | inr (p, e) ↦ elim (Bool-cases is_read_closed) [
        | inl closed ↦ rw (process_readable, e) (rw closed (h, tt))
        | inr up ↦ rw (process_readable, e) (rw up (read_in_state-Kept p p.state e))
      ]
    ]
