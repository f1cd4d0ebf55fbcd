-- ===== src/P2p/Network/Handshake.antt =====
-- src/p2p/network.rs: the handshake of two nodes, from the first packet to the common cipher.
use ruvname.Prelude.{
  ℕ, ◌<◌, ◌≤◌, ◌≡◌, refl, sym, ◌∙◌, ap, Bool, true, false, Option, some, List, [], ◌∷◌, ◌++◌, ◌==◌,
  length, take, drop, length-append, take-append, drop-append, arith,
}
use mathlib.Core.List.{append-nil}
use ruvname.Bytes.{Bytes}
use ruvname.Blockchain.Chain.Signers.{Run, ok, ◌>>=◌}
use ruvname.P2p.State.{State}
use ruvname.P2p.Peer.{Peer, Chacha, set_active, get_nonce}
use ruvname.P2p.Peers.{get_peer}
use ruvname.P2p.Framing.{
  send_client_handshake, send_server_handshake, read_client_handshake, read_server_handshake,
}
use ruvname.P2p.Framing.Handshake.{send_client_handshake-read, send_server_handshake-read}
use ruvname.P2p.Network.{Env, Network}
use ruvname.P2p.Network.Change.{with_peer, get_peer-with_peer, change_peer-found}
use ruvname.P2p.Network.Events.{Input, process_readable, process_writable}

abbrev pub chacha_of : (key nonce : Bytes) → Option Chacha
chacha_of key nonce = some (record { key = key; nonce = nonce })

module _ (env : Env) (i : Input) (n : Network) (token : ℕ) (p : Peer)
    (found : get_peer n.peers token ≡ some p) where
  abbrev after_hello : Peer
  after_hello = set_active (record p { state = State.server_handshake env.now }) true env.now

  process_writable-connecting :
      (sent : Bytes)
      → p.state ≡ State.connecting
      → i.written ≡ true
      → send_client_handshake i.packet n.public_key ≡ some sent
      → process_writable env i n token ≡ ok (with_peer n token after_hello, true, sent)
  unfolding process_writable
  process_writable-connecting sent state written e =
      rw (process_writable, found)
        (rw (state, e, written)
          (rw
            (change_peer-found n token
              (λ q. set_active (record q { state = State.server_handshake env.now }) true env.now) p
              found)
            refl))

  abbrev after_answer : Peer
  after_answer = set_active (record p { state = State.handshake_finished }) true env.now

  process_writable-server_handshake :
      (from : ℕ) (sent : Bytes)
      → p.state ≡ State.server_handshake from
      → i.written ≡ true
      → send_server_handshake i.packet n.public_key (get_nonce p) ≡ some sent
      → process_writable env i n token ≡ ok (with_peer n token after_answer, true, sent)
  unfolding process_writable
  process_writable-server_handshake from sent state written e =
      rw (process_writable, found)
        (rw (state, e, written)
          (rw
            (change_peer-found n token
              (λ q. set_active (record q { state = State.handshake_finished }) true env.now) p
              found)
            refl))

  abbrev greeted : (key : Bytes) → Peer
  greeted key = record p {
    state = State.server_handshake env.now;
    cipher = chacha_of (env.diffie_hellman n.secret_key key) i.nonce;
  }

  process_readable-connected :
      (from : ℕ) (key rest : Bytes)
      → p.state ≡ State.connected from
      → read_client_handshake i.stream ≡ some (key, rest)
      → process_readable env i n token false ≡ ok (with_peer n token (greeted key), true)
  unfolding process_readable
  process_readable-connected from key rest state e =
      rw (process_readable, found)
        (rw (state, e)
          (rw
            (change_peer-found n token
              (λ q. record q {
                state = State.server_handshake env.now;
                cipher = chacha_of (env.diffie_hellman n.secret_key key) i.nonce;
              })
              p found)
            refl))

  abbrev answered : (key nonce : Bytes) → Peer
  answered key nonce = record p {
    state = State.handshake_finished;
    cipher = chacha_of (env.diffie_hellman n.secret_key key) nonce;
  }

  process_readable-server_handshake :
      (from : ℕ) (key nonce rest : Bytes)
      → p.state ≡ State.server_handshake from
      → length key ≡ 32
      → length nonce ≡ 12
      → read_server_handshake i.stream ≡ some (key ++ nonce, rest)
      → process_readable env i n token false ≡ ok (with_peer n token (answered key nonce), true)
  unfolding process_readable
  process_readable-server_handshake from key nonce rest state key_len nonce_len e =
      let size : (length (key ++ nonce) == 44) ≡ true = ground (arith, length-append key nonce) in
      let first : take 32 (key ++ nonce) ≡ key =
        ap (λ k. take k (key ++ nonce)) (sym key_len) ∙ take-append key nonce in
      let last : drop 32 (key ++ nonce) ≡ nonce =
        ap (λ k. drop k (key ++ nonce)) (sym key_len) ∙ drop-append key nonce in
      rw (process_readable, found)
        (rw (state, e)
          (rw (size, first, last)
            (rw
              (change_peer-found n token
                (λ q. record q {
                  state = State.handshake_finished;
                  cipher = chacha_of (env.diffie_hellman n.secret_key key) nonce;
                })
                p found)
              refl)))

-- The four events of a handshake: each node reads what the other one sent.
unfoldable pub run_handshake :
    (client server : Env) (ci si : Input) (nc : Network) (a : ℕ) (ns : Network) (b : ℕ)
    → Run (Network × Network × List Bool)
run_handshake client server ci si nc a ns b = do
  (nc1, wrote, hello) ← process_writable client ci nc a
  (ns1, read) ← process_readable server (record si { stream = hello }) ns b false
  (ns2, wrote', answer) ← process_writable server si ns1 b
  (nc2, read') ← process_readable client (record ci { stream = answer }) nc1 a false
  ok (nc2, ns2, wrote ∷ read ∷ wrote' ∷ read' ∷ [])

get_nonce-chacha_of :
    (p : Peer) (key nonce : Bytes) → p.cipher ≡ chacha_of key nonce → get_nonce p ≡ nonce
unfolding get_nonce
get_nonce-chacha_of p key nonce e = rw (get_nonce, e) refl

module _ (client server : Env) (ci si : Input) (nc ns : Network) (a b : ℕ) (pc ps : Peer) where
  -- A connection between the two nodes, with the sizes that the code takes from its crates, and a
  -- common secret by the law of Diffie and Hellman.
  pub record AreLinked : Type 0 where
    pub client_found : get_peer nc.peers a ≡ some pc
    pub server_found : get_peer ns.peers b ≡ some ps
    pub client_connecting : pc.state ≡ State.connecting
    pub from : ℕ
    pub server_connected : ps.state ≡ State.connected from
    pub client_written : ci.written ≡ true
    pub server_written : si.written ≡ true
    pub client_packet : (64 ≤ length ci.packet) × (length ci.packet < 255)
    pub server_packet : (64 ≤ length si.packet) × (length si.packet < 255)
    pub client_key : length nc.public_key ≡ 32
    pub server_key : length ns.public_key ≡ 32
    pub nonce : length si.nonce ≡ 12
    pub secret :
        client.diffie_hellman nc.secret_key ns.public_key
        ≡ server.diffie_hellman ns.secret_key nc.public_key

  -- The handshake of linked nodes runs through without a panic or a closed connection. Afterwards
  -- both have finished it, and have the same cipher, with the nonce of the server.
  pub run_handshake-agrees :
      AreLinked
      → (nc' ns' : Network) × (pc' ps' : Peer) × (run_handshake client server ci si nc a ns b
          ≡ ok (nc', ns', true ∷ true ∷ true ∷ true ∷ []))
        × (get_peer nc'.peers a ≡ some pc')
        × (get_peer ns'.peers b ≡ some ps')
        × (pc'.state ≡ State.handshake_finished)
        × (ps'.state ≡ State.handshake_finished)
        × (pc'.cipher ≡ ps'.cipher)
        × (ps'.cipher ≡ chacha_of (server.diffie_hellman ns.secret_key nc.public_key) si.nonce)
  unfolding run_handshake set_active
  run_handshake-agrees l =
      let (hello, sent, read) =
        send_client_handshake-read ci.packet nc.public_key [] l.client_packet.0 l.client_packet.1
          l.client_key in
      let pc1 = after_hello client ci nc a pc l.client_found in
      let nc1 = with_peer nc a pc1 in
      let pc1_found = get_peer-with_peer nc a pc1 in
      let ps1 = greeted server si ns b ps l.server_found nc.public_key in
      let ns1 = with_peer ns b ps1 in
      let ps1_found = get_peer-with_peer ns b ps1 in
      let (answer, sent', read') =
        send_server_handshake-read si.packet ns.public_key si.nonce [] l.server_packet.0
          l.server_packet.1 l.server_key l.nonce in
      let ps2 = after_answer server si ns1 b ps1 ps1_found in
      let ns2 = with_peer ns1 b ps2 in
      let pc2 =
        answered client (record ci { stream = answer }) nc1 a pc1 pc1_found ns.public_key
          si.nonce in
      let nc2 = with_peer nc1 a pc2 in
      let nonce =
        get_nonce-chacha_of ps1 (server.diffie_hellman ns.secret_key nc.public_key) si.nonce refl in
      let step1 =
        process_writable-connecting client ci nc a pc l.client_found hello l.client_connecting
          l.client_written sent in
      let step2 =
        process_readable-connected server (record si { stream = hello }) ns b ps l.server_found
          l.from nc.public_key [] l.server_connected
          (ap read_client_handshake (sym (append-nil hello)) ∙ read) in
      let step3 =
        process_writable-server_handshake server si ns1 b ps1 ps1_found server.now answer refl
          l.server_written (ap (send_server_handshake si.packet ns.public_key) nonce ∙ sent') in
      let step4 =
        process_readable-server_handshake client (record ci { stream = answer }) nc1 a pc1 pc1_found
          client.now ns.public_key si.nonce [] refl l.server_key l.nonce
          (ap read_server_handshake (sym (append-nil answer)) ∙ read') in
      (
        nc2,
        ns2,
        pc2,
        ps2,
        rw (run_handshake, step1) (rw step2 (rw step3 (rw step4 refl))),
        get_peer-with_peer nc1 a pc2,
        get_peer-with_peer ns1 b ps2,
        refl,
        refl,
        ap (λ key. chacha_of key si.nonce) l.secret,
        refl,
      )
