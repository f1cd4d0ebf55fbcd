-- ===== src/P2p/Peers/Ignored.antt =====
-- src/p2p/peers.rs: the table after a peer is ignored, and a connection to its address.
use ruvname.Prelude.{
  ℕ, ◌≡◌, refl, ap, ◌∙◌, Bool, true, false, Option, none, some, List, [], ◌∷◌, ◌==◌, any, find,
  get_key, put_key, remove_key, get_key-remove_key, Bool-cases, inl, inr, arith,
}
use ruvname.Dns.Address.{IpAddr, ipv4, ipv6, v4, v6}
use ruvname.P2p.Address.{same_ip}
use ruvname.P2p.State.{State}
use ruvname.P2p.Peer.{Peer}
use ruvname.P2p.Peers.{
  Peers, same_token, has_ip, get_peer, is_ignored, ignore_ip, close_in, close_removed, close_peer,
  close_found, set_banned, ignore_peer,
}
use ruvname.P2p.Peers.Stale.{close_peer-peers}
use ruvname.P2p.Peers.Update.{connect_peer}

same_ip_refl : (ip : IpAddr) → same_ip ip ip ≡ true
unfolding same_ip
same_ip_refl (v4 (ipv4 a b c d)) = ground arith
same_ip_refl (v6 (ipv6 a b c d e f g h)) = ground arith

abbrev Entries : Type 0
Entries = List (IpAddr × ℕ)

-- A test of keys holds after a write if it held before, or if it holds of the key.
any-put_key_old :
    (test : IpAddr → Bool) (m : Entries) (ip : IpAddr) (now : ℕ)
    → any (λ entry. test entry.0) m ≡ true
    → any (λ entry. test entry.0) (put_key same_ip m ip now) ≡ true
any-put_key_old test [] ip now h = cc
any-put_key_old test ((k, from) ∷ m) ip now h = elim (Bool-cases (test k)) [
  | inl t ↦ elim (Bool-cases (same_ip k ip)) [ inl e ↦ rw e (rw t refl) | inr e ↦ rw e (rw t refl) ]
  | inr t ↦ elim (Bool-cases (same_ip k ip)) [
    | inl e ↦ rw e h
    | inr e ↦
        let rest : any (λ entry. test entry.0) m ≡ true = ground arith in
        rw e (rw t (any-put_key_old test m ip now rest))
  ]
]

any-put_key_new :
    (m : Entries) (ip : IpAddr) (now : ℕ)
    → any (λ entry. same_ip entry.0 ip) (put_key same_ip m ip now) ≡ true
any-put_key_new [] ip now = rw (same_ip_refl ip) refl
any-put_key_new ((k, from) ∷ m) ip now = elim (Bool-cases (same_ip k ip)) [
  | inl e ↦ rw e (rw e refl)
  | inr e ↦ rw e (rw e (any-put_key_new m ip now))
]

get_key-remove_other :
    (m : List (ℕ × Peer)) (k k' : ℕ)
    → get_key same_token m k ≡ none
    → get_key same_token (remove_key same_token m k') k ≡ none
get_key-remove_other [] k k' h = refl
get_key-remove_other ((x, p) ∷ m) k k' h = elim (Bool-cases (x == k)) [
  | inl e ↦ absurd (ground arith)
  | inr e ↦
      let rest : get_key same_token m k ≡ none = ground arith in
      elim (Bool-cases (x == k')) [
        | inl f ↦ rw f (get_key-remove_other m k k' rest)
        | inr f ↦ rw f (rw e (get_key-remove_other m k k' rest))
      ]
]

module _ (now : ℕ) where
  close_in-ignored :
      (t : Peers) (p : Peer) (s : State) (ip : IpAddr)
      → is_ignored t ip ≡ true
      → is_ignored (close_in t p now s) ip ≡ true
  unfolding is_ignored ignore_ip
  close_in-ignored t p State.banned ip h =
      any-put_key_old (λ k. same_ip k ip) t.ignored p.addr.ip now h
  close_in-ignored t p s ip h = h

  close_removed-ignored :
      (t : Peers) (o : Option Peer) (ip : IpAddr)
      → is_ignored t ip ≡ true
      → is_ignored (close_removed t now o) ip ≡ true
  close_removed-ignored t none ip h = h
  close_removed-ignored t (some p) ip h = close_in-ignored t p p.state ip h

  close_found-ignored :
      (t : Peers) (o : Option (ℕ × Peer)) (ip : IpAddr)
      → is_ignored t ip ≡ true
      → is_ignored (close_found t now o) ip ≡ true
  unfolding close_peer is_ignored
  close_found-ignored t none ip h = h
  close_found-ignored t (some (token, p)) ip h =
      close_removed-ignored (record t { peers = remove_key same_token t.peers token })
        (get_peer t token) ip h

  close_found-gone :
      (t : Peers) (o : Option (ℕ × Peer)) (token : ℕ)
      → get_peer t token ≡ none
      → get_peer (close_found t now o) token ≡ none
  unfolding get_peer
  close_found-gone t none token h = h
  close_found-gone t (some (k, p)) token h =
      ap (λ m. get_key same_token m token) (close_peer-peers now t k)
      ∙ get_key-remove_other t.peers token k h

  ignore_ip-ignored : (t : Peers) (ip : IpAddr) → is_ignored (ignore_ip t ip now) ip ≡ true
  unfolding is_ignored ignore_ip
  ignore_ip-ignored t ip = any-put_key_new t.ignored ip now

  ignore_ip-get_peer :
      (t : Peers) (ip : IpAddr) (token : ℕ) → get_peer (ignore_ip t ip now) token ≡ get_peer t token
  unfolding ignore_ip get_peer
  ignore_ip-get_peer t ip token = refl

  close_peer-gone : (t : Peers) (token : ℕ) → get_peer (close_peer t token now) token ≡ none
  unfolding get_peer
  close_peer-gone t token =
      ap (λ m. get_key same_token m token) (close_peer-peers now t token)
      ∙ get_key-remove_key same_token t.peers token

  -- Ignoring a peer of the table does not panic. Afterwards the table does not have the peer, its IP
  -- address is ignored, and a connection to that address, on any port, is refused and changes nothing.
  pub ignore_peer-refused :
      (t : Peers) (token : ℕ) (p : Peer)
      → get_peer t token ≡ some p
      → (t' : Peers) × (ignore_peer t token now ≡ some t')
        × (get_peer t' token ≡ none)
        × (is_ignored t' p.addr.ip ≡ true)
        × ((ruvchain_only connects : Bool) (later next port : ℕ)
            → connect_peer ruvchain_only connects later t' next
                (record { ip = p.addr.ip; port = port })
              ≡ (t', next, false))
  unfolding ignore_peer connect_peer
  ignore_peer-refused t token p found =
      let t1 = record t { peers = put_key same_token t.peers token (set_banned p) } in
      let t2 = ignore_ip (close_peer t1 token now) p.addr.ip now in
      let other = find (has_ip p.addr.ip) t2.peers in
      let ignored =
        close_found-ignored t2 other p.addr.ip
          (ignore_ip-ignored (close_peer t1 token now) p.addr.ip) in
      let gone =
        close_found-gone t2 other token (
          ignore_ip-get_peer (close_peer t1 token now) p.addr.ip token
          ∙ close_peer-gone t1 token) in
      (
        close_found t2 now other,
        rw (ignore_peer, found) refl,
        gone,
        ignored,
        λ ruvchain_only connects later next port. rw (connect_peer, ignored) refl,
      )
