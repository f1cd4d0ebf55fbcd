-- ===== src/P2p/Peers/Stale.antt =====
-- src/p2p/peers.rs: which connections the first loop of `update` closes.
use mathlib.Core.List.{Memᴰ}
use mathlib.Core.Path.{subst}
use ruvname.Prelude.{
  ℕ, ◌≡◌, refl, sym, ◌⊎◌, inl, inr, Bool, true, false, not, ◌&&◌, ◌||◌, Option, none, some, List,
  [], ◌∷◌, ◌==◌, filter, map, All, Bool-cases, remove_key, arith,
}
use ruvname.Bytes.{Bytes}
use ruvname.P2p.State.{State, is_idle, is_connecting, is_timed_out}
use ruvname.P2p.Message.{Message}
use ruvname.P2p.Peer.{Peer, is_active}
use ruvname.P2p.Peers.{
  Peers, same_token, close_peer, close_each, close_in, close_removed, get_peer, ignore_ip,
}
use ruvname.P2p.Peers.Update.{Chances, refresh, is_stale, tokens_of}

-- A state in which a connection is of no use any more.
abbrev pub is_dead : State → Bool
is_dead State.error = true
is_dead State.banned = true
is_dead s = false

abbrev pub IsUsable : ℕ × Peer → Type 0
IsUsable e = is_dead e.1.state ≡ false

-- Closing.
module _ (now : ℕ) where
  close_in-peers : (t : Peers) (p : Peer) (s : State) → (close_in t p now s).peers ≡ t.peers
  unfolding ignore_ip
  close_in-peers t p State.banned = refl
  close_in-peers t p s = refl

  close_removed-peers : (t : Peers) (o : Option Peer) → (close_removed t now o).peers ≡ t.peers
  close_removed-peers t none = refl
  close_removed-peers t (some p) = close_in-peers t p p.state

  pub close_peer-peers :
      (t : Peers) (token : ℕ) → (close_peer t token now).peers ≡ remove_key same_token t.peers token
  unfolding close_peer
  close_peer-peers t token =
      close_removed-peers (record t { peers = remove_key same_token t.peers token })
        (get_peer t token)

  -- An entry is usable, or will be closed.
  abbrev pub WillDo : List ℕ → ℕ × Peer → Type 0
  WillDo tokens e = Memᴰ e.0 tokens ⊎ IsUsable e

  other_token :
      (token k : ℕ) (tokens : List ℕ) (p : Peer)
      → (token == k) ≡ false
      → WillDo (k ∷ tokens) (token, p)
      → WillDo tokens (token, p)
  other_token token k tokens p h (inl (Memᴰ.head e)) = absurd (ground arith)
  other_token token k tokens p h (inl (Memᴰ.tail m)) = inl m
  other_token token k tokens p h (inr usable) = inr usable

  remove_key-WillDo :
      (peers : List (ℕ × Peer)) (k : ℕ) (tokens : List ℕ)
      → All (WillDo (k ∷ tokens)) peers
      → All (WillDo tokens) (remove_key same_token peers k)
  remove_key-WillDo [] k tokens all = tt
  remove_key-WillDo ((token, p) ∷ peers) k tokens (do_one, all) = elim (Bool-cases (token == k)) [
    | inl e ↦ rw e (remove_key-WillDo peers k tokens all)
    | inr e ↦ rw e (other_token token k tokens p e do_one, remove_key-WillDo peers k tokens all)
  ]

  All-IsUsable : (peers : List (ℕ × Peer)) → All (WillDo []) peers → All IsUsable peers
  All-IsUsable [] all = tt
  All-IsUsable (e ∷ peers) (inl m, all) = elim m [ ]
  All-IsUsable (e ∷ peers) (inr usable, all) = (usable, All-IsUsable peers all)

  WillDo-more :
      (k : ℕ) (tokens : List ℕ) (peers : List (ℕ × Peer))
      → All (WillDo tokens) peers
      → All (WillDo (k ∷ tokens)) peers
  WillDo-more k tokens [] all = tt
  WillDo-more k tokens (e ∷ peers) (inl m, all) =
      (inl (Memᴰ.tail m), WillDo-more k tokens peers all)
  WillDo-more k tokens (e ∷ peers) (inr u, all) = (inr u, WillDo-more k tokens peers all)

  pub close_each-IsUsable :
      (tokens : List ℕ) (t : Peers)
      → All (WillDo tokens) t.peers
      → All IsUsable (close_each t tokens now).peers
  close_each-IsUsable [] t all = All-IsUsable t.peers all
  close_each-IsUsable (k ∷ tokens) t all = close_each-IsUsable tokens (close_peer t k now) (
      subst (All (WillDo tokens)) (sym (close_peer-peers t k))
        (remove_key-WillDo t.peers k tokens all))

not_stale-is_dead :
    (cbor : Message → Bytes) (now : ℕ) (p : Peer)
    → is_stale cbor now p ≡ false
    → is_dead p.state ≡ false
unfolding is_stale
not_stale-is_dead cbor now p h = by_state p.state (is_active now p) h
  where
    by_state :
        (s : State) (active : Bool)
        → (not (is_idle s) && not (is_connecting s) && (is_timed_out now s || not active)) ≡ false
        → is_dead s ≡ false
    by_state State.error active h = cc
    by_state State.banned active h = cc
    by_state State.connecting active h = refl
    by_state _ active h = refl

module _ (cbor : Message → Bytes) (now : ℕ) where
  refresh-IsUsable :
      (x : Chances) (nodes height : ℕ) (hash : Bytes) (token : ℕ) (p : Peer)
      → is_dead p.state ≡ false
      → IsUsable (refresh cbor now x nodes height hash (token, p))
  unfolding refresh
  refresh-IsUsable x nodes height hash token p h = ground arith

  refresh-token :
      (x : Chances) (nodes height : ℕ) (hash : Bytes) (e : ℕ × Peer)
      → (refresh cbor now x nodes height hash e).0 ≡ e.0
  unfolding refresh
  refresh-token x nodes height hash (token, p) = ground arith

  tokens_of-test :
      (test : Peer → Bool) (token : ℕ) (p : Peer) (peers : List (ℕ × Peer))
      → test p ≡ true
      → tokens_of cbor now test ((token, p) ∷ peers) ≡ token ∷ tokens_of cbor now test peers
  tokens_of-test test token p peers h = rw (h, filter) refl

  tokens_of-skip :
      (test : Peer → Bool) (token : ℕ) (p : Peer) (peers : List (ℕ × Peer))
      → test p ≡ false
      → tokens_of cbor now test ((token, p) ∷ peers) ≡ tokens_of cbor now test peers
  tokens_of-skip test token p peers h = rw (h, filter) refl

  pub refreshed :
      (x : Chances) (nodes height : ℕ) (hash : Bytes) (peers : List (ℕ × Peer))
      → All
          (WillDo now (tokens_of cbor now (is_stale cbor now) peers))
          (map (refresh cbor now x nodes height hash) peers)
  refreshed x nodes height hash [] = tt
  refreshed x nodes height hash ((token, p) ∷ peers) =
      let rest = refreshed x nodes height hash peers in
      let stale = is_stale cbor now in
      let next = map (refresh cbor now x nodes height hash) ((token, p) ∷ peers) in
      elim (Bool-cases (is_stale cbor now p)) [
        | inl e ↦
            subst (λ ks. All (WillDo now ks) next) (sym (tokens_of-test stale token p peers e))
              (
                inl (Memᴰ.head (refresh-token x nodes height hash (token, p))),
                WillDo-more now token (tokens_of cbor now stale peers)
                    (map (refresh cbor now x nodes height hash) peers) rest,
              )
        | inr e ↦
            subst (λ ks. All (WillDo now ks) next) (sym (tokens_of-skip stale token p peers e))
              (
                inr (refresh-IsUsable x nodes height hash token p (not_stale-is_dead cbor now p e)),
                rest,
              )
      ]
