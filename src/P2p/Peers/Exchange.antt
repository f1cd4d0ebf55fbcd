-- ===== src/P2p/Peers/Exchange.antt =====
-- src/p2p/peers.rs: which addresses are taken from other nodes, and which are told to them.
use mathlib.Core.List.{Memᴰ, append_assoc, append-nil}
use ruvname.Prelude.{
  ℕ, ◌+◌, ◌≤◌, ◌≡◌, refl, sym, ap, ◌∙◌, ◌⊎◌, inl, inr, Bool, true, false, ◌&&◌, Option, none, some,
  List, [], ◌∷◌, ◌++◌, leb, if◌then◌else◌, any, All, Bool-cases, length, length-append, arith,
}
use mathlib.Core.Path.{subst}
use ruvname.Bytes.{Bytes}
use ruvname.Blockchain.Constants.{listen_port}
use ruvname.P2p.Address.{SocketAddr, same_ip, skip_private_addr}
use ruvname.P2p.Peer.{Peer, is_active, is_disabled, equals}
use ruvname.P2p.Peers.{
  Peers, AddrText, has_ip, is_ignored, add_from_exchange, mem_text, add_each,
  add_peers_from_exchange, distinct, exchange_loop, get_peers_for_exchange,
}

-- An address that a table takes: nothing is known of its IP address, and it is not a private one.
abbrev pub IsNew : Peers → SocketAddr → Type 0
IsNew t a =
    (any (has_ip a.ip) t.peers ≡ false)
    × (any (λ b. same_ip b.ip a.ip) t.new_peers ≡ false)
    × (is_ignored t a.ip ≡ false)
    × (skip_private_addr a ≡ false)

-- Addresses that a table takes one after the other.
abbrev pub TakenBy : Peers → List SocketAddr → Type 0
TakenBy t [] = Unit
TakenBy t (a ∷ added) = IsNew t a × TakenBy (record t { new_peers = t.new_peers ++ (a ∷ []) }) added

abbrev with_new : Peers → List SocketAddr → Peers
with_new t added = record t { new_peers = t.new_peers ++ added }

with_new-nil : (t : Peers) → with_new t [] ≡ t
with_new-nil t = rw (append-nil t.new_peers) refl

add_from_exchange_cases :
    (t : Peers) (o : Option SocketAddr)
    → (add_from_exchange t o ≡ t)
      ⊎ ((a : SocketAddr) × (o ≡ some a)
          × IsNew t a
          × (add_from_exchange t o ≡ with_new t (a ∷ [])))
unfolding add_from_exchange
add_from_exchange_cases t none = inl refl
add_from_exchange_cases t (some a) = elim (Bool-cases (any (has_ip a.ip) t.peers)) [
  | inl e1 ↦ inl (rw e1 refl)
  | inr e1 ↦ elim (Bool-cases (any (λ b. same_ip b.ip a.ip) t.new_peers)) [
    | inl e2 ↦ inl (rw (e1, e2) refl)
    | inr e2 ↦ elim (Bool-cases (is_ignored t a.ip)) [
      | inl e3 ↦ inl (rw (e1, e2, e3) refl)
      | inr e3 ↦ elim (Bool-cases (skip_private_addr a)) [
        | inl e4 ↦ inl (rw (e1, e2, e3, e4) refl)
        | inr e4 ↦ inr (a, refl, (e1, e2, e3, e4), rw (e1, e2, e3, e4) refl)
      ]
    ]
  ]
]

both_true : (b c : Bool) → (b && c) ≡ true → (b ≡ true) × (c ≡ true)
both_true true c h = (refl, h)
both_true false c h = (cc, cc)

not_full : (xs : List Bytes) → length xs ≤ 9 → leb 10 (length xs) ≡ false
not_full xs h = ground arith

distinct_cons :
    (addrs : List Bytes) (text x : Bytes)
    → Memᴰ text (x ∷ distinct addrs)
    → (Memᴰ text (distinct addrs) → Memᴰ text addrs)
    → Memᴰ text (x ∷ addrs)
distinct_cons addrs text x (Memᴰ.head e) rest = Memᴰ.head e
distinct_cons addrs text x (Memᴰ.tail m) rest = Memᴰ.tail (rest m)

module _ (texts : AddrText) where
  -- An address is the reading of one of the texts.
  abbrev pub IsRead : List Bytes → SocketAddr → Type 0
  IsRead addrs a = (text : Bytes) × Memᴰ text addrs × (texts.parse_addr text ≡ some a)

  IsRead-tail :
      (text : Bytes) (addrs : List Bytes) (added : List SocketAddr)
      → All (IsRead addrs) added
      → All (IsRead (text ∷ addrs)) added
  IsRead-tail text addrs [] all = tt
  IsRead-tail text addrs (a ∷ added) ((t, m, parsed), all) =
      ((t, Memᴰ.tail m, parsed), IsRead-tail text addrs added all)

  add_each-TakenBy :
      (addrs : List Bytes) (t : Peers)
      → (added : List SocketAddr) × (add_each texts t addrs ≡ with_new t added)
        × TakenBy t added
        × All (IsRead addrs) added
  add_each-TakenBy [] t = ([], sym (with_new-nil t), tt, tt)
  add_each-TakenBy (text ∷ addrs) t = elim (add_from_exchange_cases t (texts.parse_addr text)) [
    | inl same ↦
        let (added, run, taken, read) = add_each-TakenBy addrs t in
        (
          added,
          ap (λ t. add_each texts t addrs) same ∙ run,
          taken,
          IsRead-tail text addrs added read,
        )
    | inr (a, parsed, new, grown) ↦
        let (added, run, taken, read) = add_each-TakenBy addrs (with_new t (a ∷ [])) in
        (
          a ∷ added,
          ap (λ t. add_each texts t addrs) grown
              ∙ run
              ∙ ap (λ new. record t { new_peers = new }) (append_assoc t.new_peers (a ∷ []) added),
          (new, taken),
          ((text, Memᴰ.head refl, parsed), IsRead-tail text addrs added read),
        )
  ]

  distinct_mem : (addrs : List Bytes) (text : Bytes) → Memᴰ text (distinct addrs) → Memᴰ text addrs
  unfolding distinct
  distinct_mem [] text m = m
  distinct_mem (x ∷ addrs) text m = elim (Bool-cases (mem_text x (distinct addrs))) [
    | inl e ↦ Memᴰ.tail (
        distinct_mem addrs text
          (subst (λ b. Memᴰ text (if b then distinct addrs else x ∷ distinct addrs)) e m))
    | inr e ↦
        distinct_cons addrs text x
          (subst (λ b. Memᴰ text (if b then distinct addrs else x ∷ distinct addrs)) e m)
          (distinct_mem addrs text)
  ]

  IsRead-distinct :
      (addrs : List Bytes) (added : List SocketAddr)
      → All (IsRead (distinct addrs)) added
      → All (IsRead addrs) added
  IsRead-distinct addrs [] all = tt
  IsRead-distinct addrs (a ∷ added) ((text, m, parsed), all) =
      ((text, distinct_mem addrs text m, parsed), IsRead-distinct addrs added all)

  -- An exchange only adds to the new peers. Each added address is the reading of one of the texts, has
  -- an IP address that is not of a peer, not ignored, not private and not of a new peer before it.
  pub add_peers_from_exchange-TakenBy :
      (t : Peers) (addrs : List Bytes)
      → (added : List SocketAddr) × (add_peers_from_exchange texts t addrs
          ≡ record t { new_peers = t.new_peers ++ added })
        × TakenBy t added
        × All (IsRead addrs) added
  unfolding add_peers_from_exchange
  add_peers_from_exchange-TakenBy t addrs =
      let (added, run, taken, read) = add_each-TakenBy (distinct addrs) t in
      (added, run, taken, IsRead-distinct addrs added read)

  -- A text that is told: the listening address of an active public peer, which is not disabled and
  -- not the one that asks.
  abbrev pub IsShared : (now : ℕ) → SocketAddr → List (ℕ × Peer) → Bytes → Type 0
  IsShared now to peers text =
      (token : ℕ) × (p : Peer) × Memᴰ (token, p) peers
      × (is_disabled now p ≡ false)
      × (equals p to ≡ false)
      × (p.public ≡ true)
      × (is_active now p ≡ true)
      × (text ≡ texts.addr_text (record { ip = p.addr.ip; port = listen_port }))

  Shared-tail :
      (now : ℕ) (to : SocketAddr) (e : ℕ × Peer) (peers : List (ℕ × Peer)) (new : List Bytes)
      → All (IsShared now to peers) new
      → All (IsShared now to (e ∷ peers)) new
  Shared-tail now to e peers [] all = tt
  Shared-tail now to e peers (x ∷ new) ((token, p, m, a, b, c, d, f), all) =
      ((token, p, Memᴰ.tail m, a, b, c, d, f), Shared-tail now to e peers new all)

  Told : (now : ℕ) → SocketAddr → List (ℕ × Peer) → List Bytes → Type 0
  Told now to peers result =
      (new : List Bytes) × (exchange_loop texts now to peers result ≡ result ++ new)
      × All (IsShared now to peers) new
      × (length result + length new ≤ 10)

  exchange_loop-IsShared :
      (now : ℕ) (to : SocketAddr) (peers : List (ℕ × Peer)) (result : List Bytes)
      → length result ≤ 9
      → Told now to peers result
  unfolding exchange_loop Told
  exchange_loop-IsShared now to [] result small = ([], sym (append-nil result), tt, omega arith)
  exchange_loop-IsShared now to ((token, p) ∷ rest) result small =
      let text = texts.addr_text (record { ip = p.addr.ip; port = listen_port }) in
      let (new, run, all, bound) = exchange_loop-IsShared now to rest result small in
      let skipped = Shared-tail now to (token, p) rest new all in
      elim (Bool-cases (is_disabled now p)) [
        | inl e1 ↦ (new, rw e1 run, skipped, bound)
        | inr e1 ↦ elim (Bool-cases (equals p to)) [
          | inl e2 ↦ (new, rw (e1, e2) run, skipped, bound)
          | inr e2 ↦ elim (Bool-cases (p.public && is_active now p)) [
            | inr e3 ↦ (new, rw (e1, e2, e3, not_full result small) run, skipped, bound)
            | inl e3 ↦
                let result' = result ++ (text ∷ []) in
                let size = length-append result (text ∷ []) in
                let both = both_true p.public (is_active now p) e3 in
                let shared : IsShared now to ((token, p) ∷ rest) text =
                  (token, p, Memᴰ.head refl, e1, e2, both.0, both.1, refl) in
                elim (Bool-cases (leb 10 (length result'))) [
                  | inl full ↦ (text ∷ [], rw (e1, e2, e3, full) refl, (shared, tt), omega arith)
                  | inr more ↦
                      let (new', run', all', bound') =
                        exchange_loop-IsShared now to rest result' (ground arith) in
                      (
                        text ∷ new',
                        rw (e1, e2, e3, more) (run' ∙ append_assoc result (text ∷ []) new'),
                        (shared, Shared-tail now to (token, p) rest new' all'),
                        omega arith,
                      )
                ]
          ]
        ]
      ]

  -- At most ten addresses are told, each of an active public peer that is not disabled and not the one
  -- that asks.
  pub get_peers_for_exchange-IsShared :
      (t : Peers) (to : SocketAddr) (now : ℕ)
      → All (IsShared now to t.peers) (get_peers_for_exchange texts t to now)
        × (length (get_peers_for_exchange texts t to now) ≤ 10)
  unfolding get_peers_for_exchange Told
  get_peers_for_exchange-IsShared t to now =
      let (new, run, all, bound) = exchange_loop-IsShared now to t.peers [] (omega arith) in
      (subst (All (IsShared now to t.peers)) (sym run) all, omega (arith, ap length run))
