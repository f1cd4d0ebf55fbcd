-- ===== src/Blockchain/Filter/Expired.antt =====
-- src/blockchain/filter.rs: what the filter says of a domain whose year is over.
use ruvname.Prelude.{
  ℕ, ◌≡◌, ◌≢◌, refl, ap, ◌⊎◌, inl, inr, ℤ, pos, ◌+ℤ◌, ◌<ℤ◌, true, Option, none, some, [], ◌∷◌, ◌++◌,
  Bool-cases, arith,
}
use ruvname.Bytes.{Bytes, is_empty}
use ruvname.Dns.Name.{split}
use ruvname.Dns.Record.{QueryType, DnsRecord}
use ruvname.Dns.Packet.{DnsPacket, nxdomain}
use ruvname.Blockchain.Constants.{domain_lifetime}
use ruvname.Blockchain.Table.{DomainRow, select_domain, transaction_of_row}
use ruvname.Blockchain.Block.{
  Transaction, Host, DomainState, alive, expired, free, not_found, hash_identity, check_identity,
}
use ruvname.Blockchain.Chain.{
  Chain, get_height, get_soa_serial, is_available_zone, state_at,
  get_identity_transaction_and_state, get_domain_transaction_and_state, get_domain_info,
}
use ruvname.Blockchain.Filter.{
  add_soa_record, with_code, authoritative, AskServer, Parts, parts_of, lookup, lookup_domain,
  name_server, server_admin,
}

module _ (host : Host) (now : ℤ) (c : Chain) (top : Bytes) (row : DomainRow) where
  -- The domain stands in the chain with this row, whose year is over.
  abbrev pub IsOver : Type 0
  IsOver =
      (select_domain c.db (hash_identity host top none) (get_height c) ≡ some row)
      × (row.timestamp +ℤ pos domain_lifetime <ℤ now)

  not_alive :
      (state : DomainState)
      → state_at row.timestamp now ≡ state
      → row.timestamp +ℤ pos domain_lifetime <ℤ now
      → (u v : ℤ) → state ≢ alive u v
  unfolding state_at
  not_alive state e over u v h = ground arith

  identity_state :
      (id : Bytes)
      → select_domain c.db id (get_height c) ≡ some row
      → get_identity_transaction_and_state c id (get_height c) now
        ≡ (some (transaction_of_row row), state_at row.timestamp now)
  unfolding get_identity_transaction_and_state
  identity_state id stands = rw (get_identity_transaction_and_state, stands) refl

  domain_state_cases :
      IsOver
      → (get_domain_transaction_and_state host c now top ≡ (none, not_found))
        ⊎ (get_domain_transaction_and_state host c now top
            ≡ (some (transaction_of_row row), state_at row.timestamp now))
  unfolding get_domain_transaction_and_state
  domain_state_cases (stands, over) = elim (Bool-cases (is_empty top)) [
    | inl e ↦ inl (rw (get_domain_transaction_and_state, e) refl)
    | inr e ↦
        let known = identity_state (hash_identity host top none) stands in
        elim (Bool-cases (check_identity host (transaction_of_row row) top)) [
          | inl same ↦ inr (
              rw (get_domain_transaction_and_state, e)
                (rw known (rw same (ap (λ x. (some (transaction_of_row row), x.1)) known))))
          | inr other ↦ inl (rw (get_domain_transaction_and_state, e) (rw known (rw other refl)))
        ]
  ]

  abbrev shown : Transaction → DomainState → Option Bytes
  shown t (alive u v) = some t.payload
  shown t not_found = none
  shown t (expired u v) = none
  shown t (free u) = none

  get_domain_info_state :
      (t : Transaction) (state : DomainState)
      → get_domain_transaction_and_state host c now top ≡ (some t, state)
      → ((u v : ℤ) → state ≢ alive u v)
      → get_domain_info host c now top ≡ none
  unfolding get_domain_info
  get_domain_info_state t (alive u v) e h = absurd (h u v refl)
  get_domain_info_state t not_found e h = rw (get_domain_info, e) (ap (λ x. shown t x.1) e)
  get_domain_info_state t (expired u v) e h = rw (get_domain_info, e) (ap (λ x. shown t x.1) e)
  get_domain_info_state t (free u) e h = rw (get_domain_info, e) (ap (λ x. shown t x.1) e)

  get_domain_info_over : IsOver → get_domain_info host c now top ≡ none
  unfolding get_domain_info
  get_domain_info_over (stands, over) = elim (domain_state_cases (stands, over)) [
    | inl e ↦ rw (get_domain_info, e) refl
    | inr e ↦
        get_domain_info_state (transaction_of_row row) (state_at row.timestamp now) e
          (not_alive (state_at row.timestamp now) refl over)
  ]

-- The answer for a name that does not exist in a zone of the list.
abbrev pub IsDenied : (qname zone : Bytes) → QueryType → (serial : ℕ) → DnsPacket → Type 0
IsDenied qname zone qtype serial p =
    (p.header.rescode ≡ nxdomain)
    × (p.header.authoritative_answer ≡ true)
    × (p.questions ≡ record { name = qname; qtype = qtype } ∷ [])
    × (p.answers ≡ [])
    × (p.authorities
        ≡ DnsRecord.soa zone name_server server_admin serial 3600 300 604800 60 60 ∷ [])

module _ (host : Host) (ask : AskServer) (now : ℤ) (c : Chain) (qname : Bytes) (qtype : QueryType)
    (row : DomainRow) where
  lookup_domain_over :
      (subdomain top zone : Bytes)
      → IsOver host now c top row
      → is_available_zone c.zones zone ≡ true
      → (p : DnsPacket) × (lookup_domain host ask now c qname subdomain top zone qtype ≡ some p)
        × IsDenied qname zone qtype (get_soa_serial c) p
  unfolding lookup_domain add_soa_record
  lookup_domain_over subdomain top zone over listed =
      let info = get_domain_info_over host now c top row over in
      (
        add_soa_record zone (get_soa_serial c) (with_code nxdomain (authoritative qname qtype)),
        rw (lookup_domain, info) (rw listed refl),
        (refl, refl, refl, refl, refl),
      )

  -- A domain of a listed zone whose year is over, asked for by its own name or by a name within it, is
  -- denied with the authority of the zone, whatever records it has in the chain.
  pub lookup-IsOver :
      (subdomain name zone : Bytes)
      → IsOver host now c (name ++ b'.' ∷ zone) row
      → is_available_zone c.zones zone ≡ true
      → (parts_of (split qname) ≡ Parts.two name zone)
        ⊎ (parts_of (split qname) ≡ Parts.more subdomain name zone)
      → (p : DnsPacket) × (lookup host ask now c qname qtype ≡ some p)
        × IsDenied qname zone qtype (get_soa_serial c) p
  unfolding lookup
  lookup-IsOver subdomain name zone over listed (inl e) =
      let (p, run, d) = lookup_domain_over [] (name ++ b'.' ∷ zone) zone over listed in
      (p, rw (lookup, e) run, d)
  lookup-IsOver subdomain name zone over listed (inr e) =
      let (p, run, d) = lookup_domain_over subdomain (name ++ b'.' ∷ zone) zone over listed in
      (p, rw (lookup, e) run, d)
