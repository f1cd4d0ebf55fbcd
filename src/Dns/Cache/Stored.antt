-- ===== src/Dns/Cache/Stored.antt =====
-- src/dns/cache.rs: a lookup right after a store.
use ruvname.Prelude.{
  ℕ, ◌≤◌, ◌≡◌, refl, true, false, Option, none, some, List, [], ◌∷◌, ltb, if◌then◌else◌, not, ap,
  ◌∙◌, map, Bool-cases, inl, inr, filter, get_key, get_key-put_key, arith, ◌+◌, sym, Memᴰ-filter,
  Memᴰ-Permᴰ,
}
use mathlib.Core.Path.{subst}
use mathlib.Core.List.{Memᴰ}
use mathlib.Core.List.Memᴰ
use ruvname.Bytes.{Bytes, same_hash}
use ruvname.Bytes.Equality.{same_hash_self}
use ruvname.Dns.Record.{QueryType, DnsRecord, same_type, get_querytype, get_domain, get_ttl}
use ruvname.Dns.Packet.{ResultCode, new_packet, new_header}
use ruvname.Dns.Cache.{
  Cache, Iteration, RecordSet, RecordEntry, set_with, DomainEntry, same_record, positive_cache,
  negative_cache, not_cached, seconds, records_state, records, no_records, is_valid, get_entry,
  entry_or_new, lookup, store, store_one, store_nxdomain, get_cache_state, fill_queryresult,
  entry_cache_state, entry_store_nxdomain, entry_store_record, entry_fill_queryresult,
}

pub same_type_self : (t : QueryType) → same_type t t ≡ true
unfolding same_type
same_type_self (QueryType.unknown x) = ground arith
same_type_self QueryType.a = refl
same_type_self QueryType.ns = refl
same_type_self QueryType.cname = refl
same_type_self QueryType.soa = refl
same_type_self QueryType.ptr = refl
same_type_self QueryType.mx = refl
same_type_self QueryType.txt = refl
same_type_self QueryType.aaaa = refl
same_type_self QueryType.srv = refl
same_type_self QueryType.opt = refl
same_type_self QueryType.tlsa = refl

nxdomain_state :
    (c : Cache) (qname : Bytes) (qtype : QueryType) (ttl now now' : ℕ)
    → get_cache_state (store_nxdomain c qname qtype ttl now) qname qtype now'
      ≡ (if ltb (now + seconds ttl) now' then not_cached else negative_cache)
unfolding get_cache_state store_nxdomain entry_cache_state entry_store_nxdomain
nxdomain_state c qname qtype ttl now now' =
    rw
      (
        get_key-put_key same_hash c.domain_entries qname
            (entry_store_nxdomain (entry_or_new qname (get_entry c qname)) qtype ttl now)
            (same_hash_self qname),
        get_key-put_key same_type (entry_or_new qname (get_entry c qname)).record_types qtype
            (no_records qtype ttl now) (same_type_self qtype),
      )
      refl

-- After `store_nxdomain` a lookup of the name and type, at any time, gives NXDOMAIN if the time to
-- live is not over, and nothing if it is.
pub lookup-store_nxdomain :
    (c : Cache) (qname : Bytes) (qtype : QueryType) (ttl now now_1 now_2 now_3 : ℕ)
    (order_2 order_3 : Iteration)
    → (lookup
        (store_nxdomain c qname qtype ttl now)
        qname
        qtype
        now_1
        now_2
        now_3
        order_2
        order_3).0
      ≡ (if ltb (now + seconds ttl) now_1
          then none
          else some
              (record new_packet { header = record new_header { rescode = ResultCode.nxdomain } }))
unfolding lookup
lookup-store_nxdomain c qname qtype ttl now now_1 now_2 now_3 order_2 order_3 =
    elim (Bool-cases (ltb (now + seconds ttl) now_1)) [
      | inl e ↦ rw (nxdomain_state c qname qtype ttl now now_1, e) refl
      | inr e ↦ rw (nxdomain_state c qname qtype ttl now now_1, e) refl
    ]

head_of_set :
    (r : DnsRecord) (e : RecordEntry) (old : Option RecordSet)
    → (q : QueryType) × (es : List RecordEntry) × (set_with r e old ≡ records q (e ∷ es))
head_of_set r e none = (get_querytype r, [], refl)
head_of_set r e (some (no_records q ttl timestamp)) = (get_querytype r, [], refl)
head_of_set r e (some (records q entries)) =
    (q, filter (λ old. not (same_record old.entry e.entry)) entries, refl)

-- The entry for the domain after the record is stored.
abbrev pub stored_entry : Cache → DnsRecord → Bytes → ℕ → DomainEntry
stored_entry c r d now = entry_store_record (entry_or_new d (get_entry c d)) r now

pub stored_set :
    (c : Cache) (r : DnsRecord) (d : Bytes) (now : ℕ)
    → (q : QueryType) × (es : List RecordEntry) × (get_key same_type
          (stored_entry c r d now).record_types
          (get_querytype r)
        ≡ some (records q (record { entry = r; timestamp = now } ∷ es)))
unfolding entry_store_record
stored_set c r d now =
    let types = (entry_or_new d (get_entry c d)).record_types in
    let e : RecordEntry = record { entry = r; timestamp = now } in
    let old = get_key same_type types (get_querytype r) in
    let (q, es, shape) = head_of_set r e old in
    (
      q,
      es,
      get_key-put_key same_type types (get_querytype r) (set_with r e old)
            (same_type_self (get_querytype r))
          ∙ ap some shape,
    )

pub valid_now :
    (r : DnsRecord) (now now' : ℕ)
    → now' ≤ now + seconds (get_ttl r)
    → is_valid now' (get_querytype r) (record { entry = r; timestamp = now }) ≡ true
valid_now r now now' h = let same = same_type_self (get_querytype r) in ground arith

positive_of_member :
    (e : RecordEntry) (valid : List RecordEntry)
    → Memᴰ e valid
    → records_state valid ≡ positive_cache
positive_of_member e [] m = elim m [ ]
positive_of_member e (x ∷ xs) m = refl

module _ (c : Cache) (q : Bytes) (t : QueryType) where
  -- What the cache says of a name that it has, with a set of records for the type.
  module _ (d : DomainEntry) (t' : QueryType) (es : List RecordEntry) where
    state_of :
        (now : ℕ)
        → get_entry c q ≡ some d
        → get_key same_type d.record_types t ≡ some (records t' es)
        → get_cache_state c q t now ≡ records_state (filter (is_valid now t) es)
    unfolding get_cache_state entry_cache_state
    state_of now h1 h2 = rw (h1, h2) refl

    answers_of :
        (now : ℕ) (order : Iteration)
        → get_entry c q ≡ some d
        → get_key same_type d.record_types t ≡ some (records t' es)
        → (fill_queryresult c q t true now order).0
          ≡ map (λ e. e.entry) (filter (is_valid now t) (order.iterate es))
    unfolding fill_queryresult entry_fill_queryresult
    answers_of now order h1 h2 = rw (h1, h2) refl

  positive_answer :
      (now_1 now_2 now_3 : ℕ) (order_2 order_3 : Iteration)
      → get_cache_state c q t now_1 ≡ positive_cache
      → (authorities : List DnsRecord) × ((lookup c q t now_1 now_2 now_3 order_2 order_3).0
          ≡ some (record new_packet {
            answers = (fill_queryresult c q t true now_2 order_2).0;
            authorities = authorities;
          }))
  unfolding lookup
  positive_answer now_1 now_2 now_3 order_2 order_3 h = (
    (fill_queryresult (fill_queryresult c q t true now_2 order_2).1 q QueryType.ns false now_3
        order_3).0,
    rw h refl,
  )

  -- A member of the set for the type that is valid is among the answers.
  pub lookup-member :
      (d : DomainEntry) (t' : QueryType) (es : List RecordEntry) (e : RecordEntry)
      (now_1 now_2 now_3 : ℕ) (order_2 order_3 : Iteration)
      → get_entry c q ≡ some d
      → get_key same_type d.record_types t ≡ some (records t' es)
      → Memᴰ e es
      → is_valid now_1 t e ≡ true
      → is_valid now_2 t e ≡ true
      → (answers authorities : List DnsRecord) × ((lookup c q t now_1 now_2 now_3 order_2 order_3).0
          ≡ some (record new_packet { answers = answers; authorities = authorities }))
        × Memᴰ e.entry answers
  lookup-member d t' es e now_1 now_2 now_3 order_2 order_3 entry found m valid_1 valid_2 =
      let state =
        state_of d t' es now_1 entry found
        ∙ positive_of_member e (filter (is_valid now_1 t) es)
            (Memᴰ-filter (is_valid now_1 t) e es valid_1 m) in
      let (authorities, shape) = positive_answer now_1 now_2 now_3 order_2 order_3 state in
      let shown =
        Memᴰ.map (λ e. e.entry)
          (Memᴰ-filter (is_valid now_2 t) e (order_2.iterate es) valid_2
            (Memᴰ-Permᴰ (order_2.iterates es) m)) in
      (
        (fill_queryresult c q t true now_2 order_2).0,
        authorities,
        shape,
        subst (Memᴰ e.entry) (sym (answers_of d t' es now_2 order_2 entry found)) shown,
      )

pub store_one-entry :
    (c : Cache) (r : DnsRecord) (d : Bytes) (now : ℕ)
    → get_domain r ≡ some d
    → get_entry (store_one c r now) d ≡ some (stored_entry c r d now)
unfolding store_one
store_one-entry c r d now named =
    rw named
      (get_key-put_key same_hash c.domain_entries d (stored_entry c r d now) (same_hash_self d))

-- A record with a name that is stored is among the answers to a lookup of its name and type, in whatever
-- order the set of records is gone through, if its time to live is not over when the state is read, nor
-- when the answers are.
pub lookup-store_one :
    (c : Cache) (r : DnsRecord) (d : Bytes) (now now_1 now_2 now_3 : ℕ)
    (order_2 order_3 : Iteration)
    → get_domain r ≡ some d
    → now_1 ≤ now + seconds (get_ttl r)
    → now_2 ≤ now + seconds (get_ttl r)
    → (answers authorities : List DnsRecord) × ((lookup
          (store c ((r, now) ∷ []))
          d
          (get_querytype r)
          now_1
          now_2
          now_3
          order_2
          order_3).0
        ≡ some (record new_packet { answers = answers; authorities = authorities }))
      × Memᴰ r answers
unfolding store
lookup-store_one c r d now now_1 now_2 now_3 order_2 order_3 named h1 h2 =
    let (q, es, found) = stored_set c r d now in
    let e : RecordEntry = record { entry = r; timestamp = now } in
    lookup-member (store_one c r now) d (get_querytype r) (stored_entry c r d now) q (e ∷ es) e
      now_1 now_2 now_3 order_2 order_3 (store_one-entry c r d now named) found (Memᴰ.head refl)
      (valid_now r now now_1 h1) (valid_now r now now_2 h2)
