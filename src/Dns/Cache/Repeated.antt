-- ===== src/Dns/Cache/Repeated.antt =====
-- src/dns/cache.rs: a lookup after two records of one name and type.
use mathlib.Core.List.{Memᴰ}
use ruvname.Prelude.{
  ℕ, ◌+◌, ◌≤◌, ◌≡◌, refl, sym, ap, ◌∙◌, true, false, not, some, List, [], ◌∷◌, get_key,
  get_key-put_key, Memᴰ-filter,
}
use mathlib.Core.Path.{subst}
use ruvname.Bytes.{Bytes}
use ruvname.Dns.Record.{QueryType, DnsRecord, same_type, get_querytype, get_domain, get_ttl}
use mathlib.Core.Option.{some_inj}
use ruvname.Dns.Packet.{DnsPacket, new_packet}
use ruvname.Dns.Cache.{
  Cache, Iteration, RecordEntry, same_record, records, seconds, is_valid, renew, set_with, lookup,
  store, store_one, entry_store_record,
}
use ruvname.Dns.Cache.Stored.{
  same_type_self, stored_entry, stored_set, store_one-entry, valid_now, lookup-member,
}

-- The set after a second record of the type.
second_set :
    (c : Cache) (r r' : DnsRecord) (d : Bytes) (now now' : ℕ)
    → get_domain r ≡ some d
    → get_querytype r' ≡ get_querytype r
    → same_record r r' ≡ false
    → (q : QueryType) × (es : List RecordEntry) × (get_key same_type
          (stored_entry (store_one c r now) r' d now').record_types
          (get_querytype r)
        ≡ some (records q es))
      × Memᴰ (record { entry = r; timestamp = now }) es
      × Memᴰ (record { entry = r'; timestamp = now' }) es
unfolding entry_store_record
second_set c r r' d now now' named kind differ =
    let (q, es, found) = stored_set c r d now in
    let e : RecordEntry = record { entry = r; timestamp = now } in
    let e' : RecordEntry = record { entry = r'; timestamp = now' } in
    let t = get_querytype r in
    let D = stored_entry c r d now in
    let kept = λ (old : RecordEntry). not (same_record old.entry r') in
    (
      q,
      renew e' (e ∷ es),
      rw (kind, store_one-entry c r d now named)
          (get_key-put_key same_type D.record_types t
              (set_with r' e' (get_key same_type D.record_types t)) (same_type_self t)
            ∙ ap (λ o. some (set_with r' e' o)) found),
      Memᴰ.tail (Memᴰ-filter kept e (e ∷ es) (ap not differ) (Memᴰ.head refl)),
      Memᴰ.head refl,
    )

-- Two records of one name and type that differ, be it in their times to live alone, are both among the
-- answers to a lookup of the name and type, in whatever order the set of records is gone through, if both
-- times to live are not over when the state is read, nor when the answers are.
pub lookup-store_both :
    (c : Cache) (r r' : DnsRecord) (d : Bytes) (now now' now_1 now_2 now_3 : ℕ)
    (order_2 order_3 : Iteration)
    → get_domain r ≡ some d
    → get_domain r' ≡ some d
    → get_querytype r' ≡ get_querytype r
    → same_record r r' ≡ false
    → now_1 ≤ now + seconds (get_ttl r)
    → now_2 ≤ now + seconds (get_ttl r)
    → now_1 ≤ now' + seconds (get_ttl r')
    → now_2 ≤ now' + seconds (get_ttl r')
    → (answers authorities : List DnsRecord) × ((lookup
          (store c ((r, now) ∷ (r', now') ∷ []))
          d
          (get_querytype r)
          now_1
          now_2
          now_3
          order_2
          order_3).0
        ≡ some (record new_packet { answers = answers; authorities = authorities }))
      × Memᴰ r answers
      × Memᴰ r' answers
unfolding store
lookup-store_both c r r' d now now' now_1 now_2 now_3 order_2 order_3 named named' kind differ h1 h2
      h1' h2' =
    let (q, es, found, m, m') = second_set c r r' d now now' named kind differ in
    let e : RecordEntry = record { entry = r; timestamp = now } in
    let e' : RecordEntry = record { entry = r'; timestamp = now' } in
    let c'' = store_one (store_one c r now) r' now' in
    let D = stored_entry (store_one c r now) r' d now' in
    let entry = store_one-entry (store_one c r now) r' d now' named' in
    let valid' = λ (now_n : ℕ) (h : now_n ≤ now' + seconds (get_ttl r')).
      subst (λ t. is_valid now_n t e' ≡ true) kind (valid_now r' now' now_n h) in
    let t = get_querytype r in
    let (answers, authorities, shape, shown) =
      lookup-member c'' d t D q es e now_1 now_2 now_3 order_2 order_3 entry found m
        (valid_now r now now_1 h1) (valid_now r now now_2 h2) in
    let (answers', authorities', shape', shown') =
      lookup-member c'' d t D q es e' now_1 now_2 now_3 order_2 order_3 entry found m'
        (valid' now_1 h1') (valid' now_2 h2') in
    (
      answers,
      authorities,
      shape,
      shown,
      subst (Memᴰ r') (ap (λ (p : DnsPacket). p.answers) (some_inj.0 (sym shape' ∙ shape))) shown',
    )
