-- ===== src/Dns/Cache/Fresh.antt =====
-- src/dns/cache.rs: where the answers of the cache come from, after any sequence of its operations.
use mathlib.Core.List.{Memᴰ}
use ruvname.Prelude.{
  ℕ, ◌+◌, ◌%◌, ◌≤◌, ◌≡◌, refl, sym, Bool, true, false, Option, none, some, List, [], ◌∷◌, not,
  filter, get_key, AllKeys, AllKeys-get_key, AllKeys-put_key, All, All-filter, All-kept, All-map,
  All-Permᴰ, arith,
}
use mathlib.Core.Path.{subst}
use mathlib.Core.Option.{some_inj}
use ruvname.Bytes.{Bytes, same_hash}
use ruvname.Bytes.Equality.{same_hash→eq}
use ruvname.Dns.Record.{QueryType, DnsRecord, same_type, get_querytype, get_domain, get_ttl}
use ruvname.Dns.Packet.{DnsPacket}
use ruvname.Dns.Cache.{
  Cache, CacheState, Iteration, RecordSet, RecordEntry, DomainEntry, positive_cache, negative_cache,
  not_cached, records, no_records, seconds, is_valid, valid_records, set_with, get_entry, put_entry,
  entry_or_new, entry_store_record, entry_store_nxdomain, entry_fill_queryresult, fill_queryresult,
  fill_from, store_under, respond, get_cache_state, lookup, store_one, store_nxdomain, new_cache,
  same_record,
}

pub data Operation : Type 0 where
  stored : (r : DnsRecord) (now : ℕ) → Operation
  missing : (qname : Bytes) (qtype : QueryType) (ttl now : ℕ) → Operation
  looked_up :
      (qname : Bytes) (qtype : QueryType) (now now_2 now_3 : ℕ) (order_2 order_3 : Iteration)
      → Operation

abbrev pub perform : Cache → Operation → Cache
perform c (stored r now) = store_one c r now
perform c (missing qname qtype ttl now) = store_nxdomain c qname qtype ttl now
perform c (looked_up qname qtype now now_2 now_3 order_2 order_3) =
    (lookup c qname qtype now now_2 now_3 order_2 order_3).1

unfoldable pub perform_all : Cache → List Operation → Cache
unfolding store_one store_nxdomain lookup
perform_all c [] = c
perform_all c (o ∷ ops) = perform_all (perform c o) ops

-- An answer to a question: it was stored at some time, has the name and the type asked for, and is
-- not expired.
unfoldable pub IsAnswer : List Operation → Bytes → QueryType → ℕ → DnsRecord → Type 0
IsAnswer ops qname qtype now r =
    (timestamp : ℕ) × Memᴰ (stored r timestamp) ops
    × (get_domain r ≡ some qname)
    × (same_type (get_querytype r) qtype ≡ true)
    × (now ≤ timestamp + seconds (get_ttl r))

module _ (P : DnsRecord → ℕ → Type 0) where
  abbrev EntryOk : Bytes → RecordEntry → Type 0
  EntryOk k e = P e.entry e.timestamp × (get_domain e.entry ≡ some k)

  abbrev SetOk : Bytes → RecordSet → Type 0
  SetOk k (no_records t ttl timestamp) = Unit
  SetOk k (records t entries) = All (EntryOk k) entries

  abbrev DomainOk : Bytes → DomainEntry → Type 0
  DomainOk k d = AllKeys same_type (λ t set. SetOk k set) d.record_types

  abbrev CacheOk : Cache → Type 0
  CacheOk c = AllKeys same_hash DomainOk c.domain_entries

  set_with-SetOk :
      (k : Bytes) (r : DnsRecord) (now : ℕ) (old : Option RecordSet)
      → P r now
      → get_domain r ≡ some k
      → ((set : RecordSet) → old ≡ some set → SetOk k set)
      → SetOk k (set_with r (record { entry = r; timestamp = now }) old)
  set_with-SetOk k r now none p named ok = ((p, named), tt)
  set_with-SetOk k r now (some (no_records t ttl timestamp)) p named ok = ((p, named), tt)
  set_with-SetOk k r now (some (records t entries)) p named ok = (
    (p, named),
    All-filter (EntryOk k) (λ old. not (same_record old.entry r)) entries
        (ok (records t entries) refl),
  )

  entry_or_new-DomainOk :
      (c : Cache) (k : Bytes)
      → CacheOk c
      → (o : Option DomainEntry) → get_entry c k ≡ o
      → DomainOk k (entry_or_new k o)
  entry_or_new-DomainOk c k ok none e = tt
  entry_or_new-DomainOk c k ok (some d) e =
      let (k', same, d-ok) = AllKeys-get_key same_hash DomainOk c.domain_entries k d ok e in
      subst (λ k. DomainOk k d) (same_hash→eq k' k same) d-ok

  put_entry-CacheOk :
      (c : Cache) (k : Bytes) (d : DomainEntry)
      → CacheOk c
      → DomainOk k d
      → CacheOk (put_entry c k d)
  put_entry-CacheOk c k d ok d-ok =
      AllKeys-put_key same_hash DomainOk c.domain_entries k d ok
        (λ k' same. subst (λ k. DomainOk k d) (sym (same_hash→eq k' k same)) d-ok) d-ok

  entry_store_record-DomainOk :
      (k : Bytes) (d : DomainEntry) (r : DnsRecord) (now : ℕ)
      → DomainOk k d
      → P r now
      → get_domain r ≡ some k
      → DomainOk k (entry_store_record d r now)
  unfolding entry_store_record
  entry_store_record-DomainOk k d r now ok p named =
      let t = get_querytype r in
      let old = get_key same_type d.record_types t in
      let set-ok =
        set_with-SetOk k r now old p named (λ set e.
          (AllKeys-get_key same_type (λ t set. SetOk k set) d.record_types t set ok e).2) in
      AllKeys-put_key same_type (λ t set. SetOk k set) d.record_types t
        (set_with r (record { entry = r; timestamp = now }) old) ok (λ k' same. set-ok) set-ok

  store_one-CacheOk :
      (c : Cache) (r : DnsRecord) (now : ℕ)
      → CacheOk c
      → P r now
      → (o : Option Bytes) → get_domain r ≡ o
      → CacheOk (store_under c r now o)
  store_one-CacheOk c r now ok p none named = ok
  store_one-CacheOk c r now ok p (some k) named =
      let d = entry_or_new k (get_entry c k) in
      put_entry-CacheOk c k (entry_store_record d r now) ok (
        entry_store_record-DomainOk k d r now (entry_or_new-DomainOk c k ok (get_entry c k) refl) p
          named)

  store_nxdomain-CacheOk :
      (c : Cache) (k : Bytes) (t : QueryType) (ttl now : ℕ)
      → CacheOk c
      → CacheOk (store_nxdomain c k t ttl now)
  unfolding store_nxdomain entry_store_nxdomain
  store_nxdomain-CacheOk c k t ttl now ok =
      let d = entry_or_new k (get_entry c k) in
      put_entry-CacheOk c k (entry_store_nxdomain d t ttl now) ok (
        AllKeys-put_key same_type (λ t set. SetOk k set) d.record_types t (no_records t ttl now)
          (entry_or_new-DomainOk c k ok (get_entry c k) refl) (λ k' same. tt) tt)

  fill_from-CacheOk :
      (c : Cache) (k : Bytes) (t : QueryType) (stats : Bool) (now : ℕ) (order : Iteration)
      (o : Option DomainEntry)
      → CacheOk c
      → get_entry c k ≡ o
      → CacheOk (fill_from c k t stats now order o).1
  fill_from-CacheOk c k t stats now order none ok e = ok
  fill_from-CacheOk c k t true now order (some d) ok e =
      put_entry-CacheOk c k (record d { hits = (d.hits + 1) % 4294967296 }) ok
        (entry_or_new-DomainOk c k ok (some d) e)
  fill_from-CacheOk c k t false now order (some d) ok e = ok

  respond-CacheOk :
      (c : Cache) (k : Bytes) (t : QueryType) (now_2 now_3 : ℕ) (order_2 order_3 : Iteration)
      (state : CacheState)
      → CacheOk c
      → CacheOk (respond c k t now_2 now_3 order_2 order_3 state).1
  unfolding fill_queryresult
  respond-CacheOk c k t now_2 now_3 order_2 order_3 positive_cache ok =
      let c' = (fill_queryresult c k t true now_2 order_2).1 in
      fill_from-CacheOk c' k QueryType.ns false now_3 order_3 (get_entry c' k)
        (fill_from-CacheOk c k t true now_2 order_2 (get_entry c k) ok refl) refl
  respond-CacheOk c k t now_2 now_3 order_2 order_3 negative_cache ok = ok
  respond-CacheOk c k t now_2 now_3 order_2 order_3 not_cached ok = ok

  -- What a question is answered with.
  abbrev Good : Bytes → QueryType → ℕ → DnsRecord → Type 0
  Good k t now r =
      (timestamp : ℕ) × P r timestamp
      × (get_domain r ≡ some k)
      × (same_type (get_querytype r) t ≡ true)
      × (now ≤ timestamp + seconds (get_ttl r))

  valid-Good :
      (k : Bytes) (t : QueryType) (now : ℕ) (e : RecordEntry)
      → EntryOk k e × (is_valid now t e ≡ true)
      → Good k t now e.entry
  valid-Good k t now e ((p, named), valid) = (e.timestamp, p, named, ground arith, ground arith)

  valid_records-Good :
      (k : Bytes) (t : QueryType) (now : ℕ) (order : Iteration) (o : Option RecordSet)
      → ((set : RecordSet) → o ≡ some set → SetOk k set)
      → All (Good k t now) (valid_records now order t o)
  valid_records-Good k t now order none ok = tt
  valid_records-Good k t now order (some (no_records t' ttl timestamp)) ok = tt
  valid_records-Good k t now order (some (records t' entries)) ok =
      All-map (λ e. EntryOk k e × (is_valid now t e ≡ true)) (Good k t now) (λ e. e.entry)
        (filter (is_valid now t) (order.iterate entries)) (valid-Good k t now)
        (All-kept (EntryOk k) (is_valid now t) (order.iterate entries)
          (All-Permᴰ (EntryOk k) (order.iterates entries) (ok (records t' entries) refl)))

  fill_from-Good :
      (c : Cache) (k : Bytes) (t : QueryType) (stats : Bool) (now : ℕ) (order : Iteration)
      (o : Option DomainEntry)
      → CacheOk c
      → get_entry c k ≡ o
      → All (Good k t now) (fill_from c k t stats now order o).0
  unfolding entry_fill_queryresult
  fill_from-Good c k t stats now order none ok e = tt
  fill_from-Good c k t stats now order (some d) ok e =
      let d-ok = entry_or_new-DomainOk c k ok (some d) e in
      valid_records-Good k t now order (get_key same_type d.record_types t) (λ set found.
        (AllKeys-get_key same_type (λ t set. SetOk k set) d.record_types t set d-ok found).2)

  abbrev Shown : Bytes → QueryType → (now_2 now_3 : ℕ) → DnsPacket → Type 0
  Shown k t now_2 now_3 p =
      All (Good k t now_2) p.answers × All (Good k QueryType.ns now_3) p.authorities

  respond-Good :
      (c : Cache) (k : Bytes) (t : QueryType) (now_2 now_3 : ℕ) (order_2 order_3 : Iteration)
      (state : CacheState)
      → CacheOk c
      → (p : DnsPacket) → (respond c k t now_2 now_3 order_2 order_3 state).0 ≡ some p
      → Shown k t now_2 now_3 p
  unfolding fill_queryresult
  respond-Good c k t now_2 now_3 order_2 order_3 positive_cache ok p e =
      let c' = (fill_queryresult c k t true now_2 order_2).1 in
      let c'-ok = fill_from-CacheOk c k t true now_2 order_2 (get_entry c k) ok refl in
      let answers = fill_from-Good c k t true now_2 order_2 (get_entry c k) ok refl in
      let authorities =
        fill_from-Good c' k QueryType.ns false now_3 order_3 (get_entry c' k) c'-ok refl in
      subst (Shown k t now_2 now_3) (some_inj.0 e) (answers, authorities)
  respond-Good c k t now_2 now_3 order_2 order_3 negative_cache ok p e =
      subst (Shown k t now_2 now_3) (some_inj.0 e) (tt, tt)
  respond-Good c k t now_2 now_3 order_2 order_3 not_cached ok p e = ground arith

  perform-CacheOk :
      (c : Cache) (o : Operation)
      → CacheOk c
      → ((r : DnsRecord) (now : ℕ) → o ≡ stored r now → P r now)
      → CacheOk (perform c o)
  unfolding store_one lookup
  perform-CacheOk c (stored r now) ok p =
      store_one-CacheOk c r now ok (p r now refl) (get_domain r) refl
  perform-CacheOk c (missing qname qtype ttl now) ok p =
      store_nxdomain-CacheOk c qname qtype ttl now ok
  perform-CacheOk c (looked_up qname qtype now now_2 now_3 order_2 order_3) ok p =
      respond-CacheOk c qname qtype now_2 now_3 order_2 order_3 (get_cache_state c qname qtype now)
        ok

  perform_all-CacheOk :
      (c : Cache) (ops : List Operation)
      → CacheOk c
      → ((r : DnsRecord) (now : ℕ) → Memᴰ (stored r now) ops → P r now)
      → CacheOk (perform_all c ops)
  unfolding perform_all
  perform_all-CacheOk c [] ok p = ok
  perform_all-CacheOk c (o ∷ ops) ok p =
      perform_all-CacheOk (perform c o) ops
        (perform-CacheOk c o ok (λ r now e. p r now (Memᴰ.head (sym e))))
        (λ r now m. p r now (Memᴰ.tail m))

-- After any operations on an empty cache, in whatever order its sets are gone through, each answer of a lookup was stored, has the name and the
-- type asked for, and is not expired when the answers are collected; each authority is such a name
-- server of the name.
pub lookup-fresh :
    (ops : List Operation) (qname : Bytes) (qtype : QueryType) (now_1 now_2 now_3 : ℕ)
    (order_2 order_3 : Iteration) (p : DnsPacket)
    → (lookup (perform_all new_cache ops) qname qtype now_1 now_2 now_3 order_2 order_3).0 ≡ some p
    → All (IsAnswer ops qname qtype now_2) p.answers
      × All (IsAnswer ops qname QueryType.ns now_3) p.authorities
unfolding lookup IsAnswer
lookup-fresh ops qname qtype now_1 now_2 now_3 order_2 order_3 p e =
    let P : DnsRecord → ℕ → Type 0 = λ r now. Memᴰ (stored r now) ops in
    let c = perform_all new_cache ops in
    respond-Good P c qname qtype now_2 now_3 order_2 order_3 (get_cache_state c qname qtype now_1)
      (perform_all-CacheOk P new_cache ops tt (λ r now m. m)) p e
