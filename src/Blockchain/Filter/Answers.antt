-- ===== src/Blockchain/Filter/Answers.antt =====
-- src/blockchain/filter.rs: where the answers of the filter come from, and what it says without any.
use mathlib.Core.List.{Memᴰ}
use ruvname.Prelude.{
  ℕ, ◌≡◌, refl, ◌∙◌, ap, ◌⊎◌, inl, inr, ℤ, Bool, true, false, not, ◌&&◌, ◌||◌, Option, none, some,
  List, [], ◌∷◌, ◌++◌, map, All, All-append, Bool-cases, if◌then◌else◌, arith,
}
use ruvname.Bytes.{Bytes, codes, is_empty}
use ruvname.Bytes.Equality.{same_hash_self}
use ruvname.Dns.Record.{QueryType, DnsRecord, get_querytype, get_domain, same_type}
use ruvname.Dns.Packet.{DnsPacket, noerror, nxdomain}
use ruvname.Blockchain.Block.{Host}
use ruvname.Blockchain.Chain.{Chain, get_soa_serial}
use ruvname.Blockchain.Filter.{
  renamed, is_named, is_cname, matched, is_match, collect, or_cname, is_wildcard, wildcards,
  answer_from, has_records, name_exists, create_packet, add_soa_record, with_code, name_server,
  server_admin, AskServer,
}

-- A new name changes nothing but the name.
renamed-type : (q : Bytes) (r : DnsRecord) → get_querytype (renamed q r) ≡ get_querytype r
unfolding renamed get_querytype
renamed-type q (DnsRecord.ptr domain value ttl) = refl
renamed-type q r = refl

renamed_twice : (q : Bytes) (r : DnsRecord) → renamed q (renamed q r) ≡ renamed q r
unfolding renamed
renamed_twice q (DnsRecord.ptr domain value ttl) = refl
renamed_twice q r = refl

renamed_cases :
    (q : Bytes) (r : DnsRecord) → (get_domain (renamed q r) ≡ some q) ⊎ (renamed q r ≡ r)
unfolding renamed get_domain
renamed_cases q (DnsRecord.ptr domain value ttl) = inr refl
renamed_cases q (DnsRecord.opt packet_len flags value) = inr refl
renamed_cases q r = inl refl

both_true : (b c : Bool) → (b && c) ≡ true → (b ≡ true) × (c ≡ true)
both_true b c h = (ground arith, ground arith)

any_of_three : (a b c : Bool) → c ≡ true → (a || b || c) ≡ true
any_of_three a b c h = ground arith

named_so : (q : Bytes) (r : DnsRecord) → get_domain r ≡ some q → is_named q r ≡ true
named_so q r e = rw (is_named, e) (same_hash_self q)

module _ (qname subdomain : Bytes) (qtype : QueryType) where
  -- A record of the domain, with its own name or the name that is asked for.
  abbrev pub IsOf : List DnsRecord → DnsRecord → Type 0
  IsOf records r = (r0 : DnsRecord) × Memᴰ r0 records × ((r ≡ r0) ⊎ (r ≡ renamed qname r0))

  -- The type is the one asked for, or CNAME; the name is the one asked for, or that within the
  -- domain, or `*`.
  abbrev pub Fits : DnsRecord → Type 0
  Fits r =
      ((same_type (get_querytype r) qtype || is_cname r) ≡ true)
      × ((is_named qname r || is_named subdomain r || is_named (codes "*") r) ≡ true)

  abbrev pub IsAnswer : List DnsRecord → DnsRecord → Type 0
  IsAnswer records r = IsOf records r × Fits r

  matched-IsOf :
      (r : DnsRecord)
      → (matched qname subdomain qtype r ≡ r) ⊎ (matched qname subdomain qtype r ≡ renamed qname r)
  unfolding matched
  matched-IsOf r =
      elim (Bool-cases (
        (same_type (get_querytype r) qtype || is_cname r)
        && ((is_named (codes "@") r && is_empty subdomain) || is_named subdomain r))) [
          | inl e ↦ inr (rw (matched, e) refl)
          | inr e ↦ inl (rw (matched, e) refl)
        ]

  IsOf-more : (r0 r : DnsRecord) (records : List DnsRecord) → IsOf records r → IsOf (r0 ∷ records) r
  IsOf-more r0 r records (x, m, e) = (x, Memᴰ.tail m, e)

  All-more :
      (r0 : DnsRecord) (records rs : List DnsRecord)
      → All (IsOf records) rs
      → All (IsOf (r0 ∷ records)) rs
  All-more r0 records [] all = tt
  All-more r0 records (r ∷ rs) (h, all) = (IsOf-more r0 r records h, All-more r0 records rs all)

  left-IsOf :
      (records : List DnsRecord) → All (IsOf records) (map (matched qname subdomain qtype) records)
  left-IsOf [] = tt
  left-IsOf (r ∷ records) = (
    (r, Memᴰ.head refl, matched-IsOf r),
    All-more r records (map (matched qname subdomain qtype) records) (left-IsOf records),
  )

  is_match-Fits : (r : DnsRecord) → is_match qname subdomain qtype r ≡ true → Fits r
  unfolding is_match
  is_match-Fits r h =
      match_parts (same_type (get_querytype r) qtype || is_cname r) (is_named qname r)
        (is_named subdomain r) (is_named (codes "*") r) h
    where
      match_parts : (t q s w : Bool) → (t && (q || s)) ≡ true → (t ≡ true) × ((q || s || w) ≡ true)
      match_parts t q s w h = (ground arith, ground arith)

  module _ (records : List DnsRecord) where
    abbrev IsCname : Option DnsRecord → Type 0
    IsCname none = Unit
    IsCname (some r) = IsAnswer records r

    abbrev IsFound : List DnsRecord × Option DnsRecord → Type 0
    IsFound (answers, cname) = All (IsAnswer records) answers × IsCname cname

    collect-IsFound :
        (rs : List DnsRecord) (found : List DnsRecord × Option DnsRecord)
        → All (IsOf records) rs
        → IsFound found
        → IsFound (collect qname subdomain qtype rs found)
    unfolding collect
    collect-IsFound [] found all h = h
    collect-IsFound (r ∷ rs) (answers, cname) (here, all) (old, alias) =
        elim (Bool-cases (is_match qname subdomain qtype r)) [
          | inr skip ↦ rw (collect, skip) (collect-IsFound rs (answers, cname) all (old, alias))
          | inl fits ↦
              let answer : IsAnswer records r = (here, is_match-Fits r fits) in
              elim (Bool-cases (is_cname r)) [
                | inl e ↦
                    rw (collect, fits)
                      (rw e (collect-IsFound rs (answers, some r) all (old, answer)))
                | inr e ↦
                    rw (collect, fits)
                      (rw e (
                        collect-IsFound rs (answers ++ r ∷ [], cname) all
                          (All-append (IsAnswer records) answers (r ∷ []) old (answer, tt), alias)))
              ]
        ]

    or_cname-IsAnswer :
        (found : List DnsRecord × Option DnsRecord)
        → IsFound found
        → All (IsAnswer records) (or_cname found)
    or_cname-IsAnswer ([], none) h = tt
    or_cname-IsAnswer ([], some r) (old, alias) = (alias, tt)
    or_cname-IsAnswer (r ∷ rs, cname) (old, alias) = old

    renamed-IsOf : (r : DnsRecord) → IsOf records r → IsOf records (renamed qname r)
    renamed-IsOf r (r0, m, inl e) = (r0, m, inr (ap (renamed qname) e))
    renamed-IsOf r (r0, m, inr e) = (r0, m, inr (ap (renamed qname) e ∙ renamed_twice qname r0))

    wildcard-Fits : (r : DnsRecord) → is_wildcard qtype r ≡ true → Fits (renamed qname r)
    unfolding is_wildcard
    wildcard-Fits r h =
        let parts = both_true (same_type (get_querytype r) qtype) (is_named (codes "*") r) h in
        let type_fits : same_type (get_querytype (renamed qname r)) qtype ≡ true =
          ap (λ t. same_type t qtype) (renamed-type qname r) ∙ parts.0 in
        (
          rw type_fits refl,
          elim (renamed_cases qname r) [
            | inl e ↦ let own = named_so qname (renamed qname r) e in rw own refl
            | inr e ↦
                any_of_three (is_named qname (renamed qname r))
                  (is_named subdomain (renamed qname r)) (is_named (codes "*") (renamed qname r))
                  (ap (is_named (codes "*")) e ∙ parts.1)
          ],
        )

    wildcards-IsAnswer :
        (rs : List DnsRecord)
        → All (IsOf records) rs
        → All (IsAnswer records) (wildcards qname qtype rs)
    unfolding wildcards
    wildcards-IsAnswer [] all = tt
    wildcards-IsAnswer (r ∷ rs) (here, all) = elim (Bool-cases (is_wildcard qtype r)) [
      | inl e ↦
          rw (wildcards, e) ((renamed-IsOf r here, wildcard-Fits r e), wildcards-IsAnswer rs all)
      | inr e ↦ rw (wildcards, e) (wildcards-IsAnswer rs all)
    ]

    answers-IsAnswer : All (IsAnswer records) (
        let left = map (matched qname subdomain qtype) records in
        let direct = or_cname (collect qname subdomain qtype left ([], none)) in
        if has_records direct then direct else wildcards qname qtype left)
    answers-IsAnswer =
        let left = map (matched qname subdomain qtype) records in
        let found = collect qname subdomain qtype left ([], none) in
        elim (Bool-cases (has_records (or_cname found))) [
          | inl e ↦ rw e (
              or_cname-IsAnswer found
                (collect-IsFound left ([], none) (left-IsOf records) (tt, tt)))
          | inr e ↦ rw e (wildcards-IsAnswer left (left-IsOf records))
        ]

  -- The packet that is made: with answers it is good and names the zone's server; without any it has
  -- the zone's start of authority, and says whether the name exists.
  abbrev pub IsComplete : (zone : Bytes) → (serial : ℕ) → DnsPacket → Type 0
  IsComplete zone serial p =
      ((has_records p.answers ≡ true)
        × (p.header.rescode ≡ noerror)
        × (p.authorities ≡ DnsRecord.ns zone name_server 600 ∷ []))
      ⊎ ((p.answers ≡ [])
          × ((p.header.rescode ≡ noerror) ⊎ (p.header.rescode ≡ nxdomain))
          × (p.authorities
              ≡ DnsRecord.soa zone name_server server_admin serial 3600 300 604800 60 60 ∷ []))

  finished :
      (records : List DnsRecord) (zone : Bytes) (serial : ℕ) (exists : Bool)
      (answers : List DnsRecord)
      → All (IsAnswer records) answers
      → (p : DnsPacket)
      → p ≡ (
          let packet = create_packet serial qname qtype zone answers in
          if exists && not (has_records packet.answers) then with_code noerror packet else packet)
      → All (IsAnswer records) p.answers
        × (p.header.authoritative_answer ≡ true)
        × IsComplete zone serial p
  unfolding create_packet add_soa_record
  finished records zone serial true [] all p e = rw e (tt, refl, inr (refl, inl refl, refl))
  finished records zone serial false [] all p e = rw e (tt, refl, inr (refl, inr refl, refl))
  finished records zone serial true (r ∷ rs) all p e = rw e (all, refl, inl (refl, refl, refl))
  finished records zone serial false (r ∷ rs) all p e = rw e (all, refl, inl (refl, refl, refl))

  -- Every answer from the records of a domain is one of these records, with its own name or the
  -- name that is asked for; its type is the one asked for, or CNAME, and its name the one asked for,
  -- or that within the domain, or `*`. The packet is authoritative; with answers it is without an
  -- error and names the zone's server, without any it has the zone's start of authority, and its
  -- code is NOERROR or NXDOMAIN.
  pub answer_from-IsAnswer :
      (host : Host) (ask : AskServer) (now : ℤ) (c : Chain) (zone : Bytes)
      (records : List DnsRecord)
      → All
          (IsAnswer records)
          (answer_from host ask now c qname subdomain zone qtype records).answers
        × ((answer_from host ask now c qname subdomain zone qtype
              records).header.authoritative_answer
            ≡ true)
        × IsComplete zone
            (get_soa_serial c)
            (answer_from host ask now c qname subdomain zone qtype records)
  unfolding answer_from
  answer_from-IsAnswer host ask now c zone records =
      let left = map (matched qname subdomain qtype) records in
      let direct = or_cname (collect qname subdomain qtype left ([], none)) in
      finished records zone (get_soa_serial c)
        (has_records direct || is_empty subdomain || name_exists subdomain left)
        (if has_records direct then direct else wildcards qname qtype left)
        (answers-IsAnswer records) (answer_from host ask now c qname subdomain zone qtype records)
        refl
