-- ===== src/Dns/Server/Response.antt =====
-- src/dns/server.rs: what holds of every response.
use ruvname.Prelude.{
  ◌≡◌, refl, sym, ap, ◌∙◌, inl, inr, Bool, true, false, not, ◌&&◌, Option, none, some, List, [],
  ◌∷◌, ◌++◌, any, Bool-cases, if◌then◌else◌,
}
use mathlib.Core.List.{append-nil, append_assoc}
use ruvname.Dns.Record.{DnsRecord}
use ruvname.Dns.Cache.{same_record}
use ruvname.Dns.Packet.{DnsPacket, DnsHeader, DnsQuestion, ResultCode, formerr, servfail, refused}
use ruvname.Dns.Server.{
  Resolver, get_unresolved_cnames, resolve_cnames, with_authority, add_new, merge, with_rescode,
  response_to, after_resolve, query_first, execute_query,
}

-- No record stands behind one that is equal to it, as the derived equality sees it.
abbrev pub NoRepeats : (before : List DnsRecord) → List DnsRecord → Type 0
NoRepeats before [] = Unit
NoRepeats before (r ∷ rs) =
    (any (λ x. same_record x r) before ≡ false) × NoRepeats (before ++ r ∷ []) rs

abbrev pub HasNoRepeats : DnsPacket → Type 0
HasNoRepeats p = NoRepeats [] p.answers × NoRepeats [] p.authorities × NoRepeats [] p.resources

NoRepeats-snoc :
    (before rs : List DnsRecord) (r : DnsRecord)
    → NoRepeats before rs
    → any (λ x. same_record x r) (before ++ rs) ≡ false
    → NoRepeats before (rs ++ r ∷ [])
NoRepeats-snoc before [] r h new =
    (ap (any (λ x. same_record x r)) (sym (append-nil before)) ∙ new, tt)
NoRepeats-snoc before (x ∷ rs) r h new = (
  h.0,
  NoRepeats-snoc (before ++ x ∷ []) rs r h.1
      (ap (any (λ y. same_record y r)) (append_assoc before (x ∷ []) rs) ∙ new),
)

add_new-NoRepeats : (old rs : List DnsRecord) → NoRepeats [] old → NoRepeats [] (add_new old rs)
add_new-NoRepeats old [] h = h
add_new-NoRepeats old (r ∷ rs) h = elim (Bool-cases (any (λ x. same_record x r) old)) [
  | inl old_one ↦ rw old_one (add_new-NoRepeats old rs h)
  | inr new_one ↦
      rw new_one (add_new-NoRepeats (old ++ r ∷ []) rs (NoRepeats-snoc [] old r h new_one))
]

merge-HasNoRepeats :
    (results : List DnsPacket) (p : DnsPacket) → HasNoRepeats p → HasNoRepeats (merge p results)
unfolding merge
merge-HasNoRepeats [] p h = h
merge-HasNoRepeats (result ∷ results) p h = merge-HasNoRepeats results _ (
  add_new-NoRepeats p.answers result.answers h.0,
  add_new-NoRepeats p.authorities result.authorities h.1,
  add_new-NoRepeats p.resources result.resources h.2,
)

merge-header :
    (results : List DnsPacket) (p : DnsPacket)
    → ((merge p results).header ≡ p.header) × ((merge p results).questions ≡ p.questions)
unfolding merge
merge-header [] p = (refl, refl)
merge-header (result ∷ results) p = merge-header results _

-- The code and the records after the resolver's answer to the question.
abbrev pub ByResult : Option DnsPacket → DnsPacket → Type 0
ByResult none p = (p.header.rescode ≡ servfail) × (p.answers ≡ [])
ByResult (some r) p =
    (p.header.rescode ≡ r.header.rescode)
    × (p.header.authoritative_answer ≡ r.header.authoritative_answer)

module _ (R : Resolver) (allow_recursive : Bool) (self : R.Self) (request : DnsPacket) where
  -- What a response says when recursion is not refused.
  abbrev pub ByQuestion : List DnsQuestion → DnsPacket → Type 0
  ByQuestion [] p = (p.header.rescode ≡ formerr) × (p.questions ≡ []) × (p.answers ≡ [])
  ByQuestion (question ∷ questions) p =
      (p.questions ≡ question ∷ [])
      × ByResult (R.resolve self question.name question.qtype request.header.recursion_desired).0 p

  abbrev pub IsRefused : DnsPacket → Type 0
  IsRefused p = (p.header.rescode ≡ refused) × (p.questions ≡ []) × (p.answers ≡ [])

  abbrev pub IsResponse : DnsPacket → Type 0
  IsResponse p =
      (p.header.id ≡ request.header.id)
      × (p.header.response ≡ true)
      × (p.header.recursion_desired ≡ request.header.recursion_desired)
      × (p.header.recursion_available ≡ allow_recursive)
      × HasNoRepeats p

  merge-IsResponse :
      (p : DnsPacket) (results : List DnsPacket) → IsResponse p → IsResponse (merge p results)
  merge-IsResponse p results (i, r, d, v, n) =
      let same = (merge-header results p).0 in
      (
        ap DnsHeader.id same ∙ i,
        ap DnsHeader.response same ∙ r,
        ap DnsHeader.recursion_desired same ∙ d,
        ap DnsHeader.recursion_available same ∙ v,
        merge-HasNoRepeats results p n,
      )

  -- The result `r` of the resolver is merged with what was found after it.
  merged-IsResponse :
      (authoritative : Bool) (code : ResultCode) (p : DnsPacket) (found : List DnsPacket)
      → IsResponse p
      → p.header.authoritative_answer ≡ false
      → (let q = merge (with_rescode code (with_authority authoritative p)) found in
          IsResponse q
          × (q.questions ≡ p.questions)
          × (q.header.rescode ≡ code)
          × (q.header.authoritative_answer ≡ authoritative))
  merged-IsResponse true code p found h aa = (
    merge-IsResponse _ found h,
    (merge-header found _).1,
    ap DnsHeader.rescode (merge-header found _).0,
    ap DnsHeader.authoritative_answer (merge-header found _).0,
  )
  merged-IsResponse false code p found h aa = (
    merge-IsResponse _ found h,
    (merge-header found _).1,
    ap DnsHeader.rescode (merge-header found _).0,
    ap DnsHeader.authoritative_answer (merge-header found _).0 ∙ aa,
  )

  after_resolve-IsResponse :
      (packet : DnsPacket) (question : DnsQuestion) (answer : Option DnsPacket × R.Self)
      → IsResponse packet
      → packet.header.authoritative_answer ≡ false
      → packet.answers ≡ []
      → (let p = after_resolve R allow_recursive packet question answer in
          IsResponse p × (p.questions ≡ packet.questions) × ByResult answer.0 p)
  after_resolve-IsResponse packet question (none, self') h aa empty = (h, refl, (refl, empty))
  after_resolve-IsResponse packet question (some result, self') h aa empty =
      let (good, same, code, authority) =
        merged-IsResponse result.header.authoritative_answer result.header.rescode packet
          (resolve_cnames R question.qtype 11 (get_unresolved_cnames result question.qtype)
            (self', result ∷ [])).1
          h aa in
      (good, same, (code, authority))

  -- Every request is answered under its own id with its own recursion flag; recursion that is desired and
  -- not allowed is refused, a request without a question is a format error; else the first question is
  -- repeated, and the code and the authority are those of the resolver, or SERVFAIL without an answer when it
  -- fails. No record stands twice in a section.
  pub execute_query-IsResponse :
      IsResponse (execute_query R allow_recursive self request)
      × (if request.header.recursion_desired && not allow_recursive
          then IsRefused (execute_query R allow_recursive self request)
          else ByQuestion request.questions (execute_query R allow_recursive self request))
  unfolding execute_query
  execute_query-IsResponse =
      elim (Bool-cases (request.header.recursion_desired && not allow_recursive)) [
        | inl refuse ↦ rw refuse (start, (refl, refl, refl))
        | inr go_on ↦ rw go_on (first request.questions)
      ]
    where
      start : IsResponse (response_to allow_recursive request)
      start = (refl, refl, refl, refl, (tt, tt, tt))

      first :
          (questions : List DnsQuestion)
          → (let p =
                query_first R allow_recursive self request
                  (response_to allow_recursive request)
                  questions in
              IsResponse p × ByQuestion questions p)
      first [] = (start, (refl, refl, refl))
      first (question ∷ questions) =
          let (good, same, result) =
            after_resolve-IsResponse
              (record (response_to allow_recursive request) { questions = question ∷ [] }) question
              (R.resolve self question.name question.qtype request.header.recursion_desired) start
              refl refl in
          (good, (same, result))
