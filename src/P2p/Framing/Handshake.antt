-- ===== src/P2p/Framing/Handshake.antt =====
-- src/p2p/network.rs: the handshakes as they are written and as they are read.
use ruvname.Prelude.{
  ℕ, zero, suc, ◌+◌, ◌-◌, ◌%◌, ◌<◌, ◌≤◌, ◌≡◌, refl, sym, ◌∙◌, ap, true, false, some, [], ◌∷◌, ◌++◌,
  ltb, length, take, drop, set, length-append, drop-append, take-append, length-take, length-drop,
  Bool-cases, inl, inr, arith,
}
use mathlib.Core.List.{append_assoc}
use ruvname.Bytes.{Bytes}
use ruvname.P2p.Framing.{
  mask_garbage, set_elem, put_bytes, send_client_handshake, send_server_handshake, read_exact,
  read_garbage_header, read_after_garbage, read_client_handshake, read_server_handshake,
}
use ruvname.P2p.Framing.RoundTrip.{mask_garbage_twice, take-drop}

set-append :
    (pre : Bytes) (y x : ℕ) (post : Bytes) → set (pre ++ y ∷ post) (length pre) x ≡ pre ++ x ∷ post
set-append [] y x post = refl
set-append (p ∷ pre) y x post = ap (◌∷◌ p) (set-append pre y x post)

-- `put_bytes` overwrites so many bytes, where there are so many.
put_bytes-append :
    (bytes pre mid post : Bytes)
    → length mid ≡ length bytes
    → put_bytes (pre ++ (mid ++ post)) (length pre) bytes ≡ some (pre ++ (bytes ++ post))
unfolding put_bytes
put_bytes-append [] pre [] post h = refl
put_bytes-append [] pre (m ∷ mid) post h = absurd (omega arith)
put_bytes-append (x ∷ bytes) pre [] post h = absurd (omega arith)
put_bytes-append (x ∷ bytes) pre (m ∷ mid) post h =
    let inside : ltb (length pre) (length (pre ++ (m ∷ (mid ++ post)))) ≡ true =
      ground (arith, length-append pre (m ∷ (mid ++ post))) in
    let next : suc (length pre) ≡ length (pre ++ (x ∷ [])) =
      omega (arith, length-append pre (x ∷ [])) in
    rw (put_bytes, inside)
      (ap (λ buf. put_bytes buf (suc (length pre)) bytes) (set-append pre m x (mid ++ post))
        ∙ ap (λ buf. put_bytes buf (suc (length pre)) bytes)
            (sym (append_assoc pre (x ∷ []) (mid ++ post)))
        ∙ ap (λ at. put_bytes ((pre ++ (x ∷ [])) ++ (mid ++ post)) at bytes) next
        ∙ put_bytes-append bytes (pre ++ (x ∷ [])) mid post (omega arith)
        ∙ ap some (append_assoc pre (x ∷ []) (bytes ++ post)))

read_exact-append :
    (n : ℕ) (xs ys : Bytes) → n ≡ length xs → read_exact n (xs ++ ys) ≡ some (xs, ys)
unfolding read_exact
read_exact-append n xs ys e =
    let enough : ltb (length (xs ++ ys)) (length xs) ≡ false =
      ground (arith, length-append xs ys) in
    rw e (rw (enough, take-append xs ys, drop-append xs ys) refl)

read_garbage_header-append :
    (size : ℕ) (garbage rest : Bytes)
    → length garbage < 256
    → size ≡ length garbage
    → read_garbage_header (mask_garbage size ∷ (garbage ++ rest)) ≡ some rest
unfolding read_garbage_header
read_garbage_header-append size garbage rest small same =
    let back : mask_garbage (mask_garbage size) ≡ length garbage =
      ap (λ k. mask_garbage (mask_garbage k)) same ∙ mask_garbage_twice (length garbage) small in
    rw (read_garbage_header, read_exact-append (mask_garbage (mask_garbage size)) garbage rest back)
      refl

-- A handshake is a masked size, so many bytes, and the payload.
read_after_garbage-append :
    (n size : ℕ) (garbage payload rest : Bytes)
    → length garbage < 256
    → n ≡ length payload
    → size ≡ length garbage
    → read_after_garbage n (mask_garbage size ∷ (garbage ++ (payload ++ rest)))
      ≡ some (payload, rest)
unfolding read_after_garbage
read_after_garbage-append n size garbage payload rest small len same =
    rw (read_after_garbage, read_garbage_header-append size garbage (payload ++ rest) small same)
      (read_exact-append n payload rest len)

-- What stands in a buffer from a place on.
put_bytes-at :
    (first : ℕ) (tail bytes : Bytes) (at : ℕ)
    → at + length bytes ≤ length tail
    → put_bytes (first ∷ tail) (at + 1) bytes
      ≡ some (first ∷ (take at tail ++ (bytes ++ drop (length bytes) (drop at tail))))
put_bytes-at first tail bytes at h =
    let mid = take (length bytes) (drop at tail) in
    let post = drop (length bytes) (drop at tail) in
    let pre = first ∷ take at tail in
    let whole : first ∷ tail ≡ pre ++ (mid ++ post) = ap (◌∷◌ first) (
      sym (take-drop at tail)
      ∙ ap (◌++◌ (take at tail)) (sym (take-drop (length bytes) (drop at tail)))) in
    let place : at + 1 ≡ length pre = omega (arith, length-take at tail) in
    let size : length mid ≡ length bytes =
      omega (arith, length-take (length bytes) (drop at tail), length-drop at tail) in
    ap (λ buf. put_bytes buf (at + 1) bytes) whole
    ∙ ap (λ i. put_bytes (pre ++ (mid ++ post)) i bytes) place
    ∙ put_bytes-append bytes pre mid post size

drop_all : (n : ℕ) (xs : Bytes) → length xs ≤ n → drop n xs ≡ []
drop_all zero [] h = refl
drop_all zero (x ∷ xs) h = absurd (omega arith)
drop_all (suc n) [] h = refl
drop_all (suc n) (x ∷ xs) h = drop_all n xs (omega arith)

-- A packet with a payload at its end.
packet-read :
    (n at : ℕ) (tail payload rest : Bytes)
    → n ≡ length payload
    → at + n ≡ length tail
    → at < 256
    → (sent : Bytes) × (put_bytes (mask_garbage (at % 256) ∷ tail) (at + 1) payload ≡ some sent)
      × (read_after_garbage n (sent ++ rest) ≡ some (payload, rest))
packet-read n at tail payload rest len whole small =
    let size : ℕ = at % 256 in
    let garbage = take at tail in
    let written = put_bytes-at (mask_garbage size) tail payload at (omega arith) in
    let nothing = drop_all (length payload) (drop at tail) (omega (arith, length-drop at tail)) in
    let stream : (mask_garbage size ∷ (garbage ++ (payload ++ []))) ++ rest
        ≡ mask_garbage size ∷ (garbage ++ (payload ++ rest)) =
      ap (◌∷◌ (mask_garbage size)) (
        append_assoc garbage (payload ++ []) rest
        ∙ ap (◌++◌ garbage) (append_assoc payload [] rest)) in
    (
      mask_garbage size ∷ (garbage ++ (payload ++ [])),
      written ∙ ap (λ xs. some (mask_garbage size ∷ (garbage ++ (payload ++ xs)))) nothing,
      ap (read_after_garbage n) stream
          ∙ read_after_garbage-append n size garbage payload rest
              (omega (arith, length-take at tail)) len (omega (arith, length-take at tail)),
    )

set_first : (first x : ℕ) (tail : Bytes) → set_elem (first ∷ tail) 0 x ≡ some (x ∷ tail)
set_first first x tail =
    let inside : ltb 0 (suc (length tail)) ≡ true = ground arith in rw inside refl

send_client_handshake-packet :
    (first : ℕ) (tail key : Bytes)
    → send_client_handshake (first ∷ tail) key
      ≡ put_bytes
          (mask_garbage ((length (first ∷ tail) - 33) % 256) ∷ tail)
          (length (first ∷ tail) - 33 + 1)
          key
unfolding send_client_handshake
send_client_handshake-packet first tail key =
    let inside : ltb 0 (suc (length tail)) ≡ true = ground arith in
    rw (send_client_handshake, inside) refl

-- A client's handshake, in a random packet of 64 to 254 bytes, does not panic, and is read as the
-- public key; what follows it in the stream is left there.
pub send_client_handshake-read :
    (packet key rest : Bytes)
    → 64 ≤ length packet
    → length packet < 255
    → length key ≡ 32
    → (sent : Bytes) × (send_client_handshake packet key ≡ some sent)
      × (read_client_handshake (sent ++ rest) ≡ some (key, rest))
unfolding read_client_handshake
send_client_handshake-read [] key rest big small len = absurd (omega arith)
send_client_handshake-read (p ∷ tail) key rest big small len =
    let at : ℕ = length (p ∷ tail) - 33 in
    let (sent, written, read) =
      packet-read 32 at tail key rest (sym len) (omega arith) (omega arith) in
    (sent, send_client_handshake-packet p tail key ∙ written, read)

put_bytes-step :
    (x : ℕ) (bytes buf : Bytes) (at : ℕ)
    → ltb at (length buf) ≡ true
    → put_bytes buf at (x ∷ bytes) ≡ put_bytes (set buf at x) (suc at) bytes
unfolding put_bytes
put_bytes-step x bytes buf at e = rw (put_bytes, e) refl

-- Two writes, one after the other, are one.
put_bytes_twice :
    (a b buf buf' : Bytes) (at : ℕ)
    → put_bytes buf at a ≡ some buf'
    → put_bytes buf at (a ++ b) ≡ put_bytes buf' (at + length a) b
unfolding put_bytes
put_bytes_twice [] b buf buf' at h =
    let same : buf ≡ buf' = ground arith in
    let place : at ≡ at + 0 = omega arith in
    ap (λ x. put_bytes x at b) same ∙ ap (λ i. put_bytes buf' i b) place
put_bytes_twice (x ∷ a) b buf buf' at h = elim (Bool-cases (ltb at (length buf))) [
  | inl e ↦
      let first : put_bytes (set buf at x) (suc at) a ≡ some buf' =
        sym (put_bytes-step x a buf at e) ∙ h in
      let place : suc at + length a ≡ at + suc (length a) = omega arith in
      put_bytes-step x (a ++ b) buf at e
      ∙ put_bytes_twice a b (set buf at x) buf' (suc at) first
      ∙ ap (λ i. put_bytes buf' i b) place
  | inr e ↦ absurd (ground arith)
]

send_server_handshake-packet :
    (first : ℕ) (tail key nonce buf : Bytes)
    → put_bytes
        (mask_garbage ((length (first ∷ tail) - 1 - 32 - 12) % 256) ∷ tail)
        (length (first ∷ tail) - 1 - 32 - 12 + 1)
        key
      ≡ some buf
    → send_server_handshake (first ∷ tail) key nonce
      ≡ put_bytes buf (length (first ∷ tail) - 1 - 32 - 12 + 32 + 1) nonce
unfolding send_server_handshake
send_server_handshake-packet first tail key nonce buf written =
    let inside : ltb 0 (suc (length tail)) ≡ true = ground arith in
    rw (send_server_handshake, inside) (rw written refl)

-- A server's handshake is read as its public key and its nonce.
pub send_server_handshake-read :
    (packet key nonce rest : Bytes)
    → 64 ≤ length packet
    → length packet < 255
    → length key ≡ 32
    → length nonce ≡ 12
    → (sent : Bytes) × (send_server_handshake packet key nonce ≡ some sent)
      × (read_server_handshake (sent ++ rest) ≡ some (key ++ nonce, rest))
unfolding read_server_handshake
send_server_handshake-read [] key nonce rest big small len len' = absurd (omega arith)
send_server_handshake-read (p ∷ tail) key nonce rest big small len len' =
    let at : ℕ = length (p ∷ tail) - 1 - 32 - 12 in
    let first : ℕ = mask_garbage (at % 256) in
    let (sent, written, read) =
      packet-read 44 at tail (key ++ nonce) rest (omega (arith, length-append key nonce))
        (omega arith) (omega arith) in
    let one = put_bytes-at first tail key at (omega arith) in
    let buf = first ∷ (take at tail ++ (key ++ drop (length key) (drop at tail))) in
    let place : at + 32 + 1 ≡ at + 1 + length key = omega arith in
    (
      sent,
      send_server_handshake-packet p tail key nonce buf one
          ∙ ap (λ i. put_bytes buf i nonce) place
          ∙ sym (put_bytes_twice key nonce (first ∷ tail) buf (at + 1) one)
          ∙ written,
      read,
    )
