-- ===== src/Dns/Address.antt =====
-- The addresses of std::net that src/dns/protocol.rs and src/commons/mod.rs use, and their texts.
use ruvname.Prelude.{
  ℕ, zero, suc, ◌+◌, ◌-◌, ◌/◌, ◌%◌, ◌&&◌, List, [], ◌∷◌, ◌++◌, ◌==◌, ltb, if◌then◌else◌, take, drop,
}
use ruvname.Bytes.{Bytes, codes}

-- Four octets; eight segments of 16 bits.
pub data Ipv4Addr : Type 0 where
  ipv4 : ℕ → ℕ → ℕ → ℕ → Ipv4Addr

pub data Ipv6Addr : Type 0 where
  ipv6 : ℕ → ℕ → ℕ → ℕ → ℕ → ℕ → ℕ → ℕ → Ipv6Addr

pub data IpAddr : Type 0 where
  v4 : Ipv4Addr → IpAddr
  v6 : Ipv6Addr → IpAddr

-- One digit, in lower case.
abbrev digit : ℕ → ℕ
digit d = if ltb d 10 then b'0' + d else b'a' + (d - 10)

-- The digits of n to a base, with no leading zero; k bounds their number.
pub number_text : ℕ → ℕ → ℕ → Bytes → Bytes
number_text zero base n rest = rest
number_text (suc k) base n rest =
    let more = number_text k base (n / base) (digit (n % base) ∷ rest) in
    if ltb n base then digit n ∷ rest else more

unfoldable pub octet_text : ℕ → Bytes
unfolding number_text
octet_text o = number_text 3 10 o []

unfoldable pub ipv4_text : Ipv4Addr → Bytes
unfolding octet_text
ipv4_text (ipv4 a b c d) =
    octet_text a ++ (b'.' ∷ (octet_text b ++ (b'.' ∷ (octet_text c ++ (b'.' ∷ octet_text d)))))

abbrev pub segments : Ipv6Addr → List ℕ
segments (ipv6 a b c d e f g h) = a ∷ b ∷ c ∷ d ∷ e ∷ f ∷ g ∷ h ∷ []

segment_text : ℕ → Bytes
segment_text s = number_text 4 16 s []

join_segments : List ℕ → Bytes
join_segments [] = []
join_segments (s ∷ []) = segment_text s
join_segments (s ∷ t ∷ rest) = segment_text s ++ (b':' ∷ join_segments (t ∷ rest))

-- The first longest run of zero segments: (start, length) of the best and of the current run.
longest_run : List ℕ → ℕ → ℕ × ℕ → ℕ × ℕ → ℕ × ℕ
longest_run [] i best current = best
longest_run (s ∷ rest) i best (start, len) =
    let run = if s == 0 then (if len == 0 then (i, 1) else (start, len + 1)) else (0, 0) in
    longest_run rest (i + 1) (if s == 0 && ltb best.1 run.1 then run else best) run

-- `Display` of Ipv6Addr: a mapped IPv4 address in its own form, else the longest run of two zero
-- segments or more as a double colon.
unfoldable pub ipv6_text : Ipv6Addr → Bytes
unfolding ipv4_text number_text segment_text join_segments longest_run
ipv6_text (ipv6 a b c d e f g h) =
    let all = a ∷ b ∷ c ∷ d ∷ e ∷ f ∷ g ∷ h ∷ [] in
    let run = longest_run all 0 (0, 0) (0, 0) in
    if a == 0 && b == 0 && c == 0 && d == 0 && e == 0 && f == 0xffff
    then codes "::ffff:" ++ ipv4_text (ipv4 (g / 256) (g % 256) (h / 256) (h % 256))
    else if ltb 1 run.1
    then join_segments (take run.0 all) ++ (b':' ∷ b':' ∷ join_segments (drop (run.0 + run.1) all))
    else join_segments all
