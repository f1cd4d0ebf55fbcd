-- ===== src/P2p/Address.antt =====
-- src/p2p/peers.rs and src/p2p/network.rs: what they ask of socket addresses.
use ruvname.Prelude.{
  ℕ, ◌/◌, ◌%◌, Bool, true, false, ◌&&◌, ◌||◌, Option, none, some, ◌==◌, leb, if◌then◌else◌,
}
use ruvname.Dns.Address.{Ipv4Addr, ipv4, Ipv6Addr, ipv6, IpAddr, v4, v6}

pub record SocketAddr : Type 0 where
  pub ip : IpAddr
  pub port : ℕ

unfoldable pub same_ip : IpAddr → IpAddr → Bool
same_ip (v4 (ipv4 a b c d)) (v4 (ipv4 a' b' c' d')) = a == a' && b == b' && c == c' && d == d'
same_ip (v6 (ipv6 a b c d e f g h)) (v6 (ipv6 a' b' c' d' e' f' g' h')) =
    a == a' && b == b' && c == c' && d == d' && e == e' && f == f' && g == g' && h == h'
same_ip (v4 x) (v6 y) = false
same_ip (v6 x) (v4 y) = false

unfoldable pub same_addr : SocketAddr → SocketAddr → Bool
unfolding same_ip
same_addr a b = same_ip a.ip b.ip && a.port == b.port

-- `IpAddr::is_loopback`
unfoldable pub is_loopback : IpAddr → Bool
is_loopback (v4 (ipv4 a b c d)) = a == 127
is_loopback (v6 (ipv6 a b c d e f g h)) =
    a == 0 && b == 0 && c == 0 && d == 0 && e == 0 && f == 0 && g == 0 && h == 1

-- `Ipv4Addr::is_private`
unfoldable pub is_private : Ipv4Addr → Bool
is_private (ipv4 a b c d) = a == 10 || (a == 172 && leb 16 b && leb b 31) || (a == 192 && b == 168)

-- `Ipv6Addr::to_ipv4`: addresses `::a.b.c.d` and `::ffff:a.b.c.d`.
unfoldable pub to_ipv4 : Ipv6Addr → Option Ipv4Addr
to_ipv4 (ipv6 a b c d e f g h) =
    if a == 0 && b == 0 && c == 0 && d == 0 && e == 0 && (f == 0 || f == 0xffff)
    then some (ipv4 (g / 256) (g % 256) (h / 256) (h % 256))
    else none

-- `skip_private_addr`
unfoldable pub skip_private_addr : SocketAddr → Bool
unfolding is_loopback is_private
skip_private_addr a =
    if is_loopback a.ip then true else elim a.ip [ v4 x ↦ is_private x | v6 x ↦ false ]

-- What the accept loop does with the address of a connection.
abbrev with_ipv4 : SocketAddr → Option Ipv4Addr → SocketAddr
with_ipv4 a none = a
with_ipv4 a (some x) = record { ip = v4 x; port = a.port }

unfoldable pub unmapped : SocketAddr → SocketAddr
unfolding to_ipv4
unmapped a = elim a.ip [ v4 x ↦ a | v6 x ↦ with_ipv4 a (to_ipv4 x) ]
