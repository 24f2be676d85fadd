-- ===== src/Federation/Identity/Hosts.antt =====
-- The addresses that the federation takes for public (server-rs/src/federation/identity.rs) beside
-- those of the network filter (server-rs/src/services/public_net.rs).
use verdant_backend.Prelude.{◌≡◌, ◌<◌, true, arith}
use verdant_backend.PublicNet.{Ipv4Addr, Ipv6Addr, IpAddr, is_public_ip, std_special_ipv6}
use verdant_backend.PublicNet as PublicNet
use verdant_backend.PublicNet.Blocks.{shared_range}
use verdant_backend.Federation.Identity.{is_public_ipv4, is_public_ipv6}

-- The federation and the network filter agree on which IPv4 addresses are public, the second
-- octet being below 256.
pub is_public_ipv4-same :
    (ip : Ipv4Addr) → ip.o1 < 256 → is_public_ipv4 ip ≡ PublicNet.is_public_ipv4 ip
unfolding is_public_ipv4 PublicNet.is_public_ipv4
is_public_ipv4-same ip h = rw (shared_range ip.o1 h) (ground arith)

pub is_public_ipv6-implied :
    (ip : Ipv6Addr) → PublicNet.is_public_ipv6 ip ≡ true → is_public_ipv6 ip ≡ true
unfolding is_public_ipv6 PublicNet.is_public_ipv6 PublicNet.is_ipv4_compatible_ipv6
    PublicNet.is_special_2001_ipv6
is_public_ipv6-implied ip h = ground (arith, h)
