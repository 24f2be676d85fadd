-- ===== src/PublicNet.antt =====
-- The filter of network targets (server-rs/src/services/public_net.rs), which lets a request leave for
-- public addresses alone. The tests of std::net are written out by their documented ranges.
pub mod Filter
pub mod Blocks
mod Examples
use verdant_backend.Prelude.{
  ℕ, Bool, true, false, not, ◌&&◌, ◌||◌, List, [], ◌∷◌, ◌++◌, ◌==◌, leb, if◌then◌else◌, bit_and,
}

-- The octets of an IPv4 address, and the segments of an IPv6 address.
pub record Ipv4Addr : Type 0 where
  pub o0 : ℕ
  pub o1 : ℕ
  pub o2 : ℕ
  pub o3 : ℕ

pub record Ipv6Addr : Type 0 where
  pub s0 : ℕ
  pub s1 : ℕ
  pub s2 : ℕ
  pub s3 : ℕ
  pub s4 : ℕ
  pub s5 : ℕ
  pub s6 : ℕ
  pub s7 : ℕ

pub data IpAddr : Type 0 where
  v4 : Ipv4Addr → IpAddr
  v6 : Ipv6Addr → IpAddr

-- `is_private`, `is_loopback`, `is_link_local`, `is_multicast`, `is_broadcast`, `is_unspecified`.
abbrev pub std_special_ipv4 : Ipv4Addr → Bool
std_special_ipv4 ip =
    (ip.o0 == 10)
    || ((ip.o0 == 172) && (leb 16 ip.o1 && leb ip.o1 31))
    || ((ip.o0 == 192) && (ip.o1 == 168))
    || (ip.o0 == 127)
    || ((ip.o0 == 169) && (ip.o1 == 254))
    || (leb 224 ip.o0 && leb ip.o0 239)
    || ((ip.o0 == 255) && ((ip.o1 == 255) && ((ip.o2 == 255) && (ip.o3 == 255))))
    || ((ip.o0 == 0) && ((ip.o1 == 0) && ((ip.o2 == 0) && (ip.o3 == 0))))

unfoldable pub is_public_ipv4 : Ipv4Addr → Bool
is_public_ipv4 ip = not (
    std_special_ipv4 ip
    || (ip.o0 == 0)
    || ((ip.o0 == 100) && (bit_and ip.o1 192 == 64))
    || ((ip.o0 == 192) && ((ip.o1 == 0) && (ip.o2 == 0)))
    || ((ip.o0 == 192) && ((ip.o1 == 0) && (ip.o2 == 2)))
    || ((ip.o0 == 198) && ((ip.o1 == 18) || (ip.o1 == 19)))
    || ((ip.o0 == 198) && ((ip.o1 == 51) && (ip.o2 == 100)))
    || ((ip.o0 == 203) && ((ip.o1 == 0) && (ip.o2 == 113)))
    || leb 240 ip.o0)

abbrev pub first_five_zero : Ipv6Addr → Bool
first_five_zero ip =
    (ip.s0 == 0) && ((ip.s1 == 0) && ((ip.s2 == 0) && ((ip.s3 == 0) && (ip.s4 == 0))))

unfoldable pub is_ipv4_compatible_ipv6 : Ipv6Addr → Bool
is_ipv4_compatible_ipv6 ip = first_five_zero ip && (ip.s5 == 0)

unfoldable pub is_ipv4_mapped_ipv6 : Ipv6Addr → Bool
is_ipv4_mapped_ipv6 ip = first_five_zero ip && (ip.s5 == 65535)

unfoldable pub is_nat64_ipv6 : Ipv6Addr → Bool
is_nat64_ipv6 ip =
    ((ip.s0 == 100)
      && ((ip.s1 == 65435) && ((ip.s2 == 0) && ((ip.s3 == 0) && ((ip.s4 == 0) && (ip.s5 == 0))))))
    || ((ip.s0 == 100) && ((ip.s1 == 65435) && (ip.s2 == 1)))

unfoldable pub is_special_2001_ipv6 : Ipv6Addr → Bool
is_special_2001_ipv6 ip =
    (ip.s0 == 8193)
    && ((ip.s1 == 0)
        || (ip.s1 == 2)
        || (ip.s1 == 3512)
        || (bit_and ip.s1 65520 == 16)
        || (bit_and ip.s1 65520 == 32))

-- `is_loopback`, `is_unspecified`, `is_multicast`.
abbrev pub std_special_ipv6 : Ipv6Addr → Bool
std_special_ipv6 ip =
    (first_five_zero ip && ((ip.s5 == 0) && ((ip.s6 == 0) && (ip.s7 == 1))))
    || (first_five_zero ip && ((ip.s5 == 0) && ((ip.s6 == 0) && (ip.s7 == 0))))
    || (bit_and ip.s0 65280 == 65280)

unfoldable pub is_public_ipv6 : Ipv6Addr → Bool
unfolding is_ipv4_compatible_ipv6 is_ipv4_mapped_ipv6 is_nat64_ipv6 is_special_2001_ipv6
is_public_ipv6 ip = not (
    std_special_ipv6 ip
    || is_ipv4_compatible_ipv6 ip
    || is_ipv4_mapped_ipv6 ip
    || (bit_and ip.s0 65024 == 64512)
    || (bit_and ip.s0 65472 == 65152)
    || (bit_and ip.s0 65472 == 65216)
    || is_nat64_ipv6 ip
    || (ip.s0 == 8194)
    || is_special_2001_ipv6 ip
    || ((ip.s0 == 16383) && (bit_and ip.s1 61440 == 0))
    || ((ip.s0 == 256) && (ip.s1 == 0)))

unfoldable pub is_public_ip : IpAddr → Bool
unfolding is_public_ipv4 is_public_ipv6
is_public_ip (v4 ip) = is_public_ipv4 ip
is_public_ip (v6 ip) = is_public_ipv6 ip

-- The loop of `filter_public_socket_addrs`, with what it has seen; the one error is `UnsafeTarget`.
pub data Targets : Type 0 where
  public : List IpAddr → Targets
  unsafe_target : Targets

pub filter_from : Bool → List IpAddr → List IpAddr → Targets
unfolding is_public_ip
filter_from resolved_any found [] = if resolved_any then public found else unsafe_target
filter_from resolved_any found (address ∷ rest) =
    let next = filter_from true (found ++ address ∷ []) rest in
    if is_public_ip address then next else unsafe_target

unfoldable pub filter_public_socket_addrs : List IpAddr → Targets
unfolding filter_from
filter_public_socket_addrs addresses = filter_from false [] addresses
