-- ===== src/PublicNet/Examples.antt =====
-- The filter of targets at a public and a loopback address.
use verdant_backend.Prelude.{◌≡◌, refl, true, false, [], ◌∷◌}
use verdant_backend.PublicNet.{
  IpAddr, v4, v6, is_public_ip, is_public_ipv4, is_public_ipv6, is_ipv4_mapped_ipv6,
  is_ipv4_compatible_ipv6, unsafe_target, Ipv4Addr, filter_public_socket_addrs,
}
use verdant_backend.PublicNet.Blocks.{has_special_use}
use verdant_backend.PublicNet.Filter.{filter_public_socket_addrs-blocks}

abbrev example_com : IpAddr
example_com = v4 (record { o0 = 93; o1 = 184; o2 = 216; o3 = 34 })

abbrev mapped_loopback : IpAddr
mapped_loopback =
    v6 (record { s0 = 0; s1 = 0; s2 = 0; s3 = 0; s4 = 0; s5 = 65535; s6 = 32512; s7 = 1 })

example_com_public : is_public_ip example_com ≡ true
unfolding is_public_ip is_public_ipv4
example_com_public = refl

mapped_loopback_refused : is_public_ip mapped_loopback ≡ false
unfolding is_public_ip is_public_ipv6 is_ipv4_mapped_ipv6 is_ipv4_compatible_ipv6
mapped_loopback_refused = refl

abbrev web_server : Ipv4Addr
web_server = record { o0 = 93; o1 = 184; o2 = 216; o3 = 34 }

abbrev metadata_service : Ipv4Addr
metadata_service = record { o0 = 169; o1 = 254; o2 = 169; o3 = 254 }

filter_public_socket_addrs-blocks_example :
    filter_public_socket_addrs (v4 web_server ∷ v4 metadata_service ∷ []) ≡ unsafe_target
unfolding has_special_use
filter_public_socket_addrs-blocks_example =
    filter_public_socket_addrs-blocks (web_server ∷ metadata_service ∷ []) refl
