-- ===== src/PublicNet/Filter.antt =====
-- What the filter of targets lets through (server-rs/src/services/public_net.rs).
use mathlib.Core.List.{append_assoc, append-nil}
use verdant_backend.Prelude.{
  ◌≡◌, ◌↔◌, ◌≢◌, refl, sym, ap, true, List, [], ◌∷◌, ◌++◌, all, if◌then◌else◌, inl, inr, Bool-cases,
  arith,
}
use verdant_backend.Prelude.{any, map, ◌∙◌, false, nat_eq, Bool, not, ◌&&◌, ◌||◌}
use verdant_backend.PublicNet.Blocks.{has_special_use, are_octets, is_public_ipv4-blocks}
use verdant_backend.PublicNet.{
  Ipv4Addr, v4, Targets, IpAddr, is_public_ip, public, unsafe_target, filter_from,
  filter_public_socket_addrs,
}

filter_from-eq :
    (found addresses : List IpAddr)
    → filter_from true found addresses
      ≡ (if all is_public_ip addresses then public (found ++ addresses) else unsafe_target)
unfolding filter_from
filter_from-eq found [] = ap public (sym (append-nil found))
filter_from-eq found (a ∷ rest) = elim (Bool-cases (is_public_ip a)) [
  | inl e ↦
      rw (e, filter_from-eq (found ++ a ∷ []) rest)
        (ground (arith, append_assoc found (a ∷ []) rest))
  | inr e ↦ rw e refl
]

-- The filter lets targets through exactly when there is one and every one is public, and then all
-- of them, in their order.
pub filter_public_socket_addrs_iff :
    (addresses found : List IpAddr)
    → (filter_public_socket_addrs addresses ≡ public found)
      ↔ ((addresses ≢ []) × (all is_public_ip addresses ≡ true) × (found ≡ addresses))
unfolding filter_public_socket_addrs filter_from
filter_public_socket_addrs_iff [] found = (λ h. cc, λ h. absurd (h.0 refl))
filter_public_socket_addrs_iff (a ∷ rest) found = elim (Bool-cases (is_public_ip a)) [
  | inl e ↦ (
    λ h. (
      λ q. cc,
      ground (arith, e, filter_from-eq (a ∷ []) rest),
      ground (arith, e, filter_from-eq (a ∷ []) rest),
    ),
    λ (_, ok, same). ground (arith, e, ok, same, filter_from-eq (a ∷ []) rest),
  )
  | inr e ↦ (λ h. ground (arith, e, h), λ (_, ok, _). ground (arith, e, ok))
]

and_parts : (a b : Bool) → (a && b) ≡ true → (a ≡ true) × (b ≡ true)
and_parts a b h = (ground arith, ground arith)

not-or : (a b : Bool) → (not a && not b) ≡ not (a || b)
not-or a b = ground arith

is_public-map :
    (ips : List Ipv4Addr)
    → all are_octets ips ≡ true
    → all is_public_ip (map v4 ips) ≡ not (any has_special_use ips)
unfolding is_public_ip
is_public-map [] h = refl
is_public-map (ip ∷ ips) h =
    let (first, rest) = and_parts (are_octets ip) (all are_octets ips) h in
    rw (is_public_ipv4-blocks ip first, is_public-map ips rest)
      (not-or (has_special_use ip) (any has_special_use ips))

loop-all :
    (a : IpAddr) (rest : List IpAddr)
    → filter_from false [] (a ∷ rest)
      ≡ (if all is_public_ip (a ∷ rest) then public (a ∷ rest) else unsafe_target)
unfolding filter_from
loop-all a rest = elim (Bool-cases (is_public_ip a)) [
  | inl e ↦ rw (filter_from, e, filter_from-eq (a ∷ []) rest) refl
  | inr e ↦ rw (filter_from, e) refl
]

if-not : (b : Bool) (x y : Targets) → (if not b then x else y) ≡ (if b then y else x)
if-not true x y = refl
if-not false x y = refl

abbrev pub no_target : List Ipv4Addr → Bool
no_target [] = true
no_target (_ ∷ _) = false

-- IPv4 targets, of four octets each, pass the filter, all of them and in their order, exactly
-- when there is one and none lies in an IPv4 block of special use, of a list of intervals;
-- otherwise the answer is that the target is unsafe.
pub filter_public_socket_addrs-blocks :
    (ips : List Ipv4Addr)
    → all are_octets ips ≡ true
    → filter_public_socket_addrs (map v4 ips)
      ≡ (if no_target ips || any has_special_use ips then unsafe_target else public (map v4 ips))
unfolding filter_public_socket_addrs filter_from
filter_public_socket_addrs-blocks [] h = refl
filter_public_socket_addrs-blocks (ip ∷ ips) h =
    let good = is_public-map (ip ∷ ips) h in
    loop-all (v4 ip) (map v4 ips) ∙ rw good (if-not (any has_special_use (ip ∷ ips)) _ _)
