-- ===== src/Federation/Identity.antt =====
-- Remote principals (server-rs/src/federation/identity.rs): what a name and a profile's address may be.
pub mod Hosts
use verdant_backend.Prelude.{
  ℕ, ◌+◌, Bool, true, false, not, ◌&&◌, ◌||◌, List, [], ◌∷◌, ◌++◌, Option, none, some, nat_eq,
  list_eq, ◌=?◌, leb, ◌==◌, if◌then◌else◌, all, any, length, map, bit_and,
}
use verdant_backend.Prelude.HashSet.{contains, is_empty}
use verdant_backend.Prelude.Ascii.{ascii}
use verdant_backend.Prelude.Result.{Result, ok, ◌>>=◌, ◌>>◌, ensure}
use verdant_backend.Federation.Names.{is_ascii_uppercase, is_nonce_byte}
use verdant_backend.Federation.Interfaces.{Url, Urls}
use verdant_backend.PublicNet.{Ipv4Addr, Ipv6Addr, IpAddr}

pub record RemotePrincipalMetadata : Type 0 where
  pub username : Option (List ℕ)
  pub display_name : Option (List ℕ)
  pub avatar_url : Option (List ℕ)

pub data RemotePrincipalProjectionError : Type 0 where
  invalid_identity invalid_metadata : RemotePrincipalProjectionError

-- `chars().count()`: of UTF-8, every byte but those that continue a character.
unfoldable pub char_count : List ℕ → ℕ
char_count [] = 0
char_count (b ∷ bytes) =
    let rest = char_count bytes in if leb 128 b && leb b 191 then rest else 1 + rest

abbrev pub to_ascii_lowercase : List ℕ → List ℕ
to_ascii_lowercase text = map (λ b. if is_ascii_uppercase b then b + 32 else b) text

abbrev pub ends_with : List ℕ → List ℕ → Bool
ends_with [] suffix = is_empty suffix
ends_with (b ∷ text) suffix = let rest = ends_with text suffix in ((b ∷ text) =? suffix) || rest

abbrev pub is_some : {A : Type 0} → Option A → Bool
is_some none = false
is_some (some a) = true

-- `trim_start_matches(c)` and `trim_end_matches(c)`.
abbrev pub trim_start_matches : ℕ → List ℕ → List ℕ
trim_start_matches c [] = []
trim_start_matches c (b ∷ text) =
    let rest = trim_start_matches c text in if b == c then rest else b ∷ text

abbrev pub trim_end_matches : ℕ → List ℕ → List ℕ
trim_end_matches c [] = []
trim_end_matches c (b ∷ text) =
    let rest = trim_end_matches c text in if (b == c) && is_empty rest then [] else b ∷ rest

unfoldable pub is_public_ipv4 : Ipv4Addr → Bool
is_public_ipv4 ip = not (
    (ip.o0 == 0)
    || (ip.o0 == 10)
    || (ip.o0 == 127)
    || ((ip.o0 == 169) && (ip.o1 == 254))
    || ((ip.o0 == 172) && (leb 16 ip.o1 && leb ip.o1 31))
    || ((ip.o0 == 192) && (ip.o1 == 168))
    || ((ip.o0 == 100) && (leb 64 ip.o1 && leb ip.o1 127))
    || ((ip.o0 == 192) && ((ip.o1 == 0) && (ip.o2 == 0)))
    || ((ip.o0 == 192) && ((ip.o1 == 0) && (ip.o2 == 2)))
    || ((ip.o0 == 198) && (leb 18 ip.o1 && leb ip.o1 19))
    || ((ip.o0 == 198) && ((ip.o1 == 51) && (ip.o2 == 100)))
    || ((ip.o0 == 203) && ((ip.o1 == 0) && (ip.o2 == 113)))
    || leb 224 ip.o0)

-- `is_loopback` is ::1 and `is_unspecified` is ::.
abbrev pub loopback_or_unspecified : Ipv6Addr → Bool
loopback_or_unspecified ip =
    (ip.s0 == 0)
    && ((ip.s1 == 0)
        && ((ip.s2 == 0)
            && ((ip.s3 == 0) && ((ip.s4 == 0) && ((ip.s5 == 0) && ((ip.s6 == 0) && leb ip.s7 1))))))

unfoldable pub is_public_ipv6 : Ipv6Addr → Bool
is_public_ipv6 ip = not (
    loopback_or_unspecified ip
    || (bit_and ip.s0 65024 == 64512)
    || (bit_and ip.s0 65472 == 65152)
    || (bit_and ip.s0 65280 == 65280)
    || ((ip.s0 == 8193) && (ip.s1 == 3512)))

abbrev pub is_public_address : Option IpAddr → Bool
is_public_address none = true
is_public_address (some (IpAddr.v4 ip)) = is_public_ipv4 ip
is_public_address (some (IpAddr.v6 ip)) = is_public_ipv6 ip

module _ (u : Urls) where
  unfoldable pub is_public_federation_host : List ℕ → Bool
  unfolding is_public_ipv4 is_public_ipv6
  is_public_federation_host host =
      let lower : List ℕ = to_ascii_lowercase host in
      if (lower =? ascii "localhost")
        || ends_with lower (ascii ".localhost")
        || ends_with lower (ascii ".local")
      then false
      else is_public_address (u.parse_ip (trim_end_matches 93 (trim_start_matches 91 lower)))

  abbrev plain_https : Url → Bool
  plain_https parsed = not (
      not (parsed.scheme =? ascii "https")
      || not (is_empty parsed.username)
      || is_some parsed.password
      || is_some parsed.query
      || is_some parsed.fragment)

  abbrev no_attachments : Url → Bool
  no_attachments parsed = elim parsed.path_segments [
    | none ↦ true
    | some segments ↦ not (any (λ s. to_ascii_lowercase s =? ascii "attachments") segments)
  ]

  unfoldable pub is_safe_public_profile_url : List ℕ → Bool
  unfolding is_public_federation_host
  is_safe_public_profile_url value =
      if not (leb (length value) 2048) || contains 13 value || contains 10 value
      then false
      else elim (u.parse_url value) [
        | none ↦ false
        | some parsed ↦ plain_https parsed && elim parsed.host_str [
          | none ↦ false
          | some host ↦ is_public_federation_host host && no_attachments parsed
        ]
      ]

  unfoldable pub optional_username : Option (List ℕ) → Bool
  optional_username none = true
  optional_username (some value) =
      not (is_empty value) && leb (length value) 120 && all is_nonce_byte value

  unfoldable pub optional_display_name : Option (List ℕ) → Bool
  unfolding char_count
  optional_display_name none = true
  optional_display_name (some value) =
      leb (char_count value) 120 && not (contains 10 value) && not (contains 13 value)

  unfoldable pub optional_public_avatar_url : Option (List ℕ) → Bool
  unfolding is_safe_public_profile_url
  optional_public_avatar_url none = true
  optional_public_avatar_url (some value) = is_safe_public_profile_url value

  -- `RemotePrincipalMetadata::new`.
  unfoldable pub new_metadata :
      Option (List ℕ)
      → Option (List ℕ)
      → Option (List ℕ)
      → Result RemotePrincipalMetadata RemotePrincipalProjectionError
  unfolding optional_username optional_display_name optional_public_avatar_url
  new_metadata username display_name avatar_url = do
    ensure RemotePrincipalProjectionError.invalid_metadata (
        not (
          not (optional_username username)
          || not (optional_display_name display_name)
          || not (optional_public_avatar_url avatar_url)))
    ok (record { username = username; display_name = display_name; avatar_url = avatar_url })
