-- ===== src/PublicNet/Blocks.antt =====
-- The blocks of IPv4 addresses of special use, as intervals of 32-bit numbers, beside the tests of the
-- filter (server-rs/src/services/public_net.rs).
use verdant_backend.Prelude.{
  ℕ, zero, suc, ◌+◌, ◌*◌, ◌≡◌, ◌<◌, refl, sym, ap, ◌∙◌, Bool, true, false, not, ◌&&◌, List, [], ◌∷◌,
  leb, ltb, ◌==◌, any, bit_and, arith, Bool-cases, inl, inr,
}
use verdant_backend.PublicNet.{Ipv4Addr, is_public_ipv4}

-- `a.b.c.d` as a number.
abbrev pub dotted : ℕ → ℕ → ℕ → ℕ → ℕ
dotted a b c d = a * 16777216 + b * 65536 + c * 256 + d

abbrev pub number_of : Ipv4Addr → ℕ
number_of ip = dotted ip.o0 ip.o1 ip.o2 ip.o3

-- The first and the last address of each block of special use.
abbrev pub special_blocks : List (ℕ × ℕ)
special_blocks =
    (dotted 0 0 0 0, dotted 0 255 255 255)
    ∷ (dotted 10 0 0 0, dotted 10 255 255 255)
    ∷ (dotted 100 64 0 0, dotted 100 127 255 255)
    ∷ (dotted 127 0 0 0, dotted 127 255 255 255)
    ∷ (dotted 169 254 0 0, dotted 169 254 255 255)
    ∷ (dotted 172 16 0 0, dotted 172 31 255 255)
    ∷ (dotted 192 0 0 0, dotted 192 0 0 255)
    ∷ (dotted 192 0 2 0, dotted 192 0 2 255)
    ∷ (dotted 192 168 0 0, dotted 192 168 255 255)
    ∷ (dotted 198 18 0 0, dotted 198 19 255 255)
    ∷ (dotted 198 51 100 0, dotted 198 51 100 255)
    ∷ (dotted 203 0 113 0, dotted 203 0 113 255)
    ∷ (dotted 224 0 0 0, dotted 255 255 255 255)
    ∷ []

abbrev pub is_special : ℕ → Bool
is_special n = any (λ block. leb block.0 n && leb n block.1) special_blocks

abbrev pub are_octets : Ipv4Addr → Bool
are_octets ip = ltb ip.o0 256 && (ltb ip.o1 256 && (ltb ip.o2 256 && ltb ip.o3 256))

-- Four octets.
abbrev pub IsOctets : Ipv4Addr → Type 0
IsOctets ip = (ip.o0 < 256) × (ip.o1 < 256) × (ip.o2 < 256) × (ip.o3 < 256)

within_8 :
    (lo hi : ℕ) (ip : Ipv4Addr)
    → IsOctets ip
    → (leb (dotted lo 0 0 0) (number_of ip) && leb (number_of ip) (dotted hi 255 255 255))
      ≡ (leb lo ip.o0 && leb ip.o0 hi)
within_8 lo hi ip (h0, h1, h2, h3) = ground (arith, h0, h1, h2, h3)

within_16 :
    (a lo hi : ℕ) (ip : Ipv4Addr)
    → IsOctets ip
    → lo < 256
    → hi < 256
    → (leb (dotted a lo 0 0) (number_of ip) && leb (number_of ip) (dotted a hi 255 255))
      ≡ ((ip.o0 == a) && (leb lo ip.o1 && leb ip.o1 hi))
within_16 a lo hi ip (h0, h1, h2, h3) l r = ground (arith, h0, h1, h2, h3, l, r)

within_24 :
    (a b c : ℕ) (ip : Ipv4Addr)
    → IsOctets ip
    → b < 256
    → c < 256
    → (leb (dotted a b c 0) (number_of ip) && leb (number_of ip) (dotted a b c 255))
      ≡ ((ip.o0 == a) && ((ip.o1 == b) && (ip.o2 == c)))
within_24 a b c ip (h0, h1, h2, h3) l r = ground (arith, h0, h1, h2, h3, l, r)

check_below : (ℕ → Bool) → ℕ → Bool
check_below p zero = true
check_below p (suc n) = p n && check_below p n

check_below-lt : (p : ℕ → Bool) (n i : ℕ) → check_below p n ≡ true → i < n → p i ≡ true
unfolding check_below
check_below-lt p zero i h k = absurd (omega arith)
check_below-lt p (suc n) i h k = elim (Bool-cases (i == n)) [
  | inl e ↦ let same : i ≡ n = ground arith in rw same (ground arith)
  | inr e ↦ check_below-lt p n i (ground arith) (ground arith)
]

abbrev same_range : ℕ → Bool
same_range b =
    not ((bit_and b 192 == 64) && not (leb 64 b && leb b 127))
    && not (not (bit_and b 192 == 64) && (leb 64 b && leb b 127))

-- 100.64.0.0/10, by a mask and by a range.
pub shared_range : (b : ℕ) → b < 256 → (bit_and b 192 == 64) ≡ (leb 64 b && leb b 127)
unfolding check_below
shared_range b h = let e = check_below-lt same_range 256 b refl h in ground (arith, e)

only : (k a : ℕ) → (leb k a && leb a k) ≡ (a == k)
only k a = ground arith

-- The tests of the blocks, octet by octet.
abbrev special_octets : Ipv4Addr → Bool
special_octets ip =
    any (λ b. b)
      ((leb 0 ip.o0 && leb ip.o0 0)
        ∷ (leb 10 ip.o0 && leb ip.o0 10)
        ∷ ((ip.o0 == 100) && (leb 64 ip.o1 && leb ip.o1 127))
        ∷ (leb 127 ip.o0 && leb ip.o0 127)
        ∷ ((ip.o0 == 169) && (leb 254 ip.o1 && leb ip.o1 254))
        ∷ ((ip.o0 == 172) && (leb 16 ip.o1 && leb ip.o1 31))
        ∷ ((ip.o0 == 192) && ((ip.o1 == 0) && (ip.o2 == 0)))
        ∷ ((ip.o0 == 192) && ((ip.o1 == 0) && (ip.o2 == 2)))
        ∷ ((ip.o0 == 192) && (leb 168 ip.o1 && leb ip.o1 168))
        ∷ ((ip.o0 == 198) && (leb 18 ip.o1 && leb ip.o1 19))
        ∷ ((ip.o0 == 198) && ((ip.o1 == 51) && (ip.o2 == 100)))
        ∷ ((ip.o0 == 203) && ((ip.o1 == 0) && (ip.o2 == 113)))
        ∷ (leb 224 ip.o0 && leb ip.o0 255)
        ∷ [])

is_special-octets : (ip : Ipv4Addr) → IsOctets ip → is_special (number_of ip) ≡ special_octets ip
is_special-octets ip h =
    rw
      (
        within_8 0 0 ip h,
        within_8 10 10 ip h,
        within_16 100 64 127 ip h (ground arith) (ground arith),
        within_8 127 127 ip h,
        within_16 169 254 254 ip h (ground arith) (ground arith),
        within_16 172 16 31 ip h (ground arith) (ground arith),
        within_24 192 0 0 ip h (ground arith) (ground arith),
        within_24 192 0 2 ip h (ground arith) (ground arith),
        within_16 192 168 168 ip h (ground arith) (ground arith),
        within_16 198 18 19 ip h (ground arith) (ground arith),
        within_24 198 51 100 ip h (ground arith) (ground arith),
        within_24 203 0 113 ip h (ground arith) (ground arith),
        within_8 224 255 ip h,
      )
      refl

abbrev at_octets : ℕ → ℕ → ℕ → ℕ → Ipv4Addr
at_octets a b c d = record { o0 = a; o1 = b; o2 = c; o3 = d }

module _ (b c d : ℕ) (h1 : b < 256) where
  abbrev Agrees : ℕ → Type 0
  Agrees a = is_public_ipv4 (at_octets a b c d) ≡ not (special_octets (at_octets a b c d))

  first-Agrees :
      (Agrees 0
        × Agrees 10
        × Agrees 100
        × Agrees 127
        × Agrees 169
        × Agrees 172
        × Agrees 192
        × Agrees 198
        × Agrees 203)
  unfolding is_public_ipv4
  first-Agrees =
      let shared = shared_range b h1 in
      (
        ground arith,
        ground arith,
        ground (arith, shared),
        ground arith,
        ground arith,
        ground arith,
        ground arith,
        ground arith,
        ground arith,
      )

  other-Agrees :
      (a : ℕ)
      → a < 256
      → (a == 0) ≡ false
      → (a == 10) ≡ false
      → (a == 100) ≡ false
      → (a == 127) ≡ false
      → (a == 169) ≡ false
      → (a == 172) ≡ false
      → (a == 192) ≡ false
      → (a == 198) ≡ false
      → (a == 203) ≡ false
      → Agrees a
  unfolding is_public_ipv4
  other-Agrees a h0 e0 e10 e100 e127 e169 e172 e192 e198 e203 =
      rw (only 0 a, only 10 a, only 127 a, e0, e10, e100, e127, e169, e172, e192, e198, e203)
        (ground (arith, h0))

  at-Agrees : (k a : ℕ) → Agrees k → (a == k) ≡ true → Agrees a
  at-Agrees k a g e = let same : a ≡ k = ground (arith, e) in rw same g

  octets-Agrees : (a : ℕ) → a < 256 → Agrees a
  octets-Agrees a h0 =
      let (g0, g10, g100, g127, g169, g172, g192, g198, g203) = first-Agrees in
      elim (Bool-cases (a == 0)) [
        | inl e ↦ at-Agrees 0 a g0 e
        | inr e0 ↦ elim (Bool-cases (a == 10)) [
          | inl e ↦ at-Agrees 10 a g10 e
          | inr e10 ↦ elim (Bool-cases (a == 100)) [
            | inl e ↦ at-Agrees 100 a g100 e
            | inr e100 ↦ elim (Bool-cases (a == 127)) [
              | inl e ↦ at-Agrees 127 a g127 e
              | inr e127 ↦ elim (Bool-cases (a == 169)) [
                | inl e ↦ at-Agrees 169 a g169 e
                | inr e169 ↦ elim (Bool-cases (a == 172)) [
                  | inl e ↦ at-Agrees 172 a g172 e
                  | inr e172 ↦ elim (Bool-cases (a == 192)) [
                    | inl e ↦ at-Agrees 192 a g192 e
                    | inr e192 ↦ elim (Bool-cases (a == 198)) [
                      | inl e ↦ at-Agrees 198 a g198 e
                      | inr e198 ↦ elim (Bool-cases (a == 203)) [
                        | inl e ↦ at-Agrees 203 a g203 e
                        | inr e203 ↦ other-Agrees a h0 e0 e10 e100 e127 e169 e172 e192 e198 e203
                      ]
                    ]
                  ]
                ]
              ]
            ]
          ]
        ]
      ]

-- An address in a block of special use.
unfoldable pub has_special_use : Ipv4Addr → Bool
has_special_use ip = is_special (number_of ip)

are_octets-IsOctets : (ip : Ipv4Addr) → are_octets ip ≡ true → IsOctets ip
are_octets-IsOctets ip h =
    (ground (arith, h), ground (arith, h), ground (arith, h), ground (arith, h))

-- Public is what no block of special use holds.
pub is_public_ipv4-blocks :
    (ip : Ipv4Addr) → are_octets ip ≡ true → is_public_ipv4 ip ≡ not (has_special_use ip)
unfolding has_special_use
is_public_ipv4-blocks ip octets =
    let h = are_octets-IsOctets ip octets in
    octets-Agrees ip.o1 ip.o2 ip.o3 h.1 ip.o0 h.0 ∙ ap not (sym (is_special-octets ip h))
