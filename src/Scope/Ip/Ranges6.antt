-- ===== src/Scope/Ip/Ranges6.antt =====
-- isBlockedIP on 16-byte addresses: mapped IPv4 addresses and the IPv6 ranges.
use mathlib.Core.Path.{fun_ext}
use scopepilot.Prelude.{
  ℕ, zero, suc, ◌<◌, ◌≡◌, refl, ◌≢◌, Bool, true, false, ◌&&◌, List, [], ◌∷◌, ◌++◌, arith, ◌==◌, All,
  length, take, any, Bool-cases, inl, inr, sym, ◌∙◌, ap,
}
use scopepilot.Text.{text_eq, text_eq_iff}
use scopepilot.Scope.Ip.{
  Ip, Network, zeros, ones, v4_in_v6, masked_eq, network_number_and_mask, network_contains,
  blocked_cidrs, is_blocked_ip, to4, to16,
}
use scopepilot.Scope.Ip.Ranges.{and_0, and_255, and_254, and_192, between, any-Agree}

-- isBlockedIP gives an IPv4 address and its form mapped into IPv6 the same verdict.
pub is_blocked_ip-mapped :
    (a b c d : ℕ)
    → is_blocked_ip (v4_in_v6 ++ (a ∷ b ∷ c ∷ d ∷ [])) ≡ is_blocked_ip (a ∷ b ∷ c ∷ d ∷ [])
unfolding is_blocked_ip
is_blocked_ip-mapped a b c d = refl

masked_zero :
    (n : ℕ) (bs : List ℕ) → All (λ b. b < 256) bs → masked_eq (zeros n) (zeros n) bs ≡ true
unfolding masked_eq
masked_zero zero bs h = refl
masked_zero (suc n) [] h = refl
masked_zero (suc n) (b ∷ bs) h = rw (and_0 b h.0) (masked_zero n bs h.1)

masked_ones :
    (ns bs : List ℕ)
    → All (λ b. b < 256) ns
    → All (λ b. b < 256) bs
    → length ns ≡ length bs
    → masked_eq ns (ones (length ns)) bs ≡ text_eq ns bs
unfolding masked_eq
masked_ones [] [] hn hb e = refl
masked_ones [] (b ∷ bs) hn hb e = absurd (omega arith)
masked_ones (n ∷ ns) [] hn hb e = absurd (omega arith)
masked_ones (n ∷ ns) (b ∷ bs) hn hb e =
    rw (and_255 n hn.0, and_255 b hb.0, masked_ones ns bs hn.1 hb.1 (omega arith))

-- The loopback address, fe80::/10, fc00::/7 and ff00::/8.
pub reserved6 : ℕ → ℕ → List ℕ → Bool
reserved6 a b rest =
    any (λ t. t)
      (text_eq (zeros 15 ++ (1 ∷ [])) (a ∷ b ∷ rest)
        ∷ ((a == 254) && between 128 191 b)
        ∷ between 252 253 a
        ∷ (a == 255)
        ∷ [])

-- An address of 16 bytes that is no mapped IPv4 address.
abbrev pub IsV6 : Ip → Type 0
IsV6 ip = (length ip ≡ 16) × All (λ b. b < 256) ip × (take 12 ip ≢ v4_in_v6)

to4_v6 : (ip : Ip) → IsV6 ip → to4 ip ≡ []
unfolding to4
to4_v6 ip (l, bytes, other) = elim (Bool-cases (text_eq (take 12 ip) v4_in_v6)) [
  | inl h ↦ absurd (other ((text_eq_iff _ _).0 h))
  | inr h ↦ rw (l, h)
]

to16_v6 : (ip : Ip) → IsV6 ip → to16 ip ≡ ip
unfolding to16
to16_v6 ip v = rw v.0

abbrev contains6 : Ip → Network → Bool
contains6 ip n =
    let (number, mask) = network_number_and_mask n in
    (16 == length number) && masked_eq number mask ip

network6 : (ip : Ip) (n : Network) → IsV6 ip → network_contains n ip ≡ contains6 ip n
unfolding network_contains
network6 ip n v = rw (to4_v6 ip v, v.0) refl

-- isBlockedIP returns true for an IPv6 address that maps no IPv4 address exactly when it lies in one
-- of the ranges; the unspecified address and the documentation range are in none.
pub is_blocked_ip-reserved6 :
    (a b : ℕ) (rest : List ℕ)
    → IsV6 (a ∷ b ∷ rest)
    → is_blocked_ip (a ∷ b ∷ rest) ≡ reserved6 a b rest
unfolding is_blocked_ip reserved6 masked_eq network_number_and_mask
is_blocked_ip-reserved6 a b rest v =
    rw (nonzero, to4_v6 ip v, to16_v6 ip v)
      (ap (λ (p : Network → Bool). any p blocked_cidrs) (fun_ext (λ n. network6 ip n v))
        ∙ any-Agree (contains6 ip) blocked_cidrs
            (false
              ∷ text_eq (zeros 15 ++ (1 ∷ [])) ip
              ∷ false
              ∷ ((a == 254) && between 128 191 b)
              ∷ between 252 253 a
              ∷ false
              ∷ (a == 255)
              ∷ false
              ∷ false
              ∷ false
              ∷ false
              ∷ false
              ∷ false
              ∷ false
              ∷ false
              ∷ false
              ∷ false
              ∷ false
              ∷ [])
            (
              refl,
              (
                loopback6,
                (
                  refl,
                  (
                    link_local6,
                    (
                      unique_local6,
                      (
                        refl,
                        (
                          multicast6,
                          (
                            refl,
                            (
                              refl,
                              (
                                refl,
                                (refl, (refl, (refl, (refl, (refl, (refl, (refl, (refl, tt)))))))),
                              ),
                            ),
                          ),
                        ),
                      ),
                    ),
                  ),
                ),
              ),
            ))
  where
    ip : Ip
    ip = a ∷ b ∷ rest

    nonzero : (length ip == 0) ≡ false
    nonzero = ground arith

    tail_bytes : All (λ x. x < 256) rest
    tail_bytes = v.1.1.1

    loopback6 : masked_eq (zeros 15 ++ (1 ∷ [])) (ones 16) ip ≡ text_eq (zeros 15 ++ (1 ∷ [])) ip
    loopback6 = masked_ones (zeros 15 ++ (1 ∷ [])) ip (omega arith) v.1 (sym v.0)

    link_local6 :
        masked_eq (0xfe ∷ 0x80 ∷ zeros 14) (0xff ∷ 0xc0 ∷ zeros 14) ip
        ≡ (a == 254) && between 128 191 b
    link_local6 =
        rw (and_255 a v.1.0, and_192 b v.1.1.0, masked_zero 14 rest tail_bytes) (ground arith)

    unique_local6 : masked_eq (0xfc ∷ 0 ∷ zeros 14) (0xfe ∷ 0 ∷ zeros 14) ip ≡ between 252 253 a
    unique_local6 =
        rw (and_254 a v.1.0, and_0 b v.1.1.0, masked_zero 14 rest tail_bytes) (ground arith)

    multicast6 : masked_eq (0xff ∷ 0 ∷ zeros 14) (0xff ∷ 0 ∷ zeros 14) ip ≡ (a == 255)
    multicast6 =
        rw (and_255 a v.1.0, and_0 b v.1.1.0, masked_zero 14 rest tail_bytes) (ground arith)
