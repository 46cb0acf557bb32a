-- ===== src/Scope/Ip/Ranges.antt =====
-- The address ranges that isBlockedIP refuses, written as ranges instead of masks.
use Prim.Native.Nat.{bit_and}
use scopepilot.Prelude.{
  ℕ, zero, suc, ◌*◌, ◌/◌, ◌<◌, ◌≡◌, refl, Bool, true, false, ◌&&◌, List, [], ◌∷◌, arith,
  if◌then◌else◌, leb, ◌==◌, ==_iff, any,
}
use scopepilot.Scope.Ip.{Network, network_contains, blocked_cidrs, is_blocked_ip}

-- A test of every number under a bound.
unfoldable pub holds_under : (ℕ → Bool) → ℕ → Bool
holds_under q zero = true
holds_under q (suc top) = let rest = holds_under q top in if q top then rest else false

holds_under-at : (q : ℕ → Bool) (top v : ℕ) → holds_under q top ≡ true → v < top → q v ≡ true
unfolding holds_under
holds_under-at q zero v every under = absurd (omega (arith, under))
holds_under-at q (suc top) v every under = ground (arith, holds_under-at q top v)

-- A mask over a byte, checked at every byte.
abbrev pub masks_to : ℕ → (ℕ → ℕ) → Bool
masks_to m f = holds_under (λ x. bit_and x m == f x) 256

pub and_table : (m : ℕ) (f : ℕ → ℕ) → masks_to m f ≡ true → (x : ℕ) → x < 256 → bit_and x m ≡ f x
and_table m f table x h = (==_iff _ _).0 (holds_under-at _ 256 x table h)

pub and_0 : (x : ℕ) → x < 256 → bit_and x 0 ≡ 0
unfolding holds_under
and_0 = and_table 0 (λ x. 0) refl

pub and_255 : (x : ℕ) → x < 256 → bit_and x 255 ≡ x
unfolding holds_under
and_255 = and_table 255 (λ x. x) refl

pub and_254 : (x : ℕ) → x < 256 → bit_and x 254 ≡ x / 2 * 2
unfolding holds_under
and_254 = and_table 254 (λ x. x / 2 * 2) refl

pub and_240 : (x : ℕ) → x < 256 → bit_and x 240 ≡ x / 16 * 16
unfolding holds_under
and_240 = and_table 240 (λ x. x / 16 * 16) refl

pub and_192 : (x : ℕ) → x < 256 → bit_and x 192 ≡ x / 64 * 64
unfolding holds_under
and_192 = and_table 192 (λ x. x / 64 * 64) refl

-- The tests of a list of networks, one by one.
abbrev pub Agree : (Network → Bool) → List Network → List Bool → Type 0
Agree p [] [] = Unit
Agree p [] (t ∷ ts) = ⊥
Agree p (n ∷ ns) [] = ⊥
Agree p (n ∷ ns) (t ∷ ts) = (p n ≡ t) × Agree p ns ts

pub any-Agree :
    (p : Network → Bool) (ns : List Network) (ts : List Bool)
    → Agree p ns ts
    → any p ns ≡ any (λ t. t) ts
any-Agree p [] [] h = refl
any-Agree p [] (t ∷ ts) h = absurd h
any-Agree p (n ∷ ns) [] h = absurd h
any-Agree p (n ∷ ns) (t ∷ ts) h = rw (h.0, any-Agree p ns ts h.1)

abbrev pub between : ℕ → ℕ → ℕ → Bool
between lo hi x = leb lo x && leb x hi

abbrev starts2 : ℕ → ℕ → ℕ → ℕ → Bool
starts2 p q a b = (a == p) && (b == q)

-- Loopback, link-local, multicast, carrier-grade NAT, the private ranges, "this network", the
-- reserved addresses from 240.0.0.0 up, benchmarking, documentation, cloud metadata.
pub reserved4 : ℕ → ℕ → ℕ → ℕ → Bool
reserved4 a b c d =
    any (λ t. t)
      ((a == 127)
        ∷ starts2 169 254 a b
        ∷ between 224 239 a
        ∷ ((a == 100) && between 64 127 b)
        ∷ (a == 10)
        ∷ ((a == 172) && between 16 31 b)
        ∷ starts2 192 168 a b
        ∷ (a == 0)
        ∷ leb 240 a
        ∷ ((a == 198) && between 18 19 b)
        ∷ (starts2 192 0 a b && (c == 2))
        ∷ (starts2 198 51 a b && (c == 100))
        ∷ (starts2 203 0 a b && (c == 113))
        ∷ (starts2 169 254 a b && starts2 169 254 c d)
        ∷ [])

-- isBlockedIP returns true for a 4-byte address exactly when it lies in one of the ranges.
pub is_blocked_ip-reserved4 :
    (a b c d : ℕ)
    → a < 256
    → b < 256
    → c < 256
    → d < 256
    → is_blocked_ip (a ∷ b ∷ c ∷ d ∷ []) ≡ reserved4 a b c d
unfolding is_blocked_ip reserved4
is_blocked_ip-reserved4 a b c d ha hb hc hd =
    any-Agree (λ network. network_contains network (a ∷ b ∷ c ∷ d ∷ [])) blocked_cidrs
      ((a == 127)
        ∷ false
        ∷ starts2 169 254 a b
        ∷ false
        ∷ false
        ∷ between 224 239 a
        ∷ false
        ∷ ((a == 100) && between 64 127 b)
        ∷ (a == 10)
        ∷ ((a == 172) && between 16 31 b)
        ∷ starts2 192 168 a b
        ∷ (a == 0)
        ∷ leb 240 a
        ∷ ((a == 198) && between 18 19 b)
        ∷ (starts2 192 0 a b && (c == 2))
        ∷ (starts2 198 51 a b && (c == 100))
        ∷ (starts2 203 0 a b && (c == 113))
        ∷ (starts2 169 254 a b && starts2 169 254 c d)
        ∷ [])
      (rw
        (
          and_0 b hb,
          and_0 c hc,
          and_0 d hd,
          and_255 a ha,
          and_255 b hb,
          and_255 c hc,
          and_255 d hd,
          and_254 b hb,
          and_240 a ha,
          and_240 b hb,
          and_192 b hb,
        )
        (
          ground arith,
          (
            refl,
            (
              ground arith,
              (
                refl,
                (
                  refl,
                  (
                    ground arith,
                    (
                      refl,
                      (
                        ground arith,
                        (
                          ground arith,
                          (
                            ground arith,
                            (
                              ground arith,
                              (
                                ground arith,
                                (
                                  ground arith,
                                  (
                                    ground arith,
                                    (
                                      ground arith,
                                      (ground arith, (ground arith, (ground arith, tt))),
                                    ),
                                  ),
                                ),
                              ),
                            ),
                          ),
                        ),
                      ),
                    ),
                  ),
                ),
              ),
            ),
          ),
        ))
