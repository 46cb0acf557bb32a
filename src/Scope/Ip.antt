-- ===== src/Scope/Ip.antt =====
-- isBlockedIP of internal/scope/scope.go: addresses as lists of bytes, as `net.IP` is.
pub mod Ranges
pub mod Ranges6
use Prim.Native.Nat.{bit_and}
use scopepilot.Prelude.{
  ℕ, zero, suc, ◌+◌, ◌*◌, ◌≤◌, ◌<◌, ◌≡◌, refl, Bool, true, false, ◌&&◌, ◌||◌, List, [], ◌∷◌, ◌++◌,
  Option, none, some, arith, ◌==◌, if◌then◌else◌, length, take, drop, any,
}
use scopepilot.Text.{Text, text_eq}

-- `net.IP`: 4 or 16 bytes; no bytes stand for nil.
abbrev pub Ip : Type 0
Ip = List ℕ

-- `net.IPNet`: the network's bytes and the bytes of its mask.
pub record Network : Type 0 where
  pub ip : List ℕ
  pub mask : List ℕ

abbrev pub zeros : ℕ → List ℕ
zeros zero = []
zeros (suc n) = 0 ∷ zeros n

abbrev pub ones : ℕ → List ℕ
ones zero = []
ones (suc n) = 255 ∷ ones n

-- The prefix of an IPv4 address that is mapped into IPv6.
abbrev pub v4_in_v6 : List ℕ
v4_in_v6 = zeros 10 ++ (255 ∷ 255 ∷ [])

-- net.IP.To4, with no bytes for nil
unfoldable pub to4 : Ip → Ip
to4 ip =
    if length ip == 4
    then ip
    else if (length ip == 16) && text_eq (take 12 ip) v4_in_v6
    then drop 12 ip
    else []

-- net.IP.To16
unfoldable pub to16 : Ip → Ip
to16 ip = if length ip == 4 then v4_in_v6 ++ ip else if length ip == 16 then ip else []

-- The loop of net.IPNet.Contains: nn[i] & m[i] == ip[i] & m[i] at every i.
pub masked_eq : List ℕ → List ℕ → List ℕ → Bool
masked_eq (n ∷ ns) (m ∷ ms) (b ∷ bs) = (bit_and n m == bit_and b m) && masked_eq ns ms bs
masked_eq _ _ _ = true

abbrev as_v4 : Ip → Ip → Ip
as_v4 [] ip = ip
as_v4 (b ∷ bs) ip = b ∷ bs

-- net.networkNumberAndMask, with no bytes for nil.
abbrev network_number : Ip → Ip → Ip
network_number [] ip = if length ip == 16 then ip else []
network_number (b ∷ bs) ip = b ∷ bs

unfoldable pub network_number_and_mask : Network → Ip × List ℕ
unfolding to4
network_number_and_mask n =
    let ip = network_number (to4 n.ip) n.ip in
    if length ip == 0
    then ([], [])
    else if length n.mask == 4
    then (if length ip == 4 then (ip, n.mask) else ([], []))
    else if length n.mask == 16
    then (ip, if length ip == 4 then drop 12 n.mask else n.mask)
    else ([], [])

-- net.IPNet.Contains
unfoldable pub network_contains : Network → Ip → Bool
unfolding masked_eq to4 network_number_and_mask
network_contains n ip =
    let (number, mask) = network_number_and_mask n in
    let x = as_v4 (to4 ip) ip in (length x == length number) && masked_eq number mask x

abbrev cidr4 : ℕ → ℕ → ℕ → ℕ → ℕ → ℕ → ℕ → ℕ → Network
cidr4 a b c d ma mb mc md = record { ip = a ∷ b ∷ c ∷ d ∷ []; mask = ma ∷ mb ∷ mc ∷ md ∷ [] }

abbrev cidr6 : ℕ → ℕ → ℕ → Network
cidr6 a ma mb = record { ip = a ∷ 0 ∷ zeros 14; mask = ma ∷ mb ∷ zeros 14 }

-- blockedCIDRs, in the order of the source
unfoldable pub blocked_cidrs : List Network
blocked_cidrs =
    cidr4 127 0 0 0 255 0 0 0  -- 127.0.0.0/8
    ∷ record { ip = zeros 15 ++ (1 ∷ []); mask = ones 16 }  -- ::1/128
    ∷ cidr4 169 254 0 0 255 255 0 0  -- 169.254.0.0/16
    ∷ record { ip = 0xfe ∷ 0x80 ∷ zeros 14; mask = 0xff ∷ 0xc0 ∷ zeros 14 }  -- fe80::/10
    ∷ cidr6 0xfc 0xfe 0  -- fc00::/7
    ∷ cidr4 224 0 0 0 240 0 0 0  -- 224.0.0.0/4
    ∷ cidr6 0xff 0xff 0  -- ff00::/8
    ∷ cidr4 100 64 0 0 255 192 0 0  -- 100.64.0.0/10
    ∷ cidr4 10 0 0 0 255 0 0 0  -- 10.0.0.0/8
    ∷ cidr4 172 16 0 0 255 240 0 0  -- 172.16.0.0/12
    ∷ cidr4 192 168 0 0 255 255 0 0  -- 192.168.0.0/16
    ∷ cidr4 0 0 0 0 255 0 0 0  -- 0.0.0.0/8
    ∷ cidr4 240 0 0 0 240 0 0 0  -- 240.0.0.0/4
    ∷ cidr4 198 18 0 0 255 254 0 0  -- 198.18.0.0/15
    ∷ cidr4 192 0 2 0 255 255 255 0  -- 192.0.2.0/24
    ∷ cidr4 198 51 100 0 255 255 255 0  -- 198.51.100.0/24
    ∷ cidr4 203 0 113 0 255 255 255 0  -- 203.0.113.0/24
    ∷ cidr4 169 254 169 254 255 255 255 255  -- 169.254.169.254/32
    ∷ []

abbrev or_v6 : Ip → Ip → Ip
or_v6 [] orig = to16 orig
or_v6 (b ∷ bs) orig = b ∷ bs

-- isBlockedIP
unfoldable pub is_blocked_ip : Ip → Bool
unfolding blocked_cidrs network_contains to16
is_blocked_ip ip =
    if length ip == 0
    then true
    else any (λ network. network_contains network (or_v6 (to4 ip) ip)) blocked_cidrs

loopback : is_blocked_ip (127 ∷ 0 ∷ 0 ∷ 1 ∷ []) ≡ true
unfolding is_blocked_ip
loopback = refl

public : is_blocked_ip (93 ∷ 184 ∷ 216 ∷ 34 ∷ []) ≡ false
unfolding is_blocked_ip
public = refl

mapped_private : is_blocked_ip (v4_in_v6 ++ (10 ∷ 1 ∷ 2 ∷ 3 ∷ [])) ≡ true
unfolding is_blocked_ip
mapped_private = refl

mapped_network :
    network_contains
      (record { ip = v4_in_v6 ++ (93 ∷ 184 ∷ 216 ∷ 0 ∷ []); mask = ones 15 ++ (0 ∷ []) })
      (93 ∷ 184 ∷ 216 ∷ 34 ∷ [])
    ≡ true
unfolding network_contains
mapped_network = refl

unspecified : is_blocked_ip (zeros 16) ≡ false
unfolding is_blocked_ip
unspecified = refl
