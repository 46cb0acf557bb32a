-- ===== src/Proxy/Pins.antt =====
-- The addresses that the proxy keeps for the hosts it has looked up.
pub mod Stored
pub mod Served
pub mod Runs
use scopepilot.Prelude.{
  ℕ, zero, suc, ◌+◌, ◌%◌, ◌≤◌, ◌<◌, ◌≡◌, List, [], ◌∷◌, some, arith, length, lookup,
  lookup-insert_self, length-insert-le, leb, Bool-cases, inl, inr, if◌then◌else◌, not_leb, leb→le,
}
use scopepilot.Text.{Text, text_keys}
use scopepilot.Proxy.{Proxy, store_resolved_ips, max_resolved_ips, delete_at}
use native.Mathlib.Nat.{mod-lt}

length-delete_at :
    {A : Type 0} (i : ℕ) (xs : List A) → i < length xs → length (delete_at i xs) + 1 ≡ length xs
unfolding delete_at
length-delete_at i [] h = omega arith
length-delete_at zero (x ∷ xs) h = omega arith
length-delete_at (suc i) (x ∷ xs) h = omega (arith, length-delete_at i xs)

room :
    (p : Proxy) (victim : ℕ)
    → length p.resolved_ips ≤ max_resolved_ips
    → length (
          if leb max_resolved_ips (length p.resolved_ips)
          then delete_at (victim % length p.resolved_ips) p.resolved_ips
          else p.resolved_ips)
        + 1
      ≤ max_resolved_ips
room p victim bound = elim (Bool-cases (leb max_resolved_ips (length p.resolved_ips))) [
  | inl full ↦
      let at_bound = leb→le max_resolved_ips (length p.resolved_ips) full in
      let positive : zero < length p.resolved_ips = omega arith in
      let shorter =
        length-delete_at (victim % length p.resolved_ips) p.resolved_ips (mod-lt victim positive) in
      rw full (omega (arith, shorter, bound))
  | inr open_slot ↦
      let below = not_leb max_resolved_ips (length p.resolved_ips) open_slot in
      rw open_slot (omega (arith, below))
]

-- storeResolvedIPs keeps the addresses of the host, and the map never grows past its 10000 entries,
-- whichever entry the full map gives up.
pub store_resolved_ips-bound :
    (p : Proxy) (victim : ℕ) (h : Text) (ips : List Text)
    → length p.resolved_ips ≤ max_resolved_ips
    → (lookup h (store_resolved_ips p victim h ips).resolved_ips ≡ some ips)
      × (length (store_resolved_ips p victim h ips).resolved_ips ≤ max_resolved_ips)
unfolding store_resolved_ips
store_resolved_ips-bound p victim h ips bound =
    (lookup-insert_self h ips _, step _ _ (length-insert-le h ips _) (room p victim bound))
  where
    step : (a b : ℕ) → a ≤ b + 1 → b + 1 ≤ max_resolved_ips → a ≤ max_resolved_ips
    step a b x y = omega (arith, x, y)
