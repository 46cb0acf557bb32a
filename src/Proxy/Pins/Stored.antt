-- ===== src/Proxy/Pins/Stored.antt =====
-- What storeResolvedIPs keeps of the map of addresses.
use scopepilot.Prelude.{
  ℕ, zero, suc, ◌%◌, ◌≤◌, ◌≡◌, refl, inl, inr, Bool, true, false, List, [], ◌∷◌, length, All, leb,
  insert, if◌then◌else◌, Bool-cases, same, String,
}
use scopepilot.Text.{Text, text_keys}
use scopepilot.Normalize.{host}
use scopepilot.Proxy.{
  Proxy, Libraries, Io, Field, delete_at, store_resolved_ips, max_resolved_ips, check_rate_limit,
  log_decision,
}
use scopepilot.Proxy.Layers.{AllPublic}
use scopepilot.Proxy.Pins.{store_resolved_ips-bound}

module _ (w : Libraries) where
  -- A host in normal form, with addresses in no blocked range.
  abbrev pub IsPinned : Text × List Text → Type 0
  IsPinned (h, ips) = ((x : Text) × (h ≡ host w.to_ascii x)) × AllPublic w ips

  pub record IsSound (p : Proxy) : Type 0 where
    pub size : length p.resolved_ips ≤ max_resolved_ips
    pub pinned : All IsPinned p.resolved_ips

  All-delete_at :
      (i : ℕ) (m : List (Text × List Text)) → All IsPinned m → All IsPinned (delete_at i m)
  unfolding delete_at
  All-delete_at i [] h = tt
  All-delete_at zero (x ∷ m) h = h.1
  All-delete_at (suc i) (x ∷ m) h = (h.0, All-delete_at i m h.1)

  All-insert :
      (h : Text) (ips : List Text) (m : List (Text × List Text))
      → IsPinned (h, ips)
      → All IsPinned m
      → All IsPinned (insert h ips m)
  unfolding insert
  All-insert h ips [] new old = (new, tt)
  All-insert h ips ((j, js) ∷ m) new old = elim (Bool-cases (same j h)) [
    | inl e ↦ rw e (new, old.1)
    | inr e ↦ rw e (old.0, All-insert h ips m new old.1)
  ]

  pub store-IsSound :
      (p : Proxy) (victim : ℕ) (x : Text) (ips : List Text)
      → AllPublic w ips
      → IsSound p
      → IsSound (store_resolved_ips p victim (host w.to_ascii x) ips)
  unfolding store_resolved_ips
  store-IsSound p victim x ips all s = record {
    size = (store_resolved_ips-bound p victim (host w.to_ascii x) ips s.size).1;
    pinned =
        All-insert (host w.to_ascii x) ips _ ((x, refl), all)
          (kept (leb max_resolved_ips (length p.resolved_ips)));
  }
    where
      kept :
          (b : Bool)
          → All IsPinned (
              if b
              then delete_at (victim % length p.resolved_ips) p.resolved_ips
              else p.resolved_ips)
      kept true = All-delete_at (victim % length p.resolved_ips) p.resolved_ips s.pinned
      kept false = s.pinned

  same_pins : (p q : Proxy) → q.resolved_ips ≡ p.resolved_ips → IsSound p → IsSound q
  same_pins p q e s = record { size = rw e s.size; pinned = rw e s.pinned }

  pub logged-IsSound :
      (p : Proxy) (io : Io) (event : String) (fields : List (String × Field))
      → IsSound p
      → IsSound (log_decision p io event fields)
  unfolding log_decision
  logged-IsSound p io event fields s = record { size = s.size; pinned = s.pinned }

  pub limited-IsSound :
      (p : Proxy) (io : Io) (h : Text) → IsSound p → IsSound (check_rate_limit p io h).0
  unfolding check_rate_limit
  limited-IsSound p io h s = record { size = s.size; pinned = s.pinned }
